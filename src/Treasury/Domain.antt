-- ===== src/Treasury/Domain.antt =====
-- dsh-treasury/src/domain.ts and types.ts: the rows of the ledger, and the storage-domain table that
-- keeps them. The storage domain is another package: `Table` says what the ledger relies on.
pub mod Weigh
pub mod Memory
use deepseek_harness_web3_ag.Prelude.{
  is_space, ℕ, ◌≡◌, Bool, true, false, ◌&&◌, ◌||◌, not, Option, none, some, List, [], ◌∷◌, ◌++◌,
  Text, codes, text_eq, leb, ◌==◌, if◌then◌else◌, all,
}
use deepseek_harness_web3_ag.Prelude.Maps.{Dict, get}
use deepseek_harness_web3_ag.Prelude.Distinct.{Distinct}
use deepseek_harness_web3_ag.Treasury.Economics.{TreasuryState, BudgetCategory, BudgetAllocation}

-- A JavaScript number, as far as the checks of this package tell numbers apart: a non-negative
-- integer, a non-negative number with a fraction, a finite negative one, NaN, an infinity.
pub data Number : Type 0 where
  nat : ℕ → Number
  fraction negative nan infinite : Number

-- `Number.isInteger(x) && x >= 0`, with the integer.
abbrev pub natural? : Number → Option ℕ
natural? (nat n) = some n
natural? _ = none

-- `Number.isFinite(x) && x >= 0`
abbrev pub finite_non_negative : Number → Bool
finite_non_negative (nat n) = true
finite_non_negative fraction = true
finite_non_negative _ = false

-- `s.trim().length === 0`
abbrev pub is_blank : Text → Bool
is_blank s = all is_space s

pub record ChainBalance : Type 0 where
  pub chain : Text
  pub token : Text
  pub amount : Number
  pub usd_estimate : ℕ

-- A balance as a caller hands it over, before `validateBalance`.
pub record BalanceInput : Type 0 where
  pub chain : Text
  pub token : Text
  pub amount : Number
  pub usd_estimate : Number

pub record Expense : Type 0 where
  pub timestamp : ℕ
  pub category : BudgetCategory
  pub token : Text
  pub amount : ℕ
  pub description : Text

-- `${balance.chain}:${balance.token}`
unfoldable pub balance_key : ChainBalance → Text
balance_key b = b.chain ++ codes ":" ++ b.token

pub record TreasuryReport : Type 0 where
  pub state : TreasuryState
  pub balances : List ChainBalance
  pub total_value_usd : ℕ
  pub daily_burn_usd : ℕ
  pub runway_days : ℕ
  pub budget : BudgetAllocation
  pub recent_expenses : List Expense

-- What a caller hands over; a category outside the six is `none`.
pub record ExpenseInput : Type 0 where
  pub category : Option BudgetCategory
  pub amount : Number
  pub token : Option Text
  pub description : Option Text

pub record TreasuryStateChange : Type 0 where
  pub previous : TreasuryState
  pub current : TreasuryState
  pub report : TreasuryReport

-- A domain table: rows by key. A write is durable first, and may be refused (`none`); then the rows
-- in memory stay as they were.
pub record Table (Row : Type 0) : Type 1 where
  pub Rows : Type 0
  pub entries : Rows → Dict Row
  pub put : Text → Row → Rows → Option Rows
  pub delete : Text → Rows → Option Rows
  pub distinct : (t : Rows) → Distinct (entries t)
  pub get-put :
      (k j : Text) (r : Row) (t u : Rows)
      → put k r t ≡ some u
      → get j (entries u) ≡ (if text_eq k j then some r else get j (entries t))
  pub get-delete :
      (k j : Text) (t u : Rows)
      → delete k t ≡ some u
      → get j (entries u) ≡ (if text_eq k j then none else get j (entries t))

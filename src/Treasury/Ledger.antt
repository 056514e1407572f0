-- ===== src/Treasury/Ledger.antt =====
-- dsh-treasury/src/index.ts: the `Treasury` service. A method takes the ledger and the readings of
-- the clock that it makes, and returns its result with the new ledger, also when it throws.
mod Monad
pub mod Rows
pub mod Settle
pub mod Balances
pub mod ByTime
pub mod Expenses
pub use Monad.*
use deepseek_harness_web3_ag.Prelude.{
  ℕ, suc, ◌+◌, ◌-◌, ◌*◌, ◌/◌, ◌≡◌, Bool, true, false, ◌&&◌, ◌||◌, not, Option, none, some, List, [],
  ◌∷◌, ◌++◌, map, Text, codes, text_eq, text_lt, ltb, leb, ◌==◌, if◌then◌else◌, length, take, any,
}
use deepseek_harness_web3_ag.Prelude.Maps.{Dict, keys}
use deepseek_harness_web3_ag.Treasury.Economics.{
  TreasuryState, BudgetCategory, BudgetAllocation, CostDecision, inference, tools, infrastructure,
  storage, messaging, reserve, compute_runway, compute_treasury_state, authorize_cost,
}
use deepseek_harness_web3_ag.Treasury.Domain.{
  Number, natural?, finite_non_negative, is_blank, ChainBalance, BalanceInput, Expense,
  ExpenseInput, TreasuryReport, TreasuryStateChange, balance_key, Table,
}
use deepseek_harness_web3_ag.Treasury.Domain.Weigh.{weigh}

-- `a.category === b.category`
abbrev pub category_eq : BudgetCategory → BudgetCategory → Bool
category_eq inference inference = true
category_eq tools tools = true
category_eq infrastructure infrastructure = true
category_eq storage storage = true
category_eq messaging messaging = true
category_eq reserve reserve = true
category_eq _ _ = false

abbrev pub state_eq : TreasuryState → TreasuryState → Bool
state_eq TreasuryState.funded TreasuryState.funded = true
state_eq TreasuryState.low TreasuryState.low = true
state_eq TreasuryState.critical TreasuryState.critical = true
state_eq TreasuryState.depleted TreasuryState.depleted = true
state_eq _ _ = false

abbrev pub day_ms : ℕ
day_ms = 86400000

-- `Math.ceil(a / b)` for a positive `b`.
abbrev pub ceil_div : ℕ → ℕ → ℕ
ceil_div a b = (a + (b - 1)) / b

-- The comparison of `sortedExpenses`: by timestamp, and by key at equal timestamps.
unfoldable pub older : Text × Expense → Text × Expense → Bool
unfolding text_lt
older (k, a) (j, b) = ltb a.timestamp b.timestamp || a.timestamp == b.timestamp && text_lt k j

unfoldable pub insert_sorted : Text × Expense → Dict Expense → Dict Expense
insert_sorted x [] = x ∷ []
insert_sorted x (y ∷ ys) = if older y x then y ∷ insert_sorted x ys else x ∷ y ∷ ys

-- `entries.sort(...)`
unfoldable pub sort_expenses : Dict Expense → Dict Expense
sort_expenses [] = []
sort_expenses (x ∷ xs) = insert_sorted x (sort_expenses xs)

-- The check of one row, which comes out typed.
unfoldable pub validate_balance : BalanceInput → Result ChainBalance
validate_balance b =
    if is_blank b.chain || is_blank b.token
    then err invalid_balance
    else if finite_non_negative b.amount
    then elim (natural? b.usd_estimate) [
      | none ↦ err invalid_balance
      | some usd ↦
          ok (record { chain = b.chain; token = b.token; amount = b.amount; usd_estimate = usd })
    ]
    else err invalid_balance

-- The first loop of `updateBalances`, with the keys of the rows before.
unfoldable pub check_rows : List Text → List BalanceInput → Result (List ChainBalance)
unfolding validate_balance balance_key
check_rows keep [] = ok []
check_rows keep (b ∷ bs) = validate_balance b >>=ʳ λ row.
    (if any (text_eq (balance_key row)) keep
      then err invalid_balance
      else check_rows (balance_key row ∷ keep) bs >>=ʳ λ rows. ok (row ∷ rows))

-- `Date.now()` as a settling mutation reads it, in this order.
pub record Readings : Type 0 where
  pub at_runway : ℕ
  pub at_burn : ℕ
  pub at_report : ℕ

-- The checked configuration: `burnWindowMs` is positive, and so is `maxExpenses`.
pub record ResolvedConfig : Type 0 where
  pub budget : BudgetAllocation
  pub burn_window_ms : ℕ
  pub fixed_daily_burn_usd : ℕ
  pub max_expenses : ℕ

-- What one expense adds to the windowed spend: nothing, once it is older than the window.
abbrev pub windowed : ResolvedConfig → ℕ → Expense → ℕ
windowed config now e = if leb now (e.timestamp + config.burn_window_ms) then e.amount else 0

-- `x ?? d`
abbrev default_to : Text → Option Text → Text
default_to d none = d
default_to d (some t) = t

abbrev pub expense_of : ExpenseInput → ℕ → BudgetCategory → ℕ → Expense
expense_of input now category amount = record {
  timestamp = now;
  category = category;
  token = default_to (codes "USD") input.token;
  amount = amount;
  description = default_to [] input.description;
}

module _ {B : Table ChainBalance} {X : Table Expense} (config : ResolvedConfig) where
  unfoldable pub total_value_usd : Ledger B X → ℕ
  total_value_usd s = weigh (λ b. b.usd_estimate) (B.entries s.balances)

  -- The sum and the quotient are exact here. So are the code's doubles while the windowed spend in
  -- millionths of a dollar times 86,400,000 stays below 2^53; from there on they round.
  unfoldable pub daily_burn_usd : ℕ → Ledger B X → ℕ
  daily_burn_usd now s =
      config.fixed_daily_burn_usd
      + ceil_div (weigh (windowed config now) (X.entries s.expenses) * day_ms) config.burn_window_ms

  unfoldable pub runway_days : ℕ → Ledger B X → ℕ
  unfolding total_value_usd daily_burn_usd
  runway_days now s = compute_runway (total_value_usd s) (daily_burn_usd now s)

  unfoldable pub spent_percentage : BudgetCategory → Ledger B X → ℕ
  unfolding total_value_usd
  spent_percentage category s =
      if total_value_usd s == 0
      then 100
      else weigh (λ e. if category_eq e.category category then e.amount else 0)
          (X.entries s.expenses)
        * 100
        / total_value_usd s

  unfoldable pub sorted_expenses : Ledger B X → Dict Expense
  unfolding sort_expenses
  sorted_expenses s = sort_expenses (X.entries s.expenses)

  -- `report()`, with its two readings of the clock.
  unfoldable pub report : ℕ → ℕ → Ledger B X → TreasuryReport
  unfolding total_value_usd daily_burn_usd runway_days sorted_expenses
  report at_burn at_runway s = record {
    state = s.current;
    balances = map (λ e. e.1) (B.entries s.balances);
    total_value_usd = total_value_usd s;
    daily_burn_usd = daily_burn_usd at_burn s;
    runway_days = runway_days at_runway s;
    budget = config.budget;
    recent_expenses = map (λ e. e.1) (sorted_expenses s);
  }

  -- A fresh service over persisted rows (the constructor).
  unfoldable pub open_ledger : ℕ → B.Rows → X.Rows → Ledger B X
  unfolding runway_days
  open_ledger now balances expenses =
      let s : Ledger B X = record {
        balances = balances;
        expenses = expenses;
        current = TreasuryState.depleted;
        emitted = [];
      } in
      record s { current = compute_treasury_state (runway_days now s) }

  unfoldable pub authorize : BudgetCategory → ℕ → Ledger B X → CostDecision
  unfolding spent_percentage authorize_cost
  authorize category cost s =
      authorize_cost s.current category cost config.budget (spent_percentage category s)

  -- Recomputes the state, and publishes a transition with the report of the new ledger.
  unfoldable pub settle : Readings → Action B X TreasuryReport
  unfolding runway_days report
  settle clock s =
      let next = compute_treasury_state (runway_days clock.at_runway s) in
      let s' : Ledger B X = record s { current = next } in
      let told = report clock.at_burn clock.at_report s' in
      (
        ok told,
        if state_eq next s.current then s' else record s' {
          emitted =
              s.emitted
              ++ state_changed (record { previous = s.current; current = next; report = told })
                ∷ [];
        },
      )

  -- The second loop: rows that the update does not name go.
  unfoldable pub delete_absent : List Text → List Text → Action B X (Unit {0})
  delete_absent keep [] s = (ok tt, s)
  delete_absent keep (k ∷ ks) s = elim (any (text_eq k) keep) [
    | true ↦ delete_absent keep ks s
    | false ↦ elim (B.delete k s.balances) [
      | none ↦ (err write_failed, s)
      | some t ↦ delete_absent keep ks (record s { balances = t })
    ]
  ]

  -- The third loop.
  unfoldable pub put_rows : List ChainBalance → Action B X (Unit {0})
  put_rows [] s = (ok tt, s)
  put_rows (row ∷ rows) s = elim (B.put (balance_key row) row s.balances) [
    | none ↦ (err write_failed, s)
    | some t ↦ put_rows rows (record s { balances = t })
  ]

  unfoldable pub update_balances : List BalanceInput → Readings → Action B X TreasuryReport
  unfolding check_rows delete_absent put_rows settle
  update_balances inputs clock s = elim (check_rows [] inputs) [
    | err e ↦ (err e, s)
    | ok rows ↦
        (delete_absent (map balance_key rows) (keys (B.entries s.balances))
            >> (put_rows rows >> settle clock))
          s
  ]

  -- The pruning loop: the keys in turn.
  unfoldable pub delete_expenses : List Text → Action B X (Unit {0})
  delete_expenses [] s = (ok tt, s)
  delete_expenses (k ∷ ks) s = elim (X.delete k s.expenses) [
    | none ↦ (err write_failed, s)
    | some t ↦ delete_expenses ks (record s { expenses = t })
  ]

  unfoldable pub prune : Action B X (Unit {0})
  unfolding delete_expenses sorted_expenses
  prune s =
      let sorted = sorted_expenses s in
      delete_expenses (keys (take (length sorted - config.max_expenses) sorted)) s

  -- `recordExpense` from its first write on; `key` is `exp-${timestamp}-${randomUUID()}`.
  unfoldable pub store_expense : Expense → Text → Readings → Action B X TreasuryReport
  unfolding prune settle
  store_expense expense key clock s = elim (X.put key expense s.expenses) [
    | none ↦ (err write_failed, s)
    | some t ↦
        (prune >> (emit (expense_recorded expense) >> settle clock)) (record s { expenses = t })
  ]

  -- `now` is the timestamp.
  unfoldable pub record_expense :
      ExpenseInput → (now : ℕ) (key : Text) → Readings → Action B X TreasuryReport
  unfolding store_expense
  record_expense input now key clock s = elim input.category [
    | none ↦ (err invalid_expense, s)
    | some category ↦ elim (natural? input.amount) [
      | none ↦ (err invalid_expense, s)
      | some amount ↦ store_expense (expense_of input now category amount) key clock s
    ]
  ]

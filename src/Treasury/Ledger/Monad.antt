-- ===== src/Treasury/Ledger/Monad.antt =====
-- The state of the treasury service, its events and failures, and the steps of its methods.
use deepseek_harness_web3_ag.Prelude.{◌≡◌, refl, ◌⊎◌, inl, inr, List, [], ◌∷◌, ◌++◌, arith}
use deepseek_harness_web3_ag.Treasury.Economics.{TreasuryState}
use deepseek_harness_web3_ag.Treasury.Domain.{ChainBalance, Expense, TreasuryStateChange, Table}

-- `TreasuryErrorCode`, and a durable write that the storage domain refused.
pub data Error : Type 0 where
  invalid_budget invalid_expense invalid_balance write_failed : Error

pub data Result {ℓ} (A : Type ℓ) : Type ℓ where
  ok : A → Result A
  err : Error → Result A

infixl 5 ◌>>=ʳ◌
abbrev pub ◌>>=ʳ◌ {ℓ κ} : {A : Type ℓ} {B : Type κ} → Result A → (A → Result B) → Result B
ok a >>=ʳ k = k a
err e >>=ʳ k = err e

pub Result-cases {ℓ} :
    {A : Type ℓ} (r : Result A) → ((e : Error) × (r ≡ err e)) ⊎ ((a : A) × (r ≡ ok a))
Result-cases (ok a) = inr (a, refl)
Result-cases (err e) = inl (e, refl)

pub data Event : Type 0 where
  expense_recorded : Expense → Event
  state_changed : TreasuryStateChange → Event

pub record Ledger (B : Table ChainBalance) (X : Table Expense) : Type 0 where
  pub balances : B.Rows
  pub expenses : X.Rows
  pub current : TreasuryState
  pub emitted : List Event

module _ (B : Table ChainBalance) (X : Table Expense) where
  abbrev pub Action : Type 0 → Type 0
  Action A = Ledger B X → Result A × Ledger B X

module _ {B : Table ChainBalance} {X : Table Expense} where
  -- An `await` that threw skips what follows.
  abbrev pub continue :
      {A C : Type 0} → Result A × Ledger B X → Action B X C → Result C × Ledger B X
  continue (ok a, s) k = k s
  continue (err e, s) k = (err e, s)

  infixr 5 ◌>>◌
  abbrev pub ◌>>◌ : {A C : Type 0} → Action B X A → Action B X C → Action B X C
  ◌>>◌ m k s = continue (m s) k

  -- What goes through came through each step.
  pub continue-eq-ok :
      {A C : Type 0} (p : Result A × Ledger B X) (k : Action B X C) {r : C} {s' : Ledger B X}
      → continue p k ≡ (ok r, s')
      → (a : A) × (s₁ : Ledger B X) × (p ≡ (ok a, s₁)) × (k s₁ ≡ (ok r, s'))
  continue-eq-ok (ok a, s) k h = (a, s, refl, h)
  continue-eq-ok (err e, s) k h = absurd (ground arith)

  -- What threw was thrown by the first step, or by what follows it.
  pub continue-eq-err :
      {A C : Type 0} (p : Result A × Ledger B X) (k : Action B X C) {e : Error} {s' : Ledger B X}
      → continue p k ≡ (err e, s')
      → (p ≡ (err e, s')) ⊎ ((a : A) × (s₁ : Ledger B X) × (p ≡ (ok a, s₁)) × (k s₁ ≡ (err e, s')))
  continue-eq-err (ok a, s) k h = inr (a, s, refl, h)
  continue-eq-err (err e, s) k h = inl (ground arith)

  abbrev pub emit : Event → Action B X (Unit {0})
  emit e s = (ok tt, record s { emitted = s.emitted ++ e ∷ [] })

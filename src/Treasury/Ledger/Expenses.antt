-- ===== src/Treasury/Ledger/Expenses.antt =====
-- What `recordExpense` leaves in the expense table, and what it does when it throws.
use deepseek_harness_web3_ag.Prelude.Distinct.{Distinct, get-drop, Distinct-drop}
use deepseek_harness_web3_ag.Treasury.Ledger.ByTime.{
  NoLater, take-sort_expenses, length-sort_expenses,
}
use deepseek_harness_web3_ag.Prelude.{
  ℕ, ◌-◌, ◌≤◌, ◌≡◌, sym, ◌∙◌, ◌⊎◌, inl, inr, none, some, [], ◌∷◌, ◌++◌, Text, arith, Option-cases,
  length, take, drop, length-drop, length-append, take-append-drop, All, text_eq, if◌then◌else◌, ap,
  ◌+◌,
}
use deepseek_harness_web3_ag.Prelude.Maps.{Dict, get, keys}
use deepseek_harness_web3_ag.Treasury.Economics.{BudgetCategory}
use deepseek_harness_web3_ag.Treasury.Domain.{
  ChainBalance, Expense, ExpenseInput, TreasuryReport, Table, natural?,
}
use deepseek_harness_web3_ag.Treasury.Domain.Weigh.{weigh_ext}
use deepseek_harness_web3_ag.Treasury.Ledger.{
  Ledger, ok, err, invalid_expense, Readings, ResolvedConfig, expense_of, continue-eq-ok,
  expense_recorded, store_expense, sort_expenses, sorted_expenses, prune, settle, record_expense,
}
use deepseek_harness_web3_ag.Treasury.Ledger.Settle.{settle_keeps_rows}
use deepseek_harness_web3_ag.Treasury.Ledger.Rows.{
  Deleted, delete_expenses-Deleted, weigh-one, get-sort_expenses, Distinct-sort_expenses,
}

-- The rows that survive a pruning of `m`: the last of the sorted ones, as many as the retention allows.
abbrev pub newest : ResolvedConfig → Dict Expense → Dict Expense
newest config m = drop (length (sort_expenses m) - config.max_expenses) (sort_expenses m)

length-take : (n : ℕ) (m : Dict Expense) → length (take n m) + (length m - n) ≡ length m
length-take n m =
    omega (
      arith,
      ap length (take-append-drop n m),
      length-append (take n m) (drop n m),
      length-drop n m,
    )

module _ (config : ResolvedConfig) where
  newest-le : (m : Dict Expense) → length (newest config m) ≤ config.max_expenses
  newest-le m =
      omega (arith, length-drop (length (sort_expenses m) - config.max_expenses) (sort_expenses m))

module _ (X : Table Expense) (config : ResolvedConfig) where
  -- A table that agrees with the newest rows holds no more rows than the retention.
  rows-le_retention :
      (m : Dict Expense) (t : X.Rows)
      → Distinct m
      → ((j : Text) → get j (X.entries t) ≡ get j (newest config m))
      → length (X.entries t) ≤ config.max_expenses
  rows-le_retention m t d same =
      let kept = newest config m in
      let distinct : Distinct kept =
        Distinct-drop (length (sort_expenses m) - config.max_expenses) (sort_expenses m)
          (Distinct-sort_expenses m d) in
      omega (
        arith,
        weigh_ext (λ _. 1) (X.entries t) kept (X.distinct t) distinct same,
        weigh-one (X.entries t),
        weigh-one kept,
        newest-le config m,
      )

module _ {B : Table ChainBalance} {X : Table Expense} (config : ResolvedConfig) where
  prune-newest :
      (s s' : Ledger B X)
      → prune config s ≡ (ok tt, s')
      → (j : Text) → get j (X.entries s'.expenses) ≡ get j (newest config (X.entries s.expenses))
  unfolding prune sorted_expenses
  prune-newest s s' h j =
      let m = X.entries s.expenses in
      let sorted = sort_expenses m in
      let n = length sorted - config.max_expenses in
      let gone : Deleted config (keys (take n sorted)) s s' =
        delete_expenses-Deleted config (keys (take n sorted)) s s' h in
      gone.rows j
      ∙ rw (← get-sort_expenses m j (X.distinct s.expenses))
          (sym (get-drop n j sorted (Distinct-sort_expenses m (X.distinct s.expenses))))

  prune-keeps : (s s' : Ledger B X) → prune config s ≡ (ok tt, s') → s'.balances ≡ s.balances
  unfolding prune sorted_expenses
  prune-keeps s s' h =
      let sorted = sort_expenses (X.entries s.expenses) in
      (delete_expenses-Deleted config (keys (take (length sorted - config.max_expenses) sorted)) s
        s' h).balances

  -- A successful `recordExpense`: the rows with the new one are split in two, and those that stay are
  -- nowhere older than those that go, which are as many as the retention is exceeded by.
  pub record Recorded (key : Text) (e : Expense) (s s' : Ledger B X) : Type 0 where
    pub written : X.Rows
    pub added :
        (j : Text)
        → get j (X.entries written)
          ≡ (if text_eq key j then some e else get j (X.entries s.expenses))
    pub dropped : Dict Expense
    pub kept : Dict Expense
    pub split : (j : Text) → get j (X.entries written) ≡ get j (dropped ++ kept)
    pub distinct : Distinct (dropped ++ kept)
    pub rows : (j : Text) → get j (X.entries s'.expenses) ≡ get j kept
    pub oldest : All (λ d. All (NoLater d) kept) dropped
    pub removed : length dropped ≡ length (X.entries written) - config.max_expenses
    pub bounded : length (X.entries s'.expenses) ≤ config.max_expenses
    pub balances : s'.balances ≡ s.balances

  after_settle :
      (e : Expense) (clock : Readings) (s s' : Ledger B X) (r : TreasuryReport)
      → settle config clock (record s { emitted = s.emitted ++ expense_recorded e ∷ [] })
        ≡ (ok r, s')
      → (s'.balances ≡ s.balances) × (s'.expenses ≡ s.expenses)
  after_settle e clock s s' r h = ground (
    arith,
    settle_keeps_rows config clock (record s { emitted = s.emitted ++ expense_recorded e ∷ [] }),
    h,
  )

  store_expense-Recorded :
      (e : Expense) (key : Text) (clock : Readings) (s s' : Ledger B X) (r : TreasuryReport)
      → store_expense config e key clock s ≡ (ok r, s')
      → Recorded key e s s'
  unfolding store_expense
  store_expense-Recorded e key clock s s' r h = elim (Option-cases (X.put key e s.expenses)) [
    | inl refused ↦ absurd (cc (rw (refused, store_expense) at h))
    | inr (t, put) ↦
        let (_, s₁, pruned, after) =
          continue-eq-ok (prune config (record s { expenses = t })) _
            (rw (put, store_expense) at h) in
        let gone : (j : Text)
            → get j (X.entries s₁.expenses) ≡ get j (newest config (X.entries t)) =
          prune-newest (record s { expenses = t }) s₁ pruned in
        let frame : (s'.balances ≡ s₁.balances) × (s'.expenses ≡ s₁.expenses) =
          after_settle e clock s₁ s' r after in
        let same : s'.expenses ≡ s₁.expenses = frame.1 in
        let m = X.entries t in
        let sorted = sort_expenses m in
        let n = length sorted - config.max_expenses in
        record {
          written = t;
          added = λ j. X.get-put key j e s.expenses t put;
          dropped = take n sorted;
          kept = newest config m;
          split = λ j. rw (take-append-drop n sorted) (sym (get-sort_expenses m j (X.distinct t)));
          distinct = rw (take-append-drop n sorted) (Distinct-sort_expenses m (X.distinct t));
          rows = λ j. rw same (gone j);
          oldest = take-sort_expenses n m;
          removed = omega (arith, length-take n sorted, length-sort_expenses m);
          bounded =
              rw same (rows-le_retention X config (X.entries t) s₁.expenses (X.distinct t) gone);
          balances = frame.0 ∙ (prune-keeps (record s { expenses = t }) s₁ pruned);
        }
  ]

  -- A call of `recordExpense` that returns had a category and a natural amount, and adds the expense with
  -- these and the time of the call under its key. Of the rows with the new one, as many are deleted as
  -- exceed `maxExpenses`, and no deleted row is later than one that stays: the new row itself is deleted
  -- only where all that stay are at least as new. At most `maxExpenses` rows stay, and the balances do not change.
  pub record_expense-Recorded :
      (input : ExpenseInput) (now : ℕ) (key : Text) (clock : Readings) (s s' : Ledger B X)
      (r : TreasuryReport)
      → record_expense config input now key clock s ≡ (ok r, s')
      → (c : BudgetCategory) × (a : ℕ) × (input.category ≡ some c)
        × (natural? input.amount ≡ some a)
        × Recorded key (expense_of input now c a) s s'
  unfolding record_expense
  record_expense-Recorded input now key clock s s' r h = elim (Option-cases input.category) [
    | inl unknown ↦ absurd (cc (rw (unknown, record_expense) at h))
    | inr (c, hc) ↦ elim (Option-cases (natural? input.amount)) [
      | inl malformed ↦ absurd (cc (rw (hc, malformed, record_expense) at h))
      | inr (a, ha) ↦ (
        c,
        a,
        hc,
        ha,
        store_expense-Recorded (expense_of input now c a) key clock s s' r
            (rw (hc, ha, record_expense) at h),
      )
    ]
  ]

  -- A malformed input is refused before any write: no row, state or event changes.
  record_expense_refuses :
      (input : ExpenseInput) (now : ℕ) (key : Text) (clock : Readings) (s : Ledger B X)
      → (input.category ≡ none) ⊎ (natural? input.amount ≡ none)
      → record_expense config input now key clock s ≡ (err invalid_expense, s)
  unfolding record_expense
  record_expense_refuses input now key clock s h = ground arith

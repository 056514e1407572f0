-- ===== src/Treasury/Ledger/Balances.antt =====
-- What `updateBalances` leaves in the balance table, and what it does when it throws.
use deepseek_harness_web3_ag.Prelude.Distinct.{Distinct, any-keys, any-keys_absent}
use deepseek_harness_web3_ag.Prelude.{
  ℕ, ◌+◌, ◌≡◌, ◌⊎◌, refl, ◌∙◌, inl, inr, true, Option, none, List, [], ◌∷◌, map, ap, Text, text_eq,
  text_eq→eq, text_eq_refl, if◌then◌else◌, arith, Option-cases, Bool-cases, any,
}
use deepseek_harness_web3_ag.Prelude.Maps.{Dict, get, keys}
use deepseek_harness_web3_ag.Treasury.Domain.{
  ChainBalance, BalanceInput, Expense, TreasuryReport, Table, balance_key,
}
use deepseek_harness_web3_ag.Treasury.Domain.Weigh.{weigh, weigh_ext}
use deepseek_harness_web3_ag.Treasury.Ledger.{
  Ledger, ok, err, Error, write_failed, Readings, ResolvedConfig, continue-eq-ok, continue-eq-err,
  Result-cases, continue, ◌>>◌, validate_balance, check_rows, delete_absent, put_rows, settle,
  update_balances, total_value_usd,
}
use deepseek_harness_web3_ag.Treasury.Ledger.Settle.{settle_keeps_rows}
use deepseek_harness_web3_ag.Treasury.Ledger.Rows.{
  Sheet, by_key, or_else, delete_absent-Sheet, put_rows-Sheet,
}

-- The sum of the dollar estimates of the rows.
abbrev pub sum_usd : List ChainBalance → ℕ
sum_usd [] = 0
sum_usd (row ∷ rows) = row.usd_estimate + sum_usd rows

keys-by_key : (rows : List ChainBalance) → map balance_key rows ≡ keys (by_key rows)
keys-by_key [] = refl
keys-by_key (row ∷ rows) = ap (λ ks. balance_key row ∷ ks) (keys-by_key rows)

weigh-by_key : (rows : List ChainBalance) → weigh (λ b. b.usd_estimate) (by_key rows) ≡ sum_usd rows
weigh-by_key [] = refl
weigh-by_key (row ∷ rows) = ap (λ n. row.usd_estimate + n) (weigh-by_key rows)

-- Rows that pass the first loop have keys of their own, and none of the keys before.
check_rows-Distinct :
    (keep : List Text) (inputs : List BalanceInput) (rows : List ChainBalance)
    → check_rows keep inputs ≡ ok rows
    → Distinct (by_key rows)
      × ((j : Text) → any (text_eq j) keep ≡ true → get j (by_key rows) ≡ none)
unfolding check_rows get
check_rows-Distinct keep [] rows h = let e : [] ≡ rows = cc in rw (← e) (tt, λ j _. refl)
check_rows-Distinct keep (b ∷ bs) rows h = elim (Result-cases (validate_balance b)) [
  | inl (e, bad) ↦ absurd (cc (rw (bad, check_rows) at h))
  | inr (row, good) ↦ elim (Bool-cases (any (text_eq (balance_key row)) keep)) [
    | inl twice ↦ absurd (cc (rw (good, twice, check_rows) at h))
    | inr fresh ↦ elim (Result-cases (check_rows (balance_key row ∷ keep) bs)) [
      | inl (e, bad) ↦ absurd (cc (rw (good, fresh, bad, check_rows) at h))
      | inr (rest, checked) ↦
          let e : row ∷ rest ≡ rows = cc (rw (good, fresh, checked, check_rows) at h) in
          let (distinct, apart) = check_rows-Distinct (balance_key row ∷ keep) bs rest checked in
          rw (← e) (
            (apart (balance_key row) (rw text_eq_refl), distinct),
            λ j seen. ground (arith, apart j, text_eq→eq (balance_key row) j),
          )
    ]
  ]
]

-- Deleting what the update does not name and writing what it names leaves what it names.
replaced_at :
    (keep : Dict ChainBalance) (old : Dict ChainBalance) (j : Text)
    → or_else (get j keep) (
        if any (text_eq j) (keys old)
        then if any (text_eq j) (keys keep) then get j old else none
        else get j old)
      ≡ get j keep
replaced_at keep old j = ground (arith, any-keys j old, any-keys j keep, any-keys_absent j keep)

module _ {B : Table ChainBalance} {X : Table Expense} (config : ResolvedConfig) where
  -- A successful `updateBalances`: the balance table holds exactly the given rows, each under its
  -- key, its value is their sum, and the expenses stay.
  pub record Replaced (rows : List ChainBalance) (s s' : Ledger B X) : Type 0 where
    pub distinct : Distinct (by_key rows)
    pub table : (j : Text) → get j (B.entries s'.balances) ≡ get j (by_key rows)
    pub value : total_value_usd config s' ≡ sum_usd rows
    pub expenses : s'.expenses ≡ s.expenses

  value_of_table :
      (rows : List ChainBalance) (s : Ledger B X)
      → Distinct (by_key rows)
      → ((j : Text) → get j (B.entries s.balances) ≡ get j (by_key rows))
      → total_value_usd config s ≡ sum_usd rows
  unfolding total_value_usd
  value_of_table rows s d same =
      weigh_ext (λ b. b.usd_estimate) (B.entries s.balances) (by_key rows) (B.distinct s.balances) d
        same
      ∙ weigh-by_key rows

  settled :
      (clock : Readings) (s s' : Ledger B X) (r : TreasuryReport)
      → settle config clock s ≡ (ok r, s')
      → (s'.balances ≡ s.balances) × (s'.expenses ≡ s.expenses)
  settled clock s s' r h = ground (arith, settle_keeps_rows config clock s, h)

  write_sheet-Replaced :
      (rows : List ChainBalance) (clock : Readings) (s s' : Ledger B X) (r : TreasuryReport)
      → Distinct (by_key rows)
      → continue
          (delete_absent config (map balance_key rows) (keys (B.entries s.balances)) s)
          (put_rows config rows >> settle config clock)
        ≡ (ok r, s')
      → Replaced rows s s'
  write_sheet-Replaced rows clock s s' r distinct h =
      let (_, s₁, deleted, h₁) =
        continue-eq-ok (delete_absent config (map balance_key rows) (keys (B.entries s.balances)) s)
          _ h in
      let (_, s₂, written, h₂) = continue-eq-ok (put_rows config rows s₁) _ h₁ in
      let gone =
        delete_absent-Sheet config (map balance_key rows) (keys (B.entries s.balances)) s s₁
          deleted in
      let sheet = put_rows-Sheet config rows s₁ s₂ distinct written in
      let table : (j : Text) → get j (B.entries s₂.balances) ≡ get j (by_key rows) = λ j.
        sheet.rows j
        ∙ ap (or_else (get j (by_key rows))) (gone.rows j)
        ∙ (rw (keys-by_key rows) (replaced_at (by_key rows) (B.entries s.balances) j)) in
      let (same, kept) = settled clock s₂ s' r h₂ in
      record {
        distinct = distinct;
        table = λ j. rw same (table j);
        value = value_of_table rows s' distinct (λ j. rw same (table j));
        expenses = kept ∙ sheet.expenses ∙ gone.expenses;
      }

  -- An `updateBalances` that returns was given well-formed rows without a duplicate; afterwards the
  -- balance table holds exactly these rows, each under its key, the treasury is worth their sum,
  -- and the expenses are those of before.
  pub update_balances-Replaced :
      (inputs : List BalanceInput) (clock : Readings) (s s' : Ledger B X) (r : TreasuryReport)
      → update_balances config inputs clock s ≡ (ok r, s')
      → (rows : List ChainBalance) × (check_rows [] inputs ≡ ok rows) × Replaced rows s s'
  unfolding update_balances
  update_balances-Replaced inputs clock s s' r h = elim (Result-cases (check_rows [] inputs)) [
    | inl (e, bad) ↦ absurd (cc (rw (bad, update_balances) at h))
    | inr (rows, checked) ↦ (
      rows,
      checked,
      write_sheet-Replaced rows clock s s' r (check_rows-Distinct [] inputs rows checked).0
          (rw (checked, update_balances) at h),
    )
  ]

  -- A loop of writes that stopped: the storage refused one, and only balance rows moved.
  pub record Stopped (e : Error) (s s' : Ledger B X) : Type 0 where
    pub reason : e ≡ write_failed
    pub expenses : s'.expenses ≡ s.expenses
    pub current : s'.current ≡ s.current
    pub emitted : s'.emitted ≡ s.emitted

  delete_absent-Stopped :
      (keep ks : List Text) (e : Error) (s s' : Ledger B X)
      → delete_absent config keep ks s ≡ (err e, s')
      → Stopped e s s'
  unfolding delete_absent
  delete_absent-Stopped keep [] e s s' h = absurd (ground arith)
  delete_absent-Stopped keep (k ∷ ks) e s s' h = elim (Bool-cases (any (text_eq k) keep)) [
    | inl named ↦ delete_absent-Stopped keep ks e s s' (rw (named, delete_absent) at h)
    | inr absent ↦ elim (Option-cases (B.delete k s.balances)) [
      | inl refused ↦ ground arith
      | inr (t, deleted) ↦ ground (
        arith,
        delete_absent-Stopped keep ks e (record s { balances = t }) s'
            (rw (absent, deleted, delete_absent) at h),
      )
    ]
  ]

  put_rows-Stopped :
      (rows : List ChainBalance) (e : Error) (s s' : Ledger B X)
      → put_rows config rows s ≡ (err e, s')
      → Stopped e s s'
  unfolding put_rows
  put_rows-Stopped [] e s s' h = absurd (ground arith)
  put_rows-Stopped (row ∷ rows) e s s' h =
      elim (Option-cases (B.put (balance_key row) row s.balances)) [
        | inl refused ↦ ground arith
        | inr (t, put) ↦ ground (
          arith,
          put_rows-Stopped rows e (record s { balances = t }) s' (rw (put, put_rows) at h),
        )
      ]

  after-Sheet :
      {want : Text → Option ChainBalance} (e : Error) (s s₁ s' : Ledger B X)
      → Sheet config want s s₁
      → Stopped e s₁ s'
      → Stopped e s s'
  after-Sheet e s s₁ s' d p = record {
    reason = p.reason;
    expenses = p.expenses ∙ d.expenses;
    current = p.current ∙ d.current;
    emitted = p.emitted ∙ d.emitted;
  }

  write_sheet-Stopped :
      (rows : List ChainBalance) (clock : Readings) (e : Error) (s s' : Ledger B X)
      → continue
          (delete_absent config (map balance_key rows) (keys (B.entries s.balances)) s)
          (put_rows config rows >> settle config clock)
        ≡ (err e, s')
      → Stopped e s s'
  unfolding settle
  write_sheet-Stopped rows clock e s s' h =
      let drop_all = delete_absent config (map balance_key rows) (keys (B.entries s.balances)) in
      elim (continue-eq-err (drop_all s) _ h) [
        | inl early ↦
            delete_absent-Stopped (map balance_key rows) (keys (B.entries s.balances)) e s s' early
        | inr (_, s₁, deleted, h₁) ↦ elim (continue-eq-err (put_rows config rows s₁) _ h₁) [
          | inl late ↦
              after-Sheet e s s₁ s'
                (delete_absent-Sheet config (map balance_key rows) (keys (B.entries s.balances)) s
                  s₁ deleted)
                (put_rows-Stopped rows e s₁ s' late)
          | inr (_, s₂, _, never) ↦ absurd (ground arith)
        ]
      ]

  -- A failed `updateBalances` keeps the state, the events and the expenses. Bad input changes no row
  -- either: it is found before the first write. Only a refused write can leave the sheet half done.
  pub update_balances_fails :
      (inputs : List BalanceInput) (clock : Readings) (e : Error) (s s' : Ledger B X)
      → update_balances config inputs clock s ≡ (err e, s')
      → ((check_rows [] inputs ≡ err e) × (s' ≡ s)) ⊎ Stopped e s s'
  unfolding update_balances
  update_balances_fails inputs clock e s s' h = elim (Result-cases (check_rows [] inputs)) [
    | inl (e', bad) ↦ inl (ground arith)
    | inr (rows, checked) ↦
        inr (write_sheet-Stopped rows clock e s s' (rw (checked, update_balances) at h))
  ]

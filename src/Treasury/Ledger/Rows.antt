-- ===== src/Treasury/Ledger/Rows.antt =====
-- The rows of a table after a loop of writes, key by key.
use deepseek_harness_web3_ag.Prelude.{
  ◌≡◌, refl, ◌∙◌, Option, none, some, List, [], ◌∷◌, Text, text_eq, text_eq_iff, text_eq→eq,
  if◌then◌else◌, arith, Option-cases, Bool-cases, inl, inr, length, any,
}
use deepseek_harness_web3_ag.Prelude.Maps.{Dict, get}
use deepseek_harness_web3_ag.Prelude.Distinct.{Distinct}
use deepseek_harness_web3_ag.Treasury.Domain.{Expense, ChainBalance, Table, balance_key}
use deepseek_harness_web3_ag.Treasury.Domain.Weigh.{weigh}
use deepseek_harness_web3_ag.Treasury.Ledger.{
  Ledger, ok, ResolvedConfig, insert_sorted, sort_expenses, delete_expenses, delete_absent,
  put_rows,
}

module _ {V : Type 0} where
  pub weigh-one : (m : Dict V) → weigh (λ _. 1) m ≡ length m
  weigh-one [] = refl
  weigh-one (e ∷ m) = omega (arith, weigh-one m)

get-insert_sorted :
    (k : Text) (e : Expense) (m : Dict Expense) (j : Text)
    → get k m ≡ none
    → get j (insert_sorted (k, e) m) ≡ get j ((k, e) ∷ m)
unfolding get insert_sorted
get-insert_sorted k e [] j h = refl
get-insert_sorted k e ((i, w) ∷ m) j h =
    ground (arith, get-insert_sorted k e m j, text_eq→eq k j, text_eq→eq i j, text_eq_iff i k)

Distinct-insert_sorted :
    (k : Text) (e : Expense) (m : Dict Expense)
    → get k m ≡ none
    → Distinct m
    → Distinct (insert_sorted (k, e) m)
unfolding get insert_sorted
Distinct-insert_sorted k e [] h d = (refl, tt)
Distinct-insert_sorted k e ((i, w) ∷ m) h d = ground (
  arith,
  Distinct-insert_sorted k e m,
  get-insert_sorted k e m i,
  text_eq_iff k i,
  text_eq_iff i k,
)

-- Sorting the expenses changes no row.
sort_expenses_lem :
    (m : Dict Expense)
    → Distinct m
    → Distinct (sort_expenses m) × ((j : Text) → get j (sort_expenses m) ≡ get j m)
unfolding get sort_expenses
sort_expenses_lem [] d = (tt, λ j. refl)
sort_expenses_lem ((k, e) ∷ m) d =
    let (distinct, same) = sort_expenses_lem m d.1 in
    let absent : get k (sort_expenses m) ≡ none = same k ∙ d.0 in
    (
      Distinct-insert_sorted k e (sort_expenses m) absent distinct,
      λ j. get-insert_sorted k e (sort_expenses m) j absent ∙ rw (same j),
    )

pub get-sort_expenses :
    (m : Dict Expense) (j : Text) → Distinct m → get j (sort_expenses m) ≡ get j m
get-sort_expenses m j d = (sort_expenses_lem m d).1 j

pub Distinct-sort_expenses : (m : Dict Expense) → Distinct m → Distinct (sort_expenses m)
Distinct-sort_expenses m d = (sort_expenses_lem m d).0

-- The rows of an update by their keys.
abbrev pub by_key : List ChainBalance → Dict ChainBalance
by_key [] = []
by_key (row ∷ rows) = (balance_key row, row) ∷ by_key rows

abbrev pub or_else : Option ChainBalance → Option ChainBalance → Option ChainBalance
or_else none o = o
or_else (some r) o = some r

module _ {B : Table ChainBalance} {X : Table Expense} (config : ResolvedConfig) where
  -- What a loop of deletions that went through leaves of the expenses; nothing else moves.
  pub record Deleted (ks : List Text) (s s' : Ledger B X) : Type 0 where
    pub rows :
        (j : Text)
        → get j (X.entries s'.expenses)
          ≡ (if any (text_eq j) ks then none else get j (X.entries s.expenses))
    pub balances : s'.balances ≡ s.balances
    pub current : s'.current ≡ s.current
    pub emitted : s'.emitted ≡ s.emitted

  pub delete_expenses-Deleted :
      (ks : List Text) (s s' : Ledger B X)
      → delete_expenses config ks s ≡ (ok tt, s')
      → Deleted ks s s'
  unfolding delete_expenses
  delete_expenses-Deleted [] s s' h = record {
    rows = λ j. ground arith;
    balances = ground arith;
    current = ground arith;
    emitted = ground arith;
  }
  delete_expenses-Deleted (k ∷ ks) s s' h = elim (Option-cases (X.delete k s.expenses)) [
    | inl refused ↦ absurd (ground arith)
    | inr (t, e) ↦
        let rest : Deleted ks (record s { expenses = t }) s' =
          delete_expenses-Deleted ks (record s { expenses = t }) s'
            (rw (e, delete_expenses) at h) in
        record {
          rows = λ j. ground (
            arith,
            rest.rows j,
            X.get-delete k j s.expenses t e,
            text_eq_iff j k,
            text_eq_iff k j,
          );
          balances = rest.balances;
          current = rest.current;
          emitted = rest.emitted;
        }
  ]

  -- What a loop of writes to the balances leaves, where `want` says what each key leads to.
  pub record Sheet (want : Text → Option ChainBalance) (s s' : Ledger B X) : Type 0 where
    pub rows : (j : Text) → get j (B.entries s'.balances) ≡ want j
    pub expenses : s'.expenses ≡ s.expenses
    pub current : s'.current ≡ s.current
    pub emitted : s'.emitted ≡ s.emitted

  -- After the second loop of `updateBalances` over the keys `ks`.
  abbrev pub after_delete : List Text → List Text → Ledger B X → Text → Option ChainBalance
  after_delete keep ks s j =
      if any (text_eq j) ks
      then if any (text_eq j) keep then get j (B.entries s.balances) else none
      else get j (B.entries s.balances)

  pub delete_absent-Sheet :
      (keep ks : List Text) (s s' : Ledger B X)
      → delete_absent config keep ks s ≡ (ok tt, s')
      → Sheet (after_delete keep ks s) s s'
  unfolding delete_absent
  delete_absent-Sheet keep [] s s' h = record {
    rows = λ j. ground arith;
    expenses = ground arith;
    current = ground arith;
    emitted = ground arith;
  }
  delete_absent-Sheet keep (k ∷ ks) s s' h = elim (Bool-cases (any (text_eq k) keep)) [
    | inl named ↦
        let rest : Sheet (after_delete keep ks s) s s' =
          delete_absent-Sheet keep ks s s' (rw (named, delete_absent) at h) in
        record {
          rows = λ j. ground (arith, rest.rows j, text_eq→eq j k);
          expenses = rest.expenses;
          current = rest.current;
          emitted = rest.emitted;
        }
    | inr absent ↦ elim (Option-cases (B.delete k s.balances)) [
      | inl refused ↦ absurd (ground arith)
      | inr (t, e) ↦
          let s₁ : Ledger B X = record s { balances = t } in
          let rest : Sheet (after_delete keep ks s₁) s₁ s' =
            delete_absent-Sheet keep ks s₁ s' (rw (absent, e, delete_absent) at h) in
          record {
            rows = λ j. ground (
              arith,
              rest.rows j,
              B.get-delete k j s.balances t e,
              text_eq_iff j k,
              text_eq_iff k j,
            );
            expenses = rest.expenses;
            current = rest.current;
            emitted = rest.emitted;
          }
    ]
  ]

  pub put_rows-Sheet :
      (rows : List ChainBalance) (s s' : Ledger B X)
      → Distinct (by_key rows)
      → put_rows config rows s ≡ (ok tt, s')
      → Sheet (λ j. or_else (get j (by_key rows)) (get j (B.entries s.balances))) s s'
  unfolding put_rows get
  put_rows-Sheet [] s s' d h = record {
    rows = λ j. ground arith;
    expenses = ground arith;
    current = ground arith;
    emitted = ground arith;
  }
  put_rows-Sheet (row ∷ rows) s s' d h =
      elim (Option-cases (B.put (balance_key row) row s.balances)) [
        | inl refused ↦ absurd (ground arith)
        | inr (t, e) ↦
            let s₁ : Ledger B X = record s { balances = t } in
            let rest : Sheet (λ j. or_else (get j (by_key rows)) (get j (B.entries s₁.balances))) s₁
                s' =
              put_rows-Sheet rows s₁ s' d.1 (rw (e, put_rows) at h) in
            record {
              rows = λ j. ground (
                arith,
                rest.rows j,
                B.get-put (balance_key row) j row s.balances t e,
                text_eq_iff (balance_key row) j,
                d.0,
              );
              expenses = rest.expenses;
              current = rest.current;
              emitted = rest.emitted;
            }
      ]

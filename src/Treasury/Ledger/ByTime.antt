-- ===== src/Treasury/Ledger/ByTime.antt =====
-- The order of `sortedExpenses` of dsh-treasury/src/index.ts: by the time of the expense.
use deepseek_harness_web3_ag.Prelude.{
  ℕ, zero, suc, ◌+◌, ◌≤◌, ◌≡◌, true, false, inl, inr, [], ◌∷◌, Text, arith, Bool-cases, All, take,
  drop, length,
}
use deepseek_harness_web3_ag.Prelude.Maps.{Dict}
use deepseek_harness_web3_ag.Treasury.Domain.{Expense}
use deepseek_harness_web3_ag.Treasury.Ledger.{older, insert_sorted, sort_expenses}

-- The first expense is no later than the second.
abbrev pub NoLater : Text × Expense → Text × Expense → Type 0
NoLater a b = a.1.timestamp ≤ b.1.timestamp

-- Every expense is no later than those behind it.
abbrev ByTime : Dict Expense → Type 0
ByTime [] = Unit
ByTime (x ∷ xs) = All (NoLater x) xs × ByTime xs

All-insert_sorted :
    (P : Text × Expense → Type 0) (x : Text × Expense) (xs : Dict Expense)
    → P x
    → All P xs
    → All P (insert_sorted x xs)
unfolding insert_sorted
All-insert_sorted P x [] h hs = (h, tt)
All-insert_sorted P x (y ∷ ys) h (k, ks) = elim (Bool-cases (older y x)) [
  | inl before ↦ rw before (k, All-insert_sorted P x ys h ks)
  | inr behind ↦ rw behind (h, (k, ks))
]

All-later :
    (x y : Text × Expense) (xs : Dict Expense)
    → NoLater x y
    → All (NoLater y) xs
    → All (NoLater x) xs
All-later x y [] h hs = tt
All-later x y (z ∷ zs) h (k, ks) = (omega arith, All-later x y zs h ks)

older-NoLater : (y x : Text × Expense) → older y x ≡ true → NoLater y x
unfolding older
older-NoLater (k, a) (j, b) h = ground arith

not_older : (y x : Text × Expense) → older y x ≡ false → NoLater x y
unfolding older
not_older (k, a) (j, b) h = ground arith

insert_sorted-ByTime :
    (x : Text × Expense) (xs : Dict Expense) → ByTime xs → ByTime (insert_sorted x xs)
unfolding insert_sorted
insert_sorted-ByTime x [] h = (tt, tt)
insert_sorted-ByTime x (y ∷ ys) (h, hs) = elim (Bool-cases (older y x)) [
  | inl before ↦ rw before (
    All-insert_sorted (NoLater y) x ys (older-NoLater y x before) h,
    insert_sorted-ByTime x ys hs,
  )
  | inr behind ↦
      let first = not_older y x behind in rw behind ((first, All-later x y ys first h), (h, hs))
]

sort_expenses-ByTime : (m : Dict Expense) → ByTime (sort_expenses m)
unfolding sort_expenses
sort_expenses-ByTime [] = tt
sort_expenses-ByTime (x ∷ xs) = insert_sorted-ByTime x (sort_expenses xs) (sort_expenses-ByTime xs)

All-drop : (P : Text × Expense → Type 0) (n : ℕ) (xs : Dict Expense) → All P xs → All P (drop n xs)
All-drop P zero xs h = h
All-drop P (suc n) [] h = tt
All-drop P (suc n) (x ∷ xs) h = All-drop P n xs h.1

take-ByTime :
    (n : ℕ) (xs : Dict Expense) → ByTime xs → All (λ d. All (NoLater d) (drop n xs)) (take n xs)
take-ByTime zero xs h = tt
take-ByTime (suc n) [] h = tt
take-ByTime (suc n) (x ∷ xs) (h, hs) = (All-drop (NoLater x) n xs h, take-ByTime n xs hs)

-- The expenses at the front are no later than those behind them.
pub take-sort_expenses :
    (n : ℕ) (m : Dict Expense)
    → All (λ d. All (NoLater d) (drop n (sort_expenses m))) (take n (sort_expenses m))
take-sort_expenses n m = take-ByTime n (sort_expenses m) (sort_expenses-ByTime m)

length-insert_sorted :
    (x : Text × Expense) (xs : Dict Expense) → length (insert_sorted x xs) ≡ length xs + 1
unfolding insert_sorted
length-insert_sorted x [] = omega arith
length-insert_sorted x (y ∷ ys) = elim (Bool-cases (older y x)) [
  | inl before ↦ rw before (omega (arith, length-insert_sorted x ys))
  | inr behind ↦ rw behind (omega arith)
]

pub length-sort_expenses : (m : Dict Expense) → length (sort_expenses m) ≡ length m
unfolding sort_expenses
length-sort_expenses [] = omega arith
length-sort_expenses (x ∷ xs) =
    omega (arith, length-insert_sorted x (sort_expenses xs), length-sort_expenses xs)

-- ===== src/Prelude/Decimal.antt =====
-- A number in a template literal: its decimal digits.
use Prim.Native.Nat.{ℕ, zero, suc, ◌+◌, ◌-◌, ◌*◌, ◌/◌, ◌%◌, ◌≤◌, ◌<◌}
use mathlib.Core.Path.{◌≡◌, refl, sym, ◌∙◌, ap}
use mathlib.Core.Logic.{inl, inr}
use mathlib.Core.List.{[], ◌∷◌, ◌++◌}
use native.Mathlib.Omega.{arith}
use deepseek_harness_web3_ag.Prelude.Tests.{Text, ltb, if◌then◌else◌, Bool-cases}
use deepseek_harness_web3_ag.Prelude.Lists.{All, All-append, length, length-append}

-- On fuel; a number has fewer digits than itself and one more.
unfoldable pub digits : ℕ → ℕ → Text
digits zero n = []
digits (suc f) n =
    let rest = digits f (n / 10) ++ (b'0' + n % 10) ∷ [] in
    if ltb n 10 then (b'0' + n) ∷ [] else rest

-- `${n}`
unfoldable pub show : ℕ → Text
unfolding digits
show n = digits (suc n) n

abbrev pub value_from : ℕ → Text → ℕ
value_from acc [] = acc
value_from acc (c ∷ cs) = value_from (acc * 10 + (c - b'0')) cs

value_from-snoc :
    (acc : ℕ) (cs : Text) (c : ℕ)
    → value_from acc (cs ++ c ∷ []) ≡ value_from acc cs * 10 + (c - b'0')
value_from-snoc acc [] c = refl
value_from-snoc acc (d ∷ cs) c = value_from-snoc (acc * 10 + (d - b'0')) cs c

value_from-digits : (f n : ℕ) → n < f → value_from 0 (digits f n) ≡ n
unfolding digits
value_from-digits zero n h = absurd (omega arith)
value_from-digits (suc f) n h = elim (Bool-cases (ltb n 10)) [
  | inl small ↦ rw small (omega arith)
  | inr large ↦ rw large (
      value_from-snoc 0 (digits f (n / 10)) (b'0' + n % 10)
      ∙ ground (arith, value_from-digits f (n / 10)))
]

-- Reading the digits of a number gives the number.
pub value_from-show : (n : ℕ) → value_from 0 (show n) ≡ n
unfolding show
value_from-show n = value_from-digits (suc n) n (omega arith)

-- Different numbers are written differently.
pub show-injective : (m n : ℕ) → show m ≡ show n → m ≡ n
unfolding show
show-injective m n h =
    sym (value_from-digits (suc m) m (omega arith))
    ∙ ap (value_from 0) h
    ∙ value_from-digits (suc n) n (omega arith)

abbrev pub IsDigit : ℕ → Type 0
IsDigit c = (b'0' ≤ c) × (c ≤ b'9')

digits-IsDigit : (f n : ℕ) → All IsDigit (digits f n)
unfolding digits
digits-IsDigit zero n = tt
digits-IsDigit (suc f) n = elim (Bool-cases (ltb n 10)) [
  | inl small ↦ rw small (ground arith)
  | inr large ↦
      rw large (All-append IsDigit (digits f (n / 10)) _ (digits-IsDigit f (n / 10)) (omega arith))
]

pub show-IsDigit : (n : ℕ) → All IsDigit (show n)
unfolding show
show-IsDigit n = digits-IsDigit (suc n) n

length-digits_below_10 : (f n : ℕ) → n < f → n < 10 → length (digits f n) ≡ 1
unfolding digits
length-digits_below_10 zero n h small = absurd (omega arith)
length-digits_below_10 (suc f) n h small = ground arith

length-digits_below_100 :
    (f n : ℕ) → n < f → n < 100 → (1 ≤ length (digits f n)) × (length (digits f n) ≤ 2)
unfolding digits
length-digits_below_100 zero n h small = absurd (omega arith)
length-digits_below_100 (suc f) n h small = elim (Bool-cases (ltb n 10)) [
  | inl one ↦ rw one (omega arith)
  | inr more ↦ rw more (
      ground (
        arith,
        length-append (digits f (n / 10)) ((b'0' + n % 10) ∷ []),
        length-digits_below_10 f (n / 10),
      ))
]

length-digits_below_1000 :
    (f n : ℕ) → n < f → n < 1000 → (1 ≤ length (digits f n)) × (length (digits f n) ≤ 3)
unfolding digits
length-digits_below_1000 zero n h small = absurd (omega arith)
length-digits_below_1000 (suc f) n h small = elim (Bool-cases (ltb n 10)) [
  | inl one ↦ rw one (omega arith)
  | inr more ↦ rw more (
      ground (
        arith,
        length-append (digits f (n / 10)) ((b'0' + n % 10) ∷ []),
        length-digits_below_100 f (n / 10),
      ))
]

-- A number below a thousand has one to three digits.
pub length-show_below_1000 : (n : ℕ) → n < 1000 → (1 ≤ length (show n)) × (length (show n) ≤ 3)
unfolding show
length-show_below_1000 n h = length-digits_below_1000 (suc n) n (omega arith) h

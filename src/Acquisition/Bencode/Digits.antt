-- ===== src/Acquisition/Bencode/Digits.antt =====
-- How the decoder of dsh-tool-acquisition/src/bencode.ts reads decimals.
use deepseek_harness_web3_ag.Prelude.{
  ℕ, zero, suc, ◌+◌, ◌-◌, ◌*◌, ◌/◌, ◌%◌, ◌<◌, ◌≡◌, refl, ap, ◌∙◌, ◌⊎◌, inl, inr, true, false, some,
  [], ◌∷◌, ◌++◌, Text, All, all, codes, ltb, ◌==◌, Bool-cases, arith,
}
use deepseek_harness_web3_ag.Prelude.Decimal.{
  digits, show, value_from, value_from-show, IsDigit, show-IsDigit,
}
use deepseek_harness_web3_ag.Acquisition.Texts.{to_lower, trim_end}
use deepseek_harness_web3_ag.Acquisition.Number.{
  is_digit, digits_value, to_decimal, to_double, span_digits, decimal, prefixed, to_number,
}
use deepseek_harness_web3_ag.Acquisition.Bencode.{
  pos, negsuc, integer, is_positive, read_integer, break_at,
}

digits_value-value_from :
    (acc : ℕ) (cs : Text) → All IsDigit cs → digits_value 10 acc cs ≡ value_from acc cs
unfolding digits_value
digits_value-value_from acc [] h = refl
digits_value-value_from acc (c ∷ cs) (h, hs) =
    ground (arith, digits_value-value_from (acc * 10 + (c - b'0')) cs hs)

-- Reading the digits of a number gives the number.
pub to_decimal-show : (n : ℕ) → to_decimal (show n) ≡ n
unfolding to_decimal
to_decimal-show n = digits_value-value_from 0 (show n) (show-IsDigit n) ∙ value_from-show n

all-is_digit : (cs : Text) → All IsDigit cs → all is_digit cs ≡ true
all-is_digit [] h = refl
all-is_digit (c ∷ cs) (h, hs) = ground (arith, all-is_digit cs hs)

all-snoc :
    (cs : Text) (d : ℕ)
    → all is_digit cs ≡ true
    → is_digit d ≡ true
    → all is_digit (cs ++ d ∷ []) ≡ true
all-snoc [] d h k = ground arith
all-snoc (c ∷ cs) d h k = ground (arith, all-snoc cs d)

is_positive-snoc :
    (cs : Text) (d : ℕ)
    → is_positive cs ≡ true
    → is_digit d ≡ true
    → is_positive (cs ++ d ∷ []) ≡ true
is_positive-snoc [] d h k = ground arith
is_positive-snoc (c ∷ cs) d h k = ground (arith, all-snoc cs d)

is_positive-digits : (f n : ℕ) → n < f → 0 < n → is_positive (digits f n) ≡ true
unfolding digits
is_positive-digits zero n h p = absurd (omega arith)
is_positive-digits (suc f) n h p = elim (Bool-cases (ltb n 10)) [
  | inl small ↦ rw small (ground arith)
  | inr large ↦ rw large (
      is_positive-snoc (digits f (n / 10)) (b'0' + n % 10)
        (is_positive-digits f (n / 10) (ground arith) (ground arith)) (ground arith))
]

-- A number but 0 is written without a leading 0.
pub is_positive-show : (n : ℕ) → is_positive (show (suc n)) ≡ true
unfolding show
is_positive-show n = is_positive-digits (suc (suc n)) (suc n) (omega arith) (omega arith)

-- A mark that is no digit ends the digits.
pub break_at-digits :
    (mark : ℕ) (cs rest : Text)
    → is_digit mark ≡ false
    → All IsDigit cs
    → break_at mark (cs ++ mark ∷ rest) ≡ some (cs, rest)
unfolding break_at
break_at-digits mark [] rest h d = ground arith
break_at-digits mark (c ∷ cs) rest h (d, ds) = ground (arith, break_at-digits mark cs rest h ds)

trim_end-digits : (cs : Text) → All IsDigit cs → trim_end cs ≡ cs
trim_end-digits [] h = refl
trim_end-digits (c ∷ []) (h, hs) = ground arith
trim_end-digits (c ∷ d ∷ cs) (h, hs) = rw (trim_end-digits (d ∷ cs) hs) refl

to_lower-digits : (cs : Text) → All IsDigit cs → to_lower cs ≡ cs
to_lower-digits [] h = refl
to_lower-digits (c ∷ cs) (h, hs) = ground (arith, to_lower-digits cs hs)

span_digits-digits : (cs : Text) → All IsDigit cs → span_digits cs ≡ (cs, [])
unfolding span_digits
span_digits-digits [] h = refl
span_digits-digits (c ∷ cs) (h, hs) = ground (arith, span_digits-digits cs hs)

decimal-digits : (cs : Text) → All IsDigit cs → decimal (span_digits cs) ≡ some (to_decimal cs)
unfolding to_decimal
decimal-digits cs h = rw (span_digits-digits cs h) refl

prefixed-digits : (cs : Text) → All IsDigit cs → prefixed cs ≡ some (to_decimal cs)
unfolding to_decimal
prefixed-digits [] h = decimal-digits [] h
prefixed-digits (c ∷ []) h = decimal-digits (c ∷ []) h
prefixed-digits (c ∷ d ∷ cs) (h, (k, hs)) =
    let plain : (d == b'x') ≡ false = ground arith in
    let octal : (d == b'o') ≡ false = ground arith in
    let binary : (d == b'b') ≡ false = ground arith in
    elim (Bool-cases (c == b'0')) [
      | inl z ↦ rw (z, plain, octal, binary) (decimal-digits (c ∷ d ∷ cs) (h, (k, hs)))
      | inr nz ↦ rw nz (decimal-digits (c ∷ d ∷ cs) (h, (k, hs)))
    ]

-- The length of a string is read as it was written.
pub to_number-show : (n : ℕ) → to_number (show n) ≡ some n
unfolding to_number
to_number-show n =
    let ds = show-IsDigit n in
    ap prefixed (ap to_lower (trim_end-digits (show n) ds) ∙ to_lower-digits (show n) ds)
    ∙ prefixed-digits (show n) ds
    ∙ ap some (to_decimal-show n)

show-zero : show 0 ≡ codes "0"
unfolding show
show-zero = refl

signless-pos :
    (cs : Text)
    → All IsDigit cs
    → (is_positive cs ≡ true) ⊎ (cs ≡ codes "0")
    → read_integer cs ≡ some (integer (pos (to_double (to_decimal cs))))
unfolding read_integer to_decimal
signless-pos [] h e = absurd (ground arith)
signless-pos (c ∷ cs) h e = ground arith

pub read_integer-pos : (n : ℕ) → read_integer (show n) ≡ some (integer (pos (to_double n)))
read_integer-pos zero =
    signless-pos (show 0) (show-IsDigit 0) (inr show-zero)
    ∙ ap (λ k. some (integer (pos (to_double k)))) (to_decimal-show 0)
read_integer-pos (suc n) =
    signless-pos (show (suc n)) (show-IsDigit (suc n)) (inl (is_positive-show n))
    ∙ ap (λ k. some (integer (pos (to_double k)))) (to_decimal-show (suc n))

pub read_integer-negsuc :
    (n : ℕ) → read_integer (b'-' ∷ show (suc n)) ≡ some (integer (negsuc (to_double (suc n) - 1)))
unfolding read_integer
read_integer-negsuc n =
    rw (is_positive-show n)
      (ap (λ k. some (integer (negsuc (to_double k - 1)))) (to_decimal-show (suc n)))

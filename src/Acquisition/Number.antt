-- ===== src/Acquisition/Number.antt =====
-- `Number` of a text that begins with a digit, as dsh-tool-acquisition/src/bencode.ts reads integers and the
-- length of a string. For a length, `none` is where the result is no integer or is negative, and a number
-- from 2^53 on, which no data reach, is not rounded.
use deepseek_harness_web3_ag.Prelude.{
  ℕ, zero, suc, true, false, ap, arith, ◌<◌, ◌+◌, ◌-◌, ◌*◌, ◌/◌, ◌%◌, ◌^◌, ◌≡◌, refl, Bool, ◌&&◌,
  ◌||◌, Option, none, some, [], map, ◌∷◌, Text, codes, length, all, ltb, leb, ◌==◌, if◌then◌else◌,
}
use deepseek_harness_web3_ag.Acquisition.Texts.{to_lower, trim_end}

abbrev pub is_digit : ℕ → Bool
is_digit c = leb b'0' c && leb c b'9'

-- The digits of a numeral in a base, after `acc`.
unfoldable pub digits_value : ℕ → ℕ → Text → ℕ
digits_value base acc [] = acc
digits_value base acc (c ∷ cs) = digits_value base (acc * base + digit c) cs
  where
    digit : ℕ → ℕ
    digit c = if leb b'a' c then c - b'a' + 10 else c - b'0'

unfoldable pub to_decimal : Text → ℕ
unfolding digits_value
to_decimal cs = digits_value 10 0 cs

-- The digits at the front, and what follows them.
unfoldable pub span_digits : Text → Text × Text
span_digits [] = ([], [])
span_digits (c ∷ cs) = if is_digit c then with_digit c (span_digits cs) else ([], c ∷ cs)
  where
    with_digit : ℕ → Text × Text → Text × Text
    with_digit c (ds, rest) = (c ∷ ds, rest)

-- mantissa × 10 ^ up / 10 ^ down, where that is an integer.
abbrev scaled : ℕ → ℕ → ℕ → Option ℕ
scaled mantissa up down =
    if mantissa * 10 ^ up % 10 ^ down == 0 then some (mantissa * 10 ^ up / 10 ^ down) else none

-- The exponent behind the digits and the fraction, or nothing.
abbrev exponent : ℕ → ℕ → Text × Text → Option ℕ
exponent mantissa down ([], rest) = none
exponent mantissa down (d ∷ ds, []) = scaled mantissa (to_decimal (d ∷ ds)) down
exponent mantissa down (d ∷ ds, c ∷ rest) = none

abbrev lowered : ℕ → ℕ → Text × Text → Option ℕ
lowered mantissa down ([], rest) = none
lowered mantissa down (d ∷ ds, []) = scaled mantissa 0 (down + to_decimal (d ∷ ds))
lowered mantissa down (d ∷ ds, c ∷ rest) = none

abbrev signed : ℕ → ℕ → Text → Option ℕ
signed mantissa down [] = none
signed mantissa down (c ∷ rest) =
    if c == b'+'
    then exponent mantissa down (span_digits rest)
    else if c == b'-'
    then lowered mantissa down (span_digits rest)
    else exponent mantissa down (span_digits (c ∷ rest))

abbrev tail : ℕ → ℕ → Text → Option ℕ
tail mantissa down [] = scaled mantissa 0 down
tail mantissa down (c ∷ rest) = if c == b'e' || c == b'E' then signed mantissa down rest else none

abbrev fraction : Text → Text × Text → Option ℕ
fraction ds (fs, rest) = tail (digits_value 10 (to_decimal ds) fs) (length fs) rest

abbrev pub decimal : Text × Text → Option ℕ
decimal (ds, []) = some (to_decimal ds)
decimal (ds, c ∷ rest) =
    if c == b'.' then fraction ds (span_digits rest) else tail (to_decimal ds) 0 (c ∷ rest)

-- A digit of a base up to 16, in lower case.
abbrev is_digit_of : ℕ → ℕ → Bool
is_digit_of base c =
    if leb b'a' c then ltb (c - b'a' + 10) base else is_digit c && ltb (c - b'0') base

abbrev in_base : ℕ → Text → Option ℕ
in_base base [] = none
in_base base (c ∷ cs) =
    if all (is_digit_of base) (c ∷ cs) then some (digits_value base 0 (c ∷ cs)) else none

abbrev pub prefixed : Text → Option ℕ
prefixed (c ∷ d ∷ cs) =
    if c == b'0' && d == b'x'
    then in_base 16 cs
    else if c == b'0' && d == b'o'
    then in_base 8 cs
    else if c == b'0' && d == b'b'
    then in_base 2 cs
    else decimal (span_digits (c ∷ d ∷ cs))
prefixed cs = decimal (span_digits cs)

unfoldable pub to_number : Text → Option ℕ
unfolding span_digits to_decimal digits_value
to_number cs = prefixed (to_lower (trim_end cs))

-- 2^53: below it every integer is a double.
abbrev pub exact_bound : ℕ
exact_bound = 9007199254740992

-- How often a number is halved until it is below 2^53. A double is below 2^1024, so this fuel is enough up
-- to there.
unfoldable pub halvings : (fuel : ℕ) → ℕ → ℕ
halvings zero n = 0
halvings (suc fuel) n =
    let more = suc (halvings fuel (n / 2)) in if ltb n exact_bound then 0 else more

-- The multiple of `unit` next to a number; of two that are as near, the even one.
abbrev nearest : (unit : ℕ) → ℕ → ℕ
nearest unit n =
    let below = n / unit in
    if ltb unit (n % unit * 2) || n % unit * 2 == unit && below % 2 == 1
    then (below + 1) * unit
    else below * unit

abbrev round_unless : Bool → ℕ → ℕ
round_unless true n = n
round_unless false n = nearest (2 ^ halvings 1024 n) n

-- The double that stands for a numeral below 2^1024; the code reads a greater one as infinite.
unfoldable pub to_double : ℕ → ℕ
to_double n = round_unless (ltb n exact_bound) n

pub to_double-exact : (n : ℕ) → n < exact_bound → to_double n ≡ n
unfolding to_double
to_double-exact n h =
    let small : ltb n exact_bound ≡ true = ground arith in ap (λ b. round_unless b n) small

doubles :
    map to_double (9007199254740991 ∷ 9007199254740993 ∷ 9007199254740995 ∷ 18014398509481987 ∷ [])
    ≡ 9007199254740991 ∷ 9007199254740992 ∷ 9007199254740996 ∷ 18014398509481988 ∷ []
unfolding to_double halvings
doubles = refl

numbers :
    map to_number
      (codes "12" ∷ codes "1e1" ∷ codes "0x10" ∷ codes "1.50e1 " ∷ codes "1.5" ∷ codes "1_0" ∷ [])
    ≡ some 12 ∷ some 10 ∷ some 16 ∷ some 15 ∷ none ∷ none ∷ []
unfolding to_number
numbers = refl

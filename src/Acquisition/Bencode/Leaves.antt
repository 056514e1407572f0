-- ===== src/Acquisition/Bencode/Leaves.antt =====
-- Encoded integers and strings, and how an encoding begins, for dsh-tool-acquisition/src/bencode.ts.
use deepseek_harness_web3_ag.Prelude.{
  ℕ, suc, ◌+◌, ◌/◌, ◌%◌, ◌<◌, ◌≡◌, refl, ap, ◌∙◌, inl, inr, true, false, some, [], ◌∷◌, ◌++◌,
  append_assoc, Text, All, ltb, leb, take, drop, length, length-append, Bool-cases, arith,
}
use deepseek_harness_web3_ag.Prelude.Decimal.{digits, show, IsDigit, show-IsDigit}
use deepseek_harness_web3_ag.Acquisition.Number.{to_number}
use deepseek_harness_web3_ag.Acquisition.Bencode.{
  ℤ, pos, negsuc, BencodeValue, integer, bytes, items, dictionary, break_at, with_rest, integer_at,
  string_of, string_at, at_e, rounded_integer, decode_at,
}
use deepseek_harness_web3_ag.Acquisition.Bencode.Digits.{
  break_at-digits, to_number-show, read_integer-pos, read_integer-negsuc,
}
use deepseek_harness_web3_ag.Acquisition.Bencode.Encode.{encode, encode_integer, encode_bytes}

pub length-show_pos : (n : ℕ) → 0 < length (show n)
unfolding show
length-show_pos n = elim (Bool-cases (ltb n 10)) [
  | inl small ↦ rw small (omega arith)
  | inr large ↦ rw large (omega (arith, length-append (digits n (n / 10)) ((b'0' + n % 10) ∷ [])))
]

pub take-length : (b rest : Text) → take (length b) (b ++ rest) ≡ b
take-length [] rest = refl
take-length (c ∷ b) rest = ap (λ t. c ∷ t) (take-length b rest)

drop-length : (b rest : Text) → drop (length b) (b ++ rest) ≡ rest
drop-length [] rest = refl
drop-length (c ∷ b) rest = drop-length b rest

string_of-append : (b rest : Text) → string_of (b ++ rest) (some (length b)) ≡ some (bytes b, rest)
string_of-append b rest =
    let fits : leb (length b) (length (b ++ rest)) ≡ true = ground (arith, length-append b rest) in
    rw (fits, take-length b rest, drop-length b rest) refl

break_minus :
    (cs rest : Text)
    → All IsDigit cs
    → break_at b'e' (b'-' ∷ (cs ++ b'e' ∷ rest)) ≡ some (b'-' ∷ cs, rest)
unfolding break_at
break_minus cs rest d = rw (break_at-digits b'e' cs rest refl d) refl

module _ (left : ℕ) where
  decode_at-digit :
      (c : ℕ) (cs : Text)
      → IsDigit c
      → decode_at (suc left) (c ∷ cs) ≡ string_at (break_at b':' (c ∷ cs))
  unfolding decode_at
  decode_at-digit c cs d = ground arith

  string_front :
      (ds b rest : Text)
      → All IsDigit ds
      → 0 < length ds
      → to_number ds ≡ some (length b)
      → decode_at (suc left) ((ds ++ b':' ∷ b) ++ rest) ≡ some (bytes b, rest)
  string_front [] b rest d p e = absurd (omega arith)
  string_front (c ∷ ds) b rest d p e =
      decode_at-digit c _ d.0
      ∙ ap (λ t. string_at (break_at b':' t)) (append_assoc (c ∷ ds) (b':' ∷ b) rest)
      ∙ ap string_at (break_at-digits b':' (c ∷ ds) (b ++ rest) refl d)
      ∙ ap (string_of (b ++ rest)) e
      ∙ string_of-append b rest

  pub decode_at-bytes :
      (b rest : Text) → decode_at (suc left) (encode_bytes b ++ rest) ≡ some (bytes b, rest)
  decode_at-bytes b rest =
      string_front (show (length b)) b rest (show-IsDigit (length b)) (length-show_pos (length b))
        (to_number-show (length b))

  pub decode_at-integer :
      (n : ℤ) (rest : Text)
      → decode_at (suc left) (encode_integer n ++ rest) ≡ some (integer (rounded_integer n), rest)
  unfolding decode_at
  decode_at-integer (pos n) rest =
      ap (λ t. integer_at (break_at b'e' t)) (append_assoc (show n) (b'e' ∷ []) rest)
      ∙ ap integer_at (break_at-digits b'e' (show n) rest refl (show-IsDigit n))
      ∙ ap (with_rest rest) (read_integer-pos n)
  decode_at-integer (negsuc n) rest =
      ap (λ t. integer_at (break_at b'e' (b'-' ∷ t))) (append_assoc (show (suc n)) (b'e' ∷ []) rest)
      ∙ ap integer_at (break_minus (show (suc n)) rest (show-IsDigit (suc n)))
      ∙ ap (with_rest rest) (read_integer-negsuc n)

-- An encoded value does not begin with an `e`.
pub at_e-encode : (v : BencodeValue) (rest : Text) → at_e (encode v ++ rest) ≡ false
unfolding encode
at_e-encode (integer (pos n)) rest = refl
at_e-encode (integer (negsuc n)) rest = refl
at_e-encode (bytes b) rest = at_e-digits (show (length b)) b rest (show-IsDigit (length b))
  where
    at_e-digits : (ds b rest : Text) → All IsDigit ds → at_e ((ds ++ b':' ∷ b) ++ rest) ≡ false
    at_e-digits [] b rest d = refl
    at_e-digits (c ∷ ds) b rest d = ground arith
at_e-encode (items xs) rest = refl
at_e-encode (dictionary m) rest = refl

pub length-encode_bytes_pos : (b : Text) → 0 < length (encode_bytes b)
length-encode_bytes_pos b =
    omega (arith, length-append (show (length b)) (b':' ∷ b), length-show_pos (length b))

pub length-encode_pos : (v : BencodeValue) → 0 < length (encode v)
unfolding encode
length-encode_pos (integer (pos n)) = omega arith
length-encode_pos (integer (negsuc n)) = omega arith
length-encode_pos (bytes b) = length-encode_bytes_pos b
length-encode_pos (items xs) = omega arith
length-encode_pos (dictionary m) = omega arith

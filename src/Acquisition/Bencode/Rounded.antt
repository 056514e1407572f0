-- ===== src/Acquisition/Bencode/Rounded.antt =====
-- What the decoder of dsh-tool-acquisition/src/bencode.ts reads of a value: its integers are doubles.
use deepseek_harness_web3_ag.Prelude.{
  suc, ◌-◌, ◌<◌, ◌≡◌, refl, ap, none, some, Text, text_eq, Bool-cases, inl, inr, arith,
}
use deepseek_harness_web3_ag.Acquisition.Number.{exact_bound, to_double, to_double-exact}
use deepseek_harness_web3_ag.Acquisition.Bencode.{
  ℤ, pos, negsuc, BencodeValue, integer, bytes, items, dictionary, Items, nil, cons, Fields, end,
  field, set_field, get_field, rounded_integer,
}
use deepseek_harness_web3_ag.Acquisition.Bencode.Encode.{Fresh}

unfoldable mutual
  pub rounded : BencodeValue → BencodeValue
  rounded (integer n) = integer (rounded_integer n)
  rounded (bytes b) = bytes b
  rounded (items xs) = items (rounded_items xs)
  rounded (dictionary m) = dictionary (rounded_fields m)

  pub rounded_items : Items → Items
  rounded_items nil = nil
  rounded_items (cons v xs) = cons (rounded v) (rounded_items xs)

  pub rounded_fields : Fields → Fields
  rounded_fields end = end
  rounded_fields (field k v m) = field k (rounded v) (rounded_fields m)

abbrev IsSafe : ℤ → Type 0
IsSafe (pos n) = n < exact_bound
IsSafe (negsuc n) = suc n < exact_bound

-- Every integer in the value is less than 2^53 away from 0.
unfoldable mutual
  pub IsExact : BencodeValue → Type 0
  IsExact (integer n) = IsSafe n
  IsExact (bytes b) = Unit
  IsExact (items xs) = ItemsAreExact xs
  IsExact (dictionary m) = FieldsAreExact m

  pub ItemsAreExact : Items → Type 0
  ItemsAreExact nil = Unit
  ItemsAreExact (cons v xs) = IsExact v × ItemsAreExact xs

  pub FieldsAreExact : Fields → Type 0
  FieldsAreExact end = Unit
  FieldsAreExact (field k v m) = IsExact v × FieldsAreExact m

rounded_integer-IsSafe : (n : ℤ) → IsSafe n → rounded_integer n ≡ n
rounded_integer-IsSafe (pos n) h = ap pos (to_double-exact n h)
rounded_integer-IsSafe (negsuc n) h =
    let same : to_double (suc n) - 1 ≡ n = omega (arith, to_double-exact (suc n) h) in
    ap negsuc same

mutual
  unfolding rounded IsExact

  pub rounded-IsExact : (v : BencodeValue) → IsExact v → rounded v ≡ v
  rounded-IsExact (integer n) h = ap integer (rounded_integer-IsSafe n h)
  rounded-IsExact (bytes b) h = refl
  rounded-IsExact (items xs) h = ap items (rounded_items-exact xs h)
  rounded-IsExact (dictionary m) h = ap dictionary (rounded_fields-exact m h)

  rounded_items-exact : (xs : Items) → ItemsAreExact xs → rounded_items xs ≡ xs
  rounded_items-exact nil h = refl
  rounded_items-exact (cons v xs) (h, hs) = rw (rounded-IsExact v h, rounded_items-exact xs hs) refl

  rounded_fields-exact : (m : Fields) → FieldsAreExact m → rounded_fields m ≡ m
  rounded_fields-exact end h = refl
  rounded_fields-exact (field k v m) (h, hs) =
      rw (rounded-IsExact v h, rounded_fields-exact m hs) refl

get_field-rounded_none :
    (k : Text) (m : Fields) → get_field k m ≡ none → get_field k (rounded_fields m) ≡ none
unfolding get_field rounded
get_field-rounded_none k end h = refl
get_field-rounded_none k (field j w m) h = elim (Bool-cases (text_eq j k)) [
  | inl same ↦ absurd (ground (arith, rw same at h))
  | inr other ↦ rw other (get_field-rounded_none k m (rw other at h))
]

-- Rounding leaves the keys.
pub get_field-rounded :
    (k : Text) (v : BencodeValue) (m : Fields)
    → get_field k m ≡ some v
    → get_field k (rounded_fields m) ≡ some (rounded v)
unfolding get_field rounded
get_field-rounded k v end h = absurd (ground arith)
get_field-rounded k v (field j w m) h = elim (Bool-cases (text_eq j k)) [
  | inl same ↦ rw same (ap (λ x. some (rounded x)) (some_inj w v (rw same at h)))
  | inr other ↦ rw other (get_field-rounded k v m (rw other at h))
]
  where
    some_inj : (a b : BencodeValue) → some a ≡ some b → a ≡ b
    some_inj a b e = cc

set_field-rounded :
    (k : Text) (v : BencodeValue) (m : Fields)
    → set_field k (rounded v) (rounded_fields m) ≡ rounded_fields (set_field k v m)
unfolding set_field rounded
set_field-rounded k v end = refl
set_field-rounded k v (field j w m) = elim (Bool-cases (text_eq j k)) [
  | inl same ↦ rw same refl
  | inr other ↦ rw other (ap (field j (rounded w)) (set_field-rounded k v m))
]

pub Fresh-rounded :
    (read m : Fields) → Fresh read m → Fresh (rounded_fields read) (rounded_fields m)
unfolding rounded
Fresh-rounded read end f = tt
Fresh-rounded read (field k v m) (h, hs) = (
  get_field-rounded_none k read h,
  rw (set_field-rounded k v read) (Fresh-rounded (set_field k v read) m hs),
)

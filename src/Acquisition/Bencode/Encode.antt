-- ===== src/Acquisition/Bencode/Encode.antt =====
-- Bencoding, as the format has it, and that the decoder of dsh-tool-acquisition/src/bencode.ts reads it.
use deepseek_harness_web3_ag.Prelude.{ℕ, suc, ◌-◌, ◌<◌, ◌≡◌, none, [], ◌∷◌, ◌++◌, Text, length}
use deepseek_harness_web3_ag.Prelude.Decimal.{show}
use deepseek_harness_web3_ag.Acquisition.Bencode.{
  ℤ, pos, negsuc, BencodeValue, integer, bytes, items, dictionary, Items, nil, cons, Fields, end,
  field, set_field, get_field,
}

abbrev pub encode_integer : ℤ → Text
encode_integer (pos n) = b'i' ∷ show n ++ b'e' ∷ []
encode_integer (negsuc n) = b'i' ∷ b'-' ∷ show (suc n) ++ b'e' ∷ []

abbrev pub encode_bytes : Text → Text
encode_bytes b = show (length b) ++ b':' ∷ b

unfoldable mutual
  pub encode : BencodeValue → Text
  encode (integer n) = encode_integer n
  encode (bytes b) = encode_bytes b
  encode (items xs) = b'l' ∷ encode_items xs
  encode (dictionary m) = b'd' ∷ encode_fields m

  pub encode_items : Items → Text
  encode_items nil = b'e' ∷ []
  encode_items (cons v xs) = encode v ++ encode_items xs

  pub encode_fields : Fields → Text
  encode_fields end = b'e' ∷ []
  encode_fields (field k v m) = encode_bytes k ++ (encode v ++ encode_fields m)

-- No key of `m` is among those of `read`, nor twice in `m`.
abbrev pub Fresh : Fields → Fields → Type 0
Fresh read end = Unit
Fresh read (field k v m) = (get_field k read ≡ none) × Fresh (set_field k v read) m

-- Nested at most `left` deep, and no key stands twice in a dictionary.
unfoldable mutual
  pub Fits : BencodeValue → ℕ → Type 0
  Fits (integer n) left = 0 < left
  Fits (bytes b) left = 0 < left
  Fits (items xs) left = (0 < left) × FitsItems xs (left - 1)
  Fits (dictionary m) left = (0 < left) × Fresh end m × FitsFields m (left - 1)

  pub FitsItems : Items → ℕ → Type 0
  FitsItems nil left = Unit
  FitsItems (cons v xs) left = Fits v left × FitsItems xs left

  pub FitsFields : Fields → ℕ → Type 0
  FitsFields end left = Unit
  FitsFields (field k v m) left = (0 < left) × Fits v left × FitsFields m left

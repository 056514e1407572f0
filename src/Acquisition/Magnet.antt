-- ===== src/Acquisition/Magnet.antt =====
-- The magnet links of dsh-tool-acquisition/src/bencode.ts. The parser of URLs is an argument: it gives the
-- values of `xt` in a link, or `none` where the link does not parse.
use deepseek_harness_web3_ag.Prelude.{
  ℕ, ◌+◌, ◌-◌, ◌*◌, ◌/◌, ◌%◌, ◌^◌, Bool, true, false, ◌&&◌, ◌||◌, Option, none, some, List, [], ◌∷◌,
  Text, codes, length, drop, all, ltb, leb, ◌==◌, if◌then◌else◌, starts_with,
}
use deepseek_harness_web3_ag.Acquisition.Texts.{to_lower}

abbrev pub between : ℕ → ℕ → ℕ → Bool
between low high c = leb low c && leb c high

-- /[0-9a-fA-F]/
abbrev pub is_hex_digit : ℕ → Bool
is_hex_digit c = between b'0' b'9' c || between b'a' b'f' c || between b'A' b'F' c

-- /[A-Za-z2-7]/
abbrev pub is_base32_digit : ℕ → Bool
is_base32_digit c = between b'A' b'Z' c || between b'a' b'z' c || between b'2' b'7' c

-- `BASE32_ALPHABET.indexOf` of the upper-case character.
unfoldable pub base32_index : ℕ → Option ℕ
base32_index c =
    if between b'A' b'Z' c
    then some (c - b'A')
    else if between b'a' b'z' c
    then some (c - b'a')
    else if between b'2' b'7' c
    then some (c - b'2' + 26)
    else none

-- The loop of `base32Decode`: `bits` is a 32-bit word, of which `width` bits wait. `none` where it
-- throws.
abbrev shifted : ℕ → ℕ → ℕ
shifted bits index = (bits * 32 + index) % 2 ^ 32

abbrev and_then : ℕ → Option Text → Option Text
and_then byte none = none
and_then byte (some bytes) = some (byte ∷ bytes)

unfoldable pub base32_loop : ℕ → ℕ → Text → Option Text
base32_loop bits width [] = some []
base32_loop bits width (c ∷ cs) = elim (base32_index c) [
  | none ↦ none
  | some index ↦ elim (leb 8 (width + 5)) [
    | true ↦
        and_then (shifted bits index / 2 ^ (width + 5 - 8) % 256)
          (base32_loop (shifted bits index) (width + 5 - 8) cs)
    | false ↦ base32_loop (shifted bits index) (width + 5) cs
  ]
]

unfoldable pub base32_decode : Text → Option Text
base32_decode value = base32_loop 0 0 value

-- `toString('hex')`
abbrev nibble : ℕ → ℕ
nibble n = if ltb n 10 then b'0' + n else b'a' + (n - 10)

abbrev pub to_hex : Text → Text
to_hex [] = []
to_hex (b ∷ bytes) = nibble (b / 16) ∷ nibble (b % 16) ∷ to_hex bytes

abbrev hex_of : Option Text → Option Text
hex_of none = none
hex_of (some bytes) = some (to_hex bytes)

-- The loop over the values of `xt`.
unfoldable pub first_btih : List Text → Option Text
unfolding base32_decode base32_loop base32_index
first_btih [] = none
first_btih (xt ∷ xts) =
    let value = drop 9 xt in
    let rest = first_btih xts in
    if starts_with (codes "urn:btih:") (to_lower xt)
    then (if length value == 40 && all is_hex_digit value
        then some (to_lower value)
        else if length value == 32 && all is_base32_digit value
        then hex_of (base32_decode value)
        else rest)
    else rest

abbrev in_query : Option (List Text) → Option Text
in_query none = none
in_query (some xts) = first_btih xts

unfoldable pub magnet_info_hash : (Text → Option (List Text)) → Text → Option Text
unfolding first_btih
magnet_info_hash xt uri =
    if starts_with (codes "magnet:") (to_lower uri) then in_query (xt uri) else none

-- ===== src/Acquisition/Addresses.antt =====
-- The addresses of dsh-tool-acquisition/src/fetchSafety.ts: IPv4 and IPv6 literals, and which of them are
-- routable on the public internet. A 32-bit number with a mask of its upper bits is what stays when the
-- lower bits are taken off.
pub mod V4
pub mod Mapped
use deepseek_harness_web3_ag.Prelude.{
  ℕ, ◌+◌, ◌-◌, ◌*◌, ◌/◌, ◌%◌, ◌^◌, Bool, true, false, ◌&&◌, ◌||◌, not, Option, none, some, List, [],
  ◌∷◌, ◌++◌, Text, codes, ltb, leb, ◌==◌, if◌then◌else◌, length, any, all, zero, suc,
}
use deepseek_harness_web3_ag.Prelude.Decimal.{show, value_from}
use deepseek_harness_web3_ag.Acquisition.Texts.{split, push}

abbrev pub is_digit : ℕ → Bool
is_digit c = leb b'0' c && leb c b'9'

-- One of the four parts: one to three digits, up to 255.
unfoldable pub octet : Text → Option ℕ
octet part =
    if leb 1 (length part) && leb (length part) 3 && all is_digit part
    then (if ltb 255 (value_from 0 part) then none else some (value_from 0 part))
    else none

abbrev pub next_octet : ℕ → Option ℕ → Option ℕ
next_octet out none = none
next_octet out (some n) = some (out * 256 + n)

abbrev pub four_octets : List Text → Option ℕ
four_octets (a ∷ b ∷ c ∷ d ∷ []) =
    shift (shift (shift (shift (some 0) (octet a)) (octet b)) (octet c)) (octet d)
  where
    shift : Option ℕ → Option ℕ → Option ℕ
    shift none o = none
    shift (some out) o = next_octet out o
four_octets _ = none

unfoldable pub ipv4_to_int : Text → Option ℕ
ipv4_to_int addr = four_octets (split b'.' addr)

abbrev pub upper_bits : ℕ → ℕ → ℕ
upper_bits n bits = n - n % 2 ^ (32 - bits)

abbrev pub in_block : ℕ → Option ℕ → ℕ → Bool
in_block addr none bits = false
in_block addr (some base) bits = upper_bits addr bits == upper_bits base bits

unfoldable pub in_cidr_v4 : ℕ → Text × ℕ → Bool
in_cidr_v4 addr (base, bits) = in_block addr (ipv4_to_int base) bits

abbrev pub ipv4_non_public : List (Text × ℕ)
ipv4_non_public =
    (codes "0.0.0.0", 8)
    ∷ (codes "10.0.0.0", 8)
    ∷ (codes "100.64.0.0", 10)
    ∷ (codes "127.0.0.0", 8)
    ∷ (codes "169.254.0.0", 16)
    ∷ (codes "172.16.0.0", 12)
    ∷ (codes "192.0.2.0", 24)
    ∷ (codes "192.168.0.0", 16)
    ∷ (codes "198.51.100.0", 24)
    ∷ (codes "203.0.113.0", 24)
    ∷ (codes "224.0.0.0", 4)
    ∷ (codes "240.0.0.0", 4)
    ∷ []

unfoldable pub ipv4_is_public : Text → Bool
ipv4_is_public addr = elim (ipv4_to_int addr) [
  | none ↦ false
  | some n ↦ not (any (in_cidr_v4 n) ipv4_non_public)
]

-- The text before the last `c` and the text after it.
unfoldable pub split_last : ℕ → Text → Option (Text × Text)
split_last c [] = none
split_last c (d ∷ s) = elim (split_last c s) [
  | some (before, after) ↦ some (d ∷ before, after)
  | none ↦ if d == c then some ([], s) else none
]

abbrev first_of : List Text → Text
first_of [] = []
first_of (part ∷ parts) = part

-- `head.split('::')`
unfoldable pub split_double : Text → List Text
split_double [] = [] ∷ []
split_double (c ∷ []) = (c ∷ []) ∷ []
split_double (c ∷ d ∷ s) = elim (c == b':' && d == b':') [
  | true ↦ [] ∷ split_double s
  | false ↦ push c (split_double (d ∷ s))
]

abbrev drop_last_colon : Text → Text
drop_last_colon [] = []
drop_last_colon (c ∷ []) = if c == b':' then [] else c ∷ []
drop_last_colon (c ∷ d ∷ s) = c ∷ drop_last_colon (d ∷ s)

-- The head of an address and the hextets of its dotted tail.
abbrev tail_of : Text → Option (Text × Text) → Option (Text × List ℕ)
tail_of bare none = some (bare, [])
tail_of bare (some (before, after)) =
    if any (λ c. c == b'.') after
    then elim (ipv4_to_int after) [
      | none ↦ none
      | some n ↦ some (drop_last_colon before, (n / 65536 % 65536) ∷ (n % 65536) ∷ [])
    ]
    else some (bare, [])

abbrev hex_value : ℕ → Option ℕ
hex_value c =
    if is_digit c
    then some (c - b'0')
    else if leb b'a' c && leb c b'f'
    then some (c - 87)
    else if leb b'A' c && leb c b'F'
    then some (c - 55)
    else none

abbrev hex_from : ℕ → Text → Option ℕ
hex_from acc [] = some acc
hex_from acc (c ∷ s) = elim (hex_value c) [ none ↦ none | some d ↦ hex_from (acc * 16 + d) s ]

unfoldable pub hextet : Text → Option ℕ
hextet h = if leb 1 (length h) && leb (length h) 4 then hex_from 0 h else none

abbrev hextets : List Text → Option (List ℕ)
hextets [] = some []
hextets (h ∷ hs) = elim (hextet h) [
  | none ↦ none
  | some n ↦ elim (hextets hs) [ none ↦ none | some ns ↦ some (n ∷ ns) ]
]

unfoldable pub parse_half : Text → Option (List ℕ)
unfolding hextet split
parse_half [] = some []
parse_half (c ∷ s) = hextets (split b':' (c ∷ s))

abbrev zeros : ℕ → List ℕ
zeros zero = []
zeros (suc n) = 0 ∷ zeros n

abbrev pub fill : Option (List ℕ) → Option (List ℕ) → List ℕ → Bool → Option (List ℕ)
fill (some left) (some right) tail short =
    let used = length tail + length left + length right in
    if if short then not (used == 8) else ltb 8 used
    then none
    else some (left ++ zeros (8 - used) ++ right ++ tail)
fill _ _ tail short = none

abbrev from_halves : List ℕ → List Text → Option (List ℕ)
from_halves tail (a ∷ []) = fill (parse_half a) (some []) tail true
from_halves tail (a ∷ b ∷ []) = fill (parse_half a) (parse_half b) tail false
from_halves tail _ = none

unfoldable pub expand_ipv6 : Text → Option (List ℕ)
unfolding split split_last split_double parse_half
expand_ipv6 addr =
    let bare = first_of (split b'%' addr) in
    elim (tail_of bare (split_last b':' bare)) [
      | none ↦ none
      | some (head, tail) ↦ from_halves tail (split_double head)
    ]

abbrev pub quad : ℕ → ℕ → ℕ → ℕ → Text
quad a b c d = show a ++ (b'.' ∷ show b ++ (b'.' ∷ show c ++ (b'.' ∷ show d)))

unfoldable pub hextets_are_public : List ℕ → Bool
hextets_are_public (h0 ∷ h1 ∷ h2 ∷ h3 ∷ h4 ∷ h5 ∷ h6 ∷ h7 ∷ []) =
    let first_five = h0 == 0 && h1 == 0 && h2 == 0 && h3 == 0 && h4 == 0 in
    if all (λ v. v == 0) (h0 ∷ h1 ∷ h2 ∷ h3 ∷ h4 ∷ h5 ∷ h6 ∷ h7 ∷ [])
    then false
    else if first_five && h5 == 0 && h6 == 0 && h7 == 1
    then false
    else if h0 - h0 % 64 == 0xfe80
    then false
    else if h0 - h0 % 512 == 0xfc00
    then false
    else if h0 - h0 % 256 == 0xff00
    then false
    else if h0 == 0x2001 && h1 == 0x0db8
    then false
    else if h0 == 0x0064 && h1 == 0xff9b
    then false
    else if first_five && h5 == 0xffff
    then ipv4_is_public (quad (h6 / 256 % 256) (h6 % 256) (h7 / 256 % 256) (h7 % 256))
    else true
hextets_are_public _ = false

unfoldable pub ipv6_is_public : Text → Bool
ipv6_is_public addr = elim (expand_ipv6 addr) [ none ↦ false | some h ↦ hextets_are_public h ]

-- `isIP` of Node: 4, 6 or 0.
unfoldable pub ip_is_public : (is_ip : Text → ℕ) → Text → Bool
ip_is_public is_ip addr =
    if is_ip addr == 4
    then ipv4_is_public addr
    else if is_ip addr == 6
    then ipv6_is_public addr
    else false

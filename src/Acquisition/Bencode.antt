-- ===== src/Acquisition/Bencode.antt =====
-- The decoder of dsh-tool-acquisition/src/bencode.ts, and what it reads of a torrent. A position in the
-- data is the list of the bytes from there on, and `none` stands for the failure
-- `ACQUIRE_INVALID_TORRENT`.
pub mod Digits
pub mod Encode
pub mod Leaves
pub mod Rounded
pub mod RoundTrip
use deepseek_harness_web3_ag.Prelude.{
  ℕ, zero, suc, ◌+◌, ◌-◌, Bool, false, not, ◌&&◌, ◌||◌, Option, none, some, [], ◌∷◌, Text, codes,
  text_eq, length, take, drop, all, leb, ◌==◌, if◌then◌else◌,
}
use deepseek_harness_web3_ag.Prelude.Maps.{Dict, insert}
pub use deepseek_harness_web3_ag.Prelude.Integers.{ℤ, pos, negsuc, ◌+ℤ◌}
use deepseek_harness_web3_ag.Acquisition.Number.{is_digit, to_decimal, to_double, to_number}

-- The double next to an integer.
abbrev pub rounded_integer : ℤ → ℤ
rounded_integer (pos n) = pos (to_double n)
rounded_integer (negsuc n) = negsuc (to_double (suc n) - 1)

-- A dictionary is a `Map`: its entries
-- in the order in which the keys came first.
mutual
  pub data BencodeValue : Type 0 where
    integer : ℤ → BencodeValue
    bytes : Text → BencodeValue
    items : Items → BencodeValue
    dictionary : Fields → BencodeValue

  pub data Items : Type 0 where
    nil : Items
    cons : BencodeValue → Items → Items

  pub data Fields : Type 0 where
    end : Fields
    field : Text → BencodeValue → Fields → Fields

-- `map.set`
unfoldable pub set_field : Text → BencodeValue → Fields → Fields
set_field k v end = field k v end
set_field k v (field j w m) = if text_eq j k then field j v m else field j w (set_field k v m)

-- `map.get`
unfoldable pub get_field : Text → Fields → Option BencodeValue
get_field k end = none
get_field k (field j w m) = if text_eq j k then some w else get_field k m

-- The bytes up to the first `c`, and those behind it.
abbrev onto : ℕ → Option (Text × Text) → Option (Text × Text)
onto b none = none
onto b (some (before, after)) = some (b ∷ before, after)

unfoldable pub break_at : ℕ → Text → Option (Text × Text)
break_at c [] = none
break_at c (b ∷ rest) = if b == c then some ([], rest) else onto b (break_at c rest)

abbrev pub Parsed : Type 0
Parsed = Option (BencodeValue × Text)

-- /^\d+$/, and not `0…` but for `0`; behind a minus sign, not even that.
abbrev pub is_positive : Text → Bool
is_positive [] = false
is_positive (c ∷ raw) = is_digit c && not (c == b'0') && all is_digit raw

abbrev pub signless : Text → Option BencodeValue
signless raw =
    if is_positive raw || text_eq raw (codes "0")
    then some (integer (pos (to_double (to_decimal raw))))
    else none

unfoldable pub read_integer : Text → Option BencodeValue
unfolding to_decimal
read_integer [] = none
read_integer (c ∷ raw) =
    if c == b'-'
    then (if is_positive raw
        then some (integer (negsuc (to_double (to_decimal raw) - 1)))
        else none)
    else signless (c ∷ raw)

abbrev pub with_rest : Text → Option BencodeValue → Parsed
with_rest rest none = none
with_rest rest (some v) = some (v, rest)

abbrev pub integer_at : Option (Text × Text) → Parsed
integer_at none = none
integer_at (some (raw, rest)) = with_rest rest (read_integer raw)

-- A string of `n` bytes at the front.
abbrev pub string_of : Text → Option ℕ → Parsed
string_of rest none = none
string_of rest (some n) =
    if leb n (length rest) then some (bytes (take n rest), drop n rest) else none

abbrev pub string_at : Option (Text × Text) → Parsed
string_at none = none
string_at (some (raw, rest)) = string_of rest (to_number raw)

abbrev pub at_e : Text → Bool
at_e [] = false
at_e (c ∷ rest) = c == b'e'

abbrev cons_item : BencodeValue → Option (Items × Text) → Option (Items × Text)
cons_item v none = none
cons_item v (some (xs, rest)) = some (cons v xs, rest)

abbrev pub then_items : (Text → Option (Items × Text)) → Parsed → Option (Items × Text)
then_items next none = none
then_items next (some (v, rest)) = cons_item v (next rest)

-- The loop over the items of a list up to an `e`, where `value` reads a value. A round reads a byte at
-- least, so the bytes and one are fuel enough.
unfoldable pub read_items : (Text → Parsed) → ℕ → Text → Option (Items × Text)
read_items value zero rest = none
read_items value (suc fuel) rest =
    let more = then_items (read_items value fuel) (value rest) in
    if at_e rest then some (nil, drop 1 rest) else more

-- The entries of a dictionary, and the bytes of each value.
abbrev pub Entries : Type 0
Entries = Fields × Dict Text

-- The bytes from one position to a later one.
abbrev pub slice : Text → Text → Text
slice start stop = take (length start - length stop) start

abbrev pub then_value :
    (Entries → Text → Option (Entries × Text))
    → Entries
    → Text
    → Text
    → Parsed
    → Option (Entries × Text)
then_value next (m, spans) name start none = none
then_value next (m, spans) name start (some (v, rest)) =
    next (set_field name v m, insert name (slice start rest) spans) rest

abbrev pub then_entry :
    (Entries → Text → Option (Entries × Text))
    → (Text → Parsed)
    → Entries
    → Parsed
    → Option (Entries × Text)
then_entry next value read none = none
then_entry next value read (some (bytes name, rest)) = then_value next read name rest (value rest)
then_entry next value read (some (integer n, rest)) = none
then_entry next value read (some (items xs, rest)) = none
then_entry next value read (some (dictionary m, rest)) = none

-- The loop over the entries of a dictionary, after those that were read.
unfoldable pub read_fields : (Text → Parsed) → ℕ → Entries → Text → Option (Entries × Text)
read_fields value zero read rest = none
read_fields value (suc fuel) read rest =
    let more = then_entry (read_fields value fuel) value read (value rest) in
    if at_e rest then some (read, drop 1 rest) else more

abbrev pub listed : Option (Items × Text) → Parsed
listed none = none
listed (some (xs, rest)) = some (items xs, rest)

abbrev pub mapped : Option (Entries × Text) → Parsed
mapped none = none
mapped (some ((m, spans), rest)) = some (dictionary m, rest)

-- `decodeAt` where `left` levels of nesting are left.
unfoldable pub decode_at : ℕ → Text → Parsed
unfolding read_integer break_at to_number
decode_at zero rest = none
decode_at (suc left) [] = none
decode_at (suc left) (c ∷ rest) =
    if c == b'i'
    then integer_at (break_at b'e' rest)
    else if c == b'l'
    then listed (read_items (decode_at left) (suc (length rest)) rest)
    else if c == b'd'
    then mapped (read_fields (decode_at left) (suc (length rest)) (end, []) rest)
    else if is_digit c
    then string_at (break_at b':' (c ∷ rest))
    else none

-- `MAX_DEPTH`
abbrev pub max_depth : ℕ
max_depth = 64

abbrev value_of : Parsed → Option BencodeValue
value_of none = none
value_of (some (v, rest)) = some v

-- What follows the value is not looked at.
unfoldable pub decode : Text → Option BencodeValue
unfolding decode_at
decode data_ = value_of (decode_at (suc max_depth) data_)

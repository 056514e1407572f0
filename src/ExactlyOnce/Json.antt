-- ===== src/ExactlyOnce/Json.antt =====
-- JavaScript values and `JSON.stringify`, as dsh-exactly-once/src/canonical.ts uses them. A value lives
-- on a heap of objects, which may share and may be cyclic; a number is the text by which
-- `JSON.stringify` writes it.
use deepseek_harness_web3_ag.Prelude.{
  ℕ, ◌+◌, ◌-◌, ◌/◌, ◌%◌, Bool, true, false, ◌&&◌, ◌||◌, List, [], ◌∷◌, ◌++◌, Text, codes, ltb, leb,
  ◌==◌, if◌then◌else◌,
}
use deepseek_harness_web3_ag.Prelude.Maps.{Dict}

pub data Value : Type 0 where
  undefined : Value
  null : Value
  bool : Bool → Value
  num : Text → Value
  str : Text → Value
  function : Value  -- or a symbol
  ref : ℕ → Value

-- An array, its holes as `undefined`, or an object's own properties.
pub data Node : Type 0 where
  arr : List Value → Node
  obj : Dict Value → Node

abbrev pub Heap : Type 0
Heap = List Node

pub record JsValue : Type 0 where
  pub heap : Heap
  pub root : Value

-- What `sort` returns: a tree, with what `JSON.stringify` drops already gone.
mutual
  pub data Sorted : Type 0 where
    null : Sorted
    bool : Bool → Sorted
    num : Text → Sorted
    str : Text → Sorted
    arr : Items → Sorted
    obj : Fields → Sorted

  pub data Items : Type 0 where
    nil : Items
    cons : Sorted → Items → Items

  pub data Fields : Type 0 where
    end : Fields
    field : Text → Sorted → Fields → Fields

abbrev hex_digit : ℕ → ℕ
hex_digit d = if ltb d 10 then b'0' + d else b'a' + (d - 10)

-- `\u` and four hexadecimal digits.
abbrev unicode_escape : ℕ → Text
unicode_escape c =
    b'\\'
    ∷ b'u'
    ∷ hex_digit (c / 4096 % 16)
    ∷ hex_digit (c / 256 % 16)
    ∷ hex_digit (c / 16 % 16)
    ∷ hex_digit (c % 16)
    ∷ []

-- The escapes of a code unit of its own; a surrogate comes here only without its partner.
abbrev quote_unit : ℕ → Text
quote_unit c =
    if c == 8
    then codes "\\b"
    else if c == 9
    then codes "\\t"
    else if c == 10
    then codes "\\n"
    else if c == 12
    then codes "\\f"
    else if c == 13
    then codes "\\r"
    else if c == b'"'
    then b'\\' ∷ b'"' ∷ []
    else if c == b'\\'
    then b'\\' ∷ b'\\' ∷ []
    else if ltb c 32 || leb 0xd800 c && leb c 0xdfff
    then unicode_escape c
    else c ∷ []

abbrev is_pair : ℕ → ℕ → Bool
is_pair c d = leb 0xd800 c && leb c 0xdbff && leb 0xdc00 d && leb d 0xdfff

unfoldable pub quote_units : Text → Text
quote_units [] = []
quote_units (c ∷ []) = quote_unit c
quote_units (c ∷ d ∷ cs) =
    let paired = c ∷ d ∷ quote_units cs in
    let single = quote_unit c ++ quote_units (d ∷ cs) in if is_pair c d then paired else single

unfoldable pub quote : Text → Text
unfolding quote_units
quote s = b'"' ∷ quote_units s ++ b'"' ∷ []

-- `JSON.stringify` of what `sort` returned. What follows a member is handed along.
unfoldable mutual
  unfolding quote

  pub stringify : Sorted → Text
  stringify Sorted.null = codes "null"
  stringify (Sorted.bool true) = codes "true"
  stringify (Sorted.bool false) = codes "false"
  stringify (Sorted.num n) = n
  stringify (Sorted.str s) = quote s
  stringify (Sorted.arr xs) = b'[' ∷ stringify_items xs
  stringify (Sorted.obj fs) = b'{' ∷ stringify_fields fs

  pub stringify_items : Items → Text
  stringify_items nil = codes "]"
  stringify_items (cons x nil) = stringify x ++ codes "]"
  stringify_items (cons x (cons y ys)) = stringify x ++ codes "," ++ stringify_items (cons y ys)

  pub stringify_fields : Fields → Text
  stringify_fields end = codes "}"
  stringify_fields (field k s end) = quote k ++ codes ":" ++ stringify s ++ codes "}"
  stringify_fields (field k s (field j t fs)) =
      quote k ++ codes ":" ++ stringify s ++ codes "," ++ stringify_fields (field j t fs)

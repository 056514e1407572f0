-- ===== src/ExactlyOnce/Canonical.antt =====
-- dsh-exactly-once/src/canonical.ts: tool arguments as text.
use deepseek_harness_web3_ag.Prelude.{
  ℕ, zero, suc, ◌+◌, ◌-◌, ◌*◌, Bool, true, false, ◌&&◌, Option, none, some, List, [], ◌∷◌, Text,
  codes, ltb, leb, ◌==◌, text_lt, if◌then◌else◌, length, get_elem?, any, all,
}
use deepseek_harness_web3_ag.Prelude.Maps.{Dict}
use deepseek_harness_web3_ag.ExactlyOnce.Json.{
  Value, undefined, null, bool, num, str, function, ref, Node, arr, obj, Heap, JsValue, Sorted,
  Items, nil, cons, Fields, end, field, stringify,
}

module _ {V : Type 0} where
  unfoldable pub insert_key : Text → V → Dict V → Dict V
  insert_key k v [] = (k, v) ∷ []
  insert_key k v ((j, w) ∷ m) =
      if text_lt j k then (j, w) ∷ insert_key k v m else (k, v) ∷ (j, w) ∷ m

  -- The entries in the order of `Object.keys(record).sort()`.
  unfoldable pub sort_keys : Dict V → Dict V
  sort_keys [] = []
  sort_keys ((k, v) ∷ m) = insert_key k v (sort_keys m)

-- `seen.has(value)`
unfoldable pub seen_has : ℕ → List ℕ → Bool
seen_has i seen = any (λ j. i == j) seen

abbrev pub circular : Sorted
circular = Sorted.str (codes "[Circular]")

-- An array entry that sorted to `undefined` becomes `null`.
abbrev pub or_null : Option Sorted → Sorted
or_null none = Sorted.null
or_null (some s) = s

unfoldable pub sort_items : (Value → Option Sorted) → List Value → Items
sort_items go [] = nil
sort_items go (v ∷ vs) = cons (or_null (go v)) (sort_items go vs)

abbrev pub keep_defined : Text → Option Sorted → Dict Sorted → Dict Sorted
keep_defined k none rest = rest
keep_defined k (some s) rest = (k, s) ∷ rest

-- The pairs of `entries`.
unfoldable pub sort_entries : (Value → Option Sorted) → Dict Value → Dict Sorted
sort_entries go [] = []
sort_entries go ((k, v) ∷ m) = keep_defined k (go v) (sort_entries go m)

abbrev is_digit : ℕ → Bool
is_digit c = leb b'0' c && leb c b'9'

abbrev decimal_from : ℕ → Text → ℕ
decimal_from acc [] = acc
decimal_from acc (c ∷ cs) = decimal_from (acc * 10 + (c - b'0')) cs

-- Whether a key is an array index, which an object lists before its other keys.
unfoldable pub is_index : Text → Bool
is_index [] = false
is_index (c ∷ []) = is_digit c
is_index (c ∷ d ∷ cs) =
    leb b'1' c
    && all is_digit (c ∷ d ∷ cs)
    && leb (length cs) 8
    && ltb (decimal_from 0 (c ∷ d ∷ cs)) 4294967295

-- Before which of the listed properties a new one goes: an index goes behind the smaller indices, and
-- another key behind all indices, ahead of the others, which came later in the sorted entries.
unfoldable pub insert_listed : Text → Sorted → Dict Sorted → Dict Sorted
unfolding is_index
insert_listed k s [] = (k, s) ∷ []
insert_listed k s ((j, w) ∷ m) =
    if is_index j && (if is_index k then ltb (decimal_from 0 j) (decimal_from 0 k) else true)
    then (j, w) ∷ insert_listed k s m
    else (k, s) ∷ (j, w) ∷ m

-- The properties of `Object.fromEntries(entries)`.
unfoldable pub list_properties : Dict Sorted → Dict Sorted
unfolding insert_listed
list_properties [] = []
list_properties ((k, s) ∷ m) = insert_listed k s (list_properties m)

abbrev pub fields : Dict Sorted → Fields
fields [] = end
fields ((k, s) ∷ m) = field k s (fields m)

unfoldable pub sort_node : (Value → Option Sorted) → Node → Option Sorted
unfolding sort_items sort_entries sort_keys insert_key list_properties
sort_node go (arr vs) = some (Sorted.arr (sort_items go vs))
sort_node go (obj m) = some (Sorted.obj (fields (list_properties (sort_entries go (sort_keys m)))))

abbrev pub node_at : (Node → Option Sorted) → Option Node → Option Sorted
node_at go none = none
node_at go (some n) = go n

-- `sort(value, seen)`: `seen` holds the objects above. `none` is `undefined`. The fuel bounds how
-- deep the calls go.
unfoldable pub sort_value : ℕ → Heap → List ℕ → Value → Option Sorted
unfolding sort_node seen_has
sort_value zero heap seen v = none
sort_value (suc f) heap seen undefined = none
sort_value (suc f) heap seen null = some Sorted.null
sort_value (suc f) heap seen (bool b) = some (Sorted.bool b)
sort_value (suc f) heap seen (num n) = some (Sorted.num n)
sort_value (suc f) heap seen (str s) = some (Sorted.str s)
sort_value (suc f) heap seen function = none
sort_value (suc f) heap seen (ref i) =
    if seen_has i seen
    then some circular
    else node_at (sort_node (sort_value f heap (i ∷ seen))) (get_elem? heap i)

-- `JSON.stringify(sort(value, new Set())) ?? 'null'`, with fuel for every object of the heap.
unfoldable pub canonicalize : JsValue → Text
unfolding sort_value stringify
canonicalize v = elim (sort_value (length v.heap + 2) v.heap [] v.root) [
  | none ↦ codes "null"
  | some s ↦ stringify s
]

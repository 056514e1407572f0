-- ===== src/ExactlyOnce/Guard/Clone.antt =====
-- `cloneJson` of dsh-exactly-once/src/guard.ts on the values of tool results: what `JSON.parse` reads of
-- what `JSON.stringify` writes. A value is a tree; one with a cycle or a bigint, on which `JSON.stringify`
-- throws, is none.
use deepseek_harness_web3_ag.Prelude.{◌≡◌, refl, ap, Bool, Option, none, some, Text}

-- A number is the text by which `JSON.stringify` writes it; NaN and the infinities are `not_finite`.
mutual
  pub data Tree : Type 0 where
    undefined : Tree
    function : Tree  -- or a symbol
    not_finite : Tree
    null : Tree
    bool : Bool → Tree
    num : Text → Tree
    str : Text → Tree
    arr : Trees → Tree
    obj : Members → Tree

  pub data Trees : Type 0 where
    nil : Trees
    cons : Tree → Trees → Trees

  pub data Members : Type 0 where
    end : Members
    member : Text → Tree → Members → Members

-- What stands in an array for what `JSON.stringify` does not write.
abbrev or_null : Option Tree → Tree
or_null none = null
or_null (some v) = v

-- A member that `JSON.stringify` does not write is dropped.
abbrev with_member : Text → Option Tree → Members → Members
with_member k none ms = ms
with_member k (some v) ms = member k v ms

-- `none` where `JSON.stringify` writes nothing.
unfoldable mutual
  pub clone_json : Tree → Option Tree
  clone_json undefined = none
  clone_json function = none
  clone_json not_finite = some null
  clone_json null = some null
  clone_json (bool b) = some (bool b)
  clone_json (num n) = some (num n)
  clone_json (str s) = some (str s)
  clone_json (arr vs) = some (arr (clone_items vs))
  clone_json (obj ms) = some (obj (clone_members ms))

  pub clone_items : Trees → Trees
  clone_items nil = nil
  clone_items (cons v vs) = cons (or_null (clone_json v)) (clone_items vs)

  pub clone_members : Members → Members
  clone_members end = end
  clone_members (member k v ms) = with_member k (clone_json v) (clone_members ms)

-- A JSON value: no part of it is undefined, a function, or a number that is not finite.
unfoldable mutual
  pub IsLossless : Tree → Type 0
  IsLossless undefined = ⊥
  IsLossless function = ⊥
  IsLossless not_finite = ⊥
  IsLossless null = Unit
  IsLossless (bool b) = Unit
  IsLossless (num n) = Unit
  IsLossless (str s) = Unit
  IsLossless (arr vs) = ItemsAreLossless vs
  IsLossless (obj ms) = MembersAreLossless ms

  pub ItemsAreLossless : Trees → Type 0
  ItemsAreLossless nil = Unit
  ItemsAreLossless (cons v vs) = IsLossless v × ItemsAreLossless vs

  pub MembersAreLossless : Members → Type 0
  MembersAreLossless end = Unit
  MembersAreLossless (member k v ms) = IsLossless v × MembersAreLossless ms

mutual
  unfolding clone_json IsLossless

  pub clone_json-IsLossless : (v : Tree) → IsLossless v → clone_json v ≡ some v
  clone_json-IsLossless undefined h = absurd h
  clone_json-IsLossless function h = absurd h
  clone_json-IsLossless not_finite h = absurd h
  clone_json-IsLossless null h = refl
  clone_json-IsLossless (bool b) h = refl
  clone_json-IsLossless (num n) h = refl
  clone_json-IsLossless (str s) h = refl
  clone_json-IsLossless (arr vs) h = ap (λ ws. some (arr ws)) (clone_items-lossless vs h)
  clone_json-IsLossless (obj ms) h = ap (λ ns. some (obj ns)) (clone_members-lossless ms h)

  clone_items-lossless : (vs : Trees) → ItemsAreLossless vs → clone_items vs ≡ vs
  clone_items-lossless nil h = refl
  clone_items-lossless (cons v vs) (h, hs) =
      rw (clone_json-IsLossless v h, clone_items-lossless vs hs) refl

  clone_members-lossless : (ms : Members) → MembersAreLossless ms → clone_members ms ≡ ms
  clone_members-lossless end h = refl
  clone_members-lossless (member k v ms) (h, hs) =
      rw (clone_json-IsLossless v h, clone_members-lossless ms hs) refl

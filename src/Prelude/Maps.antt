-- ===== src/Prelude/Maps.antt =====
-- JavaScript's `Map` with string keys: entries in the order of insertion.
use mathlib.Core.Path.{◌≡◌, refl}
use mathlib.Core.Bool.{Bool, not}
use mathlib.Core.Option.{Option, none, some}
use mathlib.Core.List.{List, [], ◌∷◌, map}
use native.Mathlib.Omega.{arith}
use deepseek_harness_web3_ag.Prelude.Tests.{
  Text, text_eq, text_eq→eq, text_eq_refl, text_eq_iff, if◌then◌else◌,
}

abbrev pub Dict {ℓ} : Type ℓ → Type ℓ
Dict V = List (Text × V)

module _ {ℓ} {V : Type ℓ} where
  -- `map.get(k)`
  unfoldable pub get : Text → Dict V → Option V
  get k [] = none
  get k ((j, v) ∷ m) = if text_eq j k then some v else get k m

  -- `map.set(k, v)`: in place, or at the end.
  unfoldable pub insert : Text → V → Dict V → Dict V
  insert k v [] = (k, v) ∷ []
  insert k v ((j, w) ∷ m) = if text_eq j k then (j, v) ∷ m else (j, w) ∷ insert k v m

  -- Keeps the entries whose key passes the test.
  unfoldable pub keep_if : (Text → Bool) → Dict V → Dict V
  keep_if p [] = []
  keep_if p ((j, w) ∷ m) = let rest = keep_if p m in if p j then (j, w) ∷ rest else rest

  -- `map.delete(k)`
  unfoldable pub erase : Text → Dict V → Dict V
  erase k = keep_if (λ j. not (text_eq j k))

  abbrev pub keys : Dict V → List Text
  keys = map (λ e. e.0)

  pub get-insert :
      (k j : Text) (v : V) (m : Dict V)
      → get j (insert k v m) ≡ (if text_eq k j then some v else get j m)
  unfolding get insert
  get-insert k j v [] = refl
  get-insert k j v ((i, w) ∷ m) =
      ground (arith, text_eq_iff k j, text_eq_iff i k, text_eq_iff i j, get-insert k j v m)

  pub get-insert_self : (k : Text) (v : V) (m : Dict V) → get k (insert k v m) ≡ some v
  get-insert_self k v m = rw (get-insert k k v m, text_eq_refl k)

  pub get-keep_if :
      (p : Text → Bool) (j : Text) (m : Dict V)
      → get j (keep_if p m) ≡ (if p j then get j m else none)
  unfolding get keep_if
  get-keep_if p j [] = ground arith
  get-keep_if p j ((i, w) ∷ m) = ground (arith, text_eq→eq i j, get-keep_if p j m, ap_test p i j)
    where
      ap_test : (q : Text → Bool) (a b : Text) → a ≡ b → q a ≡ q b
      ap_test q a b h = cc

  pub get-erase :
      (k j : Text) (m : Dict V) → get j (erase k m) ≡ (if text_eq k j then none else get j m)
  unfolding erase
  get-erase k j m =
      ground (arith, get-keep_if (λ i. not (text_eq i k)) j m, text_eq_iff k j, text_eq_iff j k)

  pub get-erase_self : (k : Text) (m : Dict V) → get k (erase k m) ≡ none
  get-erase_self k m = rw (get-erase k k m, text_eq_refl k)

-- ===== src/Prelude/Distinct.antt =====
-- Maps in which no key stands twice.
use deepseek_harness_web3_ag.Prelude.{
  ℕ, zero, suc, ◌≡◌, refl, ◌∙◌, false, Bool, not, none, [], ◌∷◌, Text, text_eq, text_eq_iff,
  text_eq→eq, if◌then◌else◌, arith, Bool-cases, inl, inr, take, drop, any,
}
use deepseek_harness_web3_ag.Prelude.Maps.{
  Dict, get, insert, keep_if, erase, keys, get-insert, get-keep_if,
}

-- No key stands twice.
abbrev pub Distinct {ℓ} : {V : Type ℓ} → Dict V → Type ℓ
Distinct [] = Unit
Distinct ((k, v) ∷ m) = (get k m ≡ none) × Distinct m

module _ {V : Type 0} where
  -- A key that leads nowhere is not among the keys.
  pub any-keys : (j : Text) (m : Dict V) → any (text_eq j) (keys m) ≡ false → get j m ≡ none
  unfolding get
  any-keys j [] h = refl
  any-keys j ((k, v) ∷ m) h = ground (arith, any-keys j m, text_eq_iff j k, text_eq_iff k j)

  pub any-keys_absent : (j : Text) (m : Dict V) → get j m ≡ none → any (text_eq j) (keys m) ≡ false
  unfolding get
  any-keys_absent j [] h = refl
  any-keys_absent j ((k, v) ∷ m) h =
      ground (arith, any-keys_absent j m, text_eq_iff j k, text_eq_iff k j)

  get-drop_absent : (n : ℕ) (j : Text) (m : Dict V) → get j m ≡ none → get j (drop n m) ≡ none
  unfolding get
  get-drop_absent zero j m h = h
  get-drop_absent (suc n) j [] h = refl
  get-drop_absent (suc n) j ((k, v) ∷ m) h = ground (arith, get-drop_absent n j m)

  -- Behind the first `n` rows stands what their keys do not name.
  pub get-drop :
      (n : ℕ) (j : Text) (m : Dict V)
      → Distinct m
      → get j (drop n m) ≡ (if any (text_eq j) (keys (take n m)) then none else get j m)
  unfolding get
  get-drop zero j m d = refl
  get-drop (suc n) j [] d = refl
  get-drop (suc n) j ((k, v) ∷ m) d = elim (Bool-cases (text_eq k j)) [
    | inl same ↦ ground (arith, text_eq_iff j k, text_eq→eq k j same, get-drop_absent n k m d.0)
    | inr other ↦ ground (arith, text_eq_iff j k, text_eq_iff k j, get-drop n j m d.1)
  ]

  pub Distinct-drop : (n : ℕ) (m : Dict V) → Distinct m → Distinct (drop n m)
  Distinct-drop zero m d = d
  Distinct-drop (suc n) [] d = tt
  Distinct-drop (suc n) (e ∷ m) d = Distinct-drop n m d.1

  pub Distinct-keep_if : (p : Text → Bool) (m : Dict V) → Distinct m → Distinct (keep_if p m)
  unfolding keep_if
  Distinct-keep_if p [] d = tt
  Distinct-keep_if p ((j, w) ∷ m) d = elim (Bool-cases (p j)) [
    | inl kept ↦ rw kept (rw (get-keep_if p j m, kept) d.0, Distinct-keep_if p m d.1)
    | inr gone ↦ rw gone (Distinct-keep_if p m d.1)
  ]

  pub Distinct-erase : (k : Text) (m : Dict V) → Distinct m → Distinct (erase k m)
  unfolding erase
  Distinct-erase k m d = Distinct-keep_if (λ j. not (text_eq j k)) m d

  pub Distinct-insert : (k : Text) (v : V) (m : Dict V) → Distinct m → Distinct (insert k v m)
  unfolding insert get
  Distinct-insert k v [] d = (refl, tt)
  Distinct-insert k v ((j, w) ∷ m) d = elim (Bool-cases (text_eq j k)) [
    | inl same ↦ rw same d
    | inr other ↦ rw other (
      get-insert k j v m ∙ ground (arith, text_eq_iff j k, text_eq_iff k j, d.0),
      Distinct-insert k v m d.1,
    )
  ]

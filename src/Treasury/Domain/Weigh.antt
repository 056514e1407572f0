-- ===== src/Treasury/Domain/Weigh.antt =====
-- Sums over the rows of a table depend only on what the keys lead to, not on the order of the rows.
use deepseek_harness_web3_ag.Prelude.Distinct.{Distinct, Distinct-erase}
use deepseek_harness_web3_ag.Prelude.{
  ℕ, ◌+◌, ◌≡◌, refl, sym, ◌∙◌, none, some, [], ◌∷◌, Text, text_eq, text_eq_refl, text_eq→eq, arith,
  Bool-cases, inl, inr,
}
use deepseek_harness_web3_ag.Prelude.Maps.{Dict, get, erase, keep_if, get-erase}
use deepseek_harness_web3_ag.Treasury.Domain.{Distinct}

module _ {V : Type 0} (f : V → ℕ) where
  -- The sum of the weights of the rows.
  abbrev pub weigh : Dict V → ℕ
  weigh [] = 0
  weigh ((k, v) ∷ m) = f v + weigh m

  -- A key with no row: erasing it leaves the sum.
  pub weigh-erase_absent : (k : Text) (m : Dict V) → get k m ≡ none → weigh (erase k m) ≡ weigh m
  unfolding get erase keep_if
  weigh-erase_absent k [] h = refl
  weigh-erase_absent k ((j, w) ∷ m) h = ground (arith, weigh-erase_absent k m)

  pub weigh-erase :
      (k : Text) (v : V) (m : Dict V)
      → Distinct m
      → get k m ≡ some v
      → weigh m ≡ f v + weigh (erase k m)
  unfolding get erase keep_if
  weigh-erase k v [] d h = ground arith
  weigh-erase k v ((j, w) ∷ m) d h = elim (Bool-cases (text_eq j k)) [
    | inl same ↦ ground (arith, weigh-erase_absent k m, text_eq→eq j k same)
    | inr other ↦ ground (arith, weigh-erase k v m d.1)
  ]

module _ {V : Type 0} where
  get-cons_self : (k : Text) (v : V) (m : Dict V) → get k ((k, v) ∷ m) ≡ some v
  unfolding get
  get-cons_self k v m = rw (text_eq_refl k)

  -- Below its first row a table agrees with the other table less that row's key.
  tail_agrees :
      (k : Text) (v : V) (m m' : Dict V)
      → get k m ≡ none
      → ((j : Text) → get j ((k, v) ∷ m) ≡ get j m')
      → (j : Text) → get j m ≡ get j (erase k m')
  unfolding get
  tail_agrees k v m m' absent h j =
      ground (arith, h j, get-erase k j m', text_eq→eq k j, absent_at k j m absent)
    where
      absent_at : (a b : Text) (n : Dict V) → get a n ≡ none → a ≡ b → get b n ≡ none
      absent_at a b n e s = rw (← s) e

  -- Two tables that agree at every key weigh the same.
  pub weigh_ext :
      (f : V → ℕ) (m m' : Dict V)
      → Distinct m
      → Distinct m'
      → ((j : Text) → get j m ≡ get j m')
      → weigh f m ≡ weigh f m'
  unfolding get
  weigh_ext f [] [] d d' h = refl
  weigh_ext f [] ((k, v) ∷ m') d d' h = cc (h k, get-cons_self k v m')
  weigh_ext f ((k, v) ∷ m) m' d d' h = omega (
    arith,
    weigh-erase f k v m' d' (sym (h k) ∙ get-cons_self k v m),
    weigh_ext f m (erase k m') d.1 (Distinct-erase k m' d') (tail_agrees k v m m' d.0 h),
  )

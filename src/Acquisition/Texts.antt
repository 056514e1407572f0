-- ===== src/Acquisition/Texts.antt =====
-- The methods of strings that dsh-tool-acquisition/src/fetchSafety.ts uses. Letters are those of ASCII.
use deepseek_harness_web3_ag.Prelude.{
  is_space, ℕ, ◌+◌, ◌≡◌, refl, ap, ◌↔◌, inl, inr, Bool, true, ◌&&◌, ◌||◌, List, [], ◌∷◌, ◌++◌, Text,
  text_eq, text_eq_refl, text_eq→eq, leb, ◌==◌, if◌then◌else◌, arith, Bool-cases, map,
}

abbrev lower : ℕ → ℕ
lower c = if leb b'A' c && leb c b'Z' then c + 32 else c

abbrev pub to_lower : Text → Text
to_lower = map lower

abbrev pub trim_start : Text → Text
trim_start [] = []
trim_start (c ∷ s) = if is_space c then trim_start s else c ∷ s

abbrev behind : ℕ → Text → Text
behind c [] = if is_space c then [] else c ∷ []
behind c (d ∷ s) = c ∷ d ∷ s

abbrev pub trim_end : Text → Text
trim_end [] = []
trim_end (c ∷ s) = behind c (trim_end s)

abbrev pub trim : Text → Text
trim s = trim_end (trim_start s)

-- `s.replace(/\.$/, '')`
abbrev pub drop_last_dot : Text → Text
drop_last_dot [] = []
drop_last_dot (c ∷ []) = if c == b'.' then [] else c ∷ []
drop_last_dot (c ∷ d ∷ s) = c ∷ drop_last_dot (d ∷ s)

-- `s.endsWith(p)`
unfoldable pub ends_with : Text → Text → Bool
ends_with [] p = text_eq [] p
ends_with (c ∷ s) p = text_eq (c ∷ s) p || ends_with s p

abbrev pub push : ℕ → List Text → List Text
push c [] = (c ∷ []) ∷ []
push c (part ∷ parts) = (c ∷ part) ∷ parts

-- `s.split(c)`
unfoldable pub split : ℕ → Text → List Text
split sep [] = [] ∷ []
split sep (c ∷ s) = let rest = split sep s in if c == sep then [] ∷ rest else push c rest

ends_with_sound : (s p : Text) → ends_with s p ≡ true → (front : Text) × (s ≡ front ++ p)
unfolding ends_with
ends_with_sound [] p h = ([], text_eq→eq [] p h)
ends_with_sound (c ∷ s) p h = elim (Bool-cases (text_eq (c ∷ s) p)) [
  | inl same ↦ ([], text_eq→eq (c ∷ s) p same)
  | inr shorter ↦
      let (front, e) = ends_with_sound s p (ground arith) in (c ∷ front, ap (λ t. c ∷ t) e)
]

ends_with-here : (p : Text) → ends_with p p ≡ true
unfolding ends_with
ends_with-here [] = refl
ends_with-here (c ∷ p) = ground (arith, text_eq_refl (c ∷ p))

ends_with_complete : (front p : Text) → ends_with (front ++ p) p ≡ true
unfolding ends_with
ends_with_complete [] p = ends_with-here p
ends_with_complete (c ∷ front) p = ground (arith, ends_with_complete front p)

pub ends_with_iff : (s p : Text) → (ends_with s p ≡ true) ↔ ((front : Text) × (s ≡ front ++ p))
ends_with_iff s p = (ends_with_sound s p, λ x. rw x.1 (ends_with_complete x.0 p))

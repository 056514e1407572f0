-- ===== src/Acquisition/PathMappings/Longest.antt =====
-- Which mapping `applyPathMappings` (dsh-tool-acquisition/src/importer.ts) applies.
use deepseek_harness_web3_ag.Prelude.{
  ℕ, ◌≤◌, ◌<◌, ◌≡◌, refl, subst, ◌∙◌, ◌⊎◌, inl, inr, true, false, Option, none, some, List, [], ◌∷◌,
  ◌++◌, Text, text_eq, length, drop, if◌then◌else◌, arith, Bool-cases, All,
}
use deepseek_harness_web3_ag.Acquisition.PathMappings.{
  Mapping, with_slashes, read_mapping, covers, longer, consider, best_of, apply_best,
  apply_path_mappings,
}

module _ (normalized : Text) where
  abbrev cover_of : Option Mapping → ℕ
  cover_of none = 0
  cover_of (some m) =
      if text_eq m.remote [] then 0 else if covers normalized m.remote then length m.remote else 0

  -- The length of the remote side, where it is not empty and covers the path; otherwise 0.
  abbrev pub cover_length : Text → ℕ
  cover_length text = cover_of (read_mapping text)

  -- The mapping is read from one of the texts, and covers the path.
  abbrev pub Among : Mapping → List Text → Type 0
  Among m [] = ⊥
  Among m (text ∷ texts) = ((read_mapping text ≡ some m) × (0 < cover_length text)) ⊎ Among m texts

  abbrev best_length : Option Mapping → ℕ
  best_length none = 0
  best_length (some m) = length m.remote

  abbrev Loop : Option Mapping → List Text → Option Mapping → Type 0
  Loop best texts none = (best ≡ none) × All (λ text. cover_length text ≡ 0) texts
  Loop best texts (some m) =
      ((best ≡ some m) ⊎ Among m texts)
      × (best_length best ≤ length m.remote)
      × All (λ text. cover_length text ≤ length m.remote) texts

  -- One round keeps the best mapping, or takes one that is longer.
  abbrev Round : Option Mapping → Option Mapping → Option Mapping → Type 0
  Round best m best' =
      ((best' ≡ best) × (cover_of m ≤ best_length best))
      ⊎ ((n : Mapping) × (m ≡ some n)
          × (best' ≡ some n)
          × (0 < cover_of m)
          × (cover_of m ≡ length n.remote)
          × (best_length best ≤ length n.remote))

  length-positive : (t : Text) → text_eq t [] ≡ false → 0 < length t
  length-positive [] e = absurd (ground arith)
  length-positive (c ∷ t) e = omega arith

  longer-length :
      (best : Option Mapping) (m : Mapping)
      → longer m.remote best ≡ true
      → best_length best ≤ length m.remote
  longer-length none m e = omega arith
  longer-length (some b) m e = ground arith

  shorter-length :
      (best : Option Mapping) (m : Mapping)
      → longer m.remote best ≡ false
      → length m.remote ≤ best_length best
  shorter-length none m e = absurd (ground arith)
  shorter-length (some b) m e = ground arith

  consider-Round : (best m : Option Mapping) → Round best m (consider normalized best m)
  consider-Round best none = inl (refl, omega arith)
  consider-Round best (some m) = elim (Bool-cases (text_eq m.remote [])) [
    | inl e ↦ rw e (inl (refl, omega arith))
    | inr e ↦ elim (Bool-cases (covers normalized m.remote)) [
      | inr c ↦ rw (e, c) (inl (refl, omega arith))
      | inl c ↦ elim (Bool-cases (longer m.remote best)) [
        | inl l ↦
            rw (e, c, l)
              (inr (m, refl, refl, length-positive m.remote e, refl, longer-length best m l))
        | inr l ↦ rw (e, c, l) (inl (refl, shorter-length best m l))
      ]
    ]
  ]

  kept-Loop :
      (best : Option Mapping) (text : Text) (texts : List Text) (o : Option Mapping)
      → cover_length text ≤ best_length best
      → Loop best texts o
      → Loop best (text ∷ texts) o
  kept-Loop best text texts none le (empty, rest) =
      let zero_or_less : cover_length text ≤ 0 =
        subst (λ b. cover_length text ≤ best_length b) empty le in
      (empty, (omega arith, rest))
  kept-Loop best text texts (some m) le (from, bound, rest) =
      (elim from [ inl same ↦ inl same | inr among ↦ inr (inr among) ], bound, (omega arith, rest))

  taken-Loop :
      (best : Option Mapping) (n : Mapping) (text : Text) (texts : List Text) (o : Option Mapping)
      → read_mapping text ≡ some n
      → 0 < cover_length text
      → cover_length text ≡ length n.remote
      → best_length best ≤ length n.remote
      → Loop (some n) texts o
      → Loop best (text ∷ texts) o
  taken-Loop best n text texts none e pos same le (empty, rest) = absurd (ground arith)
  taken-Loop best n text texts (some m) e pos same le (from, bound, rest) = (
    elim from [ inl this ↦ inr (inl (e ∙ this, pos)) | inr among ↦ inr (inr among) ],
    omega arith,
    (omega arith, rest),
  )

  best_of-Loop :
      (best : Option Mapping) (texts : List Text) → Loop best texts (best_of normalized best texts)
  unfolding best_of
  best_of-Loop none [] = (refl, tt)
  best_of-Loop (some m) [] = (inl refl, omega arith, tt)
  best_of-Loop best (text ∷ texts) = elim (consider-Round best (read_mapping text)) [
    | inl (same, le) ↦ rw same (kept-Loop best text texts _ le (best_of-Loop best texts))
    | inr (n, e, same, pos, long, le) ↦
        rw same (taken-Loop best n text texts _ e pos long le (best_of-Loop (some n) texts))
  ]

-- Either no mapping has a remote side that covers the path, and the path is left as it is, or one that does
-- and whose remote side is at least as long as that of any other is applied: its local side replaces the
-- remote one in the path with forward slashes.
pub apply_path_mappings_longest :
    (path : Text) (mappings : List Text)
    → (All (λ text. cover_length (with_slashes path) text ≡ 0) mappings
        × (apply_path_mappings path mappings ≡ path))
      ⊎ ((m : Mapping) × Among (with_slashes path) m mappings
          × All (λ text. cover_length (with_slashes path) text ≤ length m.remote) mappings
          × (apply_path_mappings path mappings
              ≡ m.local ++ drop (length m.remote) (with_slashes path)))
unfolding apply_path_mappings
apply_path_mappings_longest path mappings =
    by_best (best_of (with_slashes path) none mappings)
      (best_of-Loop (with_slashes path) none mappings)
  where
    by_best :
        (o : Option Mapping)
        → Loop (with_slashes path) none mappings o
        → (All (λ text. cover_length (with_slashes path) text ≡ 0) mappings
            × (apply_best path o ≡ path))
          ⊎ ((m : Mapping) × Among (with_slashes path) m mappings
              × All (λ text. cover_length (with_slashes path) text ≤ length m.remote) mappings
              × (apply_best path o ≡ m.local ++ drop (length m.remote) (with_slashes path)))
    by_best none (_, rest) = inl (rest, refl)
    by_best (some m) (inl e, bound, rest) = absurd (ground arith)
    by_best (some m) (inr among, bound, rest) = inr (m, among, rest, refl)

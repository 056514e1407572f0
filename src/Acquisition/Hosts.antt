-- ===== src/Acquisition/Hosts.antt =====
-- `hostMatches` of dsh-tool-acquisition/src/fetchSafety.ts.
use deepseek_harness_web3_ag.Prelude.{
  starts_with, ◌≡◌, refl, ◌↔◌, ◌⊎◌, inl, inr, Bool, true, false, ◌||◌, List, [], ◌∷◌, ◌++◌, Text,
  codes, text_eq, text_eq→eq, eq→text_eq, if◌then◌else◌, arith, Bool-cases,
}
use deepseek_harness_web3_ag.Acquisition.Texts.{
  to_lower, trim, drop_last_dot, ends_with, ends_with_iff,
}

abbrev pub bare : Text → Text
bare host = drop_last_dot (to_lower host)

abbrev pub clean : Text → Text
clean raw = drop_last_dot (trim (to_lower raw))

-- The body of the loop: whether it returns `true` at a pattern.
unfoldable pub pattern_matches : Text → Text → Bool
pattern_matches host [] = false
pattern_matches host (c ∷ p) =
    if starts_with (codes "*.") (c ∷ p)
    then ends_with host p
    else text_eq host (c ∷ p) || ends_with host (b'.' ∷ c ∷ p)

unfoldable pub host_matches_from : Text → List Text → Bool
host_matches_from host [] = false
host_matches_from host (raw ∷ patterns) =
    pattern_matches host (clean raw) || host_matches_from host patterns

unfoldable pub host_matches : Text → List Text → Bool
host_matches host patterns = host_matches_from (bare host) patterns

-- What a cleaned pattern stands for: `*.x` for the hosts that end in `.x`, any other for itself and
-- for what ends in a dot and it, and the empty one for nothing.
abbrev pub Names : Text → Text → Type 0
Names [] host = ⊥
Names (c ∷ p) host =
    ((starts_with (codes "*.") (c ∷ p) ≡ true) × ((front : Text) × (host ≡ front ++ p)))
    ⊎ ((starts_with (codes "*.") (c ∷ p) ≡ false)
        × ((host ≡ c ∷ p) ⊎ ((front : Text) × (host ≡ front ++ b'.' ∷ c ∷ p))))

-- Some pattern of the list names the host.
abbrev pub Named : List Text → Text → Type 0
Named [] host = ⊥
Named (raw ∷ patterns) host = Names (clean raw) host ⊎ Named patterns host

pattern_matches_sound : (host p : Text) → pattern_matches host p ≡ true → Names p host
unfolding pattern_matches
pattern_matches_sound host [] h = absurd (cc)
pattern_matches_sound host (c ∷ p) h = elim (Bool-cases (starts_with (codes "*.") (c ∷ p))) [
  | inl starred ↦ inl (starred, (ends_with_iff host p).0 (rw (starred, pattern_matches) at h))
  | inr plain ↦
      let either : (text_eq host (c ∷ p) || ends_with host (b'.' ∷ c ∷ p)) ≡ true =
        rw (plain, pattern_matches) at h in
      elim (Bool-cases (text_eq host (c ∷ p))) [
        | inl same ↦ inr (plain, inl (text_eq→eq host (c ∷ p) same))
        | inr longer ↦
            inr (plain, inr ((ends_with_iff host (b'.' ∷ c ∷ p)).0 (rw longer at either)))
      ]
]

pattern_matches_complete : (host p : Text) → Names p host → pattern_matches host p ≡ true
unfolding pattern_matches
pattern_matches_complete host [] h = absurd h
pattern_matches_complete host (c ∷ p) (inl (starred, named)) =
    rw (starred, pattern_matches) ((ends_with_iff host p).1 named)
pattern_matches_complete host (c ∷ p) (inr (plain, inl same)) =
    rw (plain, pattern_matches, eq→text_eq host (c ∷ p) same) refl
pattern_matches_complete host (c ∷ p) (inr (plain, inr named)) =
    rw (plain, pattern_matches) (ground (arith, (ends_with_iff host (b'.' ∷ c ∷ p)).1 named))

host_matches_from_iff :
    (host : Text) (patterns : List Text)
    → (host_matches_from host patterns ≡ true) ↔ Named patterns host
unfolding host_matches_from
host_matches_from_iff host [] = (λ h. absurd (cc), λ n. absurd n)
host_matches_from_iff host (raw ∷ patterns) = (
  λ h. elim (Bool-cases (pattern_matches host (clean raw))) [
    | inl here ↦ inl (pattern_matches_sound host (clean raw) here)
    | inr there ↦ inr ((host_matches_from_iff host patterns).0 (ground (arith)))
  ],
  λ n. elim n [
    | inl here ↦ ground (arith, pattern_matches_complete host (clean raw) here)
    | inr there ↦ ground (arith, (host_matches_from_iff host patterns).1 there)
  ],
)

-- A host passes an allowlist exactly when, in lower case and without a final dot, one of the patterns
-- names it: `*.x` names what ends in `.x`, and any other pattern itself and what ends in a dot and it.
-- An empty pattern names nothing.
pub host_matches_iff :
    (host : Text) (patterns : List Text)
    → (host_matches host patterns ≡ true) ↔ Named patterns (bare host)
unfolding host_matches
host_matches_iff host patterns = host_matches_from_iff (bare host) patterns

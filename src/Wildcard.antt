-- ===== src/Wildcard.antt =====
-- `wildcardToRegExp` of dsh-treasury/src/policy.ts and dsh-exactly-once/src/index.ts: a pattern with
-- `*` as an anchored regular expression, and its test of a name.
use deepseek_harness_web3_ag.Prelude.{
  ℕ, ◌≡◌, ◌≢◌, refl, ap, ◌↔◌, ◌⊎◌, inl, inr, Bool, true, false, not, ◌&&◌, ◌||◌, [], ◌∷◌, ◌++◌,
  Text, ◌==◌, if◌then◌else◌, arith, Bool-cases, All,
}

abbrev star : ℕ
star = b'*'

-- What `.` does not match: line feed, carriage return, and the two separators.
abbrev pub is_line_end : ℕ → Bool
is_line_end c = c == 10 || c == 13 || c == 0x2028 || c == 0x2029

-- `.*` before what the continuation accepts.
unfoldable pub any_then : (Text → Bool) → Text → Bool
any_then k [] = k []
any_then k (c ∷ s) = k (c ∷ s) || not (is_line_end c) && any_then k s

abbrev after_head : ℕ → (Text → Bool) → Text → Bool
after_head p k [] = false
after_head p k (c ∷ s) = if c == p then k s else false

abbrev at_end : Text → Bool
at_end [] = true
at_end (c ∷ s) = false

-- `wildcardToRegExp(pattern).test(name)`; all but the stars match literally.
unfoldable pub matches : Text → Text → Bool
unfolding any_then
matches [] s = at_end s
matches (p ∷ ps) s = if p == star then any_then (matches ps) s else after_head p (matches ps) s

-- What a pattern stands for: literal text, with one line of any text for each star.
abbrev pub Fits : Text → Text → Type 0
Fits [] s = s ≡ []
Fits (p ∷ ps) s =
    ((p ≡ star)
      × ((line rest : Text) × (s ≡ line ++ rest)
          × All (λ c. is_line_end c ≡ false) line
          × Fits ps rest))
    ⊎ ((p ≢ star) × ((rest : Text) × (s ≡ p ∷ rest) × Fits ps rest))

any_then_sound :
    (k : Text → Bool) (s : Text)
    → any_then k s ≡ true
    → (line rest : Text) × (s ≡ line ++ rest)
      × All (λ c. is_line_end c ≡ false) line
      × (k rest ≡ true)
unfolding any_then
any_then_sound k [] h = ([], [], refl, tt, h)
any_then_sound k (c ∷ s) h = elim (Bool-cases (k (c ∷ s))) [
  | inl here ↦ ([], c ∷ s, refl, tt, here)
  | inr later ↦
      let (line, rest, e, clean, found) = any_then_sound k s (ground arith) in
      (c ∷ line, rest, ap (λ r. c ∷ r) e, (ground arith, clean), found)
]

any_then_complete :
    (k : Text → Bool) (line rest : Text)
    → All (λ c. is_line_end c ≡ false) line
    → k rest ≡ true
    → any_then k (line ++ rest) ≡ true
unfolding any_then
any_then_complete k [] [] clean h = h
any_then_complete k [] (c ∷ rest) clean h = rw h
any_then_complete k (c ∷ line) rest (ok, clean) h =
    ground (arith, any_then_complete k line rest clean h)

after_head_sound :
    (p : ℕ) (k : Text → Bool) (s : Text)
    → after_head p k s ≡ true
    → (rest : Text) × (s ≡ p ∷ rest) × (k rest ≡ true)
after_head_sound p k [] h = absurd (ground arith)
after_head_sound p k (c ∷ s) h = (s, ground arith, ground arith)

matches_sound : (ps s : Text) → matches ps s ≡ true → Fits ps s
unfolding matches
matches_sound [] [] h = refl
matches_sound [] (c ∷ s) h = absurd (ground arith)
matches_sound (p ∷ ps) s h = elim (Bool-cases (p == star)) [
  | inl starred ↦
      let (line, rest, e, clean, found) = any_then_sound (matches ps) s (rw starred at h) in
      inl (ground arith, (line, rest, e, clean, matches_sound ps rest found))
  | inr literal ↦
      let (rest, e, found) = after_head_sound p (matches ps) s (rw literal at h) in
      inr (ground arith, (rest, e, matches_sound ps rest found))
]

matches_complete : (ps s : Text) → Fits ps s → matches ps s ≡ true
unfolding matches
matches_complete [] s e = rw e
matches_complete (p ∷ ps) s (inl (starred, (line, rest, e, clean, fits))) =
    rw (e, starred) (any_then_complete (matches ps) line rest clean (matches_complete ps rest fits))
matches_complete (p ∷ ps) s (inr (literal, (rest, e, fits))) =
    rw e (ground (arith, matches_complete ps rest fits))

-- A compiled pattern accepts exactly the names that the pattern stands for: its text, with one line
-- of any text, the empty one included, in place of each star.
pub matches_iff : (ps s : Text) → (matches ps s ≡ true) ↔ Fits ps s
matches_iff ps s = (matches_sound ps s, matches_complete ps s)

-- ===== src/Acquisition/PathMappings.antt =====
-- `applyPathMappings` of dsh-tool-acquisition/src/importer.ts.
pub mod Longest
use deepseek_harness_web3_ag.Prelude.{
  ℕ, ◌≤◌, ◌≡◌, refl, ap, ◌⊎◌, inl, inr, Bool, true, false, ◌&&◌, ◌||◌, Option, none, some, List, [],
  ◌∷◌, ◌++◌, map, Text, text_eq, starts_with, length, drop, ltb, ◌==◌, if◌then◌else◌, arith,
  Bool-cases,
}
use deepseek_harness_web3_ag.Acquisition.Texts.{trim}
use deepseek_harness_web3_ag.Acquisition.Bencode.{break_at}

abbrev slash : ℕ → ℕ
slash c = if c == b'\\' then b'/' else c

-- `s.replace(/\\/g, '/')`
abbrev pub with_slashes : Text → Text
with_slashes = map slash

abbrev behind : (ℕ → Bool) → ℕ → Text → Text
behind p c [] = if p c then [] else c ∷ []
behind p c (d ∷ s) = c ∷ d ∷ s

-- Without the characters at the end that pass the test.
abbrev pub strip_end : (ℕ → Bool) → Text → Text
strip_end p [] = []
strip_end p (c ∷ s) = behind p c (strip_end p s)

abbrev is_slash : ℕ → Bool
is_slash c = c == b'/'

abbrev is_any_slash : ℕ → Bool
is_any_slash c = c == b'/' || c == b'\\'

pub record Mapping : Type 0 where
  pub remote : Text
  pub local : Text

abbrev mapping_of : Option (Text × Text) → Option Mapping
mapping_of none = none
mapping_of (some (before, after)) = some (record {
  remote = strip_end is_slash (with_slashes (trim before));
  local = strip_end is_any_slash (trim after);
})

-- The two sides of `remote=local`, `none` where there is no `=`.
unfoldable pub read_mapping : Text → Option Mapping
unfolding break_at
read_mapping text = mapping_of (break_at b'=' text)

-- Whether the remote side is the path, or a directory above it.
unfoldable pub covers : Text → Text → Bool
covers normalized remote =
    text_eq normalized remote || starts_with (remote ++ codes_slash) normalized
  where
    codes_slash : Text
    codes_slash = b'/' ∷ []

abbrev longer : Text → Option Mapping → Bool
longer remote none = true
longer remote (some best) = ltb (length best.remote) (length remote)

-- One round of the loop.
abbrev pub consider : Text → Option Mapping → Option Mapping → Option Mapping
consider normalized best none = best
consider normalized best (some m) =
    if text_eq m.remote []
    then best
    else if covers normalized m.remote && longer m.remote best
    then some m
    else best

unfoldable pub best_of : Text → Option Mapping → List Text → Option Mapping
best_of normalized best [] = best
best_of normalized best (text ∷ mappings) =
    best_of normalized (consider normalized best (read_mapping text)) mappings

abbrev pub apply_best : Text → Option Mapping → Text
apply_best path none = path
apply_best path (some best) = best.local ++ drop (length best.remote) (with_slashes path)

unfoldable pub apply_path_mappings : Text → List Text → Text
apply_path_mappings path mappings = apply_best path (best_of (with_slashes path) none mappings)

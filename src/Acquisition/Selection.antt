-- ===== src/Acquisition/Selection.antt =====
-- dsh-tool-acquisition/src/selection.ts: which files of a download count as content. The exclusion by
-- regular expressions, the sizes that the file system tells and the detected types are parameters; the
-- files under the root come in the order in which they are walked.
pub mod Biggest
pub mod Chosen
use deepseek_harness_web3_ag.Prelude.{
  ℕ, suc, ◌+◌, Bool, true, false, ◌&&◌, ◌||◌, not, Option, none, some, List, [], ◌∷◌, Text, ltb,
  leb, if◌then◌else◌,
}
use deepseek_harness_web3_ag.Acquisition.Mime.{
  MediaKind, torrent, nzb, kind_eq, media_kind, mime_matches,
}
use deepseek_harness_web3_ag.Acquisition.Extension.{mime_from_extension}
use deepseek_harness_web3_ag.Acquisition.Texts.{split}

pub data SelectMode : Type 0 where
  every largest : SelectMode

-- `max_size` 0 is no bound.
pub record SelectionPolicy : Type 0 where
  pub accept : List Text
  pub reject : List Text
  pub min_size : ℕ
  pub max_size : ℕ
  pub mode : SelectMode
  pub max_files : ℕ

pub record AcquiredFile : Type 0 where
  pub path : Text
  pub size : ℕ
  pub mime : Text

-- `POINTER_KINDS.has(kind)`
abbrev pub is_pointer : MediaKind → Bool
is_pointer kind = kind_eq torrent kind || kind_eq nzb kind

unfoldable pub accepts_mime : SelectionPolicy → Option Text → Bool
accepts_mime policy mime =
    if is_pointer (media_kind mime)
    then false
    else mime_matches mime policy.accept && not (mime_matches mime policy.reject)

abbrev pub fits : SelectionPolicy → ℕ → Bool
fits policy size =
    not (ltb size policy.min_size || (ltb 0 policy.max_size && ltb policy.max_size size))

abbrev last_part : Text → List Text → Text
last_part path [] = path
last_part path (part ∷ []) = part
last_part path (part ∷ next ∷ parts) = last_part path (next ∷ parts)

-- `path.split('/').pop()`
unfoldable pub base_name : Text → Text
base_name path = last_part path (split b'/' path)

-- `none` where the extension is unknown.
unfoldable pub accepts_name : (excluded : Text → Bool) → SelectionPolicy → Text → Option Bool
accepts_name excluded policy name =
    if excluded (base_name name) then some false else elim (mime_from_extension name) [
      | none ↦ none
      | some mime ↦ some (accepts_mime policy (some mime))
    ]

module _ (excluded : Text → Bool) (size_of : Text → Option ℕ) (detect_mime : Text → Text)
    (policy : SelectionPolicy) where
  abbrev sized : Text → Option ℕ → Option AcquiredFile
  sized path none = none
  sized path (some size) =
      if fits policy size && accepts_mime policy (some (detect_mime path))
      then some (record { path = path; size = size; mime = detect_mime path })
      else none

  -- The body of the loop up to the push.
  unfoldable pub judge : Text → Option AcquiredFile
  judge path = if excluded (base_name path) then none else sized path (size_of path)

  -- The loop; `chosen` counts the files pushed so far.
  unfoldable pub choose : ℕ → List Text → List AcquiredFile
  choose chosen [] = []
  choose chosen (path ∷ paths) = elim (judge path) [
    | none ↦ choose chosen paths
    | some file ↦ elim (leb policy.max_files (suc chosen)) [
      | true ↦ file ∷ []
      | false ↦ file ∷ choose (suc chosen) paths
    ]
  ]

-- The loop for the biggest file.
unfoldable pub biggest : AcquiredFile → List AcquiredFile → AcquiredFile
biggest best [] = best
biggest best (file ∷ files) =
    if ltb best.size file.size then biggest file files else biggest best files

abbrev pub reduce : SelectMode → List AcquiredFile → List AcquiredFile
reduce every files = files
reduce largest [] = []
reduce largest (file ∷ files) = biggest file (file ∷ files) ∷ []

unfoldable pub select_files :
    (excluded : Text → Bool) (size_of : Text → Option ℕ) (detect_mime : Text → Text)
    → SelectionPolicy
    → List Text
    → List AcquiredFile
select_files excluded size_of detect_mime policy paths =
    reduce policy.mode (choose excluded size_of detect_mime policy 0 paths)

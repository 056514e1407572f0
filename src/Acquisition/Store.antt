-- ===== src/Acquisition/Store.antt =====
-- dsh-tool-acquisition/src/store.ts: the records of submitted acquisitions in a JSON file. What the file
-- system holds is the state; the JSON text of a file stands for what it parses to.
pub mod Live
use deepseek_harness_web3_ag.Prelude.{
  ℕ, Bool, true, false, ◌||◌, not, Option, none, some, List, [], ◌∷◌, Text, text_eq, ◌==◌,
  if◌then◌else◌, any, map,
}
use deepseek_harness_web3_ag.Prelude.Maps.{Dict, get, insert, erase}
use deepseek_harness_web3_ag.Acquisition.Selection.{AcquiredFile}

pub data AcquireState : Type 0 where
  queued downloading completed failed missing : AcquireState

pub data TorrentClientName : Type 0 where
  qbittorrent transmission : TorrentClientName

-- The `backend` of a record.
pub data Backend : Type 0 where
  direct : Backend
  client : TorrentClientName → Backend

-- A backend's handle: an object of strings.
abbrev pub Handle : Type 0
Handle = Dict Text

-- The progress is in millionths; the times are those of the clock, in milliseconds.
pub record StoredAcquisition : Type 0 where
  pub id : Text
  pub backend : Backend
  pub handle : Handle
  pub title : Text
  pub created_at : ℕ
  pub updated_at : ℕ
  pub state : AcquireState
  pub progress : ℕ
  pub files : List AcquiredFile
  pub error : Option Text
  pub content_key : Option Text
  pub aliases : List Text

-- The file: there is none, it cannot be read or is no JSON, it has another shape or version, or it
-- holds records.
pub data File : Type 0 where
  absent unreadable foreign : File
  holds : Dict StoredAcquisition → File

-- The JSON object keeps its records in the order of their insertion, as long as no handle is an array
-- index.
unfoldable pub load : File → Option (Dict StoredAcquisition)
load absent = some []
load unreadable = none
load foreign = some []
load (holds records) = some records

-- What a change within the lock is to save: `none` where the load throws, and then the file stays. Whether
-- the save succeeds is the file system's answer (`put_record` of Acquire/Outside).
abbrev update :
    (Dict StoredAcquisition → Dict StoredAcquisition)
    → Option (Dict StoredAcquisition)
    → Option File
update change none = none
update change (some records) = some (holds (change records))

unfoldable pub put : StoredAcquisition → File → Option File
unfolding load
put record_ file = update (insert record_.id record_) (load file)

unfoldable pub remove : Text → File → Option File
unfolding load
remove id file = update (erase id) (load file)

unfoldable pub find : Text → File → Option (Option StoredAcquisition)
unfolding load
find id file = elim (load file) [ none ↦ none | some records ↦ some (get id records) ]

-- Whether a record carries the key.
abbrev pub has_key : Text → StoredAcquisition → Bool
has_key key r = is_key r.content_key || any (text_eq key) r.aliases
  where
    is_key : Option Text → Bool
    is_key none = false
    is_key (some k) = text_eq k key

-- The loop of `findByContentKey`; `done` is the completed record met last.
unfoldable pub find_live :
    Text → Option StoredAcquisition → Dict StoredAcquisition → Option StoredAcquisition
find_live key done [] = done
find_live key done ((id, r) ∷ records) = elim (has_key key r) [
  | false ↦ find_live key done records
  | true ↦ elim r.state [
    | completed ↦ find_live key (some r) records
    | failed ↦ find_live key done records
    | missing ↦ find_live key done records
    | queued ↦ some r
    | downloading ↦ some r
  ]
]

unfoldable pub find_by_content_key : Text → File → Option (Option StoredAcquisition)
unfolding load find_live
find_by_content_key key file = elim (load file) [
  | none ↦ none
  | some records ↦ some (find_live key none records)
]

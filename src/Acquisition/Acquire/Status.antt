-- ===== src/Acquisition/Acquire/Status.antt =====
-- The options of the pipeline, and its polling of a handle: `render`, `finalize` and `status` of
-- dsh-tool-acquisition/src/acquire.ts.
use deepseek_harness_web3_ag.Prelude.{
  ℕ, Bool, true, false, not, Option, none, some, List, [], ◌∷◌, Text, codes, text_eq, map,
  if◌then◌else◌,
}
use deepseek_harness_web3_ag.Acquisition.Selection.{AcquiredFile, SelectionPolicy, select_files}
use deepseek_harness_web3_ag.Acquisition.Store.{
  AcquireState, queued, downloading, completed, failed, missing, TorrentClientName, qbittorrent,
  transmission, Backend, direct, client, StoredAcquisition,
}
use deepseek_harness_web3_ag.Acquisition.Acquire.Outside.{
  AcquisitionErrorCode, not_configured, not_found, acquisition, Thrown, BackendStatus, Outside,
  Action, pure, throw, call, read_clock, put_record, get_record, ◌>>=◌, ◌>>◌,
}

-- What the pipeline takes from libraries: `node:path`, digests, UTF-8, and the parser of URLs. `xt` and `dn` are
-- the values of these parameters of a URL, `none` where it does not parse; `url_name` is the decoded base
-- name of its path.
pub record Library : Type 0 where
  pub join : List Text → Text
  pub dirname : Text → Text
  pub sha256_hex : Text → Text
  pub xt : Text → Option (List Text)
  pub dn : Text → Option Text
  pub url_name : Text → Option Text
  pub describe_url : Text → Text
  pub safe_filename : Text → Text
  pub excluded : Text → Bool
  pub utf8_of : Text → Text
  pub sha1_hex : Text → Text

-- An empty URL disables a client.
pub record AcquireServiceOptions : Type 0 where
  pub torrent_clients : List TorrentClientName
  pub qbittorrent_url : Option Text
  pub transmission_url : Option Text
  pub download_dir : Text
  pub selection : SelectionPolicy
  pub poll_interval_ms : ℕ
  pub default_wait_ms : ℕ
  pub max_wait_ms : ℕ

pub record AcquireResult : Type 0 where
  pub handle : Text
  pub state : AcquireState
  pub progress : ℕ
  pub files : List AcquiredFile
  pub error : Option Text
  pub backend : Option TorrentClientName

abbrev pub whole : ℕ
whole = 1000000

unfoldable pub terminal : AcquireState → Bool
terminal queued = false
terminal downloading = false
terminal completed = true
terminal failed = true
terminal missing = true

abbrev pub fault : AcquisitionErrorCode → Bool → Thrown
fault code permanent =
    acquisition (record { code = code; permanent = permanent; causes = none ∷ [] })

abbrev has_url : Option Text → Bool
has_url none = false
has_url (some url) = not (text_eq url [])

-- Whether `makeBackend` makes a client of the name.
unfoldable pub is_configured : AcquireServiceOptions → TorrentClientName → Bool
is_configured options qbittorrent = has_url options.qbittorrent_url
is_configured options transmission = has_url options.transmission_url

-- A record of another backend counts as one of Transmission.
abbrev pub client_of : Backend → TorrentClientName
client_of direct = transmission
client_of (client name) = name

abbrev rendered_backend : Backend → Option TorrentClientName
rendered_backend direct = none
rendered_backend (client name) = some name

unfoldable pub render : StoredAcquisition → AcquireResult
render r = record {
  handle = r.id;
  state = r.state;
  progress = r.progress;
  files = r.files;
  error = r.error;
  backend = rendered_backend r.backend;
}

-- `...(error !== undefined && error !== '' ? { error } : {})` after a record whose error is the first.
abbrev pub or_error : Option Text → Option Text → Option Text
or_error before none = before
or_error before (some []) = before
or_error before (some (c ∷ e)) = some (c ∷ e)

module _ (O : Outside) (library : Library) (options : AcquireServiceOptions) where
  abbrev pub make_backend : TorrentClientName → Action O (Unit {0})
  make_backend name =
      if is_configured options name then pure tt else throw (fault not_configured false)

  -- Writes the record and answers with it.
  abbrev pub keep : StoredAcquisition → Action O AcquireResult
  keep r = put_record r >> pure (render r)

  -- The imported paths with the facts of the files they came from; the importer gives a path for each.
  abbrev size_or : ℕ → Option ℕ → ℕ
  size_or size none = size
  size_or old (some size) = size

  abbrev resolve_files : (Text → Option ℕ) → List Text → List AcquiredFile → List AcquiredFile
  resolve_files size_of [] files = []
  resolve_files size_of (path ∷ paths) [] = []
  resolve_files size_of (path ∷ paths) (file ∷ files) =
      record { path = path; size = size_or file.size (size_of path); mime = file.mime }
      ∷ resolve_files size_of paths files

  abbrev root_of : Text → Option Bool → Option Text
  root_of path none = none
  root_of path (some true) = some path
  root_of path (some false) = some (library.dirname path)

  abbrev pub import_dir : Text → Text
  import_dir id = library.join (options.download_dir ∷ codes "imports" ∷ id ∷ [])

  abbrev selected : Text → O.W → List AcquiredFile
  selected path w =
      select_files library.excluded (O.size_of w) (O.detect_mime w) options.selection
        (O.walk path w)

  -- The record of a finished import.
  unfoldable pub finish_import :
      StoredAcquisition → List AcquiredFile → List Text → Action O AcquireResult
  finish_import r files imported s =
      (do
        now ← read_clock
        keep (record r {
          state = completed;
          progress = whole;
          updated_at = now;
          files = resolve_files (O.size_of s.outside) imported files;
        }))
        s

  abbrev import_selected : StoredAcquisition → Text → List AcquiredFile → Action O (List Text)
  import_selected r path files s =
      let root = root_of path (O.is_directory s.outside path) in
      call (O.import_files (map (λ f. f.path) files) (import_dir r.id) root) s

  -- What follows the selection of the files.
  unfoldable pub bring_in : StoredAcquisition → Text → List AcquiredFile → Action O AcquireResult
  bring_in r path [] = do
    now ← read_clock
    keep (record r {
      state = failed;
      progress = whole;
      updated_at = now;
      error = some (codes "no files matched the accepted types");
    })
  bring_in r path (file ∷ files) = do
    imported ← import_selected r path (file ∷ files)
    finish_import r (file ∷ files) imported

  unfoldable pub finalize : StoredAcquisition → Text → Action O AcquireResult
  finalize r path s = bring_in r path (selected path s.outside) s

  -- The backend says that the download failed or is gone.
  unfoldable pub give_up : StoredAcquisition → BackendStatus → Action O AcquireResult
  give_up r current = do
    now ← read_clock
    keep (record r {
      state = current.state;
      progress = current.progress;
      updated_at = now;
      error = or_error r.error current.error;
    })

  -- The download goes on; an answer clears an old error.
  unfoldable pub go_on : StoredAcquisition → BackendStatus → Action O AcquireResult
  go_on r current = do
    now ← read_clock
    keep (record r {
      state = current.state;
      progress = current.progress;
      updated_at = now;
      error = or_error none current.error;
    })

  -- What `status` does with the answer of the backend.
  abbrev pub completed_at : StoredAcquisition → BackendStatus → Option Text → Action O AcquireResult
  completed_at r current none = go_on r current
  completed_at r current (some path) = finalize r path

  unfoldable pub refresh : StoredAcquisition → BackendStatus → Action O AcquireResult
  refresh r current = elim current.state [
    | completed ↦ completed_at r current current.content_path
    | failed ↦ give_up r current
    | missing ↦ give_up r current
    | queued ↦ go_on r current
    | downloading ↦ go_on r current
  ]

  abbrev poll_record : StoredAcquisition → Action O AcquireResult
  poll_record r = do
    make_backend (client_of r.backend)
    current ← call (O.status (client_of r.backend) r.handle)
    refresh r current

  -- What `status` does with the record of the handle.
  unfoldable pub status_of : Option StoredAcquisition → Action O AcquireResult
  unfolding terminal
  status_of none = throw (fault not_found true)
  status_of (some r) = if terminal r.state then pure (render r) else poll_record r

  unfoldable pub status : Text → Action O AcquireResult
  status id = do found ← get_record id; status_of found

-- ===== src/Acquisition/Acquire/Fetched.antt =====
-- What becomes of a fetched file: `branchFetchedFile`, `submitTorrentBytes` and `rejectInfoPage` of
-- dsh-tool-acquisition/src/acquire.ts.
use deepseek_harness_web3_ag.Prelude.{
  ℕ, Bool, true, false, ◌||◌, Option, none, some, List, [], ◌∷◌, Text, codes, text_eq,
  if◌then◌else◌,
}
use deepseek_harness_web3_ag.Acquisition.Texts.{to_lower, trim, split}
use deepseek_harness_web3_ag.Acquisition.Mime.{torrent, nzb, kind_eq, media_kind}
use deepseek_harness_web3_ag.Acquisition.Torrent.{TorrentMeta, parse_torrent, is_torrent}
use deepseek_harness_web3_ag.Acquisition.Selection.{
  AcquiredFile, SelectionPolicy, every, select_files,
}
use deepseek_harness_web3_ag.Acquisition.Store.{completed, direct, StoredAcquisition}
use deepseek_harness_web3_ag.Acquisition.Acquire.Outside.{
  invalid_request, invalid_torrent, unsupported, select_rejected, FetchedFile, Outside, Action, ok,
  pure, throw, call, read_clock, ◌>>=◌, ◌>>◌,
}
use deepseek_harness_web3_ag.Acquisition.Acquire.Status.{
  Library, AcquireServiceOptions, AcquireResult, whole, fault, keep, import_dir,
}
use deepseek_harness_web3_ag.Acquisition.Acquire.Torrents.{submit_torrent}

-- `mime.split(';', 1)[0]?.trim().toLowerCase()`
abbrev first_part : List Text → Text
first_part [] = []
first_part (part ∷ parts) = part

abbrev pub base_type : Text → Text
base_type mime = to_lower (trim (first_part (split b';' mime)))

abbrev is_html : Text → Bool
is_html mime = text_eq (base_type mime) (codes "text/html")

abbrev hash_given : Text → Option Text
hash_given [] = none
hash_given (c ∷ hash) = some (c ∷ hash)

module _ (O : Outside) (library : Library) (options : AcquireServiceOptions) where
  unfoldable pub reject_info_page : FetchedFile → Action O (Unit {0})
  reject_info_page file =
      if is_html file.mime || is_html file.content_type
      then throw (fault invalid_request true)
      else pure tt

  -- The file is removed; a failure to do so is ignored.
  abbrev pub unlink : Text → Action O (Unit {0})
  unlink path s = (ok tt, record s { outside = O.unlink path s.outside })

  abbrev pub meta_or_fail : Option TorrentMeta → Action O TorrentMeta
  meta_or_fail none = throw (fault invalid_torrent true)
  meta_or_fail (some meta) = pure meta

  abbrev pub submit_parsed : Text → Text → Text → Text → ℕ → TorrentMeta → Action O AcquireResult
  submit_parsed id data_ spool title wait meta =
      unlink spool
      >> submit_torrent O library options id
          (record { magnet = none; torrent = some data_; info_hash = hash_given meta.info_hash })
          title wait none

  -- The key under which the file was looked for is not passed on.
  unfoldable pub submit_torrent_bytes : Text → Text → Text → Text → ℕ → Action O AcquireResult
  unfolding parse_torrent
  submit_torrent_bytes id data_ spool title wait =
      meta_or_fail (parse_torrent library.utf8_of library.sha1_hex data_)
      >>= submit_parsed id data_ spool title wait

  abbrev single_policy : SelectionPolicy
  single_policy = record options.selection { mode = every; max_files = 1 }

  abbrev pub chosen : FetchedFile → O.W → List AcquiredFile
  chosen file w =
      select_files (λ name. false) (O.size_of w) (O.detect_mime w) single_policy
        (O.walk file.path w)

  abbrev first_path : List Text → Text
  first_path [] = []
  first_path (path ∷ paths) = path

  abbrev pub single_record :
      Text → FetchedFile → Text → Option Text → List Text → ℕ → ℕ → StoredAcquisition
  single_record id file title key imported created updated = record {
    id = id;
    backend = direct;
    handle = [];
    title = title;
    created_at = created;
    updated_at = updated;
    state = completed;
    progress = whole;
    files = record { path = first_path imported; size = file.size; mime = file.mime } ∷ [];
    error = none;
    content_key = key;
    aliases = [];
  }

  unfoldable pub keep_single :
      Text → FetchedFile → Text → Option Text → List Text → Action O AcquireResult
  keep_single id file title key imported = do
    created ← read_clock
    updated ← read_clock
    keep O library options (single_record id file title key imported created updated)

  -- The import of one file that counts as content.
  unfoldable pub import_single : Text → FetchedFile → Text → Option Text → Action O AcquireResult
  import_single id file title key =
      call (
        O.import_files (file.path ∷ []) (import_dir O library options id)
          (some (library.dirname file.path)))
      >>= keep_single id file title key

  unfoldable pub take_content :
      Text → FetchedFile → Text → Option Text → List AcquiredFile → Action O AcquireResult
  take_content id file title key [] = unlink file.path >> throw (fault select_rejected true)
  take_content id file title key (f ∷ files) = import_single id file title key

  abbrev pub content : Text → FetchedFile → Text → Option Text → Action O AcquireResult
  content id file title key s = take_content id file title key (chosen file s.outside) s

  abbrev pub unless_torrent :
      Text → FetchedFile → Text → ℕ → Option Text → Text → Action O AcquireResult
  unless_torrent id file title wait key data_ =
      if is_torrent library.utf8_of library.sha1_hex data_
      then submit_torrent_bytes id data_ file.path title wait
      else content id file title key

  -- A torrent goes to a client, an NZB is refused, and any other file is content.
  unfoldable pub branch_fetched_file :
      Text → FetchedFile → Text → ℕ → Option Text → Action O AcquireResult
  unfolding is_torrent
  branch_fetched_file id file title wait key =
      let kind = media_kind (some file.mime) in
      if kind_eq kind torrent
      then (call (O.read_file file.path) >>= λ data_.
          submit_torrent_bytes id data_ file.path title wait)
      else if kind_eq kind nzb
      then (unlink file.path >> throw (fault unsupported true))
      else if text_eq file.mime (codes "application/octet-stream")
      then (call (O.read_file file.path) >>= unless_torrent id file title wait key)
      else content id file title key

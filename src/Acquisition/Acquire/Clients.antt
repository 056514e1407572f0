-- ===== src/Acquisition/Acquire/Clients.antt =====
-- Which backend a torrent goes to: `torrentKeyFor`, `isDefinitePreQueue`, `probeSubmit` and the loop over
-- the clients in `submitTorrent` of dsh-tool-acquisition/src/acquire.ts.
use deepseek_harness_web3_ag.Prelude.{
  ℕ, Bool, false, Option, none, some, List, [], ◌∷◌, ◌++◌, Text, codes, text_eq, any, if◌then◌else◌,
}
use deepseek_harness_web3_ag.Acquisition.Texts.{to_lower}
use deepseek_harness_web3_ag.Acquisition.Magnet.{magnet_info_hash}
use deepseek_harness_web3_ag.Acquisition.Store.{
  AcquireState, queued, downloading, completed, failed, missing, TorrentClientName, qbittorrent,
  transmission, client, Handle, StoredAcquisition,
}
use deepseek_harness_web3_ag.Acquisition.Acquire.Outside.{
  not_configured, backend_error, AcquisitionError, acquisition, other, TorrentPayload,
  BackendStatus, Outside, Answer, gave, broke, Action, World, Result, ok, threw, stuck, pure, throw,
  call, read_clock, put_record, ◌>>=◌, ◌>>◌,
}
use deepseek_harness_web3_ag.Acquisition.Acquire.Status.{
  Library, AcquireServiceOptions, is_configured,
}

abbrev pub pre_queue_codes : List Text
pre_queue_codes =
    codes "ECONNREFUSED"
    ∷ codes "ENOTFOUND"
    ∷ codes "EAI_AGAIN"
    ∷ codes "EHOSTUNREACH"
    ∷ codes "ENETUNREACH"
    ∷ codes "ENETDOWN"
    ∷ codes "EHOSTDOWN"
    ∷ []

abbrev is_pre_queue : Option Text → Bool
is_pre_queue none = false
is_pre_queue (some code) = any (text_eq code) pre_queue_codes

unfoldable pub is_definite_pre_queue : AcquisitionError → Bool
is_definite_pre_queue e = any is_pre_queue e.causes

abbrev pub hash_of : (Text → Option (List Text)) → TorrentPayload → Option Text
hash_of xt payload = given payload.info_hash
  where
    of_magnet : Option Text → Option Text
    of_magnet none = none
    of_magnet (some uri) = magnet_info_hash xt uri

    given : Option Text → Option Text
    given none = of_magnet payload.magnet
    given (some hash) = some hash

abbrev keyed : Option Text → Option Text
keyed none = none
keyed (some []) = none
keyed (some (c ∷ hash)) = some (codes "torrent:" ++ to_lower (c ∷ hash))

unfoldable pub torrent_key_for : (Text → Option (List Text)) → TorrentPayload → Option Text
torrent_key_for xt payload = keyed (hash_of xt payload)

-- `aliasKey !== undefined && aliasKey !== contentKey ? { aliases: [aliasKey] } : {}`
abbrev pub aliases_for : Option Text → Option Text → List Text
aliases_for content_key none = []
aliases_for none (some alias) = alias ∷ []
aliases_for (some key) (some alias) = if text_eq alias key then [] else alias ∷ []

abbrev or_empty : Option Text → Text
or_empty none = []
or_empty (some t) = t

-- The handle by which a torrent is looked for that may be queued.
abbrev pub probe_handle : (Text → Option (List Text)) → TorrentPayload → Text → Handle
probe_handle xt payload label =
    (codes "info_hash", or_empty (hash_of xt payload)) ∷ (codes "tag", label) ∷ []

pub data Probe : Type 0 where
  is_queued is_absent unknown : Probe

-- How the loop over the clients ends.
pub data Attempt : Type 0 where
  accepted : TorrentClientName → Handle → Attempt
  exhausted : Option AcquisitionError → Attempt

-- What every record of one submission shares.
pub record Submission : Type 0 where
  pub id : Text
  pub payload : TorrentPayload
  pub title : Text
  pub content_key : Option Text
  pub alias_key : Option Text

abbrev pub label_of : Submission → Text
label_of sub = codes "acquire-" ++ sub.id

abbrev pub first_record :
    Submission → TorrentClientName → Handle → ℕ → Option Text → StoredAcquisition
first_record sub name handle now note = record {
  id = sub.id;
  backend = client name;
  handle = handle;
  title = sub.title;
  created_at = now;
  updated_at = now;
  state = queued;
  progress = 0;
  files = [];
  error = note;
  content_key = sub.content_key;
  aliases = aliases_for sub.content_key sub.alias_key;
}

abbrev client_text : TorrentClientName → Text
client_text qbittorrent = codes "qbittorrent"
client_text transmission = codes "transmission"

abbrev pub uncertain_note : TorrentClientName → Text → Text
uncertain_note name id =
    codes "submit to "
    ++ (client_text name
        ++ (codes
              " was interrupted after the request was sent; the torrent may be queued — poll status (handle \""
            ++ (id ++ codes "\") instead of resubmitting elsewhere")))

module _ (O : Outside) (library : Library) (options : AcquireServiceOptions) where
  abbrev pub probe_of : AcquireState → Probe
  probe_of missing = is_absent
  probe_of queued = is_queued
  probe_of downloading = is_queued
  probe_of completed = is_queued
  probe_of failed = is_queued

  abbrev pub answer_of : Answer BackendStatus → Probe
  answer_of (gave current) = probe_of current.state
  answer_of (broke e) = unknown

  abbrev answered : World O → Answer BackendStatus × O.W → Result Probe × World O
  answered s (r, w) = (ok (answer_of r), record s { outside = w })

  -- `probeSubmit` and its `catch`.
  unfoldable pub probe_submit : TorrentClientName → Submission → Action O Probe
  probe_submit name sub s =
      answered s (O.status name (probe_handle library.xt sub.payload (label_of sub)) s.outside)

  -- The backend cannot tell either: a record is kept, and the call fails.
  unfoldable pub give_in : Submission → TorrentClientName → AcquisitionError → Action O Attempt
  give_in sub name e = do
    now ← read_clock
    put_record (
        first_record sub name (probe_handle library.xt sub.payload (label_of sub)) now
          (some (uncertain_note name sub.id)))
    throw
        (acquisition (record { code = backend_error; permanent = false; causes = none ∷ e.causes }))

  abbrev pub probed :
      (AcquisitionError → Action O Attempt)
      → Submission
      → TorrentClientName
      → AcquisitionError
      → Probe
      → Action O Attempt
  probed next sub name e is_queued =
      pure (accepted name (probe_handle library.xt sub.payload (label_of sub)))
  probed next sub name e is_absent = next e
  probed next sub name e unknown = give_in sub name e

  -- A failure of the submission that another backend might not have.
  abbrev pub verify :
      (AcquisitionError → Action O Attempt)
      → Submission
      → TorrentClientName
      → AcquisitionError
      → Action O Attempt
  verify next sub name e =
      if is_definite_pre_queue e then next e else (probe_submit name sub >>= probed next sub name e)

  abbrev pub submitted :
      (AcquisitionError → Action O Attempt)
      → Submission
      → TorrentClientName
      → Result Handle × World O
      → Result Attempt × World O
  submitted next sub name (ok handle, s) = (ok (accepted name handle), s)
  submitted next sub name (threw (acquisition e), s) =
      if e.permanent then (threw (acquisition e), s) else verify next sub name e s
  submitted next sub name (threw (other e), s) = (threw (other e), s)
  submitted next sub name (stuck, s) = (stuck, s)

  -- One round of the loop; `next` is the rest of it.
  unfoldable pub try_client :
      (AcquisitionError → Action O Attempt) → Submission → TorrentClientName → Action O Attempt
  try_client next sub name s =
      if is_configured options name
      then submitted next sub name (call (O.submit name sub.payload (label_of sub)) s)
      else next (record { code = not_configured; permanent = false; causes = none ∷ [] }) s

  unfoldable pub try_clients :
      Submission → Option AcquisitionError → List TorrentClientName → Action O Attempt
  try_clients sub last [] = pure (exhausted last)
  try_clients sub last (name ∷ names) = try_client (λ e. try_clients sub (some e) names) sub name

-- ===== src/Acquisition/Transmission.antt =====
-- The client of dsh-tool-acquisition/src/transmission.ts over the answers of its daemon.
pub mod Refused
mod Tests
use deepseek_harness_web3_ag.Prelude.{
  ℕ, ◌≡◌, Bool, true, false, not, ◌&&◌, ◌||◌, Option, none, some, List, [], ◌∷◌, ◌++◌, Text, codes,
  text_eq, leb, ◌==◌, if◌then◌else◌,
}
use deepseek_harness_web3_ag.Prelude.Maps.{get}
use deepseek_harness_web3_ag.Acquisition.Texts.{to_lower}
use deepseek_harness_web3_ag.Acquisition.Sniff.{includes}
use deepseek_harness_web3_ag.Acquisition.PathMappings.{apply_path_mappings}
use deepseek_harness_web3_ag.Acquisition.Store.{
  AcquireState, Handle, queued, downloading, completed, failed, missing,
}
use deepseek_harness_web3_ag.Acquisition.Acquire.Outside.{
  backend_error, backend_auth, Answer, gave, broke, TorrentPayload, BackendStatus,
}
use deepseek_harness_web3_ag.Acquisition.Acquire.Status.{Library, whole}
use deepseek_harness_web3_ag.Acquisition.Client.{Added, fault, or_empty, unless_empty, prepare}

pub record TransmissionOptions : Type 0 where
  pub download_dir : Text
  pub labels : Bool
  pub path_mappings : List Text

-- What `torrent-add` is sent; `paused` is false in all of them.
pub record AddArguments : Type 0 where
  pub download_dir : Option Text
  pub labels : Option Text
  pub added : Added

-- `torrent_get` has the one id that it asks for.
pub data Method : Type 0 where
  torrent_add : AddArguments → Method
  torrent_get : Text → Method
  session_get : Method

-- The fields of a torrent, as `String` and `Number` read them; progress is in millionths.
pub record Item : Type 0 where
  pub percent_done : ℕ
  pub error : ℕ
  pub error_string : Option Text
  pub status : ℕ
  pub left_until_done : ℕ
  pub download_dir : Text
  pub name : Text

-- A parsed body. `torrent_added` and `torrent_duplicate` are those objects where they are there, each the
-- `hashString` in it.
pub record Reply : Type 0 where
  pub result : Text
  pub torrent_added : Option (Option Text)
  pub torrent_duplicate : Option (Option Text)
  pub torrents : List Item
  pub version : Option Text

-- `session` is the header of the session, and `json` what `json()` gives, `none` where it throws.
pub record Response : Type 0 where
  pub status : ℕ
  pub session : Option Text
  pub json : Option Reply

-- A request that failed has the system's codes of its chain of causes.
pub data Fetched : Type 0 where
  responded : Response → Fetched
  unanswered : List (Option Text) → Fetched

-- A request carries the id of the session.
pub record Daemon : Type 1 where
  pub W : Type 0
  pub fetch : Text → Method → W → Fetched × W

abbrev is_add : Method → Bool
is_add (torrent_add arguments) = true
is_add (torrent_get id) = false
is_add session_get = false

-- Whether the reply is taken for a success.
unfoldable pub is_success : Method → Reply → Bool
unfolding includes
is_success method reply =
    (is_add method && includes (to_lower reply.result) (codes "duplicate"))
    || text_eq reply.result (codes "success")

abbrev pub first_of : Option (Option Text) → Option (Option Text) → Option Text
first_of (some hash) duplicate = hash
first_of none (some hash) = hash
first_of none none = none

-- `added['hashString'] ?? infoHash ?? ''`
abbrev pub or_hash : Option Text → Option Text → Text
or_hash (some hash) h = hash
or_hash none h = or_empty h

abbrev pub reported : Option Text → Reply → Text
reported hash reply = to_lower (or_hash (first_of reply.torrent_added reply.torrent_duplicate) hash)

module _ (D : Daemon) where
  pub record Client : Type 0 where
    pub session_id : Text
    pub outside : D.W

  abbrev pub read_reply : Method → Option Reply → Client → Answer Reply × Client
  read_reply method none s = (broke (fault backend_error false (none ∷ [])), s)
  read_reply method (some reply) s =
      if is_success method reply
      then (gave reply, s)
      else (broke (fault backend_error (is_add method) []), s)

  -- One attempt; `retry` is what follows a 409, with the session that it named.
  abbrev pub attempted :
      (Client → Answer Reply × Client) → Method → Client → Fetched × D.W → Answer Reply × Client
  attempted retry method s (unanswered chain, w) =
      (broke (fault backend_error false chain), record s { outside = w })
  attempted retry method s (responded r, w) =
      if r.status == 409
      then retry (record { session_id = or_empty r.session; outside = w })
      else if r.status == 401
      then (broke (fault backend_auth true []), record s { outside = w })
      else if leb 400 r.status
      then (broke (fault backend_error false []), record s { outside = w })
      else read_reply method r.json (record s { outside = w })

  abbrev pub send : (Client → Answer Reply × Client) → Method → Client → Answer Reply × Client
  send retry method s = attempted retry method s (D.fetch s.session_id method s.outside)

  abbrev pub unnegotiated : Client → Answer Reply × Client
  unnegotiated s = (broke (fault backend_error false []), s)

  -- The loop makes two attempts.
  unfoldable pub rpc : Method → Client → Answer Reply × Client
  rpc method = send (send unnegotiated method) method

  module _ (options : TransmissionOptions) where
    abbrev arguments_of : Text → Added → AddArguments
    arguments_of label added = record {
      download_dir = unless_empty options.download_dir;
      labels = if options.labels then some label else none;
      added = added;
    }

    abbrev pub accepted : Option Text → Text → Answer Reply × Client → Answer Handle × Client
    accepted hash label (broke e, s) = (broke e, s)
    accepted hash label (gave reply, s) =
        if text_eq (reported hash reply) []
        then (broke (fault backend_error true []), s)
        else (gave ((codes "info_hash", reported hash reply) ∷ (codes "label", label) ∷ []), s)

    module _ (library : Library) where
      abbrev pub submit_prepared :
          Text → Answer (Option Text × Added) → Client → Answer Handle × Client
      submit_prepared label (broke e) s = (broke e, s)
      submit_prepared label (gave (hash, added)) s =
          accepted hash label (rpc (torrent_add (arguments_of label added)) s)

      unfoldable pub submit : TorrentPayload → Text → Client → Answer Handle × Client
      submit payload label s =
          submit_prepared label (prepare library payload.info_hash payload.torrent payload.magnet) s

    abbrev or_error : Option Text → Text
    or_error none = codes "error"
    or_error (some text) = text

    abbrev pub state_of : ℕ → AcquireState
    state_of status =
        if status == 0 || status == 1 || (status == 2 || status == 3) then queued else downloading

    unfoldable pub status_of_items : List Item → BackendStatus
    status_of_items [] = record {
      state = missing;
      progress = 0;
      content_path = none;
      error = some (codes "torrent not found in Transmission");
    }
    status_of_items (item ∷ items) =
        if not (item.error == 0)
        then record {
          state = failed;
          progress = item.percent_done;
          content_path = none;
          error = some (or_error item.error_string);
        }
        else if leb whole item.percent_done
            && item.left_until_done == 0
            && not (item.status == 1)
            && not (item.status == 2)
        then record {
          state = completed;
          progress = whole;
          content_path =
              some (
                apply_path_mappings (item.download_dir ++ (b'/' ∷ item.name))
                  options.path_mappings);
          error = none;
        }
        else record {
          state = state_of item.status;
          progress = item.percent_done;
          content_path = none;
          error = none;
        }

    abbrev told : Answer Reply × Client → Answer BackendStatus × Client
    told (broke e, s) = (broke e, s)
    told (gave reply, s) = (gave (status_of_items reply.torrents), s)

    unfoldable pub status : Handle → Client → Answer BackendStatus × Client
    unfolding get
    status handle s = told (rpc (torrent_get (or_empty (get (codes "info_hash") handle))) s)

  abbrev or_unknown : Option Text → Text
  or_unknown none = codes "?"
  or_unknown (some version) = version

  abbrev described : Answer Reply × Client → Answer Text × Client
  described (broke e, s) = (broke e, s)
  described (gave reply, s) = (gave (codes "Transmission " ++ or_unknown reply.version), s)

  unfoldable pub health : Client → Answer Text × Client
  health s = described (rpc session_get s)

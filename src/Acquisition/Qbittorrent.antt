-- ===== src/Acquisition/Qbittorrent.antt =====
-- The client of dsh-tool-acquisition/src/qbittorrent.ts over the answers of its server.
pub mod Protocol
pub mod Refused
mod Tests
use deepseek_harness_web3_ag.Prelude.{
  ℕ, zero, suc, ◌≡◌, Bool, true, false, not, ◌&&◌, ◌||◌, Option, none, some, List, [], ◌∷◌, ◌++◌,
  Text, codes, text_eq, starts_with, drop, any, leb, ◌==◌, if◌then◌else◌,
}
use deepseek_harness_web3_ag.Prelude.Maps.{get}
use deepseek_harness_web3_ag.Acquisition.Texts.{to_lower, trim, split}
use deepseek_harness_web3_ag.Acquisition.Torrent.{TorrentMeta, parse_torrent}
use deepseek_harness_web3_ag.Acquisition.Magnet.{magnet_info_hash}
use deepseek_harness_web3_ag.Acquisition.PathMappings.{apply_path_mappings}
use deepseek_harness_web3_ag.Acquisition.Store.{
  Handle, queued, downloading, completed, failed, missing,
}
use deepseek_harness_web3_ag.Acquisition.Acquire.Outside.{
  AcquisitionErrorCode, backend_error, backend_auth, invalid_request, invalid_torrent,
  AcquisitionError, Thrown, acquisition, Answer, gave, broke, TorrentPayload, BackendStatus,
}
use deepseek_harness_web3_ag.Acquisition.Acquire.Status.{Library, whole}
use deepseek_harness_web3_ag.Acquisition.Client.{Added, fault, or_empty, unless_empty, prepare}
use deepseek_harness_web3_ag.Acquisition.Qbittorrent.Protocol.{
  QbittorrentOptions, AddForm, InfoQuery, Endpoint, Item, Listing, Response, Fetched, Server,
  last_sid, cookies_of, body_of, says_fails, hashes, tag, torrents_add, torrents_info, app_version,
  auth_login, authorized, no_array, array, responded, unanswered,
}

module _ (S : Server) (options : QbittorrentOptions) where
  pub record Client : Type 0 where
    pub logged_in : Bool
    pub cookie : Option Text
    pub outside : S.W

  abbrev pub set_cookies : Response → Client → Client
  set_cookies r s = record s { cookie = last_sid (cookies_of r) s.cookie }

  abbrev pub logged : Fetched × S.W → Client → Answer (Unit {0}) × Client
  logged (unanswered chain, w) s =
      (broke (fault backend_error false chain), record s { outside = w })
  logged (responded r, w) s =
      let s' = set_cookies r (record s { outside = w }) in
      if r.status == 403
      then (broke (fault backend_auth true []), s')
      else if not (r.status == 200) || not (text_eq (body_of r) (codes "Ok."))
      then (broke (fault backend_auth true []), s')
      else (gave tt, record s' { logged_in = true })

  unfoldable pub login : Client → Answer (Unit {0}) × Client
  unfolding last_sid
  login s =
      if text_eq options.username [] && text_eq options.password []
      then (gave tt, record s { logged_in = true })
      else logged (S.fetch (auth_login options.username options.password) s.outside) s

  abbrev pub refusal : Response → Thrown
  refusal r =
      fault (if r.status == 401 || r.status == 403 then backend_auth else backend_error)
        (r.status == 400 || r.status == 415 || (r.status == 401 || r.status == 403)) []

  -- What follows the login where the first attempt was answered by 403.
  abbrev pub again :
      (Client → Answer Response × Client) → Answer (Unit {0}) × Client → Answer Response × Client
  again next (gave _, s) = next s
  again next (broke e, s) = (broke e, s)

  -- One attempt, where `retry` is what a 403 leads to, if anything.
  abbrev pub attempted :
      Option (Client → Answer Response × Client) → Client → Fetched × S.W → Answer Response × Client
  attempted retry s (unanswered chain, w) =
      (broke (fault backend_error false chain), record s { outside = w })
  attempted retry s (responded r, w) = answered retry (set_cookies r (record s { outside = w }))
    where
      settled : Client → Answer Response × Client
      settled s' = if leb 400 r.status then (broke (refusal r), s') else (gave r, s')

      answered : Option (Client → Answer Response × Client) → Client → Answer Response × Client
      answered none s' = settled s'
      answered (some next) s' =
          if r.status == 403
          then again next (login (record s' { logged_in = false }))
          else settled s'

  abbrev pub send :
      Option (Client → Answer Response × Client) → Endpoint → Client → Answer Response × Client
  send retry path s = attempted retry s (S.fetch (authorized s.cookie path) s.outside)

  -- The loop makes two attempts at most, and the second one always returns or throws.
  unfoldable pub call : Endpoint → Client → Answer Response × Client
  unfolding last_sid login
  call path s =
      let twice = send (some (send none path)) path in
      if s.logged_in then twice s else again twice (login s)

  module _ (library : Library) where
    abbrev form_of : Text → Added → AddForm
    form_of label added = record {
      tags = label;
      category = unless_empty options.category;
      save_path = unless_empty options.save_path;
      added = added;
    }

    abbrev pub is_missing : Option Text → Bool
    is_missing none = true
    is_missing (some []) = true
    is_missing (some (c ∷ hash)) = false

    abbrev pub accepted : Option Text → Text → Answer Response × Client → Answer Handle × Client
    accepted hash label (broke e, s) = (broke e, s)
    accepted hash label (gave r, s) =
        if says_fails r && is_missing hash
        then (broke (fault backend_error true []), s)
        else (gave ((codes "info_hash", or_empty hash) ∷ (codes "tag", label) ∷ []), s)

    abbrev pub submit_prepared :
        Text → Answer (Option Text × Added) → Client → Answer Handle × Client
    submit_prepared label (broke e) s = (broke e, s)
    submit_prepared label (gave (hash, added)) s =
        accepted hash label (call (torrents_add (form_of label added)) s)

    unfoldable pub submit : TorrentPayload → Text → Client → Answer Handle × Client
    submit payload label s =
        submit_prepared label (prepare library payload.info_hash payload.torrent payload.magnet) s

  abbrev hash_or_tag : Text → Option Text → InfoQuery
  hash_or_tag [] t = tag (or_empty t)
  hash_or_tag (c ∷ hash) t = hashes (c ∷ hash)

  abbrev pub query_of : Handle → InfoQuery
  query_of handle =
      hash_or_tag (or_empty (get (codes "info_hash") handle)) (get (codes "tag") handle)

  abbrev first_item : Listing → Option Item
  first_item no_array = none
  first_item (array []) = none
  first_item (array (item ∷ items)) = item

  abbrev listed : Option Listing → Client → Answer (Option Item) × Client
  listed none s = (broke (fault backend_error false (none ∷ [])), s)
  listed (some listing) s = (gave (first_item listing), s)

  abbrev found : Answer Response × Client → Answer (Option Item) × Client
  found (broke e, s) = (broke e, s)
  found (gave r, s) = listed r.json s

  unfoldable pub find : Handle → Client → Answer (Option Item) × Client
  unfolding get
  find handle s = found (call (torrents_info (query_of handle)) s)

  abbrev pub complete_states : List Text
  complete_states =
      codes "uploading"
      ∷ codes "stalledUP"
      ∷ codes "pausedUP"
      ∷ codes "stoppedUP"
      ∷ codes "queuedUP"
      ∷ codes "forcedUP"
      ∷ codes "checkingUP"
      ∷ []

  abbrev pub failed_states : List Text
  failed_states = codes "error" ∷ codes "missingFiles" ∷ []

  abbrev pub queued_states : List Text
  queued_states =
      codes "metaDL"
      ∷ codes "queuedDL"
      ∷ codes "checkingDL"
      ∷ codes "checkingResumeData"
      ∷ codes "allocating"
      ∷ codes "moving"
      ∷ []

  abbrev or_joined : Option Text → Item → Text
  or_joined (some (c ∷ path)) item = c ∷ path
  or_joined none item = item.save_path ++ (b'/' ∷ item.name)
  or_joined (some []) item = item.save_path ++ (b'/' ∷ item.name)

  unfoldable pub status_of_item : Option Item → BackendStatus
  status_of_item none = record {
    state = missing;
    progress = 0;
    content_path = none;
    error = some (codes "torrent not found in qBittorrent");
  }
  status_of_item (some item) =
      if any (text_eq item.state) failed_states
      then record {
        state = failed;
        progress = item.progress;
        content_path = none;
        error = some (codes "qBittorrent state " ++ item.state);
      }
      else if any (text_eq item.state) complete_states || leb whole item.progress
      then record {
        state = completed;
        progress = whole;
        content_path =
            some (apply_path_mappings (or_joined item.content_path item) options.path_mappings);
        error = none;
      }
      else if any (text_eq item.state) queued_states
      then record { state = queued; progress = item.progress; content_path = none; error = none }
      else record {
        state = downloading;
        progress = item.progress;
        content_path = none;
        error = none;
      }

  abbrev told : Answer (Option Item) × Client → Answer BackendStatus × Client
  told (broke e, s) = (broke e, s)
  told (gave item, s) = (gave (status_of_item item), s)

  unfoldable pub status : Handle → Client → Answer BackendStatus × Client
  status handle s = told (find handle s)

  abbrev described : Answer Response × Client → Answer Text × Client
  described (broke e, s) = (broke e, s)
  described (gave r, s) = (gave (codes "qBittorrent " ++ body_of r), s)

  unfoldable pub health : Client → Answer Text × Client
  health s = described (call app_version s)

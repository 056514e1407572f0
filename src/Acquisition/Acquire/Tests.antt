-- ===== src/Acquisition/Acquire/Tests.antt =====
-- The pipeline over a small world: qBittorrent queues a torrent and then loses the connection.
mod Scene
use deepseek_harness_web3_ag.Prelude.{
  starts_with, sym, ap, ◌∙◌, text_eq→eq, ℕ, ◌+◌, ◌≡◌, ◌≢◌, refl, Bool, true, false, ◌||◌, none,
  some, [], ◌∷◌, ◌++◌, Text, codes, text_eq, if◌then◌else◌, arith,
}
use deepseek_harness_web3_ag.Prelude.Maps.{get, insert}
use deepseek_harness_web3_ag.Acquisition.Selection.{every}
use deepseek_harness_web3_ag.Acquisition.Magnet.{magnet_info_hash}
use deepseek_harness_web3_ag.Acquisition.Store.{
  AcquireState, queued, missing, completed, TorrentClientName, qbittorrent, transmission, Handle,
  StoredAcquisition, absent, holds, load, find, find_by_content_key, find_live, direct, put,
}
use deepseek_harness_web3_ag.Acquisition.Acquire.Outside.{
  backend_error, invalid_request, AcquisitionError, acquisition, other, Answer, gave, broke,
  TorrentPayload, BackendStatus, Outside, World, ok, threw,
}
use deepseek_harness_web3_ag.Acquisition.Acquire.Status.{
  is_configured, Library, AcquireServiceOptions, render, fault, status,
}
use deepseek_harness_web3_ag.Acquisition.Acquire.Clients.{
  try_clients, try_client, probe_submit, is_definite_pre_queue, torrent_key_for,
}
use deepseek_harness_web3_ag.Acquisition.Acquire.Torrents.{
  submission, submit_torrent, find_existing, resolve_existing, follow, record_and_watch, watch,
}
use deepseek_harness_web3_ag.Acquisition.Acquire.Poll.{poll, observed, wait_on}
use deepseek_harness_web3_ag.Acquisition.Texts.{split}
use deepseek_harness_web3_ag.Acquisition.Acquire.Submit.{
  AcquireSubmitInput, url_source, sources, submit,
}
use deepseek_harness_web3_ag.Acquisition.Acquire.Check.{check_submit}
use deepseek_harness_web3_ag.Acquisition.Acquire.Tracked.{Documented, Tracked}
use deepseek_harness_web3_ag.Acquisition.Acquire.Once.{submit_torrent-Tracked}
use deepseek_harness_web3_ag.Acquisition.Acquire.Ends.{Ended}
use deepseek_harness_web3_ag.Acquisition.Acquire.Deadline.{Ticks, submit_torrent-Ended}
use deepseek_harness_web3_ag.Acquisition.Acquire.Stays.{identity}
use deepseek_harness_web3_ag.Acquisition.Acquire.Identities.{Consistent, Kept, entries-Kept}
use deepseek_harness_web3_ag.Acquisition.Acquire.Replays.{submit_refuses, submit_replays}
use deepseek_harness_web3_ag.Acquisition.Acquire.Tests.Scene.{
  Small, has, lost, small_submit, small_status, small, library, options, start, payload,
}

small-Documented :
    Documented small library
      (submission small library options (codes "acq_1") payload (codes "t") none)
      has
unfolding is_definite_pre_queue
small-Documented = record {
  elsewhere = λ n m w d. elsewhere n m w _ d;
  refused = λ n w e h k. refused n w _ e h k;
  classified = λ n w t h. classified n w _ t h;
  asking = λ n m h w. refl;
  gone = λ n w c e m. gone n w [] c e m;
  clock = λ m w. refl;
  saving = λ m w. refl;
  sleeping = λ m ms w. kept_asleep m ms w;
  importing = λ m p d t w. refl;
}
  where
    elsewhere :
        (n m : TorrentClientName) (w : Small) (l : Text)
        → m ≢ n
        → has (small_submit n payload l w).1 m ≡ has w m
    elsewhere qbittorrent qbittorrent w l d = absurd (d refl)
    elsewhere qbittorrent transmission w l d = refl
    elsewhere transmission qbittorrent w l d = refl
    elsewhere transmission transmission w l d = absurd (d refl)

    refused :
        (n : TorrentClientName) (w : Small) (l : Text) (e : AcquisitionError)
        → (small_submit n payload l w).0 ≡ broke (acquisition e)
        → (e.permanent || is_definite_pre_queue e) ≡ true
        → has (small_submit n payload l w).1 n ≡ has w n
    refused qbittorrent w l e h k = absurd (ground arith)
    refused transmission w l e h k = absurd (ground arith)

    classified :
        (n : TorrentClientName) (w : Small) (l t : Text)
        → (small_submit n payload l w).0 ≢ broke (other t)
    classified qbittorrent w l t h = ground arith
    classified transmission w l t h = ground arith

    gone :
        (n : TorrentClientName) (w : Small) (h : Handle) (c : BackendStatus)
        → (small_status n h w).0 ≡ gave c
        → c.state ≡ missing
        → has w n ≡ false
    gone qbittorrent w h c e m = ground arith
    gone transmission w h c e m = ground arith

    kept_asleep :
        (m : TorrentClientName) (ms : ℕ) (w : Small)
        → has (record w { time = w.time + ms }) m ≡ has w m
    kept_asleep qbittorrent ms w = refl
    kept_asleep transmission ms w = refl

submit_torrent-Tracked_example :
    Tracked small library
      (submission small library options (codes "acq_1") payload (codes "t") none)
      has
      (submit_torrent small library options (codes "acq_1") payload (codes "t") 250 none start)
unfolding load
submit_torrent-Tracked_example =
    submit_torrent-Tracked small library options (codes "acq_1") payload (codes "t") 250 none has
      small-Documented start ((λ m. nobody m), ([], refl))
  where
    nobody : (m : TorrentClientName) → has start.outside m ≡ false
    nobody qbittorrent = refl
    nobody transmission = refl

small-Ticks : Ticks small (λ w. w.time)
small-Ticks = record {
  reads = λ w. refl;
  reading = λ w. omega arith;
  asking = λ name handle w. omega arith;
  saving = λ w. omega arith;
  sleeping = λ ms w e. omega arith;
}

submit_torrent-Ended_example :
    Ended (submit_torrent small library options (codes "acq_1") payload (codes "t") 250 none start)
submit_torrent-Ended_example =
    submit_torrent-Ended library options small-Ticks (omega arith) (codes "acq_1") payload
      (codes "t") 250 none start

-- The lost answer is looked after at qBittorrent, and Transmission is not asked.
ambiguous_run :
    (submit_torrent small library options
      (codes "acq_1")
      payload
      (codes "t")
      250
      none
      start).1.outside
    ≡ record { time = 257; in_qbittorrent = true; in_transmission = false }
unfolding submit_torrent find_existing resolve_existing torrent_key_for magnet_info_hash
    find_by_content_key load find_live try_clients try_client probe_submit is_definite_pre_queue
    is_configured follow record_and_watch watch poll observed wait_on put get insert starts_with
ambiguous_run = refl

abbrev finished : StoredAcquisition
finished = record {
  id = codes "acq_0";
  backend = direct;
  handle = [];
  title = codes "t";
  created_at = 1;
  updated_at = 2;
  state = completed;
  progress = 1000000;
  files = [];
  error = none;
  content_key = some (codes "url-sha:http://x/f");
  aliases = [];
}

abbrev filled : World small
filled = record start { store = holds ((codes "acq_0", finished) ∷ []) }

abbrev input : AcquireSubmitInput
input = record {
  magnet = none;
  url = some (codes " http://x/f#part");
  ref = some [];
  download_url = none;
  magnet_url = none;
  guid = none;
  title = none;
  wait_ms = none;
}

submit_replays_example :
    submit small library options [] (codes "acq_1") input filled ≡ (ok (render finished), filled)
unfolding sources find_by_content_key find_live load split
submit_replays_example =
    submit_replays small library options [] (codes "acq_1") filled input
      (url_source (codes " http://x/f#part")) (codes "url-sha:http://x/f") finished
      (λ e. ground arith) refl refl refl refl

submit_refuses_example :
    submit small library options [] (codes "acq_1") (record input { ref = some (codes "r") }) filled
    ≡ (threw (fault invalid_request true), filled)
submit_refuses_example =
    submit_refuses small library options [] (codes "acq_1") filled
      (record input { ref = some (codes "r") }) (λ e. absurd (omega arith))

picked :
    (b : Bool) (r : StoredAcquisition)
    → some (if b then some finished else none) ≡ some (some r)
    → (b ≡ true) × (finished ≡ r)
picked true r e = (refl, cc)
picked false r e = absurd (ground arith)

filled-Consistent : Consistent filled.store
unfolding find load get
filled-Consistent id r e =
    let (same, this) = picked (text_eq (codes "acq_0") id) r e in
    ap (λ x. x.id) (sym this) ∙ text_eq→eq (codes "acq_0") id same

entries-Kept_example :
    (Consistent (submit small library options [] (codes "acq_1") input filled).1.store
      × Kept
          (codes "acq_0")
          (identity finished)
          (submit small library options [] (codes "acq_1") input filled).1.store)
    × (Consistent (status small library options (codes "acq_2") filled).1.store
        × Kept
            (codes "acq_0")
            (identity finished)
            (status small library options (codes "acq_2") filled).1.store)
    × (Consistent (check_submit small library options [] input filled).1.store
        × Kept
            (codes "acq_0")
            (identity finished)
            (check_submit small library options [] input filled).1.store)
unfolding find load get
entries-Kept_example =
    entries-Kept small library options [] (codes "acq_1") (codes "acq_2") (codes "acq_0") input
      (identity finished) filled (λ e. ground arith) filled-Consistent (finished, refl, refl)

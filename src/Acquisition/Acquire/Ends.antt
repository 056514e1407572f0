-- ===== src/Acquisition/Acquire/Ends.antt =====
-- The polling of dsh-tool-acquisition/src/acquire.ts comes to an end.
pub mod Clients
use deepseek_harness_web3_ag.Prelude.{
  ℕ, zero, suc, ◌+◌, ◌-◌, ◌≤◌, ◌<◌, ◌≡◌, refl, ap, ◌≢◌, inl, inr, Bool, true, false, Option, none,
  some, List, [], ◌∷◌, Text, leb, if◌then◌else◌, Bool-cases, Option-cases, arith,
}
use deepseek_harness_web3_ag.Acquisition.Selection.{AcquiredFile}
use deepseek_harness_web3_ag.Acquisition.Store.{
  TorrentClientName, Handle, StoredAcquisition, File, put, find, find_by_content_key,
}
use deepseek_harness_web3_ag.Acquisition.Store.Live.{State-cases}
use deepseek_harness_web3_ag.Acquisition.Acquire.Outside.{
  Outside, World, Action, AcquisitionError, Thrown, acquisition, other, Result, ok, threw, stuck,
  Answer, gave, broke, BackendStatus, TorrentPayload, continue, pure, throw, call, saved,
  put_record, ◌>>=◌, ◌>>◌,
}
use deepseek_harness_web3_ag.Acquisition.Acquire.Status.{
  Library, AcquireServiceOptions, AcquireResult, is_configured, client_of, render, make_backend,
  keep, finish_import, bring_in, finalize, completed_at, give_up, go_on, refresh, status_of, status,
  terminal,
}
use deepseek_harness_web3_ag.Acquisition.Acquire.Poll.{
  woken, sleep_on, unless_late, noted, wait_on, arrived, observed, poll, pause,
}
use deepseek_harness_web3_ag.Acquisition.Acquire.Clients.{
  Submission, Attempt, accepted, exhausted, Probe, is_queued, is_absent, unknown, probed, verify,
  submitted, probe_submit, give_in, try_client, try_clients, is_definite_pre_queue,
}
use deepseek_harness_web3_ag.Acquisition.Acquire.Torrents.{
  refreshed, resolve_existing, find_existing, watch, record_and_watch, follow, unless_found,
  with_clients, submit_torrent,
}

module _ {O : Outside} where
  -- No loop ran out of fuel.
  abbrev pub Ended : {A : Type 0} → Result A × World O → Type 0
  Ended (ok a, s) = Unit
  Ended (threw e, s) = Unit
  Ended (stuck, s) = ⊥

  abbrev pub Ends : {A : Type 0} → Action O A → Type 0
  Ends m = (s : World O) → Ended (m s)

  pub continue-Ended :
      {A B : Type 0} (p : Result A × World O) (k : A → Action O B)
      → Ended p
      → ((a : A) (s : World O) → Ended (k a s))
      → Ended (continue p k)
  continue-Ended (ok a, s) k h rest = rest a s
  continue-Ended (threw e, s) k h rest = tt
  continue-Ended (stuck, s) k h rest = h

  pub >>=-Ends :
      {A B : Type 0} (m : Action O A) (k : A → Action O B)
      → Ends m
      → ((a : A) → Ends (k a))
      → Ends (m >>= k)
  >>=-Ends m k first rest s = continue-Ended (m s) k (first s) rest

  pub if-Ends :
      {A : Type 0} (b : Bool) (m k : Action O A) → Ends m → Ends k → Ends (if b then m else k)
  if-Ends true m k hm hk = hm
  if-Ends false m k hm hk = hk

  pub call-Ended : {A : Type 0} (s : World O) (x : Answer A × O.W) → Ended (call (λ _. x) s)
  call-Ended s (gave a, w) = tt
  call-Ended s (broke e, w) = tt

  saved-Ended : (s : World O) (f : File) (x : Bool × O.W) → Ended (saved s f x)
  saved-Ended s f (true, w) = tt
  saved-Ended s f (false, w) = tt

  pub put-Ends : (r : StoredAcquisition) → Ends (put_record r)
  put-Ends r s = elim (Option-cases (put r s.store)) [
    | inl e ↦ rw e tt
    | inr (f, e) ↦ rw e (saved-Ended s f (O.save s.outside))
  ]

module _ {O : Outside} (library : Library) (options : AcquireServiceOptions) where
  keep-Ends : (r : StoredAcquisition) → Ends (keep O library options r)
  keep-Ends r = >>=-Ends (put_record r) (λ _. pure (render r)) (put-Ends r) (λ _ s. tt)

  finish_import-Ends :
      (r : StoredAcquisition) (files : List AcquiredFile) (paths : List Text)
      → Ends (finish_import O library options r files paths)
  unfolding finish_import
  finish_import-Ends r files paths s = keep-Ends _ _

  bring_in-Ends :
      (r : StoredAcquisition) (path : Text) (files : List AcquiredFile)
      → Ends (bring_in O library options r path files)
  unfolding bring_in
  bring_in-Ends r path [] s = keep-Ends _ _
  bring_in-Ends r path (file ∷ files) s =
      continue-Ended _ _ (call-Ended s _) (λ paths. finish_import-Ends r (file ∷ files) paths)

  pub finalize-Ends :
      (r : StoredAcquisition) (path : Text) → Ends (finalize O library options r path)
  unfolding finalize
  finalize-Ends r path s = bring_in-Ends r path _ s

  pub give_up-Ends :
      (r : StoredAcquisition) (current : BackendStatus) → Ends (give_up O library options r current)
  unfolding give_up
  give_up-Ends r current s = keep-Ends _ _

  go_on-Ends :
      (r : StoredAcquisition) (current : BackendStatus) → Ends (go_on O library options r current)
  unfolding go_on
  go_on-Ends r current s = keep-Ends _ _

  completed_at-Ends :
      (r : StoredAcquisition) (current : BackendStatus) (path : Option Text)
      → Ends (completed_at O library options r current path)
  completed_at-Ends r current none = go_on-Ends r current
  completed_at-Ends r current (some path) = finalize-Ends r path

  refresh-Ends :
      (r : StoredAcquisition) (current : BackendStatus) → Ends (refresh O library options r current)
  unfolding refresh
  refresh-Ends r current s = elim (State-cases current.state) [
    | inl e ↦ rw (e, refresh) (go_on-Ends r current s)
    | inr (inl e) ↦ rw (e, refresh) (go_on-Ends r current s)
    | inr (inr (inl e)) ↦ rw (e, refresh) (completed_at-Ends r current current.content_path s)
    | inr (inr (inr (inl e))) ↦ rw (e, refresh) (give_up-Ends r current s)
    | inr (inr (inr (inr e))) ↦ rw (e, refresh) (give_up-Ends r current s)
  ]

  pub make_backend-Ends : (name : TorrentClientName) → Ends (make_backend O library options name)
  make_backend-Ends name = if-Ends (is_configured options name) _ _ (λ s. tt) (λ s. tt)

  status_of-Ends : (r : StoredAcquisition) → Ends (status_of O library options (some r))
  unfolding status_of
  status_of-Ends r =
      if-Ends (terminal r.state) _ _ (λ s. tt)
        (>>=-Ends (make_backend O library options (client_of r.backend)) _
          (make_backend-Ends (client_of r.backend))
          (λ _ s. continue-Ended _ _ (call-Ended s _) (λ current. refresh-Ends r current)))

  -- A single poll never runs out of fuel: it has no loop.
  pub status-Ends : (id : Text) → Ends (status O library options id)
  unfolding status status_of
  status-Ends id s = elim (Option-cases (find id s.store)) [
    | inl e ↦ rw (e, status) tt
    | inr (none, e) ↦ rw (e, status) tt
    | inr (some r, e) ↦ rw (e, status) (status_of-Ends r s)
  ]

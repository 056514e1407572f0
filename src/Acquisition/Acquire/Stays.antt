-- ===== src/Acquisition/Acquire/Stays.antt =====
-- Which properties of the world the pipeline of dsh-tool-acquisition/src/acquire.ts keeps: those that the
-- clock, the backends' answers, the imports and the writes of records keep.
use deepseek_harness_web3_ag.Prelude.{
  ℕ, zero, suc, ◌≡◌, inl, inr, Bool, true, false, Option, none, some, List, [], ◌∷◌, Text, leb,
  if◌then◌else◌, Option-cases,
}
use deepseek_harness_web3_ag.Acquisition.Selection.{AcquiredFile}
use deepseek_harness_web3_ag.Acquisition.Store.{
  TorrentClientName, Backend, Handle, StoredAcquisition, find,
}
use deepseek_harness_web3_ag.Acquisition.Store.Live.{State-cases}
use deepseek_harness_web3_ag.Acquisition.Acquire.Outside.{
  Outside, World, Action, Result, ok, threw, stuck, Answer, gave, broke, BackendStatus, continue,
  pure, call, put_record, ◌>>=◌,
}
use deepseek_harness_web3_ag.Acquisition.Acquire.Status.{
  Library, AcquireServiceOptions, AcquireResult, is_configured, client_of, render, make_backend,
  keep, finish_import, bring_in, finalize, completed_at, give_up, go_on, refresh, status_of, status,
  terminal,
}
use deepseek_harness_web3_ag.Acquisition.Acquire.Poll.{
  woken, sleep_on, unless_late, noted, wait_on, arrived, observed, poll,
}

-- What no update of a record changes.
pub record Identity : Type 0 where
  pub id : Text
  pub backend : Backend
  pub handle : Handle
  pub title : Text
  pub created_at : ℕ
  pub content_key : Option Text
  pub aliases : List Text

abbrev pub identity : StoredAcquisition → Identity
identity r = record {
  id = r.id;
  backend = r.backend;
  handle = r.handle;
  title = r.title;
  created_at = r.created_at;
  content_key = r.content_key;
  aliases = r.aliases;
}

module _ {O : Outside} (P : World O → Type 0) where
  -- The property holds after the action if it held before.
  abbrev pub Stays : {A : Type 0} → Action O A → Type 0
  Stays m = (s : World O) → P s → P (m s).1

  pub continue-Stays :
      {A B : Type 0} (p : Result A × World O) (k : A → Action O B)
      → P p.1
      → ((a : A) → Stays (k a))
      → P (continue p k).1
  continue-Stays (ok a, s) k h rest = rest a s h
  continue-Stays (threw e, s) k h rest = h
  continue-Stays (stuck, s) k h rest = h

  pub >>=-Stays :
      {A B : Type 0} (m : Action O A) (k : A → Action O B)
      → Stays m
      → ((a : A) → Stays (k a))
      → Stays (m >>= k)
  >>=-Stays m k first rest s h = continue-Stays (m s) k (first s h) rest

  pub if-Stays :
      {A : Type 0} (b : Bool) (m k : Action O A) → Stays m → Stays k → Stays (if b then m else k)
  if-Stays true m k hm hk = hm
  if-Stays false m k hm hk = hk

  pub call-Stays :
      {A : Type 0} (s : World O) (x : Answer A × O.W)
      → P (record s { outside = x.1 })
      → P (call (λ _. x) s).1
  call-Stays s (gave a, w) q = q
  call-Stays s (broke e, w) q = q

  module _ (Mine : Identity → Type 0) where
    -- The property survives the calls of a poll, and the writes of records whose identity is `Mine`.
    pub record Kept : Type 0 where
      pub clock : (s : World O) → P s → P (record s { outside = (O.now s.outside).1 })
      pub asked :
          (name : TorrentClientName) (handle : Handle) (s : World O)
          → P s
          → P (record s { outside = (O.status name handle s.outside).1 })
      pub imported :
          (paths : List Text) (dir : Text) (root : Option Text) (s : World O)
          → P s
          → P (record s { outside = (O.import_files paths dir root s.outside).1 })
      pub slept : (ms : ℕ) (s : World O) → P s → P (record s { outside = (O.sleep ms s.outside).1 })
      pub written : (r : StoredAcquisition) → Mine (identity r) → Stays (put_record r)

    -- The records of the store have such an identity.
    abbrev pub Found : Type 0
    Found =
        (id : Text) (r : StoredAcquisition) (s : World O)
        → P s
        → find id s.store ≡ some (some r)
        → Mine (identity r)

module _ {O : Outside} (library : Library) (options : AcquireServiceOptions) {P : World O → Type 0}
    {Mine : Identity → Type 0} (kept : Kept P Mine) where
  keep-Stays : (r : StoredAcquisition) → Mine (identity r) → Stays P (keep O library options r)
  keep-Stays r m = >>=-Stays P (put_record r) (λ _. pure (render r)) (kept.written r m) (λ _ s h. h)

  finish_import-Stays :
      (r : StoredAcquisition) (files : List AcquiredFile) (paths : List Text)
      → Mine (identity r)
      → Stays P (finish_import O library options r files paths)
  unfolding finish_import
  finish_import-Stays r files paths m s h = keep-Stays _ m _ (kept.clock s h)

  bring_in-Stays :
      (r : StoredAcquisition) (path : Text) (files : List AcquiredFile)
      → Mine (identity r)
      → Stays P (bring_in O library options r path files)
  unfolding bring_in
  bring_in-Stays r path [] m s h = keep-Stays _ m _ (kept.clock s h)
  bring_in-Stays r path (file ∷ files) m s h =
      continue-Stays P _ _ (call-Stays P s _ (kept.imported _ _ _ s h))
        (λ paths. finish_import-Stays r (file ∷ files) paths m)

  finalize-Stays :
      (r : StoredAcquisition) (path : Text)
      → Mine (identity r)
      → Stays P (finalize O library options r path)
  unfolding finalize
  finalize-Stays r path m s = bring_in-Stays r path _ m s

  give_up-Stays :
      (r : StoredAcquisition) (current : BackendStatus)
      → Mine (identity r)
      → Stays P (give_up O library options r current)
  unfolding give_up
  give_up-Stays r current m s h = keep-Stays _ m _ (kept.clock s h)

  go_on-Stays :
      (r : StoredAcquisition) (current : BackendStatus)
      → Mine (identity r)
      → Stays P (go_on O library options r current)
  unfolding go_on
  go_on-Stays r current m s h = keep-Stays _ m _ (kept.clock s h)

  completed_at-Stays :
      (r : StoredAcquisition) (current : BackendStatus) (path : Option Text)
      → Mine (identity r)
      → Stays P (completed_at O library options r current path)
  completed_at-Stays r current none m = go_on-Stays r current m
  completed_at-Stays r current (some path) m = finalize-Stays r path m

  refresh-Stays :
      (r : StoredAcquisition) (current : BackendStatus)
      → Mine (identity r)
      → Stays P (refresh O library options r current)
  unfolding refresh
  refresh-Stays r current m s h = elim (State-cases current.state) [
    | inl e ↦ rw (e, refresh) (go_on-Stays r current m s h)
    | inr (inl e) ↦ rw (e, refresh) (go_on-Stays r current m s h)
    | inr (inr (inl e)) ↦ rw (e, refresh) (completed_at-Stays r current current.content_path m s h)
    | inr (inr (inr (inl e))) ↦ rw (e, refresh) (give_up-Stays r current m s h)
    | inr (inr (inr (inr e))) ↦ rw (e, refresh) (give_up-Stays r current m s h)
  ]

  make_backend-Stays : (name : TorrentClientName) → Stays P (make_backend O library options name)
  make_backend-Stays name = if-Stays P (is_configured options name) _ _ (λ s h. h) (λ s h. h)

  status_of-Stays :
      (r : StoredAcquisition) → Mine (identity r) → Stays P (status_of O library options (some r))
  unfolding status_of
  status_of-Stays r m =
      if-Stays P (terminal r.state) _ _ (λ s h. h)
        (>>=-Stays P (make_backend O library options (client_of r.backend)) _
          (make_backend-Stays (client_of r.backend))
          (λ _ s h.
            continue-Stays P _ _ (call-Stays P s _ (kept.asked _ _ s h))
              (λ current. refresh-Stays r current m)))

  -- A poll of a handle keeps the property.
  pub status-Stays : Found P Mine → (id : Text) → Stays P (status O library options id)
  unfolding status status_of
  status-Stays found id s h = elim (Option-cases (find id s.store)) [
    | inl e ↦ rw (e, status) h
    | inr (none, e) ↦ rw (e, status) h
    | inr (some r, e) ↦ rw (e, status) (status_of-Stays r (found id r s h e) s h)
  ]

  woken-Stays :
      (next : StoredAcquisition → Action O AcquireResult) (r : StoredAcquisition) (s : World O)
      (x : Bool × O.W)
      → Stays P (next r)
      → P (record s { outside = x.1 })
      → P (woken O library options next r x s).1
  woken-Stays next r s (true, w) goes h = goes _ h
  woken-Stays next r s (false, w) goes h = h

  sleep_on-Stays :
      (next : StoredAcquisition → Action O AcquireResult) (deadline : ℕ) (r : StoredAcquisition)
      → Stays P (next r)
      → Stays P (sleep_on O library options next deadline r)
  sleep_on-Stays next deadline r goes s h =
      woken-Stays next r _ _ goes (kept.slept _ _ (kept.clock s h))

  module _ (next : StoredAcquisition → Action O AcquireResult)
      (goes : (r : StoredAcquisition) → Mine (identity r) → Stays P (next r)) (deadline : ℕ)
      (r : StoredAcquisition) (current : BackendStatus) (m : Mine (identity r)) where
    unless_late-Stays :
        (r' : StoredAcquisition) (now : ℕ)
        → Mine (identity r')
        → Stays P (unless_late O library options next deadline r' now)
    unless_late-Stays r' now m' =
        if-Stays P (leb deadline now) (pure (render r'))
          (sleep_on O library options next deadline r') (λ s h. h)
          (sleep_on-Stays next deadline r' (goes r' m'))

    wait_on-Stays : Stays P (wait_on O library options next deadline r current)
    unfolding wait_on
    wait_on-Stays s h =
        let r' = noted O library options r current (O.now s.outside).0 in
        >>=-Stays P (put_record r') _ (kept.written r' m)
          (λ _ s' h'. unless_late-Stays r' (O.now s'.outside).0 m _ (kept.clock s' h')) _
          (kept.clock s h)

    arrived-Stays :
        (path : Option Text) → Stays P (arrived O library options next deadline r current path)
    arrived-Stays none = wait_on-Stays
    arrived-Stays (some path) = finalize-Stays r path m

    observed-Stays : Stays P (observed O library options next deadline r current)
    unfolding observed
    observed-Stays s h = elim (State-cases current.state) [
      | inl e ↦ rw (e, observed) (wait_on-Stays s h)
      | inr (inl e) ↦ rw (e, observed) (wait_on-Stays s h)
      | inr (inr (inl e)) ↦ rw (e, observed) (arrived-Stays current.content_path s h)
      | inr (inr (inr (inl e))) ↦ rw (e, observed) (give_up-Stays r current m s h)
      | inr (inr (inr (inr e))) ↦ rw (e, observed) (give_up-Stays r current m s h)
    ]

  -- The polling loop keeps the property.
  pub poll-Stays :
      (fuel : ℕ) (name : TorrentClientName) (deadline : ℕ) (r : StoredAcquisition)
      → Mine (identity r)
      → Stays P (poll O library options fuel name deadline r)
  unfolding poll
  poll-Stays zero name deadline r m s h = h
  poll-Stays (suc fuel) name deadline r m s h =
      continue-Stays P _ _ (call-Stays P s _ (kept.asked _ _ s h)) (λ current.
        observed-Stays _ (λ r' m'. poll-Stays fuel name deadline r' m') deadline r current m)

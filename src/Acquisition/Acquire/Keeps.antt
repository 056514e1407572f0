-- ===== src/Acquisition/Acquire/Keeps.antt =====
-- A property of the store that the writes of records keep is kept by every entry point of
-- dsh-tool-acquisition/src/acquire.ts.
pub mod Entries
use deepseek_harness_web3_ag.Prelude.{
  ℕ, suc, ◌+◌, ◌≡◌, refl, sym, ap, ◌∙◌, inl, inr, Bool, true, false, ◌||◌, Option, none, some, List,
  [], ◌∷◌, Text, codes, text_eq, if◌then◌else◌, Bool-cases, Option-cases, arith,
}
use deepseek_harness_web3_ag.Prelude.Maps.{Dict}
use deepseek_harness_web3_ag.Prowlarr.Links.{ReleaseLinks, take_release_links}
use deepseek_harness_web3_ag.Acquisition.Selection.{AcquiredFile}
use deepseek_harness_web3_ag.Acquisition.Mime.{torrent, nzb, kind_eq, media_kind}
use deepseek_harness_web3_ag.Acquisition.Torrent.{TorrentMeta, parse_torrent, is_torrent}
use deepseek_harness_web3_ag.Acquisition.Store.{
  TorrentClientName, Backend, direct, client, Handle, StoredAcquisition, File, put, find,
  find_by_content_key,
}
use deepseek_harness_web3_ag.Acquisition.Store.Live.{State-cases}
use deepseek_harness_web3_ag.Acquisition.Acquire.Outside.{
  Outside, World, Action, AcquisitionError, Thrown, acquisition, other, Result, ok, threw, stuck,
  Answer, gave, broke, TorrentPayload, FetchedFile, FetchOutcome, Resolved, BackendStatus, continue,
  pure, throw, call, saved, put_record, look_up, ◌>>=◌, ◌>>◌,
}
use deepseek_harness_web3_ag.Acquisition.Acquire.Status.{
  Library, AcquireServiceOptions, AcquireResult, is_configured, make_backend, render, status,
}
use deepseek_harness_web3_ag.Acquisition.Acquire.Clients.{
  Submission, Attempt, accepted, exhausted, Probe, is_queued, is_absent, unknown, first_record,
  uncertain_note, is_definite_pre_queue, probe_submit, give_in, probed, verify, submitted,
  try_client, try_clients,
}
use deepseek_harness_web3_ag.Acquisition.Acquire.Torrents.{
  resolve_existing, refreshed, find_existing, watch, record_and_watch, follow, unless_found,
  with_clients, submission, submit_torrent,
}
use deepseek_harness_web3_ag.Acquisition.Acquire.Stays.{
  Identity, identity, Stays, continue-Stays, >>=-Stays, if-Stays, call-Stays, Kept, Found,
  status-Stays, poll-Stays,
}

module _ {O : Outside} (library : Library) (options : AcquireServiceOptions) (Q : File → Type 0)
    (Mine : Identity → Type 0)
    (written : (r : StoredAcquisition) (f g : File)
      → Mine (identity r)
      → put r f ≡ some g
      → Q f
      → Q g)
    (found : (id : Text) (r : StoredAcquisition) (f : File)
      → Q f
      → find id f ≡ some (some r)
      → Mine (identity r)) where
  -- The property of a world whose store has it.
  abbrev pub Holds : World O → Type 0
  Holds s = Q s.store

  saved-Holds : (s : World O) (f : File) (x : Bool × O.W) → Holds s → Q f → Holds (saved s f x).1
  saved-Holds s f (true, w) old new = new
  saved-Holds s f (false, w) old new = old

  pub put-Stays : (r : StoredAcquisition) → Mine (identity r) → Stays Holds (put_record r)
  put-Stays r mine s h = elim (Option-cases (put r s.store)) [
    | inl e ↦ rw e h
    | inr (f, e) ↦ rw e (saved-Holds s f (O.save s.outside) h (written r s.store f mine e h))
  ]

  kept : Kept Holds Mine
  kept = record {
    clock = λ s h. h;
    asked = λ name handle s h. h;
    imported = λ paths dir root s h. h;
    slept = λ ms s h. h;
    written = put-Stays;
  }

  pub look_up-Stays :
      {A : Type 0} (key : Text) (k : Option StoredAcquisition → Action O A)
      → ((x : Option StoredAcquisition) → Stays Holds (k x))
      → Stays Holds (look_up key >>= k)
  look_up-Stays key k rest s h = elim (Option-cases (find_by_content_key key s.store)) [
    | inl e ↦ rw e h
    | inr (x, e) ↦ rw e (rest x s h)
  ]

  pub status-Holds : (id : Text) → Stays Holds (status O library options id)
  status-Holds = status-Stays library options kept (λ id r s. found id r s.store)

  refreshed-Holds : (r : StoredAcquisition) → Stays Holds (refreshed O library options r)
  refreshed-Holds r = >>=-Stays Holds _ _ (status-Holds r.id) (λ _ s h. h)

  pub resolve_existing-Holds :
      (x : Option StoredAcquisition) → Stays Holds (resolve_existing O library options x)
  unfolding resolve_existing
  resolve_existing-Holds none s h = h
  resolve_existing-Holds (some r) s h = elim (State-cases r.state) [
    | inl e ↦ rw (e, resolve_existing) (refreshed-Holds r s h)
    | inr (inl e) ↦ rw (e, resolve_existing) (refreshed-Holds r s h)
    | inr (inr (inl e)) ↦ rw (e, resolve_existing) h
    | inr (inr (inr (inl e))) ↦ rw (e, resolve_existing) (refreshed-Holds r s h)
    | inr (inr (inr (inr e))) ↦ rw (e, resolve_existing) (refreshed-Holds r s h)
  ]

  module _ (sub : Submission)
      (ours : (name : TorrentClientName) (handle : Handle) (now : ℕ) (note : Option Text)
        → Mine (identity (first_record sub name handle now note))) where
    module _ (next : AcquisitionError → Action O Attempt)
        (rest : (e : AcquisitionError) → Stays Holds (next e)) (name : TorrentClientName) where
      give_in-Holds : (e : AcquisitionError) → Stays Holds (give_in O library options sub name e)
      unfolding give_in
      give_in-Holds e s h =
          continue-Stays Holds _ (λ _. throw _)
            (put-Stays _ (ours name _ _ (some (uncertain_note name sub.id))) _ h) (λ _ s' h'. h')

      probed-Holds :
          (e : AcquisitionError) (probe : Probe)
          → Stays Holds (probed O library options next sub name e probe)
      probed-Holds e is_queued s h = h
      probed-Holds e is_absent s h = rest e s h
      probed-Holds e unknown s h = give_in-Holds e s h

      verify-Holds : (e : AcquisitionError) → Stays Holds (verify O library options next sub name e)
      unfolding probe_submit
      verify-Holds e =
          if-Stays Holds (is_definite_pre_queue e) (next e) _ (rest e) (λ s h. probed-Holds e _ _ h)

      submitted-Holds :
          (s : World O) (x : Answer Handle × O.W)
          → Holds s
          → Holds (submitted O library options next sub name (call (λ _. x) s)).1
      submitted-Holds s (gave handle, w) h = h
      submitted-Holds s (broke (acquisition e), w) h =
          if-Holds e.permanent _ _ h (verify-Holds e (record s { outside = w }) h)
        where
          if-Holds :
              (b : Bool) (p q : Result Attempt × World O)
              → Holds p.1
              → Holds q.1
              → Holds (if b then p else q).1
          if-Holds true p q hp hq = hp
          if-Holds false p q hp hq = hq
      submitted-Holds s (broke (other t), w) h = h

      try_client-Holds : Stays Holds (try_client O library options next sub name)
      unfolding try_client
      try_client-Holds s h = elim (Bool-cases (is_configured options name)) [
        | inl configured ↦ rw configured (submitted-Holds s _ h)
        | inr disabled ↦ rw disabled (rest _ s h)
      ]

    try_clients-Holds :
        (last : Option AcquisitionError) (names : List TorrentClientName)
        → Stays Holds (try_clients O library options sub last names)
    unfolding try_clients
    try_clients-Holds last [] s h = h
    try_clients-Holds last (name ∷ names) s h =
        try_client-Holds _ (λ e. try_clients-Holds (some e) names) name s h

    watch-Holds :
        (wait : ℕ) (name : TorrentClientName) (r : StoredAcquisition)
        → Mine (identity r)
        → Stays Holds (watch O library options wait name r)
    unfolding watch
    watch-Holds wait name r mine s h = poll-Stays library options kept (suc wait) name _ r mine _ h

    record_and_watch-Holds :
        (wait : ℕ) (name : TorrentClientName) (handle : Handle)
        → Stays Holds (record_and_watch O library options sub wait name handle)
    unfolding record_and_watch
    record_and_watch-Holds wait name handle s h =
        let r = first_record sub name handle (O.now s.outside).0 none in
        let s' = record s { outside = (O.now s.outside).1 } in
        continue-Stays Holds (put_record r s') (λ _. watch O library options wait name r)
          (put-Stays r (ours name handle _ none) s' h)
          (λ _. watch-Holds wait name r (ours name handle _ none))

    follow-Holds :
        (wait : ℕ) (attempt : Attempt) → Stays Holds (follow O library options sub wait attempt)
    unfolding follow
    follow-Holds wait (accepted name handle) s h =
        >>=-Stays Holds (make_backend O library options name) _
          (if-Stays Holds (is_configured options name) _ _ (λ _ q. q) (λ _ q. q))
          (λ _. record_and_watch-Holds wait name handle) s h
    follow-Holds wait (exhausted none) s h = h
    follow-Holds wait (exhausted (some e)) s h = h

    find_existing-Holds : (key : Option Text) → Stays Holds (find_existing O library options key)
    unfolding find_existing
    find_existing-Holds none s h = h
    find_existing-Holds (some key) s h = look_up-Stays key _ resolve_existing-Holds s h

    unless_found-Holds :
        (wait : ℕ) (x : Option AcquireResult)
        → Stays Holds (unless_found O library options sub wait x)
    unless_found-Holds wait (some r) s h = h
    unless_found-Holds wait none s h =
        continue-Stays Holds _ _ (try_clients-Holds none options.torrent_clients s h)
          (follow-Holds wait)

    pub with_clients-Holds :
        (wait : ℕ) (names : List TorrentClientName)
        → Stays Holds (with_clients O library options sub wait names)
    with_clients-Holds wait [] s h = h
    with_clients-Holds wait (name ∷ names) s h =
        continue-Stays Holds _ _ (find_existing-Holds sub.content_key s h) (unless_found-Holds wait)

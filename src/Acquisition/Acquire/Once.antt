-- ===== src/Acquisition/Acquire/Once.antt =====
-- Where a submission of dsh-tool-acquisition/src/acquire.ts leaves a torrent.
use deepseek_harness_web3_ag.Prelude.{
  ℕ, suc, refl, ◌∙◌, inl, inr, Bool, Option, none, some, List, [], ◌∷◌, Text, Option-cases,
}
use deepseek_harness_web3_ag.Acquisition.Store.{
  TorrentClientName, Handle, StoredAcquisition, find_by_content_key,
}
use deepseek_harness_web3_ag.Acquisition.Store.Live.{State-cases}
use deepseek_harness_web3_ag.Acquisition.Acquire.Outside.{
  Outside, World, Result, ok, threw, stuck, TorrentPayload, continue,
}
use deepseek_harness_web3_ag.Acquisition.Acquire.Status.{
  Library, AcquireServiceOptions, AcquireResult,
}
use deepseek_harness_web3_ag.Acquisition.Acquire.Clients.{
  Submission, Attempt, accepted, exhausted, first_record,
}
use deepseek_harness_web3_ag.Acquisition.Acquire.Torrents.{
  resolve_existing, refreshed, find_existing, watch, record_and_watch, follow, unless_found,
  with_clients, submission, submit_torrent,
}
use deepseek_harness_web3_ag.Acquisition.Acquire.Stays.{
  identity, Stays, >>=-Stays, status-Stays, poll-Stays,
}
use deepseek_harness_web3_ag.Acquisition.Acquire.Tracked.{
  Readable, Documented, Nowhere, OnRecord, Tracked, Nowhere-Kept, OnRecord-Kept, after_put, Ours,
}
use deepseek_harness_web3_ag.Acquisition.Acquire.Placed.{Others, Placed, try_clients-Placed}

module _ {O : Outside} {library : Library} (options : AcquireServiceOptions) (sub : Submission)
    {has : O.W → TorrentClientName → Bool} (documented : Documented O library sub has) where
  watch-OnRecord :
      (wait : ℕ) (name : TorrentClientName) (r : StoredAcquisition)
      → Ours O library sub has name (identity r)
      → Stays (OnRecord O library sub has name) (watch O library options wait name r)
  unfolding watch
  watch-OnRecord wait name r mine s h =
      let kept = OnRecord-Kept O library sub has documented name in
      poll-Stays library options kept (suc wait) name _ r mine _ (kept.clock s h)

  record_and_watch-Tracked :
      (wait : ℕ) (name : TorrentClientName) (handle : Handle) (s : World O)
      → Others options sub documented name s.outside
      → Readable s.store
      → Tracked O library sub has (record_and_watch O library options sub wait name handle s)
  unfolding record_and_watch
  record_and_watch-Tracked wait name handle s others readable =
      let w = O.now s.outside in
      let r = first_record sub name handle w.0 none in
      after_put O library sub has documented (Tracked O library sub has) name
        (watch O library options wait name r)
        (λ s' h. inr (name, inl (watch-OnRecord wait name r (refl, refl) s' h)))
        (λ s' h. inr (name, inr (h, refl))) r (record s { outside = w.1 })
        (λ m d. documented.clock m s.outside ∙ others m d) readable (refl, refl)

  follow-Tracked :
      (wait : ℕ) (p : Result Attempt × World O)
      → Placed options sub documented p
      → Tracked O library sub has (continue p (follow O library options sub wait))
  unfolding follow
  follow-Tracked wait (ok (accepted name handle), s) (others, readable, configured) =
      rw configured (record_and_watch-Tracked wait name handle s others readable)
  follow-Tracked wait (ok (exhausted none), s) h = inl h.0
  follow-Tracked wait (ok (exhausted (some e)), s) h = inl h.0
  follow-Tracked wait (threw e, s) h = h
  follow-Tracked wait (stuck, s) h = h

  refreshed-Nowhere :
      (r : StoredAcquisition) → Stays (Nowhere O library sub has) (refreshed O library options r)
  refreshed-Nowhere r =
      >>=-Stays (Nowhere O library sub has) _ _
        (status-Stays library options (Nowhere-Kept O library sub has documented) (λ _ _ _ _ _. tt)
          r.id)
        (λ _ s h. h)

  resolve_existing-Nowhere :
      (found : Option StoredAcquisition)
      → Stays (Nowhere O library sub has) (resolve_existing O library options found)
  unfolding resolve_existing
  resolve_existing-Nowhere none s h = h
  resolve_existing-Nowhere (some r) s h = elim (State-cases r.state) [
    | inl e ↦ rw (e, resolve_existing) (refreshed-Nowhere r s h)
    | inr (inl e) ↦ rw (e, resolve_existing) (refreshed-Nowhere r s h)
    | inr (inr (inl e)) ↦ rw (e, resolve_existing) h
    | inr (inr (inr (inl e))) ↦ rw (e, resolve_existing) (refreshed-Nowhere r s h)
    | inr (inr (inr (inr e))) ↦ rw (e, resolve_existing) (refreshed-Nowhere r s h)
  ]

  find_existing-Nowhere :
      (key : Option Text) → Stays (Nowhere O library sub has) (find_existing O library options key)
  unfolding find_existing
  find_existing-Nowhere none s h = h
  find_existing-Nowhere (some key) s h = elim (Option-cases (find_by_content_key key s.store)) [
    | inl e ↦ rw (e, find_existing) h
    | inr (found, e) ↦ rw (e, find_existing) (resolve_existing-Nowhere found s h)
  ]

  unless_found-Tracked :
      (wait : ℕ) (found : Option AcquireResult) (s : World O)
      → Nowhere O library sub has s
      → Tracked O library sub has (unless_found O library options sub wait found s)
  unless_found-Tracked wait (some r) s h = inl h.0
  unless_found-Tracked wait none s h =
      follow-Tracked wait _
        (try_clients-Placed options sub documented none options.torrent_clients s h)

  with_clients-Tracked :
      (wait : ℕ) (names : List TorrentClientName) (s : World O)
      → Nowhere O library sub has s
      → Tracked O library sub has (with_clients O library options sub wait names s)
  with_clients-Tracked wait [] s h = inl h.0
  with_clients-Tracked wait (name ∷ names) s h =
      found_or_not (find_existing O library options sub.content_key s)
        (find_existing-Nowhere sub.content_key s h)
    where
      found_or_not :
          (p : Result (Option AcquireResult) × World O)
          → Nowhere O library sub has p.1
          → Tracked O library sub has (continue p (unless_found O library options sub wait))
      found_or_not (ok found, s') h' = unless_found-Tracked wait found s' h'
      found_or_not (threw e, s') h' = inl h'.0
      found_or_not (stuck, s') h' = inl h'.0

-- Where the backends behave as documented, no backend holds the torrent yet and the store can be read:
-- however the submission of a torrent ends, at most one backend holds the torrent afterwards. If one does,
-- the store has the record of this submission, which names that backend, or the submission threw the error
-- of a write of the store that failed.
pub submit_torrent-Tracked :
    (O : Outside) (library : Library) (options : AcquireServiceOptions) (id : Text)
    (payload : TorrentPayload) (title : Text) (wait : ℕ) (alias : Option Text)
    (has : O.W → TorrentClientName → Bool)
    → let sub = submission O library options id payload title alias in
      Documented O library sub has
      → (s : World O) → Nowhere O library sub has s
      → Tracked O library sub has (submit_torrent O library options id payload title wait alias s)
unfolding submit_torrent
submit_torrent-Tracked O library options id payload title wait alias has documented s h =
    with_clients-Tracked options _ documented wait options.torrent_clients s h

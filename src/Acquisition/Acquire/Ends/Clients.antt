-- ===== src/Acquisition/Acquire/Ends/Clients.antt =====
-- The loop over the clients of dsh-tool-acquisition/src/acquire.ts, and what comes before it, run out of
-- no fuel.
use deepseek_harness_web3_ag.Prelude.{
  inl, inr, Bool, true, false, Option, none, some, List, [], ◌∷◌, Text, if◌then◌else◌, Bool-cases,
  Option-cases,
}
use deepseek_harness_web3_ag.Acquisition.Store.{
  TorrentClientName, Handle, StoredAcquisition, find_by_content_key,
}
use deepseek_harness_web3_ag.Acquisition.Store.Live.{State-cases}
use deepseek_harness_web3_ag.Acquisition.Acquire.Outside.{
  Outside, World, Action, AcquisitionError, acquisition, other, Result, Answer, gave, broke, throw,
  call,
}
use deepseek_harness_web3_ag.Acquisition.Acquire.Status.{
  Library, AcquireServiceOptions, is_configured,
}
use deepseek_harness_web3_ag.Acquisition.Acquire.Clients.{
  Submission, Attempt, Probe, is_queued, is_absent, unknown, probed, verify, submitted,
  probe_submit, give_in, try_client, try_clients, is_definite_pre_queue,
}
use deepseek_harness_web3_ag.Acquisition.Acquire.Torrents.{
  refreshed, resolve_existing, find_existing,
}
use deepseek_harness_web3_ag.Acquisition.Acquire.Ends.{
  Ended, Ends, continue-Ended, >>=-Ends, if-Ends, put-Ends, status-Ends,
}

module _ {O : Outside} (library : Library) (options : AcquireServiceOptions)
    (sub : Submission) where
  module _ (next : AcquisitionError → Action O Attempt)
      (rest : (e : AcquisitionError) → Ends (next e)) (name : TorrentClientName) where
    give_in-Ends : (e : AcquisitionError) → Ends (give_in O library options sub name e)
    unfolding give_in
    give_in-Ends e s = continue-Ended _ (λ _. throw _) (put-Ends _ _) (λ _ s'. tt)

    probed-Ends :
        (e : AcquisitionError) (probe : Probe)
        → Ends (probed O library options next sub name e probe)
    probed-Ends e is_queued s = tt
    probed-Ends e is_absent s = rest e s
    probed-Ends e unknown s = give_in-Ends e s

    verify-Ends : (e : AcquisitionError) → Ends (verify O library options next sub name e)
    unfolding probe_submit
    verify-Ends e = if-Ends (is_definite_pre_queue e) (next e) _ (rest e) (λ s. probed-Ends e _ _)

    submitted-Ended :
        (s : World O) (x : Answer Handle × O.W)
        → Ended (submitted O library options next sub name (call (λ _. x) s))
    submitted-Ended s (gave handle, w) = tt
    submitted-Ended s (broke (acquisition e), w) =
        if-Ended e.permanent _ _ tt (verify-Ends e (record s { outside = w }))
      where
        if-Ended :
            (b : Bool) (p q : Result Attempt × World O)
            → Ended p
            → Ended q
            → Ended (if b then p else q)
        if-Ended true p q hp hq = hp
        if-Ended false p q hp hq = hq
    submitted-Ended s (broke (other t), w) = tt

    try_client-Ends : Ends (try_client O library options next sub name)
    unfolding try_client
    try_client-Ends s = elim (Bool-cases (is_configured options name)) [
      | inl configured ↦ rw configured (submitted-Ended s _)
      | inr disabled ↦ rw disabled (rest _ s)
    ]

  pub try_clients-Ends :
      (last : Option AcquisitionError) (names : List TorrentClientName)
      → Ends (try_clients O library options sub last names)
  unfolding try_clients
  try_clients-Ends last [] s = tt
  try_clients-Ends last (name ∷ names) s =
      try_client-Ends _ (λ e. try_clients-Ends (some e) names) name s

  refreshed-Ends : (r : StoredAcquisition) → Ends (refreshed O library options r)
  refreshed-Ends r = >>=-Ends _ _ (status-Ends library options r.id) (λ _ s. tt)

  resolve_existing-Ends :
      (found : Option StoredAcquisition) → Ends (resolve_existing O library options found)
  unfolding resolve_existing
  resolve_existing-Ends none s = tt
  resolve_existing-Ends (some r) s = elim (State-cases r.state) [
    | inl e ↦ rw (e, resolve_existing) (refreshed-Ends r s)
    | inr (inl e) ↦ rw (e, resolve_existing) (refreshed-Ends r s)
    | inr (inr (inl e)) ↦ rw (e, resolve_existing) tt
    | inr (inr (inr (inl e))) ↦ rw (e, resolve_existing) (refreshed-Ends r s)
    | inr (inr (inr (inr e))) ↦ rw (e, resolve_existing) (refreshed-Ends r s)
  ]

  pub find_existing-Ends : (key : Option Text) → Ends (find_existing O library options key)
  unfolding find_existing
  find_existing-Ends none s = tt
  find_existing-Ends (some key) s = elim (Option-cases (find_by_content_key key s.store)) [
    | inl e ↦ rw (e, find_existing) tt
    | inr (found, e) ↦ rw (e, find_existing) (resolve_existing-Ends found s)
  ]

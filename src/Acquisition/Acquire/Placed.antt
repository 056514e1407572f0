-- ===== src/Acquisition/Acquire/Placed.antt =====
-- Where the loop over the clients in `submitTorrent` (dsh-tool-acquisition/src/acquire.ts) leaves a torrent.
use deepseek_harness_web3_ag.Prelude.{
  ◌≡◌, refl, sym, ◌∙◌, ap, ◌≢◌, ◌⊎◌, inl, inr, Bool, true, false, ◌||◌, Option, some, List, [], ◌∷◌,
  if◌then◌else◌, Bool-cases, arith,
}
use deepseek_harness_web3_ag.Acquisition.Store.{
  AcquireState, queued, downloading, completed, failed, missing, TorrentClientName, qbittorrent,
  transmission, Handle,
}
use deepseek_harness_web3_ag.Acquisition.Acquire.Outside.{
  Outside, World, Action, AcquisitionError, acquisition, other, Result, ok, threw, stuck, Answer,
  gave, broke, BackendStatus, throw, call,
}
use deepseek_harness_web3_ag.Acquisition.Acquire.Status.{
  Library, AcquireServiceOptions, is_configured,
}
use deepseek_harness_web3_ag.Acquisition.Acquire.Clients.{
  Submission, Attempt, accepted, exhausted, Probe, is_queued, is_absent, unknown, label_of,
  probe_handle, is_definite_pre_queue, probe_of, answer_of, probe_submit, give_in, probed, verify,
  submitted, try_client, try_clients,
}
use deepseek_harness_web3_ag.Acquisition.Acquire.Tracked.{
  Readable, Documented, Nowhere, Tracked, after_put,
}

Name-cases : (m n : TorrentClientName) → (m ≡ n) ⊎ (m ≢ n)
Name-cases qbittorrent qbittorrent = inl refl
Name-cases qbittorrent transmission = inr (λ e. cc e)
Name-cases transmission qbittorrent = inr (λ e. cc e)
Name-cases transmission transmission = inl refl

or_left : (a b : Bool) → a ≡ true → (a || b) ≡ true
or_left true b h = refl
or_left false b h = cc

or_right : (a b : Bool) → b ≡ true → (a || b) ≡ true
or_right true b h = refl
or_right false b h = h

module _ {O : Outside} {library : Library} (options : AcquireServiceOptions) (sub : Submission)
    {has : O.W → TorrentClientName → Bool} (documented : Documented O library sub has) where
  -- No other backend has the torrent.
  abbrev pub Others : TorrentClientName → O.W → Type 0
  Others name w = (m : TorrentClientName) → m ≢ name → has w m ≡ false

  -- Where the loop over the clients leaves the torrent.
  abbrev pub Placed : Result Attempt × World O → Type 0
  Placed (ok (accepted name handle), s) =
      Others name s.outside × Readable s.store × (is_configured options name ≡ true)
  Placed (ok (exhausted last), s) = Nowhere O library sub has s
  Placed (threw e, s) = Tracked O library sub has {A = Attempt} (threw e, s)
  Placed (stuck, s) = Tracked O library sub has {A = Attempt} (stuck, s)

  state_missing : (x : AcquireState) → probe_of O library options x ≡ is_absent → x ≡ missing
  state_missing missing a = refl
  state_missing queued a = absurd (ground arith)
  state_missing downloading a = absurd (ground arith)
  state_missing completed a = absurd (ground arith)
  state_missing failed a = absurd (ground arith)

  nowhere_of :
      (name : TorrentClientName) (w : O.W)
      → Others name w
      → has w name ≡ false
      → (m : TorrentClientName) → has w m ≡ false
  nowhere_of name w others gone m = elim (Name-cases m name) [
    | inl same ↦ rw same gone
    | inr different ↦ others m different
  ]

  if-Placed :
      (b : Bool) (p q : Result Attempt × World O)
      → (b ≡ true → Placed p)
      → Placed q
      → Placed (if b then p else q)
  if-Placed true p q hp hq = hp refl
  if-Placed false p q hp hq = hq

  module _ (name : TorrentClientName) (configured : is_configured options name ≡ true)
      (next : AcquisitionError → Action O Attempt)
      (rest : (e : AcquisitionError) (s : World O)
        → Nowhere O library sub has s
        → Placed (next e s)) where
    give_in-Placed :
        (e : AcquisitionError) (s : World O)
        → Others name s.outside
        → Readable s.store
        → Placed (give_in O library options sub name e s)
    unfolding give_in
    give_in-Placed e s others readable =
        after_put O library sub has documented Placed name (throw _) (λ s' h. inr (name, inl h))
          (λ s' h. inr (name, inr (h, refl))) _ _ (λ m d. documented.clock m s.outside ∙ others m d)
          readable (refl, refl)

    probed-Placed :
        (e : AcquisitionError) (answer : Probe) (s : World O)
        → Others name s.outside
        → (answer ≡ is_absent → has s.outside name ≡ false)
        → Readable s.store
        → Placed (probed O library options next sub name e answer s)
    probed-Placed e is_queued s others gone readable = (others, readable, configured)
    probed-Placed e is_absent s others gone readable =
        rest e s (nowhere_of name s.outside others (gone refl), readable)
    probed-Placed e unknown s others gone readable = give_in-Placed e s others readable

    absent_is_gone :
        (w : O.W) (x : Answer BackendStatus)
        → (O.status name (probe_handle library.xt sub.payload (label_of sub)) w).0 ≡ x
        → answer_of O library options x ≡ is_absent
        → has w name ≡ false
    absent_is_gone w (gave c) asked a = documented.gone name w c asked (state_missing c.state a)
    absent_is_gone w (broke e) asked a = absurd (ground arith)

    verify-Placed :
        (e : AcquisitionError) (s : World O)
        → Others name s.outside
        → (is_definite_pre_queue e ≡ true → has s.outside name ≡ false)
        → Readable s.store
        → Placed (verify O library options next sub name e s)
    unfolding probe_submit
    verify-Placed e s others sure readable =
        let handle = probe_handle library.xt sub.payload (label_of sub) in
        let probe = O.status name handle s.outside in
        elim (Bool-cases (is_definite_pre_queue e)) [
          | inl never_sent ↦
              rw never_sent
                (rest e s (nowhere_of name s.outside others (sure never_sent), readable))
          | inr maybe ↦ rw maybe (
              probed-Placed e (answer_of O library options (probe.0))
                (record s { outside = probe.1 })
                (λ m d. documented.asking name m handle s.outside ∙ others m d)
                (λ absent_there.
                  documented.asking name name handle s.outside
                  ∙ absent_is_gone s.outside probe.0 refl absent_there)
                readable)
        ]

    elsewhere_none :
        (s : World O) (w : O.W)
        → w ≡ (O.submit name sub.payload (label_of sub) s.outside).1
        → ((m : TorrentClientName) → has s.outside m ≡ false)
        → Others name w
    elsewhere_none s w sent none_has m d =
        ap (λ v. has v m) sent ∙ documented.elsewhere name m s.outside d ∙ none_has m

    submitted-Placed :
        (s : World O) (x : Answer Handle × O.W)
        → x ≡ O.submit name sub.payload (label_of sub) s.outside
        → Nowhere O library sub has s
        → Placed (submitted O library options next sub name (call (λ _. x) s))
    submitted-Placed s (gave handle, w) sent (none_has, readable) =
        (elsewhere_none s w (ap (λ y. y.1) sent) none_has, readable, configured)
    submitted-Placed s (broke (acquisition e), w) sent (none_has, readable) =
        if-Placed e.permanent _ _
          (λ hopeless. inl (nowhere_of name w others (refused (or_left _ _ hopeless))))
          (verify-Placed e (record s { outside = w }) others
            (λ never_sent. refused (or_right _ _ never_sent)) readable)
      where
        others : Others name w
        others = elsewhere_none s w (ap (λ y. y.1) sent) none_has

        refused : (e.permanent || is_definite_pre_queue e) ≡ true → has w name ≡ false
        refused h =
            ap (λ v. has v name) (ap (λ y. y.1) sent)
            ∙ documented.refused name s.outside e (ap (λ y. y.0) (sym sent)) h
            ∙ none_has name
    submitted-Placed s (broke (other t), w) sent (none_has, readable) =
        absurd (documented.classified name s.outside t (ap (λ y. y.0) (sym sent)))

  try_client-Placed :
      (name : TorrentClientName) (next : AcquisitionError → Action O Attempt)
      → ((e : AcquisitionError) (s : World O) → Nowhere O library sub has s → Placed (next e s))
      → (s : World O) → Nowhere O library sub has s
      → Placed (try_client O library options next sub name s)
  unfolding try_client
  try_client-Placed name next rest s h = elim (Bool-cases (is_configured options name)) [
    | inl configured ↦ rw configured (submitted-Placed name configured next rest s _ refl h)
    | inr disabled ↦ rw disabled (rest _ s h)
  ]

  pub try_clients-Placed :
      (last : Option AcquisitionError) (names : List TorrentClientName) (s : World O)
      → Nowhere O library sub has s
      → Placed (try_clients O library options sub last names s)
  unfolding try_clients
  try_clients-Placed last [] s h = h
  try_clients-Placed last (name ∷ names) s h =
      try_client-Placed name _ (λ e. try_clients-Placed (some e) names) s h

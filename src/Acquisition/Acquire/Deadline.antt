-- ===== src/Acquisition/Acquire/Deadline.antt =====
-- The loop of dsh-tool-acquisition/src/acquire.ts that polls a backend comes to an end, since the clock
-- moves on while it sleeps.
use deepseek_harness_web3_ag.Prelude.{
  ℕ, zero, suc, ◌+◌, ◌-◌, ◌≤◌, ◌<◌, ◌≡◌, refl, inl, inr, Bool, true, false, Option, none, some,
  List, [], ◌∷◌, Text, leb, if◌then◌else◌, Bool-cases, Option-cases, arith,
}
use deepseek_harness_web3_ag.Acquisition.Store.{
  TorrentClientName, Handle, StoredAcquisition, File, put,
}
use deepseek_harness_web3_ag.Acquisition.Store.Live.{State-cases}
use deepseek_harness_web3_ag.Acquisition.Acquire.Outside.{
  Outside, World, Action, Answer, gave, broke, BackendStatus, TorrentPayload, continue, call,
  read_clock, saved, ◌>>=◌,
}
use deepseek_harness_web3_ag.Acquisition.Acquire.Status.{
  Library, AcquireServiceOptions, AcquireResult, make_backend,
}
use deepseek_harness_web3_ag.Acquisition.Acquire.Poll.{
  woken, sleep_on, unless_late, noted, wait_on, arrived, observed, poll,
}
use deepseek_harness_web3_ag.Acquisition.Acquire.Clients.{Submission, Attempt, accepted, exhausted}
use deepseek_harness_web3_ag.Acquisition.Acquire.Torrents.{
  watch, record_and_watch, follow, unless_found, with_clients, submit_torrent,
}
use deepseek_harness_web3_ag.Acquisition.Acquire.Ends.{
  Ended, Ends, continue-Ended, >>=-Ends, put-Ends, finalize-Ends, give_up-Ends, make_backend-Ends,
}
use deepseek_harness_web3_ag.Acquisition.Acquire.Ends.Clients.{try_clients-Ends, find_existing-Ends}

-- The clock reads `time`, never goes back, and moves on by what a sleep lasts.
pub record Ticks (O : Outside) (time : O.W → ℕ) : Type 0 where
  pub reads : (w : O.W) → (O.now w).0 ≡ time w
  pub reading : (w : O.W) → time w ≤ time (O.now w).1
  pub asking :
      (name : TorrentClientName) (handle : Handle) (w : O.W)
      → time w ≤ time (O.status name handle w).1
  pub saving : (w : O.W) → time w ≤ time (O.save w).1
  pub sleeping : (ms : ℕ) (w : O.W) → (O.sleep ms w).0 ≡ true → time w + ms ≤ time (O.sleep ms w).1

-- What a sleep leaves of the time to the deadline.
time_left :
    (interval deadline fuel t later now woke : ℕ)
    → 0 < interval
    → deadline - t < suc fuel
    → t ≤ later
    → later < deadline
    → later ≤ now
    → now + (if leb interval (deadline - now) then interval else deadline - now) ≤ woke
    → deadline - woke < fuel
time_left interval deadline fuel t later now woke pos left past early still slept = ground arith

module _ {O : Outside} (library : Library) (options : AcquireServiceOptions) {time : O.W → ℕ}
    (ticks : Ticks O time) (pos : 0 < options.poll_interval_ms) (fuel : ℕ) (deadline : ℕ)
    (next : StoredAcquisition → Action O AcquireResult)
    (goes : (r : StoredAcquisition) (s : World O)
      → deadline - time s.outside < fuel
      → Ended (next r s)) where
  woken-Ended :
      (r : StoredAcquisition) (s : World O) (x : Bool × O.W)
      → (x.0 ≡ true → deadline - time x.1 < fuel)
      → Ended (woken O library options next r x s)
  woken-Ended r s (true, w) left = goes r _ (left refl)
  woken-Ended r s (false, w) left = tt

  sleep_on-Ended :
      (r : StoredAcquisition) (s : World O) (t later : ℕ)
      → deadline - t < suc fuel
      → t ≤ later
      → later < deadline
      → later ≤ time s.outside
      → Ended (sleep_on O library options next deadline r s)
  sleep_on-Ended r s t later left past early still = woken-Ended r _ _ (λ slept.
      time_left options.poll_interval_ms deadline fuel t later (O.now s.outside).0 _ pos left past
        early (omega (arith, ticks.reads s.outside))
        (omega (arith, ticks.reads s.outside, ticks.reading s.outside, ticks.sleeping _ _ slept)))

  unless_late-Ended :
      (r : StoredAcquisition) (s : World O) (t : ℕ)
      → deadline - t < suc fuel
      → t ≤ (O.now s.outside).0
      → Ended (
          unless_late O library options next deadline r
            (O.now s.outside).0
            (record s { outside = (O.now s.outside).1 }))
  unless_late-Ended r s t left past = elim (Bool-cases (leb deadline (O.now s.outside).0)) [
    | inl late ↦ rw late tt
    | inr early ↦ rw early (
        sleep_on-Ended r _ t (O.now s.outside).0 left past (ground arith)
          (omega (arith, ticks.reads s.outside, ticks.reading s.outside)))
  ]

  saved_then-Ended :
      (r : StoredAcquisition) (s : World O) (f : File) (x : Bool × O.W) (t : ℕ)
      → deadline - t < suc fuel
      → t ≤ time x.1
      → Ended (
          continue
            (saved s f x)
            (λ _. read_clock >>= unless_late O library options next deadline r))
  saved_then-Ended r s f (true, w) t left past =
      unless_late-Ended r (record { outside = w; store = f }) t left (omega (arith, ticks.reads w))
  saved_then-Ended r s f (false, w) t left past = tt

  module _ (r : StoredAcquisition) (current : BackendStatus) where
    wait_on-Ended :
        (s : World O)
        → deadline - time s.outside < suc fuel
        → Ended (wait_on O library options next deadline r current s)
    unfolding wait_on
    wait_on-Ended s left =
        let w = O.now s.outside in
        let r' = noted O library options r current w.0 in
        elim (Option-cases (put r' s.store)) [
          | inl e ↦ rw e tt
          | inr (f, e) ↦ rw e (
              saved_then-Ended r' (record s { outside = w.1 }) f (O.save w.1) (time s.outside) left
                (omega (arith, ticks.saving w.1, ticks.reading s.outside)))
        ]

    arrived-Ended :
        (path : Option Text) (s : World O)
        → deadline - time s.outside < suc fuel
        → Ended (arrived O library options next deadline r current path s)
    arrived-Ended none s left = wait_on-Ended s left
    arrived-Ended (some path) s left = finalize-Ends library options r path s

    observed-Ended :
        (s : World O)
        → deadline - time s.outside < suc fuel
        → Ended (observed O library options next deadline r current s)
    unfolding observed
    observed-Ended s left = elim (State-cases current.state) [
      | inl e ↦ rw (e, observed) (wait_on-Ended s left)
      | inr (inl e) ↦ rw (e, observed) (wait_on-Ended s left)
      | inr (inr (inl e)) ↦ rw (e, observed) (arrived-Ended current.content_path s left)
      | inr (inr (inr (inl e))) ↦ rw (e, observed) (give_up-Ends library options r current s)
      | inr (inr (inr (inr e))) ↦ rw (e, observed) (give_up-Ends library options r current s)
    ]

  asked-Ended :
      (name : TorrentClientName) (r : StoredAcquisition) (s : World O)
      (x : Answer BackendStatus × O.W)
      → deadline - time x.1 < suc fuel
      → Ended (continue (call (λ _. x) s) (observed O library options next deadline r))
  asked-Ended name r s (gave current, w) left = observed-Ended r current _ left
  asked-Ended name r s (broke e, w) left = tt

module _ {O : Outside} (library : Library) (options : AcquireServiceOptions) {time : O.W → ℕ}
    (ticks : Ticks O time) (pos : 0 < options.poll_interval_ms) where
  -- Fuel for each millisecond up to the deadline is enough.
  poll-Ended :
      (fuel : ℕ) (name : TorrentClientName) (deadline : ℕ) (r : StoredAcquisition) (s : World O)
      → deadline - time s.outside < fuel
      → Ended (poll O library options fuel name deadline r s)
  unfolding poll
  poll-Ended zero name deadline r s left = absurd (omega arith)
  poll-Ended (suc fuel) name deadline r s left =
      asked-Ended library options ticks pos fuel deadline
        (poll O library options fuel name deadline)
        (λ r' s' left'. poll-Ended fuel name deadline r' s' left') name r s _
        (omega (arith, ticks.asking name r.handle s.outside))

  watch-Ends :
      (wait : ℕ) (name : TorrentClientName) (r : StoredAcquisition)
      → Ends (watch O library options wait name r)
  unfolding watch
  watch-Ends wait name r s =
      poll-Ended (suc wait) name _ r _
        (omega (arith, ticks.reads s.outside, ticks.reading s.outside))

  record_and_watch-Ends :
      (sub : Submission) (wait : ℕ) (name : TorrentClientName) (handle : Handle)
      → Ends (record_and_watch O library options sub wait name handle)
  unfolding record_and_watch
  record_and_watch-Ends sub wait name handle s =
      continue-Ended _ (λ _. watch O library options wait name _) (put-Ends _ _)
        (λ _. watch-Ends wait name _)

  follow-Ends :
      (sub : Submission) (wait : ℕ) (attempt : Attempt)
      → Ends (follow O library options sub wait attempt)
  unfolding follow
  follow-Ends sub wait (accepted name handle) s =
      >>=-Ends (make_backend O library options name) _ (make_backend-Ends library options name)
        (λ _. record_and_watch-Ends sub wait name handle) s
  follow-Ends sub wait (exhausted none) s = tt
  follow-Ends sub wait (exhausted (some e)) s = tt

  unless_found-Ends :
      (sub : Submission) (wait : ℕ) (found : Option AcquireResult)
      → Ends (unless_found O library options sub wait found)
  unless_found-Ends sub wait (some r) s = tt
  unless_found-Ends sub wait none s =
      continue-Ended _ _ (try_clients-Ends library options sub none options.torrent_clients s)
        (follow-Ends sub wait)

  with_clients-Ends :
      (sub : Submission) (wait : ℕ) (names : List TorrentClientName)
      → Ends (with_clients O library options sub wait names)
  with_clients-Ends sub wait [] s = tt
  with_clients-Ends sub wait (name ∷ names) s =
      continue-Ended _ _ (find_existing-Ends library options sub sub.content_key s)
        (unless_found-Ends sub wait)

  -- Over a clock that moves on while the pipeline sleeps, and with a polling interval that is not 0, the
  -- submission of a torrent comes to an end: the fuel of its polling loop, the milliseconds to wait and
  -- one, never runs out.
  pub submit_torrent-Ended :
      (id : Text) (payload : TorrentPayload) (title : Text) (wait : ℕ) (alias : Option Text)
      (s : World O)
      → Ended (submit_torrent O library options id payload title wait alias s)
  unfolding submit_torrent
  submit_torrent-Ended id payload title wait alias s =
      with_clients-Ends _ wait options.torrent_clients s

-- ===== src/Acquisition/Acquire/Poll.antt =====
-- The loop of `submitTorrent` of dsh-tool-acquisition/src/acquire.ts that polls a backend.
use deepseek_harness_web3_ag.Prelude.{
  ℕ, zero, suc, ◌-◌, Bool, true, false, Option, none, some, Text, leb, if◌then◌else◌,
}
use deepseek_harness_web3_ag.Acquisition.Store.{
  queued, downloading, completed, failed, missing, TorrentClientName, StoredAcquisition,
}
use deepseek_harness_web3_ag.Acquisition.Acquire.Outside.{
  BackendStatus, Outside, Action, ok, stuck, pure, call, read_clock, put_record, ◌>>=◌, ◌>>◌,
}
use deepseek_harness_web3_ag.Acquisition.Acquire.Status.{
  Library, AcquireServiceOptions, AcquireResult, render, finalize, give_up,
}

module _ (O : Outside) (library : Library) (options : AcquireServiceOptions) where
  -- `Math.min(pollIntervalMs, Math.max(0, deadline - Date.now()))`
  abbrev pub pause : ℕ → ℕ → ℕ
  pause deadline now =
      if leb options.poll_interval_ms (deadline - now)
      then options.poll_interval_ms
      else deadline - now

  -- What follows a pause.
  abbrev pub woken :
      (StoredAcquisition → Action O AcquireResult)
      → StoredAcquisition
      → Bool × O.W
      → Action O AcquireResult
  woken next r (true, w) s = next r (record s { outside = w })
  woken next r (false, w) s = (ok (render r), record s { outside = w })

  abbrev pub sleep_on :
      (StoredAcquisition → Action O AcquireResult) → ℕ → StoredAcquisition → Action O AcquireResult
  sleep_on next deadline r = do
    now ← read_clock
    λ s. woken next r (O.sleep (pause deadline now) s.outside) s

  abbrev pub unless_late :
      (StoredAcquisition → Action O AcquireResult)
      → ℕ
      → StoredAcquisition
      → ℕ
      → Action O AcquireResult
  unless_late next deadline r now =
      if leb deadline now then pure (render r) else sleep_on next deadline r

  abbrev pub noted : StoredAcquisition → BackendStatus → ℕ → StoredAcquisition
  noted r current now = record r {
    state = current.state;
    progress = current.progress;
    updated_at = now;
  }

  -- The download is not done: the record is kept, and the loop goes on until the deadline.
  unfoldable pub wait_on :
      (StoredAcquisition → Action O AcquireResult)
      → ℕ
      → StoredAcquisition
      → BackendStatus
      → Action O AcquireResult
  wait_on next deadline r current = do
    now ← read_clock
    put_record (noted r current now)
    later ← read_clock
    unless_late next deadline (noted r current now) later

  abbrev pub arrived :
      (StoredAcquisition → Action O AcquireResult)
      → ℕ
      → StoredAcquisition
      → BackendStatus
      → Option Text
      → Action O AcquireResult
  arrived next deadline r current none = wait_on next deadline r current
  arrived next deadline r current (some path) = finalize O library options r path

  unfoldable pub observed :
      (StoredAcquisition → Action O AcquireResult)
      → ℕ
      → StoredAcquisition
      → BackendStatus
      → Action O AcquireResult
  observed next deadline r current = elim current.state [
    | completed ↦ arrived next deadline r current current.content_path
    | failed ↦ give_up O library options r current
    | missing ↦ give_up O library options r current
    | queued ↦ wait_on next deadline r current
    | downloading ↦ wait_on next deadline r current
  ]

  -- The loop of `submitTorrent` that polls until the deadline.
  unfoldable pub poll : ℕ → TorrentClientName → ℕ → StoredAcquisition → Action O AcquireResult
  poll zero name deadline r s = (stuck, s)
  poll (suc fuel) name deadline r s =
      (do
        current ← call (O.status name r.handle)
        observed (poll fuel name deadline) deadline r current)
        s

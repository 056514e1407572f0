-- ===== src/Acquisition/Acquire/Torrents.antt =====
-- `resolveExisting` and `submitTorrent` of dsh-tool-acquisition/src/acquire.ts, from their parts.
use deepseek_harness_web3_ag.Prelude.{ℕ, suc, ◌+◌, true, Option, none, some, List, [], ◌∷◌, Text}
use deepseek_harness_web3_ag.Acquisition.Store.{
  completed, missing, TorrentClientName, Handle, StoredAcquisition,
}
use deepseek_harness_web3_ag.Acquisition.Acquire.Outside.{
  no_backend, acquisition, TorrentPayload, Outside, Action, pure, throw, read_clock, put_record,
  look_up, ◌>>=◌, ◌>>◌,
}
use deepseek_harness_web3_ag.Acquisition.Acquire.Status.{
  Library, AcquireServiceOptions, AcquireResult, render, fault, make_backend, status,
}
use deepseek_harness_web3_ag.Acquisition.Acquire.Clients.{
  Submission, Attempt, accepted, exhausted, first_record, torrent_key_for, try_clients,
}
use deepseek_harness_web3_ag.Acquisition.Acquire.Poll.{poll}

module _ (O : Outside) (library : Library) (options : AcquireServiceOptions) where
  -- `resolveExisting`
  abbrev pub again : AcquireResult → Option AcquireResult
  again r = elim r.state [ missing ↦ none | _ ↦ some r ]

  abbrev pub refreshed : StoredAcquisition → Action O (Option AcquireResult)
  refreshed r = status O library options r.id >>= (λ result. pure (again result))

  unfoldable pub resolve_existing : Option StoredAcquisition → Action O (Option AcquireResult)
  resolve_existing none = pure none
  resolve_existing (some r) = elim r.state [ completed ↦ pure (some (render r)) | _ ↦ refreshed r ]

  -- Polls a recorded torrent until `wait` milliseconds have passed.
  unfoldable pub watch : ℕ → TorrentClientName → StoredAcquisition → Action O AcquireResult
  watch wait name r = do start ← read_clock; poll O library options (suc wait) name (start + wait) r

  unfoldable pub record_and_watch :
      Submission → ℕ → TorrentClientName → Handle → Action O AcquireResult
  record_and_watch sub wait name handle = do
    now ← read_clock
    put_record (first_record sub name handle now none)
    watch wait name (first_record sub name handle now none)

  -- What follows the loop over the clients.
  unfoldable pub follow : Submission → ℕ → Attempt → Action O AcquireResult
  follow sub wait (accepted name handle) =
      make_backend O library options name >> record_and_watch sub wait name handle
  follow sub wait (exhausted (some e)) = throw (acquisition e)
  follow sub wait (exhausted none) = throw (fault no_backend true)

  unfoldable pub find_existing : Option Text → Action O (Option AcquireResult)
  find_existing none = pure none
  find_existing (some key) = look_up key >>= resolve_existing

  abbrev pub unless_found : Submission → ℕ → Option AcquireResult → Action O AcquireResult
  unless_found sub wait (some found) = pure found
  unless_found sub wait none =
      try_clients O library options sub none options.torrent_clients >>= follow sub wait

  abbrev pub submission : Text → TorrentPayload → Text → Option Text → Submission
  submission id payload title alias = record {
    id = id;
    payload = payload;
    title = title;
    content_key = torrent_key_for library.xt payload;
    alias_key = alias;
  }

  abbrev pub with_clients : Submission → ℕ → List TorrentClientName → Action O AcquireResult
  with_clients sub wait [] = throw (fault no_backend true)
  with_clients sub wait (name ∷ names) = find_existing sub.content_key >>= unless_found sub wait

  unfoldable pub submit_torrent :
      Text → TorrentPayload → Text → ℕ → Option Text → Action O AcquireResult
  submit_torrent id payload title wait alias =
      with_clients (submission id payload title alias) wait options.torrent_clients

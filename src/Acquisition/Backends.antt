-- ===== src/Acquisition/Backends.antt =====
-- A torrent handed to one of the two clients by the loop of `submitTorrent` in
-- dsh-tool-acquisition/src/acquire.ts.
mod Tests
use deepseek_harness_web3_ag.Prelude.{◌≡◌, refl, ◌≢◌, ◌⊎◌, Bool, false, none, [], Text}
use deepseek_harness_web3_ag.Acquisition.Store.{
  TorrentClientName, qbittorrent, transmission, Handle,
}
use deepseek_harness_web3_ag.Acquisition.Acquire.Outside.{
  AcquisitionError, Thrown, acquisition, Answer, broke, TorrentPayload,
}
use deepseek_harness_web3_ag.Acquisition.Acquire.Status.{Library}
use deepseek_harness_web3_ag.Acquisition.Client.Clean.{is_definite}
use deepseek_harness_web3_ag.Acquisition.Qbittorrent as Q
use deepseek_harness_web3_ag.Acquisition.Qbittorrent.Protocol.{QbittorrentOptions, Server}
use deepseek_harness_web3_ag.Acquisition.Qbittorrent.Refused as QR
use deepseek_harness_web3_ag.Acquisition.Transmission as T
use deepseek_harness_web3_ag.Acquisition.Transmission.{TransmissionOptions, Daemon}
use deepseek_harness_web3_ag.Acquisition.Transmission.Refused as TR

module _ (S : Server) (D : Daemon) (q_options : QbittorrentOptions)
    (t_options : TransmissionOptions) (library : Library) where
  -- What is behind the two clients.
  pub record Servers : Type 0 where
    pub q : S.W
    pub t : D.W

  abbrev new_q : S.W → Q.Client S q_options
  new_q w = record { logged_in = false; cookie = none; outside = w }

  abbrev new_t : D.W → T.Client D
  new_t w = record { session_id = []; outside = w }

  -- `this.makeBackend(name)`, which makes a new client, and its `submit`.
  unfoldable pub submit_to :
      TorrentClientName → TorrentPayload → Text → Servers → Answer Handle × Servers
  submit_to qbittorrent payload label w =
      let (r, c) = Q.submit S q_options library payload label (new_q w.q) in
      (r, record w { q = c.outside })
  submit_to transmission payload label w =
      let (r, c) = T.submit D t_options library payload label (new_t w.t) in
      (r, record w { t = c.outside })

  module _ (has_q : S.W → Bool) (has_t : D.W → Bool) where
    -- Which of them holds the torrent.
    abbrev pub held : Servers → TorrentClientName → Bool
    held w qbittorrent = has_q w.q
    held w transmission = has_t w.t

    elsewhere :
        (n m : TorrentClientName) (payload : TorrentPayload) (label : Text) (w : Servers)
        → m ≢ n
        → held (submit_to n payload label w).1 m ≡ held w m
    unfolding submit_to
    elsewhere qbittorrent qbittorrent payload label w d = absurd (d refl)
    elsewhere qbittorrent transmission payload label w d = refl
    elsewhere transmission qbittorrent payload label w d = refl
    elsewhere transmission transmission payload label w d = absurd (d refl)

    -- Over a qBittorrent that does not queue what it turns down by 400, 401, 403 or 415 or answers by `Fails.`,
    -- and a Transmission that does not queue what it turns down by 401 or 409 or answers by no success, and
    -- names the hash of what it queues, where a login queues nothing and neither queues what does not reach
    -- it, and after other error statuses either may hold the torrent or not: a submission that throws, through either client,
    -- leaves the other backend as it was and throws a classified error; and where that is permanent or from
    -- before the queue, its own backend holds the torrent as before, too.
    pub submit_to_refuses :
        (n m : TorrentClientName) (payload : TorrentPayload) (label : Text) (w : Servers)
        (x : Thrown)
        → QR.Queues S has_q
        → TR.Queues D has_t t_options
        → m ≢ n
        → (submit_to n payload label w).0 ≡ broke x
        → (held (submit_to n payload label w).1 m ≡ held w m)
          × (e : AcquisitionError) × (x ≡ acquisition e)
          × ((is_definite e ≡ false) ⊎ (held (submit_to n payload label w).1 n ≡ held w n))
    unfolding submit_to
    submit_to_refuses qbittorrent m payload label w x q_queues t_queues d e =
        let (error, same, clean) =
          QR.submit_fails_cleanly S has_q q_options library payload label (new_q w.q) x q_queues
            e in
        (elsewhere qbittorrent m payload label w d, error, same, clean)
    submit_to_refuses transmission m payload label w x q_queues t_queues d e =
        let (error, same, clean) =
          TR.submit_stays_clean D has_t t_options library payload label (new_t w.t) x t_queues e in
        (elsewhere transmission m payload label w d, error, same, clean)

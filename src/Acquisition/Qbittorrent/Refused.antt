-- ===== src/Acquisition/Qbittorrent/Refused.antt =====
-- What a failed submission of dsh-tool-acquisition/src/qbittorrent.ts leaves at the server.
use deepseek_harness_web3_ag.Prelude.{
  ℕ, ltb, ◌≡◌, refl, sym, ◌∙◌, ap, ◌⊎◌, Bool, true, false, not, ◌&&◌, ◌||◌, Option, none, some, [],
  List, Text, leb, ◌==◌, arith, text_eq, codes,
}
use deepseek_harness_web3_ag.Acquisition.Acquire.Outside.{
  backend_error, AcquisitionError, Thrown, acquisition, other, Answer, gave, broke, TorrentPayload,
}
use deepseek_harness_web3_ag.Acquisition.Acquire.Status.{Library}
use deepseek_harness_web3_ag.Acquisition.Acquire.Clients.{is_definite_pre_queue}
use deepseek_harness_web3_ag.Acquisition.Client.{Added, error_of}
use deepseek_harness_web3_ag.Acquisition.Client.Clean.{
  is_definite, Ends, if-Ends, failed-Ends, Classified, prepare-Classified,
}
use deepseek_harness_web3_ag.Acquisition.Qbittorrent.{
  Client, is_missing, login, logged, attempted, again, send, call, accepted, submit_prepared,
  submit,
}
use deepseek_harness_web3_ag.Acquisition.Qbittorrent.Protocol.{
  QbittorrentOptions, Server, Response, Fetched, responded, unanswered, AddForm, torrents_add,
  auth_login, authorized, says_fails, body_of,
}

-- The statuses by which a server turns a request down before it acts on it. Any other error, a 5xx above
-- all, may come after the torrent was queued.
abbrev pub declines : ℕ → Bool
declines status = status == 400 || status == 401 || (status == 403 || status == 415)

module _ (S : Server) (has : S.W → Bool) where
  -- How the server behaves, where `has` tells whether it holds the torrent: a login queues nothing; a
  -- torrent that is turned down by 400, 401, 403 or 415, or answered by `Fails.`, is not queued, and neither
  -- is one whose request did not reach the server. Nothing is said of other error statuses.
  pub record Queues : Type 0 where
    pub logging_in :
        (user password : Text) (w : S.W) → has (S.fetch (auth_login user password) w).1 ≡ has w
    pub rejecting :
        (cookie : Option Text) (form : AddForm) (w : S.W) (r : Response)
        → (S.fetch (authorized cookie (torrents_add form)) w).0 ≡ responded r
        → (declines r.status || ltb r.status 400 && says_fails r) ≡ true
        → has (S.fetch (authorized cookie (torrents_add form)) w).1 ≡ has w
    pub unsent :
        (cookie : Option Text) (form : AddForm) (w : S.W) (chain : List (Option Text))
        → (S.fetch (authorized cookie (torrents_add form)) w).0 ≡ unanswered chain
        → is_definite_pre_queue (error_of backend_error false chain) ≡ true
        → has (S.fetch (authorized cookie (torrents_add form)) w).1 ≡ has w

  module _ (options : QbittorrentOptions) (queues : Queues) (h : Bool) where
    abbrev held : Client S options → Bool
    held s = has s.outside

    abbrev There : Client S options → Type 0
    There s = held s ≡ h

    logged-Ends :
        (p : Fetched × S.W) (s : Client S options)
        → has p.1 ≡ h
        → Ends held h (λ _. There) (logged S options p s)
    logged-Ends (unanswered chain, w) s same = λ _. same
    logged-Ends (responded r, w) s same =
        if-Ends held h (λ _. There) (r.status == 403) _ _ (λ _ _. same)
          (λ _.
            if-Ends held h (λ _. There)
              (not (r.status == 200) || not (text_eq (body_of r) (codes "Ok."))) _ _ (λ _ _. same)
              (λ _. same))

    login-Ends : (s : Client S options) → There s → Ends held h (λ _. There) (login S options s)
    unfolding login
    login-Ends s same =
        if-Ends held h (λ _. There) (text_eq options.username [] && text_eq options.password []) _ _
          (λ _. same)
          (λ _.
            logged-Ends (S.fetch (auth_login options.username options.password) s.outside) s
              (queues.logging_in options.username options.password s.outside ∙ same))

    abbrev Kept : Response → Client S options → Type 0
    Kept r s = says_fails r ≡ true → There s

    -- What is known of a request that adds a torrent.
    abbrev Sound : Fetched × S.W → Type 0
    Sound (responded r, w) =
        (declines r.status || ltb r.status 400 && says_fails r) ≡ true → has w ≡ h
    Sound (unanswered chain, w) =
        is_definite_pre_queue (error_of backend_error false chain) ≡ true → has w ≡ h

    fetch-Sound :
        (cookie : Option Text) (form : AddForm) (w : S.W) (p : Fetched × S.W)
        → has w ≡ h
        → S.fetch (authorized cookie (torrents_add form)) w ≡ p
        → Sound p
    fetch-Sound cookie form w (responded r, w') same e = λ refused.
        ap (λ q. has q.1) (sym e)
        ∙ queues.rejecting cookie form w r (ap (λ q. q.0) e) refused
        ∙ same
    fetch-Sound cookie form w (unanswered chain, w') same e = λ definite.
        ap (λ q. has q.1) (sym e)
        ∙ queues.unsent cookie form w chain (ap (λ q. q.0) e) definite
        ∙ same

    again-Ends :
        (next : Client S options → Answer Response × Client S options)
        (p : Answer (Unit {0}) × Client S options)
        → ((s : Client S options) → There s → Ends held h Kept (next s))
        → Ends held h (λ _. There) p
        → Ends held h Kept (again S options next p)
    again-Ends next (gave _, s) rest there = rest s there
    again-Ends next (broke (acquisition e), s) rest clean = clean
    again-Ends next (broke (other t), s) rest clean = clean

    last-Ends :
        (s : Client S options) (p : Fetched × S.W)
        → Sound p
        → Ends held h Kept (attempted S options none s p)
    unfolding is_definite_pre_queue
    last-Ends s (unanswered chain, w) sound = sound
    last-Ends s (responded r, w) sound =
        if-Ends held h Kept (leb 400 r.status) _ _ (λ e definite. sound (ground arith))
          (λ e fails. sound (ground arith))

    first-Ends :
        (next : Client S options → Answer Response × Client S options)
        → ((s : Client S options) → There s → Ends held h Kept (next s))
        → (s : Client S options) (p : Fetched × S.W) → Sound p
        → Ends held h Kept (attempted S options (some next) s p)
    first-Ends next rest s (unanswered chain, w) sound = sound
    first-Ends next rest s (responded r, w) sound =
        if-Ends held h Kept (r.status == 403) _ _
          (λ e. again-Ends next (login S options _) rest (login-Ends _ (sound (ground arith))))
          (λ _. last-Ends s (responded r, w) sound)

    send-Ends :
        (form : AddForm) (s : Client S options)
        → There s
        → Ends held h Kept
            (send S options (some (send S options none (torrents_add form))) (torrents_add form) s)
    send-Ends form s same =
        first-Ends _
          (λ s' same'. last-Ends s' _ (fetch-Sound s'.cookie form s'.outside _ same' refl)) s
          (S.fetch (authorized s.cookie (torrents_add form)) s.outside)
          (fetch-Sound s.cookie form s.outside _ same refl)

    call-Ends :
        (form : AddForm) (s : Client S options)
        → There s
        → Ends held h Kept (call S options (torrents_add form) s)
    unfolding call
    call-Ends form s same =
        if-Ends held h Kept s.logged_in _ _ (λ _. send-Ends form s same)
          (λ _. again-Ends _ (login S options s) (send-Ends form) (login-Ends s same))

    accepted-Ends :
        (library : Library) (hash : Option Text) (label : Text)
        (p : Answer Response × Client S options)
        → Ends held h Kept p
        → Ends held h (λ _ _. Unit {0}) (accepted S options library hash label p)
    accepted-Ends library hash label (broke (acquisition e), s) clean = clean
    accepted-Ends library hash label (broke (other t), s) clean = clean
    accepted-Ends library hash label (gave r, s) kept =
        if-Ends held h (λ _ _. Unit {0}) (says_fails r && is_missing S options library hash) _ _
          (λ both _. kept (ground arith)) (λ _. tt)

    submit_prepared-Ends :
        (library : Library) (label : Text) (x : Answer (Option Text × Added)) (s : Client S options)
        → Classified x
        → There s
        → Ends held h (λ _ _. Unit {0}) (submit_prepared S options library label x s)
    submit_prepared-Ends library label (broke (acquisition e)) s c same = λ _. same
    submit_prepared-Ends library label (broke (other t)) s c same = c
    submit_prepared-Ends library label (gave (hash, added)) s c same =
        accepted-Ends library hash label (call S options (torrents_add _) s) (call-Ends _ s same)

    submit-Ends :
        (library : Library) (payload : TorrentPayload) (label : Text) (s : Client S options)
        → There s
        → Ends held h (λ _ _. Unit {0}) (submit S options library payload label s)
    unfolding submit
    submit-Ends library payload label s same =
        submit_prepared-Ends library label _ s
          (prepare-Classified library payload.info_hash payload.torrent payload.magnet) same

-- Over a server that queues no torrent in a login, none that it turns down by 400, 401, 403 or 415 or
-- answers by `Fails.`, and none whose request did not reach it, while after any other error status it may
-- hold the torrent or not: a submission that throws throws a classified error, and where
-- that is permanent or from before the queue, the server holds the torrent afterwards as it did before.
pub submit_fails_cleanly :
    (S : Server) (has : S.W → Bool) (options : QbittorrentOptions) (library : Library)
    (payload : TorrentPayload) (label : Text) (s : Client S options) (x : Thrown)
    → Queues S has
    → (submit S options library payload label s).0 ≡ broke x
    → (e : AcquisitionError) × (x ≡ acquisition e)
      × ((is_definite e ≡ false)
          ⊎ (has (submit S options library payload label s).1.outside ≡ has s.outside))
submit_fails_cleanly S has options library payload label s x queues e =
    failed-Ends (λ c. has c.outside) (has s.outside) (λ _ _. Unit {0}) _
      (submit-Ends S has options queues (has s.outside) library payload label s refl) x e

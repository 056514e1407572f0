-- ===== src/Acquisition/Transmission/Refused.antt =====
-- What a failed submission of dsh-tool-acquisition/src/transmission.ts leaves at the daemon, and which
-- torrents its status does not find.
use deepseek_harness_web3_ag.Prelude.{
  ℕ, ltb, ◌&&◌, ◌≡◌, refl, sym, ◌∙◌, ap, ◌⊎◌, Bool, true, false, not, ◌||◌, Option, none, some, [],
  List, Text, text_eq, leb, ◌==◌, arith,
}
use deepseek_harness_web3_ag.Acquisition.Texts.{to_lower}
use deepseek_harness_web3_ag.Acquisition.Acquire.Outside.{
  backend_error, AcquisitionError, Thrown, acquisition, other, Answer, gave, broke, TorrentPayload,
}
use deepseek_harness_web3_ag.Acquisition.Acquire.Status.{Library}
use deepseek_harness_web3_ag.Acquisition.Acquire.Clients.{is_definite_pre_queue}
use deepseek_harness_web3_ag.Acquisition.Client.{Added, error_of}
use deepseek_harness_web3_ag.Acquisition.Client.Clean.{
  is_definite, Ends, if-Ends, failed-Ends, Classified, prepare-Classified,
}
use deepseek_harness_web3_ag.Acquisition.Transmission.{
  TransmissionOptions, Daemon, Client, AddArguments, Method, torrent_add, Reply, Response, Fetched,
  responded, unanswered, is_success, read_reply, attempted, send, unnegotiated, rpc, reported,
  first_of, or_hash, accepted, submit_prepared, submit,
}

-- A reply that is no success, or names no hash.
abbrev pub rejects : Method → Option Reply → Bool
rejects method none = false
rejects method (some reply) = not (is_success method reply) || text_eq (reported none reply) []

-- The statuses by which the daemon turns a request down before it acts on it: it wants another session, or
-- other credentials. Any other error may come after the torrent was queued.
abbrev pub declines : ℕ → Bool
declines status = status == 401 || status == 409

module _ (D : Daemon) (has : D.W → Bool) (options : TransmissionOptions) where
  -- How the daemon behaves, where `has` tells whether it holds the torrent: it does not queue what it
  -- turns down by 401 or 409 or answers by a reply that is no success, and names the hash of what it queues; a
  -- torrent is not queued either whose request did not reach it.
  pub record Queues : Type 0 where
    pub rejecting :
        (session : Text) (arguments : AddArguments) (w : D.W) (r : Response)
        → (D.fetch session (torrent_add arguments) w).0 ≡ responded r
        → (declines r.status || ltb r.status 400 && rejects (torrent_add arguments) r.json) ≡ true
        → has (D.fetch session (torrent_add arguments) w).1 ≡ has w
    pub unsent :
        (session : Text) (arguments : AddArguments) (w : D.W) (chain : List (Option Text))
        → (D.fetch session (torrent_add arguments) w).0 ≡ unanswered chain
        → is_definite_pre_queue (error_of backend_error false chain) ≡ true
        → has (D.fetch session (torrent_add arguments) w).1 ≡ has w

  module _ (queues : Queues) (h : Bool) where
    abbrev held : Client D → Bool
    held s = has s.outside

    -- What is known of the reply to a request that adds a torrent.
    abbrev Kept : Method → Reply → Client D → Type 0
    Kept method reply s = rejects method (some reply) ≡ true → held s ≡ h

    abbrev Sound : Method → Fetched × D.W → Type 0
    Sound method (responded r, w) =
        (declines r.status || ltb r.status 400 && rejects method r.json) ≡ true → has w ≡ h
    Sound method (unanswered chain, w) =
        is_definite_pre_queue (error_of backend_error false chain) ≡ true → has w ≡ h

    fetch-Sound :
        (session : Text) (arguments : AddArguments) (w : D.W) (p : Fetched × D.W)
        → has w ≡ h
        → D.fetch session (torrent_add arguments) w ≡ p
        → Sound (torrent_add arguments) p
    fetch-Sound session arguments w (responded r, w') same e = λ refused.
        ap (λ q. has q.1) (sym e)
        ∙ queues.rejecting session arguments w r (ap (λ q. q.0) e) refused
        ∙ same
    fetch-Sound session arguments w (unanswered chain, w') same e = λ definite.
        ap (λ q. has q.1) (sym e)
        ∙ queues.unsent session arguments w chain (ap (λ q. q.0) e) definite
        ∙ same

    read_reply-Ends :
        (method : Method) (json : Option Reply) (s : Client D)
        → (rejects method json ≡ true → held s ≡ h)
        → Ends held h (Kept method) (read_reply D method json s)
    unfolding is_definite_pre_queue
    read_reply-Ends method none s kept = λ definite. absurd (ground arith)
    read_reply-Ends method (some reply) s kept =
        if-Ends held h (Kept method) (is_success method reply) _ _ (λ _. kept)
          (λ e _. kept (rw e refl))

    attempted-Ends :
        (retry : Client D → Answer Reply × Client D) (method : Method)
        → ((s : Client D) → held s ≡ h → Ends held h (Kept method) (retry s))
        → (s : Client D) (p : Fetched × D.W) → Sound method p
        → Ends held h (Kept method) (attempted D retry method s p)
    unfolding is_definite_pre_queue
    attempted-Ends retry method rest s (unanswered chain, w) sound = sound
    attempted-Ends retry method rest s (responded r, w) sound =
        if-Ends held h (Kept method) (r.status == 409) _ _ (λ e. rest _ (sound (ground arith)))
          (λ _.
            if-Ends held h (Kept method) (r.status == 401) _ _ (λ e _. sound (ground arith))
              (λ _.
                if-Ends held h (Kept method) (leb 400 r.status) _ _
                  (λ e definite. absurd (ground arith))
                  (λ e. read_reply-Ends method r.json _ (λ rejected. sound (ground arith)))))

    rpc-Ends :
        (arguments : AddArguments) (s : Client D)
        → held s ≡ h
        → Ends held h (Kept (torrent_add arguments)) (rpc D (torrent_add arguments) s)
    unfolding rpc
    rpc-Ends arguments s same =
        attempted-Ends (send D (unnegotiated D) method) method second s
          (D.fetch s.session_id method s.outside)
          (fetch-Sound s.session_id arguments s.outside _ same refl)
      where
        method : Method
        method = torrent_add arguments

        second :
            (s' : Client D)
            → held s' ≡ h
            → Ends held h (Kept method) (send D (unnegotiated D) method s')
        second s' same' =
            attempted-Ends (unnegotiated D) method (λ _ there _. there) s'
              (D.fetch s'.session_id method s'.outside)
              (fetch-Sound s'.session_id arguments s'.outside _ same' refl)

    -- Where a hash is known, it is no worse than what the reply names.
    no_hash :
        (x : Option Text) (hash : Option Text)
        → text_eq (to_lower (or_hash x hash)) [] ≡ true
        → text_eq (to_lower (or_hash x none)) [] ≡ true
    no_hash none hash e = refl
    no_hash (some t) hash e = e

    accepted-Ends :
        (arguments : AddArguments) (hash : Option Text) (label : Text) (p : Answer Reply × Client D)
        → Ends held h (Kept (torrent_add arguments)) p
        → Ends held h (λ _ _. Unit {0}) (accepted D options hash label p)
    accepted-Ends arguments hash label (broke (acquisition e), s) clean = clean
    accepted-Ends arguments hash label (broke (other t), s) clean = clean
    accepted-Ends arguments hash label (gave reply, s) kept =
        if-Ends held h (λ _ _. Unit {0}) (text_eq (reported hash reply) []) _ _
          (λ e _. kept (
            rw (no_hash (first_of reply.torrent_added reply.torrent_duplicate) hash e)
              (ground arith)))
          (λ _. tt)

    submit_prepared-Ends :
        (library : Library) (label : Text) (x : Answer (Option Text × Added)) (s : Client D)
        → Classified x
        → held s ≡ h
        → Ends held h (λ _ _. Unit {0}) (submit_prepared D options library label x s)
    submit_prepared-Ends library label (broke (acquisition e)) s c same = λ _. same
    submit_prepared-Ends library label (broke (other t)) s c same = c
    submit_prepared-Ends library label (gave (hash, added)) s c same =
        accepted-Ends _ hash label (rpc D (torrent_add _) s) (rpc-Ends _ s same)

    submit-Ends :
        (library : Library) (payload : TorrentPayload) (label : Text) (s : Client D)
        → held s ≡ h
        → Ends held h (λ _ _. Unit {0}) (submit D options library payload label s)
    unfolding submit
    submit-Ends library payload label s same =
        submit_prepared-Ends library label _ s
          (prepare-Classified library payload.info_hash payload.torrent payload.magnet) same

-- Over a daemon that does not queue what it turns down by 401 or 409 or answers by a reply that is no success,
-- names the hash of what it queues, and does not queue what does not reach it: a submission that throws
-- throws a classified error, and where that is permanent or from before the queue, the daemon holds the
-- torrent afterwards as it did before.
pub submit_stays_clean :
    (D : Daemon) (has : D.W → Bool) (options : TransmissionOptions) (library : Library)
    (payload : TorrentPayload) (label : Text) (s : Client D) (x : Thrown)
    → Queues D has options
    → (submit D options library payload label s).0 ≡ broke x
    → (e : AcquisitionError) × (x ≡ acquisition e)
      × ((is_definite e ≡ false)
          ⊎ (has (submit D options library payload label s).1.outside ≡ has s.outside))
submit_stays_clean D has options library payload label s x queues e =
    failed-Ends (λ c. has c.outside) (has s.outside) (λ _ _. Unit {0}) _
      (submit-Ends D has options queues (has s.outside) library payload label s refl) x e

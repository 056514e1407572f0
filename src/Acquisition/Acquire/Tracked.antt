-- ===== src/Acquisition/Acquire/Tracked.antt =====
-- A torrent is handed to one backend at most, and what a backend holds is on record: the submission of
-- dsh-tool-acquisition/src/acquire.ts over backends that behave as documented.
use deepseek_harness_web3_ag.Prelude.{
  ℕ, ◌≡◌, refl, subst, ◌∙◌, ◌≢◌, ◌⊎◌, Bool, true, false, ◌||◌, Option, some, List, [], Text,
  text_eq_refl, arith,
}
use deepseek_harness_web3_ag.Prelude.Maps.{Dict}
use deepseek_harness_web3_ag.Acquisition.Store.{
  missing, TorrentClientName, client, Handle, StoredAcquisition, File, absent, unreadable, foreign,
  holds, load, put, find,
}
use deepseek_harness_web3_ag.Acquisition.Store.Live.{find-put}
use deepseek_harness_web3_ag.Acquisition.Acquire.Outside.{
  Outside, World, AcquisitionError, acquisition, other, gave, broke, BackendStatus, Result, Action,
  ok, threw, stuck, write_failed, continue, ◌>>◌, saved, put_record,
}
use deepseek_harness_web3_ag.Acquisition.Acquire.Status.{Library}
use deepseek_harness_web3_ag.Acquisition.Acquire.Clients.{
  Submission, label_of, probe_handle, is_definite_pre_queue,
}
use deepseek_harness_web3_ag.Acquisition.Acquire.Stays.{Identity, identity, Stays, Kept}

abbrev pub Readable : File → Type 0
Readable f = (records : Dict StoredAcquisition) × (load f ≡ some records)

-- A readable store takes a record, and finds it.
pub put_succeeds :
    (r : StoredAcquisition) (f : File)
    → Readable f
    → (f' : File) × (put r f ≡ some f') × Readable f' × (find r.id f' ≡ some (some r))
unfolding put load find
put_succeeds r f (records, e) =
    let (w, _, put_ok, _, here, _) = find-put r r.id r.id f records e in
    (w, put_ok, readable w (some r) (here ∙ rw (text_eq_refl r.id)), here ∙ rw (text_eq_refl r.id))
  where
    readable : (g : File) (x : Option StoredAcquisition) → find r.id g ≡ some x → Readable g
    readable absent x h = ([], refl)
    readable unreadable x h = absurd (ground arith)
    readable foreign x h = ([], refl)
    readable (holds m) x h = (m, refl)

pub find-Readable :
    (id : Text) (f : File) (x : Option StoredAcquisition) → find id f ≡ some x → Readable f
unfolding find load
find-Readable id absent x h = ([], refl)
find-Readable id unreadable x h = absurd (ground arith)
find-Readable id foreign x h = ([], refl)
find-Readable id (holds m) x h = (m, refl)

-- The call threw the error of a failed write.
abbrev pub WriteFailed : {A : Type 0} → Result A → Type 0
WriteFailed (ok a) = ⊥
WriteFailed (threw e) = e ≡ write_failed
WriteFailed stuck = ⊥

module _ (O : Outside) (library : Library) (sub : Submission)
    (has : O.W → TorrentClientName → Bool) where
  -- What is documented of the backends, where `has` tells which of them hold the torrent. A submission
  -- reaches no other backend, and does not reach its own where it fails permanently or before anything
  -- was sent; it throws classified errors only. Asking, waiting, writing the store and importing queue
  -- nothing, and a backend that knows nothing of a torrent does not hold it, which Transmission promises
  -- only where the info-hash is known.
  pub record Documented : Type 0 where
    pub elsewhere :
        (n m : TorrentClientName) (w : O.W)
        → m ≢ n
        → has (O.submit n sub.payload (label_of sub) w).1 m ≡ has w m
    pub refused :
        (n : TorrentClientName) (w : O.W) (e : AcquisitionError)
        → (O.submit n sub.payload (label_of sub) w).0 ≡ broke (acquisition e)
        → (e.permanent || is_definite_pre_queue e) ≡ true
        → has (O.submit n sub.payload (label_of sub) w).1 n ≡ has w n
    pub classified :
        (n : TorrentClientName) (w : O.W) (t : Text)
        → (O.submit n sub.payload (label_of sub) w).0 ≢ broke (other t)
    pub asking :
        (n m : TorrentClientName) (h : Handle) (w : O.W) → has (O.status n h w).1 m ≡ has w m
    pub gone :
        (n : TorrentClientName) (w : O.W) (current : BackendStatus)
        → (O.status n (probe_handle library.xt sub.payload (label_of sub)) w).0 ≡ gave current
        → current.state ≡ missing
        → has w n ≡ false
    pub clock : (m : TorrentClientName) (w : O.W) → has (O.now w).1 m ≡ has w m
    pub saving : (m : TorrentClientName) (w : O.W) → has (O.save w).1 m ≡ has w m
    pub sleeping : (m : TorrentClientName) (ms : ℕ) (w : O.W) → has (O.sleep ms w).1 m ≡ has w m
    pub importing :
        (m : TorrentClientName) (paths : List Text) (dir : Text) (root : Option Text) (w : O.W)
        → has (O.import_files paths dir root w).1 m ≡ has w m

  -- No backend holds the torrent, and the store can be read.
  abbrev pub Nowhere : World O → Type 0
  Nowhere s = ((m : TorrentClientName) → has s.outside m ≡ false) × Readable s.store

  -- No backend but the named one holds the torrent.
  abbrev pub Alone : TorrentClientName → World O → Type 0
  Alone name s = (m : TorrentClientName) → m ≢ name → has s.outside m ≡ false

  -- And the record of the submission names it.
  abbrev pub OnRecord : TorrentClientName → World O → Type 0
  OnRecord name s =
      Alone name s
      × (r : StoredAcquisition) × (find sub.id s.store ≡ some (some r))
      × (r.backend ≡ client name)

  -- No backend holds the torrent, or one at most, which is on record unless the call threw the error of a
  -- failed write.
  abbrev pub Tracked : {A : Type 0} → Result A × World O → Type 0
  Tracked p =
      ((m : TorrentClientName) → has p.1.outside m ≡ false)
      ⊎ ((name : TorrentClientName) × (OnRecord name p.1 ⊎ (Alone name p.1 × WriteFailed p.0)))

  -- What is true of a written record.
  abbrev pub Ours : TorrentClientName → Identity → Type 0
  Ours name i = (i.id ≡ sub.id) × (i.backend ≡ client name)

  module _ (documented : Documented) where
    saved-Nowhere :
        (s : World O) (f : File) (x : Bool × O.W)
        → ((m : TorrentClientName) → has x.1 m ≡ false)
        → Readable s.store
        → Readable f
        → Nowhere (saved s f x).1
    saved-Nowhere s f (true, w) none_has old new = (none_has, new)
    saved-Nowhere s f (false, w) none_has old new = (none_has, old)

    Nowhere-put : (r : StoredAcquisition) → Stays {O = O} Nowhere (put_record r)
    Nowhere-put r s (none_has, readable) =
        let (f, e, again, _) = put_succeeds r s.store readable in
        rw e (
          saved-Nowhere s f (O.save s.outside) (λ m. documented.saving m s.outside ∙ none_has m)
            readable again)

    pub Nowhere-Kept : Kept {O = O} Nowhere (λ _. Unit {0})
    Nowhere-Kept = record {
      clock = λ s h. ((λ m. documented.clock m s.outside ∙ h.0 m), h.1);
      asked = λ n q s h. ((λ m. documented.asking n m q s.outside ∙ h.0 m), h.1);
      imported = λ p d t s h. ((λ m. documented.importing m p d t s.outside ∙ h.0 m), h.1);
      slept = λ ms s h. ((λ m. documented.sleeping m ms s.outside ∙ h.0 m), h.1);
      written = λ r _. Nowhere-put r;
    }

    saved-OnRecord :
        (name : TorrentClientName) (s : World O) (f : File) (x : Bool × O.W)
        → ((m : TorrentClientName) → m ≢ name → has x.1 m ≡ false)
        → OnRecord name s
        → OnRecord name (record s { store = f })
        → OnRecord name (saved s f x).1
    saved-OnRecord name s f (true, w) others old new = (others, new.1, new.2, new.3)
    saved-OnRecord name s f (false, w) others old new = (others, old.1, old.2, old.3)

    -- A record that is written anew, or is not written.
    OnRecord-put :
        (name : TorrentClientName) (r : StoredAcquisition) (s : World O)
        → OnRecord name s
        → Ours name (identity r)
        → OnRecord name (put_record r s).1
    OnRecord-put name r s h (same, mine) =
        let (f, e, _, there) =
          put_succeeds r s.store (find-Readable sub.id s.store (some h.1) h.2) in
        rw e (
          saved-OnRecord name s f (O.save s.outside)
            (λ m d. documented.saving m s.outside ∙ h.0 m d) h
            (h.0, r, subst (λ i. find i f ≡ some (some r)) same there, mine))

    module _ {A : Type 0} (P : Result A × World O → Type 0) (name : TorrentClientName)
        (k : Action O A) (rest : (s : World O) → OnRecord name s → P (k s))
        (fails : (s : World O) → Alone name s → P (threw write_failed, s)) where
      saved_then :
          (r : StoredAcquisition) (s : World O) (f : File) (x : Bool × O.W)
          → ((m : TorrentClientName) → m ≢ name → has x.1 m ≡ false)
          → find sub.id f ≡ some (some r)
          → r.backend ≡ client name
          → P (continue (saved s f x) (λ _. k))
      saved_then r s f (true, w) others there mine = rest _ (others, r, there, mine)
      saved_then r s f (false, w) others there mine = fails _ others

      -- The first record: where its write fails, the call throws.
      pub after_put :
          (r : StoredAcquisition) (s : World O)
          → Alone name s
          → Readable s.store
          → Ours name (identity r)
          → P ((put_record r >> k) s)
      after_put r s others readable (same, mine) =
          let (f, e, _, there) = put_succeeds r s.store readable in
          rw e (
            saved_then r s f (O.save s.outside) (λ m d. documented.saving m s.outside ∙ others m d)
              (subst (λ i. find i f ≡ some (some r)) same there) mine)

    pub OnRecord-Kept : (name : TorrentClientName) → Kept {O = O} (OnRecord name) (Ours name)
    OnRecord-Kept name = record {
      clock = λ s h. ((λ m e. documented.clock m s.outside ∙ h.0 m e), h.1, h.2, h.3);
      asked = λ n q s h. ((λ m e. documented.asking n m q s.outside ∙ h.0 m e), h.1, h.2, h.3);
      imported =
          λ p d t s h. ((λ m e. documented.importing m p d t s.outside ∙ h.0 m e), h.1, h.2, h.3);
      slept = λ ms s h. ((λ m e. documented.sleeping m ms s.outside ∙ h.0 m e), h.1, h.2, h.3);
      written = λ r mine s h. OnRecord-put name r s h mine;
    }

-- ===== src/Acquisition/Store/Live.antt =====
-- What the store of acquisitions answers.
use deepseek_harness_web3_ag.Prelude.{
  ◌≡◌, refl, sym, ◌∙◌, ap, subst, ◌⊎◌, inl, inr, true, false, Option, none, some, [], ◌∷◌, ◌++◌,
  Text, text_eq, if◌then◌else◌, arith, Bool-cases, All,
}
use deepseek_harness_web3_ag.Prelude.Maps.{Dict, get, insert, erase, get-insert, get-erase}
use deepseek_harness_web3_ag.Acquisition.Store.{
  AcquireState, queued, downloading, completed, failed, missing, StoredAcquisition, File, holds,
  load, put, remove, find, has_key, find_live, find_by_content_key,
}

-- A record of the key that still runs.
abbrev pub IsLive : Text → StoredAcquisition → Type 0
IsLive key r = (has_key key r ≡ true) × ((r.state ≡ queued) ⊎ (r.state ≡ downloading))

abbrev pub IsDone : Text → StoredAcquisition → Type 0
IsDone key r = (has_key key r ≡ true) × (r.state ≡ completed)

-- What is told of a key: the first record of it that runs; or, when none runs, the last one that
-- completed; or the default, when none of its records runs or completed.
pub data Told (key : Text) (default : Option StoredAcquisition) (records : Dict StoredAcquisition)
    : Option StoredAcquisition → Type 0 where
  live :
      (before after : Dict StoredAcquisition) (id : Text) (r : StoredAcquisition)
      → records ≡ before ++ (id, r) ∷ after
      → IsLive key r
      → All (λ e. ¬ IsLive key e.1) before
      → Told key default records (some r)
  done :
      (before after : Dict StoredAcquisition) (id : Text) (r : StoredAcquisition)
      → records ≡ before ++ (id, r) ∷ after
      → IsDone key r
      → All (λ e. ¬ IsLive key e.1) records
      → All (λ e. ¬ IsDone key e.1) after
      → Told key default records (some r)
  nothing :
      All (λ e. ¬ IsLive key e.1) records
      → All (λ e. ¬ IsDone key e.1) records
      → Told key default records default

module _ (key : Text) (id : Text) (r : StoredAcquisition) (records : Dict StoredAcquisition) where
  Told-skip :
      (d x : Option StoredAcquisition)
      → ¬ IsLive key r
      → ¬ IsDone key r
      → Told key d records x
      → Told key d ((id, r) ∷ records) x
  Told-skip d x idle open_one (live before after i s e l none_before) =
      live ((id, r) ∷ before) after i s (ap (λ t. (id, r) ∷ t) e) l (idle, none_before)
  Told-skip d x idle open_one (done before after i s e l none_live none_after) =
      done ((id, r) ∷ before) after i s (ap (λ t. (id, r) ∷ t) e) l (idle, none_live) none_after
  Told-skip d x idle open_one (nothing none_live none_done) =
      nothing (idle, none_live) (open_one, none_done)

  Told-done :
      (d x : Option StoredAcquisition)
      → ¬ IsLive key r
      → IsDone key r
      → Told key (some r) records x
      → Told key d ((id, r) ∷ records) x
  Told-done d x idle finished (live before after i s e l none_before) =
      live ((id, r) ∷ before) after i s (ap (λ t. (id, r) ∷ t) e) l (idle, none_before)
  Told-done d x idle finished (done before after i s e l none_live none_after) =
      done ((id, r) ∷ before) after i s (ap (λ t. (id, r) ∷ t) e) l (idle, none_live) none_after
  Told-done d x idle finished (nothing none_live none_done) =
      done [] records id r refl finished (idle, none_live) none_done

  find_live-skip :
      (d : Option StoredAcquisition)
      → (has_key key r ≡ false) ⊎ (r.state ≡ failed) ⊎ (r.state ≡ missing)
      → find_live key d ((id, r) ∷ records) ≡ find_live key d records
  unfolding find_live
  find_live-skip d (inl other) = rw (other, find_live) refl
  find_live-skip d (inr (inl gone)) = elim (Bool-cases (has_key key r)) [
    | inl mine ↦ rw (mine, gone, find_live) refl
    | inr other ↦ rw (other, find_live) refl
  ]
  find_live-skip d (inr (inr gone)) = elim (Bool-cases (has_key key r)) [
    | inl mine ↦ rw (mine, gone, find_live) refl
    | inr other ↦ rw (other, find_live) refl
  ]

  find_live-done :
      (d : Option StoredAcquisition)
      → IsDone key r
      → find_live key d ((id, r) ∷ records) ≡ find_live key (some r) records
  unfolding find_live
  find_live-done d (mine, finished) = simp (mine, finished, find_live)

  find_live-live :
      (d : Option StoredAcquisition) → IsLive key r → find_live key d ((id, r) ∷ records) ≡ some r
  unfolding find_live
  find_live-live d (mine, inl runs) = simp (mine, runs, find_live)
  find_live-live d (mine, inr runs) = simp (mine, runs, find_live)

-- A record of a key runs, completed, or does not count.
Sorts : Text → StoredAcquisition → Type 0
Sorts key r =
    IsLive key r
    ⊎ ((IsDone key r × ¬ IsLive key r))
    ⊎ (((has_key key r ≡ false) ⊎ (r.state ≡ failed) ⊎ (r.state ≡ missing))
        × (¬ IsLive key r)
        × (¬ IsDone key r))

pub State-cases :
    (s : AcquireState)
    → (s ≡ queued) ⊎ (s ≡ downloading) ⊎ (s ≡ completed) ⊎ (s ≡ failed) ⊎ (s ≡ missing)
State-cases queued = inl refl
State-cases downloading = inr (inl refl)
State-cases completed = inr (inr (inl refl))
State-cases failed = inr (inr (inr (inl refl)))
State-cases missing = inr (inr (inr (inr refl)))

sort_record : (key : Text) (r : StoredAcquisition) → Sorts key r
unfolding Sorts
sort_record key r = elim (Bool-cases (has_key key r)) [
  | inr other ↦ inr (inr (inl other, λ h. cc (h.0, other), λ h. cc (h.0, other)))
  | inl mine ↦ elim (State-cases r.state) [
    | inl s ↦ inl (mine, inl s)
    | inr (inl s) ↦ inl (mine, inr s)
    | inr (inr (inl s)) ↦
        inr (inl ((mine, s), λ h. elim h.1 [ inl q ↦ cc (q, s) | inr q ↦ cc (q, s) ]))
    | inr (inr (inr (inl s))) ↦ inr (
        inr
          (inr (inl s), λ h. elim h.1 [ inl q ↦ cc (q, s) | inr q ↦ cc (q, s) ], λ h. cc (h.1, s)))
    | inr (inr (inr (inr s))) ↦ inr (
        inr
          (inr (inr s), λ h. elim h.1 [ inl q ↦ cc (q, s) | inr q ↦ cc (q, s) ], λ h. cc (h.1, s)))
  ]
]

find_live-none : (key : Text) (d : Option StoredAcquisition) → find_live key d [] ≡ d
unfolding find_live
find_live-none key d = refl

find_live-Told :
    (key : Text) (d : Option StoredAcquisition) (records : Dict StoredAcquisition)
    → Told key d records (find_live key d records)
unfolding Sorts
find_live-Told key d [] = subst (Told key d []) (sym (find_live-none key d)) (nothing tt tt)
find_live-Told key d ((id, r) ∷ records) = elim (sort_record key r) [
  | inl runs ↦
      subst (Told key d ((id, r) ∷ records)) (sym (find_live-live key id r records d runs))
        (live [] records id r refl runs tt)
  | inr (inl (finished, idle)) ↦
      subst (Told key d ((id, r) ∷ records)) (sym (find_live-done key id r records d finished))
        (Told-done key id r records d _ idle finished (find_live-Told key (some r) records))
  | inr (inr (skipped, idle, open_one)) ↦
      subst (Told key d ((id, r) ∷ records)) (sym (find_live-skip key id r records d skipped))
        (Told-skip key id r records d _ idle open_one (find_live-Told key d records))
]

-- Asked for a content key, a store that can be loaded answers the first record of the key that still
-- runs; or, when none runs, the last of its records that completed; or nothing, when all of its records
-- failed or are missing. So a resubmission attaches to what runs or is there, and else starts afresh.
pub find_by_content_key-Told :
    (key : Text) (file : File) (records : Dict StoredAcquisition)
    → load file ≡ some records
    → (found : Option StoredAcquisition) × (find_by_content_key key file ≡ some found)
      × Told key none records found
unfolding find_by_content_key
find_by_content_key-Told key file records e =
    (find_live key none records, rw (e, find_by_content_key) refl, find_live-Told key none records)

find_after :
    (file : File) (records : Dict StoredAcquisition) (id : Text)
    → load file ≡ some records
    → find id file ≡ some (get id records)
unfolding find
find_after file records id e = rw (e, find) refl

find-holds :
    (records : Dict StoredAcquisition) (id : Text) → find id (holds records) ≡ some (get id records)
unfolding find load
find-holds records id = refl

-- Where the file can be loaded, writing a record and removing a handle succeed, and afterwards a handle
-- finds the record written under it, or nothing after its removal, and any other handle what it found
-- before.
pub find-put :
    (record_ : StoredAcquisition) (id j : Text) (file : File) (records : Dict StoredAcquisition)
    → load file ≡ some records
    → (written removed : File) × (put record_ file ≡ some written)
      × (remove id file ≡ some removed)
      × (find j written ≡ (if text_eq record_.id j then some (some record_) else find j file))
      × (find j removed ≡ (if text_eq id j then some none else find j file))
unfolding put remove
find-put record_ id j file records e = (
  holds (insert record_.id record_ records),
  holds (erase id records),
  rw (e, put) refl,
  rw (e, remove) refl,
  find-holds (insert record_.id record_ records) j
      ∙ ap some (get-insert record_.id j record_ records)
      ∙ ground (arith, find_after file records j e),
  find-holds (erase id records) j
      ∙ ap some (get-erase id j records)
      ∙ ground (arith, find_after file records j e),
)

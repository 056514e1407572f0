-- ===== src/Acquisition/Acquire/Identities.antt =====
-- The records of dsh-tool-acquisition/src/acquire.ts are not lost, and keep what they stand for.
use deepseek_harness_web3_ag.Prelude.{
  ◌≡◌, ◌≢◌, refl, sym, ap, ◌∙◌, ◌⊎◌, inl, inr, Bool, true, false, Option, some, [], Text, text_eq,
  text_eq→eq, if◌then◌else◌, Bool-cases, arith,
}
use deepseek_harness_web3_ag.Prelude.Maps.{Dict}
use deepseek_harness_web3_ag.Prowlarr.Links.{ReleaseLinks}
use deepseek_harness_web3_ag.Acquisition.Store.{
  StoredAcquisition, File, absent, unreadable, foreign, holds, load, put, find,
}
use deepseek_harness_web3_ag.Acquisition.Store.Live.{find-put}
use deepseek_harness_web3_ag.Acquisition.Acquire.Outside.{Outside, World}
use deepseek_harness_web3_ag.Acquisition.Acquire.Status.{Library, AcquireServiceOptions, status}
use deepseek_harness_web3_ag.Acquisition.Acquire.Submit.{AcquireSubmitInput, submit}
use deepseek_harness_web3_ag.Acquisition.Acquire.Check.{check_submit}
use deepseek_harness_web3_ag.Acquisition.Acquire.Tracked.{Readable}
use deepseek_harness_web3_ag.Acquisition.Acquire.Stays.{Identity, identity}
use deepseek_harness_web3_ag.Acquisition.Acquire.Keeps.{status-Holds}
use deepseek_harness_web3_ag.Acquisition.Acquire.Keeps.Entries.{submit-Holds, check_submit-Holds}

-- Every record stands under its own handle.
abbrev pub Consistent : File → Type 0
Consistent f = (id : Text) (r : StoredAcquisition) → find id f ≡ some (some r) → r.id ≡ id

-- The store has a record of this identity under the handle.
abbrev pub Kept : Text → Identity → File → Type 0
Kept j i f = (r : StoredAcquisition) × (find j f ≡ some (some r)) × (identity r ≡ i)

put-Readable : (r : StoredAcquisition) (f g : File) → put r f ≡ some g → Readable f
unfolding put load
put-Readable r absent g e = ([], refl)
put-Readable r unreadable g e = absurd (ground arith)
put-Readable r foreign g e = ([], refl)
put-Readable r (holds m) g e = (m, refl)

-- What a write leaves under each handle.
find-after_put :
    (r : StoredAcquisition) (j : Text) (f g : File)
    → put r f ≡ some g
    → find j g ≡ (if text_eq r.id j then some (some r) else find j f)
find-after_put r j f g e =
    let (records, readable) = put-Readable r f g e in
    let (w, _, done, _, finds, _) = find-put r j j f records readable in
    let same : g ≡ w = cc (e, done) in rw same finds

module _ (j : Text) (i : Identity) where
  -- A written record under the handle has its identity.
  abbrev Same : Identity → Type 0
  Same x = x.id ≡ j → x ≡ i

  abbrev Good : File → Type 0
  Good f = Consistent f × Kept j i f

  pick :
      (b : Bool) (r x : StoredAcquisition) (y : Option (Option StoredAcquisition))
      → (if b then some (some r) else y) ≡ some (some x)
      → ((b ≡ true) × (r ≡ x)) ⊎ ((b ≡ false) × (y ≡ some (some x)))
  pick true r x y h = inl (refl, cc)
  pick false r x y h = inr (refl, h)

  Consistent-put :
      (r : StoredAcquisition) (f g : File) → put r f ≡ some g → Consistent f → Consistent g
  Consistent-put r f g e consistent id x h =
      elim (pick (text_eq r.id id) r x (find id f) (sym (find-after_put r id f g e) ∙ h)) [
        | inl (same, this) ↦ ap (λ y. y.id) (sym this) ∙ text_eq→eq r.id id same
        | inr (_, old) ↦ consistent id x old
      ]

  Kept-put :
      (r : StoredAcquisition) (f g : File)
      → Same (identity r)
      → put r f ≡ some g
      → Kept j i f
      → Kept j i g
  Kept-put r f g mine e (r', there, is_i) = elim (Bool-cases (text_eq r.id j)) [
    | inl same ↦ (
      r,
      find-after_put r j f g e ∙ ap (λ b. if b then some (some r) else find j f) same,
      mine (text_eq→eq r.id j same),
    )
    | inr different ↦ (
      r',
      find-after_put r j f g e ∙ ap (λ b. if b then some (some r) else find j f) different ∙ there,
      is_i,
    )
  ]

  written :
      (r : StoredAcquisition) (f g : File) → Same (identity r) → put r f ≡ some g → Good f → Good g
  written r f g mine e (consistent, kept) =
      (Consistent-put r f g e consistent, Kept-put r f g mine e kept)

  found :
      (id : Text) (r : StoredAcquisition) (f : File)
      → Good f
      → find id f ≡ some (some r)
      → Same (identity r)
  found id r f (consistent, (r', there, is_i)) e is_j =
      let same : id ≡ j = sym (consistent id r e) ∙ is_j in
      let this : r ≡ r' = cc (e, there, ap (λ k. find k f) same) in ap identity this ∙ is_i

module _ (O : Outside) (library : Library) (options : AcquireServiceOptions) where
  -- In a store where each record stands under its own handle, no submission under another handle, no poll of
  -- any handle and no read-back of a call loses a record, or changes its handle, backend, title, time of
  -- creation or content keys, however it ends; and each record stands under its own handle still.
  pub entries-Kept :
      (links : Dict ReleaseLinks) (id other j : Text) (input : AcquireSubmitInput) (i : Identity)
      (s : World O)
      → id ≢ j
      → Consistent s.store
      → Kept j i s.store
      → (Consistent (submit O library options links id input s).1.store
          × Kept j i (submit O library options links id input s).1.store)
        × (Consistent (status O library options other s).1.store
            × Kept j i (status O library options other s).1.store)
        × (Consistent (check_submit O library options links input s).1.store
            × Kept j i (check_submit O library options links input s).1.store)
  entries-Kept links id other j input i s fresh consistent kept = (
    submit-Holds library options (Good j i) (Same j i) (written j i) (found j i) id
        (λ x mine is_j. absurd (fresh (sym mine ∙ is_j))) links input s (consistent, kept),
    status-Holds library options (Good j i) (Same j i) (written j i) (found j i) other s
        (consistent, kept),
    check_submit-Holds library options (Good j i) (Same j i) (written j i) (found j i) links input s
        (consistent, kept),
  )

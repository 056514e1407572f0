-- ===== src/Acquisition/Selection/Chosen.antt =====
-- What a selection holds.
use deepseek_harness_web3_ag.Prelude.{
  ℕ, zero, suc, ◌-◌, ◌≤◌, ◌≡◌, ◌≢◌, refl, sym, ◌∙◌, ap, subst, ◌⊎◌, inl, inr, Bool, true, false,
  ◌&&◌, Option, none, some, List, [], ◌∷◌, Text, leb, if◌then◌else◌, take, All, arith, Option-cases,
  Bool-cases,
}
use deepseek_harness_web3_ag.Acquisition.Mime.{MediaKind, torrent, nzb, media_kind, mime_matches}
use deepseek_harness_web3_ag.Acquisition.Selection.{
  every, largest, SelectionPolicy, AcquiredFile, is_pointer, accepts_mime, fits, base_name, sized,
  judge, choose, reduce, select_files,
}
use deepseek_harness_web3_ag.Acquisition.Selection.Biggest.{Among, Largest, reduce-Largest}

abbrev keep : Option AcquiredFile → List AcquiredFile → List AcquiredFile
keep none files = files
keep (some f) files = f ∷ files

take-empty : (n : ℕ) → take {A = AcquiredFile} n [] ≡ []
take-empty zero = refl
take-empty (suc n) = refl

accepts_mime_lem :
    (policy : SelectionPolicy) (m : Option Text)
    → accepts_mime policy m ≡ true
    → (is_pointer (media_kind m) ≡ false)
      × (mime_matches m policy.accept ≡ true)
      × (mime_matches m policy.reject ≡ false)
unfolding accepts_mime
accepts_mime_lem policy m h = ground arith

not_pointer : (k : MediaKind) → is_pointer k ≡ false → (k ≢ torrent) × (k ≢ nzb)
not_pointer k h =
    (λ e. true_false (ap is_pointer (sym e) ∙ h), λ e. true_false (ap is_pointer (sym e) ∙ h))
  where
    true_false : true ≡ false → ⊥
    true_false h = cc

pointer_if : (k : MediaKind) → k ≢ torrent → k ≢ nzb → is_pointer k ≡ false
pointer_if torrent a b = absurd (a refl)
pointer_if nzb a b = absurd (b refl)
pointer_if MediaKind.video a b = refl
pointer_if MediaKind.audio a b = refl
pointer_if MediaKind.image a b = refl
pointer_if MediaKind.document a b = refl
pointer_if MediaKind.text a b = refl
pointer_if MediaKind.archive a b = refl
pointer_if MediaKind.other a b = refl

fits_lem :
    (policy : SelectionPolicy) (size : ℕ)
    → fits policy size ≡ true
    → (policy.min_size ≤ size) × ((policy.max_size ≡ 0) ⊎ (size ≤ policy.max_size))
fits_lem policy size h = ground arith

module _ (excluded : Text → Bool) (size_of : Text → Option ℕ) (detect_mime : Text → Text)
    (policy : SelectionPolicy) where
  -- Content that the policy admits: not excluded by name, of a size within the bounds, of a type that is
  -- no pointer to other content, that is accepted and not rejected.
  pub record IsContent (f : AcquiredFile) : Type 0 where
    pub name : excluded (base_name f.path) ≡ false
    pub size : size_of f.path ≡ some f.size
    pub big : policy.min_size ≤ f.size
    pub small : (policy.max_size ≡ 0) ⊎ (f.size ≤ policy.max_size)
    pub mime : f.mime ≡ detect_mime f.path
    pub no_torrent : media_kind (some f.mime) ≢ torrent
    pub no_nzb : media_kind (some f.mime) ≢ nzb
    pub accepted : mime_matches (some f.mime) policy.accept ≡ true
    pub not_rejected : mime_matches (some f.mime) policy.reject ≡ false

  -- All content among the files, in their order.
  abbrev all_content : List Text → List AcquiredFile
  all_content [] = []
  all_content (path ∷ paths) =
      keep (judge excluded size_of detect_mime policy path) (all_content paths)

  some_eq : {f g : AcquiredFile} → some f ≡ some g → f ≡ g
  some_eq h = cc

  sized-IsContent :
      (path : Text) (o : Option ℕ) (f : AcquiredFile)
      → excluded (base_name path) ≡ false
      → size_of path ≡ o
      → sized excluded size_of detect_mime policy path o ≡ some f
      → IsContent f
  sized-IsContent path none f shown e h = absurd (cc)
  sized-IsContent path (some size) f shown e h =
      elim (Bool-cases (fits policy size && accepts_mime policy (some (detect_mime path)))) [
        | inr bad ↦ absurd (cc (rw bad at h))
        | inl ok ↦
            let (big, small) = fits_lem policy size (ground arith) in
            let (pointer, accepted, rejected) =
              accepts_mime_lem policy (some (detect_mime path)) (ground arith) in
            let (no_torrent, no_nzb) = not_pointer (media_kind (some (detect_mime path))) pointer in
            subst IsContent (some_eq (sym (rw ok refl) ∙ h)) (record {
              name = shown;
              size = e;
              big = big;
              small = small;
              mime = refl;
              no_torrent = no_torrent;
              no_nzb = no_nzb;
              accepted = accepted;
              not_rejected = rejected;
            })
      ]

  judge-IsContent :
      (path : Text) (f : AcquiredFile)
      → judge excluded size_of detect_mime policy path ≡ some f
      → IsContent f
  unfolding judge
  judge-IsContent path f h = elim (Bool-cases (excluded (base_name path))) [
    | inl hidden ↦ absurd (cc (rw (hidden, judge) at h))
    | inr shown ↦ sized-IsContent path (size_of path) f shown refl (rw (shown, judge) at h)
  ]

  choose-none :
      (n : ℕ) (path : Text) (paths : List Text)
      → judge excluded size_of detect_mime policy path ≡ none
      → choose excluded size_of detect_mime policy n (path ∷ paths)
        ≡ choose excluded size_of detect_mime policy n paths
  unfolding choose
  choose-none n path paths e = simp (e, choose)

  choose-last :
      (n : ℕ) (path : Text) (paths : List Text) (f : AcquiredFile)
      → judge excluded size_of detect_mime policy path ≡ some f
      → leb policy.max_files (suc n) ≡ true
      → choose excluded size_of detect_mime policy n (path ∷ paths) ≡ f ∷ []
  unfolding choose
  choose-last n path paths f e full = simp (e, full, choose)

  choose-more :
      (n : ℕ) (path : Text) (paths : List Text) (f : AcquiredFile)
      → judge excluded size_of detect_mime policy path ≡ some f
      → leb policy.max_files (suc n) ≡ false
      → choose excluded size_of detect_mime policy n (path ∷ paths)
        ≡ f ∷ choose excluded size_of detect_mime policy (suc n) paths
  unfolding choose
  choose-more n path paths f e room = simp (e, room, choose)

  choose-empty : (n : ℕ) → choose excluded size_of detect_mime policy n [] ≡ []
  unfolding choose
  choose-empty n = refl

  -- How many files the loop still takes: at least one, since it counts after it took one.
  abbrev room_after : ℕ → ℕ
  room_after n = if leb policy.max_files (suc n) then 1 else policy.max_files - n

  all_content-none :
      (path : Text) (paths : List Text)
      → judge excluded size_of detect_mime policy path ≡ none
      → all_content (path ∷ paths) ≡ all_content paths
  all_content-none path paths e = ap (λ o. keep o (all_content paths)) e

  all_content-some :
      (path : Text) (paths : List Text) (f : AcquiredFile)
      → judge excluded size_of detect_mime policy path ≡ some f
      → all_content (path ∷ paths) ≡ f ∷ all_content paths
  all_content-some path paths f e = ap (λ o. keep o (all_content paths)) e

  choose-take :
      (n : ℕ) (paths : List Text)
      → choose excluded size_of detect_mime policy n paths ≡ take (room_after n) (all_content paths)
  choose-take n [] = choose-empty n ∙ sym (take-empty (room_after n))
  choose-take n (path ∷ paths) =
      elim (Option-cases (judge excluded size_of detect_mime policy path)) [
        | inl none_here ↦
            choose-none n path paths none_here
            ∙ choose-take n paths
            ∙ ap (take (room_after n)) (sym (all_content-none path paths none_here))
        | inr (f, e) ↦
            let content = ap (take (room_after n)) (sym (all_content-some path paths f e)) in
            elim (Bool-cases (leb policy.max_files (suc n))) [
              | inl full ↦
                  let one : room_after n ≡ 1 = rw full refl in
                  choose-last n path paths f e full
                  ∙ ap (λ r. take r (f ∷ all_content paths)) (sym one)
                  ∙ content
              | inr room ↦
                  let more : room_after n ≡ suc (room_after (suc n)) = ground arith in
                  choose-more n path paths f e room
                  ∙ ap (λ t. f ∷ t) (choose-take (suc n) paths)
                  ∙ ap (λ r. take r (f ∷ all_content paths)) (sym more)
                  ∙ content
            ]
      ]

  fits_if :
      (size : ℕ)
      → policy.min_size ≤ size
      → (policy.max_size ≡ 0) ⊎ (size ≤ policy.max_size)
      → fits policy size ≡ true
  fits_if size big (inl unbounded) = ground arith
  fits_if size big (inr small) = ground arith

  accepts_mime_if :
      (m : Option Text)
      → is_pointer (media_kind m) ≡ false
      → mime_matches m policy.accept ≡ true
      → mime_matches m policy.reject ≡ false
      → accepts_mime policy m ≡ true
  unfolding accepts_mime
  accepts_mime_if m pointer accepted rejected = ground arith

  sized-content :
      (path : Text) (size : ℕ) (mime : Text)
      → mime ≡ detect_mime path
      → fits policy size ≡ true
      → accepts_mime policy (some mime) ≡ true
      → sized excluded size_of detect_mime policy path (some size)
        ≡ some (record { path = path; size = size; mime = mime })
  sized-content path size mime same fit accepted = rw (← same, fit, accepted) refl

  -- Whatever is content is kept.
  judge-content :
      (f : AcquiredFile) → IsContent f → judge excluded size_of detect_mime policy f.path ≡ some f
  unfolding judge
  judge-content f c =
      rw (c.name, c.size, judge)
        (sized-content f.path f.size f.mime c.mime (fits_if f.size c.big c.small) (
          accepts_mime_if (some f.mime)
            (pointer_if (media_kind (some f.mime)) c.no_torrent c.no_nzb) c.accepted
            c.not_rejected))

  sized-path :
      (path : Text) (o : Option ℕ) (f : AcquiredFile)
      → sized excluded size_of detect_mime policy path o ≡ some f
      → f.path ≡ path
  sized-path path none f h = absurd (cc)
  sized-path path (some size) f h =
      elim (Bool-cases (fits policy size && accepts_mime policy (some (detect_mime path)))) [
        | inr bad ↦ absurd (cc (rw bad at h))
        | inl ok ↦ sym (ap (λ g. g.path) (some_eq (rw ok at h)))
      ]

  judge-path :
      (path : Text) (f : AcquiredFile)
      → judge excluded size_of detect_mime policy path ≡ some f
      → f.path ≡ path
  unfolding judge
  judge-path path f h = elim (Bool-cases (excluded (base_name path))) [
    | inl hidden ↦ absurd (cc (rw (hidden, judge) at h))
    | inr shown ↦ sized-path path (size_of path) f (rw (shown, judge) at h)
  ]

  -- The content among the files, in their order: each file is content and kept, or is none.
  pub data Selects : List Text → List AcquiredFile → Type 0 where
    done : Selects [] []
    taken :
        {paths : List Text} {files : List AcquiredFile} (path : Text) (f : AcquiredFile)
        → f.path ≡ path
        → IsContent f
        → Selects paths files
        → Selects (path ∷ paths) (f ∷ files)
    passed :
        {paths : List Text} {files : List AcquiredFile} (path : Text)
        → ((f : AcquiredFile) → f.path ≡ path → ¬ IsContent f)
        → Selects paths files
        → Selects (path ∷ paths) files

  all_content-Selects : (paths : List Text) → Selects paths (all_content paths)
  all_content-Selects [] = done
  all_content-Selects (path ∷ paths) =
      elim (Option-cases (judge excluded size_of detect_mime policy path)) [
        | inl none_here ↦
            subst (Selects (path ∷ paths)) (sym (all_content-none path paths none_here))
              (passed path (no_content path none_here) (all_content-Selects paths))
        | inr (f, e) ↦ subst (Selects (path ∷ paths)) (sym (all_content-some path paths f e)) (
            taken path f (judge-path path f e) (judge-IsContent path f e)
              (all_content-Selects paths))
      ]
    where
      no_content :
          (path : Text)
          → judge excluded size_of detect_mime policy path ≡ none
          → (f : AcquiredFile) → f.path ≡ path
          → ¬ IsContent f
      no_content path none_here f same c =
          let kept : judge excluded size_of detect_mime policy path ≡ some f =
            ap (judge excluded size_of detect_mime policy) (sym same) ∙ judge-content f c in
          absurd (cc (sym kept ∙ none_here))

  -- Keeping every match, of which at least one may be kept, gives the content among the files, in their order:
  -- all of it, or the first files of it up to the bound on their number. Content is a file that is not
  -- excluded by name, whose size is within both bounds, a maximum of 0 being none, and whose type is no
  -- torrent or NZB, is accepted and is not rejected.
  pub select_files_every :
      (paths : List Text)
      → policy.mode ≡ every
      → 1 ≤ policy.max_files
      → (content : List AcquiredFile) × Selects paths content
        × (select_files excluded size_of detect_mime policy paths ≡ take policy.max_files content)
  unfolding select_files
  select_files_every paths mode bound =
      let room : room_after 0 ≡ policy.max_files = ground arith in
      (
        all_content paths,
        all_content-Selects paths,
        ap (λ m. reduce m (choose excluded size_of detect_mime policy 0 paths)) mode
            ∙ choose-take 0 paths
            ∙ ap (λ r. take r (all_content paths)) room,
      )

  -- Keeping the largest gives nothing where nothing matches, and else one file, which is among those
  -- that keeping every match would give, and which none of those exceeds in size.
  select_files_largest :
      (paths : List Text)
      → policy.mode ≡ largest
      → let matching = choose excluded size_of detect_mime policy 0 paths in
        ((matching ≡ []) × (select_files excluded size_of detect_mime policy paths ≡ []))
        ⊎ ((top : AcquiredFile) × (select_files excluded size_of detect_mime policy paths
              ≡ top ∷ [])
            × Among top matching
            × All (λ f. f.size ≤ top.size) matching)
  unfolding select_files
  select_files_largest paths mode =
      subst
        (λ m.
          Largest (choose excluded size_of detect_mime policy 0 paths)
            (reduce m (choose excluded size_of detect_mime policy 0 paths)))
        (sym mode) (reduce-Largest (choose excluded size_of detect_mime policy 0 paths))

-- ===== src/Prowlarr/Links/Keeps.antt =====
-- What the table of links keeps.
use deepseek_harness_web3_ag.Prelude.{
  ℕ, zero, suc, ◌-◌, ◌≤◌, ◌≡◌, refl, sym, ◌∙◌, ap, subst, length-drop, ◌⊎◌, inl, inr, true, false,
  none, some, List, [], ◌∷◌, ◌++◌, Text, text_eq, text_eq_iff, text_eq_refl, ltb, leb, length,
  length-append, take, drop, any, if◌then◌else◌, arith, Bool-cases,
}
use deepseek_harness_web3_ag.Prelude.Maps.{
  Dict, get, insert, erase, keep_if, keys, get-insert, get-insert_self,
}
use deepseek_harness_web3_ag.Prelude.Distinct.{Distinct, Distinct-insert, Distinct-drop, get-drop}
use deepseek_harness_web3_ag.Prowlarr.Links.{
  ReleaseLinks, max_link_refs, drop_oldest, store_release_links, take_release_links,
}

erase_absent : (k : Text) (m : Dict ReleaseLinks) → get k m ≡ none → erase k m ≡ m
unfolding get erase keep_if
erase_absent k [] h = refl
erase_absent k ((j, w) ∷ m) h = ground (arith, erase_absent k m)

erase-first :
    (k : Text) (v : ReleaseLinks) (m : Dict ReleaseLinks)
    → get k m ≡ none
    → erase k ((k, v) ∷ m) ≡ m
unfolding erase keep_if
erase-first k v m h = ground (arith, text_eq_refl k, erase_absent k m h)

insert_absent :
    (k : Text) (v : ReleaseLinks) (m : Dict ReleaseLinks)
    → get k m ≡ none
    → insert k v m ≡ m ++ (k, v) ∷ []
unfolding get insert
insert_absent k v [] h = refl
insert_absent k v ((j, w) ∷ m) h = ground (arith, insert_absent k v m)

drop_oldest-few :
    (k : Text) (ks : List Text) (m : Dict ReleaseLinks)
    → leb (length m) 500 ≡ true
    → drop_oldest (k ∷ ks) m ≡ m
unfolding drop_oldest
drop_oldest-few k ks m few = rw (few, drop_oldest) refl

drop_oldest-many :
    (k : Text) (ks : List Text) (m : Dict ReleaseLinks)
    → leb (length m) 500 ≡ false
    → drop_oldest (k ∷ ks) m ≡ drop_oldest ks (erase k m)
unfolding drop_oldest
drop_oldest-many k ks m many = rw (many, drop_oldest) refl

drop_oldest-none : (m : Dict ReleaseLinks) → drop_oldest [] m ≡ m
unfolding drop_oldest
drop_oldest-none m = refl

-- The loop leaves the newest half of the cap.
drop_oldest-drop :
    (m : Dict ReleaseLinks) → Distinct m → drop_oldest (keys m) m ≡ drop (length m - 500) m
drop_oldest-drop [] d = drop_oldest-none []
drop_oldest-drop ((k, v) ∷ m) d = elim (Bool-cases (leb (suc (length m)) 500)) [
  | inl few ↦
      let none_go : suc (length m) - 500 ≡ 0 = ground arith in
      drop_oldest-few k (keys m) ((k, v) ∷ m) few ∙ ap (λ n. drop n ((k, v) ∷ m)) (sym none_go)
  | inr many ↦
      let more_go : suc (length m) - 500 ≡ suc (length m - 500) = ground arith in
      drop_oldest-many k (keys m) ((k, v) ∷ m) many
      ∙ ap (drop_oldest (keys m)) (erase-first k v m d.0)
      ∙ drop_oldest-drop m d.1
      ∙ ap (λ n. drop n ((k, v) ∷ m)) (sym more_go)
]

-- The table after storing under a new reference: under the cap one entry more, and at the cap the
-- newest 499 entries and the new one.
abbrev pub after : Text → ReleaseLinks → Dict ReleaseLinks → Dict ReleaseLinks
after ref links m =
    if ltb (length m) max_link_refs
    then m ++ (ref, links) ∷ []
    else drop 501 (m ++ (ref, links) ∷ [])

length-insert_absent :
    (k : Text) (v : ReleaseLinks) (m : Dict ReleaseLinks)
    → get k m ≡ none
    → length (insert k v m) ≡ suc (length m)
length-insert_absent k v m h =
    ap length (insert_absent k v m h) ∙ omega (arith, length-append m ((k, v) ∷ []))

store_release_links-after :
    (ref : Text) (links : ReleaseLinks) (m : Dict ReleaseLinks)
    → Distinct m
    → length m ≤ max_link_refs
    → get ref m ≡ none
    → store_release_links ref links m ≡ after ref links m
unfolding store_release_links
store_release_links-after ref links m d fits absent =
    let size = length-insert_absent ref links m absent in
    elim (Bool-cases (ltb (length m) max_link_refs)) [
      | inl room ↦
          let under : ltb 1000 (length (insert ref links m)) ≡ false = ground (arith, size) in
          rw (room, under) (insert_absent ref links m absent)
      | inr full ↦
          let over : ltb 1000 (length (insert ref links m)) ≡ true = ground (arith, size) in
          let gone : length (insert ref links m) - 500 ≡ 501 = ground (arith, size) in
          rw (full, over)
            (drop_oldest-drop (insert ref links m) (Distinct-insert ref links m d)
              ∙ ap (λ n. drop n (insert ref links m)) gone
              ∙ ap (drop 501) (insert_absent ref links m absent))
    ]

take-append_short :
    {A : Type 0} (n : ℕ) (xs ys : List A) → n ≤ length xs → take n (xs ++ ys) ≡ take n xs
take-append_short zero xs ys h = refl
take-append_short (suc n) [] ys h = absurd (omega arith)
take-append_short (suc n) (x ∷ xs) ys h = ap (λ t. x ∷ t) (take-append_short n xs ys (omega arith))

any-take_absent :
    (n : ℕ) (k : Text) (m : Dict ReleaseLinks)
    → get k m ≡ none
    → any (text_eq k) (keys (take n m)) ≡ false
unfolding get
any-take_absent zero k m h = refl
any-take_absent (suc n) k [] h = refl
any-take_absent (suc n) k ((j, w) ∷ m) h =
    ground (arith, any-take_absent n k m, text_eq_iff j k, text_eq_iff k j)

-- What a key finds in a full table after storing.
get-full :
    (ref : Text) (links : ReleaseLinks) (m : Dict ReleaseLinks) (j : Text)
    → Distinct m
    → length m ≡ 1000
    → get ref m ≡ none
    → get j (drop 501 (m ++ (ref, links) ∷ [])) ≡ (
        if any (text_eq j) (keys (take 501 m))
        then none
        else if text_eq ref j
        then some links
        else get j m)
get-full ref links m j d full absent =
    ap (λ t. get j (drop 501 t)) (sym (insert_absent ref links m absent))
    ∙ get-drop 501 j (insert ref links m) (Distinct-insert ref links m d)
    ∙ ap (λ t. if any (text_eq j) (keys (take 501 t)) then none else get j (insert ref links m))
        (insert_absent ref links m absent)
    ∙ ap (λ t. if any (text_eq j) (keys t) then none else get j (insert ref links m))
        (take-append_short 501 m ((ref, links) ∷ []) (omega (arith, full)))
    ∙ ap (λ o. if any (text_eq j) (keys (take 501 m)) then none else o) (get-insert ref j links m)

-- The table after storing links under a new reference: the reference resolves, the cap holds, and any
-- other reference resolves as before, unless it was among the oldest 501 of a full table and is gone.
pub record Kept (ref : Text) (links : ReleaseLinks) (m m' : Dict ReleaseLinks) : Type 0 where
  pub resolves : take_release_links ref m' ≡ some links
  pub bounded : length m' ≤ max_link_refs
  pub distinct : Distinct m'
  pub others :
      (j : Text)
      → text_eq ref j ≡ false
      → (take_release_links j m' ≡ take_release_links j m)
        ⊎ ((take_release_links j m' ≡ none)
            × (length m ≡ max_link_refs)
            × (any (text_eq j) (keys (take 501 m)) ≡ true))

after-Kept :
    (ref : Text) (links : ReleaseLinks) (m : Dict ReleaseLinks)
    → Distinct m
    → length m ≤ max_link_refs
    → get ref m ≡ none
    → Kept ref links m (after ref links m)
unfolding take_release_links
after-Kept ref links m d fits absent = elim (Bool-cases (ltb (length m) max_link_refs)) [
  | inl room ↦ rw room (record {
    resolves = rw (← insert_absent ref links m absent) (get-insert_self ref links m);
    bounded = ground (arith, length-append m ((ref, links) ∷ []));
    distinct = rw (← insert_absent ref links m absent) (Distinct-insert ref links m d);
    others = λ j other.
        inl (rw (← insert_absent ref links m absent) (get-insert ref j links m ∙ rw other refl));
  })
  | inr full ↦
      let size : length m ≡ 1000 = ground arith in
      rw full (record {
        resolves =
            get-full ref links m ref d size absent
            ∙ rw (any-take_absent 501 ref m absent, text_eq_refl ref) refl;
        bounded = ground (
          arith,
          length-append m ((ref, links) ∷ []),
          length-drop 501 (m ++ (ref, links) ∷ []),
          size,
        );
        distinct =
            Distinct-drop 501 (m ++ (ref, links) ∷ [])
              (rw (← insert_absent ref links m absent) (Distinct-insert ref links m d));
        others = λ j other. elim (Bool-cases (any (text_eq j) (keys (take 501 m)))) [
          | inl old ↦ inr (get-full ref links m j d size absent ∙ rw old refl, size, old)
          | inr new ↦ inl (get-full ref links m j d size absent ∙ rw (new, other) refl)
        ];
      })
]

-- Storing the links of a release under a reference that is not in use: the reference then resolves to
-- exactly these links, at most 1000 references are kept, and every other reference resolves as before
-- except, when the table was full, some of its 501 oldest, which are forgotten.
pub store_release_links-Kept :
    (ref : Text) (links : ReleaseLinks) (m : Dict ReleaseLinks)
    → Distinct m
    → length m ≤ max_link_refs
    → take_release_links ref m ≡ none
    → Kept ref links m (store_release_links ref links m)
unfolding take_release_links
store_release_links-Kept ref links m d fits absent =
    subst (Kept ref links m) (sym (store_release_links-after ref links m d fits absent))
      (after-Kept ref links m d fits absent)

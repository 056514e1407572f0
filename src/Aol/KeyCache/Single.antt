-- ===== src/Aol/KeyCache/Single.antt =====
-- Many callers of `getOrFetch` (dsh-haven-aol/src/keyCache.ts) at once: a slot is filled by one fetch at a
-- time, and by another only after a failure or a `clear`.
use deepseek_harness_web3_ag.Prelude.{
  ℕ, suc, ◌+◌, ◌≤◌, ◌≡◌, refl, sym, ◌∙◌, ap, subst, ◌⊎◌, inl, inr, true, false, Option, none, some,
  List, ◌∷◌, ◌++◌, Text, text_eq, text_eq→eq, if◌then◌else◌, arith, Option-cases, Bool-cases,
  All-middle,
}
use deepseek_harness_web3_ag.Prelude.Maps.{get, insert, get-insert, get-erase}
use deepseek_harness_web3_ag.Aol.KeyCache.{
  Cache, hit, attached, filling, enter, release, fetched, failed, clear,
}
use deepseek_harness_web3_ag.Aol.KeyCache.World.{
  Fill, World, count, count_fills, count_fills-middle, count_fills-zero, count_fills-idle, Held,
  hold, place, Step, Reach, taken, Inv, here, next,
}

module _ {V : Type 0} where
  enter-cases :
      (slot : Text) (r : Cache V)
      → ((value : V) × (enter slot r ≡ (hit value, r)))
        ⊎ ((n : ℕ) × (enter slot r ≡ (attached n, r)))
        ⊎ ((get slot r.entries ≡ none)
            × (get slot r.inflight ≡ none)
            × (enter slot r ≡ (
              filling r.begun,
              record r { inflight = insert slot r.begun r.inflight; begun = suc r.begun },
            )))
  unfolding enter
  enter-cases slot r = elim (Option-cases (get slot r.entries)) [
    | inr (value, known) ↦ inl (value, rw (known, enter) refl)
    | inl absent ↦ elim (Option-cases (get slot r.inflight)) [
      | inr (n, busy) ↦ inr (inl (n, rw (absent, busy, enter) refl))
      | inl idle ↦ inr (inr (absent, idle, rw (absent, idle, enter) refl))
    ]
  ]

  release_frame :
      (n : ℕ) (slot k : Text) (r : Cache V)
      → ((release n slot r).entries ≡ r.entries)
        × (text_eq slot k ≡ false → get k (release n slot r).inflight ≡ get k r.inflight)
  unfolding release
  release_frame n slot k r = ground (arith, get-erase slot k r.inflight)

  -- A slot that is neither filled nor being filled.
  begin-Inv :
      (k : Text) (w : World V) (slot : Text)
      → get slot w.cache.entries ≡ none
      → get slot w.cache.inflight ≡ none
      → Inv k w
      → Inv k (record w {
        cache = record w.cache {
          inflight = insert slot w.cache.begun w.cache.inflight;
          begun = suc w.cache.begun;
        };
        fetching = (w.cache.begun, slot) ∷ w.fetching;
        started = slot ∷ w.started;
      })
  begin-Inv k w slot absent idle v =
      let found = get-insert slot k w.cache.begun w.cache.inflight in
      elim (Bool-cases (text_eq slot k)) [
        | inl same ↦
            let e : slot ≡ k = text_eq→eq slot k same in
            let idle_k : get k w.cache.inflight ≡ none = rw (← e) idle in
            let absent_k : get k w.cache.entries ≡ none = rw (← e) absent in
            let alone = count_fills-idle k (get k w.cache.inflight) w.fetching v.held idle_k in
            let now : get k (insert slot w.cache.begun w.cache.inflight) ≡ some w.cache.begun =
              found ∙ rw same refl in
            record {
              single = rw same (omega (arith, alone));
              held = (
                λ _. now,
                count_fills-zero k
                    (λ n. get k (insert slot w.cache.begun w.cache.inflight) ≡ some n) w.fetching
                    alone,
              );
              paid = rw (same, now, absent_k) (begin_paid k w absent_k idle_k v.paid);
            }
        | inr other ↦
            let stays : get k (insert slot w.cache.begun w.cache.inflight)
                ≡ get k w.cache.inflight =
              found ∙ rw other refl in
            record {
              single = rw other v.single;
              held = (λ same. absurd (cc (same, other)), hold k w.fetching (sym stays) v.held);
              paid = rw (other, stays) v.paid;
            }
      ]
    where
      begin_paid :
          (k : Text) (w : World V)
          → get k w.cache.entries ≡ none
          → get k w.cache.inflight ≡ none
          → count k w.started
            ≤ count k w.failures + w.clears + taken (get k w.cache.entries) (get k w.cache.inflight)
          → suc (count k w.started) ≤ count k w.failures + w.clears + 1
      begin_paid k w absent idle h = ground arith

  -- What a settled fill leaves of the invariant for the other slots.
  settle_other :
      (k : Text) (w : World V) (before after : List Fill) (n : ℕ) (slot : Text) (r : Cache V)
      → w.fetching ≡ before ++ (n, slot) ∷ after
      → text_eq slot k ≡ false
      → get k r.inflight ≡ get k w.cache.inflight
      → get k r.entries ≡ get k w.cache.entries
      → Inv k w
      → Inv k (record w { cache = r; fetching = before ++ after })
  settle_other k w before after n slot r e other inflight entries v =
      let fewer : count_fills k w.fetching ≡ count_fills k (before ++ after) =
        ap (count_fills k) e ∙ count_fills-middle k before after n slot ∙ rw other refl in
      record {
        single = rw (← fewer) v.single;
        held =
            hold k (before ++ after) (sym inflight)
              (All-middle (λ f. text_eq f.1 k ≡ true → get k w.cache.inflight ≡ some f.0) before
                after (n, slot) (subst (Held k (get k w.cache.inflight)) e v.held)).1;
        paid = rw (inflight, entries) v.paid;
      }

  -- What a settled fill of the slot leaves: no fill of it.
  settle_same :
      (k : Text) (w : World V) (before after : List Fill) (n : ℕ) (slot : Text)
      → w.fetching ≡ before ++ (n, slot) ∷ after
      → text_eq slot k ≡ true
      → Inv k w
      → (count_fills k (before ++ after) ≡ 0) × (get k w.cache.inflight ≡ some n)
  settle_same k w before after n slot e same v =
      let fewer : count_fills k w.fetching ≡ suc (count_fills k (before ++ after)) =
        ap (count_fills k) e ∙ count_fills-middle k before after n slot ∙ rw same refl in
      (
        omega (arith, fewer, v.single),
        (All-middle (λ f. text_eq f.1 k ≡ true → get k w.cache.inflight ≡ some f.0) before after
              (n, slot) (subst (Held k (get k w.cache.inflight)) e v.held)).0
            same,
      )

  fetched_frame :
      (n : ℕ) (slot k : Text) (value : V) (r : Cache V)
      → (get k (fetched n slot value r).entries
          ≡ (if text_eq slot k then some value else get k r.entries))
        × (text_eq slot k ≡ false → get k (fetched n slot value r).inflight ≡ get k r.inflight)
  unfolding fetched
  fetched_frame n slot k value r =
      let r₁ : Cache V = record r { entries = insert slot value r.entries } in
      let (entries, inflight) = release_frame n slot k r₁ in
      (ap (get k) entries ∙ get-insert slot k value r.entries, inflight)

  failed_frame :
      (n : ℕ) (slot k : Text) (r : Cache V)
      → ((failed n slot r).entries ≡ r.entries)
        × (text_eq slot k ≡ false → get k (failed n slot r).inflight ≡ get k r.inflight)
  unfolding failed
  failed_frame n slot k r =
      let (entries, inflight) = release_frame n slot k r in
      let (entries', inflight') = release_frame n slot k (release n slot r) in
      (entries' ∙ entries, λ other. inflight' other ∙ inflight other)

  taken_bound : (a : Option V) (b : Option ℕ) → taken a b ≤ 1
  taken_bound (some value) b = omega arith
  taken_bound none (some n) = omega arith
  taken_bound none none = omega arith

  answer-Inv :
      (k : Text) (w : World V) (before after : List Fill) (n : ℕ) (slot : Text) (value : V)
      → w.fetching ≡ before ++ (n, slot) ∷ after
      → Inv k w
      → Inv k (record w { cache = fetched n slot value w.cache; fetching = before ++ after })
  answer-Inv k w before after n slot value e v =
      let (entries, inflight) = fetched_frame n slot k value w.cache in
      elim (Bool-cases (text_eq slot k)) [
        | inr other ↦
            let kept : get k (fetched n slot value w.cache).entries ≡ get k w.cache.entries =
              entries ∙ rw other refl in
            settle_other k w before after n slot (fetched n slot value w.cache) e other
              (inflight other) kept v
        | inl same ↦
            let (none_left, _) = settle_same k w before after n slot e same v in
            let cached : get k (fetched n slot value w.cache).entries ≡ some value =
              entries ∙ rw same refl in
            let before_it = taken_bound (get k w.cache.entries) (get k w.cache.inflight) in
            record {
              single = omega (arith, none_left);
              held =
                  count_fills-zero k (λ m. get k (fetched n slot value w.cache).inflight ≡ some m)
                    (before ++ after) none_left;
              paid = rw cached (omega (arith, v.paid, before_it));
            }
      ]

  fail-Inv :
      (k : Text) (w : World V) (before after : List Fill) (n : ℕ) (slot : Text)
      → w.fetching ≡ before ++ (n, slot) ∷ after
      → Inv k w
      → Inv k (record w {
        cache = failed n slot w.cache;
        fetching = before ++ after;
        failures = slot ∷ w.failures;
      })
  fail-Inv k w before after n slot e v =
      let (entries, inflight) = failed_frame n slot k w.cache in
      elim (Bool-cases (text_eq slot k)) [
        | inr other ↦
            let rest =
              settle_other k w before after n slot (failed n slot w.cache) e other (inflight other)
                (ap (get k) entries) v in
            record { single = rest.single; held = rest.held; paid = rw other rest.paid }
        | inl same ↦
            let (none_left, _) = settle_same k w before after n slot e same v in
            let before_it = taken_bound (get k w.cache.entries) (get k w.cache.inflight) in
            record {
              single = omega (arith, none_left);
              held =
                  count_fills-zero k (λ m. get k (failed n slot w.cache).inflight ≡ some m)
                    (before ++ after) none_left;
              paid = rw same (omega (arith, v.paid, before_it));
            }
      ]

  wipe-Inv :
      (k : Text) (w : World V)
      → Inv k w
      → Inv k (record w { cache = clear w.cache; clears = suc w.clears })
  unfolding clear
  wipe-Inv k w v =
      let before_it = taken_bound (get k w.cache.entries) (get k w.cache.inflight) in
      record { single = v.single; held = v.held; paid = omega (arith, v.paid, before_it) }

  arrive-Inv :
      (k : Text) (w : World V) (slot : Text) → Inv k w → Inv k (place slot (enter slot w.cache) w)
  arrive-Inv k w slot v = elim (enter-cases slot w.cache) [
    | inl (value, e) ↦ subst (λ p. Inv k (place slot p w)) (sym e) (same_Inv k w v)
    | inr (inl (n, e)) ↦ subst (λ p. Inv k (place slot p w)) (sym e) (same_Inv k w v)
    | inr (inr (absent, idle, e)) ↦
        subst (λ p. Inv k (place slot p w)) (sym e) (begin-Inv k w slot absent idle v)
  ]
    where
      same_Inv : (j : Text) (u : World V) → Inv j u → Inv j (record u { cache = u.cache })
      same_Inv j u i = record { single = i.single; held = i.held; paid = i.paid }

  Step-Inv : {w v : World V} (k : Text) → Step w v → Inv k w → Inv k v
  Step-Inv {w} k (Step.arrive slot) v = arrive-Inv k w slot v
  Step-Inv {w} k (Step.answer before after n slot value e) v =
      answer-Inv k w before after n slot value e v
  Step-Inv {w} k (Step.fail before after n slot e) v = fail-Inv k w before after n slot e v
  Step-Inv {w} k Step.wipe v = wipe-Inv k w v

  Reach-Inv : {w : World V} (k : Text) → Reach w → Inv k w
  Reach-Inv k here = record { single = omega arith; held = tt; paid = omega arith }
  Reach-Inv k (next r st) = Step-Inv k st (Reach-Inv k r)

  -- However callers, answers, failures and clears interleave: at most one fetch of a slot is under way
  -- at a time, and a slot was fetched at most once more often than fetches of it failed and the cache
  -- was cleared.
  pub get_or_fetch_once :
      {w : World V} (k : Text)
      → Reach w
      → (count_fills k w.fetching ≤ 1) × (count k w.started ≤ count k w.failures + w.clears + 1)
  get_or_fetch_once {w} k r =
      let v = Reach-Inv k r in
      (
        v.single,
        omega (arith, v.paid, taken_bound (get k w.cache.entries) (get k w.cache.inflight)),
      )

-- ===== src/Wallet/Lanes/Invariant.antt =====
-- What the steps of the lanes of `withLock` (dsh-wallet/src/index.ts) keep.
use deepseek_harness_web3_ag.Prelude.{
  ℕ, suc, ◌≤◌, ◌<◌, ◌≡◌, refl, sym, ◌∙◌, ap, subst, ◌⊎◌, inl, inr, ◌≢◌, Bool, true, false, Option,
  none, some, Text, text_eq, text_eq→eq, ◌==◌, if◌then◌else◌, arith, Bool-cases,
}
use deepseek_harness_web3_ag.Prelude.Maps.{get, insert, get-insert, get-insert_self}
use deepseek_harness_web3_ag.Wallet.Lanes.{
  Phase, waiting, running, fulfilled, rejected, Lanes, set, queue, is_over, is_ready, set_phase,
}

pub record Inv (l : Lanes) : Type 0 where
  -- The lock of a wallet is its last task.
  pub tail : (i : ℕ) → i < l.count → (m : ℕ) × (get (l.name_of i) l.locks ≡ some m) × (i ≤ m)
  pub lock :
      (name : Text) (m : ℕ) → get name l.locks ≡ some m → (m < l.count) × (l.name_of m ≡ name)
  -- The task that one waits for is the last one of its wallet before it.
  pub link :
      (i j : ℕ)
      → i < j
      → j < l.count
      → l.name_of i ≡ l.name_of j
      → (m : ℕ) × (l.prior_of j ≡ some m) × (i ≤ m)
  pub back : (j m : ℕ) → j < l.count → l.prior_of j ≡ some m → (m < j) × (l.name_of m ≡ l.name_of j)
  -- A task that began found it over.
  pub begun :
      (j m : ℕ)
      → j < l.count
      → l.phase_of j ≢ waiting
      → l.prior_of j ≡ some m
      → is_over (l.phase_of m) ≡ true

pub over→started : (p : Phase) → is_over p ≡ true → p ≢ waiting
over→started waiting h e = absurd (ground arith)
over→started running h e = absurd (ground arith)
over→started fulfilled h e = ground arith
over→started rejected h e = ground arith

pub set-new : {A : Type 0} (n : ℕ) (a : A) (f : ℕ → A) → set n a f n ≡ a
set-new n a f = ground arith

set-old : {A : Type 0} (n k : ℕ) (a : A) (f : ℕ → A) → k < n → set n a f k ≡ f k
set-old n k a f h = ground arith

-- A task that gets on from a phase in which it was not over.
over-set :
    (n m : ℕ) (p : Phase) (f : ℕ → Phase)
    → is_over (f n) ≡ false
    → is_over (f m) ≡ true
    → is_over (set n p f m) ≡ true
over-set n m p f idle done = elim (Bool-cases (m == n)) [
  | inl e ↦
      let same : m ≡ n = ground arith in
      let same_done : is_over (f n) ≡ true = subst (λ k. is_over (f k) ≡ true) same done in
      absurd (ground arith)
  | inr e ↦ rw e done
]

pub set_phase-Inv :
    (l : Lanes) (n : ℕ) (p : Phase)
    → Inv l
    → is_over (l.phase_of n) ≡ false
    → (l.phase_of n ≢ waiting) ⊎ (is_ready l.phase_of (l.prior_of n) ≡ true)
    → Inv (set_phase n p l)
set_phase-Inv l n p inv idle may = record {
  tail = inv.tail;
  lock = inv.lock;
  link = inv.link;
  back = inv.back;
  begun = λ j m c started prior. over-set n m p l.phase_of idle (found j m c started prior);
}
  where
    ready_over :
        (o : Option ℕ) (m : ℕ)
        → is_ready l.phase_of o ≡ true
        → o ≡ some m
        → is_over (l.phase_of m) ≡ true
    ready_over none m h e = absurd (ground arith)
    ready_over (some k) m h e = subst (λ o. is_ready l.phase_of o ≡ true) e h

    own :
        {m : ℕ}
        → n < l.count
        → l.prior_of n ≡ some m
        → (l.phase_of n ≢ waiting) ⊎ (is_ready l.phase_of (l.prior_of n) ≡ true)
        → is_over (l.phase_of m) ≡ true
    own {m} c prior (inl started) = inv.begun n m c started prior
    own {m} c prior (inr ready) = ready_over _ m ready prior

    found :
        (j m : ℕ)
        → j < l.count
        → set n p l.phase_of j ≢ waiting
        → l.prior_of j ≡ some m
        → is_over (l.phase_of m) ≡ true
    found j m c started prior = elim (Bool-cases (j == n)) [
      | inl e ↦
          let same : j ≡ n = ground arith in
          own (subst (λ k. k < l.count) same c) (subst (λ k. l.prior_of k ≡ some m) same prior) may
      | inr e ↦ inv.begun j m c (λ w. started (rw e w)) prior
    ]

pick :
    (b : Bool) (n m : ℕ) (x : Option ℕ)
    → (if b then some n else x) ≡ some m
    → ((b ≡ true) × (n ≡ m)) ⊎ (x ≡ some m)
pick true n m x e = inl (refl, ground arith)
pick false n m x e = inr e

module _ (l : Lanes) (name : Text) (inv : Inv l) where
  abbrev n : ℕ
  n = l.count

  tail-queue :
      (i : ℕ)
      → i < suc n
      → (m : ℕ) × (get (set n name l.name_of i) (insert name n l.locks) ≡ some m) × (i ≤ m)
  tail-queue i c = elim (Bool-cases (i == n)) [
    | inl e ↦ rw e (n, get-insert_self name n l.locks, ground arith)
    | inr e ↦ rw e (elim (Bool-cases (text_eq name (l.name_of i))) [
      | inl s ↦ (n, get-insert name (l.name_of i) n l.locks ∙ rw s refl, omega arith)
      | inr s ↦
          let (m, g, le) = inv.tail i (ground arith) in
          (m, get-insert name (l.name_of i) n l.locks ∙ rw s g, le)
    ])
  ]

  lock-queue :
      (j : Text) (m : ℕ)
      → get j (insert name n l.locks) ≡ some m
      → (m < suc n) × (set n name l.name_of m ≡ j)
  lock-queue j m g = elim (pick (text_eq name j) n m _ (sym (get-insert name j n l.locks) ∙ g)) [
    | inl (same, this) ↦
        subst (λ k. (k < suc n) × (set n name l.name_of k ≡ j)) this
          (omega arith, set-new n name l.name_of ∙ text_eq→eq name j same)
    | inr old ↦
        let (c, named) = inv.lock j m old in (omega arith, set-old n m name l.name_of c ∙ named)
  ]

  link-queue :
      (i j : ℕ)
      → i < j
      → j < suc n
      → set n name l.name_of i ≡ set n name l.name_of j
      → (m : ℕ) × (set n (get name l.locks) l.prior_of j ≡ some m) × (i ≤ m)
  link-queue i j lt c same = elim (Bool-cases (j == n)) [
    | inl e ↦
        let i_is : l.name_of i ≡ name =
          sym (set-old n i name l.name_of (omega arith)) ∙ same ∙ rw e refl in
        let (m, g, le) = inv.tail i (omega arith) in
        (m, rw e (subst (λ k. get k l.locks ≡ some m) i_is g), le)
    | inr e ↦
        let j_old : j < n = ground arith in
        let (m, prior, le) = inv.link i j lt j_old (
          sym (set-old n i name l.name_of (omega arith))
          ∙ same
          ∙ set-old n j name l.name_of j_old) in
        (m, set-old n j (get name l.locks) l.prior_of j_old ∙ prior, le)
  ]

  back-queue :
      (j m : ℕ)
      → j < suc n
      → set n (get name l.locks) l.prior_of j ≡ some m
      → (m < j) × (set n name l.name_of m ≡ set n name l.name_of j)
  back-queue j m c prior = elim (Bool-cases (j == n)) [
    | inl e ↦
        let here_ : set n (get name l.locks) l.prior_of j ≡ get name l.locks = rw e refl in
        let (old, named) = inv.lock name m (sym here_ ∙ prior) in
        (ground arith, set-old n m name l.name_of old ∙ rw e named)
    | inr e ↦
        let j_old : j < n = ground arith in
        let (before, named) =
          inv.back j m j_old (sym (set-old n j (get name l.locks) l.prior_of j_old) ∙ prior) in
        (before, set-old n m name l.name_of (omega arith) ∙ rw e named)
  ]

  begun-queue :
      (j m : ℕ)
      → j < suc n
      → set n waiting l.phase_of j ≢ waiting
      → set n (get name l.locks) l.prior_of j ≡ some m
      → is_over (set n waiting l.phase_of m) ≡ true
  begun-queue j m c started prior = elim (Bool-cases (j == n)) [
    | inl e ↦ absurd (started (rw e refl))
    | inr e ↦
        let j_old : j < n = ground arith in
        let was : l.prior_of j ≡ some m =
          sym (set-old n j (get name l.locks) l.prior_of j_old) ∙ prior in
        let (before, _) = inv.back j m j_old was in
        ap is_over (set-old n m waiting l.phase_of (omega arith))
        ∙ inv.begun j m j_old (λ w. started (rw e w)) was
  ]

  pub queue-Inv : Inv (queue name l)
  queue-Inv = record {
    tail = tail-queue;
    lock = lock-queue;
    link = link-queue;
    back = back-queue;
    begun = begun-queue;
  }

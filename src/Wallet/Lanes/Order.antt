-- ===== src/Wallet/Lanes/Order.antt =====
-- The lanes of `withLock` (dsh-wallet/src/index.ts) keep the order of the calls, and are never blocked.
use deepseek_harness_web3_ag.Prelude.{
  ℕ, zero, suc, ◌<◌, ◌≡◌, refl, sym, ◌∙◌, ap, subst, inl, inr, ◌≢◌, true, Option, none, some, Text,
  ◌==◌, arith, Bool-cases,
}
use deepseek_harness_web3_ag.Prelude.Maps.{get}
use deepseek_harness_web3_ag.Wallet.{ok, ResolvedDescriptor, WalletRuntime}
use deepseek_harness_web3_ag.Wallet.Lanes.{
  waiting, running, Lanes, queue, queue_if, with_lock, is_over, is_ready, set_phase, Step, arrive,
  begin, finish, Reach, here, next,
}
use deepseek_harness_web3_ag.Wallet.Lanes.Invariant.{
  Inv, over→started, set-new, set_phase-Inv, queue-Inv,
}

module _ (l : Lanes) (inv : Inv l) where
  -- By induction on a bound of the later task.
  Inv-Ordered :
      (bound i j : ℕ)
      → j < bound
      → i < j
      → j < l.count
      → l.name_of i ≡ l.name_of j
      → l.phase_of j ≢ waiting
      → is_over (l.phase_of i) ≡ true
  Inv-Ordered zero i j b lt c same started = absurd (omega arith)
  Inv-Ordered (suc bound) i j b lt c same started =
      let (m, prior, le) = inv.link i j lt c same in
      let (before, named) = inv.back j m c prior in
      let over = inv.begun j m c started prior in
      elim (Bool-cases (i == m)) [
        | inl e ↦ subst (λ k. is_over (l.phase_of k) ≡ true) (ground arith) over
        | inr e ↦
            Inv-Ordered bound i m (omega arith) (ground arith) (omega arith) (same ∙ sym named)
              (over→started _ over)
      ]

  ready_if :
      (j : ℕ) (o : Option ℕ)
      → l.prior_of j ≡ o
      → j < l.count
      → ((i : ℕ) → i < j → l.name_of i ≡ l.name_of j → is_over (l.phase_of i) ≡ true)
      → is_ready l.phase_of o ≡ true
  ready_if j none e c h = refl
  ready_if j (some m) e c h = let (before, named) = inv.back j m c e in h m before named

module _ (r : WalletRuntime) where
  arrive-Inv :
      (l l' : Lanes) (name : Text) (d : Option ResolvedDescriptor)
      → Inv l
      → queue_if name l d ≡ ok l'
      → Inv l'
  arrive-Inv l l' name none inv e = absurd (ground arith)
  arrive-Inv l l' name (some d) inv e =
      let same : queue name l ≡ l' = cc in subst (λ x. Inv x) same (queue-Inv l name inv)

  Step-Inv : {l l' : Lanes} → Inv l → Step r l l' → Inv l'
  unfolding with_lock
  Step-Inv {l} inv (arrive name l' e) = arrive-Inv l l' name _ inv e
  Step-Inv {l} inv (begin n c w ready) = set_phase-Inv l n running inv (ap is_over w) (inr ready)
  Step-Inv {l} inv (finish n p c w over) =
      set_phase-Inv l n p inv (ap is_over w) (inl (λ idle. absurd (ground arith)))

  Reach-Inv : {l : Lanes} → Reach r l → Inv l
  unfolding get
  Reach-Inv here = record {
    tail = λ i c. absurd (omega arith);
    lock = λ name m e. absurd (ground arith);
    link = λ i j lt c e. absurd (omega arith);
    back = λ j m c e. absurd (omega arith);
    begun = λ j m c s e. absurd (omega arith);
  }
  Reach-Inv (next w s) = Step-Inv (Reach-Inv w) s

  -- However the calls, beginnings and ends of tasks interleave, and whether the tasks are fulfilled or
  -- rejected: when a task has begun, each task of the same wallet that was called before it is over. So the
  -- tasks of a wallet begin in the order of the calls, and no two of them run at once.
  pub with_lock_exclusive :
      (l : Lanes)
      → Reach r l
      → (i j : ℕ) → i < j
      → j < l.count
      → l.name_of i ≡ l.name_of j
      → l.phase_of j ≢ waiting
      → is_over (l.phase_of i) ≡ true
  with_lock_exclusive l w i j = Inv-Ordered l (Reach-Inv w) (suc j) i j (omega arith)

  -- No lane is blocked: once the tasks of its wallet that were called before it are over, be they fulfilled
  -- or rejected, a waiting task can begin, whatever the other wallets do.
  pub with_lock_begins :
      (l : Lanes)
      → Reach r l
      → (j : ℕ) → j < l.count
      → l.phase_of j ≡ waiting
      → ((i : ℕ) → i < j → l.name_of i ≡ l.name_of j → is_over (l.phase_of i) ≡ true)
      → (l' : Lanes) × Step r l l' × (l'.phase_of j ≡ running)
  with_lock_begins l w j c waits over = (
    set_phase j running l,
    begin j c waits (ready_if l (Reach-Inv w) j _ refl c over),
    set-new j running l.phase_of,
  )

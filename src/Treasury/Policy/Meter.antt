-- ===== src/Treasury/Policy/Meter.antt =====
-- What the policy charges: an admitted call once, a request at its price.
use deepseek_harness_web3_ag.Prelude.{
  ℕ, ◌<◌, ◌≡◌, refl, ◌⊎◌, inl, inr, Bool, none, some, ◌++◌, Text, codes, ltb, arith, ap₂, subst,
  Option-cases, Bool-cases,
}
use deepseek_harness_web3_ag.Prelude.Maps.{get, erase, get-erase_self}
use deepseek_harness_web3_ag.Treasury.Economics.{BudgetCategory, inference}
use deepseek_harness_web3_ag.Treasury.Domain.{ChainBalance, Expense, Table, TreasuryReport}
use deepseek_harness_web3_ag.Treasury.Ledger.{
  Ledger, ok, Result-cases, ResolvedConfig, expense_of, record_expense,
}
use deepseek_harness_web3_ag.Treasury.Ledger.Expenses.{Recorded, record_expense-Recorded}
use deepseek_harness_web3_ag.Treasury.Policy.{
  ResolvedPolicyConfig, PolicyState, Admitted, Outcome, passed, unmetered, Stamp, metered, gate,
  meter, on_request, post_execute,
}
use deepseek_harness_web3_ag.Treasury.Policy.Gate.{price}

forgotten : (agent : Text) (p : PolicyState) → get agent (erase agent p.pending_step) ≡ none
forgotten agent p = get-erase_self agent p.pending_step

charged_of_passed :
    {P : Type 0} {o : Outcome} → ((o ≡ passed) × P) ⊎ (o ≡ unmetered) → o ≡ passed → P
charged_of_passed (inl (_, charged)) e = charged
charged_of_passed (inr failed) e = absurd (cc)

module _ {B : Table ChainBalance} {X : Table Expense} (config : ResolvedConfig)
    (policy : ResolvedPolicyConfig) where
  -- One expense of the category and the amount, at the time of the stamp, was recorded.
  abbrev pub Charged : BudgetCategory → ℕ → Text → Stamp → Ledger B X → Ledger B X → Type 0
  Charged category amount about stamp s s' =
      Recorded config stamp.key
        (expense_of (metered category amount about) stamp.now category amount) s s'

  Charged-ok :
      (category : BudgetCategory) (amount : ℕ) (about : Text) (stamp : Stamp) (s s' : Ledger B X)
      (r : TreasuryReport)
      → record_expense config (metered category amount about) stamp.now stamp.key stamp.clock s
        ≡ (ok r, s')
      → Charged category amount about stamp s s'
  Charged-ok category amount about stamp s s' r h =
      let (c, a, same_c, same_a, recorded) =
        record_expense-Recorded config (metered category amount about) stamp.now stamp.key
          stamp.clock s s' r h in
      subst (λ e. Recorded config stamp.key e s s')
        (ap₂ (expense_of (metered category amount about) stamp.now) (cc same_c) (cc same_a))
        recorded

  meter-Charged :
      (category : BudgetCategory) (amount : ℕ) (about : Text) (stamp : Stamp) (s : Ledger B X)
      → let (o, s') = meter config policy category amount about stamp s in
        ((o ≡ passed) × Charged category amount about stamp s s') ⊎ (o ≡ unmetered)
  unfolding meter
  meter-Charged category amount about stamp s =
      elim (Result-cases
        (record_expense config (metered category amount about) stamp.now stamp.key stamp.clock
          s).0) [
            | inl (e, failed) ↦ inr (rw (failed, meter))
            | inr (r, recorded) ↦ inl (
              rw (recorded, meter),
              Charged-ok category amount about stamp s _ r (λ i. (
                recorded i,
                (record_expense config (metered category amount about) stamp.now stamp.key
                    stamp.clock s).1,
              )),
            )
          ]

  post_execute_unknown :
      (token : Text) (stamp : Stamp) (p : PolicyState) (s : Ledger B X)
      → get token p.admitted ≡ none
      → post_execute config policy token stamp (p, s) ≡ (passed, p, s)
  unfolding post_execute
  post_execute_unknown token stamp p s h = ground arith

  post_execute_known :
      (token : Text) (stamp : Stamp) (p : PolicyState) (s : Ledger B X) (call : Admitted)
      → get token p.admitted ≡ some call
      → let (o, s') =
          meter config policy call.category call.cost_usd (codes "tool " ++ call.tool) stamp s in
        post_execute config policy token stamp (p, s)
        ≡ (o, record p { admitted = erase token p.admitted }, s')
  unfolding post_execute
  post_execute_known token stamp p s call h = rw (h, post_execute)

  -- `tools/post-execute` charges an admitted call its noted category and cost, unless the ledger
  -- throws, and forgets it either way: a second settlement of the token charges nothing.
  pub post_execute_charges_once :
      (token : Text) (stamp stamp' : Stamp) (p : PolicyState) (s : Ledger B X) (call : Admitted)
      → get token p.admitted ≡ some call
      → let (o, p', s') = post_execute config policy token stamp (p, s) in
        (((o ≡ passed)
            × Charged call.category call.cost_usd (codes "tool " ++ call.tool) stamp s s')
          ⊎ (o ≡ unmetered))
        × (post_execute config policy token stamp' (p', s') ≡ (passed, p', s'))
  post_execute_charges_once token stamp stamp' p s call noted =
      rw (post_execute_known token stamp p s call noted) (
        meter-Charged call.category call.cost_usd (codes "tool " ++ call.tool) stamp s,
        post_execute_unknown token stamp' _ _ (get-erase_self token p.admitted),
      )

  -- `agent/request` that neither denies nor throws has charged the price of the request to
  -- inference, or charged nothing where the price is 0; the stashed batch is consumed.
  pub on_request_charges :
      (agent : Text) (turn step measured : ℕ) (next_ok : Bool) (about : Text) (stamp : Stamp)
      (p : PolicyState) (s : Ledger B X)
      → let (o, p', s') =
          on_request config policy agent turn step measured next_ok about stamp (p, s) in
        let cost = price policy agent turn step measured p in
        (get agent p'.pending_step ≡ none)
        × (o ≡ passed
            → ((cost ≡ 0) × (s' ≡ s)) ⊎ ((0 < cost) × Charged inference cost about stamp s s'))
  unfolding on_request
  on_request_charges agent turn step measured next_ok about stamp p s =
      let cost = price policy agent turn step measured p in
      elim (Option-cases (gate config policy inference cost s)) [
        | inr (d, shut) ↦ rw (shut, on_request) (forgotten agent p, λ e. absurd (cc))
        | inl open_gate ↦ elim (Bool-cases next_ok) [
          | inr threw ↦ rw (open_gate, threw, on_request) (forgotten agent p, λ e. absurd (cc))
          | inl went ↦ elim (Bool-cases (ltb 0 cost)) [
            | inr free ↦
                rw (open_gate, went, free, on_request)
                  (forgotten agent p, λ e. inl (ground arith, refl))
            | inl priced ↦
                rw (open_gate, went, priced, on_request)
                  (
                    forgotten agent p,
                    λ e. inr (
                      ground arith,
                      charged_of_passed (meter-Charged inference cost about stamp s) e,
                    ),
                  )
          ]
        ]
      ]

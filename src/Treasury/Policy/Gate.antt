-- ===== src/Treasury/Policy/Gate.antt =====
-- Whom the gate of the policy refuses, and that a refusal leaves no trace in the ledger.
use deepseek_harness_web3_ag.Prelude.{
  ℕ, ◌+◌, ◌≡◌, ◌≢◌, refl, ◌∙◌, ◌↔◌, ◌⊎◌, inl, inr, Bool, true, false, ◌&&◌, none, some, Text, ◌==◌,
  if◌then◌else◌, arith, Option-cases, Bool-cases,
}
use deepseek_harness_web3_ag.Prelude.Maps.{get, insert, get-insert_self}
use deepseek_harness_web3_ag.Treasury.Economics.{BudgetCategory, inference, CostDecision}
use deepseek_harness_web3_ag.Treasury.Economics.Gradient.{Allows, authorize_cost_iff}
use deepseek_harness_web3_ag.Treasury.Domain.{ChainBalance, Expense, Table}
use deepseek_harness_web3_ag.Treasury.Ledger.{Ledger, ResolvedConfig, authorize, spent_percentage}
use deepseek_harness_web3_ag.Treasury.Policy.{
  ResolvedPolicyConfig, PolicyState, Outcome, denied, passed, Stamp, stashed, is_funded, gate,
  estimated_cost, on_request, tool_cost, tool_category, is_exempt, pre_execute,
}

abbrev pub IsDenied : Outcome → Type 0
IsDenied (denied d) = d.approved ≡ false
IsDenied _ = ⊥

-- The price of a request: that of the session, and of the batch stashed for this turn and step.
abbrev pub price : ResolvedPolicyConfig → Text → ℕ → ℕ → ℕ → PolicyState → ℕ
price policy agent turn step measured p =
    estimated_cost policy (measured + stashed (get agent p.pending_step) turn step)

-- What a call that is metered leaves: its category and declared cost, under its token.
abbrev pub Notes : ResolvedPolicyConfig → (token tool : Text) → PolicyState → Type 0
Notes policy token tool p =
    get token p.admitted
    ≡ some (record {
      category = tool_category policy tool;
      cost_usd = tool_cost policy tool;
      tool = tool;
    })

module _ {B : Table ChainBalance} {X : Table Expense} (config : ResolvedConfig)
    (policy : ResolvedPolicyConfig) where
  -- The gate is armed, and the ledger's state does not allow the cost.
  abbrev pub Refuses : BudgetCategory → ℕ → Ledger B X → Type 0
  Refuses category cost s =
      (policy.enabled ≡ true)
      × (is_funded config policy s ≡ true)
      × ¬ (Allows s.current category cost config.budget (spent_percentage config category s))

  authorize_iff :
      (category : BudgetCategory) (cost : ℕ) (s : Ledger B X)
      → ((authorize config category cost s).approved ≡ true)
        ↔ Allows s.current category cost config.budget (spent_percentage config category s)
  unfolding authorize
  authorize_iff category cost s =
      authorize_cost_iff s.current category cost config.budget (spent_percentage config category s)

  gate_armed :
      (category : BudgetCategory) (cost : ℕ) (s : Ledger B X)
      → policy.enabled ≡ true
      → is_funded config policy s ≡ true
      → gate config policy category cost s ≡ (
          if (authorize config category cost s).approved
          then none
          else some (authorize config category cost s))
  unfolding gate
  gate_armed category cost s on funded = simp (on, funded)

  gate_unarmed :
      (category : BudgetCategory) (cost : ℕ) (s : Ledger B X)
      → policy.enabled && is_funded config policy s ≡ false
      → gate config policy category cost s ≡ none
  unfolding gate
  gate_unarmed category cost s off = rw off

  pub gate-Refuses :
      (category : BudgetCategory) (cost : ℕ) (s : Ledger B X)
      → Refuses category cost s
      → (d : CostDecision) × (gate config policy category cost s ≡ some d) × (d.approved ≡ false)
  gate-Refuses category cost s (on, funded, barred) =
      elim (Bool-cases (authorize config category cost s).approved) [
        | inl approved ↦ absurd (barred ((authorize_iff category cost s).0 approved))
        | inr refused ↦ (
          authorize config category cost s,
          gate_armed category cost s on funded ∙ rw refused,
          refused,
        )
      ]

  pub gate-some :
      (category : BudgetCategory) (cost : ℕ) (s : Ledger B X) (d : CostDecision)
      → gate config policy category cost s ≡ some d
      → Refuses category cost s × (d.approved ≡ false)
  gate-some category cost s d h = elim (Bool-cases (policy.enabled && is_funded config policy s)) [
    | inr off ↦ absurd (cc (gate_unarmed category cost s off))
    | inl armed ↦ elim (Bool-cases (authorize config category cost s).approved) [
      | inl approved ↦
          absurd (ground (arith, gate_armed category cost s (ground arith) (ground arith)))
      | inr refused ↦ (
        (
          ground arith,
          ground arith,
          λ allows. cc (refused, (authorize_iff category cost s).1 allows),
        ),
        ground (arith, gate_armed category cost s (ground arith) (ground arith)),
      )
    ]
  ]

  -- `agent/request` denies a request that the gate refuses at its price, which counts the session
  -- and the batch stashed for this very turn and step: `next` is not called, and neither the ledger
  -- nor the admitted calls change.
  on_request_denies :
      (agent : Text) (turn step measured : ℕ) (next_ok : Bool) (about : Text) (stamp : Stamp)
      (p : PolicyState) (s : Ledger B X)
      → Refuses inference (price policy agent turn step measured p) s
      → let (o, p', s') =
          on_request config policy agent turn step measured next_ok about stamp (p, s) in
        IsDenied o × (s' ≡ s) × (p'.admitted ≡ p.admitted)
  unfolding on_request
  on_request_denies agent turn step measured next_ok about stamp p s h =
      let (d, refused, bad) =
        gate-Refuses inference (price policy agent turn step measured p) s h in
      rw (refused, on_request, IsDenied) (bad, refl, refl)

  -- How `tools/pre-execute` ends a call, by the three questions that it asks in turn.
  pub data Ends (token tool : Text) (p : PolicyState) (s : Ledger B X)
      : Outcome × PolicyState × Ledger B X → Type 0 where
    free :
        (is_exempt policy tool ≡ true) ⊎ (tool_cost policy tool ≡ 0)
        → Ends token tool p s (passed, p, s)
    barred :
        {d : CostDecision}
        → is_exempt policy tool ≡ false
        → tool_cost policy tool ≢ 0
        → Refuses (tool_category policy tool) (tool_cost policy tool) s
        → d.approved ≡ false
        → Ends token tool p s (denied d, p, s)
    noted :
        {p' : PolicyState}
        → is_exempt policy tool ≡ false
        → tool_cost policy tool ≢ 0
        → ¬ (Refuses (tool_category policy tool) (tool_cost policy tool) s)
        → Notes policy token tool p'
        → p'.pending_step ≡ p.pending_step
        → Ends token tool p s (passed, p', s)

  gate-Ends :
      (token tool : Text) (p : PolicyState) (s : Ledger B X)
      → is_exempt policy tool ≡ false
      → tool_cost policy tool ≢ 0
      → Ends token tool p s
          (elim (gate config policy (tool_category policy tool) (tool_cost policy tool) s) [
            | some decision ↦ (denied decision, p, s)
            | none ↦ (
              passed,
              record p {
                admitted =
                    insert token
                      (record {
                        category = tool_category policy tool;
                        cost_usd = tool_cost policy tool;
                        tool = tool;
                      })
                      p.admitted;
              },
              s,
            )
          ])
  gate-Ends token tool p s covered priced =
      let category = tool_category policy tool in
      let cost = tool_cost policy tool in
      elim (Option-cases (gate config policy category cost s)) [
        | inl open_gate ↦ rw open_gate (
            noted covered priced (λ h. let (d, shut, _) = gate-Refuses category cost s h in cc)
              (get-insert_self token _ p.admitted) refl)
        | inr (d, shut) ↦
            let (refuses, bad) = gate-some category cost s d shut in
            rw shut (barred covered priced refuses bad)
      ]

  -- `tools/pre-execute` lets an exempt call and a call without a cost pass and notes nothing; it
  -- denies what the gate refuses, and notes every other call with its category and declared cost.
  -- The ledger never changes.
  pub pre_execute-Ends :
      (token tool : Text) (p : PolicyState) (s : Ledger B X)
      → Ends token tool p s (pre_execute config policy token tool (p, s))
  unfolding pre_execute
  pre_execute-Ends token tool p s = elim (Bool-cases (is_exempt policy tool)) [
    | inl exempt ↦ rw exempt (free (inl exempt))
    | inr covered ↦ elim (Bool-cases (tool_cost policy tool == 0)) [
      | inl nothing ↦ rw (covered, nothing) (free (inr (ground arith)))
      | inr priced ↦ rw (covered, priced) (gate-Ends token tool p s covered (ground arith))
    ]
  ]

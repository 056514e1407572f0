-- ===== src/Treasury/Policy.antt =====
-- dsh-treasury/src/policy.ts: the listeners that enforce the ledger on requests and tool calls. An
-- agent and an execution token are objects, which are named by texts here.
pub mod Gate
pub mod Meter
use deepseek_harness_web3_ag.Prelude.{
  ℕ, ◌+◌, ◌*◌, ◌≡◌, Bool, true, false, ◌&&◌, not, Option, none, some, List, [], ◌∷◌, ◌++◌, Text,
  codes, ltb, ◌==◌, if◌then◌else◌, any,
}
use deepseek_harness_web3_ag.Prelude.Maps.{Dict, get, insert, erase}
use deepseek_harness_web3_ag.Wildcard.{matches}
use deepseek_harness_web3_ag.Treasury.Economics.{BudgetCategory, inference, tools, CostDecision}
use deepseek_harness_web3_ag.Treasury.Domain.{
  Number, nat, natural?, ChainBalance, Expense, ExpenseInput, TreasuryReport, Table,
}
use deepseek_harness_web3_ag.Treasury.Ledger.{
  Ledger, Result, ok, err, Readings, ResolvedConfig, ceil_div, authorize, record_expense,
}

-- `Config`; an absent member is `none`, and so is a category outside the six. The entries of the two
-- dictionaries stand in the order in which `Object.entries` gives them.
pub record PolicyConfig : Type 0 where
  pub enabled : Option Bool
  pub inference_usd_per_million_tokens : Number
  pub tool_costs : Option (Dict Number)
  pub tool_categories : Option (Dict (Option BudgetCategory))
  pub default_tool_cost_usd : Option Number
  pub exempt_tools : Option (List Text)

-- A pattern stands for its compiled form: `matches` is the test.
pub record ResolvedPolicyConfig : Type 0 where
  pub enabled : Bool
  pub usd_per_million_tokens : ℕ
  pub tool_costs : Dict ℕ
  pub tool_categories : Dict BudgetCategory
  pub default_tool_cost_usd : ℕ
  pub exempt : List Text

-- `x ?? d`
abbrev or_default {ℓ} : {A : Type ℓ} → Option A → A → A
or_default none d = d
or_default (some a) d = a

abbrev bind {ℓ κ} : {A : Type ℓ} {C : Type κ} → Option A → (A → Option C) → Option C
bind none k = none
bind (some a) k = k a

-- Every entry through its check; the first that fails throws.
unfoldable pub check_entries : {A C : Type 0} → (A → Option C) → Dict A → Option (Dict C)
check_entries f [] = some []
check_entries f ((k, a) ∷ m) = bind (f a) λ c. bind (check_entries f m) λ rest. some ((k, c) ∷ rest)

abbrev same_category : Option BudgetCategory → Option BudgetCategory
same_category c = c

-- `none` where the source throws.
unfoldable pub resolve_policy_config : PolicyConfig → Option ResolvedPolicyConfig
unfolding check_entries
resolve_policy_config config = bind (natural? config.inference_usd_per_million_tokens) λ rate.
    bind (check_entries natural? (or_default config.tool_costs [])) λ costs.
      bind (check_entries same_category (or_default config.tool_categories [])) λ categories.
        bind (natural? (or_default config.default_tool_cost_usd (nat 0))) λ default_cost.
          some (record {
            enabled = or_default config.enabled false;
            usd_per_million_tokens = rate;
            tool_costs = costs;
            tool_categories = categories;
            default_tool_cost_usd = default_cost;
            exempt = or_default config.exempt_tools [];
          })

unfoldable pub first_match {ℓ} : {A : Type ℓ} → Dict A → Text → A → A
first_match [] tool fallback = fallback
first_match ((pattern, value) ∷ rules) tool fallback =
    if matches pattern tool then value else first_match rules tool fallback

pub record PendingStep : Type 0 where
  pub turn : ℕ
  pub step : ℕ
  pub tokens : ℕ

pub record Admitted : Type 0 where
  pub category : BudgetCategory
  pub cost_usd : ℕ
  pub tool : Text

-- The two maps of `apply`.
pub record PolicyState : Type 0 where
  pub pending_step : Dict PendingStep
  pub admitted : Dict Admitted

-- How a listener ended: with its denial (thrown by `agent/request`, returned by `tools/pre-execute`)
-- and no call of `next`; with what `next` gives; with an error out of `next`; or with an error of
-- the ledger while metering, which comes after `next` in `agent/request` and in its place after a
-- tool.
pub data Outcome : Type 0 where
  denied : CostDecision → Outcome
  passed : Outcome
  next_threw : Outcome
  unmetered : Outcome

abbrev sum : List ℕ → ℕ
sum [] = 0
sum (n ∷ ns) = n + sum ns

-- `agent/pre-step`; `estimates` are those of the token meter, a message each.
unfoldable pub pre_step : Text → List ℕ → ℕ → ℕ → PolicyState → PolicyState
pre_step agent estimates turn step p = record p {
  pending_step =
      insert agent (record { turn = turn; step = step; tokens = sum estimates }) p.pending_step;
}

-- The stashed pressure of this very turn and step.
abbrev stashed : Option PendingStep → ℕ → ℕ → ℕ
stashed none turn step = 0
stashed (some slot) turn step = if slot.turn == turn && slot.step == step then slot.tokens else 0

-- What a metered call hands to `recordExpense`; `about` is the description.
abbrev pub metered : BudgetCategory → ℕ → Text → ExpenseInput
metered category amount about = record {
  category = some category;
  amount = nat amount;
  token = none;
  description = some about;
}

-- The other arguments of one `recordExpense`: the time, the row's key, and the clock.
pub record Stamp : Type 0 where
  pub now : ℕ
  pub key : Text
  pub clock : Readings

module _ (policy : ResolvedPolicyConfig) where
  -- `Math.ceil((pendingTokens * usdPerMillionTokens) / 1_000_000)`
  unfoldable pub estimated_cost : ℕ → ℕ
  estimated_cost tokens = ceil_div (tokens * policy.usd_per_million_tokens) 1000000

  unfoldable pub tool_cost : Text → ℕ
  tool_cost tool = first_match policy.tool_costs tool policy.default_tool_cost_usd

  unfoldable pub tool_category : Text → BudgetCategory
  tool_category tool = first_match policy.tool_categories tool tools

  unfoldable pub is_exempt : Text → Bool
  is_exempt tool = any (λ pattern. matches pattern tool) policy.exempt

module _ {B : Table ChainBalance} {X : Table Expense} (config : ResolvedConfig)
    (policy : ResolvedPolicyConfig) where
  -- `ctx.treasury.report().balances.length > 0`
  unfoldable pub is_funded : Ledger B X → Bool
  is_funded s = elim (B.entries s.balances) [ [] ↦ false | _ ∷ _ ↦ true ]

  -- The gate of both listeners: a refusal, where enforcement is live.
  unfoldable pub gate : BudgetCategory → ℕ → Ledger B X → Option CostDecision
  gate category cost s =
      if policy.enabled && is_funded s
      then (let decision = authorize config category cost s in
          if decision.approved then none else some decision)
      else none

  -- `await recordExpense(...)`: its error goes through.
  unfoldable pub meter : BudgetCategory → ℕ → Text → Stamp → Ledger B X → Outcome × Ledger B X
  meter category amount about stamp s =
      let (r, s') =
        record_expense config (metered category amount about) stamp.now stamp.key stamp.clock s in
      (elim r [ ok _ ↦ passed | err _ ↦ unmetered ], s')

  -- `agent/request`: `measured` is the meter's total for the session, `about` the description.
  -- `next_ok` says whether the listeners downstream return.
  unfoldable pub on_request :
      (agent : Text) (turn step measured : ℕ) (next_ok : Bool) (about : Text)
      → Stamp
      → PolicyState × Ledger B X
      → Outcome × PolicyState × Ledger B X
  on_request agent turn step measured next_ok about stamp (p, s) =
      let tokens = measured + stashed (get agent p.pending_step) turn step in
      let cost = estimated_cost policy tokens in
      let p' : PolicyState = record p { pending_step = erase agent p.pending_step } in
      elim (gate inference cost s) [
        | some decision ↦ (denied decision, p', s)
        | none ↦
            if not next_ok
            then (next_threw, p', s)
            else if ltb 0 cost
            then (let (o, s') = meter inference cost about stamp s in (o, p', s'))
            else (passed, p', s)
      ]

  -- `tools/pre-execute`
  unfoldable pub pre_execute :
      (token tool : Text) → PolicyState × Ledger B X → Outcome × PolicyState × Ledger B X
  pre_execute token tool (p, s) =
      let cost = tool_cost policy tool in
      let category = tool_category policy tool in
      if is_exempt policy tool
      then (passed, p, s)
      else if cost == 0
      then (passed, p, s)
      else elim (gate category cost s) [
        | some decision ↦ (denied decision, p, s)
        | none ↦ (
          passed,
          record p {
            admitted =
                insert token (record { category = category; cost_usd = cost; tool = tool })
                  p.admitted;
          },
          s,
        )
      ]

  -- `tools/post-execute`
  unfoldable pub post_execute :
      (token : Text) → Stamp → PolicyState × Ledger B X → Outcome × PolicyState × Ledger B X
  post_execute token stamp (p, s) = elim (get token p.admitted) [
    | none ↦ (passed, p, s)
    | some pending ↦
        let (o, s') =
          meter pending.category pending.cost_usd (codes "tool " ++ pending.tool) stamp s in
        (o, record p { admitted = erase token p.admitted }, s')
  ]

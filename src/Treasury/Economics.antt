-- ===== src/Treasury/Economics.antt =====
-- dsh-treasury/src/haven.ts: the survival economics. Amounts are naturals of micro-USD, exact as
-- doubles up to 2^53; budget shares are whole percentages.
pub mod Gradient
use deepseek_harness_web3_ag.Prelude.{
  ℕ, ◌/◌, ◌≡◌, Bool, true, false, List, [], ◌∷◌, Text, codes, ltb, ◌==◌, if◌then◌else◌,
}
use deepseek_harness_web3_ag.Prelude.{◌++◌}

pub data TreasuryState : Type 0 where
  funded low critical depleted : TreasuryState

pub data BudgetCategory : Type 0 where
  inference tools infrastructure storage messaging reserve : BudgetCategory

abbrev pub budget_categories : List BudgetCategory
budget_categories = inference ∷ tools ∷ infrastructure ∷ storage ∷ messaging ∷ reserve ∷ []

pub record BudgetAllocation : Type 0 where
  pub inference : ℕ
  pub tools : ℕ
  pub infrastructure : ℕ
  pub storage : ℕ
  pub messaging : ℕ
  pub reserve : ℕ

-- `budget[category]`
abbrev pub share : BudgetAllocation → BudgetCategory → ℕ
share b inference = b.inference
share b tools = b.tools
share b infrastructure = b.infrastructure
share b storage = b.storage
share b messaging = b.messaging
share b reserve = b.reserve

abbrev pub infinite_runway_days : ℕ
infinite_runway_days = 9999

abbrev pub critical_inference_cap_usd : ℕ
critical_inference_cap_usd = 100000

abbrev pub default_budget_allocation : BudgetAllocation
default_budget_allocation = record {
  inference = 38;
  tools = 14;
  infrastructure = 28;
  storage = 5;
  messaging = 10;
  reserve = 5;
}

unfoldable pub compute_runway : ℕ → ℕ → ℕ
compute_runway total burn = if burn == 0 then infinite_runway_days else total / burn

unfoldable pub compute_treasury_state : ℕ → TreasuryState
compute_treasury_state days =
    if ltb 30 days
    then funded
    else if ltb 7 days
    then low
    else if ltb 0 days
    then critical
    else depleted

unfoldable pub is_budget_available : BudgetAllocation → BudgetCategory → ℕ → Bool
is_budget_available budget category spent = ltb spent (share budget category)

pub record CostDecision : Type 0 where
  pub approved : Bool
  pub reason : Text

abbrev approve : Text → CostDecision
approve why = record { approved = true; reason = why }

abbrev refuse : Text → CostDecision
refuse why = record { approved = false; reason = why }

-- `${category}`
abbrev pub category_name : BudgetCategory → Text
category_name inference = codes "inference"
category_name tools = codes "tools"
category_name infrastructure = codes "infrastructure"
category_name storage = codes "storage"
category_name messaging = codes "messaging"
category_name reserve = codes "reserve"

-- A reason that ends in the quoted category.
abbrev quoted : Text → BudgetCategory → Text
quoted before category = before ++ codes "\"" ++ category_name category ++ codes "\""

abbrev budget_verdict : BudgetAllocation → BudgetCategory → ℕ → Text → Text → CostDecision
budget_verdict budget category spent within beyond =
    if is_budget_available budget category spent
    then approve within
    else refuse (quoted beyond category)

-- The case for `critical`.
abbrev critical_verdict : BudgetCategory → ℕ → CostDecision
critical_verdict infrastructure cost = approve (codes "Infrastructure authorized (survival)")
critical_verdict storage cost = approve (codes "Storage authorized (survival — memory persistence)")
critical_verdict inference cost =
    if ltb cost critical_inference_cap_usd
    then approve (codes "Minimal inference authorized (survival)")
    else refuse (codes "Inference too expensive in CRITICAL state")
critical_verdict other cost =
    refuse (quoted (codes "Denied in CRITICAL state (category ") other ++ codes ")")

-- The case for `low`.
abbrev low_verdict : BudgetAllocation → BudgetCategory → ℕ → CostDecision
low_verdict budget reserve spent = refuse (codes "Reserve locked in LOW state")
low_verdict budget category spent =
    budget_verdict budget category spent (codes "Authorized (cost-conscious)")
      (codes "Budget exhausted in LOW state for category ")

unfoldable pub authorize_cost :
    TreasuryState → BudgetCategory → ℕ → BudgetAllocation → ℕ → CostDecision
unfolding is_budget_available
authorize_cost funded category cost budget spent =
    budget_verdict budget category spent (codes "Authorized")
      (codes "Budget limit reached for category ")
authorize_cost low category cost budget spent = low_verdict budget category spent
authorize_cost critical category cost budget spent = critical_verdict category cost
authorize_cost depleted category cost budget spent = refuse (codes "DEPLETED — no funds available")

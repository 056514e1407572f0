-- ===== src/Treasury/Economics/Gradient.antt =====
-- What the survival gradient of haven.ts promises, as tables that do not mention the code.
use deepseek_harness_web3_ag.Prelude.{ℕ, zero, suc, ◌*◌, ◌/◌, ◌≤◌, ◌<◌, ◌≡◌, refl, ◌↔◌, true, arith}
use native.Mathlib.Nat.{le-div_iff_mul-le}
use deepseek_harness_web3_ag.Treasury.Economics.{
  TreasuryState, funded, low, critical, depleted, BudgetCategory, inference, infrastructure,
  storage, reserve, BudgetAllocation, share, critical_inference_cap_usd, compute_runway,
  compute_treasury_state, authorize_cost,
}

-- How many days of burn the value covers, without division.
abbrev pub Covers : ℕ → ℕ → ℕ → Type 0
Covers total burn days = days * burn ≤ total

-- The state that the value and the burn deserve.
abbrev pub Deserves : TreasuryState → ℕ → ℕ → Type 0
Deserves funded total burn = Covers total burn 31
Deserves low total burn = Covers total burn 8 × (total < 31 * burn)
Deserves critical total burn = Covers total burn 1 × (total < 8 * burn)
Deserves depleted total burn = total < burn

-- What each state lets through.
abbrev pub Allows : TreasuryState → BudgetCategory → ℕ → BudgetAllocation → ℕ → Type 0
Allows funded c cost budget spent = spent < share budget c
Allows low reserve cost budget spent = ⊥
Allows low c cost budget spent = spent < share budget c
Allows critical infrastructure cost budget spent = Unit
Allows critical storage cost budget spent = Unit
Allows critical inference cost budget spent = cost < critical_inference_cap_usd
Allows critical c cost budget spent = ⊥
Allows depleted c cost budget spent = ⊥

-- Severity, for comparing states.
abbrev pub health : TreasuryState → ℕ
health depleted = 0
health critical = 1
health low = 2
health funded = 3

compute_runway_pos : (total burn : ℕ) → 0 < burn → compute_runway total burn ≡ total / burn
unfolding compute_runway
compute_runway_pos total burn h = ground arith

-- The runway is the number of days that the value covers.
runway_iff :
    (total burn : ℕ) → 0 < burn → (k : ℕ) → (k ≤ compute_runway total burn) ↔ (k * burn ≤ total)
runway_iff total burn h k = rw (compute_runway_pos total burn h) (le-div_iff_mul-le h)

no_burn : (total : ℕ) → compute_treasury_state (compute_runway total 0) ≡ funded
unfolding compute_treasury_state compute_runway
no_burn total = refl

health-le : (s : TreasuryState) → health s ≤ 3
health-le funded = omega arith
health-le low = omega arith
health-le critical = omega arith
health-le depleted = omega arith

-- The state against the thresholds, when the days are known to be the covered ones.
Deserves-days :
    (days total burn : ℕ)
    → ((k : ℕ) → (k ≤ days) ↔ (k * burn ≤ total))
    → Deserves (compute_treasury_state days) total burn
unfolding compute_treasury_state
Deserves-days days total burn h = ground (arith, h 1, h 8, h 31)

-- While there is a burn, the derived state is `funded` where the value covers 31 days of burn,
-- `low` where it covers 8 days but not 31, `critical` where it covers one day but not 8, and
-- `depleted` where it covers none.
pub compute_treasury_state-Deserves :
    (total burn : ℕ)
    → 0 < burn
    → Deserves (compute_treasury_state (compute_runway total burn)) total burn
compute_treasury_state-Deserves total burn h =
    Deserves-days (compute_runway total burn) total burn (runway_iff total burn h)

health_mono :
    (d d' : ℕ) → d ≤ d' → health (compute_treasury_state d) ≤ health (compute_treasury_state d')
unfolding compute_treasury_state
health_mono d d' h = ground arith

-- A larger value and a smaller burn never shorten the runway, unless there was no burn at all.
compute_runway_mono :
    (total total' burn burn' : ℕ)
    → total ≤ total'
    → burn' ≤ burn
    → 0 < burn'
    → compute_runway total burn ≤ compute_runway total' burn'
compute_runway_mono total total' burn burn' h k p =
    (runway_iff total' burn' p (compute_runway total burn)).1 (
      grind
        (arith, (runway_iff total burn (omega arith) (compute_runway total burn)).0 (omega arith)))

-- A larger value and a smaller burn, no burn included, never make the state worse.
pub compute_treasury_state_mono :
    (total total' burn burn' : ℕ)
    → total ≤ total'
    → burn' ≤ burn
    → health (compute_treasury_state (compute_runway total burn))
      ≤ health (compute_treasury_state (compute_runway total' burn'))
compute_treasury_state_mono total total' burn zero h k = rw (no_burn total') (health-le _)
compute_treasury_state_mono total total' burn (suc b) h k =
    health_mono _ _ (compute_runway_mono total total' burn (suc b) h k (omega arith))

-- A cost is approved exactly when: in `funded`, the spent share of the category is below its cap;
-- in `low`, likewise, and the category is not the reserve; in `critical`, the category is
-- infrastructure or storage, or it is inference and the cost is below 100000; in `depleted`, never.
pub authorize_cost_iff :
    (state : TreasuryState) (c : BudgetCategory) (cost : ℕ) (budget : BudgetAllocation) (spent : ℕ)
    → ((authorize_cost state c cost budget spent).approved ≡ true)
      ↔ Allows state c cost budget spent
unfolding authorize_cost
authorize_cost_iff funded c cost budget spent = ground arith
authorize_cost_iff low reserve cost budget spent = ground arith
authorize_cost_iff low _ cost budget spent = ground arith
authorize_cost_iff critical infrastructure cost budget spent = ground arith
authorize_cost_iff critical storage cost budget spent = ground arith
authorize_cost_iff critical _ cost budget spent = ground arith
authorize_cost_iff depleted c cost budget spent = ground arith

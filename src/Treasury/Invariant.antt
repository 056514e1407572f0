-- ===== src/Treasury/Invariant.antt =====
-- dsh-treasury/src/invariant.ts: the companion that listens to `treasury/state-changed`.
use deepseek_harness_web3_ag.Prelude.{if◌then◌else◌, not}
use deepseek_harness_web3_ag.Treasury.Economics.{compute_treasury_state}
use deepseek_harness_web3_ag.Treasury.Domain.{TreasuryStateChange}
use deepseek_harness_web3_ag.Treasury.Ledger.{state_eq}

-- What the companion finds: nothing, or the first of its three failures.
pub data Finding : Type 0 where
  nothing : Finding
  underived : Finding
  misreported : Finding
  no_transition : Finding

unfoldable pub check_change : TreasuryStateChange → Finding
check_change change =
    if not (state_eq change.current (compute_treasury_state change.report.runway_days))
    then underived
    else if not (state_eq change.report.state change.current)
    then misreported
    else if state_eq change.previous change.current
    then no_transition
    else nothing

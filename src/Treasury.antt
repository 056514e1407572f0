-- ===== src/Treasury.antt =====
-- dsh-treasury: the ledger that pays for the agent, and the policy that enforces it.
pub mod Economics
pub mod Domain
pub mod Ledger
pub mod Config
pub mod Invariant
pub mod Policy
mod Tests

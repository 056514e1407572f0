-- ===== src/Wallet/Lanes.antt =====
-- `withLock` of dsh-wallet/src/index.ts: tasks of many callers in the lanes of their wallets, as steps.
pub mod Invariant
pub mod Order
use deepseek_harness_web3_ag.Prelude.{
  ℕ, suc, ◌<◌, ◌≡◌, Bool, true, false, Option, none, some, [], Text, ◌==◌, if◌then◌else◌,
}
use deepseek_harness_web3_ag.Prelude.Maps.{Dict, get, insert}
use deepseek_harness_web3_ag.Wallet.{
  Result, ok, threw, wallet_error, wallet_not_found, ResolvedDescriptor, WalletRuntime,
}

-- A task that is `rejected` ran to its end as much as one that is `fulfilled`.
pub data Phase : Type 0 where
  waiting running fulfilled rejected : Phase

-- The tasks are numbered in the order of the calls, from 0 to below `count`: the wallet of each, the task
-- whose end it waits for, if any, and how far it is. `locks` has the last task of each wallet.
pub record Lanes : Type 0 where
  pub locks : Dict ℕ
  pub count : ℕ
  pub name_of : ℕ → Text
  pub prior_of : ℕ → Option ℕ
  pub phase_of : ℕ → Phase

abbrev pub set : {A : Type 0} → ℕ → A → (ℕ → A) → ℕ → A
set n a f k = if k == n then a else f k

-- `prior.then(task)`, and the new end of the lane.
abbrev pub queue : Text → Lanes → Lanes
queue name l = record {
  locks = insert name l.count l.locks;
  count = suc l.count;
  name_of = set l.count name l.name_of;
  prior_of = set l.count (get name l.locks) l.prior_of;
  phase_of = set l.count waiting l.phase_of;
}

abbrev pub queue_if : Text → Lanes → Option ResolvedDescriptor → Result Lanes
queue_if name l none = threw (wallet_error wallet_not_found)
queue_if name l (some d) = ok (queue name l)

unfoldable pub with_lock : WalletRuntime → Text → Lanes → Result Lanes
with_lock r name l = queue_if name l (get name r.wallets)

-- `run.then(() => undefined, () => undefined)` is settled once the task is over.
abbrev pub is_over : Phase → Bool
is_over waiting = false
is_over running = false
is_over fulfilled = true
is_over rejected = true

abbrev pub is_ready : (ℕ → Phase) → Option ℕ → Bool
is_ready phase_of none = true
is_ready phase_of (some m) = is_over (phase_of m)

abbrev pub set_phase : ℕ → Phase → Lanes → Lanes
set_phase n p l = record l { phase_of = set n p l.phase_of }

-- A call; a task that begins once the end of the lane before it is settled; and one that ends.
pub data Step (r : WalletRuntime) (l : Lanes) : Lanes → Type 0 where
  arrive : (name : Text) (l' : Lanes) → with_lock r name l ≡ ok l' → Step r l l'
  begin :
      (n : ℕ)
      → n < l.count
      → l.phase_of n ≡ waiting
      → is_ready l.phase_of (l.prior_of n) ≡ true
      → Step r l (set_phase n running l)
  finish :
      (n : ℕ) (p : Phase)
      → n < l.count
      → l.phase_of n ≡ running
      → is_over p ≡ true
      → Step r l (set_phase n p l)

abbrev pub start : Lanes
start = record {
  locks = [];
  count = 0;
  name_of = λ n. [];
  prior_of = λ n. none;
  phase_of = λ n. waiting;
}

pub data Reach (r : WalletRuntime) : Lanes → Type 0 where
  here : Reach r start
  next : {l l' : Lanes} → Reach r l → Step r l l' → Reach r l'

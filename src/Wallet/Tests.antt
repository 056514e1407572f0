-- ===== src/Wallet/Tests.antt =====
-- Signing and waiting at concrete wallets.
use deepseek_harness_web3_ag.Prelude.{
  ℕ, suc, ◌<◌, ◌≡◌, refl, true, Option, none, some, [], ◌∷◌, ◌++◌, Text, codes, arith,
}
use deepseek_harness_web3_ag.Prelude.Maps.{get, insert}
use deepseek_harness_web3_ag.Wallet.{
  ok, threw, wallet_error, invalid_key_ref, ResolvedDescriptor, WalletRuntime, sign_message,
  sign_digest, CryptoAdapter, Providers, Session, begin_operation, sign, configure,
  resolve_descriptor,
}
use deepseek_harness_web3_ag.Wallet.Signed.{Announced, sign-Announced}
use deepseek_harness_web3_ag.Wallet.Lanes.{
  running, rejected, Lanes, with_lock, queue, is_over, set_phase, Step, arrive, begin, finish,
  start, Reach, here, next,
}
use deepseek_harness_web3_ag.Wallet.Lanes.Order.{with_lock_exclusive, with_lock_begins}

abbrev key_of : Option Text → Text
key_of none = []
key_of (some secret) = secret

-- Keys are secrets, and a signature is the payload behind the key. The world counts the calls.
abbrev adapter : CryptoAdapter ℕ Text
adapter = record {
  load_key = λ source w. (ok (codes "0xab", key_of source.secret), suc w);
  sign_message = λ key payload w. (ok (key ++ payload), suc w);
  sign_transaction = λ key payload w. (ok (key ++ payload), suc w);
  sign_digest = none;
}

abbrev providers : Providers
providers = record {
  W = ℕ;
  K = Text;
  adapter = λ n. adapter;
  resolve = λ ref w. (ok (some (codes "pass")), suc w);
}

abbrev main_wallet : ResolvedDescriptor
main_wallet = record { chain = codes "evm"; wallet = codes "vault"; key_ref = some (codes "PASS") }

abbrev runtime : WalletRuntime
runtime = record {
  adapters = (codes "evm", 4) ∷ [];
  wallets = (codes "main", main_wallet) ∷ (codes "spare", main_wallet) ∷ [];
}

abbrev quiet : Session providers
quiet = record { outside = 0; events = [] }

sign-Announced_example :
    Announced providers runtime
      (codes "main")
      sign_message
      (codes "hi")
      quiet
      (sign providers runtime (codes "main") sign_message (codes "hi") quiet)
sign-Announced_example =
    sign-Announced providers runtime (codes "main") sign_message (codes "hi") quiet

signed_run :
    (sign providers runtime (codes "main") sign_message (codes "hi") quiet).0
    ≡ ok (codes "0xab", codes "passhi")
unfolding sign begin_operation get
signed_run = refl

-- An adapter without `signDigest` announces nothing.
digest_run : (sign providers runtime (codes "main") sign_digest (codes "00") quiet).1.events ≡ []
unfolding sign begin_operation get
digest_run = refl

-- What is pasted where a reference belongs is refused.
pasted_run :
    configure
      (λ ref. none)
      []
      ((
        codes "main",
        record { chain = codes "evm"; wallet = codes "v"; key_ref = some (codes "0x12") },
      )
        ∷ [])
    ≡ threw (wallet_error invalid_key_ref)
unfolding configure resolve_descriptor
pasted_run = refl

-- Two calls for one wallet; the first one fails, and then the second one begins.
abbrev two : Lanes
two = queue (codes "main") (queue (codes "main") start)

abbrev first_failed : Lanes
first_failed = set_phase 0 rejected (set_phase 0 running two)

first_failed-Reach : Reach runtime first_failed
unfolding with_lock get insert
first_failed-Reach =
    next (next two-Reach (begin 0 (omega arith) refl refl))
      (finish 0 rejected (omega arith) refl refl)
  where
    two-Reach : Reach runtime two
    two-Reach =
        next (next here (arrive (codes "main") (queue (codes "main") start) refl))
          (arrive (codes "main") two refl)

with_lock_begins_example : (l' : Lanes) × Step runtime first_failed l' × (l'.phase_of 1 ≡ running)
with_lock_begins_example =
    with_lock_begins runtime first_failed first_failed-Reach 1 (omega arith) refl before
  where
    before :
        (i : ℕ)
        → i < 1
        → first_failed.name_of i ≡ first_failed.name_of 1
        → is_over (first_failed.phase_of i) ≡ true
    before i lt e = ground arith

abbrev second_runs : Lanes
second_runs = set_phase 1 running first_failed

with_lock_exclusive_example : is_over (second_runs.phase_of 0) ≡ true
unfolding get insert
with_lock_exclusive_example =
    with_lock_exclusive runtime second_runs
      (next first_failed-Reach (begin 1 (omega arith) refl refl)) 0 1 (omega arith) (omega arith)
      refl (λ e. absurd (ground arith))

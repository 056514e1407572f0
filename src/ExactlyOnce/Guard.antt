-- ===== src/ExactlyOnce/Guard.antt =====
-- dsh-exactly-once/src/guard.ts: `ExactlyOnceRuntime`. An object (an agent, a session, a hook) is named
-- by a text. `wrap` is cut at its two awaits, of the read-back hook and of `next()`: `enter` runs to
-- the first of them, `decide` and `settle` go on.
pub mod Clone
pub mod Cold
pub mod State
pub mod Keys
pub mod Replay
use deepseek_harness_web3_ag.Prelude.{
  ℕ, suc, ◌+◌, ◌≡◌, Bool, true, false, ◌&&◌, ◌||◌, not, Option, none, some, List, [], ◌∷◌, ◌++◌,
  Text, codes, text_eq, ◌==◌, if◌then◌else◌, any,
}
use deepseek_harness_web3_ag.Prelude.Maps.{Dict, get, insert, erase, keep_if}
use deepseek_harness_web3_ag.Prelude.Decimal.{show}
use deepseek_harness_web3_ag.Wildcard.{matches}
use deepseek_harness_web3_ag.ExactlyOnce.Guard.Clone.{Tree, clone_json}
use deepseek_harness_web3_ag.ExactlyOnce.Canonical.{canonicalize}
pub use Cold.{LastOutcome, SessionEvent, build_cold_index}
unfoldable pub use State.*

abbrev same_seq : Option ℕ → Option ℕ → Bool
same_seq (some a) (some b) = a == b
same_seq _ _ = false

abbrev cached_at : Option ColdIndex → Option ℕ → Option ColdIndex
cached_at none seq = none
cached_at (some index) seq = if same_seq seq index.seq then some index else none

abbrev pub index_session : Text → Session → ColdIndex
index_session part session = record {
  seq = session.seq;
  last_by_identity = build_cold_index session.events part;
}

-- `scanSession` on a session, for the agent with this tag.
unfoldable pub scan_one : Text → Session → Runtime → Option ColdIndex × Runtime
scan_one part session r = elim (cached_at (get session.id r.cold) session.seq) [
  | some index ↦ (some index, r)
  | none ↦ (
    some (index_session part session),
    record r { cold = insert session.id (index_session part session) r.cold },
  )
]

abbrev pub session_of : Option Agent → Option Session
session_of none = none
session_of (some a) = a.session

unfoldable pub scan_session : Text → Option Agent → Runtime → Option ColdIndex × Runtime
unfolding scan_one
scan_session part agent r = elim (session_of agent) [
  | none ↦ (none, r)
  | some session ↦ scan_one part session r
]

-- `this.outcomes.get(identity) ?? cold?.lastByIdentity.get(identity)`
abbrev pub cold_outcome : Option ColdIndex → Text → Option LastOutcome
cold_outcome none identity = none
cold_outcome (some index) identity = get identity index.last_by_identity

abbrev pub last_outcome : Option OutcomeEntry → Option LastOutcome → Option LastOutcome
last_outcome (some entry) o = some entry.outcome
last_outcome none o = o

-- A call under way, with its two keys.
pub record Call : Type 0 where
  pub exec : Exec
  pub key : Text
  pub identity : Text

-- Where a run of `wrap` stands: it handed the call on untouched, waits for the promise of an attempt,
-- returned a recorded result, threw before a body, waits for the read-back hook, or runs the body as an attempt.
pub data Progress : Type 0 where
  transparent : Progress
  attached : ℕ → Progress
  replayed : ExecResult → Progress
  failed : Progress
  consulting : (hook : Text) → LastOutcome → Call → Progress
  running : ℕ → Call → Progress

-- The attempt is registered, and `next()` is called.
unfoldable pub begin_attempt : Call → Runtime → Progress × Runtime
begin_attempt call r = (
  running r.begun call,
  record r { in_flight = insert call.key r.begun r.in_flight; begun = suc r.begun },
)

-- The hook of the tool, if the last outcome asks for it.
abbrev pub hook_for : Option LastOutcome → Option Text → Option (Text × LastOutcome)
hook_for none hook = none
hook_for (some last) none = none
hook_for (some last) (some hook) = if last.is_error then some (hook, last) else none

-- From the lookup of the last outcome up to the await of the hook or of the body.
unfoldable pub dispatch : Text → Call → Exec → Runtime → Progress × Runtime
dispatch part call exec r =
    let (cold, r₁) = scan_session part exec.agent r in
    let last = last_outcome (get call.identity r₁.outcomes) (cold_outcome cold call.identity) in
    elim (hook_for last (get exec.name r₁.checks)) [
      | some (hook, o) ↦ (consulting hook o call, r₁)
      | none ↦ begin_attempt call r₁
    ]

abbrev pub call_of : Text → Exec → Call
call_of part exec = record {
  exec = exec;
  key = call_key part exec;
  identity = identity_key part exec;
}

-- From the key of a guarded call on: attach to the attempt in flight, replay the recorded result, or
-- go on to the last outcome.
unfoldable pub look_up : Text → Exec → Runtime → Progress × Runtime
unfolding clone_result
look_up part exec r = elim (get (call_key part exec) r.in_flight) [
  | some attempt ↦ (attached attempt, r)
  | none ↦ elim (get (call_key part exec) r.settled) [
    | some prior ↦ (replayed (clone_result prior.result), r)
    | none ↦ dispatch part (call_of part exec) exec r
  ]
]

-- `wrap` up to its first await.
unfoldable pub enter : GuardOptions → Exec → Runtime → Progress × Runtime
enter options exec r =
    if not (is_write options exec.name)
    then (transparent, r)
    else (let (part, r₁) = agent_part exec.agent r in look_up part exec r₁)

-- `CheckDecision`
pub data CheckDecision : Type 0 where
  replay : Tree → CheckDecision
  proceed : CheckDecision
  unknown : CheckDecision

-- The answer `replay` of the hook, with the clone of its value.
unfoldable pub replay_value : Call → Option Tree → (now : ℕ) → Runtime → Progress × Runtime
unfolding clone_result
replay_value call none now r = (failed, r)
replay_value call (some value) now r =
    let result : ExecResult = record {
      content = [];
      is_error = false;
      code = none;
      value = some value;
    } in
    let ok : OutcomeEntry = record {
      name = call.exec.name;
      outcome = record { is_error = false; code = none; at = now };
    } in
    (
      replayed result,
      record r {
        settled = insert call.key (record { result = clone_result result; at = now }) r.settled;
        outcomes = insert call.identity ok r.outcomes;
      },
    )

-- `wrap` after the hook answered. A value that JSON does not write makes `JSON.parse` throw.
unfoldable pub decide : Call → CheckDecision → (now : ℕ) → Runtime → Progress × Runtime
unfolding begin_attempt replay_value clone_json
decide call (replay value) now r = replay_value call (clone_json value) now r
decide call proceed now r = begin_attempt call r
decide call unknown now r = begin_attempt call r

-- The body returned: what `wrap` returns and every attached caller gets.
unfoldable pub settle : Call → ExecResult → (now : ℕ) → Runtime → ExecResult × Runtime
unfolding maybe_stamp clone_result
settle call result now r =
    let (stamped, r₁) = maybe_stamp result r in
    let entry : OutcomeEntry = record {
      name = call.exec.name;
      outcome = record { is_error = stamped.is_error; code = stamped.code; at = now };
    } in
    (
      stamped,
      record r₁ {
        settled = insert call.key (record { result = clone_result stamped; at = now }) r₁.settled;
        outcomes = insert call.identity entry r₁.outcomes;
        in_flight = erase call.key r₁.in_flight;
      },
    )

-- The body threw, and so does `wrap`.
unfoldable pub settle_throw : Call → (now : ℕ) → Runtime → Runtime
settle_throw call now r =
    let entry : OutcomeEntry = record {
      name = call.exec.name;
      outcome = record { is_error = true; code = none; at = now };
    } in
    record r {
      outcomes = insert call.identity entry r.outcomes;
      in_flight = erase call.key r.in_flight;
    }

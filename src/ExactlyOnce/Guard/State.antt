-- ===== src/ExactlyOnce/Guard/State.antt =====
-- dsh-exactly-once/src/guard.ts: the state of `ExactlyOnceRuntime`, the registry of hooks, the keys of
-- calls, and the trailer of ambiguous errors.
use deepseek_harness_web3_ag.Prelude.{
  starts_with, ℕ, ◌+◌, Bool, true, false, ◌&&◌, ◌||◌, not, Option, none, some, List, [], ◌∷◌, ◌++◌,
  Text, codes, text_eq, if◌then◌else◌, any,
}
use deepseek_harness_web3_ag.Prelude.Maps.{Dict, get, insert, erase, keep_if}
use deepseek_harness_web3_ag.Prelude.Decimal.{show}
use deepseek_harness_web3_ag.Wildcard.{matches}
use deepseek_harness_web3_ag.ExactlyOnce.Json.{JsValue}
use deepseek_harness_web3_ag.ExactlyOnce.Guard.Clone.{Tree, clone_json, IsLossless}
use deepseek_harness_web3_ag.ExactlyOnce.Canonical.{canonicalize}
use deepseek_harness_web3_ag.ExactlyOnce.Guard.Cold.{LastOutcome, SessionEvent}

-- `session` on an agent; `seq` is absent where it is no number.
pub record Session : Type 0 where
  pub id : Text
  pub seq : Option ℕ
  pub events : List SessionEvent

pub record Agent : Type 0 where
  pub id : Text
  pub session : Option Session

-- `ToolDispatchExecution`; `agent` is absent for a direct caller.
pub record Exec : Type 0 where
  pub name : Text
  pub arguments : JsValue
  pub agent : Option Agent
  pub root_call_id : Text
  pub call_id : Text

-- `ToolExecutionResult`: the texts of its content, and `error?.info?.code`.
pub record ExecResult : Type 0 where
  pub content : List Text
  pub is_error : Bool
  pub code : Option Text
  pub value : Option Tree

abbrev clone_value : Option Tree → Option Tree
clone_value none = none
clone_value (some v) = clone_json v

-- `cloneJson(result)`
unfoldable pub clone_result : ExecResult → ExecResult
unfolding clone_json
clone_result result = record result { value = clone_value result.value }

-- The contract of results: the value, if there is one, is a JSON value.
abbrev pub ResultIsLossless : ExecResult → Type 0
ResultIsLossless result = of_value result.value
  where
    of_value : Option Tree → Type 0
    of_value none = Unit
    of_value (some v) = IsLossless v

pub record SettledEntry : Type 0 where
  pub result : ExecResult
  pub at : ℕ

pub record OutcomeEntry : Type 0 where
  pub name : Text
  pub outcome : LastOutcome

pub record ColdIndex : Type 0 where
  pub seq : Option ℕ
  pub last_by_identity : Dict LastOutcome

-- The compiled patterns of `GuardOptions`.
pub record GuardOptions : Type 0 where
  pub writes : List Text
  pub exempt : List Text

-- The maps of the runtime. `in_flight` holds the number of the attempt whose promise it is; `begun`
-- numbers them.
pub record Runtime : Type 0 where
  pub checks : Dict Text
  pub in_flight : Dict ℕ
  pub settled : Dict SettledEntry
  pub outcomes : Dict OutcomeEntry
  pub agent_ids : Dict Text
  pub cold : Dict ColdIndex
  pub agent_seq : ℕ
  pub attempts : ℕ
  pub begun : ℕ

abbrev pub fresh : Runtime
fresh = record {
  checks = [];
  in_flight = [];
  settled = [];
  outcomes = [];
  agent_ids = [];
  cold = [];
  agent_seq = 0;
  attempts = 0;
  begun = 0;
}

unfoldable pub is_write : GuardOptions → Text → Bool
is_write options name =
    if any (λ pattern. matches pattern name) options.exempt
    then false
    else any (λ pattern. matches pattern name) options.writes

-- `registerCheck`, and the disposer that it returns.
unfoldable pub register_check : Text → Text → Runtime → Runtime
register_check name fn r = record r { checks = insert name fn r.checks }

abbrev is_fn : Option Text → Text → Bool
is_fn none fn = false
is_fn (some f) fn = text_eq f fn

unfoldable pub dispose_check : Text → Text → Runtime → Runtime
dispose_check name fn r =
    if is_fn (get name r.checks) fn then record r { checks = erase name r.checks } else r

abbrev pub bar : Text
bar = codes "|"

unfoldable pub reset_agent : Text → Runtime → Runtime
reset_agent agent r = elim (get agent r.agent_ids) [
  | none ↦ r
  | some id ↦ record r { outcomes = keep_if (λ key. not (starts_with (id ++ bar) key)) r.outcomes }
]

-- `agentPart`: the tag of an agent, given at its first use.
unfoldable pub agent_part : Option Agent → Runtime → Text × Runtime
agent_part none r = (codes "-", r)
agent_part (some a) r = elim (get a.id r.agent_ids) [
  | some id ↦ (id, r)
  | none ↦
      let id = codes "a" ++ show (r.agent_seq + 1) in
      (id, record r { agent_seq = r.agent_seq + 1; agent_ids = insert a.id id r.agent_ids })
]

-- The keys of a call, when the tag of its agent is known.
unfoldable pub call_key : Text → Exec → Text
call_key part exec = part ++ (bar ++ (exec.root_call_id ++ (bar ++ exec.call_id)))

unfoldable pub identity_key : Text → Exec → Text
identity_key part exec = part ++ (bar ++ (exec.name ++ (bar ++ canonicalize exec.arguments)))

abbrev pub is_ambiguous_code : Option Text → Bool
is_ambiguous_code none = true
is_ambiguous_code (some code) =
    text_eq code (codes "TOOL_TIMEOUT")
    || text_eq code (codes "ABORTED")
    || text_eq code (codes "ABORTED_BEFORE_DISPATCH")

abbrev pub trailer : ℕ → Text
trailer n =
    codes "[exactly-once attempt eo_"
    ++ show n
    ++ codes
        ": effect state unknown — retrying this exact call is checked against the attempt ledger before re-dispatch.]"

unfoldable pub maybe_stamp : ExecResult → Runtime → ExecResult × Runtime
maybe_stamp result r =
    if result.is_error && is_ambiguous_code result.code
    then (
      record result { content = result.content ++ trailer (r.attempts + 1) ∷ [] },
      record r { attempts = r.attempts + 1 },
    )
    else (result, r)

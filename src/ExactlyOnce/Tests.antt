-- ===== src/ExactlyOnce/Tests.antt =====
-- The guard at concrete inputs.
use deepseek_harness_web3_ag.Prelude.{
  ◌≤◌, ◌≡◌, refl, ◌↔◌, true, none, some, [], ◌∷◌, codes, text_lt,
}
use deepseek_harness_web3_ag.Prelude.Maps.{get, insert, erase, keep_if}
use deepseek_harness_web3_ag.Prelude.Decimal.{show}
use deepseek_harness_web3_ag.Wildcard.{matches, Fits, matches_iff}
use deepseek_harness_web3_ag.ExactlyOnce.Json.{
  undefined, bool, num, str, function, ref, arr, obj, JsValue,
}
use deepseek_harness_web3_ag.ExactlyOnce.Canonical.{canonicalize}
use deepseek_harness_web3_ag.ExactlyOnce.Guard.Clone.{Tree, Members, member, clone_json, IsLossless}
use deepseek_harness_web3_ag.ExactlyOnce.Guard.{
  GuardOptions, Agent, Exec, ExecResult, Runtime, fresh, Call, replayed, enter, settle, call_of,
  agent_part, dispatch, begin_attempt, identity_key, reset_agent, is_write, look_up, scan_session,
  call_key, settle_throw,
}
use deepseek_harness_web3_ag.ExactlyOnce.Guard.Keys.{
  IsTagged, fresh-IsTagged, agent_part-IsTagged, reset_agent_isolates,
}
use deepseek_harness_web3_ag.ExactlyOnce.Guard.Replay.{enter_replays}
use deepseek_harness_web3_ag.ExactlyOnce.World.{World, start, place, Step, Reach, here, next}
use deepseek_harness_web3_ag.ExactlyOnce.World.Once.{body_starts_once}
use deepseek_harness_web3_ag.ExactlyOnce.World.Invariant.{count}
use deepseek_harness_web3_ag.ExactlyOnce.World.Race.{body_starts_twice}

abbrev sample : JsValue
sample = record {
  heap =
      obj (
        (codes "b", num (codes "1"))
        ∷ (codes "10", str (codes "x\"y"))
        ∷ (codes "9", ref 1)
        ∷ (codes "a", ref 0)
        ∷ (codes "f", function)
        ∷ [])
      ∷ arr (undefined ∷ bool true ∷ [])
      ∷ [];
  root = ref 0;
}

sample_text :
    canonicalize sample ≡ codes "{\"9\":[null,true],\"10\":\"x\\\"y\",\"a\":\"[Circular]\",\"b\":1}"
unfolding canonicalize text_lt
sample_text = refl

matches_iff_example :
    (matches (codes "*_submit") (codes "acquire_submit") ≡ true)
    ↔ Fits (codes "*_submit") (codes "acquire_submit")
matches_iff_example = matches_iff (codes "*_submit") (codes "acquire_submit")

abbrev options : GuardOptions
options = record { writes = codes "*_submit" ∷ []; exempt = [] }

abbrev alice : Agent
alice = record { id = codes "alice"; session = none }

abbrev exec : Exec
exec = record {
  name = codes "acquire_submit";
  arguments = record { heap = []; root = str (codes "x") };
  agent = some alice;
  root_call_id = codes "r1";
  call_id = codes "c1";
}

abbrev call : Call
call = call_of (codes "a1") exec

-- One call under way.
abbrev begun_world : World
begun_world = place (enter options exec fresh) start

abbrev timed_out : ExecResult
timed_out = record {
  content = [];
  is_error = true;
  code = some (codes "TOOL_TIMEOUT");
  value = some (Tree.obj (member (codes "ref") (Tree.str (codes "x")) Members.end));
}

-- Arrive, arrive again, return, arrive again.
abbrev four_steps : World
four_steps =
    let w = place (enter options exec begun_world.runtime) begun_world in
    let w' = record w { runtime = (settle call timed_out 5 w.runtime).1; at_body = [] } in
    place (enter options exec w'.runtime) w'

body_starts_once_example : count (codes "a1|r1|c1") four_steps.started ≤ 1
unfolding enter agent_part dispatch begin_attempt is_write matches look_up get scan_session insert
    call_key show settle erase keep_if
body_starts_once_example =
    body_starts_once {options = options} (codes "a1|r1|c1")
      (next
        (next (next (next here (Step.arrive exec)) (Step.arrive exec))
          (Step.finish [] [] call timed_out 5 refl))
        (Step.arrive exec))
      refl refl

enter_replays_example :
    let (stamped, r') = settle call timed_out 5 begun_world.runtime in
    enter options exec r' ≡ (replayed stamped, r')
unfolding enter agent_part dispatch begin_attempt is_write matches get settle look_up scan_session
    insert show IsLossless clone_json
enter_replays_example =
    enter_replays options exec refl call timed_out 5 begun_world.runtime (tt, tt)
      (codes "a1", refl, refl)

abbrev bob : Agent
bob = record { id = codes "bob"; session = none }

abbrev two_agents : Runtime
two_agents = (agent_part (some bob) (agent_part (some alice) fresh).1).1

two_agents-IsTagged : IsTagged two_agents
two_agents-IsTagged =
    agent_part-IsTagged (some bob) (agent_part (some alice) fresh).1
      (agent_part-IsTagged (some alice) fresh fresh-IsTagged)

reset_agent_isolates_example :
    let r = settle_throw (call_of (codes "a2") exec) 7 two_agents in
    let r' = reset_agent (codes "alice") r in
    (get (identity_key (codes "a2") exec) r'.outcomes
      ≡ get (identity_key (codes "a2") exec) r.outcomes)
    × (r'.in_flight ≡ r.in_flight)
    × (r'.settled ≡ r.settled)
unfolding settle_throw agent_part insert get show
reset_agent_isolates_example =
    reset_agent_isolates (codes "alice") (codes "bob") (codes "a1") (codes "a2") exec
      (settle_throw (call_of (codes "a2") exec) 7 two_agents)
      (record { numbered = two_agents-IsTagged.numbered; apart = two_agents-IsTagged.apart }) refl
      refl

abbrev failed_before : World
failed_before = record start {
  runtime = record fresh {
    checks = (codes "acquire_submit", codes "hook") ∷ [];
    outcomes =
        (
          identity_key (codes "a1") exec,
          record {
            name = codes "acquire_submit";
            outcome = record { is_error = true; code = some (codes "TOOL_TIMEOUT"); at = 5 };
          },
        )
        ∷ [];
  };
}

body_starts_twice_example :
    (v : World) × Reach options failed_before v × (count call.key v.started ≡ 2) × (v.thrown ≡ [])
unfolding enter agent_part dispatch begin_attempt is_write matches look_up get scan_session
    identity_key show canonicalize
body_starts_twice_example =
    body_starts_twice options exec failed_before (codes "hook")
      (record { is_error = true; code = some (codes "TOOL_TIMEOUT"); at = 5 }) call
      (enter options exec failed_before.runtime).1 refl

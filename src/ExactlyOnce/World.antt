-- ===== src/ExactlyOnce/World.antt =====
-- Calls of `wrap` (dsh-exactly-once/src/guard.ts) in flight together. A step runs one of them, or a
-- method of the runtime, up to its next await; which one, and what the hook and the body answer, is
-- the environment's choice.
pub mod Entered
pub mod Invariant
pub mod Once
pub mod Scans
pub mod Race
use deepseek_harness_web3_ag.Prelude.{
  ℕ, ◌+◌, ◌≡◌, Bool, true, false, Option, none, some, List, [], ◌∷◌, ◌++◌, Text, text_eq,
  if◌then◌else◌,
}
use deepseek_harness_web3_ag.Prelude.Maps.{Dict}
use deepseek_harness_web3_ag.ExactlyOnce.Guard.{
  GuardOptions, Exec, ExecResult, Runtime, fresh, Call, Progress, transparent, attached, replayed,
  failed, consulting, running, CheckDecision, enter, decide, settle, settle_throw, register_check,
  dispose_check, reset_agent,
}

-- The runtime, the calls at each await, and for the record the keys of the calls whose body was
-- started, whose hook was asked, and whose body threw.
pub record World : Type 0 where
  pub runtime : Runtime
  pub at_hook : List Call
  pub at_body : List Call
  pub started : List Text
  pub consulted : List Text
  pub thrown : List Text

abbrev pub start : World
start = record {
  runtime = fresh;
  at_hook = [];
  at_body = [];
  started = [];
  consulted = [];
  thrown = [];
}

-- The world after a stretch of `wrap` that ended so.
abbrev pub place : Progress × Runtime → World → World
place (consulting hook o call, r) w = record w {
  runtime = r;
  at_hook = call ∷ w.at_hook;
  consulted = call.key ∷ w.consulted;
}
place (running n call, r) w = record w {
  runtime = r;
  at_body = call ∷ w.at_body;
  started = call.key ∷ w.started;
}
place (transparent, r) w = record w { runtime = r }
place (attached n, r) w = record w { runtime = r }
place (replayed result, r) w = record w { runtime = r }
place (failed, r) w = record w { runtime = r }

pub data Step (options : GuardOptions) (w : World) : World → Type 0 where
  arrive : (exec : Exec) → Step options w (place (enter options exec w.runtime) w)
  answer :
      (before after : List Call) (call : Call) (d : CheckDecision) (now : ℕ)
      → w.at_hook ≡ before ++ call ∷ after
      → Step options w
          (place (decide call d now w.runtime) (record w { at_hook = before ++ after }))
  hook_threw :
      (before after : List Call) (call : Call)
      → w.at_hook ≡ before ++ call ∷ after
      → Step options w (record w { at_hook = before ++ after })
  finish :
      (before after : List Call) (call : Call) (result : ExecResult) (now : ℕ)
      → w.at_body ≡ before ++ call ∷ after
      → Step options w
          (record w { runtime = (settle call result now w.runtime).1; at_body = before ++ after })
  throw :
      (before after : List Call) (call : Call) (now : ℕ)
      → w.at_body ≡ before ++ call ∷ after
      → Step options w (record w {
        runtime = settle_throw call now w.runtime;
        at_body = before ++ after;
        thrown = call.key ∷ w.thrown;
      })
  register :
      (name fn : Text) → Step options w (record w { runtime = register_check name fn w.runtime })
  dispose :
      (name fn : Text) → Step options w (record w { runtime = dispose_check name fn w.runtime })
  reset : (agent : Text) → Step options w (record w { runtime = reset_agent agent w.runtime })

-- The worlds that steps lead to from a world.
pub data Reach (options : GuardOptions) (from : World) : World → Type 0 where
  here : Reach options from from
  next : {w v : World} → Reach options from w → Step options w v → Reach options from v

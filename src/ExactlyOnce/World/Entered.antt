-- ===== src/ExactlyOnce/World/Entered.antt =====
-- What the first stretch of `wrap` (dsh-exactly-once/src/guard.ts) does to the maps of calls.
use deepseek_harness_web3_ag.Prelude.{
  ◌≡◌, refl, ◌∙◌, ap, inl, inr, Option, none, Text, arith, Option-cases, Bool-cases,
}
use deepseek_harness_web3_ag.Prelude.Maps.{get, insert}
use deepseek_harness_web3_ag.ExactlyOnce.Guard.{
  GuardOptions, Exec, Runtime, Agent, Call, Progress, transparent, attached, replayed, failed,
  consulting, running, enter, agent_part, scan_session, begin_attempt, dispatch, is_write, call_key,
  call_of, look_up,
}

-- A runtime with the same calls in flight and settled.
abbrev pub Same : Runtime → Runtime → Type 0
Same r r' = (r'.in_flight ≡ r.in_flight) × (r'.settled ≡ r.settled)

agent_part-Same : (a : Option Agent) (r : Runtime) → Same r (agent_part a r).1
unfolding agent_part
agent_part-Same a r = ground arith

scan_session-Same :
    (part : Text) (a : Option Agent) (r : Runtime) → Same r (scan_session part a r).1
unfolding scan_session
scan_session-Same part a r = ground arith

-- What a stretch of `wrap` from `r` did to the two maps.
abbrev pub Entered : Runtime → Progress × Runtime → Type 0
Entered r (running n call, r') =
    (get call.key r.in_flight ≡ none)
    × (get call.key r.settled ≡ none)
    × (r'.in_flight ≡ insert call.key n r.in_flight)
    × (r'.settled ≡ r.settled)
Entered r (transparent, r') = Same r r'
Entered r (attached n, r') = Same r r'
Entered r (replayed result, r') = Same r r'
Entered r (failed, r') = Same r r'
Entered r (consulting hook o call, r') = Same r r'

dispatch-Entered :
    (part : Text) (call : Call) (exec : Exec) (r : Runtime)
    → get call.key r.in_flight ≡ none
    → get call.key r.settled ≡ none
    → Entered r (dispatch part call exec r)
unfolding dispatch begin_attempt
dispatch-Entered part call exec r idle open_call =
    ground (arith, scan_session-Same part exec.agent r)

Entered-trans : (r r₁ : Runtime) (p : Progress × Runtime) → Same r r₁ → Entered r₁ p → Entered r p
Entered-trans r r₁ (running n call, r') (f, s) (idle, open_call, flight, settled) =
    (rw (← f) idle, rw (← s) open_call, flight ∙ ap (insert call.key n) f, settled ∙ s)
Entered-trans r r₁ (transparent, r') (f, s) (g, t) = (g ∙ f, t ∙ s)
Entered-trans r r₁ (attached n, r') (f, s) (g, t) = (g ∙ f, t ∙ s)
Entered-trans r r₁ (replayed result, r') (f, s) (g, t) = (g ∙ f, t ∙ s)
Entered-trans r r₁ (failed, r') (f, s) (g, t) = (g ∙ f, t ∙ s)
Entered-trans r r₁ (consulting hook o call, r') (f, s) (g, t) = (g ∙ f, t ∙ s)

look_up-Entered : (part : Text) (exec : Exec) (r : Runtime) → Entered r (look_up part exec r)
unfolding look_up
look_up-Entered part exec r = elim (Option-cases (get (call_key part exec) r.in_flight)) [
  | inr (n, busy) ↦ rw (busy, look_up) (refl, refl)
  | inl idle ↦ elim (Option-cases (get (call_key part exec) r.settled)) [
    | inr (prior, known) ↦ rw (idle, known, look_up) (refl, refl)
    | inl open_call ↦
        rw (idle, open_call, look_up)
          (dispatch-Entered part (call_of part exec) exec r idle open_call)
  ]
]

pub enter-Entered :
    (options : GuardOptions) (exec : Exec) (r : Runtime) → Entered r (enter options exec r)
unfolding enter
enter-Entered options exec r = elim (Bool-cases (is_write options exec.name)) [
  | inr unguarded ↦ rw unguarded (refl, refl)
  | inl guarded ↦
      let (part, r₁) = agent_part exec.agent r in
      rw guarded (
        Entered-trans r r₁ (look_up part exec r₁) (agent_part-Same exec.agent r)
          (look_up-Entered part exec r₁))
]

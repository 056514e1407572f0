-- ===== src/ExactlyOnce/World/Race.antt =====
-- The window between the lookup of a call and the registration of its attempt, while the read-back
-- hook is awaited.
use deepseek_harness_web3_ag.Prelude.{
  ◌+◌, ◌≡◌, refl, sym, ◌∙◌, ap, subst, inl, inr, true, false, Option, none, some, List, [], ◌∷◌,
  Text, text_eq_refl, arith, Option-cases, Bool-cases,
}
use deepseek_harness_web3_ag.Prelude.Maps.{get}
use deepseek_harness_web3_ag.ExactlyOnce.Guard.{
  GuardOptions, Exec, Runtime, ColdIndex, Call, Progress, consulting, LastOutcome, proceed,
  is_write, agent_part, call_key, call_of, begin_attempt, hook_for, last_outcome, cold_outcome,
  scan_session, dispatch, look_up, enter, decide,
}
use deepseek_harness_web3_ag.ExactlyOnce.World.{World, place, Step, Reach, here, next}
use deepseek_harness_web3_ag.ExactlyOnce.World.Invariant.{count}
use deepseek_harness_web3_ag.ExactlyOnce.World.Scans.{
  agent_part_stays, scan_session_again, scan_session_frame,
}

begins_running :
    (call c : Call) (r r' : Runtime) (hook : Text) (o : LastOutcome)
    → ¬ (begin_attempt call r ≡ (consulting hook o c, r'))
unfolding begin_attempt
begins_running call c r r' hook o e = cc

-- What `dispatch` asks the hook, from the index and the runtime that the scan left.
abbrev asked : Call → Exec → Option ColdIndex × Runtime → Option (Text × LastOutcome)
asked call exec (cold, r) =
    hook_for (last_outcome (get call.identity r.outcomes) (cold_outcome cold call.identity))
      (get exec.name r.checks)

dispatch-asked :
    (part : Text) (call : Call) (exec : Exec) (r : Runtime) (hook : Text) (o : LastOutcome)
    → asked call exec (scan_session part exec.agent r) ≡ some (hook, o)
    → dispatch part call exec r ≡ (consulting hook o call, (scan_session part exec.agent r).1)
unfolding dispatch
dispatch-asked part call exec r hook o e = ground arith

dispatch_not_asked :
    (part : Text) (call : Call) (exec : Exec) (r : Runtime)
    → asked call exec (scan_session part exec.agent r) ≡ none
    → dispatch part call exec r ≡ begin_attempt call (scan_session part exec.agent r).1
unfolding dispatch
dispatch_not_asked part call exec r e = ground arith

asked_again :
    (part : Text) (call : Call) (exec : Exec) (r : Runtime)
    → asked call exec (scan_session part exec.agent (scan_session part exec.agent r).1)
      ≡ asked call exec (scan_session part exec.agent r)
asked_again part call exec r =
    let r₁ = (scan_session part exec.agent r).1 in
    let (checks, outcomes, _, _, _) = scan_session_frame part exec.agent r₁ in
    rw (scan_session_again part exec.agent r, checks, outcomes) refl

-- A call that waits for the hook left no trace that its redelivery would see.
dispatch_again :
    (part : Text) (call : Call) (exec : Exec) (r r' : Runtime) (hook : Text) (o : LastOutcome)
    (c : Call)
    → dispatch part call exec r ≡ (consulting hook o c, r')
    → (r' ≡ (scan_session part exec.agent r).1)
      × (c ≡ call)
      × ((dispatch part call exec r').0 ≡ consulting hook o call)
dispatch_again part call exec r r' hook o c h =
    elim (Option-cases (asked call exec (scan_session part exec.agent r))) [
      | inl silent ↦
          absurd (
            begins_running call c _ r' hook o
              (sym (dispatch_not_asked part call exec r silent) ∙ h))
      | inr ((hook', o'), e) ↦
          let d = dispatch-asked part call exec r hook' o' e in
          let again =
            dispatch-asked part call exec (scan_session part exec.agent r).1 hook' o'
              (asked_again part call exec r ∙ e) in
          let same : r' ≡ (scan_session part exec.agent r).1 = ap (λ x. x.1) (sym h ∙ d) in
          (same, cc (h, d), rw (same) (ap (λ x. x.0) again ∙ cc (h, d)))
    ]

enter_unguarded :
    (options : GuardOptions) (exec : Exec) (r : Runtime)
    → is_write options exec.name ≡ false
    → enter options exec r ≡ (Progress.transparent, r)
unfolding enter
enter_unguarded options exec r e = rw (e, enter) refl

enter_guarded :
    (options : GuardOptions) (exec : Exec) (r : Runtime)
    → is_write options exec.name ≡ true
    → enter options exec r ≡ look_up (agent_part exec.agent r).0 exec (agent_part exec.agent r).1
unfolding enter
enter_guarded options exec r e = rw (e, enter) refl

look_up_open :
    (part : Text) (exec : Exec) (r : Runtime)
    → get (call_key part exec) r.in_flight ≡ none
    → get (call_key part exec) r.settled ≡ none
    → look_up part exec r ≡ dispatch part (call_of part exec) exec r
unfolding look_up
look_up_open part exec r idle fresh_call = rw (idle, fresh_call, look_up) refl

look_up-cases :
    (part : Text) (exec : Exec) (r r' : Runtime) (hook : Text) (o : LastOutcome) (c : Call)
    → look_up part exec r ≡ (consulting hook o c, r')
    → (get (call_key part exec) r.in_flight ≡ none) × (get (call_key part exec) r.settled ≡ none)
unfolding look_up
look_up-cases part exec r r' hook o c h =
    elim (Option-cases (get (call_key part exec) r.in_flight)) [
      | inr (n, busy) ↦ absurd (cc (rw (busy, look_up) at h))
      | inl idle ↦ elim (Option-cases (get (call_key part exec) r.settled)) [
        | inr (prior, known) ↦ absurd (cc (rw (idle, known, look_up) at h))
        | inl fresh_call ↦ (idle, fresh_call)
      ]
    ]

look_up_again :
    (part : Text) (exec : Exec) (r r' : Runtime) (hook : Text) (o : LastOutcome) (c : Call)
    → look_up part exec r ≡ (consulting hook o c, r')
    → (r'.agent_ids ≡ r.agent_ids) × ((look_up part exec r').0 ≡ consulting hook o c)
look_up_again part exec r r' hook o c h =
    let (idle, fresh_call) = look_up-cases part exec r r' hook o c h in
    let d = sym (look_up_open part exec r idle fresh_call) ∙ h in
    let (same, mine, again) = dispatch_again part (call_of part exec) exec r r' hook o c d in
    let (_, _, flight, settled, ids) = scan_session_frame part exec.agent r in
    (
      ap (λ x. x.agent_ids) same ∙ ids,
      ap (λ x. x.0)
            (look_up_open part exec r'
              (ap (λ x. get (call_key part exec) x.in_flight) same ∙ rw flight idle)
              (ap (λ x. get (call_key part exec) x.settled) same ∙ rw settled fresh_call))
          ∙ again
          ∙ ap (λ x. consulting hook o x) (sym mine),
    )

-- A redelivery while the hook is awaited asks the hook as well.
enter_again :
    (options : GuardOptions) (exec : Exec) (r r' : Runtime) (hook : Text) (o : LastOutcome)
    (c : Call)
    → enter options exec r ≡ (consulting hook o c, r')
    → (enter options exec r').0 ≡ consulting hook o c
enter_again options exec r r' hook o c h = elim (Bool-cases (is_write options exec.name)) [
  | inr unguarded ↦ absurd (cc (h, enter_unguarded options exec r unguarded))
  | inl guarded ↦
      let (part, r₁) = agent_part exec.agent r in
      let (ids, again) =
        look_up_again part exec r₁ r' hook o c (sym (enter_guarded options exec r guarded) ∙ h) in
      let tagged = agent_part_stays exec.agent r r' ids in
      ap (λ x. x.0) (enter_guarded options exec r' guarded)
      ∙ ap (λ x. (look_up x.0 exec x.1).0) tagged
      ∙ again
]

-- Two calls that wait for the hook, and both answers are `proceed`.
both_proceed :
    (options : GuardOptions) (w : World) (call : Call) (waiting : List Call)
    → w.at_hook ≡ call ∷ call ∷ waiting
    → (v : World) × Reach options w v
      × (count call.key v.started ≡ count call.key w.started + 2)
      × (v.thrown ≡ w.thrown)
unfolding decide begin_attempt
both_proceed options w call waiting e =
    let w₁ = place (decide call proceed 0 w.runtime) (record w { at_hook = call ∷ waiting }) in
    let w₂ = place (decide call proceed 0 w₁.runtime) (record w₁ { at_hook = waiting }) in
    (
      w₂,
      next (next here (Step.answer [] (call ∷ waiting) call proceed 0 e))
          (Step.answer [] waiting call proceed 0 refl),
      rw (text_eq_refl call.key) (omega arith),
      refl,
    )

Reach-trans :
    {options : GuardOptions} {u v w : World}
    → Reach options u v
    → Reach options v w
    → Reach options u w
Reach-trans first here = first
Reach-trans first (next r st) = next (Reach-trans first r) st

arrive_waits :
    (options : GuardOptions) (exec : Exec) (w : World) (r' : Runtime) (hook : Text)
    (o : LastOutcome) (call : Call)
    → (enter options exec w.runtime) ≡ (consulting hook o call, r')
    → (v : World) × Reach options w v
      × (v.runtime ≡ r')
      × (v.at_hook ≡ call ∷ w.at_hook)
      × (v.started ≡ w.started)
      × (v.thrown ≡ w.thrown)
arrive_waits options exec w r' hook o call h = (
  place (consulting hook o call, r') w,
  subst (λ p. Reach options w (place p w)) h (next here (Step.arrive exec)),
  refl,
  refl,
  refl,
  refl,
)

-- Where a call waits for its read-back hook, one redelivery of it and two answers `proceed` start its
-- body twice, and no body throws on the way.
pub body_starts_twice :
    (options : GuardOptions) (exec : Exec) (w : World) (hook : Text) (o : LastOutcome) (call : Call)
    (r' : Runtime)
    → enter options exec w.runtime ≡ (consulting hook o call, r')
    → (v : World) × Reach options w v
      × (count call.key v.started ≡ count call.key w.started + 2)
      × (v.thrown ≡ w.thrown)
body_starts_twice options exec w hook o call r' h =
    let (w₁, reach₁, run₁, hook₁, started₁, thrown₁) =
      arrive_waits options exec w r' hook o call h in
    let again =
      ap (λ r. (enter options exec r).0) run₁
      ∙ enter_again options exec w.runtime r' hook o call h in
    let (w₂, reach₂, run₂, hook₂, started₂, thrown₂) =
      arrive_waits options exec w₁ (enter options exec w₁.runtime).1 hook o call
        (ap (λ p. (p, (enter options exec w₁.runtime).1)) again) in
    let (v, reach₃, started₃, thrown₃) =
      both_proceed options w₂ call w.at_hook (hook₂ ∙ ap (λ x. call ∷ x) hook₁) in
    (
      v,
      Reach-trans (Reach-trans reach₁ reach₂) reach₃,
      started₃ ∙ ap (λ x. count call.key x + 2) (started₂ ∙ started₁),
      thrown₃ ∙ thrown₂ ∙ thrown₁,
    )

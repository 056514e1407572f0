-- ===== src/ExactlyOnce/World/Invariant.antt =====
-- What the steps of calls of `wrap` (dsh-exactly-once/src/guard.ts) keep of one call key.
use deepseek_harness_web3_ag.Prelude.{
  ℕ, zero, suc, ◌≤◌, ◌<◌, ◌≡◌, ◌≢◌, refl, ◌∙◌, ap, ◌⊎◌, inl, inr, false, Option, none, some, List,
  [], ◌∷◌, Text, text_eq, text_eq→eq, if◌then◌else◌, arith, Bool-cases, All,
}
use deepseek_harness_web3_ag.Prelude.Maps.{get, get-insert, get-erase}
use deepseek_harness_web3_ag.ExactlyOnce.Guard.{
  ExecResult, Runtime, Call, Progress, transparent, attached, replayed, failed, consulting, running,
  CheckDecision, decide, replay_value, clone_result, settle, settle_throw, register_check,
  dispose_check, reset_agent, begin_attempt,
}
use deepseek_harness_web3_ag.ExactlyOnce.Guard.Clone.{Tree, clone_json}
use deepseek_harness_web3_ag.ExactlyOnce.Guard.Replay.{settle_maps}
use deepseek_harness_web3_ag.ExactlyOnce.World.{World, place}
use deepseek_harness_web3_ag.ExactlyOnce.World.Entered.{Same, Entered}

-- How often a key stands in a list.
abbrev pub count : Text → List Text → ℕ
count k [] = 0
count k (j ∷ js) = if text_eq j k then suc (count k js) else count k js

-- What holds of one call key, while no call with it went to the hook or threw.
pub record Inv (k : Text) (w : World) : Type 0 where
  pub once : count k w.started ≤ 1
  pub recorded :
      0 < count k w.started → (get k w.runtime.in_flight ≢ none) ⊎ (get k w.runtime.settled ≢ none)
  pub elsewhere : All (λ c. text_eq c.key k ≡ false) w.at_hook

-- The key went neither to the hook nor through a throw.
abbrev pub Quiet : Text → World → Type 0
Quiet k w = (count k w.consulted ≡ 0) × (count k w.thrown ≡ 0)

zero_or_pos : (n : ℕ) → (n ≡ 0) ⊎ (0 < n)
zero_or_pos zero = inl refl
zero_or_pos (suc n) = inr (omega arith)

-- A key with no call in flight or settled has not been started.
unrecorded :
    (k : Text) (w : World)
    → Inv k w
    → get k w.runtime.in_flight ≡ none
    → get k w.runtime.settled ≡ none
    → count k w.started ≡ 0
unrecorded k w v idle open_call = elim (zero_or_pos (count k w.started)) [
  | inl never ↦ never
  | inr once ↦
      absurd (elim (v.recorded once) [ inl busy ↦ busy idle | inr known ↦ known open_call ])
]

-- The attempt of a call that is neither in flight nor settled.
running-Inv :
    (k : Text) (w : World) (n : ℕ) (call : Call) (r' : Runtime)
    → Entered w.runtime (running n call, r')
    → Inv k w
    → Inv k (place (running n call, r') w)
running-Inv k w n call r' (idle, open_call, flight, settled) v =
    elim (Bool-cases (text_eq call.key k)) [
      | inl same ↦
          let e : call.key ≡ k = text_eq→eq call.key k same in
          let never : count k w.started ≡ 0 =
            unrecorded k w v (rw (← e) idle) (rw (← e) open_call) in
          record {
            once = rw same (omega (arith, never));
            recorded = λ _.
                inl (λ gone. cc (gone, flight, get-insert call.key k n w.runtime.in_flight, same));
            elsewhere = v.elsewhere;
          }
      | inr other ↦ record {
        once = rw other v.once;
        recorded =
            rw (other, flight, settled, get-insert call.key k n w.runtime.in_flight, other)
              v.recorded;
        elsewhere = v.elsewhere;
      }
    ]

pub place-Inv :
    (k : Text) (w : World) (p : Progress × Runtime)
    → Entered w.runtime p
    → Inv k w
    → Quiet k (place p w)
    → Inv k (place p w)
place-Inv k w (running n call, r') entered v quiet = running-Inv k w n call r' entered v
place-Inv k w (transparent, r') (f, s) v quiet = record {
  once = v.once;
  recorded = rw (f, s) v.recorded;
  elsewhere = v.elsewhere;
}
place-Inv k w (attached n, r') (f, s) v quiet = record {
  once = v.once;
  recorded = rw (f, s) v.recorded;
  elsewhere = v.elsewhere;
}
place-Inv k w (replayed result, r') (f, s) v quiet = record {
  once = v.once;
  recorded = rw (f, s) v.recorded;
  elsewhere = v.elsewhere;
}
place-Inv k w (failed, r') (f, s) v quiet = record {
  once = v.once;
  recorded = rw (f, s) v.recorded;
  elsewhere = v.elsewhere;
}
place-Inv k w (consulting hook o call, r') (f, s) v quiet = record {
  once = v.once;
  recorded = rw (f, s) v.recorded;
  elsewhere = (ground arith, v.elsewhere);
}

-- A step that leaves the key's entries alone.
pub Inv-frame :
    (k : Text) (w w' : World)
    → count k w'.started ≡ count k w.started
    → get k w'.runtime.in_flight ≡ get k w.runtime.in_flight
    → get k w'.runtime.settled ≡ get k w.runtime.settled
    → All (λ c. text_eq c.key k ≡ false) w'.at_hook
    → Inv k w
    → Inv k w'
Inv-frame k w w' started flight settled elsewhere v = record {
  once = rw started v.once;
  recorded = rw (started, flight, settled) v.recorded;
  elsewhere = elsewhere;
}

replay_value-Inv :
    (k : Text) (w : World) (call : Call) (value : Option Tree) (now : ℕ)
    → text_eq call.key k ≡ false
    → Inv k w
    → Inv k (place (replay_value call value now w.runtime) w)
unfolding replay_value
replay_value-Inv k w call none now other v = Inv-frame k w _ refl refl refl v.elsewhere v
replay_value-Inv k w call (some value) now other v =
    Inv-frame k w _ refl refl (get-insert call.key k _ w.runtime.settled ∙ rw other) v.elsewhere v

-- The hook answered, for another key.
pub decide-Inv :
    (k : Text) (w : World) (call : Call) (d : CheckDecision) (now : ℕ)
    → text_eq call.key k ≡ false
    → Inv k w
    → Inv k (place (decide call d now w.runtime) w)
unfolding decide begin_attempt
decide-Inv k w call (CheckDecision.replay value) now other v =
    replay_value-Inv k w call (clone_json value) now other v
decide-Inv k w call CheckDecision.proceed now other v =
    Inv-frame k w _ (rw other) (get-insert call.key k _ w.runtime.in_flight ∙ rw other) refl
      v.elsewhere v
decide-Inv k w call CheckDecision.unknown now other v =
    Inv-frame k w _ (rw other) (get-insert call.key k _ w.runtime.in_flight ∙ rw other) refl
      v.elsewhere v

-- The body returned: the call is settled.
pub settle-Inv :
    (k : Text) (w : World) (call : Call) (result : ExecResult) (now : ℕ)
    → Inv k w
    → Inv k (record w { runtime = (settle call result now w.runtime).1 })
settle-Inv k w call result now v =
    let (flight, settled) = settle_maps call result now w.runtime in
    elim (Bool-cases (text_eq call.key k)) [
      | inl same ↦ record {
        once = v.once;
        recorded = λ _. inr (λ gone. cc (
          gone,
          settled,
          get-insert call.key k
              (record { result = clone_result (settle call result now w.runtime).0; at = now })
              w.runtime.settled,
          same,
        ));
        elsewhere = v.elsewhere;
      }
      | inr other ↦
          Inv-frame k w _ refl
            (ap (get k) flight ∙ get-erase call.key k w.runtime.in_flight ∙ rw other)
            (ap (get k) settled ∙ get-insert call.key k _ w.runtime.settled ∙ rw other) v.elsewhere
            v
    ]

-- The body threw, for another key.
pub throw-Inv :
    (k : Text) (w : World) (call : Call) (now : ℕ)
    → text_eq call.key k ≡ false
    → Inv k w
    → Inv k (record w { runtime = settle_throw call now w.runtime })
unfolding settle_throw
throw-Inv k w call now other v =
    Inv-frame k w _ refl (get-erase call.key k w.runtime.in_flight ∙ rw other) refl v.elsewhere v

pub register_check-Same : (name fn : Text) (r : Runtime) → Same r (register_check name fn r)
unfolding register_check
register_check-Same name fn r = (refl, refl)

pub dispose_check-Same : (name fn : Text) (r : Runtime) → Same r (dispose_check name fn r)
unfolding dispose_check
dispose_check-Same name fn r = ground arith

pub reset_agent-Same : (agent : Text) (r : Runtime) → Same r (reset_agent agent r)
unfolding reset_agent
reset_agent-Same agent r = ground arith

pub Same-Inv :
    (k : Text) (w : World) (r : Runtime)
    → Same w.runtime r
    → Inv k w
    → Inv k (record w { runtime = r })
Same-Inv k w r (flight, settled) v =
    Inv-frame k w _ refl (ap (get k) flight) (ap (get k) settled) v.elsewhere v

pub place-Quiet : (k : Text) (w : World) (p : Progress × Runtime) → Quiet k (place p w) → Quiet k w
place-Quiet k w (running n call, r) q = q
place-Quiet k w (consulting hook o call, r) q = ground arith
place-Quiet k w (transparent, r) q = q
place-Quiet k w (attached n, r) q = q
place-Quiet k w (replayed result, r) q = q
place-Quiet k w (failed, r) q = q

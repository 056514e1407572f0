-- ===== src/ExactlyOnce/World/Once.antt =====
-- The body of a guarded call starts once.
use deepseek_harness_web3_ag.Prelude.{◌≤◌, ◌≡◌, refl, false, ◌++◌, Text, text_eq, arith, All-middle}
use deepseek_harness_web3_ag.ExactlyOnce.Guard.{GuardOptions, enter, decide, settle, settle_throw}
use deepseek_harness_web3_ag.ExactlyOnce.World.{World, start, Step, Reach, here, next}
use deepseek_harness_web3_ag.ExactlyOnce.World.Entered.{enter-Entered}
use deepseek_harness_web3_ag.ExactlyOnce.World.Invariant.{
  count, Inv, Quiet, place-Inv, Inv-frame, decide-Inv, settle-Inv, throw-Inv, register_check-Same,
  dispose_check-Same, reset_agent-Same, Same-Inv, place-Quiet,
}

module _ {options : GuardOptions} where
  Step-Quiet : {w v : World} (k : Text) → Step options w v → Quiet k v → Quiet k w
  Step-Quiet {w} k (Step.arrive exec) q = place-Quiet k w (enter options exec w.runtime) q
  Step-Quiet {w} k (Step.answer before after call d now e) q =
      place-Quiet k (record w { at_hook = before ++ after }) (decide call d now w.runtime) q
  Step-Quiet k (Step.hook_threw before after call e) q = q
  Step-Quiet k (Step.finish before after call result now e) q = q
  Step-Quiet k (Step.throw before after call now e) q = ground arith
  Step-Quiet k (Step.register name fn) q = q
  Step-Quiet k (Step.dispose name fn) q = q
  Step-Quiet k (Step.reset agent) q = q

  Step-Inv : {w v : World} (k : Text) → Step options w v → Quiet k v → Inv k w → Inv k v
  Step-Inv {w} k (Step.arrive exec) q v =
      place-Inv k w (enter options exec w.runtime) (enter-Entered options exec w.runtime) v q
  Step-Inv {w} k (Step.answer before after call d now e) q v =
      let (other, rest) =
        All-middle (λ c. text_eq c.key k ≡ false) before after call (rw (← e) v.elsewhere) in
      decide-Inv k (record w { at_hook = before ++ after }) call d now other
        (Inv-frame k w _ refl refl refl rest v)
  Step-Inv {w} k (Step.hook_threw before after call e) q v =
      Inv-frame k w _ refl refl refl
        (All-middle (λ c. text_eq c.key k ≡ false) before after call (rw (← e) v.elsewhere)).1 v
  Step-Inv {w} k (Step.finish before after call result now e) q v =
      let done = settle-Inv k w call result now v in
      Inv-frame k (record w { runtime = (settle call result now w.runtime).1 }) _ refl refl refl
        done.elsewhere done
  Step-Inv {w} k (Step.throw before after call now e) q v =
      let failed = throw-Inv k w call now (ground arith) v in
      Inv-frame k (record w { runtime = settle_throw call now w.runtime }) _ refl refl refl
        failed.elsewhere failed
  Step-Inv {w} k (Step.register name fn) q v =
      Same-Inv k w _ (register_check-Same name fn w.runtime) v
  Step-Inv {w} k (Step.dispose name fn) q v =
      Same-Inv k w _ (dispose_check-Same name fn w.runtime) v
  Step-Inv {w} k (Step.reset agent) q v = Same-Inv k w _ (reset_agent-Same agent w.runtime) v

  Reach-Inv : {w : World} (k : Text) → Reach options start w → Quiet k w → Inv k w
  Reach-Inv k here q = record {
    once = omega arith;
    recorded = λ p. absurd (omega arith);
    elsewhere = tt;
  }
  Reach-Inv k (next r st) q =
      let before = Step-Quiet k st q in Step-Inv k st q (Reach-Inv k r before)

  -- However calls, answers of hooks, results, throws and registrations interleave: the body of a call
  -- key that no read-back hook was asked about, and whose body did not throw, was started at most
  -- once.
  pub body_starts_once :
      {w : World} (k : Text)
      → Reach options start w
      → count k w.consulted ≡ 0
      → count k w.thrown ≡ 0
      → count k w.started ≤ 1
  body_starts_once k r c t = (Reach-Inv k r (c, t)).once

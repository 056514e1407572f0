-- ===== src/ExactlyOnce/Guard/Replay.antt =====
-- What a redelivery of a call gets: the promise of the attempt under way, or the recorded result.
use deepseek_harness_web3_ag.Prelude.{
  ℕ, ◌≡◌, ◌∙◌, sym, ap, inl, inr, true, ◌&&◌, none, some, Text, arith, Option-cases, Bool-cases,
}
use deepseek_harness_web3_ag.Prelude.Maps.{get, insert, erase, get-insert_self, get-erase_self}
use deepseek_harness_web3_ag.ExactlyOnce.Guard.Clone.{clone_json-IsLossless}
use deepseek_harness_web3_ag.ExactlyOnce.Guard.{
  GuardOptions, Exec, ExecResult, SettledEntry, Runtime, Call, attached, replayed, is_write,
  agent_part, call_key, maybe_stamp, clone_result, ResultIsLossless, is_ambiguous_code, look_up,
  enter, settle,
}

-- The tag of the agent is known, and the key is that of the call.
abbrev pub Redelivers : Exec → Call → Runtime → Type 0
Redelivers exec call r =
    (part : Text) × (agent_part exec.agent r ≡ (part, r)) × (call_key part exec ≡ call.key)

-- What a returned body does to the two maps.
pub settle_maps :
    (call : Call) (result : ExecResult) (now : ℕ) (r : Runtime)
    → let (stamped, r') = settle call result now r in
      (r'.in_flight ≡ erase call.key r.in_flight)
      × (r'.settled
          ≡ insert call.key (record { result = clone_result stamped; at = now }) r.settled)
unfolding settle maybe_stamp
settle_maps call result now r = ground arith

look_up_attached :
    (part : Text) (exec : Exec) (r : Runtime) (n : ℕ)
    → get (call_key part exec) r.in_flight ≡ some n
    → look_up part exec r ≡ (attached n, r)
unfolding look_up
look_up_attached part exec r n busy = ground arith

look_up_replayed :
    (part : Text) (exec : Exec) (r : Runtime) (prior : SettledEntry)
    → get (call_key part exec) r.in_flight ≡ none
    → get (call_key part exec) r.settled ≡ some prior
    → look_up part exec r ≡ (replayed (clone_result prior.result), r)
unfolding look_up
look_up_replayed part exec r prior idle known = ground arith

clone_result-lossless :
    (result : ExecResult) → ResultIsLossless result → clone_result result ≡ result
unfolding clone_result
clone_result-lossless result h = elim (Option-cases result.value) [
  | inl bare ↦
      ap (λ x. record result { value = x })
        (ap (λ v. (clone_result (record result { value = v })).value) bare ∙ sym bare)
  | inr (v, has) ↦
      ap (λ x. record result { value = x })
        (rw has (clone_json-IsLossless v (rw has at h)) ∙ sym has)
]

-- The trailer leaves the value alone.
maybe_stamp-lossless :
    (result : ExecResult) (r : Runtime)
    → ResultIsLossless result
    → ResultIsLossless (maybe_stamp result r).0
unfolding maybe_stamp
maybe_stamp-lossless result r h =
    elim (Bool-cases (result.is_error && is_ambiguous_code result.code)) [
      | inl stamps ↦ rw stamps h
      | inr plain ↦ rw plain h
    ]

settle-lossless :
    (call : Call) (result : ExecResult) (now : ℕ) (r : Runtime)
    → ResultIsLossless result
    → ResultIsLossless (settle call result now r).0
unfolding settle
settle-lossless call result now r h = maybe_stamp-lossless result r h

module _ (options : GuardOptions) (exec : Exec) (guarded : is_write options exec.name ≡ true) where
  enter_known :
      (part : Text) (r : Runtime)
      → agent_part exec.agent r ≡ (part, r)
      → enter options exec r ≡ look_up part exec r
  unfolding enter
  enter_known part r tagged = rw guarded (ap (λ p. look_up p.0 exec p.1) tagged)

  -- A redelivery of a guarded call whose body is running waits for that attempt: nothing else
  -- happens.
  enter_attaches :
      (call : Call) (r : Runtime) (n : ℕ)
      → Redelivers exec call r
      → get call.key r.in_flight ≡ some n
      → enter options exec r ≡ (attached n, r)
  enter_attaches call r n (part, tagged, same) busy =
      enter_known part r tagged ∙ look_up_attached part exec r n (rw same busy)

  -- Where a body returned a result whose value, if it has one, is a JSON value (no part of it is undefined,
  -- a function, or a number that is not finite), a redelivery of the guarded call right after that gets a
  -- result equal to the one that the first caller got, attempt trailer included, and runs no body.
  pub enter_replays :
      (call : Call) (result : ExecResult) (now : ℕ) (r : Runtime)
      → let (stamped, r') = settle call result now r in
        ResultIsLossless result
        → Redelivers exec call r'
        → enter options exec r' ≡ (replayed stamped, r')
  enter_replays call result now r lossless (part, tagged, same) =
      let (flight, settled) = settle_maps call result now r in
      let stamped = (settle call result now r).0 in
      let once = clone_result-lossless stamped (settle-lossless call result now r lossless) in
      let twice : clone_result (clone_result stamped) ≡ stamped = ap clone_result once ∙ once in
      enter_known part (settle call result now r).1 tagged
      ∙ look_up_replayed part exec (settle call result now r).1
          (record { result = clone_result (settle call result now r).0; at = now })
          (rw (same, flight) (get-erase_self call.key r.in_flight))
          (rw (same, settled) (get-insert_self call.key _ r.settled))
      ∙ ap (λ x. (replayed x, (settle call result now r).1)) twice

-- ===== src/ExactlyOnce/World/Scans.antt =====
-- The scan of a session in `wrap` (dsh-exactly-once/src/guard.ts) gives the same when it runs again.
use deepseek_harness_web3_ag.Prelude.{
  ◌+◌, ◌≡◌, refl, sym, ◌∙◌, ap, inl, inr, Option, none, some, ◌++◌, Text, codes, arith,
  Option-cases,
}
use deepseek_harness_web3_ag.Prelude.Decimal.{show}
use deepseek_harness_web3_ag.Prelude.Maps.{get, get-insert_self}
use deepseek_harness_web3_ag.ExactlyOnce.Guard.{
  Session, Agent, Runtime, agent_part, scan_one, index_session, session_of, scan_session,
}

pub agent_part_stays :
    (a : Option Agent) (r r' : Runtime)
    → r'.agent_ids ≡ (agent_part a r).1.agent_ids
    → agent_part a r' ≡ ((agent_part a r).0, r')
unfolding agent_part
agent_part_stays none r r' h = refl
agent_part_stays (some a) r r' h = elim (Option-cases (get a.id r.agent_ids)) [
  | inr (id, known) ↦ ground arith
  | inl new ↦ ground (arith, get-insert_self a.id (codes "a" ++ show (r.agent_seq + 1)) r.agent_ids)
]

scan_one_again :
    (part : Text) (session : Session) (r : Runtime)
    → (scan_one part session (scan_one part session r).1).0 ≡ (scan_one part session r).0
unfolding scan_one
scan_one_again part session r =
    ground (arith, get-insert_self session.id (index_session part session) r.cold)

scan_session-some :
    (part : Text) (a : Option Agent) (session : Session) (r : Runtime)
    → session_of a ≡ some session
    → scan_session part a r ≡ scan_one part session r
unfolding scan_session
scan_session-some part a session r e = rw (e, scan_session) refl

scan_session-none :
    (part : Text) (a : Option Agent) (r : Runtime)
    → session_of a ≡ none
    → scan_session part a r ≡ (none, r)
unfolding scan_session
scan_session-none part a r e = rw (e, scan_session) refl

-- Scanning again finds the index that the first scan found.
pub scan_session_again :
    (part : Text) (a : Option Agent) (r : Runtime)
    → (scan_session part a (scan_session part a r).1).0 ≡ (scan_session part a r).0
scan_session_again part a r = elim (Option-cases (session_of a)) [
  | inl bare ↦ ap (λ x. (scan_session part a x.1).0) (scan_session-none part a r bare)
  | inr (session, e) ↦
      ap (λ x. (scan_session part a x.1).0) (scan_session-some part a session r e)
      ∙ ap (λ x. x.0) (scan_session-some part a session (scan_one part session r).1 e)
      ∙ scan_one_again part session r
      ∙ ap (λ x. x.0) (sym (scan_session-some part a session r e))
]

-- Scanning touches the memo of the cold index alone.
pub scan_session_frame :
    (part : Text) (a : Option Agent) (r : Runtime)
    → let r' = (scan_session part a r).1 in
      (r'.checks ≡ r.checks)
      × (r'.outcomes ≡ r.outcomes)
      × (r'.in_flight ≡ r.in_flight)
      × (r'.settled ≡ r.settled)
      × (r'.agent_ids ≡ r.agent_ids)
unfolding scan_session
scan_session_frame part a r = ground arith

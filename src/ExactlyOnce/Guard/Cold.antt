-- ===== src/ExactlyOnce/Guard/Cold.antt =====
-- `buildColdIndex` of dsh-exactly-once/src/guard.ts: the last outcome of each retry identity, folded
-- from the events of a session.
use deepseek_harness_web3_ag.Prelude.{ℕ, Bool, Option, none, some, List, [], ◌∷◌, ◌++◌, Text, codes}
use deepseek_harness_web3_ag.Prelude.Maps.{Dict, get, insert}
use deepseek_harness_web3_ag.ExactlyOnce.Json.{JsValue}
use deepseek_harness_web3_ag.ExactlyOnce.Canonical.{canonicalize}

pub record LastOutcome : Type 0 where
  pub is_error : Bool
  pub code : Option Text
  pub at : ℕ

-- An event that the fold reads. A member is `none` where the source finds no string there; every
-- other event is passed over.
pub data SessionEvent : Type 0 where
  call : (call_id name : Option Text) → (arguments : JsValue) → SessionEvent
  result :
      (tool_call_id source_call_id : Option Text)
      → (is_error : Bool) → (code : Option Text) → SessionEvent
  other : SessionEvent

pub record CallRecord : Type 0 where
  pub name : Text
  pub args_key : Text

-- The two maps of the fold.
pub record Fold : Type 0 where
  pub calls : Dict CallRecord
  pub last_by_identity : Dict LastOutcome

abbrev or_else : Option Text → Option Text → Option Text
or_else (some id) o = some id
or_else none o = o

abbrev pub identity_of : Text → CallRecord → Text
identity_of part c = part ++ (codes "|" ++ (c.name ++ (codes "|" ++ c.args_key)))

abbrev note_call : Option Text → Option Text → JsValue → Fold → Fold
note_call (some id) (some name) arguments f = record f {
  calls = insert id (record { name = name; args_key = canonicalize arguments }) f.calls;
}
note_call _ _ arguments f = f

abbrev note_result : Text → Option CallRecord → LastOutcome → Fold → Fold
note_result part none o f = f
note_result part (some c) o f = record f {
  last_by_identity = insert (identity_of part c) o f.last_by_identity;
}

abbrev call_of : Option Text → Fold → Option CallRecord
call_of none f = none
call_of (some id) f = get id f.calls

unfoldable pub fold_event : Text → SessionEvent → Fold → Fold
fold_event part (call id name arguments) f = note_call id name arguments f
fold_event part (result tool source is_error code) f =
    note_result part (call_of (or_else tool source) f)
      (record { is_error = is_error; code = code; at = 0 }) f
fold_event part other f = f

unfoldable pub fold_events : Text → List SessionEvent → Fold → Fold
unfolding fold_event
fold_events part [] f = f
fold_events part (e ∷ es) f = fold_events part es (fold_event part e f)

unfoldable pub build_cold_index : List SessionEvent → Text → Dict LastOutcome
unfolding fold_events
build_cold_index events part =
    (fold_events part events (record { calls = []; last_by_identity = [] })).last_by_identity

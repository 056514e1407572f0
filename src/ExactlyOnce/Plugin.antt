-- ===== src/ExactlyOnce/Plugin.antt =====
-- dsh-exactly-once/src/index.ts: the configuration of the guard, and what resets an agent.
use deepseek_harness_web3_ag.Prelude.{
  Option, none, some, List, [], ◌∷◌, Text, codes, text_eq, if◌then◌else◌, any,
}
use deepseek_harness_web3_ag.ExactlyOnce.Guard.{GuardOptions, Runtime, reset_agent}

abbrev pub default_writes : List Text
default_writes =
    codes "synapse_pin"
    ∷ codes "*_submit"
    ∷ codes "arkiv_create_entity"
    ∷ codes "arkiv_create_entities"
    ∷ codes "arkiv_update_entity"
    ∷ codes "erc8004_register"
    ∷ codes "rr_launch"
    ∷ codes "rr_sweep"
    ∷ codes "rr_heartbeat"
    ∷ codes "aol_decrypt"
    ∷ []

-- `Config`; a missing list is `none`.
pub record Config : Type 0 where
  pub writes : Option (List Text)
  pub exempt : Option (List Text)

abbrev or_list : Option (List Text) → List Text → List Text
or_list none d = d
or_list (some patterns) d = patterns

-- A pattern stands for its compiled form.
unfoldable pub resolve_config : Config → GuardOptions
resolve_config config = record {
  writes = or_list config.writes default_writes;
  exempt = or_list config.exempt [];
}

-- `agent/pre-step`, from the kinds of the sources of its messages.
unfoldable pub pre_step : Text → List Text → Runtime → Runtime
pre_step agent kinds r = if any (text_eq (codes "user")) kinds then reset_agent agent r else r

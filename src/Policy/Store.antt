-- ===== src/Policy/Store.antt =====
-- openjax-policy/src/store.rs: the rule set, with the built-in rule for destructive commands.
pub mod Builtin
use open_jax.Prelude.{List, [], ◌∷◌, ◌++◌, none, some}
use open_jax.Prelude.Int.{pos}
use open_jax.Policy.Schema.{DecisionKind, escalate, PolicyRule}

pub record PolicyStore : Type 0 where
  pub default_decision : DecisionKind
  pub rules : List PolicyRule

abbrev pub system_destructive : PolicyRule
system_destructive = record {
  id = "system:destructive_escalate";
  decision = escalate;
  priority = pos 1000;
  tool_name = none;
  action = none;
  session_id = none;
  actor = none;
  resource = none;
  capabilities_all = [];
  risk_tags_all = "destructive" ∷ [];
  reason = "destructive commands always require escalation approval";
}

-- `PolicyStore::new`
unfoldable pub new : DecisionKind → List PolicyRule → PolicyStore
new default_decision rules = record {
  default_decision = default_decision;
  rules = rules ++ system_destructive ∷ [];
}

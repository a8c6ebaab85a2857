-- ===== src/Policy/Schema.antt =====
-- openjax-policy/src/schema.rs: decisions, inputs, rules, and when a rule matches.
use open_jax.Prelude.{
  ℕ, ◌+◌, String, Bool, true, false, ◌&&◌, Option, none, some, List, [], ◌∷◌, any, all, str_eq,
  is_some, if◌then◌else◌,
}
use open_jax.Prelude.Int.{ℤ}

pub data DecisionKind : Type 0 where
  allow ask escalate deny : DecisionKind

unfoldable pub conservative_rank : DecisionKind → ℕ
conservative_rank allow = 0
conservative_rank ask = 1
conservative_rank escalate = 2
conservative_rank deny = 3

abbrev pub as_str : DecisionKind → String
as_str allow = "allow"
as_str ask = "ask"
as_str escalate = "escalate"
as_str deny = "deny"

pub record PolicyInput : Type 0 where
  pub tool_name : String
  pub action : String
  pub session_id : Option String
  pub actor : Option String
  pub resource : Option String
  pub capabilities : List String
  pub risk_tags : List String
  pub policy_version : ℕ

pub record PolicyRule : Type 0 where
  pub id : String
  pub decision : DecisionKind
  pub priority : ℤ
  pub tool_name : Option String
  pub action : Option String
  pub session_id : Option String
  pub actor : Option String
  pub resource : Option String
  pub capabilities_all : List String
  pub risk_tags_all : List String
  pub reason : String

-- `source.iter().any(|actual| actual == expected)`, also `Vec::contains`
abbrev pub contains : List String → String → Bool
contains source expected = any (λ actual. str_eq actual expected) source

unfoldable pub contains_all : List String → List String → Bool
contains_all source required = all (λ expected. contains source expected) required

-- `actual == Some(expected)`
abbrev pub is_this : String → Option String → Bool
is_this expected none = false
is_this expected (some actual) = str_eq actual expected

unfoldable pub matches_required_value : Option String → Option String → Bool
matches_required_value none actual = true
matches_required_value (some expected) actual = is_this expected actual

-- The size of the set of the values.
unfoldable pub unique_count : List String → ℕ
unique_count [] = 0
unique_count (v ∷ vs) = let rest = unique_count vs in if contains vs v then rest else 1 + rest

unfoldable pub matches : PolicyRule → PolicyInput → Bool
unfolding matches_required_value contains_all
matches rule input =
    matches_required_value rule.tool_name (some input.tool_name)
    && matches_required_value rule.action (some input.action)
    && matches_required_value rule.session_id input.session_id
    && matches_required_value rule.actor input.actor
    && matches_required_value rule.resource input.resource
    && contains_all input.capabilities rule.capabilities_all
    && contains_all input.risk_tags rule.risk_tags_all

-- `usize::from(bool)`
abbrev pub from_bool : Bool → ℕ
from_bool b = if b then 1 else 0

unfoldable pub specificity : PolicyRule → ℕ
unfolding unique_count
specificity rule =
    from_bool (is_some rule.tool_name)
    + from_bool (is_some rule.action)
    + from_bool (is_some rule.session_id)
    + from_bool (is_some rule.actor)
    + from_bool (is_some rule.resource)
    + unique_count rule.capabilities_all
    + unique_count rule.risk_tags_all

pub record PolicyDecision : Type 0 where
  pub kind : DecisionKind
  pub matched_rule_id : Option String
  pub policy_version : ℕ
  pub reason : String

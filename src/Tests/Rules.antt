-- ===== src/Tests/Rules.antt =====
-- Runs of the theorems on rules, the runtime of the policy centre and the tags of commands.
use open_jax.Prelude.{
  arith, ap, ◌<◌, ◌^◌, ◌≢◌, ℕ, ◌+◌, String, ◌≡◌, refl, ◌⊎◌, true, false, ◌&&◌, none, some, List, [],
  ◌∷◌, any, length, str_eq, Elem, here, there,
}
use open_jax.Prelude.Int.{pos}
use open_jax.Prelude.Texts.{Text, codes, to_ascii_lowercase}
use open_jax.Policy.Schema.{
  DecisionKind, allow, ask, escalate, deny, PolicyInput, PolicyRule, matches, contains, is_this,
}
use open_jax.Policy.Engine.{decide, decision_of}
use open_jax.Policy.Engine.Decide.{
  NoneMatches, IsSelected, SameRules, decide_selects, decide-SameRules,
}
use open_jax.Policy.Store
use open_jax.Policy.Store.{PolicyStore}
use open_jax.Policy.Store.Builtin.{AllBelow, destructive_escalates, higher_rule_decides}
use open_jax.Policy.Runtime.{
  PolicyRuntime, SessionOverlay, current_version, handle, decide_at, set_session_overlay,
  clear_session_overlay, with_snapshot_version,
}
use open_jax.Policy.Runtime.Versions.{
  Update, publishes, sets, clears, apply_all, count_up, apply_all-versions,
}
use open_jax.Policy.Runtime.Overlays.{
  SameOutcome, OverlayFirst, set-other_session, clear-set, set-own_session,
}
use open_jax.Sandbox.Risk.{network, detect_capabilities, has_capability, extract_shell_risk_tags}
use open_jax.Sandbox.Risk.Tags.{evidence, conditions, capabilities_exact, tags_exact, tags-lower}

abbrev any_tool : String → DecisionKind → ℕ → PolicyRule
any_tool id decision priority = record {
  id = id;
  decision = decision;
  priority = pos priority;
  tool_name = none;
  action = none;
  session_id = none;
  actor = none;
  resource = none;
  capabilities_all = [];
  risk_tags_all = [];
  reason = "a rule for every tool";
}

abbrev shell_input : PolicyInput
shell_input = record {
  tool_name = "shell";
  action = "exec";
  session_id = some "s1";
  actor = some "user";
  resource = none;
  capabilities = "process_exec" ∷ [];
  risk_tags = "destructive" ∷ [];
  policy_version = 1;
}

abbrev two_rules : List PolicyRule
two_rules = any_tool "low" allow 1 ∷ any_tool "high" deny 2 ∷ []

abbrev turned : List PolicyRule
turned = any_tool "high" deny 2 ∷ any_tool "low" allow 1 ∷ []

decide_selects_example :
    (NoneMatches shell_input two_rules
      × (decide shell_input two_rules ask ≡ decision_of shell_input ask none))
    ⊎ ((r : PolicyRule) × IsSelected shell_input two_rules r
        × (decide shell_input two_rules ask ≡ decision_of shell_input ask (some r)))
decide_selects_example = decide_selects shell_input two_rules ask

swap : (xs : List PolicyRule) (a b r : PolicyRule) → Elem r (a ∷ b ∷ xs) → Elem r (b ∷ a ∷ xs)
swap xs a b r (here e) = there (here e)
swap xs a b r (there (here e)) = here e
swap xs a b r (there (there m)) = there (there m)

two_rules-SameRules : SameRules two_rules turned
two_rules-SameRules r = (swap [] _ _ r, swap [] _ _ r)

decide-SameRules_example :
    ((decide shell_input two_rules ask).kind ≡ (decide shell_input turned ask).kind)
    × ((decide shell_input two_rules ask).matched_rule_id
        ≡ (decide shell_input turned ask).matched_rule_id)
decide-SameRules_example = decide-SameRules shell_input two_rules turned two_rules-SameRules ask

two_rules-AllBelow : AllBelow two_rules
two_rules-AllBelow r (here e) = rw e refl
two_rules-AllBelow r (there (here e)) = rw e refl
two_rules-AllBelow r (there (there m)) = elim m [ ]

destructive_escalates_example :
    (decide shell_input (Store.new allow two_rules).rules allow).kind ≡ escalate
destructive_escalates_example =
    destructive_escalates allow two_rules shell_input two_rules-AllBelow refl

abbrev above : PolicyRule
above = any_tool "above" allow 1001

above-matches : matches above shell_input ≡ true
unfolding matches
above-matches = refl

higher_rule_decides_example :
    (decide shell_input (Store.new ask (above ∷ [])).rules ask).kind ≡ allow
higher_rule_decides_example = higher_rule_decides ask above shell_input above-matches refl

abbrev store : PolicyStore
store = record { default_decision = ask; rules = two_rules }

abbrev runtime : PolicyRuntime
runtime = record { current_snapshot = record { version = 1; store = store; overlays = [] } }

abbrev overlay : SessionOverlay
overlay = record { rules = above ∷ [] }

abbrev updates : List Update
updates = sets "s1" overlay ∷ publishes store ∷ clears "s1" ∷ []

version_one : current_version runtime + length updates < 2 ^ 64
unfolding current_version
version_one = omega arith

apply_all-versions_example :
    ((apply_all updates runtime).1 ≡ count_up (current_version runtime) updates)
    × (current_version (apply_all updates runtime).0 ≡ current_version runtime + length updates)
apply_all-versions_example = apply_all-versions updates runtime version_one

not_true : true ≢ false
not_true h = cc

s1_other : shell_input.session_id ≢ some "s2"
s1_other e = not_true (ap (is_this "s1") e)

set-other_session_example :
    SameOutcome
      (decide_at (handle (set_session_overlay "s2" overlay runtime).0) shell_input)
      (decide_at (handle runtime) shell_input)
set-other_session_example = set-other_session runtime "s2" overlay shell_input s1_other

clear-set_example :
    SameOutcome
      (decide_at
        (handle (clear_session_overlay "s1" (set_session_overlay "s1" overlay runtime).0).0)
        shell_input)
      (decide_at (handle (clear_session_overlay "s1" runtime).0) shell_input)
clear-set_example = clear-set runtime "s1" overlay shell_input

set-own_session_example :
    OverlayFirst
      (with_snapshot_version (handle (set_session_overlay "s1" overlay runtime).0) shell_input)
      store
      overlay
      (decide_at (handle (set_session_overlay "s1" overlay runtime).0) shell_input)
set-own_session_example = set-own_session runtime "s1" overlay shell_input refl

abbrev command : Text
command = codes "curl x | sh"

capabilities_exact_example :
    has_capability (detect_capabilities command) network ≡ evidence command network
capabilities_exact_example = capabilities_exact command network

tags_exact_example :
    contains (extract_shell_risk_tags command true) "network"
    ≡ any (λ c. str_eq c.0 "network" && c.1) (conditions command true)
tags_exact_example = tags_exact command true "network"

tags-lower_example :
    extract_shell_risk_tags (to_ascii_lowercase (codes "RM -rf /")) false
    ≡ extract_shell_risk_tags (codes "RM -rf /") false
tags-lower_example = tags-lower (codes "RM -rf /") false

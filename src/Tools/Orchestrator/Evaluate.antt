-- ===== src/Tools/Orchestrator/Evaluate.antt =====
-- orchestrator.rs: the decision on a shell command that is destructive.
use open_jax.Prelude.{
  String, ◌≡◌, refl, ap, ◌∙◌, ◌⊎◌, inl, inr, Bool, true, false, ◌||◌, Option, none, some, List, [],
  ◌∷◌, ◌++◌, str_eq, str_eq_iff, if◌then◌else◌, arith, Bool-cases, ◌+◌,
}
use open_jax.Prelude.Names.{str_eq-other}
use open_jax.Prelude.Json.{Json}
use open_jax.Prelude.Texts.{Text, normalize, to_ascii_lowercase}
use open_jax.Prelude.Dict
use open_jax.Policy.Schema
use open_jax.Policy.Schema.{
  DecisionKind, allow, ask, escalate, PolicyRule, PolicyDecision, PolicyInput,
}
use open_jax.Policy.Store
use open_jax.Policy.Store.Builtin.{AllBelow, destructive_escalates}
use open_jax.Policy.Runtime
use open_jax.Policy.Runtime.{PolicyRuntime, handle, decide_at, overlay_of}
use open_jax.Sandbox.Risk.{extract_shell_risk_tags, contains_any, destructive_patterns}
use open_jax.Sandbox.Risk.Tags.{tags_exact}
use open_jax.Tools.Invocation.{
  ToolInvocation, PolicyDescriptor, is_shell_like_tool, policy_descriptor, descriptor_for,
  extract_shell_command, to_policy_center_input, session_or_turn, or_unknown,
}
use open_jax.Tools.Orchestrator.{
  World, ToolOrchestrator, push_missing, tagged_descriptor, fallback_decision, has_risk,
  evaluate_policy_center_decision, decide_in, decide_with, run,
}
use open_jax.Tools.Orchestrator.Run.{
  count, is_dispatched, run-dispatched, permits, said_yes, covered,
}

contains-snoc :
    (xs : List String) (t u : String)
    → Schema.contains (xs ++ t ∷ []) u ≡ (Schema.contains xs u || str_eq t u)
contains-snoc [] t u = ground arith
contains-snoc (x ∷ xs) t u = ground (arith, contains-snoc xs t u)

contains-subst :
    (xs : List String) {t u : String} → t ≡ u → Schema.contains xs t ≡ Schema.contains xs u
contains-subst xs e = ap (Schema.contains xs) e

-- The tags are joined as sets.
contains-push_missing :
    (xs ys : List String) (u : String)
    → Schema.contains (push_missing xs ys) u ≡ (Schema.contains xs u || Schema.contains ys u)
unfolding push_missing
contains-push_missing xs [] u = ground arith
contains-push_missing xs (y ∷ ys) u = elim (Bool-cases (Schema.contains xs y)) [
  | inl old ↦ rw old (
      rw (contains-push_missing xs ys u) (elim (Bool-cases (str_eq y u)) [
        | inl same ↦ rw (← contains-subst xs ((str_eq_iff y u).0 same), old) refl
        | inr other ↦ rw other refl
      ]))
  | inr new ↦
      rw new (rw (contains-push_missing (xs ++ y ∷ []) ys u, contains-snoc xs y u) (ground arith))
]

abbrev exec_descriptor : PolicyDescriptor
exec_descriptor = record { action = "exec"; capabilities = "process_exec" ∷ []; risk_tags = [] }

shell_name :
    (name : String) → is_shell_like_tool name ≡ true → (name ≡ "shell") ⊎ (name ≡ "exec_command")
unfolding is_shell_like_tool
shell_name name h = ground (arith, str_eq_iff name "shell", str_eq_iff name "exec_command")

shell_descriptor :
    (invocation : ToolInvocation)
    → is_shell_like_tool invocation.tool_name ≡ true
    → policy_descriptor invocation ≡ some exec_descriptor
unfolding policy_descriptor
shell_descriptor invocation h = elim (shell_name invocation.tool_name h) [
  | inl e ↦ ap descriptor_for e
  | inr e ↦ ap descriptor_for e
]

-- The command line of the call, in its normal form and in lower case, has a destructive pattern.
abbrev pub IsDestructive : (Text → Option Json) → ToolInvocation → Type 0
IsDestructive from_str invocation =
    (command : Text) × (require_escalated : Bool) × (extract_shell_command from_str
        invocation.payload
      ≡ some (command, require_escalated))
    × (contains_any destructive_patterns (to_ascii_lowercase (normalize command)) ≡ true)

tagged_destructive :
    (from_str : Text → Option Json) (invocation : ToolInvocation)
    → is_shell_like_tool invocation.tool_name ≡ true
    → IsDestructive from_str invocation
    → Schema.contains (or_unknown (tagged_descriptor from_str invocation)).risk_tags "destructive"
      ≡ true
unfolding tagged_descriptor contains_any
tagged_destructive from_str invocation shell (command, escalated, found, bad) =
    rw (shell, shell_descriptor invocation shell, found)
      (contains-push_missing [] (extract_shell_risk_tags (normalize command) escalated)
          "destructive"
        ∙ tags_exact (normalize command) escalated "destructive"
        ∙ ground (arith, bad))

-- The runtime's global rules are those of `PolicyStore::new` over rules below priority 1000, and it has
-- no overlay for the session of the call.
pub record IsGuarded (runtime : PolicyRuntime) (invocation : ToolInvocation) : Type 0 where
  pub default : DecisionKind
  pub rules : List PolicyRule
  pub below : AllBelow rules
  pub stored : runtime.current_snapshot.store ≡ Store.new default rules
  pub no_overlay : overlay_of runtime.current_snapshot (session_or_turn invocation.turn) ≡ none

guarded_escalates :
    (runtime : PolicyRuntime) (invocation : ToolInvocation) (descriptor : Option PolicyDescriptor)
    → IsGuarded runtime invocation
    → Schema.contains (or_unknown descriptor).risk_tags "destructive" ≡ true
    → (decide_in runtime invocation descriptor).kind ≡ escalate
unfolding decide_at handle to_policy_center_input Store.new
guarded_escalates runtime invocation descriptor g tagged =
    rw (g.no_overlay, g.stored) (destructive_escalates g.default g.rules _ g.below tagged)

-- Either the call has no policy runtime, or it has a guarded one.
abbrev pub IsGoverned : ToolInvocation → Type 0
IsGoverned invocation =
    (invocation.turn.policy_runtime ≡ none)
    ⊎ ((runtime : PolicyRuntime) × (invocation.turn.policy_runtime ≡ some runtime)
        × IsGuarded runtime invocation)

no_overlay_in :
    (session : Option String)
    → overlay_of (Runtime.new (Store.new ask [])).current_snapshot session ≡ none
unfolding Runtime.new Dict.get
no_overlay_in none = refl
no_overlay_in (some session) = refl

bare-IsGuarded :
    (invocation : ToolInvocation) → IsGuarded (Runtime.new (Store.new ask [])) invocation
unfolding Runtime.new
bare-IsGuarded invocation = record {
  default = ask;
  rules = [];
  below = λ r m. elim m [ ];
  stored = refl;
  no_overlay = no_overlay_in (session_or_turn invocation.turn);
}

risky :
    (d : Option PolicyDescriptor)
    → Schema.contains (or_unknown d).risk_tags "destructive" ≡ true
    → has_risk d ≡ true
risky none h = refl
risky (some d) h = ground arith

governed_escalates :
    (invocation : ToolInvocation) (descriptor : Option PolicyDescriptor) (o : Option PolicyRuntime)
    → (o ≡ none) ⊎ ((runtime : PolicyRuntime) × (o ≡ some runtime) × IsGuarded runtime invocation)
    → Schema.contains (or_unknown descriptor).risk_tags "destructive" ≡ true
    → (decide_with invocation descriptor o).kind ≡ escalate
unfolding fallback_decision
governed_escalates invocation descriptor o (inl e) tagged =
    rw (e, risky descriptor tagged)
      (guarded_escalates _ invocation descriptor (bare-IsGuarded invocation) tagged)
governed_escalates invocation descriptor o (inr (runtime, e, g)) tagged =
    rw e (guarded_escalates runtime invocation descriptor g tagged)

shell_uncovered :
    (invocation : ToolInvocation) (s : ToolOrchestrator)
    → is_shell_like_tool invocation.tool_name ≡ true
    → covered invocation s ≡ false
unfolding is_shell_like_tool
shell_uncovered invocation s h = ground (
  arith,
  str_eq-other invocation.tool_name "Edit" "shell" refl,
  str_eq-other invocation.tool_name "Edit" "exec_command" refl,
)

module _ (from_str : Text → Option Json) (invocation : ToolInvocation)
    (shell : is_shell_like_tool invocation.tool_name ≡ true)
    (destructive : IsDestructive from_str invocation) (governed : IsGoverned invocation) where
  -- With no policy runtime, or with one whose global rules are the built-in rule and rules below
  -- priority 1000 and that has no overlay for the session of the call, a shell command with a
  -- destructive pattern is escalated.
  pub destructive-escalate : (evaluate_policy_center_decision from_str invocation).kind ≡ escalate
  unfolding evaluate_policy_center_decision fallback_decision
  destructive-escalate =
      governed_escalates invocation _ invocation.turn.policy_runtime governed
        (tagged_destructive from_str invocation shell destructive)

-- With no policy runtime, or with one whose global rules are the built-in rule and rules below priority
-- 1000 and that has no overlay for the session of the call, a shell command with a destructive pattern
-- runs only if the user approves this very call: the tool runs once if the user says yes, and not at
-- all if the user says no, the handler fails or the time runs out.
pub destructive-dispatched :
    (w : World) (invocation : ToolInvocation) (s : ToolOrchestrator)
    → is_shell_like_tool invocation.tool_name ≡ true
    → IsDestructive w.from_str invocation
    → IsGoverned invocation
    → count is_dispatched (run w invocation s).1.trace
      ≡ count is_dispatched s.trace + (if said_yes w.answer then 1 else 0)
destructive-dispatched w invocation s shell destructive governed =
    run-dispatched w invocation s
    ∙ rw
        (
          destructive-escalate w.from_str invocation shell destructive governed,
          shell_uncovered invocation s shell,
          permits,
        )
        refl

-- ===== src/Tools/Invocation.antt =====
-- openjax-core/src/tools/context.rs, and `extract_shell_command` of sandbox/policy.rs: a tool call and
-- what the policy centre is told about it.
use Prim.Native.String.{◌++◌}
use open_jax.Prelude.{
  ℕ, String, Bool, true, false, ◌||◌, Option, none, some, List, [], ◌∷◌, str_eq, if◌then◌else◌,
}
use open_jax.Prelude.Decimal.{to_string}
use open_jax.Prelude.Int.{pos}
use open_jax.Prelude.Json
use open_jax.Prelude.Json.{Json}
use open_jax.Prelude.Texts.{Text, codes, to_ascii_lowercase, text_eq}
use open_jax.Policy.Schema.{PolicyInput, PolicyRule, allow}
use open_jax.Policy.Runtime.{PolicyRuntime}

pub data ToolPayload : Type 0 where
  function : Text → ToolPayload
  custom : Text → ToolPayload
  local_shell : Text → List Text → ToolPayload
  mcp : String → String → Text → ToolPayload

pub data SandboxPolicy : Type 0 where
  none_policy read_only write danger_full_access : SandboxPolicy

-- The fields of the context that the modelled code reads; `has_sink` is whether there is an event sink.
pub record ToolTurnContext : Type 0 where
  pub turn_id : ℕ
  pub session_id : Option String
  pub cwd : String
  pub sandbox_policy : SandboxPolicy
  pub has_sink : Bool
  pub policy_runtime : Option PolicyRuntime

pub record ToolInvocation : Type 0 where
  pub tool_name : String
  pub call_id : String
  pub payload : ToolPayload
  pub turn : ToolTurnContext

pub record PolicyDescriptor : Type 0 where
  pub action : String
  pub capabilities : List String
  pub risk_tags : List String

unfoldable pub allow_rule_for_tool : PolicyDescriptor → String → PolicyRule
allow_rule_for_tool descriptor tool_name = record {
  id = "descriptor:" ++ tool_name ++ ":" ++ descriptor.action;
  decision = allow;
  priority = pos 100;
  tool_name = some tool_name;
  action = some descriptor.action;
  session_id = none;
  actor = none;
  resource = none;
  capabilities_all = descriptor.capabilities;
  risk_tags_all = descriptor.risk_tags;
  reason = "tool `" ++ tool_name ++ "` is declared in policy descriptor";
}

-- `matches!(tool_name, "shell" | "exec_command")` of orchestrator.rs
unfoldable pub is_shell_like_tool : String → Bool
is_shell_like_tool tool_name = str_eq tool_name "shell" || str_eq tool_name "exec_command"

abbrev pub descriptor_for : String → Option PolicyDescriptor
descriptor_for name =
    if str_eq name "Read" || str_eq name "list_dir" || str_eq name "grep_files"
    then some (record { action = "read"; capabilities = "fs_read" ∷ []; risk_tags = [] })
    else if str_eq name "Edit"
    then some
        (record { action = "write"; capabilities = "fs_write" ∷ []; risk_tags = "mutating" ∷ [] })
    else if str_eq name "process_snapshot" || str_eq name "system_load" || str_eq name "disk_usage"
    then some (record { action = "observe"; capabilities = "process_exec" ∷ []; risk_tags = [] })
    else if str_eq name "shell" || str_eq name "exec_command"
    then some (record { action = "exec"; capabilities = "process_exec" ∷ []; risk_tags = [] })
    else none

unfoldable pub policy_descriptor : ToolInvocation → Option PolicyDescriptor
policy_descriptor invocation = descriptor_for invocation.tool_name

-- `session_id.or_else(|| Some(turn_id.to_string()))`
abbrev pub session_or_turn : ToolTurnContext → Option String
session_or_turn turn = elim turn.session_id [
  | none ↦ some (to_string turn.turn_id)
  | some session_id ↦ some session_id
]

abbrev pub or_unknown : Option PolicyDescriptor → PolicyDescriptor
or_unknown none = record {
  action = "invoke";
  capabilities = [];
  risk_tags = "unknown_tool_descriptor" ∷ [];
}
or_unknown (some descriptor) = descriptor

unfoldable pub to_policy_center_input : ToolInvocation → Option PolicyDescriptor → ℕ → PolicyInput
to_policy_center_input invocation descriptor policy_version = record {
  tool_name = invocation.tool_name;
  action = (or_unknown descriptor).action;
  session_id = session_or_turn invocation.turn;
  actor = some "user";
  resource = some invocation.turn.cwd;
  capabilities = (or_unknown descriptor).capabilities;
  risk_tags = (or_unknown descriptor).risk_tags;
  policy_version = policy_version;
}

abbrev pub parse_boolish_text : Text → Option Bool
parse_boolish_text s =
    if text_eq s (codes "true") || text_eq s (codes "1") || text_eq s (codes "yes")
    then some true
    else if text_eq s (codes "false") || text_eq s (codes "0") || text_eq s (codes "no")
    then some false
    else none

unfoldable pub parse_boolish : Json → Option Bool
parse_boolish value = elim (Json.as_bool value) [
  | some v ↦ some v
  | none ↦ elim (Json.as_str value) [
    | none ↦ none
    | some s ↦ parse_boolish_text (to_ascii_lowercase s)
  ]
]

abbrev pub boolish_field : Option Json → Bool
boolish_field none = false
boolish_field (some value) = elim (parse_boolish value) [ none ↦ false | some b ↦ b ]

abbrev pub command_of : Json → Option (Text × Bool)
command_of json = elim (Json.get "cmd" json) [
  | none ↦ none
  | some cmd ↦ elim (Json.as_str cmd) [
    | none ↦ none
    | some text ↦ some (text, boolish_field (Json.get "require_escalated" json))
  ]
]

-- `from_str` stands for `serde_json::from_str`.
unfoldable pub extract_shell_command : (Text → Option Json) → ToolPayload → Option (Text × Bool)
extract_shell_command from_str (function arguments) = elim (from_str arguments) [
  | none ↦ none
  | some json ↦ command_of json
]
extract_shell_command from_str _ = none

-- The message of an approval that timed out, of orchestrator.rs.
abbrev pub timeout_message : ℕ → String → String
timeout_message timeout_ms request_id =
    "approval request timed out after " ++ to_string timeout_ms ++ "ms (" ++ request_id ++ ")"

-- ===== src/Tools/Orchestrator.antt =====
-- openjax-core/src/tools/orchestrator.rs: the one path by which a tool call is decided, approved and
-- run. What the call writes to the outside (hooks, events, the tool itself) is a trace.
pub mod Evaluate
pub mod Run
pub mod Memory
use open_jax.Prelude.{
  ℕ, suc, String, Bool, true, false, ◌&&◌, ◌||◌, not, Option, none, some, List, [], ◌∷◌, ◌++◌, map,
  any, length, take, leb, ltb, ◌==◌, str_eq, is_some, if◌then◌else◌,
}
use mathlib.Core.Option
use open_jax.Prelude.Json.{Json}
use open_jax.Prelude.Texts.{Text, codes, normalize}
use open_jax.Policy.Schema
use open_jax.Policy.Schema.{DecisionKind, allow, ask, escalate, deny, PolicyDecision}
use open_jax.Policy.Store
use open_jax.Policy.Runtime
use open_jax.Policy.Runtime.{PolicyRuntime, handle, decide_at, current_version}
use open_jax.Sandbox.Risk.{extract_shell_risk_tags}
use open_jax.Tools.Invocation.{
  ToolInvocation, PolicyDescriptor, allow_rule_for_tool, is_shell_like_tool, policy_descriptor,
  to_policy_center_input, extract_shell_command, timeout_message,
}

-- `for tag in tags { if !risk_tags.contains(&tag) { risk_tags.push(tag) } }`
unfoldable pub push_missing : List String → List String → List String
push_missing risk_tags [] = risk_tags
push_missing risk_tags (tag ∷ tags) =
    push_missing (if Schema.contains risk_tags tag then risk_tags else risk_tags ++ tag ∷ []) tags

abbrev pub with_tags : Option PolicyDescriptor → List String → Option PolicyDescriptor
with_tags none tags = none
with_tags (some d) tags = some (record d { risk_tags = push_missing d.risk_tags tags })

abbrev pub shell_tags : Option (Text × Bool) → List String
shell_tags none = []
shell_tags (some (command, require_escalated)) =
    extract_shell_risk_tags (normalize command) require_escalated

-- The descriptor with the risk tags of the command, for a shell tool.
unfoldable pub tagged_descriptor : (Text → Option Json) → ToolInvocation → Option PolicyDescriptor
tagged_descriptor from_str invocation =
    if is_shell_like_tool invocation.tool_name
    then with_tags (policy_descriptor invocation)
        (shell_tags (extract_shell_command from_str invocation.payload))
    else policy_descriptor invocation

abbrev pub has_risk : Option PolicyDescriptor → Bool
has_risk none = true
has_risk (some d) = not (elim d.risk_tags [ [] ↦ true | t ∷ ts ↦ false ])

abbrev pub rules_for : Option PolicyDescriptor → String → List Schema.PolicyRule
rules_for none tool_name = []
rules_for (some d) tool_name = allow_rule_for_tool d tool_name ∷ []

-- A decision on the current snapshot of a runtime.
abbrev pub decide_in : PolicyRuntime → ToolInvocation → Option PolicyDescriptor → PolicyDecision
decide_in runtime invocation descriptor =
    decide_at (handle runtime)
      (to_policy_center_input invocation descriptor (current_version runtime))

-- With no policy runtime: `Ask` by default, and a rule that allows a described tool without risk.
unfoldable pub fallback_decision : ToolInvocation → Option PolicyDescriptor → PolicyDecision
fallback_decision invocation descriptor =
    if has_risk descriptor
    then decide_in (Runtime.new (Store.new ask [])) invocation descriptor
    else decide_in (Runtime.new (Store.new ask (rules_for descriptor invocation.tool_name)))
        invocation descriptor

abbrev pub decide_with :
    ToolInvocation → Option PolicyDescriptor → Option PolicyRuntime → PolicyDecision
decide_with invocation descriptor none = fallback_decision invocation descriptor
decide_with invocation descriptor (some runtime) = decide_in runtime invocation descriptor

unfoldable pub evaluate_policy_center_decision :
    (Text → Option Json) → ToolInvocation → PolicyDecision
evaluate_policy_center_decision from_str invocation =
    decide_with invocation (tagged_descriptor from_str invocation) invocation.turn.policy_runtime

-- The fields of the context that the orchestrator fills in; the others are always absent here.
pub record ApprovalContext : Type 0 where
  pub raw_command : Text
  pub normalized_command : Text
  pub command_preview : Text
  pub risk_tags : List String
  pub reason : String

unfoldable pub truncate_preview : Text → ℕ → Text
truncate_preview text limit =
    if leb (length text) limit then text else take limit text ++ codes "..."

abbrev pub context_of : PolicyDecision → Option (Text × Bool) → Option ApprovalContext
context_of decision none = none
context_of decision (some (cmd, require_escalated)) = some (record {
  raw_command = cmd;
  normalized_command = normalize cmd;
  command_preview = truncate_preview (normalize cmd) 160;
  risk_tags = extract_shell_risk_tags (normalize cmd) require_escalated;
  reason = decision.reason;
})

unfoldable pub approval_context :
    (Text → Option Json) → ToolInvocation → PolicyDecision → Option ApprovalContext
approval_context from_str invocation decision =
    if is_shell_like_tool invocation.tool_name
    then context_of decision (extract_shell_command from_str invocation.payload)
    else none

unfoldable pub approval_target : ToolInvocation → Option ApprovalContext → Text
approval_target invocation none = codes invocation.tool_name
approval_target invocation (some context) = context.raw_command

unfoldable pub approval_reason : PolicyDecision → Option ApprovalContext → String
approval_reason decision none = decision.reason
approval_reason decision (some context) = context.reason

-- `SandboxManager::is_mutating_operation` of sandboxing.rs
unfoldable pub is_mutating_operation : String → Bool
is_mutating_operation tool_name =
    str_eq tool_name "shell" || str_eq tool_name "exec_command" || str_eq tool_name "Edit"

pub data ApprovalKind : Type 0 where
  normal escalation : ApprovalKind

abbrev pub approval_kind : DecisionKind → Option ApprovalKind
approval_kind ask = some normal
approval_kind escalate = some escalation
approval_kind allow = none
approval_kind deny = none

pub data FunctionCallOutputBody : Type 0 where
  text : Text → FunctionCallOutputBody
  json : Json → FunctionCallOutputBody

pub record McpToolResult : Type 0 where
  pub content : Option Json
  pub is_error : Option Bool

pub data ToolOutput : Type 0 where
  function_output : FunctionCallOutputBody → Option Bool → ToolOutput
  mcp_output : McpToolResult → ToolOutput
  mcp_failure : Text → ToolOutput

pub data FunctionCallError : Type 0 where
  respond_to_model tool_not_found invalid_payload approval_rejected approval_timed_out internal :
      String → FunctionCallError

pub data Outcome : Type 0 where
  ok : ToolOutput → Outcome
  err : FunctionCallError → Outcome

pub record ApprovalRequested : Type 0 where
  pub turn_id : ℕ
  pub request_id : String
  pub target : Text
  pub reason : String
  pub policy_version : ℕ
  pub matched_rule_id : Option String
  pub tool_name : String
  pub command_preview : Option Text
  pub risk_tags : List String
  pub approval_kind : Option ApprovalKind

-- What the orchestrator does to the outside.
pub data Effect : Type 0 where
  before_tool_use : String → String → Effect
  approval_requested : ApprovalRequested → Effect
  approval_resolved : ℕ → String → Bool → Effect
  dispatched : String → Effect
  after_tool_use : String → Bool → Effect

-- What the approval handler answers within the time limit, if anything.
pub data Answer : Type 0 where
  answered : Bool → Answer
  failed : String → Answer
  timed_out : Answer

-- The JSON parser, the handler's answer to a request, the tool's result, the fresh request id and the
-- time limit.
pub record World : Type 0 where
  pub from_str : Text → Option Json
  pub request_id : String
  pub timeout_ms : ℕ
  pub answer : Answer
  pub dispatch : ToolInvocation → Outcome

pub record ToolOrchestrator : Type 0 where
  pub approved_mutating_turns : List ℕ
  pub trace : List Effect

abbrev pub emit : ToolOrchestrator → Effect → ToolOrchestrator
emit s e = record s { trace = s.trace ++ e ∷ [] }

-- `if let Some(sink) = &invocation.turn.event_sink { let _ = sink.send(event); }`
abbrev pub send : ToolOrchestrator → ToolInvocation → Effect → ToolOrchestrator
send s invocation e = if invocation.turn.has_sink then emit s e else s

abbrev pub has_turn : List ℕ → ℕ → Bool
has_turn turns t = any (λ u. u == t) turns

unfoldable pub should_reuse_mutating_approval : ToolOrchestrator → ToolInvocation → Bool → Bool
should_reuse_mutating_approval s invocation is_mutating =
    if not is_mutating || is_shell_like_tool invocation.tool_name
    then false
    else has_turn s.approved_mutating_turns invocation.turn.turn_id

-- `HashSet::insert`, and the reset of a set that has outgrown 256 turns.
unfoldable pub remember_turn : ℕ → List ℕ → List ℕ
remember_turn t turns =
    let grown = if has_turn turns t then turns else t ∷ turns in
    if ltb 256 (length grown) then [] else grown

unfoldable pub record_mutating_approval :
    ToolOrchestrator → ToolInvocation → Bool → ToolOrchestrator
record_mutating_approval s invocation is_mutating =
    if not is_mutating || is_shell_like_tool invocation.tool_name then s else record s {
      approved_mutating_turns = remember_turn invocation.turn.turn_id s.approved_mutating_turns;
    }

unfoldable pub needs_approval : DecisionKind → Bool
needs_approval ask = true
needs_approval escalate = true
needs_approval allow = false
needs_approval deny = false

abbrev pub is_success : Outcome → Bool
is_success (ok (function_output body (some true))) = true
is_success (ok (function_output body (some false))) = false
is_success (ok (function_output body none)) = true
is_success (ok (mcp_output result)) = true
is_success (ok (mcp_failure message)) = false
is_success (err e) = false

-- Steps 3 to 5: run the tool, then the hook.
unfoldable pub execute : World → ToolInvocation → ToolOrchestrator → Outcome × ToolOrchestrator
execute w invocation s =
    let result = w.dispatch invocation in
    (
      result,
      emit (emit s (dispatched invocation.call_id))
          (after_tool_use invocation.call_id (is_success result)),
    )

unfoldable pub request_event :
    World → ToolInvocation → PolicyDecision → Option ApprovalContext → ApprovalRequested
request_event w invocation decision context = record {
  turn_id = invocation.turn.turn_id;
  request_id = w.request_id;
  target = approval_target invocation context;
  reason = approval_reason decision context;
  policy_version = decision.policy_version;
  matched_rule_id = decision.matched_rule_id;
  tool_name = invocation.tool_name;
  command_preview = Option.map (λ (c : ApprovalContext). c.command_preview) context;
  risk_tags = elim context [ none ↦ [] | some c ↦ c.risk_tags ];
  approval_kind = approval_kind decision.kind;
}

-- The handler's answer, then the tool or the error.
unfoldable pub after_answer :
    World → ToolInvocation → Bool → ToolOrchestrator → Answer → Outcome × ToolOrchestrator
unfolding execute record_mutating_approval
after_answer w invocation is_mutating s (answered true) =
    let resolved =
      send s invocation (approval_resolved invocation.turn.turn_id w.request_id true) in
    execute w invocation (record_mutating_approval resolved invocation is_mutating)
after_answer w invocation is_mutating s (answered false) = (
  err (approval_rejected "command rejected by user"),
  send s invocation (approval_resolved invocation.turn.turn_id w.request_id false),
)
after_answer w invocation is_mutating s (failed message) = (err (internal message), s)
after_answer w invocation is_mutating s timed_out = (
  err (approval_timed_out (timeout_message w.timeout_ms w.request_id)),
  send s invocation (approval_resolved invocation.turn.turn_id w.request_id false),
)

abbrev pub is_deny : DecisionKind → Bool
is_deny deny = true
is_deny ask = false
is_deny escalate = false
is_deny allow = false

-- The part of `run` after the decision.
unfoldable pub run_decided :
    World → ToolInvocation → PolicyDecision → ToolOrchestrator → Outcome × ToolOrchestrator
unfolding after_answer should_reuse_mutating_approval needs_approval request_event execute
run_decided w invocation decision s =
    let is_mutating = is_mutating_operation invocation.tool_name in
    let context = approval_context w.from_str invocation decision in
    let reuse = should_reuse_mutating_approval s invocation is_mutating in
    let asking =
      send s invocation (approval_requested (request_event w invocation decision context)) in
    if is_deny decision.kind
    then (err (internal decision.reason), s)
    else if needs_approval decision.kind && not reuse
    then after_answer w invocation is_mutating asking w.answer
    else execute w invocation s

-- `ToolOrchestrator::run`
unfoldable pub run : World → ToolInvocation → ToolOrchestrator → Outcome × ToolOrchestrator
unfolding run_decided
run w invocation s =
    let started = emit s (before_tool_use invocation.tool_name invocation.call_id) in
    run_decided w invocation (evaluate_policy_center_decision w.from_str invocation) started

-- ===== src/Tools/Orchestrator/Run.antt =====
-- orchestrator.rs: when `run` runs the tool, what it asks for, and what it remembers.
use open_jax.Prelude.{
  ℕ, ◌+◌, ◌≡◌, refl, inl, inr, String, Bool, true, false, ◌&&◌, ◌||◌, not, List, [], ◌∷◌, ◌++◌,
  str_eq, str_eq_refl, ◌==◌, if◌then◌else◌, arith, Bool-cases,
}
use open_jax.Prelude.Names.{str_eq-other}
use open_jax.Policy.Schema.{DecisionKind, allow, ask, escalate, deny, PolicyDecision}
use open_jax.Tools.Invocation.{ToolInvocation, is_shell_like_tool}
use open_jax.Tools.Orchestrator.{
  World, ToolOrchestrator, Effect, before_tool_use, approval_requested, approval_resolved,
  dispatched, after_tool_use, Answer, answered, failed, timed_out, has_turn, is_mutating_operation,
  should_reuse_mutating_approval, record_mutating_approval, needs_approval, after_answer,
  run_decided, run, evaluate_policy_center_decision, send, is_success, is_deny, execute,
  approval_context, request_event,
}

abbrev pub is_dispatched : Effect → Bool
is_dispatched (dispatched c) = true
is_dispatched (before_tool_use n c) = false
is_dispatched (approval_requested r) = false
is_dispatched (approval_resolved t r b) = false
is_dispatched (after_tool_use c b) = false

abbrev pub is_requested : Effect → Bool
is_requested (dispatched c) = false
is_requested (before_tool_use n c) = false
is_requested (approval_requested r) = true
is_requested (approval_resolved t r b) = false
is_requested (after_tool_use c b) = false

abbrev pub is_resolved : Effect → Bool
is_resolved (dispatched c) = false
is_resolved (before_tool_use n c) = false
is_resolved (approval_requested r) = false
is_resolved (approval_resolved t r b) = true
is_resolved (after_tool_use c b) = false

-- The request for an approval of the turn with this id.
abbrev pub asks_about : ℕ → String → Effect → Bool
asks_about turn id (dispatched c) = false
asks_about turn id (before_tool_use n c) = false
asks_about turn id (approval_requested r) = (r.turn_id == turn) && str_eq r.request_id id
asks_about turn id (approval_resolved t r b) = false
asks_about turn id (after_tool_use c b) = false

abbrev pub same : Bool → Bool → Bool
same true b = b
same false b = not b

same_refl : (b : Bool) → same b b ≡ true
same_refl true = refl
same_refl false = refl

-- The resolution of the turn's request with this id, and this answer.
abbrev pub settles_as : ℕ → String → Bool → Effect → Bool
settles_as turn id consent (dispatched c) = false
settles_as turn id consent (before_tool_use n c) = false
settles_as turn id consent (approval_requested r) = false
settles_as turn id consent (approval_resolved t r b) = (t == turn) && str_eq r id && same b consent
settles_as turn id consent (after_tool_use c b) = false

-- How many effects of a kind a trace has.
unfoldable pub count : (Effect → Bool) → List Effect → ℕ
count p [] = 0
count p (e ∷ es) = (if p e then 1 else 0) + count p es

count-snoc :
    (p : Effect → Bool) (es : List Effect) (e : Effect)
    → count p (es ++ e ∷ []) ≡ count p es + (if p e then 1 else 0)
unfolding count
count-snoc p [] e = omega arith
count-snoc p (x ∷ es) e = omega (arith, count-snoc p es e)

abbrev pub said_yes : Answer → Bool
said_yes (answered b) = b
said_yes (failed m) = false
said_yes timed_out = false

-- The turn has an approval that covers this call: only edits share the approval of a turn.
abbrev pub covered : ToolInvocation → ToolOrchestrator → Bool
covered invocation s =
    str_eq invocation.tool_name "Edit" && has_turn s.approved_mutating_turns invocation.turn.turn_id

pub reuse_covered :
    (invocation : ToolInvocation) (s : ToolOrchestrator)
    → should_reuse_mutating_approval s invocation (is_mutating_operation invocation.tool_name)
      ≡ covered invocation s
unfolding should_reuse_mutating_approval is_mutating_operation is_shell_like_tool
reuse_covered invocation s = ground (
  arith,
  str_eq-other invocation.tool_name "Edit" "shell" refl,
  str_eq-other invocation.tool_name "Edit" "exec_command" refl,
)

-- Whether the handler answered or the time ran out, so that the request is settled.
abbrev pub settles : Answer → Bool
settles (answered b) = true
settles (failed m) = false
settles timed_out = true

abbrev one : Bool → ℕ
one b = if b then 1 else 0

module _ (p : Effect → Bool) (w : World) (invocation : ToolInvocation) where
  -- What the run of the tool itself adds.
  abbrev tool_part : ℕ
  tool_part =
      one (p (dispatched invocation.call_id))
      + one (p (after_tool_use invocation.call_id (is_success (w.dispatch invocation))))

  abbrev answer_part : Answer → ℕ
  answer_part a =
      one (
        settles a
        && invocation.turn.has_sink
        && p (approval_resolved invocation.turn.turn_id w.request_id (said_yes a)))
      + (if said_yes a then tool_part else 0)

  count-execute :
      (s : ToolOrchestrator)
      → count p (execute w invocation s).1.trace ≡ count p s.trace + tool_part
  unfolding execute
  count-execute s = simp count-snoc (omega arith)

  count-send :
      (s : ToolOrchestrator) (e : Effect)
      → count p (send s invocation e).trace
        ≡ count p s.trace + one (invocation.turn.has_sink && p e)
  count-send s e = elim (Bool-cases invocation.turn.has_sink) [
    | inl y ↦ rw y (count-snoc p s.trace e)
    | inr n ↦ rw n (omega arith)
  ]

  trace-record :
      (s : ToolOrchestrator) (m : Bool) → (record_mutating_approval s invocation m).trace ≡ s.trace
  unfolding record_mutating_approval
  trace-record s m = ground arith

  count-after_answer :
      (m : Bool) (s : ToolOrchestrator) (a : Answer)
      → count p (after_answer w invocation m s a).1.trace ≡ count p s.trace + answer_part a
  unfolding after_answer
  count-after_answer m s (answered true) =
      simp (count-execute, trace-record, count-send) (omega arith)
  count-after_answer m s (answered false) = simp count-send (omega arith)
  count-after_answer m s (failed e) = omega arith
  count-after_answer m s timed_out = simp count-send (omega arith)

  event_of : PolicyDecision → Effect
  event_of decision =
      approval_requested
        (request_event w invocation decision (approval_context w.from_str invocation decision))

  -- What the decided call adds: nothing if it is denied, the request and what follows the answer if it
  -- asks, else the tool.
  abbrev decided_part : PolicyDecision → Bool → ℕ
  decided_part decision reuse =
      if is_deny decision.kind
      then 0
      else if needs_approval decision.kind && not reuse
      then one (invocation.turn.has_sink && p (event_of decision)) + answer_part w.answer
      else tool_part

  count-run_decided :
      (decision : PolicyDecision) (s : ToolOrchestrator)
      → count p (run_decided w invocation decision s).1.trace
        ≡ count p s.trace + decided_part decision (covered invocation s)
  unfolding run_decided event_of
  count-run_decided decision s =
      rw (reuse_covered invocation s) (elim (Bool-cases (is_deny decision.kind)) [
        | inl y ↦ rw y (omega arith)
        | inr n ↦
            rw n (elim (Bool-cases (needs_approval decision.kind && not (covered invocation s))) [
              | inl y ↦ rw y (simp (count-after_answer, count-send) (omega arith))
              | inr m ↦ rw m (count-execute s)
            ])
      ])

  count-run :
      (s : ToolOrchestrator)
      → count p (run w invocation s).1.trace
        ≡ count p s.trace
          + one (p (before_tool_use invocation.tool_name invocation.call_id))
          + decided_part
              (evaluate_policy_center_decision w.from_str invocation)
              (covered invocation s)
  unfolding run
  count-run s = simp (count-run_decided, count-snoc)

-- The decisions that ask the user.
abbrev pub asks_user : DecisionKind → Bool
asks_user allow = false
asks_user deny = false
asks_user ask = true
asks_user escalate = true

-- Whether the call asks the user.
abbrev pub asks : World → ToolInvocation → ToolOrchestrator → Bool
asks w invocation s =
    asks_user (evaluate_policy_center_decision w.from_str invocation).kind
    && not (covered invocation s)

-- Whether a tool may run, given the decision and whether there is consent.
abbrev pub permits : DecisionKind → Bool → Bool
permits allow consent = true
permits deny consent = false
permits ask consent = consent
permits escalate consent = consent

-- Whether the call may run the tool.
abbrev pub may_run : World → ToolInvocation → ToolOrchestrator → Bool
may_run w invocation s =
    permits (evaluate_policy_center_decision w.from_str invocation).kind
      (covered invocation s || said_yes w.answer)

module _ (w : World) (invocation : ToolInvocation) (s : ToolOrchestrator) where
  -- The tool runs once if the decision is `Allow`, or if it is `Ask` or `Escalate` and the user said
  -- yes or an earlier approval of the turn covers this edit; otherwise it does not run.
  pub run-dispatched :
      count is_dispatched (run w invocation s).1.trace
      ≡ count is_dispatched s.trace + one (may_run w invocation s)
  unfolding event_of needs_approval
  run-dispatched = simp count-run (ground arith)

  -- A request for approval, with the turn and the request id of this call, is sent exactly if the decision is `Ask`
  -- or `Escalate`, no earlier approval covers the call, and there is an event sink; no other request is sent.
  pub run-requested :
      (count (asks_about invocation.turn.turn_id w.request_id) (run w invocation s).1.trace
        ≡ count (asks_about invocation.turn.turn_id w.request_id) s.trace
          + one (asks w invocation s && invocation.turn.has_sink))
      × (count is_requested (run w invocation s).1.trace
          ≡ count is_requested s.trace + one (asks w invocation s && invocation.turn.has_sink))
  unfolding event_of needs_approval request_event
  run-requested =
      (simp count-run (ground (arith, str_eq_refl w.request_id)), simp count-run (ground arith))

  -- A request for approval that is sent is resolved in the same call, with its turn, its request id and the answer yes
  -- or no (no if the time ran out), unless the approval handler fails: then the call ends with the request unresolved.
  -- No other request is resolved.
  pub run-resolved :
      (count
          (settles_as invocation.turn.turn_id w.request_id (said_yes w.answer))
          (run w invocation s).1.trace
        ≡ count (settles_as invocation.turn.turn_id w.request_id (said_yes w.answer)) s.trace
          + one (asks w invocation s && invocation.turn.has_sink && settles w.answer))
      × (count is_resolved (run w invocation s).1.trace
          ≡ count is_resolved s.trace
            + one (asks w invocation s && invocation.turn.has_sink && settles w.answer))
  unfolding event_of needs_approval
  run-resolved = (
    simp count-run (ground (arith, str_eq_refl w.request_id, same_refl (said_yes w.answer))),
    simp count-run (ground arith),
  )

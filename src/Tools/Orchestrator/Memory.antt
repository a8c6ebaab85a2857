-- ===== src/Tools/Orchestrator/Memory.antt =====
-- orchestrator.rs: the memory of turns with an approved edit.
use open_jax.Prelude.{
  ℕ, ◌≤◌, ◌≡◌, refl, ap, ◌∙◌, inl, inr, true, false, ◌&&◌, not, List, [], ◌∷◌, any, ◌==◌, ltb,
  length, str_eq, if◌then◌else◌, arith, Bool-cases,
}
use open_jax.Prelude.Names.{str_eq-other}
use open_jax.Policy.Schema.{PolicyDecision, DecisionKind}
use open_jax.Tools.Invocation.{ToolInvocation, is_shell_like_tool}
use open_jax.Tools.Orchestrator.{
  World, ToolOrchestrator, Answer, answered, failed, timed_out, is_mutating_operation,
  remember_turn, record_mutating_approval, needs_approval, after_answer, run_decided, run,
  evaluate_policy_center_decision, is_deny, send, emit, Effect, approval_resolved, before_tool_use,
}
use open_jax.Tools.Orchestrator.Run.{reuse_covered, asks, asks_user, said_yes, covered}

-- The turns with one more: nothing new for one that is there, and none at all once there are 256 others.
abbrev pub remembered : ℕ → List ℕ → List ℕ
remembered t turns =
    if any (λ u. u == t) turns then turns else if ltb (length turns) 256 then t ∷ turns else []

-- The turns after a call.
abbrev pub turns_after : World → ToolInvocation → ToolOrchestrator → List ℕ
turns_after w invocation s =
    if asks w invocation s && said_yes w.answer && str_eq invocation.tool_name "Edit"
    then remembered invocation.turn.turn_id s.approved_mutating_turns
    else s.approved_mutating_turns

remember-remembered :
    (t : ℕ) (turns : List ℕ) → length turns ≤ 256 → remember_turn t turns ≡ remembered t turns
unfolding remember_turn
remember-remembered t turns h = ground arith

recorded :
    (s : ToolOrchestrator) (invocation : ToolInvocation)
    → (record_mutating_approval s invocation
        (is_mutating_operation invocation.tool_name)).approved_mutating_turns
      ≡ (if str_eq invocation.tool_name "Edit"
          then remember_turn invocation.turn.turn_id s.approved_mutating_turns
          else s.approved_mutating_turns)
unfolding record_mutating_approval is_mutating_operation is_shell_like_tool
recorded s invocation = ground (
  arith,
  str_eq-other invocation.tool_name "Edit" "shell" refl,
  str_eq-other invocation.tool_name "Edit" "exec_command" refl,
)

denied_quiet : (kind : DecisionKind) → is_deny kind ≡ true → needs_approval kind ≡ false
unfolding needs_approval
denied_quiet kind h = ground arith

module _ (w : World) (invocation : ToolInvocation) where
  turns-send :
      (s : ToolOrchestrator) (e : Effect)
      → (send s invocation e).approved_mutating_turns ≡ s.approved_mutating_turns
  turns-send s e = ground arith

  turns-after_answer :
      (s : ToolOrchestrator) (a : Answer)
      → (after_answer w invocation
          (is_mutating_operation invocation.tool_name)
          s
          a).1.approved_mutating_turns
        ≡ (if said_yes a && str_eq invocation.tool_name "Edit"
            then remember_turn invocation.turn.turn_id s.approved_mutating_turns
            else s.approved_mutating_turns)
  unfolding after_answer
  turns-after_answer s (answered true) =
      let event = approval_resolved invocation.turn.turn_id w.request_id true in
      recorded (send s invocation event) invocation
      ∙ ap
          (λ (t : List ℕ).
            if str_eq invocation.tool_name "Edit"
            then remember_turn invocation.turn.turn_id t
            else t)
          (turns-send s event)
  turns-after_answer s (answered false) = simp turns-send
  turns-after_answer s (failed m) = refl
  turns-after_answer s timed_out = simp turns-send

  turns-run_decided :
      (decision : PolicyDecision) (s : ToolOrchestrator)
      → (run_decided w invocation decision s).1.approved_mutating_turns ≡ (
          if needs_approval decision.kind
            && not (covered invocation s)
            && said_yes w.answer
            && str_eq invocation.tool_name "Edit"
          then remember_turn invocation.turn.turn_id s.approved_mutating_turns
          else s.approved_mutating_turns)
  unfolding run_decided
  turns-run_decided decision s =
      rw (reuse_covered invocation s) (elim (Bool-cases (is_deny decision.kind)) [
        | inl y ↦ rw (y, denied_quiet decision.kind y) refl
        | inr n ↦
            rw n (elim (Bool-cases (needs_approval decision.kind && not (covered invocation s))) [
              | inl y ↦ rw y (simp (turns-after_answer, turns-send))
              | inr m ↦ rw m refl
            ])
      ])

asks_needs : (kind : DecisionKind) → needs_approval kind ≡ asks_user kind
unfolding needs_approval
asks_needs kind = ground arith

-- A call of an orchestrator that remembers at most 256 turns changes them only if it is an edit for which the user
-- was asked and said yes. Then its turn is added, unless it is there; but if there are 256 others, the memory is
-- emptied and the turn of the call is not remembered either.
pub run-turns :
    (w : World) (invocation : ToolInvocation) (s : ToolOrchestrator)
    → length s.approved_mutating_turns ≤ 256
    → (run w invocation s).1.approved_mutating_turns ≡ turns_after w invocation s
unfolding run
run-turns w invocation s h =
    turns-run_decided w invocation (evaluate_policy_center_decision w.from_str invocation)
      (emit s (before_tool_use invocation.tool_name invocation.call_id))
    ∙ rw
        (
          asks_needs (evaluate_policy_center_decision w.from_str invocation).kind,
          remember-remembered invocation.turn.turn_id s.approved_mutating_turns h,
        )
        (ground arith)

-- A memory of at most 256 turns has at most 256 after any call.
pub run-bounded :
    (w : World) (invocation : ToolInvocation) (s : ToolOrchestrator)
    → length s.approved_mutating_turns ≤ 256
    → length (run w invocation s).1.approved_mutating_turns ≤ 256
run-bounded w invocation s h = rw (run-turns w invocation s h) (ground arith)

-- ===== src/Tests/Calls.antt =====
-- Runs of the theorems on tool calls and on the detector of loops.
use open_jax.Prelude.{
  ℕ, List, ◌⊎◌, arith, ◌+◌, ◌≤◌, ◌<◌, ◌≡◌, refl, inl, true, false, ◌&&◌, ◌++◌, Option, none, some,
  [], ◌∷◌, length, replicate, leb, if◌then◌else◌,
}
use open_jax.Prelude.Json.{Json, string, object, no_fields, field}
use open_jax.Prelude.Texts.{Text, codes, contains, normalize, to_ascii_lowercase}
use open_jax.Sandbox.Risk.{contains_any}
use open_jax.Policy.Schema.{escalate}
use open_jax.Tools.Invocation.{
  ToolInvocation, ToolTurnContext, function, write, is_shell_like_tool, extract_shell_command,
}
use open_jax.Tools.Orchestrator.{
  World, ToolOrchestrator, answered, ok, mcp_output, run, evaluate_policy_center_decision,
}
use open_jax.Tools.Orchestrator.Run.{
  count, is_dispatched, is_requested, is_resolved, asks_about, settles_as, may_run, asks, settles,
  said_yes, run-dispatched, run-requested, run-resolved,
}
use open_jax.Tools.Orchestrator.Memory.{turns_after, run-turns, run-bounded}
use open_jax.Tools.Orchestrator.Evaluate.{
  IsDestructive, destructive-escalate, destructive-dispatched,
}
use open_jax.Agent.History.{HistoryItem, turn, try_compact, turn_count, with_summary}
use open_jax.Agent.History.Recent.{compact-outcome}
use open_jax.Agent.Loop
use open_jax.Agent.Loop.{Key, key_eq, check_and_advance}
use open_jax.Agent.Loop.Streaks.{is_signal, after_calls, check-streak}

abbrev here : ToolTurnContext
here = record {
  turn_id = 7;
  session_id = some "s1";
  cwd = "/work";
  sandbox_policy = write;
  has_sink = true;
  policy_runtime = none;
}

abbrev delete_all : ToolInvocation
delete_all = record {
  tool_name = "shell";
  call_id = "c1";
  payload = function (codes "{}");
  turn = here;
}

abbrev edit : ToolInvocation
edit = record { tool_name = "Edit"; call_id = "c2"; payload = function (codes "{}"); turn = here }

-- A parser that reads every text as one command.
abbrev parse : Text → Option Json
parse text = some (object (field "cmd" (string (codes "rm  -rf /")) no_fields))

abbrev world : World
world = record {
  from_str = parse;
  request_id = "r1";
  timeout_ms = 300000;
  answer = answered true;
  dispatch = λ call. ok (mcp_output record { content = none; is_error = none });
}

abbrev idle : ToolOrchestrator
idle = record { approved_mutating_turns = []; trace = [] }

run-dispatched_example :
    count is_dispatched (run world edit idle).1.trace
    ≡ count is_dispatched idle.trace + (if may_run world edit idle then 1 else 0)
run-dispatched_example = run-dispatched world edit idle

run-requested_example :
    (count (asks_about 7 "r1") (run world edit idle).1.trace
      ≡ count (asks_about 7 "r1") idle.trace + (if asks world edit idle && true then 1 else 0))
    × (count is_requested (run world edit idle).1.trace
        ≡ count is_requested idle.trace + (if asks world edit idle && true then 1 else 0))
run-requested_example = run-requested world edit idle

run-resolved_example :
    (count (settles_as 7 "r1" true) (run world edit idle).1.trace
      ≡ count (settles_as 7 "r1" true) idle.trace
        + (if asks world edit idle && true && settles (answered true) then 1 else 0))
    × (count is_resolved (run world edit idle).1.trace
        ≡ count is_resolved idle.trace
          + (if asks world edit idle && true && settles (answered true) then 1 else 0))
run-resolved_example = run-resolved world edit idle

run-turns_example : (run world edit idle).1.approved_mutating_turns ≡ turns_after world edit idle
run-turns_example = run-turns world edit idle (omega arith)

run-bounded_example : length (run world edit idle).1.approved_mutating_turns ≤ 256
run-bounded_example = run-bounded world edit idle (omega arith)

is_shell : is_shell_like_tool delete_all.tool_name ≡ true
unfolding is_shell_like_tool
is_shell = refl

is_destructive : IsDestructive parse delete_all
unfolding extract_shell_command normalize to_ascii_lowercase contains_any contains
is_destructive = (codes "rm  -rf /", false, refl, refl)

destructive-escalate_example : (evaluate_policy_center_decision parse delete_all).kind ≡ escalate
destructive-escalate_example =
    destructive-escalate parse delete_all is_shell is_destructive (inl refl)

destructive-dispatched_example :
    count is_dispatched (run world delete_all idle).1.trace
    ≡ count is_dispatched idle.trace + (if said_yes (answered true) then 1 else 0)
destructive-dispatched_example =
    destructive-dispatched world delete_all idle is_shell is_destructive (inl refl)

abbrev read_call : Key
read_call = ("Read", "hash")

check-streak_example :
    is_signal ((check_and_advance read_call (after_calls (replicate 4 read_call) Loop.new)).0)
    ≡ leb 5 (Loop.run (key_eq read_call) (replicate 4 read_call ++ read_call ∷ []))
check-streak_example = check-streak (replicate 4 read_call) read_call

abbrev said : HistoryItem
said = turn record { user_input = codes "go on"; tool_traces = []; assistant_output = codes "done" }

-- A model that always answers in one word.
abbrev brief : List HistoryItem → ℕ → Option Text
brief items count = some (codes "so")

compact-outcome_example :
    ((turn_count (replicate 6 said) ≤ 4) × (try_compact brief (replicate 6 said) ≡ none))
    ⊎ ((4 < turn_count (replicate 6 said))
        × (old : List HistoryItem) × (recent : List HistoryItem) × (old ++ recent
            ≡ replicate 6 said)
        × (turn_count recent ≡ 3)
        × (try_compact brief (replicate 6 said) ≡ with_summary recent (brief old (turn_count old))))
compact-outcome_example = compact-outcome brief (replicate 6 said)

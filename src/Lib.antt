-- ===== src/Lib.antt =====
-- OpenJax: a local agent with a policy centre, a tool orchestrator and a gateway.
--
-- The parts and how they interact. A model proposes a tool call. The orchestrator
-- (openjax-core/src/tools/orchestrator.rs) asks the policy centre (openjax-policy) for a decision on the call,
-- which for a shell command has risk tags read from its text (openjax-core/src/sandbox/policy.rs); it then runs
-- the tool, refuses it, or asks the user for approval. The agent's loop detector watches the calls of a turn.
-- The gateway (openjax-gateway) keeps the logins and tokens of the clients, limits the rate of logins, and numbers
-- and replays the events of a session; an event is appended to the session's transcript on disk, and then refreshes
-- the session's entry in the index, from which the session list is read.
--
-- Which file models what:
-- - Prelude and below: shared helpers. Lists and tests over native numbers, comparison (`Ordering::then_with`),
--   texts as lists of code points (`to_ascii_lowercase`, `split_whitespace`), maps and sets, `u64` arithmetic,
--   JSON values with the accessors that the program calls.
-- - Policy/Schema, Policy/Engine: openjax-policy/src/schema.rs and engine.rs (`matches`, `specificity`,
--   `compare_rule_precedence`, `decide`). `max_by` keeps the later of equal elements, as the iterator does.
-- - Policy/Store, Policy/Runtime: store.rs, overlay.rs and runtime.rs (`PolicyStore::new`, `publish`,
--   `set_session_overlay`, `clear_session_overlay`, `PolicyHandle::decide` as `decide_at`). Updates hold the write
--   lock, so they form a sequence; a handle is the snapshot it was made from. Versions wrap as in a release build.
-- - Sandbox/Risk: sandbox/policy.rs (`detect_capabilities`, `extract_shell_risk_tags`).
-- - Tools/Invocation: tools/context.rs and `extract_shell_command`, `parse_boolish` of sandbox/policy.rs.
-- - Tools/Orchestrator: tools/orchestrator.rs (`run` with its two early returns, the reuse of an approval, the
--   request, its three ends, the dispatch and the hooks). The effects on the outside are a trace; the JSON parser,
--   the answer of the approval handler, the tool's result and the fresh request id are fields of `World`.
-- - Auth/Store: openjax-gateway/src/auth/store.rs over three tables. A statement that breaks a primary or a unique
--   key is an error that leaves the tables as they were. Times are texts that come with a call and are compared as
--   texts, as the statements do; fresh ids and hashes come with the call.
-- - Gateway/RateLimit: auth/rate_limit.rs, with the time of a call as an argument.
-- - Gateway/Replay: openjax-core/src/streaming/replay.rs. Sequence numbers saturate.
-- - Gateway/Nodes, Gateway/Session: openjax-gateway/src/state/runtime.rs (`create_gateway_event`, `publish_event`,
--   `replay_from` as `replay`, `clear_context_with_config` as `clear_context`, `assign_stream_node_ids`).
-- - Gateway/Listing: `list_persisted_sessions` of state/events.rs; the index is an argument, and so is whether it
--   needs repair.
-- - Gateway/Index: transcript/session_index_types.rs and session_index_store.rs. A call takes the time and how each of
--   its steps ends (`Faults`), so every path of an error is an input; the write lock makes the calls a sequence. What
--   is on disk is a record: the snapshot, the lines of the log, the repair marker and the files of the directories. A
--   line may be written in part or without its newline, and a file may be one that cannot be parsed. Startup is the
--   start (`load_with_recovery_or_fail` with its audit), where files can be opened and written. The `time` crate's
--   parser and the length of a line are parameters; of the parser the theorems ask that its result, put in again,
--   stays as it is.
-- - Gateway/Transcript: transcript/types.rs and store.rs (`append` with the recovery from the tail and the two
--   rotations, `replay`). Segments are known by the numbers in their names and stand in their order; an append comes
--   with how each of its writes ends (`AppendFaults`), a manifest that is cut included; the length of a line is a
--   parameter. Sessions is the store of all of them (`gc`,
--   `delete_session`).
-- - Gateway/Titles: state/events.rs (`derive_session_title`, `derive_last_preview`, `AutoTitleDedupeCache`, and
--   `refresh_session_index_from_event`, where an event meets the index). The hash of a message is a parameter, and so
--   is the form in which the index keeps a title.
-- - Agent/Loop: openjax-core/src/agent/loop_detector.rs.
-- - Agent/History: agent/context_compressor.rs (`split_for_compression`, `try_compact`); the model's answer is a
--   function of the part to summarise and its number of turns.
-- - Tests: the theorems at concrete inputs.
--
-- Bounds. Decimal digits are computed on fuel 20, which is enough for every u64. A reader of the
-- session list is allowed one request more than there are sessions. All other recursion is on the structure of a list.
-- Segment numbers and event numbers are below 2 ^ 64 where a theorem needs it, and it says so.
--
-- Not modelled: log lines; the processes, network and files behind the tools; the model clients; the user
-- interfaces; the SQLite store; the staging directories of new sessions; the approval handler's table of pending
-- requests; the sandbox backends and the approval for running without one; the legacy dispatcher; the projection of
-- core events.
-- They are I/O or parts that these models do not depend on.
pub mod Prelude
pub mod Policy
pub mod Sandbox
pub mod Tools
pub mod Auth
pub mod Gateway
pub mod Agent
pub mod Tests

-- ===== src/Gateway/Session.antt =====
-- openjax-gateway/src/state/runtime.rs: the part of a session's runtime that numbers, keeps and replays its
-- events. The agent, the handler of approvals, the channel of subscribers and the abort handle are not modelled.
pub mod Segments
pub mod Replays
use open_jax.Prelude.{
  ℕ, ◌+◌, String, Bool, true, false, ◌||◌, Option, none, some, List, [], ◌∷◌, map, str_eq,
  if◌then◌else◌,
}
use open_jax.Prelude.Words.{wrap64}
use open_jax.Prelude.Dict.{Dict, get, insert, remove}
use open_jax.Prelude.Json.{Fields}
use open_jax.Gateway.Nodes.{
  TurnStreamNodeState, no_segments, assign_response_segment_id, assign_reasoning_segment_id,
  close_segments,
}
use open_jax.Gateway.Replay.{
  ReplayBuffer, Replayed, outside, items, ReplayWindowError, with_capacity, push, replay_from,
}

pub record StreamEventEnvelope : Type 0 where
  pub request_id : String
  pub session_id : String
  pub turn_id : Option String
  pub event_seq : ℕ
  pub turn_seq : ℕ
  pub timestamp : String
  pub event_type : String
  pub stream_source : String
  pub payload : Fields

pub record SessionRuntime : Type 0 where
  pub next_event_seq : ℕ
  pub turn_event_seq : Dict ℕ
  pub event_log : ReplayBuffer StreamEventEnvelope
  pub turn_stream_nodes : Dict TurnStreamNodeState
  pub replay_capacity : ℕ

-- `new_with_config`, with the limit from the environment
abbrev pub new_session : ℕ → SessionRuntime
new_session replay_capacity = record {
  next_event_seq = 1;
  turn_event_seq = [];
  event_log = with_capacity replay_capacity;
  turn_stream_nodes = [];
  replay_capacity = replay_capacity;
}

-- `clear_context` and `clear_context_with_config`: the number of the next event goes on.
unfoldable pub clear_context : SessionRuntime → SessionRuntime
clear_context s = record s {
  turn_event_seq = [];
  event_log = with_capacity s.replay_capacity;
  turn_stream_nodes = [];
}

-- `entry(..).or_default()`
abbrev pub or_default : Option TurnStreamNodeState → TurnStreamNodeState
or_default none = no_segments
or_default (some st) = st

unfoldable pub closes : String → Bool
closes event_type =
    str_eq event_type "response_completed"
    || str_eq event_type "response_error"
    || str_eq event_type "turn_completed"

unfoldable pub assign_ids : String → Fields → TurnStreamNodeState → Fields × TurnStreamNodeState
unfolding assign_response_segment_id assign_reasoning_segment_id
assign_ids event_type payload st =
    if str_eq event_type "response_started" || str_eq event_type "response_resumed"
    then assign_response_segment_id payload true st
    else if str_eq event_type "response_text_delta" || str_eq event_type "response_completed"
    then assign_response_segment_id payload false st
    else if str_eq event_type "reasoning_delta"
    then assign_reasoning_segment_id payload st
    else (payload, st)

abbrev pub close_after : String → TurnStreamNodeState → TurnStreamNodeState
close_after event_type st = if closes event_type then close_segments st else st

-- The table with the turn's node, which a completed turn drops.
abbrev pub keep_node :
    String → String → TurnStreamNodeState → Dict TurnStreamNodeState → Dict TurnStreamNodeState
keep_node turn event_type st nodes =
    if str_eq event_type "turn_completed"
    then remove turn (insert turn st nodes)
    else insert turn st nodes

unfoldable pub assign_stream_node_ids :
    Option String → String → Fields → SessionRuntime → Fields × SessionRuntime
unfolding assign_ids closes close_segments
assign_stream_node_ids none event_type payload s = (payload, s)
assign_stream_node_ids (some turn) event_type payload s =
    let assigned = assign_ids event_type payload (or_default (get turn s.turn_stream_nodes)) in
    (
      assigned.0,
      record s {
        turn_stream_nodes =
            keep_node turn event_type (close_after event_type assigned.1) s.turn_stream_nodes;
      },
    )

abbrev pub next_of : Option ℕ → ℕ
next_of none = 1
next_of (some seq) = wrap64 (seq + 1)

-- The number of the event in its turn, and the table with it.
unfoldable pub turn_seq_of : Option String → Dict ℕ → ℕ × Dict ℕ
turn_seq_of none seqs = (0, seqs)
turn_seq_of (some turn) seqs = let seq = next_of (get turn seqs) in (seq, insert turn seq seqs)

-- The arguments of `create_gateway_event`, with the time.
pub record EventParts : Type 0 where
  pub request_id : String
  pub session_id : String
  pub turn_id : Option String
  pub event_type : String
  pub payload : Fields
  pub stream_source : Option String
  pub timestamp : String

abbrev pub source_or : Option String → String
source_or none = "synthetic"
source_or (some source) = source

unfoldable pub create_gateway_event :
    EventParts → SessionRuntime → StreamEventEnvelope × SessionRuntime
unfolding turn_seq_of
create_gateway_event parts s =
    let (seq, seqs) = turn_seq_of parts.turn_id s.turn_event_seq in
    (
      record {
        request_id = parts.request_id;
        session_id = parts.session_id;
        turn_id = parts.turn_id;
        event_seq = s.next_event_seq;
        turn_seq = seq;
        timestamp = parts.timestamp;
        event_type = parts.event_type;
        stream_source = source_or parts.stream_source;
        payload = parts.payload;
      },
      record s { next_event_seq = wrap64 (s.next_event_seq + 1); turn_event_seq = seqs },
    )

-- Subscribers get the event as well, whether there are any or not.
unfoldable pub publish_event : StreamEventEnvelope → SessionRuntime → SessionRuntime
publish_event event s = record s { event_log = (push event s.event_log).1 }

pub data ReplayResult : Type 0 where
  invalid_argument : ReplayWindowError → ReplayResult
  events : List StreamEventEnvelope → ReplayResult

abbrev pub without_numbers : Replayed StreamEventEnvelope → ReplayResult
without_numbers (outside error) = invalid_argument error
without_numbers (items found) = events (map (λ (e : ℕ × StreamEventEnvelope). e.1) found)

unfoldable pub replay : Option ℕ → SessionRuntime → ReplayResult
replay after_event_seq s = without_numbers (replay_from after_event_seq s.event_log)

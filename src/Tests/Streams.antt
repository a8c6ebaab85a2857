-- ===== src/Tests/Streams.antt =====
-- Runs of the theorems on the gateway's streams.
use open_jax.Prelude.{
  arith, suc, ℕ, ◌+◌, ◌-◌, max, String, ◌≡◌, refl, none, some, List, [], ◌∷◌, map, keep, drop,
  length, ltb, if◌then◌else◌,
}
use open_jax.Prelude.Words.{wrap64}
use open_jax.Prelude.Json.{Fields, no_fields, field, string}
use open_jax.Prelude.Texts.{codes}
use open_jax.Gateway.Replay.{outside, items, with_capacity, replay_from}
use open_jax.Gateway.Replay.Window.{push_all, number_from, replay-exact}
use open_jax.Gateway.Nodes.{set_field}
use open_jax.Gateway.Session.{
  EventParts, SessionRuntime, new_session, assign_stream_node_ids, invalid_argument, events, replay,
}
use open_jax.Gateway.Session.Replays.{emit_all, made, replay-later}
use open_jax.Gateway.Session.Segments.{assign_deltas, node, opened_id, response-id}
use open_jax.Gateway.Index.Types.{IndexSessionEntry}
use open_jax.Gateway.Listing.Pages.{collect, collect-index}
use open_jax.Gateway.RateLimit.{new_limiter, allow, is_recent}
use open_jax.Gateway.RateLimit.Windowed.{limiter_after, granted, allow-window}

abbrev letters : List String
letters = "a" ∷ "b" ∷ "c" ∷ "d" ∷ []

replay-exact_example : replay_from (some 3) (push_all letters (with_capacity 2)) ≡ (
    if ltb 3 (length letters - max 2 1)
    then outside record { requested_after_seq = 3; min_allowed = length letters - max 2 1 }
    else items (drop 3 (number_from 1 letters)))
replay-exact_example = replay-exact 2 letters 3 (omega arith)

abbrev parts : EventParts
parts = record {
  request_id = "q1";
  session_id = "s1";
  turn_id = some "turn_1";
  event_type = "turn_started";
  payload = no_fields;
  stream_source = none;
  timestamp = "2026-01-01";
}

abbrev three : List EventParts
three = parts ∷ parts ∷ parts ∷ []

replay-later_example : replay (some 1) (emit_all three (new_session 2)) ≡ (
    if ltb 1 (length three - max 2 1)
    then invalid_argument record { requested_after_seq = 1; min_allowed = length three - max 2 1 }
    else events (keep (λ e. ltb 1 e.event_seq) (made three (new_session 2))))
replay-later_example = replay-later 2 three 1 (omega arith)

abbrev text : Fields
text = field "content" (string (codes "hi")) no_fields

abbrev started : Fields × SessionRuntime
started = assign_stream_node_ids (some "t1") "response_started" no_fields (new_session 2)

abbrev told : List Fields × SessionRuntime
told = assign_deltas "t1" (text ∷ text ∷ []) started.1

abbrev ended : Fields × SessionRuntime
ended = assign_stream_node_ids (some "t1") "response_completed" text told.1

response-id_example :
    (started.0
      ≡ set_field "response_segment_id" (string (opened_id "t1" (new_session 2))) no_fields)
    × (told.0
        ≡ map
            (set_field "response_segment_id" (string (opened_id "t1" (new_session 2))))
            (text ∷ text ∷ []))
    × (ended.0 ≡ set_field "response_segment_id" (string (opened_id "t1" (new_session 2))) text)
    × ((node "t1" ended.1).current_response_segment_id ≡ none)
    × ((node "t1" ended.1).response_segment_counter
        ≡ wrap64 ((node "t1" (new_session 2)).response_segment_counter + 1))
response-id_example =
    response-id "t1" no_fields (text ∷ text ∷ []) text (new_session 2) refl (refl, (refl, tt)) refl

abbrev logins : List (String × ℕ)
logins = ("ip1", 1) ∷ ("ip2", 2) ∷ ("ip1", 3) ∷ []

allow-window_example :
    (allow "ip1" 4 (limiter_after logins (new_limiter 2 60))).0
    ≡ ltb (length (keep (is_recent 60 4) (granted "ip1" logins (new_limiter 2 60) []))) 2
allow-window_example =
    allow-window 2 60 "ip1" logins 4 (omega arith, (omega arith, (omega arith, omega arith)))

abbrev entry : String → String → IndexSessionEntry
entry session_id updated_at = record {
  session_id = session_id;
  title = none;
  created_at = "2026-01-01";
  updated_at = updated_at;
  last_event_seq = 0;
  last_preview = "";
}

abbrev session_index : List IndexSessionEntry
session_index = entry "s3" "2026-01-03" ∷ entry "s2" "2026-01-02" ∷ entry "s1" "2026-01-02" ∷ []

collect-index_example : collect (suc (length session_index)) 2 session_index none ≡ session_index
collect-index_example = collect-index 2 session_index (omega arith) (refl, (refl, (refl, tt)))

-- ===== src/Gateway/Nodes.antt =====
-- openjax-gateway/src/state/runtime.rs: the ids of the segments of a turn's stream. A payload is the fields of
-- a JSON object: the gateway builds each one as an object. Counters are u64 and wrap, as in a release build.
use open_jax.Prelude.{
  ℕ, ◌+◌, ◌*◌, ◌-◌, max, String, Bool, true, false, ◌&&◌, Option, none, some, [], ◌∷◌, ◌++◌, str_eq,
  leb, ◌==◌, if◌then◌else◌,
}
use open_jax.Prelude.Words.{wrap64, u64_mod}
use open_jax.Prelude.Decimal.{to_string}
use open_jax.Prelude.Json.{Json, Fields, no_fields, field, get_field, string, as_str}
use open_jax.Prelude.Texts.{Text, codes}

-- `payload[key] = value` on an object
unfoldable pub set_field : String → Json → Fields → Fields
set_field key value no_fields = field key value no_fields
set_field key value (field k v fields) =
    if str_eq k key then field k value fields else field k v (set_field key value fields)

-- `payload.get(key).and_then(|value| value.as_str())`
abbrev pub text_of : Option Json → Option Text
text_of none = none
text_of (some value) = as_str value

abbrev pub text_field : String → Fields → Option Text
text_field key payload = text_of (get_field key payload)

-- `str::strip_prefix`
unfoldable pub strip_prefix : Text → Text → Option Text
strip_prefix [] text = some text
strip_prefix (p ∷ ps) [] = none
strip_prefix (p ∷ ps) (c ∷ text) = let rest = strip_prefix ps text in if c == p then rest else none

-- The digits of `str::parse::<u64>`, after those that give `acc`.
unfoldable pub parse_digits : ℕ → Text → Option ℕ
parse_digits acc [] = some acc
parse_digits acc (c ∷ text) =
    let next = acc * 10 + (c - b'0') in
    let rest = parse_digits next text in
    if leb b'0' c && leb c b'9' then (if leb u64_mod next then none else rest) else none

-- A sign may stand before the digits, of which there is one at least.
unfoldable pub parse_u64 : Text → Option ℕ
unfolding parse_digits
parse_u64 [] = none
parse_u64 (c ∷ []) = parse_digits 0 (c ∷ [])
parse_u64 (c ∷ d ∷ text) =
    if c == b'+' then parse_digits 0 (d ∷ text) else parse_digits 0 (c ∷ d ∷ text)

abbrev pub suffix_number : Option Text → ℕ
suffix_number none = 0
suffix_number (some suffix) = elim (parse_u64 suffix) [ none ↦ 0 | some n ↦ n ]

-- `parse_segment_suffix(..).unwrap_or(0)`
unfoldable pub parse_segment_suffix : Text → Text → ℕ
unfolding parse_u64 strip_prefix
parse_segment_suffix segment_id prefix = suffix_number (strip_prefix prefix segment_id)

pub record TurnStreamNodeState : Type 0 where
  pub response_segment_counter : ℕ
  pub reasoning_segment_counter : ℕ
  pub current_response_segment_id : Option Text
  pub current_reasoning_segment_id : Option Text

abbrev pub no_segments : TurnStreamNodeState
no_segments = record {
  response_segment_counter = 0;
  reasoning_segment_counter = 0;
  current_response_segment_id = none;
  current_reasoning_segment_id = none;
}

unfoldable pub observe_response_segment_id : Text → TurnStreamNodeState → TurnStreamNodeState
unfolding parse_segment_suffix
observe_response_segment_id segment_id st = record st {
  response_segment_counter =
      max st.response_segment_counter (parse_segment_suffix segment_id (codes "resp_"));
  current_response_segment_id = some segment_id;
}

unfoldable pub observe_reasoning_segment_id : Text → TurnStreamNodeState → TurnStreamNodeState
unfolding parse_segment_suffix
observe_reasoning_segment_id segment_id st = record st {
  reasoning_segment_counter =
      max st.reasoning_segment_counter (parse_segment_suffix segment_id (codes "reason_"));
  current_reasoning_segment_id = some segment_id;
}

-- `format!("resp_{n}")`
unfoldable pub response_id : ℕ → Text
response_id n = codes "resp_" ++ codes (to_string n)

unfoldable pub reasoning_id : ℕ → Text
reasoning_id n = codes "reason_" ++ codes (to_string n)

unfoldable pub open_new_response_segment : TurnStreamNodeState → Text × TurnStreamNodeState
open_new_response_segment st =
    let counter = wrap64 (st.response_segment_counter + 1) in
    (
      response_id counter,
      record st {
        response_segment_counter = counter;
        current_response_segment_id = some (response_id counter);
      },
    )

unfoldable pub current_or_open_response_segment : TurnStreamNodeState → Text × TurnStreamNodeState
unfolding open_new_response_segment
current_or_open_response_segment st = elim st.current_response_segment_id [
  | none ↦ open_new_response_segment st
  | some segment_id ↦ (segment_id, st)
]

unfoldable pub current_or_open_reasoning_segment : TurnStreamNodeState → Text × TurnStreamNodeState
current_or_open_reasoning_segment st = elim st.current_reasoning_segment_id [
  | none ↦
      let counter = wrap64 (st.reasoning_segment_counter + 1) in
      (
        reasoning_id counter,
        record st {
          reasoning_segment_counter = counter;
          current_reasoning_segment_id = some (reasoning_id counter);
        },
      )
  | some segment_id ↦ (segment_id, st)
]

abbrev pub put_id : String → Fields → Text × TurnStreamNodeState → Fields × TurnStreamNodeState
put_id key payload (segment_id, st) = (set_field key (string segment_id) payload, st)

abbrev pub assign_response_over :
    Option Text → Fields → Bool → TurnStreamNodeState → Fields × TurnStreamNodeState
assign_response_over (some existing) payload open_new st =
    (payload, observe_response_segment_id existing st)
assign_response_over none payload true st =
    put_id "response_segment_id" payload (open_new_response_segment st)
assign_response_over none payload false st =
    put_id "response_segment_id" payload (current_or_open_response_segment st)

unfoldable pub assign_response_segment_id :
    Fields → Bool → TurnStreamNodeState → Fields × TurnStreamNodeState
assign_response_segment_id payload open_new st =
    assign_response_over (text_field "response_segment_id" payload) payload open_new st

abbrev pub assign_reasoning_over :
    Option Text → Fields → TurnStreamNodeState → Fields × TurnStreamNodeState
assign_reasoning_over (some existing) payload st =
    (payload, observe_reasoning_segment_id existing st)
assign_reasoning_over none payload st =
    put_id "reasoning_segment_id" payload (current_or_open_reasoning_segment st)

unfoldable pub assign_reasoning_segment_id :
    Fields → TurnStreamNodeState → Fields × TurnStreamNodeState
assign_reasoning_segment_id payload st =
    assign_reasoning_over (text_field "reasoning_segment_id" payload) payload st

-- `close_response_segment` and `close_reasoning_segment`
unfoldable pub close_segments : TurnStreamNodeState → TurnStreamNodeState
close_segments st = record st {
  current_response_segment_id = none;
  current_reasoning_segment_id = none;
}

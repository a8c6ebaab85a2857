-- ===== src/Gateway/Session/Segments.antt =====
-- runtime.rs: the parts of one response carry one id.
use open_jax.Prelude.{
  ℕ, ◌+◌, ◌≡◌, refl, ap, ◌∙◌, String, none, some, List, [], ◌∷◌, map, All, str_eq_refl,
}
use open_jax.Prelude.Words.{wrap64}
use open_jax.Prelude.Dict.{Dict, get, insert, get-insert}
use open_jax.Prelude.Json.{Fields, string}
use open_jax.Prelude.Texts.{Text}
use open_jax.Gateway.Nodes.{
  TurnStreamNodeState, set_field, text_field, response_id, assign_response_segment_id,
  open_new_response_segment, current_or_open_response_segment, close_segments,
}
use open_jax.Gateway.Session.{
  SessionRuntime, or_default, assign_stream_node_ids, assign_ids, closes,
}

-- The payload brings no id of a response.
abbrev pub IsFresh : Fields → Type 0
IsFresh payload = text_field "response_segment_id" payload ≡ none

-- The payloads of these texts of one turn.
abbrev pub assign_deltas : String → List Fields → SessionRuntime → List Fields × SessionRuntime
assign_deltas turn [] s = ([], s)
assign_deltas turn (p ∷ ps) s =
    let (q, next) = assign_stream_node_ids (some turn) "response_text_delta" p s in
    let (qs, last) = assign_deltas turn ps next in (q ∷ qs, last)

-- The node of a turn.
abbrev pub node : String → SessionRuntime → TurnStreamNodeState
node turn s = or_default (get turn s.turn_stream_nodes)

node-insert :
    (turn : String) (st : TurnStreamNodeState) (nodes : Dict TurnStreamNodeState)
    → or_default (get turn (insert turn st nodes)) ≡ st
node-insert turn st nodes =
    ap or_default (get-insert turn turn st nodes) ∙ rw (str_eq_refl turn) refl

abbrev Opened : Text → TurnStreamNodeState → Type 0
Opened id st = st.current_response_segment_id ≡ some id

delta-id :
    (id : Text) (p : Fields) (st : TurnStreamNodeState)
    → IsFresh p
    → Opened id st
    → assign_ids "response_text_delta" p st ≡ (set_field "response_segment_id" (string id) p, st)
unfolding assign_ids assign_response_segment_id current_or_open_response_segment
delta-id id p st f o = rw f rw o refl

-- The session with another node for the turn.
abbrev with_node : String → TurnStreamNodeState → SessionRuntime → SessionRuntime
with_node turn st s = record s { turn_stream_nodes = insert turn st s.turn_stream_nodes }

delta_step :
    (turn : String) (id : Text) (p : Fields) (s : SessionRuntime)
    → IsFresh p
    → Opened id (node turn s)
    → assign_stream_node_ids (some turn) "response_text_delta" p s
      ≡ (set_field "response_segment_id" (string id) p, with_node turn (node turn s) s)
unfolding assign_stream_node_ids closes
delta_step turn id p s f o =
    ap (λ (r : Fields × TurnStreamNodeState). (r.0, with_node turn r.1 s))
      (delta-id id p (node turn s) f o)

abbrev more : String → List Fields → Fields × SessionRuntime → List Fields × SessionRuntime
more turn ps (q, next) = let (qs, last) = assign_deltas turn ps next in (q ∷ qs, last)

deltas-id :
    (turn : String) (id : Text) (ps : List Fields) (s : SessionRuntime)
    → All IsFresh ps
    → Opened id (node turn s)
    → ((assign_deltas turn ps s).0 ≡ map (set_field "response_segment_id" (string id)) ps)
      × (node turn (assign_deltas turn ps s).1 ≡ node turn s)
deltas-id turn id [] s f o = (refl, refl)
deltas-id turn id (p ∷ ps) s (f, fs) o =
    let kept = node-insert turn (node turn s) s.turn_stream_nodes in
    let e = ap (more turn ps) (delta_step turn id p s f o) in
    let ih =
      deltas-id turn id ps (with_node turn (node turn s) s) fs
        (ap (λ (st : TurnStreamNodeState). st.current_response_segment_id) kept ∙ o) in
    (
      ap (λ (r : List Fields × SessionRuntime). r.0) e
          ∙ ap (◌∷◌ (set_field "response_segment_id" (string id) p)) ih.0,
      ap (λ (r : List Fields × SessionRuntime). node turn r.1) e ∙ ih.1 ∙ kept,
    )

-- The id that the start of a response gets in a session.
abbrev pub opened_id : String → SessionRuntime → Text
opened_id turn s = response_id (wrap64 ((node turn s).response_segment_counter + 1))

start_step :
    (turn : String) (p : Fields) (s : SessionRuntime)
    → IsFresh p
    → assign_stream_node_ids (some turn) "response_started" p s ≡ (
      set_field "response_segment_id" (string (opened_id turn s)) p,
      with_node turn (open_new_response_segment (node turn s)).1 s,
    )
unfolding assign_stream_node_ids assign_ids closes assign_response_segment_id
    open_new_response_segment
start_step turn p s f = rw f refl

end-id :
    (id : Text) (p : Fields) (st : TurnStreamNodeState)
    → IsFresh p
    → Opened id st
    → assign_ids "response_completed" p st ≡ (set_field "response_segment_id" (string id) p, st)
unfolding assign_ids assign_response_segment_id current_or_open_response_segment
end-id id p st f o = rw f rw o refl

end_step :
    (turn : String) (id : Text) (p : Fields) (s : SessionRuntime)
    → IsFresh p
    → Opened id (node turn s)
    → assign_stream_node_ids (some turn) "response_completed" p s ≡ (
      set_field "response_segment_id" (string id) p,
      with_node turn (close_segments (node turn s)) s,
    )
unfolding assign_stream_node_ids closes close_segments
end_step turn id p s f o =
    ap (λ (r : Fields × TurnStreamNodeState). (r.0, with_node turn (close_segments r.1) s))
      (end-id id p (node turn s) f o)

-- The texts and the end of a response that is open with an id and a counter.
parts-id :
    (turn : String) (id : Text) (c : ℕ) (deltas : List Fields) (end : Fields) (s : SessionRuntime)
    → All IsFresh deltas
    → IsFresh end
    → Opened id (node turn s)
    → (node turn s).response_segment_counter ≡ c
    → let texts = assign_deltas turn deltas s in
      let last = assign_stream_node_ids (some turn) "response_completed" end texts.1 in
      (texts.0 ≡ map (set_field "response_segment_id" (string id)) deltas)
      × (last.0 ≡ set_field "response_segment_id" (string id) end)
      × ((node turn last.1).current_response_segment_id ≡ none)
      × ((node turn last.1).response_segment_counter ≡ c)
unfolding close_segments
parts-id turn id c deltas end s fs g o k =
    let (q, kept) = deltas-id turn id deltas s fs o in
    let s2 = (assign_deltas turn deltas s).1 in
    let e =
      end_step turn id end s2 g
        (ap (λ (st : TurnStreamNodeState). st.current_response_segment_id) kept ∙ o) in
    let closed =
      ap (λ (r : Fields × SessionRuntime). node turn r.1) e
      ∙ node-insert turn (close_segments (node turn s2)) s2.turn_stream_nodes in
    (
      q,
      ap (λ (r : Fields × SessionRuntime). r.0) e,
      ap (λ (st : TurnStreamNodeState). st.current_response_segment_id) closed,
      ap (λ (st : TurnStreamNodeState). st.response_segment_counter)
            (closed ∙ ap close_segments kept)
          ∙ k,
    )

-- A start, texts and an end that bring no id of their own, on one turn: each of them gets the id of the
-- start, and with the end no response of the turn is open and its counter is one more than before.
pub response-id :
    (turn : String) (start : Fields) (deltas : List Fields) (end : Fields) (s : SessionRuntime)
    → IsFresh start
    → All IsFresh deltas
    → IsFresh end
    → let first = assign_stream_node_ids (some turn) "response_started" start s in
      let texts = assign_deltas turn deltas first.1 in
      let last = assign_stream_node_ids (some turn) "response_completed" end texts.1 in
      (first.0 ≡ set_field "response_segment_id" (string (opened_id turn s)) start)
      × (texts.0 ≡ map (set_field "response_segment_id" (string (opened_id turn s))) deltas)
      × (last.0 ≡ set_field "response_segment_id" (string (opened_id turn s)) end)
      × ((node turn last.1).current_response_segment_id ≡ none)
      × ((node turn last.1).response_segment_counter
          ≡ wrap64 ((node turn s).response_segment_counter + 1))
unfolding open_new_response_segment close_segments
response-id turn start deltas end s f fs g =
    let e = start_step turn start s f in
    let now =
      ap (λ (r : Fields × SessionRuntime). node turn r.1) e
      ∙ node-insert turn (open_new_response_segment (node turn s)).1 s.turn_stream_nodes in
    let (a, b, c, d) =
      parts-id turn (opened_id turn s) (wrap64 ((node turn s).response_segment_counter + 1)) deltas
        end (assign_stream_node_ids (some turn) "response_started" start s).1 fs g
        (ap (λ (st : TurnStreamNodeState). st.current_response_segment_id) now)
        (ap (λ (st : TurnStreamNodeState). st.response_segment_counter) now) in
    (ap (λ (r : Fields × SessionRuntime). r.0) e, a, b, c, d)

-- ===== src/Gateway/Session/Replays.antt =====
-- runtime.rs: a subscriber that comes back gets the events it has not seen.
use open_jax.Prelude.{
  drop_none, at_drop, ℕ, zero, suc, ◌+◌, ◌-◌, ◌<◌, max, ◌≡◌, refl, sym, ap, ◌∙◌, Bool, true, false,
  some, List, [], ◌∷◌, map, keep, drop, length, ltb, if◌then◌else◌, arith, Bool-cases, inl, inr,
}
use open_jax.Prelude.Words.{wrap64, u64_mod, wrap64_small}
use open_jax.Gateway.Replay.{outside, items, ReplayWindowError, replay_from}
use open_jax.Gateway.Replay.Window.{push_all, number_from, replay-exact}
use open_jax.Gateway.Session.{
  StreamEventEnvelope, SessionRuntime, new_session, EventParts, create_gateway_event, publish_event,
  invalid_argument, events, without_numbers, replay,
}

-- The event is made, then published.
abbrev pub emit : EventParts → SessionRuntime → SessionRuntime
emit parts s = let (event, next) = create_gateway_event parts s in publish_event event next

abbrev pub emit_all : List EventParts → SessionRuntime → SessionRuntime
emit_all [] s = s
emit_all (p ∷ ps) s = emit_all ps (emit p s)

-- The events that these parts make.
abbrev pub made : List EventParts → SessionRuntime → List StreamEventEnvelope
made [] s = []
made (p ∷ ps) s = (create_gateway_event p s).0 ∷ made ps (emit p s)

emit_all-log :
    (ps : List EventParts) (s : SessionRuntime)
    → (emit_all ps s).event_log ≡ push_all (made ps s) s.event_log
unfolding create_gateway_event publish_event
emit_all-log [] s = refl
emit_all-log (p ∷ ps) s = emit_all-log ps (emit p s)

length-made : (ps : List EventParts) (s : SessionRuntime) → length (made ps s) ≡ length ps
length-made [] s = refl
length-made (p ∷ ps) s = ap suc (length-made ps (emit p s))

-- The events are numbered one after the other.
abbrev Counts : ℕ → List StreamEventEnvelope → Type 0
Counts n [] = Unit {0}
Counts n (e ∷ es) = (e.event_seq ≡ n) × Counts (suc n) es

made-Counts :
    (n : ℕ) (ps : List EventParts) (s : SessionRuntime)
    → s.next_event_seq ≡ n
    → n + length ps < u64_mod
    → Counts n (made ps s)
unfolding create_gateway_event publish_event
made-Counts n [] s e h = tt
made-Counts n (p ∷ ps) s e h = (
  e,
  made-Counts (suc n) ps (emit p s)
      (ap (λ k. wrap64 (k + 1)) e ∙ wrap64_small (n + 1) (omega arith) ∙ omega arith) (omega arith),
)

-- Those later than a number are those after as many.
keep-Counts :
    (a n : ℕ) (es : List StreamEventEnvelope)
    → Counts n es
    → keep (λ e. ltb a e.event_seq) es ≡ drop (suc a - n) es
keep-Counts a n [] c = sym (drop_none (suc a - n))
keep-Counts a n (e ∷ es) (q, c) = elim (Bool-cases (ltb a n)) [
  | inl y ↦ rw (ap (ltb a) q ∙ y) (
      ap (◌∷◌ e) (keep-Counts a (suc n) es c ∙ at_drop (suc a - suc n) 0 es (ground arith))
      ∙ sym (at_drop (suc a - n) 0 (e ∷ es) (ground arith)))
  | inr m ↦ rw (ap (ltb a) q ∙ m) (
      keep-Counts a (suc n) es c
      ∙ sym (at_drop (suc a - n) (suc (suc a - suc n)) (e ∷ es) (ground arith)))
]

items-drop :
    (a n : ℕ) (es : List StreamEventEnvelope)
    → map (λ (e : ℕ × StreamEventEnvelope). e.1) (drop a (number_from n es)) ≡ drop a es
items-drop zero n [] = refl
items-drop (suc a) n [] = refl
items-drop zero n (e ∷ es) = ap (◌∷◌ e) (items-drop zero (suc n) es)
items-drop (suc a) n (e ∷ es) = items-drop a (suc n) es

in_numbers :
    (b : Bool) (error : ReplayWindowError) (a : ℕ) (es : List StreamEventEnvelope)
    → without_numbers (if b then outside error else items (drop a (number_from 1 es)))
      ≡ (if b then invalid_argument error else events (drop a es))
in_numbers true error a es = refl
in_numbers false error a es = ap events (items-drop a 1 es)

-- In a new session, below 2 ^ 64 events that are each published as they are made, a replay after an event
-- number is refused, with the least number that is served, if events after it have left the window; else it
-- is exactly the events with a greater event number, in order.
pub replay-later :
    (capacity : ℕ) (ps : List EventParts) (after : ℕ)
    → suc (length ps) < u64_mod
    → replay (some after) (emit_all ps (new_session capacity)) ≡ (
        if ltb after (length ps - max capacity 1)
        then invalid_argument
            record { requested_after_seq = after; min_allowed = length ps - max capacity 1 }
        else events (keep (λ e. ltb after e.event_seq) (made ps (new_session capacity))))
unfolding replay
replay-later capacity ps after h =
    let s = new_session capacity in
    let es = made ps s in
    ap (λ log. without_numbers (replay_from (some after) log)) (emit_all-log ps s)
    ∙ ap without_numbers (replay-exact capacity es after (omega (arith, length-made ps s)))
    ∙ ap
        (λ n. without_numbers (
          if ltb after (n - max capacity 1)
          then outside record { requested_after_seq = after; min_allowed = n - max capacity 1 }
          else items (drop after (number_from 1 es))))
        (length-made ps s)
    ∙ in_numbers (ltb after (length ps - max capacity 1))
        (record { requested_after_seq = after; min_allowed = length ps - max capacity 1 }) after es
    ∙ ap
        (λ later.
          if ltb after (length ps - max capacity 1)
          then invalid_argument
              record { requested_after_seq = after; min_allowed = length ps - max capacity 1 }
          else events later)
        (at_drop after (suc after - 1) es (omega arith)
          ∙ sym (keep-Counts after 1 es (made-Counts 1 ps s refl (omega arith))))

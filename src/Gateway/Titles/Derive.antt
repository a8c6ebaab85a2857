-- ===== src/Gateway/Titles/Derive.antt =====
-- events.rs: the title and the preview that a user's message gives.
use open_jax.Prelude.{
  ℕ, ◌≤◌, String, ◌≡◌, false, not, Option, none, some, [], ◌∷◌, ◌++◌, take, length, length-append,
  length-take, leb, ltb, str_eq, if◌then◌else◌, arith, Bool-cases, inl, inr,
}
use open_jax.Prelude.Texts.{Text, codes, trim_start, trim_end, normalize, is_empty}
use open_jax.Prelude.Json.{Json, get, as_str}

abbrev pub get_text : Option Json → Option Text
get_text none = none
get_text (some value) = as_str value

-- The text under `content`.
abbrev pub content_of : Json → Option Text
content_of payload = get_text (get "content" payload)

abbrev pub shorten : Text → Option Text
shorten normalized =
    if is_empty normalized
    then none
    else some (if ltb 24 (length normalized) then take 24 normalized ++ codes "..." else normalized)

abbrev pub title_of : Option Text → Option Text
title_of none = none
title_of (some raw) = shorten (normalize raw)

unfoldable pub derive_session_title : String → Json → Option Text
unfolding normalize
derive_session_title event_type payload =
    if not (str_eq event_type "user_message") then none else title_of (content_of payload)

unfoldable pub truncate_utf8_chars : Text → ℕ → Text
truncate_utf8_chars input max_chars =
    if leb (length input) max_chars then input else take max_chars input

abbrev pub preview_of : Option Text → Option Text
preview_of none = none
preview_of (some content) = some (truncate_utf8_chars (trim_end (trim_start content)) 120)

unfoldable pub derive_last_preview : String → Json → Option Text
unfolding truncate_utf8_chars trim_start trim_end
derive_last_preview event_type payload =
    if not (str_eq event_type "user_message") then none else preview_of (content_of payload)

-- A text that is there has a length within these.
abbrev pub IsWithin : ℕ → ℕ → Option Text → Type 0
IsWithin low high none = Unit {0}
IsWithin low high (some text) = (low ≤ length text) × (length text ≤ high)

filled : (text : Text) → is_empty text ≡ false → 1 ≤ length text
filled [] h = cc
filled (c ∷ text) h = omega arith

shorten-IsWithin : (text : Text) → IsWithin 1 27 (shorten text)
shorten-IsWithin text = elim (Bool-cases (is_empty text)) [
  | inl y ↦ rw y tt
  | inr n ↦ rw n elim (Bool-cases (ltb 24 (length text))) [
    | inl z ↦ rw z (
      omega (arith, length-append (take 24 text) (codes "..."), length-take 24 text, filled text n),
      ground (arith, length-append (take 24 text) (codes "..."), length-take 24 text),
    )
    | inr w ↦ rw w (filled text n, ground arith)
  ]
]

title-IsWithin : (o : Option Text) → IsWithin 1 27 (title_of o)
title-IsWithin none = tt
title-IsWithin (some raw) = shorten-IsWithin (normalize raw)

preview-IsWithin : (o : Option Text) → IsWithin 0 120 (preview_of o)
unfolding truncate_utf8_chars
preview-IsWithin none = tt
preview-IsWithin (some content) =
    elim (Bool-cases (leb (length (trim_end (trim_start content))) 120)) [
      | inl y ↦ rw y (omega arith, ground arith)
      | inr n ↦ rw n (omega arith, ground (arith, length-take 120 (trim_end (trim_start content))))
    ]

-- The title of an event has from 1 to 27 characters and its preview at most 120, if it has one at all.
pub derive-IsWithin :
    (event_type : String) (payload : Json)
    → IsWithin 1 27 (derive_session_title event_type payload)
      × IsWithin 0 120 (derive_last_preview event_type payload)
unfolding derive_session_title derive_last_preview
derive-IsWithin event_type payload = elim (Bool-cases (not (str_eq event_type "user_message"))) [
  | inl y ↦ rw y (tt, tt)
  | inr n ↦ rw n (title-IsWithin (content_of payload), preview-IsWithin (content_of payload))
]

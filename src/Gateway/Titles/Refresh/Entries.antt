-- ===== src/Gateway/Titles/Refresh/Entries.antt =====
-- events.rs: what a refresh that succeeds makes of the session's entry.
use open_jax.Prelude.{String, Bool, true, false, Option, none, some, List, str_eq, if◌then◌else◌}
use open_jax.Prelude.Texts.{Text, trim}
use open_jax.Gateway.Index.Types.{IndexSessionEntry}
use open_jax.Gateway.Titles.Refresh.Writes.{HasEntry}

abbrev is_blank : Option String → Bool
is_blank none = true
is_blank (some title) = str_eq (trim title) ""

-- A session that has a title, or one that is not blank from an event that is not skipped.
abbrev pub new_title : (Text → String) → Option String → Bool → Option Text → Option String
new_title text_of current skip none = current
new_title text_of current true (some title) = current
new_title text_of current false (some title) =
    if is_blank current
    then (if str_eq (trim (text_of title)) "" then current else some (trim (text_of title)))
    else current

abbrev pub new_preview : (Text → String) → String → Option Text → String
new_preview text_of current none = current
new_preview text_of current (some preview) = text_of preview

-- The entry under a title, whose time may be new.
record Retitled (session_id : String) (title : Option String) (base : IndexSessionEntry)
    (before after : List IndexSessionEntry) : Type 0 where
  time : String
  entry : HasEntry session_id (record base { title = title; updated_at = time }) before after

-- ===== src/Gateway/Titles/Refresh.antt =====
-- events.rs: the index after an event is in the transcript. The hash of a message's words and the text of a title or
-- preview as the index keeps it are parameters.
pub mod Writes
pub mod Entries
use Prim.Native.String.{◌++◌}
use open_jax.Prelude.{ℕ, String, Bool, true, false, not, Option, none, some, str_eq, if◌then◌else◌}
use open_jax.Prelude.Results.{ok, err}
use open_jax.Prelude.Decimal.{to_string}
use open_jax.Prelude.Texts.{Text, normalize, is_empty}
use open_jax.Gateway.Transcript.{TranscriptRecord}
use open_jax.Gateway.Index.Types.{IndexSessionEntry, LogLine}
use open_jax.Gateway.Index.Entries.{find_entry}
use open_jax.Gateway.Index.Store.{SessionIndexStore, Faults, Reply}
use open_jax.Gateway.Index.Updates.{touch_session_index_entry, update_session_title_if_empty}
use open_jax.Gateway.Titles.{AutoTitleDedupeCache, should_skip}
use open_jax.Gateway.Titles.Derive.{content_of, derive_session_title, derive_last_preview}

abbrev pub text_or : String → Option String → String
text_or other none = other
text_or other (some t) = t

module _ (content_hash : Text → ℕ) (text_of : Text → String) where
  abbrev pub key_of : TranscriptRecord → Option Text → Option String
  key_of r none = none
  key_of r (some raw) =
      if is_empty (normalize raw)
      then none
      else some (
          r.session_id
          ++ "|"
          ++ text_or "" r.turn_id
          ++ "|"
          ++ to_string r.turn_seq
          ++ "|"
          ++ r.event_type
          ++ "|"
          ++ to_string (content_hash (normalize raw)))

  unfoldable pub build_auto_title_dedupe_key : TranscriptRecord → Option String
  unfolding normalize to_string
  build_auto_title_dedupe_key r =
      if not (str_eq r.event_type "user_message") then none else key_of r (content_of r.payload)

  -- Without a key a title is not skipped.
  abbrev pub skipped : Option String → ℕ → AutoTitleDedupeCache → Bool × AutoTitleDedupeCache
  skipped none now_ms cache = (false, cache)
  skipped (some key) now_ms cache = should_skip key now_ms cache

  module _ (line_bytes : LogLine → ℕ) (normalize_time : String → Option String) where
    abbrev pub titled : Faults → String → String → Option Text → Bool → SessionIndexStore → Reply
    titled f now session_id none skip s = (ok true, s)
    titled f now session_id (some title) true s = (ok true, s)
    titled f now session_id (some title) false s =
        update_session_title_if_empty line_bytes f now session_id (text_of title) s

    abbrev pub current_preview : Option IndexSessionEntry → String
    current_preview none = ""
    current_preview (some entry) = entry.last_preview

    abbrev pub preview_text : String → Option Text → String
    preview_text current none = current
    preview_text current (some preview) = text_of preview

    abbrev pub touched : Faults → String → TranscriptRecord → String → Reply → Reply
    touched f now r preview (err e, s) = (err e, s)
    touched f now r preview (ok b, s) =
        touch_session_index_entry line_bytes normalize_time f now r.session_id r.timestamp
          r.event_seq preview s

    abbrev pub ask_cache :
        Option Text → Option String → ℕ → AutoTitleDedupeCache → Bool × AutoTitleDedupeCache
    ask_cache none key now_ms cache = (false, cache)
    ask_cache (some title) key now_ms cache = skipped key now_ms cache

    -- The two calls of the index come with their faults.
    unfoldable pub refresh_session_index_from_event :
        Faults
        → Faults
        → String
        → ℕ
        → TranscriptRecord
        → AutoTitleDedupeCache
        → SessionIndexStore
        → Reply × AutoTitleDedupeCache
    unfolding build_auto_title_dedupe_key should_skip derive_session_title derive_last_preview
        find_entry update_session_title_if_empty touch_session_index_entry
    refresh_session_index_from_event f1 f2 now now_ms r cache s =
        let title = derive_session_title r.event_type r.payload in
        let asked = ask_cache title (build_auto_title_dedupe_key r) now_ms cache in
        let preview =
          preview_text (current_preview (find_entry r.session_id s.entries))
            (derive_last_preview r.event_type r.payload) in
        (touched f2 now r preview (titled f1 now r.session_id title asked.0 s), asked.1)

-- ===== src/Gateway/Index/Calls.antt =====
-- session_index_store.rs: the calls, and sequences of them.
use open_jax.Prelude.{ℕ, String, ◌≡◌, true, Option, some, List, [], ◌∷◌}
use open_jax.Gateway.Index.Types.{IndexSessionEntry, LogLine}
use open_jax.Gateway.Index.Sound.{is_clean}
use open_jax.Gateway.Index.Store.{SessionIndexStore, Faults, Reply}
use open_jax.Gateway.Index.Updates.{
  upsert_session_index_entry, touch_session_index_entry, create_session_index_entry,
  update_session_title, update_session_title_if_empty, update_session_tags,
  delete_session_index_entry,
}

-- The calls that write to the index, with their arguments.
pub data Call : Type 0 where
  create upsert : IndexSessionEntry → Call
  touch : String → String → ℕ → String → Call
  set_title : String → Option String → Call
  set_title_if_empty : String → String → Call
  set_tags : String → List String → Call
  delete : String → Call

-- A call with its time and how its steps end.
pub record Timed : Type 0 where
  pub faults : Faults
  pub now : String
  pub call : Call

module _ (normalize : String → Option String) where
  -- A time in normal form.
  abbrev pub IsNormalTime : String → Type 0
  IsNormalTime t = normalize t ≡ some t

  -- The times are normal, and no append of the calls fails after it has begun to write its line.
  abbrev pub AreOrderly : List Timed → Type 0
  AreOrderly [] = Unit {0}
  AreOrderly (t ∷ ts) = (IsNormalTime t.now × (is_clean t.faults.log_append ≡ true)) × AreOrderly ts

  module _ (line_bytes : LogLine → ℕ) where
    abbrev pub perform : Faults → String → Call → SessionIndexStore → Reply
    perform f now (create entry) s = create_session_index_entry line_bytes normalize f now entry s
    perform f now (upsert entry) s = upsert_session_index_entry line_bytes normalize f now entry s
    perform f now (touch id at seq preview) s =
        touch_session_index_entry line_bytes normalize f now id at seq preview s
    perform f now (set_title id title) s = update_session_title line_bytes f now id title s
    perform f now (set_title_if_empty id title) s =
        update_session_title_if_empty line_bytes f now id title s
    perform f now (set_tags id tags) s = update_session_tags line_bytes f now id tags s
    perform f now (delete id) s = delete_session_index_entry line_bytes f now id s

    abbrev pub perform_all : List Timed → SessionIndexStore → SessionIndexStore
    perform_all [] s = s
    perform_all (t ∷ ts) s = perform_all ts ((perform t.faults t.now t.call s).1)

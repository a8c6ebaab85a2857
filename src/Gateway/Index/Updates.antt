-- ===== src/Gateway/Index/Updates.antt =====
-- session_index_store.rs: the seven calls that write to the index.
use open_jax.Prelude.{
  ℕ, String, Bool, true, false, ◌||◌, not, Option, none, some, List, str_eq, if◌then◌else◌,
}
use open_jax.Prelude.Results.{Result, ok, err}
use open_jax.Prelude.Dict
use open_jax.Prelude.Dict.{Dict}
use open_jax.Prelude.Texts.{trim}
use open_jax.Gateway.Index.Types.{IndexSessionEntry, LogLine, from_index_entry}
use open_jax.Gateway.Index.Entries.{find_entry, upsert_memory_entry, remove_memory_entry}
use open_jax.Gateway.Index.Disk.{upsert_record, delete_record, normalized}
use open_jax.Gateway.Index.Store.{
  Faults, Reply, SessionIndexStore, append_log_record, mark_repair_required, maybe_compact, replied,
  when_writable, write_entry,
}

module _ (line_bytes : LogLine → ℕ) where
  module _ (normalize : String → Option String) where
    abbrev pub upsert_normal :
        Faults → String → SessionIndexStore → Result IndexSessionEntry → Reply
    upsert_normal f now s (err e) = (err e, s)
    upsert_normal f now s (ok entry) =
        write_entry line_bytes f
          (λ m. record m {
            title = entry.title;
            created_at = entry.created_at;
            updated_at = entry.updated_at;
          })
          now entry s

    unfoldable pub upsert_session_index_entry :
        Faults → String → IndexSessionEntry → SessionIndexStore → Reply
    unfolding write_entry
    upsert_session_index_entry f now entry s =
        when_writable s (upsert_normal f now s (normalized normalize entry))

    abbrev pub touch_found :
        Faults
        → String
        → ℕ
        → String
        → SessionIndexStore
        → Option String
        → Option IndexSessionEntry
        → Reply
    touch_found f now last_event_seq last_preview s none found = (err "parse rfc3339 timestamp", s)
    touch_found f now last_event_seq last_preview s (some updated_at) none =
        (err "session not found for touch", s)
    touch_found f now last_event_seq last_preview s (some updated_at) (some base) =
        write_entry line_bytes f (λ m. record m { updated_at = updated_at }) now
          (record base {
            updated_at = updated_at;
            last_event_seq = last_event_seq;
            last_preview = last_preview;
          })
          s

    unfoldable pub touch_session_index_entry :
        Faults → String → String → String → ℕ → String → SessionIndexStore → Reply
    unfolding write_entry find_entry
    touch_session_index_entry f now session_id updated_at last_event_seq last_preview s =
        when_writable s (
          touch_found f now last_event_seq last_preview s (normalize updated_at)
            (find_entry session_id s.entries))

    -- After the record of a creation is in the log and in memory: the directory is published, or taken back.
    abbrev pub after_compensation : Faults → String → Reply → Reply
    after_compensation f session_id (err e, s) = (err e, mark_repair_required f.marker_written s)
    after_compensation f session_id (ok b, s) = (
      err "create session index publish failed and rolled back",
      record s { entries = remove_memory_entry session_id s.entries },
    )

    abbrev pub publish_created : Faults → String → IndexSessionEntry → SessionIndexStore → Reply
    publish_created f now entry s =
        if f.published
        then replied true (
            maybe_compact line_bytes f now (record s {
              disk = record s.disk {
                sessions =
                    Dict.insert entry.session_id (some (from_index_entry entry)) s.disk.sessions;
              };
            }))
        else after_compensation f entry.session_id
            (append_log_record f.compensation (delete_record entry.session_id now) s)

    abbrev pub after_create : Faults → String → IndexSessionEntry → Reply → Reply
    after_create f now entry (err e, s) = (err e, s)
    after_create f now entry (ok b, s) =
        publish_created f now entry (record s { entries = upsert_memory_entry entry s.entries })

    abbrev pub create_normal :
        Faults → String → SessionIndexStore → Result IndexSessionEntry → Reply
    create_normal f now s (err e) = (err e, s)
    create_normal f now s (ok entry) =
        if not f.staged
        then (err "create staging dir", s)
        else after_create f now entry (append_log_record f.log_append (upsert_record entry now) s)

    unfoldable pub create_session_index_entry :
        Faults → String → IndexSessionEntry → SessionIndexStore → Reply
    unfolding append_log_record maybe_compact
    create_session_index_entry f now entry s =
        when_writable s (create_normal f now s (normalized normalize entry))

  abbrev pub retitle :
      Faults → String → Option String → SessionIndexStore → IndexSessionEntry → Reply
  retitle f now title s base =
      write_entry line_bytes f (λ m. record m { title = title; updated_at = now }) now
        (record base { title = title; updated_at = now }) s

  abbrev pub title_found :
      Faults → String → Option String → SessionIndexStore → Option IndexSessionEntry → Reply
  title_found f now title s none = (err "session not found for title update", s)
  title_found f now title s (some base) = retitle f now title s base

  unfoldable pub update_session_title :
      Faults → String → String → Option String → SessionIndexStore → Reply
  unfolding write_entry find_entry
  update_session_title f now session_id title s =
      when_writable s (title_found f now title s (find_entry session_id s.entries))

  abbrev pub has_title : Option String → Bool
  has_title none = false
  has_title (some title) = not (str_eq (trim title) "")

  abbrev pub title_if_empty :
      Faults → String → String → SessionIndexStore → Option IndexSessionEntry → Reply
  title_if_empty f now title s none = (err "session not found for title update", s)
  title_if_empty f now title s (some base) =
      if has_title base.title || str_eq (trim title) ""
      then (ok false, s)
      else retitle f now (some (trim title)) s base

  unfoldable pub update_session_title_if_empty :
      Faults → String → String → String → SessionIndexStore → Reply
  unfolding write_entry find_entry
  update_session_title_if_empty f now session_id title s =
      when_writable s (title_if_empty f now title s (find_entry session_id s.entries))

  abbrev pub tags_found :
      Faults → String → List String → SessionIndexStore → Option IndexSessionEntry → Reply
  tags_found f now tags s none = (err "session not found for tags update", s)
  tags_found f now tags s (some base) =
      write_entry line_bytes f (λ m. record m { tags = tags; updated_at = now }) now
        (record base { updated_at = now }) s

  unfoldable pub update_session_tags :
      Faults → String → String → List String → SessionIndexStore → Reply
  unfolding write_entry find_entry
  update_session_tags f now session_id tags s =
      when_writable s (tags_found f now tags s (find_entry session_id s.entries))

  -- After the deletion is in the log and in memory: the directory goes, or the entry comes back.
  abbrev pub after_restore : Faults → IndexSessionEntry → Reply → Reply
  after_restore f entry (err e, s) = (err e, mark_repair_required f.marker_written s)
  after_restore f entry (ok b, s) = (
    err "delete session index remove failed and rolled back",
    record s { entries = upsert_memory_entry entry s.entries },
  )

  abbrev pub restore : Faults → String → Option IndexSessionEntry → SessionIndexStore → Reply
  restore f now none s = (err "delete session index remove failed and rolled back", s)
  restore f now (some entry) s =
      after_restore f entry (append_log_record f.compensation (upsert_record entry now) s)

  abbrev pub drop_directory : String → SessionIndexStore → SessionIndexStore
  drop_directory session_id s = record s {
    disk = record s.disk {
      sessions = Dict.remove session_id s.disk.sessions;
      last_seqs = Dict.remove session_id s.disk.last_seqs;
    };
  }

  abbrev pub after_delete : Faults → String → String → Option IndexSessionEntry → Reply → Reply
  after_delete f now session_id original (err e, s) = (err e, s)
  after_delete f now session_id original (ok b, s) =
      let gone = record s { entries = remove_memory_entry session_id s.entries } in
      if f.removed
      then replied true (maybe_compact line_bytes f now (drop_directory session_id gone))
      else restore f now original gone

  unfoldable pub delete_session_index_entry : Faults → String → String → SessionIndexStore → Reply
  unfolding append_log_record maybe_compact find_entry
  delete_session_index_entry f now session_id s = when_writable s (
      after_delete f now session_id (find_entry session_id s.entries)
        (append_log_record f.log_append (delete_record session_id now) s))

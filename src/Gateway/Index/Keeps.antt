-- ===== src/Gateway/Index/Keeps.antt =====
-- session_index_store.rs: every call keeps the index sound.
use open_jax.Prelude.{
  ℕ, String, ◌≡◌, refl, true, false, ◌||◌, not, Option, none, some, List, all, str_eq, str_eq_refl,
  Bool-cases, inl, inr,
}
use open_jax.Prelude.Results.{Result, ok, err}
use open_jax.Prelude.Dict
use open_jax.Prelude.Dict.{Dict}
use open_jax.Prelude.Texts.{trim}
use open_jax.Policy.Schema.{is_this}
use open_jax.Auth.Store.Rows.{find-all}
use open_jax.Gateway.Index.Types.{
  IndexSessionEntry, LogLine, whole, part, SessionMetadata, from_index_entry,
}
use open_jax.Gateway.Index.Entries.{find_entry, remove_memory_entry}
use open_jax.Gateway.Index.Disk.{
  load_entries_snapshot_and_log, write_line, upsert_record, delete_record, with_updated_at,
}
use open_jax.Gateway.Index.Order.{remove-Unique, remove-Descends, all-remove}
use open_jax.Gateway.Index.Replay.{is_normal, remove-Recovers}
use open_jax.Gateway.Index.Sound.{
  is_clean, IsSound, marked-IsSound, compact-IsSound, replied-IsSound, put-IsSound, write-IsSound,
  writable-IsSound,
}
use open_jax.Gateway.Index.Store.{
  SessionIndexStore, Append, appended, lost, partly, unended, unsynced, Faults, with_log,
  append_log_record, maybe_compact,
}
use open_jax.Gateway.Index.Updates.{
  upsert_normal, upsert_session_index_entry, touch_found, touch_session_index_entry,
  after_compensation, after_create, create_normal, create_session_index_entry, title_found,
  update_session_title, has_title, title_if_empty, update_session_title_if_empty, tags_found,
  update_session_tags, after_restore, restore, after_delete, delete_session_index_entry,
}
use open_jax.Gateway.Index.Calls.{
  Call, create, upsert, touch, set_title, set_title_if_empty, set_tags, delete, IsNormalTime,
  perform,
}

module _ (normalize : String → Option String) (line_bytes : LogLine → ℕ)
    (normal_again : (t u : String) → normalize t ≡ some u → normalize u ≡ some u) where
  time-normal : (t : String) → IsNormalTime normalize t → is_this t (normalize t) ≡ true
  time-normal t h = rw h (str_eq_refl t)

  -- An entry that was put in normal form.
  abbrev AllNormal : Result IndexSessionEntry → Type 0
  AllNormal (ok e) = is_normal normalize e ≡ true
  AllNormal (err m) = Unit {0}

  normalized_normal :
      (e : IndexSessionEntry) (o : Option String)
      → normalize e.updated_at ≡ o
      → AllNormal (with_updated_at normalize e o)
  normalized_normal e none h = tt
  normalized_normal e (some u) h = time-normal u (normal_again e.updated_at u h)

  upsert-cases :
      (f : Faults) (now : String) (s : SessionIndexStore) (r : Result IndexSessionEntry)
      → is_clean f.log_append ≡ true
      → AllNormal r
      → IsSound normalize line_bytes s
      → IsSound normalize line_bytes ((upsert_normal line_bytes normalize f now s r).1)
  upsert-cases f now s (err e) c n v = v
  upsert-cases f now s (ok e) c n v = write-IsSound normalize line_bytes f _ now e s c n v

  touch-cases :
      (f : Faults) (now : String) (seq : ℕ) (preview : String) (s : SessionIndexStore) (at : String)
      (o : Option String) (found : Option IndexSessionEntry)
      → normalize at ≡ o
      → is_clean f.log_append ≡ true
      → IsSound normalize line_bytes s
      → IsSound normalize line_bytes
          ((touch_found line_bytes normalize f now seq preview s o found).1)
  touch-cases f now seq preview s at none found h c v = v
  touch-cases f now seq preview s at (some u) none h c v = v
  touch-cases f now seq preview s at (some u) (some base) h c v =
      write-IsSound normalize line_bytes f _ now _ s c (time-normal u (normal_again at u h)) v

  title-cases :
      (f : Faults) (now : String) (title : Option String) (s : SessionIndexStore)
      (found : Option IndexSessionEntry)
      → IsNormalTime normalize now
      → is_clean f.log_append ≡ true
      → IsSound normalize line_bytes s
      → IsSound normalize line_bytes ((title_found line_bytes f now title s found).1)
  title-cases f now title s none n c v = v
  title-cases f now title s (some base) n c v =
      write-IsSound normalize line_bytes f _ now _ s c (time-normal now n) v

  if_empty-cases :
      (f : Faults) (now title : String) (s : SessionIndexStore) (found : Option IndexSessionEntry)
      → IsNormalTime normalize now
      → is_clean f.log_append ≡ true
      → IsSound normalize line_bytes s
      → IsSound normalize line_bytes ((title_if_empty line_bytes f now title s found).1)
  if_empty-cases f now title s none n c v = v
  if_empty-cases f now title s (some base) n c v =
      elim (Bool-cases (has_title line_bytes base.title || str_eq (trim title) "")) [
        | inl y ↦ rw y v
        | inr k ↦ rw k (write-IsSound normalize line_bytes f _ now _ s c (time-normal now n) v)
      ]

  tags-cases :
      (f : Faults) (now : String) (tags : List String) (s : SessionIndexStore)
      (found : Option IndexSessionEntry)
      → IsNormalTime normalize now
      → is_clean f.log_append ≡ true
      → IsSound normalize line_bytes s
      → IsSound normalize line_bytes ((tags_found line_bytes f now tags s found).1)
  tags-cases f now tags s none n c v = v
  tags-cases f now tags s (some base) n c v =
      write-IsSound normalize line_bytes f _ now _ s c (time-normal now n) v

  -- The store after an entry has gone from the log and from memory; the other files do not matter.
  gone-IsSound :
      (gone now : String) (sessions : Dict (Option SessionMetadata)) (seqs : Dict (Option ℕ))
      (s : SessionIndexStore)
      → IsSound normalize line_bytes s
      → IsSound normalize line_bytes (record s {
        entries = remove_memory_entry gone s.entries;
        disk = record (write_line (whole (delete_record gone now)) true s.disk) {
          sessions = sessions;
          last_seqs = seqs;
        };
      })
  unfolding load_entries_snapshot_and_log
  gone-IsSound gone now sessions seqs s v = record {
    unique = remove-Unique gone s.entries v.unique;
    descends = remove-Descends gone s.entries v.unique;
    normal = all-remove (is_normal normalize) gone s.entries v.normal;
    recovers = λ h.
        let r = remove-Recovers normalize s.disk s.entries gone now v.unique (v.recovers h) in
        record { ended = refl; map = r.map; loads = r.loads; same = r.same };
  }

  compensate-cases :
      (f : Faults) (a : Append) (now gone : String) (s : SessionIndexStore)
      → IsSound normalize line_bytes s
      → IsSound normalize line_bytes (
          (after_compensation line_bytes normalize f gone
            (append_log_record a (delete_record gone now) s)).1)
  unfolding append_log_record
  compensate-cases f appended now gone s v =
      gone-IsSound gone now s.disk.sessions s.disk.last_seqs s v
  compensate-cases f lost now gone s v =
      marked-IsSound normalize line_bytes f.marker_written s v.unique v.descends v.normal
  compensate-cases f partly now gone s v =
      marked-IsSound normalize line_bytes f.marker_written
        (with_log (part (delete_record gone now)) false s) v.unique v.descends v.normal
  compensate-cases f unended now gone s v =
      marked-IsSound normalize line_bytes f.marker_written
        (with_log (whole (delete_record gone now)) false s) v.unique v.descends v.normal
  compensate-cases f unsynced now gone s v =
      marked-IsSound normalize line_bytes f.marker_written
        (with_log (whole (delete_record gone now)) true s) v.unique v.descends v.normal

  create-cases :
      (f : Faults) (a : Append) (now : String) (e : IndexSessionEntry) (s : SessionIndexStore)
      → is_clean a ≡ true
      → is_normal normalize e ≡ true
      → IsSound normalize line_bytes s
      → IsSound normalize line_bytes (
          (after_create line_bytes normalize f now e
            (append_log_record a (upsert_record e now) s)).1)
  unfolding append_log_record maybe_compact
  create-cases f appended now e s c n v = elim (Bool-cases f.published) [
    | inl y ↦ rw y (
        replied-IsSound normalize line_bytes true _ (
          compact-IsSound normalize line_bytes f now _ (
            put-IsSound normalize line_bytes e now
              (Dict.insert e.session_id (some (from_index_entry e)) s.disk.sessions) s n v)))
    | inr k ↦ rw k (
        compensate-cases f f.compensation now e.session_id _
          (put-IsSound normalize line_bytes e now s.disk.sessions s n v))
  ]
  create-cases f lost now e s c n v = v
  create-cases f partly now e s c n v = cc
  create-cases f unended now e s c n v = cc
  create-cases f unsynced now e s c n v = cc

  create_normal-cases :
      (f : Faults) (now : String) (s : SessionIndexStore) (r : Result IndexSessionEntry)
      → is_clean f.log_append ≡ true
      → AllNormal r
      → IsSound normalize line_bytes s
      → IsSound normalize line_bytes ((create_normal line_bytes normalize f now s r).1)
  create_normal-cases f now s (err e) c n v = v
  create_normal-cases f now s (ok e) c n v = elim (Bool-cases (not f.staged)) [
    | inl y ↦ rw y v
    | inr k ↦ rw k (create-cases f f.log_append now e s c n v)
  ]

  restore-cases :
      (f : Faults) (a : Append) (now : String) (e : IndexSessionEntry) (s : SessionIndexStore)
      → is_normal normalize e ≡ true
      → IsSound normalize line_bytes s
      → IsSound normalize line_bytes
          ((after_restore line_bytes f e (append_log_record a (upsert_record e now) s)).1)
  unfolding append_log_record
  restore-cases f appended now e s n v =
      put-IsSound normalize line_bytes e now s.disk.sessions s n v
  restore-cases f lost now e s n v =
      marked-IsSound normalize line_bytes f.marker_written s v.unique v.descends v.normal
  restore-cases f partly now e s n v =
      marked-IsSound normalize line_bytes f.marker_written
        (with_log (part (upsert_record e now)) false s) v.unique v.descends v.normal
  restore-cases f unended now e s n v =
      marked-IsSound normalize line_bytes f.marker_written
        (with_log (whole (upsert_record e now)) false s) v.unique v.descends v.normal
  restore-cases f unsynced now e s n v =
      marked-IsSound normalize line_bytes f.marker_written
        (with_log (whole (upsert_record e now)) true s) v.unique v.descends v.normal

  -- The entry that a deletion may bring back is one of the store.
  AllFound : Option IndexSessionEntry → Type 0
  AllFound none = Unit {0}
  AllFound (some e) = is_normal normalize e ≡ true

  found_normal :
      (id : String) (xs : List IndexSessionEntry) (o : Option IndexSessionEntry)
      → all (is_normal normalize) xs ≡ true
      → find_entry id xs ≡ o
      → AllFound o
  unfolding find_entry AllFound
  found_normal id xs none n h = tt
  found_normal id xs (some e) n h =
      (find-all (λ x. str_eq x.session_id id) (is_normal normalize) xs e n h).0

  restore_found-cases :
      (f : Faults) (now : String) (o : Option IndexSessionEntry) (s : SessionIndexStore)
      → AllFound o
      → IsSound normalize line_bytes s
      → IsSound normalize line_bytes ((restore line_bytes f now o s).1)
  unfolding AllFound
  restore_found-cases f now none s n v = v
  restore_found-cases f now (some e) s n v = restore-cases f f.compensation now e s n v

  delete-cases :
      (f : Faults) (a : Append) (now gone : String) (o : Option IndexSessionEntry)
      (s : SessionIndexStore)
      → is_clean a ≡ true
      → AllFound o
      → IsSound normalize line_bytes s
      → IsSound normalize line_bytes (
          (after_delete line_bytes f now gone o (append_log_record a (delete_record gone now) s)).1)
  unfolding append_log_record maybe_compact
  delete-cases f appended now gone o s c n v = elim (Bool-cases f.removed) [
    | inl y ↦ rw y (
        replied-IsSound normalize line_bytes true _ (
          compact-IsSound normalize line_bytes f now _ (
            gone-IsSound gone now (Dict.remove gone s.disk.sessions)
              (Dict.remove gone s.disk.last_seqs) s v)))
    | inr k ↦ rw k (
        restore_found-cases f now o _ n
          (gone-IsSound gone now s.disk.sessions s.disk.last_seqs s v))
  ]
  delete-cases f lost now gone o s c n v = v
  delete-cases f partly now gone o s c n v = cc
  delete-cases f unended now gone o s c n v = cc
  delete-cases f unsynced now gone o s c n v = cc

  pub perform-IsSound :
      (f : Faults) (now : String) (call : Call) (s : SessionIndexStore)
      → IsNormalTime normalize now
      → is_clean f.log_append ≡ true
      → IsSound normalize line_bytes s
      → IsSound normalize line_bytes ((perform normalize line_bytes f now call s).1)
  unfolding create_session_index_entry upsert_session_index_entry touch_session_index_entry
      update_session_title update_session_title_if_empty update_session_tags
      delete_session_index_entry
  perform-IsSound f now (create entry) s n c v = writable-IsSound normalize line_bytes s _ v (
      create_normal-cases f now s _ c (normalized_normal entry (normalize entry.updated_at) refl) v)
  perform-IsSound f now (upsert entry) s n c v =
      writable-IsSound normalize line_bytes s _ v
        (upsert-cases f now s _ c (normalized_normal entry (normalize entry.updated_at) refl) v)
  perform-IsSound f now (touch id at seq preview) s n c v =
      writable-IsSound normalize line_bytes s _ v
        (touch-cases f now seq preview s at (normalize at) (find_entry id s.entries) refl c v)
  perform-IsSound f now (set_title id title) s n c v =
      writable-IsSound normalize line_bytes s _ v
        (title-cases f now title s (find_entry id s.entries) n c v)
  perform-IsSound f now (set_title_if_empty id title) s n c v =
      writable-IsSound normalize line_bytes s _ v
        (if_empty-cases f now title s (find_entry id s.entries) n c v)
  perform-IsSound f now (set_tags id tags) s n c v =
      writable-IsSound normalize line_bytes s _ v
        (tags-cases f now tags s (find_entry id s.entries) n c v)
  perform-IsSound f now (delete id) s n c v = writable-IsSound normalize line_bytes s _ v (
      delete-cases f f.log_append now id (find_entry id s.entries) s c
        (found_normal id s.entries (find_entry id s.entries) v.normal refl) v)

-- ===== src/Gateway/Index/Sound.antt =====
-- session_index_store.rs: whatever step of a call fails, a store that stays healthy can be read back from the disk.
use open_jax.Prelude.{
  ℕ, String, ◌≡◌, refl, Bool, true, false, not, Option, none, some, all, Bool-cases, inl, inr,
}
use open_jax.Prelude.Results.{ok, err}
use open_jax.Prelude.Dict.{Dict}
use open_jax.Gateway.Listing.Pages.{Descends}
use open_jax.Gateway.Index.Types.{IndexSessionEntry, LogLine, whole, SessionMetadata}
use open_jax.Gateway.Index.Entries.{upsert_memory_entry}
use open_jax.Gateway.Index.Disk.{load_entries_snapshot_and_log, write_line, upsert_record}
use open_jax.Gateway.Index.Order.{Unique, upsert-Unique, upsert-Descends, all-upsert}
use open_jax.Gateway.Index.Replay.{is_normal, Recovers, upsert-Recovers, snapshot-Recovers}
use open_jax.Gateway.Index.Again.{again-Recovers}
use open_jax.Gateway.Index.Store.{
  SessionIndexStore, Append, appended, lost, partly, unended, unsynced, LogRotation, rotated,
  restored, unsynced_rotation, broken, unsynced_rollback, Faults, Reply, with_log,
  append_log_record, mark_repair_required, rotate_log, snapshot_of, with_snapshot, needs_compaction,
  maybe_compact, replied, after_metadata, after_append, write_entry, is_healthy, when_writable,
}

-- The append did not fail after it had begun to write its line.
abbrev pub is_clean : Append → Bool
is_clean appended = true
is_clean lost = true
is_clean partly = false
is_clean unended = false
is_clean unsynced = false

module _ (normalize : String → Option String) (line_bytes : LogLine → ℕ) where
  -- The entries have different ids, stand newest first and have normal times; and if the store is healthy, the
  -- disk stands for them.
  pub record IsSound (s : SessionIndexStore) : Type 0 where
    pub unique : Unique s.entries
    pub descends : Descends s.entries
    pub normal : all (is_normal normalize) s.entries ≡ true
    pub recovers : is_healthy s.health ≡ true → Recovers normalize s.disk s.entries

  pub marked-IsSound :
      (written : Bool) (s : SessionIndexStore)
      → Unique s.entries
      → Descends s.entries
      → all (is_normal normalize) s.entries ≡ true
      → IsSound (mark_repair_required written s)
  marked-IsSound written s u d n = record {
    unique = u;
    descends = d;
    normal = n;
    recovers = λ e. cc;
  }

  rotate-IsSound :
      (r : LogRotation) (written : Bool) (now : String) (s : SessionIndexStore)
      → IsSound s
      → IsSound ((rotate_log r written (with_snapshot now s)).1)
  unfolding rotate_log
  rotate-IsSound rotated written now s v = record {
    unique = v.unique;
    descends = v.descends;
    normal = v.normal;
    recovers =
        λ e. snapshot-Recovers normalize s.disk (snapshot_of now s.entries) refl v.unique v.normal;
  }
  rotate-IsSound unsynced_rotation written now s v = record {
    unique = v.unique;
    descends = v.descends;
    normal = v.normal;
    recovers =
        λ e. snapshot-Recovers normalize s.disk (snapshot_of now s.entries) refl v.unique v.normal;
  }
  rotate-IsSound restored written now s v = record {
    unique = v.unique;
    descends = v.descends;
    normal = v.normal;
    recovers = λ e.
        again-Recovers normalize s.disk (snapshot_of now s.entries) refl v.unique v.normal
          (v.recovers e);
  }
  rotate-IsSound broken written now s v = record {
    unique = v.unique;
    descends = v.descends;
    normal = v.normal;
    recovers = λ e. cc;
  }
  rotate-IsSound unsynced_rollback written now s v = record {
    unique = v.unique;
    descends = v.descends;
    normal = v.normal;
    recovers = λ e. cc;
  }

  pub compact-IsSound :
      (f : Faults) (now : String) (s : SessionIndexStore)
      → IsSound s
      → IsSound ((maybe_compact line_bytes f now s).1)
  unfolding maybe_compact
  compact-IsSound f now s v = elim (Bool-cases (not f.log_measured)) [
    | inl y ↦ rw y v
    | inr n ↦ rw n elim (Bool-cases (not (needs_compaction line_bytes s.disk))) [
      | inl y ↦ rw y v
      | inr m ↦ rw m elim (Bool-cases (not f.snapshot_written)) [
        | inl y ↦ rw y v
        | inr k ↦ rw k (rotate-IsSound f.rotation f.marker_written now s v)
      ]
    ]
  ]

  pub replied-IsSound :
      (value : Bool) (reply : Reply) → IsSound reply.1 → IsSound ((replied value reply).1)
  replied-IsSound value (ok b, s) v = v
  replied-IsSound value (err e, s) v = v

  -- The store after an entry is in the log and in memory; the other files do not matter.
  pub put-IsSound :
      (e : IndexSessionEntry) (now : String) (sessions : Dict (Option SessionMetadata))
      (s : SessionIndexStore)
      → is_normal normalize e ≡ true
      → IsSound s
      → IsSound (record s {
        entries = upsert_memory_entry e s.entries;
        disk = record (write_line (whole (upsert_record e now)) true s.disk) {
          sessions = sessions;
        };
      })
  unfolding load_entries_snapshot_and_log
  put-IsSound e now sessions s n v = record {
    unique = upsert-Unique e s.entries v.unique;
    descends = upsert-Descends e s.entries v.unique;
    normal = all-upsert (is_normal normalize) e s.entries n v.normal;
    recovers = λ h.
        let r = upsert-Recovers normalize s.disk s.entries e now v.unique n (v.recovers h) in
        record { ended = refl; map = r.map; loads = r.loads; same = r.same };
  }

  metadata-IsSound :
      (f : Faults) (mutate : SessionMetadata → SessionMetadata) (now : String)
      (e : IndexSessionEntry) (o : Option (Option SessionMetadata)) (s : SessionIndexStore)
      → is_normal normalize e ≡ true
      → IsSound s
      → IsSound (
          (after_metadata line_bytes f mutate now e o
            (with_log (whole (upsert_record e now)) true s)).1)
  metadata-IsSound f mutate now e none s n v =
      marked-IsSound f.marker_written (with_log (whole (upsert_record e now)) true s) v.unique
        v.descends v.normal
  metadata-IsSound f mutate now e (some none) s n v =
      marked-IsSound f.marker_written (with_log (whole (upsert_record e now)) true s) v.unique
        v.descends v.normal
  metadata-IsSound f mutate now e (some (some m)) s n v =
      elim (Bool-cases (not f.metadata_written)) [
        | inl y ↦ rw y (
            marked-IsSound f.marker_written (with_log (whole (upsert_record e now)) true s) v.unique
              v.descends v.normal)
        | inr k ↦
            rw k (replied-IsSound true _ (compact-IsSound f now _ (put-IsSound e now _ s n v)))
      ]

  write-cases :
      (f : Faults) (a : Append) (mutate : SessionMetadata → SessionMetadata) (now : String)
      (e : IndexSessionEntry) (s : SessionIndexStore)
      → is_clean a ≡ true
      → is_normal normalize e ≡ true
      → IsSound s
      → IsSound
          ((after_append line_bytes f mutate now e (append_log_record a (upsert_record e now) s)).1)
  unfolding append_log_record
  write-cases f appended mutate now e s c n v = metadata-IsSound f mutate now e _ s n v
  write-cases f lost mutate now e s c n v = v
  write-cases f partly mutate now e s c n v = cc
  write-cases f unended mutate now e s c n v = cc
  write-cases f unsynced mutate now e s c n v = cc

  pub write-IsSound :
      (f : Faults) (mutate : SessionMetadata → SessionMetadata) (now : String)
      (e : IndexSessionEntry) (s : SessionIndexStore)
      → is_clean f.log_append ≡ true
      → is_normal normalize e ≡ true
      → IsSound s
      → IsSound ((write_entry line_bytes f mutate now e s).1)
  unfolding write_entry
  write-IsSound f mutate now e s c n v = write-cases f f.log_append mutate now e s c n v

  pub writable-IsSound :
      (s : SessionIndexStore) (reply : Reply)
      → IsSound s
      → IsSound reply.1
      → IsSound ((when_writable s reply).1)
  writable-IsSound s reply v w = elim (Bool-cases (is_healthy s.health)) [
    | inl y ↦ rw y w
    | inr n ↦ rw n v
  ]

-- ===== src/Gateway/Titles/Refresh/Writes.antt =====
-- session_index_store.rs: what a write of an entry that succeeds does to the entries in memory.
use open_jax.Prelude.{
  ℕ, String, ◌≡◌, refl, ap, ◌∙◌, Bool, true, false, not, Option, none, some, List, [], ◌∷◌, str_eq,
  str_eq_iff, str_eq_refl, if◌then◌else◌, Bool-cases, inl, inr,
}
use open_jax.Prelude.Results.{ok, err}
use open_jax.Gateway.Index.Types.{IndexSessionEntry, LogLine, SessionMetadata}
use open_jax.Gateway.Index.Entries.{find_entry, upsert_memory_entry}
use open_jax.Gateway.Index.Disk.{upsert_record}
use open_jax.Gateway.Index.Order.{Unique, upsert-Unique, find-upsert}
use open_jax.Gateway.Index.Store.{
  SessionIndexStore, Append, appended, lost, partly, unended, unsynced, LogRotation, rotated,
  restored, unsynced_rotation, broken, unsynced_rollback, Faults, Reply, append_log_record,
  rotate_log, needs_compaction, maybe_compact, replied, after_metadata, after_append, write_entry,
  with_snapshot,
}

-- The entries are those of before, but that the one of this session is now this.
pub record HasEntry (session_id : String) (e : IndexSessionEntry)
    (before after : List IndexSessionEntry) : Type 0 where
  pub unique : Unique after
  pub found : find_entry session_id after ≡ some e
  pub others :
      (id : String) → str_eq session_id id ≡ false → find_entry id after ≡ find_entry id before

pub upsert-HasEntry :
    (session_id : String) (e : IndexSessionEntry) (xs : List IndexSessionEntry)
    → Unique xs
    → e.session_id ≡ session_id
    → HasEntry session_id e xs (upsert_memory_entry e xs)
upsert-HasEntry session_id e xs u s = record {
  unique = upsert-Unique e xs u;
  found =
      find-upsert session_id e xs u
      ∙ ap (λ b. if b then some e else find_entry session_id xs)
          (ap (λ i. str_eq i session_id) s ∙ str_eq_refl session_id);
  others = λ id n.
      find-upsert id e xs u
      ∙ ap (λ b. if b then some e else find_entry id xs) (ap (λ i. str_eq i id) s ∙ n);
}

pub found_id :
    (id : String) (xs : List IndexSessionEntry) (e : IndexSessionEntry)
    → find_entry id xs ≡ some e
    → e.session_id ≡ id
unfolding find_entry
found_id id [] e h = cc
found_id id (x ∷ xs) e h = elim (Bool-cases (str_eq x.session_id id)) [
  | inl y ↦ let k = rw y at h in cc (k, (str_eq_iff x.session_id id).0 y)
  | inr n ↦ let k = rw n at h in found_id id xs e k
]

rotate-entries :
    (r : LogRotation) (written : Bool) (s : SessionIndexStore)
    → ((rotate_log r written s).1).entries ≡ s.entries
unfolding rotate_log
rotate-entries rotated written s = refl
rotate-entries restored written s = refl
rotate-entries unsynced_rotation written s = refl
rotate-entries broken written s = refl
rotate-entries unsynced_rollback written s = refl

replied-entries :
    (value : Bool) (reply : Reply) → ((replied value reply).1).entries ≡ (reply.1).entries
replied-entries value (ok b, s) = refl
replied-entries value (err e, s) = refl

module _ (line_bytes : LogLine → ℕ) where
  compact-entries :
      (f : Faults) (now : String) (s : SessionIndexStore)
      → ((maybe_compact line_bytes f now s).1).entries ≡ s.entries
  unfolding maybe_compact
  compact-entries f now s = elim (Bool-cases (not f.log_measured)) [
    | inl y ↦ rw y refl
    | inr n ↦ rw n elim (Bool-cases (not (needs_compaction line_bytes s.disk))) [
      | inl y ↦ rw y refl
      | inr m ↦ rw m elim (Bool-cases (not f.snapshot_written)) [
        | inl y ↦ rw y refl
        | inr k ↦ rw k (rotate-entries f.rotation f.marker_written (with_snapshot now s))
      ]
    ]
  ]

  metadata-entries :
      (f : Faults) (mutate : SessionMetadata → SessionMetadata) (now : String)
      (e : IndexSessionEntry) (o : Option (Option SessionMetadata)) (s : SessionIndexStore)
      (b : Bool)
      → (after_metadata line_bytes f mutate now e o s).0 ≡ ok b
      → ((after_metadata line_bytes f mutate now e o s).1).entries ≡ upsert_memory_entry e s.entries
  metadata-entries f mutate now e none s b h = cc
  metadata-entries f mutate now e (some none) s b h = cc
  metadata-entries f mutate now e (some (some m)) s b h =
      elim (Bool-cases (not f.metadata_written)) [
        | inl y ↦ let k = rw y at h in cc
        | inr n ↦ rw n (replied-entries true _ ∙ compact-entries f now _)
      ]

  append-entries :
      (f : Faults) (a : Append) (mutate : SessionMetadata → SessionMetadata) (now : String)
      (e : IndexSessionEntry) (s : SessionIndexStore) (b : Bool)
      → (after_append line_bytes f mutate now e (append_log_record a (upsert_record e now) s)).0
        ≡ ok b
      → ((after_append line_bytes f mutate now e (append_log_record a (upsert_record e now) s)).1
        ).entries
        ≡ upsert_memory_entry e s.entries
  unfolding append_log_record
  append-entries f appended mutate now e s b h = metadata-entries f mutate now e _ _ b h
  append-entries f lost mutate now e s b h = cc
  append-entries f partly mutate now e s b h = cc
  append-entries f unended mutate now e s b h = cc
  append-entries f unsynced mutate now e s b h = cc

  pub write-entries :
      (f : Faults) (mutate : SessionMetadata → SessionMetadata) (now : String)
      (e : IndexSessionEntry) (s : SessionIndexStore) (b : Bool)
      → (write_entry line_bytes f mutate now e s).0 ≡ ok b
      → ((write_entry line_bytes f mutate now e s).1).entries ≡ upsert_memory_entry e s.entries
  unfolding write_entry
  write-entries f mutate now e s b h = append-entries f f.log_append mutate now e s b h

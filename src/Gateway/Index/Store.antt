-- ===== src/Gateway/Index/Store.antt =====
-- session_index_store.rs: the state of the index, and the steps that its calls share, with the ways in which they
-- fail. The write lock makes the calls a sequence. The time of a call comes with it.
use open_jax.Prelude.{
  ℕ, ◌+◌, ◌-◌, String, Bool, true, false, ◌&&◌, ◌||◌, not, Option, none, some, List, [], ◌∷◌,
  length, ltb, if◌then◌else◌,
}
use open_jax.Prelude.Results.{Result, ok, err}
use open_jax.Prelude.Dict
use open_jax.Prelude.Dict.{Dict}
use open_jax.Gateway.Index.Types.{
  IndexSessionEntry, SessionIndexSnapshot, SessionIndexLogRecord, LogLine, whole, part,
  SessionMetadata,
}
use open_jax.Gateway.Index.Entries.{upsert_memory_entry}
use open_jax.Gateway.Index.Disk.{Disk, write_line, upsert_record}

pub data IndexHealth : Type 0 where
  healthy repair_required : IndexHealth

pub record SessionIndexStore : Type 0 where
  pub entries : List IndexSessionEntry
  pub health : IndexHealth
  pub disk : Disk

-- How an append ends: with success, before anything is written, inside the line, before its newline, or before the
-- sync.
pub data Append : Type 0 where
  appended lost partly unended unsynced : Append

-- How `rotate_log_tmp_bak` ends: with an empty log; with the log as it was; with an empty log, but an error; with
-- the rollback failed, and no log or an empty one; or with the log as it was, but the rollback not synced.
pub data LogRotation : Type 0 where
  rotated restored unsynced_rotation broken unsynced_rollback : LogRotation

-- How the steps of a call end. A file that is replaced although its directory is not synced counts as not written.
pub record Faults : Type 0 where
  pub staged : Bool
  pub log_append : Append
  pub published : Bool
  pub compensation : Append
  pub metadata_written : Bool
  pub removed : Bool
  pub marker_written : Bool
  pub log_measured : Bool
  pub snapshot_written : Bool
  pub rotation : LogRotation

abbrev pub Reply : Type 0
Reply = Result Bool × SessionIndexStore

abbrev pub with_log : LogLine → Bool → SessionIndexStore → SessionIndexStore
with_log l ends s = record s { disk = write_line l ends s.disk }

unfoldable pub append_log_record :
    Append → SessionIndexLogRecord → SessionIndexStore → Result Bool × SessionIndexStore
append_log_record appended r s = (ok true, with_log (whole r) true s)
append_log_record lost r s = (err "write index log", s)
append_log_record partly r s = (err "write index log", with_log (part r) false s)
append_log_record unended r s = (err "write index log newline", with_log (whole r) false s)
append_log_record unsynced r s = (err "sync index log", with_log (whole r) true s)

-- The health is set before the marker is written.
abbrev pub mark_repair_required : Bool → SessionIndexStore → SessionIndexStore
mark_repair_required written s = record s {
  health = repair_required;
  disk = record s.disk { repair_marker = written || s.disk.repair_marker };
}

unfoldable pub rotate_log : LogRotation → Bool → SessionIndexStore → Reply
rotate_log rotated marker_written s =
    (ok true, record s { disk = record s.disk { log = []; log_ended = true } })
rotate_log restored marker_written s = (err "compact failed but rollback succeeded", s)
rotate_log unsynced_rotation marker_written s =
    (err "sync parent dir", record s { disk = record s.disk { log = []; log_ended = true } })
rotate_log broken marker_written s = (
  err "index_repair_required",
  mark_repair_required marker_written
      (record s { disk = record s.disk { log = []; log_ended = true } }),
)
rotate_log unsynced_rollback marker_written s =
    (err "index_repair_required", mark_repair_required marker_written s)

abbrev pub snapshot_of : String → List IndexSessionEntry → SessionIndexSnapshot
snapshot_of now entries = record { schema_version = 1; updated_at = now; sessions = entries }

abbrev pub with_snapshot : String → SessionIndexStore → SessionIndexStore
with_snapshot now s = record s {
  disk = record s.disk { snapshot = some (some (snapshot_of now s.entries)) };
}

-- The end of a call that succeeds with a value, after its compaction.
abbrev pub replied : Bool → Reply → Reply
replied value (ok b, s) = (ok value, s)
replied value (err e, s) = (err e, s)

-- `write_session_metadata`
abbrev pub mutated :
    (SessionMetadata → SessionMetadata)
    → String
    → Option SessionMetadata
    → SessionIndexStore
    → SessionIndexStore
mutated mutate session_id none s = s
mutated mutate session_id (some metadata) s = record s {
  disk = record s.disk {
    sessions = Dict.insert session_id (some (mutate metadata)) s.disk.sessions;
  };
}

abbrev pub is_healthy : IndexHealth → Bool
is_healthy healthy = true
is_healthy repair_required = false

-- `ensure_writable`, then the call.
abbrev pub when_writable : SessionIndexStore → Reply → Reply
when_writable s reply = if is_healthy s.health then reply else (err "index_repair_required", s)

-- The size of a line in bytes, without its newline.
module _ (line_bytes : LogLine → ℕ) where
  unfoldable pub log_bytes : List LogLine → ℕ
  log_bytes [] = 0
  log_bytes (r ∷ rs) = line_bytes r + 1 + log_bytes rs

  abbrev pub log_size : Disk → ℕ
  log_size disk = if disk.log_ended then log_bytes disk.log else log_bytes disk.log - 1

  abbrev pub needs_compaction : Disk → Bool
  needs_compaction disk = not (ltb (log_size disk) 4194304 && ltb (length disk.log) 1000)

  unfoldable pub maybe_compact : Faults → String → SessionIndexStore → Reply
  unfolding log_bytes rotate_log
  maybe_compact f now s =
      if not f.log_measured
      then (err "read log metadata", s)
      else if not (needs_compaction s.disk)
      then (ok true, s)
      else if not f.snapshot_written
      then (err "write index snapshot", s)
      else rotate_log f.rotation f.marker_written (with_snapshot now s)

  abbrev pub after_metadata :
      Faults
      → (SessionMetadata → SessionMetadata)
      → String
      → IndexSessionEntry
      → Option (Option SessionMetadata)
      → SessionIndexStore
      → Reply
  after_metadata f mutate now entry none s = (
    err "index_repair_required: metadata update failed after log append",
    mark_repair_required f.marker_written s,
  )
  after_metadata f mutate now entry (some none) s = (
    err "index_repair_required: metadata update failed after log append",
    mark_repair_required f.marker_written s,
  )
  after_metadata f mutate now entry (some (some metadata)) s =
      let written = mutated mutate entry.session_id (some metadata) s in
      if not f.metadata_written
      then (
        err "index_repair_required: metadata update failed after log append",
        mark_repair_required f.marker_written s,
      )
      else replied true (
          maybe_compact f now
            (record written { entries = upsert_memory_entry entry written.entries }))

  abbrev pub after_append :
      Faults → (SessionMetadata → SessionMetadata) → String → IndexSessionEntry → Reply → Reply
  after_append f mutate now entry (err e, s) = (err e, s)
  after_append f mutate now entry (ok b, s) =
      after_metadata f mutate now entry (Dict.get entry.session_id s.disk.sessions) s

  -- The common end of the four updates of a session: log, metadata, memory, compaction.
  unfoldable pub write_entry :
      Faults
      → (SessionMetadata → SessionMetadata)
      → String
      → IndexSessionEntry
      → SessionIndexStore
      → Reply
  unfolding append_log_record maybe_compact
  write_entry f mutate now entry s =
      after_append f mutate now entry (append_log_record f.log_append (upsert_record entry now) s)

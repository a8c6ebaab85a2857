-- ===== src/Gateway/Index/Startup.antt =====
-- session_index_store.rs: the start of the index from what is on disk. The files can be read and written; that a
-- file, a line or a time cannot be parsed is modelled. The staging directories are not.
use open_jax.Prelude.{
  ℕ, String, Bool, true, false, not, Option, none, some, List, [], ◌∷◌, ◌++◌, map, is_some,
  if◌then◌else◌,
}
use open_jax.Prelude.Results.{Result, ok, err, ◌>>=◌}
use open_jax.Prelude.Dict
use open_jax.Prelude.Dict.{Dict}
use open_jax.Gateway.Index.Types.{IndexSessionEntry, upsert_session, whole}
use open_jax.Gateway.Index.Entries.{sort_entries_desc}
use open_jax.Gateway.Index.Disk.{
  Disk, write_line, delete_record, load_entries_snapshot_and_log, scan_sessions_metadata,
}
use open_jax.Gateway.Index.Store.{healthy, SessionIndexStore, snapshot_of}
pub mod Maps
pub mod Scans
pub mod Audit
pub mod Starts

abbrev pub values : Dict IndexSessionEntry → List IndexSessionEntry
values m = map (λ p. p.1) m

-- The map of the entries, and the disk that it was read from.
abbrev pub Loaded : Type 0
Loaded = Dict IndexSessionEntry × Disk

-- A session without a directory is deleted, in the map and in the log.
abbrev pub audit_indexed : String → Bool → String → Loaded → Loaded
audit_indexed now true session_id l = l
audit_indexed now false session_id (m, disk) =
    (Dict.remove session_id m, write_line (whole (delete_record session_id now)) true disk)

abbrev pub delete_missing : String → Dict IndexSessionEntry → List String → Loaded → Loaded
delete_missing now on_disk [] l = l
delete_missing now on_disk (session_id ∷ ids) l =
    delete_missing now on_disk ids
      (audit_indexed now (is_some (Dict.get session_id on_disk)) session_id l)

-- A directory without an entry gets one, in the map and in the log.
abbrev pub audit_on_disk : String → Bool → String → IndexSessionEntry → Loaded → Loaded
audit_on_disk now true session_id entry l = l
audit_on_disk now false session_id entry (m, disk) = (
  Dict.insert session_id entry m,
  write_line
      (whole
        (record { op = upsert_session; session_id = session_id; ts = now; payload = some entry }))
      true disk,
)

abbrev pub add_missing : String → Dict IndexSessionEntry → Loaded → Loaded
add_missing now [] l = l
add_missing now ((session_id, entry) ∷ on_disk) l =
    add_missing now on_disk
      (audit_on_disk now (is_some (Dict.get session_id l.0)) session_id entry l)

abbrev pub audited : String → Dict IndexSessionEntry → Loaded → Loaded
audited now on_disk l = add_missing now on_disk (delete_missing now on_disk (map (λ p. p.0) l.0) l)

-- The marker is removed, and the entries are sorted.
abbrev pub opened : Loaded → SessionIndexStore
opened (m, disk) = record {
  entries = sort_entries_desc (values m);
  health = healthy;
  disk = record disk { repair_marker = false };
}

module _ (normalize : String → Option String) where
  abbrev pub rebuild_from_sessions_dir : String → Disk → Result Loaded
  rebuild_from_sessions_dir now disk = do
    found ← scan_sessions_metadata normalize disk.sessions disk.last_seqs
    ok (
      found,
      record disk {
        snapshot = some (some (snapshot_of now (values found)));
        log = [];
        log_ended = true;
      },
    )

  abbrev pub loaded_or_rebuilt : String → Disk → Result (Dict IndexSessionEntry) → Result Loaded
  loaded_or_rebuilt now disk (ok m) = ok (m, disk)
  loaded_or_rebuilt now disk (err e) = rebuild_from_sessions_dir now disk

  abbrev pub load : String → Disk → Result Loaded
  load now disk =
      if disk.repair_marker
      then rebuild_from_sessions_dir now disk
      else loaded_or_rebuilt now disk (load_entries_snapshot_and_log normalize disk)

  abbrev pub startup_audit : String → Loaded → Result Loaded
  startup_audit now l = do
    on_disk ← scan_sessions_metadata normalize (l.1).sessions (l.1).last_seqs
    ok (audited now on_disk l)

  unfoldable pub load_with_recovery_or_fail : String → Disk → Result SessionIndexStore
  unfolding scan_sessions_metadata load_entries_snapshot_and_log sort_entries_desc Dict.get
      Dict.remove Dict.insert
  load_with_recovery_or_fail now disk = do
    loaded ← load now disk
    l ← startup_audit now loaded
    ok (opened l)

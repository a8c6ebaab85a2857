-- ===== src/Gateway/Index/Disk.antt =====
-- session_index_store.rs: what the index keeps on disk, and its reading. A timestamp is put in its normal form by the
-- `time` crate, which is a parameter. A log that is absent is an empty one.
use open_jax.Prelude.{
  ℕ, String, Bool, Option, none, some, List, [], ◌∷◌, ◌++◌, false, true, str_eq, ◌==◌,
  if◌then◌else◌,
}
use open_jax.Prelude.Results.{Result, ok, err, ◌>>=◌}
use open_jax.Prelude.Dict
use open_jax.Prelude.Dict.{Dict}
use open_jax.Gateway.Index.Types.{
  IndexSessionEntry, SessionIndexSnapshot, IndexLogOpKind, upsert_session, delete_session,
  SessionIndexLogRecord, LogLine, whole, part, joined, SessionMetadata,
}

-- `log_ended` says that the last line of the log, if there is one, has its newline. `sessions` holds the metadata file
-- of each session directory that has one, `last_seqs` the number in its manifest, if it has one. Where a file is there
-- but cannot be parsed, the inner option is `none`.
pub record Disk : Type 0 where
  pub snapshot : Option (Option SessionIndexSnapshot)
  pub log : List LogLine
  pub log_ended : Bool
  pub repair_marker : Bool
  pub sessions : Dict (Option SessionMetadata)
  pub last_seqs : Dict (Option ℕ)

-- A line at the end of the log; without the last newline it runs into the last line.
abbrev pub run_on : LogLine → List LogLine → List LogLine
run_on l [] = l ∷ []
run_on l (k ∷ []) = joined k l ∷ []
run_on l (k ∷ j ∷ lines) = k ∷ run_on l (j ∷ lines)

abbrev pub add_line : Bool → LogLine → List LogLine → List LogLine
add_line true l lines = lines ++ l ∷ []
add_line false l lines = run_on l lines

-- The bytes of a line, and then perhaps its newline.
abbrev pub write_line : LogLine → Bool → Disk → Disk
write_line l ends disk = record disk { log = add_line disk.log_ended l disk.log; log_ended = ends }

abbrev pub upsert_record : IndexSessionEntry → String → SessionIndexLogRecord
upsert_record entry ts = record {
  op = upsert_session;
  session_id = entry.session_id;
  ts = ts;
  payload = some entry;
}

abbrev pub delete_record : String → String → SessionIndexLogRecord
delete_record session_id ts = record {
  op = delete_session;
  session_id = session_id;
  ts = ts;
  payload = none;
}

-- `read_last_event_seq`
abbrev pub read_last_event_seq : Option (Option ℕ) → Result ℕ
read_last_event_seq none = ok 0
read_last_event_seq (some none) = err "parse manifest"
read_last_event_seq (some (some seq)) = ok seq

-- The entry that the metadata and the manifest of a directory give; the preview is lost.
abbrev pub scanned_entry : SessionMetadata → ℕ → IndexSessionEntry
scanned_entry metadata last_event_seq = record {
  session_id = metadata.session_id;
  title = metadata.title;
  created_at = metadata.created_at;
  updated_at = metadata.updated_at;
  last_event_seq = last_event_seq;
  last_preview = "";
}

module _ (normalize : String → Option String) where
  abbrev pub with_updated_at : IndexSessionEntry → Option String → Result IndexSessionEntry
  with_updated_at entry none = err "parse rfc3339 timestamp"
  with_updated_at entry (some updated_at) = ok (record entry { updated_at = updated_at })

  -- `IndexSessionEntry { updated_at: normalize_rfc3339_utc_millis(..)?, ..entry }`
  abbrev pub normalized : IndexSessionEntry → Result IndexSessionEntry
  normalized entry = with_updated_at entry (normalize entry.updated_at)

  -- The entries of a snapshot by their ids; of two with one id the later one stays.
  unfoldable pub collect_entries :
      List IndexSessionEntry → Dict IndexSessionEntry → Result (Dict IndexSessionEntry)
  collect_entries [] m = ok m
  collect_entries (e ∷ es) m = do
    entry ← normalized e
    collect_entries es (Dict.insert entry.session_id entry m)

  unfoldable pub load_snapshot :
      Option (Option SessionIndexSnapshot) → Result (Dict IndexSessionEntry)
  unfolding collect_entries
  load_snapshot none = ok []
  load_snapshot (some none) = err "parse index snapshot"
  load_snapshot (some (some snapshot)) =
      let loaded = collect_entries snapshot.sessions [] in
      if snapshot.schema_version == 1 then loaded else err "invalid index snapshot schema_version"

  abbrev pub apply_payload :
      Option IndexSessionEntry → Dict IndexSessionEntry → Result (Dict IndexSessionEntry)
  apply_payload none m = err "missing upsert payload in index log"
  apply_payload (some payload) m = do
    entry ← normalized payload
    ok (Dict.insert entry.session_id entry m)

  abbrev pub apply_op :
      IndexLogOpKind
      → SessionIndexLogRecord
      → Dict IndexSessionEntry
      → Result (Dict IndexSessionEntry)
  apply_op upsert_session record_ m = apply_payload record_.payload m
  apply_op delete_session record_ m = ok (Dict.remove record_.session_id m)

  abbrev pub apply_line : LogLine → Dict IndexSessionEntry → Result (Dict IndexSessionEntry)
  apply_line (whole r) m = apply_op r.op r m
  apply_line (part r) m = err "parse index log line"
  apply_line (joined k l) m = err "parse index log line"

  unfoldable pub replay_log :
      List LogLine → Dict IndexSessionEntry → Result (Dict IndexSessionEntry)
  replay_log [] m = ok m
  replay_log (l ∷ ls) m = do next ← apply_line l m; replay_log ls next

  unfoldable pub load_entries_snapshot_and_log : Disk → Result (Dict IndexSessionEntry)
  unfolding load_snapshot replay_log
  load_entries_snapshot_and_log disk = do
    loaded ← load_snapshot disk.snapshot
    replay_log disk.log loaded

  abbrev pub scanned : SessionMetadata → ℕ → Result IndexSessionEntry
  scanned metadata last_event_seq = normalized (scanned_entry metadata last_event_seq)

  -- One directory, before the entries of the others.
  abbrev pub scan_directory :
      String
      → Option SessionMetadata
      → Result ℕ
      → Result (Dict IndexSessionEntry)
      → Result (Dict IndexSessionEntry)
  scan_directory name none seq rest = err "parse session metadata"
  scan_directory name (some metadata) seq rest =
      if str_eq metadata.session_id name
      then (seq >>= λ last_event_seq. scanned metadata last_event_seq >>= λ entry.
          rest >>= λ found. ok (Dict.insert name entry found))
      else rest

  unfoldable pub scan_sessions_metadata :
      Dict (Option SessionMetadata) → Dict (Option ℕ) → Result (Dict IndexSessionEntry)
  unfolding Dict.get
  scan_sessions_metadata [] last_seqs = ok []
  scan_sessions_metadata ((name, metadata) ∷ sessions) last_seqs =
      scan_directory name metadata (read_last_event_seq (Dict.get name last_seqs))
        (scan_sessions_metadata sessions last_seqs)

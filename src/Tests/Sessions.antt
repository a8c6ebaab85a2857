-- ===== src/Tests/Sessions.antt =====
-- Runs of the theorems on what the gateway keeps on disk.
use open_jax.Prelude.{
  arith, ◌==◌, suc, ℕ, String, ◌≡◌, refl, true, false, not, Option, none, some, List, [], ◌∷◌,
  length, str_eq, if◌then◌else◌,
}
use open_jax.Prelude.Results.{is_ok, ok}
use open_jax.Prelude.Dict
use open_jax.Prelude.Dict.{Dict}
use open_jax.Prelude.Texts.{Text, codes, trim}
use open_jax.Prelude.Json.{object, no_fields, field, string}
use open_jax.Gateway.Transcript.{TranscriptRecord}
use open_jax.Gateway.Titles.{new_cache}
use open_jax.Gateway.Titles.Derive.{derive_session_title}
use open_jax.Gateway.Titles.Refresh.{
  build_auto_title_dedupe_key, ask_cache, refresh_session_index_from_event,
}
use open_jax.Gateway.Titles.Refresh.Entries.{new_title}
use open_jax.Gateway.Index.Types.{
  IndexSessionEntry, upsert_session, LogLine, whole, from_index_entry,
}
use open_jax.Gateway.Index.Entries.{upsert_memory_entry}
use open_jax.Gateway.Index.Disk.{Disk}
use open_jax.Gateway.Index.Store.{
  healthy, SessionIndexStore, appended, lost, rotated, Faults, is_healthy,
}
use open_jax.Gateway.Index.Updates.{
  create_session_index_entry, update_session_title, delete_session_index_entry,
}
use open_jax.Gateway.Index.Replay.{Recovers}
use open_jax.Gateway.Index.Sound.{IsSound}
use open_jax.Gateway.Index.Startup.{load_with_recovery_or_fail}
use open_jax.Gateway.Index.Startup.Starts.{IsStarted, load-IsStarted, load_with_recovery-ok}
use open_jax.Gateway.Index.Calls.{Timed, create, set_title, delete, perform_all, AreOrderly}
use open_jax.Gateway.Index.Runs.{run-Recovers, collect_from, collect-run}

-- A time is any text but the empty one.
abbrev parsed : String → Option String
parsed t = if str_eq t "" then none else some t

parsed_again : (t u : String) → parsed t ≡ some u → parsed u ≡ some u
parsed_again t u h = ground arith

abbrev line_of : LogLine → ℕ
line_of r = 100

abbrev no_faults : Faults
no_faults = record {
  staged = true;
  log_append = appended;
  published = true;
  compensation = appended;
  metadata_written = true;
  removed = true;
  marker_written = true;
  log_measured = true;
  snapshot_written = true;
  rotation = rotated;
}

abbrev listed_entry : String → String → IndexSessionEntry
listed_entry session_id updated_at = record {
  session_id = session_id;
  title = none;
  created_at = "2026-01-01";
  updated_at = updated_at;
  last_event_seq = 0;
  last_preview = "";
}

abbrev empty_disk : Disk
empty_disk = record {
  snapshot = none;
  log = [];
  log_ended = true;
  repair_marker = false;
  sessions = [];
  last_seqs = [];
}

abbrev empty_store : SessionIndexStore
empty_store = record { entries = []; health = healthy; disk = empty_disk }

abbrev calls : List Timed
calls =
    record {
      faults = no_faults;
      now = "2026-01-02";
      call = create (listed_entry "s1" "2026-01-02");
    }
    ∷ record {
      faults = no_faults;
      now = "2026-01-03";
      call = create (listed_entry "s2" "2026-01-03");
    }
    ∷ record { faults = no_faults; now = "2026-01-04"; call = set_title "s1" (some "plan") }
    ∷ record {
      faults = record no_faults { removed = false };
      now = "2026-01-05";
      call = delete "s2";
    }
    ∷ record {
      faults = record no_faults { log_append = lost };
      now = "2026-01-06";
      call = delete "s1";
    }
    ∷ []

calls-AreOrderly : AreOrderly parsed calls
calls-AreOrderly =
    ((refl, refl), ((refl, refl), ((refl, refl), ((refl, refl), ((refl, refl), tt)))))

disk-load : load_with_recovery_or_fail parsed "2026-01-01" empty_disk ≡ ok empty_store
unfolding load_with_recovery_or_fail
disk-load = refl

empty_store-IsSound : IsSound parsed line_of empty_store
empty_store-IsSound =
    (load-IsStarted parsed line_of parsed_again "2026-01-01" empty_disk empty_store refl
      disk-load).sound

run-healthy : is_healthy (perform_all parsed line_of calls empty_store).health ≡ true
unfolding create_session_index_entry update_session_title delete_session_index_entry
    upsert_memory_entry Dict.get Dict.insert
run-healthy = refl

run-Recovers_example :
    Recovers parsed
      (perform_all parsed line_of calls empty_store).disk
      (perform_all parsed line_of calls empty_store).entries
run-Recovers_example =
    run-Recovers parsed line_of parsed_again calls empty_store calls-AreOrderly empty_store-IsSound
      run-healthy

collect-run_example :
    collect_from
      (not (is_healthy (perform_all parsed line_of calls empty_store).health))
      (suc (length (perform_all parsed line_of calls empty_store).entries))
      1
      (perform_all parsed line_of calls empty_store).entries
      none
    ≡ (if is_healthy (perform_all parsed line_of calls empty_store).health
        then (perform_all parsed line_of calls empty_store).entries
        else [])
collect-run_example =
    collect-run parsed line_of parsed_again calls empty_store 1 calls-AreOrderly empty_store-IsSound
      (omega arith)

abbrev some_disk : Disk
some_disk = record empty_disk {
  log =
      whole (record { op = upsert_session; session_id = "s9"; ts = "2026-01-02"; payload = none })
      ∷ [];
  sessions =
      ("s1", some (from_index_entry (listed_entry "s1" "2026-01-02")))
      ∷ ("s2", some (from_index_entry (listed_entry "s3" "")))
      ∷ [];
}

abbrev some_store : SessionIndexStore
some_store = record {
  entries = listed_entry "s1" "2026-01-02" ∷ [];
  health = healthy;
  disk = record some_disk {
    snapshot = some (
        some record {
          schema_version = 1;
          updated_at = "2026-01-03";
          sessions = listed_entry "s1" "2026-01-02" ∷ [];
        });
    log = [];
  };
}

some_disk-load : load_with_recovery_or_fail parsed "2026-01-03" some_disk ≡ ok some_store
unfolding load_with_recovery_or_fail
some_disk-load = refl

load-IsStarted_example : IsStarted parsed line_of some_store
load-IsStarted_example =
    load-IsStarted parsed line_of parsed_again "2026-01-03" some_disk some_store refl some_disk-load

load_with_recovery-ok_example :
    is_ok (load_with_recovery_or_fail parsed "2026-01-03" some_disk) ≡ true
unfolding Dict.get
load_with_recovery-ok_example =
    load_with_recovery-ok parsed line_of parsed_again "2026-01-03" some_disk refl

abbrev user_message : TranscriptRecord
user_message = record {
  schema_version = 1;
  session_id = "s1";
  event_seq = 3;
  turn_seq = 1;
  turn_id = some "turn_1";
  event_type = "user_message";
  stream_source = "gateway";
  timestamp = "2026-01-04";
  payload = object (field "content" (string (codes "plan the work")) no_fields);
  request_id = "q1";
}

abbrev word_count : Text → ℕ
word_count words = length words

abbrev stored : Text → String
stored words = if length words == 0 then "" else "plan the work"

-- The title and the preview of the entry are those of the message.
refreshed-title :
    new_title stored none
      (ask_cache word_count stored line_of parsed
        (derive_session_title "user_message" user_message.payload)
        (build_auto_title_dedupe_key word_count stored user_message)
        5
        (new_cache 30000 10000)).0
      (derive_session_title "user_message" user_message.payload)
    ≡ some "plan the work"
unfolding refresh_session_index_from_event trim
refreshed-title = refl

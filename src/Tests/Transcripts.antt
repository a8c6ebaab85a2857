-- ===== src/Tests/Transcripts.antt =====
-- Runs of the theorems on the transcript of a session.
use open_jax.Prelude.{
  arith, ℕ, String, ◌≡◌, refl, true, none, some, List, [], ◌∷◌, map, Elem, here, there,
}
use open_jax.Prelude.Results.{ok}
use open_jax.Prelude.Json.{null}
use open_jax.Gateway.Transcript.{
  TranscriptRecord, TranscriptManifest, Line, whole, file, SessionDir, written, Ending, complete,
  unwritten, manifest_unwritten, AppendFaults, append, replay,
}
use open_jax.Gateway.Transcript.Numbers.{IsSound}
use open_jax.Gateway.Transcript.Appends.{rotates}
use open_jax.Gateway.Transcript.Replays.{all_files, drop_upto, replay-later_records}
use open_jax.Gateway.Transcript.Runs.{
  Attempt, append_all, acks, AreKept, IsRun, append_all-IsRun, replay-acked,
}

abbrev given : String → TranscriptRecord
given timestamp = record {
  schema_version = 0;
  session_id = "s1";
  event_seq = 0;
  turn_seq = 1;
  turn_id = none;
  event_type = "turn_started";
  stream_source = "model";
  timestamp = timestamp;
  payload = null;
  request_id = "q1";
}

abbrev numbered_record : ℕ → String → TranscriptRecord
numbered_record n timestamp = record (given timestamp) { schema_version = 1; event_seq = n }

abbrev ten : Line → ℕ
ten l = 10

abbrev empty_dir : SessionDir
empty_dir = record { manifest = none; segments = [] }

empty_dir-IsSound : IsSound "s1" [] empty_dir
empty_dir-IsSound = record {
  readable = refl;
  holds = record { ordered = refl; ends = refl; lines = refl; numbers = refl };
  last = refl;
  own = refl;
}

-- The other writes succeed.
abbrev ends : Ending → AppendFaults
ends ending = record {
  recovery = written;
  first_rotation = written;
  second_rotation = written;
  ending = ending;
}

-- Two records fit in a segment. The second append loses the manifest, the third is not written.
abbrev attempts : List Attempt
attempts =
    record { faults = ends complete; given = given "t1" }
    ∷ record { faults = ends manifest_unwritten; given = given "t2" }
    ∷ record { faults = ends unwritten; given = given "t3" }
    ∷ record { faults = ends complete; given = given "t4" }
    ∷ []

attempts-AreKept : AreKept ten 25 "s1" attempts empty_dir
unfolding append rotates
attempts-AreKept = (
  (refl, omega arith, refl),
  ((refl, omega arith, refl), ((refl, omega arith, refl), ((refl, omega arith, refl), tt))),
)

abbrev last_manifest : TranscriptManifest
last_manifest = record {
  schema_version = 1;
  session_id = "s1";
  last_event_seq = 3;
  last_turn_seq = 1;
  active_segment = 2;
  updated_at = "t4";
}

attempts-acks :
    acks ten 25 attempts empty_dir ≡ numbered_record 1 "t1" ∷ numbered_record 3 "t4" ∷ []
unfolding append
attempts-acks = refl

attempts-manifest : (append_all ten 25 attempts empty_dir).manifest ≡ some (some last_manifest)
unfolding append
attempts-manifest = refl

attempts-files : all_files (append_all ten 25 attempts empty_dir).segments ≡ true
unfolding append
attempts-files = refl

append_all-IsRun_example :
    IsRun "s1" [] (append_all ten 25 attempts empty_dir) (acks ten 25 attempts empty_dir)
append_all-IsRun_example =
    append_all-IsRun ten 25 "s1" attempts [] empty_dir empty_dir-IsSound attempts-AreKept
      (omega arith)

last-acked : Elem (numbered_record 3 "t4") (acks ten 25 attempts empty_dir)
unfolding append
last-acked = there (here refl)

replay-acked_example :
    (found : List TranscriptRecord) × (replay (some 1) (append_all ten 25 attempts empty_dir)
      ≡ ok found)
    × Elem (numbered_record 3 "t4") found
replay-acked_example =
    replay-acked ten 25 "s1" attempts [] empty_dir last_manifest (some 1) (numbered_record 3 "t4")
      empty_dir-IsSound attempts-AreKept (omega arith) attempts-manifest attempts-files last-acked
      (omega arith)

abbrev two_records : List TranscriptRecord
two_records = numbered_record 1 "t1" ∷ numbered_record 2 "t2" ∷ []

-- A directory where the manifest was lost after the second record.
abbrev behind_dir : SessionDir
behind_dir = record {
  manifest = some (
      some record {
        schema_version = 1;
        session_id = "s1";
        last_event_seq = 1;
        last_turn_seq = 1;
        active_segment = 1;
        updated_at = "t1";
      });
  segments = (1, file true (map whole two_records)) ∷ [];
}

behind_dir-IsSound : IsSound "s1" two_records behind_dir
behind_dir-IsSound = record {
  readable = refl;
  holds = record { ordered = refl; ends = refl; lines = refl; numbers = refl };
  last = refl;
  own = refl;
}

replay-later_records_example : replay (some 1) behind_dir ≡ ok (drop_upto (some 1) two_records)
replay-later_records_example =
    replay-later_records "s1" two_records behind_dir
      record {
        schema_version = 1;
        session_id = "s1";
        last_event_seq = 1;
        last_turn_seq = 1;
        active_segment = 1;
        updated_at = "t1";
      }
      (some 1) behind_dir-IsSound refl refl

-- A manifest that is lost together with a rotation by size: the next append gives the same number again.
abbrev lost_manifest : SessionDir
lost_manifest =
    (append ten 15 (ends manifest_unwritten) (given "t2")
      ((append ten 15 (ends complete) (given "t1") empty_dir).1)).1

number_twice :
    replay none ((append ten 15 (ends complete) (given "t3") lost_manifest).1)
    ≡ ok (numbered_record 1 "t1" ∷ numbered_record 2 "t2" ∷ numbered_record 2 "t3" ∷ [])
unfolding append replay
number_twice = refl

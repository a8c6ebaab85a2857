-- ===== src/Gateway/Transcript.antt =====
-- openjax-gateway/src/transcript/types.rs and store.rs: the transcript of a session, in numbered segment files. A
-- segment is known by the number in its file name, and the active segment of a manifest has such a name.
use open_jax.Prelude.{
  ℕ, ◌+◌, String, Bool, true, false, ◌&&◌, not, Option, none, some, List, [], ◌∷◌, ◌++◌, last?, ltb,
  str_eq, ◌==◌, if◌then◌else◌,
}
use open_jax.Prelude.Results.{Result, ok, err, ◌>>=◌}
use open_jax.Prelude.Words.{saturating_add, wrap64}
use open_jax.Prelude.Json.{Json}
pub mod Segments
pub mod Numbers
pub mod Opens
pub mod Rotates
pub mod Prepares
pub mod Appends
pub mod Replays
pub mod Runs
pub mod Sessions

pub record TranscriptRecord : Type 0 where
  pub schema_version : ℕ
  pub session_id : String
  pub event_seq : ℕ
  pub turn_seq : ℕ
  pub turn_id : Option String
  pub event_type : String
  pub stream_source : String
  pub timestamp : String
  pub payload : Json
  pub request_id : String

pub record TranscriptManifest : Type 0 where
  pub schema_version : ℕ
  pub session_id : String
  pub last_event_seq : ℕ
  pub last_turn_seq : ℕ
  pub active_segment : ℕ
  pub updated_at : String

abbrev pub new_empty : String → String → TranscriptManifest
new_empty session_id updated_at = record {
  schema_version = 1;
  session_id = session_id;
  last_event_seq = 0;
  last_turn_seq = 0;
  active_segment = 1;
  updated_at = updated_at;
}

-- A line that is not blank: a record, one whose newline is missing at the end of the file, or what is no record:
-- the part of one that was written, without a newline, or two that run into each other.
pub data Line : Type 0 where
  whole unended : TranscriptRecord → Line
  torn : Line

-- What has the name of a segment: a file, which can be written or only be read, or a directory.
pub data Segment : Type 0 where
  file : Bool → List Line → Segment
  directory : Segment

-- The segments stand in the order of their numbers, in which they are read. A manifest that is there but cannot be
-- parsed is `some none`.
pub record SessionDir : Type 0 where
  pub manifest : Option (Option TranscriptManifest)
  pub segments : List (ℕ × Segment)

abbrev pub find_segment : ℕ → List (ℕ × Segment) → Option Segment
find_segment n [] = none
find_segment n ((i, s) ∷ segments) = if i == n then some s else find_segment n segments

abbrev pub set_segment : ℕ → Segment → List (ℕ × Segment) → List (ℕ × Segment)
set_segment n new [] = (n, new) ∷ []
set_segment n new ((i, s) ∷ segments) =
    let rest = set_segment n new segments in
    if i == n
    then (n, new) ∷ segments
    else if ltb n i
    then (n, new) ∷ (i, s) ∷ segments
    else (i, s) ∷ rest

-- `read_segment_tail`
abbrev pub tail_of : Option Line → Result (Option TranscriptRecord)
tail_of none = ok none
tail_of (some (whole r)) = ok (some r)
tail_of (some (unended r)) = ok (some r)
tail_of (some torn) = err "parse transcript tail line"

abbrev pub read_segment_tail : Option Segment → Result (Option TranscriptRecord)
read_segment_tail none = ok none
read_segment_tail (some directory) = ok none
read_segment_tail (some (file writable lines)) = tail_of (last? lines)

-- A step on the manifest, and what it leaves on disk.
abbrev pub Step : Type 0
Step = Result TranscriptManifest × SessionDir

abbrev pub then_step {ℓ} :
    {A : Type ℓ}
    → Step
    → (TranscriptManifest → SessionDir → Result A × SessionDir)
    → Result A × SessionDir
then_step (ok manifest, dir) next = next manifest dir
then_step (err e, dir) next = (err e, dir)

abbrev pub write_manifest : TranscriptManifest → SessionDir → SessionDir
write_manifest manifest dir = record dir { manifest = some (some manifest) }

-- How the writing of a manifest ends: with success, before the file is opened, or after it was truncated.
pub data Saving : Type 0 where
  written unopened cut : Saving

-- `write_manifest`, by `fs::write`
abbrev pub save_manifest : Saving → TranscriptManifest → SessionDir → Step
save_manifest written manifest dir = (ok manifest, write_manifest manifest dir)
save_manifest unopened manifest dir = (err "write transcript manifest", dir)
save_manifest cut manifest dir =
    (err "write transcript manifest", record dir { manifest = some none })

abbrev pub recovered :
    Saving → TranscriptManifest → SessionDir → Result (Option TranscriptRecord) → Step
recovered saving manifest dir (err e) = (err e, dir)
recovered saving manifest dir (ok none) = (ok manifest, dir)
recovered saving manifest dir (ok (some tail)) =
    let next = record manifest {
      last_event_seq = tail.event_seq;
      last_turn_seq = tail.turn_seq;
      updated_at = tail.timestamp;
    } in
    if ltb manifest.last_event_seq tail.event_seq
    then save_manifest saving next dir
    else (ok manifest, dir)

unfoldable pub recover_manifest_from_tail_if_needed :
    Saving → TranscriptManifest → SessionDir → Step
recover_manifest_from_tail_if_needed saving manifest dir =
    recovered saving manifest dir
      (read_segment_tail (find_segment manifest.active_segment dir.segments))

-- Opening a segment to append, which makes it if it is absent.
abbrev pub open_append : ℕ → SessionDir → Option Segment → Option SessionDir
open_append n dir none = some (record dir { segments = set_segment n (file true []) dir.segments })
open_append n dir (some (file true lines)) = some dir
open_append n dir (some (file false lines)) = none
open_append n dir (some directory) = none

abbrev pub next_segment : ℕ → ℕ
next_segment index = wrap64 (index + 1)

abbrev pub reopened : TranscriptManifest → SessionDir → Option SessionDir → Step
reopened manifest dir none = (err "open rotated transcript segment", dir)
reopened manifest dir (some opened) = (ok manifest, opened)

abbrev pub opened_or_rotated : Saving → TranscriptManifest → SessionDir → Option SessionDir → Step
opened_or_rotated saving manifest dir (some opened) = (ok manifest, opened)
opened_or_rotated saving manifest dir none =
    then_step
      (save_manifest saving
        (record manifest { active_segment = next_segment manifest.active_segment }) dir)
      (λ rotated saved. reopened rotated saved (
        open_append rotated.active_segment saved
          (find_segment rotated.active_segment saved.segments)))

unfoldable pub rotate_if_active_segment_unwritable : Saving → TranscriptManifest → SessionDir → Step
rotate_if_active_segment_unwritable saving manifest dir =
    opened_or_rotated saving manifest dir
      (open_append manifest.active_segment dir (find_segment manifest.active_segment dir.segments))

-- How the writing of a record ends: with success, or with an error before anything is written, inside the line,
-- before its newline, or in the writing of the manifest.
pub data Ending : Type 0 where
  complete unwritten torn_line unended_line manifest_unwritten manifest_cut : Ending

-- How the steps of an append end.
pub record AppendFaults : Type 0 where
  pub recovery : Saving
  pub first_rotation : Saving
  pub second_rotation : Saving
  pub ending : Ending

-- A line at the end of a file runs into the last one if that has no newline.
abbrev pub add_line : List Line → Line → List Line
add_line [] line = line ∷ []
add_line (whole r ∷ []) line = whole r ∷ line ∷ []
add_line (unended r ∷ []) line = torn ∷ []
add_line (torn ∷ []) line = torn ∷ []
add_line (k ∷ j ∷ lines) line = k ∷ add_line (j ∷ lines) line

abbrev pub append_line : ℕ → Line → Option Segment → SessionDir → SessionDir
append_line n line (some (file writable lines)) dir = record dir {
  segments = set_segment n (file writable (add_line lines line)) dir.segments;
}
append_line n line none dir = dir
append_line n line (some directory) dir = dir

abbrev pub with_line : ℕ → Line → SessionDir → SessionDir
with_line n line dir = append_line n line (find_segment n dir.segments) dir

abbrev pub write_record :
    Ending
    → TranscriptRecord
    → TranscriptManifest
    → SessionDir
    → Result TranscriptRecord × SessionDir
write_record unwritten r manifest dir = (err "write transcript record", dir)
write_record torn_line r manifest dir =
    (err "write transcript record", with_line manifest.active_segment torn dir)
write_record unended_line r manifest dir =
    (err "write transcript record newline", with_line manifest.active_segment (unended r) dir)
write_record manifest_cut r manifest dir = (
  err "write transcript manifest",
  record (with_line manifest.active_segment (whole r) dir) { manifest = some none },
)
write_record manifest_unwritten r manifest dir =
    (err "write transcript manifest", with_line manifest.active_segment (whole r) dir)
write_record complete r manifest dir = (
  ok r,
  write_manifest
      (record manifest {
        last_event_seq = r.event_seq;
        last_turn_seq = r.turn_seq;
        updated_at = r.timestamp;
      })
      (with_line manifest.active_segment (whole r) dir),
)

abbrev pub started : Option (Option TranscriptManifest) → TranscriptManifest → SessionDir → Step
started none new dir = (ok new, dir)
started (some none) new dir = (err "parse transcript manifest", dir)
started (some (some manifest)) new dir = (ok manifest, dir)

abbrev pub next_record : TranscriptRecord → TranscriptManifest → TranscriptRecord
next_record r manifest = record r {
  schema_version = 1;
  event_seq = saturating_add manifest.last_event_seq 1;
  session_id = manifest.session_id;
}

abbrev pub rotated_by_size : Bool → TranscriptManifest → TranscriptManifest
rotated_by_size false manifest = manifest
rotated_by_size true manifest = record manifest {
  active_segment = next_segment manifest.active_segment;
}

-- The manifest is read or made, recovered from the tail, and its active segment is opened.
unfoldable pub prepared : AppendFaults → TranscriptRecord → SessionDir → Step
unfolding recover_manifest_from_tail_if_needed rotate_if_active_segment_unwritable
prepared f r dir =
    then_step (started dir.manifest (new_empty r.session_id r.timestamp) dir) (λ manifest found.
      then_step (recover_manifest_from_tail_if_needed f.recovery manifest found)
        (rotate_if_active_segment_unwritable f.first_rotation))

-- The length of a record's line in bytes, with its end.
module _ (line_bytes : Line → ℕ) where
  abbrev pub bytes_of : List Line → ℕ
  bytes_of [] = 0
  bytes_of (l ∷ lines) = line_bytes l + bytes_of lines

  abbrev pub is_full : ℕ → ℕ → Option Segment → Bool
  is_full segment_max_bytes new_bytes (some (file writable lines)) =
      ltb segment_max_bytes (saturating_add (bytes_of lines) new_bytes)
  is_full segment_max_bytes new_bytes (some directory) = false
  is_full segment_max_bytes new_bytes none = false

  unfoldable pub should_rotate_by_size :
      ℕ → TranscriptManifest → TranscriptRecord → SessionDir → Bool
  should_rotate_by_size segment_max_bytes manifest r dir =
      is_full segment_max_bytes (line_bytes (whole r))
        (find_segment manifest.active_segment dir.segments)

  unfoldable pub append :
      ℕ → AppendFaults → TranscriptRecord → SessionDir → Result TranscriptRecord × SessionDir
  unfolding prepared rotate_if_active_segment_unwritable should_rotate_by_size
  append segment_max_bytes f r dir = then_step (prepared f r dir) (λ manifest opened.
      then_step
        (rotate_if_active_segment_unwritable f.second_rotation
          (rotated_by_size
            (should_rotate_by_size segment_max_bytes manifest (next_record r manifest) opened)
            manifest)
          opened)
        (write_record f.ending (next_record r manifest)))

abbrev pub is_later : Option ℕ → TranscriptRecord → Bool
is_later none r = true
is_later (some seq) r = ltb seq r.event_seq

-- The records of the session among the lines that come after a number; a torn line is an error.
abbrev pub read_lines : String → Option ℕ → List Line → Result (List TranscriptRecord)
read_lines session_id after [] = ok []
read_lines session_id after (torn ∷ lines) = err "parse transcript line"
read_lines session_id after (whole r ∷ lines) = read_lines session_id after lines >>= λ rest.
    ok (if str_eq r.session_id session_id && is_later after r then r ∷ rest else rest)
read_lines session_id after (unended r ∷ lines) = read_lines session_id after lines >>= λ rest.
    ok (if str_eq r.session_id session_id && is_later after r then r ∷ rest else rest)

-- A directory can be opened like a file, but not read.
abbrev pub read_segments : String → Option ℕ → List (ℕ × Segment) → Result (List TranscriptRecord)
read_segments session_id after [] = ok []
read_segments session_id after ((i, directory) ∷ segments) = err "read transcript line"
read_segments session_id after ((i, file writable lines) ∷ segments) =
    read_lines session_id after lines >>= λ here.
    read_segments session_id after segments >>= λ rest. ok (here ++ rest)

abbrev pub replay_of :
    Option ℕ
    → List (ℕ × Segment)
    → Option (Option TranscriptManifest)
    → Result (List TranscriptRecord)
replay_of after segments none = ok []
replay_of after segments (some none) = err "parse transcript manifest"
replay_of after segments (some (some manifest)) = read_segments manifest.session_id after segments

unfoldable pub replay : Option ℕ → SessionDir → Result (List TranscriptRecord)
replay after dir = replay_of after dir.segments dir.manifest

-- ===== src/Gateway/Transcript/Rotates.antt =====
-- transcript/store.rs: the rotation away from a segment that cannot be written keeps the records.
use open_jax.Prelude.{
  ℕ, ◌+◌, ◌<◌, ◌≤◌, String, ◌≡◌, refl, ap, ◌∙◌, true, false, Option, none, some, List, [], arith,
}
use open_jax.Prelude.Results.{ok, err}
use open_jax.Prelude.Words.{u64_mod, wrap64_small}
use open_jax.Gateway.Transcript.{
  TranscriptRecord, TranscriptManifest, Segment, file, directory, SessionDir, find_segment,
  set_segment, Step, write_manifest, Saving, written, unopened, cut, open_append, next_segment,
  reopened, opened_or_rotated, rotate_if_active_segment_unwritable,
}
use open_jax.Gateway.Transcript.Segments.{find-set}
use open_jax.Gateway.Transcript.Numbers.{saved, Holds, IsSound, IsReady}
use open_jax.Gateway.Transcript.Opens.{
  ends-leb, create-Holds, create-IsSound, write-IsSound, is_open, is_uncut,
}

-- What a rotation makes of a manifest and a directory: its segment can be written, and it is the one that is saved,
-- if it was before.
pub record IsOpened (session_id : String) (rs : List TranscriptRecord) (m0 : TranscriptManifest)
    (dir0 : SessionDir) (m : TranscriptManifest) (dir : SessionDir) : Type 0 where
  pub ready : IsReady session_id rs m dir
  pub writable_now : is_open (find_segment m.active_segment dir.segments) ≡ true
  pub kept :
      (saved session_id dir0).active_segment ≡ m0.active_segment
      → (saved session_id dir).active_segment ≡ m.active_segment
  pub near : m.active_segment ≤ m0.active_segment + 1

abbrev pub StepOpened :
    String → List TranscriptRecord → TranscriptManifest → SessionDir → Step → Type 0
StepOpened session_id rs m0 dir0 (ok m, dir) = IsOpened session_id rs m0 dir0 m dir
StepOpened session_id rs m0 dir0 (err e, dir) = IsSound session_id rs dir

pub find-set_here :
    (n : ℕ) (new : Segment) (segments : List (ℕ × Segment))
    → find_segment n (set_segment n new segments) ≡ some new
find-set_here n new segments = find-set n n new segments ∙ ground arith

create-IsReady :
    (session_id : String) (rs : List TranscriptRecord) (m : TranscriptManifest) (dir : SessionDir)
    → find_segment m.active_segment dir.segments ≡ none
    → IsReady session_id rs m dir
    → IsReady session_id rs m
        (record dir { segments = set_segment m.active_segment (file true []) dir.segments })
create-IsReady session_id rs m dir e v = record {
  holds =
      create-Holds session_id rs m.active_segment m.active_segment dir.segments (ground arith) e
        v.holds;
  last = v.last;
  own = v.own;
  sound = create-IsSound session_id rs m.active_segment dir v.behind e v.sound;
  behind = v.behind;
}

-- The manifest moves on to the next segment, and is written.
next-IsReady :
    (session_id : String) (rs : List TranscriptRecord) (m : TranscriptManifest) (dir : SessionDir)
    → m.active_segment + 1 < u64_mod
    → IsReady session_id rs m dir
    → IsReady session_id rs
        (record m { active_segment = next_segment m.active_segment })
        (write_manifest (record m { active_segment = next_segment m.active_segment }) dir)
next-IsReady session_id rs m dir b v =
    let moved = record m { active_segment = next_segment m.active_segment } in
    let held : Holds session_id rs (next_segment m.active_segment) dir.segments = record {
      ordered = v.holds.ordered;
      ends =
          ends-leb m.active_segment (next_segment m.active_segment) dir.segments
            (ground (arith, wrap64_small (m.active_segment + 1) b)) v.holds.ends;
      lines = v.holds.lines;
      numbers = v.holds.numbers;
    } in
    record {
      holds = held;
      last = v.last;
      own = v.own;
      sound = write-IsSound session_id rs moved dir held v.last v.own;
      behind = ground arith;
    }

reopened-cases :
    (session_id : String) (rs : List TranscriptRecord) (m0 m : TranscriptManifest)
    (dir0 dir : SessionDir) (o : Option Segment)
    → find_segment m.active_segment dir.segments ≡ o
    → (saved session_id dir).active_segment ≡ m.active_segment
    → m.active_segment ≤ m0.active_segment + 1
    → IsReady session_id rs m dir
    → StepOpened session_id rs m0 dir0 (reopened m dir (open_append m.active_segment dir o))
reopened-cases session_id rs m0 m dir0 dir none e a b v = record {
  ready = create-IsReady session_id rs m dir e v;
  writable_now = ap is_open (find-set_here m.active_segment (file true []) dir.segments);
  kept = λ k. a;
  near = b;
}
reopened-cases session_id rs m0 m dir0 dir (some (file true lines)) e a b v = record {
  ready = v;
  writable_now = ap is_open e;
  kept = λ k. a;
  near = b;
}
reopened-cases session_id rs m0 m dir0 dir (some (file false lines)) e a b v = v.sound
reopened-cases session_id rs m0 m dir0 dir (some directory) e a b v = v.sound

rotated-cases :
    (session_id : String) (rs : List TranscriptRecord) (saving : Saving) (m : TranscriptManifest)
    (dir : SessionDir)
    → is_uncut saving ≡ true
    → m.active_segment + 1 < u64_mod
    → IsReady session_id rs m dir
    → StepOpened session_id rs m dir (opened_or_rotated saving m dir none)
rotated-cases session_id rs unopened m dir u b v = v.sound
rotated-cases session_id rs cut m dir u b v = cc
rotated-cases session_id rs written m dir u b v =
    let moved = record m { active_segment = next_segment m.active_segment } in
    reopened-cases session_id rs m moved dir (write_manifest moved dir)
      (find_segment moved.active_segment dir.segments) refl refl
      (omega (arith, wrap64_small (m.active_segment + 1) b)) (next-IsReady session_id rs m dir b v)

opened-cases :
    (session_id : String) (rs : List TranscriptRecord) (saving : Saving) (m : TranscriptManifest)
    (dir : SessionDir) (o : Option Segment)
    → find_segment m.active_segment dir.segments ≡ o
    → is_uncut saving ≡ true
    → m.active_segment + 1 < u64_mod
    → IsReady session_id rs m dir
    → StepOpened session_id rs m dir
        (opened_or_rotated saving m dir (open_append m.active_segment dir o))
opened-cases session_id rs saving m dir none e u b v = record {
  ready = create-IsReady session_id rs m dir e v;
  writable_now = ap is_open (find-set_here m.active_segment (file true []) dir.segments);
  kept = λ k. k;
  near = omega arith;
}
opened-cases session_id rs saving m dir (some (file true lines)) e u b v = record {
  ready = v;
  writable_now = ap is_open e;
  kept = λ k. k;
  near = omega arith;
}
opened-cases session_id rs saving m dir (some (file false lines)) e u b v =
    rotated-cases session_id rs saving m dir u b v
opened-cases session_id rs saving m dir (some directory) e u b v =
    rotated-cases session_id rs saving m dir u b v

pub rotate-StepOpened :
    (session_id : String) (rs : List TranscriptRecord) (saving : Saving) (m : TranscriptManifest)
    (dir : SessionDir)
    → is_uncut saving ≡ true
    → m.active_segment + 1 < u64_mod
    → IsReady session_id rs m dir
    → StepOpened session_id rs m dir (rotate_if_active_segment_unwritable saving m dir)
unfolding rotate_if_active_segment_unwritable
rotate-StepOpened session_id rs saving m dir u b v =
    opened-cases session_id rs saving m dir (find_segment m.active_segment dir.segments) refl u b v

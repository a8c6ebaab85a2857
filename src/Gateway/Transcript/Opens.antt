-- ===== src/Gateway/Transcript/Opens.antt =====
-- transcript/store.rs: the recovery of the manifest and the opening of the active segment keep the records.
use open_jax.Prelude.{
  ℕ, max, String, ◌≡◌, refl, sym, ap, ◌∙◌, subst, Bool, true, false, Option, none, some, List, [],
  ◌∷◌, ◌++◌, length, last?, ltb, leb, ◌==◌, arith, Bool-cases, inl, inr, append_nil,
}
use open_jax.Prelude.Results.{ok, err}
use open_jax.Gateway.Transcript.{
  TranscriptRecord, TranscriptManifest, Line, whole, unended, torn, Segment, file, directory,
  SessionDir, find_segment, set_segment, tail_of, read_segment_tail, Step, write_manifest, Saving,
  written, unopened, cut, save_manifest, recovered, recover_manifest_from_tail_if_needed,
}
use open_jax.Gateway.Transcript.Segments.{
  lines_of, ends_at, lines_at, ascends-set, find-set, lines-set,
}
use open_jax.Gateway.Transcript.Numbers.{
  line_seq, tail_seq, tail_seq-le, saved, Holds, IsSound, IsReady,
}

ends-create :
    (n k : ℕ) (segments : List (ℕ × Segment))
    → ends_at n segments ≡ true
    → ends_at n (set_segment k (file true []) segments) ≡ true
ends-create n k [] e = ground arith
ends-create n k ((i, s) ∷ segments) e = ground (arith, ends-create n k segments)

pub ends-leb :
    (n k : ℕ) (segments : List (ℕ × Segment))
    → leb n k ≡ true
    → ends_at n segments ≡ true
    → ends_at k segments ≡ true
ends-leb n k [] h e = refl
ends-leb n k ((i, s) ∷ segments) h e = ground (arith, ends-leb n k segments)

-- A new segment after those that hold lines.
pub create-Holds :
    (session_id : String) (rs : List TranscriptRecord) (n k : ℕ) (segments : List (ℕ × Segment))
    → leb n k ≡ true
    → find_segment k segments ≡ none
    → Holds session_id rs n segments
    → Holds session_id rs n (set_segment k (file true []) segments)
create-Holds session_id rs n k segments le none_at v = record {
  ordered = ascends-set k (file true []) segments v.ordered;
  ends = ends-create n k segments v.ends;
  lines =
      lines-set k (file true []) [] segments v.ordered (ends-leb n k segments le v.ends)
        (ap (λ o. lines_at o ++ []) (sym none_at))
      ∙ append_nil (lines_of segments)
      ∙ v.lines;
  numbers = v.numbers;
}

create-tail_seq :
    (n k : ℕ) (segments : List (ℕ × Segment))
    → find_segment k segments ≡ none
    → tail_seq n (set_segment k (file true []) segments) ≡ tail_seq n segments
create-tail_seq n k segments none_at =
    ap (λ o. line_seq (last? (lines_at o))) (find-set k n (file true []) segments)
    ∙ elim (Bool-cases (k == n)) [
      | inl y ↦ rw y (
          ap (λ o. line_seq (last? (lines_at o)))
            (sym none_at ∙ ap (λ j. find_segment j segments) (ground (arith, y))))
      | inr z ↦ rw z refl
    ]

pub create-IsSound :
    (session_id : String) (rs : List TranscriptRecord) (k : ℕ) (dir : SessionDir)
    → leb (saved session_id dir).active_segment k ≡ true
    → find_segment k dir.segments ≡ none
    → IsSound session_id rs dir
    → IsSound session_id rs (record dir { segments = set_segment k (file true []) dir.segments })
create-IsSound session_id rs k dir le none_at v = record {
  readable = v.readable;
  holds = create-Holds session_id rs _ k dir.segments le none_at v.holds;
  last =
      ap (max (saved session_id dir).last_event_seq) (create-tail_seq _ k dir.segments none_at)
      ∙ v.last;
  own = v.own;
}

-- A manifest that is up to date can be written.
pub write-IsSound :
    (session_id : String) (rs : List TranscriptRecord) (m : TranscriptManifest) (dir : SessionDir)
    → Holds session_id rs m.active_segment dir.segments
    → m.last_event_seq ≡ length rs
    → m.session_id ≡ session_id
    → IsSound session_id rs (write_manifest m dir)
write-IsSound session_id rs m dir v l o = record {
  readable = refl;
  holds = v;
  last =
      omega (arith, l, tail_seq-le m.active_segment session_id rs dir.segments v.numbers v.lines);
  own = o;
}

-- The segment can be written.
abbrev pub is_open : Option Segment → Bool
is_open none = false
is_open (some (file writable lines)) = writable
is_open (some directory) = false

-- After a step that succeeds the manifest is up to date, and its active segment is this one, which is saved.
abbrev pub StepReady : String → List TranscriptRecord → ℕ → Step → Type 0
StepReady session_id rs n (ok m, dir) =
    (IsReady session_id rs m dir × ((saved session_id dir).active_segment ≡ m.active_segment))
    × (m.active_segment ≡ n)
StepReady session_id rs n (err e, dir) = IsSound session_id rs dir

-- What the manifest and the tail say, of a manifest that agrees with the one that is saved.
tail-level :
    (session_id : String) (rs : List TranscriptRecord) (m : TranscriptManifest) (dir : SessionDir)
    (tail : Option Line)
    → last? (lines_at (find_segment m.active_segment dir.segments)) ≡ tail
    → (saved session_id dir).active_segment ≡ m.active_segment
    → (saved session_id dir).last_event_seq ≡ m.last_event_seq
    → IsSound session_id rs dir
    → max m.last_event_seq (line_seq tail) ≡ length rs
tail-level session_id rs m dir tail t a l v =
    ap (λ o. max m.last_event_seq (line_seq o)) (sym t)
    ∙ ap (λ n. max m.last_event_seq (tail_seq n dir.segments)) (sym a)
    ∙ ap (λ n. max n (tail_seq (saved session_id dir).active_segment dir.segments)) (sym l)
    ∙ v.last

held-at :
    (session_id : String) (rs : List TranscriptRecord) (m : TranscriptManifest) (dir : SessionDir)
    → (saved session_id dir).active_segment ≡ m.active_segment
    → IsSound session_id rs dir
    → Holds session_id rs m.active_segment dir.segments
held-at session_id rs m dir a v = subst (λ n. Holds session_id rs n dir.segments) a v.holds

same-StepReady :
    (session_id : String) (rs : List TranscriptRecord) (m : TranscriptManifest) (dir : SessionDir)
    → (saved session_id dir).active_segment ≡ m.active_segment
    → m.last_event_seq ≡ length rs
    → m.session_id ≡ session_id
    → IsSound session_id rs dir
    → StepReady session_id rs m.active_segment (ok m, dir)
same-StepReady session_id rs m dir a l o v = (
  (
    record {
      holds = held-at session_id rs m dir a v;
      last = l;
      own = o;
      sound = v;
      behind = ground (arith, a);
    },
    a,
  ),
  refl,
)

written-StepReady :
    (session_id : String) (rs : List TranscriptRecord) (m : TranscriptManifest) (dir : SessionDir)
    → Holds session_id rs m.active_segment dir.segments
    → m.last_event_seq ≡ length rs
    → m.session_id ≡ session_id
    → StepReady session_id rs m.active_segment (ok m, write_manifest m dir)
written-StepReady session_id rs m dir v l o = (
  (
    record {
      holds = v;
      last = l;
      own = o;
      sound = write-IsSound session_id rs m dir v l o;
      behind = ground arith;
    },
    refl,
  ),
  refl,
)

-- The writing of a manifest does not truncate it and then fail.
abbrev pub is_uncut : Saving → Bool
is_uncut written = true
is_uncut unopened = true
is_uncut cut = false

saved-StepReady :
    (session_id : String) (rs : List TranscriptRecord) (saving : Saving) (m : TranscriptManifest)
    (dir : SessionDir)
    → is_uncut saving ≡ true
    → Holds session_id rs m.active_segment dir.segments
    → m.last_event_seq ≡ length rs
    → m.session_id ≡ session_id
    → IsSound session_id rs dir
    → StepReady session_id rs m.active_segment (save_manifest saving m dir)
saved-StepReady session_id rs written m dir c h l o v = written-StepReady session_id rs m dir h l o
saved-StepReady session_id rs unopened m dir c h l o v = v
saved-StepReady session_id rs cut m dir c h l o v = cc

tail-StepReady :
    (session_id : String) (rs : List TranscriptRecord) (saving : Saving) (m : TranscriptManifest)
    (dir : SessionDir) (r : TranscriptRecord)
    → is_uncut saving ≡ true
    → max m.last_event_seq r.event_seq ≡ length rs
    → (saved session_id dir).active_segment ≡ m.active_segment
    → m.session_id ≡ session_id
    → IsSound session_id rs dir
    → StepReady session_id rs m.active_segment (recovered saving m dir (ok (some r)))
tail-StepReady session_id rs saving m dir r c level a o v =
    elim (Bool-cases (ltb m.last_event_seq r.event_seq)) [
      | inl y ↦ rw y (
          saved-StepReady session_id rs saving
            (record m {
              last_event_seq = r.event_seq;
              last_turn_seq = r.turn_seq;
              updated_at = r.timestamp;
            })
            dir c (held-at session_id rs m dir a v) (ground (arith, level)) o v)
      | inr n ↦ rw n (same-StepReady session_id rs m dir a (ground (arith, level)) o v)
    ]

recovered-StepReady :
    (session_id : String) (rs : List TranscriptRecord) (saving : Saving) (m : TranscriptManifest)
    (dir : SessionDir) (tail : Option Line)
    → is_uncut saving ≡ true
    → last? (lines_at (find_segment m.active_segment dir.segments)) ≡ tail
    → (saved session_id dir).active_segment ≡ m.active_segment
    → (saved session_id dir).last_event_seq ≡ m.last_event_seq
    → m.session_id ≡ session_id
    → IsSound session_id rs dir
    → StepReady session_id rs m.active_segment (recovered saving m dir (tail_of tail))
recovered-StepReady session_id rs saving m dir none c t a l o v =
    same-StepReady session_id rs m dir a
      (omega (arith, tail-level session_id rs m dir none t a l v)) o v
recovered-StepReady session_id rs saving m dir (some torn) c t a l o v = v
recovered-StepReady session_id rs saving m dir (some (whole r)) c t a l o v =
    tail-StepReady session_id rs saving m dir r c
      (tail-level session_id rs m dir (some (whole r)) t a l v) a o v
recovered-StepReady session_id rs saving m dir (some (unended r)) c t a l o v =
    tail-StepReady session_id rs saving m dir r c
      (tail-level session_id rs m dir (some (unended r)) t a l v) a o v

read-lines_at : (o : Option Segment) → read_segment_tail o ≡ tail_of (last? (lines_at o))
read-lines_at none = refl
read-lines_at (some directory) = refl
read-lines_at (some (file writable lines)) = refl

pub recover-StepReady :
    (session_id : String) (rs : List TranscriptRecord) (saving : Saving) (m : TranscriptManifest)
    (dir : SessionDir)
    → is_uncut saving ≡ true
    → (saved session_id dir).active_segment ≡ m.active_segment
    → (saved session_id dir).last_event_seq ≡ m.last_event_seq
    → m.session_id ≡ session_id
    → IsSound session_id rs dir
    → StepReady session_id rs m.active_segment (recover_manifest_from_tail_if_needed saving m dir)
unfolding recover_manifest_from_tail_if_needed
recover-StepReady session_id rs saving m dir c a l o v =
    rw (read-lines_at (find_segment m.active_segment dir.segments)) (
      recovered-StepReady session_id rs saving m dir
        (last? (lines_at (find_segment m.active_segment dir.segments))) c refl a l o v)

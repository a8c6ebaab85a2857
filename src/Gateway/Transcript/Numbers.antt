-- ===== src/Gateway/Transcript/Numbers.antt =====
-- transcript/store.rs: the numbers of the records, and what the manifest says of them.
use open_jax.Prelude.{
  ℕ, ◌+◌, ◌≤◌, max, String, ◌≡◌, refl, ap, ◌∙◌, Bool, true, false, ◌&&◌, Option, none, some, List,
  [], ◌∷◌, ◌++◌, all, map, length, last?, leb, str_eq, str_eq_refl, ◌==◌, arith, Bool-cases, inl,
  inr,
}
use open_jax.Gateway.Transcript.{
  TranscriptRecord, TranscriptManifest, new_empty, Line, whole, unended, torn, Segment, SessionDir,
  find_segment,
}
use open_jax.Gateway.Transcript.Segments.{lines_in, lines_of, ascends, ends_at, lines_at}

-- Records of a session with the numbers from this one on.
abbrev pub numbered : ℕ → String → List TranscriptRecord → Bool
numbered n session_id [] = true
numbered n session_id (r ∷ rs) =
    (r.event_seq == n) && str_eq r.session_id session_id && numbered (n + 1) session_id rs

pub numbered-snoc :
    (n : ℕ) (session_id : String) (rs : List TranscriptRecord) (r : TranscriptRecord)
    → numbered n session_id rs ≡ true
    → r.event_seq ≡ n + length rs
    → r.session_id ≡ session_id
    → numbered n session_id (rs ++ r ∷ []) ≡ true
numbered-snoc n session_id [] r h e s = rw s ground (arith, e, str_eq_refl session_id)
numbered-snoc n session_id (q ∷ rs) r h e s =
    ground (arith, numbered-snoc (n + 1) session_id rs r, e, s)

-- The line is a record with a number up to this one.
abbrev pub is_upto : ℕ → Line → Bool
is_upto n torn = false
is_upto n (unended r) = false
is_upto n (whole r) = leb r.event_seq n

abbrev pub last_is : (Line → Bool) → Option Line → Bool
last_is p none = true
last_is p (some l) = p l

numbered-upto :
    (k n : ℕ) (session_id : String) (rs : List TranscriptRecord)
    → numbered k session_id rs ≡ true
    → k + length rs ≤ n + 1
    → all (is_upto n) (map whole rs) ≡ true
numbered-upto k n session_id [] h e = refl
numbered-upto k n session_id (r ∷ rs) h e = ground (arith, numbered-upto (k + 1) n session_id rs, e)

all-lines_at :
    (p : Line → Bool) (n : ℕ) (segments : List (ℕ × Segment))
    → all p (lines_of segments) ≡ true
    → all p (lines_at (find_segment n segments)) ≡ true
all-lines_at p n [] h = refl
all-lines_at p n ((i, s) ∷ segments) h = elim (Bool-cases (i == n)) [
  | inl y ↦ rw y (all_front (lines_in s) h)
  | inr z ↦ rw z (all-lines_at p n segments (all_back (lines_in s) h))
]
  where
    all_front : (ls : List Line) → all p (ls ++ lines_of segments) ≡ true → all p ls ≡ true
    all_front [] h = refl
    all_front (l ∷ ls) h = ground (arith, all_front ls)

    all_back :
        (ls : List Line) → all p (ls ++ lines_of segments) ≡ true → all p (lines_of segments) ≡ true
    all_back [] h = h
    all_back (l ∷ ls) h = all_back ls (ground arith)

all-last : (p : Line → Bool) (ls : List Line) → all p ls ≡ true → last_is p (last? ls) ≡ true
all-last p [] h = refl
all-last p (l ∷ []) h = ground arith
all-last p (l ∷ m ∷ ls) h = all-last p (m ∷ ls) (ground arith)

-- The last line of any segment is a record with a number up to that of the last record.
pub tail-upto :
    (n : ℕ) (session_id : String) (rs : List TranscriptRecord) (segments : List (ℕ × Segment))
    → numbered 1 session_id rs ≡ true
    → lines_of segments ≡ map whole rs
    → last_is (is_upto (length rs)) (last? (lines_at (find_segment n segments))) ≡ true
tail-upto n session_id rs segments h e =
    all-last (is_upto (length rs)) (lines_at (find_segment n segments)) (
      all-lines_at (is_upto (length rs)) n segments (
        ap (all (is_upto (length rs))) e
        ∙ numbered-upto 1 (length rs) session_id rs h (omega arith)))

abbrev pub line_seq : Option Line → ℕ
line_seq none = 0
line_seq (some torn) = 0
line_seq (some (whole r)) = r.event_seq
line_seq (some (unended r)) = r.event_seq

-- The number of the last record in a segment.
abbrev pub tail_seq : ℕ → List (ℕ × Segment) → ℕ
tail_seq n segments = line_seq (last? (lines_at (find_segment n segments)))

pub tail_seq-le :
    (n : ℕ) (session_id : String) (rs : List TranscriptRecord) (segments : List (ℕ × Segment))
    → numbered 1 session_id rs ≡ true
    → lines_of segments ≡ map whole rs
    → tail_seq n segments ≤ length rs
tail_seq-le n session_id rs segments h e =
    go (last? (lines_at (find_segment n segments))) (tail-upto n session_id rs segments h e)
  where
    go : (o : Option Line) → last_is (is_upto (length rs)) o ≡ true → line_seq o ≤ length rs
    go none k = omega arith
    go (some torn) k = cc
    go (some (unended r)) k = cc
    go (some (whole r)) k = ground arith

abbrev pub is_whole : Line → Bool
is_whole (whole r) = true
is_whole (unended r) = false
is_whole torn = false

all-whole : (rs : List TranscriptRecord) → all is_whole (map whole rs) ≡ true
all-whole [] = refl
all-whole (r ∷ rs) = all-whole rs

-- Every segment holds whole lines.
pub held-whole :
    (n : ℕ) (rs : List TranscriptRecord) (segments : List (ℕ × Segment))
    → lines_of segments ≡ map whole rs
    → all is_whole (lines_at (find_segment n segments)) ≡ true
held-whole n rs segments e = all-lines_at is_whole n segments (ap (all is_whole) e ∙ all-whole rs)

abbrev pub manifest_or :
    Option (Option TranscriptManifest) → TranscriptManifest → TranscriptManifest
manifest_or none new = new
manifest_or (some none) new = new
manifest_or (some (some manifest)) new = manifest

-- There is no manifest, or one that can be parsed.
abbrev pub is_readable : Option (Option TranscriptManifest) → Bool
is_readable none = true
is_readable (some none) = false
is_readable (some (some manifest)) = true

-- The manifest on disk, or the one that an append starts with.
abbrev pub saved : String → SessionDir → TranscriptManifest
saved session_id dir = manifest_or dir.manifest (new_empty session_id "")

-- The records lie in the segments up to this one.
pub record Holds (session_id : String) (rs : List TranscriptRecord) (n : ℕ)
    (segments : List (ℕ × Segment)) : Type 0 where
  pub ordered : ascends segments ≡ true
  pub ends : ends_at n segments ≡ true
  pub lines : lines_of segments ≡ map whole rs
  pub numbers : numbered 1 session_id rs ≡ true

-- The records lie in the segments with the numbers 1, 2 and so on, the manifest can be parsed if there is one, and the manifest on disk, or else the last line of
-- its active segment, has the number of the last one.
pub record IsSound (session_id : String) (rs : List TranscriptRecord) (dir : SessionDir)
    : Type 0 where
  pub readable : is_readable dir.manifest ≡ true
  pub holds : Holds session_id rs (saved session_id dir).active_segment dir.segments
  pub last :
      max
        (saved session_id dir).last_event_seq
        (tail_seq (saved session_id dir).active_segment dir.segments)
      ≡ length rs
  pub own : (saved session_id dir).session_id ≡ session_id

-- A manifest in memory that is up to date.
pub record IsReady (session_id : String) (rs : List TranscriptRecord) (m : TranscriptManifest)
    (dir : SessionDir) : Type 0 where
  pub holds : Holds session_id rs m.active_segment dir.segments
  pub last : m.last_event_seq ≡ length rs
  pub own : m.session_id ≡ session_id
  pub sound : IsSound session_id rs dir
  pub behind : leb (saved session_id dir).active_segment m.active_segment ≡ true

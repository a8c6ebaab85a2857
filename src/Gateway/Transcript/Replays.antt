-- ===== src/Gateway/Transcript/Replays.antt =====
-- transcript/store.rs: what a replay of a directory gives.
use open_jax.Prelude.{
  ℕ, ◌+◌, ◌<◌, String, ◌≡◌, refl, sym, ap, ◌∙◌, Bool, true, false, ◌&&◌, Option, none, some, List,
  zero, suc, drop, [], ◌∷◌, ◌++◌, keep, map, str_eq, if◌then◌else◌, arith,
}
use open_jax.Prelude.Results.{Result, ok, err, ◌>>=◌}
use open_jax.Gateway.Transcript.{
  TranscriptRecord, TranscriptManifest, new_empty, Line, whole, unended, torn, Segment, file,
  directory, SessionDir, is_later, read_lines, read_segments, replay_of, replay,
}
use open_jax.Gateway.Transcript.Segments.{lines_of}
use open_jax.Gateway.Transcript.Numbers.{manifest_or, numbered, IsSound}

read-whole :
    (session_id : String) (after : Option ℕ) (n : ℕ) (rs : List TranscriptRecord)
    → numbered n session_id rs ≡ true
    → read_lines session_id after (map whole rs) ≡ ok (keep (is_later after) rs)
read-whole session_id after n [] h = refl
read-whole session_id after n (r ∷ rs) h =
    ap
      (λ x. x >>= λ rest.
        ok (if str_eq r.session_id session_id && is_later after r then r ∷ rest else rest))
      (read-whole session_id after (n + 1) rs (ground arith))
    ∙ ground arith

-- No segment is a directory.
abbrev pub all_files : List (ℕ × Segment) → Bool
all_files [] = true
all_files ((i, directory) ∷ segments) = false
all_files ((i, file writable lines) ∷ segments) = all_files segments

-- Reading line after line is reading one part after the other.
read_one :
    (c : Bool) (r : TranscriptRecord) (x y : Result (List TranscriptRecord))
    → ((x >>= λ a. y >>= λ b. ok (a ++ b)) >>= λ rest. ok (if c then r ∷ rest else rest))
      ≡ ((x >>= λ rest. ok (if c then r ∷ rest else rest)) >>= λ a. y >>= λ b. ok (a ++ b))
read_one true r (ok a) (ok b) = refl
read_one false r (ok a) (ok b) = refl
read_one c r (ok a) (err e) = refl
read_one c r (err e) y = refl

read_none : (y : Result (List TranscriptRecord)) → y ≡ (y >>= λ b. ok b)
read_none (ok b) = refl
read_none (err e) = refl

read_lines-append :
    (session_id : String) (after : Option ℕ) (ls ks : List Line)
    → read_lines session_id after (ls ++ ks) ≡ (
        read_lines session_id after ls >>= λ a. read_lines session_id after ks >>= λ b. ok (a ++ b))
read_lines-append session_id after [] ks = read_none (read_lines session_id after ks)
read_lines-append session_id after (torn ∷ ls) ks = refl
read_lines-append session_id after (whole r ∷ ls) ks =
    let c = str_eq r.session_id session_id && is_later after r in
    ap (λ x. x >>= λ rest. ok (if c then r ∷ rest else rest))
      (read_lines-append session_id after ls ks)
    ∙ read_one c r (read_lines session_id after ls) (read_lines session_id after ks)
read_lines-append session_id after (unended r ∷ ls) ks =
    let c = str_eq r.session_id session_id && is_later after r in
    ap (λ x. x >>= λ rest. ok (if c then r ∷ rest else rest))
      (read_lines-append session_id after ls ks)
    ∙ read_one c r (read_lines session_id after ls) (read_lines session_id after ks)

read_segments-lines :
    (session_id : String) (after : Option ℕ) (segments : List (ℕ × Segment))
    → all_files segments ≡ true
    → read_segments session_id after segments ≡ read_lines session_id after (lines_of segments)
read_segments-lines session_id after [] h = refl
read_segments-lines session_id after ((i, directory) ∷ segments) h = cc
read_segments-lines session_id after ((i, file w lines) ∷ segments) h =
    ap (λ y. read_lines session_id after lines >>= λ a. y >>= λ b. ok (a ++ b))
      (read_segments-lines session_id after segments h)
    ∙ sym (read_lines-append session_id after lines (lines_of segments))

pub replay-kept :
    (session_id : String) (rs : List TranscriptRecord) (dir : SessionDir) (m : TranscriptManifest)
    (after : Option ℕ)
    → IsSound session_id rs dir
    → all_files dir.segments ≡ true
    → dir.manifest ≡ some (some m)
    → replay after dir ≡ ok (keep (is_later after) rs)
unfolding replay
replay-kept session_id rs dir m after v f e =
    ap (replay_of after dir.segments) e
    ∙ ap (λ s. read_segments s after dir.segments)
        (sym (ap (λ o. (manifest_or o (new_empty session_id "")).session_id) e) ∙ v.own)
    ∙ read_segments-lines session_id after dir.segments f
    ∙ ap (read_lines session_id after) v.holds.lines
    ∙ read-whole session_id after 1 rs v.holds.numbers

-- The records without the first ones, up to this number.
abbrev pub drop_upto : Option ℕ → List TranscriptRecord → List TranscriptRecord
drop_upto none rs = rs
drop_upto (some k) rs = drop k rs

keep-none : (rs : List TranscriptRecord) → keep (is_later none) rs ≡ rs
keep-none [] = refl
keep-none (r ∷ rs) = ap (◌∷◌ r) (keep-none rs)

keep-drop :
    (session_id : String) (n j k : ℕ) (rs : List TranscriptRecord)
    → numbered n session_id rs ≡ true
    → k + 1 ≡ n + j
    → keep (is_later (some k)) rs ≡ drop j rs
keep-drop session_id n zero k [] h e = refl
keep-drop session_id n (suc j) k [] h e = refl
keep-drop session_id n zero k (r ∷ rs) h e = keep-all session_id n k (r ∷ rs) h (omega (arith, e))
  where
    keep-all :
        (session_id : String) (n k : ℕ) (rs : List TranscriptRecord)
        → numbered n session_id rs ≡ true
        → k < n
        → keep (is_later (some k)) rs ≡ rs
    keep-all session_id n k [] h l = refl
    keep-all session_id n k (r ∷ rs) h l =
        ground (arith, l, keep-all session_id (n + 1) k rs (ground arith) (omega (arith, l)))
keep-drop session_id n (suc j) k (r ∷ rs) h e =
    ground (arith, e, keep-drop session_id (n + 1) j k rs (ground arith) (omega (arith, e)))

keep-drop_upto :
    (session_id : String) (after : Option ℕ) (rs : List TranscriptRecord)
    → numbered 1 session_id rs ≡ true
    → keep (is_later after) rs ≡ drop_upto after rs
keep-drop_upto session_id none rs h = keep-none rs
keep-drop_upto session_id (some k) rs h = keep-drop session_id 1 k k rs h (omega arith)

-- A sound directory with a manifest, where no segment is a directory, replays its records without the first ones, as
-- many as the given number says, and all of them where none is given.
pub replay-later_records :
    (session_id : String) (rs : List TranscriptRecord) (dir : SessionDir) (m : TranscriptManifest)
    (after : Option ℕ)
    → IsSound session_id rs dir
    → all_files dir.segments ≡ true
    → dir.manifest ≡ some (some m)
    → replay after dir ≡ ok (drop_upto after rs)
replay-later_records session_id rs dir m after v f e =
    replay-kept session_id rs dir m after v f e
    ∙ ap ok (keep-drop_upto session_id after rs v.holds.numbers)

-- The record has a larger number than this one.
abbrev pub IsAfter : Option ℕ → TranscriptRecord → Type 0
IsAfter none r = Unit {0}
IsAfter (some k) r = k < r.event_seq

pub after-is_later :
    (after : Option ℕ) (r : TranscriptRecord) → IsAfter after r → is_later after r ≡ true
after-is_later none r h = refl
after-is_later (some k) r h = ground (arith, h)

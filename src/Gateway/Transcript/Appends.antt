-- ===== src/Gateway/Transcript/Appends.antt =====
-- transcript/store.rs: an append adds one record with the next number.
use open_jax.Prelude.{
  ℕ, ◌+◌, ◌<◌, ◌≤◌, String, ◌≡◌, refl, sym, ap, ◌∙◌, subst, Bool, true, false, ◌&&◌, not, all,
  Option, none, some, List, [], ◌∷◌, ◌++◌, map, length, length-append, last?, arith, inl, inr, ◌⊎◌,
}
use open_jax.Prelude.Results.{Result, ok, err}
use open_jax.Prelude.Words.{u64_mod, wrap64_small, saturating_add_small}
use open_jax.Gateway.Transcript.{
  TranscriptRecord, TranscriptManifest, Line, whole, unended, torn, add_line, Segment, file,
  directory, SessionDir, find_segment, set_segment, Step, then_step, next_segment,
  rotate_if_active_segment_unwritable, Ending, complete, unwritten, torn_line, unended_line,
  manifest_unwritten, manifest_cut, AppendFaults, write_record, next_record, prepared,
  should_rotate_by_size, rotated_by_size, append,
}
use open_jax.Gateway.Transcript.Segments.{lines_at, ascends-set, lines-set, ends-set}
use open_jax.Gateway.Transcript.Numbers.{
  is_whole, held-whole, numbered-snoc, line_seq, tail_seq, saved, Holds, IsSound, IsReady,
}
use open_jax.Gateway.Transcript.Opens.{ends-leb, write-IsSound, is_open, is_uncut}
use open_jax.Gateway.Transcript.Rotates.{StepOpened, rotate-StepOpened, find-set_here}
use open_jax.Gateway.Transcript.Prepares.{StepPrepared, prepared-StepPrepared}

map-snoc :
    (rs : List TranscriptRecord) (r : TranscriptRecord)
    → map whole (rs ++ r ∷ []) ≡ map whole rs ++ whole r ∷ []
map-snoc [] r = refl
map-snoc (q ∷ rs) r = ap (λ ls. whole q ∷ ls) (map-snoc rs r)

last-snoc : (ls : List Line) (l : Line) → last? (ls ++ l ∷ []) ≡ some l
last-snoc [] l = refl
last-snoc (k ∷ []) l = refl
last-snoc (k ∷ j ∷ ls) l = last-snoc (j ∷ ls) l

-- After whole lines a line stands on its own.
add-whole : (ls : List Line) (l : Line) → all is_whole ls ≡ true → add_line ls l ≡ ls ++ l ∷ []
add-whole [] l h = refl
add-whole (whole r ∷ []) l h = refl
add-whole (unended r ∷ []) l h = cc
add-whole (torn ∷ []) l h = cc
add-whole (k ∷ j ∷ ls) l h = ap (◌∷◌ k) (add-whole (j ∷ ls) l (ground arith))

-- The record with the next number of the session.
abbrev IsNext : String → List TranscriptRecord → TranscriptRecord → Type 0
IsNext session_id rs r = (r.event_seq ≡ 1 + length rs) × (r.session_id ≡ session_id)

write-Holds :
    (session_id : String) (rs : List TranscriptRecord) (n : ℕ) (w : Bool) (lines : List Line)
    (r : TranscriptRecord) (segments : List (ℕ × Segment))
    → find_segment n segments ≡ some (file w lines)
    → IsNext session_id rs r
    → Holds session_id rs n segments
    → Holds session_id (rs ++ r ∷ []) n (set_segment n (file w (lines ++ whole r ∷ [])) segments)
write-Holds session_id rs n w lines r segments e (q, s) v = record {
  ordered = ascends-set n _ segments v.ordered;
  ends = ends-set n _ segments v.ends;
  lines =
      lines-set n _ (whole r ∷ []) segments v.ordered v.ends
        (ap (λ o. lines_at o ++ whole r ∷ []) (sym e))
      ∙ ap (λ ls. ls ++ whole r ∷ []) v.lines
      ∙ sym (map-snoc rs r);
  numbers = numbered-snoc 1 session_id rs r v.numbers q s;
}

-- What an append leaves: the records and the new one, or on an error perhaps only the records.
abbrev pub AppendOutcome :
    String → List TranscriptRecord → Result TranscriptRecord × SessionDir → Type 0
AppendOutcome session_id rs (ok r, dir) = IsSound session_id (rs ++ r ∷ []) dir
AppendOutcome session_id rs (err e, dir) =
    IsSound session_id rs dir ⊎ ((r : TranscriptRecord) × IsSound session_id (rs ++ r ∷ []) dir)

-- A line is whole with its newline or not begun, the manifest is not cut, and it is written if the segment was
-- rotated by size.
abbrev pub is_kept : Ending → Bool → Bool
is_kept complete rotates = true
is_kept unwritten rotates = true
is_kept torn_line rotates = false
is_kept unended_line rotates = false
is_kept manifest_cut rotates = false
is_kept manifest_unwritten rotates = not rotates

unsaved-IsSound :
    (session_id : String) (rs : List TranscriptRecord) (n : ℕ) (w : Bool) (lines : List Line)
    (r : TranscriptRecord) (dir : SessionDir)
    → find_segment n dir.segments ≡ some (file w lines)
    → IsNext session_id rs r
    → (saved session_id dir).active_segment ≡ n
    → Holds session_id
        (rs ++ r ∷ [])
        n
        (set_segment n (file w (lines ++ whole r ∷ [])) dir.segments)
    → IsSound session_id rs dir
    → IsSound session_id
        (rs ++ r ∷ [])
        (record dir { segments = set_segment n (file w (lines ++ whole r ∷ [])) dir.segments })
unsaved-IsSound session_id rs n w lines r dir e (q, s) a h v = record {
  readable = v.readable;
  holds =
      subst
        (λ k.
          Holds session_id (rs ++ r ∷ []) k
            (set_segment n (file w (lines ++ whole r ∷ [])) dir.segments))
        (sym a) h;
  last =
      let tail =
        ap (λ k. tail_seq k (set_segment n (file w (lines ++ whole r ∷ [])) dir.segments)) a
        ∙ ap (λ o. line_seq (last? (lines_at o)))
            (find-set_here n (file w (lines ++ whole r ∷ [])) dir.segments)
        ∙ ap line_seq (last-snoc lines (whole r))
        ∙ q in
      omega (arith, tail, v.last, length-append rs (r ∷ []));
  own = v.own;
}

whole-added :
    (session_id : String) (rs : List TranscriptRecord) (m : TranscriptManifest) (dir : SessionDir)
    (w : Bool) (lines : List Line) (r : TranscriptRecord)
    → find_segment m.active_segment dir.segments ≡ some (file w lines)
    → IsReady session_id rs m dir
    → add_line lines (whole r) ≡ lines ++ whole r ∷ []
whole-added session_id rs m dir w lines r e v = add-whole lines (whole r) (
    ap (λ o. all is_whole (lines_at o)) (sym e)
    ∙ held-whole m.active_segment rs dir.segments v.holds.lines)

write-cases :
    (session_id : String) (rs : List TranscriptRecord) (ending : Ending) (r : TranscriptRecord)
    (m : TranscriptManifest) (dir : SessionDir) (rotates : Bool) (o : Option Segment)
    → find_segment m.active_segment dir.segments ≡ o
    → is_open o ≡ true
    → is_kept ending rotates ≡ true
    → (rotates ≡ false → (saved session_id dir).active_segment ≡ m.active_segment)
    → IsNext session_id rs r
    → IsReady session_id rs m dir
    → AppendOutcome session_id rs (write_record ending r m dir)
write-cases session_id rs ending r m dir rotates none e p k a q v = cc
write-cases session_id rs ending r m dir rotates (some directory) e p k a q v = cc
write-cases session_id rs unwritten r m dir rotates (some (file w lines)) e p k a q v = inl v.sound
write-cases session_id rs torn_line r m dir rotates (some (file w lines)) e p k a q v = cc
write-cases session_id rs unended_line r m dir rotates (some (file w lines)) e p k a q v = cc
write-cases session_id rs manifest_cut r m dir rotates (some (file w lines)) e p k a q v = cc
write-cases session_id rs manifest_unwritten r m dir rotates (some (file w lines)) e p k a q v =
    rw (e, whole-added session_id rs m dir w lines r e v)
      (inr (
        r,
        unsaved-IsSound session_id rs m.active_segment w lines r dir e q (a (ground arith))
            (write-Holds session_id rs m.active_segment w lines r dir.segments e q v.holds) v.sound,
      ))
write-cases session_id rs complete r m dir rotates (some (file w lines)) e p k a (q, s) v =
    rw (e, whole-added session_id rs m dir w lines r e v)
      (write-IsSound session_id (rs ++ r ∷ []) _
        (record dir {
          segments = set_segment m.active_segment (file w (lines ++ whole r ∷ [])) dir.segments;
        })
        (write-Holds session_id rs m.active_segment w lines r dir.segments e (q, s) v.holds)
        (omega (arith, q, length-append rs (r ∷ []))) v.own)

-- The append would go to a new segment because the active one is full.
abbrev pub rotates_at : (Line → ℕ) → ℕ → TranscriptRecord → Step → Bool
rotates_at line_bytes segment_max_bytes r (ok m, dir) =
    should_rotate_by_size line_bytes segment_max_bytes m (next_record r m) dir
rotates_at line_bytes segment_max_bytes r (err e, dir) = false

unfoldable pub rotates : (Line → ℕ) → ℕ → AppendFaults → TranscriptRecord → SessionDir → Bool
unfolding prepared should_rotate_by_size
rotates line_bytes segment_max_bytes f r dir =
    rotates_at line_bytes segment_max_bytes r (prepared f r dir)

-- No manifest is cut, no line is cut, and no manifest is lost together with a rotation by size.
abbrev pub are_kept : AppendFaults → Bool → Bool
are_kept f b =
    is_uncut f.recovery
    && is_uncut f.first_rotation
    && is_uncut f.second_rotation
    && is_kept f.ending b

module _ (line_bytes : Line → ℕ) (segment_max_bytes : ℕ) (session_id : String) where
  sized-IsReady :
      (rs : List TranscriptRecord) (m : TranscriptManifest) (dir : SessionDir) (b : Bool)
      → m.active_segment + 1 < u64_mod
      → IsReady session_id rs m dir
      → IsReady session_id rs (rotated_by_size b m) dir
  sized-IsReady rs m dir false h v = v
  sized-IsReady rs m dir true h v = record {
    holds = record {
      ordered = v.holds.ordered;
      ends =
          ends-leb m.active_segment (next_segment m.active_segment) dir.segments
            (ground (arith, wrap64_small (m.active_segment + 1) h)) v.holds.ends;
      lines = v.holds.lines;
      numbers = v.holds.numbers;
    };
    last = v.last;
    own = v.own;
    sound = v.sound;
    behind = ground (arith, wrap64_small (m.active_segment + 1) h, v.behind);
  }

  opened-AppendOutcome :
      (rs : List TranscriptRecord) (ending : Ending) (r : TranscriptRecord)
      (m0 : TranscriptManifest) (dir0 : SessionDir) (b : Bool) (x : Step)
      → is_kept ending b ≡ true
      → (b ≡ false → (saved session_id dir0).active_segment ≡ m0.active_segment)
      → IsNext session_id rs r
      → StepOpened session_id rs m0 dir0 x
      → AppendOutcome session_id rs (then_step x (write_record ending r))
  opened-AppendOutcome rs ending r m0 dir0 b (ok m, dir) k a q v =
      write-cases session_id rs ending r m dir b (find_segment m.active_segment dir.segments) refl
        v.writable_now k (λ e. v.kept (a e)) q v.ready
  opened-AppendOutcome rs ending r m0 dir0 b (err e, dir) k a q v = inl v

  sized-near :
      (n : ℕ) (m : TranscriptManifest) (b : Bool)
      → m.active_segment ≤ n + 1
      → n + 3 < u64_mod
      → (rotated_by_size b m).active_segment + 1 < u64_mod
  sized-near n m false h k = omega arith
  sized-near n m true h k = omega (arith, wrap64_small (m.active_segment + 1) (omega arith))

  sized-saved :
      (m : TranscriptManifest) (dir : SessionDir) (b : Bool)
      → (saved session_id dir).active_segment ≡ m.active_segment
      → b ≡ false
      → (saved session_id dir).active_segment ≡ (rotated_by_size b m).active_segment
  sized-saved m dir false a e = a
  sized-saved m dir true a e = cc

  append-cases :
      (rs : List TranscriptRecord) (f : AppendFaults) (r : TranscriptRecord) (n : ℕ) (x : Step)
      → is_uncut f.second_rotation ≡ true
      → n + 3 < u64_mod
      → 1 + length rs < u64_mod
      → is_kept f.ending (rotates_at line_bytes segment_max_bytes r x) ≡ true
      → StepPrepared session_id rs n x
      → AppendOutcome session_id rs (
          then_step x (λ manifest opened.
            then_step
              (rotate_if_active_segment_unwritable f.second_rotation
                (rotated_by_size
                  (should_rotate_by_size line_bytes segment_max_bytes manifest
                    (next_record r manifest)
                    opened)
                  manifest)
                opened)
              (write_record f.ending (next_record r manifest))))
  append-cases rs f r n (ok m, dir) c h l k ((v, a), near) =
      let b = should_rotate_by_size line_bytes segment_max_bytes m (next_record r m) dir in
      let sized = rotated_by_size b m in
      opened-AppendOutcome rs f.ending (next_record r m) sized dir b
        (rotate_if_active_segment_unwritable f.second_rotation sized dir) k (sized-saved m dir b a)
        (
          omega (arith, v.last, saturating_add_small m.last_event_seq 1 (omega (arith, v.last))),
          v.own,
        )
        (rotate-StepOpened session_id rs f.second_rotation sized dir c (sized-near n m b near h)
          (sized-IsReady rs m dir b (omega (arith, near)) v))
  append-cases rs f r n (err e, dir) c h l k v = inl v

  -- The outcome of an append of a record of the session: the records and, if it succeeds, the new one with the next
  -- number.
  pub append-AppendOutcome :
      (rs : List TranscriptRecord) (f : AppendFaults) (r : TranscriptRecord) (dir : SessionDir)
      → r.session_id ≡ session_id
      → (saved session_id dir).active_segment + 3 < u64_mod
      → 1 + length rs < u64_mod
      → are_kept f (rotates line_bytes segment_max_bytes f r dir) ≡ true
      → IsSound session_id rs dir
      → AppendOutcome session_id rs (append line_bytes segment_max_bytes f r dir)
  unfolding append rotates
  append-AppendOutcome rs f r dir s h l k v =
      append-cases rs f r (saved session_id dir).active_segment (prepared f r dir) (ground arith) h
        l (ground arith)
        (prepared-StepPrepared session_id rs f r dir s (ground arith) (ground arith) (omega arith)
          v)

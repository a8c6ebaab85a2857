-- ===== src/Gateway/Transcript/Segments.antt =====
-- transcript/store.rs: what the segments hold, after one of them is set.
use open_jax.Prelude.{
  ℕ, ◌≡◌, refl, sym, ap, ◌∙◌, Bool, true, false, ◌&&◌, ◌||◌, Option, none, some, List, [], ◌∷◌,
  ◌++◌, all, ltb, leb, ◌==◌, if◌then◌else◌, arith, Bool-cases, inl, inr, append_nil, append_assoc,
}
use open_jax.Gateway.Transcript.{Line, Segment, file, directory, find_segment, set_segment}

-- The lines of the files.
abbrev pub lines_in : Segment → List Line
lines_in directory = []
lines_in (file writable lines) = lines

abbrev pub lines_of : List (ℕ × Segment) → List Line
lines_of [] = []
lines_of ((i, s) ∷ segments) = lines_in s ++ lines_of segments

abbrev pub is_above : ℕ → (ℕ × Segment) → Bool
is_above n (i, s) = ltb n i

-- The numbers of the segments ascend.
abbrev pub ascends : List (ℕ × Segment) → Bool
ascends [] = true
ascends ((i, s) ∷ segments) = all (is_above i) segments && ascends segments

abbrev pub no_lines : List Line → Bool
no_lines [] = true
no_lines (l ∷ lines) = false

-- Segments after this one hold nothing.
abbrev pub ends_at : ℕ → List (ℕ × Segment) → Bool
ends_at n [] = true
ends_at n ((i, s) ∷ segments) = (leb i n || no_lines (lines_in s)) && ends_at n segments

abbrev pub lines_at : Option Segment → List Line
lines_at none = []
lines_at (some s) = lines_in s

above-set :
    (k n : ℕ) (new : Segment) (segments : List (ℕ × Segment))
    → all (is_above k) segments ≡ true
    → ltb k n ≡ true
    → all (is_above k) (set_segment n new segments) ≡ true
above-set k n new [] h e = ground arith
above-set k n new ((i, s) ∷ segments) h e = ground (arith, above-set k n new segments)

above-weaken :
    (k n : ℕ) (segments : List (ℕ × Segment))
    → all (is_above n) segments ≡ true
    → ltb k n ≡ true
    → all (is_above k) segments ≡ true
above-weaken k n [] h e = refl
above-weaken k n ((i, s) ∷ segments) h e = ground (arith, above-weaken k n segments)

pub ascends-set :
    (n : ℕ) (new : Segment) (segments : List (ℕ × Segment))
    → ascends segments ≡ true
    → ascends (set_segment n new segments) ≡ true
ascends-set n new [] h = refl
ascends-set n new ((i, s) ∷ segments) h =
    ground
      (arith, ascends-set n new segments, above-set i n new segments, above-weaken n i segments)

find-above :
    (n : ℕ) (segments : List (ℕ × Segment))
    → all (is_above n) segments ≡ true
    → find_segment n segments ≡ none
find-above n [] h = refl
find-above n ((i, s) ∷ segments) h = ground (arith, find-above n segments)

pub find-set :
    (n j : ℕ) (new : Segment) (segments : List (ℕ × Segment))
    → find_segment j (set_segment n new segments)
      ≡ (if n == j then some new else find_segment j segments)
find-set n j new [] = refl
find-set n j new ((i, s) ∷ segments) = ground (arith, find-set n j new segments)

no_lines-above :
    (n : ℕ) (segments : List (ℕ × Segment))
    → all (is_above n) segments ≡ true
    → ends_at n segments ≡ true
    → lines_of segments ≡ []
no_lines-above n [] h e = refl
no_lines-above n ((i, directory) ∷ segments) h e =
    no_lines-above n segments (ground arith) (ground arith)
no_lines-above n ((i, file w []) ∷ segments) h e =
    no_lines-above n segments (ground arith) (ground arith)
no_lines-above n ((i, file w (l ∷ lines)) ∷ segments) h e = absurd (ground arith)

-- Setting the last segment that holds lines adds what it holds more.
pub lines-set :
    (n : ℕ) (new : Segment) (extra : List Line) (segments : List (ℕ × Segment))
    → ascends segments ≡ true
    → ends_at n segments ≡ true
    → lines_in new ≡ lines_at (find_segment n segments) ++ extra
    → lines_of (set_segment n new segments) ≡ lines_of segments ++ extra
lines-set n new extra [] h e q = append_nil (lines_in new) ∙ q
lines-set n new extra ((i, s) ∷ segments) h e q = elim (Bool-cases (i == n)) [
  | inl y ↦
      let none_after = no_lines-above n segments (ground arith) (ground arith) in
      let held = rw y at q in
      rw (y, none_after, append_nil (lines_in new), append_nil (lines_in s)) held
  | inr z ↦ elim (Bool-cases (ltb n i)) [
    | inl y ↦
        let none_here =
          no_lines-above n ((i, s) ∷ segments) (ground (arith, above-weaken n i segments))
            (ground arith) in
        let held = rw (z, find-above n segments (ground (arith, above-weaken n i segments))) at q in
        rw (z, y)
          (ap (λ ls. lines_in new ++ ls) none_here
            ∙ append_nil (lines_in new)
            ∙ held
            ∙ ap (λ ls. ls ++ extra) (sym none_here))
    | inr x ↦
        let held = rw z at q in
        rw (z, x)
          (ap (λ ls. lines_in s ++ ls)
              (lines-set n new extra segments (ground arith) (ground arith) held)
            ∙ sym (append_assoc (lines_in s) (lines_of segments) extra))
  ]
]

pub ends-set :
    (n : ℕ) (new : Segment) (segments : List (ℕ × Segment))
    → ends_at n segments ≡ true
    → ends_at n (set_segment n new segments) ≡ true
ends-set n new [] e = ground arith
ends-set n new ((i, s) ∷ segments) e = ground (arith, ends-set n new segments)

pub ends-later :
    (n m : ℕ) (segments : List (ℕ × Segment))
    → ltb n m ≡ true
    → ends_at n segments ≡ true
    → ends_at m segments ≡ true
ends-later n m [] h e = refl
ends-later n m ((i, s) ∷ segments) h e = ground (arith, ends-later n m segments)

-- A segment after the last that holds lines holds none.
pub find-later :
    (n m : ℕ) (segments : List (ℕ × Segment))
    → ltb n m ≡ true
    → ends_at n segments ≡ true
    → no_lines (lines_at (find_segment m segments)) ≡ true
find-later n m [] h e = refl
find-later n m ((i, s) ∷ segments) h e = ground (arith, find-later n m segments)

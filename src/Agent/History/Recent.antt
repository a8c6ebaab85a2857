-- ===== src/Agent/History/Recent.antt =====
-- context_compressor.rs: what is summarised and what is kept.
use open_jax.Prelude.{
  ℕ, zero, suc, ◌+◌, ◌-◌, ◌<◌, ◌≤◌, ◌≡◌, refl, ap, ◌∙◌, ◌⊎◌, inl, inr, true, false, Option, none,
  some, List, [], ◌∷◌, ◌++◌, take, drop, take-append-drop, length, leb, ◌==◌, arith, Bool-cases,
}
use open_jax.Prelude.Texts.{Text}
use open_jax.Agent.History.{
  HistoryItem, turn, summary, turn_indices, get_elem?, split_at, split_for_compression, turn_count,
  with_summary, compact_split, try_compact,
}

length-turn_indices : (i : ℕ) (h : List HistoryItem) → length (turn_indices i h) ≡ turn_count h
unfolding turn_indices turn_count
length-turn_indices i [] = refl
length-turn_indices i (turn r ∷ h) = ap suc (length-turn_indices (suc i) h)
length-turn_indices i (summary s ∷ h) = length-turn_indices (suc i) h

-- The position of a turn has as many turns before it as its number says.
record Position (i k : ℕ) (h : List HistoryItem) : Type 0 where
  offset : ℕ
  found : get_elem? k (turn_indices i h) ≡ some (i + offset)
  before : turn_count (take offset h) ≡ k
  after : turn_count (drop offset h) + k ≡ turn_count h

position : (i k : ℕ) (h : List HistoryItem) → k < turn_count h → Position i k h
unfolding turn_indices turn_count
position i k [] l = absurd (omega arith)
position i zero (turn r ∷ h) l = record {
  offset = 0;
  found = ap some (omega arith);
  before = refl;
  after = omega arith;
}
position i (suc k) (turn r ∷ h) l =
    let p = position (suc i) k h (omega arith) in
    record {
      offset = suc p.offset;
      found = p.found ∙ ap some (omega arith);
      before = ap suc p.before;
      after = omega (arith, p.after);
    }
position i k (summary s ∷ h) l =
    let p = position (suc i) k h l in
    record {
      offset = suc p.offset;
      found = p.found ∙ ap some (omega arith);
      before = p.before;
      after = p.after;
    }

-- The history is cut so that the last three turns are kept, and at least two are summarised.
record Cuts (h old recent : List HistoryItem) : Type 0 where
  whole : old ++ recent ≡ h
  kept : turn_count recent ≡ 3
  given : 2 ≤ turn_count old

leb-many : (n : ℕ) → 4 < n → leb n 4 ≡ false
leb-many n l = ground arith

split-few : (h : List HistoryItem) → leb (turn_count h) 4 ≡ true → split_for_compression h ≡ none
unfolding split_for_compression
split-few h y = rw (length-turn_indices 0 h, y) refl

some_turns : (n : ℕ) → 2 ≤ n → (n == 0) ≡ false
some_turns n l = ground arith

compact_split-given :
    (complete : List HistoryItem → ℕ → Option Text) (old recent : List HistoryItem)
    → 2 ≤ turn_count old
    → compact_split complete (some (old, recent))
      ≡ with_summary recent (complete old (turn_count old))
compact_split-given complete old recent l = rw (some_turns (turn_count old) l) refl

split-Cuts :
    (h : List HistoryItem)
    → 4 < turn_count h
    → (old : List HistoryItem) × (recent : List HistoryItem) × Cuts h old recent
      × (split_for_compression h ≡ some (old, recent))
unfolding split_for_compression
split-Cuts h l =
    let p = position 0 (turn_count h - 3) h (omega arith) in
    (
      take p.offset h,
      drop p.offset h,
      record {
        whole = take-append-drop p.offset h;
        kept = omega (arith, p.after);
        given = omega (arith, p.before);
      },
      rw (length-turn_indices 0 h, leb-many (turn_count h) l)
          (ap (split_at h) (p.found ∙ ap some (omega arith))),
    )

-- With four turns or fewer a history is not compacted. With more it is cut in two, the later part with exactly
-- three turns; the outcome is that part behind the model's summary of the earlier one, or none if the model fails.
pub compact-outcome :
    (complete : List HistoryItem → ℕ → Option Text) (h : List HistoryItem)
    → ((turn_count h ≤ 4) × (try_compact complete h ≡ none))
      ⊎ ((4 < turn_count h)
          × (old : List HistoryItem) × (recent : List HistoryItem) × (old ++ recent ≡ h)
          × (turn_count recent ≡ 3)
          × (try_compact complete h ≡ with_summary recent (complete old (turn_count old))))
unfolding try_compact
compact-outcome complete h = elim (Bool-cases (leb (turn_count h) 4)) [
  | inl y ↦ inl (ground arith, ap (compact_split complete) (split-few h y))
  | inr n ↦ inr (
      let (old, recent, c, e) = split-Cuts h (ground arith) in
      (
        ground arith,
        old,
        recent,
        c.whole,
        c.kept,
        ap (compact_split complete) e ∙ compact_split-given complete old recent c.given,
      ))
]

-- ===== src/Agent/Loop/Streaks.antt =====
-- loop_detector.rs: the signals are those of the length of the current streak of equal calls.
use open_jax.Prelude.{
  suc, ◌≤◌, min, ◌≡◌, refl, sym, ap, ◌∙◌, Bool, true, false, none, some, List, [], ◌∷◌, ◌++◌,
  length, take_while, tail, str_eq_iff, str_eq_refl, leb, if◌then◌else◌, arith, subst, Bool-cases,
  inl, inr, length-append, append_nil, append_assoc,
}
use open_jax.Agent.Loop.{
  LoopSignal, quiet, warned, halt, Key, key_eq, LoopDetector, new, reverse, run, trim, advance,
  is_warned_tool, check_in, check_and_advance,
}

module _ {ℓ} {A : Type ℓ} where
  reverse-snoc : (xs : List A) (y : A) → reverse (xs ++ y ∷ []) ≡ y ∷ reverse xs
  reverse-snoc [] y = refl
  reverse-snoc (x ∷ xs) y = ap (λ zs. zs ++ x ∷ []) (reverse-snoc xs y)

  length-reverse : (xs : List A) → length (reverse xs) ≡ length xs
  length-reverse [] = refl
  length-reverse (x ∷ xs) = omega (arith, length-append (reverse xs) (x ∷ []), length-reverse xs)

  run-snoc :
      (p : A → Bool) (xs : List A) (y : A)
      → run p (xs ++ y ∷ []) ≡ (if p y then suc (run p xs) else 0)
  run-snoc p xs y = rw (reverse-snoc xs y) ground arith

  prefix-le :
      (p : A → Bool) (zs : List A) (x : A)
      → length (take_while p zs) ≤ length (take_while p (zs ++ x ∷ []))
  prefix-le p [] x = omega arith
  prefix-le p (z ∷ zs) x = ground (arith, prefix-le p zs x)

  prefix-ge :
      (p : A → Bool) (zs : List A) (x : A)
      → min (length zs) (length (take_while p (zs ++ x ∷ []))) ≤ length (take_while p zs)
  prefix-ge p [] x = omega arith
  prefix-ge p (z ∷ zs) x = ground (arith, prefix-ge p zs x)

  run-tail_le : (p : A → Bool) (xs : List A) → run p (tail xs) ≤ run p xs
  run-tail_le p [] = omega arith
  run-tail_le p (x ∷ xs) = prefix-le p (reverse xs) x

  run-tail_ge : (p : A → Bool) (x : A) (xs : List A) → min (length xs) (run p (x ∷ xs)) ≤ run p xs
  run-tail_ge p x xs = omega (arith, prefix-ge p (reverse xs) x, length-reverse xs)

  -- Two tests that no element passes both of have no streak at once.
  apart :
      (p q : A → Bool)
      → ((a : A) → p a ≡ true → q a ≡ false)
      → (zs : List A) → 1 ≤ length (take_while p zs)
      → length (take_while q zs) ≡ 0
  apart p q f [] h = refl
  apart p q f (z ∷ zs) h = ground (arith, f z)

key_eq-eq : (a b : Key) → key_eq a b ≡ true → a ≡ b
key_eq-eq (a0, a1) (b0, b1) h = ground (arith, str_eq_iff a0 b0, str_eq_iff a1 b1)

key_eq_refl : (a : Key) → key_eq a a ≡ true
key_eq_refl a = ground (arith, str_eq_refl a.0, str_eq_refl a.1)

trim-le : (k : Key) (xs : List Key) → run (key_eq k) (trim 16 xs) ≤ run (key_eq k) xs
trim-le k xs = ground (arith, run-tail_le (key_eq k) xs)

trim-ge : (k : Key) (xs : List Key) → min 5 (run (key_eq k) xs) ≤ run (key_eq k) (trim 16 xs)
trim-ge k [] = ground arith
trim-ge k (x ∷ xs) = ground (arith, run-tail_ge (key_eq k) x xs)

-- What the detector warned of: five calls or more, in the window and in the history.
record Warns (calls : List Key) (d : LoopDetector) (w : Key) : Type 0 where
  tool : d.warned_tool ≡ some w
  seen : 5 ≤ run (key_eq w) calls
  kept : 5 ≤ run (key_eq w) d.window

-- The window agrees with the history on the streaks up to five.
record Agrees (calls : List Key) (d : LoopDetector) : Type 0 where
  capacity : d.window_capacity ≡ 16
  threshold : d.warn_threshold ≡ 5
  low : (k : Key) → min 5 (run (key_eq k) calls) ≤ run (key_eq k) d.window
  high : (k : Key) → run (key_eq k) d.window ≤ run (key_eq k) calls

record Tracks (calls : List Key) (d : LoopDetector) : Type 0 where
  agrees : Agrees calls d
  warns : d.state ≡ warned → (w : Key) × Warns calls d w

-- The signal is raised from the fifth call of a streak on.
abbrev pub is_signal : LoopSignal → Bool
is_signal quiet = false
is_signal warned = true
is_signal halt = true

-- What one more call is to do.
record Advances (calls : List Key) (key : Key) (r : LoopSignal × LoopDetector) : Type 0 where
  signal : is_signal r.0 ≡ leb 5 (run (key_eq key) (calls ++ key ∷ []))
  tracks : Tracks (calls ++ key ∷ []) r.1

advance-low :
    (key : Key) (calls : List Key) (d : LoopDetector)
    → Agrees calls d
    → (k : Key)
    → min 5 (run (key_eq k) (calls ++ key ∷ [])) ≤ run (key_eq k) (trim 16 (d.window ++ key ∷ []))
advance-low key calls d v k = ground (
  arith,
  trim-ge k (d.window ++ key ∷ []),
  run-snoc (key_eq k) calls key,
  run-snoc (key_eq k) d.window key,
  v.low k,
)

advance-high :
    (key : Key) (calls : List Key) (d : LoopDetector)
    → Agrees calls d
    → (k : Key)
    → run (key_eq k) (trim 16 (d.window ++ key ∷ [])) ≤ run (key_eq k) (calls ++ key ∷ [])
advance-high key calls d v k = ground (
  arith,
  trim-le k (d.window ++ key ∷ []),
  run-snoc (key_eq k) calls key,
  run-snoc (key_eq k) d.window key,
  v.high k,
)

advance-Advances :
    (key : Key) (calls : List Key) (d : LoopDetector)
    → ¬ (d.state ≡ warned)
    → Agrees calls d
    → Advances calls key (advance key d)
unfolding advance
advance-Advances key calls d q v =
    let low = advance-low key calls d v in
    let high = advance-high key calls d v in
    rw (v.capacity, v.threshold)
      elim (Bool-cases (leb 5 (run (key_eq key) (trim 16 (d.window ++ key ∷ []))))) [
        | inl y ↦ rw y record {
          signal = ground (arith, low key, high key);
          tracks = record {
            agrees = record { capacity = refl; threshold = refl; low = low; high = high };
            warns = λ e.
                (key, record { tool = refl; seen = ground (arith, high key); kept = ground arith });
          };
        }
        | inr n ↦ rw n record {
          signal = ground (arith, low key, high key);
          tracks = record {
            agrees = record { capacity = refl; threshold = refl; low = low; high = high };
            warns = λ e. absurd (q e);
          };
        }
      ]

same_kept :
    (k w : Key) (calls : List Key) (d : LoopDetector)
    → Warns calls d w
    → key_eq k w ≡ true
    → 5 ≤ run (key_eq k) d.window
same_kept k w calls d h e = subst (λ j. 5 ≤ run (key_eq j) d.window) (sym (key_eq-eq k w e)) h.kept

other_gone :
    (k w : Key) (calls : List Key) (d : LoopDetector)
    → Warns calls d w
    → key_eq k w ≡ false
    → run (key_eq k) d.window ≡ 0
other_gone k w calls d h e =
    apart (key_eq w) (key_eq k) (λ a f. ap (key_eq k) (sym (key_eq-eq w a f)) ∙ e)
      (reverse d.window) (omega (arith, h.kept))

-- Halting keeps the window, in which the call that is repeated has its five.
halt-Agrees :
    (w : Key) (calls : List Key) (d : LoopDetector)
    → Warns calls d w
    → Agrees calls d
    → Agrees (calls ++ w ∷ []) d
halt-Agrees w calls d h v = record {
  capacity = v.capacity;
  threshold = v.threshold;
  low = λ k.
      ground (arith, run-snoc (key_eq k) calls w, key_eq-eq k w, h.kept, same_kept k w calls d h);
  high = λ k. ground (arith, run-snoc (key_eq k) calls w, v.high k, other_gone k w calls d h);
}

halted-Advances :
    (w : Key) (calls : List Key) (d : LoopDetector)
    → Warns calls d w
    → Agrees calls d
    → Advances calls w (halt, record d { state = halt })
halted-Advances w calls d h v =
    let go = halt-Agrees w calls d h v in
    record {
      signal = ground (arith, run-snoc (key_eq w) calls w, key_eq_refl w, h.seen);
      tracks = record {
        agrees = record {
          capacity = go.capacity;
          threshold = go.threshold;
          low = go.low;
          high = go.high;
        };
        warns = λ e. cc;
      };
    }

check_in-Advances :
    (key : Key) (calls : List Key) (d : LoopDetector) (s : LoopSignal)
    → d.state ≡ s
    → Tracks calls d
    → Advances calls key (check_in s key d)
unfolding check_in
check_in-Advances key calls d quiet e v = advance-Advances key calls d (λ f. cc) v.agrees
check_in-Advances key calls d halt e v = advance-Advances key calls d (λ f. cc) v.agrees
check_in-Advances key calls d warned e v =
    let (w, h) = v.warns e in
    let a = v.agrees in
    elim (Bool-cases (key_eq key w)) [
      | inl y ↦ rw (ap (is_warned_tool key) h.tool ∙ y) (
          subst (λ j. Advances calls j (halt, record d { state = halt })) (sym (key_eq-eq key w y))
            (halted-Advances w calls d h a))
      | inr n ↦ rw (ap (is_warned_tool key) h.tool ∙ n) (
          advance-Advances key calls (record d { state = quiet; warned_tool = none }) (λ f. cc)
            record { capacity = a.capacity; threshold = a.threshold; low = a.low; high = a.high })
    ]

-- The detector after these calls.
abbrev pub after_calls : List Key → LoopDetector → LoopDetector
after_calls [] d = d
after_calls (k ∷ ks) d = after_calls ks (check_and_advance k d).1

after-Tracks :
    (ks calls : List Key) (d : LoopDetector)
    → Tracks calls d
    → Tracks (calls ++ ks) (after_calls ks d)
unfolding check_and_advance
after-Tracks [] calls d v = subst (λ c. Tracks c d) (sym (append_nil calls)) v
after-Tracks (k ∷ ks) calls d v =
    subst (λ c. Tracks c (after_calls ks (check_and_advance k d).1))
      (append_assoc calls (k ∷ []) ks)
      (after-Tracks ks (calls ++ k ∷ []) (check_and_advance k d).1
        (check_in-Advances k calls d d.state refl v).tracks)

new-Tracks : Tracks [] new
new-Tracks = record {
  agrees = record {
    capacity = refl;
    threshold = refl;
    low = λ k. omega arith;
    high = λ k. omega arith;
  };
  warns = λ e. cc;
}

-- After any calls since the detector was new, the next call raises a signal (a warning or a halt) exactly if
-- it is the fifth or a later one of a streak of calls with the same tool and arguments.
pub check-streak :
    (calls : List Key) (key : Key)
    → is_signal ((check_and_advance key (after_calls calls new)).0)
      ≡ leb 5 (run (key_eq key) (calls ++ key ∷ []))
unfolding check_and_advance
check-streak calls key =
    (check_in-Advances key calls (after_calls calls new) (after_calls calls new).state refl
      (after-Tracks calls [] new new-Tracks)).signal

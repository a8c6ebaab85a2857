-- ===== src/Gateway/Replay/Window.antt =====
-- replay.rs: what a reader that is behind gets back.
use open_jax.Prelude.{
  drop_none, at_drop, ℕ, zero, suc, ◌+◌, ◌-◌, ◌<◌, ◌≤◌, max, ◌≡◌, refl, sym, ap, ◌∙◌, true, false,
  some, List, [], ◌∷◌, ◌++◌, keep, length, head?, tail, ltb, leb, if◌then◌else◌, arith, drop, subst,
  append_nil, append_assoc, length-append, length-drop, Bool-cases, inl, inr,
}
use open_jax.Prelude.Words.{u64_mod}
use open_jax.Gateway.Replay.{
  ReplayBuffer, outside, items, with_capacity, push, replay_from, min_allowed, min_of, make_room,
}

leb-true : (m n : ℕ) → leb m n ≡ true → m ≤ n
leb-true m n h = ground arith

leb-false : (m n : ℕ) → leb m n ≡ false → n < m
leb-false m n h = ground arith

module _ {ℓ} {T : Type ℓ} where
  -- The buffer after these items.
  abbrev pub push_all : List T → ReplayBuffer T → ReplayBuffer T
  push_all [] b = b
  push_all (x ∷ xs) b = push_all xs (push x b).1

  -- Items with consecutive numbers.
  abbrev pub number_from : ℕ → List T → List (ℕ × T)
  number_from n [] = []
  number_from n (x ∷ xs) = (n, x) ∷ number_from (suc n) xs

  length-number_from : (n : ℕ) (xs : List T) → length (number_from n xs) ≡ length xs
  length-number_from n [] = refl
  length-number_from n (x ∷ xs) = ap suc (length-number_from (suc n) xs)

  number_from-snoc :
      (n : ℕ) (xs : List T) (y : T)
      → number_from n (xs ++ y ∷ []) ≡ number_from n xs ++ (n + length xs, y) ∷ []
  number_from-snoc n [] y = ap (λ k. (k, y) ∷ []) (omega arith)
  number_from-snoc n (x ∷ xs) y = ap (◌∷◌ (n, x)) (
      number_from-snoc (suc n) xs y ∙ ap (λ k. number_from (suc n) xs ++ (k, y) ∷ []) (omega arith))

  head-drop :
      (k n : ℕ) (xs : List T)
      → min_of (head? (drop k (number_from (suc n) xs))) ≡ (if ltb k (length xs) then k + n else 0)
  head-drop zero n [] = ground arith
  head-drop (suc k) n [] = ground arith
  head-drop zero n (x ∷ xs) = ground arith
  head-drop (suc k) n (x ∷ xs) = ground (arith, head-drop k (suc n) xs)

  -- Keeping the items with a number above `m` is dropping items.
  keep-number_from :
      (m k n : ℕ) (xs : List T)
      → keep (λ e. ltb m e.0) (drop k (number_from (suc n) xs))
        ≡ drop (max (m - n) k) (number_from (suc n) xs)
  keep-number_from m k n [] = rw (drop_none k, drop_none (max (m - n) k)) refl
  keep-number_from m (suc k) n (x ∷ xs) =
      keep-number_from m k (suc n) xs
      ∙ sym (at_drop _ (suc (max (m - suc n) k)) (number_from (suc n) (x ∷ xs)) (omega arith))
  keep-number_from m zero n (x ∷ xs) = elim (Bool-cases (ltb m (suc n))) [
    | inl y ↦ rw y (
        ap (◌∷◌ (suc n, x)) (
          keep-number_from m zero (suc n) xs
          ∙ at_drop _ 0 (number_from (suc (suc n)) xs) (ground arith))
        ∙ sym (at_drop _ 0 (number_from (suc n) (x ∷ xs)) (ground arith)))
    | inr z ↦ rw z (
        keep-number_from m zero (suc n) xs
        ∙ sym (at_drop _ (suc (max (m - suc n) 0)) (number_from (suc n) (x ∷ xs)) (ground arith)))
  ]

module _ {ℓ} {A : Type ℓ} where
  tail-drop : (k : ℕ) (ys : List A) → tail (drop k ys) ≡ drop (suc k) ys
  tail-drop zero [] = refl
  tail-drop zero (y ∷ ys) = refl
  tail-drop (suc k) [] = refl
  tail-drop (suc k) (y ∷ ys) = tail-drop k ys

  drop-snoc :
      (k : ℕ) (ys : List A) (z : A) → k ≤ length ys → drop k (ys ++ z ∷ []) ≡ drop k ys ++ z ∷ []
  drop-snoc zero ys z h = refl
  drop-snoc (suc k) [] z h = absurd (omega arith)
  drop-snoc (suc k) (y ∷ ys) z h = drop-snoc k ys z (omega arith)

module _ {ℓ} {T : Type ℓ} where
  -- The buffer stands for a history: the numbers go on from 1, and the entries are the end of it.
  pub record Holds (xs : List T) (b : ReplayBuffer T) : Type ℓ where
    room : 1 ≤ b.capacity
    next : b.next_seq ≡ suc (length xs)
    rest : b.entries ≡ drop (length xs - b.capacity) (number_from 1 xs)

  pub with_capacity-Holds : (capacity : ℕ) → Holds [] (with_capacity {T = T} capacity)
  unfolding with_capacity
  with_capacity-Holds capacity = record {
    room = omega arith;
    next = refl;
    rest = sym (drop_none _);
  }

  length-entries :
      (b : ReplayBuffer T) (xs : List T)
      → Holds xs b
      → length b.entries ≡ length xs - (length xs - b.capacity)
  length-entries b xs v =
      ap length v.rest
      ∙ length-drop (length xs - b.capacity) (number_from 1 xs)
      ∙ ap (λ n. n - (length xs - b.capacity)) (length-number_from 1 xs)

  -- The entries without the one that makes room.
  made_room :
      (b : ReplayBuffer T) (xs : List T) (x : T)
      → Holds xs b
      → make_room b.capacity b.entries
        ≡ drop (length (xs ++ x ∷ []) - b.capacity) (number_from 1 xs)
  made_room b xs x v = elim (Bool-cases (leb b.capacity (length b.entries))) [
    | inl y ↦ rw y (
        ap tail v.rest
        ∙ tail-drop (length xs - b.capacity) (number_from 1 xs)
        ∙ at_drop (suc (length xs - b.capacity)) (length (xs ++ x ∷ []) - b.capacity)
            (number_from 1 xs)
            (omega (
              arith,
              length-entries b xs v,
              leb-true b.capacity (length b.entries) y,
              length-append xs (x ∷ []),
            )))
    | inr n ↦ rw n (
        v.rest
        ∙ at_drop (length xs - b.capacity) (length (xs ++ x ∷ []) - b.capacity) (number_from 1 xs) (
            omega (
              arith,
              length-entries b xs v,
              leb-false b.capacity (length b.entries) n,
              length-append xs (x ∷ []),
            )))
  ]

  pub push-Holds :
      (x : T) (xs : List T) (b : ReplayBuffer T)
      → suc (suc (length xs)) < u64_mod
      → Holds xs b
      → Holds (xs ++ x ∷ []) (push x b).1
  unfolding push
  push-Holds x xs b h v = record {
    room = v.room;
    next = omega (arith, v.next, length-append xs (x ∷ []));
    rest =
        ap (λ ys. ys ++ (b.next_seq, x) ∷ []) (made_room b xs x v)
        ∙ ap (λ n. drop (length (xs ++ x ∷ []) - b.capacity) (number_from 1 xs) ++ (n, x) ∷ [])
            v.next
        ∙ sym (
            drop-snoc _ (number_from 1 xs) (suc (length xs), x)
              (omega (arith, v.room, length-number_from 1 xs, length-append xs (x ∷ []))))
        ∙ ap (drop (length (xs ++ x ∷ []) - b.capacity)) (
            ap (λ n. number_from 1 xs ++ (n, x) ∷ []) (omega arith)
            ∙ sym (number_from-snoc 1 xs x));
  }

  push_all-Holds :
      (xs ys : List T) (b : ReplayBuffer T)
      → suc (length ys + length xs) < u64_mod
      → Holds ys b
      → Holds (ys ++ xs) (push_all xs b)
  push_all-Holds [] ys b h v = subst (λ zs. Holds zs b) (sym (append_nil ys)) v
  push_all-Holds (x ∷ xs) ys b h v =
      subst (λ zs. Holds zs (push_all xs (push x b).1)) (append_assoc ys (x ∷ []) xs)
        (push_all-Holds xs (ys ++ x ∷ []) (push x b).1 (omega (arith, length-append ys (x ∷ [])))
          (push-Holds x ys b (omega arith) v))

  min_allowed-Holds :
      (xs : List T) (b : ReplayBuffer T) → Holds xs b → min_allowed b ≡ length xs - b.capacity
  unfolding min_allowed
  min_allowed-Holds xs b v =
      ap (λ es. min_of (head? es)) v.rest
      ∙ head-drop (length xs - b.capacity) 0 xs
      ∙ ground (arith, v.room)

  replay-Holds :
      (xs : List T) (b : ReplayBuffer T) (after : ℕ)
      → Holds xs b
      → replay_from (some after) b ≡ (
          if ltb after (length xs - b.capacity)
          then outside record { requested_after_seq = after; min_allowed = length xs - b.capacity }
          else items (drop after (number_from 1 xs)))
  unfolding replay_from
  replay-Holds xs b after v = elim (Bool-cases (ltb after (length xs - b.capacity))) [
    | inl y ↦ rw (min_allowed-Holds xs b v, y) refl
    | inr n ↦
        rw (min_allowed-Holds xs b v, n)
          (ap items (
            ap (keep _) v.rest
            ∙ keep-number_from after (length xs - b.capacity) 0 xs
            ∙ at_drop (max (after - 0) (length xs - b.capacity)) after (number_from 1 xs)
                (ground arith)))
  ]

  push_all-capacity : (xs : List T) (b : ReplayBuffer T) → (push_all xs b).capacity ≡ b.capacity
  unfolding push
  push_all-capacity [] b = refl
  push_all-capacity (x ∷ xs) b = push_all-capacity xs (push x b).1

  -- Below 2 ^ 64 items, a reader that has the first `after` of them and asks a new buffer for the rest gets,
  -- if they still stand in the window, exactly the later items, each with its number, in order and without a
  -- gap; else the error that names the least number that can be asked for.
  pub replay-exact :
      (capacity : ℕ) (xs : List T) (after : ℕ)
      → suc (length xs) < u64_mod
      → replay_from (some after) (push_all xs (with_capacity capacity)) ≡ (
          if ltb after (length xs - max capacity 1)
          then outside
              record { requested_after_seq = after; min_allowed = length xs - max capacity 1 }
          else items (drop after (number_from 1 xs)))
  unfolding with_capacity
  replay-exact capacity xs after h =
      subst
        (λ c. replay_from (some after) (push_all xs (with_capacity capacity)) ≡ (
          if ltb after (length xs - c)
          then outside record { requested_after_seq = after; min_allowed = length xs - c }
          else items (drop after (number_from 1 xs))))
        (push_all-capacity xs (with_capacity capacity))
        (replay-Holds xs (push_all xs (with_capacity capacity)) after (
          push_all-Holds xs [] (with_capacity capacity) (omega arith)
            (with_capacity-Holds capacity)))

-- ===== src/Prelude/Lists.antt =====
-- Lists measured by native numbers, tests over lists, and predicates by recursion.
use Prim.Native.Nat.{ℕ, zero, suc, ◌+◌, ◌-◌, ◌≤◌, min}
use mathlib.Core.Path.{◌≡◌, refl, ap}
use mathlib.Core.Bool.{Bool, true, false, ◌&&◌, ◌||◌}
use mathlib.Core.List.{List, [], ◌∷◌, ◌++◌}
use mathlib.Core.Option.{Option, none, some}
use native.Mathlib.Omega.{arith}
use open_jax.Prelude.Tests.{if◌then◌else◌}

module _ {ℓ} {A : Type ℓ} where
  abbrev pub length : List A → ℕ
  length [] = 0
  length (x ∷ xs) = suc (length xs)

  abbrev pub any : (A → Bool) → List A → Bool
  any p [] = false
  any p (x ∷ xs) = p x || any p xs

  abbrev pub all : (A → Bool) → List A → Bool
  all p [] = true
  all p (x ∷ xs) = p x && all p xs

  -- The elements that pass the test, in order.
  abbrev pub keep : (A → Bool) → List A → List A
  keep p [] = []
  keep p (x ∷ xs) = if p x then x ∷ keep p xs else keep p xs

  abbrev pub find : (A → Bool) → List A → Option A
  find p [] = none
  find p (x ∷ xs) = if p x then some x else find p xs

  abbrev pub take : ℕ → List A → List A
  take zero xs = []
  take (suc n) [] = []
  take (suc n) (x ∷ xs) = x ∷ take n xs

  abbrev pub drop : ℕ → List A → List A
  drop zero xs = xs
  drop (suc n) [] = []
  drop (suc n) (x ∷ xs) = drop n xs

  abbrev pub take_while : (A → Bool) → List A → List A
  take_while p [] = []
  take_while p (x ∷ xs) = if p x then x ∷ take_while p xs else []

  abbrev pub replicate : ℕ → A → List A
  replicate zero a = []
  replicate (suc n) a = a ∷ replicate n a

  abbrev pub head? : List A → Option A
  head? [] = none
  head? (x ∷ xs) = some x

  abbrev pub last? : List A → Option A
  last? [] = none
  last? (x ∷ []) = some x
  last? (x ∷ y ∷ ys) = last? (y ∷ ys)

  abbrev pub tail : List A → List A
  tail [] = []
  tail (x ∷ xs) = xs

  pub length-append : (xs ys : List A) → length (xs ++ ys) ≡ length xs + length ys
  length-append [] ys = omega arith
  length-append (x ∷ xs) ys = omega (arith, length-append xs ys)

  pub append_nil : (xs : List A) → xs ++ [] ≡ xs
  append_nil [] = refl
  append_nil (x ∷ xs) = ap (◌∷◌ x) (append_nil xs)

  pub append_assoc : (xs ys zs : List A) → (xs ++ ys) ++ zs ≡ xs ++ (ys ++ zs)
  append_assoc [] ys zs = refl
  append_assoc (x ∷ xs) ys zs = ap (◌∷◌ x) (append_assoc xs ys zs)

  pub length-take : (n : ℕ) (xs : List A) → length (take n xs) ≡ min n (length xs)
  length-take zero xs = omega arith
  length-take (suc n) [] = omega arith
  length-take (suc n) (x ∷ xs) = omega (arith, length-take n xs)

  pub length-drop : (n : ℕ) (xs : List A) → length (drop n xs) ≡ length xs - n
  length-drop zero xs = omega arith
  length-drop (suc n) [] = omega arith
  length-drop (suc n) (x ∷ xs) = omega (arith, length-drop n xs)

  pub drop_none : (k : ℕ) → drop k [] ≡ []
  drop_none zero = refl
  drop_none (suc k) = refl

  pub at_drop : (j k : ℕ) (xs : List A) → j ≡ k → drop j xs ≡ drop k xs
  at_drop j k xs h = ap (λ i. drop i xs) h

  pub take-append-drop : (n : ℕ) (xs : List A) → take n xs ++ drop n xs ≡ xs
  take-append-drop zero xs = refl
  take-append-drop (suc n) [] = refl
  take-append-drop (suc n) (x ∷ xs) = ap (◌∷◌ x) (take-append-drop n xs)

  pub length-keep-le : (p : A → Bool) (xs : List A) → length (keep p xs) ≤ length xs
  length-keep-le p [] = omega arith
  length-keep-le p (x ∷ xs) = ground (arith, length-keep-le p xs)

  pub keep-append : (p : A → Bool) (xs ys : List A) → keep p (xs ++ ys) ≡ keep p xs ++ keep p ys
  keep-append p [] ys = refl
  keep-append p (x ∷ xs) ys = ground (arith, keep-append p xs ys)

abbrev pub All {ℓ κ} : {A : Type ℓ} → (A → Type κ) → List A → Type κ
All P [] = Unit
All P (x ∷ xs) = P x × All P xs

-- Membership.
pub data Elem {ℓ} {A : Type ℓ} (a : A) : List A → Type ℓ where
  here : {x : A} {xs : List A} → a ≡ x → Elem a (x ∷ xs)
  there : {x : A} {xs : List A} → Elem a xs → Elem a (x ∷ xs)

module _ {ℓ} {A : Type ℓ} (p : A → Bool) where
  keep_step :
      {a x : A} {xs : List A} (b : Bool)
      → p x ≡ b
      → (Elem a (keep p xs) → Elem a xs × (p a ≡ true))
      → Elem a (if b then x ∷ keep p xs else keep p xs)
      → Elem a (x ∷ xs) × (p a ≡ true)
  keep_step true e ih (here q) = (here q, rw q e)
  keep_step true e ih (there m) = (there (ih m).0, (ih m).1)
  keep_step false e ih m = (there (ih m).0, (ih m).1)

  -- What the test keeps was there, and passes it.
  pub Elem-keep : {a : A} (xs : List A) → Elem a (keep p xs) → Elem a xs × (p a ≡ true)
  Elem-keep [] h = elim h [ ]
  Elem-keep (x ∷ xs) h = keep_step (p x) refl (Elem-keep xs) h

  keep_there :
      {a : A} (x : A) (xs : List A) (b : Bool)
      → Elem a (keep p xs)
      → Elem a (if b then x ∷ keep p xs else keep p xs)
  keep_there x xs true m = there m
  keep_there x xs false m = m

  keep_here :
      {a x : A} (xs : List A) (b : Bool)
      → p x ≡ b
      → a ≡ x
      → p a ≡ true
      → Elem a (if b then x ∷ keep p xs else keep p xs)
  keep_here xs true e q h = here q
  keep_here xs false e q h = cc

  -- What was there and passes the test is kept.
  pub Elem-keep_of : {a : A} {xs : List A} → Elem a xs → p a ≡ true → Elem a (keep p xs)
  Elem-keep_of (here {x = x} {xs = xs} q) e = keep_here xs (p x) refl q e
  Elem-keep_of (there {x = x} {xs = xs} m) e = keep_there x xs (p x) (Elem-keep_of m e)

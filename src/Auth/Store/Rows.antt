-- ===== src/Auth/Store/Rows.antt =====
-- Laws of rows: a test of every row under appending, deletion and update, and finding a row.
use open_jax.Prelude.{
  ◌≡◌, refl, Bool, true, false, ◌&&◌, Option, none, some, List, [], ◌∷◌, ◌++◌, map, any, all, keep,
  find, if◌then◌else◌, arith,
}

module _ {ℓ} {A : Type ℓ} where
  pub all-append : (p : A → Bool) (xs ys : List A) → all p (xs ++ ys) ≡ (all p xs && all p ys)
  all-append p [] ys = refl
  all-append p (x ∷ xs) ys = ground (arith, all-append p xs ys)

  pub all-keep : (p q : A → Bool) (xs : List A) → all p xs ≡ true → all p (keep q xs) ≡ true
  all-keep p q [] h = refl
  all-keep p q (x ∷ xs) h = ground (arith, all-keep p q xs)

  pub all-imp :
      (p q : A → Bool)
      → ((a : A) → p a ≡ true → q a ≡ true)
      → (xs : List A) → all p xs ≡ true
      → all q xs ≡ true
  all-imp p q f [] h = refl
  all-imp p q f (x ∷ xs) h = ground (arith, f x, all-imp p q f xs)

  pub all-map :
      (p q : A → Bool) (g : A → A)
      → ((a : A) → p a ≡ true → q (g a) ≡ true)
      → (xs : List A) → all p xs ≡ true
      → all q (map g xs) ≡ true
  all-map p q g f [] h = refl
  all-map p q g f (x ∷ xs) h = ground (arith, f x, all-map p q g f xs)

  pub find-append_none :
      (p : A → Bool) (xs : List A) (y : A)
      → any p xs ≡ false
      → find p (xs ++ y ∷ []) ≡ (if p y then some y else none)
  find-append_none p [] y h = refl
  find-append_none p (x ∷ xs) y h = ground (arith, find-append_none p xs y)

  pub find-append_some :
      (p : A → Bool) (xs : List A) (y a : A) → find p xs ≡ some a → find p (xs ++ y ∷ []) ≡ some a
  find-append_some p [] y a h = cc
  find-append_some p (x ∷ xs) y a h = ground (arith, find-append_some p xs y a)

  abbrev pub map_option : (A → A) → Option A → Option A
  map_option g none = none
  map_option g (some a) = some (g a)

  -- An update that does not change the test finds the updated row.
  pub find-map :
      (p : A → Bool) (g : A → A)
      → ((a : A) → p (g a) ≡ p a)
      → (xs : List A) → find p (map g xs) ≡ map_option g (find p xs)
  find-map p g e [] = refl
  find-map p g e (x ∷ xs) = ground (arith, e x, find-map p g e xs)

  -- What every row satisfies holds of the row found.
  pub find-all :
      (p q : A → Bool) (xs : List A) (a : A)
      → all q xs ≡ true
      → find p xs ≡ some a
      → (q a ≡ true) × (p a ≡ true)
  find-all p q [] a h e = cc
  find-all p q (x ∷ xs) a h e = ground (arith, find-all p q xs a)

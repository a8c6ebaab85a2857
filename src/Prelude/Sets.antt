-- ===== src/Prelude/Sets.antt =====
-- `BTreeSet`: a sorted list without repetition.
use open_jax.Prelude.{◌≡◌, refl, Ordering, Bool, ◌||◌, List, [], ◌∷◌, arith, any}

-- `BTreeSet::insert`
unfoldable pub insert {ℓ} : {A : Type ℓ} → (A → A → Ordering) → A → List A → List A
insert cmp x [] = x ∷ []
insert cmp x (y ∷ ys) = elim (cmp x y) [
  | Ordering.lt ↦ x ∷ y ∷ ys
  | Ordering.eq ↦ y ∷ ys
  | Ordering.gt ↦ y ∷ insert cmp x ys
]

-- A test that does not tell apart what the order does not tell apart holds of some element after the
-- insertion if it held before, or holds of the new element.
pub any-insert {ℓ} :
    {A : Type ℓ} (cmp : A → A → Ordering) (p : A → Bool)
    → ((a b : A) → cmp a b ≡ Ordering.eq → p a ≡ p b)
    → (x : A) (xs : List A) → any p (insert cmp x xs) ≡ (p x || any p xs)
unfolding insert
any-insert cmp p same x [] = refl
any-insert cmp p same x (y ∷ ys) = ground (arith, same x y, any-insert cmp p same x ys)

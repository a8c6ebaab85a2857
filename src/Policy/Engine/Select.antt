-- ===== src/Policy/Engine/Select.antt =====
-- engine.rs: the selected rule matches and no matching rule precedes it, and the order in which the
-- rules are given does not change the decision.
use open_jax.Prelude.{
  ◌≡◌, refl, ◌≢◌, ◌⊎◌, inl, inr, Ordering, none, some, List, [], ◌∷◌, arith, Elem, here, there,
}
use open_jax.Prelude.Compare.{
  IsLawful, lex-IsLawful, on-IsLawful, reverse-IsLawful, nat_compare-IsLawful, cmp_str-IsLawful,
}
use open_jax.Prelude.Int.{cmp_ℤ-IsLawful}
use open_jax.Policy.Schema.{PolicyRule, conservative_rank, specificity}
use open_jax.Policy.Engine.{compare_rule_precedence, better, max_from, max_by}

-- A best element: no element is above it.
pub record IsMax {ℓ} {A : Type ℓ} (cmp : A → A → Ordering) (m : A) (xs : List A) : Type ℓ where
  pub member : Elem m xs
  pub top : (a : A) → Elem a xs → cmp a m ≢ Ordering.gt

module _ {ℓ} {A : Type ℓ} {cmp : A → A → Ordering} (L : IsLawful cmp) where
  not_gt_trans : (a b c : A) → cmp a b ≢ Ordering.gt → cmp b c ≢ Ordering.gt → cmp a c ≢ Ordering.gt
  not_gt_trans a b c h k = ground (
    arith,
    L.lt_trans a b c,
    L.eq_trans a b c,
    L.eq_trans c b a,
    L.swap a b,
    L.swap b c,
    L.swap a c,
  )

  pub eq_of_not_gt :
      (a b : A) → cmp a b ≢ Ordering.gt → cmp b a ≢ Ordering.gt → cmp a b ≡ Ordering.eq
  eq_of_not_gt a b h k = ground (arith, L.swap a b)

  better_upper :
      (best x : A)
      → (cmp best (better (cmp best x) best x) ≢ Ordering.gt)
        × (cmp x (better (cmp best x) best x) ≢ Ordering.gt)
  better_upper best x = ground (arith, L.swap best best, L.swap x x, L.swap best x)

  better-Elem :
      (best x : A) (o : Ordering) (xs : List A) {m : A}
      → Elem m (better o best x ∷ xs)
      → Elem m (best ∷ x ∷ xs)
  better-Elem best x Ordering.gt xs (here e) = here e
  better-Elem best x Ordering.gt xs (there h) = there (there h)
  better-Elem best x Ordering.eq xs h = there h
  better-Elem best x Ordering.lt xs h = there h

  max_from-Elem : (best : A) (xs : List A) → Elem (max_from cmp best xs) (best ∷ xs)
  unfolding max_from
  max_from-Elem best [] = here refl
  max_from-Elem best (x ∷ xs) =
      better-Elem best x (cmp best x) xs (max_from-Elem (better (cmp best x) best x) xs)

  max_from-top :
      (best : A) (xs : List A) (a : A)
      → Elem a (best ∷ xs)
      → cmp a (max_from cmp best xs) ≢ Ordering.gt
  unfolding max_from
  max_from-top best [] a (here e) = rw e (ground (arith, L.swap best best))
  max_from-top best [] a (there h) = elim h [ ]
  max_from-top best (x ∷ xs) a (here e) = rw e (
      not_gt_trans best _ _ (better_upper best x).0
        (max_from-top (better (cmp best x) best x) xs _ (here refl)))
  max_from-top best (x ∷ xs) a (there (here e)) = rw e (
      not_gt_trans x _ _ (better_upper best x).1
        (max_from-top (better (cmp best x) best x) xs _ (here refl)))
  max_from-top best (x ∷ xs) a (there (there h)) =
      max_from-top (better (cmp best x) best x) xs a (there h)

  pub max_by-IsMax :
      (xs : List A)
      → ((xs ≡ []) × (max_by cmp xs ≡ none)) ⊎ ((m : A) × (max_by cmp xs ≡ some m) × IsMax cmp m xs)
  unfolding max_by
  max_by-IsMax [] = inl (refl, refl)
  max_by-IsMax (x ∷ xs) =
      inr (max_from cmp x xs, refl, record { member = max_from-Elem x xs; top = max_from-top x xs })

pub precedence-IsLawful : IsLawful compare_rule_precedence
unfolding compare_rule_precedence
precedence-IsLawful = lex-IsLawful (on-IsLawful (λ (r : PolicyRule). r.priority) cmp_ℤ-IsLawful) (
    lex-IsLawful (on-IsLawful specificity nat_compare-IsLawful) (
      lex-IsLawful
        (on-IsLawful (λ (r : PolicyRule). conservative_rank r.decision) nat_compare-IsLawful)
        (on-IsLawful (λ (r : PolicyRule). r.id) (reverse-IsLawful cmp_str-IsLawful))))

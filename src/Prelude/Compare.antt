-- ===== src/Prelude/Compare.antt =====
-- Comparison functions into `Ordering`, as Rust's `Ord::cmp`: what makes one lawful, and that
-- lexicographic order, reversal and comparison by a key keep that.
use Prim.Native.String.{[], ◌∷◌, compare as str_compare}
use Prim.Native.String.compare
use text.Mathlib.TextEquality.{path_by_compare}
use open_jax.Prelude.{String, ◌≡◌, compare as nat_compare, Ordering, arith}

-- `Ordering::reverse`
abbrev pub flip : Ordering → Ordering
flip Ordering.lt = Ordering.gt
flip Ordering.eq = Ordering.eq
flip Ordering.gt = Ordering.lt

-- `Ordering::then_with`
abbrev pub then_with : Ordering → Ordering → Ordering
then_with Ordering.lt o = Ordering.lt
then_with Ordering.eq o = o
then_with Ordering.gt o = Ordering.gt

-- A total preorder.
pub record IsLawful {ℓ} {A : Type ℓ} (cmp : A → A → Ordering) : Type ℓ where
  pub swap : (a b : A) → cmp b a ≡ flip (cmp a b)
  pub eq_trans : (a b c : A) → cmp a b ≡ Ordering.eq → cmp a c ≡ cmp b c
  pub lt_trans : (a b c : A) → cmp a b ≡ Ordering.lt → cmp b c ≡ Ordering.lt → cmp a c ≡ Ordering.lt

pub nat_compare-IsLawful : IsLawful nat_compare
nat_compare-IsLawful = record {
  swap = λ a b. ground arith;
  eq_trans = λ a b c h. ground arith;
  lt_trans = λ a b c h k. ground arith;
}

module _ {ℓ} {A : Type ℓ} {f g : A → A → Ordering} (F : IsLawful f) (G : IsLawful g) where
  pub lex-IsLawful : IsLawful (λ a b. then_with (f a b) (g a b))
  lex-IsLawful = record {
    swap = λ a b. ground (arith, F.swap a b, G.swap a b);
    eq_trans = λ a b c h. ground (arith, F.eq_trans a b c, G.eq_trans a b c);
    lt_trans = λ a b c h k. ground (
      arith,
      F.lt_trans a b c,
      G.lt_trans a b c,
      F.eq_trans a b c,
      F.eq_trans c b a,
      F.swap a b,
      F.swap b c,
      F.swap a c,
    );
  }

module _ {ℓ κ} {A : Type ℓ} {B : Type κ} (key : A → B) {f : B → B → Ordering} (F : IsLawful f) where
  pub on-IsLawful : IsLawful (λ a b. f (key a) (key b))
  on-IsLawful = record {
    swap = λ a b. F.swap (key a) (key b);
    eq_trans = λ a b c. F.eq_trans (key a) (key b) (key c);
    lt_trans = λ a b c. F.lt_trans (key a) (key b) (key c);
  }

module _ {ℓ} {A : Type ℓ} {f : A → A → Ordering} (F : IsLawful f) where
  pub reverse-IsLawful : IsLawful (λ a b. f b a)
  reverse-IsLawful = record {
    swap = λ a b. F.swap b a;
    eq_trans = λ a b c h. ground (arith, F.swap a b, F.eq_trans a b c, F.swap a c, F.swap b c);
    lt_trans = λ a b c h k. F.lt_trans c b a k h;
  }

abbrev pub cmp_str : String → String → Ordering
cmp_str = str_compare

cmp_str-swap : (s t : String) → str_compare t s ≡ flip (str_compare s t)
cmp_str-swap [] [] = simp compare.nil-nil
cmp_str-swap [] (d ∷ t) = simp (compare.nil-cons, compare.cons-nil)
cmp_str-swap (c ∷ s) [] = simp (compare.nil-cons, compare.cons-nil)
cmp_str-swap (c ∷ s) (d ∷ t) = simp compare.cons-cons (ground (arith, cmp_str-swap s t))

cmp_str_trans :
    (s t u : String)
    → str_compare s t ≡ Ordering.lt
    → str_compare t u ≡ Ordering.lt
    → str_compare s u ≡ Ordering.lt
cmp_str_trans [] [] u h k = cc
cmp_str_trans [] (d ∷ t) [] h k = cc (compare.cons-nil d t)
cmp_str_trans [] (d ∷ t) (e ∷ u) h k = simp compare.nil-cons
cmp_str_trans (c ∷ s) [] u h k = cc (compare.cons-nil c s)
cmp_str_trans (c ∷ s) (d ∷ t) [] h k = cc (compare.cons-nil d t)
cmp_str_trans (c ∷ s) (d ∷ t) (e ∷ u) h k =
    simp compare.cons-cons (
      ground (arith, cmp_str_trans s t u, simp compare.cons-cons at h, simp compare.cons-cons at k))

pub cmp_str-IsLawful : IsLawful cmp_str
cmp_str-IsLawful = record {
  swap = cmp_str-swap;
  eq_trans = λ a b c h. rw (path_by_compare a b h);
  lt_trans = cmp_str_trans;
}

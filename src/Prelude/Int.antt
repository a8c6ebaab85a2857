-- ===== src/Prelude/Int.antt =====
-- Signed integers (`i32`, `i64`) and their order.
use open_jax.Prelude.{ℕ, compare, Ordering, arith}
use open_jax.Prelude.Compare.{IsLawful}

-- `negsuc n` is -(n + 1).
pub data ℤ : Type 0 where
  pos : ℕ → ℤ
  negsuc : ℕ → ℤ

abbrev pub cmp_ℤ : ℤ → ℤ → Ordering
cmp_ℤ (pos a) (pos b) = compare a b
cmp_ℤ (pos a) (negsuc b) = Ordering.gt
cmp_ℤ (negsuc a) (pos b) = Ordering.lt
cmp_ℤ (negsuc a) (negsuc b) = compare b a

pub cmp_ℤ-IsLawful : IsLawful cmp_ℤ
cmp_ℤ-IsLawful = record {
  swap = λ a b. ground arith;
  eq_trans = λ a b c h. ground arith;
  lt_trans = λ a b c h k. ground arith;
}

-- ===== src/Prelude/Names.antt =====
-- Comparisons of one name with several literals.
use open_jax.Prelude.{String, ◌≡◌, false, ◌&&◌, arith, str_eq, str_eq_iff}

-- A name is not two different literals.
pub str_eq-other : (n a b : String) → str_eq a b ≡ false → (str_eq n a && str_eq n b) ≡ false
str_eq-other n a b h = ground (arith, str_eq_iff n a, str_eq_iff n b, str_eq_iff a b)

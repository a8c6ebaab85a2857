-- ===== src/Prelude/Words.antt =====
-- Machine integers: `u64` addition that wraps or saturates.
use Prim.Native.Nat.{ℕ, ◌+◌, ◌-◌, ◌%◌, ◌^◌, ◌<◌, min}
use mathlib.Core.Path.{◌≡◌}
use native.Mathlib.Omega.{arith}

abbrev pub u64_mod : ℕ
u64_mod = 2 ^ 64

abbrev pub wrap64 : ℕ → ℕ
wrap64 n = n % 2 ^ 64

-- `u64::saturating_add`, and `usize::saturating_add` on a 64-bit target.
abbrev pub saturating_add : ℕ → ℕ → ℕ
saturating_add a b = min (a + b) (2 ^ 64 - 1)

pub wrap64_small : (n : ℕ) → n < u64_mod → wrap64 n ≡ n
wrap64_small n h = omega arith

pub saturating_add_small : (a b : ℕ) → a + b < u64_mod → saturating_add a b ≡ a + b
saturating_add_small a b h = omega arith

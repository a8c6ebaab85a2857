-- ===== src/Sandbox/Risk/Case.antt =====
-- sandbox/policy.rs: `starts_with_env_assignment` reads no letter, so that the case does not matter.
use open_jax.Prelude.{ℕ, ◌<◌, ◌≡◌, refl, [], ◌∷◌, Option, none, some, arith, ◌==◌, All}
use open_jax.Prelude.Texts.{
  Text, codes, starts_with, contains, lower_char, to_ascii_lowercase, split_once,
}
use open_jax.Sandbox.Risk.{is_assignment, starts_with_env_assignment}

-- Below the letters.
abbrev Below : Text → Type 0
Below = All (λ x. x < 65)

lower_char-== : (c x : ℕ) → x < 65 → (lower_char c == x) ≡ (c == x)
unfolding lower_char
lower_char-== c x h = ground arith

starts_with-lower :
    (text p : Text) → Below p → starts_with (to_ascii_lowercase text) p ≡ starts_with text p
unfolding starts_with to_ascii_lowercase
starts_with-lower text [] b = refl
starts_with-lower [] (x ∷ p) b = refl
starts_with-lower (c ∷ text) (x ∷ p) b = cc (lower_char-== c x b.0, starts_with-lower text p b.1)

contains-lower : (text p : Text) → Below p → contains (to_ascii_lowercase text) p ≡ contains text p
unfolding contains to_ascii_lowercase
contains-lower [] p b = starts_with-lower [] p b
contains-lower (c ∷ text) p b = cc (starts_with-lower (c ∷ text) p b, contains-lower text p b)

abbrev lower_parts : Option (Text × Text) → Option (Text × Text)
lower_parts none = none
lower_parts (some (l, r)) = some (to_ascii_lowercase l, to_ascii_lowercase r)

split_once-lower :
    (sep : ℕ) (text : Text)
    → sep < 65
    → split_once sep (to_ascii_lowercase text) ≡ lower_parts (split_once sep text)
unfolding split_once to_ascii_lowercase
split_once-lower sep [] h = refl
split_once-lower sep (c ∷ text) h =
    ground (arith, lower_char-== c sep h, split_once-lower sep text h)

is_assignment-lower : (o : Option (Text × Text)) → is_assignment (lower_parts o) ≡ is_assignment o
is_assignment-lower none = refl
is_assignment-lower (some (l, r)) = cc (
  contains-lower l (codes "=") (omega arith),
  starts_with-lower l (codes "./") (omega arith),
  starts_with-lower l (codes "/") (omega arith),
)

pub env_assignment-lower :
    (command : Text)
    → starts_with_env_assignment (to_ascii_lowercase command) ≡ starts_with_env_assignment command
unfolding starts_with_env_assignment
env_assignment-lower command =
    rw (split_once-lower b' ' command (omega arith)) (is_assignment-lower (split_once b' ' command))

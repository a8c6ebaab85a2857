-- ===== src/Prelude/Texts/Laws.antt =====
-- Laws of substrings and letter case.
use open_jax.Prelude.{ℕ, ◌≡◌, refl, true, [], ◌∷◌, ◌++◌, arith}
use open_jax.Prelude.Texts.{
  trim, Text, codes, starts_with, contains, lower_char, to_ascii_lowercase, normalize,
}

lower_char_idem : (c : ℕ) → lower_char (lower_char c) ≡ lower_char c
unfolding lower_char
lower_char_idem c = ground arith

pub lower_idem :
    (text : Text) → to_ascii_lowercase (to_ascii_lowercase text) ≡ to_ascii_lowercase text
unfolding to_ascii_lowercase
lower_idem [] = refl
lower_idem (c ∷ text) = cc (lower_char_idem c, lower_idem text)

starts_with-append :
    (text p q : Text) → starts_with text (p ++ q) ≡ true → starts_with text p ≡ true
unfolding starts_with
starts_with-append text [] q h = refl
starts_with-append [] (x ∷ p) q h = cc
starts_with-append (c ∷ text) (x ∷ p) q h = ground (arith, starts_with-append text p q)

-- A text that contains a pattern contains each beginning of it.
pub contains-prefix : (text p q : Text) → contains text (p ++ q) ≡ true → contains text p ≡ true
unfolding contains
contains-prefix [] p q h = starts_with-append [] p q h
contains-prefix (c ∷ text) p q h =
    ground (arith, starts_with-append (c ∷ text) p q, contains-prefix text p q)

normal_one : normalize (codes "  rm   -rf / ") ≡ codes "rm -rf /"
unfolding normalize
normal_one = refl

trim_words : trim "  a b " ≡ "a b"
unfolding trim
trim_words = refl

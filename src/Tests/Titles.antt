-- ===== src/Tests/Titles.antt =====
-- Runs of the theorems on the titles of sessions.
use open_jax.Prelude.{arith, ℕ, String, ◌≡◌, refl, Bool, true, false, List, [], ◌∷◌}
use open_jax.Prelude.Texts.{codes}
use open_jax.Prelude.Json.{Json, object, no_fields, field, string}
use open_jax.Gateway.Titles.{new_cache, should_skip}
use open_jax.Gateway.Titles.Bounded
use open_jax.Gateway.Titles.Windows.{skip_all, marked_answers, skip_all-IsSound, skip_all-answers}
use open_jax.Gateway.Titles.Derive.{
  IsWithin, derive_session_title, derive_last_preview, derive-IsWithin,
}

abbrev asked : List (String × ℕ)
asked = ("k1", 1) ∷ ("k2", 2) ∷ ("k1", 5) ∷ ("k1", 12) ∷ ("k2", 12) ∷ []

abbrev asked_answers : List Bool
asked_answers = false ∷ false ∷ true ∷ false ∷ false ∷ []

answers : (skip_all asked (new_cache 10 2)).0 ≡ asked_answers
unfolding should_skip
answers = refl

skip_all-IsSound_example : Bounded.IsSound (skip_all asked (new_cache 10 1)).1
skip_all-IsSound_example = skip_all-IsSound 10 1 asked

skip_all-answers_example : (skip_all asked (new_cache 10 8)).0 ≡ marked_answers 10 asked []
skip_all-answers_example =
    skip_all-answers 10 8 asked
      (omega arith, (omega arith, (omega arith, (omega arith, (omega arith, tt))))) (omega arith)

abbrev message : Json
message =
    object (field "content" (string (codes "  plan the work of the whole next week ")) no_fields)

derive-IsWithin_example :
    IsWithin 1 27 (derive_session_title "user_message" message)
    × IsWithin 0 120 (derive_last_preview "user_message" message)
derive-IsWithin_example = derive-IsWithin "user_message" message

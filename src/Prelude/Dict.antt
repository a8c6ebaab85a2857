-- ===== src/Prelude/Dict.antt =====
-- A map with text keys (`HashMap<String, V>`, `BTreeMap<String, V>`) as an association list without
-- repeated keys; the order of iteration is not modelled.
use open_jax.Prelude.{
  String, ◌≡◌, refl, false, Option, none, some, List, [], ◌∷◌, arith, str_eq, str_eq_iff,
  if◌then◌else◌, is_some,
}

abbrev pub Dict {ℓ} : Type ℓ → Type ℓ
Dict V = List (String × V)

module _ {ℓ} {V : Type ℓ} where
  unfoldable pub get : String → Dict V → Option V
  get k [] = none
  get k ((j, v) ∷ m) = if str_eq j k then some v else get k m

  unfoldable pub insert : String → V → Dict V → Dict V
  insert k v [] = (k, v) ∷ []
  insert k v ((j, w) ∷ m) = if str_eq j k then (j, v) ∷ m else (j, w) ∷ insert k v m

  -- Every entry of the key goes, of which there is at most one.
  unfoldable pub remove : String → Dict V → Dict V
  remove k [] = []
  remove k ((j, w) ∷ m) = let rest = remove k m in if str_eq j k then rest else (j, w) ∷ rest

  pub get-insert :
      (k j : String) (v : V) (m : Dict V)
      → get j (insert k v m) ≡ (if str_eq k j then some v else get j m)
  unfolding get insert
  get-insert k j v [] = refl
  get-insert k j v ((i, w) ∷ m) =
      ground (arith, str_eq_iff k j, str_eq_iff i k, str_eq_iff i j, get-insert k j v m)

  pub get-remove :
      (k j : String) (m : Dict V) → get j (remove k m) ≡ (if str_eq k j then none else get j m)
  unfolding get remove
  get-remove k j [] = ground arith
  get-remove k j ((i, w) ∷ m) =
      ground (arith, str_eq_iff k j, str_eq_iff i k, str_eq_iff i j, get-remove k j m)

  -- No key twice.
  abbrev pub IsKeyed : Dict V → Type 0
  IsKeyed [] = Unit {0}
  IsKeyed ((k, v) ∷ m) = (is_some (get k m) ≡ false) × IsKeyed m

  pub insert-IsKeyed : (k : String) (v : V) (m : Dict V) → IsKeyed m → IsKeyed (insert k v m)
  unfolding get insert
  insert-IsKeyed k v [] h = (refl, tt)
  insert-IsKeyed k v ((j, w) ∷ m) h =
      ground (arith, str_eq_iff j k, str_eq_iff k j, get-insert k j v m, insert-IsKeyed k v m h.1)

  pub remove-IsKeyed : (k : String) (m : Dict V) → IsKeyed m → IsKeyed (remove k m)
  unfolding get remove
  remove-IsKeyed k [] h = tt
  remove-IsKeyed k ((j, w) ∷ m) h =
      ground (arith, str_eq_iff j k, str_eq_iff k j, get-remove k j m, remove-IsKeyed k m h.1)

pub ruleset dict_laws = (get-insert, get-remove)

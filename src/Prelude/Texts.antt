-- ===== src/Prelude/Texts.antt =====
-- Text that the program walks is a list of its code points; `String` is for what it only compares.
pub mod Laws
use Prim.Native.Char.{code}
use open_jax.Prelude.{
  ℕ, ◌+◌, String, Bool, true, false, ◌&&◌, ◌||◌, not, List, [], ◌∷◌, ◌++◌, map, Option, none, some,
  leb, ◌==◌, if◌then◌else◌, any,
}

abbrev pub Text : Type 0
Text = List ℕ

-- The code points of a literal.
abbrev pub codes : String → Text
codes String.[] = []
codes (String.◌∷◌ c s) = code c ∷ codes s

-- Equality of texts.
unfoldable pub text_eq : Text → Text → Bool
text_eq [] [] = true
text_eq (c ∷ s) (d ∷ t) = (c == d) && text_eq s t
text_eq _ _ = false

-- `str::starts_with`
unfoldable pub starts_with : Text → Text → Bool
starts_with text [] = true
starts_with [] (p ∷ ps) = false
starts_with (c ∷ text) (p ∷ ps) = (c == p) && starts_with text ps

-- `str::contains`
unfoldable pub contains : Text → Text → Bool
unfolding starts_with
contains [] pattern = starts_with [] pattern
contains (c ∷ text) pattern = starts_with (c ∷ text) pattern || contains text pattern

unfoldable pub lower_char : ℕ → ℕ
lower_char c = if leb b'A' c && leb c b'Z' then c + 32 else c

-- `str::to_ascii_lowercase`
unfoldable pub to_ascii_lowercase : Text → Text
unfolding lower_char
to_ascii_lowercase text = map lower_char text

-- `char::is_whitespace`
unfoldable pub is_whitespace : ℕ → Bool
is_whitespace c =
    (leb 9 c && leb c 13)
    || (c == 32)
    || (c == 133)
    || (c == 160)
    || (c == 5760)
    || (leb 8192 c && leb c 8202)
    || (c == 8232)
    || (c == 8233)
    || (c == 8239)
    || (c == 8287)
    || (c == 12288)

abbrev pub is_empty {ℓ} : {A : Type ℓ} → List A → Bool
is_empty [] = true
is_empty (x ∷ xs) = false

-- `str::trim_start`
unfoldable pub trim_start : Text → Text
unfolding is_whitespace
trim_start [] = []
trim_start (c ∷ text) = let rest = trim_start text in if is_whitespace c then rest else c ∷ text

-- `str::trim_end`
unfoldable pub trim_end : Text → Text
unfolding is_whitespace
trim_end [] = []
trim_end (c ∷ text) =
    let rest = trim_end text in if is_whitespace c && is_empty rest then [] else c ∷ rest

-- The letters up to the next white space, put before the word that was open.
abbrev pub flush : Text → List Text → List Text
flush [] rest = rest
flush (w ∷ word) rest = (w ∷ word) ∷ rest

-- `str::split_whitespace`, with the letters of the word that is open.
unfoldable pub words_from : Text → Text → List Text
unfolding is_whitespace
words_from word [] = flush word []
words_from word (c ∷ text) =
    let ended = words_from [] text in
    let longer = words_from (word ++ c ∷ []) text in
    if is_whitespace c then flush word ended else longer

unfoldable pub split_whitespace : Text → List Text
unfolding words_from
split_whitespace text = words_from [] text

-- `[Text]::join(" ")`
unfoldable pub join_words : List Text → Text
join_words [] = []
join_words (w ∷ []) = w
join_words (w ∷ v ∷ vs) = w ++ b' ' ∷ join_words (v ∷ vs)

-- `split_whitespace().collect::<Vec<_>>().join(" ")`
unfoldable pub normalize : Text → Text
unfolding split_whitespace join_words
normalize text = join_words (split_whitespace text)

-- `str::split_once(' ')`
unfoldable pub split_once : ℕ → Text → Option (Text × Text)
split_once sep [] = none
split_once sep (c ∷ text) =
    let rest = split_once sep text in
    if c == sep
    then some ([], text)
    else elim rest [ none ↦ none | some (left, right) ↦ some (c ∷ left, right) ]

-- `str::trim`, on a text that is a `String`.
unfoldable pub trim_left : String → String
unfolding is_whitespace
trim_left String.[] = String.[]
trim_left (String.◌∷◌ c s) =
    let rest = trim_left s in if is_whitespace (code c) then rest else String.◌∷◌ c s

abbrev pub end_at : Bool → String → String → String
end_at true kept String.[] = String.[]
end_at true kept (String.◌∷◌ c s) = kept
end_at false kept rest = kept

unfoldable pub trim_right : String → String
unfolding is_whitespace
trim_right String.[] = String.[]
trim_right (String.◌∷◌ c s) =
    let rest = trim_right s in end_at (is_whitespace (code c)) (String.◌∷◌ c rest) rest

unfoldable pub trim : String → String
unfolding trim_left trim_right
trim s = trim_right (trim_left s)

-- ===== src/Pio/Chars.antt =====
-- Characters and texts as pio-encode/src/lib.rs uses them: the classes of `char`, `trim`,
-- `split_whitespace`, `lines`, `find` and `join`.
use beemel.Prelude.{
  ℕ, Text, Bool, false, ◌&&◌, ◌||◌, Option, none, some, List, [], ◌∷◌, ◌++◌, leb, ltb, ◌==◌,
  if◌then◌else◌,
}
use mathlib.Core.List.{reverse}

-- The classes of the characters above ASCII, which are tables of the Rust library.
pub record Unicode : Type 0 where
  pub wide_alphabetic : ℕ → Bool
  pub wide_numeric : ℕ → Bool
  pub wide_whitespace : ℕ → Bool

abbrev pub ascii_only : Unicode
ascii_only = record {
  wide_alphabetic = λ c. false;
  wide_numeric = λ c. false;
  wide_whitespace = λ c. false;
}

unfoldable pub is_ascii_digit : ℕ → Bool
is_ascii_digit c = leb b'0' c && leb c b'9'

unfoldable pub is_ascii_alphabetic : ℕ → Bool
is_ascii_alphabetic c = (leb b'A' c && leb c b'Z') || (leb b'a' c && leb c b'z')

unfoldable pub is_ascii_alphanumeric : ℕ → Bool
unfolding is_ascii_digit is_ascii_alphabetic
is_ascii_alphanumeric c = is_ascii_digit c || is_ascii_alphabetic c

unfoldable pub take_while : (ℕ → Bool) → Text → Text
take_while p [] = []
take_while p (c ∷ t) = if p c then c ∷ take_while p t else []

unfoldable pub drop_while : (ℕ → Bool) → Text → Text
drop_while p [] = []
drop_while p (c ∷ t) = if p c then drop_while p t else c ∷ t

-- The text before the first `c` and the text after it.
unfoldable pub break_at : ℕ → Text → Option (Text × Text)
break_at c [] = none
break_at c (d ∷ t) =
    let later : Option (Text × Text) = elim (break_at c t) [
      | none ↦ none
      | some (a, b) ↦ some (d ∷ a, b)
    ] in
    if d == c then some ([], t) else later

module _ (u : Unicode) where
  unfoldable pub is_alphabetic : ℕ → Bool
  unfolding is_ascii_alphabetic
  is_alphabetic c = if ltb c 128 then is_ascii_alphabetic c else u.wide_alphabetic c

  unfoldable pub is_alphanumeric : ℕ → Bool
  unfolding is_ascii_alphanumeric
  is_alphanumeric c =
      if ltb c 128 then is_ascii_alphanumeric c else u.wide_alphabetic c || u.wide_numeric c

  unfoldable pub is_whitespace : ℕ → Bool
  is_whitespace c = if ltb c 128 then c == 32 || (leb 9 c && leb c 13) else u.wide_whitespace c

  unfoldable pub trim_start : Text → Text
  unfolding drop_while is_whitespace
  trim_start t = drop_while is_whitespace t

  unfoldable pub trim : Text → Text
  unfolding trim_start
  trim t = reverse (trim_start (reverse (trim_start t)))

  -- The words of a text; `word` is the word read so far, reversed.
  unfoldable pub words_from : Text → Text → List Text
  unfolding is_whitespace
  words_from [] [] = []
  words_from (w ∷ word) [] = reverse (w ∷ word) ∷ []
  words_from [] (c ∷ t) = words_from (if is_whitespace c then [] else c ∷ []) t
  words_from (w ∷ word) (c ∷ t) =
      let cut = reverse (w ∷ word) ∷ words_from [] t in
      let more = words_from (c ∷ w ∷ word) t in if is_whitespace c then cut else more

  unfoldable pub split_whitespace : Text → List Text
  unfolding words_from
  split_whitespace t = words_from [] t

-- `lines`: a line ends at `\n`, a `\r` before it is dropped, and no empty line follows the last.
drop_cr : Text → Text
drop_cr [] = []
drop_cr (c ∷ t) = if c == 13 then t else c ∷ t

unfoldable pub lines_from : Text → Text → List Text
unfolding drop_cr
lines_from [] [] = []
lines_from (w ∷ line) [] = reverse (w ∷ line) ∷ []
lines_from line (c ∷ t) =
    let cut = reverse (drop_cr line) ∷ lines_from [] t in
    let more = lines_from (c ∷ line) t in if c == 10 then cut else more

unfoldable pub lines : Text → List Text
unfolding lines_from
lines t = lines_from [] t

-- `join(" ")`.
unfoldable pub join_words : List Text → Text
join_words [] = []
join_words (w ∷ []) = w
join_words (w ∷ v ∷ ws) = w ++ 32 ∷ join_words (v ∷ ws)

-- ===== src/Pio/Expr/Lex.antt =====
-- `lex_expr` and `parse_int` of pio-encode/src/lib.rs.
use beemel.Prelude.{
  ℕ, zero, suc, ◌+◌, ◌-◌, ◌*◌, ◌^◌, Text, Bool, false, ◌&&◌, ◌||◌, Option, none, some, List, [],
  ◌∷◌, leb, ltb, ◌==◌, if◌then◌else◌, length, codes, strip_prefix, map_or,
}
use beemel.Prelude.Int.{ℤ, pos}
use beemel.Pio.Error.{
  ETok, int, sym, op, shl, shr, lparen, rparen, Outcome, ok, err, out_of_fuel, unexpected_char,
  invalid_integer, or_err, ◌>>=◌,
}
use beemel.Pio.Chars.{
  Unicode, is_ascii_digit, is_ascii_alphanumeric, is_alphabetic, is_alphanumeric, is_whitespace,
  take_while, drop_while,
}

-- `to_digit(radix)`.
unfoldable pub to_digit : ℕ → ℕ → Option ℕ
to_digit radix c =
    let d : ℕ =
      if leb b'0' c && leb c b'9'
      then c - b'0'
      else if leb b'a' c && leb c b'z'
      then c - b'a' + 10
      else if leb b'A' c && leb c b'Z'
      then c - b'A' + 10
      else radix in
    if ltb d radix then some d else none

unfoldable pub digits_value : ℕ → ℕ → Text → Option ℕ
unfolding to_digit
digits_value radix acc [] = some acc
digits_value radix acc (c ∷ t) = elim (to_digit radix c) [
  | none ↦ none
  | some d ↦ digits_value radix (acc * radix + d) t
]

-- `i64::from_str_radix` on a text with no sign: not empty, all digits, and at most `i64::MAX`.
unfoldable pub from_str_radix : ℕ → Text → Option ℤ
unfolding digits_value
from_str_radix radix [] = none
from_str_radix radix (c ∷ t) = elim (digits_value radix 0 (c ∷ t)) [
  | none ↦ none
  | some n ↦ if ltb n (2 ^ 63) then some (pos n) else none
]

abbrev pub or_else {ℓ} : {A : Type ℓ} → Option A → Option A → Option A
or_else none b = b
or_else (some a) b = some a

unfoldable pub radix_value : Text → Option ℤ
unfolding from_str_radix
radix_value lit =
    map_or (or_else (strip_prefix (codes "0x") lit) (strip_prefix (codes "0X") lit))
      (map_or (or_else (strip_prefix (codes "0b") lit) (strip_prefix (codes "0B") lit))
        (from_str_radix 10 lit) λ b. from_str_radix 2 b)
      λ h. from_str_radix 16 h

unfoldable pub parse_int : Text → Outcome ℤ
unfolding radix_value
parse_int lit = or_err (radix_value lit) (invalid_integer lit)

unfoldable pub is_operator : ℕ → Bool
is_operator c =
    c == b'+'
    || (c == b'-'
        || (c == b'*' || (c == b'/' || (c == b'%' || (c == b'&' || (c == b'|' || c == b'^'))))))

-- `chars.get(i + 1) == Some(&c)`.
abbrev next_is : ℕ → Text → Bool
next_is c [] = false
next_is c (d ∷ t) = d == c

abbrev pub rest : Text → Text
rest [] = []
rest (c ∷ t) = t

unfoldable pub push : ETok → Outcome (List ETok) → Outcome (List ETok)
push t out = do ts ← out; ok (t ∷ ts)

-- Which branch of the loop a character takes.
pub data Class : Type 0 where
  blank left_shift right_shift operator open_paren close_paren digit letter other : Class

module _ (u : Unicode) where
  unfoldable pub is_symbol_char : ℕ → Bool
  unfolding is_alphanumeric
  is_symbol_char c = is_alphanumeric u c || c == b'_'

  unfoldable pub classify : ℕ → Text → Class
  unfolding is_whitespace is_operator is_ascii_digit is_alphabetic
  classify c t =
      if is_whitespace u c
      then blank
      else if c == b'<' && next_is b'<' t
      then left_shift
      else if c == b'>' && next_is b'>' t
      then right_shift
      else if is_operator c
      then operator
      else if c == b'('
      then open_paren
      else if c == b')'
      then close_paren
      else if is_ascii_digit c
      then digit
      else if is_alphabetic u c || c == b'_'
      then letter
      else other

  -- One round of the loop: the token read goes in front of what `more` makes of the rest.
  unfoldable pub lex_branch : Class → ℕ → Text → (Text → Outcome (List ETok)) → Outcome (List ETok)
  unfolding is_symbol_char is_ascii_alphanumeric take_while drop_while parse_int push
  lex_branch blank c t more = more t
  lex_branch left_shift c t more = push shl (more (rest t))
  lex_branch right_shift c t more = push shr (more (rest t))
  lex_branch operator c t more = push (op c) (more t)
  lex_branch open_paren c t more = push lparen (more t)
  lex_branch close_paren c t more = push rparen (more t)
  lex_branch digit c t more = do
    v ← parse_int (take_while is_ascii_alphanumeric (c ∷ t))
    push (int v) (more (drop_while is_ascii_alphanumeric t))
  lex_branch letter c t more =
      push (sym (take_while is_symbol_char (c ∷ t))) (more (drop_while is_symbol_char t))
  lex_branch other c t more = err (unexpected_char c)

  -- The loop over the characters left. An error ends it at once, before what follows is read.
  unfoldable pub lex_loop : ℕ → Text → Outcome (List ETok)
  unfolding classify lex_branch
  lex_loop zero t = out_of_fuel
  lex_loop (suc f) [] = ok []
  lex_loop (suc f) (c ∷ t) = lex_branch (classify c t) c t λ r. lex_loop f r

  unfoldable pub lex_expr : Text → Outcome (List ETok)
  unfolding lex_loop
  lex_expr t = lex_loop (suc (length t)) t

-- ===== src/Pio/Directive.antt =====
-- The directives of pio-encode/src/lib.rs.
use beemel.Prelude.{
  ℕ, Text, Bool, true, false, ◌||◌, Option, none, some, List, [], ◌∷◌, if◌then◌else◌, codes,
  strip_prefix, ◌is◌,
}
use beemel.Prelude.Int.{pos_part, within}
use beemel.Pio.Error.{Error, Outcome, ok}
use beemel.Pio.Chars.{
  Unicode, is_whitespace, trim_start, trim, split_whitespace, take_while, drop_while,
}
use beemel.Pio.Expr.Parser.{eval}
use beemel.Pio.State.{
  Assembler, as_u8, add_error, match_eval, side_set_qualifiers, define_symbol, dir_wrap,
}

abbrev pub first_word : List Text → Text
first_word [] = []
first_word (t ∷ ts) = t

abbrev or_empty : Option Text → Text
or_empty none = []
or_empty (some t) = t

module _ (u : Unicode) where
  unfoldable pub dir_side_set : List Text → ℕ → Assembler → Outcome Assembler
  unfolding side_set_qualifiers
  dir_side_set (name ∷ t ∷ quals) line a = match_eval (eval u a.symbols t) line a λ v.
      if within 0 5 v
      then side_set_qualifiers quals (pos_part v) false false line a
      else add_error line (Error.side_set_out_of_range v) a
  dir_side_set _ line a = ok (add_error line Error.side_set_needs_count a)

  -- `splitn(2, char::is_whitespace)`: the first piece, and the second if there is a separator.
  unfoldable pub splitn_two : Text → Text × Option Text
  splitn_two t =
      let ends = λ (c : ℕ). if is_whitespace u c then false else true in
      (take_while ends t, elim (drop_while ends t) [ [] ↦ none | c ∷ rest ↦ some rest ])

  unfoldable pub define_named : Bool → Text → Option Text → ℕ → Assembler → Outcome Assembler
  unfolding define_symbol trim
  define_named public [] expr line a = ok (add_error line Error.define_needs_name a)
  define_named public (c ∷ sym) none line a = ok (add_error line Error.define_needs_value a)
  define_named public (c ∷ sym) (some expr) line a =
      match_eval (eval u a.symbols (trim u expr)) line a
        λ v. define_symbol public (c ∷ sym) v line a

  -- The `PUBLIC` marker, and the text behind it.
  unfoldable pub define_public : Text → Bool × Text
  unfolding trim_start
  define_public rest = elim (strip_prefix (codes "PUBLIC ") rest) [
    | some r ↦ (true, trim_start u r)
    | none ↦ elim (strip_prefix (codes "public ") rest) [
      | some r ↦ (true, trim_start u r)
      | none ↦ (false, rest)
    ]
  ]

  unfoldable pub dir_define : Text → ℕ → Assembler → Outcome Assembler
  unfolding define_public splitn_two define_named
  dir_define body line a =
      let (public, rest) =
        define_public (trim_start u (or_empty (strip_prefix (codes "define") body))) in
      let (sym, expr) = splitn_two rest in define_named public sym expr line a

  unfoldable pub origin_at : Text → ℕ → Assembler → Outcome Assembler
  origin_at [] line a = ok (add_error line Error.origin_needs_address a)
  origin_at (c ∷ rest) line a = match_eval (eval u a.symbols (c ∷ rest)) line a λ v.
      if within 0 31 v
      then record a { origin = some (pos_part v) }
      else add_error line (Error.origin_out_of_range v) a

  unfoldable pub dir_origin : Text → ℕ → Assembler → Outcome Assembler
  unfolding origin_at trim
  dir_origin body line a = origin_at (trim u (or_empty (strip_prefix (codes "origin") body))) line a

  unfoldable pub directive : Text → ℕ → ℕ → Assembler → Outcome Assembler
  unfolding dir_side_set dir_define dir_origin dir_wrap split_whitespace
  directive body instr_index line a =
      let toks = split_whitespace u body in
      let name = first_word toks in
      if name is "program"
      then ok (add_error line Error.program_directive a)
      else if name is "side_set"
      then dir_side_set toks line a
      else if name is "wrap_target"
      then ok (record a { wrap_target = some (as_u8 instr_index) })
      else if name is "wrap"
      then ok (dir_wrap instr_index line a)
      else if name is "origin"
      then dir_origin body line a
      else if name is "define"
      then dir_define body line a
      else if (name is "lang_opt")
          || ((name is "pio_version") || ((name is "clock_div") || (name is "fifo")))
      then ok a
      else ok (add_error line (Error.unknown_directive name) a)

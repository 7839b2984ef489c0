-- ===== src/Ast/Names.antt =====
-- `Span` of bml-core/src/source.rs, and the flat types of bml-core/src/ast.rs: names, operators,
-- suffixes.
use beemel.Prelude.{ℕ, Text, min, max}

-- `file` is the number in `FileId`.
pub record Span : Type 0 where
  pub file : ℕ
  pub start : ℕ
  pub end : ℕ

-- `Span::merge`, `Span::empty`.
unfoldable pub merge : Span → Span → Span
merge s t = record { file = s.file; start = min s.start t.start; end = max s.end t.end }

abbrev pub empty_span : ℕ → ℕ → Span
empty_span file pos = record { file = file; start = pos; end = pos }

-- `(String, Span)`.
pub record Ident : Type 0 where
  pub name : Text
  pub span : Span

pub data FloatSuffix : Type 0 where
  no_float_suffix h_suffix f_suffix d_suffix : FloatSuffix

pub data IntSuffix : Type 0 where
  no_int_suffix i8 i16 i32 i64 u8 u16 u32 u64 : IntSuffix

pub data UnaryOp : Type 0 where
  neg not_op bit_not deref addr_of addr_of_mut : UnaryOp

pub data BinaryOp : Type 0 where
  add sub mul add_wrap sub_wrap mul_wrap div mod_op and_op or_op : BinaryOp
  bit_and_op bit_or_op bit_xor_op shl shr eq not_eq lt gt lt_eq gt_eq : BinaryOp

unfoldable pub precedence : BinaryOp → ℕ
precedence or_op = 1
precedence and_op = 2
precedence eq = 3
precedence not_eq = 3
precedence lt = 3
precedence gt = 3
precedence lt_eq = 3
precedence gt_eq = 3
precedence bit_or_op = 4
precedence bit_xor_op = 5
precedence bit_and_op = 6
precedence shl = 7
precedence shr = 7
precedence add = 8
precedence sub = 8
precedence add_wrap = 8
precedence sub_wrap = 8
precedence mul = 9
precedence mul_wrap = 9
precedence div = 9
precedence mod_op = 9

pub data ForDirection : Type 0 where
  upto downto : ForDirection

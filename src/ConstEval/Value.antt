-- ===== src/ConstEval/Value.antt =====
-- The values of bml-core/src/consteval.rs, its environments, and its operators and casts.
use beemel.Prelude.{
  ℕ, ◌-◌, ◌^◌, Text, Bool, true, false, ◌&&◌, ◌||◌, not, Option, none, some, if◌then◌else◌, ◌is◌,
}
use beemel.Prelude.Int.{ℤ, pos, ◌-ℤ◌, leb_ℤ, ltb_ℤ, eqb_ℤ}
use beemel.Word.{
  checked_add, checked_sub, checked_mul, checked_div, checked_rem, checked_neg, and_word, or_word,
  xor_word, not_word, shift_right, checked_shl, checked_shr,
}
use beemel.Ast.Names.{
  BinaryOp, add, sub, mul, add_wrap, sub_wrap, mul_wrap, div, mod_op, and_op, or_op, bit_and_op,
  bit_or_op, bit_xor_op, shl, shr, eq, not_eq, lt, gt, lt_eq, gt_eq, UnaryOp, neg, not_op, bit_not,
}
use beemel.Ast.Syntax.{TypeExpr, named}

-- An `Int` is an `i128`.
pub data ConstVal : Type 0 where
  int_val : ℤ → ConstVal
  bool_val : Bool → ConstVal

-- `trait Env`.
pub record Env : Type 0 where
  pub const_int : Text → Option ℤ
  pub const_bool : Text → Option Bool
  pub array_len : Text → Option ℤ
  pub sizeof : TypeExpr → Option ℤ
  pub enum_value : Text → Text → Option ℤ

-- `Option`, or the panic of an arithmetic overflow (the profile that checks for it).
pub data Folded {ℓ} (A : Type ℓ) : Type ℓ where
  folded : A → Folded A
  not_const panic : Folded A

infixl 1 ◌>>=◌
abbrev pub ◌>>=◌ {ℓ κ} : {A : Type ℓ} {B : Type κ} → Folded A → (A → Folded B) → Folded B
folded a >>= f = f a
not_const >>= f = not_const
panic >>= f = panic

abbrev pub or_not_const {ℓ} : {A : Type ℓ} → Option A → Folded A
or_not_const none = not_const
or_not_const (some a) = folded a

abbrev pub map_option {ℓ κ} : {A : Type ℓ} {B : Type κ} → (A → B) → Option A → Option B
map_option f none = none
map_option f (some a) = some (f a)

unfoldable pub eval_int_binop : BinaryOp → ℤ → ℤ → Option ConstVal
unfolding checked_add checked_sub checked_mul checked_div checked_rem and_word or_word xor_word
    checked_shl checked_shr
eval_int_binop add x y = map_option int_val (checked_add 128 x y)
eval_int_binop sub x y = map_option int_val (checked_sub 128 x y)
eval_int_binop mul x y = map_option int_val (checked_mul 128 x y)
eval_int_binop div x y = map_option int_val (checked_div 128 x y)
eval_int_binop mod_op x y = map_option int_val (checked_rem 128 x y)
eval_int_binop bit_and_op x y = some (int_val (and_word 128 x y))
eval_int_binop bit_or_op x y = some (int_val (or_word 128 x y))
eval_int_binop bit_xor_op x y = some (int_val (xor_word 128 x y))
eval_int_binop shl x y = map_option int_val (checked_shl 128 x y)
eval_int_binop shr x y = map_option int_val (checked_shr 128 x y)
eval_int_binop eq x y = some (bool_val (eqb_ℤ x y))
eval_int_binop not_eq x y = some (bool_val (not (eqb_ℤ x y)))
eval_int_binop lt x y = some (bool_val (ltb_ℤ x y))
eval_int_binop gt x y = some (bool_val (ltb_ℤ y x))
eval_int_binop lt_eq x y = some (bool_val (leb_ℤ x y))
eval_int_binop gt_eq x y = some (bool_val (leb_ℤ y x))
eval_int_binop and_op x y = none
eval_int_binop or_op x y = none
eval_int_binop add_wrap x y = none
eval_int_binop sub_wrap x y = none
eval_int_binop mul_wrap x y = none

same_bool : Bool → Bool → Bool
same_bool true b = b
same_bool false b = not b

unfoldable pub eval_bool_binop : BinaryOp → Bool → Bool → Option ConstVal
unfolding same_bool
eval_bool_binop and_op x y = some (bool_val (x && y))
eval_bool_binop or_op x y = some (bool_val (x || y))
eval_bool_binop eq x y = some (bool_val (same_bool x y))
eval_bool_binop not_eq x y = some (bool_val (not (same_bool x y)))
eval_bool_binop _ x y = none

-- The match in the `Binary` arm of `eval` is this one.
unfoldable pub binop : BinaryOp → ConstVal → ConstVal → Option ConstVal
unfolding eval_int_binop eval_bool_binop
binop op (int_val x) (int_val y) = eval_int_binop op x y
binop op (bool_val x) (bool_val y) = eval_bool_binop op x y
binop op (int_val x) (bool_val y) = none
binop op (bool_val x) (int_val y) = none

-- The three `Unary` arms of `eval`; no other unary operator is constant.
unfoldable pub unop : UnaryOp → ConstVal → Option ConstVal
unfolding checked_neg not_word
unop neg (int_val v) = map_option int_val (checked_neg 128 v)
unop bit_not (int_val v) = some (int_val (not_word v))
unop not_op (bool_val b) = some (bool_val (not b))
unop _ v = none

-- For 1 ≤ bits ≤ 64; `1i128 << bits` and the subtractions stay in range.
unfoldable pub truncate_int : ℤ → ℕ → Bool → ℤ
unfolding and_word shift_right ◌-ℤ◌
truncate_int n bits signed =
    let mask = 2 ^ bits - 1 in
    let low = and_word 128 n (pos mask) in
    if signed && eqb_ℤ (and_word 128 (shift_right low (bits - 1)) (pos 1)) (pos 1)
    then low -ℤ pos (2 ^ bits)
    else low

unfoldable pub named_bits : Text → Option (ℕ × Bool)
named_bits t =
    if t is "i8"
    then some (8, true)
    else if t is "i16"
    then some (16, true)
    else if t is "i32"
    then some (32, true)
    else if t is "i64"
    then some (64, true)
    else if (t is "u8") || (t is "b8")
    then some (8, false)
    else if t is "u16"
    then some (16, false)
    else if t is "u32"
    then some (32, false)
    else if t is "u64"
    then some (64, false)
    else none

unfoldable pub int_type_bits : TypeExpr → Option (ℕ × Bool)
unfolding named_bits
int_type_bits (named x) = named_bits x.name
int_type_bits _ = none

-- The integer that a cast truncates.
abbrev pub as_int : ConstVal → ℤ
as_int (int_val n) = n
as_int (bool_val true) = pos 1
as_int (bool_val false) = pos 0

abbrev pub cast_to : Option (ℕ × Bool) → ConstVal → ConstVal
cast_to none v = v
cast_to (some (bits, signed)) v = int_val (truncate_int (as_int v) bits signed)

unfoldable pub apply_cast : ConstVal → TypeExpr → ConstVal
unfolding int_type_bits truncate_int
apply_cast v t = cast_to (int_type_bits t) v

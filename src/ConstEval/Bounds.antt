-- ===== src/ConstEval/Bounds.antt =====
-- The operators of bml-core/src/consteval.rs on `i128` values.
use beemel.Prelude.{Bool, Option, none, some, arith}
use beemel.Prelude.Int.{ℤ}
use beemel.Word.{
  IsWord, MaybeWord, checked_add-MaybeWord, checked_sub-MaybeWord, checked_mul-MaybeWord,
  checked_neg-MaybeWord, checked_div-MaybeWord, checked_rem-MaybeWord, and_word-IsWord,
  or_word-IsWord, xor_word-IsWord, checked_shl-MaybeWord, checked_shr-MaybeWord, not_word-IsWord,
}
use beemel.Ast.Names.{
  BinaryOp, add, sub, mul, div, mod_op, and_op, or_op, bit_and_op, bit_or_op, bit_xor_op, shl, shr,
  eq, not_eq, UnaryOp, neg, not_op, bit_not,
}
use beemel.ConstEval.Value.{
  ConstVal, int_val, bool_val, Folded, folded, not_const, panic, ◌>>=◌, or_not_const, map_option,
  eval_int_binop, eval_bool_binop, binop, unop,
}

-- `P` holds of a value, and there is no panic.
abbrev pub Keeps {ℓ} : {A : Type ℓ} → (A → Type 0) → Folded A → Type 0
Keeps P (folded a) = P a
Keeps P not_const = Unit
Keeps P panic = ⊥

pub Keeps-bind {ℓ κ} :
    {A : Type ℓ} {B : Type κ} (P : A → Type 0) (Q : B → Type 0) (m : Folded A) (f : A → Folded B)
    → Keeps P m
    → ((a : A) → P a → Keeps Q (f a))
    → Keeps Q (m >>= f)
Keeps-bind P Q (folded a) f h k = k a h
Keeps-bind P Q not_const f h k = tt
Keeps-bind P Q panic f h k = h

-- An integer constant is an `i128`.
abbrev pub IsConst : ConstVal → Type 0
IsConst (int_val v) = IsWord 128 v
IsConst (bool_val b) = Unit

abbrev pub MaybeConst : Option ConstVal → Type 0
MaybeConst none = Unit
MaybeConst (some v) = IsConst v

pub Keeps-option : (o : Option ConstVal) → MaybeConst o → Keeps IsConst (or_not_const o)
Keeps-option none h = tt
Keeps-option (some v) h = h

pub Maybe-int : (o : Option ℤ) → MaybeWord 128 o → MaybeConst (map_option int_val o)
Maybe-int none h = tt
Maybe-int (some v) h = h

eval_int_binop-Maybe : (op : BinaryOp) (x y : ℤ) → IsWord 128 x → MaybeConst (eval_int_binop op x y)
unfolding eval_int_binop
eval_int_binop-Maybe add x y h = Maybe-int _ (checked_add-MaybeWord 128 x y)
eval_int_binop-Maybe sub x y h = Maybe-int _ (checked_sub-MaybeWord 128 x y)
eval_int_binop-Maybe mul x y h = Maybe-int _ (checked_mul-MaybeWord 128 x y)
eval_int_binop-Maybe div x y h = Maybe-int _ (checked_div-MaybeWord 128 x y)
eval_int_binop-Maybe mod_op x y h = Maybe-int _ (checked_rem-MaybeWord 128 x y h)
eval_int_binop-Maybe bit_and_op x y h = and_word-IsWord 128 (omega arith) x y
eval_int_binop-Maybe bit_or_op x y h = or_word-IsWord 128 (omega arith) x y
eval_int_binop-Maybe bit_xor_op x y h = xor_word-IsWord 128 (omega arith) x y
eval_int_binop-Maybe shl x y h = Maybe-int _ (checked_shl-MaybeWord 128 (omega arith) x y)
eval_int_binop-Maybe shr x y h = Maybe-int _ (checked_shr-MaybeWord 128 x y h)
eval_int_binop-Maybe _ x y h = tt

eval_bool_binop-Maybe : (op : BinaryOp) (x y : Bool) → MaybeConst (eval_bool_binop op x y)
unfolding eval_bool_binop
eval_bool_binop-Maybe and_op x y = tt
eval_bool_binop-Maybe or_op x y = tt
eval_bool_binop-Maybe eq x y = tt
eval_bool_binop-Maybe not_eq x y = tt
eval_bool_binop-Maybe _ x y = tt

pub binop-Maybe : (op : BinaryOp) (v w : ConstVal) → IsConst v → MaybeConst (binop op v w)
unfolding binop
binop-Maybe op (int_val x) (int_val y) h = eval_int_binop-Maybe op x y h
binop-Maybe op (bool_val x) (bool_val y) h = eval_bool_binop-Maybe op x y
binop-Maybe op (int_val x) (bool_val y) h = tt
binop-Maybe op (bool_val x) (int_val y) h = tt

pub unop-Maybe : (op : UnaryOp) (v : ConstVal) → IsConst v → MaybeConst (unop op v)
unfolding unop
unop-Maybe neg (int_val v) h = Maybe-int _ (checked_neg-MaybeWord 128 v)
unop-Maybe bit_not (int_val v) h = not_word-IsWord 128 v h
unop-Maybe not_op (bool_val b) h = tt
unop-Maybe _ v h = tt

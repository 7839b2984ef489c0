-- ===== src/ConstEval/Tests.antt =====
-- Runs of the constant evaluator, and its theorems on them.
use beemel.Prelude.{
  arith, ◌≡◌, refl, Text, Bool, true, false, none, some, codes, if◌then◌else◌, ◌is◌,
}
use beemel.Prelude.Int.{pos}
use beemel.Word.{fits, MaybeWord}
use beemel.Ast.Names.{Span, Ident, no_int_suffix, add}
use beemel.Ast.Syntax.{
  Expr, int_literal, ident, binary, call, cast, bit_new, no_exprs, expr_then, no_expr, TypeExpr,
  named,
}
use beemel.ConstEval.Value.{int_val, Env, folded, int_type_bits, apply_cast}
use beemel.ConstEval.Eval.{eval}
use beemel.ConstEval.Cast.{wrap_to, apply_cast-wrapped}
use beemel.ConstEval.Bounds.{Keeps, IsConst}
use beemel.ConstEval.Overflow.{EnvHolds, Safe, SafeCall, SafeLen, bits_depth, eval-Keeps}

abbrev here : Span
here = record { file = 0; start = 0; end = 1 }

abbrev called : Text → Ident
called t = record { name = t; span = here }

abbrev i8_type : TypeExpr
i8_type = named (called (codes "i8"))

-- An environment of one array, of ten elements.
abbrev env : Env
env = record {
  const_int = λ x. none;
  const_bool = λ x. none;
  array_len = λ x. if x is "buf" then some (pos 10) else none;
  sizeof = λ t. none;
  enum_value = λ x v. none;
}

-- `len(bits(buf)) + 120 as i8`
abbrev sum : Expr
sum =
    binary
      (call (ident (called (codes "len")))
        (expr_then (bit_new (ident (called (codes "buf"))) no_expr no_expr here) no_exprs))
      add (cast (int_literal 200 no_int_suffix here) i8_type)

sum_evaluated : eval env sum ≡ folded (int_val (pos 24))
unfolding eval
sum_evaluated = refl

found : (b : Bool) → MaybeWord 65 (if b then some (pos 10) else none)
unfolding fits
found true = refl
found false = tt

env-EnvHolds : EnvHolds env
env-EnvHolds = (λ x. tt, λ x. found (x is "buf"), λ t. tt, λ x v. tt)

sum-Safe : Safe sum
unfolding Safe SafeCall SafeLen bits_depth
sum-Safe = omega arith

eval-Keeps_example : Keeps IsConst (eval env sum)
eval-Keeps_example = eval-Keeps env sum env-EnvHolds sum-Safe

apply_cast-wrapped_example :
    apply_cast (int_val (pos 200)) i8_type ≡ wrap_to (int_type_bits i8_type) (int_val (pos 200))
apply_cast-wrapped_example = apply_cast-wrapped (int_val (pos 200)) i8_type

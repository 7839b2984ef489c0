-- ===== src/ConstEval/Eval.antt =====
-- The walk over the expression in bml-core/src/consteval.rs.
use beemel.Prelude.{Text, Bool, false, Option, none, some, if◌then◌else◌, ◌is◌, map_or}
use beemel.Prelude.Int.{ℤ, pos, leb_ℤ}
use beemel.Word.{checked_mul, quotient}
use beemel.Ast.Names.{neg, not_op, bit_not}
use beemel.Ast.Syntax.{
  Expr, int_literal, bool_literal, ident, unary, binary, call, group, cast, size_of, view_new,
  bit_new, enum_variant, Exprs, no_exprs, expr_then, MaybeExpr, no_expr, some_expr,
}
use beemel.ConstEval.Value.{
  ConstVal, int_val, bool_val, Env, Folded, folded, not_const, panic, ◌>>=◌, or_not_const,
  map_option, binop, unop, apply_cast,
}

unfoldable pub is_len_call : Expr → Bool
is_len_call (ident x) = x.name is "len"
is_len_call _ = false

-- `env.const_int`, and then `env.const_bool`.
unfoldable pub eval_name : Env → Text → Folded ConstVal
eval_name env x =
    map_or (env.const_int x) (or_not_const (map_option bool_val (env.const_bool x)))
      λ v. folded (int_val v)

-- A length in bits: `* 8` on an `i128` panics when it overflows.
abbrev pub or_panic {ℓ} : {A : Type ℓ} → Option A → Folded A
or_panic none = panic
or_panic (some a) = folded a

unfoldable pub times_eight : ℤ → Folded ℤ
unfolding checked_mul
times_eight n = or_panic (checked_mul 128 n (pos 8))

unfoldable pub stride_by : ℤ → ConstVal → Folded ℤ
unfolding quotient
stride_by n (bool_val b) = not_const
stride_by n (int_val k) = if leb_ℤ k (pos 0) then not_const else folded (quotient n k)

unfoldable mutual
  unfolding eval_name is_len_call binop unop apply_cast stride_by times_eight

  pub eval : Env → Expr → Folded ConstVal
  eval env (int_literal n _ _) = folded (int_val (pos n))
  eval env (bool_literal b _) = folded (bool_val b)
  eval env (group e) = eval env e
  eval env (cast e t) = do v ← eval env e; folded (apply_cast v t)
  eval env (ident x) = eval_name env x.name
  eval env (enum_variant x v _) = or_not_const (map_option int_val (env.enum_value x.name v.name))
  eval env (call f args) = if is_len_call f then eval_len_call env args else not_const
  eval env (size_of t _) = or_not_const (map_option int_val (env.sizeof t))
  eval env (unary neg e) = do v ← eval env e; or_not_const (unop neg v)
  eval env (unary bit_not e) = do v ← eval env e; or_not_const (unop bit_not v)
  eval env (unary not_op e) = do v ← eval env e; or_not_const (unop not_op v)
  eval env (binary l op r) = do lv ← eval env l; rv ← eval env r; or_not_const (binop op lv rv)
  eval env _ = not_const

  -- `len(…)` takes one argument.
  pub eval_len_call : Env → Exprs → Folded ConstVal
  eval_len_call env (expr_then e no_exprs) = do n ← eval_len env e; folded (int_val n)
  eval_len_call env _ = not_const

  pub eval_len : Env → Expr → Folded ℤ
  eval_len env (ident x) = or_not_const (env.array_len x.name)
  eval_len env (view_new base _ stride _ _) = do n ← eval_len env base; eval_stride env n stride
  eval_len env (bit_new base _ _ _) = do n ← eval_len env base; times_eight n
  eval_len env _ = not_const

  pub eval_stride : Env → ℤ → MaybeExpr → Folded ℤ
  eval_stride env n no_expr = folded n
  eval_stride env n (some_expr k) = do v ← eval env k; stride_by n v

int_of : ConstVal → Folded ℤ
int_of (int_val v) = folded v
int_of (bool_val b) = not_const

bool_of : ConstVal → Folded Bool
bool_of (bool_val b) = folded b
bool_of (int_val v) = not_const

unfoldable pub eval_int : Env → Expr → Folded ℤ
unfolding eval int_of
eval_int env e = do v ← eval env e; int_of v

unfoldable pub eval_bool : Env → Expr → Folded Bool
unfolding eval bool_of
eval_bool env e = do v ← eval env e; bool_of v

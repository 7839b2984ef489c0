-- ===== src/ConstEval/Overflow.antt =====
-- Overflow in bml-core/src/consteval.rs: which expressions are evaluated without a panic.
use beemel.Prelude.{
  ap, refl, map_or, ℕ, suc, ◌+◌, ◌-◌, ◌*◌, ◌/◌, ◌^◌, ◌≤◌, ◌<◌, ◌≡◌, Text, Bool, true, false,
  Bool-cases, inl, inr, Option, none, some, if◌then◌else◌, arith,
}
use mathlib.Core.Path.{subst}
use native.Mathlib.Nat.{pow-suc, pow-le-pow_right}
use beemel.Prelude.Int.{ℤ, pos, negsuc, ◌*ℤ◌, leb_ℤ}
use beemel.Word.{
  IsWord, MaybeWord, fits, checked, checked_mul, quotient, of_pattern-IsWord, pattern_of-lt,
  pattern_of,
}
use beemel.Ast.Names.{neg, not_op, bit_not}
use beemel.Ast.Syntax.{
  Expr, int_literal, bool_literal, ident, unary, binary, call, group, cast, size_of, view_new,
  bit_new, enum_variant, Exprs, no_exprs, expr_then, MaybeExpr, no_expr, some_expr, TypeExpr,
}
use beemel.ConstEval.Value.{
  ConstVal, int_val, bool_val, Env, Folded, folded, not_const, or_not_const, map_option, apply_cast,
  int_type_bits, as_int,
}
use beemel.ConstEval.Eval.{
  eval_name, is_len_call, times_eight, stride_by, eval, eval_len_call, eval_len, eval_stride,
}
use beemel.ConstEval.Cast.{
  Width, Width-le, bit, byte, half, word, double_word, wrapped, apply_cast-wrapped, wrap_to,
  int_type_bits-Width,
}
use beemel.ConstEval.Bounds.{
  Keeps, Keeps-bind, IsConst, Keeps-option, Maybe-int, binop-Maybe, unop-Maybe,
}

-- What an environment returns: `i128` values, and array lengths of at most 64 bits.
abbrev pub EnvHolds : Env → Type 0
EnvHolds env =
    ((x : Text) → MaybeWord 128 (env.const_int x))
    × ((x : Text) → MaybeWord 65 (env.array_len x))
    × ((t : TypeExpr) → MaybeWord 128 (env.sizeof t))
    × ((x v : Text) → MaybeWord 128 (env.enum_value x v))

-- How many `bits` views stand one in the other.
unfoldable pub bits_depth : Expr → ℕ
bits_depth (view_new base _ _ _ _) = bits_depth base
bits_depth (bit_new base _ _ _) = suc (bits_depth base)
bits_depth _ = 0

-- The literals are `u64`, and no `len` is of more than 21 nested `bits` views.
unfoldable mutual
  unfolding bits_depth

  pub Safe : Expr → Type 0
  Safe (int_literal n _ _) = n < 2 ^ 64
  Safe (group e) = Safe e
  Safe (cast e _) = Safe e
  Safe (unary _ e) = Safe e
  Safe (binary l _ r) = Safe l × Safe r
  Safe (call f args) = SafeCall args
  Safe _ = Unit

  pub SafeCall : Exprs → Type 0
  SafeCall (expr_then e no_exprs) = SafeLen e
  SafeCall _ = Unit

  pub SafeLen : Expr → Type 0
  SafeLen (view_new base _ stride _ _) = SafeLen base × SafeStride stride
  SafeLen (bit_new base _ _ _) = SafeLen base × (bits_depth base ≤ 20)
  SafeLen _ = Unit

  pub SafeStride : MaybeExpr → Type 0
  SafeStride no_expr = Unit
  SafeStride (some_expr k) = Safe k

-- A length seen through `d` views of bits.
abbrev IsLen : ℕ → ℤ → Type 0
IsLen d n = IsWord (65 + 3 * d) n

divided : (a b p : ℕ) → a < p → a / b < p
divided a b p h = grind arith

quotient-IsWord : (w : ℕ) (a k : ℤ) → IsWord w a → leb_ℤ k (pos 0) ≡ false → IsWord w (quotient a k)
unfolding quotient fits
quotient-IsWord w (pos a) (pos b) h p = ground (arith, divided a b (2 ^ (w - 1)))
quotient-IsWord w (negsuc a) (pos b) h p = ground (arith, divided_suc)
  where
    divided_suc : suc a / b < suc (2 ^ (w - 1))
    divided_suc = divided (suc a) b (suc (2 ^ (w - 1))) (ground arith)
quotient-IsWord w a (negsuc b) h p = absurd (ground arith)

eight : (w : ℕ) → 0 < w → 2 ^ (w + 3 - 1) ≡ 2 ^ (w - 1) * 8
eight w h =
    let k = w - 1 in
    let e : 2 ^ (w + 3 - 1) ≡ 2 ^ suc (suc (suc k)) = ap (λ (j : ℕ). 2 ^ j) (omega arith) in
    omega (arith, e, pow-suc 2 (suc (suc k)), pow-suc 2 (suc k), pow-suc 2 k)

wider : (w v : ℕ) (z : ℤ) → w ≤ v → IsWord w z → IsWord v z
unfolding fits
wider w v (pos n) p h =
    ground (arith, pow-le-pow_right {n = 2} (omega arith) {i = w - 1} {j = v - 1} (omega arith))
wider w v (negsuc n) p h =
    ground (arith, pow-le-pow_right {n = 2} (omega arith) {i = w - 1} {j = v - 1} (omega arith))

times_eight-fits : (w : ℕ) (n : ℤ) → 0 < w → IsWord w n → IsWord (w + 3) (n *ℤ pos 8)
unfolding fits ◌*ℤ◌
times_eight-fits w (pos n) p h = ground (arith, eight w p)
times_eight-fits w (negsuc n) p h = ground (arith, eight w p)

times_eight-IsWord :
    (w : ℕ) (n : ℤ) → 0 < w → w + 3 ≤ 128 → IsWord w n → Keeps (IsWord (w + 3)) (times_eight n)
unfolding times_eight checked_mul checked
times_eight-IsWord w n p q h =
    let product = times_eight-fits w n p h in
    let whole : fits 128 (n *ℤ pos 8) ≡ true = wider (w + 3) 128 (n *ℤ pos 8) q product in
    rw whole product

Width-le_128 : {k : ℕ} → Width k → k ≤ 128
Width-le_128 bit = omega arith
Width-le_128 byte = omega arith
Width-le_128 half = omega arith
Width-le_128 word = omega arith
Width-le_128 double_word = omega arith

wrapped-IsWord :
    {k : ℕ} → Width k → 0 < k - 1 → (signed : Bool) (z : ℤ) → IsWord 128 (wrapped k signed z)
unfolding wrapped
wrapped-IsWord {k} width wide true z =
    wider k 128 _ (Width-le_128 width)
      (of_pattern-IsWord k (omega arith) (pattern_of k z) (pattern_of-lt k z))
wrapped-IsWord {k} width wide false z =
    unfold fits in ground (arith, Width-le width, pattern_of-lt k z)

wrap_to-IsConst :
    (o : Option (ℕ × Bool)) (v : ConstVal)
    → ((k : ℕ) (signed : Bool) → o ≡ some (k, signed) → Width k × (0 < k - 1))
    → IsConst v
    → IsConst (wrap_to o v)
wrap_to-IsConst none v w h = h
wrap_to-IsConst (some (k, signed)) v w h =
    let (width, wide) = w k signed refl in wrapped-IsWord width wide signed (as_int v)

cast-IsConst : (v : ConstVal) (t : TypeExpr) → IsConst v → IsConst (apply_cast v t)
cast-IsConst v t h =
    rw (apply_cast-wrapped v t) (wrap_to-IsConst (int_type_bits t) v (int_type_bits-Width t) h)

length_wide : (d : ℕ) → 0 < 65 + 3 * d
length_wide d = omega arith

stride_by-IsLen : (d : ℕ) (n : ℤ) (v : ConstVal) → IsLen d n → Keeps (IsLen d) (stride_by n v)
unfolding stride_by
stride_by-IsLen d n (bool_val b) h = tt
stride_by-IsLen d n (int_val k) h = elim (Bool-cases (leb_ℤ k (pos 0))) [
  | inl e ↦ rw e tt
  | inr e ↦ rw e (quotient-IsWord (65 + 3 * d) n k h e)
]

times_eight-IsLen : (d : ℕ) (n : ℤ) → d ≤ 20 → IsLen d n → Keeps (IsLen (suc d)) (times_eight n)
times_eight-IsLen d n h k =
    let e : 65 + 3 * d + 3 ≡ 65 + 3 * suc d = omega arith in
    subst (λ (w : ℕ). Keeps (IsWord w) (times_eight n)) e
      (times_eight-IsWord (65 + 3 * d) n (length_wide d) (omega arith) k)

Keeps-length : (w : ℕ) (o : Option ℤ) → MaybeWord w o → Keeps (IsWord w) (or_not_const o)
Keeps-length w none h = tt
Keeps-length w (some n) h = h

literal-IsWord : (n : ℕ) → n < 2 ^ 64 → IsWord 128 (pos n)
unfolding fits
literal-IsWord n h = ground arith

SafeLen-depth : (e : Expr) → SafeLen e → bits_depth e ≤ 21
unfolding SafeLen bits_depth
SafeLen-depth (view_new base _ stride _ _) h = SafeLen-depth base h.0
SafeLen-depth (bit_new base _ _ _) h = omega (arith, h.1)
SafeLen-depth _ h = omega arith

named_case :
    (i : Option ℤ) (b : Option Bool)
    → MaybeWord 128 i
    → Keeps IsConst (map_or i (or_not_const (map_option bool_val b)) λ v. folded (int_val v))
named_case none none h = tt
named_case none (some b) h = tt
named_case (some v) b h = h

Keeps-if :
    (b : Bool) (m : Folded ConstVal) → Keeps IsConst m → Keeps IsConst (if b then m else not_const)
Keeps-if true m h = h
Keeps-if false m h = tt

-- An environment that keeps its promise.
module _ (env : Env) (holds : EnvHolds env) where
  name-IsConst : (x : Text) → Keeps IsConst (eval_name env x)
  unfolding eval_name
  name-IsConst x = named_case (env.const_int x) (env.const_bool x) (holds.0 x)

  mutual
    unfolding eval eval_len_call eval_len eval_stride Safe SafeCall SafeLen SafeStride bits_depth

    eval-IsConst : (e : Expr) → Safe e → Keeps IsConst (eval env e)
    eval-IsConst (int_literal n _ _) h = literal-IsWord n h
    eval-IsConst (bool_literal b _) h = tt
    eval-IsConst (group e) h = eval-IsConst e h
    eval-IsConst (cast e t) h =
        Keeps-bind IsConst IsConst (eval env e) _ (eval-IsConst e h) λ v k. cast-IsConst v t k
    eval-IsConst (ident x) h = name-IsConst x.name
    eval-IsConst (enum_variant x v _) h =
        Keeps-option _ (Maybe-int (env.enum_value x.name v.name) (holds.3 x.name v.name))
    eval-IsConst (call f args) h =
        Keeps-if (is_len_call f) (eval_len_call env args) (eval_len_call-IsConst args h)
    eval-IsConst (size_of t _) h = Keeps-option _ (Maybe-int (env.sizeof t) (holds.2 t))
    eval-IsConst (unary neg e) h =
        Keeps-bind IsConst IsConst (eval env e) _ (eval-IsConst e h)
          λ v k. Keeps-option _ (unop-Maybe neg v k)
    eval-IsConst (unary bit_not e) h =
        Keeps-bind IsConst IsConst (eval env e) _ (eval-IsConst e h)
          λ v k. Keeps-option _ (unop-Maybe bit_not v k)
    eval-IsConst (unary not_op e) h =
        Keeps-bind IsConst IsConst (eval env e) _ (eval-IsConst e h)
          λ v k. Keeps-option _ (unop-Maybe not_op v k)
    eval-IsConst (binary l op r) h =
        Keeps-bind IsConst IsConst (eval env l) _ (eval-IsConst l h.0) λ v k.
          Keeps-bind IsConst IsConst (eval env r) _ (eval-IsConst r h.1)
            λ w j. Keeps-option _ (binop-Maybe op v w k)
    eval-IsConst _ h = tt

    eval_len_call-IsConst : (args : Exprs) → SafeCall args → Keeps IsConst (eval_len_call env args)
    eval_len_call-IsConst (expr_then e no_exprs) h =
        Keeps-bind (IsLen (bits_depth e)) IsConst (eval_len env e) _ (eval_len-IsLen e h)
          λ n k. wider (65 + 3 * bits_depth e) 128 n (omega (arith, SafeLen-depth e h)) k
    eval_len_call-IsConst _ h = tt

    eval_len-IsLen : (e : Expr) → SafeLen e → Keeps (IsLen (bits_depth e)) (eval_len env e)
    eval_len-IsLen (ident x) h = Keeps-length 65 (env.array_len x.name) (holds.1 x.name)
    eval_len-IsLen (view_new base _ stride _ _) h =
        let d = bits_depth base in
        Keeps-bind (IsLen d) (IsLen d) (eval_len env base) _ (eval_len-IsLen base h.0)
          λ n k. eval_stride-IsLen d n stride h.1 k
    eval_len-IsLen (bit_new base _ _ _) h =
        let d = bits_depth base in
        Keeps-bind (IsLen d) (IsLen (suc d)) (eval_len env base) _ (eval_len-IsLen base h.0)
          λ n k. times_eight-IsLen d n h.1 k
    eval_len-IsLen _ h = tt

    eval_stride-IsLen :
        (d : ℕ) (n : ℤ) (stride : MaybeExpr)
        → SafeStride stride
        → IsLen d n
        → Keeps (IsLen d) (eval_stride env n stride)
    eval_stride-IsLen d n no_expr h k = k
    eval_stride-IsLen d n (some_expr e) h k =
        Keeps-bind IsConst (IsLen d) (eval env e) _ (eval-IsConst e h)
          λ v j. stride_by-IsLen d n v k

-- An expression with `u64` literals, in which no `len` is of more than 21 nested `bits` views, is
-- evaluated without a panic in an environment whose integers are `i128` and whose array lengths are
-- at most `u64`; an integer that it gives is an `i128`.
pub eval-Keeps : (env : Env) (e : Expr) → EnvHolds env → Safe e → Keeps IsConst (eval env e)
eval-Keeps env e holds safe = eval-IsConst env holds e safe

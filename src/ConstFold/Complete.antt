-- ===== src/ConstFold/Complete.antt =====
-- What constant folding makes of the lengths in a type: `fold_type` of
-- bml-core/src/constfold.rs.
use beemel.Types.Layout.{◌>>=◌}
use beemel.Prelude.{
  none, ℕ, ◌^◌, ◌≡◌, refl, subst, sym, Bool, true, false, Option, some, Map, ltb, if◌then◌else◌,
  ◌⊎◌, inl, inr,
}
use beemel.Prelude.Int.{ℤ, pos, negsuc}
use beemel.Ast.Names.{Span, Ident, no_int_suffix}
use beemel.Ast.Syntax.{
  Expr, MaybeType, TypeExpr, Types, addr, array, bits, const_ptr, fn, int_literal, named, no_type,
  no_types, ptr, ring, some_type, strided_view, type_then, view, void,
}
use beemel.Ast.Places.{span_of}
use beemel.ConstEval.Value.{Folded, folded, not_const, panic}
use beemel.Symbols.{SymbolTable}
use beemel.ConstFold.{
  is_int_literal, literal_for, fold_const_int, fold_length, fold_type, fold_types, fold_maybe_type,
}

-- A result, if there is one, satisfies `Q`.
unfoldable Gives : {A : Type 0} → (A → Type 0) → Option A → Type 0
Gives Q none = Unit
Gives Q (some a) = Q a

Gives-bind :
    {A B : Type 0} {P : A → Type 0} (Q : B → Type 0) (m : Option A) (f : A → Option B)
    → Gives P m
    → ((a : A) → P a → Gives Q (f a))
    → Gives Q (m >>= f)
unfolding Gives
Gives-bind Q none f h next = tt
Gives-bind Q (some a) f h next = next a h

-- No literal can be written for the value.
abbrev pub HasNoLiteral : Folded ℤ → Type 0
HasNoLiteral (folded (pos n)) = ltb n (2 ^ 64) ≡ false
HasNoLiteral (folded (negsuc n)) = Unit
HasNoLiteral not_const = Unit
HasNoLiteral panic = Unit

module _ (array_lens : Map ℕ) (symbols : Option SymbolTable) (consts : Map ℤ) where
  abbrev value_of : Expr → Folded ℤ
  value_of = fold_const_int array_lens symbols consts

  -- The second length has the value of the first, and is a literal if the value has one.
  pub record LengthSettles (e e' : Expr) : Type 0 where
    same : value_of e' ≡ value_of e
    settled : (is_int_literal e' ≡ true) ⊎ HasNoLiteral (value_of e')

  -- Two types that differ in lengths only, of which each settles.
  mutual
    pub data Settles : TypeExpr → TypeExpr → Type 0 where
      of_named : (x : Ident) → Settles (named x) (named x)
      of_void : (s : Span) → Settles (void s) (void s)
      of_bits : (m : Bool) → Settles (bits m) (bits m)
      of_addr : (x : Ident) → Settles (addr x) (addr x)
      of_ptr : {t t' : TypeExpr} → Settles t t' → Settles (ptr t) (ptr t')
      of_const_ptr : {t t' : TypeExpr} → Settles t t' → Settles (const_ptr t) (const_ptr t')
      of_view : {t t' : TypeExpr} {m : Bool} → Settles t t' → Settles (view t m) (view t' m)
      of_ring : {t t' : TypeExpr} {m : Bool} → Settles t t' → Settles (ring t m) (ring t' m)
      of_array :
          {t t' : TypeExpr} {e e' : Expr}
          → Settles t t'
          → LengthSettles e e'
          → Settles (array t e) (array t' e')
      of_stride :
          {t t' : TypeExpr} {m : Bool} {e e' : Expr}
          → Settles t t'
          → LengthSettles e e'
          → Settles (strided_view t m e) (strided_view t' m e')
      of_fn :
          {ts ts' : Types} {r r' : MaybeType}
          → AllSettle ts ts'
          → MaybeSettles r r'
          → Settles (fn ts r) (fn ts' r')

    pub data AllSettle : Types → Types → Type 0 where
      all_settled : AllSettle no_types no_types
      settled_then :
          {t t' : TypeExpr} {ts ts' : Types}
          → Settles t t'
          → AllSettle ts ts'
          → AllSettle (type_then t ts) (type_then t' ts')

    pub data MaybeSettles : MaybeType → MaybeType → Type 0 where
      no_ret : MaybeSettles no_type no_type
      ret_settled : {t t' : TypeExpr} → Settles t t' → MaybeSettles (some_type t) (some_type t')

  kept-Settles : (e : Expr) (v : Folded ℤ) → value_of e ≡ v → HasNoLiteral v → LengthSettles e e
  kept-Settles e v eq h = record { same = refl; settled = inr (subst HasNoLiteral (sym eq) h) }

  chosen-Settles :
      (e : Expr) (n : ℕ) (small : Bool)
      → value_of e ≡ folded (pos n)
      → ltb n (2 ^ 64) ≡ small
      → Gives
          (LengthSettles e)
          (if small then some (int_literal n no_int_suffix (span_of e)) else some e)
  unfolding Gives is_int_literal fold_const_int
  chosen-Settles e n true eq small = record { same = sym eq; settled = inl refl }
  chosen-Settles e n false eq small = kept-Settles e (folded (pos n)) eq small

  literal_for-Settles :
      (e : Expr) (v : Folded ℤ) → value_of e ≡ v → Gives (LengthSettles e) (literal_for e v)
  unfolding Gives literal_for
  literal_for-Settles e (folded (pos n)) eq = chosen-Settles e n (ltb n (2 ^ 64)) eq refl
  literal_for-Settles e (folded (negsuc n)) eq = kept-Settles e (folded (negsuc n)) eq tt
  literal_for-Settles e not_const eq = kept-Settles e not_const eq tt
  literal_for-Settles e panic eq = tt

  tested-Settles :
      (e : Expr) (literal : Bool)
      → is_int_literal e ≡ literal
      → Gives (LengthSettles e) (if literal then some e else literal_for e (value_of e))
  unfolding Gives
  tested-Settles e true eq = record { same = refl; settled = inl eq }
  tested-Settles e false eq = literal_for-Settles e (value_of e) refl

  fold_length-Settles :
      (e : Expr) → Gives (LengthSettles e) (fold_length array_lens symbols consts e)
  unfolding fold_length
  fold_length-Settles e = tested-Settles e (is_int_literal e) refl

  mutual
    unfolding Gives fold_type fold_types fold_maybe_type

    fold_type-Settles : (t : TypeExpr) → Gives (Settles t) (fold_type array_lens symbols consts t)
    fold_type-Settles (array t e) =
        Gives-bind _ (fold_type array_lens symbols consts t) _ (fold_type-Settles t) λ t' ht.
          Gives-bind _ (fold_length array_lens symbols consts e) _ (fold_length-Settles e)
            λ s' hs. of_array ht hs
    fold_type-Settles (ptr t) =
        Gives-bind _ (fold_type array_lens symbols consts t) _ (fold_type-Settles t)
          λ t' h. of_ptr h
    fold_type-Settles (const_ptr t) =
        Gives-bind _ (fold_type array_lens symbols consts t) _ (fold_type-Settles t)
          λ t' h. of_const_ptr h
    fold_type-Settles (view t m) =
        Gives-bind _ (fold_type array_lens symbols consts t) _ (fold_type-Settles t)
          λ t' h. of_view h
    fold_type-Settles (ring t m) =
        Gives-bind _ (fold_type array_lens symbols consts t) _ (fold_type-Settles t)
          λ t' h. of_ring h
    fold_type-Settles (strided_view t m e) =
        Gives-bind _ (fold_type array_lens symbols consts t) _ (fold_type-Settles t) λ t' ht.
          Gives-bind _ (fold_length array_lens symbols consts e) _ (fold_length-Settles e)
            λ s' hs. of_stride ht hs
    fold_type-Settles (fn ts r) =
        Gives-bind _ (fold_types array_lens symbols consts ts) _ (fold_types-Settles ts) λ t' ht.
          Gives-bind _ (fold_maybe_type array_lens symbols consts r) _ (fold_maybe_type-Settles r)
            λ s' hs. of_fn ht hs
    fold_type-Settles (named x) = of_named x
    fold_type-Settles (void s) = of_void s
    fold_type-Settles (bits m) = of_bits m
    fold_type-Settles (addr x) = of_addr x

    fold_types-Settles :
        (ts : Types) → Gives (AllSettle ts) (fold_types array_lens symbols consts ts)
    fold_types-Settles no_types = all_settled
    fold_types-Settles (type_then t ts) =
        Gives-bind _ (fold_type array_lens symbols consts t) _ (fold_type-Settles t) λ t' ht.
          Gives-bind _ (fold_types array_lens symbols consts ts) _ (fold_types-Settles ts)
            λ s' hs. settled_then ht hs

    fold_maybe_type-Settles :
        (t : MaybeType) → Gives (MaybeSettles t) (fold_maybe_type array_lens symbols consts t)
    fold_maybe_type-Settles no_type = no_ret
    fold_maybe_type-Settles (some_type t) =
        Gives-bind _ (fold_type array_lens symbols consts t) _ (fold_type-Settles t)
          λ t' h. ret_settled h

  -- Folding that does not panic changes nothing of a type but lengths. Each length keeps its value,
  -- and is a literal behind the folding if its value is constant and fits in a u64.
  pub fold_type-Settled :
      (t t' : TypeExpr) → fold_type array_lens symbols consts t ≡ some t' → Settles t t'
  unfolding Gives
  fold_type-Settled t t' eq = subst (Gives (Settles t)) eq (fold_type-Settles t)

-- ===== src/Ast/Blocks.antt =====
-- Which statements end a block: `Stmt::is_direct_terminator` and `Block::has_direct_terminator` of
-- bml-core/src/ast.rs.
use beemel.Prelude.{or-true, or_right, ◌≡◌, ◌↔◌, inl, inr, Bool, true, false, ◌||◌, refl}
use beemel.Ast.Names.{Span}
use beemel.Ast.Syntax.{
  Stmt, return, break, continue, block_stmt, Stmts, no_stmts, stmt_then, Block, block, MaybeExpr,
}

unfoldable mutual
  pub is_direct_terminator : Stmt → Bool
  is_direct_terminator (return _) = true
  is_direct_terminator (break _) = true
  is_direct_terminator (continue _) = true
  is_direct_terminator (block_stmt inner) = has_direct_terminator inner
  is_direct_terminator _ = false

  pub has_direct_terminator : Block → Bool
  has_direct_terminator (block stmts _ _) = any_terminator stmts

  -- `iter().any(Stmt::is_direct_terminator)`.
  pub any_terminator : Stmts → Bool
  any_terminator no_stmts = false
  any_terminator (stmt_then s ss) = is_direct_terminator s || any_terminator ss

-- A way through statements and nested blocks to a `return`, `break` or `continue`.
mutual
  pub data Leaves : Stmt → Type 0 where
    by_return : (e : MaybeExpr) → Leaves (return e)
    by_break : (s : Span) → Leaves (break s)
    by_continue : (s : Span) → Leaves (continue s)
    by_block :
        {b : Stmts} (e : MaybeExpr) (s : Span) → SomeLeaves b → Leaves (block_stmt (block b e s))

  pub data SomeLeaves : Stmts → Type 0 where
    first : {s : Stmt} (ss : Stmts) → Leaves s → SomeLeaves (stmt_then s ss)
    later : (s : Stmt) {ss : Stmts} → SomeLeaves ss → SomeLeaves (stmt_then s ss)

mutual
  unfolding is_direct_terminator has_direct_terminator any_terminator

  terminator→Leaves : (s : Stmt) → is_direct_terminator s ≡ true → Leaves s
  terminator→Leaves (return e) h = by_return e
  terminator→Leaves (break s) h = by_break s
  terminator→Leaves (continue s) h = by_continue s
  terminator→Leaves (block_stmt (block b e s)) h = by_block e s (any→SomeLeaves b h)
  terminator→Leaves _ h = cc

  any→SomeLeaves : (ss : Stmts) → any_terminator ss ≡ true → SomeLeaves ss
  any→SomeLeaves no_stmts h = cc
  any→SomeLeaves (stmt_then s ss) h =
      elim (or-true (is_direct_terminator s) (any_terminator ss) h) [
        | inl e ↦ first ss (terminator→Leaves s e)
        | inr e ↦ later s (any→SomeLeaves ss e)
      ]

mutual
  unfolding is_direct_terminator has_direct_terminator any_terminator

  Leaves→terminator : {s : Stmt} → Leaves s → is_direct_terminator s ≡ true
  Leaves→terminator (by_return e) = refl
  Leaves→terminator (by_break s) = refl
  Leaves→terminator (by_continue s) = refl
  Leaves→terminator (by_block e s l) = SomeLeaves→any l

  SomeLeaves→any : {ss : Stmts} → SomeLeaves ss → any_terminator ss ≡ true
  SomeLeaves→any (first {s} ss l) = rw (Leaves→terminator l) refl
  SomeLeaves→any (later s l) = or_right (is_direct_terminator s) (SomeLeaves→any l)

-- A statement is a direct terminator exactly when nested blocks lead from it to a `return`, `break`
-- or `continue`.
pub is_direct_terminator-Leaves : (s : Stmt) → (is_direct_terminator s ≡ true) ↔ Leaves s
is_direct_terminator-Leaves s = (terminator→Leaves s, Leaves→terminator)

-- ===== src/Ceiling/Scan/Occurs.antt =====
-- Where a name stands in a body: what the walkers of bml-core/src/ceiling.rs over mentions look
-- for, told by the direct parts of each tree.
use beemel.Prelude.{Text, Bool, true, ◌≡◌, List, [], ◌∷◌, Elem}
use beemel.Ast.Syntax.{call, claim, ident, name}
use beemel.Ceiling.Pointers.Inside.{Node, parts, an_expr, exprs, a_stmt, place}

-- A callee is a part of the call.
unfoldable pub all_parts : Node → List Node
unfolding parts
all_parts (an_expr (call callee args)) = an_expr callee ∷ exprs args ∷ []
all_parts n = parts n

-- A name is read, assigned to or claimed at the root of the tree.
abbrev pub Names : (Text → Bool) → Text → Node → Type 0
Names shared f (an_expr (ident x)) = (x.name ≡ f) × (shared x.name ≡ true)
Names shared f (place (name x)) = (x.name ≡ f) × (shared x.name ≡ true)
Names shared f (a_stmt (claim x _)) = (x.name ≡ f) × (shared x.name ≡ true)
Names shared f _ = ⊥

pub data Mentions (shared : Text → Bool) (f : Text) : Node → Type 0 where
  here : (n : Node) → Names shared f n → Mentions shared f n
  below : (n part : Node) → Elem part (all_parts n) → Mentions shared f part → Mentions shared f n

-- ===== src/Borrow/Access.antt =====
-- One access and one call, as bml-core/src/borrow.rs checks them: `check_static_access`,
-- `check_context_compat` and the diagnostics that they give.
use beemel.Prelude.{
  ℕ, Text, ◌&&◌, not, Option, none, some, List, [], ◌∷◌, ◌++◌, text_eq, get, is_empty, map_or,
  if◌then◌else◌,
}
use beemel.Ast.Names.{Span, Ident}
use beemel.Ast.Items.{StorageAnnotation, exclusive, shared, dma, external, section_name, align}
use beemel.Context.{Context, thread, any, isr, level, is_isr, can_access}
use beemel.Symbols.{FnSymbol, StaticSymbol, SymbolTable}

-- A diagnostic's code, and what its message shows.
pub data Problem : Type 0 where
  not_owner : (name owner current_fn : Text) → Problem
  outranks : (name : Text) (ceiling level : ℕ) → Problem
  outranks_by_caller : (name : Text) (ceiling : ℕ) (current_fn : Text) (level : ℕ) → Problem
  thread_callee : (callee current_fn : Text) → Problem
  isr_callee : (callee : Text) (priority : ℕ) (current_fn : Text) → Problem
  thread_only thread_only_by_caller : (name current_fn : Text) → Problem

pub data Code : Type 0 where
  e401 e402 e403 e404 : Code

unfoldable pub code : Problem → Code
code (not_owner _ _ _) = e401
code (outranks _ _ _) = e402
code (outranks_by_caller _ _ _ _) = e402
code (thread_callee _ _) = e403
code (isr_callee _ _ _) = e403
code (thread_only _ _) = e404
code (thread_only_by_caller _ _) = e404

pub record Diagnostic : Type 0 where
  pub problem : Problem
  pub span : Span

-- The diagnostics, or nothing where `expect` panics.
abbrev pub Report : Type 0
Report = Option (List Diagnostic)

abbrev pub accepted : Report
accepted = some []

infixl 65 ◌⨟◌
unfoldable pub ◌⨟◌ : Report → Report → Report
none ⨟ r = none
some ds ⨟ none = none
some ds ⨟ some es = some (ds ++ es)

abbrev pub reject : Problem → Span → Report
reject p s = some (record { problem = p; span = s } ∷ [])

-- `filter(|c| c.is_isr())`.
unfoldable pub only_isr : List Context → List Context
unfolding is_isr
only_isr [] = []
only_isr (c ∷ cs) = let more = only_isr cs in if is_isr c then c ∷ more else more

-- `iter().find(|c| !c.can_access(ceiling))`.
unfoldable pub find_denied : ℕ → List Context → Option Context
unfolding can_access
find_denied ceiling [] = none
find_denied ceiling (c ∷ cs) =
    let more = find_denied ceiling cs in if can_access c ceiling then more else some c

module _ (symbols : SymbolTable) (current_fn : Text) (current_ctx : Context) where
  unfoldable pub isr_contexts : List Context
  unfolding only_isr
  isr_contexts = elim current_ctx [
    | isr p ↦ isr p ∷ []
    | any ↦ map_or (get symbols.fn_possible_contexts current_fn) [] only_isr
    | thread ↦ []
  ]

  unfoldable pub check_shared : Ident → ℕ → Report
  unfolding find_denied can_access level isr_contexts
  check_shared x ceiling =
      if not (can_access current_ctx ceiling)
      then reject (outranks x.name ceiling (level current_ctx)) x.span
      else map_or (find_denied ceiling isr_contexts) accepted
          λ bad. reject (outranks_by_caller x.name ceiling current_fn (level bad)) x.span

  unfoldable pub check_annotation : Ident → StorageAnnotation → Report
  unfolding check_shared
  check_annotation x (exclusive owner) =
      if text_eq owner.name current_fn
      then accepted
      else reject (not_owner x.name owner.name current_fn) x.span
  check_annotation x (shared none) = none
  check_annotation x (shared (some ceiling)) = check_shared x ceiling
  check_annotation x dma = accepted
  check_annotation x external = accepted
  check_annotation x (section_name _) = accepted
  check_annotation x (align _) = accepted

  unfoldable pub check_annotations : Ident → List StorageAnnotation → Report
  unfolding check_annotation ◌⨟◌
  check_annotations x [] = accepted
  check_annotations x (a ∷ more) = check_annotation x a ⨟ check_annotations x more

  unfoldable pub check_static_access : Ident → StaticSymbol → Report
  unfolding check_annotations isr_contexts is_isr
  check_static_access x sym =
      if is_empty sym.storage && not (is_empty isr_contexts)
      then reject
          (if is_isr current_ctx
            then thread_only x.name current_fn
            else thread_only_by_caller x.name current_fn)
          x.span
      else check_annotations x sym.storage

  -- A name, in an expression, a place or a claim.
  unfoldable pub check_name : Ident → Report
  unfolding check_static_access
  check_name x = map_or (get symbols.statics x.name) accepted (check_static_access x)

  unfoldable pub check_context_compat_context : Ident → Context → Report
  check_context_compat_context callee any = accepted
  check_context_compat_context callee thread = elim current_ctx [
    | isr _ ↦ reject (thread_callee callee.name current_fn) callee.span
    | _ ↦ accepted
  ]
  check_context_compat_context callee (isr p) = elim current_ctx [
    | thread ↦ reject (isr_callee callee.name p current_fn) callee.span
    | _ ↦ accepted
  ]

  unfoldable pub check_context_compat : Ident → FnSymbol → Report
  unfolding check_context_compat_context
  check_context_compat callee fn_sym = check_context_compat_context callee fn_sym.context

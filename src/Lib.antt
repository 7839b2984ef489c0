-- ===== src/Lib.antt =====
-- Verification of beemel: a compiler for a small systems language for microcontrollers, and the
-- assembler for the RP2040's PIO blocks that it uses.
--
-- Parts and files:
--   Prelude, Prelude/*    shared names, tests, lists, texts as lists of code points, integers over
--                         the native numbers, and bit operations.
--   Word, Word/*          signed integers of w bits (i64 with w = 64, i128 with w = 128): checked
--                         arithmetic, bit operations on patterns, shifts.
--   Pio, Pio/*            the assembler, pio-encode/src/lib.rs. Expr: `lex_expr`, `ExprParser`,
--                         `apply` and `Assembler::eval`. Operands, Encode: the operand tables and
--                         the `enc_*` functions. SideSet: `SideSet` and `delay_sideset_field`.
--                         Line: comments, labels, modifiers and `encode_line`. State, Directive:
--                         the `Assembler` record and the directives. Assembler: `pass1`, the second
--                         pass, `run` and `assemble`. Decode is a decoder of the instruction format
--                         and a reading of the operands, written without the encoders but with their
--                         tables of operand names.
--   Ast, Ast/*            the syntax tree of bml-core/src/ast.rs with the spans of
--                         bml-core/src/source.rs, and the places of `LValue` with `expr_to_lvalue`
--                         of bml-core/src/parser.rs.
--   ConstEval,            constant evaluation, bml-core/src/consteval.rs: Value has the operators
--   ConstEval/*           and casts, Eval the walk over an expression.
--   Context               priorities and ceilings, bml-core/src/context.rs.
--   Ceiling, Ceiling/*    bml-core/src/ceiling.rs: the derived ceilings of shared statics, with the
--                         walkers over a body in Scan; Pointers has the walkers behind
--                         `pointer_call_facts`, and Propagate the propagation of contexts; Scan/Occurs and
--                         Pointers/Inside tell apart from the walkers what they look for. Names and
--                         Exact are about which statics have ceilings and where these come from. A hash
--                         map is an association list in a fixed order, and a set is a list.
--   Types, Types/*        bml-core/src/types.rs: Syntax has `Type`, Layout sizes and alignments,
--                         Resolve type expressions, Compatible moves and compatibility.
--   Symbols, Resolver     of bml-core/src/resolver.rs, the symbols of functions and statics, and the
--                         ceilings that `Resolver::resolve` assigns to bare `@shared` statics.
--   Borrow, Borrow/*      the borrow checker, bml-core/src/borrow.rs: Access has the checks of one
--                         access and one call, Borrow the walk over bodies.
--   Stack, Stack/*        the stack analysis, bml-core/src/stack.rs: Frame has the walkers over a
--                         body, Info `compute_fn_info`, Depth `propagate_depth` and `analyze`.
--                         Free and Indirect compare its indirect calls with those of Ceiling.
--   ConstFold, ConstFold/*  constant folding, bml-core/src/constfold.rs: ConstFold has lengths and
--                         types, Trees the walk over bodies, Items the items.
--
-- How they interact: the assembler's directives and encoders evaluate expressions in its symbol
-- table; a label or `.define` extends the table during the first pass, and the second pass encodes
-- with the whole table. Constant evaluation walks the syntax tree, and takes names, array lengths,
-- sizes and enum values from an environment that its callers supply. Resolution propagates contexts
-- through the call graph, derives the ceilings from them, and writes both into the symbol table; the
-- borrow checker reads them there.
--
-- Conventions: a text is the list of its code points; the character classes of Unicode outside
-- ASCII are a parameter (`Unicode`). An error text is a constructor with the values it shows. An
-- `Outcome` has a panic, for arithmetic overflow in a build that checks for it, and a result for
-- spent fuel. The expression parser runs on fuel of twice the number of tokens and two; each step
-- takes a token or spends one of two calls on it. The lexer has one more than the length of its
-- text. The loop over labels has the length of the line, and each label takes a character. A symbol
-- table is an association list, the newest entry first, for the hash map. A float literal of the
-- syntax tree is its bit pattern, and a struct that one constructor holds is written as the
-- constructor's arguments. `FileId::new` is a number that the caller gives. The loop of context
-- propagation has the square of the number of functions and one as its fuel: a round that changes
-- something adds to a function one of the declared contexts. The search of the stack analysis has the
-- number of functions and one: a path of calls has no function twice.
--
-- Not modelled: the parser proper, the collection of names, the checker, regions,
-- the comptime interpreter and the constants that it finds, the emission of LLVM text, the verifier's
-- database, and the command line and language server, which are I/O around the library.
pub mod Prelude
pub mod Word
pub mod Pio
pub mod Ast
pub mod ConstEval
pub mod Context
pub mod Ceiling
pub mod Types
pub mod Symbols
pub mod Resolver
pub mod Borrow
pub mod Stack
pub mod ConstFold

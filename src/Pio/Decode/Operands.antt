-- ===== src/Pio/Decode/Operands.antt =====
-- The ranges of what the operand tables and `eval_within` return.
use beemel.Prelude.{ℕ, ◌≤◌, ◌<◌, Text, List, [], ◌∷◌, All, String, arith, if◌then◌else◌}
use beemel.Prelude.Int.{ℤ, within, pos, negsuc}
use beemel.Pio.Error.{value_out_of_range, ok, err}
use beemel.Pio.Ensures.{Ensures, Ensures-bind}
use beemel.Pio.Chars.{Unicode}
use beemel.Pio.Expr.Parser.{Symbols, eval}
use beemel.Pio.Expr.Bounds.{eval-ends}
use beemel.Pio.Operands.{
  set_dest_rows, jmp_cond_rows, mov_dest_rows, mov_src_rows, out_dest_rows, in_src_rows,
  wait_source_rows, table, set_dest, jmp_cond, mov_dest, mov_op, mov_src, out_dest, in_src,
  wait_source, two, three,
}
use beemel.Pio.Encode.{eval_within, jmp_operands, irq_num}

table-lt :
    (n : ℕ) (what : Text) (rows : List (String × ℕ)) (t : Text)
    → All (λ r. r.1 < n) rows
    → Ensures (λ d. d < n) (table what rows t)
unfolding table
table-lt n what [] t h = tt
table-lt n what ((name, d) ∷ rows) t h = ground (arith, table-lt n what rows t h.1)

abbrev pub Below8 : ℕ → Type 0
Below8 d = d < 8

pub set_dest-lt : (t : Text) → Ensures Below8 (set_dest t)
unfolding set_dest
set_dest-lt t = table-lt 8 _ set_dest_rows _ (omega arith)

pub jmp_cond-lt : (t : Text) → Ensures Below8 (jmp_cond t)
unfolding jmp_cond
jmp_cond-lt t = table-lt 8 _ jmp_cond_rows _ (omega arith)

pub mov_dest-lt : (t : Text) → Ensures Below8 (mov_dest t)
unfolding mov_dest
mov_dest-lt t = table-lt 8 _ mov_dest_rows _ (omega arith)

pub out_dest-lt : (t : Text) → Ensures Below8 (out_dest t)
unfolding out_dest
out_dest-lt t = table-lt 8 _ out_dest_rows _ (omega arith)

pub in_src-lt : (t : Text) → Ensures Below8 (in_src t)
unfolding in_src
in_src-lt t = table-lt 8 _ in_src_rows _ (omega arith)

pub wait_source-lt : (t : Text) → Ensures (λ d. d < 4) (wait_source t)
unfolding wait_source
wait_source-lt t = table-lt 4 _ wait_source_rows _ (omega arith)

mov_op-lt : (t : Text) → (mov_op t).0 < 4
unfolding mov_op
mov_op-lt t = ground arith

pub mov_src-lt : (t : Text) → Ensures (λ r. (r.0 < 4) × (r.1 < 8)) (mov_src t)
unfolding mov_src
mov_src-lt t =
    Ensures-bind Below8 _ _ _ (table-lt 8 _ mov_src_rows _ (omega arith)) λ s h. (mov_op-lt t, h)

-- A number of the range that was checked.
abbrev pub Within : ℕ → ℕ → ℤ → Type 0
Within lo hi (pos n) = (lo ≤ n) × (n ≤ hi)
Within lo hi (negsuc n) = ⊥

abbrev pub Anything : {A : Type 0} → A → Type 0
Anything a = Unit {0}

pub two-ends : (toks : List Text) (how : Text) → Ensures Anything (two toks how)
unfolding two
two-ends (a ∷ b ∷ []) how = tt
two-ends _ how = tt

pub three-ends : (toks : List Text) (how : Text) → Ensures Anything (three toks how)
unfolding three
three-ends (a ∷ b ∷ c ∷ []) how = tt
three-ends _ how = tt

pub irq_num-ends : (toks : List Text) → Ensures Anything (irq_num toks)
unfolding irq_num
irq_num-ends (a ∷ []) = tt
irq_num-ends _ = tt

pub jmp_operands-lt : (toks : List Text) → Ensures (λ r. r.0 < 8) (jmp_operands toks)
unfolding jmp_operands
jmp_operands-lt (t ∷ []) = omega arith
jmp_operands-lt (c ∷ t ∷ []) = Ensures-bind Below8 _ _ _ (jmp_cond-lt c) λ d h. h
jmp_operands-lt _ = tt

pub eval_within-Within :
    (u : Unicode) (m : Symbols) (lo hi : ℕ) (what t : Text)
    → Ensures (Within lo hi) (eval_within u m lo hi what t)
unfolding eval_within
eval_within-Within u m lo hi what t =
    Ensures-bind Anything (Within lo hi) (eval u m t) _ (eval-ends u m t) λ v _. checked v
  where
    checked :
        (v : ℤ)
        → Ensures (Within lo hi) (if within lo hi v then ok v else err (value_out_of_range what v))
    checked (pos n) = ground arith
    checked (negsuc n) = tt

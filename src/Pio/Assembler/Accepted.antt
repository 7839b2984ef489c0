-- ===== src/Pio/Assembler/Accepted.antt =====
-- What `assemble` of pio-encode/src/lib.rs returns.
use beemel.Prelude.{
  ℕ, suc, ◌+◌, ◌-◌, ◌^◌, ◌≤◌, ◌<◌, ◌≡◌, refl, Text, Option, none, some, List, [], ◌∷◌, All, length,
  arith,
}
use beemel.Pio.Error.{ok, ◌>>=◌}
use beemel.Pio.Chars.{Unicode, lines}
use beemel.Pio.SideSet.{total_bits}
use beemel.Pio.State.{
  InstrLine, AsmError, Assembler, Assembled, Report, assembled, failed, as_u8, new_assembler,
}
use beemel.Pio.Assembler.{check_count, unwrap_or, finish, pass1_from, pass1, pass2, run, assemble}
use beemel.Pio.Ensures.{Ensures, Ensures-bind}
use beemel.Pio.Assembler.Invariant.{Below, InRange}
use beemel.Pio.Assembler.Lines.{Collected, pass1_from-Collected}
use beemel.Pio.Assembler.Words.{Encoded, pass2-Encoded, check_count-errors, check_count-InRange}

-- 1 to 32 words of 16 bits, an origin (where there is one) below 32, a wrap from an instruction of
-- the program, a wrap target from 0 to the number of instructions, which is no instruction itself,
-- and at most five side-set bits. The origin is not related to the number of words.
abbrev pub Bounded : Assembled → Type 0
Bounded r =
    ((1 ≤ length r.words) × (length r.words ≤ 32))
    × All (λ w. w < 2 ^ 16) r.words
    × Below r.origin 32
    × (r.wrap < length r.words)
    × (r.wrap_target ≤ length r.words)
    × (r.side_set_count ≤ 5)

-- A failed run says why.
abbrev pub IsReport : Report → Type 0
IsReport (assembled r) = Bounded r
IsReport (failed []) = ⊥
IsReport (failed (e ∷ es)) = Unit

target_bound : (o : Option ℕ) (n : ℕ) → Below o (suc n) → unwrap_or o 0 ≤ n
target_bound none n h = omega arith
target_bound (some m) n h = omega arith

wrap_bound : (o : Option ℕ) (n : ℕ) → 1 ≤ n → n ≤ 32 → Below o n → unwrap_or o (as_u8 (n - 1)) < n
wrap_bound none n p q h = omega arith
wrap_bound (some m) n p q h = h

module _ (n : ℕ) (words : List ℕ) (a : Assembler) where
  finish-IsReport :
      (es : List AsmError)
      → length words ≡ n
      → All (λ w. w < 2 ^ 16) words
      → InRange n a
      → (es ≡ [] → (1 ≤ n) × (n ≤ 32))
      → IsReport (finish es n words a)
  unfolding finish
  finish-IsReport (e ∷ es) long small range fits = tt
  finish-IsReport [] long small (side, origin, target, wrap) fits =
      let (least, most) = fits refl in
      rw long (
        (least, most),
        small,
        origin,
        wrap_bound a.wrap n least most wrap,
        target_bound a.wrap_target n target,
        side,
      )

new_assembler-InRange : (name : Text) → InRange 0 (new_assembler name)
unfolding new_assembler total_bits
new_assembler-InRange name = omega arith

module _ (u : Unicode) where
  -- The second pass, on what the first one collected.
  encoded-IsReport :
      (instrs : List InstrLine) (a : Assembler)
      → InRange (length instrs) a
      → Ensures IsReport (
          pass2 u instrs [] (check_count instrs a) >>= λ (words, a').
          ok (finish a'.errors (length instrs) words a'))
  encoded-IsReport instrs a h =
      let n = length instrs in
      let counted = check_count instrs a in
      Ensures-bind (Encoded n (n + 0) counted.errors) IsReport (pass2 u instrs [] counted) _
        (pass2-Encoded n counted.errors u instrs 0 [] counted
          (refl, tt, check_count-InRange n instrs a h, λ e. e))
        λ (words, a') (long, small, range, kept).
          finish-IsReport n words a' a'.errors (omega arith) small range
            λ none_left. check_count-errors instrs a (kept none_left)

  run-IsReport : (src : Text) (a : Assembler) → InRange 0 a → Ensures IsReport (run u src a)
  unfolding run pass1
  run-IsReport src a h =
      Ensures-bind Collected IsReport (pass1_from u (lines src) 1 [] a) _
        (pass1_from-Collected u (lines src) 1 [] a h) λ (instrs, a') k. encoded-IsReport instrs a' k

-- `assemble` stays within its fuel on every source text: unless it panics, it returns at least one
-- error, or 1 to 32 words of 16 bits with an origin below 32 if there is one, a wrap below the number
-- of words, a wrap target of at most that number, and a side-set width of at most five.
pub assemble-IsReport : (u : Unicode) (name src : Text) → Ensures IsReport (assemble u name src)
unfolding assemble
assemble-IsReport u name src = run-IsReport u src (new_assembler name) (new_assembler-InRange name)

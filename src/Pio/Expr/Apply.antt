-- ===== src/Pio/Expr/Apply.antt =====
-- `binding_power` and `apply` of pio-encode/src/lib.rs. The arithmetic is that of `i64`.
use beemel.Prelude.{ℕ, Option, none, some, ◌||◌, ◌==◌, if◌then◌else◌}
use beemel.Prelude.Int.{ℤ}
use beemel.Word.{
  checked_add, checked_sub, checked_mul, checked_div, checked_rem, and_word, or_word, xor_word,
  checked_shl, checked_shr,
}
use beemel.Pio.Error.{
  ETok, op, shl, shr, Outcome, ok, err, or_err, overflow, division_by_zero, modulo_by_zero,
  bad_left_shift, bad_right_shift, bad_operator,
}

-- Both components of the pair are the same number in the source, and only the first is read.
unfoldable pub binding_power : ETok → Option ℕ
binding_power (op c) =
    if c == b'|'
    then some 1
    else if c == b'^'
    then some 2
    else if c == b'&'
    then some 3
    else if c == b'+' || c == b'-'
    then some 5
    else if c == b'*' || (c == b'/' || c == b'%')
    then some 6
    else none
binding_power shl = some 4
binding_power shr = some 4
binding_power _ = none

unfoldable pub apply : ETok → ℤ → ℤ → Outcome ℤ
unfolding checked_add checked_sub checked_mul checked_div checked_rem and_word or_word xor_word
    checked_shl checked_shr
apply (op c) a b =
    if c == b'+'
    then or_err (checked_add 64 a b) overflow
    else if c == b'-'
    then or_err (checked_sub 64 a b) overflow
    else if c == b'*'
    then or_err (checked_mul 64 a b) overflow
    else if c == b'/'
    then or_err (checked_div 64 a b) division_by_zero
    else if c == b'%'
    then or_err (checked_rem 64 a b) modulo_by_zero
    else if c == b'&'
    then ok (and_word 64 a b)
    else if c == b'|'
    then ok (or_word 64 a b)
    else if c == b'^'
    then ok (xor_word 64 a b)
    else err bad_operator
apply shl a b = or_err (checked_shl 64 a b) bad_left_shift
apply shr a b = or_err (checked_shr 64 a b) bad_right_shift
apply _ a b = err bad_operator

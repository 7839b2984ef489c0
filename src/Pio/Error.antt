-- ===== src/Pio/Error.antt =====
-- The tokens of the expression language, the assembler's messages, and the outcome of a fallible
-- function of pio-encode/src/lib.rs.
use beemel.Prelude.{ℕ, Text, Bool, Option, none, some}
use beemel.Prelude.Int.{ℤ}

-- enum ETok
pub data ETok : Type 0 where
  int : ℤ → ETok
  sym : Text → ETok
  op : ℕ → ETok
  shl shr lparen rparen : ETok

-- One constructor for each message, with what the message prints.
pub data Error : Type 0 where
  program_empty : Error
  program_too_long : ℕ → Error
  duplicate_label : Text → Error
  program_directive wrap_before_instruction origin_needs_address : Error
  origin_out_of_range : ℤ → Error
  unknown_directive : Text → Error
  side_set_out_of_range : ℤ → Error
  side_set_needs_count : Error
  side_set_qualifier : Text → Error
  side_set_no_data_bits : Error
  side_set_too_wide : ℕ → Bool → Error
  define_needs_name define_needs_value : Error
  redefinition : Text → Error
  word_out_of_range : ℤ → Error
  empty_instruction : Error
  unknown_instruction : Text → Error
  delay_out_of_range : ℤ → ℕ → Error
  side_without_side_set : Error
  side_value_out_of_range : ℤ → ℕ → Error
  side_required unterminated_delay side_needs_value : Error
  usage : Text → Error
  value_out_of_range : Text → ℤ → Error
  wait_polarity : Error
  bad_operand : Text → Text → Error
  unexpected_char : ℕ → Error
  invalid_integer : Text → Error
  trailing_tokens : Text → Error
  unknown_symbol : Text → Error
  expected_rparen : Error
  expected_value : Option ETok → Error
  overflow division_by_zero modulo_by_zero bad_left_shift bad_right_shift bad_operator : Error

-- `panic`: the unchecked unary minus overflowed in a build with overflow checks.
-- `out_of_fuel` has no counterpart in the program.
pub data Outcome {ℓ} (A : Type ℓ) : Type ℓ where
  ok : A → Outcome A
  err : Error → Outcome A
  panic out_of_fuel : Outcome A

infixl 5 ◌>>=◌ ◌>>◌
abbrev pub ◌>>=◌ {ℓ κ} : {A : Type ℓ} {B : Type κ} → Outcome A → (A → Outcome B) → Outcome B
ok a >>= f = f a
err e >>= f = err e
panic >>= f = panic
out_of_fuel >>= f = out_of_fuel

abbrev pub ◌>>◌ {ℓ} : {B : Type ℓ} → Outcome (Unit {0}) → Outcome B → Outcome B
m >> k = m >>= λ _. k

-- `ok_or`.
abbrev pub or_err {ℓ} : {A : Type ℓ} → Option A → Error → Outcome A
or_err none e = err e
or_err (some a) e = ok a

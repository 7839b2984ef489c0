-- ===== src/Pio/Expr/Tests.antt =====
-- Runs of `eval`.
use beemel.Prelude.{◌≡◌, refl, [], codes}
use beemel.Prelude.Int.{pos}
use beemel.Pio.Error.{ok}
use beemel.Pio.Chars.{ascii_only}
use beemel.Pio.Expr.Apply.{binding_power, apply}
use beemel.Pio.Expr.Parser.{expect_rparen, eval}

eval_precedence : eval ascii_only [] (codes "2 + 3 * (4 - 1) << 1") ≡ ok (pos 22)
unfolding eval binding_power apply expect_rparen
eval_precedence = refl

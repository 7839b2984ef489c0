-- ===== src/Context/Tests.antt =====
-- The theorems on contexts at concrete priorities.
use beemel.Prelude.{◌≡◌, refl}
use beemel.Context.{isr, Preempts, can_access, needs_critical_section, no_section-exclusive}

no_section-exclusive_example : (isr 2 ≡ isr 2) × ¬ Preempts (isr 3) (isr 2)
unfolding can_access needs_critical_section
no_section-exclusive_example = no_section-exclusive 2 (isr 2) 3 refl refl refl

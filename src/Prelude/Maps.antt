-- ===== src/Prelude/Maps.antt =====
-- A hash map with names for keys, as an association list: the first entry of a name counts.
use mathlib.Core.Path.{◌≡◌, refl}
use native.Mathlib.Omega.{arith}
use mathlib.Core.Bool.{Bool, true, false, ◌||◌}
use mathlib.Core.List.{List, [], ◌∷◌}
use mathlib.Core.Option.{Option, none, some}
use beemel.Prelude.Tests.{if◌then◌else◌}
use beemel.Prelude.Strings.{Text, text_eq, text_eq_iff}

abbrev pub Map {ℓ} : Type ℓ → Type ℓ
Map A = List (Text × A)

abbrev pub get {ℓ} : {A : Type ℓ} → Map A → Text → Option A
get [] k = none
get ((n, a) ∷ m) k = if text_eq n k then some a else get m k

abbrev pub contains_key {ℓ} : {A : Type ℓ} → Map A → Text → Bool
contains_key [] k = false
contains_key ((n, a) ∷ m) k = text_eq n k || contains_key m k

-- A set of names.
abbrev pub contains : List Text → Text → Bool
contains [] t = false
contains (n ∷ ns) t = text_eq n t || contains ns t

-- A write: the entry of the key, or a new one behind the others.
unfoldable pub insert {ℓ} : {A : Type ℓ} → Text → A → Map A → Map A
insert k a [] = (k, a) ∷ []
insert k a ((n, b) ∷ m) = if text_eq n k then (n, a) ∷ m else (n, b) ∷ insert k a m

pub get-insert {ℓ} :
    {A : Type ℓ} (k j : Text) (a : A) (m : Map A)
    → get (insert k a m) j ≡ (if text_eq k j then some a else get m j)
unfolding insert
get-insert k j a [] = refl
get-insert k j a ((n, b) ∷ m) =
    ground (arith, text_eq_iff n k, text_eq_iff n j, text_eq_iff k j, get-insert k j a m)

abbrev pub is_empty {ℓ} : {A : Type ℓ} → List A → Bool
is_empty [] = true
is_empty (_ ∷ _) = false

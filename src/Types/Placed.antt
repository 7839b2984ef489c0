-- ===== src/Types/Placed.antt =====
-- Where the fields of a C struct stand, against `checked_struct_size` of bml-core/src/types.rs.
use beemel.Prelude.{
  ℕ, ◌+◌, ◌%◌, ◌^◌, ◌≤◌, ◌<◌, ◌≡◌, refl, ap, Option, none, some, List, [], ◌∷◌, max, arith,
}
use beemel.Ast.Items.{c_repr}
use beemel.Types.Syntax.{TyFields, no_ty_fields, ty_field}
use beemel.Types.Layout.{
  ◌>>=◌, checked_u32, checked_align_to, align_of, align_fields, checked_element_size, pad_end,
  c_fields, checked_struct_size,
}
use beemel.Types.CStruct.{
  IsAlign, one, two, four, eight, align_of-IsAlign, align_fields-IsAlign, IsAlign-positive,
}

bind-eq-some {ℓ κ} :
    {A : Type ℓ} {B : Type κ} (m : Option A) (f : A → Option B) {b : B}
    → (m >>= f) ≡ some b
    → (a : A) × (m ≡ some a) × (f a ≡ some b)
bind-eq-some none f h = cc
bind-eq-some (some a) f h = (a, refl, h)

checked_u32-some : (n : ℕ) {m : ℕ} → checked_u32 n ≡ some m → (n ≡ m) × (m < 2 ^ 32)
unfolding checked_u32
checked_u32-some n h = ground arith

-- The least multiple of the alignment that is not below the value.
abbrev pub IsNext : ℕ → ℕ → ℕ → Type 0
IsNext align from o = (from ≤ o) × (o < from + align) × (o % align ≡ 0)

checked_align_to-IsNext :
    {align : ℕ}
    → IsAlign align
    → (from : ℕ) {o : ℕ} → from < 2 ^ 32
    → checked_align_to from align ≡ some o
    → IsNext align from o × (o < 2 ^ 32)
unfolding checked_align_to checked_u32
checked_align_to-IsNext one from lt h = ground arith
checked_align_to-IsNext two from lt h = ground arith
checked_align_to-IsNext four from lt h = ground arith
checked_align_to-IsNext eight from lt h = ground arith

-- The fields stand at these offsets, in order and apart, each at the least multiple of its
-- alignment, and the last one ends at `end`.
abbrev pub Placed : ℕ → TyFields → List ℕ → ℕ → Type 0
Placed from no_ty_fields [] end = from ≡ end
Placed from no_ty_fields (o ∷ os) end = ⊥
Placed from (ty_field _ t fields) [] end = ⊥
Placed from (ty_field _ t fields) (o ∷ os) end =
    IsNext (align_of t) from o
    × ((size : ℕ) × (checked_element_size t ≡ some size) × Placed (o + size) fields os end)

pair-injective : (p q : ℕ × ℕ) → some p ≡ some q → (p.0 ≡ q.0) × (p.1 ≡ q.1)
pair-injective p q h = let e : p ≡ q = cc in (ap (λ (r : ℕ × ℕ). r.0) e, ap (λ (r : ℕ × ℕ). r.1) e)

c_fields-Placed :
    (fields : TyFields) (from m : ℕ) {end greatest : ℕ}
    → from < 2 ^ 32
    → 1 ≤ m
    → c_fields from m fields ≡ some (end, greatest)
    → ((os : List ℕ) × Placed from fields os end)
      × (greatest ≡ max m (align_fields fields))
      × (end < 2 ^ 32)
unfolding checked_element_size align_of
c_fields-Placed no_ty_fields from m {end} {greatest} lt le h =
    let same : (from ≡ end) × (m ≡ greatest) = pair-injective (from, m) (end, greatest) h in
    (([], same.0), omega arith, omega arith)
c_fields-Placed (ty_field name t fields) from m {end} {greatest} lt le h =
    let (start, aligned, h₁) = bind-eq-some (checked_align_to from (align_of t)) _ h in
    let (size, sized, h₂) = bind-eq-some (checked_element_size t) _ h₁ in
    let (next, added, h₃) = bind-eq-some (checked_u32 (start + size)) _ h₂ in
    let (here, small) = checked_align_to-IsNext (align_of-IsAlign t) from lt aligned in
    let (sum, next_small) = checked_u32-some (start + size) added in
    let ((os, rest), most, end_small) =
      c_fields-Placed fields next (max m (align_of t)) next_small (omega arith) h₃ in
    ((start ∷ os, (here, (size, sized, rw sum rest))), omega arith, end_small)

pad_end-some :
    (r : Option (ℕ × ℕ)) {n : ℕ}
    → pad_end r ≡ some n
    → (end : ℕ) × (greatest : ℕ) × (r ≡ some (end, greatest))
      × (checked_align_to end greatest ≡ some n)
unfolding pad_end
pad_end-some none h = cc
pad_end-some (some (end, greatest)) h = (end, greatest, refl, h)

-- A C struct of size `n` has its fields in order, aligned and apart, and `n` is the least multiple
-- of its alignment behind them, a `u32`.
pub checked_struct_size-Placed :
    (fields : TyFields) {n : ℕ}
    → checked_struct_size c_repr fields ≡ some n
    → (os : List ℕ) × (end : ℕ) × Placed 0 fields os end
      × IsNext (align_fields fields) end n
      × (n < 2 ^ 32)
unfolding checked_struct_size
checked_struct_size-Placed fields {n} h =
    let (end, greatest, read, padded) = pad_end-some (c_fields 0 1 fields) h in
    let ((os, placed), most, small) = c_fields-Placed fields 0 1 (omega arith) (omega arith) read in
    let align = align_fields-IsAlign fields in
    let same : greatest ≡ align_fields fields = omega (arith, IsAlign-positive align) in
    let (next, fits) = checked_align_to-IsNext align end small (rw same at padded) in
    (os, end, placed, next, fits)

-- ===== src/Pio/Assembler/Invariant.antt =====
-- The first pass of pio-encode/src/lib.rs keeps the program's settings in range.
use beemel.Prelude.{
  if_holds, map_or_holds, ℕ, suc, ◌+◌, ◌-◌, ◌≤◌, ◌<◌, ◌≡◌, Text, Bool, true, false, Bool-cases, inl,
  inr, Option, none, some, List, [], ◌∷◌, arith, ltb, ◌==◌, ◌is◌, ◌||◌, ◌&&◌,
}
use beemel.Prelude.Int.{ℤ, pos_part, within}
use beemel.Pio.Error.{Error, Outcome, ok, err, panic, out_of_fuel}
use beemel.Pio.Chars.{Unicode, trim, split_whitespace}
use beemel.Pio.Expr.Parser.{lookup, eval}
use beemel.Pio.Expr.Bounds.{Anything, eval-ends}
use beemel.Pio.Ensures.{Ensures, Ensures-if}
use beemel.Pio.SideSet.{total_bits, from_bool}
use beemel.Pio.SideSet.Layout.{IsSideSet}
use beemel.Pio.State.{
  Assembler, as_u8, add_error, insert_symbol, match_eval, set_side_set, side_set_qualifiers,
  define_symbol, dir_wrap,
}
use beemel.Pio.Directive.{
  first_word, dir_side_set, define_named, dir_define, origin_at, dir_origin, directive,
}

abbrev pub Below : Option ℕ → ℕ → Type 0
Below none k = Unit
Below (some n) k = n < k

Below-mono : (o : Option ℕ) (j k : ℕ) → j ≤ k → Below o j → Below o k
Below-mono none j k h p = tt
Below-mono (some n) j k h p = omega arith

-- The settings of an assembler that has seen `n` instructions.
abbrev pub InRange : ℕ → Assembler → Type 0
InRange n a =
    IsSideSet a.side_set × Below a.origin 32 × Below a.wrap_target (suc n) × Below a.wrap n

pub InRange-mono : (n m : ℕ) (a : Assembler) → n ≤ m → InRange n a → InRange m a
InRange-mono n m a h (side, origin, target, wrap) = (
  side,
  origin,
  Below-mono a.wrap_target (suc n) (suc m) (omega arith) target,
  Below-mono a.wrap n m h wrap,
)

module _ (n : ℕ) where
  add_error-InRange :
      (l : ℕ) (e : Error) (a : Assembler) → InRange n a → InRange n (add_error l e a)
  unfolding add_error
  add_error-InRange l e a h = h

  pub insert_symbol-InRange :
      (k : Text) (v : ℤ) (l : ℕ) (e : Error) (a : Assembler)
      → InRange n a
      → InRange n (insert_symbol k v l e a)
  unfolding insert_symbol add_error
  insert_symbol-InRange k v l e a h =
      let inserted = record a { symbols = (k, v) ∷ a.symbols } in
      map_or_holds (InRange n) (lookup k a.symbols) inserted (λ _. add_error l e inserted) h λ _. h

  set_side_set-InRange :
      (count : ℕ) (opt pindirs : Bool) (l : ℕ) (a : Assembler)
      → InRange n a
      → InRange n (set_side_set count opt pindirs l a)
  unfolding set_side_set total_bits
  set_side_set-InRange count opt pindirs l a h =
      if_holds (InRange n) (opt && (count == 0)) _ _
        (add_error-InRange l Error.side_set_no_data_bits a h)
        (elim (Bool-cases (ltb 5 (count + from_bool opt))) [
          | inl e ↦ rw e (add_error-InRange l (Error.side_set_too_wide count opt) a h)
          | inr e ↦ rw e (fits e, h.1, h.2, h.3)
        ])
    where
      fits : ltb 5 (count + from_bool opt) ≡ false → count + from_bool opt ≤ 5
      fits e = ground arith

  side_set_qualifiers-InRange :
      (ts : List Text) (count : ℕ) (opt pindirs : Bool) (l : ℕ) (a : Assembler)
      → InRange n a
      → InRange n (side_set_qualifiers ts count opt pindirs l a)
  unfolding side_set_qualifiers
  side_set_qualifiers-InRange [] count opt pindirs l a h =
      set_side_set-InRange count opt pindirs l a h
  side_set_qualifiers-InRange (t ∷ ts) count opt pindirs l a h =
      if_holds (InRange n) (t is "opt") _ _
        (side_set_qualifiers-InRange ts count true pindirs l a h)
        (if_holds (InRange n) (t is "pindirs") _ _
          (side_set_qualifiers-InRange ts count opt true l a h)
          (side_set_qualifiers-InRange ts count opt pindirs l
            (add_error l (Error.side_set_qualifier t) a)
            (add_error-InRange l (Error.side_set_qualifier t) a h)))

  match_eval-InRange :
      (m : Outcome ℤ) (l : ℕ) (a : Assembler) (f : ℤ → Assembler)
      → Ensures Anything m
      → InRange n a
      → ((v : ℤ) → InRange n (f v))
      → Ensures (InRange n) (match_eval m l a f)
  match_eval-InRange (ok v) l a f e h k = k v
  match_eval-InRange (err d) l a f e h k = add_error-InRange l d a h
  match_eval-InRange panic l a f e h k = tt
  match_eval-InRange out_of_fuel l a f e h k = absurd e

  define_symbol-InRange :
      (public : Bool) (s : Text) (v : ℤ) (l : ℕ) (a : Assembler)
      → InRange n a
      → InRange n (define_symbol public s v l a)
  unfolding define_symbol
  define_symbol-InRange public s v l a h =
      let inserted = insert_symbol-InRange s v l (Error.redefinition s) a h in
      if_holds (InRange n) public _ _ inserted inserted

  dir_wrap-InRange : (l : ℕ) (a : Assembler) → InRange n a → InRange n (dir_wrap n l a)
  unfolding dir_wrap
  dir_wrap-InRange l a h = elim (Bool-cases (n == 0)) [
    | inl e ↦ rw e (add_error-InRange l Error.wrap_before_instruction a h)
    | inr e ↦ rw e (h.0, h.1, h.2, last_below e)
  ]
    where
      last_below : (n == 0) ≡ false → as_u8 (n - 1) < n
      last_below e = ground arith

  module _ (u : Unicode) where
    dir_side_set-InRange :
        (ts : List Text) (l : ℕ) (a : Assembler)
        → InRange n a
        → Ensures (InRange n) (dir_side_set u ts l a)
    unfolding dir_side_set
    dir_side_set-InRange (name ∷ t ∷ quals) l a h =
        match_eval-InRange (eval u a.symbols t) l a _ (eval-ends u a.symbols t) h λ v.
          if_holds (InRange n) (within 0 5 v) _ _
            (side_set_qualifiers-InRange quals (pos_part v) false false l a h)
            (add_error-InRange l (Error.side_set_out_of_range v) a h)
    dir_side_set-InRange (name ∷ []) l a h = add_error-InRange l Error.side_set_needs_count a h
    dir_side_set-InRange [] l a h = add_error-InRange l Error.side_set_needs_count a h

    define_named-InRange :
        (public : Bool) (s : Text) (e : Option Text) (l : ℕ) (a : Assembler)
        → InRange n a
        → Ensures (InRange n) (define_named u public s e l a)
    unfolding define_named
    define_named-InRange public [] e l a h = add_error-InRange l Error.define_needs_name a h
    define_named-InRange public (c ∷ s) none l a h =
        add_error-InRange l Error.define_needs_value a h
    define_named-InRange public (c ∷ s) (some e) l a h =
        match_eval-InRange (eval u a.symbols (trim u e)) l a _ (eval-ends u a.symbols (trim u e)) h
          λ v. define_symbol-InRange public (c ∷ s) v l a h

    dir_define-InRange :
        (body : Text) (l : ℕ) (a : Assembler)
        → InRange n a
        → Ensures (InRange n) (dir_define u body l a)
    unfolding dir_define
    dir_define-InRange body l a h = define_named-InRange _ _ _ l a h

    origin_at-InRange :
        (t : Text) (l : ℕ) (a : Assembler) → InRange n a → Ensures (InRange n) (origin_at u t l a)
    unfolding origin_at
    origin_at-InRange [] l a h = add_error-InRange l Error.origin_needs_address a h
    origin_at-InRange (c ∷ rest) l a h =
        match_eval-InRange (eval u a.symbols (c ∷ rest)) l a _ (eval-ends u a.symbols (c ∷ rest)) h
          λ v. elim (Bool-cases (within 0 31 v)) [
            | inl e ↦ rw e (h.0, origin_fits v e, h.2, h.3)
            | inr e ↦ rw e (add_error-InRange l (Error.origin_out_of_range v) a h)
          ]
      where
        origin_fits : (v : ℤ) → within 0 31 v ≡ true → pos_part v < 32
        origin_fits v e = ground arith

    pub directive-InRange :
        (body : Text) (l : ℕ) (a : Assembler)
        → InRange n a
        → Ensures (InRange n) (directive u body n l a)
    unfolding directive dir_origin
    directive-InRange body l a h =
        let toks = split_whitespace u body in
        let name = first_word toks in
        Ensures-if (InRange n) (name is "program") _ _
          (add_error-InRange l Error.program_directive a h)
          (Ensures-if (InRange n) (name is "side_set") _ _ (dir_side_set-InRange toks l a h) (
            Ensures-if (InRange n) (name is "wrap_target") _ _ (h.0, h.1, target, h.3)
              (Ensures-if (InRange n) (name is "wrap") _ _ (dir_wrap-InRange l a h) (
                Ensures-if (InRange n) (name is "origin") _ _ (origin_at-InRange _ l a h) (
                  Ensures-if (InRange n) (name is "define") _ _ (dir_define-InRange body l a h) (
                    Ensures-if (InRange n)
                      ((name is "lang_opt")
                        || ((name is "pio_version") || ((name is "clock_div") || (name is "fifo"))))
                      (ok a) (ok (add_error l (Error.unknown_directive name) a)) h
                      (add_error-InRange l (Error.unknown_directive name) a h)))))))
      where
        target : as_u8 n < suc n
        target = grind arith

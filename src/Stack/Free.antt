-- ===== src/Stack/Free.antt =====
-- Contributions of bml-core/src/stack.rs that have no call through a pointer.
use beemel.Prelude.{ℕ, ◌+◌, ◌≡◌, refl, Bool, true, false, ◌||◌, Option, none, some}
use beemel.Types.Layout.{◌>>=◌, checked_u32}
use beemel.Stack.Frame.{Contribution, ◌⊕◌, grow, grow_by, framed}

-- A contribution, if its sums do not overflow, has no call through a pointer.
unfoldable pub Free : Option Contribution → Type 0
Free none = Unit
Free (some c) = c.has_indirect ≡ false

neither : (a b : Bool) → (a || b) ≡ false → (a ≡ false) × (b ≡ false)
neither true b h = cc
neither false b h = (refl, h)

bind-Free :
    (o : Option ℕ) (k : ℕ → Contribution)
    → ((n : ℕ) → (k n).has_indirect ≡ false)
    → Free (o >>= λ n. some (k n))
unfolding Free
bind-Free none k h = tt
bind-Free (some n) k h = h n

join-Free : (a b : Option Contribution) → Free a → Free b → Free (a ⊕ b)
unfolding Free ◌⊕◌
join-Free none b p q = tt
join-Free (some x) none p q = tt
join-Free (some x) (some y) p q = bind-Free (checked_u32 (x.frame + y.frame)) _ λ n. rw (p, q) refl

pub grow-Free : (n : ℕ) (c : Option Contribution) → Free c → Free (grow n c)
unfolding Free grow
grow-Free n none h = tt
grow-Free n (some c) h = bind-Free (checked_u32 (n + c.frame)) _ λ m. h

pub grow_by-Free : (o : Option ℕ) (c : Option Contribution) → Free c → Free (grow_by o c)
unfolding Free grow_by
grow_by-Free none c h = tt
grow_by-Free (some n) c h = grow-Free n c h

pub framed-Free : (n : ℕ) (c : Option Contribution) → Free c → Free (framed n c)
unfolding Free framed
framed-Free n none h = tt
framed-Free n (some c) h = h

-- The facts of a tree without indirect calls say so of its parts.
pub two :
    (a b : Option Contribution) {x y : Bool}
    → (x ≡ false → Free a)
    → (y ≡ false → Free b)
    → (x || y) ≡ false
    → Free (a ⊕ b)
two a b {x} {y} p q h = let (l, r) = neither x y h in join-Free a b (p l) (q r)

pub three :
    (a b c : Option Contribution) {x y z : Bool}
    → (x ≡ false → Free a)
    → (y ≡ false → Free b)
    → (z ≡ false → Free c)
    → (x || (y || z)) ≡ false
    → Free (a ⊕ b ⊕ c)
three a b c {x} {y} {z} p q r h =
    let (l, rest) = neither x (y || z) h in
    let (m, k) = neither y z rest in join-Free (a ⊕ b) c (join-Free a b (p l) (q m)) (r k)

pub four :
    (a b c d : Option Contribution) {x y z w : Bool}
    → (x ≡ false → Free a)
    → (y ≡ false → Free b)
    → (z ≡ false → Free c)
    → (w ≡ false → Free d)
    → (x || (y || (z || w))) ≡ false
    → Free (a ⊕ b ⊕ c ⊕ d)
four a b c d {x} {y} {z} {w} p q r s h =
    let (l, rest) = neither x (y || (z || w)) h in
    let (m, last) = neither y (z || w) rest in
    let (k, j) = neither z w last in
    join-Free (a ⊕ b ⊕ c) d (join-Free (a ⊕ b) c (join-Free a b (p l) (q m)) (r k)) (s j)

pub swapped :
    (a b : Option Contribution) {x y : Bool}
    → (x ≡ false → Free a)
    → (y ≡ false → Free b)
    → (x || y) ≡ false
    → Free (b ⊕ a)
swapped a b {x} {y} p q h = let (l, r) = neither x y h in join-Free b a (q r) (p l)

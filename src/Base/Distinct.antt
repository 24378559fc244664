-- ===== src/Base/Distinct.antt =====
-- Lists of numbers without a repetition.
use Prim.Native.Nat.{ℕ}
use mathlib.Core.Path.{◌≡◌, refl}
use mathlib.Core.Bool.{true, false}
use mathlib.Core.List.{List, [], ◌∷◌, ◌++◌}
use native.Mathlib.Omega.{arith}
use adkg.Base.Tests.{nat_beq, if◌then◌else◌}
use adkg.Base.Lists.{contains}

-- No entry twice
abbrev pub Distinct : List ℕ → Type 0
Distinct [] = Unit {0}
Distinct (a ∷ s) = (contains s a ≡ false) × Distinct s

pub contains-snoc :
    (s : List ℕ) (a b : ℕ) → contains (s ++ a ∷ []) b ≡ (if contains s b then true else nat_beq a b)
contains-snoc [] a b = ground arith
contains-snoc (x ∷ s) a b = ground (arith, contains-snoc s a b)

pub Distinct-snoc :
    (s : List ℕ) (a : ℕ) → contains s a ≡ false → Distinct s → Distinct (s ++ a ∷ [])
Distinct-snoc [] a h d = (refl, tt)
Distinct-snoc (x ∷ s) a h d =
    (rw (contains-snoc s a x, d.0) (ground arith), Distinct-snoc s a (ground arith) d.1)

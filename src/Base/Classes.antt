-- ===== src/Base/Classes.antt =====
-- Equality tests as an interface, with the instances for numbers and for texts.
use Prim.Native.Nat.{ℕ}
use mathlib.Core.Path.{◌≡◌, refl}
use mathlib.Core.Logic.{◌↔◌}
use mathlib.Core.Bool.{Bool, true, false, ◌&&◌}
use mathlib.Core.List.{List, [], ◌∷◌}
use native.Mathlib.Omega.{arith}
use adkg.Base.Tests.{nat_beq, nat_beq_iff}

abbrev list_beq : List ℕ → List ℕ → Bool
list_beq (a ∷ s) (b ∷ t) = nat_beq a b && list_beq s t
list_beq (a ∷ s) [] = false
list_beq [] (b ∷ t) = false
list_beq [] [] = true

pub list_beq_iff : (s t : List ℕ) → (list_beq s t ≡ true) ↔ (s ≡ t)
list_beq_iff (a ∷ s) (b ∷ t) = ground (arith, list_beq_iff s t)
list_beq_iff (a ∷ s) [] = ground arith
list_beq_iff [] (b ∷ t) = ground arith
list_beq_iff [] [] = ground arith

pub record Eq {ℓ} (K : Type ℓ) : Type ℓ where
  pub beq : K → K → Bool
  pub beq_iff : (j k : K) → (beq j k ≡ true) ↔ (j ≡ k)

instance abbrev pub text_eq : Eq (List ℕ)
text_eq = record { beq = list_beq; beq_iff = list_beq_iff }

instance abbrev pub nat_eq : Eq ℕ
nat_eq = record { beq = nat_beq; beq_iff = nat_beq_iff }

infix 50 ◌==◌
abbrev pub ◌==◌ {ℓ} : {K : Type ℓ} ⦃q : Eq K⦄ → K → K → Bool
◌==◌ ⦃q⦄ = q.beq

pub beq_refl {ℓ} : {K : Type ℓ} ⦃q : Eq K⦄ (k : K) → (k == k) ≡ true
beq_refl ⦃q⦄ k = (q.beq_iff k k).1 refl

-- ===== src/Base/Int.antt =====
-- Signed integers, for what the node parses from text: `negsuc n` is -(n + 1).
use Prim.Native.Nat.{ℕ, zero, suc}
use mathlib.Core.Bool.{Bool, true, false}
use mathlib.Core.Path.{◌≡◌, ap}
use mathlib.Core.Logic.{◌↔◌}
use adkg.Base.Tests.{nat_beq, nat_beq_iff}
use adkg.Base.Classes.{Eq}

pub data ℤ : Type 0 where
  pos : ℕ → ℤ
  negsuc : ℕ → ℤ

abbrev pub neg : ℕ → ℤ
neg zero = pos 0
neg (suc n) = negsuc n

-- `a == b`, or `a.Cmp(b) == 0`
abbrev pub int_beq : ℤ → ℤ → Bool
int_beq (pos a) (pos b) = nat_beq a b
int_beq (negsuc a) (negsuc b) = nat_beq a b
int_beq (pos a) (negsuc b) = false
int_beq (negsuc a) (pos b) = false

from_pos : ℤ → ℕ
from_pos (pos n) = n
from_pos (negsuc n) = n

pub int_beq_iff : (a b : ℤ) → (int_beq a b ≡ true) ↔ (a ≡ b)
unfolding from_pos
int_beq_iff (pos a) (pos b) =
    (λ h. ap pos ((nat_beq_iff a b).0 h), λ e. (nat_beq_iff a b).1 (ap from_pos e))
int_beq_iff (negsuc a) (negsuc b) =
    (λ h. ap negsuc ((nat_beq_iff a b).0 h), λ e. (nat_beq_iff a b).1 (ap from_pos e))
int_beq_iff (pos a) (negsuc b) = (λ h. cc, λ e. cc)
int_beq_iff (negsuc a) (pos b) = (λ h. cc, λ e. cc)

instance abbrev pub int_eq : Eq ℤ
int_eq = record { beq = int_beq; beq_iff = int_beq_iff }

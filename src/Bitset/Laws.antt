-- ===== src/Bitset/Laws.antt =====
-- The set operations on bits: what is in the set after each, for every position.
use Prim.Native.Nat.{bit_and, max}
use native.Mathlib.Decide.{dec_lt}
use adkg.Base.{
  true, ℕ, zero, suc, ◌+◌, ◌*◌, ◌%◌, ◌^◌, ◌≤◌, ◌<◌, ◌≡◌, false, ◌&&◌, ◌||◌, List, [], ◌∷◌, ◌++◌,
  arith, leb, ltb, nat_beq, if◌then◌else◌, contains, Bool-cases, inl, inr,
}
use adkg.Base.Bits.{bit, bit-le-one, bit-bit_or, bit-mul-pow, bit_and-pow, bit_and-zero}
use adkg.Base.Distinct.{Distinct, contains-snoc, Distinct-snoc}
use adkg.Bitset.{has_bit, set_bit, set_bits_loop, get_set_bits, one_shl, is_positive}
use native.Mathlib.Nat.{pow-suc, pow-le-pow_right, one-le-pow}

pub pow-lt : (p k : ℕ) → p < k → 2 ^ p < 2 ^ k
pow-lt p k h = omega (
  arith,
  pow-le-pow_right {n = 2} (omega arith) {i = suc p} {j = k} h,
  pow-suc 2 p,
  one-le-pow p 2 (omega arith),
)

pow-mod-zero : (p : ℕ) → 64 ≤ p → 2 ^ p % 2 ^ 64 ≡ 0
pow-mod-zero zero h = absurd (omega arith)
pow-mod-zero (suc p) h = elim (dec_lt p 64) [
  | yes last ↦ let e : p ≡ 63 = omega arith in rw e
  | no more ↦ omega (arith, pow-suc 2 p, pow-mod-zero p (omega arith))
]

-- `n & (1 << p)`, up to the sign bit
bit_and-one_shl : (n p : ℕ) → p < 64 → bit_and n (one_shl p) ≡ bit n p * 2 ^ p
bit_and-one_shl n p h =
    let e : one_shl p ≡ 2 ^ p = omega (arith, pow-lt p 64 h) in rw e (bit_and-pow n p)

is_positive-bit : (b t : ℕ) → b ≤ 1 → 0 < t → t < 2 ^ 63 → is_positive (b * t) ≡ nat_beq b 1
is_positive-bit zero t h pos lt = ground arith
is_positive-bit (suc zero) t h pos lt = ground arith
is_positive-bit (suc (suc b)) t h pos lt = absurd (omega arith)

is_positive-sign : (b : ℕ) → b ≤ 1 → is_positive (b * 2 ^ 63) ≡ false
is_positive-sign b h = ground arith

-- Below 63 the test reads a digit; the sign bit and what is shifted out never pass it.
pub has_bit_lem : (n p : ℕ) → p < 63 → has_bit n p ≡ nat_beq (bit n p) 1
unfolding has_bit
has_bit_lem n p h = rw (bit_and-one_shl n p (omega arith)) (
    is_positive-bit (bit n p) (2 ^ p) (bit-le-one n p) (one-le-pow p 2 (omega arith))
      (pow-lt p 63 h))

pub has_bit_high : (n p : ℕ) → 63 ≤ p → has_bit n p ≡ false
unfolding has_bit
has_bit_high n p h = elim (dec_lt p 64) [
  | yes sign ↦
      let e : p ≡ 63 = omega arith in
      rw (e, bit_and-one_shl n 63 (omega arith)) (is_positive-sign (bit n 63) (bit-le-one n 63))
  | no out ↦ rw (pow-mod-zero p (omega arith), bit_and-zero n)
]

-- The digits after `n |= 1 << p`
bit-set_bit :
    (n p q : ℕ) → p < 64 → bit (set_bit n p) q ≡ max (bit n q) (if nat_beq p q then 1 else 0)
unfolding set_bit
bit-set_bit n p q h =
    let e : one_shl p ≡ 1 * 2 ^ p = omega (arith, pow-lt p 64 h) in
    rw (e, bit-bit_or n (1 * 2 ^ p) q, bit-mul-pow 1 p q (omega arith))

-- After `SetBit(n, p)`, `HasBit` answers true at `p` and as before at every other position.
pub has_bit-set_bit : (n p q : ℕ) → p < 63 → has_bit (set_bit n p) q ≡ (nat_beq p q || has_bit n q)
has_bit-set_bit n p q h = elim (dec_lt q 63) [
  | yes low ↦
      rw (has_bit_lem (set_bit n p) q low, has_bit_lem n q low, bit-set_bit n p q (omega arith))
        (ground (arith, bit-le-one n q))
  | no high ↦
      rw (has_bit_high (set_bit n p) q (omega arith), has_bit_high n q (omega arith)) (ground arith)
]

contains-append :
    (xs : List ℕ) (x e : ℕ) → contains (xs ++ x ∷ []) e ≡ (contains xs e || nat_beq x e)
contains-append [] x e = ground arith
contains-append (y ∷ xs) x e = ground (arith, contains-append xs x e)

contains-set_bits_loop :
    (rounds i val : ℕ) (l : List ℕ) (p : ℕ)
    → contains (set_bits_loop rounds i val l) p
      ≡ (contains l p || (leb i p && ltb p (i + rounds) && has_bit val p))
unfolding set_bits_loop
contains-set_bits_loop zero i val l p = ground arith
contains-set_bits_loop (suc rounds) i val l p = elim (Bool-cases (has_bit val i)) [
  | inl found ↦
      rw (found, contains-set_bits_loop rounds (i + 1) val (l ++ i ∷ []) p, contains-append l i p)
        (ground arith)
  | inr missing ↦ rw (missing, contains-set_bits_loop rounds (i + 1) val l p) (ground arith)
]

-- `GetSetBits(n, val)` lists the positions from 1 to `n` that `HasBit` finds in `val`, and no other.
pub contains-get_set_bits :
    (n val p : ℕ) → contains (get_set_bits n val) p ≡ (leb 1 p && leb p n && has_bit val p)
unfolding get_set_bits
contains-get_set_bits n val p = rw (contains-set_bits_loop n 1 val [] p) (ground arith)

Distinct-set_bits_loop :
    (rounds i val : ℕ) (l : List ℕ)
    → Distinct l
    → ((x : ℕ) → contains l x ≡ true → x < i)
    → Distinct (set_bits_loop rounds i val l)
unfolding set_bits_loop
Distinct-set_bits_loop zero i val l d low = d
Distinct-set_bits_loop (suc rounds) i val l d low = elim (Bool-cases (has_bit val i)) [
  | inl found ↦ rw found (
      Distinct-set_bits_loop rounds (i + 1) val (l ++ i ∷ [])
        (Distinct-snoc l i (ground (arith, low i)) d)
        (λ x h. ground (arith, low x, contains-snoc l i x)))
  | inr missing ↦
      rw missing (Distinct-set_bits_loop rounds (i + 1) val l d (λ x h. ground (arith, low x)))
]

-- `GetSetBits` lists no position twice.
pub Distinct-get_set_bits : (n val : ℕ) → Distinct (get_set_bits n val)
unfolding get_set_bits
Distinct-get_set_bits n val = Distinct-set_bits_loop n 1 val [] tt (λ x h. absurd (ground arith))

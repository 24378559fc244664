-- ===== src/Base/Bits.antt =====
-- The binary digits of a native number, and how the native `&` and `|` act on each of them.
use Prim.Native.Nat.{
  ℕ, zero, suc, ◌+◌, ◌*◌, ◌/◌, ◌%◌, ◌-◌, ◌^◌, ◌≤◌, ◌<◌, min, max, bit_and, bit_or, digits,
  bit_and-bitwise, bit_or-bitwise,
}
use mathlib.Core.Path.{◌≡◌, refl, sym, ◌∙◌}
use native.Mathlib.Nat.{pow-suc}
use native.Mathlib.Omega.{arith}
use native.Mathlib.Decide.{dec_lt}
use adkg.Base.Tests.{nat_beq, if◌then◌else◌}

-- Digit `i` of `n`: `(n >> i) & 1`.
abbrev pub bit : ℕ → ℕ → ℕ
bit n zero = n % 2
bit n (suc i) = bit (n / 2) i

pub bit-le-one : (n i : ℕ) → bit n i ≤ 1
bit-le-one n zero = omega arith
bit-le-one n (suc i) = bit-le-one (n / 2) i

pub zero-bit : (i : ℕ) → bit 0 i ≡ 0
zero-bit zero = refl
zero-bit (suc i) = zero-bit i

-- A digit-wise operation acts on each digit by itself.
digits-bit :
    (z : ℕ → ℕ) (f : ℕ → ℕ → ℕ)
    → ((x y : ℕ) → x ≤ 1 → y ≤ 1 → f x y ≤ 1)
    → ((b i : ℕ) → bit (z b) i ≡ f 0 (bit b i))
    → (n a b i : ℕ) → a ≤ n
    → bit (digits z f n a b) i ≡ f (bit a i) (bit b i)
digits-bit z f small base zero zero b i h = rw (zero-bit i) (base b i)
digits-bit z f small base zero (suc a) b i h = absurd (omega arith)
digits-bit z f small base (suc n) zero b i h = rw (zero-bit i) (base b i)
digits-bit z f small base (suc n) (suc a) b zero h =
    omega (arith, small (suc a % 2) (b % 2) (omega arith) (omega arith))
digits-bit z f small base (suc n) (suc a) b (suc i) h =
    let d = digits z f n (suc a / 2) (b / 2) in
    let e : (d * 2 + f (suc a % 2) (b % 2)) / 2 ≡ d =
      omega (arith, small (suc a % 2) (b % 2) (omega arith) (omega arith)) in
    rw e (digits-bit z f small base n (suc a / 2) (b / 2) i (omega arith))

pub bit-bit_and : (a b i : ℕ) → bit (bit_and a b) i ≡ min (bit a i) (bit b i)
bit-bit_and a b i = rw (bit_and-bitwise a b) (
    digits-bit (λ y. 0) min (λ x y p q. omega arith) (λ y j. omega (arith, zero-bit j)) a a b i
      (omega arith))

pub bit-bit_or : (a b i : ℕ) → bit (bit_or a b) i ≡ max (bit a i) (bit b i)
bit-bit_or a b i =
    rw (bit_or-bitwise a b)
      (digits-bit (λ y. y) max (λ x y p q. omega arith) (λ y j. omega arith) a a b i (omega arith))

-- Two numbers with the same digits are equal.
bit_ext_fuel : (n a b : ℕ) → a + b ≤ n → ((i : ℕ) → bit a i ≡ bit b i) → a ≡ b
bit_ext_fuel zero a b h e = omega arith
bit_ext_fuel (suc n) zero zero h e = refl
bit_ext_fuel (suc n) a b h e =
    omega (arith, e 0, bit_ext_fuel n (a / 2) (b / 2) (omega arith) (λ i. e (suc i)))

pub bit_ext : (a b : ℕ) → ((i : ℕ) → bit a i ≡ bit b i) → a ≡ b
bit_ext a b e = bit_ext_fuel (a + b) a b (omega arith) e

pub mul-two-pow-suc : (c p : ℕ) → c * 2 ^ suc p ≡ c * 2 ^ p * 2
mul-two-pow-suc c p = rw (pow-suc 2 p) (omega arith)

-- A power of two, or nothing, has at most one digit that is not 0.
pub bit-mul-pow : (c p i : ℕ) → c ≤ 1 → bit (c * 2 ^ p) i ≡ (if nat_beq p i then c else 0)
bit-mul-pow c zero zero h = omega arith
bit-mul-pow c zero (suc i) h =
    let e : c * 1 / 2 ≡ 0 = omega arith in rw e (ground (arith, zero-bit i))
bit-mul-pow c (suc p) zero h = ground (arith, mul-two-pow-suc c p)
bit-mul-pow c (suc p) (suc i) h =
    let e : c * 2 ^ suc p / 2 ≡ c * 2 ^ p = omega (arith, mul-two-pow-suc c p) in
    rw e (ground (arith, bit-mul-pow c p i h))

-- `n & (1 << p)` is the digit at `p`, in its place.
pub bit_and-pow : (n p : ℕ) → bit_and n (2 ^ p) ≡ bit n p * 2 ^ p
bit_and-pow n p = bit_ext _ _ λ i. ground (
  arith,
  bit-bit_and n (2 ^ p) i,
  bit-mul-pow 1 p i (omega arith),
  bit-mul-pow (bit n p) p i (bit-le-one n p),
  bit-le-one n i,
)

pub bit_and_self : (n : ℕ) → bit_and n n ≡ n
bit_and_self n = bit_ext _ _ λ i. omega (arith, bit-bit_and n n i)

-- The lowest digit, and the digits above it.
pub bit_and_step : (a b : ℕ) → bit_and a b ≡ bit_and (a / 2) (b / 2) * 2 + min (a % 2) (b % 2)
bit_and_step a b =
    let low = bit-bit_and a b 0 in
    let high : bit_and a b / 2 ≡ bit_and (a / 2) (b / 2) =
      bit_ext _ _ (λ i. bit-bit_and a b (suc i) ∙ sym (bit-bit_and (a / 2) (b / 2) i)) in
    omega arith

pub bit_and-zero : (a : ℕ) → bit_and a 0 ≡ 0
bit_and-zero a = bit_ext _ _ λ i. omega (arith, bit-bit_and a 0 i, zero-bit i)

bit_and_le_fuel : (n a b : ℕ) → b ≤ n → bit_and a b ≤ b
bit_and_le_fuel n a zero h = omega (arith, bit_and-zero a)
bit_and_le_fuel zero a (suc b) h = absurd (omega arith)
bit_and_le_fuel (suc n) a (suc b) h =
    omega (arith, bit_and_step a (suc b), bit_and_le_fuel n (a / 2) (suc b / 2) (omega arith))

pub bit_and-le : (a b : ℕ) → bit_and a b ≤ b
bit_and-le a b = bit_and_le_fuel b a b (omega arith)

-- The number of digits 1 among the lowest `k`.
unfoldable pub ones : ℕ → ℕ → ℕ
ones zero n = 0
ones (suc k) n = n % 2 + ones k (n / 2)

pub ones-le : (k n : ℕ) → ones k n ≤ k
unfolding ones
ones-le zero n = omega arith
ones-le (suc k) n = omega (arith, ones-le k (n / 2))

pub ones-zero : (k : ℕ) → ones k 0 ≡ 0
unfolding ones
ones-zero zero = refl
ones-zero (suc k) = omega (arith, ones-zero k)

pub ones-suc : (k n : ℕ) → ones (suc k) n ≡ n % 2 + ones k (n / 2)
unfolding ones
ones-suc k n = refl

-- From a width that holds the number on, further digits are 0.
pub ones_wide : (k m n : ℕ) → n < 2 ^ k → k ≤ m → ones m n ≡ ones k n
unfolding ones
ones_wide zero m n h le = let e : n ≡ 0 = omega arith in rw e (omega (arith, ones-zero m))
ones_wide (suc k) zero n h le = absurd (omega arith)
ones_wide (suc k) (suc m) n h le =
    omega (arith, ones_wide k m (n / 2) (omega (arith, mul-two-pow-suc 1 k)) (omega arith))

-- `n & (n - 1)` clears the lowest digit 1.
pub ones-bit_and-pred : (k n : ℕ) → 0 < n → n < 2 ^ k → ones k (bit_and n (n - 1)) + 1 ≡ ones k n
unfolding ones
ones-bit_and-pred zero n pos h = absurd (omega arith)
ones-bit_and-pred (suc k) n pos h = elim (dec_lt 0 (n % 2)) [
  | yes odd ↦
      let e : (n - 1) / 2 ≡ n / 2 = omega arith in
      let s = bit_and_step n (n - 1) in
      let kept : bit_and n (n - 1) / 2 ≡ n / 2 = ground (arith, bit_and_self (n / 2)) in
      rw kept (omega arith)
  | no even ↦
      let e : (n - 1) / 2 ≡ n / 2 - 1 = omega arith in
      let s = bit_and_step n (n - 1) in
      let moved : bit_and n (n - 1) / 2 ≡ bit_and (n / 2) (n / 2 - 1) = ground arith in
      rw moved (
        omega
          (arith, ones-bit_and-pred k (n / 2) (omega arith) (omega (arith, mul-two-pow-suc 1 k))))
]

pub bit_or_step : (a b : ℕ) → bit_or a b ≡ bit_or (a / 2) (b / 2) * 2 + max (a % 2) (b % 2)
bit_or_step a b =
    let low = bit-bit_or a b 0 in
    let high : bit_or a b / 2 ≡ bit_or (a / 2) (b / 2) =
      bit_ext _ _ (λ i. bit-bit_or a b (suc i) ∙ sym (bit-bit_or (a / 2) (b / 2) i)) in
    omega arith

bit_or-zero : (a : ℕ) → bit_or a 0 ≡ a
bit_or-zero a = bit_ext _ _ λ i. omega (arith, bit-bit_or a 0 i, zero-bit i)

-- `n | (1 << p)` adds the digit at `p`, if it was not there.
pub ones-bit_or-pow : (k n p : ℕ) → p < k → ones k (bit_or n (2 ^ p)) + bit n p ≡ ones k n + 1
unfolding ones
ones-bit_or-pow zero n p h = absurd (omega arith)
ones-bit_or-pow (suc k) n zero h =
    let kept : bit_or n 1 / 2 ≡ n / 2 = omega (arith, bit_or_step n 1, bit_or-zero (n / 2)) in
    rw kept (omega (arith, bit_or_step n 1))
ones-bit_or-pow (suc k) n (suc p) h =
    let e : 2 ^ suc p / 2 ≡ 2 ^ p = omega (arith, mul-two-pow-suc 1 p) in
    let s = bit_or_step n (2 ^ suc p) in
    let moved : bit_or n (2 ^ suc p) / 2 ≡ bit_or (n / 2) (2 ^ p) = ground arith in
    rw moved (omega (arith, mul-two-pow-suc 1 p, ones-bit_or-pow k (n / 2) p (omega arith)))

pub bit_or-lt : (k a b : ℕ) → a < 2 ^ k → b < 2 ^ k → bit_or a b < 2 ^ k
bit_or-lt zero a b p q =
    let ea : a ≡ 0 = omega arith in let eb : b ≡ 0 = omega arith in rw (ea, eb) (omega arith)
bit_or-lt (suc k) a b p q =
    let e = mul-two-pow-suc 1 k in
    omega (arith, bit_or_step a b, bit_or-lt k (a / 2) (b / 2) (omega arith) (omega arith))

pub bit_high : (k n p : ℕ) → n < 2 ^ k → k ≤ p → bit n p ≡ 0
bit_high zero n p h le = let e : n ≡ 0 = omega arith in rw e (zero-bit p)
bit_high (suc k) n zero h le = absurd (omega arith)
bit_high (suc k) n (suc p) h le =
    bit_high k (n / 2) p (omega (arith, mul-two-pow-suc 1 k)) (omega arith)

pub bit_and_comm : (a b : ℕ) → bit_and a b ≡ bit_and b a
bit_and_comm a b = bit_ext _ _ λ p. omega (arith, bit-bit_and a b p, bit-bit_and b a p)

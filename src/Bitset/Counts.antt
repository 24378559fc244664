-- ===== src/Bitset/Counts.antt =====
-- `CountBit` against the digits of its argument, and against the other set operations.
use Prim.Native.Nat.{bit_and}
use adkg.Base.{
  ℕ, zero, suc, ◌+◌, ◌-◌, ◌*◌, ◌/◌, ◌%◌, ◌^◌, ◌≤◌, ◌<◌, ◌≡◌, true, false, List, [], ◌∷◌, ◌++◌,
  arith, if◌then◌else◌, length, length-append, sym, Bool-cases, inl, inr,
}
use adkg.Base.Bits.{
  bit, bit-le-one, ones, ones-le, bit_or-lt, ones_wide, ones-suc, ones-zero, ones-bit_and-pred,
  ones-bit_or-pow, bit_and-le,
}
use native.Mathlib.Nat.{add-zero, pow-suc, pow-le-pow_right}
use native.Mathlib.Numerals.{add-one}
use adkg.Bitset.{
  has_bit, set_bit, count_bit, count_loop, set_bits_loop, get_set_bits, one_shl, is_positive,
}
use adkg.Bitset.Laws.{has_bit_lem, pow-lt}

module _ (k : ℕ) (narrow : 2 ^ k ≤ 2 ^ 63) where
  count_loop_lem :
      (fuel n count : ℕ) → n < 2 ^ k → ones k n < fuel → count_loop fuel n count ≡ count + ones k n
  unfolding count_loop
  count_loop_lem zero n count h f = absurd (omega arith)
  count_loop_lem (suc fuel) zero count h f = omega (arith, ones-zero k)
  count_loop_lem (suc fuel) (suc n) count h f =
      let e = ones-bit_and-pred k (suc n) (omega arith) h in
      let positive : is_positive (suc n) ≡ true = ground arith in
      rw positive (
        omega (
          arith,
          count_loop_lem fuel (bit_and (suc n) (suc n - 1)) (count + 1)
              (omega (arith, bit_and-le (suc n) (suc n - 1))) (omega arith),
        ))

-- `CountBit` of a non-negative `int` counts its binary digits 1; its loop ends within 64 rounds.
pub count_bit-ones : (n : ℕ) → n < 2 ^ 63 → count_bit n ≡ ones 63 n
unfolding count_bit
count_bit-ones n h =
    omega (arith, count_loop_lem 63 (omega arith) 64 n 0 h (omega (arith, ones-le 63 n)))

one_shl-eq : (p : ℕ) → p < 63 → one_shl p ≡ 2 ^ p
one_shl-eq p h = omega (arith, pow-lt p 64 (omega arith))

-- A dealer below 63 leaves the set a non-negative `int`.
pub set_bit-lt : (n p : ℕ) → n < 2 ^ 63 → p < 63 → set_bit n p < 2 ^ 63
unfolding set_bit
set_bit-lt n p h lt = rw (one_shl-eq p lt) (bit_or-lt 63 n (2 ^ p) h (pow-lt p 63 lt))

ones-set_bit : (n p : ℕ) → p < 63 → ones 63 (set_bit n p) + bit n p ≡ ones 63 n + 1
unfolding set_bit
ones-set_bit n p h = rw (one_shl-eq p h) (ones-bit_or-pow 63 n p h)

-- Adding a dealer to a set raises `CountBit` by one, and by none if the dealer was there.
pub count_bit-set_bit :
    (n p : ℕ)
    → n < 2 ^ 63
    → p < 63
    → count_bit (set_bit n p) ≡ (if has_bit n p then count_bit n else count_bit n + 1)
count_bit-set_bit n p h lt =
    rw (count_bit-ones _ (set_bit-lt n p h lt), count_bit-ones n h, has_bit_lem n p lt)
      (ground (arith, ones-set_bit n p lt, bit-le-one n p))

length-set_bits_loop :
    (rounds i val : ℕ) (l : List ℕ) (w : ℕ)
    → i + rounds ≤ 63
    → ((j : ℕ) → bit val (i + j) ≡ bit w j)
    → length (set_bits_loop rounds i val l) ≡ length l + ones rounds w
unfolding set_bits_loop ones
length-set_bits_loop zero i val l w h e = omega arith
length-set_bits_loop (suc rounds) i val l w h e =
    let here : bit val i ≡ w % 2 = rw (sym (add-zero i)) (e 0) in
    let next = λ (l' : List ℕ).
      length-set_bits_loop rounds (i + 1) val l' (w / 2) (omega arith)
        (λ j. let c : i + 1 + j ≡ i + suc j = omega arith in rw c (e (suc j))) in
    elim (Bool-cases (has_bit val i)) [
      | inl found ↦
          rw (found, next (l ++ i ∷ []), length-append l (i ∷ []))
            (ground (arith, has_bit_lem val i (omega arith)))
      | inr missing ↦
          rw (missing, next l) (ground (arith, has_bit_lem val i (omega arith), bit-le-one val i))
    ]

-- For a set without position 0 that fits `n` dealers, `CountBit` is the number of dealers that
-- `GetSetBits` lists.
pub count_bit-get_set_bits :
    (n v : ℕ)
    → n ≤ 62
    → v < 2 ^ (n + 1)
    → has_bit v 0 ≡ false
    → count_bit v ≡ length (get_set_bits n v)
unfolding get_set_bits
count_bit-get_set_bits n v h lt e =
    let p : 2 ^ (n + 1) ≡ 2 ^ n * 2 = rw add-one (pow-suc 2 n) in
    let small : v / 2 < 2 ^ n = omega arith in
    let none_at_zero : v % 2 ≡ 0 = ground (arith, has_bit_lem v 0 (omega arith)) in
    omega (
      arith,
      count_bit-ones v (
          omega (arith, pow-le-pow_right {n = 2} (omega arith) {i = n + 1} {j = 63} (omega arith))),
      ones-suc 62 v,
      ones_wide n 62 (v / 2) small h,
      length-set_bits_loop n 1 v [] (v / 2) (omega arith)
          (λ j. let c : 1 + j ≡ suc j = omega arith in rw c),
    )

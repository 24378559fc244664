-- ===== src/Bitset/Codec.antt =====
-- The encoding of a set in 8 bytes, and the subset test of the keyset handlers on encoded sets.
use Prim.Native.Nat.{bit_and, min}
use native.Mathlib.Decide.{dec_lt}
use adkg.Base.{
  ℕ, ◌^◌, ◌<◌, ◌≡◌, refl, ◌↔◌, ◌∙◌, sym, true, none, some, List, [], ◌∷◌, arith, nat_beq,
  nat_beq_iff, ap, ◌≢◌, length, Bool-cases, inl, inr,
}
use adkg.Base.Bits.{bit, bit-le-one, bit_ext, bit-bit_and, bit_high}
use adkg.Bitset.{has_bit, int_to_byte_value, byte_to_int_value, predicate}
use adkg.Bitset.Laws.{has_bit_lem, has_bit_high}

-- `ByteToIntValue` reads back what `IntToByteValue` wrote, for every 64-bit pattern.
pub byte_to_int_value-int_to_byte_value :
    (v : ℕ) → v < 2 ^ 64 → byte_to_int_value (int_to_byte_value v) ≡ some v
unfolding byte_to_int_value int_to_byte_value
byte_to_int_value-int_to_byte_value v h = ap some (omega arith)

predicate_lem :
    (a b : ℕ)
    → a < 2 ^ 64
    → b < 2 ^ 64
    → predicate (int_to_byte_value a) (int_to_byte_value b) ≡ some (nat_beq (bit_and b a) b)
unfolding predicate
predicate_lem a b ha hb =
    rw (
      byte_to_int_value-int_to_byte_value b hb,
      byte_to_int_value-int_to_byte_value a ha,
      predicate,
    )

pub subset_of_bits :
    (a b : ℕ) → b < 2 ^ 63 → ((p : ℕ) → has_bit b p ≡ true → has_bit a p ≡ true) → bit_and b a ≡ b
subset_of_bits a b hb sub = bit_ext _ _ λ p. elim (dec_lt p 63) [
  | yes low ↦ elim (Bool-cases (has_bit b p)) [
    | inl found ↦ ground (
      arith,
      bit-bit_and b a p,
      sub p found,
      has_bit_lem a p low,
      has_bit_lem b p low,
      bit-le-one a p,
      bit-le-one b p,
    )
    | inr missing ↦ ground (arith, bit-bit_and b a p, has_bit_lem b p low, bit-le-one b p)
  ]
  | no high ↦ omega (arith, bit-bit_and b a p, bit_high 63 b p hb (omega arith))
]

pub bits_of_subset : (a b : ℕ) → bit_and b a ≡ b → (p : ℕ) → has_bit b p ≡ true → has_bit a p ≡ true
bits_of_subset a b e p found = elim (dec_lt p 63) [
  | yes low ↦
      let s : min (bit b p) (bit a p) ≡ bit b p = sym (bit-bit_and b a p) ∙ ap (λ n. bit n p) e in
      ground (arith, has_bit_lem a p low, has_bit_lem b p low, bit-le-one a p)
  | no high ↦ ground (arith, has_bit_high b p (omega arith))
]

-- `Predicate` on two encoded sets never panics, and answers true exactly when every position that
-- `HasBit` finds in the second it finds in the first.
pub predicate_subset :
    (a b : ℕ)
    → a < 2 ^ 63
    → b < 2 ^ 63
    → (predicate (int_to_byte_value a) (int_to_byte_value b) ≢ none)
      × ((predicate (int_to_byte_value a) (int_to_byte_value b) ≡ some true)
          ↔ ((p : ℕ) → has_bit b p ≡ true → has_bit a p ≡ true))
predicate_subset a b ha hb =
    let e = predicate_lem a b (omega arith) (omega arith) in
    (
      λ n. cc,
      (
        λ t. bits_of_subset a b ((nat_beq_iff _ b).0 (cc)),
        λ sub. rw (e, subset_of_bits a b hb sub) (ap some ((nat_beq_iff b b).1 refl)),
      ),
    )

-- A payload shorter than 8 bytes makes `Predicate` panic, whatever the receiver's own set is: the
-- keyset handlers pass it the data of a message as it came.
pub predicate_short : (t : List ℕ) (m : List ℕ) → length m < 8 → predicate t m ≡ none
unfolding predicate byte_to_int_value
predicate_short t [] h = refl
predicate_short t (a ∷ []) h = refl
predicate_short t (a ∷ b ∷ []) h = refl
predicate_short t (a ∷ b ∷ c ∷ []) h = refl
predicate_short t (a ∷ b ∷ c ∷ d ∷ []) h = refl
predicate_short t (a ∷ b ∷ c ∷ d ∷ e ∷ []) h = refl
predicate_short t (a ∷ b ∷ c ∷ d ∷ e ∷ f ∷ []) h = refl
predicate_short t (a ∷ b ∷ c ∷ d ∷ e ∷ f ∷ g ∷ []) h = refl
predicate_short t (a ∷ b ∷ c ∷ d ∷ e ∷ f ∷ g ∷ i ∷ m) h = absurd (omega arith)

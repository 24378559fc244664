-- ===== src/Bitset.antt =====
-- keygen/common/common.go and keygen/message_handlers/keyset/common.go: sets of dealers as the bits
-- of an `int`, and their encoding in 8 bytes. An `int` is its 64-bit pattern.
pub mod Examples
pub mod Laws
pub mod Counts
pub mod Codec
use Prim.Native.Nat.{bit_and, bit_or}
use adkg.Base.{
  ℕ, zero, suc, ◌+◌, ◌-◌, ◌*◌, ◌/◌, ◌%◌, ◌^◌, Bool, true, false, ◌&&◌, Option, none, some, List, [],
  ◌∷◌, ◌++◌, ltb, nat_beq, if◌then◌else◌,
}

-- `1 << pos`: the bit is shifted out from 64 on.
abbrev pub one_shl : ℕ → ℕ
one_shl pos = 2 ^ pos % 2 ^ 64

-- `val > 0` on a signed 64-bit pattern
abbrev pub is_positive : ℕ → Bool
is_positive val = ltb 0 val && ltb val (2 ^ 63)

unfoldable pub has_bit : ℕ → ℕ → Bool
has_bit n pos = is_positive (bit_and n (one_shl pos))

unfoldable pub set_bit : ℕ → ℕ → ℕ
set_bit n pos = bit_or n (one_shl pos)

-- `for n > 0 { n &= n - 1; count++ }`, on fuel
count_loop : ℕ → ℕ → ℕ → ℕ
count_loop zero n count = count
count_loop (suc fuel) n count =
    let rest = count_loop fuel (bit_and n (n - 1)) (count + 1) in
    if is_positive n then rest else count

unfoldable pub count_bit : ℕ → ℕ
unfolding count_loop
count_bit n = count_loop 64 n 0

-- `for i := 1; i <= n; i++`, with `rounds` rounds left
set_bits_loop : ℕ → ℕ → ℕ → List ℕ → List ℕ
set_bits_loop zero i val l = l
set_bits_loop (suc rounds) i val l =
    set_bits_loop rounds (i + 1) val (if has_bit val i then l ++ i ∷ [] else l)

unfoldable pub get_set_bits : ℕ → ℕ → List ℕ
unfolding set_bits_loop has_bit
get_set_bits n val = set_bits_loop n 1 val []

-- `binary.BigEndian.PutUint64` of `uint64(val)`
unfoldable pub int_to_byte_value : ℕ → List ℕ
int_to_byte_value val =
    val / 2 ^ 56 % 256
    ∷ val / 2 ^ 48 % 256
    ∷ val / 2 ^ 40 % 256
    ∷ val / 2 ^ 32 % 256
    ∷ val / 2 ^ 24 % 256
    ∷ val / 2 ^ 16 % 256
    ∷ val / 2 ^ 8 % 256
    ∷ val % 256
    ∷ []

-- `binary.BigEndian.Uint64` reads 8 bytes, and panics (`none`) on a shorter slice.
unfoldable pub byte_to_int_value : List ℕ → Option ℕ
byte_to_int_value (a ∷ b ∷ c ∷ d ∷ e ∷ f ∷ g ∷ h ∷ _) =
    some
      (a * 2 ^ 56 + b * 2 ^ 48 + c * 2 ^ 40 + d * 2 ^ 32 + e * 2 ^ 24 + f * 2 ^ 16 + g * 2 ^ 8 + h)
byte_to_int_value _ = none

-- `b & a == b` on the two sets; `none` is the panic on a short slice.
unfoldable pub predicate : List ℕ → List ℕ → Option Bool
unfolding byte_to_int_value
predicate t_i t_j = elim (byte_to_int_value t_j) [
  | none ↦ none
  | some b ↦ elim (byte_to_int_value t_i) [ none ↦ none | some a ↦ some (nat_beq (bit_and b a) b) ]
]

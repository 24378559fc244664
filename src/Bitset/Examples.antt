-- ===== src/Bitset/Examples.antt =====
-- Sets of dealers on concrete numbers.
use adkg.Base.{ℕ, ◌≡◌, ◌≢◌, ◌↔◌, refl, true, none, some, arith}
use adkg.Bitset.{has_bit, count_bit, int_to_byte_value, predicate}
use adkg.Bitset.Codec.{predicate_subset}

count_bit_test : count_bit 22 ≡ 3
unfolding count_bit
count_bit_test = refl

predicate_subset_example :
    (predicate (int_to_byte_value 22) (int_to_byte_value 6) ≢ none)
    × ((predicate (int_to_byte_value 22) (int_to_byte_value 6) ≡ some true)
        ↔ ((p : ℕ) → has_bit 6 p ≡ true → has_bit 22 p ≡ true))
predicate_subset_example = predicate_subset 22 6 (omega arith) (omega arith)

-- ===== src/Coin/Examples.antt =====
-- The share of a coin, over the field with two elements.
use adkg.Base.{
  ◌<◌, ◌⊎◌, ◌++◌, pos, ℕ, some, ◌≡◌, ◌≢◌, refl, Bool, true, false, none, Option, List, [], ◌∷◌,
  length, nat_beq, nat_beq_iff, nat_eq, int_eq, replicate, if◌then◌else◌, Bool-cases, inl, inr,
}
use adkg.Base.Maps.{lookup, insert, get_or}
use adkg.Messages.{Text, Effect, receive}
use adkg.Rounds.{secp256k1, new_adkg_id, create_round, adkg_id_from_round_id}
use adkg.Bitset.{get_set_bits, has_bit}
use adkg.Session.{default_adkg_session}
use adkg.Sharing.{combine_commitments}
use adkg.Aba.State.{AbaState, default_aba_store, set_coin_share}
use adkg.Aba.Decision.{
  keyset_kind, decide, note_one, start_others, start_key_derivation,
  new_key_derivation_init_message,
}
use adkg.KeyDerivation.Keys.{
  KeySession, default_key_session, sum_shares, derive_public_key, lagrange_coeffs,
}
use adkg.KeyDerivation.Acceptance.{IsDealt}
use adkg.Curve.{Curve, IsEncoded}
use adkg.Curve.Sample.{bits, bits-IsLawful, bit_of, read_bit}
use adkg.Coin.{Unpack, done, failed, unpack, coin_data, verify, hash}
use adkg.Coin.Acceptance.{coin_unreadable}
use adkg.Coin.Handlers.{
  Player, add_shares, leader_dealers, on_coin_init, coin_value, toss, on_coin, last_bit, is_undecided, first_of,
}
use adkg.Coin.Counted.{honest_coin_counted, coin_guarded}

-- The same field with points of 32 bytes, which are read from 32 bytes only
read_point : List ℕ → Option Bool
read_point t = if nat_beq (length t) 32 then read_bit t else none

abbrev short_bits : Curve
short_bits = record bits {
  point_bytes = λ p. bit_of p ∷ replicate 31 0;
  point_of_bytes = read_point;
}

read_short : (p : Bool) → read_point (bit_of p ∷ replicate 31 0) ≡ some p
unfolding read_point
read_short true = refl
read_short false = refl

short_encoded : IsEncoded short_bits 32
short_encoded = record {
  scalar_length = λ x. refl;
  point_length = λ p. refl;
  read_scalar = bits-IsLawful.encoded.read_scalar;
  read_point = read_short;
}

only_32 : (t : List ℕ) → length t ≢ 32 → read_point t ≡ none
unfolding read_point
only_32 t h = elim (Bool-cases (nat_beq (length t) 32)) [
  | inl e ↦ absurd (h ((nat_beq_iff (length t) 32).0 e))
  | inr e ↦ rw e
]

coin_unreadable_example :
    unpack short_bits (coin_data short_bits (λ t. t) true true true false) ≡ failed
coin_unreadable_example =
    coin_unreadable short_bits short_encoded (λ t. t) true true true false only_32

-- A node alone, whose own dealing is the constant polynomial true; the first byte is the one that is
-- tossed.
abbrev alone : Player bits
alone = record {
  n = 1;
  k = 1;
  f = 0;
  sha256 = λ t. replicate 31 0 ++ t;
  g = true;
  walk = λ m. m;
  capacity = λ n. n;
}

abbrev coin_id : Text
coin_id = new_adkg_id 5 secp256k1

abbrev coin_round : Text
coin_round = create_round coin_id 1 keyset_kind

abbrev coin_session : KeySession bits
coin_session = record (default_key_session bits) {
  session = record default_adkg_session { keysets = (pos 1, 2) ∷ []; aba_started = pos 1 ∷ [] };
  shares = (1, record { id = 1; value = bits.scalar_bytes true }) ∷ [];
  commitments = (1, true ∷ []) ∷ [];
}

dealt : IsDealt bits secp256k1 bits-IsLawful true 1 1 coin_session.shares coin_session.commitments 1
unfolding lookup get_or
dealt = record { first = true; others = []; count = refl; committed = refl; shared = refl }

leader_alone : leader_dealers bits alone (pos 1) coin_session.session ≡ 1 ∷ []
unfolding get_or get_set_bits has_bit
leader_alone = refl

honest_coin_counted_example :
    let z = sum_shares bits coin_session.shares false (1 ∷ []) in
    (u : Unpack bits) × (unpack bits (on_coin_init bits alone (pos 1) true false coin_session)
      ≡ done u)
    × (on_coin bits alone coin_round secp256k1
          (pos 1)
          true
          1
          u
          (default_aba_store Bool)
          coin_session
        ≡ toss bits alone coin_round secp256k1
            (pos 1)
            (set_coin_share 1 (bits.mul true z) (default_aba_store Bool))
            coin_session)
honest_coin_counted_example =
    honest_coin_counted bits bits-IsLawful alone coin_round (pos 1) 1 coin_session coin_session
      (default_aba_store Bool) true false 1 [] leader_alone leader_alone (dealt, tt)

abbrev own_coin : Unpack bits
own_coin = record { z = true; h = false; h_tilde = false; g_i_tilde = true }

abbrev tossed_store : AbaState Bool
tossed_store = record (default_aba_store Bool) { coin_shares = (1, true) ∷ [] }

abbrev tossed_session : KeySession bits
tossed_session = record coin_session {
  session = record coin_session.session {
    decisions = (pos 1, 1) ∷ [];
    aba_complete = true;
    key_derivation_started = true;
  };
}

abbrev tossed_effects : List Effect
tossed_effects = receive (new_key_derivation_init_message coin_round secp256k1) ∷ []

coin_tossed :
    on_coin bits alone coin_round secp256k1
      (pos 1)
      true
      1
      own_coin
      (default_aba_store Bool)
      coin_session
    ≡ some (tossed_store, tossed_session, tossed_effects)
unfolding on_coin toss coin_value last_bit is_undecided first_of get_or get_set_bits has_bit lookup
    insert derive_public_key combine_commitments verify hash set_coin_share lagrange_coeffs
    add_shares decide note_one start_others start_key_derivation adkg_id_from_round_id
    create_round new_adkg_id
coin_tossed = refl

coin_guarded_example :
    (tossed_session.session ≡ coin_session.session)
    ⊎ ((g_i : Bool) × (w : ℕ) × (w < 2)
        × (derive_public_key bits 1 1
              (leader_dealers bits alone (pos 1) coin_session.session)
              coin_session.commitments
            ≡ some g_i)
        × (verify bits alone.sha256 own_coin true true g_i ≡ true)
        × (length tossed_store.coin_shares ≡ 1)
        × (lookup (pos 1) coin_session.session.decisions ≡ none)
        × (tossed_session.session
            ≡ (decide 1 coin_round secp256k1 (pos 1) w coin_session.session).0))
coin_guarded_example =
    coin_guarded bits alone coin_round secp256k1 (pos 1) true 1 own_coin (default_aba_store Bool)
      tossed_store coin_session tossed_session tossed_effects coin_tossed

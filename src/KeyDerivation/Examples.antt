-- ===== src/KeyDerivation/Examples.antt =====
-- Two accepted keysets and a rejected one.
use adkg.Curve.Sample.{bits, bits-IsLawful}
use adkg.Bitset.{get_set_bits, has_bit}
use adkg.Coin.{done, read, slice, slice_from, hash}
use adkg.Sharing.{ShamirShare, combine_commitments}
use adkg.Messages.{Text}
use adkg.Rounds.{secp256k1, new_adkg_id, create_round, adkg_id_from_round_id, get_index, get_curve}
use adkg.KeyDerivation.Keys.{
  derive_public_key, sum_shares, default_key_session, lagrange_coeffs, combine_points,
}
use adkg.KeyDerivation.Proof.{prove_share, verify_proof}
use adkg.KeyDerivation.Acceptance.{IsDealt, honest_share_accepted}
use adkg.KeyDerivation.Share.{KeyEffect, Participant, on_pub_key_share, on_bft_decided}
use adkg.KeyDerivation.Finish.{
  KeyEvent, pub_key_share, decided, refilled, on_key_event, run_key_events, EndsOnce,
  share_stored_once,
}
use adkg.Base.{
  Bool, some, none, codes, ℕ, ℤ, pos, ◌≡◌, refl, true, false, ◌&&◌, List, [], ◌∷◌, Map, leb,
  contains,
}
use adkg.Base.Maps.{lookup, get_or, insert, delete}
use adkg.Base.Distinct.{Distinct}
use adkg.Session.{Session, default_adkg_session}
use adkg.KeyDerivation.{union, agreed_keysets, mark, add_lists, add_items}
use adkg.KeyDerivation.Union.{is_agreed, union-agreed_keysets}

abbrev decisions : Map ℤ ℕ
decisions = (pos 1, 1) ∷ (pos 2, 0) ∷ (pos 3, 1) ∷ []

abbrev session : Session
session = record default_adkg_session {
  keysets = (pos 1, 6) ∷ (pos 2, 24) ∷ (pos 3, 12) ∷ [];
  decisions = decisions;
}

union_test : union ((1 ∷ 2 ∷ []) ∷ (2 ∷ 3 ∷ []) ∷ []) ≡ 1 ∷ 2 ∷ 3 ∷ []
unfolding union mark add_lists add_items adkg.Base.Maps.lookup adkg.Base.Maps.insert
union_test = refl

union-agreed_keysets_example :
    let dealers = union (agreed_keysets 4 decisions session) in
    Distinct dealers × (contains dealers 3 ≡ (leb 1 3 && leb 3 4 && is_agreed decisions session 3))
union-agreed_keysets_example = union-agreed_keysets 4 decisions session 3

-- One node that is its own dealer, with the constant polynomial of value true
abbrev dealt_shares : Map ℕ ShamirShare
dealt_shares = (1, record { id = 1; value = bits.scalar_bytes true }) ∷ []

abbrev dealt_commitments : Map ℕ (List Bool)
dealt_commitments = (1, true ∷ []) ∷ []

own_dealing : IsDealt bits secp256k1 bits-IsLawful true 1 1 dealt_shares dealt_commitments 1
unfolding lookup get_or
own_dealing = record { first = true; others = []; count = refl; committed = refl; shared = refl }

honest_share_accepted_example :
    let z = sum_shares bits dealt_shares false (1 ∷ []) in
    (derive_public_key bits 1 1 (1 ∷ []) dealt_commitments ≡ some (bits.mul true z))
    × (verify_proof bits
          (λ t. t)
          true
          true
          secp256k1
          (bits.mul true z)
          (prove_share bits (λ t. t) true true z true)
        ≡ done (bits.mul true z))
honest_share_accepted_example =
    honest_share_accepted bits secp256k1 bits-IsLawful (λ t. t) true true 1 1 1 [] dealt_shares
      dealt_commitments true (own_dealing, tt)

abbrev alone : Participant bits
alone = record { sha256 = λ t. t; g = true; h = true; n = 1; k = 1 }

abbrev agreed_session : Session
agreed_session = record default_adkg_session {
  keysets = (pos 1, 2) ∷ [];
  decisions = (pos 1, 1) ∷ [];
  aba_complete = true;
}

abbrev key_id : Text
key_id = new_adkg_id 5 secp256k1

abbrev key_round : Text
key_round = create_round key_id 1 (codes "keyset")

abbrev events : List (KeyEvent bits)
events =
    refilled agreed_session dealt_shares dealt_commitments
    ∷ pub_key_share 1 (prove_share bits (λ t. t) true true true true)
    ∷ decided
    ∷ []

abbrev key_effects : List (KeyEffect bits)
key_effects =
    KeyEffect.receive_bft_message key_round true
    ∷ KeyEffect.store_completed_share (pos 5) true secp256k1
    ∷ KeyEffect.store_commitment (pos 5) dealt_commitments (1 ∷ []) secp256k1
    ∷ KeyEffect.cleanup key_id
    ∷ []

-- The share comes first, and then the decision.
key_made :
    run_key_events bits alone key_round secp256k1 key_id events (some (default_key_session bits))
    ≡ some (none, key_effects)
unfolding run_key_events on_key_event on_pub_key_share on_bft_decided union agreed_keysets
    get_set_bits get_or derive_public_key lookup insert delete verify_proof read prove_share slice
    slice_from hash combine_commitments lagrange_coeffs combine_points sum_shares
    adkg_id_from_round_id get_index get_curve new_adkg_id create_round has_bit
key_made = refl

share_stored_once_example : EndsOnce bits alone key_round secp256k1 key_id none key_effects
share_stored_once_example =
    share_stored_once bits alone key_round secp256k1 key_id events none key_effects key_made

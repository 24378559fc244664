-- ===== src/Dealing/Examples.antt =====
-- Sharings over the field with two elements, with an encryption that only copies.
use mathlib.Core.Option.{some-injective}
use mathlib.Core.Path.{subst}
use adkg.Base.{
  ◌++◌, nat_eq, All, arith, ℕ, ◌≡◌, refl, pos, Bool, true, false, some, List, [], ◌∷◌, Map,
  replicate, codes, length,
}
use adkg.Base.Maps.{get_or, insert}
use adkg.Messages.{Text}
use adkg.Curve.Sample.{bits, bits-IsLawful}
use adkg.Rounds.{secp256k1, new_adkg_id, create_round, leader}
use adkg.Runtime.Sample.{copying}
use adkg.Bitset.{has_bit, set_bit, count_bit}
use adkg.Session.{default_adkg_session}
use adkg.Coin.{done, read, slice, slice_from}
use adkg.KeyDerivation.Keys.{KeySession, default_key_session}
use adkg.Sharing.{ShamirShare, shares_from, verify_share, validate, combine_commitments}
use adkg.Dealing.{
  Sealed, Ecies, encrypt, share_bytes, compress_commitments, decompress_commitments,
  generate_commitment_and_shares, acss_predicate, encrypt_shares, encode_encrypted, decrypt,
  decode_encrypted, part, read_share, new_feldman, acss_split,
}
use adkg.Dealing.Codec.{IsSealing}
use adkg.Dealing.Acceptance.{share_of, honest_dealing_accepted}
use adkg.Dealing.Handlers.{
  Dealer, own_share, check_proposals, send_keyset, propose_keyset, store_sharing, on_acss_output,
}
use adkg.Dealing.Outputs.{
  SharingEvent, acss_output, rewritten, IsSmall, IsShared, run_outputs, outputs_held,
}

abbrev copy : Ecies
copy = record {
  seal = λ public seed t.
      some
        (record { iv = replicate 16 0; ephem = replicate 33 0; mac = replicate 32 0; cipher = t });
  unseal = λ private s. some s.cipher;
  compress = λ t. some t;
  expand = λ t. some t;
}

copy-IsSealing : (private public : Text) → IsSealing copy private public
copy-IsSealing private public = record {
  sized = λ seed t s e.
      subst (λ (s : Sealed). (length s.iv ≡ 16) × (length s.mac ≡ 32)) (some-injective _ _ e)
        (refl, refl);
  compressed = λ seed t s e.
      subst
        (λ (s : Sealed).
          (cpk : Text) × (copy.compress s.ephem ≡ some cpk)
          × (length cpk ≡ 33)
          × (copy.expand cpk ≡ some s.ephem))
        (some-injective _ _ e) (replicate 33 0, refl, refl, refl);
  opened = λ seed t s e. subst (λ (s : Sealed). some s.cipher ≡ some t) (some-injective _ _ e) refl;
}

abbrev nothing : ℕ → Text
nothing i = []

-- A share behind the parts that the encryption of this file leaves empty
abbrev envelope : (i : ℕ) → (value : Bool) → Text
envelope i value =
    replicate 81 0 ++ share_bytes (record { id = i; value = bits.scalar_bytes value })

-- The polynomial 1 + x: the shares of the nodes 1 and 3 are zero, that of node 2 is not.
abbrev dealt_map : Map ℕ Text
dealt_map = (1, envelope 1 false) ∷ (2, envelope 2 true) ∷ (3, envelope 3 false) ∷ []

abbrev dealt_commitments : List Bool
dealt_commitments = true ∷ true ∷ []

abbrev dealt_shares : List ShamirShare
dealt_shares = shares_from bits (true ∷ true ∷ []) 3 1

shares_made :
    generate_commitment_and_shares bits true true (true ∷ []) 2 3
    ≡ some (dealt_commitments, dealt_shares)
unfolding generate_commitment_and_shares new_feldman acss_split
shares_made = refl

shares_sealed : encrypt_shares copy nothing nothing dealt_shares [] ≡ some dealt_map
unfolding encrypt_shares encrypt encode_encrypted shares_from share_bytes insert
shares_sealed = refl

honest_dealing_accepted_example :
    acss_predicate bits copy true 33 2 []
      (get_or dealt_map 2 [])
      (compress_commitments bits dealt_commitments)
    ≡ done (share_of bits copy nothing nothing (true ∷ true ∷ []) 2, dealt_commitments)
honest_dealing_accepted_example =
    honest_dealing_accepted bits 33 bits-IsLawful copy true 2 3 true (true ∷ []) nothing nothing
      nothing dealt_commitments dealt_shares dealt_map 2 refl (λ j. copy-IsSealing [] [])
      shares_made shares_sealed (omega arith) (omega arith)

-- A sharing of the constant polynomial 1, as node 1 finds it in an output
abbrev constant_map : Map ℕ Text
constant_map = (1, envelope 1 true) ∷ []

abbrev node_one : Dealer bits
node_one = record {
  ecies = copy;
  g = true;
  public_key = nothing;
  private_key = [];
  serialize = λ m. m.commitments;
  deserialize = λ t. some (record { commitments = t; share_map = constant_map });
}

abbrev key_id : Text
key_id = new_adkg_id 5 secp256k1

abbrev sharing_round : Text
sharing_round = create_round key_id 1 (codes "acss")

abbrev outputs : List SharingEvent
outputs =
    acss_output sharing_round (compress_commitments bits (true ∷ false ∷ []))
    ∷ rewritten default_adkg_session
    ∷ []

abbrev holding : KeySession bits
holding = record (default_key_session bits) {
  session = record default_adkg_session { own_keyset = 2 };
  shares = (1, record { id = 1; value = bits.scalar_bytes true }) ∷ [];
  commitments = (1, true ∷ false ∷ []) ∷ [];
}

leader_one : leader sharing_round ≡ some (pos 1)
unfolding leader create_round new_adkg_id
leader_one = refl

small : All IsSmall outputs
small = (λ dealer e. ground (arith, leader_one), (tt, tt))

outputs_run :
    run_outputs bits node_one copying key_id secp256k1 outputs (default_key_session bits)
    ≡ some holding
unfolding run_outputs on_acss_output store_sharing own_share acss_predicate decrypt decode_encrypted
    part slice slice_from read_share decompress_commitments read verify_share validate
    combine_commitments check_proposals propose_keyset leader create_round new_adkg_id has_bit
    set_bit count_bit get_or insert compress_commitments share_bytes send_keyset
outputs_run = refl

outputs_held_example : IsShared bits node_one copying holding.shares holding.commitments 1
unfolding has_bit
outputs_held_example =
    outputs_held bits node_one copying key_id secp256k1 outputs holding small outputs_run 1 refl

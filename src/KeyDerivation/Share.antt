-- ===== src/KeyDerivation/Share.antt =====
-- keygen/message_handlers/keyderivation/share_handler.go and `BFTDecided` of keygen/keygen_node.go: the
-- shares of the public key, and the end of a key generation at a node, which waits for its own share of
-- the key and for the decision of the replicated application.
use adkg.Base.{
  ℕ, ℤ, true, ◌&&◌, not, Option, none, some, List, [], ◌∷◌, map, Map, int_eq, nat_eq, nat_beq, leb,
  length, if◌then◌else◌,
}
use adkg.Base.Maps
use adkg.Messages.{Text}
use adkg.Rounds.{adkg_id_from_round_id, get_index, get_curve}
use adkg.Curve.{Curve}
use adkg.Coin.{Outcome, done, failed, panics}
use adkg.KeyDerivation.{union, agreed_keysets}
use adkg.KeyDerivation.Keys.{
  PubKeyShare, KeySession, derive_public_key, sum_shares, lagrange_coeffs, combine_points,
}
use adkg.KeyDerivation.Proof.{verify_proof}

-- What goes out: the share of the key and the commitments to the database, the end of the session, and
-- the public key to the replicated application
pub data KeyEffect (c : Curve) : Type 0 where
  store_completed_share : (index : ℤ) → (share : c.Scalar) → (curve : Text) → KeyEffect c
  store_commitment :
      (index : ℤ)
      → (commitments : Map ℕ (List c.Point)) → (dealers : List ℕ) → (curve : Text) → KeyEffect c
  cleanup : Text → KeyEffect c
  receive_bft_message : (round : Text) → (public_key : c.Point) → KeyEffect c

-- What the handlers are given besides the session. A range over a map meets its entries in their order
-- here, and in any order in Go.
pub record Participant (c : Curve) : Type 0 where
  pub sha256 : Text → Text
  pub g : c.Point
  pub h : c.Point
  pub n : ℕ
  pub k : ℕ

module _ (c : Curve) (p : Participant c) (round name : Text) where
  unfoldable pub check_share :
      List ℕ → Map ℕ (List c.Point) → (node : ℕ) → PubKeyShare → Outcome c.Point
  check_share t commitments node m = elim (derive_public_key c node p.k t commitments) [
    | none ↦ panics
    | some g_zj ↦ verify_proof c p.sha256 p.g p.h name g_zj m
  ]

  -- `ProcessUnverifiedShares`, over the shares that are left; `none` is a panic.
  unfoldable pub process_unverified :
      List ℕ → (left : Map ℕ PubKeyShare) → KeySession c → Option (KeySession c)
  unfolding check_share
  process_unverified t [] ss = some ss
  process_unverified t ((node, m) ∷ left) ss = elim (check_share t ss.commitments node m) [
    | panics ↦ none
    | failed ↦ process_unverified t left ss
    | done h_zj ↦ process_unverified t left (record ss {
      pub_key_shares_unverified = Maps.delete node ss.pub_key_shares_unverified;
      pub_key_shares = Maps.insert node h_zj ss.pub_key_shares;
    })
  ]

  -- The end of the handler, with the public key
  unfoldable pub finish :
      List ℕ → (h_z : c.Point) → KeySession c → KeySession c × List (KeyEffect c)
  finish t h_z ss = elim (adkg_id_from_round_id round) [
    | none ↦ (ss, [])
    | some id ↦ elim (get_index id) [
      | none ↦ (ss, [])
      | some index ↦
          let z = sum_shares c ss.shares c.zero_scalar t in
          let out = KeyEffect.receive_bft_message round h_z ∷ [] in
          if ss.bft_decided
          then elim (get_curve id) [
            | none ↦ (ss, [])
            | some curve ↦ (
              ss,
              KeyEffect.store_completed_share index z curve
                  ∷ KeyEffect.store_commitment index ss.commitments t curve
                  ∷ KeyEffect.cleanup id
                  ∷ out,
            )
          ]
          else (record ss { share = some z; dealers = t; over = true }, out)
    ]
  ]

  -- The part of the handler behind the verified shares
  unfoldable pub combine_shares : List ℕ → KeySession c → KeySession c × List (KeyEffect c)
  unfolding finish
  combine_shares t ss =
      if leb p.k (length ss.pub_key_shares) && not ss.over
      then (let ids : List ℕ = map (λ e. e.0) ss.pub_key_shares in
          elim (lagrange_coeffs c ids ids) [
            | none ↦ (ss, [])
            | some coeff ↦ finish t (combine_points c ss.pub_key_shares c.identity coeff) ss
          ])
      else (ss, [])

  -- `ShareMessage.Process` behind its lock
  unfoldable pub on_pub_key_share :
      (sender : ℕ) → PubKeyShare → KeySession c → Option (KeySession c × List (KeyEffect c))
  unfolding process_unverified combine_shares
  on_pub_key_share sender m ss =
      if not (nat_beq p.n (length ss.session.decisions) && ss.session.aba_complete)
      then some (
        record ss { pub_key_shares_unverified = Maps.insert sender m ss.pub_key_shares_unverified },
        [],
      )
      else elim (union (agreed_keysets p.n ss.session.decisions ss.session)) [
        | [] ↦ some (ss, [])
        | j ∷ t ↦ elim (check_share (j ∷ t) ss.commitments sender m) [
          | panics ↦ none
          | failed ↦ some (ss, [])
          | done h_zj ↦
              let ss1 = record ss { pub_key_shares = Maps.insert sender h_zj ss.pub_key_shares } in
              elim (process_unverified (j ∷ t) ss1.pub_key_shares_unverified ss1) [
                | none ↦ none
                | some ss2 ↦ some (combine_shares (j ∷ t) ss2)
              ]
        ]
      ]

-- `BFTDecided` behind its lock; a share that is not there is nil, and panics.
module _ (c : Curve) where
  unfoldable pub on_bft_decided :
      (id : Text) → KeySession c → Option (KeySession c × List (KeyEffect c))
  on_bft_decided id ss =
      if ss.over
      then elim (get_index id) [
        | none ↦ some (ss, [])
        | some index ↦ elim (get_curve id) [
          | none ↦ some (ss, [])
          | some curve ↦ elim ss.share [
            | none ↦ none
            | some z ↦ some (
              ss,
              KeyEffect.store_completed_share index z curve
                  ∷ KeyEffect.store_commitment index ss.commitments ss.dealers curve
                  ∷ KeyEffect.cleanup id
                  ∷ [],
            )
          ]
        ]
      ]
      else some (record ss { bft_decided = true }, [])

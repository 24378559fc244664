-- ===== src/Dealing/Handlers.antt =====
-- keygen/message_handlers/acss: the start of a sharing at its dealer (share_handler.go), its proposal at
-- each node (propose_handler.go), and the output of its broadcast (output_handler.go).
use adkg.Base.{
  ℕ, ◌+◌, ℤ, pos, negsuc, true, false, Option, none, some, List, [], ◌∷◌, ◌++◌, Map, nat_eq, int_eq,
  int_beq, nat_beq, if◌then◌else◌,
}
use adkg.Base.Maps
use adkg.Messages.{Text, Message, Effect, broadcast, receive}
use adkg.Runtime.{Runtime}
use adkg.Stores.{StoreMap, with_store, try_store}
use adkg.Rounds.{leader, create_round, adkg_id_from_round_id}
use adkg.Bitset.{has_bit, set_bit, count_bit, int_to_byte_value, predicate}
use adkg.Session.{Session}
use adkg.Rbc.{SharingStore, default_keygen}
use adkg.Acss.{encode, new_acss_echo_message}
use adkg.Keyset.{send_shares, on_keyset_verified}
use adkg.Aba.Decision.{keyset_kind}
use adkg.Curve.{Curve}
use adkg.Sharing.{ShamirShare}
use adkg.Coin.{Outcome, done, failed, panics}
use adkg.KeyDerivation.Keys.{KeySession, default_key_session}
use adkg.KeyDerivation.Proof.{point_size}
use adkg.Dealing.{
  Ecies, MessageData, compress_commitments, generate_commitment_and_shares, encrypt_shares,
  acss_predicate,
}

-- What the handlers take from outside: the encryption and the keys of the node and of the others, the
-- base point, and the encoding of `MessageData` as JSON
pub record Dealer (c : Curve) : Type 0 where
  pub ecies : Ecies
  pub g : c.Point
  pub public_key : ℕ → Text
  pub private_key : Text
  pub serialize : MessageData → Text
  pub deserialize : Text → Option MessageData

-- `NewAcssProposeMessage`
abbrev pub new_acss_propose_message : Text → Text → Text → Message
new_acss_propose_message id d curve = Message.acss_propose id curve d

-- `NewInitMessage` of keyset
abbrev pub new_keyset_init_message : Text → Text → Text → Message
new_keyset_init_message id d curve = Message.keyset_init id curve d

module _ (c : Curve) (d : Dealer c) (rt : Runtime) where
  -- `ShareMessage.Process` behind its lock, with what is drawn at random: the secret, the other
  -- coefficients and the randomness of each encryption
  unfoldable pub on_share :
      (round curve : Text)
      → (secret : c.Scalar) → (random : List c.Scalar) → (seed : ℕ → Text) → SharingStore
      → SharingStore × List Effect
  on_share round curve secret random seed s =
      let s1 = record s { started = true } in
      if s.started
      then (s, [])
      else elim (generate_commitment_and_shares c d.g secret random rt.k rt.n) [
        | none ↦ (s1, [])
        | some (commitments, shares) ↦ elim (encrypt_shares d.ecies d.public_key seed shares []) [
          | none ↦ (s1, [])
          | some m ↦
              let dealing : MessageData = record {
                commitments = compress_commitments c commitments;
                share_map = m;
              } in
              (s1, broadcast (new_acss_propose_message round (d.serialize dealing) curve) ∷ [])
        ]
      ]

  -- `ShareMessage.Process`
  unfoldable pub process_share :
      (sender : ℕ)
      → (round curve : Text) → (secret : c.Scalar) → (random : List c.Scalar) → (seed : ℕ → Text)
      → StoreMap SharingStore
      → StoreMap SharingStore × List Effect
  unfolding on_share
  process_share sender round curve secret random seed m =
      if nat_beq sender rt.self
      then with_store m round (default_keygen round) (on_share round curve secret random seed)
      else (m, [])

  -- `Predicate` on the share of this node
  unfoldable pub own_share : (curve : Text) → MessageData → Outcome (ShamirShare × List c.Point)
  own_share curve dealing =
      acss_predicate c d.ecies d.g (point_size curve) rt.k d.private_key
        (Maps.get_or dealing.share_map rt.self []) dealing.commitments

  -- `ProposeMessage.Process`; `none` is a panic.
  unfoldable pub process_acss_propose :
      (sender : ℕ) → (round curve body : Text) → Option (List Effect)
  unfolding own_share
  process_acss_propose sender round curve body = elim (leader round) [
    | none ↦ some []
    | some l ↦
        if int_beq l (pos sender)
        then elim (d.deserialize body) [
          | none ↦ some []
          | some dealing ↦ elim (own_share curve dealing) [
            | panics ↦ none
            | failed ↦ some []
            | done _ ↦ elim (encode rt body) [
              | none ↦ some []
              | some shares ↦
                  send_shares rt.nodes shares
                    (λ s. new_acss_echo_message round s (rt.sha256 body) curve)
            ]
          ]
        ]
        else some []
  ]

-- The key of a proposal, which is the index of its sender
abbrev pub index_of_key : ℤ → ℕ
index_of_key (pos i) = i
index_of_key (negsuc i) = 0

module _ (rt : Runtime) (id curve : Text) where
  -- The loop over `TProposals`: those that hold only dealers of `TPrime` by now are echoed.
  unfoldable pub check_proposals : (walked : Map ℤ ℕ) → Session → Option (Session × List Effect)
  check_proposals [] ss = some (ss, [])
  check_proposals ((key, v) ∷ walked) ss =
      elim (predicate (int_to_byte_value ss.own_keyset) (int_to_byte_value v)) [
        | none ↦ none
        | some false ↦ check_proposals walked ss
        | some true ↦
            elim (on_keyset_verified rt (create_round id (index_of_key key) keyset_kind) curve
              (int_to_byte_value v) key ss) [
                | none ↦ none
                | some (ss1, out) ↦
                    elim (check_proposals walked
                      (record ss1 { proposals = Maps.delete key ss1.proposals })) [
                        | none ↦ none
                        | some (ss2, more) ↦ some (ss2, out ++ more)
                      ]
              ]
      ]

  -- With f + 1 dealers the node proposes them.
  unfoldable pub send_keyset : Session → Session × List Effect
  send_keyset ss =
      if nat_beq (count_bit ss.own_keyset) (rt.f + 1)
      then (
        record ss { keysets = Maps.insert (pos rt.self) ss.own_keyset ss.keysets },
        receive (
              new_keyset_init_message (create_round id rt.self keyset_kind)
                (int_to_byte_value ss.own_keyset) curve)
            ∷ [],
      )
      else (ss, [])

module _ (c : Curve) (d : Dealer c) (rt : Runtime) where
  -- The end of `OutputMessage.Process`
  unfoldable pub propose_keyset :
      (id curve : Text) → KeySession c → List Effect → KeySession c × List Effect
  unfolding send_keyset
  propose_keyset id curve ss out =
      let (s1, more) = send_keyset rt id curve ss.session in
      (record ss { session = s1 }, out ++ more)

  -- The sharing of a dealer, taken apart and checked; `none` is a panic.
  unfoldable pub store_sharing :
      (dealer : ℕ)
      → (id curve : Text) → MessageData
      → KeySession c
      → Option (KeySession c × List Effect)
  unfolding own_share check_proposals propose_keyset
  store_sharing dealer id curve dealing ss = elim (own_share c d rt curve dealing) [
    | panics ↦ none
    | failed ↦ some (propose_keyset id curve ss [])
    | done (s, l) ↦
        let ss1 = record ss {
          shares = Maps.insert dealer s ss.shares;
          commitments = Maps.insert dealer l ss.commitments;
          session = record ss.session { own_keyset = set_bit ss.session.own_keyset dealer };
        } in
        elim (check_proposals rt id curve ss1.session.proposals ss1.session) [
          | none ↦ none
          | some (s2, out) ↦ some (propose_keyset id curve (record ss1 { session = s2 }) out)
        ]
  ]

  -- `OutputMessage.Process` behind its lock; a shift by a negative dealer panics.
  unfoldable pub on_acss_output :
      (id round curve m : Text) → KeySession c → Option (KeySession c × List Effect)
  unfolding store_sharing
  on_acss_output id round curve m ss = elim (leader round) [
    | none ↦ some (ss, [])
    | some (negsuc _) ↦ none
    | some (pos dealer) ↦
        if has_bit ss.session.own_keyset dealer then some (ss, []) else elim (d.deserialize m) [
          | none ↦ some (ss, [])
          | some dealing ↦ store_sharing dealer id curve dealing ss
        ]
  ]

  -- `OutputMessage.Process`
  unfoldable pub process_acss_output :
      (sender : ℕ)
      → (round curve m : Text) → StoreMap (KeySession c)
      → Option (StoreMap (KeySession c) × List Effect)
  unfolding on_acss_output
  process_acss_output sender round curve m sessions =
      if nat_beq sender rt.self
      then elim (adkg_id_from_round_id round) [
        | none ↦ some (sessions, [])
        | some id ↦ try_store sessions id (default_key_session c) (on_acss_output id round curve m)
      ]
      else some (sessions, [])

-- ===== src/Consensus/Votes.antt =====
-- tendermint/abci_handlers.go and tendermint/abci.go: the votes of the nodes for a public key, the check
-- of a transaction before it enters a block, and its delivery.
use adkg.Base.{
  ℕ, ℤ, Option, none, some, List, [], ◌∷◌, ◌++◌, text_eq, nat_beq, ltb, length, contains,
  if◌then◌else◌, ◌==◌, ◌≡◌, ◌⊎◌, inl, inr, Option-cases, arith,
}
use adkg.Base.Maps.{lookup, insert, delete}
use adkg.Rounds.{Text, secp256k1, ed25519, adkg_id_from_round_id, get_index, get_curve}
use adkg.Consensus.{
  Counters, State, Abci, PubKeygenMessage, Tx, Services, Call, Reason, Verdict, pub_keygen_type,
  key_available, to_uint,
}
use adkg.Consensus.Keyspace.{decision_key}
use adkg.Consensus.Assignment.{on_assignment}

abbrev pub Step : Type 0
Step = Abci × Verdict × List Call

abbrev pub refuse : Abci → Reason → Step
refuse a why = (a, Verdict.refused why, [])

unfoldable pub raise_created : ℕ → Counters → Counters
raise_created index c =
    if ltb c.last_created_index index then record c { last_created_index = index } else c

unfoldable pub raise_counters : (curve : Text) → ℕ → State → State
unfolding raise_created
raise_counters curve index s =
    if curve == secp256k1
    then record s { secp_state = raise_created index s.secp_state }
    else if curve == ed25519
    then record s { c25519_state = raise_created index s.c25519_state }
    else s

-- An error of `GetCurve` is ignored, and the name beside it is empty.
abbrev pub curve_or_empty : Option Text → Text
curve_or_empty none = []
curve_or_empty (some c) = c

-- The public key has its votes: it is stored and added to the pool, and the votes are dropped.
unfoldable pub complete_key :
    Services → (id : Text) → (index : ℤ) → (key : Text) → PubKeygenMessage → Abci → Step
unfolding raise_counters to_uint
complete_key sv id index key m a =
    let curve = curve_or_empty (get_curve id) in
    let stored = Call.store_public_key_to_index m.public_key index curve in
    if sv.stores_public_key
    then (let s = record a.state {
      keygen_pub_keys =
          insert id (record { id = id; point = m.public_key }) a.state.keygen_pub_keys;
      keygen_decisions = delete key a.state.keygen_decisions;
    } in
        (
          record a { state = raise_counters curve (to_uint index) s },
          Verdict.untagged,
          stored ∷ Call.cleanup id ∷ [],
        ))
    else (a, Verdict.refused Reason.pub_key_not_stored, stored ∷ [])

-- The votes with the new one are kept, and counted.
unfoldable pub count_votes :
    Services
    → (threshold : ℕ) → (id : Text) → (index : ℤ) → (key : Text) → (nodes : List ℕ)
    → PubKeygenMessage
    → Abci
    → Step
unfolding complete_key
count_votes sv threshold id index key nodes m a =
    let a1 = record a {
      state = record a.state { keygen_decisions = insert key nodes a.state.keygen_decisions };
    } in
    if nat_beq (length nodes) threshold
    then complete_key sv id index key m a1
    else (a1, Verdict.untagged, [])

unfoldable pub add_vote :
    Services → (threshold sender : ℕ) → (id : Text) → (index : ℤ) → PubKeygenMessage → Abci → Step
unfolding count_votes
add_vote sv threshold sender id index m a =
    let key = decision_key sv.keccak_hex id m.public_key.x in
    elim (lookup key a.state.keygen_decisions) [
      | none ↦ count_votes sv threshold id index key (sender ∷ []) m a
      | some nodes ↦
          if contains nodes sender
          then refuse a Reason.already_added
          else count_votes sv threshold id index key (nodes ++ sender ∷ []) m a
    ]

-- The case of a message of the key generation in `ValidateAndUpdateAndTagBFTTx`
unfoldable pub on_pub_keygen : Services → (threshold sender : ℕ) → PubKeygenMessage → Abci → Step
unfolding add_vote
on_pub_keygen sv threshold sender m a = elim (adkg_id_from_round_id m.round_id) [
  | none ↦ refuse a Reason.bad_round
  | some id ↦ elim (get_index id) [
    | none ↦ refuse a Reason.bad_index
    | some index ↦ elim (lookup id a.state.keygen_pub_keys) [
      | some _ ↦ refuse a Reason.already_processed
      | none ↦ add_vote sv threshold sender id index m a
    ]
  ]
]

unfoldable pub update_by_type : Services → (threshold sender : ℕ) → Tx → Abci → Step
update_by_type sv threshold sender (Tx.assignment (some tx)) a =
    let (a1, v) = on_assignment sv tx a in (a1, v, [])
update_by_type sv threshold sender (Tx.dkg_message method body) a =
    if method == pub_keygen_type
    then elim body [
      | none ↦ refuse a Reason.undecodable
      | some m ↦ on_pub_keygen sv threshold sender m a
    ]
    else refuse a Reason.unimplemented
update_by_type sv threshold sender Tx.other_type a = refuse a Reason.invalid_type
update_by_type sv threshold sender (Tx.assignment none) a = refuse a Reason.undecodable
update_by_type sv threshold sender Tx.undecoded_message a = refuse a Reason.undecodable

-- `ValidateAndUpdateAndTagBFTTx`
unfoldable pub update_tx : Services → (sender : ℕ) → Tx → Abci → Step
unfolding update_by_type
update_tx sv sender tx a = elim sv.threshold [
  | none ↦ refuse a Reason.no_epoch
  | some k ↦ update_by_type sv k sender tx a
]

-- The epoch is looked up first.
pub update_tx-cases :
    (sv : Services) (sender : ℕ) (tx : Tx) (a : Abci)
    → (update_tx sv sender tx a ≡ refuse a Reason.no_epoch)
      ⊎ ((k : ℕ) × (sv.threshold ≡ some k)
          × (update_tx sv sender tx a ≡ update_by_type sv k sender tx a))
unfolding update_tx
update_tx-cases sv sender tx a = elim (Option-cases sv.threshold) [
  | inl e ↦ inl (ground arith)
  | inr (k, e) ↦ inr (k, e, ground arith)
]

pub data Code : Type 0 where
  code_ok code_unauthorized : Code

abbrev pub code_of : Verdict → Code
code_of (Verdict.refused why) = Code.code_unauthorized
code_of Verdict.tagged = Code.code_ok
code_of Verdict.untagged = Code.code_ok

-- `DeliverTx`; `none` is a transaction that `authenticateBftTx` refuses.
unfoldable pub deliver_tx : Services → Option (ℕ × Tx) → Abci → Abci × Code × List Call
unfolding update_tx
deliver_tx sv none a = (a, Code.code_unauthorized, [])
deliver_tx sv (some (sender, tx)) a =
    let (a1, v, calls) = update_tx sv sender tx a in (a1, code_of v, calls)

unfoldable pub validate_vote : Services → (sender : ℕ) → PubKeygenMessage → State → Verdict
validate_vote sv sender m s = elim (adkg_id_from_round_id m.round_id) [
  | none ↦ Verdict.refused Reason.bad_round
  | some id ↦ elim (lookup id s.keygen_pub_keys) [
    | some _ ↦ Verdict.refused Reason.already_processed
    | none ↦ elim (lookup (decision_key sv.keccak_hex id m.public_key.x) s.keygen_decisions) [
      | none ↦ Verdict.untagged
      | some nodes ↦
          if contains nodes sender then Verdict.refused Reason.already_added else Verdict.untagged
    ]
  ]
]

-- `validateTx`: `prev` is the state that it is given, for an assignment; votes are checked against the
-- current state.
unfoldable pub validate_tx : Services → (sender : ℕ) → Tx → (prev : State) → Abci → Verdict
unfolding validate_vote
validate_tx sv sender (Tx.assignment (some tx)) prev a =
    if key_available prev tx.curve
    then Verdict.untagged
    else Verdict.refused Reason.key_not_available
validate_tx sv sender (Tx.dkg_message method body) prev a =
    if method == pub_keygen_type
    then elim body [
      | none ↦ Verdict.refused Reason.undecodable
      | some m ↦ validate_vote sv sender m a.state
    ]
    else Verdict.refused Reason.unimplemented
validate_tx sv sender Tx.other_type prev a = Verdict.refused Reason.invalid_type
validate_tx sv sender (Tx.assignment none) prev a = Verdict.refused Reason.undecodable
validate_tx sv sender Tx.undecoded_message prev a = Verdict.refused Reason.undecodable

-- `CheckTx`
unfoldable pub check_tx : Services → Option (ℕ × Tx) → Abci → Code
unfolding validate_tx
check_tx sv none a = Code.code_unauthorized
check_tx sv (some (sender, tx)) a = code_of (validate_tx sv sender tx a.prev_state a)

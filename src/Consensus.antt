-- ===== src/Consensus.antt =====
-- tendermint/abci.go, tendermint/bft_rpc.go and keygen/message_handlers/keyderivation/pubkey_gen.go: the
-- replicated state of the nodes, its transactions, and what the application asks of other services. The
-- counters stay below 2 ^ 63, where the conversions between `uint`, `int64` and `big.Int` keep a value.
-- `bijson` reads back what it wrote, so a value stands for its encoding.
pub mod Keyspace
pub mod Assignment
pub mod Votes
pub mod Blocks
pub mod Listing
pub mod Search
pub mod Assigned
pub mod Run
pub mod Mappings
pub mod Owners
pub mod Backed
pub mod Support
pub mod Quorums
pub mod Buffer
pub mod Restart
pub mod Examples
use adkg.Base.{
  ℕ, ◌+◌, ◌-◌, ◌%◌, ◌^◌, ℤ, pos, negsuc, Bool, true, false, Option, none, some, List, [], ◌∷◌, Map,
  text_eq, ltb, if◌then◌else◌, ◌==◌, codes,
}
use adkg.Base.Maps.{lookup}
use adkg.Rounds.{Text, secp256k1, ed25519}

-- `Point`, whose zero value is (0, 0)
pub record Point : Type 0 where
  pub x : ℤ
  pub y : ℤ

abbrev pub no_point : Point
no_point = record { x = pos 0; y = pos 0 }

pub record KeygenPubKey : Type 0 where
  pub id : Text
  pub point : Point

-- `KeyAssignmentPublic`, with its one verifier and user
pub record KeyAssignmentPublic : Type 0 where
  pub index : ℕ
  pub public_key : Point
  pub provider : Text
  pub user_id : Text

-- `C25519State`, and the two counters of `State` for the curve secp256k1
pub record Counters : Type 0 where
  pub last_created_index : ℕ
  pub last_unassigned_index : ℕ

pub record State : Type 0 where
  pub secp_state : Counters
  pub block_time : ℕ
  pub new_key_assignments : List KeyAssignmentPublic
  pub keygen_decisions : Map Text (List ℕ)
  pub keygen_pub_keys : Map Text KeygenPubKey
  pub consecutive_failed_pub_key_assigns : ℕ
  pub c25519_state : Counters

abbrev pub no_keys : Counters
no_keys = record { last_created_index = 0; last_unassigned_index = 0 }

-- The state of `NewABCI` where the database has none
abbrev pub new_state : State
new_state = record {
  secp_state = no_keys;
  block_time = 0;
  new_key_assignments = [];
  keygen_decisions = [];
  keygen_pub_keys = [];
  consecutive_failed_pub_key_assigns = 0;
  c25519_state = no_keys;
}

pub record AppInfo : Type 0 where
  pub height : ℕ
  pub app_hash : Text

-- What the database holds under a key
pub data Entry : Type 0 where
  key_mapping : KeyAssignmentPublic → Entry
  key_indexes : List ℕ → Entry
  saved_state : State → Entry
  saved_info : AppInfo → Entry

abbrev pub Db : Type 0
Db = Map Text Entry

-- `ABCI`; `prev_state` is the state of the last block.
pub record Abci : Type 0 where
  pub db : Db
  pub state : State
  pub prev_state : State
  pub info : AppInfo

pub record AssignmentTx : Type 0 where
  pub provider : Text
  pub user_id : Text
  pub app_id : Text
  pub curve : Text

pub record PubKeygenMessage : Type 0 where
  pub round_id : Text
  pub curve : Text
  pub public_key : Point

-- A transaction by its type byte, 1 or 2 or another, with what its bytes decode to, if they decode. A
-- message of the key generation has a method, and data of its own.
pub data Tx : Type 0 where
  assignment : Option AssignmentTx → Tx
  undecoded_message : Tx
  dkg_message : (method : Text) → Option PubKeygenMessage → Tx
  other_type : Tx

abbrev pub pub_keygen_type : Text
pub_keygen_type = codes "key_derivation_pubkey_gen"

-- What the other services and the database answer while a transaction is handled: the threshold of the
-- epoch, the partition of an application, the hex digits of a Keccak hash, whether the database of the
-- node stores a public key, and which keys of the application's own database fail.
pub record Services : Type 0 where
  pub threshold : Option ℕ
  pub partition_for_app : Text → Option Bool
  pub keccak_hex : Text → Text
  pub stores_public_key : Bool
  pub read_fails : Text → Bool
  pub write_fails : Text → Bool

-- The calls that a transaction makes of other services
pub data Call : Type 0 where
  store_public_key_to_index : Point → ℤ → Text → Call
  cleanup : Text → Call

pub data Reason : Type 0 where
  no_epoch undecodable key_not_available key_not_found mapping_not_stored app_not_found : Reason
  indexes_not_stored bad_round bad_index already_processed already_added pub_key_not_stored : Reason
  unimplemented invalid_type : Reason

-- What the handling of a transaction returns: the tag of an assignment, no tag, or an error
pub data Verdict : Type 0 where
  tagged untagged : Verdict
  refused : Reason → Verdict

-- `(*State).KeyAvailable`
unfoldable pub key_available : State → Text → Bool
key_available s curve =
    if curve == secp256k1
    then ltb s.secp_state.last_unassigned_index s.secp_state.last_created_index
    else if curve == ed25519
    then ltb s.c25519_state.last_unassigned_index s.c25519_state.last_created_index
    else false

-- `uint(index)` of an `Int64`
unfoldable pub to_uint : ℤ → ℕ
to_uint (ℤ.pos n) = n % 2 ^ 64
to_uint (ℤ.negsuc n) = 2 ^ 64 - 1 - n % 2 ^ 64

-- `KeygenPubKeys[id].Point`
unfoldable pub point_of : State → Text → Point
point_of s id = elim (lookup id s.keygen_pub_keys) [ none ↦ no_point | some k ↦ k.point ]

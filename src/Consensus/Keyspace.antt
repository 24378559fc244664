-- ===== src/Consensus/Keyspace.antt =====
-- tendermint/abci.go and tendermint/abci_handlers.go: the keys of the application's database, what it
-- reads and writes under them, and the query for the keys of a user.
use adkg.Base.{
  ℕ, zero, suc, ◌/◌, ◌%◌, ℤ, Bool, Option, none, some, List, [], ◌∷◌, ◌++◌, text_eq, nat_beq,
  if◌then◌else◌, ◌==◌, codes,
}
use adkg.Base.Maps.{lookup, insert}
use adkg.Rounds.{Text, ed25519, text_of, join, ◌>>=◌}
use adkg.Consensus.{Db, Entry, KeyAssignmentPublic, AssignmentTx, Services}

abbrev pub delimiter1 : ℕ
delimiter1 = 0x1c

abbrev pub global_word : Text
global_word = codes "global"

abbrev pub verifier_prefix : Text
verifier_prefix = codes "vt"

unfoldable pub get_partitioned_keyspace : (app_id user_id curve : Text) → Text
unfolding join
get_partitioned_keyspace app_id user_id curve =
    let key =
      if curve == ed25519
      then join delimiter1 (app_id ∷ user_id ∷ ed25519 ∷ [])
      else join delimiter1 (app_id ∷ user_id ∷ []) in
    verifier_prefix ++ key

unfoldable pub get_unpartitioned_keyspace : (user_id curve : Text) → Text
unfolding join
get_unpartitioned_keyspace user_id curve =
    let key =
      if curve == ed25519
      then join delimiter1 (global_word ∷ user_id ∷ ed25519 ∷ [])
      else join delimiter1 (global_word ∷ user_id ∷ []) in
    verifier_prefix ++ key

unfoldable pub get_verifier_key : AssignmentTx → Bool → Text
unfolding get_partitioned_keyspace get_unpartitioned_keyspace
get_verifier_key tx partitioned =
    if partitioned
    then get_partitioned_keyspace tx.app_id tx.user_id tx.curve
    else get_unpartitioned_keyspace tx.user_id tx.curve

unfoldable pub prefix_key_mapping : Text → Text → Text
prefix_key_mapping key curve = if curve == ed25519 then codes "ekm" ++ key else codes "km" ++ key

-- `db.Set`; `none` is its error.
unfoldable pub set_entry : Services → Text → Entry → Db → Option Db
set_entry sv key v db = if sv.write_fails key then none else some (insert key v db)

-- `db.Get`, with an error where it fails or finds nothing
unfoldable pub get_entry : Services → Text → Db → Option Entry
get_entry sv key db = if sv.read_fails key then none else lookup key db

unfoldable pub store_key_mapping : Services → ℕ → Text → KeyAssignmentPublic → Db → Option Db
unfolding set_entry prefix_key_mapping
store_key_mapping sv index curve a db =
    set_entry sv (prefix_key_mapping (text_of 16 index) curve) (Entry.key_mapping a) db

unfoldable pub store_verifier_to_key_index : Services → Text → List ℕ → Db → Option Db
unfolding set_entry
store_verifier_to_key_index sv key indexes db = set_entry sv key (Entry.key_indexes indexes) db

as_mapping : Option Entry → Option KeyAssignmentPublic
as_mapping (some (Entry.key_mapping a)) = some a
as_mapping _ = none

as_indexes : Option Entry → Option (List ℕ)
as_indexes (some (Entry.key_indexes l)) = some l
as_indexes _ = none

unfoldable pub retrieve_key_mapping : Services → ℕ → Text → Db → Option KeyAssignmentPublic
unfolding as_mapping get_entry prefix_key_mapping
retrieve_key_mapping sv index curve db =
    as_mapping (get_entry sv (prefix_key_mapping (text_of 16 index) curve) db)

unfoldable pub retrieve_verifier_to_key_index : Services → Text → Db → Option (List ℕ)
unfolding as_indexes get_entry
retrieve_verifier_to_key_index sv key db = as_indexes (get_entry sv key db)

-- `Query` and `getIndexesFromVerifierID`; `none` is the code 10.
unfoldable pub query_indexes : Services → AssignmentTx → Db → Option (List ℕ)
unfolding get_verifier_key retrieve_verifier_to_key_index
query_indexes sv args db = do
  partitioned ← sv.partition_for_app args.app_id
  retrieve_verifier_to_key_index sv (get_verifier_key args partitioned) db

-- The bytes of a number, most significant first; `n + 1` rounds are enough.
bytes_loop : ℕ → ℕ → Text → Text
bytes_loop zero n out = out
bytes_loop (suc fuel) n out =
    let more = bytes_loop fuel (n / 256) (n % 256 ∷ out) in if nat_beq n 0 then out else more

abs_value : ℤ → ℕ
abs_value (ℤ.pos n) = n
abs_value (ℤ.negsuc n) = suc n

-- `big.Int.Bytes`, of the absolute value
unfoldable pub big_bytes : ℤ → Text
unfolding bytes_loop abs_value
big_bytes z = bytes_loop (suc (abs_value z)) (abs_value z) []

-- The key of the votes for a public key: the key generation, and the hash of the X of the point
unfoldable pub decision_key : (keccak_hex : Text → Text) → (id : Text) → (x : ℤ) → Text
decision_key keccak_hex id x = id ++ keccak_hex (big_bytes x)

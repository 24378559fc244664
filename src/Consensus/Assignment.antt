-- ===== src/Consensus/Assignment.antt =====
-- tendermint/abci_handlers.go: the assignment of a generated key to a user.
use adkg.Base.{
  ℕ, zero, suc, ◌+◌, ◌-◌, int_beq, pos, Bool, false, not, ◌||◌, Option, none, some, List, [], ◌∷◌,
  ◌++◌, text_eq, leb, if◌then◌else◌, ◌==◌,
}
use adkg.Base.Maps.{delete}
use adkg.Rounds.{Text, secp256k1, ed25519, new_adkg_id}
use adkg.Consensus.{
  Point, Counters, State, Db, Abci, AssignmentTx, KeyAssignmentPublic, Services, Reason, Verdict,
  key_available, point_of,
}
use adkg.Consensus.Keyspace.{
  get_verifier_key, store_key_mapping, store_verifier_to_key_index, retrieve_verifier_to_key_index,
}

abbrev pub has_zero : Point → Bool
has_zero p = int_beq p.x (pos 0) || int_beq p.y (pos 0)

-- The counters that `findUnassignedKey` reads
abbrev pub counters_of : State → Text → Counters
counters_of s curve = if curve == ed25519 then s.c25519_state else s.secp_state

-- The loop of `findUnassignedKey`, with the number of indices left below the last created one
unfoldable pub search_key : (left i : ℕ) → State → Text → Option (Text × ℕ)
search_key zero i s curve = none
search_key (suc left) i s curve =
    let id = new_adkg_id i curve in
    let next = search_key left (i + 1) s curve in
    if has_zero (point_of s id) then next else some (id, i)

unfoldable pub find_unassigned_key : State → Text → Option (Text × ℕ)
unfolding search_key
find_unassigned_key s curve =
    let c = counters_of s curve in
    search_key (c.last_created_index - c.last_unassigned_index) c.last_unassigned_index s curve

-- `sort.Slice` of numbers
unfoldable pub sort_insert : ℕ → List ℕ → List ℕ
sort_insert i [] = i ∷ []
sort_insert i (j ∷ l) = if leb i j then i ∷ j ∷ l else j ∷ sort_insert i l

unfoldable pub sort : List ℕ → List ℕ
unfolding sort_insert
sort [] = []
sort (i ∷ l) = sort_insert i (sort l)

-- An error of `GetAppKeyPartition` is ignored here, and the value beside it is false.
abbrev pub partition_or_false : Option Bool → Bool
partition_or_false none = false
partition_or_false (some b) = b

unfoldable pub get_key_assignment : Services → ℕ → AssignmentTx → Db → List ℕ
unfolding sort
get_key_assignment sv index tx db =
    let key = get_verifier_key tx (partition_or_false (sv.partition_for_app tx.app_id)) in
    let key_indexes : List ℕ = elim (retrieve_verifier_to_key_index sv key db) [
      | none ↦ index ∷ []
      | some l ↦ l ++ index ∷ []
    ] in
    sort key_indexes

unfoldable pub create_key_assignment : AssignmentTx → ℕ → Point → KeyAssignmentPublic
create_key_assignment tx i pk = record {
  index = i;
  public_key = pk;
  provider = tx.provider;
  user_id = tx.user_id;
}

unfoldable pub assign_key : KeyAssignmentPublic → Text → State → State
assign_key pk curve s =
    let s1 =
      if curve == secp256k1
      then record s { secp_state = record s.secp_state { last_unassigned_index = pk.index + 1 } }
      else record s {
        c25519_state = record s.c25519_state { last_unassigned_index = pk.index + 1 };
      } in
    record s1 { new_key_assignments = s1.new_key_assignments ++ pk ∷ [] }

-- The end of an assignment that is stored: `assignKey`, and the removal of the key from the pool
unfoldable pub settle : KeyAssignmentPublic → Text → (id : Text) → State → State
unfolding assign_key
settle pk curve id s =
    let s1 = assign_key pk curve s in record s1 { keygen_pub_keys = delete id s1.keygen_pub_keys }

-- The part of the handler behind `findUnassignedKey`
unfoldable pub store_assignment : Services → AssignmentTx → (id : Text) → ℕ → Abci → Abci × Verdict
unfolding settle create_key_assignment
store_assignment sv tx id i a =
    let key_indexes = get_key_assignment sv i tx a.db in
    let pk = create_key_assignment tx i (point_of a.state id) in
    elim (store_key_mapping sv i tx.curve pk a.db) [
      | none ↦ (a, Verdict.refused Reason.mapping_not_stored)
      | some db1 ↦ elim (sv.partition_for_app tx.app_id) [
        | none ↦ (record a { db = db1 }, Verdict.refused Reason.app_not_found)
        | some partitioned ↦
            elim (store_verifier_to_key_index sv (get_verifier_key tx partitioned) key_indexes
              db1) [
                | none ↦ (record a { db = db1 }, Verdict.refused Reason.indexes_not_stored)
                | some db2 ↦
                    (record a { db = db2; state = settle pk tx.curve id a.state }, Verdict.tagged)
              ]
      ]
    ]

-- The case of an assignment in `ValidateAndUpdateAndTagBFTTx`
unfoldable pub on_assignment : Services → AssignmentTx → Abci → Abci × Verdict
unfolding key_available find_unassigned_key store_assignment
on_assignment sv tx a =
    let s = a.state in
    if not (key_available s tx.curve)
    then (
      record a {
        state = record s {
          consecutive_failed_pub_key_assigns = s.consecutive_failed_pub_key_assigns + 1;
        };
      },
      Verdict.refused Reason.key_not_available,
    )
    else elim (find_unassigned_key s tx.curve) [
      | none ↦ (a, Verdict.refused Reason.key_not_found)
      | some (id, i) ↦
          store_assignment sv tx id i
            (record a { state = record s { consecutive_failed_pub_key_assigns = 0 } })
    ]

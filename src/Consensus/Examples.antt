-- ===== src/Consensus/Examples.antt =====
-- A node whose pool holds one key, and nodes that vote for keys.
use adkg.Base.{
  ℕ, ◌+◌, ◌-◌, ◌/◌, ◌≤◌, ◌<◌, ◌≡◌, refl, true, false, none, some, List, [], ◌∷◌, pos, text_eq,
  codes, length, All, arith, if◌then◌else◌, ltb, get_elem?, ◌&&◌,
}
use adkg.Base.Maps.{lookup, insert}
use adkg.Rounds.{
  adkg_id_from_round_id, get_index, get_curve, Text, secp256k1, create_round, new_adkg_id, text_of,
  generate_adkg_id,
}
use adkg.Consensus.{
  Point, Abci, AssignmentTx, PubKeygenMessage, Services, Tx, Call, Verdict, new_state,
  pub_keygen_type, point_of, key_available,
}
use adkg.Consensus.Keyspace.{
  prefix_key_mapping, query_indexes, big_bytes, decision_key, store_key_mapping,
  store_verifier_to_key_index,
}
use adkg.Consensus.Assignment.{on_assignment, counters_of}
use adkg.Consensus.Votes.{on_pub_keygen, check_tx, deliver_tx, Code}
use adkg.Consensus.Blocks.{end_block, fill_buffer, min_of, commit, new_abci, no_info}
use adkg.Consensus.Run.{Event, on_event, run_chain}
use adkg.Consensus.Assigned.{Took, on_assignment_takes}
use adkg.Consensus.Owners.{owners_stand}
use adkg.Consensus.Backed.{HasVoters, voted_in}
use adkg.Consensus.Quorums.{keys_have_quorum, last_vote_decides}
use adkg.Consensus.Buffer.{request, get_elem?-fill_buffer, ed25519_starved}
use adkg.Consensus.Restart.{restart, check_tx-deliver_tx}
use adkg.Consensus.Listing.{SortedFrom, count, list_or_empty, assigned_is_listed}

-- Two votes make a key, and nothing fails.
abbrev working : Services
working = record {
  threshold = some 2;
  partition_for_app = λ app. some false;
  keccak_hex = λ t. t;
  stores_public_key = true;
  read_fails = λ key. false;
  write_fails = λ key. false;
}

abbrev fresh_node : Abci
fresh_node = record { db = []; state = new_state; prev_state = new_state; info = no_info }

abbrev point : Point
point = record { x = pos 7; y = pos 9 }

abbrev key_id : Text
key_id = new_adkg_id 0 secp256k1

abbrev ready : Abci
ready = record fresh_node {
  state = record new_state {
    secp_state = record { last_created_index = 1; last_unassigned_index = 0 };
    keygen_pub_keys = (key_id, record { id = key_id; point = point }) ∷ [];
  };
}

abbrev tx : AssignmentTx
tx = record { provider = codes "p"; user_id = codes "u"; app_id = codes "a"; curve = secp256k1 }

abbrev assigned : Abci
assigned = (on_assignment working tx ready).0

assignment_accepted : on_assignment working tx ready ≡ (assigned, Verdict.tagged)
unfolding on_assignment point_of lookup new_adkg_id store_key_mapping store_verifier_to_key_index
assignment_accepted = refl

abbrev vote : Text → Point → PubKeygenMessage
vote id p = record {
  round_id = create_round id 1 (codes "acss");
  curve = secp256k1;
  public_key = p;
}

abbrev vote_event : ℕ → Event
vote_event sender =
    Event.deliver (some (sender, Tx.dkg_message pub_keygen_type (some (vote key_id point))))

abbrev votes : List (Services × Event)
votes = (working, vote_event 1) ∷ (working, vote_event 2) ∷ []

on_assignment_takes_example : (i : ℕ) × Took working tx i ready assigned
on_assignment_takes_example = on_assignment_takes working tx ready assigned assignment_accepted

after_one : (counters_of assigned.state secp256k1).last_unassigned_index ≡ 1
unfolding on_assignment point_of lookup new_adkg_id store_key_mapping store_verifier_to_key_index
after_one = refl

owners_stand_example :
    (0 < (counters_of (run_chain votes assigned).state secp256k1).last_unassigned_index)
    × (lookup (prefix_key_mapping (text_of 16 0) secp256k1) (run_chain votes assigned).db
        ≡ lookup (prefix_key_mapping (text_of 16 0) secp256k1) assigned.db)
owners_stand_example = owners_stand votes secp256k1 assigned 0 (omega (arith, after_one))

-- The point of the two votes, in the pool
pooled :
    lookup key_id (run_chain votes fresh_node).state.keygen_pub_keys
    ≡ some (record { id = key_id; point = point })
unfolding run_chain lookup new_adkg_id on_event deliver_tx on_pub_keygen adkg_id_from_round_id
    create_round get_index insert decision_key big_bytes get_curve
pooled = refl

keys_have_quorum_example :
    HasVoters 2 (voted_in (λ t. t) votes) (decision_key (λ t. t) key_id point.x)
keys_have_quorum_example =
    keys_have_quorum (λ t. t) 2 votes fresh_node key_id (record { id = key_id; point = point }) refl
      refl ((refl, refl), ((refl, refl), tt)) pooled

abbrev other_point : Point
other_point = record { x = pos 7; y = pos 100 }

abbrev one_vote : Abci
one_vote = record fresh_node {
  state = record new_state {
    keygen_decisions = (decision_key (λ t. t) key_id point.x, 1 ∷ []) ∷ [];
  };
}

named : adkg_id_from_round_id (vote key_id other_point).round_id ≡ some key_id
unfolding adkg_id_from_round_id create_round new_adkg_id
named = refl

indexed : get_index key_id ≡ some (pos 0)
unfolding get_index new_adkg_id
indexed = refl

on_secp256k1 : get_curve key_id ≡ some secp256k1
unfolding get_curve new_adkg_id
on_secp256k1 = refl

not_pooled : lookup key_id one_vote.state.keygen_pub_keys ≡ none
unfolding lookup
not_pooled = refl

found_vote :
    lookup (decision_key (λ t. t) key_id other_point.x) one_vote.state.keygen_decisions
    ≡ some (1 ∷ [])
unfolding lookup decision_key new_adkg_id big_bytes
found_vote = refl

last_vote_decides_example :
    let (b, v, calls) = on_pub_keygen working 2 2 (vote key_id other_point) one_vote in
    (lookup key_id b.state.keygen_pub_keys ≡ some (record { id = key_id; point = other_point }))
    × (lookup (decision_key (λ t. t) key_id other_point.x) b.state.keygen_decisions ≡ none)
    × (v ≡ Verdict.untagged)
    × (calls
        ≡ Call.store_public_key_to_index other_point (pos 0) secp256k1 ∷ Call.cleanup key_id ∷ [])
    × (0 ≤ b.state.secp_state.last_created_index)
last_vote_decides_example =
    last_vote_decides working 2 2 0 (vote key_id other_point) one_vote key_id (1 ∷ []) named indexed
      on_secp256k1 (omega arith) refl not_pooled found_vote refl refl

get_elem?-fill_buffer_example :
    get_elem? (fill_buffer generate_adkg_id secp256k1 1 100 10 ready.state.secp_state) 3
    ≡ (if ltb 3 100 && ltb 4 10 then some (request generate_adkg_id secp256k1 1 4) else none)
get_elem?-fill_buffer_example =
    get_elem?-fill_buffer generate_adkg_id secp256k1 1 100 10 ready.state.secp_state 3

ed25519_starved_example :
    All (λ r. r.curve ≡ secp256k1) (end_block 1000 1 ready)
    × (length (end_block 1000 1 ready) ≡ min_of (1 + 1000 / 500) (0 + 1000) - 1)
ed25519_starved_example = ed25519_starved 1000 1 ready (omega arith) (omega arith)

restart_example :
    let (b, h) = commit working (λ s. codes "h") ready in
    new_abci working b.db
    ≡ some (record {
      db = b.db;
      state = record ready.state { block_time = 0 };
      prev_state = record ready.state { block_time = 0 };
      info = record { height = 1; app_hash = codes "h" };
    })
restart_example = restart working working (λ s. codes "h") ready refl refl refl refl

refused_check :
    check_tx working
      (some (1, Tx.assignment (some tx)))
      (record fresh_node { prev_state = fresh_node.state })
    ≡ Code.code_unauthorized
unfolding check_tx key_available
refused_check = refl

check_tx-deliver_tx_example :
    (deliver_tx working (some (1, Tx.assignment (some tx))) fresh_node).1 ≡ Code.code_unauthorized
check_tx-deliver_tx_example =
    check_tx-deliver_tx working (some (1, Tx.assignment (some tx))) fresh_node refused_check

assigned_is_listed_example :
    (i : ℕ) × (0 ≤ i)
    × (i < 1)
    × (l : List ℕ) × (query_indexes working tx assigned.db ≡ some l)
    × SortedFrom 0 l
    × ((j : ℕ) → count j l ≡ count j (i ∷ list_or_empty (query_indexes working tx ready.db)))
assigned_is_listed_example =
    assigned_is_listed working tx ready assigned assignment_accepted (λ key. refl)

-- ===== src/Consensus/Assigned.antt =====
-- An assignment takes the first generated key behind the last assigned one.
use adkg.Base.{
  ℕ, ◌+◌, ◌-◌, ◌≤◌, ◌<◌, ◌≡◌, ◌≢◌, refl, sym, ◌∙◌, Bool, true, false, none, some, text_eq, ◌==◌,
  Bool-cases, Option-cases, inl, inr, ◌⊎◌, arith,
}
use adkg.Base.Maps.{lookup, insert, lookup-insert_ne, lookup-insert_self, lookup-delete_self}
use adkg.Rounds.{Text, secp256k1, ed25519, new_adkg_id, text_of}
use adkg.Consensus.{
  KeyAssignmentPublic, State, Db, Entry, Abci, AssignmentTx, Services, Verdict, key_available,
  point_of,
}
use adkg.Consensus.Keyspace.{
  get_verifier_key, prefix_key_mapping, set_entry, store_key_mapping, store_verifier_to_key_index,
}
use adkg.Consensus.Assignment.{
  has_zero, counters_of, find_unassigned_key, assign_key, settle, create_key_assignment,
  store_assignment, on_assignment, get_key_assignment,
}
use adkg.Consensus.Search.{Found, search_key_lem, mapping-ne-verifier}

-- What an accepted assignment leaves behind, for the index `i` that it took
pub record Took (sv : Services) (tx : AssignmentTx) (i : ℕ) (a b : Abci) : Type 0 where
  pub unassigned : (counters_of a.state tx.curve).last_unassigned_index ≤ i
  pub created : i < (counters_of a.state tx.curve).last_created_index
  pub generated : has_zero (point_of a.state (new_adkg_id i tx.curve)) ≡ false
  pub first :
      (m : ℕ)
      → (counters_of a.state tx.curve).last_unassigned_index ≤ m
      → m < i
      → has_zero (point_of a.state (new_adkg_id m tx.curve)) ≡ true
  pub counted : (counters_of b.state tx.curve).last_unassigned_index ≡ i + 1
  pub mapped :
      lookup (prefix_key_mapping (text_of 16 i) tx.curve) b.db
      ≡ some (
          Entry.key_mapping
            (create_key_assignment tx i (point_of a.state (new_adkg_id i tx.curve))))
  pub removed : lookup (new_adkg_id i tx.curve) b.state.keygen_pub_keys ≡ none
  pub partition : (p : Bool) × (sv.partition_for_app tx.app_id ≡ some p)
  pub listed :
      (partitioned : Bool)
      → sv.partition_for_app tx.app_id ≡ some partitioned
      → lookup (get_verifier_key tx partitioned) b.db
        ≡ some (Entry.key_indexes (get_key_assignment sv i tx a.db))

-- An assignment that is stored got through each of its steps.
record Stored (sv : Services) (tx : AssignmentTx) (id : Text) (i : ℕ) (a b : Abci) : Type 0 where
  db1 : Db
  db2 : Db
  partitioned : Bool
  mapped :
      store_key_mapping sv i tx.curve (create_key_assignment tx i (point_of a.state id)) a.db
      ≡ some db1
  partition : sv.partition_for_app tx.app_id ≡ some partitioned
  indexed :
      store_verifier_to_key_index sv
        (get_verifier_key tx partitioned)
        (get_key_assignment sv i tx a.db)
        db1
      ≡ some db2
  left :
      record a {
        db = db2;
        state = settle (create_key_assignment tx i (point_of a.state id)) tx.curve id a.state;
      }
      ≡ b

store_assignment_stores :
    (sv : Services) (tx : AssignmentTx) (id : Text) (i : ℕ) (a b : Abci)
    → store_assignment sv tx id i a ≡ (b, Verdict.tagged)
    → Stored sv tx id i a b
unfolding store_assignment
store_assignment_stores sv tx id i a b h =
    let pk = create_key_assignment tx i (point_of a.state id) in
    let l = get_key_assignment sv i tx a.db in
    elim (Option-cases (store_key_mapping sv i tx.curve pk a.db)) [
      | inl e ↦ absurd (ground arith)
      | inr (d1, e) ↦ elim (Option-cases (sv.partition_for_app tx.app_id)) [
        | inl p ↦ absurd (ground arith)
        | inr (q, p) ↦
            elim (Option-cases (store_verifier_to_key_index sv (get_verifier_key tx q) l d1)) [
              | inl w ↦ absurd (ground arith)
              | inr (d2, w) ↦ record {
                db1 = d1;
                db2 = d2;
                partitioned = q;
                mapped = e;
                partition = p;
                indexed = w;
                left = ground arith;
              }
            ]
      ]
    ]

set_entry_lem :
    (sv : Services) (key : Text) (v : Entry) (db db1 : Db)
    → set_entry sv key v db ≡ some db1
    → insert key v db ≡ db1
unfolding set_entry
set_entry_lem sv key v db db1 h = ground arith

pub available_curve :
    (s : State) (curve : Text)
    → key_available s curve ≡ true
    → (curve ≡ secp256k1) ⊎ (curve ≡ ed25519)
unfolding key_available
available_curve s curve h = elim (Bool-cases (curve == secp256k1)) [
  | inl e ↦ inl ((text_eq.beq_iff curve secp256k1).0 e)
  | inr e ↦ elim (Bool-cases (curve == ed25519)) [
    | inl e' ↦ inr ((text_eq.beq_iff curve ed25519).0 e')
    | inr e' ↦ absurd (ground arith)
  ]
]

settle_counted :
    (pk : KeyAssignmentPublic) (curve id : Text) (s : State)
    → (curve ≡ secp256k1) ⊎ (curve ≡ ed25519)
    → (counters_of (settle pk curve id s) curve).last_unassigned_index ≡ pk.index + 1
unfolding settle assign_key
settle_counted pk curve id s (inl e) = rw e
settle_counted pk curve id s (inr e) = rw e

settle_removed :
    (pk : KeyAssignmentPublic) (curve id : Text) (s : State)
    → lookup id (settle pk curve id s).keygen_pub_keys ≡ none
unfolding settle assign_key
settle_removed pk curve id s = lookup-delete_self id (assign_key pk curve s).keygen_pub_keys

abbrev pub reset_failed : Abci → Abci
reset_failed a = record a { state = record a.state { consecutive_failed_pub_key_assigns = 0 } }

point_of-reset : (a : Abci) (id : Text) → point_of (reset_failed a).state id ≡ point_of a.state id
unfolding point_of
point_of-reset a id = refl

settled_index :
    (sv : Services) (tx : AssignmentTx) (id : Text) (i : ℕ) (a b : Abci)
    → key_available a.state tx.curve ≡ true
    → Found a.state tx.curve
        (counters_of a.state tx.curve).last_unassigned_index
        ((counters_of a.state tx.curve).last_created_index
          - (counters_of a.state tx.curve).last_unassigned_index)
        i
        id
    → Stored sv tx id i (reset_failed a) b
    → Took sv tx i a b
unfolding store_key_mapping store_verifier_to_key_index create_key_assignment
settled_index sv tx id i a b available f st =
    let pk = create_key_assignment tx i (point_of (reset_failed a).state id) in
    let km = prefix_key_mapping (text_of 16 i) tx.curve in
    let vk = get_verifier_key tx st.partitioned in
    let l = get_key_assignment sv i tx a.db in
    let e1 = set_entry_lem sv km (Entry.key_mapping pk) a.db st.db1 st.mapped in
    let e2 = set_entry_lem sv vk (Entry.key_indexes l) st.db1 st.db2 st.indexed in
    let apart : vk ≢ km =
      λ e. mapping-ne-verifier (text_of 16 i) tx.curve tx st.partitioned (sym e) in
    record {
      unassigned = f.from_start;
      created = omega (arith, f.within, f.from_start);
      generated = rw (← f.named) f.generated;
      first = f.first;
      counted = rw (← st.left) (
          settle_counted pk tx.curve id (reset_failed a).state
            (available_curve a.state tx.curve available));
      mapped =
          rw (← st.left, ← e2, ← f.named, ← point_of-reset a id)
            (lookup-insert_ne vk km (Entry.key_indexes l) st.db1 apart
              ∙ rw (← e1) (lookup-insert_self km (Entry.key_mapping pk) a.db));
      removed = rw (← st.left, ← f.named) (settle_removed pk tx.curve id (reset_failed a).state);
      partition = (st.partitioned, st.partition);
      listed = λ partitioned p.
          let same : st.partitioned ≡ partitioned = cc (st.partition, p) in
          rw (← st.left, ← e2, ← same) (lookup-insert_self vk (Entry.key_indexes l) st.db1);
    }

-- An assignment that is accepted took some index.
pub on_assignment_takes :
    (sv : Services) (tx : AssignmentTx) (a b : Abci)
    → on_assignment sv tx a ≡ (b, Verdict.tagged)
    → (i : ℕ) × Took sv tx i a b
unfolding on_assignment find_unassigned_key
on_assignment_takes sv tx a b h = elim (Bool-cases (key_available a.state tx.curve)) [
  | inr out ↦ absurd (ground arith)
  | inl there ↦ elim (Option-cases (find_unassigned_key a.state tx.curve)) [
    | inl missing ↦ absurd (ground arith)
    | inr ((id, i), found) ↦ (
      i,
      settled_index sv tx id i a b there (search_key_lem _ _ i a.state tx.curve id found)
          (store_assignment_stores sv tx id i (reset_failed a) b (ground arith)),
    )
  ]
]

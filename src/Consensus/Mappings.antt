-- ===== src/Consensus/Mappings.antt =====
-- A key that has been assigned keeps its owner.
use adkg.Base.{
  ℕ, ◌≤◌, ◌<◌, ◌≡◌, ◌≢◌, refl, sym, ap, ◌∙◌, Bool, Option, some, text_eq, ◌==◌, Bool-cases,
  Option-cases, inl, inr, ◌⊎◌, arith,
}
use adkg.Base.Maps.{lookup, insert, lookup-insert_ne}
use adkg.Rounds.{Text, secp256k1, ed25519, text_of}
use adkg.Rounds.Numerals.{set_string-text_of_self}
use adkg.Consensus.{
  key_available, State, Db, Entry, Abci, AssignmentTx, Services, point_of, PubKeygenMessage,
  KeyAssignmentPublic,
}
use adkg.Consensus.Keyspace.{
  prefix_key_mapping, get_verifier_key, set_entry, store_key_mapping, store_verifier_to_key_index,
}
use adkg.Consensus.Assignment.{
  counters_of, on_assignment, store_assignment, find_unassigned_key, settle, assign_key,
  get_key_assignment, create_key_assignment,
}
use adkg.Consensus.Votes.{
  raise_created, raise_counters, complete_key, count_votes, add_vote, on_pub_keygen,
}
use adkg.Consensus.Blocks.{begin_block}
use adkg.Consensus.Assigned.{reset_failed, available_curve}
use adkg.Consensus.Search.{mapping-ne-verifier, search_key_lem}

abbrev pub mapping_of : ℕ → Text → Db → Option Entry
mapping_of i curve db = lookup (prefix_key_mapping (text_of 16 i) curve) db

abbrev pub unassigned : State → Text → ℕ
unassigned s curve = (counters_of s curve).last_unassigned_index

-- The counter has not fallen, and what is mapped below it stands.
pub record Stands (curve : Text) (a b : Abci) : Type 0 where
  pub grows : unassigned a.state curve ≤ unassigned b.state curve
  pub kept :
      (i : ℕ) → i < unassigned a.state curve → mapping_of i curve b.db ≡ mapping_of i curve a.db

pub Stands-trans :
    (curve : Text) (a b c : Abci) → Stands curve a b → Stands curve b c → Stands curve a c
Stands-trans curve a b c p q = record {
  grows = omega (arith, p.grows, q.grows);
  kept = λ i h. q.kept i (omega (arith, p.grows)) ∙ p.kept i h;
}

pub Stands-same :
    (curve : Text) (a b : Abci)
    → b.db ≡ a.db
    → unassigned b.state curve ≡ unassigned a.state curve
    → Stands curve a b
Stands-same curve a b d u = record { grows = omega arith; kept = λ i h. ap (mapping_of i curve) d }

module _ (curve : Text) where
  pub begin_block-Stands : (time : ℕ) (a : Abci) → Stands curve a (begin_block time a)
  unfolding begin_block
  begin_block-Stands time a = Stands-same curve a _ refl refl

  pub on_pub_keygen-unassigned :
      (sv : Services) (k sender : ℕ) (m : PubKeygenMessage) (a : Abci)
      → let b = (on_pub_keygen sv k sender m a).0 in
        (b.db ≡ a.db) × (unassigned b.state curve ≡ unassigned a.state curve)
  unfolding on_pub_keygen add_vote count_votes complete_key raise_counters raise_created
  on_pub_keygen-unassigned sv k sender m a = ground arith

text_of-injective : (i j : ℕ) → text_of 16 i ≡ text_of 16 j → i ≡ j
text_of-injective i j e =
    let p = set_string-text_of_self 16 i (omega arith) (omega arith) in
    let q = set_string-text_of_self 16 j (omega arith) (omega arith) in cc (p, q, e)

-- Two indices, or two curves of which one is ed25519, have two keys.
prefix_ne :
    (i j : ℕ) (c d : Text)
    → (((c == ed25519) ≡ (d == ed25519)) → i ≢ j)
    → prefix_key_mapping (text_of 16 i) c ≢ prefix_key_mapping (text_of 16 j) d
unfolding prefix_key_mapping
prefix_ne i j c d apart e = elim (Bool-cases (c == ed25519)) [
  | inl p ↦ elim (Bool-cases (d == ed25519)) [
    | inl q ↦ apart (p ∙ sym q) (text_of-injective i j (ground arith))
    | inr q ↦ ground arith
  ]
  | inr p ↦ elim (Bool-cases (d == ed25519)) [
    | inl q ↦ ground arith
    | inr q ↦ apart (p ∙ sym q) (text_of-injective i j (ground arith))
  ]
]

set_entry_other :
    (sv : Services) (key q : Text) (v : Entry) (db db1 : Db)
    → key ≢ q
    → set_entry sv key v db ≡ some db1
    → lookup q db1 ≡ lookup q db
unfolding set_entry
set_entry_other sv key q v db db1 ne h = elim (Bool-cases (sv.write_fails key)) [
  | inl e ↦ absurd (ground arith)
  | inr e ↦
      let d : insert key v db ≡ db1 = ground arith in rw (← d) (lookup-insert_ne key q v db ne)
]

-- An assignment writes no other mapping.
store_assignment_db :
    (sv : Services) (tx : AssignmentTx) (id q : Text) (i : ℕ) (a : Abci)
    → prefix_key_mapping (text_of 16 i) tx.curve ≢ q
    → ((b : Bool) → get_verifier_key tx b ≢ q)
    → lookup q (store_assignment sv tx id i a).0.db ≡ lookup q a.db
unfolding store_assignment store_key_mapping store_verifier_to_key_index
store_assignment_db sv tx id q i a nm nv =
    let pk = create_key_assignment tx i (point_of a.state id) in
    let km = prefix_key_mapping (text_of 16 i) tx.curve in
    let l = get_key_assignment sv i tx a.db in
    elim (Option-cases (set_entry sv km (Entry.key_mapping pk) a.db)) [
      | inl e ↦ ground arith
      | inr (d1, e) ↦
          let s1 = set_entry_other sv km q (Entry.key_mapping pk) a.db d1 nm e in
          elim (Option-cases (sv.partition_for_app tx.app_id)) [
            | inl p ↦ ground arith
            | inr (part, p) ↦
                let vk = get_verifier_key tx part in
                elim (Option-cases (set_entry sv vk (Entry.key_indexes l) d1)) [
                  | inl w ↦ ground arith
                  | inr (d2, w) ↦
                      let s2 = set_entry_other sv vk q (Entry.key_indexes l) d1 d2 (nv part) w in
                      ground arith
                ]
          ]
    ]

-- The counter of a curve does not fall, for an index from it on.
settle-grows :
    (pk : KeyAssignmentPublic) (tc curve id : Text) (s : State)
    → (tc ≡ secp256k1) ⊎ (tc ≡ ed25519)
    → unassigned s tc ≤ pk.index
    → unassigned s curve ≤ unassigned (settle pk tc id s) curve
unfolding settle assign_key
settle-grows pk tc curve id s (inl e) h =
    let h' : unassigned s secp256k1 ≤ pk.index = rw e at h in rw e (ground arith)
settle-grows pk tc curve id s (inr e) h =
    let h' : unassigned s ed25519 ≤ pk.index = rw e at h in rw e (ground arith)

store_assignment-grows :
    (sv : Services) (tx : AssignmentTx) (curve id : Text) (i : ℕ) (a : Abci)
    → (tx.curve ≡ secp256k1) ⊎ (tx.curve ≡ ed25519)
    → unassigned a.state tx.curve ≤ i
    → unassigned a.state curve ≤ unassigned (store_assignment sv tx id i a).0.state curve
unfolding store_assignment create_key_assignment
store_assignment-grows sv tx curve id i a known h =
    let pk = create_key_assignment tx i (point_of a.state id) in
    ground (arith, settle-grows pk tx.curve curve id a.state known h)

same_curve :
    (i j : ℕ) (s : State) (c d : Text)
    → (c == ed25519) ≡ (d == ed25519)
    → unassigned s c ≤ i
    → j < unassigned s d
    → i ≢ j
same_curve i j s c d e p q same = ground arith

pub on_assignment-Stands :
    (sv : Services) (tx : AssignmentTx) (curve : Text) (a : Abci)
    → Stands curve a (on_assignment sv tx a).0
unfolding on_assignment find_unassigned_key
on_assignment-Stands sv tx curve a = elim (Bool-cases (key_available a.state tx.curve)) [
  | inr out ↦ rw out (Stands-same curve a _ refl refl)
  | inl there ↦ elim (Option-cases (find_unassigned_key a.state tx.curve)) [
    | inl missing ↦ rw (there, missing) (Stands-same curve a _ refl refl)
    | inr ((id, i), found) ↦
        let f = search_key_lem _ _ i a.state tx.curve id found in
        let known = available_curve a.state tx.curve there in
        rw (there, found)
          (record {
            grows = store_assignment-grows sv tx curve id i (reset_failed a) known f.from_start;
            kept = λ j h.
                store_assignment_db sv tx id (prefix_key_mapping (text_of 16 j) curve) i
                  (reset_failed a)
                  (prefix_ne i j tx.curve curve
                    (λ e. same_curve i j a.state tx.curve curve e f.from_start h))
                  (λ b e. mapping-ne-verifier (text_of 16 j) curve tx b (sym e));
          })
  ]
]

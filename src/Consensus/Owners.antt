-- ===== src/Consensus/Owners.antt =====
-- The owners of keys over a chain of blocks.
use adkg.Base.{
  ℕ, ◌<◌, ◌≡◌, ◌≢◌, refl, ◌∙◌, Option, none, some, List, [], ◌∷◌, text_eq, ◌==◌, Bool-cases, inl,
  inr, arith,
}
use adkg.Base.Maps.{lookup, lookup-insert_ne}
use adkg.Rounds.{Text, text_of}
use adkg.Consensus.{pub_keygen_type, State, Db, Entry, Abci, Services, Tx}
use adkg.Consensus.Keyspace.{prefix_key_mapping}
use adkg.Consensus.Assignment.{counters_of}
use adkg.Consensus.Votes.{update_by_type, update_tx-cases, deliver_tx}
use adkg.Consensus.Blocks.{commit, save_state, state_key, app_info_key, set_or_log}
use adkg.Consensus.Run.{Event, on_event, run_chain}
use adkg.Consensus.Mappings.{
  Stands, Stands-trans, Stands-same, begin_block-Stands, on_pub_keygen-unassigned,
  on_assignment-Stands,
}

update_by_type-Stands :
    (sv : Services) (k sender : ℕ) (tx : Tx) (curve : Text) (a : Abci)
    → Stands curve a (update_by_type sv k sender tx a).0
unfolding update_by_type
update_by_type-Stands sv k sender (Tx.assignment (some tx)) curve a =
    on_assignment-Stands sv tx curve a
update_by_type-Stands sv k sender (Tx.assignment none) curve a = Stands-same curve a a refl refl
update_by_type-Stands sv k sender Tx.undecoded_message curve a = Stands-same curve a a refl refl
update_by_type-Stands sv k sender Tx.other_type curve a = Stands-same curve a a refl refl
update_by_type-Stands sv k sender (Tx.dkg_message method none) curve a =
    elim (Bool-cases (method == pub_keygen_type)) [
      | inl e ↦ rw e (Stands-same curve a a refl refl)
      | inr e ↦ rw e (Stands-same curve a a refl refl)
    ]
update_by_type-Stands sv k sender (Tx.dkg_message method (some m)) curve a =
    let (d, u) = on_pub_keygen-unassigned curve sv k sender m a in
    elim (Bool-cases (method == pub_keygen_type)) [
      | inl e ↦ rw e (Stands-same curve a _ d u)
      | inr e ↦ rw e (Stands-same curve a a refl refl)
    ]

deliver_tx-Stands :
    (sv : Services) (tx : Option (ℕ × Tx)) (curve : Text) (a : Abci)
    → Stands curve a (deliver_tx sv tx a).0
unfolding deliver_tx
deliver_tx-Stands sv none curve a = Stands-same curve a a refl refl
deliver_tx-Stands sv (some (sender, tx)) curve a = elim (update_tx-cases sv sender tx a) [
  | inl e ↦ rw e (Stands-same curve a a refl refl)
  | inr (k, _, e) ↦ rw e (update_by_type-Stands sv k sender tx curve a)
]

-- The state and the info have keys of their own.
prefix-ne-saved :
    (key curve : Text)
    → (state_key ≢ prefix_key_mapping key curve) × (app_info_key ≢ prefix_key_mapping key curve)
unfolding prefix_key_mapping
prefix-ne-saved key curve = (λ e. ground arith, λ e. ground arith)

set_or_log_other :
    (sv : Services) (key q : Text) (v : Entry) (db : Db)
    → key ≢ q
    → lookup q (set_or_log sv key v db) ≡ lookup q db
set_or_log_other sv key q v db ne = elim (Bool-cases (sv.write_fails key)) [
  | inl e ↦ rw e
  | inr e ↦ rw e (lookup-insert_ne key q v db ne)
]

commit-Stands :
    (sv : Services) (hash : State → Text) (curve : Text) (a : Abci)
    → Stands curve a (commit sv hash a).0
unfolding commit save_state
commit-Stands sv hash curve a = record {
  grows = omega arith;
  kept = λ i h.
      let q = prefix_key_mapping (text_of 16 i) curve in
      let (ns, ni) = prefix-ne-saved (text_of 16 i) curve in
      set_or_log_other sv app_info_key q _ _ ni ∙ set_or_log_other sv state_key q _ a.db ns;
}

on_event-Stands :
    (sv : Services) (e : Event) (curve : Text) (a : Abci) → Stands curve a (on_event sv e a)
unfolding on_event
on_event-Stands sv (Event.begin time) curve a = begin_block-Stands curve time a
on_event-Stands sv (Event.deliver tx) curve a = deliver_tx-Stands sv tx curve a
on_event-Stands sv (Event.close hash) curve a = commit-Stands sv hash curve a

run_chain-Stands :
    (es : List (Services × Event)) (curve : Text) (a : Abci) → Stands curve a (run_chain es a)
unfolding run_chain
run_chain-Stands [] curve a = Stands-same curve a a refl refl
run_chain-Stands ((sv, e) ∷ es) curve a =
    Stands-trans curve a (on_event sv e a) _ (on_event-Stands sv e curve a)
      (run_chain-Stands es curve (on_event sv e a))

-- Whatever blocks follow, and whatever fails in them, the counter of unassigned keys of a curve does
-- not fall, and the stored owner of a key below it stays what it is.
pub owners_stand :
    (es : List (Services × Event)) (curve : Text) (a : Abci) (i : ℕ)
    → i < (counters_of a.state curve).last_unassigned_index
    → (i < (counters_of (run_chain es a).state curve).last_unassigned_index)
      × (lookup (prefix_key_mapping (text_of 16 i) curve) (run_chain es a).db
          ≡ lookup (prefix_key_mapping (text_of 16 i) curve) a.db)
owners_stand es curve a i h =
    let s = run_chain-Stands es curve a in (omega (arith, s.grows), s.kept i h)

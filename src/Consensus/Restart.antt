-- ===== src/Consensus/Restart.antt =====
-- The application after a restart, and the check of a transaction before it enters a block.
use mathlib.Core.Path.{subst}
use adkg.Base.{ℕ, ◌+◌, ◌≡◌, refl, sym, ap, ◌∙◌, false, Option, none, some, text_eq, inl, inr, arith}
use adkg.Base.Maps.{lookup, insert, lookup-insert_ne, lookup-insert_self}
use adkg.Rounds.{Text}
use adkg.Consensus.{State, AppInfo, Db, Entry, Abci, Services, Tx, PubKeygenMessage}
use adkg.Consensus.Assignment.{on_assignment}
use adkg.Consensus.Votes.{
  Code, code_of, update_by_type, update_tx-cases, validate_tx, validate_vote, check_tx, deliver_tx,
  on_pub_keygen, add_vote,
}
use adkg.Consensus.Blocks.{
  commit, save_state, load_state, new_abci, set_or_log, state_key, app_info_key, without_time,
}

state_saved :
    (v w : Entry) (db : Db)
    → (lookup state_key (insert app_info_key w (insert state_key v db)) ≡ some v)
      × (lookup app_info_key (insert app_info_key w (insert state_key v db)) ≡ some w)
state_saved v w db = (
  lookup-insert_ne app_info_key state_key w (insert state_key v db) (λ e. ground arith)
      ∙ lookup-insert_self state_key v db,
  lookup-insert_self app_info_key w (insert state_key v db),
)

new_abci_loads :
    (sv : Services) (db : Db) (s : State) (i : AppInfo)
    → sv.read_fails state_key ≡ false
    → sv.read_fails app_info_key ≡ false
    → lookup state_key db ≡ some (Entry.saved_state s)
    → lookup app_info_key db ≡ some (Entry.saved_info i)
    → new_abci sv db ≡ some (record { db = db; state = s; prev_state = s; info = i })
unfolding new_abci load_state
new_abci_loads sv db s i rs ri found known = ground arith

set_or_log_writes :
    (sv : Services) (key : Text) (v : Entry) (db : Db)
    → sv.write_fails key ≡ false
    → set_or_log sv key v db ≡ insert key v db
set_or_log_writes sv key v db w = ground arith

-- A node that stops after a commit, whose writes did not fail, and starts again on the same database
-- has the state of the commit, for its current and its last block, without the block's time, and
-- the height and the hash that the commit made.
pub restart :
    (sv then_sv : Services) (hash : State → Text) (a : Abci)
    → sv.write_fails state_key ≡ false
    → sv.write_fails app_info_key ≡ false
    → then_sv.read_fails state_key ≡ false
    → then_sv.read_fails app_info_key ≡ false
    → let (b, h) = commit sv hash a in
      new_abci then_sv b.db
      ≡ some (record {
        db = b.db;
        state = record a.state { block_time = 0 };
        prev_state = record a.state { block_time = 0 };
        info = record {
          height = a.info.height + 1;
          app_hash = hash (record a.state { block_time = 0 });
        };
      })
unfolding commit save_state
restart sv then_sv hash a ws wi rs ri =
    let h = hash (without_time a.state) in
    let info : AppInfo = record { height = a.info.height + 1; app_hash = h } in
    let (found, known) =
      state_saved (Entry.saved_state (without_time a.state)) (Entry.saved_info info) a.db in
    let first = set_or_log_writes sv state_key (Entry.saved_state (without_time a.state)) a.db ws in
    let second = set_or_log_writes sv app_info_key (Entry.saved_info info) _ wi in
    let db = ap (set_or_log sv app_info_key (Entry.saved_info info)) first ∙ second in
    subst
      (λ (d : Db).
        new_abci then_sv d
        ≡ some (record {
          db = d;
          state = without_time a.state;
          prev_state = without_time a.state;
          info = info;
        }))
      (sym db) (new_abci_loads then_sv _ (without_time a.state) info rs ri found known)

validate_vote_refuses :
    (sv : Services) (k sender : ℕ) (m : PubKeygenMessage) (a : Abci)
    → code_of (validate_vote sv sender m a.state) ≡ Code.code_unauthorized
    → code_of (on_pub_keygen sv k sender m a).1 ≡ Code.code_unauthorized
unfolding validate_vote on_pub_keygen add_vote
validate_vote_refuses sv k sender m a h = ground arith

-- The same for each type of transaction
validate_tx_refuses :
    (sv : Services) (k sender : ℕ) (tx : Tx) (a : Abci)
    → code_of (validate_tx sv sender tx a.state a) ≡ Code.code_unauthorized
    → code_of (update_by_type sv k sender tx a).1 ≡ Code.code_unauthorized
unfolding validate_tx update_by_type on_assignment
validate_tx_refuses sv k sender (Tx.assignment (some tx)) a h = ground arith
validate_tx_refuses sv k sender (Tx.assignment none) a h = refl
validate_tx_refuses sv k sender Tx.undecoded_message a h = refl
validate_tx_refuses sv k sender Tx.other_type a h = refl
validate_tx_refuses sv k sender (Tx.dkg_message method none) a h = ground arith
validate_tx_refuses sv k sender (Tx.dkg_message method (some m)) a h =
    ground (arith, validate_vote_refuses sv k sender m a)

-- The check looks at the last block's state for an assignment only, where it is given it.
validate_vote_only :
    (sv : Services) (sender : ℕ) (tx : Tx) (a : Abci)
    → validate_tx sv sender tx a.state (record a { prev_state = a.state })
      ≡ validate_tx sv sender tx a.state a
unfolding validate_tx
validate_vote_only sv sender (Tx.assignment (some tx)) a = refl
validate_vote_only sv sender (Tx.assignment none) a = refl
validate_vote_only sv sender Tx.undecoded_message a = refl
validate_vote_only sv sender Tx.other_type a = refl
validate_vote_only sv sender (Tx.dkg_message method body) a = refl

-- A transaction that the check refuses against the current state is refused at its delivery.
pub check_tx-deliver_tx :
    (sv : Services) (auth : Option (ℕ × Tx)) (a : Abci)
    → check_tx sv auth (record a { prev_state = a.state }) ≡ Code.code_unauthorized
    → (deliver_tx sv auth a).1 ≡ Code.code_unauthorized
unfolding check_tx deliver_tx
check_tx-deliver_tx sv none a h = refl
check_tx-deliver_tx sv (some (sender, tx)) a h = elim (update_tx-cases sv sender tx a) [
  | inl e ↦ ground arith
  | inr (k, _, e) ↦
      ground (arith, validate_vote_only sv sender tx a, validate_tx_refuses sv k sender tx a)
]

-- ===== src/Consensus/Run.antt =====
-- tendermint/abci.go: the application over a chain of blocks, each event with what the other services
-- answer at that time. `EndBlock` and `CheckTx` leave the application as it is.
use adkg.Base.{ℕ, Option, List, [], ◌∷◌}
use adkg.Rounds.{Text}
use adkg.Consensus.{State, Abci, Services, Tx}
use adkg.Consensus.Votes.{deliver_tx}
use adkg.Consensus.Blocks.{begin_block, commit}

pub data Event : Type 0 where
  begin : (time : ℕ) → Event
  deliver : Option (ℕ × Tx) → Event
  close : (hash : State → Text) → Event

unfoldable pub on_event : Services → Event → Abci → Abci
on_event sv (Event.begin time) a = begin_block time a
on_event sv (Event.deliver tx) a = (deliver_tx sv tx a).0
on_event sv (Event.close hash) a = (commit sv hash a).0

unfoldable pub run_chain : List (Services × Event) → Abci → Abci
run_chain [] a = a
run_chain ((sv, e) ∷ es) a = run_chain es (on_event sv e a)

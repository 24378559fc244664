-- ===== src/Consensus/Blocks.antt =====
-- tendermint/abci.go: the start and the end of a block, its commit, and the start of the application on
-- what the database holds. What goes out at the end of a block are requests to the key generation of
-- the node, each a round and a curve.
use adkg.Base.{
  ℕ, zero, suc, ◌+◌, ◌-◌, ◌/◌, Option, none, some, List, [], ◌∷◌, ◌++◌, text_eq, ltb, if◌then◌else◌,
  codes,
}
use adkg.Base.Maps.{lookup, insert}
use adkg.Rounds.{Text, secp256k1, ed25519, new_adkg_id, generate_adkg_id, create_round}
use adkg.Consensus.{Counters, State, AppInfo, Db, Entry, Abci, Services, new_state}

-- `BeginBlock`
unfoldable pub begin_block : (time : ℕ) → Abci → Abci
begin_block time a = record a {
  state = record a.state { block_time = time; new_key_assignments = [] };
}

abbrev pub acss_word : Text
acss_word = codes "acss"

-- A share message to the node itself, by its round and its curve
pub record ShareRequest : Type 0 where
  pub round : Text
  pub curve : Text

-- `for i := start; i < end; i++`, with the rounds of the loop
unfoldable pub start_keygens :
    (name : ℕ → Text) → (curve : Text) → (self_index : ℕ) → (rounds i : ℕ) → List ShareRequest
start_keygens name curve self zero i = []
start_keygens name curve self (suc left) i =
    record { round = create_round (name i) self acss_word; curve = curve }
    ∷ start_keygens name curve self left (i + 1)

-- `MinOf`, of two numbers
abbrev pub min_of : ℕ → ℕ → ℕ
min_of a b = if ltb b a then b else a

abbrev pub max_key_init : (buffer : ℕ) → ℕ
max_key_init buffer = if ltb 500 buffer then buffer / 500 else 100

-- The part of `EndBlock` for one curve: the indices from the last created one on, as many as the limit
-- and the buffer allow
unfoldable pub fill_buffer :
    (name : ℕ → Text)
    → (curve : Text) → (self_index limit buffer : ℕ) → Counters
    → List ShareRequest
unfolding start_keygens
fill_buffer name curve self limit buffer c =
    if ltb c.last_created_index (c.last_unassigned_index + buffer)
    then (let end_index =
          min_of (c.last_created_index + limit) (c.last_unassigned_index + buffer) in
        start_keygens name curve self (end_index - c.last_created_index) c.last_created_index)
    else []

-- `EndBlock`, for the key buffer and the index of the node that the chain service gives
unfoldable pub end_block : (buffer self_index : ℕ) → Abci → List ShareRequest
unfolding fill_buffer
end_block buffer self a =
    fill_buffer generate_adkg_id secp256k1 self (max_key_init buffer) buffer a.state.secp_state
    ++ fill_buffer (λ j. new_adkg_id j ed25519) ed25519 self (max_key_init buffer / 10)
        (buffer / 10) a.state.c25519_state

abbrev pub state_key : Text
state_key = codes "sk"

abbrev pub app_info_key : Text
app_info_key = codes "ai"

-- `db.Set` where an error is only logged
abbrev pub set_or_log : Services → Text → Entry → Db → Db
set_or_log sv key v db = if sv.write_fails key then db else insert key v db

-- What is left of the state when it is written and read: `BlockTime` is not.
abbrev pub without_time : State → State
without_time s = record s { block_time = 0 }

-- `SaveState`
unfoldable pub save_state : Services → Abci → Abci
save_state sv a =
    let db1 = set_or_log sv state_key (Entry.saved_state (without_time a.state)) a.db in
    record a { db = set_or_log sv app_info_key (Entry.saved_info a.info) db1 }

-- `Commit`, with the hash of the encoded state, which it returns too
unfoldable pub commit : Services → (hash : State → Text) → Abci → Abci × Text
unfolding save_state
commit sv hash a =
    let h = hash (without_time a.state) in
    let info : AppInfo = record { height = a.info.height + 1; app_hash = h } in
    let a1 = save_state sv (record a { info = info }) in
    (record a1 { prev_state = without_time a.state }, h)

abbrev pub no_info : AppInfo
no_info = record { height = 0; app_hash = [] }

-- `LoadState`, an error of the database being read as nothing: the state, if there is one, with the
-- info; `none` is the panic on a state without a readable info.
as_state : Option Entry → Option State
as_state (some (Entry.saved_state s)) = some s
as_state _ = none

as_info : Option Entry → Option AppInfo
as_info (some (Entry.saved_info i)) = some i
as_info _ = none

unfoldable pub load_state : Services → Db → Option (Option (State × AppInfo))
unfolding as_state as_info
load_state sv db =
    let found : Option Entry = if sv.read_fails state_key then none else lookup state_key db in
    let info : Option Entry = if sv.read_fails app_info_key then none else lookup app_info_key db in
    elim (as_state found) [
      | none ↦ some none
      | some s ↦ elim (as_info info) [ none ↦ none | some i ↦ some (some (s, i)) ]
    ]

-- `NewABCI` on an opened database
unfoldable pub new_abci : Services → Db → Option Abci
unfolding load_state
new_abci sv db = elim (load_state sv db) [
  | none ↦ none
  | some none ↦ some (record { db = db; state = new_state; prev_state = new_state; info = no_info })
  | some (some (s, i)) ↦ some (record { db = db; state = s; prev_state = s; info = i })
]

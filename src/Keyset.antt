-- ===== src/Keyset.antt =====
-- keygen/message_handlers/keyset: the reliable broadcast of each node's keyset. Echo and ready messages
-- go to the round's store in `KeygenStore`, a proposal and an output to the session of the key
-- generation in `SessionStore`. `none` is a panic.
pub mod Proposals
pub mod Examples
use Prim.Native.Nat.{bit_and}
use adkg.Base.{
  ℕ, zero, suc, ℤ, pos, true, false, ◌&&◌, not, Option, none, some, List, [], ◌∷◌, ◌++◌, nat_beq,
  if◌then◌else◌, int_beq, int_eq, get_elem?,
}
use adkg.Base.Maps
use adkg.Messages.{Text, Share, Message, Effect, broadcast, send, receive}
use adkg.Runtime.{Runtime}
use adkg.Bitset.{predicate, int_to_byte_value, byte_to_int_value}
use adkg.Rounds.{leader, adkg_id_from_round_id}
use adkg.Session.{Session, default_adkg_session, contains_int}
use adkg.Stores.{StoreMap, with_store, try_store}
use adkg.Rbc.{SharingStore, default_keygen, on_echo, on_ready}
use adkg.Acss.{encode}
use adkg.Aba.{new_init_message}

-- `NewProposeMessage`, `NewEchoMessage`, `NewReadyMessage` and `NewOutputMessage`
abbrev pub new_propose_message : Text → Text → Text → Message
new_propose_message id d curve = Message.keyset_propose id curve d

abbrev pub new_echo_message : Text → Share → Text → Text → Message
new_echo_message id s hash curve = Message.keyset_echo id curve s hash

abbrev pub new_ready_message : Text → Share → Text → Text → Message
new_ready_message id s hash curve = Message.keyset_ready id curve s hash

abbrev pub new_output_message : Text → Text → Text → Message
new_output_message id body curve = Message.keyset_output id curve body

-- `InitMessage.Process`
unfoldable pub process_init :
    Runtime → (sender : ℕ) → (round curve : Text) → (body : Text) → List Effect
process_init rt sender round curve body =
    if nat_beq sender rt.self then broadcast (new_propose_message round body curve) ∷ [] else []

-- `EchoMessage.Process`
unfoldable pub process_echo :
    Runtime
    → (sender : ℕ) → (round curve : Text) → (share : Share) → (hash : Text) → StoreMap SharingStore
    → StoreMap SharingStore × List Effect
process_echo rt sender round curve share hash m =
    with_store m round (default_keygen round)
      (on_echo rt (λ s h. new_ready_message round s h curve) sender share hash)

-- `ReadyMessage.Process`
unfoldable pub process_ready :
    Runtime
    → (sender : ℕ) → (round curve : Text) → (share : Share) → (hash : Text) → StoreMap SharingStore
    → StoreMap SharingStore × List Effect
process_ready rt sender round curve share hash m = with_store m round (default_keygen round) (
    on_ready rt (λ s h. new_ready_message round s h curve) (λ d. new_output_message round d curve)
      sender share hash)

-- `shares[node.Index-1]`; `none` is the panic on an index out of range.
unfoldable pub share_of_node : List Share → (node : ℕ) → Option Share
share_of_node shares zero = none
share_of_node shares (suc i) = get_elem? shares i

-- The loop over `Nodes()`: to each node the share of its index; `none` is a panic.
unfoldable pub send_shares : List ℕ → List Share → (Share → Message) → Option (List Effect)
unfolding share_of_node
send_shares [] shares new_echo = some []
send_shares (node ∷ nodes) shares new_echo =
    let rest = send_shares nodes shares new_echo in
    elim (share_of_node shares node) [
      | none ↦ none
      | some s ↦ elim rest [ none ↦ none | some out ↦ some (send node (new_echo s) ∷ out) ]
    ]

-- `OnKeysetVerified`
unfoldable pub on_keyset_verified :
    Runtime → (round curve keyset : Text) → (dealer : ℤ) → Session → Option (Session × List Effect)
unfolding send_shares
on_keyset_verified rt round curve keyset dealer ss =
    let stored : Option Session =
      if int_beq dealer (pos rt.self) then some ss else elim (byte_to_int_value keyset) [
        | none ↦ none
        | some body ↦ some (record ss { keysets = Maps.insert dealer body ss.keysets })
      ] in
    elim stored [
      | none ↦ none
      | some ss1 ↦ elim (encode rt keyset) [
        | none ↦ some (ss1, [])
        | some shares ↦
            let new_echo = λ (s : Share). new_echo_message round s (rt.sha256 keyset) curve in
            elim (send_shares rt.nodes shares new_echo) [
              | none ↦ none
              | some out ↦ some (ss1, out)
            ]
      ]
    ]

-- A proposal under the lock of the session: echoed if it holds only dealers whose sharing has ended
-- here, and kept for later otherwise
unfoldable pub on_propose :
    Runtime → (sender : ℕ) → (round curve body : Text) → Session → Option (Session × List Effect)
unfolding on_keyset_verified
on_propose rt sender round curve body ss = elim (predicate (int_to_byte_value ss.own_keyset) body) [
  | none ↦ none
  | some true ↦ on_keyset_verified rt round curve body (pos sender) ss
  | some false ↦ elim (byte_to_int_value body) [
    | none ↦ none
    | some v ↦ some (record ss { proposals = Maps.insert (pos sender) v ss.proposals }, [])
  ]
]

-- `ProposeMessage.Process`
unfoldable pub process_propose :
    Runtime
    → (sender : ℕ) → (round curve body : Text) → StoreMap Session
    → Option (StoreMap Session × List Effect)
unfolding on_propose
process_propose rt sender round curve body m = elim (leader round) [
  | none ↦ some (m, [])
  | some dealer ↦
      if int_beq dealer (pos sender)
      then elim (adkg_id_from_round_id round) [
        | none ↦ some (m, [])
        | some id ↦ try_store m id default_adkg_session (on_propose rt sender round curve body)
      ]
      else some (m, [])
]

-- An output under the lock of the session: the first for its dealer starts the agreement on it, with
-- a vote of 1 if the keyset holds only dealers whose sharing has ended here and no agreement has ended
-- in 1 yet.
unfoldable pub on_output :
    (dealer : ℤ) → (round curve m : Text) → Session → Option (Session × List Effect)
on_output dealer round curve m ss =
    if contains_int ss.aba_started dealer then some (ss, []) else elim (byte_to_int_value m) [
      | none ↦ none
      | some a ↦
          let vote = if nat_beq (bit_and ss.own_keyset a) a && not ss.aba_complete then 1 else 0 in
          some (
            record ss { aba_started = ss.aba_started ++ dealer ∷ [] },
            receive (new_init_message round vote 0 curve) ∷ [],
          )
    ]

-- `OutputMessage.Process`
unfoldable pub process_output :
    Runtime
    → (sender : ℕ) → (round curve m : Text) → StoreMap Session
    → Option (StoreMap Session × List Effect)
unfolding on_output
process_output rt sender round curve m sessions =
    if nat_beq sender rt.self
    then elim (adkg_id_from_round_id round) [
      | none ↦ some (sessions, [])
      | some id ↦ elim (leader round) [
        | none ↦ some (sessions, [])
        | some dealer ↦ try_store sessions id default_adkg_session (on_output dealer round curve m)
      ]
    ]
    else some (sessions, [])

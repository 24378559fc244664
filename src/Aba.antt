-- ===== src/Aba.antt =====
-- keygen/message_handlers/aba: the binary agreement on one proposal, once a handler has the store of
-- its round and the lock. `n`, `f` are those of `Params`; a message is its round, its curve and the
-- numbers V and R, which are not negative here.
pub mod Examples
pub mod State
pub mod Decision
pub mod Process
pub mod Laws
pub mod Run
pub mod Frames
pub mod Tally
pub mod Quorums
pub mod Silent
pub mod Once
pub mod Uniform
pub mod Counter
pub mod Outcome
use adkg.Base.{
  ℕ, ◌+◌, ◌-◌, ◌*◌, Bool, true, false, ◌&&◌, not, Option, none, some, List, [], ◌∷◌, ◌++◌, leb,
  nat_beq, if◌then◌else◌, length, contains, get_elem?,
}
use adkg.Messages.{Text, Message, Effect, broadcast}
use adkg.Aba.State.{
  AbaState, Values, Sends, Bins, values, set_values, sent, set_sent, get_bin, set_bin, get_started,
  set_started,
}

-- `NewInitMessage`, `NewEst1Message`, `NewAux1Message`, `NewAuxsetMessage`, `NewEst2Message` and
-- `NewAux2Message`, in the order of their arguments
abbrev pub new_init_message : Text → ℕ → ℕ → Text → Message
new_init_message id v r curve = Message.aba_init id curve v r

abbrev pub new_est1_message : Text → ℕ → ℕ → Text → Message
new_est1_message id v r curve = Message.aba_est1 id curve v r

abbrev pub new_aux1_message : Text → ℕ → ℕ → Text → Message
new_aux1_message id v r curve = Message.aba_aux1 id curve v r

abbrev pub new_auxset_message : Text → ℕ → ℕ → Text → Message
new_auxset_message id v r curve = Message.aba_auxset id curve v r

abbrev pub new_est2_message : Text → ℕ → ℕ → Text → Message
new_est2_message id v r curve = Message.aba_est2 id curve v r

abbrev pub new_aux2_message : Text → ℕ → ℕ → Text → Message
new_aux2_message id v r curve = Message.aba_aux2 id curve v r

-- What a handler does to the store of its round
abbrev pub Action : Type 0 → Type 0
Action Point = AbaState Point → AbaState Point × List Effect

module _ {Point : Type 0} where
  -- `InitMessage.Process`, from a node to itself
  unfoldable pub on_init : (round curve : Text) → (v r : ℕ) → Action Point
  on_init round curve v r s =
      if get_started r s then (s, []) else if sent Sends.est r v s then (set_started r s, []) else (
        set_sent Sends.est r v (set_started r s),
        broadcast (new_est1_message round v r curve) ∷ [],
      )

  -- The first value of the bin, announced; a panic on an empty slice does nothing here.
  unfoldable pub announce_bin : Bins → ℕ → (ℕ → Message) → AbaState Point → List Effect
  announce_bin b r new_aux s = elim (get_elem? (get_bin b r s) 0) [
    | none ↦ []
    | some w ↦ broadcast (new_aux w) ∷ []
  ]

  -- The two halves of the estimate handlers, behind the count: the relay of a value that `f + 1` nodes
  -- sent, and the entry into the bin of one that `2f + 1` nodes sent.
  unfoldable pub relay : (f : ℕ) → Values → Sends → (new_est : Message) → (v r : ℕ) → Action Point
  relay f kind flag new_est v r s =
      if leb (f + 1) (length (values kind r v s)) && not (sent flag r v s)
      then (set_sent flag r v s, broadcast new_est ∷ [])
      else (s, [])

  unfoldable pub fill_bin :
      (f : ℕ) → Values → Bins → (new_aux : ℕ → Message) → (v r : ℕ) → Action Point
  unfolding announce_bin
  fill_bin f kind b new_aux v r s =
      if nat_beq (length (values kind r v s)) (2 * f + 1)
      then (set_bin b r v s, announce_bin b r new_aux (set_bin b r v s))
      else (s, [])

  -- What the two estimate handlers share
  unfoldable pub on_est :
      (f : ℕ)
      → Values
      → Sends
      → Bins
      → (new_est : Message) → (new_aux : ℕ → Message) → (sender v r : ℕ) → Action Point
  unfolding relay fill_bin
  on_est f kind flag b new_est new_aux sender v r s =
      if contains (values kind r v s) sender
      then (s, [])
      else (let (s1, out1) = relay f kind flag new_est v r (set_values kind r v sender s) in
          let (s2, out2) = fill_bin f kind b new_aux v r s1 in (s2, out1 ++ out2))

  -- `Est1Message.Process` and `Est2Message.Process`
  unfoldable pub on_est1 : (f sender : ℕ) → (round curve : Text) → (v r : ℕ) → Action Point
  on_est1 f sender round curve v r =
      on_est f Values.est Sends.est Bins.bin (new_est1_message round v r curve)
        (λ w. new_aux1_message round w r curve) sender v r

  unfoldable pub on_est2 : (f sender : ℕ) → (round curve : Text) → (v r : ℕ) → Action Point
  on_est2 f sender round curve v r =
      on_est f Values.est2 Sends.est2 Bins.bin2 (new_est2_message round v r curve)
        (λ w. new_aux2_message round w r curve) sender v r

  -- The branches of `Aux1Message.Process` that set `auxsetVal`; `none` is `!shouldSendAuxset`.
  unfoldable pub auxset_value : (n f r : ℕ) → AbaState Point → Option ℕ
  auxset_value n f r s =
      let bin = get_bin Bins.bin r s in
      let aux0_len = length (values Values.aux r 0 s) in
      let aux1_len = length (values Values.aux r 1 s) in
      if contains bin 1 && leb (n - f) aux1_len
      then some 1
      else if contains bin 0 && leb (n - f) aux0_len
      then some 0
      else if leb (n - f) (aux0_len + aux1_len) && (contains bin 1 && contains bin 0)
      then some 2
      else none

  -- The branches of `AuxsetMessage.Process` that set `est2`
  unfoldable pub est2_value : (n f r : ℕ) → AbaState Point → Option ℕ
  est2_value n f r s =
      let bin = get_bin Bins.bin r s in
      let len0 = length (values Values.auxset r 0 s) in
      let len1 = length (values Values.auxset r 1 s) in
      let len2 = length (values Values.auxset r 2 s) in
      if contains bin 1 && leb (n - f) len1
      then some 1
      else if contains bin 0 && leb (n - f) len0
      then some 0
      else if leb (n - f) (len0 + len1 + len2) && (contains bin 0 && contains bin 1)
      then some 2
      else none

  -- The broadcast of a chosen value, unless the flag says that it was sent
  unfoldable pub send_chosen :
      Sends → (new_message : ℕ → Message) → (r : ℕ) → Option ℕ → Action Point
  send_chosen flag new_message r none s = (s, [])
  send_chosen flag new_message r (some w) s =
      if sent flag r w s then (s, []) else (set_sent flag r w s, broadcast (new_message w) ∷ [])

  -- `Aux1Message.Process`
  unfoldable pub on_aux1 : (n f sender : ℕ) → (round curve : Text) → (v r : ℕ) → Action Point
  unfolding auxset_value send_chosen
  on_aux1 n f sender round curve v r s =
      if contains (values Values.aux r v s) sender
      then (s, [])
      else (let s1 = set_values Values.aux r v sender s in
          send_chosen Sends.auxset (λ w. new_auxset_message round w r curve) r
            (auxset_value n f r s1) s1)

  -- `AuxsetMessage.Process`
  unfoldable pub on_auxset : (n f sender : ℕ) → (round curve : Text) → (v r : ℕ) → Action Point
  unfolding est2_value send_chosen
  on_auxset n f sender round curve v r s =
      if contains (values Values.auxset r v s) sender
      then (s, [])
      else (let s1 = set_values Values.auxset r v sender s in
          send_chosen Sends.est2 (λ w. new_est2_message round w r curve) r (est2_value n f r s1) s1)

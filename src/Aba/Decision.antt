-- ===== src/Aba/Decision.antt =====
-- keygen/message_handlers/aba/aux2_handler.go: how an agreement ends, and what a decision changes in
-- the session of its key generation.
use adkg.Base.{
  ℕ, zero, suc, ◌+◌, ◌-◌, ℤ, pos, true, ◌&&◌, not, Option, none, some, List, [], ◌∷◌, ◌++◌, leb,
  nat_beq, if◌then◌else◌, length, contains, int_eq, codes,
}
use adkg.Base.Maps
use adkg.Messages.{Text, Message, Effect, receive}
use adkg.Rounds.{create_round, from_id, adkg_id_from_round_id, itoa}
use adkg.Session.{Session, contains_int, default_adkg_session}
use adkg.Stores.{StoreMap, with_store}
use adkg.Aba.{new_init_message}
use adkg.Aba.State.{AbaState, Values, Bins, values, set_values, get_bin, get_round}

abbrev pub keyset_kind : Text
keyset_kind = codes "keyset"

-- `NewCoinInitMessage` of aba and `NewInitMessage` of keyderivation
abbrev pub new_coin_init_message : Text → Text → Text → Message
new_coin_init_message id coin_id curve = Message.aba_coin_init id curve coin_id

abbrev pub new_key_derivation_init_message : Text → Text → Message
new_key_derivation_init_message id curve = Message.key_derivation_init id curve

-- `for i := 1; i <= n; i++`, from `i` with `left` rounds left: a vote of 0 in each agreement that this
-- node has not started
unfoldable pub start_others : List ℤ → (id curve : Text) → (left i : ℕ) → List Effect
start_others started id curve zero i = []
start_others started id curve (suc left) i =
    let rest = start_others started id curve left (i + 1) in
    if contains_int started (pos i)
    then rest
    else receive (new_init_message (create_round id i keyset_kind) 0 0 curve) ∷ rest

-- The first decision for 1 makes the node vote 0 in all that it has not started.
unfoldable pub note_one :
    (n : ℕ) → (round curve : Text) → (w : ℕ) → Session → Option (Session × List Effect)
unfolding start_others
note_one n round curve w ss =
    if nat_beq w 1 && not ss.aba_complete
    then elim (adkg_id_from_round_id round) [
      | none ↦ none
      | some id ↦ some (record ss { aba_complete = true }, start_others ss.aba_started id curve n 1)
    ]
    else some (ss, [])

-- With a decision in all `n` agreements, the key derivation starts.
unfoldable pub start_key_derivation :
    (n : ℕ) → (round curve : Text) → Session → Session × List Effect
start_key_derivation n round curve ss =
    if nat_beq n (length ss.decisions) && not ss.key_derivation_started
    then (
      record ss { key_derivation_started = true },
      receive (new_key_derivation_init_message round curve) ∷ [],
    )
    else (ss, [])

-- The end of an agreement at `w`, under the lock of the session
unfoldable pub decide :
    (n : ℕ) → (round curve : Text) → (dealer : ℤ) → (w : ℕ) → Session → Session × List Effect
unfolding note_one start_key_derivation
decide n round curve dealer w ss = elim (Maps.lookup dealer ss.decisions) [
  | some _ ↦ (ss, [])
  | none ↦
      let decided = record ss { decisions = Maps.insert dealer w ss.decisions } in
      elim (note_one n round curve w decided) [
        | none ↦ (record decided { aba_complete = true }, [])
        | some (ss1, out1) ↦
            let (ss2, out2) = start_key_derivation n round curve ss1 in (ss2, out1 ++ out2)
      ]
]

module _ {Point : Type 0} where
  -- The branches of `Aux2Message.Process` that fill `values2`
  unfoldable pub values2 : (n f r : ℕ) → AbaState Point → List ℕ
  values2 n f r s =
      let bin2 = get_bin Bins.bin2 r s in
      let len0 = length (values Values.aux2 r 0 s) in
      let len1 = length (values Values.aux2 r 1 s) in
      let len2 = length (values Values.aux2 r 2 s) in
      if contains bin2 1 && leb (n - f) len1
      then 1 ∷ []
      else if contains bin2 0 && leb (n - f) len0
      then 0 ∷ []
      else if contains bin2 2 && leb (n - f) len2
      then 2 ∷ []
      else if leb (n - f) (len2 + len0) && (contains bin2 0 && contains bin2 2)
      then 0 ∷ 2 ∷ []
      else if leb (n - f) (len2 + len1) && (contains bin2 1 && contains bin2 2)
      then 1 ∷ 2 ∷ []
      else []

  -- What `Aux2Message.Process` does with `values2`: one value is the outcome, or 2 for a coin; of two,
  -- the first is the estimate of the next round.
  unfoldable pub conclude :
      (n : ℕ)
      → (round curve : Text) → (r : ℕ) → AbaState Point
      → List ℕ
      → StoreMap Session
      → StoreMap Session × List Effect
  unfolding decide
  conclude n round curve r s [] sessions = (sessions, [])
  conclude n round curve r s (w ∷ []) sessions =
      if nat_beq w 2
      then (sessions, receive (new_coin_init_message round (round ++ itoa r) curve) ∷ [])
      else elim (from_id round) [
        | none ↦ (sessions, [])
        | some d ↦
            with_store sessions d.adkg_id default_adkg_session (decide n round curve d.dealer w)
      ]
  conclude n round curve r s (w ∷ _ ∷ _) sessions =
      (sessions, receive (new_init_message round w (get_round s + 1) curve) ∷ [])

  -- `Aux2Message.Process`, under the lock of the agreement's store
  unfoldable pub on_aux2 :
      (n f sender : ℕ)
      → (round curve : Text) → (v r : ℕ) → AbaState Point
      → StoreMap Session
      → AbaState Point × StoreMap Session × List Effect
  unfolding values2 conclude
  on_aux2 n f sender round curve v r s sessions =
      if contains (values Values.aux2 r v s) sender
      then (s, sessions, [])
      else (let s1 = set_values Values.aux2 r v sender s in
          let (sessions1, out) = conclude n round curve r s1 (values2 n f r s1) sessions in
          (s1, sessions1, out))

-- ===== src/Rbc.antt =====
-- The reliable broadcast that keygen/message_handlers/acss and keygen/message_handlers/keyset share:
-- the store of a round (`SharingStore` in common/adkg_common.go) and what an echo and a ready message
-- do to it. The handlers of the two packages are Acss and Keyset.
pub mod Examples
pub mod Invariant
pub mod Quorum
pub mod Once
pub mod Settled
pub mod Output
pub mod Delivery
use adkg.Base.{
  ℕ, zero, suc, ◌+◌, ◌-◌, ◌*◌, ◌%◌, ◌/◌, Bool, true, false, ◌&&◌, not, Option, none, some, List, [],
  ◌∷◌, ◌++◌, leb, nat_beq, if◌then◌else◌, ◌==◌, text_eq, nat_eq, length, Map, ltb,
}
use adkg.Base.Maps
use adkg.Messages.{Text, Share, Message, Effect, broadcast, receive}
use adkg.Runtime.{Runtime, EchoStore}
use adkg.Pkcs7
use adkg.Pkcs7.{pkcs7_unpad}

pub data Phase : Type 0 where
  initial started proposing ended : Phase

pub record RbcState : Type 0 where
  pub phase : Phase
  pub received_echo : Map ℕ Bool
  pub received_ready : Map ℕ Bool
  pub ready_sent : Bool

pub record SharingStore : Type 0 where
  pub round_id : Text
  pub state : RbcState
  pub echo_store : Map Text EchoStore
  pub ready_store : List Share
  pub started : Bool

-- `defaultKeygen` of each handler
abbrev pub default_keygen : Text → SharingStore
default_keygen round = record {
  round_id = round;
  state = record { phase = initial; received_echo = []; received_ready = []; ready_sent = false };
  echo_store = [];
  ready_store = [];
  started = false;
}

-- `hex.EncodeToString`
hex_digit : ℕ → ℕ
hex_digit d = if ltb d 10 then b'0' + d else b'a' + (d - 10)

hex : Text → Text
unfolding hex_digit
hex [] = []
hex (b ∷ s) = hex_digit (b / 16) ∷ hex_digit (b % 16) ∷ hex s

abbrev pub delimiter2 : ℕ
delimiter2 = 0x1d

-- `Fingerprint` of an echo message
unfoldable pub fingerprint : Runtime → Share → Text → Text
unfolding hex
fingerprint rt share hash = hex (
    rt.keccak256 (
      hash
      ++ (delimiter2 ∷ (share.payload ++ (delimiter2 ∷ share.number % 256 ∷ delimiter2 ∷ [])))))

-- The first entry on the walk whose count reaches the threshold
first_at_least : ℕ → Map Text EchoStore → Option EchoStore
first_at_least threshold [] = none
first_at_least threshold ((id, v) ∷ m) =
    let rest = first_at_least threshold m in if leb threshold v.count then some v else rest

-- `FindThresholdEchoStore`
unfoldable pub find_threshold_echo_store : Runtime → SharingStore → ℕ → Option EchoStore
unfolding first_at_least
find_threshold_echo_store rt s threshold = first_at_least threshold (rt.walk s.echo_store)

-- `GetEchoStore`
unfoldable pub get_echo_store : Map Text EchoStore → Text → Share → Text → EchoStore
get_echo_store m id share hash = elim (Maps.lookup id m) [
  | none ↦ record { share = share; hash = hash; count = 0 }
  | some e ↦ e
]

-- `received, found := m[sender]; received && found`
abbrev pub received : Map ℕ Bool → ℕ → Bool
received m sender = elim (Maps.lookup sender m) [ none ↦ false | some b ↦ b ]

unfoldable pub set_ready_sent : SharingStore → SharingStore
set_ready_sent s = record s { state = record (s.state) { ready_sent = true } }

-- The amplification step of both handlers: with `f + 1` ready messages, a share that `f + 1` nodes
-- echoed is announced.
unfoldable pub amplify :
    Runtime → (Share → Text → Message) → SharingStore → SharingStore × List Effect
unfolding set_ready_sent find_threshold_echo_store
amplify rt new_ready s =
    if leb (rt.f + 1) (length s.ready_store) && not s.state.ready_sent
    then elim (find_threshold_echo_store rt s (rt.f + 1)) [
      | none ↦ (s, [])
      | some e ↦ (set_ready_sent s, broadcast (new_ready e.share e.hash) ∷ [])
    ]
    else (s, [])

-- The echo is recorded and counted under its fingerprint.
unfoldable pub record_echo : Runtime → ℕ → Share → Text → SharingStore → SharingStore × EchoStore
unfolding fingerprint get_echo_store
record_echo rt sender share hash s =
    let cid = fingerprint rt share hash in
    let found = get_echo_store s.echo_store cid share hash in
    let counted : EchoStore = record found { count = found.count + 1 } in
    (
      record s {
        state = record (s.state) { received_echo = Maps.insert sender true s.state.received_echo };
        echo_store = Maps.insert cid counted s.echo_store;
      },
      counted,
    )

-- `2f + 1` echoes of one share announce it.
unfoldable pub announce :
    Runtime → (Share → Text → Message) → SharingStore → EchoStore → SharingStore × List Effect
unfolding set_ready_sent
announce rt new_ready s e =
    if leb (2 * rt.f + 1) e.count && not s.state.ready_sent
    then (set_ready_sent s, broadcast (new_ready e.share e.hash) ∷ [])
    else (s, [])

-- `EchoMessage.Process`, once it has the store and its lock
unfoldable pub on_echo :
    Runtime
    → (Share → Text → Message)
    → ℕ
    → Share
    → Text
    → SharingStore
    → SharingStore × List Effect
on_echo rt new_ready sender share hash s =
    if received s.state.received_echo sender
    then (s, [])
    else (let (s1, e) = record_echo rt sender share hash s in
        let (s2, out1) = announce rt new_ready s1 e in
        let (s3, out2) = amplify rt new_ready s2 in (s3, out1 ++ out2))

-- `acss.Decode`: the message of the ready shares, without its padding, and the slice as it was left
unfoldable pub decode_ready : Runtime → SharingStore → SharingStore × Option Text
decode_ready rt s =
    let (shares, result) = rt.decode (rt.f + 1) rt.n s.ready_store in
    (
      record s { ready_store = shares },
      elim result [
        | none ↦ none
        | some m ↦ elim (pkcs7_unpad m (rt.f + 1)) [ Pkcs7.ok b ↦ some b | Pkcs7.err _ ↦ none ]
      ],
    )

unfoldable pub set_ended : SharingStore → SharingStore
set_ended s = record s { state = record (s.state) { phase = ended } }

-- `for i := 0; i <= f; i += 1 { … }`, with `rounds` rounds left
unfoldable pub output_loop :
    Runtime → (Text → Message) → Text → ℕ → ℕ → SharingStore → SharingStore × List Effect
unfolding set_ended
output_loop rt new_output hash zero i s = (s, [])
output_loop rt new_output hash (suc rounds) i s =
    let (s1, decoded) = decode_ready rt s in
    let skip = output_loop rt new_output hash rounds (i + 1) s in
    let next = output_loop rt new_output hash rounds (i + 1) s1 in
    if leb (2 * rt.f + 1 + i) (length s.ready_store)
    then elim decoded [
      | none ↦ (s1, [])
      | some m ↦ if rt.sha256 m == hash then (set_ended s1, receive (new_output m) ∷ []) else next
    ]
    else skip

pub is_ended : Phase → Bool
is_ended ended = true
is_ended initial = false
is_ended started = false
is_ended proposing = false

unfoldable pub record_ready : ℕ → Share → SharingStore → SharingStore
record_ready sender share s = record s {
  state = record (s.state) { received_ready = Maps.insert sender true s.state.received_ready };
  ready_store = s.ready_store ++ share ∷ [];
}

-- `ReadyMessage.Process`, once it has the store and its lock
unfoldable pub on_ready :
    Runtime
    → (Share → Text → Message)
    → (Text → Message)
    → ℕ
    → Share
    → Text
    → SharingStore
    → SharingStore × List Effect
unfolding is_ended
on_ready rt new_ready new_output sender share hash s =
    if received s.state.received_ready sender
    then (s, [])
    else (let (s1, out1) = amplify rt new_ready (record_ready sender share s) in
        let (s2, out2) = output_loop rt new_output hash (rt.f + 1) 0 s1 in
        if is_ended s1.state.phase then (s1, out1) else (s2, out1 ++ out2))

-- What arrives for one round, in the order in which the handlers take the lock
pub data Input : Type 0 where
  echo ready : (sender : ℕ) → (share : Share) → (hash : Text) → Input

pub step :
    Runtime
    → (Share → Text → Message)
    → (Text → Message)
    → SharingStore
    → Input
    → SharingStore × List Effect
step rt new_ready new_output s (echo sender share hash) = on_echo rt new_ready sender share hash s
step rt new_ready new_output s (ready sender share hash) =
    on_ready rt new_ready new_output sender share hash s

pub run :
    Runtime
    → (Share → Text → Message)
    → (Text → Message)
    → SharingStore
    → List Input
    → SharingStore × List Effect
run rt new_ready new_output s [] = (s, [])
run rt new_ready new_output s (i ∷ inputs) =
    let (s1, out1) = step rt new_ready new_output s i in
    let (s2, out2) = run rt new_ready new_output s1 inputs in (s2, out1 ++ out2)

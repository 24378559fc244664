-- ===== src/Node/Dispatch.antt =====
-- keygen/keygen_node.go: which handler gets a message, by the text of its method.
use adkg.Base.{
  ◌≡◌, refl, sym, ◌↔◌, Bool, true, false, Option, none, some, List, [], ◌∷◌, codes, nat_beq,
  text_eq, ◌==◌, if◌then◌else◌, Bool-cases, Option-cases, inl, inr,
}
use mathlib.Core.Path.{subst}
use adkg.Messages.{Text}

-- The handlers, each with its struct and its `Process`
pub data Kind : Type 0 where
  acss_share acss_propose acss_echo acss_ready acss_output : Kind
  keyset_init keyset_propose keyset_echo keyset_ready keyset_output : Kind
  aba_init aba_est1 aba_aux1 aba_auxset aba_est2 aba_aux2 aba_coin_init aba_coin : Kind
  key_derivation_init key_derivation_share : Kind

-- The variables `…MessageType` of keygen/message_handlers
abbrev pub message_type : Kind → Text
message_type Kind.acss_share = codes "acss_share"
message_type Kind.acss_propose = codes "acss_propose"
message_type Kind.acss_echo = codes "acss_echo"
message_type Kind.acss_ready = codes "acss_ready"
message_type Kind.acss_output = codes "acss_output"
message_type Kind.keyset_init = codes "keyset_init"
message_type Kind.keyset_propose = codes "keyset_propose"
message_type Kind.keyset_echo = codes "keyset_echo"
message_type Kind.keyset_ready = codes "keyset_ready"
message_type Kind.keyset_output = codes "keyset_output"
message_type Kind.aba_init = codes "aba_init"
message_type Kind.aba_est1 = codes "aba_est1"
message_type Kind.aba_aux1 = codes "aba_aux1"
message_type Kind.aba_auxset = codes "aba_auxset"
message_type Kind.aba_est2 = codes "aba_est2"
message_type Kind.aba_aux2 = codes "aba_aux2"
message_type Kind.aba_coin_init = codes "aba_coin_init"
message_type Kind.aba_coin = codes "aba_coin"
message_type Kind.key_derivation_init = codes "key_derivation_init"
message_type Kind.key_derivation_share = codes "key_derivation_pk_share"

-- `strings.HasPrefix(method, prefix)`
unfoldable pub has_prefix : (method prefix : Text) → Bool
has_prefix method [] = true
has_prefix [] (c ∷ prefix) = false
has_prefix (b ∷ method) (c ∷ prefix) =
    let rest = has_prefix method prefix in if nat_beq b c then rest else false

-- What becomes of a message: `Process` of a handler runs on the struct, or nothing does, or
-- `ProcessMessage` returns an error.
pub data Dispatched (Body : Type 0) : Type 0 where
  processed : Kind → Body → Dispatched Body
  ignored not_found : Dispatched Body

-- The cases of the four switches
abbrev acss_kinds : List Kind
acss_kinds =
    Kind.acss_share ∷ Kind.acss_propose ∷ Kind.acss_echo ∷ Kind.acss_ready ∷ Kind.acss_output ∷ []

abbrev keyset_kinds : List Kind
keyset_kinds =
    Kind.keyset_init ∷ Kind.keyset_propose ∷ Kind.keyset_echo ∷ Kind.keyset_ready
    ∷ Kind.keyset_output ∷ []

abbrev aba_kinds : List Kind
aba_kinds =
    Kind.aba_init ∷ Kind.aba_est1 ∷ Kind.aba_aux1 ∷ Kind.aba_auxset ∷ Kind.aba_est2 ∷ Kind.aba_aux2
    ∷ Kind.aba_coin_init ∷ Kind.aba_coin ∷ []

abbrev key_derivation_kinds : List Kind
key_derivation_kinds = Kind.key_derivation_init ∷ Kind.key_derivation_share ∷ []

module _ {Body : Type 0} (unmarshal : Kind → Text → Option Body) where
  -- One case of a switch
  unfoldable pub handle : Kind → (body : Text) → Dispatched Body
  handle kind body = elim (unmarshal kind body) [ none ↦ ignored | some m ↦ processed kind m ]

  -- The switch over the cases in their order
  unfoldable pub switch : List Kind → (method body : Text) → Dispatched Body
  unfolding handle
  switch [] method body = ignored
  switch (kind ∷ kinds) method body =
      let rest = switch kinds method body in
      if method == message_type kind then handle kind body else rest

  unfoldable pub process_acss_messages : (method body : Text) → Dispatched Body
  unfolding switch
  process_acss_messages = switch acss_kinds

  unfoldable pub process_keyset_messages : (method body : Text) → Dispatched Body
  unfolding switch
  process_keyset_messages = switch keyset_kinds

  unfoldable pub process_aba_messages : (method body : Text) → Dispatched Body
  unfolding switch
  process_aba_messages = switch aba_kinds

  unfoldable pub process_key_derivation_messages : (method body : Text) → Dispatched Body
  unfolding switch
  process_key_derivation_messages = switch key_derivation_kinds

  -- `ProcessMessage`
  unfoldable pub process_message : (method body : Text) → Dispatched Body
  unfolding process_acss_messages process_keyset_messages process_aba_messages
      process_key_derivation_messages
  process_message method body =
      if has_prefix method (codes "acss")
      then process_acss_messages method body
      else if has_prefix method (codes "keyset")
      then process_keyset_messages method body
      else if has_prefix method (codes "aba")
      then process_aba_messages method body
      else if has_prefix method (codes "key_derivation")
      then process_key_derivation_messages method body
      else not_found

  -- Only the handler of a method runs, on the struct that is read from the body.
  Runs : Text → Text → Dispatched Body → Type 0
  Runs method body (processed kind m) =
      (method ≡ message_type kind) × (unmarshal kind body ≡ some m)
  Runs method body ignored = Unit {0}
  Runs method body not_found = Unit {0}

  switch-Runs :
      (kinds : List Kind) (method body : Text) → Runs method body (switch kinds method body)
  unfolding switch Runs handle
  switch-Runs [] method body = tt
  switch-Runs (kind ∷ kinds) method body = elim (Bool-cases (method == message_type kind)) [
    | inr other ↦ rw (switch, other) (switch-Runs kinds method body)
    | inl named ↦ elim (Option-cases (unmarshal kind body)) [
      | inl unread ↦ rw (switch, named, handle, unread) tt
      | inr (m, e) ↦
          let ran : switch (kind ∷ kinds) method body ≡ processed kind m =
            rw (switch, named, handle, e) refl in
          subst (Runs method body) (sym ran)
            ((text_eq.beq_iff method (message_type kind)).0 named, e)
    ]
  ]

  process_message-Runs : (method body : Text) → Runs method body (process_message method body)
  unfolding process_message process_acss_messages process_keyset_messages process_aba_messages
      process_key_derivation_messages Runs
  process_message-Runs method body = elim (Bool-cases (has_prefix method (codes "acss"))) [
    | inl p ↦ rw (process_message, p) (switch-Runs acss_kinds method body)
    | inr p ↦ elim (Bool-cases (has_prefix method (codes "keyset"))) [
      | inl q ↦ rw (process_message, p, q) (switch-Runs keyset_kinds method body)
      | inr q ↦ elim (Bool-cases (has_prefix method (codes "aba"))) [
        | inl r ↦ rw (process_message, p, q, r) (switch-Runs aba_kinds method body)
        | inr r ↦ elim (Bool-cases (has_prefix method (codes "key_derivation"))) [
          | inl s ↦ rw (process_message, p, q, r, s) (switch-Runs key_derivation_kinds method body)
          | inr s ↦ rw (process_message, p, q, r, s) tt
        ]
      ]
    ]
  ]

  -- Each method reaches its handler.
  process_message-message_type :
      (kind : Kind) (body : Text) → process_message (message_type kind) body ≡ handle kind body
  unfolding process_message has_prefix
  process_message-message_type Kind.acss_share body = refl
  process_message-message_type Kind.acss_propose body = refl
  process_message-message_type Kind.acss_echo body = refl
  process_message-message_type Kind.acss_ready body = refl
  process_message-message_type Kind.acss_output body = refl
  process_message-message_type Kind.keyset_init body = refl
  process_message-message_type Kind.keyset_propose body = refl
  process_message-message_type Kind.keyset_echo body = refl
  process_message-message_type Kind.keyset_ready body = refl
  process_message-message_type Kind.keyset_output body = refl
  process_message-message_type Kind.aba_init body = refl
  process_message-message_type Kind.aba_est1 body = refl
  process_message-message_type Kind.aba_aux1 body = refl
  process_message-message_type Kind.aba_auxset body = refl
  process_message-message_type Kind.aba_est2 body = refl
  process_message-message_type Kind.aba_aux2 body = refl
  process_message-message_type Kind.aba_coin_init body = refl
  process_message-message_type Kind.aba_coin body = refl
  process_message-message_type Kind.key_derivation_init body = refl
  process_message-message_type Kind.key_derivation_share body = refl

-- However the bodies of messages are read: a handler processes a message exactly when the method is its
-- own and the body can be read as its struct, and it gets what was read.
pub processed_by_own :
    {Body : Type 0} (unmarshal : Kind → Text → Option Body) (method body : Text) (kind : Kind)
    (m : Body)
    → (process_message unmarshal method body ≡ processed kind m)
      ↔ ((method ≡ message_type kind) × (unmarshal kind body ≡ some m))
unfolding Runs handle
processed_by_own unmarshal method body kind m = (
  λ e. subst (Runs unmarshal method body) e (process_message-Runs unmarshal method body),
  λ (named, e). rw (named, process_message-message_type unmarshal kind body, handle, e) refl,
)

-- ===== src/Acss.antt =====
-- keygen/message_handlers/acss: the messages of the reliable broadcast of a dealer's sharing, and the
-- echo and ready handlers with the lookup of the round's store in `KeygenStore`.
pub mod Transfer
pub mod Examples
use adkg.Base.{ℕ, Option, none, List}
use adkg.Messages.{Text, Share, Message, Effect}
use adkg.Runtime.{Runtime}
use adkg.Stores.{StoreMap, with_store}
use adkg.Rbc.{SharingStore, default_keygen, on_echo, on_ready}
use adkg.Pkcs7
use adkg.Pkcs7.{pkcs7_pad}

-- `NewAcssEchoMessage`, `NewReadyMessage` and `NewOutputMessage`
abbrev pub new_acss_echo_message : Text → Share → Text → Text → Message
new_acss_echo_message id s hash curve = Message.acss_echo id curve s hash

abbrev pub new_ready_message : Text → Share → Text → Text → Message
new_ready_message id s hash curve = Message.acss_ready id curve s hash

abbrev pub new_output_message : Text → Text → Text → Message
new_output_message id body curve = Message.acss_output id curve body

-- `EchoMessage.Process`
unfoldable pub process_echo :
    Runtime
    → (sender : ℕ) → (round curve : Text) → (share : Share) → (hash : Text) → StoreMap SharingStore
    → StoreMap SharingStore × List Effect
process_echo rt sender round curve share hash m =
    with_store m round (default_keygen round)
      (on_echo rt (λ s h. new_ready_message round s h curve) sender share hash)

-- `ReadyMessage.Process`
unfoldable pub process_ready :
    Runtime
    → (sender : ℕ) → (round curve : Text) → (share : Share) → (hash : Text) → StoreMap SharingStore
    → StoreMap SharingStore × List Effect
process_ready rt sender round curve share hash m = with_store m round (default_keygen round) (
    on_ready rt (λ s h. new_ready_message round s h curve) (λ d. new_output_message round d curve)
      sender share hash)

-- `Encode` of keygen/common/acss/acss.go, behind `NewFEC(k, n)`
unfoldable pub encode : Runtime → Text → Option (List Share)
encode rt msg = elim (pkcs7_pad msg rt.k) [
  | Pkcs7.err _ ↦ none
  | Pkcs7.ok padded ↦ rt.encode rt.k rt.n padded
]

-- ===== src/Messages.antt =====
-- The messages of the key generation (the `…Message` structs of keygen/message_handlers) and what a
-- handler does with one: each constructor stands for a struct, its `Kind` and its fields. Encoding as
-- JSON does not fail for these structs, so the error branches behind the `New…Message` functions are
-- not reached.
use adkg.Base.{ℕ, List}

abbrev pub Text : Type 0
Text = List ℕ

-- `infectious.Share`
pub record Share : Type 0 where
  pub number : ℕ
  pub payload : Text

pub data Message : Type 0 where
  acss_propose : (round curve body : Text) → Message
  acss_echo acss_ready : (round curve : Text) → (share : Share) → (hash : Text) → Message
  acss_output : (round curve m : Text) → Message
  keyset_init keyset_propose : (round curve body : Text) → Message
  keyset_echo keyset_ready : (round curve : Text) → (share : Share) → (hash : Text) → Message
  keyset_output : (round curve m : Text) → Message
  aba_init aba_est1 aba_aux1 aba_auxset aba_est2 aba_aux2 :
      (round curve : Text) → (v r : ℕ) → Message
  aba_coin_init : (round curve coin_id : Text) → Message
  aba_coin : (round curve body : Text) → Message
  key_derivation_init : (round curve : Text) → Message
  key_derivation_share : (round curve share r s : Text) → Message

-- `self.Broadcast(m)`, `self.Send(node, m)` and `self.ReceiveMessage(self.Details(), m)`, with or
-- without `go` in front.
pub data Effect : Type 0 where
  broadcast : Message → Effect
  send : (node : ℕ) → Message → Effect
  receive : Message → Effect

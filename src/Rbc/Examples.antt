-- ===== src/Rbc/Examples.antt =====
-- A round with four nodes, of which one may fail.
use mathlib.Core.List.Perm
use adkg.Base.{
  ℕ, ◌+◌, ◌*◌, ◌≤◌, ◌≡◌, refl, ◌⊎◌, inl, inr, Bool, true, false, Option, none, some, List, [], ◌∷◌,
  ◌++◌, arith, All, length, text_eq,
}
use adkg.Base.Maps.{lookup}
use adkg.Messages.{Text, Share, Message, receive}
use adkg.Runtime.{Runtime, EchoStore, IsLawful}
use adkg.Acss.{new_ready_message, new_output_message}
use adkg.Rbc.{
  SharingStore, Input, echo, default_keygen, run, step, on_echo, on_ready, record_echo,
  record_ready, announce, amplify, decode_ready, is_ended, fingerprint, get_echo_store,
  find_threshold_echo_store, set_ready_sent,
}
use adkg.Rbc.Invariant.{IsFrom}
use adkg.Rbc.Quorum.{quorum_unique}
use adkg.Rbc.Once.{broadcasts, receives, flag, announces_once}
use adkg.Rbc.Settled.{announces_when_due}
use adkg.Rbc.Output.{IsSound, on_ready-IsSound}
use adkg.Rbc.Delivery.{on_ready_delivers}

-- A runtime whose hashes are the identity and whose code always finds the message 9
abbrev tiny : Runtime
tiny = record {
  n = 4;
  k = 2;
  f = 1;
  self = 1;
  nodes = 1 ∷ 2 ∷ 3 ∷ 4 ∷ [];
  keccak256 = λ t. t;
  sha256 = λ t. t;
  encode = λ k n t. none;
  decode = λ k n s. (s, some (9 ∷ 1 ∷ []));
  walk = λ m. m;
}

tiny-IsLawful : IsLawful tiny
tiny-IsLawful = record { decode_length = λ k n s. refl; walk_perm = λ m. Perm.refl m }

abbrev share : Share
share = record { number = 0; payload = 5 ∷ [] }

abbrev hash : Text
hash = 9 ∷ []

abbrev round : Text
round = 1 ∷ []

abbrev new_ready : Share → Text → Message
new_ready s h = new_ready_message round s h []

abbrev new_output : Text → Message
new_output m = new_output_message round m []

abbrev echoes : List Input
echoes = echo 1 share hash ∷ echo 2 share hash ∷ echo 3 share hash ∷ []

echoes-IsFrom : All (IsFrom 4) echoes
echoes-IsFrom = omega arith

abbrev counted : EchoStore
counted = record { share = share; hash = hash; count = 3 }

three_echoes :
    lookup
      (fingerprint tiny share hash)
      (run tiny new_ready new_output (default_keygen round) echoes).0.echo_store
    ≡ some counted
unfolding run step on_echo record_echo announce amplify fingerprint get_echo_store lookup
    adkg.Base.Maps.insert set_ready_sent find_threshold_echo_store
three_echoes = refl

quorum_unique_example : fingerprint tiny share hash ≡ fingerprint tiny share hash
quorum_unique_example =
    quorum_unique 4 tiny new_ready new_output round echoes (fingerprint tiny share hash)
      (fingerprint tiny share hash) counted counted tiny-IsLawful (omega arith) echoes-IsFrom
      three_echoes three_echoes (omega arith) (omega arith)

announces_once_example :
    let r = run tiny new_ready new_output (default_keygen round) echoes in
    (broadcasts r.1 ≡ flag r.0.state.ready_sent) × (receives r.1 ≡ flag (is_ended r.0.state.phase))
announces_once_example = announces_once tiny new_ready new_output round echoes

announces_when_due_example :
    (run tiny new_ready new_output (default_keygen round) echoes).0.state.ready_sent ≡ true
announces_when_due_example =
    announces_when_due tiny new_ready new_output round echoes (fingerprint tiny share hash) counted
      tiny-IsLawful three_echoes (inl (omega arith))

on_ready-IsSound_example :
    let r = on_ready tiny new_ready new_output 1 share hash (default_keygen round) in
    All (IsSound tiny new_ready new_output hash r.0.echo_store) r.1
on_ready-IsSound_example =
    on_ready-IsSound tiny new_ready new_output 1 share hash (default_keygen round) tiny-IsLawful

-- A store that has two ready messages, so that the next one completes three
abbrev two_ready : SharingStore
two_ready = record (default_keygen round) { ready_store = share ∷ share ∷ [] }

decoded : (decode_ready tiny (record_ready 3 share two_ready)).1 ≡ some hash
unfolding decode_ready record_ready adkg.Pkcs7.pkcs7_unpad
decoded = refl

on_ready_delivers_example :
    let r = on_ready tiny new_ready new_output 3 share hash two_ready in
    (is_ended r.0.state.phase ≡ true)
    × (r.1
        ≡ (amplify tiny new_ready (record_ready 3 share two_ready)).1
          ++ receive (new_output hash) ∷ [])
unfolding lookup is_ended
on_ready_delivers_example =
    on_ready_delivers tiny new_ready new_output 3 share hash hash two_ready refl refl (omega arith)
      decoded refl

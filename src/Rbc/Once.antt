-- ===== src/Rbc/Once.antt =====
-- A node announces ready once for a round, and passes on one output.
use adkg.Base.{
  ℕ, zero, suc, ◌+◌, ◌≡◌, Bool, true, false, List, [], ◌∷◌, ◌++◌, arith, Bool-cases, inl, inr,
}
use adkg.Messages.{Text, Share, Message, Effect, broadcast, send, receive}
use adkg.Runtime.{Runtime, EchoStore}
use adkg.Rbc.{
  SharingStore, default_keygen, received, record_echo, announce, amplify, on_echo, record_ready,
  decode_ready, output_loop, is_ended, on_ready, Input, echo, ready, step, run,
}

abbrev pub broadcasts : List Effect → ℕ
broadcasts [] = 0
broadcasts (broadcast m ∷ out) = broadcasts out + 1
broadcasts (send node m ∷ out) = broadcasts out
broadcasts (receive m ∷ out) = broadcasts out

abbrev pub receives : List Effect → ℕ
receives [] = 0
receives (broadcast m ∷ out) = receives out
receives (send node m ∷ out) = receives out
receives (receive m ∷ out) = receives out + 1

broadcasts-append : (xs ys : List Effect) → broadcasts (xs ++ ys) ≡ broadcasts xs + broadcasts ys
broadcasts-append [] ys = omega arith
broadcasts-append (broadcast m ∷ xs) ys = omega (arith, broadcasts-append xs ys)
broadcasts-append (send node m ∷ xs) ys = broadcasts-append xs ys
broadcasts-append (receive m ∷ xs) ys = broadcasts-append xs ys

receives-append : (xs ys : List Effect) → receives (xs ++ ys) ≡ receives xs + receives ys
receives-append [] ys = omega arith
receives-append (broadcast m ∷ xs) ys = receives-append xs ys
receives-append (send node m ∷ xs) ys = receives-append xs ys
receives-append (receive m ∷ xs) ys = omega (arith, receives-append xs ys)

abbrev pub flag : Bool → ℕ
flag true = 1
flag false = 0

-- What a handler did to the two flags of the store is what it put out.
abbrev pub Accounts : SharingStore → SharingStore × List Effect → Type 0
Accounts s r =
    (broadcasts r.1 + flag s.state.ready_sent ≡ flag r.0.state.ready_sent)
    × (receives r.1 + flag (is_ended s.state.phase) ≡ flag (is_ended r.0.state.phase))

Accounts-trans :
    (s t u : SharingStore) (out1 out2 : List Effect)
    → Accounts s (t, out1)
    → Accounts t (u, out2)
    → Accounts s (u, out1 ++ out2)
Accounts-trans s t u out1 out2 p q = (
  omega (arith, broadcasts-append out1 out2, p.0, q.0),
  omega (arith, receives-append out1 out2, p.1, q.1),
)

announce-Accounts :
    (rt : Runtime) (mk : Share → Text → Message) (s : SharingStore) (e : EchoStore)
    → Accounts s (announce rt mk s e)
unfolding announce
announce-Accounts rt mk s e = ground arith

amplify-Accounts :
    (rt : Runtime) (mk : Share → Text → Message) (s : SharingStore) → Accounts s (amplify rt mk s)
unfolding amplify
amplify-Accounts rt mk s = ground arith

output_loop-Accounts :
    (rt : Runtime) (mk : Text → Message) (hash : Text) (rounds i : ℕ) (s : SharingStore)
    → is_ended s.state.phase ≡ false
    → Accounts s (output_loop rt mk hash rounds i s)
unfolding output_loop decode_ready is_ended
output_loop-Accounts rt mk hash zero i s h = (omega arith)
output_loop-Accounts rt mk hash (suc rounds) i s h = ground (
  arith,
  output_loop-Accounts rt mk hash rounds (i + 1) s h,
  output_loop-Accounts rt mk hash rounds (i + 1) (decode_ready rt s).0 h,
)

module _ (rt : Runtime) (new_ready : Share → Text → Message) (new_output : Text → Message) where
  on_echo-Accounts :
      (sender : ℕ) (share : Share) (hash : Text) (s : SharingStore)
      → Accounts s (on_echo rt new_ready sender share hash s)
  unfolding on_echo record_echo
  on_echo-Accounts sender share hash s = elim (Bool-cases (received s.state.received_echo sender)) [
    | inl old ↦ rw old (omega arith)
    | inr new ↦
        let (s1, e) = record_echo rt sender share hash s in
        let r2 = announce rt new_ready s1 e in
        let r3 = amplify rt new_ready r2.0 in
        rw new (
          Accounts-trans s1 r2.0 r3.0 r2.1 r3.1 (announce-Accounts rt new_ready s1 e)
            (amplify-Accounts rt new_ready r2.0))
  ]

  on_ready-Accounts :
      (sender : ℕ) (share : Share) (hash : Text) (s : SharingStore)
      → Accounts s (on_ready rt new_ready new_output sender share hash s)
  unfolding on_ready record_ready
  on_ready-Accounts sender share hash s =
      elim (Bool-cases (received s.state.received_ready sender)) [
        | inl old ↦ rw old (omega arith)
        | inr new ↦
            let r1 = amplify rt new_ready (record_ready sender share s) in
            let a1 = amplify-Accounts rt new_ready (record_ready sender share s) in
            let r2 = output_loop rt new_output hash (rt.f + 1) 0 r1.0 in
            rw new (elim (Bool-cases (is_ended r1.0.state.phase)) [
              | inl done ↦ rw done a1
              | inr running ↦ rw running (
                  Accounts-trans s r1.0 r2.0 r1.1 r2.1 a1
                    (output_loop-Accounts rt new_output hash (rt.f + 1) 0 r1.0 running))
            ])
      ]

  step-Accounts : (s : SharingStore) (i : Input) → Accounts s (step rt new_ready new_output s i)
  unfolding step
  step-Accounts s (echo sender share hash) = on_echo-Accounts sender share hash s
  step-Accounts s (ready sender share hash) = on_ready-Accounts sender share hash s

  run-Accounts :
      (s : SharingStore) (inputs : List Input) → Accounts s (run rt new_ready new_output s inputs)
  unfolding run
  run-Accounts s [] = (omega arith)
  run-Accounts s (i ∷ inputs) =
      let r1 = step rt new_ready new_output s i in
      let r2 = run rt new_ready new_output r1.0 inputs in
      Accounts-trans s r1.0 r2.0 r1.1 r2.1 (step-Accounts s i) (run-Accounts r1.0 inputs)

  -- Over all the messages of a round, the node broadcasts exactly one ready message if `ReadySent` is
  -- set at the end and none if not, and hands exactly one output to itself if the phase is ended and
  -- none if not.
  pub announces_once :
      (round : Text) (inputs : List Input)
      → let r = run rt new_ready new_output (default_keygen round) inputs in
        (broadcasts r.1 ≡ flag r.0.state.ready_sent)
        × (receives r.1 ≡ flag (is_ended r.0.state.phase))
  unfolding is_ended
  announces_once round inputs =
      let a = run-Accounts (default_keygen round) inputs in (omega (arith, a.0), omega (arith, a.1))

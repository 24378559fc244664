-- ===== src/Rbc/Settled.antt =====
-- Once the thresholds are met, the ready message has gone out.
use mathlib.Core.List.{Mem, mem-cons, not-mem-nil, mem-cons_self, mem-cons_of_mem}
use mathlib.Core.List.Perm
use mathlib.Core.Logic.Or
use native.Mathlib.Bridge.{le_prop}
use adkg.Base.{
  ℕ, zero, suc, ◌+◌, ◌*◌, ◌≤◌, ◌<◌, ◌≡◌, ◌⊎◌, inl, inr, true, none, some, List, [], ◌∷◌, arith, leb,
  length, Map, text_eq, ◌==◌, Bool-cases, Option-cases,
}
use adkg.Base.Maps.{lookup, lookup-insert}
use adkg.Messages.{Text, Share, Message}
use adkg.Runtime.{Runtime, EchoStore, IsLawful}
use adkg.Rbc.{
  SharingStore, default_keygen, received, record_echo, announce, amplify, on_echo, record_ready,
  get_echo_store, fingerprint, find_threshold_echo_store, first_at_least, decode_ready, output_loop,
  on_ready, Input, echo, ready, step, run, is_ended, set_ended,
}

lookup-mem :
    (id : Text) (e : EchoStore) (m : Map Text EchoStore) → lookup id m ≡ some e → Mem (id, e) m
unfolding lookup
lookup-mem id e [] h = cc
lookup-mem id e ((j, v) ∷ m) h = elim (Bool-cases (j == id)) [
  | inl same ↦
      let a : j ≡ id = (text_eq.beq_iff j id).0 same in
      let b : v ≡ e = ground arith in rw (a, b) mem-cons_self
  | inr other ↦ mem-cons_of_mem (j, v) (lookup-mem id e m (ground arith))
]

first_at_least-none :
    (t : ℕ) (m : Map Text EchoStore) (x : Text × EchoStore)
    → first_at_least t m ≡ none
    → Mem x m
    → x.1.count < t
unfolding first_at_least
first_at_least-none t [] x h i = absurd (not-mem-nil i)
first_at_least-none t ((j, v) ∷ m) x h i = elim (Bool-cases (leb t v.count)) [
  | inl enough ↦ ground arith
  | inr few ↦
      Or.elim le_prop (mem-cons.0 i) (λ e. rw e (ground arith))
        (first_at_least-none t m x (ground arith))
]

-- What the search misses has too few echoes, in whatever order it walks.
find-none :
    (rt : Runtime) (s : SharingStore) (t : ℕ) (id : Text) (e : EchoStore)
    → IsLawful rt
    → find_threshold_echo_store rt s t ≡ none
    → lookup id s.echo_store ≡ some e
    → e.count < t
unfolding find_threshold_echo_store
find-none rt s t id e law h l =
    first_at_least-none t (rt.walk s.echo_store) (id, e) h
      ((Perm.mem_iff (law.walk_perm s.echo_store)).1 (lookup-mem id e s.echo_store l))

-- Every fingerprint with `2f + 1` echoes has been announced, and every one with `f + 1` echoes once
-- there are `f + 1` ready messages.
record IsSettled (rt : Runtime) (s : SharingStore) : Type 0 where
  quorum :
      (id : Text) (e : EchoStore)
      → lookup id s.echo_store ≡ some e
      → 2 * rt.f + 1 ≤ e.count
      → s.state.ready_sent ≡ true
  amplified :
      (id : Text) (e : EchoStore)
      → lookup id s.echo_store ≡ some e
      → rt.f + 1 ≤ length s.ready_store
      → rt.f + 1 ≤ e.count
      → s.state.ready_sent ≡ true

-- Only the first half, which the amplification step completes
abbrev HasQuorums : Runtime → SharingStore → Type 0
HasQuorums rt s =
    (id : Text) (e : EchoStore)
    → lookup id s.echo_store ≡ some e
    → 2 * rt.f + 1 ≤ e.count
    → s.state.ready_sent ≡ true

amplify-IsSettled :
    (rt : Runtime) (mk : Share → Text → Message) (s : SharingStore)
    → IsLawful rt
    → HasQuorums rt s
    → IsSettled rt (amplify rt mk s).0
unfolding amplify
amplify-IsSettled rt mk s law q = record {
  quorum = λ id e l h. ground (arith, q id e);
  amplified = λ id e l h g. ground (arith, q id e, find-none rt s (rt.f + 1) id e law);
}

-- The store that was just counted is announced if it has its quorum.
announce-HasQuorums :
    (rt : Runtime) (mk : Share → Text → Message) (sender : ℕ) (share : Share) (hash : Text)
    (s : SharingStore)
    → HasQuorums rt s
    → let r = record_echo rt sender share hash s in HasQuorums rt (announce rt mk r.0 r.1).0
unfolding announce record_echo
announce-HasQuorums rt mk sender share hash s q id e l h =
    let cid = fingerprint rt share hash in
    let found = get_echo_store s.echo_store cid share hash in
    let law = lookup-insert cid id (record found { count = found.count + 1 }) s.echo_store in
    ground (arith, law, q id e)

decode_ready-IsSettled :
    (rt : Runtime) (s : SharingStore)
    → IsLawful rt
    → IsSettled rt s
    → IsSettled rt (decode_ready rt s).0
unfolding decode_ready
decode_ready-IsSettled rt s law c = record {
  quorum = c.quorum;
  amplified =
      λ id e l h g. c.amplified id e l (rw (← law.decode_length (rt.f + 1) rt.n s.ready_store) h) g;
}

set_ended-IsSettled :
    (rt : Runtime) (s : SharingStore) → IsSettled rt s → IsSettled rt (set_ended s)
unfolding set_ended
set_ended-IsSettled rt s c = record { quorum = c.quorum; amplified = c.amplified }

output_loop-IsSettled :
    (rt : Runtime) (mk : Text → Message) (hash : Text) (rounds i : ℕ) (s : SharingStore)
    → IsLawful rt
    → IsSettled rt s
    → IsSettled rt (output_loop rt mk hash rounds i s).0
unfolding output_loop
output_loop-IsSettled rt mk hash zero i s law c = c
output_loop-IsSettled rt mk hash (suc rounds) i s law c =
    let s1 = (decode_ready rt s).0 in
    let c1 = decode_ready-IsSettled rt s law c in
    let next = output_loop-IsSettled rt mk hash rounds (i + 1) s1 law c1 in
    elim (Bool-cases (leb (2 * rt.f + 1 + i) (length s.ready_store))) [
      | inr few ↦ rw few (output_loop-IsSettled rt mk hash rounds (i + 1) s law c)
      | inl enough ↦ rw enough (elim (Option-cases (decode_ready rt s).1) [
        | inl failed ↦ rw failed c1
        | inr (m, decoded) ↦ rw decoded (elim (Bool-cases (rt.sha256 m == hash)) [
          | inl same ↦ rw same (set_ended-IsSettled rt s1 c1)
          | inr other ↦ rw other next
        ])
      ])
    ]

module _ (rt : Runtime) (new_ready : Share → Text → Message) (new_output : Text → Message)
    (law : IsLawful rt) where
  on_echo-IsSettled :
      (sender : ℕ) (share : Share) (hash : Text) (s : SharingStore)
      → IsSettled rt s
      → IsSettled rt (on_echo rt new_ready sender share hash s).0
  unfolding on_echo
  on_echo-IsSettled sender share hash s c =
      elim (Bool-cases (received s.state.received_echo sender)) [
        | inl old ↦ rw old c
        | inr new ↦
            let (s1, e) = record_echo rt sender share hash s in
            rw new (
              amplify-IsSettled rt new_ready (announce rt new_ready s1 e).0 law
                (announce-HasQuorums rt new_ready sender share hash s c.quorum))
      ]

  on_ready-IsSettled :
      (sender : ℕ) (share : Share) (hash : Text) (s : SharingStore)
      → IsSettled rt s
      → IsSettled rt (on_ready rt new_ready new_output sender share hash s).0
  unfolding on_ready record_ready
  on_ready-IsSettled sender share hash s c =
      elim (Bool-cases (received s.state.received_ready sender)) [
        | inl old ↦ rw old c
        | inr new ↦
            let s1 = (amplify rt new_ready (record_ready sender share s)).0 in
            let c1 = amplify-IsSettled rt new_ready (record_ready sender share s) law c.quorum in
            rw new (elim (Bool-cases (is_ended s1.state.phase)) [
              | inl done ↦ rw done c1
              | inr running ↦
                  rw running (output_loop-IsSettled rt new_output hash (rt.f + 1) 0 s1 law c1)
            ])
      ]

  run-IsSettled :
      (s : SharingStore) (inputs : List Input)
      → IsSettled rt s
      → IsSettled rt (run rt new_ready new_output s inputs).0
  unfolding run step
  run-IsSettled s [] c = c
  run-IsSettled s (echo sender share hash ∷ inputs) c =
      run-IsSettled (step rt new_ready new_output s (echo sender share hash)).0 inputs
        (on_echo-IsSettled sender share hash s c)
  run-IsSettled s (ready sender share hash ∷ inputs) c =
      run-IsSettled (step rt new_ready new_output s (ready sender share hash)).0 inputs
        (on_ready-IsSettled sender share hash s c)

default_keygen-IsSettled : (rt : Runtime) (round : Text) → IsSettled rt (default_keygen round)
unfolding lookup
default_keygen-IsSettled rt round = record { quorum = λ id e l h. cc; amplified = λ id e l h g. cc }

-- In a lawful runtime, after any messages in any order: if some fingerprint has `2f + 1` echoes, or has `f + 1` echoes while
-- `f + 1` ready messages have come, then the ready message has been sent, whatever the order in which
-- the map is walked.
pub announces_when_due :
    (rt : Runtime) (new_ready : Share → Text → Message) (new_output : Text → Message) (round : Text)
    (inputs : List Input) (id : Text) (e : EchoStore)
    → IsLawful rt
    → lookup id (run rt new_ready new_output (default_keygen round) inputs).0.echo_store ≡ some e
    → (2 * rt.f + 1 ≤ e.count)
      ⊎ ((rt.f + 1 ≤ e.count)
          × (rt.f + 1
              ≤ length (run rt new_ready new_output (default_keygen round) inputs).0.ready_store))
    → (run rt new_ready new_output (default_keygen round) inputs).0.state.ready_sent ≡ true
announces_when_due rt new_ready new_output round inputs id e law l due =
    let c =
      run-IsSettled rt new_ready new_output law (default_keygen round) inputs
        (default_keygen-IsSettled rt round) in
    elim due [
      | inl quorum ↦ c.quorum id e l quorum
      | inr (echoes, readies) ↦ c.amplified id e l readies echoes
    ]

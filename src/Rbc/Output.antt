-- ===== src/Rbc/Output.antt =====
-- What is announced was echoed by enough nodes, and what is output is what the ready messages named.
use mathlib.Core.List.{Mem, mem-cons_self, mem-cons_of_mem}
use mathlib.Core.List.Perm
use mathlib.Core.Logic.{∥∥₁_map}
use adkg.Base.{
  ℕ, zero, suc, ◌+◌, ◌*◌, ◌≤◌, ◌≡◌, refl, inl, inr, ◌&&◌, not, some, List, [], ◌∷◌, arith, leb,
  length, All, All-append, Map, text_eq, ◌==◌, Bool-cases, Option-cases,
}
use adkg.Base.Maps.{insert}
use adkg.Messages.{Text, Share, Message, Effect, broadcast, send, receive}
use adkg.Runtime.{Runtime, EchoStore, IsLawful}
use adkg.Rbc.{
  SharingStore, received, record_echo, announce, amplify, on_echo, record_ready, fingerprint,
  find_threshold_echo_store, first_at_least, decode_ready, output_loop, on_ready, is_ended,
  set_ended,
}

-- A broadcast message names a share and a hash that at least `t` nodes echoed, by the counts of the map.
abbrev pub IsBacked : (Share → Text → Message) → ℕ → Map Text EchoStore → Effect → Type 0
IsBacked new_ready t m (broadcast msg) = ∥ (
    (id : Text) × (e : EchoStore) × Mem (id, e) m
    × (t ≤ e.count)
    × (msg ≡ new_ready e.share e.hash)) ∥₁
IsBacked new_ready t m (receive msg) = ⊥
IsBacked new_ready t m (send node msg) = ⊥

first_at_least-some :
    (t : ℕ) (m : Map Text EchoStore) (e : EchoStore)
    → first_at_least t m ≡ some e
    → ∥ ((id : Text) × Mem (id, e) m × (t ≤ e.count)) ∥₁
unfolding first_at_least
first_at_least-some t [] e h = cc
first_at_least-some t ((j, v) ∷ m) e h = elim (Bool-cases (leb t v.count)) [
  | inl enough ↦
      let same : v ≡ e = ground arith in rw (← same) (∣ (j, mem-cons_self, ground arith) ∣₁)
  | inr few ↦
      ∥∥₁_map (first_at_least-some t m e (ground arith))
        λ (id, i, c). (id, mem-cons_of_mem (j, v) i, c)
]

mem-insert : (id : Text) (e : EchoStore) (m : Map Text EchoStore) → Mem (id, e) (insert id e m)
unfolding insert
mem-insert id e [] = mem-cons_self
mem-insert id e ((j, v) ∷ m) = elim (Bool-cases (j == id)) [
  | inl same ↦ let a : j ≡ id = (text_eq.beq_iff j id).0 same in rw (same, a) mem-cons_self
  | inr other ↦ rw other (mem-cons_of_mem (j, v) (mem-insert id e m))
]

announce-IsBacked :
    (rt : Runtime) (mk : Share → Text → Message) (s : SharingStore) (id : Text) (e : EchoStore)
    → Mem (id, e) s.echo_store
    → All (IsBacked mk (rt.f + 1) s.echo_store) (announce rt mk s e).1
unfolding announce
announce-IsBacked rt mk s id e i =
    elim (Bool-cases (leb (2 * rt.f + 1) e.count && not s.state.ready_sent)) [
      | inl due ↦ rw due (∣ (id, e, i, ground arith, refl) ∣₁, tt)
      | inr idle ↦ rw idle tt
    ]

amplify-IsBacked :
    (rt : Runtime) (mk : Share → Text → Message) (s : SharingStore)
    → IsLawful rt
    → All (IsBacked mk (rt.f + 1) s.echo_store) (amplify rt mk s).1
unfolding amplify find_threshold_echo_store
amplify-IsBacked rt mk s law =
    elim (Bool-cases (leb (rt.f + 1) (length s.ready_store) && not s.state.ready_sent)) [
      | inr idle ↦ rw idle tt
      | inl due ↦ rw due (elim (Option-cases (first_at_least (rt.f + 1) (rt.walk s.echo_store))) [
        | inl missing ↦ rw missing tt
        | inr (e, found) ↦ rw found (
          ∥∥₁_map (first_at_least-some (rt.f + 1) (rt.walk s.echo_store) e found)
              λ (id, i, c). (id, e, (Perm.mem_iff (law.walk_perm s.echo_store)).0 i, c, refl),
          tt,
        )
      ])
    ]

announce-echo_store :
    (rt : Runtime) (mk : Share → Text → Message) (s : SharingStore) (e : EchoStore)
    → (announce rt mk s e).0.echo_store ≡ s.echo_store
unfolding announce
announce-echo_store rt mk s e = ground arith

amplify-echo_store :
    (rt : Runtime) (mk : Share → Text → Message) (s : SharingStore)
    → (amplify rt mk s).0.echo_store ≡ s.echo_store
unfolding amplify
amplify-echo_store rt mk s = ground arith

-- In a lawful runtime, every ready message that an echo sets off names a share and a hash with at least
-- `f + 1` echoes in the store that the handler leaves.
pub on_echo-IsBacked :
    (rt : Runtime) (new_ready : Share → Text → Message) (sender : ℕ) (share : Share) (hash : Text)
    (s : SharingStore)
    → IsLawful rt
    → let r = on_echo rt new_ready sender share hash s in
      All (IsBacked new_ready (rt.f + 1) r.0.echo_store) r.1
unfolding on_echo record_echo
on_echo-IsBacked rt new_ready sender share hash s law =
    elim (Bool-cases (received s.state.received_echo sender)) [
      | inl old ↦ rw old tt
      | inr new ↦
          let (s1, e) = record_echo rt sender share hash s in
          let r2 = announce rt new_ready s1 e in
          let k2 = announce-echo_store rt new_ready s1 e in
          let k3 = amplify-echo_store rt new_ready r2.0 in
          rw (new, k3)
            (All-append (IsBacked new_ready (rt.f + 1) r2.0.echo_store) r2.1
              (amplify rt new_ready r2.0).1
              (rw k2 (
                announce-IsBacked rt new_ready s1 (fingerprint rt share hash) e
                  (mem-insert (fingerprint rt share hash) e s.echo_store)))
              (amplify-IsBacked rt new_ready r2.0 law))
    ]

-- What the loop hands on hashes to the hash of the ready message.
abbrev pub IsNamed : Runtime → (Text → Message) → Text → Effect → Type 0
IsNamed rt new_output hash (receive m) = (b : Text) × (m ≡ new_output b) × (rt.sha256 b ≡ hash)
IsNamed rt new_output hash (broadcast m) = ⊥
IsNamed rt new_output hash (send node m) = ⊥

output_loop-IsNamed :
    (rt : Runtime) (mk : Text → Message) (hash : Text) (rounds i : ℕ) (s : SharingStore)
    → All (IsNamed rt mk hash) (output_loop rt mk hash rounds i s).1
unfolding output_loop
output_loop-IsNamed rt mk hash zero i s = tt
output_loop-IsNamed rt mk hash (suc rounds) i s =
    let s1 = (decode_ready rt s).0 in
    let next = output_loop-IsNamed rt mk hash rounds (i + 1) s1 in
    elim (Bool-cases (leb (2 * rt.f + 1 + i) (length s.ready_store))) [
      | inr few ↦ rw few (output_loop-IsNamed rt mk hash rounds (i + 1) s)
      | inl enough ↦ rw enough (elim (Option-cases (decode_ready rt s).1) [
        | inl failed ↦ rw failed tt
        | inr (m, decoded) ↦ rw decoded (elim (Bool-cases (rt.sha256 m == hash)) [
          | inl same ↦ rw same ((m, refl, (text_eq.beq_iff (rt.sha256 m) hash).0 same), tt)
          | inr other ↦ rw other next
        ])
      ])
    ]

output_loop-echo_store :
    (rt : Runtime) (mk : Text → Message) (hash : Text) (rounds i : ℕ) (s : SharingStore)
    → (output_loop rt mk hash rounds i s).0.echo_store ≡ s.echo_store
unfolding output_loop decode_ready set_ended
output_loop-echo_store rt mk hash zero i s = refl
output_loop-echo_store rt mk hash (suc rounds) i s = ground (
  arith,
  output_loop-echo_store rt mk hash rounds (i + 1) s,
  output_loop-echo_store rt mk hash rounds (i + 1) (decode_ready rt s).0,
)

-- What a ready message may set off: a ready message that is backed, and outputs that are named.
abbrev pub IsSound :
    Runtime
    → (Share → Text → Message)
    → (Text → Message)
    → Text
    → Map Text EchoStore
    → Effect
    → Type 0
IsSound rt new_ready new_output hash m (broadcast msg) =
    IsBacked new_ready (rt.f + 1) m (broadcast msg)
IsSound rt new_ready new_output hash m (receive msg) = IsNamed rt new_output hash (receive msg)
IsSound rt new_ready new_output hash m (send node msg) = ⊥

module _ (rt : Runtime) (new_ready : Share → Text → Message) (new_output : Text → Message)
    (hash : Text) (m : Map Text EchoStore) where
  IsBacked-IsSound :
      (out : List Effect)
      → All (IsBacked new_ready (rt.f + 1) m) out
      → All (IsSound rt new_ready new_output hash m) out
  IsBacked-IsSound [] h = tt
  IsBacked-IsSound (broadcast msg ∷ out) h = (h.0, IsBacked-IsSound out h.1)
  IsBacked-IsSound (receive msg ∷ out) h = absurd h.0
  IsBacked-IsSound (send node msg ∷ out) h = absurd h.0

  IsNamed-IsSound :
      (out : List Effect)
      → All (IsNamed rt new_output hash) out
      → All (IsSound rt new_ready new_output hash m) out
  IsNamed-IsSound [] h = tt
  IsNamed-IsSound (broadcast msg ∷ out) h = absurd h.0
  IsNamed-IsSound (receive msg ∷ out) h = (h.0, IsNamed-IsSound out h.1)
  IsNamed-IsSound (send node msg ∷ out) h = absurd h.0

-- In a lawful runtime, everything that a ready message sets off is either the node's own ready message,
-- for a share and a hash with at least `f + 1` echoes in the store that the handler leaves, or an output
-- to the node itself, of a message that hashes to the hash of the ready message.
pub on_ready-IsSound :
    (rt : Runtime) (new_ready : Share → Text → Message) (new_output : Text → Message) (sender : ℕ)
    (share : Share) (hash : Text) (s : SharingStore)
    → IsLawful rt
    → let r = on_ready rt new_ready new_output sender share hash s in
      All (IsSound rt new_ready new_output hash r.0.echo_store) r.1
unfolding on_ready record_ready
on_ready-IsSound rt new_ready new_output sender share hash s law =
    elim (Bool-cases (received s.state.received_ready sender)) [
      | inl old ↦ rw old tt
      | inr new ↦
          let s0 = record_ready sender share s in
          let r1 = amplify rt new_ready s0 in
          let k1 = amplify-echo_store rt new_ready s0 in
          let b1 =
            IsBacked-IsSound rt new_ready new_output hash s.echo_store r1.1
              (amplify-IsBacked rt new_ready s0 law) in
          rw new (elim (Bool-cases (is_ended r1.0.state.phase)) [
            | inl done ↦ rw (done, k1) b1
            | inr running ↦
                rw (running, output_loop-echo_store rt new_output hash (rt.f + 1) 0 r1.0, k1)
                  (All-append (IsSound rt new_ready new_output hash s.echo_store) r1.1
                    (output_loop rt new_output hash (rt.f + 1) 0 r1.0).1 b1
                    (IsNamed-IsSound rt new_ready new_output hash s.echo_store
                      (output_loop rt new_output hash (rt.f + 1) 0 r1.0).1
                      (output_loop-IsNamed rt new_output hash (rt.f + 1) 0 r1.0)))
          ])
    ]

-- ===== src/Rbc/Invariant.antt =====
-- What the store of a round counts: one echo and one ready message of each sender.
use adkg.Base.{
  ℕ, zero, suc, ◌+◌, ◌≤◌, ◌<◌, ◌≡◌, refl, Bool, true, false, none, List, [], ◌∷◌, arith, length,
  length-append, All, Map, nat_eq, text_eq, Bool-cases, Option-cases, inl, inr,
}
use adkg.Base.Maps.{lookup, insert}
use adkg.Base.Counts.{
  total, total-insert_new, total-insert_old, length-insert_new, Members, Members-insert,
}
use adkg.Messages.{Text, Share, Message}
use adkg.Runtime.{Runtime, EchoStore, IsLawful}
use adkg.Rbc.{
  SharingStore, default_keygen, received, record_echo, get_echo_store, fingerprint, announce,
  amplify, on_echo, record_ready, decode_ready, output_loop, on_ready, Input, echo, ready, step,
  run,
}

abbrev pub AllTrue : Map ℕ Bool → Type 0
AllTrue = All (λ entry. entry.1 ≡ true)

pub record IsCounted (n : ℕ) (s : SharingStore) : Type 0 where
  pub echoes : total (λ (e : EchoStore). e.count) s.echo_store ≡ length s.state.received_echo
  pub readies : length s.ready_store ≡ length s.state.received_ready
  pub echo_true : AllTrue s.state.received_echo
  pub ready_true : AllTrue s.state.received_ready
  pub echo_members : Members n s.state.received_echo
  pub ready_members : Members n s.state.received_ready

not_received : (m : Map ℕ Bool) (k : ℕ) → AllTrue m → received m k ≡ false → lookup k m ≡ none
unfolding lookup
not_received [] k all h = refl
not_received ((j, b) ∷ m) k all h = ground (arith, not_received m k all.1)

AllTrue-insert : (m : Map ℕ Bool) (k : ℕ) → AllTrue m → AllTrue (insert k true m)
unfolding insert
AllTrue-insert [] k all = (refl, tt)
AllTrue-insert ((j, b) ∷ m) k all = ground (arith, AllTrue-insert m k all.1)

pub default_keygen-IsCounted : (n : ℕ) (round : Text) → IsCounted n (default_keygen round)
unfolding total
default_keygen-IsCounted n round = record {
  echoes = refl;
  readies = refl;
  echo_true = tt;
  ready_true = tt;
  echo_members = tt;
  ready_members = tt;
}

-- The count under the echo's fingerprint grows by one, so the sum does.
total-get_echo_store :
    (m : Map Text EchoStore) (id : Text) (share : Share) (hash : Text) (e : EchoStore)
    → e.count ≡ (get_echo_store m id share hash).count + 1
    → total (λ (e : EchoStore). e.count) (insert id e m) ≡ total (λ (e : EchoStore). e.count) m + 1
unfolding get_echo_store
total-get_echo_store m id share hash e h = elim (Option-cases (lookup id m)) [
  | inl new ↦ ground (arith, total-insert_new (λ (e : EchoStore). e.count) id e m new)
  | inr (u, old) ↦ ground (arith, total-insert_old (λ (e : EchoStore). e.count) id e u m old)
]

record_echo-IsCounted :
    (n : ℕ) (rt : Runtime) (sender : ℕ) (share : Share) (hash : Text) (s : SharingStore)
    → 0 < sender
    → sender ≤ n
    → received s.state.received_echo sender ≡ false
    → IsCounted n s
    → IsCounted n (record_echo rt sender share hash s).0
unfolding record_echo
record_echo-IsCounted n rt sender share hash s p q new c =
    let missing = not_received s.state.received_echo sender c.echo_true new in
    record {
      echoes = omega (
        arith,
        total-get_echo_store s.echo_store (fingerprint rt share hash) share hash
            (record (get_echo_store s.echo_store (fingerprint rt share hash) share hash) {
              count =
                  (get_echo_store s.echo_store (fingerprint rt share hash) share hash).count + 1;
            })
            refl,
        length-insert_new sender true s.state.received_echo missing,
      );
      readies = c.readies;
      echo_true = AllTrue-insert s.state.received_echo sender c.echo_true;
      ready_true = c.ready_true;
      echo_members = Members-insert n sender true s.state.received_echo p q c.echo_members;
      ready_members = c.ready_members;
    }

announce-IsCounted :
    (n : ℕ) (rt : Runtime) (mk : Share → Text → Message) (s : SharingStore) (e : EchoStore)
    → IsCounted n s
    → IsCounted n (announce rt mk s e).0
unfolding announce
announce-IsCounted n rt mk s e c = ground arith

amplify-IsCounted :
    (n : ℕ) (rt : Runtime) (mk : Share → Text → Message) (s : SharingStore)
    → IsCounted n s
    → IsCounted n (amplify rt mk s).0
unfolding amplify
amplify-IsCounted n rt mk s c = ground arith

record_ready-IsCounted :
    (n sender : ℕ) (share : Share) (s : SharingStore)
    → 0 < sender
    → sender ≤ n
    → received s.state.received_ready sender ≡ false
    → IsCounted n s
    → IsCounted n (record_ready sender share s)
unfolding record_ready
record_ready-IsCounted n sender share s p q new c =
    let missing = not_received s.state.received_ready sender c.ready_true new in
    record {
      echoes = c.echoes;
      readies = omega (
        arith,
        c.readies,
        length-append s.ready_store (share ∷ []),
        length-insert_new sender true s.state.received_ready missing,
      );
      echo_true = c.echo_true;
      ready_true = AllTrue-insert s.state.received_ready sender c.ready_true;
      echo_members = c.echo_members;
      ready_members = Members-insert n sender true s.state.received_ready p q c.ready_members;
    }

decode_ready-IsCounted :
    (n : ℕ) (rt : Runtime) (s : SharingStore)
    → IsLawful rt
    → IsCounted n s
    → IsCounted n (decode_ready rt s).0
unfolding decode_ready
decode_ready-IsCounted n rt s law c =
    ground (arith, law.decode_length (rt.f + 1) rt.n s.ready_store)

output_loop-IsCounted :
    (n : ℕ) (rt : Runtime) (mk : Text → Message) (hash : Text) (rounds i : ℕ) (s : SharingStore)
    → IsLawful rt
    → IsCounted n s
    → IsCounted n (output_loop rt mk hash rounds i s).0
unfolding output_loop
output_loop-IsCounted n rt mk hash zero i s law c = c
output_loop-IsCounted n rt mk hash (suc rounds) i s law c = ground (
  arith,
  decode_ready-IsCounted n rt s law c,
  output_loop-IsCounted n rt mk hash rounds (i + 1) s law c,
  output_loop-IsCounted n rt mk hash rounds (i + 1) (decode_ready rt s).0 law,
)

abbrev pub sender_of : Input → ℕ
sender_of (echo sender share hash) = sender
sender_of (ready sender share hash) = sender

abbrev pub IsFrom : ℕ → Input → Type 0
IsFrom n i = (0 < sender_of i) × (sender_of i ≤ n)

module _ (n : ℕ) (rt : Runtime) (new_ready : Share → Text → Message) (new_output : Text → Message)
    (law : IsLawful rt) where
  on_echo-IsCounted :
      (sender : ℕ) (share : Share) (hash : Text) (s : SharingStore)
      → 0 < sender
      → sender ≤ n
      → IsCounted n s
      → IsCounted n (on_echo rt new_ready sender share hash s).0
  unfolding on_echo
  on_echo-IsCounted sender share hash s p q c =
      elim (Bool-cases (received s.state.received_echo sender)) [
        | inl old ↦ rw old c
        | inr new ↦
            let (s1, e) = record_echo rt sender share hash s in
            let c1 = record_echo-IsCounted n rt sender share hash s p q new c in
            let c2 = announce-IsCounted n rt new_ready s1 e c1 in
            rw new (amplify-IsCounted n rt new_ready (announce rt new_ready s1 e).0 c2)
      ]

  on_ready-IsCounted :
      (sender : ℕ) (share : Share) (hash : Text) (s : SharingStore)
      → 0 < sender
      → sender ≤ n
      → IsCounted n s
      → IsCounted n (on_ready rt new_ready new_output sender share hash s).0
  unfolding on_ready
  on_ready-IsCounted sender share hash s p q c =
      elim (Bool-cases (received s.state.received_ready sender)) [
        | inl old ↦ rw old c
        | inr new ↦
            let s1 = (amplify rt new_ready (record_ready sender share s)).0 in
            let c1 =
              amplify-IsCounted n rt new_ready (record_ready sender share s)
                (record_ready-IsCounted n sender share s p q new c) in
            let c2 = output_loop-IsCounted n rt new_output hash (rt.f + 1) 0 s1 law c1 in
            rw new (ground (arith, c1, c2))
      ]

  step-IsCounted :
      (s : SharingStore) (i : Input)
      → IsFrom n i
      → IsCounted n s
      → IsCounted n (step rt new_ready new_output s i).0
  unfolding step
  step-IsCounted s (echo sender share hash) h c = on_echo-IsCounted sender share hash s h.0 h.1 c
  step-IsCounted s (ready sender share hash) h c = on_ready-IsCounted sender share hash s h.0 h.1 c

  -- In a lawful runtime, from a counted store and whatever nodes 1 to `n` send, in whatever order: each sender's first echo and first ready message are
  -- counted once: the counts of the fingerprints add up to the senders of an echo, the ready shares
  -- are as many as the senders of a ready message, and the senders are distinct nodes.
  pub run-IsCounted :
      (s : SharingStore) (inputs : List Input)
      → All (IsFrom n) inputs
      → IsCounted n s
      → IsCounted n (run rt new_ready new_output s inputs).0
  unfolding run
  run-IsCounted s [] h c = c
  run-IsCounted s (i ∷ inputs) h c =
      run-IsCounted (step rt new_ready new_output s i).0 inputs h.1 (step-IsCounted s i h.0 c)

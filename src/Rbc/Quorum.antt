-- ===== src/Rbc/Quorum.antt =====
-- No two shares have a quorum of echoes at one node.
use adkg.Base.{
  ℕ, ◌+◌, ◌*◌, ◌≤◌, ◌≡◌, ◌≢◌, some, List, arith, All, text_eq, ◌==◌, Bool-cases, inl, inr,
}
use adkg.Base.Maps.{lookup}
use adkg.Base.Counts.{add-le-total, length-le_of_Members}
use adkg.Messages.{Text, Share, Message}
use adkg.Runtime.{Runtime, EchoStore, IsLawful}
use adkg.Rbc.{SharingStore, Input, run, default_keygen}
use adkg.Rbc.Invariant.{IsCounted, IsFrom, run-IsCounted, default_keygen-IsCounted}

-- Two fingerprints of a counted store have at most `n` echoes between them.
add-le_of_IsCounted :
    (n : ℕ) (s : SharingStore) (a b : Text) (x y : EchoStore)
    → IsCounted n s
    → a ≢ b
    → lookup a s.echo_store ≡ some x
    → lookup b s.echo_store ≡ some y
    → x.count + y.count ≤ n
add-le_of_IsCounted n s a b x y c ne p q = omega (
  arith,
  add-le-total (λ (e : EchoStore). e.count) a b x y s.echo_store ne p q,
  c.echoes,
  length-le_of_Members n s.state.received_echo c.echo_members,
)

-- In a lawful runtime, after any messages from nodes 1 to `n`, with `n` at most `4f + 1` (as it is when `n = 3f + 1`), two
-- fingerprints that both have the `2f + 1` echoes that announce a share are the same.
pub quorum_unique :
    (n : ℕ) (rt : Runtime) (new_ready : Share → Text → Message) (new_output : Text → Message)
    (round : Text) (inputs : List Input) (a b : Text) (x y : EchoStore)
    → IsLawful rt
    → n ≤ 4 * rt.f + 1
    → All (IsFrom n) inputs
    → lookup a (run rt new_ready new_output (default_keygen round) inputs).0.echo_store ≡ some x
    → lookup b (run rt new_ready new_output (default_keygen round) inputs).0.echo_store ≡ some y
    → 2 * rt.f + 1 ≤ x.count
    → 2 * rt.f + 1 ≤ y.count
    → a ≡ b
quorum_unique n rt new_ready new_output round inputs a b x y law size from p q hx hy =
    let s = (run rt new_ready new_output (default_keygen round) inputs).0 in
    let c =
      run-IsCounted n rt new_ready new_output law (default_keygen round) inputs from
        (default_keygen-IsCounted n round) in
    elim (Bool-cases (a == b)) [
      | inl same ↦ (text_eq.beq_iff a b).0 same
      | inr other ↦ absurd (
          omega
            (arith, add-le_of_IsCounted n s a b x y c (λ e. cc ((text_eq.beq_iff a b).1 e)) p q))
    ]

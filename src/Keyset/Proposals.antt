-- ===== src/Keyset/Proposals.antt =====
-- What the sessions learn from proposals and outputs.
use Prim.Native.Nat.{bit_and}
use adkg.Base.{
  ℕ, ◌<◌, ◌^◌, ◌≡◌, ◌↔◌, refl, ◌∙◌, true, false, Option, none, some, List, [], ◌∷◌, ◌++◌, arith, ℤ,
  pos, int_beq, int_eq, ◌==◌, nat_beq, nat_beq_iff, Bool-cases, Option-cases, inl, inr,
}
use mathlib.Core.Option.{some-injective}
use mathlib.Core.Path.{subst}
use adkg.Base.Maps.{lookup, insert, lookup-insert}
use adkg.Messages.{Text, Share, Effect, receive}
use adkg.Runtime.{Runtime}
use adkg.Base.Bits.{bit_and_comm}
use adkg.Bitset.{has_bit, predicate, int_to_byte_value, byte_to_int_value}
use adkg.Bitset.Codec.{byte_to_int_value-int_to_byte_value, bits_of_subset, subset_of_bits}
use adkg.Session.{Session, contains_int}
use adkg.Acss.{encode}
use adkg.Aba.{new_init_message}
use adkg.Keyset.{new_echo_message, send_shares, on_keyset_verified, on_propose, on_output}

-- Each keyset of the session holds only dealers whose sharing has ended here.
pub record IsSupported (ss : Session) : Type 0 where
  pub bound : ss.own_keyset < 2 ^ 64
  pub subset :
      (d : ℤ) (a : ℕ)
      → lookup d ss.keysets ≡ some a
      → (p : ℕ) → has_bit a p ≡ true
      → has_bit ss.own_keyset p ≡ true

predicate-true :
    (own : ℕ) (body : Text) (a : ℕ)
    → own < 2 ^ 64
    → byte_to_int_value body ≡ some a
    → predicate (int_to_byte_value own) body ≡ some true
    → bit_and a own ≡ a
unfolding predicate
predicate-true own body a lt e h =
    (nat_beq_iff (bit_and a own) a).0
      (some-injective _ _ (rw (predicate, e, byte_to_int_value-int_to_byte_value own lt) at h))

insert-IsSupported :
    (ss : Session) (d : ℤ) (a : ℕ)
    → bit_and a ss.own_keyset ≡ a
    → IsSupported ss
    → IsSupported (record ss { keysets = insert d a ss.keysets })
insert-IsSupported ss d a sub h = record {
  bound = h.bound;
  subset = λ q b found. elim (Bool-cases (d == q)) [
    | inl same ↦
        let e = some-injective _ _ (rw (lookup-insert d q a ss.keysets, same) at found) in
        bits_of_subset ss.own_keyset b (rw (← e) sub)
    | inr other ↦ h.subset q b (rw (lookup-insert d q a ss.keysets, other) at found)
  ];
}

Supported : Option (Session × List Effect) → Type 0
Supported none = Unit {0}
Supported (some (t, out)) = IsSupported t

on_keyset_verified-Supported :
    (rt : Runtime) (round curve body : Text) (d : ℤ) (a : ℕ) (ss : Session)
    → byte_to_int_value body ≡ some a
    → bit_and a ss.own_keyset ≡ a
    → IsSupported ss
    → Supported (on_keyset_verified rt round curve body d ss)
unfolding on_keyset_verified Supported
on_keyset_verified-Supported rt round curve body d a ss e sub h =
    elim (Option-cases (encode rt body)) [
      | inl failed ↦ elim (Bool-cases (int_beq d (pos rt.self))) [
        | inl own ↦ rw (on_keyset_verified, own, failed) h
        | inr other ↦ rw (on_keyset_verified, other, e, failed) (insert-IsSupported ss d a sub h)
      ]
      | inr (shares, sent) ↦
          let new_echo = λ (s : Share). new_echo_message round s (rt.sha256 body) curve in
          elim (Option-cases (send_shares rt.nodes shares new_echo)) [
            | inl panic ↦ elim (Bool-cases (int_beq d (pos rt.self))) [
              | inl own ↦ rw (on_keyset_verified, own, sent, panic) tt
              | inr other ↦ rw (on_keyset_verified, other, e, sent, panic) tt
            ]
            | inr (out, echoed) ↦ elim (Bool-cases (int_beq d (pos rt.self))) [
              | inl own ↦ rw (on_keyset_verified, own, sent, echoed) h
              | inr other ↦
                  rw (on_keyset_verified, other, e, sent, echoed) (insert-IsSupported ss d a sub h)
            ]
          ]
    ]

on_propose-Supported :
    (rt : Runtime) (sender : ℕ) (round curve body : Text) (ss : Session)
    → IsSupported ss
    → Supported (on_propose rt sender round curve body ss)
unfolding on_propose Supported predicate
on_propose-Supported rt sender round curve body ss h =
    elim (Option-cases (predicate (int_to_byte_value ss.own_keyset) body)) [
      | inl short ↦ rw (on_propose, short) tt
      | inr (true, e) ↦ elim (Option-cases (byte_to_int_value body)) [
        | inl short ↦ absurd (ground (arith, rw (predicate, short) at e))
        | inr (a, read) ↦
            rw (on_propose, e)
              (on_keyset_verified-Supported rt round curve body (pos sender) a ss read
                (predicate-true ss.own_keyset body a h.bound read e) h)
      ]
      | inr (false, e) ↦ elim (Option-cases (byte_to_int_value body)) [
        | inl short ↦ rw (on_propose, e, short) tt
        | inr (a, read) ↦ rw (on_propose, e, read) (record { bound = h.bound; subset = h.subset })
      ]
    ]

-- A proposal leaves it so that each keyset of the session holds only dealers whose sharing has ended
-- here, whoever sent it and whatever it holds, if the handler does not panic.
pub on_propose-IsSupported :
    (rt : Runtime) (sender : ℕ) (round curve body : Text) (ss t : Session) (out : List Effect)
    → IsSupported ss
    → on_propose rt sender round curve body ss ≡ some (t, out)
    → IsSupported t
unfolding Supported
on_propose-IsSupported rt sender round curve body ss t out h e =
    subst Supported e (on_propose-Supported rt sender round curve body ss h)

-- The first output for a dealer, of an encoded keyset, starts the agreement on it at this node with one
-- message; its vote is 1 exactly when the keyset holds only dealers whose sharing has ended here and no
-- agreement has ended in 1 yet.
pub on_output_votes :
    (dealer : ℤ) (round curve : Text) (a : ℕ) (ss : Session)
    → a < 2 ^ 63
    → contains_int ss.aba_started dealer ≡ false
    → (v : ℕ) × (on_output dealer round curve (int_to_byte_value a) ss
        ≡ some (
          record ss { aba_started = ss.aba_started ++ dealer ∷ [] },
          receive (new_init_message round v 0 curve) ∷ [],
        ))
      × ((v ≡ 1) ↔ (
          ((p : ℕ) → has_bit a p ≡ true → has_bit ss.own_keyset p ≡ true)
          × (ss.aba_complete ≡ false)))
unfolding on_output
on_output_votes dealer round curve a ss lt new =
    let read = byte_to_int_value-int_to_byte_value a (omega arith) in
    elim (Bool-cases (nat_beq (bit_and ss.own_keyset a) a)) [
      | inl sub ↦
          let e : bit_and a ss.own_keyset ≡ a =
            bit_and_comm a ss.own_keyset ∙ (nat_beq_iff _ a).0 sub in
          elim (Bool-cases ss.aba_complete) [
            | inl over ↦ (
              0,
              rw (on_output, new, read, sub, over) refl,
              ((λ h. absurd (omega arith)), λ h. absurd (ground (arith, over, h.1))),
            )
            | inr open_still ↦ (
              1,
              rw (on_output, new, read, sub, open_still) refl,
              ((λ h. (bits_of_subset ss.own_keyset a e, open_still)), λ h. refl),
            )
          ]
      | inr not_sub ↦ (
        0,
        rw (on_output, new, read, not_sub) refl,
        (
          (λ h. absurd (omega arith)),
          λ h.
              absurd (
                ground
                  (arith, bit_and_comm a ss.own_keyset, subset_of_bits ss.own_keyset a lt h.0)),
        ),
      )
    ]

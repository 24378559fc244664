-- ===== src/Dealing/Proposals.antt =====
-- The loop over the proposals and the proposal of a node leave the dealers whose sharing has ended.
use adkg.Base.{
  ℕ, ◌≡◌, ℤ, pos, true, false, some, List, [], ◌∷◌, Map, nat_eq, int_eq, int_beq, Bool-cases,
  Option-cases, inl, inr, arith,
}
use adkg.Base.Maps
use adkg.Base.Maps.{lookup, insert, lookup-insert}
use adkg.Messages.{Text, Share, Effect}
use adkg.Runtime.{Runtime}
use adkg.Rounds.{create_round}
use adkg.Bitset.{predicate, int_to_byte_value, byte_to_int_value}
use adkg.Session.{Session}
use adkg.Acss.{encode}
use adkg.Keyset.{new_echo_message, send_shares, on_keyset_verified}
use adkg.Aba.Decision.{keyset_kind}
use adkg.Dealing.Handlers.{index_of_key, check_proposals, send_keyset}

on_keyset_verified-own :
    (rt : Runtime) (round curve keyset : Text) (dealer : ℤ) (ss s1 : Session) (out : List Effect)
    → on_keyset_verified rt round curve keyset dealer ss ≡ some (s1, out)
    → s1.own_keyset ≡ ss.own_keyset
unfolding on_keyset_verified
on_keyset_verified-own rt round curve keyset dealer ss s1 out h =
    let new_echo = λ (s : Share). new_echo_message round s (rt.sha256 keyset) curve in
    elim (Bool-cases (int_beq dealer (pos rt.self))) [
      | inl own ↦ elim (Option-cases (encode rt keyset)) [
        | inl fails ↦ ground arith
        | inr (shares, sent) ↦ elim (Option-cases (send_shares rt.nodes shares new_echo)) [
          | inl panic ↦ absurd (ground arith)
          | inr (o, echoed) ↦ ground arith
        ]
      ]
      | inr other ↦ elim (Option-cases (byte_to_int_value keyset)) [
        | inl short ↦ absurd (ground arith)
        | inr (body, named) ↦ elim (Option-cases (encode rt keyset)) [
          | inl fails ↦ ground arith
          | inr (shares, sent) ↦ elim (Option-cases (send_shares rt.nodes shares new_echo)) [
            | inl panic ↦ absurd (ground arith)
            | inr (o, echoed) ↦ ground arith
          ]
        ]
      ]
    ]

module _ (rt : Runtime) (id curve : Text) where
  pub check_proposals-own :
      (walked : Map ℤ ℕ) (ss s1 : Session) (out : List Effect)
      → check_proposals rt id curve walked ss ≡ some (s1, out)
      → s1.own_keyset ≡ ss.own_keyset
  unfolding check_proposals
  check_proposals-own [] ss s1 out h = ground arith
  check_proposals-own ((key, v) ∷ walked) ss s1 out h =
      elim (Option-cases (predicate (int_to_byte_value ss.own_keyset) (int_to_byte_value v))) [
        | inl short ↦ absurd (ground arith)
        | inr (false, p) ↦ check_proposals-own walked ss s1 out (ground arith)
        | inr (true, p) ↦
            let round = create_round id (index_of_key key) keyset_kind in
            elim (Option-cases (on_keyset_verified rt round curve (int_to_byte_value v) key ss)) [
              | inl panic ↦ absurd (ground arith)
              | inr ((s2, o2), now) ↦
                  let s3 = record s2 { proposals = Maps.delete key s2.proposals } in
                  elim (Option-cases (check_proposals rt id curve walked s3)) [
                    | inl panic ↦ absurd (ground arith)
                    | inr ((s4, o4), later) ↦
                        let rest = check_proposals-own walked s3 s4 o4 later in
                        let here =
                          on_keyset_verified-own rt round curve (int_to_byte_value v) key ss s2 o2
                            now in
                        ground arith
                  ]
            ]
      ]

  pub send_keyset-own : (ss : Session) → (send_keyset rt id curve ss).0.own_keyset ≡ ss.own_keyset
  unfolding send_keyset
  send_keyset-own ss = ground arith

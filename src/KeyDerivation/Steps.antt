-- ===== src/KeyDerivation/Steps.antt =====
-- Each handler that may end a session: what it stores, and in which state it leaves the session.
use mathlib.Core.Path.{subst}
use adkg.Base.{
  ℕ, ◌+◌, ◌≡◌, refl, Bool, true, false, ◌&&◌, not, some, List, [], ◌∷◌, ◌++◌, Map, nat_eq, nat_beq,
  leb, length, map, if◌then◌else◌, Bool-cases, Option-cases, List-cases, inl, inr, arith,
}
use adkg.Messages.{Text}
use adkg.Base.Maps
use adkg.Curve.{Curve}
use adkg.Coin.{Outcome-cases}
use adkg.Rounds.{get_index, get_curve}
use adkg.KeyDerivation.{union, agreed_keysets}
use adkg.KeyDerivation.Keys.{PubKeyShare, KeySession, lagrange_coeffs, combine_points}
use adkg.KeyDerivation.Share.{
  KeyEffect, Participant, check_share, process_unverified, finish, combine_shares, on_pub_key_share,
  on_bft_decided,
}

abbrev pub stores : {c : Curve} → List (KeyEffect c) → ℕ
stores [] = 0
stores (KeyEffect.store_completed_share i z n ∷ out) = stores out + 1
stores (KeyEffect.store_commitment i m t n ∷ out) = stores out
stores (KeyEffect.cleanup id ∷ out) = stores out
stores (KeyEffect.receive_bft_message r k ∷ out) = stores out

pub stores-append : {c : Curve} (a b : List (KeyEffect c)) → stores (a ++ b) ≡ stores a + stores b
stores-append [] b = omega arith
stores-append (KeyEffect.store_completed_share i z n ∷ a) b = omega (arith, stores-append a b)
stores-append (KeyEffect.store_commitment i m t n ∷ a) b = stores-append a b
stores-append (KeyEffect.cleanup id ∷ a) b = stores-append a b
stores-append (KeyEffect.receive_bft_message r k ∷ a) b = stores-append a b

-- Whether the session is ended by one of the effects
abbrev pub ends : {c : Curve} → List (KeyEffect c) → Bool
ends [] = false
ends (KeyEffect.cleanup id ∷ out) = true
ends (KeyEffect.store_completed_share i z n ∷ out) = ends out
ends (KeyEffect.store_commitment i m t n ∷ out) = ends out
ends (KeyEffect.receive_bft_message r k ∷ out) = ends out

module _ (c : Curve) (p : Participant c) (round name id : Text) where
  -- What a handler leaves: a session that ends has stored the share once, one that stays open has stored
  -- nothing, and does not have both what it waits for.
  abbrev pub Finishes : KeySession c × List (KeyEffect c) → Type 0
  Finishes r = (stores r.1 ≡ (if ends r.1 then 1 else 0)) × ((r.0.over && r.0.bft_decided) ≡ false)

  finish-Finishes :
      (t : List ℕ) (h_z : c.Point) (ss : KeySession c)
      → ss.over ≡ false
      → Finishes (finish c p round name t h_z ss)
  unfolding finish
  finish-Finishes t h_z ss open_still = ground arith

  combine_shares-Finishes :
      (t : List ℕ) (ss : KeySession c)
      → (ss.over && ss.bft_decided) ≡ false
      → Finishes (combine_shares c p round name t ss)
  unfolding combine_shares
  combine_shares-Finishes t ss h =
      let ids : List ℕ = map (λ e. e.0) ss.pub_key_shares in
      elim (Bool-cases (leb p.k (length ss.pub_key_shares) && not ss.over)) [
        | inr stays ↦ rw (combine_shares, stays) (refl, h)
        | inl go ↦
            let open_still : ss.over ≡ false = ground arith in
            elim (Option-cases (lagrange_coeffs c ids ids)) [
              | inl e ↦ rw (combine_shares, go, e) (refl, h)
              | inr (l, e) ↦
                  rw (combine_shares, go, e)
                    (finish-Finishes t (combine_points c ss.pub_key_shares c.identity l) ss
                      open_still)
            ]
      ]

  process_unverified_flags :
      (t : List ℕ) (left : Map ℕ PubKeyShare) (ss s1 : KeySession c)
      → process_unverified c p round name t left ss ≡ some s1
      → (s1.over ≡ ss.over) × (s1.bft_decided ≡ ss.bft_decided)
  unfolding process_unverified
  process_unverified_flags t [] ss s1 h = ground arith
  process_unverified_flags t ((node, m) ∷ left) ss s1 h =
      elim (Outcome-cases (check_share c p round name t ss.commitments node m)) [
        | inl (x, e) ↦
            process_unverified_flags t left
              (record ss {
                pub_key_shares_unverified = Maps.delete node ss.pub_key_shares_unverified;
                pub_key_shares = Maps.insert node x ss.pub_key_shares;
              })
              s1 (ground arith)
        | inr (inl e) ↦ process_unverified_flags t left ss s1 (ground arith)
        | inr (inr e) ↦ absurd (ground arith)
      ]

  pub on_bft_decided-Finishes :
      (ss s1 : KeySession c) (out : List (KeyEffect c))
      → on_bft_decided c id ss ≡ some (s1, out)
      → (ss.over && ss.bft_decided) ≡ false
      → Finishes (s1, out)
  unfolding on_bft_decided
  on_bft_decided-Finishes ss s1 out e h = elim (Bool-cases ss.over) [
    | inr open_still ↦ ground arith
    | inl over ↦ elim (Option-cases (get_index id)) [
      | inl i ↦ ground arith
      | inr (index, i) ↦ elim (Option-cases (get_curve id)) [
        | inl v ↦ ground arith
        | inr (curve, v) ↦ elim (Option-cases ss.share) [
          | inl z ↦ absurd (ground arith)
          | inr (z, w) ↦ ground arith
        ]
      ]
    ]
  ]

  pub on_pub_key_share-Finishes :
      (sender : ℕ) (m : PubKeyShare) (ss s1 : KeySession c) (out : List (KeyEffect c))
      → on_pub_key_share c p round name sender m ss ≡ some (s1, out)
      → (ss.over && ss.bft_decided) ≡ false
      → Finishes (s1, out)
  unfolding on_pub_key_share
  on_pub_key_share-Finishes sender m ss s1 out e h =
      let start = nat_beq p.n (length ss.session.decisions) && ss.session.aba_complete in
      let dealers = union (agreed_keysets p.n ss.session.decisions ss.session) in
      elim (Bool-cases start) [
        | inr early ↦ ground arith
        | inl ready ↦ elim (List-cases dealers) [
          | inl empty ↦ ground arith
          | inr (j, t, named) ↦
              elim (Outcome-cases (check_share c p round name (j ∷ t) ss.commitments sender m)) [
                | inr (inl bad) ↦ ground arith
                | inr (inr fails) ↦ absurd (ground arith)
                | inl (x, good) ↦
                    let ss1 = record ss {
                      pub_key_shares = Maps.insert sender x ss.pub_key_shares;
                    } in
                    let rest =
                      process_unverified c p round name (j ∷ t) ss1.pub_key_shares_unverified ss1 in
                    elim (Option-cases rest) [
                      | inl fails ↦ absurd (ground arith)
                      | inr (ss2, went) ↦
                          let (same_over, same_bft) =
                            process_unverified_flags (j ∷ t) ss1.pub_key_shares_unverified ss1 ss2
                              went in
                          let result : combine_shares c p round name (j ∷ t) ss2 ≡ (s1, out) =
                            ground arith in
                          subst Finishes result (combine_shares-Finishes (j ∷ t) ss2 (ground arith))
                    ]
              ]
        ]
      ]

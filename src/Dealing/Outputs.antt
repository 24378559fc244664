-- ===== src/Dealing/Outputs.antt =====
-- What a node holds of the sharings that have ended there.
use adkg.Base.{
  ℕ, ◌<◌, ◌≡◌, refl, ◌∙◌, pos, negsuc, true, false, Option, none, some, List, [], ◌∷◌, Map, All,
  length, nat_eq, nat_beq, int_eq, Bool-cases, Option-cases, inl, inr, arith,
}
use Prim.Native.Nat.{bit_and}
use adkg.Base.Bits.{bit_and_comm, bit_and-zero}
use mathlib.Core.Path.{subst}
use adkg.Base.Maps
use adkg.Base.Maps.{lookup, insert, lookup-insert}
use adkg.Messages.{Text, Effect}
use adkg.Runtime.{Runtime}
use adkg.Rounds.{leader}
use adkg.Bitset.{one_shl, has_bit, set_bit}
use adkg.Bitset.Laws.{has_bit-set_bit}
use adkg.Session.{Session}
use adkg.Curve.{Curve}
use adkg.Coin.{Outcome-cases}
use adkg.Sharing.{ShamirShare, good, verify_share}
use adkg.KeyDerivation.Keys.{KeySession, default_key_session}
use adkg.KeyDerivation.Proof.{point_size}
use adkg.Dealing.{MessageData}
use adkg.Dealing.Handlers.{
  Dealer, own_share, check_proposals, send_keyset, propose_keyset, store_sharing, on_acss_output,
}
use adkg.Dealing.Soundness.{acss_predicate_sound}
use adkg.Dealing.Proposals.{check_proposals-own, send_keyset-own}

module _ (c : Curve) (d : Dealer c) (rt : Runtime) where
  -- For the dealer, the node holds a share and as many commitments as the threshold says, and the share
  -- passes the check against them.
  pub record IsShared (shares : Map ℕ ShamirShare) (commitments : Map ℕ (List c.Point)) (q : ℕ)
      : Type 0 where
    pub share : ShamirShare
    pub points : List c.Point
    pub share_found : lookup q shares ≡ some share
    pub points_found : lookup q commitments ≡ some points
    pub count : length points ≡ rt.k
    pub verified : verify_share c d.g points share ≡ good tt

  -- So it is for each dealer whose sharing has ended here.
  abbrev pub IsHeld : KeySession c → Type 0
  IsHeld ss = (q : ℕ) → has_bit ss.session.own_keyset q ≡ true → IsShared ss.shares ss.commitments q

  IsHeld-session :
      (ss : KeySession c) (s1 : Session)
      → s1.own_keyset ≡ ss.session.own_keyset
      → IsHeld ss
      → IsHeld (record ss { session = s1 })
  IsHeld-session ss s1 e h q found = h q (rw (← e) found)

  IsShared-insert :
      (ss : KeySession c) (dealer : ℕ) (s : ShamirShare) (l : List c.Point)
      → dealer < 63
      → length l ≡ rt.k
      → verify_share c d.g l s ≡ good tt
      → IsHeld ss
      → IsHeld (record ss {
        shares = insert dealer s ss.shares;
        commitments = insert dealer l ss.commitments;
        session = record ss.session { own_keyset = set_bit ss.session.own_keyset dealer };
      })
  IsShared-insert ss dealer s l below count verified h q found =
      elim (Bool-cases (nat_beq dealer q)) [
        | inl here ↦ record {
          share = s;
          points = l;
          share_found = rw (lookup-insert dealer q s ss.shares, here) refl;
          points_found = rw (lookup-insert dealer q l ss.commitments, here) refl;
          count = count;
          verified = verified;
        }
        | inr other ↦
            let before : has_bit ss.session.own_keyset q ≡ true =
              ground (arith, has_bit-set_bit ss.session.own_keyset dealer q below) in
            let old = h q before in
            record {
              share = old.share;
              points = old.points;
              share_found = rw (lookup-insert dealer q s ss.shares, other) old.share_found;
              points_found = rw (lookup-insert dealer q l ss.commitments, other) old.points_found;
              count = old.count;
              verified = old.verified;
            }
      ]

  module _ (id curve : Text) where
    propose_keyset-IsHeld :
        (ss : KeySession c) (out : List Effect)
        → IsHeld ss
        → IsHeld (propose_keyset c d rt id curve ss out).0
    unfolding propose_keyset
    propose_keyset-IsHeld ss out h =
        IsHeld-session ss (send_keyset rt id curve ss.session).0
          (send_keyset-own rt id curve ss.session) h

    store_sharing-IsHeld :
        (dealer : ℕ) (dealing : MessageData) (ss s1 : KeySession c) (out : List Effect)
        → dealer < 63
        → store_sharing c d rt dealer id curve dealing ss ≡ some (s1, out)
        → IsHeld ss
        → IsHeld s1
    unfolding store_sharing own_share
    store_sharing-IsHeld dealer dealing ss s1 out below e h =
        elim (Outcome-cases (own_share c d rt curve dealing)) [
          | inr (inr panic) ↦ absurd (ground arith)
          | inr (inl refused) ↦
              let end : propose_keyset c d rt id curve ss [] ≡ (s1, out) = ground arith in
              subst (λ r. IsHeld r.0) end (propose_keyset-IsHeld ss [] h)
          | inl ((s, l), passed) ↦
              let (count, verified) =
                acss_predicate_sound c d.ecies d.g (point_size curve) rt.k d.private_key
                  (Maps.get_or dealing.share_map rt.self []) dealing.commitments s l passed in
              let ss1 : KeySession c = record ss {
                shares = insert dealer s ss.shares;
                commitments = insert dealer l ss.commitments;
                session = record ss.session { own_keyset = set_bit ss.session.own_keyset dealer };
              } in
              elim (Option-cases (check_proposals rt id curve ss1.session.proposals ss1.session)) [
                | inl panic ↦ absurd (ground arith)
                | inr ((s2, o2), checked) ↦
                    let ss2 : KeySession c = record ss1 { session = s2 } in
                    let held1 : IsHeld ss1 = IsShared-insert ss dealer s l below count verified h in
                    let held2 : IsHeld ss2 =
                      IsHeld-session ss1 s2
                        (check_proposals-own rt id curve ss1.session.proposals ss1.session s2 o2
                          checked)
                        held1 in
                    let end : propose_keyset c d rt id curve ss2 o2 ≡ (s1, out) = ground arith in
                    subst (λ r. IsHeld r.0) end (propose_keyset-IsHeld ss2 o2 held2)
              ]
        ]

    on_acss_output-IsHeld :
        (round m : Text) (ss s1 : KeySession c) (out : List Effect)
        → ((dealer : ℕ) → leader round ≡ some (pos dealer) → dealer < 63)
        → on_acss_output c d rt id round curve m ss ≡ some (s1, out)
        → IsHeld ss
        → IsHeld s1
    unfolding on_acss_output
    on_acss_output-IsHeld round m ss s1 out below e h = elim (Option-cases (leader round)) [
      | inl nameless ↦ let same : ss ≡ s1 = ground arith in subst IsHeld same h
      | inr (negsuc i, named) ↦ absurd (ground arith)
      | inr (pos dealer, named) ↦ elim (Bool-cases (has_bit ss.session.own_keyset dealer)) [
        | inl ended ↦ let same : ss ≡ s1 = ground arith in subst IsHeld same h
        | inr new ↦ elim (Option-cases (d.deserialize m)) [
          | inl unread ↦ let same : ss ≡ s1 = ground arith in subst IsHeld same h
          | inr (dealing, received) ↦
              store_sharing-IsHeld dealer dealing ss s1 out (below dealer named) (ground arith) h
        ]
      ]
    ]

-- An output of the broadcast of a sharing, or what the other handlers of the key generation leave in the
-- fields of the session that they write
pub data SharingEvent : Type 0 where
  acss_output : (round m : Text) → SharingEvent
  rewritten : Session → SharingEvent

-- The dealer that an output names is below 63, as `HasBit` asks for.
abbrev pub IsSmall : SharingEvent → Type 0
IsSmall (acss_output round m) = (dealer : ℕ) → leader round ≡ some (pos dealer) → dealer < 63
IsSmall (rewritten s) = Unit {0}

module _ (c : Curve) (d : Dealer c) (rt : Runtime) (id curve : Text) where
  -- The events in the order in which their handlers take the lock; `none` on a panic
  unfoldable pub run_outputs : List SharingEvent → KeySession c → Option (KeySession c)
  run_outputs [] ss = some ss
  run_outputs (acss_output round m ∷ es) ss = elim (on_acss_output c d rt id round curve m ss) [
    | none ↦ none
    | some (s1, out) ↦ run_outputs es s1
  ]
  run_outputs (rewritten s ∷ es) ss =
      run_outputs es (record ss { session = record s { own_keyset = ss.session.own_keyset } })

  run_outputs-IsHeld :
      (es : List SharingEvent) (ss s1 : KeySession c)
      → All IsSmall es
      → run_outputs es ss ≡ some s1
      → IsHeld c d rt ss
      → IsHeld c d rt s1
  unfolding run_outputs
  run_outputs-IsHeld [] ss s1 small e h =
      let same : ss ≡ s1 = ground arith in subst (IsHeld c d rt) same h
  run_outputs-IsHeld (acss_output round m ∷ es) ss s1 (small, rest) e h =
      elim (Option-cases (on_acss_output c d rt id round curve m ss)) [
        | inl panic ↦ absurd (ground arith)
        | inr ((s2, out), now) ↦
            run_outputs-IsHeld es s2 s1 rest (ground arith)
              (on_acss_output-IsHeld c d rt id curve round m ss s2 out small now h)
      ]
  run_outputs-IsHeld (rewritten s ∷ es) ss s1 (_, rest) e h =
      run_outputs-IsHeld es
        (record ss { session = record s { own_keyset = ss.session.own_keyset } }) s1 rest e
        (IsHeld-session c d rt ss (record s { own_keyset = ss.session.own_keyset }) refl h)

has_bit_none : (q : ℕ) → has_bit 0 q ≡ false
unfolding has_bit
has_bit_none q =
    let none_there : bit_and 0 (one_shl q) ≡ 0 =
      bit_and_comm 0 (one_shl q) ∙ bit_and-zero (one_shl q) in
    rw none_there refl

-- From a new session, whatever outputs come, of dealers below 63, and whatever the other handlers write,
-- if no handler panics: for each dealer in the node's own keyset the node holds a share and k
-- commitments, and the share passes the check against them.
pub outputs_held :
    (c : Curve) (d : Dealer c) (rt : Runtime) (id curve : Text) (es : List SharingEvent)
    (ss : KeySession c)
    → All IsSmall es
    → run_outputs c d rt id curve es (default_key_session c) ≡ some ss
    → (q : ℕ) → has_bit ss.session.own_keyset q ≡ true
    → IsShared c d rt ss.shares ss.commitments q
outputs_held c d rt id curve es ss small ran =
    run_outputs-IsHeld c d rt id curve es (default_key_session c) ss small ran
      (λ q found. absurd (ground (arith, has_bit_none q)))

-- ===== src/KeyDerivation/Finish.antt =====
-- A node stores its share of a key once, in whichever order its shares and the decision come.
use adkg.Base.{
  ℕ, ◌≡◌, refl, false, ◌&&◌, Option, none, some, List, [], ◌∷◌, ◌++◌, Map, nat_eq, if◌then◌else◌,
  Bool-cases, Option-cases, inl, inr, arith,
}
use adkg.Messages.{Text}
use adkg.Session.{Session}
use adkg.Sharing.{ShamirShare}
use adkg.Curve.{Curve}
use adkg.KeyDerivation.Keys.{PubKeyShare, KeySession, default_key_session}
use adkg.KeyDerivation.Share.{KeyEffect, Participant, on_pub_key_share, on_bft_decided}
use adkg.KeyDerivation.Steps.{
  stores, stores-append, ends, Finishes, on_bft_decided-Finishes, on_pub_key_share-Finishes,
}

-- A share of the public key, the decision, or what the other handlers of the key generation leave in the
-- fields that they write
pub data KeyEvent (c : Curve) : Type 0 where
  pub_key_share : (sender : ℕ) → PubKeyShare → KeyEvent c
  decided : KeyEvent c
  refilled : Session → Map ℕ ShamirShare → Map ℕ (List c.Point) → KeyEvent c

module _ (c : Curve) (p : Participant c) (round name id : Text) where
  -- A handler on the session, if it is not complete; an ended session is complete from then on.
  unfoldable pub on_key_event :
      KeyEvent c → KeySession c → Option (KeySession c × List (KeyEffect c))
  on_key_event (pub_key_share sender m) ss = on_pub_key_share c p round name sender m ss
  on_key_event decided ss = on_bft_decided c id ss
  on_key_event (refilled s sh cm) ss =
      some (record ss { session = s; shares = sh; commitments = cm }, [])

  -- The events in the order in which their handlers take the lock, with what the session is in the end,
  -- none if it is complete; the whole is `none` on a panic.
  unfoldable pub run_key_events :
      List (KeyEvent c)
      → Option (KeySession c)
      → Option (Option (KeySession c) × List (KeyEffect c))
  run_key_events [] ss = some (ss, [])
  run_key_events (e ∷ es) none = run_key_events es none
  run_key_events (e ∷ es) (some ss) = elim (on_key_event e ss) [
    | none ↦ none
    | some (ss1, out) ↦
        let after : Option (KeySession c) = if ends out then none else some ss1 in
        elim (run_key_events es after) [
          | none ↦ none
          | some (last, more) ↦ some (last, out ++ more)
        ]
  ]

  on_key_event-Finishes :
      (e : KeyEvent c) (ss s1 : KeySession c) (out : List (KeyEffect c))
      → on_key_event e ss ≡ some (s1, out)
      → (ss.over && ss.bft_decided) ≡ false
      → Finishes c p round name id (s1, out)
  unfolding on_key_event
  on_key_event-Finishes (pub_key_share sender m) ss s1 out r h =
      on_pub_key_share-Finishes c p round name id sender m ss s1 out r h
  on_key_event-Finishes decided ss s1 out r h =
      on_bft_decided-Finishes c p round name id ss s1 out r h
  on_key_event-Finishes (refilled s sh cm) ss s1 out r h = ground arith

  -- In the end the session is complete, and the share was stored, once; or it is open, nothing was
  -- stored, and it does not have both its own share and the decision.
  abbrev pub EndsOnce : Option (KeySession c) → List (KeyEffect c) → Type 0
  EndsOnce none out = stores out ≡ 1
  EndsOnce (some ss) out = (stores out ≡ 0) × ((ss.over && ss.bft_decided) ≡ false)

  EndsOnce-after :
      (last : Option (KeySession c)) (o more : List (KeyEffect c))
      → stores o ≡ 0
      → EndsOnce last more
      → EndsOnce last (o ++ more)
  EndsOnce-after none o more z h = omega (arith, stores-append o more)
  EndsOnce-after (some ss) o more z h = (omega (arith, stores-append o more, h.0), h.1)

  run_none : (es : List (KeyEvent c)) → run_key_events es none ≡ some (none, [])
  unfolding run_key_events
  run_none [] = refl
  run_none (e ∷ es) = run_none es

  run_key_events-EndsOnce :
      (es : List (KeyEvent c)) (ss : KeySession c) (last : Option (KeySession c))
      (out : List (KeyEffect c))
      → run_key_events es (some ss) ≡ some (last, out)
      → (ss.over && ss.bft_decided) ≡ false
      → EndsOnce last out
  unfolding run_key_events
  run_key_events-EndsOnce [] ss last out r h =
      let e1 : some ss ≡ last = cc r in let e2 : [] ≡ out = cc r in rw (← e1, ← e2) (refl, h)
  run_key_events-EndsOnce (e ∷ es) ss last out r h = elim (Option-cases (on_key_event e ss)) [
    | inl panic ↦ absurd (ground arith)
    | inr ((s1, o1), now) ↦
        let (stored, waits) = on_key_event-Finishes e ss s1 o1 now h in
        elim (Bool-cases (ends o1)) [
          | inl ended ↦
              let done_now = run_none es in
              let e1 : none ≡ last = ground arith in
              let e2 : o1 ++ [] ≡ out = ground arith in
              let once : stores o1 ≡ 1 = ground arith in
              rw (← e1, ← e2) (omega (arith, stores-append o1 [], once))
          | inr going ↦ elim (Option-cases (run_key_events es (some s1))) [
            | inl panic ↦ absurd (ground arith)
            | inr ((l2, more), later) ↦
                let e1 : l2 ≡ last = ground arith in
                let e2 : o1 ++ more ≡ out = ground arith in
                let unstored : stores o1 ≡ 0 = ground arith in
                rw (← e1, ← e2)
                  (EndsOnce-after l2 o1 more unstored
                    (run_key_events-EndsOnce es s1 l2 more later waits))
          ]
        ]
  ]

pub share_stored_once :
    (c : Curve) (p : Participant c) (round name id : Text) (es : List (KeyEvent c))
    (last : Option (KeySession c)) (out : List (KeyEffect c))
    → run_key_events c p round name id es (some (default_key_session c)) ≡ some (last, out)
    → EndsOnce c p round name id last out
share_stored_once c p round name id es last out r =
    run_key_events-EndsOnce c p round name id es (default_key_session c) last out r refl

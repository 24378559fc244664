-- ===== src/Aba/Outcome.antt =====
-- The decisions of one session, in the order in which agreements end: each stands, and the key
-- derivation starts once, after `n` of them.
use adkg.Base.{
  ℕ, zero, suc, ◌+◌, ◌≤◌, ◌≡◌, refl, ap, Bool, true, false, not, ◌&&◌, Option, none, some, List, [],
  ◌∷◌, ◌++◌, arith, ℤ, pos, int_beq, int_eq, length, nat_beq, if◌then◌else◌, Bool-cases,
  Option-cases, Map, inl, inr, ◌==◌, ◌⊎◌,
}
use adkg.Base.Maps.{lookup, insert, lookup-insert}
use adkg.Base.Counts.{length-insert_new}
use adkg.Messages.{Text, Message, Effect}
use adkg.Rounds.{adkg_id_from_round_id}
use adkg.Session.{Session, contains_int}
use adkg.Aba.Decision.{decide, note_one, start_key_derivation, start_others}

-- An agreement that ended: its round and curve, its dealer, and 0 or 1
pub record Ended : Type 0 where
  pub round : Text
  pub curve : Text
  pub dealer : ℤ
  pub w : ℕ

unfoldable pub decide_all : (n : ℕ) → Session → List Ended → Session × List Effect
decide_all n ss [] = (ss, [])
decide_all n ss (e ∷ ends) =
    let (ss1, out1) = decide n e.round e.curve e.dealer e.w ss in
    let (ss2, out2) = decide_all n ss1 ends in (ss2, out1 ++ out2)

-- The number of times that the key derivation starts
is_start : Effect → ℕ
is_start (Effect.receive (Message.key_derivation_init _ _)) = 1
is_start _ = 0

unfoldable pub starts : List Effect → ℕ
unfolding is_start
starts [] = 0
starts (e ∷ out) = is_start e + starts out

starts-append : (xs ys : List Effect) → starts (xs ++ ys) ≡ starts xs + starts ys
unfolding starts
starts-append [] ys = omega arith
starts-append (x ∷ xs) ys = omega (arith, starts-append xs ys)

abbrev pub one_if : Bool → ℕ
one_if true = 1
one_if false = 0

put : ℤ → ℕ → Map ℤ ℕ → Map ℤ ℕ
put dealer w m = elim (lookup dealer m) [ some _ ↦ m | none ↦ insert dealer w m ]

module _ (n : ℕ) (round curve : Text) where
  starts-start_others :
      (l : List ℤ) (id : Text) (left i : ℕ) → starts (start_others l id curve left i) ≡ 0
  unfolding start_others starts is_start
  starts-start_others l id zero i = refl
  starts-start_others l id (suc left) i = elim (Bool-cases (contains_int l (pos i))) [
    | inl e ↦ rw e (starts-start_others l id left (i + 1))
    | inr e ↦ rw e (omega (arith, starts-start_others l id left (i + 1)))
  ]

  -- The first decision for 1 keeps the decisions and starts no key derivation.
  Keeps : Session → Option (Session × List Effect) → Type 0
  Keeps ss none = Unit {0}
  Keeps ss (some (t, out)) =
      (t.decisions ≡ ss.decisions)
      × (t.key_derivation_started ≡ ss.key_derivation_started)
      × (starts out ≡ 0)

  note_one-Keeps : (w : ℕ) (ss : Session) → Keeps ss (note_one n round curve w ss)
  unfolding note_one Keeps starts
  note_one-Keeps w ss = elim (Bool-cases (nat_beq w 1 && not ss.aba_complete)) [
    | inl one ↦ elim (Option-cases (adkg_id_from_round_id round)) [
      | inl bad ↦ rw (note_one, one, bad) tt
      | inr (id, e) ↦ rw (note_one, one, e) (refl, refl, starts-start_others ss.aba_started id n 1)
    ]
    | inr other ↦ rw (note_one, other) (refl, refl, refl)
  ]

  -- The start of the key derivation raises the flag, once there are `n` decisions.
  Derives : Session → Session → List Effect → Type 0
  Derives ss t out =
      (starts out + one_if ss.key_derivation_started ≡ one_if t.key_derivation_started)
      × (t.key_derivation_started ≡ true
          → (ss.key_derivation_started ≡ true) ⊎ (n ≡ length t.decisions))

  start-Derives :
      (ss : Session)
      → let x = start_key_derivation n round curve ss in
        Derives ss x.0 x.1 × (x.0.decisions ≡ ss.decisions)
  unfolding start_key_derivation starts is_start Derives
  start-Derives ss =
      elim (Bool-cases (nat_beq n (length ss.decisions) && not ss.key_derivation_started)) [
        | inl due ↦ rw (start_key_derivation, due) (ground arith)
        | inr not_due ↦ rw (start_key_derivation, not_due) (ground arith)
      ]

  decide-Derives :
      (dealer : ℤ) (w : ℕ) (ss : Session)
      → let x = decide n round curve dealer w ss in
        Derives ss x.0 x.1 × (x.0.decisions ≡ put dealer w ss.decisions)
  unfolding decide Keeps Derives put starts
  decide-Derives dealer w ss =
      let decided = record ss { decisions = insert dealer w ss.decisions } in
      let noted = note_one-Keeps w decided in
      elim (Option-cases (lookup dealer ss.decisions)) [
        | inl new ↦ elim (Option-cases (note_one n round curve w decided)) [
          | inl bad ↦ rw (decide, new, bad) (ground arith)
          | inr ((t, out), e) ↦
              let kept = rw e at noted in
              let x = start_key_derivation n round curve t in
              rw (decide, new, e, starts-append out x.1) (ground (arith, kept, start-Derives t))
        ]
        | inr (v, old) ↦ rw (decide, old) (ground arith)
      ]

Option-same {ℓ} : {A : Type ℓ} (o : Option A) → o ≡ elim o [ some x ↦ some x | none ↦ none ]
Option-same none = refl
Option-same (some x) = refl

lookup-put :
    (dealer q : ℤ) (w : ℕ) (m : Map ℤ ℕ)
    → lookup q (put dealer w m)
      ≡ elim (lookup q m) [ some x ↦ some x | none ↦ if dealer == q then some w else none ]
unfolding put
lookup-put dealer q w m = elim (Bool-cases (dealer == q)) [
  | inl same ↦
      let e = ap (λ i. lookup i m) ((int_eq.beq_iff dealer q).0 same) in
      elim (Option-cases (lookup dealer m)) [
        | inl new ↦ rw (put, new, lookup-insert dealer q w m, same, ← e, new, same) refl
        | inr (v, old) ↦ rw (put, old, ← e, old) refl
      ]
  | inr other ↦
      let kept : lookup q (put dealer w m) ≡ lookup q m = elim (Option-cases (lookup dealer m)) [
        | inl new ↦ rw (put, new, lookup-insert dealer q w m, other) refl
        | inr (v, old) ↦ rw (put, old) refl
      ] in
      elim (Option-cases (lookup q m)) [
        | inl e ↦ rw (kept, e, other) refl
        | inr (x, e) ↦ rw (kept, e) refl
      ]
]

length-put : (dealer : ℤ) (w : ℕ) (m : Map ℤ ℕ) → length m ≤ length (put dealer w m)
unfolding put
length-put dealer w m = elim (Option-cases (lookup dealer m)) [
  | inl new ↦ rw (put, new) (omega (arith, length-insert_new dealer w m new))
  | inr (v, old) ↦ rw (put, old) (omega arith)
]

-- The first end of an agreement on a dealer
pub first_for : ℤ → List Ended → Option ℕ
first_for q [] = none
first_for q (e ∷ ends) =
    let rest = first_for q ends in if int_beq e.dealer q then some e.w else rest

-- A decision that is made stands: after any agreements have ended, in any order and as often as they
-- like, a dealer has the decision that it had before, or that of the first end on it, or none.
pub decisions_stand :
    (n : ℕ) (ss : Session) (ends : List Ended) (q : ℤ)
    → lookup q (decide_all n ss ends).0.decisions
      ≡ elim (lookup q ss.decisions) [ some x ↦ some x | none ↦ first_for q ends ]
unfolding decide_all first_for
decisions_stand n ss [] q = Option-same (lookup q ss.decisions)
decisions_stand n ss (e ∷ ends) q =
    let x = decide n e.round e.curve e.dealer e.w ss in
    let one = ap (lookup q) (decide-Derives n e.round e.curve e.dealer e.w ss).1 in
    ground (arith, decisions_stand n x.0 ends q, one, lookup-put e.dealer q e.w ss.decisions)

all-Derives :
    (n : ℕ) (ss : Session) (ends : List Ended)
    → let x = decide_all n ss ends in
      (starts x.1 + one_if ss.key_derivation_started ≡ one_if x.0.key_derivation_started)
      × (length ss.decisions ≤ length x.0.decisions)
      × (x.0.key_derivation_started ≡ true
          → (ss.key_derivation_started ≡ true) ⊎ (n ≤ length x.0.decisions))
unfolding decide_all starts Derives
all-Derives n ss [] = (omega arith, omega arith, λ h. inl h)
all-Derives n ss (e ∷ ends) =
    let x = decide n e.round e.curve e.dealer e.w ss in
    let one = decide-Derives n e.round e.curve e.dealer e.w ss in
    let size = ap (λ (m : Map ℤ ℕ). length m) one.1 in
    let rest = all-Derives n x.0 ends in
    let both = starts-append x.1 (decide_all n x.0 ends).1 in
    (
      ground (arith, both, one, rest),
      ground (arith, size, length-put e.dealer e.w ss.decisions, rest),
      ground (arith, size, one, rest),
    )

-- Whatever agreements end in a session whose key derivation has not started: it is started at most
-- once, and only when at least `n` dealers have a decision.
pub key_derivation_once :
    (n : ℕ) (ss : Session) (ends : List Ended)
    → ss.key_derivation_started ≡ false
    → let x = decide_all n ss ends in (starts x.1 ≤ 1) × (starts x.1 ≡ 1 → n ≤ length x.0.decisions)
key_derivation_once n ss ends h = ground (arith, all-Derives n ss ends)

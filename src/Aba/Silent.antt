-- ===== src/Aba/Silent.antt =====
-- Counting the broadcasts of an agreement; its outcome broadcasts nothing.
use adkg.Base.{
  ℕ, zero, suc, ◌+◌, ◌≡◌, refl, ◌⊎◌, Bool, true, false, ◌&&◌, not, Option, none, some, List, [],
  ◌∷◌, ◌++◌, arith, nat_beq, length, All, All-append, Bool-cases, Option-cases, inl, inr, pos, ℤ,
  int_eq, text_eq,
}
use adkg.Base.Maps.{lookup, insert}
use adkg.Messages.{Text, Message, Effect, receive}
use adkg.Session.{Session, contains_int, default_adkg_session}
use adkg.Rounds.{create_round, itoa, from_id, adkg_id_from_round_id}
use adkg.Stores.{StoreMap, with_store, get_or_set_if_not_complete}
use adkg.Aba.{new_init_message}
use adkg.Aba.Decision.{
  keyset_kind, new_coin_init_message, new_key_derivation_init_message, conclude, decide, note_one,
  start_key_derivation, start_others,
}
use adkg.Aba.State.{get_round, AbaState, Sends}

-- The broadcasts that a flag stands for: an estimate of a round and a value, a set of a round
unfoldable pub is_for : Sends → ℕ → ℕ → Effect → Bool
is_for Sends.est q w (Effect.broadcast (Message.aba_est1 _ _ v r)) = nat_beq r q && nat_beq v w
is_for Sends.est2 q w (Effect.broadcast (Message.aba_est2 _ _ v r)) = nat_beq r q && nat_beq v w
is_for Sends.auxset q w (Effect.broadcast (Message.aba_auxset _ _ v r)) = nat_beq r q
is_for _ _ _ _ = false

abbrev pub one_if : Bool → ℕ
one_if true = 1
one_if false = 0

unfoldable pub count_for : Sends → ℕ → ℕ → List Effect → ℕ
count_for b q w [] = 0
count_for b q w (e ∷ out) = one_if (is_for b q w e) + count_for b q w out

-- The round that an init message of an outcome may name, when the counter of rounds is at `k`
unfoldable pub Starts : ℕ → Message → Type 0
Starts k (Message.aba_init _ _ _ r) = (r ≡ 0) ⊎ (r ≡ k + 1)
Starts k _ = Unit {0}

-- What holds of each message of a node to itself holds of all that an outcome does.
module _ (k : ℕ) (P : Effect → Type 0) (p : (m : Message) → Starts k m → P (receive m)) where
  start_others-All :
      (started : List ℤ) (id curve : Text) (left i : ℕ)
      → All P (start_others started id curve left i)
  unfolding start_others Starts
  start_others-All started id curve zero i = tt
  start_others-All started id curve (suc left) i =
      let rest = start_others-All started id curve left (i + 1) in
      elim (Bool-cases (contains_int started (pos i))) [
        | inl e ↦ rw e rest
        | inr e ↦
            rw e (p (new_init_message (create_round id i keyset_kind) 0 0 curve) (inl refl), rest)
      ]

  start_key_derivation-All :
      (n : ℕ) (round curve : Text) (ss : Session) → All P (start_key_derivation n round curve ss).1
  unfolding start_key_derivation Starts
  start_key_derivation-All n round curve ss =
      elim (Bool-cases (nat_beq n (length ss.decisions) && not ss.key_derivation_started)) [
        | inl due ↦
            rw (start_key_derivation, due) (p (new_key_derivation_init_message round curve) tt, tt)
        | inr not_due ↦ rw (start_key_derivation, not_due) tt
      ]

  Noted : Option (Session × List Effect) → Type 0
  Noted none = Unit {0}
  Noted (some (_, out)) = All P out

  note_one-Noted :
      (n : ℕ) (round curve : Text) (x : ℕ) (ss : Session) → Noted (note_one n round curve x ss)
  unfolding note_one Noted
  note_one-Noted n round curve x ss = elim (Bool-cases (nat_beq x 1 && not ss.aba_complete)) [
    | inl one ↦ elim (Option-cases (adkg_id_from_round_id round)) [
      | inl bad ↦ rw (note_one, one, bad) tt
      | inr (id, e) ↦ rw (note_one, one, e) (start_others-All ss.aba_started id curve n 1)
    ]
    | inr other ↦ rw (note_one, other) tt
  ]

  decide-All :
      (n : ℕ) (round curve : Text) (dealer : ℤ) (x : ℕ) (ss : Session)
      → All P (decide n round curve dealer x ss).1
  unfolding decide Noted
  decide-All n round curve dealer x ss =
      let decided = record ss { decisions = insert dealer x ss.decisions } in
      let noted = note_one-Noted n round curve x decided in
      elim (Option-cases (lookup dealer ss.decisions)) [
        | inl new ↦ elim (Option-cases (note_one n round curve x decided)) [
          | inl bad ↦ rw (decide, new, bad) tt
          | inr ((t, out), e) ↦
              rw (decide, new, e)
                (All-append P out (start_key_derivation n round curve t).1 (rw e at noted)
                  (start_key_derivation-All n round curve t))
        ]
        | inr (v, old) ↦ rw (decide, old) tt
      ]

  with_store-All :
      (m : StoreMap Session) (id : Text) (body : Session → Session × List Effect)
      → ((ss : Session) → All P (body ss).1)
      → All P (with_store m id default_adkg_session body).1
  unfolding with_store get_or_set_if_not_complete
  with_store-All m id body h = elim (Option-cases (lookup id m)) [
    | inl missing ↦ rw (with_store, get_or_set_if_not_complete, missing) (h default_adkg_session)
    | inr (none, e) ↦ rw (with_store, get_or_set_if_not_complete, e) tt
    | inr (some ss, e) ↦ rw (with_store, get_or_set_if_not_complete, e) (h ss)
  ]

  pub conclude-All :
      {Point : Type 0} (n : ℕ) (round curve : Text) (r : ℕ) (s : AbaState Point) (l : List ℕ)
      (ss : StoreMap Session)
      → get_round s ≡ k
      → All P (conclude n round curve r s l ss).1
  unfolding conclude Starts
  conclude-All n round curve r s [] ss h = tt
  conclude-All n round curve r s (x ∷ []) ss h = elim (Bool-cases (nat_beq x 2)) [
    | inl coin ↦ rw coin (p (new_coin_init_message round (round ++ itoa r) curve) tt, tt)
    | inr value ↦ elim (Option-cases (from_id round)) [
      | inl bad ↦ rw (value, bad) tt
      | inr (d, e) ↦
          rw (value, e)
            (with_store-All ss d.adkg_id (decide n round curve d.dealer x)
              (decide-All n round curve d.dealer x))
    ]
  ]
  conclude-All n round curve r s (x ∷ y ∷ l) ss h =
      (p (new_init_message round x (get_round s + 1) curve) (inr (omega (arith, h))), tt)

module _ (b : Sends) (q w : ℕ) where
  pub count-append :
      (xs ys : List Effect) → count_for b q w (xs ++ ys) ≡ count_for b q w xs + count_for b q w ys
  unfolding count_for
  count-append [] ys = omega arith
  count-append (x ∷ xs) ys = omega (arith, count-append xs ys)

  is_for-receive : (m : Message) → is_for b q w (receive m) ≡ false
  unfolding is_for
  is_for-receive m = ground arith

  count_none : (out : List Effect) → All (λ e. is_for b q w e ≡ false) out → count_for b q w out ≡ 0
  unfolding count_for
  count_none [] h = refl
  count_none (e ∷ out) h = ground (arith, count_none out h.1)

  pub count-conclude :
      {Point : Type 0} (n : ℕ) (round curve : Text) (r : ℕ) (s : AbaState Point) (l : List ℕ)
      (ss : StoreMap Session)
      → count_for b q w (conclude n round curve r s l ss).1 ≡ 0
  count-conclude n round curve r s l ss = count_none _ (
      conclude-All (get_round s) (λ e. is_for b q w e ≡ false) (λ m _. is_for-receive m) n round
        curve r s l ss refl)

-- ===== src/Stores/Rounds.antt =====
-- Many rounds in one map: each goes its own way.
use adkg.Base.{
  Option, ◌≡◌, refl, ap, ◌∙◌, text_eq, if◌then◌else◌, ◌==◌, Bool-cases, inl, inr, List, [], ◌∷◌,
}
use adkg.Messages.{Text}
use adkg.Stores.{StoreMap, with_store}
use adkg.Stores.Laws.{view, after, view-with_store}

module _ {ℓ κ ι} {S : Type ℓ} {E : Type κ} {I : Type ι} (input : Text → S)
    (body : Text → I → S → S × List E) where
  -- The handlers of one kind of store, run one after the other
  pub process_all : StoreMap S → List (Text × I) → StoreMap S
  process_all m [] = m
  process_all m ((r, i) ∷ msgs) = process_all (with_store m r (input r) (body r i)).0 msgs

  -- The same for one round on its own; `none` stands for a complete one.
  pub process_round : Text → Option S → List I → Option S
  process_round r s [] = s
  process_round r s (i ∷ msgs) = process_round r (after (body r i) s) msgs

  abbrev pub for_round : Text → List (Text × I) → List I
  for_round r [] = []
  for_round r ((q, i) ∷ msgs) = if q == r then i ∷ for_round r msgs else for_round r msgs

  pub rounds_independent :
      (m : StoreMap S) (r : Text) (msgs : List (Text × I))
      → view (process_all m msgs) r (input r)
        ≡ process_round r (view m r (input r)) (for_round r msgs)
  unfolding process_all process_round
  rounds_independent m r [] = refl
  rounds_independent m r ((q, i) ∷ msgs) =
      let law = view-with_store m q r (input q) (input r) (body q i) in
      let on = λ (v : Option S). process_round r v (for_round r msgs) in
      let rest = rounds_independent (with_store m q (input q) (body q i)).0 r msgs in
      elim (Bool-cases (q == r)) [
        | inl same ↦
            let e : q ≡ r = (text_eq.beq_iff q r).0 same in
            let moved = ap (λ x. after (body x i) (view m x (input x))) e in
            rw same (rest ∙ ap on (law ∙ rw same moved))
        | inr other ↦ rw other (rest ∙ ap on (rw other at law))
      ]

-- ===== src/Stores/Examples.antt =====
-- A map with one open and one complete round.
use adkg.Base.{ℕ, ◌+◌, ◌≡◌, none, some, List, [], ◌∷◌, codes, text_eq}
use adkg.Messages.{Text}
use adkg.Stores.{StoreMap}
use adkg.Stores.Laws.{view}
use adkg.Stores.Rounds.{process_all, process_round, for_round, rounds_independent}

abbrev one_round : Text
one_round = codes "a"

abbrev two_round : Text
two_round = codes "b"

abbrev stores : StoreMap ℕ
stores = (one_round, some 7) ∷ (two_round, none) ∷ []

abbrev add : Text → ℕ → ℕ → ℕ × List ℕ
add r i s = (s + i, i ∷ [])

rounds_independent_example :
    let msgs : List (Text × ℕ) = (one_round, 1) ∷ (two_round, 2) ∷ (one_round, 3) ∷ [] in
    view (process_all (λ r. 0) add stores msgs) one_round 0
    ≡ process_round
        (λ r. 0)
        add
        one_round
        (view stores one_round 0)
        (for_round (λ r. 0) add one_round msgs)
rounds_independent_example =
    rounds_independent (λ r. 0) add stores one_round
      ((one_round, 1) ∷ (two_round, 2) ∷ (one_round, 3) ∷ [])

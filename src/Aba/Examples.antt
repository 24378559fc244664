-- ===== src/Aba/Examples.antt =====
-- An agreement among four nodes, of which one may fail.
use adkg.Base.{ℕ, ◌≤◌, ◌≡◌, refl, none, some, List, [], ◌∷◌, pos, int_eq, All, length, codes}
use adkg.Base.Maps.{lookup}
use adkg.Messages.{Text}
use adkg.Session.{Session, default_adkg_session}
use adkg.Stores.{StoreMap}
use adkg.Aba.State.{AbaState, Sends, default_aba_store, sent, get_round}
use adkg.Aba.Run.{Kind, Input, run}
use adkg.Aba.Tally.{IsCounted}
use adkg.Aba.Quorums.{bins_quorum}
use adkg.Aba.Silent.{count_for, one_if}
use adkg.Aba.Once.{announces_at_most_once}
use adkg.Aba.Uniform.{IsFirst, aux_uniform}
use adkg.Aba.Counter.{IsEarly, rounds_stop}
use adkg.Aba.Outcome.{Ended, decide_all, starts, first_for, decisions_stand, key_derivation_once}

abbrev round : Text
round = codes "r"

abbrev est : ℕ → Input
est node = record { kind = Kind.est1; sender = node; v = 1; r = 0 }

abbrev inputs : List Input
inputs = est 1 ∷ est 2 ∷ est 3 ∷ est 3 ∷ record { kind = Kind.aux1; sender = 2; v = 1; r = 0 } ∷ []

abbrev new_store : AbaState ℕ
new_store = default_aba_store ℕ

abbrev sessions : StoreMap Session
sessions = []

bins_quorum_example : IsCounted 1 (run 4 1 round [] new_store sessions inputs).0
bins_quorum_example = bins_quorum ℕ 4 1 round [] sessions inputs

announces_at_most_once_example :
    let x = run 4 1 round [] new_store sessions inputs in
    (count_for Sends.est 0 1 x.2 ≤ 1)
    × (count_for Sends.est 0 1 x.2 ≡ one_if (sent Sends.est 0 1 x.0))
announces_at_most_once_example = announces_at_most_once ℕ 4 1 round [] sessions inputs Sends.est 0 1

aux_uniform_example : let w = run 4 1 round [] new_store sessions inputs in All (IsFirst w.0) w.2
aux_uniform_example = aux_uniform 4 1 round [] new_store sessions inputs

rounds_stop_example :
    let x = run 4 1 round [] new_store sessions inputs in (get_round x.0 ≡ 0) × All IsEarly x.2
rounds_stop_example = rounds_stop 4 1 round [] new_store sessions inputs refl

abbrev ends : List Ended
ends =
    record { round = round; curve = []; dealer = pos 2; w = 0 }
    ∷ record { round = round; curve = []; dealer = pos 1; w = 0 }
    ∷ record { round = round; curve = []; dealer = pos 2; w = 1 }
    ∷ []

decisions_stand_example :
    lookup (pos 2) (decide_all 2 default_adkg_session ends).0.decisions
    ≡ elim (lookup (pos 2) default_adkg_session.decisions) [
      | some x ↦ some x
      | none ↦ first_for (pos 2) ends
    ]
decisions_stand_example = decisions_stand 2 default_adkg_session ends (pos 2)

key_derivation_once_example :
    let x = decide_all 2 default_adkg_session ends in
    (starts x.1 ≤ 1) × (starts x.1 ≡ 1 → 2 ≤ length x.0.decisions)
key_derivation_once_example = key_derivation_once 2 default_adkg_session ends refl

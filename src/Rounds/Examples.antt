-- ===== src/Rounds/Examples.antt =====
-- Identifiers of a key generation and of its rounds.
use adkg.Base.{ℕ, ◌≡◌, ◌≤◌, ◌<◌, ◌↔◌, refl, some, arith, pos, codes, text_eq}
use adkg.Rounds.{Text, create_round, leader, delimiter4}
use adkg.Rounds.Parts.{Lacks}
use adkg.Rounds.Ids.{leader-create_round}

abbrev id : Text
id = codes "adkg"

abbrev kind : Text
kind = codes "keyset"

-- The dealer 12 is written in decimal and read as 18.
leader_test : leader (create_round id 12 kind) ≡ some (pos 18)
unfolding leader create_round
leader_test = refl

plain_id : Lacks delimiter4 id
plain_id = omega arith

plain_kind : Lacks delimiter4 kind
plain_kind = omega arith

leader_example :
    (m : ℕ) × (leader (create_round id 12 kind) ≡ some (pos m)) × ((m ≡ 12) ↔ (12 < 10)) × (12 ≤ m)
leader_example = leader-create_round id kind 12 plain_id plain_kind

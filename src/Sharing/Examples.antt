-- ===== src/Sharing/Examples.antt =====
-- Shares over the field with two elements.
use adkg.Base.{◌≤◌, ◌≡◌, refl, true, List, [], ◌∷◌, map, All, length}
use adkg.Base.Distinct.{Distinct}
use adkg.Curve.Sample.{bits, bits-IsLawful}
use adkg.Sharing.{ShamirShare, good, combine}
use adkg.Sharing.Points.{combine_share_points, on_points, combine_share_points-combine}
use adkg.Sharing.Guards.{IsFit, combine_guards}

abbrev two_shares : List ShamirShare
two_shares = record { id = 2; value = 1 ∷ [] } ∷ record { id = 3; value = 1 ∷ [] } ∷ []

combined : combine bits 2 3 two_shares ≡ good true
unfolding combine
combined = refl

combine_guards_example :
    (2 ≤ length two_shares)
    × Distinct (map ShamirShare.id two_shares)
    × All (IsFit bits 3) two_shares
combine_guards_example = combine_guards bits 2 3 two_shares true combined

combine_share_points-combine_example :
    combine_share_points bits true 2 3 two_shares
    ≡ on_points bits true (combine bits 2 3 two_shares)
combine_share_points-combine_example =
    combine_share_points-combine bits 33 bits-IsLawful true 2 3 two_shares

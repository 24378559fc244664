-- ===== src/Rounds/Parts.antt =====
-- Joining at a delimiter and splitting again, for parts that do not hold it.
use adkg.Base.{ℕ, ◌<◌, ◌≡◌, ◌≢◌, refl, [], ◌∷◌, ◌++◌, arith, All, All-append}
use adkg.Rounds.{Text, split}
use adkg.Rounds.Numerals.{IsPrinted}

abbrev pub Lacks : ℕ → Text → Type 0
Lacks sep = All (λ c. c ≢ sep)

pub split-append : (sep : ℕ) (p s : Text) → Lacks sep p → split sep (p ++ sep ∷ s) ≡ p ∷ split sep s
unfolding split
split-append sep [] s h = ground arith
split-append sep (c ∷ p) s h = ground (arith, split-append sep p s h.1)

pub split-Lacks : (sep : ℕ) (p : Text) → Lacks sep p → split sep p ≡ p ∷ []
unfolding split
split-Lacks sep [] h = refl
split-Lacks sep (c ∷ p) h = ground (arith, split-Lacks sep p h.1)

pub printed-Lacks : (sep : ℕ) (s : Text) → sep < b'0' → All IsPrinted s → Lacks sep s
printed-Lacks sep [] h p = tt
printed-Lacks sep (c ∷ s) h p = (omega arith, printed-Lacks sep s h p.1)

pub Lacks-join :
    (sep c : ℕ) (p s : Text) → c ≢ sep → Lacks sep p → Lacks sep s → Lacks sep (p ++ c ∷ s)
Lacks-join sep c p s h hp hs = All-append (λ x. x ≢ sep) p (c ∷ s) hp (h, hs)

-- ===== src/Dealing/Soundness.antt =====
-- What `Predicate` accepts.
use adkg.Base.{
  ℕ, zero, suc, ◌+◌, ◌*◌, ◌≡◌, refl, sym, ap, ◌∙◌, List, ◌∷◌, length, nat_eq, int_eq, Option-cases,
  inl, inr, ◌⊎◌, arith,
}
use adkg.Messages.{Text}
use adkg.Curve.{Curve}
use adkg.Coin.{Outcome-cases, done, read, slice}
use adkg.Sharing.{ShareError, ShamirShare, Checked, good, bad, verify_share}
use adkg.Dealing.{Ecies, decrypt, read_share, decompress_commitments, acss_predicate}
use adkg.Dealing.Acceptance.{verdict_on, acss_predicate_lem}

Checked-cases :
    (o : Checked (Unit {0}))
    → (o ≡ good tt) ⊎ (((e : ShareError) × (o ≡ bad e)) ⊎ (o ≡ Checked.panics))
Checked-cases (good x) = inl refl
Checked-cases (bad e) = inr (inl (e, refl))
Checked-cases Checked.panics = inr (inr refl)

module _ (c : Curve) where
  decompress_count :
      (size left i : ℕ) (t : Text) (l : List c.Point)
      → decompress_commitments c size left i t ≡ done l
      → length l ≡ left
  unfolding decompress_commitments read
  decompress_count size zero i t l h = ground arith
  decompress_count size (suc left) i t l h =
      elim (Option-cases (slice (i * size) (i * size + size) t)) [
        | inl short ↦ absurd (ground arith)
        | inr (b, cut) ↦ elim (Option-cases (c.point_of_bytes b)) [
          | inl unread ↦ absurd (ground arith)
          | inr (p, named) ↦ elim (Outcome-cases (decompress_commitments c size left (i + 1) t)) [
            | inl (r, e) ↦
                let ih = decompress_count size left (i + 1) t r e in
                let whole : p ∷ r ≡ l = ground arith in rw (← whole) (ap suc ih)
            | inr (inl e) ↦ absurd (ground arith)
            | inr (inr e) ↦ absurd (ground arith)
          ]
        ]
      ]

  -- `Predicate` gives only shares that the check of the commitments passes, of which there are `k`.
  pub acss_predicate_sound :
      (e : Ecies) (g : c.Point) (size k : ℕ) (key cipher commits : Text) (s : ShamirShare)
      (l : List c.Point)
      → acss_predicate c e g size k key cipher commits ≡ done (s, l)
      → (length l ≡ k) × (verify_share c g l s ≡ good tt)
  unfolding acss_predicate verdict_on
  acss_predicate_sound e g size k key cipher commits s l h =
      elim (Outcome-cases (decrypt e key cipher)) [
        | inr (inl o) ↦ absurd (ground arith)
        | inr (inr o) ↦ absurd (ground arith)
        | inl (t, opened) ↦ elim (Outcome-cases (read_share t)) [
          | inr (inl o) ↦ absurd (ground arith)
          | inr (inr o) ↦ absurd (ground arith)
          | inl (s1, named) ↦ elim (Outcome-cases (decompress_commitments c size k 0 commits)) [
            | inr (inl o) ↦ absurd (ground arith)
            | inr (inr o) ↦ absurd (ground arith)
            | inl (l1, listed) ↦
                let count = decompress_count size k 0 commits l1 listed in
                let judge : (r : Checked (Unit {0}))
                    → verify_share c g l1 s1 ≡ r
                    → verdict_on c s1 l1 r ≡ done (s, l) =
                  λ r v.
                    sym (
                      acss_predicate_lem c e g size k key cipher commits t s1 l1 r opened named
                        listed v)
                    ∙ h in
                elim (Checked-cases (verify_share c g l1 s1)) [
                  | inr (inl (x, v)) ↦ absurd (cc (judge (bad x) v))
                  | inr (inr v) ↦ absurd (cc (judge Checked.panics v))
                  | inl v ↦
                      let both : ◌≡◌ {A = ShamirShare × List c.Point} (s1, l1) (s, l) =
                        cc (judge (good tt) v) in
                      let es : s1 ≡ s = ap (λ p. p.0) both in
                      let el : l1 ≡ l = ap (λ p. p.1) both in rw (← es, ← el) (count, v)
                ]
          ]
        ]
      ]

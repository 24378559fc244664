-- ===== src/Aba/Laws.antt =====
-- What each setter of `ABAState` leaves in the other tables.
use adkg.Base.{
  ℕ, Bool, true, false, ◌&&◌, List, [], ◌∷◌, ◌++◌, ◌≡◌, refl, arith, if◌then◌else◌, nat_beq,
  Bool-cases, inl, inr, ap, ◌∙◌, nat_eq,
}
use adkg.Base.Maps
use adkg.Aba.State.{
  AbaState, Values, Sends, Bins, Table, entry, set_entry, entry-set_entry, values_table,
  with_values, values, set_values, sent, set_sent, get_bin, set_bin, set_started,
}

unfoldable pub same_values : Values → Values → Bool
same_values Values.est Values.est = true
same_values Values.est2 Values.est2 = true
same_values Values.aux Values.aux = true
same_values Values.aux2 Values.aux2 = true
same_values Values.auxset Values.auxset = true
same_values _ _ = false

unfoldable pub same_bin : Bins → Bins → Bool
same_bin Bins.bin Bins.bin = true
same_bin Bins.bin2 Bins.bin2 = true
same_bin _ _ = false

-- The value plays no part in the flag of auxset.
unfoldable pub same_flag : Sends → ℕ → ℕ → Sends → ℕ → ℕ → Bool
same_flag Sends.est r v Sends.est q w = nat_beq r q && nat_beq v w
same_flag Sends.est2 r v Sends.est2 q w = nat_beq r q && nat_beq v w
same_flag Sends.auxset r v Sends.auxset q w = nat_beq r q
same_flag _ _ _ _ _ _ = false

pub same_values_self : (k : Values) → same_values k k ≡ true
unfolding same_values
same_values_self k = ground arith

pub same_bin_self : (b : Bins) → same_bin b b ≡ true
unfolding same_bin
same_bin_self b = ground arith

same_values→eq : (j k : Values) → same_values j k ≡ true → j ≡ k
unfolding same_values
same_values→eq j k h = ground arith

module _ {Point : Type 0} where
  table-with_values :
      (k j : Values) (t : Table (List ℕ)) (s : AbaState Point)
      → values_table k (with_values j t s) ≡ (if same_values j k then t else values_table k s)
  unfolding values_table with_values same_values
  table-with_values k j t s = ground arith

  pub values-set_sent :
      (k : Values) (b : Sends) (r v q w : ℕ) (s : AbaState Point)
      → values k q w (set_sent b r v s) ≡ values k q w s
  unfolding values values_table set_sent
  values-set_sent k b r v q w s = ground arith

  pub values-set_bin :
      (k : Values) (b : Bins) (r v q w : ℕ) (s : AbaState Point)
      → values k q w (set_bin b r v s) ≡ values k q w s
  unfolding values values_table set_bin
  values-set_bin k b r v q w s = ground arith

  pub values-set_started :
      (k : Values) (r q w : ℕ) (s : AbaState Point)
      → values k q w (set_started r s) ≡ values k q w s
  unfolding values values_table set_started
  values-set_started k r q w s = ground arith

  values_own :
      (k : Values) (r v node q w : ℕ) (s : AbaState Point)
      → values k q w (set_values k r v node s)
        ≡ (if nat_beq r q && nat_beq v w then values k q w s ++ node ∷ [] else values k q w s)
  unfolding values set_values
  values_own k r v node q w s =
      let t = values_table k s in
      let a = entry t r v [] ++ node ∷ [] in
      let put = entry-set_entry t r v q w a [] in
      let table = table-with_values k k (set_entry t r v a) s in
      rw (table, same_values_self k, put)
        (elim (Bool-cases (nat_beq r q)) [
          | inl er ↦ elim (Bool-cases (nat_beq v w)) [
            | inl ev ↦
                let here : (r ≡ q) × (v ≡ w) = ground arith in
                rw (er, ev)
                  (ap (λ i. entry t i v [] ++ node ∷ []) here.0
                    ∙ ap (λ i. entry t q i [] ++ node ∷ []) here.1)
            | inr ev ↦ rw (er, ev) refl
          ]
          | inr er ↦ rw er refl
        ])

  pub values-set_values :
      (k j : Values) (r v node q w : ℕ) (s : AbaState Point)
      → values k q w (set_values j r v node s) ≡ (
          if same_values j k && (nat_beq r q && nat_beq v w)
          then values k q w s ++ node ∷ []
          else values k q w s)
  unfolding values set_values
  values-set_values k j r v node q w s = elim (Bool-cases (same_values j k)) [
    | inl same ↦
        let e = same_values→eq j k same in
        let own = values_own k r v node q w s in
        rw same (ap (λ i. values k q w (set_values i r v node s)) e ∙ own)
    | inr other ↦
        rw
          (
            other,
            table-with_values k j (set_entry (values_table j s) r v (values j r v s ++ node ∷ []))
                s,
            other,
          )
          refl
  ]

  -- The bins
  pub get_bin-set_values :
      (b : Bins) (k : Values) (r v node q : ℕ) (s : AbaState Point)
      → get_bin b q (set_values k r v node s) ≡ get_bin b q s
  unfolding get_bin set_values with_values
  get_bin-set_values b k r v node q s = ground arith

  pub get_bin-set_sent :
      (b : Bins) (f : Sends) (r v q : ℕ) (s : AbaState Point)
      → get_bin b q (set_sent f r v s) ≡ get_bin b q s
  unfolding get_bin set_sent
  get_bin-set_sent b f r v q s = ground arith

  pub get_bin-set_started :
      (b : Bins) (r q : ℕ) (s : AbaState Point) → get_bin b q (set_started r s) ≡ get_bin b q s
  unfolding get_bin set_started
  get_bin-set_started b r q s = ground arith

  pub get_bin-set_bin :
      (b c : Bins) (r v q : ℕ) (s : AbaState Point)
      → get_bin b q (set_bin c r v s)
        ≡ (if same_bin c b && nat_beq r q then get_bin b q s ++ v ∷ [] else get_bin b q s)
  unfolding get_bin set_bin same_bin
  get_bin-set_bin b c r v q s =
      let at =
        λ (m : Maps.Map ℕ (List ℕ)). Maps.get_or-insert r q (Maps.get_or m r [] ++ v ∷ []) [] m in
      let e : nat_beq r q ≡ true → r ≡ q = (λ h. ground arith) in
      let move = λ (m : Maps.Map ℕ (List ℕ)) (h : nat_beq r q ≡ true).
        ap (λ i. Maps.get_or m i [] ++ v ∷ []) (e h) in
      elim (Bool-cases (nat_beq r q)) [
        | inl h ↦
            ground (
              arith,
              h,
              at s.bin_values,
              at s.bin_values2,
              move s.bin_values h,
              move s.bin_values2 h,
            )
        | inr h ↦ ground (arith, h, at s.bin_values, at s.bin_values2)
      ]

  -- The flags
  pub sent-set_values :
      (f : Sends) (k : Values) (r v node q w : ℕ) (s : AbaState Point)
      → sent f q w (set_values k r v node s) ≡ sent f q w s
  unfolding sent set_values with_values
  sent-set_values f k r v node q w s = ground arith

  pub sent-set_bin :
      (f : Sends) (b : Bins) (r v q w : ℕ) (s : AbaState Point)
      → sent f q w (set_bin b r v s) ≡ sent f q w s
  unfolding sent set_bin
  sent-set_bin f b r v q w s = ground arith

  pub sent-set_started :
      (f : Sends) (r q w : ℕ) (s : AbaState Point) → sent f q w (set_started r s) ≡ sent f q w s
  unfolding sent set_started
  sent-set_started f r q w s = ground arith

  pub sent-set_sent :
      (f g : Sends) (r v q w : ℕ) (s : AbaState Point)
      → sent f q w (set_sent g r v s) ≡ (if same_flag g r v f q w then true else sent f q w s)
  unfolding sent set_sent same_flag
  sent-set_sent f g r v q w s = ground (
    arith,
    entry-set_entry s.est_sent r v q w true false,
    entry-set_entry s.est_sent2 r v q w true false,
    Maps.get_or-insert r q true false s.auxset_sent,
  )

  -- The flag of one estimate, read under two names
  pub same_flag-sent :
      (f g : Sends) (r v q w : ℕ) (s : AbaState Point)
      → same_flag f r v g q w ≡ true
      → sent f r v s ≡ sent g q w s
  unfolding sent same_flag
  same_flag-sent Sends.est Sends.est r v q w s h =
      let e : (r ≡ q) × (v ≡ w) = ground arith in
      ap (λ i. entry s.est_sent i v false) e.0 ∙ ap (λ i. entry s.est_sent q i false) e.1
  same_flag-sent Sends.est2 Sends.est2 r v q w s h =
      let e : (r ≡ q) × (v ≡ w) = ground arith in
      ap (λ i. entry s.est_sent2 i v false) e.0 ∙ ap (λ i. entry s.est_sent2 q i false) e.1
  same_flag-sent Sends.auxset Sends.auxset r v q w s h =
      let e : r ≡ q = ground arith in ap (λ i. Maps.get_or s.auxset_sent i false) e
  same_flag-sent Sends.est Sends.est2 r v q w s h = cc
  same_flag-sent Sends.est Sends.auxset r v q w s h = cc
  same_flag-sent Sends.est2 Sends.est r v q w s h = cc
  same_flag-sent Sends.est2 Sends.auxset r v q w s h = cc
  same_flag-sent Sends.auxset Sends.est r v q w s h = cc
  same_flag-sent Sends.auxset Sends.est2 r v q w s h = cc

-- ===== src/Aba/State.antt =====
-- common/adkg_common.go: `ABAState`, the tables of a binary agreement, with its getters and setters.
-- The `kind` strings are data types here, so the panics on other strings are not reached.
use adkg.Base.{
  ℕ, ◌+◌, Bool, true, false, List, [], ◌∷◌, ◌++◌, Map, nat_eq, if◌then◌else◌, ◌≡◌, arith, nat_beq,
  Bool-cases, inl, inr, ap,
}
use adkg.Base.Maps

pub data Values : Type 0 where
  est est2 aux aux2 auxset : Values

pub data Sends : Type 0 where
  est est2 auxset : Sends

pub data Bins : Type 0 where
  bin bin2 : Bins

-- `map[int]map[int]A`: by round and by value
abbrev pub Table : Type 0 → Type 0
Table A = Map ℕ (Map ℕ A)

pub record AbaState (Point : Type 0) : Type 0 where
  pub started : Map ℕ Bool
  pub round : ℕ
  pub coin_shares : Map ℕ Point
  pub est_values : Table (List ℕ)
  pub aux_values : Table (List ℕ)
  pub est_values2 : Table (List ℕ)
  pub aux_values2 : Table (List ℕ)
  pub auxset_values : Table (List ℕ)
  pub est_sent2 : Table Bool
  pub est_sent : Table Bool
  pub auxset_sent : Map ℕ Bool
  pub bin_values : Map ℕ (List ℕ)
  pub bin_values2 : Map ℕ (List ℕ)

-- `DefaultABAStore`
abbrev pub default_aba_store : (Point : Type 0) → AbaState Point
default_aba_store Point = record {
  started = [];
  round = 0;
  coin_shares = [];
  est_values = [];
  aux_values = [];
  est_values2 = [];
  aux_values2 = [];
  auxset_values = [];
  est_sent2 = [];
  est_sent = [];
  auxset_sent = [];
  bin_values = [];
  bin_values2 = [];
}

module _ {A : Type 0} where
  -- `t[r][v]`, with the zero value
  unfoldable pub entry : Table A → ℕ → ℕ → A → A
  entry t r v zero_value = Maps.get_or (Maps.get_or t r []) v zero_value

  -- `t[r][v] = a`, behind the creation of `t[r]`
  unfoldable pub set_entry : Table A → ℕ → ℕ → A → Table A
  set_entry t r v a = Maps.insert r (Maps.insert v a (Maps.get_or t r [])) t

  pub entry-set_entry :
      (t : Table A) (r v q w : ℕ) (a z : A)
      → entry (set_entry t r v a) q w z
        ≡ (if nat_beq r q then (if nat_beq v w then a else entry t q w z) else entry t q w z)
  unfolding entry set_entry
  entry-set_entry t r v q w a z = elim (Bool-cases (nat_beq r q)) [
    | inl same ↦
        let e : r ≡ q = ground arith in
        ground (
          arith,
          same,
          Maps.get_or-insert r q (Maps.insert v a (Maps.get_or t r [])) [] t,
          Maps.get_or-insert v w a z (Maps.get_or t r []),
          ap (λ i. Maps.get_or (Maps.get_or t i []) w z) e,
        )
    | inr other ↦
        ground (arith, other, Maps.get_or-insert r q (Maps.insert v a (Maps.get_or t r [])) [] t)
  ]

module _ {Point : Type 0} where
  unfoldable pub values_table : Values → AbaState Point → Table (List ℕ)
  values_table Values.est s = s.est_values
  values_table Values.est2 s = s.est_values2
  values_table Values.aux s = s.aux_values
  values_table Values.aux2 s = s.aux_values2
  values_table Values.auxset s = s.auxset_values

  unfoldable pub with_values : Values → Table (List ℕ) → AbaState Point → AbaState Point
  with_values Values.est t s = record s { est_values = t }
  with_values Values.est2 t s = record s { est_values2 = t }
  with_values Values.aux t s = record s { aux_values = t }
  with_values Values.aux2 t s = record s { aux_values2 = t }
  with_values Values.auxset t s = record s { auxset_values = t }

  -- `Values` and `SetValues`
  unfoldable pub values : Values → ℕ → ℕ → AbaState Point → List ℕ
  unfolding entry values_table
  values kind r v s = entry (values_table kind s) r v []

  unfoldable pub set_values : Values → ℕ → ℕ → ℕ → AbaState Point → AbaState Point
  unfolding set_entry values_table with_values values
  set_values kind r v node s =
      with_values kind (set_entry (values_table kind s) r v (values kind r v s ++ node ∷ [])) s

  -- `Sent` and `SetSent`; that of auxset is by round only.
  unfoldable pub sent : Sends → ℕ → ℕ → AbaState Point → Bool
  unfolding entry
  sent Sends.est r v s = entry s.est_sent r v false
  sent Sends.est2 r v s = entry s.est_sent2 r v false
  sent Sends.auxset r v s = Maps.get_or s.auxset_sent r false

  unfoldable pub set_sent : Sends → ℕ → ℕ → AbaState Point → AbaState Point
  unfolding set_entry
  set_sent Sends.est r v s = record s { est_sent = set_entry s.est_sent r v true }
  set_sent Sends.est2 r v s = record s { est_sent2 = set_entry s.est_sent2 r v true }
  set_sent Sends.auxset r v s = record s { auxset_sent = Maps.insert r true s.auxset_sent }

  -- `GetBin` and `SetBin`
  unfoldable pub get_bin : Bins → ℕ → AbaState Point → List ℕ
  get_bin bin r s = Maps.get_or s.bin_values r []
  get_bin bin2 r s = Maps.get_or s.bin_values2 r []

  unfoldable pub set_bin : Bins → ℕ → ℕ → AbaState Point → AbaState Point
  unfolding get_bin
  set_bin bin r v s = record s {
    bin_values = Maps.insert r (get_bin bin r s ++ v ∷ []) s.bin_values;
  }
  set_bin bin2 r v s = record s {
    bin_values2 = Maps.insert r (get_bin bin2 r s ++ v ∷ []) s.bin_values2;
  }

  -- `GetStarted`, `SetStarted`, `GetRound` and `IncrementRound`
  unfoldable pub get_started : ℕ → AbaState Point → Bool
  get_started r s = Maps.get_or s.started r false

  unfoldable pub set_started : ℕ → AbaState Point → AbaState Point
  set_started r s = record s { started = Maps.insert r true s.started }

  abbrev pub get_round : AbaState Point → ℕ
  get_round s = s.round

  abbrev pub increment_round : AbaState Point → AbaState Point
  increment_round s = record s { round = s.round + 1 }

  -- `SetCoinShare`
  unfoldable pub set_coin_share : ℕ → Point → AbaState Point → AbaState Point
  set_coin_share i p s = record s { coin_shares = Maps.insert i p s.coin_shares }

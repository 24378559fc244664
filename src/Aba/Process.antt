-- ===== src/Aba/Process.antt =====
-- keygen/message_handlers/aba: each `Process` with the lookup of the agreement's store in `ABAStore`.
use adkg.Base.{ℕ, none, some, List, [], nat_beq, if◌then◌else◌}
use adkg.Messages.{Text, Effect}
use adkg.Session.{Session}
use adkg.Stores.{StoreMap, get_or_set_if_not_complete, write_back, with_store}
use adkg.Aba.{Action, on_init, on_est1, on_est2, on_aux1, on_auxset}
use adkg.Aba.Decision.{on_aux2}
use adkg.Aba.State.{AbaState, default_aba_store}

module _ {Point : Type 0} where
  abbrev under :
      StoreMap (AbaState Point) → Text → Action Point → StoreMap (AbaState Point) × List Effect
  under m round body = with_store m round (default_aba_store Point) body

  unfoldable pub process_init :
      (self sender : ℕ)
      → (round curve : Text) → (v r : ℕ) → StoreMap (AbaState Point)
      → StoreMap (AbaState Point) × List Effect
  process_init self sender round curve v r m =
      if nat_beq sender self then under m round (on_init round curve v r) else (m, [])

  unfoldable pub process_est1 :
      (f sender : ℕ)
      → (round curve : Text) → (v r : ℕ) → StoreMap (AbaState Point)
      → StoreMap (AbaState Point) × List Effect
  process_est1 f sender round curve v r m = under m round (on_est1 f sender round curve v r)

  unfoldable pub process_est2 :
      (f sender : ℕ)
      → (round curve : Text) → (v r : ℕ) → StoreMap (AbaState Point)
      → StoreMap (AbaState Point) × List Effect
  process_est2 f sender round curve v r m = under m round (on_est2 f sender round curve v r)

  unfoldable pub process_aux1 :
      (n f sender : ℕ)
      → (round curve : Text) → (v r : ℕ) → StoreMap (AbaState Point)
      → StoreMap (AbaState Point) × List Effect
  process_aux1 n f sender round curve v r m = under m round (on_aux1 n f sender round curve v r)

  unfoldable pub process_auxset :
      (n f sender : ℕ)
      → (round curve : Text) → (v r : ℕ) → StoreMap (AbaState Point)
      → StoreMap (AbaState Point) × List Effect
  process_auxset n f sender round curve v r m = under m round (on_auxset n f sender round curve v r)

  -- The handler of aux2 takes the lock of the session inside that of the agreement.
  unfoldable pub process_aux2 :
      (n f sender : ℕ)
      → (round curve : Text) → (v r : ℕ) → StoreMap (AbaState Point) × StoreMap Session
      → StoreMap (AbaState Point) × StoreMap Session × List Effect
  process_aux2 n f sender round curve v r (m, sessions) =
      let (m1, found) = get_or_set_if_not_complete m round (default_aba_store Point) in
      elim found [
        | none ↦ (m1, sessions, [])
        | some s ↦
            let (s1, sessions1, out) = on_aux2 n f sender round curve v r s sessions in
            (write_back m1 round s1, sessions1, out)
      ]

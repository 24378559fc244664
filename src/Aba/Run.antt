-- ===== src/Aba/Run.antt =====
-- One agreement at one node, from its new store: the messages in the order in which their handlers take
-- the lock.
use adkg.Base.{ℕ, List, [], ◌∷◌, ◌++◌}
use adkg.Messages.{Text, Effect}
use adkg.Session.{Session}
use adkg.Stores.{StoreMap}
use adkg.Aba.{on_init, on_est1, on_est2, on_aux1, on_auxset}
use adkg.Aba.Decision.{on_aux2}
use adkg.Aba.State.{AbaState}

pub data Kind : Type 0 where
  init est1 aux1 auxset est2 aux2 : Kind

pub record Input : Type 0 where
  pub kind : Kind
  pub sender : ℕ
  pub v : ℕ
  pub r : ℕ

-- The store of the agreement, the sessions, and what was done
abbrev pub World : Type 0 → Type 0
World Point = AbaState Point × StoreMap Session × List Effect

module _ {Point : Type 0} (n f : ℕ) (round curve : Text) where
  unfoldable pub handle : Kind → (sender v r : ℕ) → AbaState Point → StoreMap Session → World Point
  handle Kind.init sender v r s ss = let (s1, out) = on_init round curve v r s in (s1, ss, out)
  handle Kind.est1 sender v r s ss =
      let (s1, out) = on_est1 f sender round curve v r s in (s1, ss, out)
  handle Kind.aux1 sender v r s ss =
      let (s1, out) = on_aux1 n f sender round curve v r s in (s1, ss, out)
  handle Kind.auxset sender v r s ss =
      let (s1, out) = on_auxset n f sender round curve v r s in (s1, ss, out)
  handle Kind.est2 sender v r s ss =
      let (s1, out) = on_est2 f sender round curve v r s in (s1, ss, out)
  handle Kind.aux2 sender v r s ss = on_aux2 n f sender round curve v r s ss

  unfoldable pub run : AbaState Point → StoreMap Session → List Input → World Point
  run s ss [] = (s, ss, [])
  run s ss (i ∷ inputs) =
      let (s1, ss1, out1) = handle i.kind i.sender i.v i.r s ss in
      let (s2, ss2, out2) = run s1 ss1 inputs in (s2, ss2, out1 ++ out2)

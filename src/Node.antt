-- ===== src/Node.antt =====
-- keygen/keygen_node.go: the state of a node over all its key generations, and its end of one.
pub mod Cleanup
pub mod Examples
pub mod Frame
pub mod Dispatch
pub mod Removal
pub mod Tracker
use adkg.Base.{ℕ, List, [], ◌∷◌, codes}
use adkg.Messages.{Text}
use adkg.Rounds.{create_round}
use adkg.Session.{Session}
use adkg.Stores.{StoreMap, complete}
use adkg.Stores
use adkg.Rbc.{SharingStore}
use adkg.Aba.State.{AbaState}

-- `NodeState`
pub record NodeState (Point : Type 0) : Type 0 where
  pub keygen_store : StoreMap SharingStore
  pub session_store : StoreMap Session
  pub aba_store : StoreMap (AbaState Point)

abbrev pub acss_kind : Text
acss_kind = codes "acss"

abbrev pub keyset_kind : Text
keyset_kind = codes "keyset"

module _ {Point : Type 0} where
  -- The loop of `cleanupKeygenStore`, over the indices of `CurrentNodes`
  unfoldable pub cleanup_keygen_store : List ℕ → Text → NodeState Point → NodeState Point
  cleanup_keygen_store [] id s = s
  cleanup_keygen_store (node ∷ nodes) id s =
      let acss_id = create_round id node acss_kind in
      let keyset_id = create_round id node keyset_kind in
      cleanup_keygen_store nodes id (record s {
        keygen_store = complete (complete s.keygen_store acss_id) keyset_id;
        aba_store = complete s.aba_store keyset_id;
      })

  -- `cleanupSessionStore`
  unfoldable pub cleanup_session_store : Text → NodeState Point → NodeState Point
  cleanup_session_store id s = record s { session_store = complete s.session_store id }

  -- `cleanup` and `Cleanup`
  unfoldable pub cleanup : List ℕ → Text → NodeState Point → NodeState Point
  unfolding cleanup_keygen_store cleanup_session_store
  cleanup nodes id s = cleanup_session_store id (cleanup_keygen_store nodes id s)

  -- `remove`, after the time that a key generation may take
  unfoldable pub remove_rounds : List ℕ → Text → NodeState Point → NodeState Point
  remove_rounds [] id s = s
  remove_rounds (node ∷ nodes) id s =
      let acss_id = create_round id node acss_kind in
      let keyset_id = create_round id node keyset_kind in
      remove_rounds nodes id (record s {
        keygen_store = Stores.delete (Stores.delete s.keygen_store acss_id) keyset_id;
        aba_store = Stores.delete s.aba_store keyset_id;
      })

  unfoldable pub remove : List ℕ → Text → NodeState Point → NodeState Point
  unfolding remove_rounds
  remove nodes id s =
      let rest = remove_rounds nodes id s in
      record rest { session_store = Stores.delete rest.session_store id }

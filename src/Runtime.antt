-- ===== src/Runtime.antt =====
-- What the handlers take from outside the repository: the parameters of the node (`Params`), the hash
-- functions, the erasure code of github.com/vivint/infectious, and the order in which Go walks a map.
pub mod Sample
use mathlib.Core.List.{Perm}
use adkg.Base.{ℕ, ◌≡◌, List, Option, Map, length}
use adkg.Messages.{Text, Share}

pub record EchoStore : Type 0 where
  pub share : Share
  pub hash : Text
  pub count : ℕ

-- `decode k n shares` is `NewFEC(k, n)` and then `Decode(nil, shares)`: it sorts and corrects the slice
-- that it is given, so it returns that slice too; `none` is an error of either.
-- `encode k n data` is `NewFEC(k, n)` and `Encode` of the padded data: the shares in their order.
-- `nodes` are the indices of `Nodes()`, in the order of one `range`, and `self` is `ID()`.
-- `walk m` is the order in which one `range` goes through the map.
pub record Runtime : Type 0 where
  pub n : ℕ
  pub k : ℕ
  pub f : ℕ
  pub keccak256 : Text → Text
  pub sha256 : Text → Text
  pub self : ℕ
  pub nodes : List ℕ
  pub encode : ℕ → ℕ → Text → Option (List Share)
  pub decode : ℕ → ℕ → List Share → List Share × Option Text
  pub walk : Map Text EchoStore → Map Text EchoStore

-- What is documented of them: `Decode` keeps the length of the slice, and `range` meets each entry of
-- the map once.
pub record IsLawful (rt : Runtime) : Type 0 where
  pub decode_length : (k n : ℕ) (s : List Share) → length (rt.decode k n s).0 ≡ length s
  pub walk_perm : (m : Map Text EchoStore) → Perm (rt.walk m) m

-- ===== src/Commits/Graph/Explored.antt =====
-- The invariant of the first part of the walk: what is loaded and what waits on the stack.
use fornacast.Prelude.{ℕ, ◌+◌, ◌≡◌, ◌⊎◌, true, some, []}
use fornacast.Prelude.Bytes.{Bytes}
use fornacast.Compare.Budgets.{Oids, has}
use fornacast.Commits.Graph.{Walk}
use fornacast.Commits.Nodes.{CommitNode, Nodes, count_of, lookup}
use fornacast.Commits.Graph.Maps.{DistinctKeys}
use fornacast.Commits.Graph.Release.{Loaded, waiting}
use fornacast.Commits.Graph.Parents.{Reach, parents_left}

pub record IsExplored (S : Type 0) (P : S → Type 0) (store : Nodes) (tip_oid : Bytes) (w : Walk S)
    (pending : Oids) : Type 0 where
  pub keeps : P w.loading
  pub distinct : DistinctKeys w.nodes
  pub counted : (x : Bytes) → count_of w.child_counts x ≡ waiting w.nodes x []
  pub entered :
      (x : Bytes) (node : CommitNode)
      → Loaded w.nodes x node
      → (m : ℕ) × (lookup w.child_counts x ≡ some m)
  pub from_store :
      (x : Bytes) (node : CommitNode)
      → Loaded w.nodes x node
      → Loaded store x node × Reach store tip_oid x
  pub waits : (x : Bytes) → has x pending ≡ true → Reach store tip_oid x
  pub loaded : (x : Bytes) → has x w.visited ≡ true → (node : CommitNode) × Loaded w.nodes x node
  pub seen : (x : Bytes) (node : CommitNode) → Loaded w.nodes x node → has x w.visited ≡ true
  pub parents_met :
      (x : Bytes) (node : CommitNode) (p : Bytes)
      → Loaded w.nodes x node
      → has p node.parents ≡ true
      → (has p w.visited ≡ true) ⊎ (has p pending ≡ true)
  pub tip_met : (has tip_oid w.visited ≡ true) ⊎ (has tip_oid pending ≡ true)
  pub edges : parents_left w.nodes [] + parents_left store w.visited ≡ parents_left store []

-- ===== src/Commits/Walk.antt =====
-- `walk_commit_graph`: the walk over the commits of a repository. A round of it takes an entry off
-- the stack, so the tip and all parents are enough.
pub mod Whole
use fornacast.Prelude.{ℕ, suc, Option, none, some, [], ok, err}
use mathlib.Core.Option
use fornacast.Prelude.Bytes.{Bytes}
use fornacast.Native.Clock.{Clock, Timed, pure, ◌>>=◌}
use fornacast.Commits.Graph.{FromHex, Loader, walk_commit_graph_with}
use fornacast.Commits.Nodes.{CommitNode, CommitPosition, OrderedCommitGraph}
use fornacast.Commits.Graph.Parents.{parents_left}
use fornacast.Commits.Load.{Repository, load_commit_node}
use fornacast.Commits.Load.Store.{commits_of}

abbrev pub plain_loader : Clock → Repository → Loader (Unit {0})
plain_loader late repo oid position s = do
  node ← load_commit_node late repo oid position
  pure (node, tt)

abbrev pub walk_fuel : Repository → ℕ
walk_fuel repo = suc (parents_left (commits_of repo) [])

unfoldable pub walk_commit_graph :
    Clock → FromHex → Repository → Bytes → Timed (Option OrderedCommitGraph)
walk_commit_graph late from_hex repo snapshot_oid = do
  walked ←
      walk_commit_graph_with late from_hex (plain_loader late repo) (walk_fuel repo) snapshot_oid tt
  pure (Option.map (λ (r : OrderedCommitGraph × Unit {0}). r.0) walked)

-- ===== src/Commits/Tests.antt =====
-- A walk of a small repository: a merge of two commits with one parent.
use fornacast.Prelude.{
  ℕ, ◌≡◌, ◌<◌, ◌⊎◌, inl, inr, refl, Option, none, some, [], ◌∷◌, true, false, ok, err, arith,
  if◌then◌else◌,
}
use fornacast.Prelude.Bytes.{Bytes, codes, bytes_eq, bytes_eq_iff}
use fornacast.Prelude.Int.{pos}
use fornacast.Native.{NativeResult}
use fornacast.Native.Clock.{Clock, check_deadline}
use fornacast.Native.Outcome.{Outcome}
use fornacast.Receive.PackHeader.{Kind}
use fornacast.Compare.Budgets.{Oids, has}
use fornacast.Commits.Graph.{
  FromHex, count_parents, visit_commit, walk_rounds, walk_commit_graph_with,
}
use fornacast.Commits.Nodes.{CommitNode, OrderedCommitGraph, check_commit_deadline}
use fornacast.Commits.Ordering.{
  first_eligible, release_parent, release_parents, order_rounds, order_commits,
}
use fornacast.Commits.Graph.Maps.{DistinctKeys}
use fornacast.Commits.Load.{
  GitSignature, commit_object, StoredEntry, Repository, find_graph_commit, decode_commit_node,
  load_commit_node,
}
use fornacast.Commits.Load.Store.{commits_of}
use fornacast.Commits.Graph.Release.{Loaded}
use fornacast.Commits.Graph.Parents.{Reach, here, step}
use fornacast.Commits.Graph.Reached.{IsWalk}
use fornacast.Commits.Walk.{walk_commit_graph}
use fornacast.Commits.Walk.Whole.{
  WalkError, GivesWalk, walk_commit_graph_exact, walk_commit_graph_returns,
}

abbrev pub in_time : Clock
in_time n = false

abbrev pub plain_hex : FromHex
plain_hex text = some text

abbrev pub signature : ℕ → GitSignature
signature t = record { name = codes "Ada"; email = codes "ada@example.org"; time = some (pos t) }

abbrev entry : Bytes → Oids → ℕ → Bytes × StoredEntry
entry oid parents t = (
  oid,
  record {
    header = ok (record { kind = Kind.commit; size = 200 });
    object = ok (
        commit_object (record {
          data_length = 200;
          decoded = some (record {
            author = some (signature t);
            committer = some (signature t);
            message = codes "Change";
            tree = codes "t";
            parents = parents;
          });
        }));
  },
)

-- The merge, its two parents (the second one later), and the first commit.
abbrev pub sample : Repository
sample =
    entry (codes "m") (codes "a" ∷ codes "b" ∷ []) 30
    ∷ entry (codes "a") (codes "r" ∷ []) 10
    ∷ entry (codes "b") (codes "r" ∷ []) 20
    ∷ entry (codes "r") [] 5
    ∷ []

abbrev ordered_of : NativeResult (Option OrderedCommitGraph × ℕ) → Oids
ordered_of (ok (some g, n)) = g.ordered
ordered_of (ok (none, n)) = []
ordered_of (err e) = []

sample_order :
    ordered_of (walk_commit_graph in_time plain_hex sample (codes "m") 0)
    ≡ codes "m" ∷ codes "b" ∷ codes "a" ∷ codes "r" ∷ []
unfolding walk_commit_graph walk_commit_graph_with walk_rounds visit_commit load_commit_node
    find_graph_commit decode_commit_node count_parents check_commit_deadline check_deadline
    order_commits first_eligible order_rounds release_parents release_parent
sample_order = refl

pub sample_distinct : DistinctKeys sample
sample_distinct = (refl, (refl, (refl, (refl, tt))))

walk_commit_graph_exact_example :
    Outcome
      (WalkError in_time sample (codes "m"))
      (GivesWalk sample (codes "m"))
      (walk_commit_graph in_time plain_hex sample (codes "m") 0)
walk_commit_graph_exact_example =
    walk_commit_graph_exact in_time plain_hex sample sample_distinct (codes "m") (codes "m") refl 0

abbrev pub depth : Bytes → ℕ
depth oid = if bytes_eq oid (codes "m") then 0 else if bytes_eq oid (codes "r") then 2 else 1

-- The commits of the sample, as far as the map has them.
sample_commit :
    (x : Bytes) (node : CommitNode)
    → Loaded (commits_of sample) x node
    → (x ≡ codes "m") × (node.parents ≡ codes "a" ∷ codes "b" ∷ [])
      ⊎ ((x ≡ codes "a") × (node.parents ≡ codes "r" ∷ [])
          ⊎ ((x ≡ codes "b") × (node.parents ≡ codes "r" ∷ [])
              ⊎ ((x ≡ codes "r") × (node.parents ≡ []))))
sample_commit x node l = ground (
  arith,
  bytes_eq_iff (codes "m") x,
  bytes_eq_iff (codes "a") x,
  bytes_eq_iff (codes "b") x,
  bytes_eq_iff (codes "r") x,
)

-- Its edges, from a commit to a parent.
abbrev pub Edge : Bytes → Bytes → Type 0
Edge c p =
    (c ≡ codes "m") × (p ≡ codes "a")
    ⊎ ((c ≡ codes "m") × (p ≡ codes "b")
        ⊎ ((c ≡ codes "a") × (p ≡ codes "r") ⊎ ((c ≡ codes "b") × (p ≡ codes "r"))))

pub sample-Edge :
    (c p : Bytes) (node : CommitNode)
    → Loaded (commits_of sample) c node
    → has p node.parents ≡ true
    → Edge c p
sample-Edge c p node l h = ground (
  arith,
  sample_commit c node l,
  bytes_eq_iff (codes "a") p,
  bytes_eq_iff (codes "b") p,
  bytes_eq_iff (codes "r") p,
)

pub sample_ranked : (c p : Bytes) → Edge c p → depth c < depth p
sample_ranked c p (inl (is_c, is_p)) = rw (is_c, is_p) (omega arith)
sample_ranked c p (inr (inl (is_c, is_p))) = rw (is_c, is_p) (omega arith)
sample_ranked c p (inr (inr (inl (is_c, is_p)))) = rw (is_c, is_p) (omega arith)
sample_ranked c p (inr (inr (inr (is_c, is_p)))) = rw (is_c, is_p) (omega arith)

abbrev pub Stored : Bytes → Type 0
Stored x = (node : CommitNode) × Loaded (commits_of sample) x node

Edge-Stored : (c p : Bytes) → Edge c p → Stored p
Edge-Stored c p (inl (_, is)) = rw is (_, refl)
Edge-Stored c p (inr (inl (_, is))) = rw is (_, refl)
Edge-Stored c p (inr (inr (inl (_, is)))) = rw is (_, refl)
Edge-Stored c p (inr (inr (inr (_, is)))) = rw is (_, refl)

pub sample-Stored : (x : Bytes) → Reach (commits_of sample) (codes "m") x → Stored x
sample-Stored x here = (_, refl)
sample-Stored x (step {c} {p} {node} r l h) = Edge-Stored c x (sample-Edge c x node l h)

walk_commit_graph_returns_example :
    (g : OrderedCommitGraph) × (k : ℕ) × (walk_commit_graph in_time plain_hex sample (codes "m") 0
      ≡ ok (some g, k))
    × IsWalk (commits_of sample) (codes "m") g
walk_commit_graph_returns_example =
    walk_commit_graph_returns in_time plain_hex sample sample_distinct (codes "m") (codes "m") refl
      (λ n. refl) (omega arith) sample-Stored
      (depth, λ c p node r l h. sample_ranked c p (sample-Edge c p node l h)) 0

-- ===== src/Commits/Load/Store.antt =====
-- The commits of a repository, as loading finds them.
use fornacast.Prelude.{
  ◌≡◌, ◌⊎◌, inl, inr, refl, sym, ap, ◌∙◌, subst, true, false, Option, none, some, [], ◌∷◌, Result,
  ok, err, if◌then◌else◌, arith, length, suc, ◌≤◌, Bool-cases,
}
use fornacast.Prelude.Bytes.{Bytes, bytes_eq, bytes_eq_iff}
use fornacast.Commits.Nodes.{CommitNode, Nodes, lookup}
use fornacast.Commits.Graph.Maps.{DistinctKeys}
use fornacast.Commits.Load.{
  GitSignature, DecodedCommit, FindError, GitObject, commit_object, other_object, StoredEntry,
  Repository,
}

-- The node of a commit whose parts can all be read.
abbrev pub node_of : DecodedCommit → Option GitSignature → Option GitSignature → Option CommitNode
node_of d none committer = none
node_of d (some a) none = none
node_of d (some a) (some c) = elim a.time [
  | none ↦ none
  | some s ↦ elim c.time [
    | none ↦ none
    | some t ↦ some (record { tree = d.tree; parents = d.parents; committer_time = t })
  ]
]

abbrev pub decoded_node : Option DecodedCommit → Option CommitNode
decoded_node none = none
decoded_node (some d) = node_of d d.author d.committer

abbrev pub object_node : Result FindError GitObject → Option CommitNode
object_node (ok (commit_object c)) = decoded_node c.decoded
object_node (ok other_object) = none
object_node (err e) = none

abbrev with_node : Bytes → Option CommitNode → Nodes → Nodes
with_node id none nodes = nodes
with_node id (some node) nodes = (id, node) ∷ nodes

abbrev pub commits_of : Repository → Nodes
commits_of [] = []
commits_of ((id, entry) ∷ repo) = with_node id (object_node entry.object) (commits_of repo)

pub with_node-length :
    (id : Bytes) (o : Option CommitNode) (nodes : Nodes)
    → length (with_node id o nodes) ≤ suc (length nodes)
with_node-length id none nodes = omega arith
with_node-length id (some node) nodes = omega arith

absent_commit :
    (repo : Repository) (id : Bytes) → lookup repo id ≡ none → lookup (commits_of repo) id ≡ none
absent_commit [] id h = refl
absent_commit ((x, entry) ∷ repo) id h =
    go (object_node entry.object) (absent_commit repo id (ground arith))
  where
    go :
        (o : Option CommitNode)
        → lookup (commits_of repo) id ≡ none
        → lookup (with_node x o (commits_of repo)) id ≡ none
    go none r = r
    go (some node) r = ground arith

pub commits_of-DistinctKeys :
    (repo : Repository) → DistinctKeys repo → DistinctKeys (commits_of repo)
commits_of-DistinctKeys [] d = tt
commits_of-DistinctKeys ((x, entry) ∷ repo) d =
    go (object_node entry.object) (commits_of-DistinctKeys repo d.1)
  where
    go :
        (o : Option CommitNode)
        → DistinctKeys (commits_of repo)
        → DistinctKeys (with_node x o (commits_of repo))
    go none r = r
    go (some node) r = (absent_commit repo x d.0, r)

pub lookup-commits_of :
    (repo : Repository) (id : Bytes) (entry : StoredEntry) (node : CommitNode)
    → lookup repo id ≡ some entry
    → object_node entry.object ≡ some node
    → lookup (commits_of repo) id ≡ some node
lookup-commits_of [] id entry node l o = cc
lookup-commits_of ((x, e) ∷ repo) id entry node l o = elim (Bool-cases (bytes_eq x id)) [
  | inl same ↦
      let this : some e ≡ some entry =
        sym (ap (λ b. if b then some e else lookup repo id) same) ∙ l in
      let its : object_node e.object ≡ some node =
        ap (λ y. elim y [ none ↦ none | some z ↦ object_node z.object ]) this ∙ o in
      ap (λ y. lookup (with_node x y (commits_of repo)) id) its
      ∙ ap (λ b. if b then some node else lookup (commits_of repo) id) same
  | inr other ↦
      go (object_node e.object)
        (lookup-commits_of repo id entry node
          (sym (ap (λ b. if b then some e else lookup repo id) other) ∙ l) o)
        other
]
  where
    go :
        (y : Option CommitNode)
        → lookup (commits_of repo) id ≡ some node
        → bytes_eq x id ≡ false
        → lookup (with_node x y (commits_of repo)) id ≡ some node
    go none r other = r
    go (some n) r other = ground arith

-- A commit of the map is in the repository.
pub commits_of-lookup :
    (repo : Repository) (id : Bytes) (node : CommitNode)
    → DistinctKeys repo
    → lookup (commits_of repo) id ≡ some node
    → (entry : StoredEntry) × (lookup repo id ≡ some entry) × (object_node entry.object ≡ some node)
commits_of-lookup [] id node d l = absurd (cc l)
commits_of-lookup ((x, e) ∷ repo) id node d l =
    go (object_node e.object) refl l (Bool-cases (bytes_eq x id))
      (commits_of-lookup repo id node d.1)
  where
    Entry : Repository → Type 0
    Entry r =
        (entry : StoredEntry) × (lookup r id ≡ some entry) × (object_node entry.object ≡ some node)

    go :
        (y : Option CommitNode)
        → object_node e.object ≡ y
        → lookup (with_node x y (commits_of repo)) id ≡ some node
        → (bytes_eq x id ≡ true) ⊎ (bytes_eq x id ≡ false)
        → (lookup (commits_of repo) id ≡ some node → Entry repo)
        → Entry ((x, e) ∷ repo)
    go none o h (inl same) rest =
        let gone : lookup (commits_of repo) id ≡ none =
          subst (λ z. lookup (commits_of repo) z ≡ none) ((bytes_eq_iff x id).0 same)
            (absent_commit repo x d.0) in
        absurd (cc (h, gone))
    go none o h (inr other) rest = let (entry, l', is) = rest h in (entry, ground arith, is)
    go (some n) o h (inl same) rest = (e, ground arith, ground arith)
    go (some n) o h (inr other) rest =
        let (entry, l', is) = rest (ground arith) in (entry, ground arith, is)

-- ===== src/Commits/History/Shown.antt =====
-- The rows of a page of a tree with its history: `history_rows`.
use fornacast.Prelude.{ℕ, ◌≡◌, inl, inr, refl, Option, some, List, [], ◌∷◌, ok}
use fornacast.Prelude.Bytes.{Bytes}
use fornacast.Native.Clock.{Clock, lift}
use fornacast.Native.Outcome.{Outcome, Outcome-bind, Outcome-lift_self, Outcome-any}
use fornacast.Tree.Pass.{DirectTreeEntry, check_tree_history_deadline}
use fornacast.Commits.Nodes.{CommitNode, Map, OrderedCommitGraph}
use fornacast.Commits.Graph.Reached.{IsWalk}
use fornacast.Commits.Load.{Repository}
use fornacast.Commits.Load.Store.{commits_of}
use fornacast.Commits.Listing.{Printing, NativeTreeCommit}
use fornacast.Commits.Listing.Hydrated.{Any}
use fornacast.Commits.History.Physical.{Trees}
use fornacast.Commits.History.{TreePage, latest_commits, rows_of, history_rows}
use fornacast.Commits.History.Loop.{First, First-imply, Found, latest_commits-Found}
use fornacast.Commits.History.Paths.{Keeps, Alters}
use fornacast.Commits.History.Changed.{Leaves-Keeps, Changes-Alters}
use fornacast.Commits.Listing.Authored.{ShowsCommit}
use fornacast.Commits.Graph.Release.{Loaded}
use fornacast.Commits.History.Rows.{RowsOf, rows_of-RowsOf}

module _ (p : Printing) (repo : Repository) (trees : Trees) (components : List Bytes)
    (g : OrderedCommitGraph) where
  -- Each row has an entry of the page, in turn, and the commit that changed it last: the first one,
  -- in the order of the walk, that alters the entry against its first parent.
  abbrev pub RowsShow : List DirectTreeEntry → List (DirectTreeEntry × NativeTreeCommit) → Type 0
  RowsShow [] rows = rows ≡ []
  RowsShow (e ∷ es) [] = ⊥
  RowsShow (e ∷ es) ((f, c) ∷ rows) =
      (f ≡ e)
      × First (Keeps trees (commits_of repo) components e.name)
          (λ oid. Alters trees (commits_of repo) components e.name oid × ShowsCommit p repo oid c)
          g.ordered
      × RowsShow es rows

  module _ (late : Clock) (selected : List DirectTreeEntry) (tip_oid : Bytes)
      (walk : IsWalk (commits_of repo) tip_oid g) where
    RowsOf-RowsShow :
        (latest : Map NativeTreeCommit) (es : List DirectTreeEntry)
        (rows : List (DirectTreeEntry × NativeTreeCommit))
        → Found late p repo trees g.nodes components selected [] g.ordered latest
        → RowsOf latest es rows
        → RowsShow es rows
    RowsOf-RowsShow latest [] rows found h = h
    RowsOf-RowsShow latest (e ∷ es) [] found h = h
    RowsOf-RowsShow latest (e ∷ es) ((f, c) ∷ rows) found (is, l, h) = elim (found e.name c l) [
      | inl old ↦ absurd (cc old)
      | inr (_, sel, first) ↦
          let known : (x : Bytes) (node : CommitNode)
              → Loaded g.nodes x node
              → Loaded (commits_of repo) x node =
            λ x node has_node. ((walk.loaded x node).0 has_node).1 in
          (
            is,
            First-imply
                (λ oid leaves.
                  Leaves-Keeps late trees g.nodes (commits_of repo) known components selected p repo
                    e.name oid sel leaves)
                (λ oid changes.
                  Changes-Alters late trees g.nodes (commits_of repo) known components selected p
                    repo e.name c oid sel changes)
                first,
            RowsOf-RowsShow latest es rows found h,
          )
    ]

-- The rows of a page and the number of all entries.
abbrev pub ShowsRows :
    Printing
    → Repository
    → Trees
    → OrderedCommitGraph
    → List Bytes
    → List DirectTreeEntry
    → ℕ
    → Option TreePage
    → Type 0
ShowsRows p repo trees g components selected total o =
    (rows : List (DirectTreeEntry × NativeTreeCommit)) × (o ≡ some (rows, total))
    × RowsShow p repo trees components g selected rows

pub history_rows-ShowsRows :
    (late : Clock) (p : Printing) (repo : Repository) (trees : Trees) (g : OrderedCommitGraph)
    (tip_oid : Bytes) (components : List Bytes) (total : ℕ) (selected : List DirectTreeEntry)
    (n : ℕ)
    → IsWalk (commits_of repo) tip_oid g
    → Outcome Any
        (ShowsRows p repo trees g components selected total)
        (history_rows late p repo trees components total selected (some g) n)
history_rows-ShowsRows late p repo trees g tip_oid components total [] n walk =
    Outcome-bind Any (λ (u : Unit {0}). Unit {0}) (ShowsRows p repo trees g components [] total)
      (check_tree_history_deadline late) _ n (Outcome-any (check_tree_history_deadline late n))
      λ _ k _. ([], refl, refl)
history_rows-ShowsRows late p repo trees g tip_oid components total (e ∷ es) n walk =
    let selected = e ∷ es in
    let Q = ShowsRows p repo trees g components selected total in
    Outcome-bind Any (Found late p repo trees g.nodes components selected [] g.ordered) Q
      (latest_commits late p repo trees g.nodes components selected g.ordered []) _ n
      (latest_commits-Found late p repo trees g.nodes components selected g.ordered [] n)
      λ latest n1 found.
        Outcome-bind Any (λ rows. rows_of selected latest ≡ ok rows) Q
          (lift (rows_of selected latest)) _ n1
          (Outcome-lift_self Any (rows_of selected latest) n1 (λ e h. tt))
          λ rows n2 is.
            Outcome-bind Any (λ (u : Unit {0}). Unit {0}) Q (check_tree_history_deadline late) _ n2
              (Outcome-any (check_tree_history_deadline late n2))
              λ _ k _. (
                rows,
                refl,
                RowsOf-RowsShow p repo trees components g late selected tip_oid walk latest selected
                    rows found (rows_of-RowsOf selected latest latest rows (λ name c l. l) is),
              )

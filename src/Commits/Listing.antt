-- ===== src/Commits/Listing.antt =====
-- Listings of commits: `hydrate_commit`, `hydrate_tree_commit`, `commit_summary` and `commit_page`.
-- The tuples that are returned are records. How gix prints an id, and how it turns bytes into text,
-- are parameters.
pub mod Authored
pub mod Hydrated
pub mod Page
mod Tests
use fornacast.Prelude.{
  ℕ, ◌-◌, Bool, true, false, Option, none, some, List, [], ◌∷◌, length, take, drop, ok, err, ◌==◌,
  if◌then◌else◌,
}
use fornacast.Prelude.Bytes.{Bytes, last_is}
use fornacast.Prelude.Int.{ℤ}
use fornacast.Native.{NativeError, NativeResult, native_error, ok_or}
use fornacast.Native.Clock.{Clock, Timed, pure, fail, lift, check_deadline, ◌>>=◌, ◌>>◌}
use fornacast.Pages.{CommitPageWindow, commit_page_window}
use fornacast.Compare.Budgets.{Oids}
use fornacast.Refs.Scan.{page_number}
use fornacast.Tree.Pass.{check_tree_history_deadline}
use fornacast.Commits.Graph.{FromHex}
use fornacast.Commits.Nodes.{ancestor, check_commit_deadline, OrderedCommitGraph}
use fornacast.Commits.Load.{
  GitSignature, DecodedCommit, Repository, find_graph_commit, corrupt_commit,
}
use fornacast.Commits.Walk.{walk_commit_graph}

-- Of gix: ids as text, and `to_string` of bytes.
pub record Printing : Type 0 where
  pub hex : Bytes → Bytes
  pub text : Bytes → Bytes

pub record NativePerson : Type 0 where
  pub name : Bytes
  pub email : Bytes
  pub time : ℤ

pub record NativeCommit : Type 0 where
  pub oid : Bytes
  pub title : Bytes
  pub message : Bytes
  pub author : NativePerson
  pub committer : NativePerson
  pub parents : List Bytes

pub record NativeTreeCommit : Type 0 where
  pub oid : Bytes
  pub title : Bytes
  pub author_name : Bytes
  pub author_time : ℤ

-- What stands before the first line feed, and whether there is one.
abbrev pub cut_line : Bytes → Bytes × Bool
cut_line [] = ([], false)
cut_line (b ∷ s) = let rest = cut_line s in if b == 0x0a then ([], true) else (b ∷ rest.0, rest.1)

abbrev pub without_return : Bytes → Bytes
without_return [] = []
without_return (b ∷ []) = if b == 0x0d then [] else b ∷ []
without_return (b ∷ c ∷ s) = b ∷ without_return (c ∷ s)

-- `lines().next().unwrap_or_default()`
unfoldable pub first_line : Bytes → Bytes
first_line s = let (line, ended) = cut_line s in if ended then without_return line else line

abbrev pub print_all : Printing → Oids → List Bytes
print_all p [] = []
print_all p (oid ∷ oids) = p.hex oid ∷ print_all p oids

abbrev pub person : Printing → GitSignature → ℤ → NativePerson
person p s t = record { name = p.text s.name; email = p.text s.email; time = t }

abbrev pub native_commit :
    Printing → Bytes → DecodedCommit → GitSignature → ℤ → GitSignature → ℤ → NativeCommit
native_commit p oid d author author_time committer committer_time = record {
  oid = p.hex oid;
  title = first_line (p.text d.message);
  message = p.text d.message;
  author = person p author author_time;
  committer = person p committer committer_time;
  parents = print_all p d.parents;
}

unfoldable pub hydrate_commit : Clock → Printing → Repository → Bytes → Timed NativeCommit
hydrate_commit late p repo oid = do
  check_commit_deadline late
  commit ← lift (find_graph_commit repo oid ancestor)
  check_commit_deadline late
  decoded ← lift (ok_or commit.decoded corrupt_commit)
  check_commit_deadline late
  author ← lift (ok_or decoded.author corrupt_commit)
  author_time ← lift (ok_or author.time corrupt_commit)
  committer ← lift (ok_or decoded.committer corrupt_commit)
  committer_time ← lift (ok_or committer.time corrupt_commit)
  check_commit_deadline late
  pure (native_commit p oid decoded author author_time committer committer_time)

unfoldable pub hydrate_tree_commit : Clock → Printing → Repository → Bytes → Timed NativeTreeCommit
hydrate_tree_commit late p repo oid = do
  check_tree_history_deadline late
  commit ← lift (find_graph_commit repo oid ancestor)
  check_tree_history_deadline late
  decoded ← lift (ok_or commit.decoded corrupt_commit)
  author ← lift (ok_or decoded.author corrupt_commit)
  author_time ← lift (ok_or author.time corrupt_commit)
  check_tree_history_deadline late
  pure (record {
    oid = p.hex oid;
    title = p.text (first_line decoded.message);
    author_name = p.text author.name;
    author_time = author_time;
  })

-- The commits of a page, each behind a look at the clock.
unfoldable pub hydrate_all : Clock → Printing → Repository → Oids → Timed (List NativeCommit)
hydrate_all late p repo [] = pure []
hydrate_all late p repo (oid ∷ oids) = do
  check_commit_deadline late
  commit ← hydrate_commit late p repo oid
  commits ← hydrate_all late p repo oids
  pure (commit ∷ commits)

-- `ordered[window.start..window.end]`
abbrev pub window_of : {A : Type 0} → CommitPageWindow → List A → List A
window_of w xs = take (w.end - w.start) (drop w.start xs)

abbrev pub summary_of :
    Clock → Printing → Repository → Option OrderedCommitGraph → Timed (Option (ℕ × NativeCommit))
summary_of late p repo none = pure none
summary_of late p repo (some graph) = do
  latest ← hydrate_commit late p repo graph.tip
  pure (some (length graph.ordered, latest))

-- None says that the rounds of the walk did not suffice, here and below. `opened` is the repository
-- as gix opens it.
unfoldable pub commit_summary :
    Clock → FromHex → Printing → NativeResult Repository → Bytes → Timed (Option (ℕ × NativeCommit))
commit_summary late from_hex p opened snapshot_oid = do
  repo ← lift opened
  graph ← walk_commit_graph late from_hex repo snapshot_oid
  summary_of late p repo graph

abbrev pub page_of :
    Clock
    → Printing
    → Repository
    → ℕ
    → ℕ
    → Option OrderedCommitGraph
    → Timed (Option (List NativeCommit × ℕ))
page_of late p repo page per_page none = pure none
page_of late p repo page per_page (some graph) = do
  commits ←
      hydrate_all late p repo
        (window_of (commit_page_window (length graph.ordered) page per_page) graph.ordered)
  check_commit_deadline late
  pure (some (commits, length graph.ordered))

abbrev pub invalid_commit_page : NativeError
invalid_commit_page = native_error "commit_not_found" "invalid commit page"

unfoldable pub commit_page :
    Clock
    → FromHex
    → Printing
    → NativeResult Repository
    → Bytes
    → Bytes
    → ℕ
    → Timed (Option (List NativeCommit × ℕ))
commit_page late from_hex p opened snapshot_oid page per_page =
    if page_number page == 0 then fail invalid_commit_page else (do
      repo ← lift opened
      graph ← walk_commit_graph late from_hex repo snapshot_oid
      page_of late p repo (page_number page) per_page graph)

-- ===== src/Commits/Load.antt =====
-- How a commit is read from the object database: `find_graph_commit`, `decode_commit_node` and
-- `load_commit_node`. The database and the decoder of gix are given by what they return: a
-- repository is the map of its objects.
pub mod Reads
pub mod Store
use fornacast.Prelude.{
  ℕ, Bool, true, false, Option, none, some, List, [], ◌∷◌, Result, ok, err, String, if◌then◌else◌,
}
use fornacast.Prelude.Bytes.{Bytes}
use fornacast.Prelude.Int.{ℤ}
use fornacast.Native.{NativeError, NativeResult, native_error, ok_or}
use fornacast.Native.Clock.{Clock, Timed, pure, lift, ◌>>=◌, ◌>>◌}
use fornacast.Native.Errors.{StdError, error_chain_contains_storage_io}
use fornacast.Receive.PackHeader.{Kind}
use fornacast.Compare.Budgets.{Oids}
use fornacast.Commits.Nodes.{
  CommitNode, CommitPosition, tip, ancestor, Map, lookup, check_commit_deadline,
}

-- A person and a time, where none is a time that cannot be parsed.
pub record GitSignature : Type 0 where
  pub name : Bytes
  pub email : Bytes
  pub time : Option ℤ

-- What gix decodes of a commit; none is a signature that cannot be parsed.
pub record DecodedCommit : Type 0 where
  pub author : Option GitSignature
  pub committer : Option GitSignature
  pub message : Bytes
  pub tree : Bytes
  pub parents : Oids

-- `decoded` is none for data that is not a commit's.
pub record GitCommit : Type 0 where
  pub data_length : ℕ
  pub decoded : Option DecodedCommit

pub data FindError : Type 0 where
  not_found : FindError
  find_failed : StdError → FindError

pub data GitObject : Type 0 where
  commit_object : GitCommit → GitObject
  other_object : GitObject

pub record ObjectHeader : Type 0 where
  pub kind : Kind
  pub size : ℕ

-- What `find_header` and `find_entry` give for an id.
pub record StoredEntry : Type 0 where
  pub header : Result StdError ObjectHeader
  pub object : Result FindError GitObject

abbrev pub Repository : Type 0
Repository = Map StoredEntry

abbrev pub find_entry : Repository → Bytes → Result FindError GitObject
find_entry repo oid = elim (lookup repo oid) [ none ↦ err not_found | some entry ↦ entry.object ]

abbrev pub missing_kind : CommitPosition → String
missing_kind tip = "commit_not_found"
missing_kind ancestor = "corrupt_repository"

abbrev pub find_error : CommitPosition → FindError → NativeError
find_error position not_found = native_error (missing_kind position) "object was not found"
find_error position (find_failed error) =
    if error_chain_contains_storage_io error
    then native_error "storage_unavailable" "object could not be read"
    else native_error "corrupt_repository" "object could not be read"

abbrev pub try_into_commit : CommitPosition → Result FindError GitObject → NativeResult GitCommit
try_into_commit position (ok (commit_object commit)) = ok commit
try_into_commit position (ok other_object) =
    err (native_error (missing_kind position) "object is not a commit")
try_into_commit position (err e) = err (find_error position e)

unfoldable pub find_graph_commit : Repository → Bytes → CommitPosition → NativeResult GitCommit
find_graph_commit repo oid position = try_into_commit position (find_entry repo oid)

abbrev pub corrupt_commit : NativeError
corrupt_commit = native_error "corrupt_repository" "commit could not be decoded"

unfoldable pub decode_commit_node : Clock → GitCommit → Timed CommitNode
decode_commit_node late commit = do
  decoded ← lift (ok_or commit.decoded corrupt_commit)
  author ← lift (ok_or decoded.author corrupt_commit)
  author_time ← lift (ok_or author.time corrupt_commit)
  committer ← lift (ok_or decoded.committer corrupt_commit)
  committer_time ← lift (ok_or committer.time corrupt_commit)
  check_commit_deadline late
  pure (record { tree = decoded.tree; parents = decoded.parents; committer_time = committer_time })

unfoldable pub load_commit_node : Clock → Repository → Bytes → CommitPosition → Timed CommitNode
load_commit_node late repo oid position = do
  check_commit_deadline late
  commit ← lift (find_graph_commit repo oid position)
  check_commit_deadline late
  decode_commit_node late commit

-- ===== src/Commits/Graph/Release.antt =====
-- The inner loop of the ordering: the parents of a commit that was taken out, `release_parents`.
use fornacast.Prelude.{
  ℕ, suc, ◌+◌, ◌≡◌, ◌⊎◌, inl, inr, sym, ap, ◌∙◌, subst, true, false, some, List, [], ◌∷◌, ok, ◌==◌,
  if◌then◌else◌, arith, Bool-cases, All,
}
use fornacast.Prelude.Bytes.{Bytes, bytes_eq, bytes_eq_iff, bytes_eq_refl}
use fornacast.Prelude.Int.{ℤ}
use fornacast.Native.{NativeError, native_error}
use fornacast.Native.Clock.{Clock, lift}
use fornacast.Native.Outcome.{Outcome, TimedOut, Outcome-bind, Outcome-lift, Outcome-check}
use fornacast.Compare.Budgets.{Oids, has}
use fornacast.Commits.Nodes.{CommitNode, Nodes, Counts, lookup, put, check_commit_deadline}
use fornacast.Commits.Ordering.{Eligible, insert, admit, release_parent, release_parents}
use fornacast.Commits.Graph.Maps.{lookup-put}
use fornacast.Commits.Graph.Queue.{In, IsSorted, insert-IsSorted, In-insert}
use fornacast.Commits.Graph.Weights.{occurrences, weigh}

-- A commit is in the graph.
abbrev pub Loaded : Nodes → Bytes → CommitNode → Type 0
Loaded nodes oid node = lookup nodes oid ≡ some node

-- How many children of a commit are not in the list.
abbrev pub waiting : Nodes → Bytes → Oids → ℕ
waiting nodes oid done = weigh (λ node. occurrences oid node.parents) nodes done

-- `rest` are the parents of the last commit of `ordered` that are not released yet.
pub record IsConsistent (nodes : Nodes) (ordered rest : Oids) (counts : Counts)
    (eligible : List Eligible) : Type 0 where
  pub counted :
      (x : Bytes) (node : CommitNode)
      → Loaded nodes x node
      → lookup counts x ≡ some (waiting nodes x ordered + occurrences x rest)
  pub sorted : IsSorted eligible
  pub sound :
      (t : ℤ) (x : Bytes)
      → In (t, x) eligible
      → (node : CommitNode) × Loaded nodes x node
        × (t ≡ node.committer_time)
        × (has x ordered ≡ false)
        × (waiting nodes x ordered + occurrences x rest ≡ 0)
  pub full :
      (x : Bytes) (node : CommitNode)
      → Loaded nodes x node
      → has x ordered ≡ false
      → waiting nodes x ordered + occurrences x rest ≡ 0
      → In (node.committer_time, x) eligible
  pub settled :
      (x : Bytes) → has x ordered ≡ true → waiting nodes x ordered + occurrences x rest ≡ 0

module _ (nodes : Nodes) (ordered : Oids) (p : Bytes) (rest : Oids) (counts : Counts)
    (eligible : List Eligible) (np : CommitNode) (loaded : Loaded nodes p np)
    (inv : IsConsistent nodes ordered (p ∷ rest) counts eligible) where
  open inv use {counted, sorted, sound, full, settled}

  abbrev left : ℕ
  left = waiting nodes p ordered + occurrences p rest

  abbrev eligible' : List Eligible
  eligible' = if left == 0 then insert (np.committer_time, p) eligible else eligible

  held : lookup counts p ≡ some (suc left)
  held = ground (arith, counted p np, bytes_eq_refl p)

  not_ordered : has p ordered ≡ false
  not_ordered = ground (arith, settled p, bytes_eq_refl p)

  admit_lem : admit nodes p left eligible ≡ ok eligible'
  admit_lem = ground arith

  release_parent_lem : release_parent nodes p counts eligible ≡ ok (put p left counts, eligible')
  unfolding release_parent
  release_parent_lem = ground (arith, held, admit_lem)

  counted' :
      (x : Bytes) (node : CommitNode)
      → Loaded nodes x node
      → lookup (put p left counts) x ≡ some (waiting nodes x ordered + occurrences x rest)
  counted' x node l = ground (arith, lookup-put p x left counts, bytes_eq_iff p x, counted x node)

  sorted' : IsSorted eligible'
  sorted' = ground (arith, insert-IsSorted (np.committer_time, p) eligible)

  entries :
      (e : Eligible) → In e eligible' → ((left ≡ 0) × (e ≡ (np.committer_time, p))) ⊎ In e eligible
  entries e m = elim (Bool-cases (left == 0)) [
    | inl none_left ↦ ground (arith, In-insert e (np.committer_time, p) eligible)
    | inr some_left ↦ ground arith
  ]

  entered :
      (e : Eligible) → ((left ≡ 0) × (e ≡ (np.committer_time, p))) ⊎ In e eligible → In e eligible'
  entered e m = elim (Bool-cases (left == 0)) [
    | inl none_left ↦ ground (arith, In-insert e (np.committer_time, p) eligible)
    | inr some_left ↦ ground arith
  ]

  full' :
      (x : Bytes) (node : CommitNode)
      → Loaded nodes x node
      → has x ordered ≡ false
      → waiting nodes x ordered + occurrences x rest ≡ 0
      → In (node.committer_time, x) eligible'
  full' x node l o z = elim (Bool-cases (bytes_eq p x)) [
    | inl same ↦
        let is : p ≡ x = (bytes_eq_iff p x).0 same in
        let none_left : left ≡ 0 =
          subst (λ y. waiting nodes y ordered + occurrences y rest ≡ 0) (sym is) z in
        let one : some np ≡ some node = sym loaded ∙ ap (lookup nodes) is ∙ l in
        let this : (node.committer_time, x) ≡ (np.committer_time, p) = ground arith in
        entered (node.committer_time, x) (inl (none_left, this))
    | inr other ↦ entered (node.committer_time, x) (inr (full x node l o (ground arith)))
  ]

  sound' :
      (t : ℤ) (x : Bytes)
      → In (t, x) eligible'
      → (node : CommitNode) × Loaded nodes x node
        × (t ≡ node.committer_time)
        × (has x ordered ≡ false)
        × (waiting nodes x ordered + occurrences x rest ≡ 0)
  sound' t x m = elim (entries (t, x) m) [
    | inl (none_left, this) ↦
        let is : p ≡ x = ap (λ e. e.1) (sym this) in
        (
          np,
          subst (λ y. Loaded nodes y np) is loaded,
          ap (λ e. e.0) this,
          subst (λ y. has y ordered ≡ false) is not_ordered,
          subst (λ y. waiting nodes y ordered + occurrences y rest ≡ 0) is none_left,
        )
    | inr old ↦ let (node, l, time, o, z) = sound t x old in (node, l, time, o, ground arith)
  ]

  pub release_parent-IsConsistent : IsConsistent nodes ordered rest (put p left counts) eligible'
  release_parent-IsConsistent = record {
    counted = counted';
    sorted = sorted';
    sound = sound';
    full = full';
    settled = λ x h. ground (arith, settled x);
  }

abbrev pub commit_timeout : NativeError
commit_timeout = native_error "scan_timeout" "commit scan exceeded the five-second deadline"

abbrev pub CommitTimeout : Clock → NativeError → Type 0
CommitTimeout late = TimedOut late commit_timeout

pub Outcome-commit_deadline :
    (late : Clock) (n : ℕ)
    → Outcome (CommitTimeout late) (λ (u : Unit {0}). Unit {0}) (check_commit_deadline late n)
unfolding check_commit_deadline
Outcome-commit_deadline late n = Outcome-check late _ n

-- All of them are commits of the graph.
abbrev pub AllLoaded : Nodes → Oids → Type 0
AllLoaded nodes oids = All (λ p. (node : CommitNode) × Loaded nodes p node) oids

module _ (late : Clock) (nodes : Nodes) (ordered : Oids) where
  pub release_parents-IsConsistent :
      (parents : Oids) (counts : Counts) (eligible : List Eligible) (n : ℕ)
      → AllLoaded nodes parents
      → IsConsistent nodes ordered parents counts eligible
      → Outcome
          (CommitTimeout late)
          (λ (r : Counts × List Eligible). IsConsistent nodes ordered [] r.0 r.1)
          (release_parents late nodes parents counts eligible n)
  unfolding release_parents
  release_parents-IsConsistent [] counts eligible n h inv = inv
  release_parents-IsConsistent (p ∷ rest) counts eligible n ((np, l), h) inv =
      Outcome-bind (CommitTimeout late) (λ _. Unit {0}) _ (check_commit_deadline late) _ n
        (Outcome-commit_deadline late n)
        (λ _ k _.
          Outcome-bind (CommitTimeout late)
            (λ (r : Counts × List Eligible). IsConsistent nodes ordered rest r.0 r.1) _
            (lift (release_parent nodes p counts eligible)) _ k
            (Outcome-lift (CommitTimeout late)
              (λ (r : Counts × List Eligible). IsConsistent nodes ordered rest r.0 r.1) _ k
              (release_parent_lem nodes ordered p rest counts eligible np l inv)
              (release_parent-IsConsistent nodes ordered p rest counts eligible np l inv))
            (λ r j inv'. release_parents-IsConsistent rest r.0 r.1 j h inv'))

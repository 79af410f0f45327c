-- ===== src/Commits/History/Paths.antt =====
-- Trees at a path, and the states of an entry in a commit and its first parent, told without the
-- code that reads them.
use fornacast.Prelude.{
  ℕ, ◌≡◌, ◌≢◌, ◌⊎◌, inl, inr, refl, sym, ap, ◌∙◌, subst, Bool, true, false, String, Option, none,
  some, List, [], ◌∷◌, Result, ok, err, if◌then◌else◌, Bool-cases,
}
use fornacast.Prelude.Bytes.{Bytes}
use fornacast.Native.Clock as Clock
use fornacast.Native.Clock.{Clock, ◌>>=◌}
use fornacast.Native.Errors.{error_chain_contains_storage_io}
use fornacast.Compare.Budgets.{Oids}
use fornacast.Tree.Entries.{TreeEntryState}
use fornacast.Tree.Pass.{check_tree_history_deadline, find_raw_tree_entry}
use fornacast.Tree.States.{StateOf, find_raw_tree_entry-StateOf, EntryIn}
use fornacast.Commits.Nodes.{CommitNode, Nodes, lookup}
use fornacast.Commits.Graph.Release.{Loaded}
use fornacast.Commits.Load.{FindError, not_found, find_failed}
use fornacast.Commits.History.Physical.{
  PhysicalTree, TreeObject, tree_object, other_object, Trees, try_into_tree, load_physical_tree,
  no_tree, descend, tree_for_git_path,
}
use fornacast.Commits.History.{items_of}

-- The repository has the tree under its id.
abbrev pub Stored : Trees → PhysicalTree → Type 0
Stored trees t = lookup trees t.id ≡ some (ok (tree_object t.items))

module _ (trees : Trees) where
  -- What stands under a tree at a path: a tree, or none if a name on the way is missing or is not a
  -- directory.
  abbrev pub Under : PhysicalTree → List Bytes → Option PhysicalTree → Type 0
  Under t [] o = o ≡ some t
  Under t (c ∷ cs) o = (s : Option TreeEntryState) × StateOf t.items c s × (elim s [
    | none ↦ o ≡ none
    | some entry ↦
        (entry.is_tree ≡ false) × (o ≡ none)
        ⊎ ((entry.is_tree ≡ true)
            × ((next : PhysicalTree) × (next.id ≡ entry.oid) × Stored trees next × Under next cs o))
  ])

  -- The tree at a path, from the tree of an id.
  abbrev pub TreeAt : Bytes → List Bytes → Option PhysicalTree → Type 0
  TreeAt root components o =
      (t : PhysicalTree) × (t.id ≡ root) × Stored trees t × Under t components o

  try_into_tree-Stored :
      (oid : Bytes) (found : Option (Result FindError TreeObject)) {t : PhysicalTree}
      → try_into_tree oid found ≡ ok t
      → (t.id ≡ oid) × (found ≡ some (ok (tree_object t.items)))
  try_into_tree-Stored oid none h = cc h
  try_into_tree-Stored oid (some (ok (tree_object items))) {t} h =
      subst
        (λ z.
          (z.id ≡ oid)
          × ◌≡◌ {A = Option (Result FindError TreeObject)} (some (ok (tree_object items)))
              (some (ok (tree_object z.items))))
        (ap (λ r. elim r [ ok z ↦ z | err z ↦ t ]) h) (refl, refl)
  try_into_tree-Stored oid (some (ok other_object)) h = cc h
  try_into_tree-Stored oid (some (err not_found)) h = cc h
  try_into_tree-Stored oid (some (err (find_failed error))) h =
      elim (Bool-cases (error_chain_contains_storage_io error)) [
        | inl io ↦ absurd (cc (rw io at h))
        | inr other ↦ absurd (cc (rw other at h))
      ]

  load_physical_tree-Stored :
      (late : Clock) (oid : Bytes) (n : ℕ) {t : PhysicalTree} {k : ℕ}
      → load_physical_tree late trees oid n ≡ ok (t, k)
      → (t.id ≡ oid) × Stored trees t
  unfolding load_physical_tree
  load_physical_tree-Stored late oid n {t} h =
      let (_, n1, _, h1) = Clock.>>=-eq-ok (check_tree_history_deadline late) _ n h in
      let (u, n2, l, h2) =
        Clock.>>=-eq-ok (Clock.lift (try_into_tree oid (lookup trees oid))) _ n1 h1 in
      let (_, n3, _, h3) = Clock.>>=-eq-ok (check_tree_history_deadline late) _ n2 h2 in
      let same : u ≡ t = ap (λ r. elim r [ ok z ↦ z.0 | err z ↦ t ]) h3 in
      let (is, stored) = try_into_tree-Stored oid (lookup trees oid) (Clock.lift-eq-ok _ n1 l).0 in
      subst (λ z. (z.id ≡ oid) × Stored trees z) same (is, ap (lookup trees) is ∙ stored)

  no_tree-none :
      (required : Bool) (detail : String) (n : ℕ) {o : Option PhysicalTree} {k : ℕ}
      → no_tree required detail n ≡ ok (o, k)
      → o ≡ none
  no_tree-none true detail n h = cc h
  no_tree-none false detail n {o} h = sym (ap (λ r. elim r [ ok z ↦ z.0 | err z ↦ o ]) h)

  descend_step :
      (late : Clock) (required : Bool) (t : PhysicalTree) (c : Bytes) (cs : List Bytes)
      (s : Option TreeEntryState) (n : ℕ) {o : Option PhysicalTree} {k : ℕ}
      → StateOf t.items c s
      → ((next : PhysicalTree) (n : ℕ)
          → descend late trees required next cs n ≡ ok (o, k)
          → Under next cs o)
      → elim s as (λ x. Clock.Timed (Option PhysicalTree)) [
        | none ↦ no_tree required "tree path was not found"
        | some s ↦
            if s.is_tree
            then (do
              next ← load_physical_tree late trees s.oid
              descend late trees required next cs)
            else no_tree required "path does not point to a tree"
      ]
          n
        ≡ ok (o, k)
      → Under t (c ∷ cs) o
  descend_step late required t c cs none n state onward h =
      (none, state, no_tree-none required "tree path was not found" n h)
  descend_step late required t c cs (some s) n state onward h = elim (Bool-cases s.is_tree) [
    | inr leaf ↦ (
      some s,
      state,
      inl (leaf, no_tree-none required "path does not point to a tree" n (rw leaf at h)),
    )
    | inl directory ↦
        let (next, n1, l, h1) =
          Clock.>>=-eq-ok (load_physical_tree late trees s.oid) _ n (rw directory at h) in
        let (is, stored) = load_physical_tree-Stored late s.oid n l in
        (some s, state, inr (directory, (next, is, stored, onward next n1 h1)))
  ]

  descend-Under :
      (late : Clock) (required : Bool) (t : PhysicalTree) (components : List Bytes) (n : ℕ)
      {o : Option PhysicalTree} {k : ℕ}
      → descend late trees required t components n ≡ ok (o, k)
      → Under t components o
  unfolding descend
  descend-Under late required t [] n {o} h =
      let (_, n1, _, h1) = Clock.>>=-eq-ok (check_tree_history_deadline late) _ n h in
      sym (ap (λ r. elim r [ ok z ↦ z.0 | err z ↦ o ]) h1)
  descend-Under late required t (c ∷ cs) n {o} {k} h =
      let (_, n1, _, h1) = Clock.>>=-eq-ok (check_tree_history_deadline late) _ n h in
      let (s, n2, f, h2) = Clock.>>=-eq-ok (find_raw_tree_entry late t.items c) _ n1 h1 in
      descend_step late required t c cs s n2 (find_raw_tree_entry-StateOf late t.items c n1 f)
        (λ next i e. descend-Under late required next cs i e) h2

  pub tree_for_git_path-TreeAt :
      (late : Clock) (root : Bytes) (components : List Bytes) (required : Bool) (n : ℕ)
      {o : Option PhysicalTree} {k : ℕ}
      → tree_for_git_path late trees root components required n ≡ ok (o, k)
      → TreeAt root components o
  unfolding tree_for_git_path
  tree_for_git_path-TreeAt late root components required n h =
      let (t, n1, l, h1) = Clock.>>=-eq-ok (load_physical_tree late trees root) _ n h in
      let (is, stored) = load_physical_tree-Stored late root n l in
      (t, is, stored, descend-Under late required t components n1 h1)

  pub Under-Stored :
      (t : PhysicalTree) (components : List Bytes) (u : PhysicalTree)
      → Stored trees t
      → Under t components (some u)
      → Stored trees u
  Under-Stored t [] u stored is =
      subst (Stored trees) (sym (ap (λ r. elim r [ none ↦ u | some z ↦ z ]) is)) stored
  Under-Stored t (c ∷ cs) u stored (none, _, gone) = absurd (cc gone)
  Under-Stored t (c ∷ cs) u stored (some entry, _, inl (_, gone)) = absurd (cc gone)
  Under-Stored t (c ∷ cs) u stored (some entry, _, inr (_, (next, _, has_next, under))) =
      Under-Stored next cs u has_next under

  -- The entry of a name in the tree at a path, if there is that tree.
  abbrev pub StateIn : Option PhysicalTree → Bytes → Option TreeEntryState → Type 0
  StateIn t name o = EntryIn (items_of t) name o

  -- The tree at a path in the first parent of a commit; none for a commit without parents.
  abbrev pub ParentTree : Nodes → List Bytes → Oids → Option PhysicalTree → Type 0
  ParentTree store components [] o = o ≡ none
  ParentTree store components (p ∷ ps) o =
      (parent : CommitNode) × Loaded store p parent × TreeAt parent.tree components o

  -- The trees at the path in a commit and in its first parent.
  abbrev pub TreesOf :
      Nodes → List Bytes → Bytes → Option PhysicalTree → Option PhysicalTree → Type 0
  TreesOf store components oid current parent =
      (node : CommitNode) × Loaded store oid node
      × TreeAt node.tree components current
      × ParentTree store components node.parents parent

  -- The commit has the entry as its first parent has it, with the same mode and the same object, or
  -- neither has it; or the tree at the path is the same one.
  abbrev pub Keeps : Nodes → List Bytes → Bytes → Bytes → Type 0
  Keeps store components name oid =
      (current parent : Option PhysicalTree) × TreesOf store components oid current parent
      × ((current ≡ parent)
          ⊎ ((o : Option TreeEntryState) × StateIn current name o × StateIn parent name o))

  -- The commit has the entry and its first parent has not, or the other way round, or they have it
  -- with different modes or objects.
  abbrev pub Alters : Nodes → List Bytes → Bytes → Bytes → Type 0
  Alters store components name oid =
      (current parent : Option PhysicalTree) × (a b : Option TreeEntryState) × TreesOf store
        components oid current parent
      × StateIn current name a
      × StateIn parent name b
      × (a ≢ b)

-- ===== src/Commits/History/Changed.antt =====
-- The states that `commit_states` reads are those of the entries in a commit and its first parent.
use fornacast.Prelude.{
  Result, ℕ, ◌≡◌, ◌≢◌, inl, inr, refl, sym, ap, ◌∙◌, subst, true, false, Option, none, some, List,
  [], ◌∷◌, ok, err, if◌then◌else◌, arith, Bool-cases,
}
use fornacast.Prelude.Bytes.{Bytes, bytes_eq_iff, bytes_eq_refl}
use fornacast.Native.{ok_or}
use fornacast.Native.Clock as Clock
use fornacast.Native.Clock.{Clock, pure, ◌>>=◌}
use fornacast.Native.Outcome.{Returned}
use fornacast.Compare.Budgets.{Oids}
use fornacast.Tree.Entries.{Item, TreeEntryState}
use fornacast.Tree.Pass
use fornacast.Tree.Pass.{
  DirectTreeEntry, same_bool, check_tree_history_deadline, retained_tree_states,
}
use fornacast.Tree.States.{retained_tree_states-EntryIn}
use fornacast.Commits.Nodes.{CommitNode, Nodes, lookup}
use fornacast.Commits.Graph.Release.{Loaded}
use fornacast.Commits.Load.{FindError, Repository}
use fornacast.Commits.Listing.{Printing, NativeTreeCommit}
use fornacast.Commits.History.Physical.{
  PhysicalTree, TreeObject, tree_object, other_object, Trees, tree_for_git_path,
}
use fornacast.Commits.History.Paths.{
  Stored, TreeAt, tree_for_git_path-TreeAt, Under-Stored, StateIn, ParentTree, TreesOf, Keeps,
  Alters,
}
use fornacast.Commits.History.{
  States, same_id, items_of, is_selected, node_missing, parent_missing, parent_tree, commit_states,
  same_state,
}
use fornacast.Commits.History.Loop.{Leaves, Changes}
use fornacast.Commits.Listing.Authored.{ShowsCommit, ok_or-eq-ok, hydrate_tree_commit-ShowsCommit}

abbrev items_in : Option (Result FindError TreeObject) → List Item
items_in (some (ok (tree_object items))) = items
items_in (some (ok other_object)) = []
items_in (some (err e)) = []
items_in none = []

same_state-eq : (a b : Option TreeEntryState) → same_state a b ≡ true → a ≡ b
same_state-eq none none h = refl
same_state-eq none (some b) h = cc h
same_state-eq (some a) none h = cc h
same_state-eq (some a) (some b) h =
    let mode : a.mode ≡ b.mode = ground arith in
    let oid : a.oid ≡ b.oid = (bytes_eq_iff a.oid b.oid).0 (ground arith) in
    let is_tree : a.is_tree ≡ b.is_tree = ground arith in
    λ i. some (record { mode = mode i; oid = oid i; is_tree = is_tree i })

same_state-ne : (a b : Option TreeEntryState) → same_state a b ≡ false → a ≢ b
same_state-ne none b h e = cc (h, ap (same_state none) e)
same_state-ne (some a) b h e =
    let same : same_state (some a) (some a) ≡ true = ground (arith, bytes_eq_refl a.oid) in
    cc (h, same, ap (same_state (some a)) e)

module _ (late : Clock) (trees : Trees) (nodes store : Nodes)
    (known : (x : Bytes) (node : CommitNode) → Loaded nodes x node → Loaded store x node)
    (components : List Bytes) (selected : List DirectTreeEntry) where
  parent_tree-ParentTree :
      (parents : Oids) (n : ℕ) {o : Option PhysicalTree} {k : ℕ}
      → parent_tree late trees nodes components selected parents n ≡ ok (o, k)
      → ParentTree trees store components parents o
  parent_tree-ParentTree [] n {o} h = sym (ap (λ r. elim r [ ok z ↦ z.0 | err z ↦ o ]) h)
  parent_tree-ParentTree (oid ∷ oids) n h =
      let (parent, n1, found, h1) =
        Clock.>>=-eq-ok (Clock.lift (ok_or (lookup nodes oid) parent_missing)) _ n h in
      (
        parent,
        known oid parent
            (ok_or-eq-ok (lookup nodes oid) parent_missing (Clock.lift-eq-ok _ n found).0),
        tree_for_git_path-TreeAt trees late parent.tree components false n1 h1,
      )

  same_items :
      (a b : PhysicalTree) → Stored trees a → Stored trees b → a.id ≡ b.id → a.items ≡ b.items
  same_items a b stored_a stored_b is =
      let one : ◌≡◌ {A = Option (Result FindError TreeObject)} (some (ok (tree_object a.items)))
          (some (ok (tree_object b.items))) =
        sym stored_a ∙ ap (lookup trees) is ∙ stored_b in
      ap items_in one

  same_trees :
      (root : Bytes) (parents : Oids) (a b : Option PhysicalTree)
      → TreeAt trees root components a
      → ParentTree trees store components parents b
      → same_id a b ≡ true
      → a ≡ b
  same_trees root parents none none at_path in_parent h = refl
  same_trees root parents none (some b) at_path in_parent h = cc h
  same_trees root parents (some a) none at_path in_parent h = cc h
  same_trees root [] (some a) (some b) at_path in_parent h = absurd (cc in_parent)
  same_trees root (oid ∷ oids) (some a) (some b) (t, _, stored, under)
        (parent, _, (t', _, stored', under')) h =
      let is : a.id ≡ b.id = (bytes_eq_iff a.id b.id).0 h in
      let its : a.items ≡ b.items =
        same_items a b (Under-Stored trees t components a stored under)
          (Under-Stored trees t' components b stored' under') is in
      λ i. some (record { id = is i; items = its i })

  -- What is read of a commit: nothing of the entries if the trees are the same.
  abbrev Reads : Option PhysicalTree → Option PhysicalTree → Option (States × States) → Type 0
  Reads current parent none = current ≡ parent
  Reads current parent (some s) =
      (name : Bytes)
      → is_selected selected name ≡ true
      → StateIn trees current name (Pass.lookup name s.0)
        × StateIn trees parent name (Pass.lookup name s.1)

  read_states :
      (current parent : Option PhysicalTree) (s : Option (States × States)) (n : ℕ) {k : ℕ}
      → (same_id current parent ≡ true → current ≡ parent)
      → (if same_id current parent then pure none else do
        current_states ← retained_tree_states late (items_of current) (is_selected selected)
        parent_states ← retained_tree_states late (items_of parent) (is_selected selected)
        pure (some (current_states, parent_states)))
          n
        ≡ ok (s, k)
      → Reads current parent s
  read_states current parent s n same h = elim (Bool-cases (same_id current parent)) [
    | inl equal ↦
        let nothing : none ≡ s = ap (λ r. elim r [ ok z ↦ z.0 | err z ↦ s ]) (rw equal at h) in
        subst (Reads current parent) nothing (same equal)
    | inr differ ↦
        let (now, n1, e, h1) =
          Clock.>>=-eq-ok (retained_tree_states late (items_of current) (is_selected selected)) _ n
            (rw differ at h) in
        let (before, n2, f, h2) =
          Clock.>>=-eq-ok (retained_tree_states late (items_of parent) (is_selected selected)) _ n1
            h1 in
        let both : some (now, before) ≡ s = ap (λ r. elim r [ ok z ↦ z.0 | err z ↦ s ]) h2 in
        subst (Reads current parent) both (λ name sel. (
          retained_tree_states-EntryIn late (items_of current) (is_selected selected) n e name sel,
          retained_tree_states-EntryIn late (items_of parent) (is_selected selected) n1 f name sel,
        ))
  ]

  commit_states-Reads :
      (oid : Bytes) (s : Option (States × States))
      → Returned (commit_states late trees nodes components selected oid) s
      → (current parent : Option PhysicalTree) × TreesOf trees store components oid current parent
        × Reads current parent s
  unfolding commit_states
  commit_states-Reads oid s (n, k, h) =
      let (_, n1, _, h1) = Clock.>>=-eq-ok (check_tree_history_deadline late) _ n h in
      let (node, n2, found, h2) =
        Clock.>>=-eq-ok (Clock.lift (ok_or (lookup nodes oid) node_missing)) _ n1 h1 in
      let (current, n3, now, h3) =
        Clock.>>=-eq-ok (tree_for_git_path late trees node.tree components false) _ n2 h2 in
      let (parent, n4, before, h4) =
        Clock.>>=-eq-ok (parent_tree late trees nodes components selected node.parents) _ n3 h3 in
      let here = tree_for_git_path-TreeAt trees late node.tree components false n2 now in
      let there = parent_tree-ParentTree node.parents n3 before in
      (
        current,
        parent,
        (
          node,
          known oid node
              (ok_or-eq-ok (lookup nodes oid) node_missing (Clock.lift-eq-ok _ n1 found).0),
          here,
          there,
        ),
        read_states current parent s n4
            (same_trees node.tree node.parents current parent here there) h4,
      )

  pub Leaves-Keeps :
      (p : Printing) (repo : Repository) (name oid : Bytes)
      → is_selected selected name ≡ true
      → Leaves late p repo trees nodes components selected name oid
      → Keeps trees store components name oid
  Leaves-Keeps p repo name oid sel (none, read, agrees) =
      let (current, parent, here, same) = commit_states-Reads oid none read in
      (current, parent, here, inl same)
  Leaves-Keeps p repo name oid sel (some s, read, agrees) =
      let (current, parent, here, states) = commit_states-Reads oid (some s) read in
      let (now, before) = states name sel in
      (
        current,
        parent,
        here,
        inr (
          Pass.lookup name s.0,
          now,
          subst (StateIn trees parent name) (sym (same_state-eq _ _ agrees)) before,
        ),
      )

  pub Changes-Alters :
      (p : Printing) (repo : Repository) (name : Bytes) (c : NativeTreeCommit) (oid : Bytes)
      → is_selected selected name ≡ true
      → Changes late p repo trees nodes components selected name c oid
      → Alters trees store components name oid × ShowsCommit p repo oid c
  Changes-Alters p repo name c oid sel (none, read, differs, brought) = absurd differs
  Changes-Alters p repo name c oid sel (some s, read, differs, brought) =
      let (current, parent, here, states) = commit_states-Reads oid (some s) read in
      let (now, before) = states name sel in
      (
        (current, parent, _, _, here, now, before, same_state-ne _ _ differs),
        hydrate_tree_commit-ShowsCommit late p repo oid c brought,
      )

-- ===== src/Commits/Graph/Walked.antt =====
-- The whole walk: what `walk_commit_graph_with` returns, and why it ends.
use fornacast.Prelude.{
  ℕ, suc, ◌≤◌, ◌≡◌, ◌⊎◌, inl, inr, refl, sym, ap, subst, Option, some, [], ◌∷◌, arith,
}
use mathlib.Core.Option
use fornacast.Prelude.Bytes.{Bytes, bytes_eq_iff, bytes_eq_refl}
use fornacast.Native.{NativeError, ok_or}
use fornacast.Native.Clock.{Clock, lift, ◌>>=◌}
use fornacast.Native.Outcome.{Outcome, Outcome-bind, Outcome-lift, Outcome-weaken}
use fornacast.Commits.Graph.{
  Walk, Loader, position_of, walk_rounds, empty_walk, order_walk, FromHex, invalid_oid,
  walk_commit_graph_with,
}
use fornacast.Commits.Nodes.{CommitNode, Nodes, check_commit_deadline, OrderedCommitGraph}
use fornacast.Commits.Ordering.{order_commits}
use fornacast.Commits.Graph.Maps.{DistinctKeys}
use fornacast.Commits.Graph.Release.{Loaded, CommitTimeout}
use fornacast.Commits.Graph.Parents.{Reach, here, parents_left, Overflow, Outcome-deadline}
use fornacast.Commits.Graph.Ordered.{OrderError, Ordered, order_commits-Ordered}
use fornacast.Commits.Graph.Visits.{walk_rounds-IsExplored}
use fornacast.Commits.Graph.Explored.{IsExplored}
use fornacast.Commits.Graph.Reached.{
  IsWalk, Cyclic, nodes-IsClosed, nodes_counted, is_walk, order_error,
}

module _ {S : Type 0} (late : Clock) (store : Nodes) (store_distinct : DistinctKeys store)
    (tip_oid : Bytes) (load_node : Loader S) (P : S → Type 0) (E : NativeError → Type 0)
    (timed : (e : NativeError) → CommitTimeout late e → E e)
    (over : (e : NativeError) → Overflow store e → E e)
    (loads : (oid : Bytes) (s : S) (n : ℕ)
      → Reach store tip_oid oid
      → P s
      → Outcome E
          (λ (r : CommitNode × S). Loaded store oid r.0 × P r.1)
          (load_node oid (position_of oid tip_oid) s n)) where
  abbrev pub Failed : NativeError → Type 0
  Failed e = E e ⊎ Cyclic store tip_oid e

  abbrev pub Walked : Option (OrderedCommitGraph × S) → Type 0
  Walked o = (g : OrderedCommitGraph) × (s : S) × (o ≡ some (g, s)) × IsWalk store tip_oid g × P s

  order_walk-Walked :
      (w : Walk S) (n : ℕ)
      → IsExplored S P store tip_oid w []
      → Outcome Failed Walked (order_walk late tip_oid (some w) n)
  order_walk-Walked w n i =
      Outcome-bind Failed (Ordered tip_oid w.nodes) Walked
        (order_commits late tip_oid w.nodes w.child_counts) _ n
        (Outcome-weaken (OrderError late w.nodes) Failed (Ordered tip_oid w.nodes)
          (order_commits late tip_oid w.nodes w.child_counts n)
          (order_error P store tip_oid w i late E timed)
          (order_commits-Ordered late tip_oid w.nodes w.child_counts i.distinct
            (nodes-IsClosed P store tip_oid w i) (nodes_counted P store tip_oid w i) n))
        (λ o k (g, e, is). (
          g,
          w.loading,
          ap (Option.map (λ g. (g, w.loading))) e,
          is_walk P store tip_oid w i g is,
          i.keeps,
        ))

  start-IsExplored : (s : S) → P s → IsExplored S P store tip_oid (empty_walk s) (tip_oid ∷ [])
  start-IsExplored s p = record {
    keeps = p;
    distinct = tt;
    counted = λ x. refl;
    entered = λ x node l. absurd (cc l);
    from_store = λ x node l. absurd (cc l);
    waits = λ x h. subst (Reach store tip_oid) ((bytes_eq_iff tip_oid x).0 (ground arith)) here;
    loaded = λ x h. absurd (cc h);
    seen = λ x node l. absurd (cc l);
    parents_met = λ x node p l h. absurd (cc l);
    tip_met = inr (ground (arith, bytes_eq_refl tip_oid));
    edges = omega arith;
  }

  walk_rounds-Walked :
      (s : S) (rounds n : ℕ)
      → P s
      → suc (parents_left store []) ≤ rounds
      → Outcome Failed Walked (
          (walk_rounds late tip_oid load_node rounds (empty_walk s) (tip_oid ∷ []) >>= λ w.
          order_walk late tip_oid w)
            n)
  walk_rounds-Walked s rounds n p enough =
      let Found =
        λ (o : Option (Walk S)). (v : Walk S) × (o ≡ some v) × IsExplored S P store tip_oid v [] in
      let walk = walk_rounds late tip_oid load_node rounds (empty_walk s) (tip_oid ∷ []) in
      Outcome-bind Failed Found Walked walk _ n
        (Outcome-weaken E Failed Found (walk n) (λ e x. inl x)
          (walk_rounds-IsExplored late store store_distinct tip_oid load_node P E timed over loads
            rounds (empty_walk s) (tip_oid ∷ []) n (start-IsExplored s p) (omega arith)))
        (λ o k (v, e, i).
          subst (λ x. Outcome Failed Walked (order_walk late tip_oid x k)) (sym e)
            (order_walk-Walked v k i))

  -- Whatever loads commits: a walk gives the graph of all that the tip reaches, or one of these
  -- errors.
  pub walk_commit_graph_with-Walked :
      (from_hex : FromHex) (snapshot_oid : Bytes) (s : S) (rounds n : ℕ)
      → from_hex snapshot_oid ≡ some tip_oid
      → P s
      → suc (parents_left store []) ≤ rounds
      → Outcome Failed Walked
          (walk_commit_graph_with late from_hex load_node rounds snapshot_oid s n)
  unfolding walk_commit_graph_with
  walk_commit_graph_with-Walked from_hex snapshot_oid s rounds n hex p enough =
      Outcome-bind Failed (λ (u : Unit {0}). Unit {0}) Walked (check_commit_deadline late) _ n
        (Outcome-deadline late store Failed (λ e t. inl (timed e t)) (λ e o. inl (over e o)) n)
        (λ _ k _.
          Outcome-bind Failed (λ x. x ≡ tip_oid) Walked
            (lift (ok_or (from_hex snapshot_oid) invalid_oid)) _ k
            (Outcome-lift Failed (λ x. x ≡ tip_oid) (ok_or (from_hex snapshot_oid) invalid_oid) k
              (ap (λ x. ok_or x invalid_oid) hex) refl)
            (λ x j is.
              subst
                (λ y. Outcome Failed Walked (
                  (walk_rounds late y load_node rounds (empty_walk s) (y ∷ []) >>= λ w.
                  order_walk late y w)
                    j))
                (sym is) (walk_rounds-Walked s rounds j p enough)))

-- ===== src/Commits/Graph/Parents.antt =====
-- The parents of a commit that is loaded: `count_parents`, and what the tip reaches.
use fornacast.Prelude.{
  ℕ, suc, ◌+◌, ◌≤◌, ◌≡◌, ◌⊎◌, inl, inr, refl, true, false, ◌||◌, some, [], ◌∷◌, ltb, arith,
  Bool-cases, length,
}
use fornacast.Prelude.Bytes.{Bytes, bytes_eq, bytes_eq_iff, bytes_eq_refl}
use fornacast.Prelude.Word.{u64_mod}
use fornacast.Native.{NativeError}
use fornacast.Native.Clock.{Clock, lift}
use fornacast.Native.Outcome.{
  Outcome, Outcome-bind, Outcome-lift, Outcome-lift_err, Outcome-imply, Outcome-weaken,
}
use fornacast.Compare.Budgets.{Oids, has}
use fornacast.Commits.Graph.{count_overflow, increment, count_parents}
use fornacast.Commits.Nodes.{
  CommitNode, Nodes, Counts, count_of, lookup, put, check_commit_deadline,
}
use fornacast.Commits.Graph.Maps.{lookup-put}
use fornacast.Commits.Graph.Weights.{occurrences, weigh}
use fornacast.Commits.Graph.Release.{Loaded, waiting, CommitTimeout, Outcome-commit_deadline}

-- The commits that can be walked to from the tip, along the parents of the commits of a store.
pub data Reach (store : Nodes) (tip_oid : Bytes) : Bytes → Type 0 where
  here : Reach store tip_oid tip_oid
  step :
      {c p : Bytes} {node : CommitNode}
      → Reach store tip_oid c
      → Loaded store c node
      → has p node.parents ≡ true
      → Reach store tip_oid p

-- How many parents the commits have that are not in the list.
abbrev pub parents_left : Nodes → Oids → ℕ
parents_left nodes done = weigh (λ node. length node.parents) nodes done

-- The store has more parents than a count can hold.
abbrev pub Overflow : Nodes → NativeError → Type 0
Overflow store e = (e ≡ count_overflow) × (u64_mod ≤ parents_left store [])

pub occurrences-le : (x : Bytes) (oids : Oids) → occurrences x oids ≤ length oids
occurrences-le x [] = omega arith
occurrences-le x (y ∷ oids) = ground (arith, occurrences-le x oids)

pub waiting-le : (nodes : Nodes) (x : Bytes) → waiting nodes x [] ≤ parents_left nodes []
waiting-le [] x = omega arith
waiting-le ((id, node) ∷ nodes) x = omega (arith, waiting-le nodes x, occurrences-le x node.parents)

-- The counts and the stack when the parents are counted.
pub record IsCounted (parents : Oids) (counts : Counts) (pending : Oids) (r : Counts × Oids)
    : Type 0 where
  pub grown : (x : Bytes) → count_of r.0 x ≡ count_of counts x + occurrences x parents
  pub kept : (x : Bytes) (n : ℕ) → lookup counts x ≡ some n → (m : ℕ) × (lookup r.0 x ≡ some m)
  pub stacked : (x : Bytes) → has x r.1 ≡ (has x pending || has x parents)
  pub size : length r.1 ≡ length pending + length parents

module _ (late : Clock) (store : Nodes) (E : NativeError → Type 0)
    (timed : (e : NativeError) → CommitTimeout late e → E e)
    (over : (e : NativeError) → Overflow store e → E e) where
  pub Outcome-deadline :
      (n : ℕ) → Outcome E (λ (u : Unit {0}). Unit {0}) (check_commit_deadline late n)
  Outcome-deadline n =
      Outcome-weaken (CommitTimeout late) E (λ (u : Unit {0}). Unit {0})
        (check_commit_deadline late n) timed (Outcome-commit_deadline late n)

  Outcome-increment :
      (x : Bytes) (counts : Counts) (n : ℕ)
      → suc (count_of counts x) ≤ parents_left store []
      → Outcome E (λ c. c ≡ put x (suc (count_of counts x)) counts) (lift (increment x counts) n)
  Outcome-increment x counts n h = elim (Bool-cases (ltb (count_of counts x + 1) u64_mod)) [
    | inl fits ↦
        Outcome-lift E (λ c. c ≡ put x (suc (count_of counts x)) counts) (increment x counts) n
          (ground arith) refl
    | inr full ↦
        Outcome-lift_err E (λ c. c ≡ put x (suc (count_of counts x)) counts) (increment x counts) n
          (ground arith) (over count_overflow (refl, ground arith))
  ]

  IsCounted-next :
      (p : Bytes) (parents : Oids) (counts c : Counts) (pending : Oids) (r : Counts × Oids)
      → c ≡ put p (suc (count_of counts p)) counts
      → IsCounted parents c (p ∷ pending) r
      → IsCounted (p ∷ parents) counts pending r
  IsCounted-next p parents counts c pending r is i = record {
    grown = λ x.
        ground
          (arith, i.grown x, lookup-put p x (suc (count_of counts p)) counts, bytes_eq_iff p x);
    kept = λ x n l. kept_next x n l (Bool-cases (bytes_eq p x));
    stacked = λ x. ground (arith, i.stacked x);
    size = omega (arith, i.size);
  }
    where
      kept_next :
          (x : Bytes) (n : ℕ)
          → lookup counts x ≡ some n
          → (bytes_eq p x ≡ true) ⊎ (bytes_eq p x ≡ false)
          → (m : ℕ) × (lookup r.0 x ≡ some m)
      kept_next x n l (inl same) =
          i.kept x (suc (count_of counts p))
            (ground (arith, lookup-put p x (suc (count_of counts p)) counts))
      kept_next x n l (inr other) =
          i.kept x n (ground (arith, lookup-put p x (suc (count_of counts p)) counts))

  pub count_parents-IsCounted :
      (parents : Oids) (counts : Counts) (pending : Oids) (n : ℕ)
      → ((x : Bytes) → count_of counts x + occurrences x parents ≤ parents_left store [])
      → Outcome E (IsCounted parents counts pending) (count_parents late parents counts pending n)
  unfolding count_parents
  count_parents-IsCounted [] counts pending n h = record {
    grown = λ x. omega arith;
    kept = λ x m l. (m, l);
    stacked = λ x. ground arith;
    size = omega arith;
  }
  count_parents-IsCounted (p ∷ parents) counts pending n h =
      let counts' = put p (suc (count_of counts p)) counts in
      let Q = IsCounted (p ∷ parents) counts pending in
      Outcome-bind E (λ (u : Unit {0}). Unit {0}) Q (check_commit_deadline late) _ n
        (Outcome-deadline n)
        (λ _ k _.
          Outcome-bind E (λ c. c ≡ counts') Q (lift (increment p counts)) _ k
            (Outcome-increment p counts k (ground (arith, h p, bytes_eq_refl p)))
            (λ c j is.
              Outcome-imply E (IsCounted parents c (p ∷ pending)) Q
                (count_parents late parents c (p ∷ pending) j)
                (λ r i. IsCounted-next p parents counts c pending r is i)
                (count_parents-IsCounted parents c (p ∷ pending) j (λ x. ground (
                  arith,
                  lookup-put p x (suc (count_of counts p)) counts,
                  bytes_eq_iff p x,
                  h x,
                )))))

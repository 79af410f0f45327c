-- ===== src/Compare/Charges.antt =====
-- About `DecodedByteBudget` and `ComparisonDiffBudget`: runs of charges.
use fornacast.Prelude.{
  ℕ, zero, suc, ◌+◌, ◌≤◌, ◌<◌, ◌≡◌, ◌↔◌, refl, ap, String, List, [], ◌∷◌, ok, err, if◌then◌else◌,
  arith, Result-cases, inl, inr,
}
use fornacast.Prelude.Bytes.{Bytes}
use fornacast.Prelude.Word.{u64_mod}
use fornacast.Native.{NativeResult, NativeError}
use fornacast.Compare.Budgets.{
  Oids, has, DecodedByteBudget, charge, ComparisonDiffBudget, record_tree_entry,
}

-- An object and its decoded size.
abbrev pub Object : Type 0
Object = Bytes × ℕ

-- The charges of a scan, up to the first error.
unfoldable pub charge_all :
    String → List Object → DecodedByteBudget → NativeResult (Unit {0}) × DecodedByteBudget
charge_all detail [] b = (ok tt, b)
charge_all detail ((oid, size) ∷ objects) b =
    let (r, b') = charge oid size detail b in
    elim r [ ok done ↦ charge_all detail objects b' | err e ↦ (err e, b') ]

-- The decoded sizes of the objects, each counted where it comes first.
abbrev pub distinct_bytes : Oids → List Object → ℕ
distinct_bytes seen [] = 0
distinct_bytes seen ((oid, size) ∷ objects) =
    if has oid seen then distinct_bytes seen objects else size + distinct_bytes (oid ∷ seen) objects

charge_step :
    (oid : Bytes) (size : ℕ) (detail : String) (objects : List Object) (b : DecodedByteBudget)
    → b.limit < u64_mod
    → let (r, b') = charge oid size detail b in
      (r ≡ ok tt
        → (b'.limit ≡ b.limit)
          × (b'.used + distinct_bytes b'.seen objects
              ≡ b.used + distinct_bytes b.seen ((oid, size) ∷ objects)))
      × ((b.used + distinct_bytes b.seen ((oid, size) ∷ objects) ≤ b.limit) → r ≡ ok tt)
      × (b.used ≤ b.limit → b'.used ≤ b.limit)
unfolding charge
charge_step oid size detail objects b h =
    (λ e. (ground arith, ground arith), λ e. ground arith, λ e. ground arith)

charge_all_step :
    (oid : Bytes) (size : ℕ) (detail : String) (objects : List Object) (b : DecodedByteBudget)
    → (charge oid size detail b).0 ≡ ok tt
    → charge_all detail ((oid, size) ∷ objects) b
      ≡ charge_all detail objects (charge oid size detail b).1
unfolding charge_all
charge_all_step oid size detail objects b e =
    ap
      (λ r. elim r as (λ x. NativeResult (Unit {0}) × DecodedByteBudget) [
        | ok done ↦ charge_all detail objects (charge oid size detail b).1
        | err e ↦ (err e, (charge oid size detail b).1)
      ])
      e

charge_all_fails :
    (oid : Bytes) (size : ℕ) (detail : String) (objects : List Object) (b : DecodedByteBudget)
    (x : NativeError)
    → (charge oid size detail b).0 ≡ err x
    → (charge_all detail ((oid, size) ∷ objects) b).0 ≡ err x
unfolding charge_all
charge_all_fails oid size detail objects b x e =
    ap
      (λ r.
        (elim r as (λ x. NativeResult (Unit {0}) × DecodedByteBudget) [
          | ok done ↦ charge_all detail objects (charge oid size detail b).1
          | err e ↦ (err e, (charge oid size detail b).1)
        ]).0)
      e

-- The charges of a scan succeed exactly when the decoded sizes of the objects, each counted once,
-- fit what the limit leaves.
pub charge_all_exact :
    (detail : String) (objects : List Object) (b : DecodedByteBudget)
    → b.limit < u64_mod
    → b.used ≤ b.limit
    → ((charge_all detail objects b).0 ≡ ok tt) ↔ (b.used + distinct_bytes b.seen objects ≤ b.limit)
charge_all_exact detail [] b h w = unfold charge_all in (λ e. omega arith, λ e. refl)
charge_all_exact detail ((oid, size) ∷ objects) b h w =
    let b' = (charge oid size detail b).1 in
    let (charged, succeeds, within) = charge_step oid size detail objects b h in
    elim (Result-cases (charge oid size detail b).0) [
      | inl (done, e) ↦
          let (limit, sum) = charged e in
          let (to, from) =
            charge_all_exact detail objects b' (omega (arith, limit))
              (omega (arith, limit, within w)) in
          let same = charge_all_step oid size detail objects b e in
          rw same (λ k. omega (arith, to k, limit, sum), λ k. from (omega (arith, k, limit, sum)))
      | inr (x, e) ↦ (
        λ k. absurd (cc (charge_all_fails oid size detail objects b x e)),
        λ k. absurd (cc (succeeds k)),
      )
    ]

-- So many entries of trees, up to the first error.
unfoldable pub record_tree_entries :
    ℕ → ComparisonDiffBudget → NativeResult (Unit {0}) × ComparisonDiffBudget
record_tree_entries zero b = (ok tt, b)
record_tree_entries (suc n) b =
    let (r, b') = record_tree_entry b in
    elim r [ ok done ↦ record_tree_entries n b' | err e ↦ (err e, b') ]

record_tree_entry-room :
    (b : ComparisonDiffBudget)
    → b.tree_entry_limit < u64_mod
    → (record_tree_entry b).0 ≡ ok tt
    → (b.tree_entries < b.tree_entry_limit)
      × ((record_tree_entry b).1.tree_entries ≡ b.tree_entries + 1)
      × ((record_tree_entry b).1.tree_entry_limit ≡ b.tree_entry_limit)
unfolding record_tree_entry
record_tree_entry-room b h e = (ground arith, ground arith, ground arith)

record_tree_entry-ok :
    (b : ComparisonDiffBudget)
    → b.tree_entry_limit < u64_mod
    → b.tree_entries < b.tree_entry_limit
    → (record_tree_entry b).0 ≡ ok tt
unfolding record_tree_entry
record_tree_entry-ok b h w = ground arith

entries_next :
    (n : ℕ) (b : ComparisonDiffBudget)
    → (record_tree_entry b).0 ≡ ok tt
    → record_tree_entries (suc n) b ≡ record_tree_entries n (record_tree_entry b).1
unfolding record_tree_entries
entries_next n b e =
    ap
      (λ r. elim r as (λ x. NativeResult (Unit {0}) × ComparisonDiffBudget) [
        | ok done ↦ record_tree_entries n (record_tree_entry b).1
        | err e ↦ (err e, (record_tree_entry b).1)
      ])
      e

entries_fail :
    (n : ℕ) (b : ComparisonDiffBudget) (x : NativeError)
    → (record_tree_entry b).0 ≡ err x
    → (record_tree_entries (suc n) b).0 ≡ err x
unfolding record_tree_entries
entries_fail n b x e =
    ap
      (λ r.
        (elim r as (λ x. NativeResult (Unit {0}) × ComparisonDiffBudget) [
          | ok done ↦ record_tree_entries n (record_tree_entry b).1
          | err e ↦ (err e, (record_tree_entry b).1)
        ]).0)
      e

-- A comparison may visit entries of trees until there are as many as the limit.
pub record_tree_entries_exact :
    (n : ℕ) (b : ComparisonDiffBudget)
    → b.tree_entry_limit < u64_mod
    → b.tree_entries ≤ b.tree_entry_limit
    → ((record_tree_entries n b).0 ≡ ok tt) ↔ (b.tree_entries + n ≤ b.tree_entry_limit)
record_tree_entries_exact zero b h w = unfold record_tree_entries in (λ e. omega arith, λ e. refl)
record_tree_entries_exact (suc n) b h w = elim (Result-cases (record_tree_entry b).0) [
  | inl (done, e) ↦
      let b' = (record_tree_entry b).1 in
      let (room, next, limit) = record_tree_entry-room b h e in
      let (to, from) =
        record_tree_entries_exact n b' (omega (arith, limit)) (omega (arith, room, next, limit)) in
      rw (entries_next n b e)
        (λ k. omega (arith, to k, next, limit), λ k. from (omega (arith, k, next, limit)))
  | inr (x, e) ↦ (
    λ k. absurd (cc (entries_fail n b x e)),
    λ k. absurd (cc (record_tree_entry-ok b h (omega (arith, k)))),
  )
]

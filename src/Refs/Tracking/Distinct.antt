-- ===== src/Refs/Tracking/Distinct.antt =====
-- About `validated_tracking_ref_name`: the parts of a tracking name.
use fornacast.Prelude.{
  ℕ, ◌≡◌, refl, sym, ap, ◌∙◌, true, false, Option, none, some, [], ◌∷◌, ◌++◌, ok, err, guard,
  length, drop, leb, bind-eq-ok, Option-cases, inl, inr, arith,
}
use fornacast.Prelude.Bytes.{Bytes, codes, all, contains, strip_prefix, strip_prefix-eq-some}
use fornacast.Native.{NativeResult}
use fornacast.Refs.Tracking.{
  TrackingRefKind, is_identifier_byte, namespace_valid, relative_ref, branch_or_tag,
  without_last_slash, relative_or, tracking_prefix, source_ref_limit, validated_tracking_ref_name,
}

identifier-plain : (bs : Bytes) → all is_identifier_byte bs ≡ true → contains b'/' bs ≡ false
identifier-plain [] h = refl
identifier-plain (b ∷ bs) h = ground (arith, identifier-plain bs)

tail : Bytes → Bytes
tail [] = []
tail (b ∷ bs) = bs

tail-eq : {x y : ℕ} {a b : Bytes} → x ∷ a ≡ y ∷ b → a ≡ b
unfolding tail
tail-eq h = ap tail h

head_or : ℕ → Bytes → ℕ
head_or d [] = d
head_or d (b ∷ bs) = b

head-eq : {x y : ℕ} {a b : Bytes} → x ∷ a ≡ y ∷ b → x ≡ y
unfolding head_or
head-eq h = ap (head_or 0) h

-- A separator that is in neither first part divides a name in one way.
split_once :
    (a b r s : Bytes)
    → contains b'/' a ≡ false
    → contains b'/' b ≡ false
    → a ++ b'/' ∷ r ≡ b ++ b'/' ∷ s
    → (a ≡ b) × (r ≡ s)
split_once [] [] r s h k e = (refl, tail-eq e)
split_once [] (y ∷ b) r s h k e = let same : b'/' ≡ y = head-eq e in absurd (ground arith)
split_once (x ∷ a) [] r s h k e = let same : x ≡ b'/' = head-eq e in absurd (ground arith)
split_once (x ∷ a) (y ∷ b) r s h k e =
    let (ab, rs) = split_once a b r s (ground arith) (ground arith) (tail-eq e) in
    (λ i. head-eq e i ∷ ab i, rs)

kept-relative :
    (o : Option (Bytes × TrackingRefKind)) {relative : Bytes} {kind : TrackingRefKind}
    → relative_or (without_last_slash o) ≡ ok (relative, kind)
    → o ≡ some (relative, kind)
kept-relative none h = cc
kept-relative (some (r, k)) h = ground arith

relative-source :
    (source : Bytes) {relative : Bytes} {kind : TrackingRefKind}
    → relative_or (relative_ref source) ≡ ok (relative, kind)
    → source ≡ codes "refs/" ++ relative
relative-source source {relative} {kind} h =
    let heads = strip_prefix (codes "refs/heads/") source in
    let tags = strip_prefix (codes "refs/tags/") source in
    let kept = kept-relative (branch_or_tag heads tags) h in
    elim (Option-cases heads) [
      | inr (suffix, e) ↦
          let is : codes "heads/" ++ suffix ≡ relative = cc in
          strip_prefix-eq-some (codes "refs/heads/") source e ∙ ap (λ r. codes "refs/" ++ r) is
      | inl no_branch ↦ elim (Option-cases tags) [
        | inr (suffix, e) ↦
            let both : branch_or_tag none (some suffix) ≡ some (relative, kind) =
              sym (λ i. branch_or_tag (no_branch i) (e i)) ∙ kept in
            let is : codes "tags/" ++ suffix ≡ relative = cc in
            strip_prefix-eq-some (codes "refs/tags/") source e ∙ ap (λ r. codes "refs/" ++ r) is
        | inl no_tag ↦
            let neither : ◌≡◌ {A = Option (Bytes × TrackingRefKind)} none (some (relative, kind)) =
              sym (λ i. branch_or_tag (no_branch i) (no_tag i)) ∙ kept in
            absurd (cc)
      ]
    ]

drop_prefix : ℕ → Bytes → Bytes
drop_prefix n bs = drop n bs

cancel : {a b : Bytes} → tracking_prefix ++ a ≡ tracking_prefix ++ b → a ≡ b
unfolding drop_prefix
cancel h = ap (drop_prefix 23) h

-- The parts of a tracking name.
abbrev Parts : Bytes → Bytes → Bytes → Type 0
Parts namespace source name =
    (relative : Bytes) × (contains b'/' namespace ≡ false)
    × (source ≡ codes "refs/" ++ relative)
    × (name ≡ tracking_prefix ++ namespace ++ b'/' ∷ relative)

name_of : NativeResult (Bytes × TrackingRefKind) → Bytes
name_of (ok (name, kind)) = name
name_of (err e) = []

module _ (full_name : Bytes → NativeResult (Unit {0})) where
  parts :
      (namespace source : Bytes) {name : Bytes} {kind : TrackingRefKind}
      → validated_tracking_ref_name full_name namespace source ≡ ok (name, kind)
      → Parts namespace source name
  unfolding validated_tracking_ref_name name_of
  parts namespace source {name} {kind} h =
      let (_, g, h1) = bind-eq-ok (guard (namespace_valid namespace) _) _ h in
      let (_, _, h2) = bind-eq-ok (guard (leb (length source) source_ref_limit) _) _ h1 in
      let ((relative, k), r, h3) = bind-eq-ok (relative_or (relative_ref source)) _ h2 in
      let (_, _, h4) = bind-eq-ok (full_name source) _ h3 in
      let (_, _, h5) =
        bind-eq-ok (full_name (tracking_prefix ++ namespace ++ b'/' ∷ relative)) _ h4 in
      let valid : namespace_valid namespace ≡ true = ground arith in
      (
        relative,
        identifier-plain namespace (ground arith),
        relative-source source r,
        sym (ap name_of h5),
      )

  -- Two references that are kept under the same name are the same reference of the same mirror.
  pub validated_tracking_ref_name-injective :
      (namespace source namespace' source' : Bytes) {name : Bytes} {kind kind' : TrackingRefKind}
      → validated_tracking_ref_name full_name namespace source ≡ ok (name, kind)
      → validated_tracking_ref_name full_name namespace' source' ≡ ok (name, kind')
      → (namespace ≡ namespace') × (source ≡ source')
  validated_tracking_ref_name-injective namespace source namespace' source' {name} h h' =
      let (r, plain, s, n) = parts namespace source h in
      let (r', plain', s', n') = parts namespace' source' h' in
      let same : namespace ++ b'/' ∷ r ≡ namespace' ++ b'/' ∷ r' = cancel (sym n ∙ n') in
      let (ns, rs) = split_once namespace namespace' r r' plain plain' same in
      (ns, s ∙ ap (λ r. codes "refs/" ++ r) rs ∙ sym s')

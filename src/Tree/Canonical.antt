-- ===== src/Tree/Canonical.antt =====
-- About `validate_tree_entry` and the passes: the canonical sequences of entries.
use Prim.Native.Nat.{Ordering}
use fornacast.Prelude.{
  ℕ, ◌+◌, Bool, false, ◌≡◌, ◌≢◌, ◌↔◌, ◌⊎◌, refl, sym, ap, subst, ◌∙◌, if◌then◌else◌, none, some,
  List, [], ◌∷◌, ok, err, ◌>>=◌, bind-eq-ok, ◌==◌, arith,
}
use mathlib.Core.List.{map}
use fornacast.Prelude.Bytes.{Bytes, contains, bytes_eq_iff, cmp}
use fornacast.Native.{NativeResult, native_error}
use fornacast.Native.Clock as Clock
use fornacast.Native.Clock.{Clock, OnTime, Gives}
use fornacast.Tree.Entries.{
  RawEntry, Item, entry, broken, Previous, mode_is_tree, is_unsafe_name, out_of_order,
  validate_tree_entry,
}
use fornacast.Tree.Order.{sort_key, git_tree_entry_order_exact}
use fornacast.Tree.Pass.{check_tree_history_deadline, for_entries, pass}

abbrev pub Supported : ℕ → Type 0
Supported mode =
    (mode ≡ 0o040000)
    ⊎ ((mode ≡ 0o100644) ⊎ ((mode ≡ 0o100755) ⊎ ((mode ≡ 0o120000) ⊎ (mode ≡ 0o160000))))

-- After the previous entry in the order of the keys, and not of the same name.
abbrev pub After : Previous → Bytes → ℕ → Type 0
After none name mode = Unit
After (some (previous, t)) name mode =
    (previous ≢ name) × (cmp (sort_key previous t) (sort_key name (mode == 0o040000)) ≡ Ordering.lt)

abbrev pub Acceptable : Previous → Bytes → ℕ → Type 0
Acceptable p name mode = Supported mode × (is_unsafe_name name ≡ false) × After p name mode

abbrev pub seen : RawEntry → Previous
seen e = some (e.filename, e.mode == 0o040000)

-- The entries are those of a well-formed tree object.
abbrev pub Canonical : Previous → List RawEntry → Type 0
Canonical p [] = Unit
Canonical p (e ∷ es) = Acceptable p e.filename e.mode × Canonical (seen e) es

abbrev pub NoSeparator : Previous → Type 0
NoSeparator none = Unit
NoSeparator (some (name, t)) = contains b'/' name ≡ false

mode_is_tree_exact :
    (mode : ℕ) {t : Bool} → (mode_is_tree mode ≡ ok t) ↔ (Supported mode × (t ≡ (mode == 0o040000)))
mode_is_tree_exact mode = ground arith

safe-NoSeparator : (name : Bytes) → is_unsafe_name name ≡ false → contains b'/' name ≡ false
safe-NoSeparator name h = ground arith

in_order_exact :
    (p : Previous) (name : Bytes) (mode : ℕ)
    → NoSeparator p
    → contains b'/' name ≡ false
    → (out_of_order p name (mode == 0o040000) ≡ false) ↔ After p name mode
in_order_exact none name mode h k = ground arith
in_order_exact (some (previous, t)) name mode h k =
    rw (git_tree_entry_order_exact previous t name (mode == 0o040000) h k)
      (ground (arith, bytes_eq_iff previous name))

abbrev checked : Previous → Bytes → Bool → NativeResult Previous
checked p name is_tree =
    if is_unsafe_name name
    then err (native_error "corrupt_repository" "tree contains an unsafe entry name")
    else if out_of_order p name is_tree
    then err
        (native_error "corrupt_repository" "tree entries are duplicate or not canonically ordered")
    else ok (some (name, is_tree))

checked_exact :
    (p : Previous) (name : Bytes) (t : Bool) (p' : Previous)
    → (checked p name t ≡ ok p')
      ↔ ((is_unsafe_name name ≡ false) × (out_of_order p name t ≡ false) × (p' ≡ some (name, t)))
checked_exact p name t p' = ground arith

-- An entry is accepted exactly when its mode is one of the five of Git, its name is safe, and it
-- stands behind the previous one, of which the name holds no separator.
pub validate_tree_entry_exact :
    (p : Previous) (name : Bytes) (mode : ℕ) (p' : Previous)
    → NoSeparator p
    → (validate_tree_entry p name mode ≡ ok p')
      ↔ (Acceptable p name mode × (p' ≡ some (name, mode == 0o040000)))
unfolding validate_tree_entry
validate_tree_entry_exact p name mode p' h = (to, from)
  where
    to :
        validate_tree_entry p name mode ≡ ok p'
        → Acceptable p name mode × (p' ≡ some (name, mode == 0o040000))
    to e =
        let (t, q, r) = bind-eq-ok (mode_is_tree mode) (checked p name) e in
        let (supported, is) = (mode_is_tree_exact mode).0 q in
        let (safe, placed, result) = (checked_exact p name t p').0 r in
        (
          (
            supported,
            safe,
            (in_order_exact p name mode h (safe-NoSeparator name safe)).0
                (subst (λ u. out_of_order p name u ≡ false) is placed),
          ),
          subst (λ u. p' ≡ some (name, u)) is result,
        )

    from :
        Acceptable p name mode × (p' ≡ some (name, mode == 0o040000))
        → validate_tree_entry p name mode ≡ ok p'
    from ((supported, safe, after), result) =
        let q = (mode_is_tree_exact mode).1 (supported, refl) in
        let placed = (in_order_exact p name mode h (safe-NoSeparator name safe)).1 after in
        ap (λ r. r >>= checked p name) q
        ∙ (checked_exact p name (mode == 0o040000) p').1 (safe, placed, result)

-- What is done with the entries that passed.
unfoldable pub fold_entries :
    {S : Type 0} → (RawEntry → S → NativeResult S) → List RawEntry → S → NativeResult S
fold_entries body [] s = ok s
fold_entries body (e ∷ es) s = body e s >>= fold_entries body es

abbrev pub Loops :
    {S : Type 0} → (RawEntry → S → NativeResult S) → List Item → Previous → S → S → Type 0
Loops {S} body items p s s' =
    (es : List RawEntry) × (items ≡ map entry es)
    × Canonical p es
    × (fold_entries body es s ≡ ok s')

module _ {S : Type 0} (late : Clock) (body : RawEntry → S → NativeResult S) where
  entry_step :
      (e : RawEntry) (items : List Item) (p : Previous) (s : S) (n : ℕ) {s' : S} {k : ℕ}
      → for_entries late body (entry e ∷ items) p s n ≡ ok (s', k)
      → (p' : Previous) × (s1 : S) × (n' : ℕ) × (validate_tree_entry p e.filename e.mode ≡ ok p')
        × (body e s ≡ ok s1)
        × (for_entries late body items p' s1 n' ≡ ok (s', k))
  unfolding for_entries
  entry_step e items p s n {s'} {k} h =
      let (_, n1, _, h1) = Clock.>>=-eq-ok (check_tree_history_deadline late) _ n h in
      let (p', n2, v, h2) =
        Clock.>>=-eq-ok (Clock.lift (validate_tree_entry p e.filename e.mode)) _ n1 h1 in
      let (s1, n3, b, h3) = Clock.>>=-eq-ok (Clock.lift (body e s)) _ n2 h2 in
      (p', s1, n3, (Clock.lift-eq-ok _ n1 v).0, (Clock.lift-eq-ok _ n2 b).0, h3)

  pub for_entries_sound :
      (items : List Item) (p : Previous) (s : S) (n : ℕ) {s' : S} {k : ℕ}
      → NoSeparator p
      → for_entries late body items p s n ≡ ok (s', k)
      → Loops body items p s s'
  unfolding for_entries check_tree_history_deadline fold_entries
  for_entries_sound [] p s n h e = ([], refl, tt, cc)
  for_entries_sound (broken ∷ items) p s n {s'} {k} h e =
      let (_, n1, _, e1) = Clock.>>=-eq-ok (check_tree_history_deadline late) _ n e in absurd (cc)
  for_entries_sound (entry e ∷ items) p s n {s'} {k} h eq =
      let (p', s1, n', v, b, rest) = entry_step e items p s n eq in
      let (fine, now) = (validate_tree_entry_exact p e.filename e.mode p' h).0 v in
      let clean : NoSeparator (seen e) = safe-NoSeparator e.filename fine.1 in
      let (es, is, canonical, folded) =
        for_entries_sound items (seen e) s1 n' clean
          (subst (λ q. for_entries late body items q s1 n' ≡ ok (s', k)) now rest) in
      (
        e ∷ es,
        ap (λ l. entry e ∷ l) is,
        (fine, canonical),
        ap (λ r. r >>= fold_entries body es) b ∙ folded,
      )

  step_complete :
      (e : RawEntry) (items : List Item) (p : Previous) (s : S) (n : ℕ) (p' : Previous) {s1 : S}
      → OnTime late
      → validate_tree_entry p e.filename e.mode ≡ ok p'
      → body e s ≡ ok s1
      → for_entries late body (entry e ∷ items) p s n ≡ for_entries late body items p' s1 (n + 1)
  unfolding for_entries check_tree_history_deadline
  step_complete e items p s n p' on_time v b =
      Clock.bind-ok (check_tree_history_deadline late) _ n
        (Clock.check_deadline-ok late _ n (on_time n))
      ∙ Clock.bind-ok (Clock.lift (validate_tree_entry p e.filename e.mode)) _ (n + 1)
          (Clock.lift-ok _ (n + 1) v)
      ∙ Clock.bind-ok (Clock.lift (body e s)) _ (n + 1) (Clock.lift-ok _ (n + 1) b)

  for_entries_complete :
      (es : List RawEntry) (p : Previous) (s : S) (n : ℕ) {s' : S}
      → NoSeparator p
      → OnTime late
      → Canonical p es
      → fold_entries body es s ≡ ok s'
      → Gives (for_entries late body (map entry es) p s n) s'
  unfolding fold_entries
  for_entries_complete [] p s n h on_time c f =
      (n, unfold for_entries in ap (λ r. r >>= λ x. ok (x, n)) f)
  for_entries_complete (e ∷ es) p s n {s'} h on_time (fine, c) f =
      let (s1, b, rest) = bind-eq-ok (body e s) (fold_entries body es) f in
      let v = (validate_tree_entry_exact p e.filename e.mode (seen e) h).1 (fine, refl) in
      let clean : NoSeparator (seen e) = safe-NoSeparator e.filename fine.1 in
      subst (λ r. Gives r s') (sym (step_complete e (map entry es) p s n (seen e) on_time v b))
        (for_entries_complete es (seen e) s1 (n + 1) clean on_time c rest)

  pub pass_sound :
      (items : List Item) (s : S) (n : ℕ) {s' : S} {k : ℕ}
      → pass late body items s n ≡ ok (s', k)
      → Loops body items none s s'
  unfolding pass
  pass_sound items s n {s'} e =
      let (s1, n1, e1, e2) = Clock.>>=-eq-ok (for_entries late body items none s) _ n e in
      let (_, n2, _, e3) = Clock.>>=-eq-ok (check_tree_history_deadline late) _ n1 e2 in
      let same : s1 ≡ s' = cc in
      subst (Loops body items none s) same (for_entries_sound items none s n tt e1)

  -- A pass in time gives a value exactly when the object decodes whole into a canonical sequence of
  -- entries on which the body succeeds.
  pub pass_exact :
      (items : List Item) (s : S) (n : ℕ) (s' : S)
      → OnTime late
      → Gives (pass late body items s n) s' ↔ Loops body items none s s'
  unfolding pass
  pass_exact items s n s' on_time = (to, from)
    where
      to : Gives (pass late body items s n) s' → Loops body items none s s'
      to (k, e) = pass_sound items s n e

      from : Loops body items none s s' → Gives (pass late body items s n) s'
      from (es, is, canonical, folded) =
          let (k, e) = for_entries_complete es none s n tt on_time canonical folded in
          let loop : for_entries late body items none s n ≡ ok (s', k) =
            subst (λ l. for_entries late body l none s n ≡ ok (s', k)) (sym is) e in
          (
            k + 1,
            Clock.bind-ok (for_entries late body items none s) _ n loop
                ∙ Clock.bind-ok (check_tree_history_deadline late) _ k (
                    unfold check_tree_history_deadline in
                    Clock.check_deadline-ok late _ k (on_time k)),
          )

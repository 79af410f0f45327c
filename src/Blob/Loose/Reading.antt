-- ===== src/Blob/Loose/Reading.antt =====
-- The name of a loose header is read up to the space: the first loop of `read_loose_header` of
-- bounded_blob.rs. What a digit adds, and the size that is declared in the end.
use fornacast.Prelude.{
  ℕ, zero, suc, ◌+◌, ◌-◌, ◌*◌, ◌%◌, ◌≤◌, ◌<◌, ◌≡◌, ◌≢◌, refl, sym, ap, ◌∙◌, Bool, true, false, not,
  ◌&&◌, ◌||◌, Bool-cases, inl, inr, List, [], ◌∷◌, ◌++◌, drop, Result, ok, err, leb, ltb, ◌==◌,
  length, length-append, arith, All, append_assoc, bind-eq-ok, subst,
}
use fornacast.Prelude
use fornacast.Prelude.Bytes.{Bytes}
use fornacast.Prelude.Word.{u64_mod}
use fornacast.Blob.Budget.{DecodeWorkBudget}
use fornacast.Blob.Run.{Later-refl, Later-Bounded, Bounded, Succeeds}
use fornacast.Blob.Run.Keeps.{Keeps, Keeps-bind, Keeps-imply}
use fornacast.Blob.Stream.{InflatedStream, read_required_byte, set_declared_size}
use fornacast.Blob.Stream.Inflating.{Inflation}
use fornacast.Blob.Stream.Refills.{Pending}
use fornacast.Blob.Stream.Reads.{read_required_byte-Pending}
use fornacast.Blob.Header.{Digits, is_ascii_lowercase, add_digit}
use fornacast.Blob.Loose.{kind_rounds}
use fornacast.Blob.Loose.Format.{Lowercase, Digit, value_from, first_or, packed_from}

-- What a digit adds.
pub add_digit-ok :
    (byte : ℕ) (d d' : Digits)
    → add_digit byte d ≡ ok d'
    → Digit byte
      × (d.digit_count ≢ 20)
      × (d'.digit_count ≡ d.digit_count + 1)
      × (d'.size ≡ d.size * 10 + (byte - 48))
      × (d.digit_count ≡ 0 → d'.first_digit ≡ byte)
      × (d.digit_count ≢ 0 → d'.first_digit ≡ d.first_digit)
unfolding add_digit
add_digit-ok byte d d' e = ground arith

pub add_digit-Succeeds :
    (byte : ℕ) (d : Digits)
    → Digit byte
    → d.digit_count < 20
    → d.size * 10 + (byte - 48) < u64_mod
    → Succeeds (add_digit byte d)
unfolding add_digit
add_digit-Succeeds byte d h k l = ground arith

-- The digits that are read behind `d`.
abbrev pub Behind : Digits → Bytes → Digits → Type 0
Behind d digits d' =
    All Digit digits
    × (d'.size ≡ value_from d.size digits)
    × (d'.digit_count ≡ d.digit_count + length digits)
    × (d.digit_count ≡ 0 → d'.first_digit ≡ first_or d.first_digit digits)
    × (d.digit_count ≢ 0 → d'.first_digit ≡ d.first_digit)

pub Behind-digit :
    (byte : ℕ) (d d' d'' : Digits) (digits : Bytes)
    → add_digit byte d ≡ ok d'
    → Behind d' digits d''
    → Behind d (byte ∷ digits) d''
Behind-digit byte d d' d'' digits e (all, value, count, none_before, some_before) =
    let (digit, few, one, size, none', some') = add_digit-ok byte d d' e in
    let later = some_before (λ h. omega (arith, h, one)) in
    (
      (digit, all),
      rw size at value,
      omega (arith, count, one),
      λ h. later ∙ none' h,
      λ h. later ∙ some' h,
    )

module _ {D : Type 0} (z : Inflation D) (G : Type 0) (total : ℕ) where
  pub set_declared_size-Pending :
      (n : ℕ) (s s' : InflatedStream D) (left : Bytes)
      → set_declared_size z.inflater n s ≡ ok s'
      → (G → n ≡ total)
      → Pending z G total s left
      → Pending z G total s' left
  unfolding set_declared_size
  set_declared_size-Pending n s s' left e all (later, split, last, pending, sound) =
      elim (Bool-cases (
        ltb n (z.inflater.total_out s.inflate)
        || s.ended && not (z.inflater.total_out s.inflate == n))) [
          | inl beyond ↦ absurd (cc (rw beyond at e))
          | inr within ↦
              let same : record s { declared_size = Prelude.some n } ≡ s' = cc (rw within at e) in
              subst (λ t. Pending z G total t left) same
                (
                  later,
                  split,
                  last,
                  pending,
                  λ g.
                      let (((sum, declares, room, small), decodes), few) = sound g in
                      (((sum, all g, room, small), decodes), few),
                )
        ]

  pub set_declared_size-Succeeds :
      (n : ℕ) (s : InflatedStream D) (left : Bytes)
      → n ≡ total
      → Pending z G total s left
      → G
      → Succeeds (set_declared_size z.inflater n s)
  unfolding set_declared_size
  set_declared_size-Succeeds n s left all (later, split, last, pending, sound) g =
      let (((sum, declares, room, small), decodes), few) = sound g in
      elim (Bool-cases s.ended) [
        | inr running ↦ ground arith
        | inl over ↦ let nothing = ap length (last over) in ground arith
      ]

  -- The name before the space.
  abbrev pub Named : ℕ → ℕ → Bytes → (ℕ × ℕ) × InflatedStream D → Type 0
  Named code n left r =
      (xs body : Bytes) × (left ≡ xs ++ 32 ∷ body)
      × All Lowercase xs
      × (r.0.0 ≡ packed_from code xs)
      × (r.0.1 ≡ n + length xs)
      × (r.0.1 ≤ 6)
      × Pending z G total r.1 body

  pub kind_rounds-Named :
      (rounds code n : ℕ) (s : InflatedStream D) (left : Bytes) (b : DecodeWorkBudget)
      → Bounded b
      → rounds + n ≡ 7
      → n ≤ 6
      → Pending z G total s left
      → (G → (xs body : Bytes) × (left ≡ xs ++ 32 ∷ body) × All Lowercase xs × (n + length xs ≤ 6))
      → Keeps G b (Named code n left) (kind_rounds z.inflater z.read rounds code n s b)
  unfolding kind_rounds
  kind_rounds-Named zero code n s left b bound enough few pending sound = absurd (omega arith)
  kind_rounds-Named (suc rounds) code n s left b bound enough few pending sound =
      Keeps-bind G (λ r. (left ≡ r.0 ∷ drop 1 left) × Pending z G total r.1 (drop 1 left)) _
        (read_required_byte z.inflater z.read s) _ b
        (read_required_byte-Pending z G total s left b bound pending λ g.
          let (xs, body, split, _, _) = sound g in
          omega (arith, ap length split, length-append xs (32 ∷ body)))
        λ r b1 l1 (first, now). elim (Bool-cases (r.0 == 32)) [
          | inl space ↦
              let is_space : r.0 ≡ 32 = ground arith in
              rw space (
                Later-refl b1,
                (
                  [],
                  drop 1 left,
                  first ∙ ap (λ x. x ∷ drop 1 left) is_space,
                  tt,
                  refl,
                  omega arith,
                  few,
                  now,
                ),
              )
          | inr letter ↦ elim (Bool-cases (n == 6 || not (is_ascii_lowercase r.0))) [
            | inl wrong ↦
                rw (letter, wrong)
                  λ g.
                    let (xs, body, split, low, fits) = sound g in
                    absurd (
                      right_letter n r.0 xs body left (drop 1 left) letter wrong first split low
                        fits)
            | inr right ↦
                let low : Lowercase r.0 = ground arith in
                let fewer : n + 1 ≤ 6 = ground arith in
                let code' = (code * 256) % u64_mod + r.0 in
                rw (letter, right)
                  (Keeps-imply G (Named code' (n + 1) (drop 1 left)) _ b1
                    (kind_rounds z.inflater z.read rounds code' (n + 1) r.1 b1)
                    (λ t (xs, body, split, all, is_code, count, small, later). (
                      r.0 ∷ xs,
                      body,
                      first ∙ ap (λ x. r.0 ∷ x) split,
                      (low, all),
                      is_code,
                      omega (arith, count),
                      small,
                      later,
                    ))
                    (kind_rounds-Named rounds code' (n + 1) r.1 (drop 1 left) b1
                      (Later-Bounded b b1 l1 bound) (omega (arith, enough)) fewer now
                      λ g.
                        let (xs, body, split, low, fits) = sound g in
                        behind_letter n r.0 xs body left (drop 1 left) letter first split low fits))
          ]
        ]
    where
      right_letter :
          (n byte : ℕ) (xs body left rest : Bytes)
          → byte == 32 ≡ false
          → n == 6 || not (is_ascii_lowercase byte) ≡ true
          → left ≡ byte ∷ rest
          → left ≡ xs ++ 32 ∷ body
          → All Lowercase xs
          → n + length xs ≤ 6
          → ⊥
      right_letter n byte [] body left rest letter wrong first split low fits =
          let same : byte ≡ 32 = cc (sym first ∙ split) in ground arith
      right_letter n byte (x ∷ xs) body left rest letter wrong first split ((l1, l2), low) fits =
          let same : byte ≡ x = cc (sym first ∙ split) in ground arith

      behind_letter :
          (n byte : ℕ) (xs body left rest : Bytes)
          → byte == 32 ≡ false
          → left ≡ byte ∷ rest
          → left ≡ xs ++ 32 ∷ body
          → All Lowercase xs
          → n + length xs ≤ 6
          → (xs' body' : Bytes) × (rest ≡ xs' ++ 32 ∷ body')
            × All Lowercase xs'
            × (n + 1 + length xs' ≤ 6)
      behind_letter n byte [] body left rest letter first split low fits =
          let same : byte ≡ 32 = cc (sym first ∙ split) in absurd (ground arith)
      behind_letter n byte (x ∷ xs) body left rest letter first split (_, low) fits =
          (xs, body, cc (sym first ∙ split), low, omega (arith, fits))

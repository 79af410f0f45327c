-- ===== src/Blob/Loose/Number.antt =====
-- The digits of a loose header are read up to the zero byte: the second loop of
-- `read_loose_header`.
use fornacast.Prelude.{
  ℕ, zero, suc, ◌+◌, ◌-◌, ◌*◌, ◌≤◌, ◌<◌, ◌≡◌, refl, sym, ap, ◌∙◌, false, Bool-cases, inl, inr, [],
  ◌∷◌, ◌++◌, drop, ◌==◌, length, length-append, arith, All, subst,
}
use fornacast.Prelude.Bytes.{Bytes}
use fornacast.Prelude.Word.{u64_mod}
use fornacast.Blob.Budget.{DecodeWorkBudget}
use fornacast.Blob.Run.{Later-refl, Later-Bounded, Bounded, Succeeds}
use fornacast.Blob.Run.Keeps.{Keeps, Keeps-bind, Keeps-imply, Keeps-try}
use fornacast.Blob.Stream.{InflatedStream, read_required_byte}
use fornacast.Blob.Stream.Inflating.{Inflation}
use fornacast.Blob.Stream.Refills.{Pending}
use fornacast.Blob.Stream.Reads.{read_required_byte-Pending}
use fornacast.Blob.Header.{Digits, add_digit}
use fornacast.Blob.Loose.{digit_rounds}
use fornacast.Blob.Loose.Format.{Digit, value_from, value_from-grows}
use fornacast.Blob.Loose.Reading.{add_digit-ok, add_digit-Succeeds, Behind, Behind-digit}

module _ {D : Type 0} (z : Inflation D) (G : Type 0) (total : ℕ) where
  -- The digits before the zero byte.
  abbrev pub Numbered : Digits → Bytes → Digits × InflatedStream D → Type 0
  Numbered d left r =
      (digits body : Bytes) × (left ≡ digits ++ 0 ∷ body)
      × Behind d digits r.0
      × (r.0.digit_count ≤ 20)
      × Pending z G total r.1 body

  pub digit_rounds-Numbered :
      (rounds : ℕ) (d : Digits) (s : InflatedStream D) (left : Bytes) (b : DecodeWorkBudget)
      → Bounded b
      → rounds + d.digit_count ≡ 21
      → d.digit_count ≤ 20
      → Pending z G total s left
      → (G
          → (digits body : Bytes) × (left ≡ digits ++ 0 ∷ body)
            × All Digit digits
            × (d.digit_count + length digits ≤ 20)
            × (value_from d.size digits < u64_mod))
      → Keeps G b (Numbered d left) (digit_rounds z.inflater z.read rounds d s b)
  unfolding digit_rounds
  digit_rounds-Numbered zero d s left b bound enough few pending sound = absurd (omega arith)
  digit_rounds-Numbered (suc rounds) d s left b bound enough few pending sound =
      Keeps-bind G (λ r. (left ≡ r.0 ∷ drop 1 left) × Pending z G total r.1 (drop 1 left)) _
        (read_required_byte z.inflater z.read s) _ b
        (read_required_byte-Pending z G total s left b bound pending λ g.
          let (digits, body, split, _, _, _) = sound g in
          omega (arith, ap length split, length-append digits (0 ∷ body)))
        λ r b1 l1 (first, now). elim (Bool-cases (r.0 == 0)) [
          | inl ends ↦
              let nought : r.0 ≡ 0 = ground arith in
              rw ends (
                Later-refl b1,
                (
                  [],
                  drop 1 left,
                  first ∙ ap (λ k. k ∷ drop 1 left) nought,
                  (tt, refl, omega arith, λ h. refl, λ h. refl),
                  few,
                  now,
                ),
              )
          | inr digit ↦ rw digit (
              Keeps-try G (add_digit r.0 d) _ _ b1
                (λ g.
                  let (digits, body, split, all, count, small) = sound g in
                  right_digit r.0 d digits body left (drop 1 left) digit first split all count
                    small)
                λ d' e.
                  let (_, some_room, one, size, _, _) = add_digit-ok r.0 d d' e in
                  Keeps-imply G (Numbered d' (drop 1 left)) _ b1
                    (digit_rounds z.inflater z.read rounds d' r.1 b1)
                    (λ t (digits, body, split, behind, small, later). (
                      r.0 ∷ digits,
                      body,
                      first ∙ ap (λ x. r.0 ∷ x) split,
                      Behind-digit r.0 d d' t.0 digits e behind,
                      small,
                      later,
                    ))
                    (digit_rounds-Numbered rounds d' r.1 (drop 1 left) b1
                      (Later-Bounded b b1 l1 bound) (omega (arith, enough, one))
                      (omega (arith, few, some_room, one)) now
                      λ g.
                        let (digits, body, split, all, count, small) = sound g in
                        behind_digit r.0 d d' digits body left (drop 1 left) digit first split all
                          count small one size))
        ]
    where
      right_digit :
          (byte : ℕ) (d : Digits) (digits body left rest : Bytes)
          → byte == 0 ≡ false
          → left ≡ byte ∷ rest
          → left ≡ digits ++ 0 ∷ body
          → All Digit digits
          → d.digit_count + length digits ≤ 20
          → value_from d.size digits < u64_mod
          → Succeeds (add_digit byte d)
      right_digit byte d [] body left rest digit first split all count small =
          let same : byte ≡ 0 = cc (sym first ∙ split) in absurd (ground arith)
      right_digit byte d (x ∷ xs) body left rest digit first split (is_digit, all) count small =
          let same : x ≡ byte = cc (sym split ∙ first) in
          add_digit-Succeeds byte d (rw same at is_digit) (omega (arith, count))
            (omega (arith, small, value_from-grows (d.size * 10 + (x - 48)) xs, same))

      behind_digit :
          (byte : ℕ) (d d' : Digits) (digits body left rest : Bytes)
          → byte == 0 ≡ false
          → left ≡ byte ∷ rest
          → left ≡ digits ++ 0 ∷ body
          → All Digit digits
          → d.digit_count + length digits ≤ 20
          → value_from d.size digits < u64_mod
          → d'.digit_count ≡ d.digit_count + 1
          → d'.size ≡ d.size * 10 + (byte - 48)
          → (digits' body' : Bytes) × (rest ≡ digits' ++ 0 ∷ body')
            × All Digit digits'
            × (d'.digit_count + length digits' ≤ 20)
            × (value_from d'.size digits' < u64_mod)
      behind_digit byte d d' [] body left rest digit first split all count small one size =
          let same : byte ≡ 0 = cc (sym first ∙ split) in absurd (ground arith)
      behind_digit byte d d' (x ∷ xs) body left rest digit first split (_, all) count small one
            size =
          let same : x ≡ byte = cc (sym split ∙ first) in
          let value : d.size * 10 + (x - 48) ≡ d'.size =
            ap (λ k. d.size * 10 + (k - 48)) same ∙ sym size in
          (
            xs,
            body,
            cc (sym first ∙ split),
            all,
            omega (arith, count, one),
            subst (λ v. value_from v xs < u64_mod) value small,
          )

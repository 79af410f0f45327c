-- ===== src/Blob/Loose/Whole.antt =====
-- The whole of `read_loose_header` of bounded_blob.rs: it reads exactly the headers of the format.
use fornacast.Prelude.{
  ℕ, ◌+◌, ◌≤◌, ◌<◌, ◌≡◌, ◌≢◌, refl, sym, ap, ◌∙◌, true, ◌∷◌, ◌++◌, ok, length, length-append, arith,
  All, append_assoc,
}
use fornacast.Prelude.Bytes.{Bytes}
use fornacast.Prelude.Word.{u64_mod}
use fornacast.Receive.PackHeader.{Kind}
use fornacast.Blob.Budget.{DecodeWorkBudget}
use fornacast.Blob.Run.{Later-refl, Later-Bounded, Bounded, Succeeds}
use fornacast.Blob.Run.Keeps.{Keeps, Keeps-bind, Keeps-try, Keeps-ensure}
use fornacast.Blob.Stream.{InflatedStream, set_declared_size}
use fornacast.Blob.Stream.Inflating.{Inflation}
use fornacast.Blob.Stream.Refills.{Pending}
use fornacast.Blob.Header.{Digits, kind_of, is_canonical, total_size}
use fornacast.Blob.Loose.{kind_rounds, digit_rounds, read_loose_header}
use fornacast.Blob.Loose.Format.{
  name, name-few, value_from, Decimal, Header, first_separator, Lowercase-free, Digit-free,
  name-Lowercase, kind_of-name, kind_of-exact,
}
use fornacast.Blob.Loose.Reading.{
  Behind, Named, kind_rounds-Named, set_declared_size-Pending, set_declared_size-Succeeds,
}
use fornacast.Blob.Loose.Number.{Numbered, digit_rounds-Numbered}

abbrev start : Digits
start = record { size = 0; digit_count = 0; first_digit = 0 }

canonical-Decimal :
    (digits : Bytes) (d : Digits)
    → Behind start digits d
    → d.digit_count ≤ 20
    → is_canonical d ≡ true
    → Decimal digits d.size
canonical-Decimal digits d (all, value, count, first, _) few canonical =
    let at_first = first refl in
    (all, sym value, ground arith, omega (arith, count, few), λ many. ground arith)

Decimal-canonical :
    (digits : Bytes) (size : ℕ) (d : Digits)
    → Behind start digits d
    → Decimal digits size
    → is_canonical d ≡ true
Decimal-canonical digits size d (all, value, count, first, _) (_, _, some_digit, few, leads) =
    let at_first = first refl in ground arith

total_size-ok :
    (n total : ℕ) (d : Digits) → total_size n d ≡ ok total → total ≡ n + d.digit_count + 2 + d.size
unfolding total_size
total_size-ok n total d e = ground arith

total_size-Succeeds :
    (n : ℕ) (d : Digits) → n + d.digit_count + 2 + d.size < u64_mod → Succeeds (total_size n d)
unfolding total_size
total_size-Succeeds n d h = ground arith

module _ {D : Type 0} (z : Inflation D) (G : Type 0) (total : ℕ) where
  -- What a sound loose object has in front of its content.
  abbrev pub Described : Bytes → Type 0
  Described left =
      (kind : Kind) × (size : ℕ) × (front body : Bytes) × (left ≡ front ++ 0 ∷ body)
      × Header kind size front
      × (length body ≡ size)
      × (length left ≡ total)
      × (total < u64_mod)

  -- What is known of it behind its name.
  abbrev Known : Bytes → Bytes → Type 0
  Known xs rest =
      (kind : Kind) × (size : ℕ) × (digits body : Bytes) × (xs ≡ name kind)
      × (rest ≡ digits ++ 0 ∷ body)
      × Decimal digits size
      × (length body ≡ size)
      × (length xs + 1 + length rest ≡ total)
      × (total < u64_mod)

  before_space :
      (word digits front body left : Bytes)
      → left ≡ front ++ 0 ∷ body
      → front ≡ word ++ 32 ∷ digits
      → left ≡ word ++ 32 ∷ (digits ++ 0 ∷ body)
  before_space word digits front body left split parts =
      split ∙ ap (λ x. x ++ 0 ∷ body) parts ∙ append_assoc word (32 ∷ digits) (0 ∷ body)

  Described-Known :
      (left xs rest : Bytes)
      → left ≡ xs ++ 32 ∷ rest
      → All (λ y. y ≢ 32) xs
      → Described left
      → Known xs rest
  Described-Known left xs rest split1 free
        (kind, size, front, body, split, (digits, parts, decimal), long, whole, small) =
      let (same, behind) =
        first_separator 32 xs (name kind) rest (digits ++ 0 ∷ body) free
          (Lowercase-free 32 (name kind) (omega arith) (name-Lowercase kind))
          (sym split1 ∙ before_space (name kind) digits front body left split parts) in
      (
        kind,
        size,
        digits,
        body,
        same,
        behind,
        decimal,
        long,
        omega (arith, whole, ap length split1, length-append xs (32 ∷ rest)),
        small,
      )

  -- The digits that are read are those that are there.
  Known-same :
      (xs rest digits body : Bytes) (d : Digits)
      → rest ≡ digits ++ 0 ∷ body
      → Behind start digits d
      → Known xs rest
      → (is_canonical d ≡ true) × (length xs + d.digit_count + 2 + d.size ≡ total)
  Known-same xs rest digits body d split (all, value, count, first, later)
        (kind, size, digits', body', same, behind, decimal, long, whole, small) =
      let (all', value', some_digit, few, leads) = decimal in
      let (numbers, bodies) =
        first_separator 0 digits digits' body body' (Digit-free 0 digits (omega arith) all)
          (Digit-free 0 digits' (omega arith) all') (sym split ∙ behind) in
      (
        Decimal-canonical digits size d (all, value, count, first, later)
            (rw numbers (all', value', some_digit, few, leads)),
        omega (
          arith,
          whole,
          value,
          count,
          ap (value_from 0) numbers,
          value',
          ap length split,
          length-append digits (0 ∷ body),
          ap length bodies,
          long,
        ),
      )

  -- A loose header that is read from a stream is one of the format, with the kind and the size that
  -- are returned, and the stream then still gives what stands behind the zero byte. On a sound stream
  -- with such a header the reader fails for a limit of the work or a stop only.
  pub read_loose_header-Header :
      (s : InflatedStream D) (left : Bytes) (b : DecodeWorkBudget)
      → Bounded b
      → Pending z G total s left
      → (G → Described left)
      → Keeps G b
          (λ r.
            (front body : Bytes) × (left ≡ front ++ 0 ∷ body)
            × Header r.0.kind r.0.size front
            × Pending z G total r.1 body)
          (read_loose_header z.inflater z.read s b)
  unfolding read_loose_header
  read_loose_header-Header s left b bound pending sound =
      Keeps-bind G (Named z G total 0 0 left) _ (kind_rounds z.inflater z.read 7 0 0 s) _ b
        (kind_rounds-Named z G total 7 0 0 s left b bound refl (omega arith) pending λ g.
          let (kind, _, front, body, split, (digits, parts, _), _, _, _) = sound g in
          (
            name kind,
            digits ++ 0 ∷ body,
            before_space (name kind) digits front body left split parts,
            name-Lowercase kind,
            omega (arith, name-few kind),
          ))
        λ k b1 l1 (xs, rest, split1, low, code, count, few, now).
          let long : k.0.1 ≡ length xs = omega (arith, count) in
          let known : G → Known xs rest = λ g.
            Described-Known left xs rest split1 (Lowercase-free 32 xs (omega arith) low)
              (sound g) in
          Keeps-try G (kind_of k.0.1 k.0.0) _ _ b1
            (λ g.
              let (kind, _, _, _, same, _, _, _, _, _) = known g in
              rw (long, code, same, kind_of-name kind) tt)
            λ kind e2.
              let is_name : xs ≡ name kind =
                kind_of-exact xs kind low (omega (arith, few, long)) (rw (long, code) at e2) in
              Keeps-bind G (Numbered z G total start rest) _
                (digit_rounds z.inflater z.read 21 start k.1) _ b1
                (digit_rounds-Numbered z G total 21 start k.1 rest b1 (Later-Bounded b b1 l1 bound)
                  refl (omega arith) now
                  λ g.
                    let (_, _, digits, body, _, split, decimal, size, whole, small) = known g in
                    let (all, value, _, twenty, _) = decimal in
                    (
                      digits,
                      body,
                      split,
                      all,
                      omega (arith, twenty),
                      omega (
                        arith,
                        value,
                        size,
                        whole,
                        small,
                        ap length split,
                        length-append digits (0 ∷ body),
                      ),
                    ))
                λ d b2 l2 (digits, body, split2, behind, twenty, now2).
                  let known2 =
                    λ (g : G). Known-same xs rest digits body d.0 split2 behind (known g) in
                  Keeps-ensure G (is_canonical d.0) "loose object size is not canonical" _ _ b2
                    (λ g. (known2 g).0)
                    λ canonical.
                      Keeps-try G (total_size k.0.1 d.0) _ _ b2
                        (λ g.
                          let (_, _, _, _, _, _, _, _, _, small) = known g in
                          total_size-Succeeds k.0.1 d.0 (omega (arith, long, (known2 g).1, small)))
                        λ n e5.
                          let declared : G → n ≡ total =
                            λ g. omega (arith, total_size-ok k.0.1 n d.0 e5, long, (known2 g).1) in
                          Keeps-try G (set_declared_size z.inflater n d.1) _ _ b2
                            (λ g.
                              set_declared_size-Succeeds z G total n d.1 body (declared g) now2 g)
                            λ s' e6. (
                              Later-refl b2,
                              (
                                xs ++ 32 ∷ digits,
                                body,
                                split1
                                    ∙ ap (λ x. xs ++ 32 ∷ x) split2
                                    ∙ sym (append_assoc xs (32 ∷ digits) (0 ∷ body)),
                                (
                                  digits,
                                  ap (λ x. x ++ 32 ∷ digits) is_name,
                                  canonical-Decimal digits d.0 behind twenty canonical,
                                ),
                                set_declared_size-Pending z G total n d.1 s' body e6 declared now2,
                              ),
                            )

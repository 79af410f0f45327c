-- ===== src/Blob/Loose/Format.antt =====
-- The header of a loose object as a format: the name of the kind, a space, and the size in decimal
-- digits. It is what `read_loose_header` of bounded_blob.rs reads.
use fornacast.Prelude.{
  ℕ, zero, suc, ◌+◌, ◌-◌, ◌*◌, ◌%◌, ◌≤◌, ◌<◌, ◌≡◌, ◌≢◌, refl, sym, ap, ◌∙◌, true, false, List, [],
  ◌∷◌, ◌++◌, length, ok, All, Bool-cases, inl, inr, ◌==◌, ◌&&◌, arith,
}
use fornacast.Prelude
use fornacast.Prelude.Bytes.{Bytes}
use fornacast.Prelude.Word.{u64_mod}
use fornacast.Receive.PackHeader.{Kind}
use fornacast.Blob.Header.{kind_of}

abbrev pub name : Kind → Bytes
name Kind.commit = 99 ∷ 111 ∷ 109 ∷ 109 ∷ 105 ∷ 116 ∷ []
name Kind.tree = 116 ∷ 114 ∷ 101 ∷ 101 ∷ []
name Kind.blob = 98 ∷ 108 ∷ 111 ∷ 98 ∷ []
name Kind.tag = 116 ∷ 97 ∷ 103 ∷ []

abbrev pub Lowercase : ℕ → Type 0
Lowercase x = (97 ≤ x) × (x ≤ 122)

abbrev pub Digit : ℕ → Type 0
Digit x = (48 ≤ x) × (x ≤ 57)

-- The number of the digits behind the number `v`.
abbrev pub value_from : ℕ → Bytes → ℕ
value_from v [] = v
value_from v (x ∷ xs) = value_from (v * 10 + (x - 48)) xs

abbrev pub first_or : ℕ → Bytes → ℕ
first_or d [] = d
first_or d (x ∷ xs) = x

-- One to twenty digits without a zero in front.
abbrev pub Decimal : Bytes → ℕ → Type 0
Decimal digits n =
    All Digit digits
    × (value_from 0 digits ≡ n)
    × (1 ≤ length digits)
    × (length digits ≤ 20)
    × (1 < length digits → first_or 0 digits ≢ 48)

abbrev pub Header : Kind → ℕ → Bytes → Type 0
Header kind size front = (digits : Bytes) × (front ≡ name kind ++ 32 ∷ digits) × Decimal digits size

pub value_from-grows : (v : ℕ) (xs : Bytes) → v ≤ value_from v xs
value_from-grows v [] = omega arith
value_from-grows v (x ∷ xs) = omega (arith, value_from-grows (v * 10 + (x - 48)) xs)

-- Bytes without a separator, in front of one, are determined.
pub first_separator :
    (x : ℕ) (front front' body body' : Bytes)
    → All (λ y. y ≢ x) front
    → All (λ y. y ≢ x) front'
    → front ++ x ∷ body ≡ front' ++ x ∷ body'
    → (front ≡ front') × (body ≡ body')
first_separator x [] [] body body' c c' e = (refl, cc)
first_separator x [] (y ∷ front') body body' c (other, c') e = absurd (other (cc e))
first_separator x (y ∷ front) [] body body' (other, c) c' e = absurd (other (cc e))
first_separator x (y ∷ front) (y' ∷ front') body body' (o, c) (o', c') e =
    let same : y ≡ y' = cc e in
    let rest : front ++ x ∷ body ≡ front' ++ x ∷ body' = cc e in
    let (fronts, bodies) = first_separator x front front' body body' c c' rest in
    (rw (same, fronts) refl, bodies)

pub Lowercase-free : (x : ℕ) (xs : Bytes) → x < 97 → All Lowercase xs → All (λ y. y ≢ x) xs
Lowercase-free x [] h all = tt
Lowercase-free x (y ∷ ys) h ((low, high), all) =
    (λ e. absurd (omega (arith, h, low, e)), Lowercase-free x ys h all)

pub Digit-free : (x : ℕ) (xs : Bytes) → x < 48 → All Digit xs → All (λ y. y ≢ x) xs
Digit-free x [] h all = tt
Digit-free x (y ∷ ys) h ((low, high), all) =
    (λ e. absurd (omega (arith, h, low, e)), Digit-free x ys h all)

pub name-Lowercase : (kind : Kind) → All Lowercase (name kind)
name-Lowercase Kind.commit = ground arith
name-Lowercase Kind.tree = ground arith
name-Lowercase Kind.blob = ground arith
name-Lowercase Kind.tag = ground arith

-- The letters of a name as the code packs them into a number.
abbrev pub packed_from : ℕ → Bytes → ℕ
packed_from code [] = code
packed_from code (x ∷ xs) = packed_from ((code * 256) % u64_mod + x) xs

pub kind_of-name :
    (kind : Kind) → kind_of (length (name kind)) (packed_from 0 (name kind)) ≡ ok kind
unfolding kind_of
kind_of-name Kind.commit = refl
kind_of-name Kind.tree = refl
kind_of-name Kind.blob = refl
kind_of-name Kind.tag = refl

abbrev Told : ℕ → ℕ → Kind → Type 0
Told n code kind = (n ≡ length (name kind)) × (code ≡ packed_from 0 (name kind))

kind_of-Told : (n code : ℕ) (kind : Kind) → kind_of n code ≡ ok kind → Told n code kind
unfolding kind_of
kind_of-Told n code kind e = elim (Bool-cases (n == 4 && code == 0x626c6f62)) [
  | inl is ↦
      let same : Kind.blob ≡ kind = cc (rw is at e) in
      Prelude.subst (Told n code) same (ground arith, ground arith)
  | inr differs ↦ elim (Bool-cases (n == 4 && code == 0x74726565)) [
    | inl is ↦
        let same : Kind.tree ≡ kind = cc (rw (differs, is) at e) in
        Prelude.subst (Told n code) same (ground arith, ground arith)
    | inr differs2 ↦ elim (Bool-cases (n == 6 && code == 0x636f6d6d6974)) [
      | inl is ↦
          let same : Kind.commit ≡ kind = cc (rw (differs, differs2, is) at e) in
          Prelude.subst (Told n code) same (ground arith, ground arith)
      | inr differs3 ↦ elim (Bool-cases (n == 3 && code == 0x00746167)) [
        | inl is ↦
            let same : Kind.tag ≡ kind = cc (rw (differs, differs2, differs3, is) at e) in
            Prelude.subst (Told n code) same (ground arith, ground arith)
        | inr differs4 ↦ absurd (cc (rw (differs, differs2, differs3, differs4) at e))
      ]
    ]
  ]
]

abbrev bytes_of : ℕ → ℕ
bytes_of zero = 1
bytes_of (suc k) = bytes_of k * 256

bytes_of-few : (k : ℕ) → k ≤ 5 → bytes_of k ≤ 0x1_00_0000_0000
bytes_of-few zero h = omega arith
bytes_of-few (suc zero) h = omega arith
bytes_of-few (suc (suc zero)) h = omega arith
bytes_of-few (suc (suc (suc zero))) h = omega arith
bytes_of-few (suc (suc (suc (suc zero)))) h = omega arith
bytes_of-few (suc (suc (suc (suc (suc zero))))) h = omega arith
bytes_of-few (suc (suc (suc (suc (suc (suc k)))))) h = absurd (omega arith)

-- Names of at most six letters that are packed alike are one.
packed_from-injective :
    (k code code' : ℕ) (xs ys : Bytes)
    → All Lowercase xs
    → All Lowercase ys
    → code < bytes_of k
    → code' < bytes_of k
    → k + length xs ≤ 6
    → length xs ≡ length ys
    → packed_from code xs ≡ packed_from code' ys
    → (code ≡ code') × (xs ≡ ys)
packed_from-injective k code code' [] [] low low' small small' few same e = (e, refl)
packed_from-injective k code code' [] (y ∷ ys) low low' small small' few same e =
    absurd (omega arith)
packed_from-injective k code code' (x ∷ xs) [] low low' small small' few same e =
    absurd (omega arith)
packed_from-injective k code code' (x ∷ xs) (y ∷ ys) ((x1, x2), low) ((y1, y2), low') small small'
      few same e =
    let bound = bytes_of-few k (omega (arith, few)) in
    let wrap : (code * 256) % u64_mod ≡ code * 256 = omega (arith, small, bound) in
    let wrap' : (code' * 256) % u64_mod ≡ code' * 256 = omega (arith, small', bound) in
    let (codes, rest) =
      packed_from-injective (suc k) ((code * 256) % u64_mod + x) ((code' * 256) % u64_mod + y) xs ys
        low low' (omega (arith, small, x2, wrap)) (omega (arith, small', y2, wrap'))
        (omega (arith, few)) (omega (arith, same)) e in
    let first : x ≡ y = omega (arith, codes, wrap, wrap', x2, y2) in
    (omega (arith, codes, wrap, wrap', x2, y2), rw (first, rest) refl)

-- The kind that is told is the one whose name was read.
pub kind_of-exact :
    (xs : Bytes) (kind : Kind)
    → All Lowercase xs
    → length xs ≤ 6
    → kind_of (length xs) (packed_from 0 xs) ≡ ok kind
    → xs ≡ name kind
kind_of-exact xs kind low few e =
    let (long, same) = kind_of-Told (length xs) (packed_from 0 xs) kind e in
    (packed_from-injective 0 0 0 xs (name kind) low (name-Lowercase kind) (omega arith)
      (omega arith) (omega (arith, few)) long same).1

pub name-few : (kind : Kind) → length (name kind) ≤ 6
name-few Kind.commit = omega arith
name-few Kind.tree = omega arith
name-few Kind.blob = omega arith
name-few Kind.tag = omega arith

name-injective : (kind kind' : Kind) → name kind ≡ name kind' → kind ≡ kind'
name-injective kind kind' e =
    let told = kind_of-name kind in let told' = kind_of-name kind' in cc (rw e at told)

pub Header-free :
    (kind : Kind) (size : ℕ) (front : Bytes) → Header kind size front → All (λ y. y ≢ 0) front
Header-free kind size front (digits, split, (all, _, _, _, _)) = rw split (
    Prelude.All-append (λ y. y ≢ 0) (name kind) (32 ∷ digits)
      (Lowercase-free 0 (name kind) (omega arith) (name-Lowercase kind))
      (omega arith, Digit-free 0 digits (omega arith) all))

-- A header tells one kind and one size, and where it ends.
pub Header-unique :
    (kind kind' : Kind) (size size' : ℕ) (front front' body body' : Bytes)
    → Header kind size front
    → Header kind' size' front'
    → front ++ 0 ∷ body ≡ front' ++ 0 ∷ body'
    → (kind ≡ kind') × (size ≡ size') × (front ≡ front') × (body ≡ body')
Header-unique kind kind' size size' front front' body body' h h' e =
    let (fronts, bodies) =
      first_separator 0 front front' body body' (Header-free kind size front h)
        (Header-free kind' size' front' h') e in
    let (digits, split, (all, value, _, _, _)) = h in
    let (digits', split', (all', value', _, _, _)) = h' in
    let (names, numbers) =
      first_separator 32 (name kind) (name kind') digits digits'
        (Lowercase-free 32 (name kind) (omega arith) (name-Lowercase kind))
        (Lowercase-free 32 (name kind') (omega arith) (name-Lowercase kind'))
        (sym split ∙ fronts ∙ split') in
    (
      name-injective kind kind' names,
      sym value ∙ ap (value_from 0) numbers ∙ value',
      fronts,
      bodies,
    )

-- ===== src/Prelude/Bytes.antt =====
-- Byte strings as lists of numbers, with the slice operations of Rust's standard library.
use Prim.Native.Char.{code}
use Prim.Native.Nat.{ℕ, ◌<◌, ◌+◌, compare, Ordering}
use Prim.Native.String.{String}
use mathlib.Core.Bool.{Bool, true, false, ◌&&◌, ◌||◌}
use mathlib.Core.List.{List, [], ◌∷◌, ◌++◌, map}
use mathlib.Core.Logic.{◌↔◌}
use mathlib.Core.Option.{Option, none, some}
use mathlib.Core.Path.{◌≡◌, refl}
use native.Mathlib.Omega.{arith}
use fornacast.Prelude.Tests.{◌==◌, if◌then◌else◌, within}

abbrev pub Bytes : Type 0
Bytes = List ℕ

abbrev pub IsByte : ℕ → Type 0
IsByte b = b < 256

-- The bytes of a literal; every literal that is used is ASCII.
abbrev pub codes : String → Bytes
codes String.[] = []
codes (String.◌∷◌ c s) = code c ∷ codes s

abbrev pub bytes_eq : Bytes → Bytes → Bool
bytes_eq [] [] = true
bytes_eq [] (y ∷ ys) = false
bytes_eq (x ∷ xs) [] = false
bytes_eq (x ∷ xs) (y ∷ ys) = x == y && bytes_eq xs ys

abbrev pub any : (ℕ → Bool) → Bytes → Bool
any p [] = false
any p (x ∷ xs) = p x || any p xs

abbrev pub all : (ℕ → Bool) → Bytes → Bool
all p [] = true
all p (x ∷ xs) = p x && all p xs

abbrev pub contains : ℕ → Bytes → Bool
contains b = any (λ x. x == b)

-- `slice.strip_prefix(prefix)`: what stands behind the prefix.
abbrev pub strip_prefix : Bytes → Bytes → Option Bytes
strip_prefix [] s = some s
strip_prefix (p ∷ ps) [] = none
strip_prefix (p ∷ ps) (x ∷ s) = if x == p then strip_prefix ps s else none

abbrev pub starts_with : Bytes → Bytes → Bool
starts_with [] s = true
starts_with (p ∷ ps) [] = false
starts_with (p ∷ ps) (x ∷ s) = x == p && starts_with ps s

abbrev pub last_is : ℕ → Bytes → Bool
last_is b [] = false
last_is b (x ∷ []) = x == b
last_is b (x ∷ y ∷ s) = last_is b (y ∷ s)

-- `Ord::cmp` of bytes, slices and optional bytes.
abbrev pub cmp : Bytes → Bytes → Ordering
cmp [] [] = Ordering.eq
cmp [] (y ∷ ys) = Ordering.lt
cmp (x ∷ xs) [] = Ordering.gt
cmp (x ∷ xs) (y ∷ ys) = elim (compare x y) [
  | Ordering.lt ↦ Ordering.lt
  | Ordering.eq ↦ cmp xs ys
  | Ordering.gt ↦ Ordering.gt
]

abbrev pub cmp_option : Option ℕ → Option ℕ → Ordering
cmp_option none none = Ordering.eq
cmp_option none (some y) = Ordering.lt
cmp_option (some x) none = Ordering.gt
cmp_option (some x) (some y) = compare x y

abbrev pub is_less : Ordering → Bool
is_less Ordering.lt = true
is_less Ordering.eq = false
is_less Ordering.gt = false

pub bytes_eq_iff : (a b : Bytes) → (bytes_eq a b ≡ true) ↔ (a ≡ b)
bytes_eq_iff [] [] = ground arith
bytes_eq_iff [] (y ∷ b) = ground arith
bytes_eq_iff (x ∷ a) [] = ground arith
bytes_eq_iff (x ∷ a) (y ∷ b) = ground (arith, bytes_eq_iff a b)

pub bytes_eq_refl : (a : Bytes) → bytes_eq a a ≡ true
bytes_eq_refl a = (bytes_eq_iff a a).1 refl

pub starts_with-eq-true :
    (prefix name : Bytes)
    → starts_with prefix name ≡ true
    → (rest : Bytes) × (name ≡ prefix ++ rest)
starts_with-eq-true [] name h = (name, refl)
starts_with-eq-true (x ∷ prefix) [] h = cc h
starts_with-eq-true (x ∷ prefix) (y ∷ name) h =
    let (rest, is) = starts_with-eq-true prefix name (ground arith) in
    let same : y ≡ x = ground arith in (rest, λ i. same i ∷ is i)

pub strip_prefix-append : (p s : Bytes) → strip_prefix p (p ++ s) ≡ some s
strip_prefix-append [] s = refl
strip_prefix-append (x ∷ p) s = ground (arith, strip_prefix-append p s)

pub strip_prefix-eq-some :
    (p s : Bytes) {rest : Bytes} → strip_prefix p s ≡ some rest → s ≡ p ++ rest
strip_prefix-eq-some [] s h = ground arith
strip_prefix-eq-some (x ∷ p) [] h = cc
strip_prefix-eq-some (x ∷ p) (y ∷ s) {rest} h =
    ground (arith, strip_prefix-eq-some p s {rest = rest})

-- `iter().rsplit(|b| b == sep).next()`: what stands behind the last separator.
unfoldable pub after_last : ℕ → Bytes → Bytes → Bytes
after_last sep cur [] = cur
after_last sep cur (x ∷ s) = after_last sep (if x == sep then [] else cur ++ x ∷ []) s

abbrev pub last_segment : ℕ → Bytes → Bytes
last_segment sep s = after_last sep [] s

-- Character classes of `u8`.
abbrev pub is_ascii_digit : ℕ → Bool
is_ascii_digit = within b'0' b'9'

abbrev pub is_ascii_alphabetic : ℕ → Bool
is_ascii_alphabetic b = within b'a' b'z' b || within b'A' b'Z' b

abbrev pub is_ascii_alphanumeric : ℕ → Bool
is_ascii_alphanumeric b = is_ascii_alphabetic b || is_ascii_digit b

-- Space, tab, line feed, form feed, carriage return.
abbrev pub is_ascii_whitespace : ℕ → Bool
is_ascii_whitespace b = b == 0x20 || b == 0x09 || b == 0x0a || b == 0x0c || b == 0x0d

abbrev pub to_ascii_lowercase : ℕ → ℕ
to_ascii_lowercase b = if within b'A' b'Z' b then b + 32 else b

unfoldable pub eq_ignore_ascii_case : Bytes → Bytes → Bool
eq_ignore_ascii_case a b = bytes_eq (map to_ascii_lowercase a) (map to_ascii_lowercase b)

-- ===== src/Prelude/Bits.antt =====
-- `&` and `|` on unsigned numbers as arithmetic, where the operands share no bit.
use Prim.Native.Nat.{
  ℕ, zero, suc, ◌+◌, ◌*◌, ◌/◌, ◌%◌, ◌^◌, ◌≤◌, ◌<◌, max, bit_and, bit_or, digits, bit_or-bitwise,
}
use mathlib.Core.Path.{◌≡◌, refl, sym, ◌∙◌}
use mathlib.Core.Bool.{Bool, true, false}
use native.Mathlib.Decide.{dec_lt}
use native.Mathlib.Nat.{pow-suc}
use native.Mathlib.Omega.{arith}
use fornacast.Prelude.Tests.{◌==◌, ==_iff, if◌then◌else◌}

-- The digit recursion that `bit_or` stands for, on `n` rounds: any number of rounds that reaches
-- the top bit gives the same.
abbrev or_rounds : ℕ → ℕ → ℕ → ℕ
or_rounds n a b = digits (λ d. d) max n a b

one_more_round : (a n b : ℕ) → a ≤ n → or_rounds (suc n) a b ≡ or_rounds n a b
one_more_round zero zero b h = refl
one_more_round zero (suc n) b h = refl
one_more_round (suc a) zero b h = absurd (omega arith)
one_more_round (suc a) (suc n) b h =
    omega (arith, one_more_round (suc a / 2) n (b / 2) (omega arith))

or_rounds_exact : (a n b : ℕ) → a ≤ n → or_rounds n a b ≡ bit_or a b
or_rounds_exact zero zero b h = sym (bit_or-bitwise 0 b)
or_rounds_exact (suc a) zero b h = absurd (omega arith)
or_rounds_exact a (suc n) b h = elim (dec_lt n a) [
  | yes last ↦ let e : a ≡ suc n = omega arith in rw e (sym (bit_or-bitwise (suc n) b))
  | no more ↦ one_more_round a n b (omega arith) ∙ or_rounds_exact a n b (omega arith)
]

bit_or-halves : (b a : ℕ) → bit_or a b ≡ bit_or (a / 2) (b / 2) * 2 + max (a % 2) (b % 2)
bit_or-halves b zero = omega (arith, bit_or-bitwise 0 b, bit_or-bitwise 0 (b / 2))
bit_or-halves b (suc a) =
    let rest = or_rounds_exact (suc a / 2) a (b / 2) (omega arith) in
    omega (arith, rest, bit_or-bitwise (suc a) b)

double_shift : (k high : ℕ) → high * 2 ^ suc k ≡ (high * 2 ^ k) * 2
double_shift k high = rw pow-suc (omega arith)

-- Bits below position `k` joined with bits from there on.
pub bit_or_disjoint :
    (k low high : ℕ) → low < 2 ^ k → bit_or low (high * 2 ^ k) ≡ low + high * 2 ^ k
bit_or_disjoint zero low high h =
    let e : low ≡ 0 = omega arith in rw e (omega (arith, bit_or-bitwise 0 (high * 1)))
bit_or_disjoint (suc k) low high h =
    let low_fits : low / 2 < 2 ^ k = omega (arith, double_shift k 1) in
    let half : high * 2 ^ suc k / 2 ≡ high * 2 ^ k = omega (arith, double_shift k high) in
    let even : high * 2 ^ suc k % 2 ≡ 0 = omega (arith, double_shift k high) in
    rw (bit_or-halves (high * 2 ^ suc k) low, half, even)
      (omega (arith, bit_or_disjoint k (low / 2) high low_fits, double_shift k high))

holds_below : (ℕ → Bool) → ℕ → Bool
holds_below p zero = true
holds_below p (suc n) = if p n then holds_below p n else false

below : (p : ℕ → Bool) (b n : ℕ) → b < n → holds_below p n ≡ true → p b ≡ true
unfolding holds_below
below p b zero h e = absurd (omega arith)
below p b (suc n) h e = elim (dec_lt b n) [
  | yes lt ↦ below p b n lt (ground arith)
  | no ge ↦ let last : b ≡ n = omega arith in rw last (ground arith)
]

-- The low seven bits of a byte, and its top bit.
pub bit_and_low : (b : ℕ) → b < 256 → bit_and b 0x7f ≡ b % 128
unfolding holds_below
bit_and_low b h = (==_iff _ _).0 (below (λ x. bit_and x 0x7f == x % 128) b 256 h refl)

pub bit_and_top : (b : ℕ) → b < 256 → bit_and b 0x80 ≡ b / 128 * 128
unfolding holds_below
bit_and_top b h = (==_iff _ _).0 (below (λ x. bit_and x 0x80 == x / 128 * 128) b 256 h refl)

pub bit_and_nibble : (b : ℕ) → b < 256 → bit_and b 0b1111 ≡ b % 16
unfolding holds_below
bit_and_nibble b h = (==_iff _ _).0 (below (λ x. bit_and x 0b1111 == x % 16) b 256 h refl)

pub bit_and_three : (b : ℕ) → b < 256 → bit_and b 0b111 ≡ b % 8
unfolding holds_below
bit_and_three b h = (==_iff _ _).0 (below (λ x. bit_and x 0b111 == x % 8) b 256 h refl)

pub bit_or_nibbles : (b : ℕ) → b < 256 → bit_or (b / 16 * 16) (b % 16) ≡ b
unfolding holds_below
bit_or_nibbles b h = (==_iff _ _).0 (below (λ x. bit_or (x / 16 * 16) (x % 16) == x) b 256 h refl)

-- ===== src/Blob/Delta/Overlap.antt =====
-- Which bytes of the base a copy instruction contributes to a requested range of the result.
use fornacast.Prelude.{
  ℕ, ◌+◌, ◌-◌, ◌≤◌, ◌<◌, ◌≡◌, ◌↔◌, min, max, Option, none, some, ok, dec_lt, arith,
}
use fornacast.Prelude.Word.{u64_mod}
use fornacast.Blob.Delta.{copy, Range, overlapping_base_range}

-- Output position `q` is written by the instruction, and it is requested.
abbrev pub Wanted : ℕ → ℕ → Range → ℕ → Type 0
Wanted size output_start requested q =
    (output_start ≤ q) × (q < output_start + size) × (requested.start ≤ q) × (q < requested.end)

-- The range of the base holds the sources of the wanted positions and nothing else.
abbrev pub Covers : ℕ → ℕ → ℕ → Range → Option Range → Type 0
Covers offset size output_start requested none = (q : ℕ) → ¬ Wanted size output_start requested q
Covers offset size output_start requested (some r) =
    (r.start < r.end)
    × (r.end ≤ offset + size)
    × ((q : ℕ)
        → output_start ≤ q
        → Wanted size output_start requested q
          ↔ ((r.start ≤ offset + (q - output_start)) × (offset + (q - output_start) < r.end)))

-- With no overflow the code finds, for a copy instruction, exactly the base bytes that the
-- requested part of its output comes from, or that there are none.
pub overlapping_base_range_exact :
    (offset size output_start : ℕ) (requested : Range)
    → requested.start ≤ requested.end
    → offset + size < u64_mod
    → output_start + size < u64_mod
    → (found : Option Range) × (overlapping_base_range (copy offset size) output_start requested
        ≡ ok found)
      × Covers offset size output_start requested found
unfolding overlapping_base_range
overlapping_base_range_exact offset size output_start requested h k l =
    let low = max output_start requested.start in
    let high = min (output_start + size) requested.end in
    elim (dec_lt low high) [
      | yes some_overlap ↦ (
        some (record {
          start = offset + (low - output_start);
          end = offset + (low - output_start) + (high - low);
        }),
        ground arith,
        (omega arith, omega arith, λ q b. (λ w. omega (arith, w), λ w. omega (arith, w))),
      )
      | no no_overlap ↦ (none, ground arith, λ q w. omega (arith, w))
    ]

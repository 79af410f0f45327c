-- ===== src/Pages/Windows.antt =====
-- About the page windows: the entries of a page.
use fornacast.Prelude.{ℕ, ◌+◌, ◌-◌, ◌*◌, ◌/◌, ◌≤◌, ◌<◌, ◌≡◌, ◌↔◌, ◌==◌, false, arith}
use fornacast.Prelude.Word.{u64_max, clamp, saturating_add}
use fornacast.Pages.{
  commit_page_limit, tree_page_limit, diff_file_page_limit, commit_page_window, tree_page_window,
  diff_page_window,
}

-- Entry `i` of a listing is on page `page`, of `size` entries a page, counted from 1.
abbrev pub OnPage : ℕ → ℕ → ℕ → Type 0
OnPage page size i = ((page - 1) * size ≤ i) × (i < (page - 1) * size + size)

-- Whatever page and page size are asked for, the window of a commit listing holds just the
-- entries of that page; saturation changes nothing.
pub commit_page_window_exact :
    (total page per_page i : ℕ)
    → total ≤ u64_max
    → let w = commit_page_window total page per_page in
      ((w.start ≤ i) × (i < w.end))
      ↔ ((i < total) × OnPage page (clamp 1 commit_page_limit per_page) i)
unfolding commit_page_window
commit_page_window_exact total page per_page i h = (λ k. omega (arith, k), λ k. omega (arith, k))

-- The same for the listing of a tree.
pub tree_page_window_exact :
    (total page per_page i : ℕ)
    → total ≤ u64_max
    → let w = tree_page_window total page per_page in
      ((w.start ≤ i) × (i < w.end))
      ↔ ((i < total) × OnPage page (clamp 1 tree_page_limit per_page) i)
unfolding tree_page_window
tree_page_window_exact total page per_page i h = (λ k. omega (arith, k), λ k. omega (arith, k))

clamp_twice :
    (n : ℕ)
    → clamp 1 tree_page_limit (clamp 1 diff_file_page_limit n) ≡ clamp 1 diff_file_page_limit n
clamp_twice n = omega arith

-- And for the changed files of a diff, at most 100 to a page.
pub diff_page_window_exact :
    (total page per_page i : ℕ)
    → total ≤ u64_max
    → let w = diff_page_window total page per_page in
      ((w.start ≤ i) × (i < w.end))
      ↔ ((i < total) × OnPage page (clamp 1 diff_file_page_limit per_page) i)
unfolding diff_page_window
diff_page_window_exact total page per_page i h =
    rw clamp_twice at
      (tree_page_window_exact total page (clamp 1 diff_file_page_limit per_page) i h)

rounded_up :
    (total size page : ℕ)
    → 0 < size
    → 1 ≤ page
    → (page ≤ (total + (size - 1)) / size) ↔ ((page - 1) * size < total)
rounded_up total size page h k = (λ l. grind arith, λ l. grind arith)

-- The number of pages that is reported with the window of a listing that is not empty: just the
-- pages up to it show an entry.
pub commit_page_window-total_pages :
    (total page per_page : ℕ)
    → total + 50 ≤ u64_max
    → 0 < total
    → 1 ≤ page
    → let w = commit_page_window total page per_page in (page ≤ w.total_pages) ↔ (w.start < w.end)
unfolding commit_page_window
commit_page_window-total_pages total page per_page h k l =
    let size = clamp 1 commit_page_limit per_page in
    let r = rounded_up total size page (omega arith) l in
    let plain : saturating_add total (size - 1) ≡ total + (size - 1) = omega arith in
    let nonzero : (total == 0) ≡ false = ground arith in
    rw (nonzero, plain) (λ m. omega (arith, r.0 m), λ m. r.1 (omega (arith, m)))

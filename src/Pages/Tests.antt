-- ===== src/Pages/Tests.antt =====
-- Windows at concrete sizes, and their theorems at concrete inputs.
use fornacast.Prelude.{◌≤◌, ◌<◌, ◌≡◌, ◌↔◌, refl, arith}
use fornacast.Prelude.Word.{clamp}
use fornacast.Pages.{commit_page_limit, tree_page_limit, commit_page_window, tree_page_window}
use fornacast.Pages.Windows.{
  OnPage, commit_page_window_exact, tree_page_window_exact, commit_page_window-total_pages,
}

third_page : commit_page_window 120 3 50 ≡ record { start = 100; end = 120; total_pages = 3 }
unfolding commit_page_window
third_page = refl

commit_page_window_exact_example :
    let w = commit_page_window 120 3 500 in
    ((w.start ≤ 110) × (110 < w.end)) ↔ ((110 < 120) × OnPage 3 (clamp 1 commit_page_limit 500) 110)
commit_page_window_exact_example = commit_page_window_exact 120 3 500 110 (omega arith)

tree_page_window_exact_example :
    let w = tree_page_window 250 2 200 in
    ((w.start ≤ 201) × (201 < w.end)) ↔ ((201 < 250) × OnPage 2 (clamp 1 tree_page_limit 200) 201)
tree_page_window_exact_example = tree_page_window_exact 250 2 200 201 (omega arith)

third_page_shown : let w = commit_page_window 120 3 50 in (3 ≤ w.total_pages) ↔ (w.start < w.end)
third_page_shown = commit_page_window-total_pages 120 3 50 (omega arith) (omega arith) (omega arith)

-- ===== src/Pages.antt =====
-- Pages of commits, tree entries and changed files: `commit_page_window`, `tree_page_window`,
-- `diff_page_window`, `commit_range_page_window` and the comparison limits of
-- apps/git_core/native/fornacast_git_core/src/lib.rs.
pub mod Windows
mod Tests
use fornacast.Prelude.{ℕ, ◌+◌, ◌-◌, ◌/◌, min, if◌then◌else◌, ◌==◌}
use fornacast.Prelude.Word.{saturating_add, saturating_mul, saturating_sub, clamp}

abbrev pub commit_page_limit : ℕ
commit_page_limit = 50

abbrev pub tree_page_limit : ℕ
tree_page_limit = 200

abbrev pub diff_file_page_limit : ℕ
diff_file_page_limit = 100

pub record CommitPageWindow : Type 0 where
  pub start : ℕ
  pub end : ℕ
  pub total_pages : ℕ

pub record TreePageWindow : Type 0 where
  pub start : ℕ
  pub end : ℕ

abbrev requested_start : ℕ → ℕ → ℕ
requested_start page per_page = saturating_mul (saturating_sub page 1) per_page

unfoldable pub commit_page_window : ℕ → ℕ → ℕ → CommitPageWindow
commit_page_window total page per_page =
    let size = clamp 1 commit_page_limit per_page in
    record {
      start = min (requested_start page size) total;
      end = min (saturating_add (requested_start page size) size) total;
      total_pages = if total == 0 then 1 else saturating_add total (size - 1) / size;
    }

unfoldable pub commit_range_page_window : ℕ → ℕ → ℕ → CommitPageWindow
unfolding commit_page_window
commit_range_page_window total page per_page = commit_page_window total page per_page

unfoldable pub tree_page_window : ℕ → ℕ → ℕ → TreePageWindow
tree_page_window total page per_page =
    let size = clamp 1 tree_page_limit per_page in
    record {
      start = min (requested_start page size) total;
      end = min (saturating_add (requested_start page size) size) total;
    }

unfoldable pub diff_page_window : ℕ → ℕ → ℕ → TreePageWindow
diff_page_window total page per_page =
    tree_page_window total page (clamp 1 diff_file_page_limit per_page)

abbrev pub comparison_commit_cap : ℕ
comparison_commit_cap = 50000

abbrev pub comparison_tree_entry_cap : ℕ
comparison_tree_entry_cap = 100000

abbrev pub comparison_file_cap : ℕ
comparison_file_cap = 10000

abbrev pub comparison_byte_cap : ℕ
comparison_byte_cap = 67108864

unfoldable pub comparison_commit_limit : ℕ → ℕ
comparison_commit_limit limit = min limit comparison_commit_cap

unfoldable pub comparison_tree_entry_limit : ℕ → ℕ
comparison_tree_entry_limit limit = min limit comparison_tree_entry_cap

unfoldable pub comparison_file_limit : ℕ → ℕ
comparison_file_limit limit = min limit comparison_file_cap

unfoldable pub comparison_byte_limit : ℕ → ℕ
comparison_byte_limit limit = min limit comparison_byte_cap

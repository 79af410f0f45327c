-- ===== src/Language/Tests.antt =====
-- Runs of the language detection on concrete files, and its theorems at concrete inputs.
use fornacast.Prelude.{joined, ◌≡◌, ◌↔◌, refl, true, false, some, none, [], ◌∷◌, ◌++◌}
use fornacast.Prelude.Bytes.{Bytes, codes, contains}
use fornacast.Language.Utf8
use fornacast.Language.Utf8.Exact.{Encodes, complete-push_exact}
use fornacast.Language.Shebang
use fornacast.Language.Shebang.Line.{shebang_line}
use fornacast.Language.Shebang.Refines.{finish-push}
use fornacast.Language.Filename.{filename_language}
use fornacast.Language.Filename.Listed.{within, HasLanguage, filename_language-HasLanguage}
use fornacast.Language.Scanner
use fornacast.Language.Scanner.{text, binary}
use fornacast.Language.Scanner.Content.{finish-text}

-- A euro sign, and the same character cut short.
abbrev euro : Bytes
euro = 0xe2 ∷ 0x82 ∷ 0xac ∷ []

euro_accepted : Utf8.complete (Utf8.push Utf8.new euro) ≡ true
unfolding Utf8.push Utf8.complete
euro_accepted = refl

cut_refused : Utf8.complete (Utf8.push Utf8.new (0xe2 ∷ 0x82 ∷ [])) ≡ false
unfolding Utf8.push Utf8.complete
cut_refused = refl

surrogate_refused : Utf8.complete (Utf8.push Utf8.new (0xed ∷ 0xa0 ∷ 0x80 ∷ [])) ≡ false
unfolding Utf8.push Utf8.complete
surrogate_refused = refl

abbrev script : Bytes
script = codes "#!/usr/bin/env -u HOME X=1 python3 -O\nimport sys\n"

script_language : shebang_line script ≡ some "Python"
unfolding shebang_line Shebang.shebang_basename Shebang.shebang_token_language
    Shebang.shebang_env_assignment Shebang.shebang_env_option
script_language = refl

by_name :
    (filename_language (codes "apps/web/lib/router.EX") ≡ some "Elixir")
    × (filename_language (codes "Dockerfile.dev") ≡ some "Dockerfile")
    × (filename_language (codes "LICENSE") ≡ none)
unfolding filename_language
by_name = (refl, refl, refl)

no_language : Scanner.language binary (codes "a.rs") ≡ none
unfolding Scanner.language
no_language = refl

complete-push_exact_example : (Utf8.complete (Utf8.push Utf8.new euro) ≡ true) ↔ Encodes euro
complete-push_exact_example = complete-push_exact euro

finish-push_example : Shebang.finish (Shebang.push Shebang.new script) ≡ shebang_line script
finish-push_example = finish-push script

finish-text_example :
    (Scanner.finish (Scanner.push_all Scanner.new (script ∷ euro ∷ [])) ≡ text (some "Python")) ↔ (
      (contains 0 (joined (script ∷ euro ∷ [])) ≡ false)
      × Encodes (joined (script ∷ euro ∷ []))
      × (some "Python" ≡ shebang_line (joined (script ∷ euro ∷ []))))
finish-text_example = finish-text (script ∷ euro ∷ []) (some "Python")

filename_language-HasLanguage_example :
    (filename_language (codes "src" ++ b'/' ∷ codes "a.RS") ≡ some "Rust")
    ↔ HasLanguage (codes "a.RS") "Rust"
filename_language-HasLanguage_example =
    filename_language-HasLanguage (codes "src" ++ b'/' ∷ codes "a.RS") (codes "a.RS") "Rust"
      (within (codes "src") refl)

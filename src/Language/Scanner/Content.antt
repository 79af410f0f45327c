-- ===== src/Language/Scanner/Content.antt =====
-- About `LanguageScanner`: its verdict on the bytes of a blob in chunks.
use fornacast.Prelude.{
  ◌≡◌, ◌↔◌, refl, sym, ap, ◌∙◌, Bool, true, false, ◌||◌, Option, List, [], ◌∷◌, ◌++◌, joined,
  String, arith,
}
use fornacast.Prelude.Bytes.{Bytes, contains}
use fornacast.Language.Utf8
use fornacast.Language.Utf8.Chunks
use fornacast.Language.Utf8.Exact.{Encodes, complete-push_exact}
use fornacast.Language.Shebang.Line.{shebang_line}
use fornacast.Language.Shebang.Refines
use fornacast.Language.Scanner.{LanguageScanner, text, new, push, push_all, finish}

contains-append : (a b : Bytes) → contains 0 (a ++ b) ≡ contains 0 a || contains 0 b
contains-append [] b = refl
contains-append (x ∷ a) b = ground (arith, contains-append a b)

or_false : (b : Bool) → (b || false) ≡ b
or_false b = ground arith

or_assoc : (a b c : Bool) → ((a || b) || c) ≡ (a || (b || c))
or_assoc a b c = ground arith

push_nil : (s : LanguageScanner) → push s [] ≡ s
unfolding push Utf8.push
push_nil s = λ i. record {
  utf8 = s.utf8;
  shebang = Refines.push_nil s.shebang i;
  contains_nul = or_false s.contains_nul i;
}

push_twice : (s : LanguageScanner) (a b : Bytes) → push (push s a) b ≡ push s (a ++ b)
unfolding push
push_twice s a b = λ i. record {
  utf8 = Chunks.push-append s.utf8 a b i;
  shebang = Refines.push-append s.shebang a b i;
  contains_nul =
      (or_assoc s.contains_nul (contains 0 a) (contains 0 b)
          ∙ ap (λ c. s.contains_nul || c) (sym (contains-append a b)))
        i;
}

push_all-joined :
    (s : LanguageScanner) (chunks : List Bytes) → push_all s chunks ≡ push s (joined chunks)
unfolding push_all
push_all-joined s [] = sym (push_nil s)
push_all-joined s (chunk ∷ chunks) =
    push_all-joined (push s chunk) chunks ∙ push_twice s chunk (joined chunks)

finish_whole :
    (bs : Bytes) (l : Option String)
    → (finish (push new bs) ≡ text l) ↔ (
        (contains 0 bs ≡ false)
        × (Utf8.complete (Utf8.push Utf8.new bs) ≡ true)
        × (l ≡ shebang_line bs))
unfolding finish push
finish_whole bs l = ground (arith, Refines.finish-push bs)

-- Fed in any chunks, the scanner calls a blob text exactly when it holds no NUL byte and is the
-- UTF-8 encoding of scalar values, and then its language is that of its interpreter line.
pub finish-text :
    (chunks : List Bytes) (l : Option String)
    → (finish (push_all new chunks) ≡ text l) ↔ (
        (contains 0 (joined chunks) ≡ false)
        × Encodes (joined chunks)
        × (l ≡ shebang_line (joined chunks)))
finish-text chunks l =
    let bs = joined chunks in
    let (to, from) = finish_whole bs l in
    let (sound, accepts) = complete-push_exact bs in
    rw (push_all-joined new chunks) (
      λ e. ((to e).0, sound (to e).1, (to e).2),
      λ (nul, utf8, line). from (nul, accepts utf8, line),
    )

-- ===== src/Language/Filename/Laws.antt =====
-- About `filename_language`: directories, and the case of extensions.
use fornacast.Prelude.{
  ℕ, ◌≡◌, refl, sym, ap, ◌∙◌, Bool, false, ◌||◌, Option, none, some, List, [], ◌∷◌, ◌++◌,
  append_assoc, append-nil, String, ◌==◌, if◌then◌else◌, Bool-cases, within, inl, inr, arith,
}
use mathlib.Core.List.{map}
use fornacast.Prelude.Bytes.{
  Bytes, codes, bytes_eq, starts_with, contains, after_last, eq_ignore_ascii_case,
  to_ascii_lowercase,
}
use fornacast.Language.Filename.{
  after_last_dot, Table, extensions, any_extension, find_language, name_language, filename_language,
}

after_last-none :
    (sep : ℕ) (s cur : Bytes) → contains sep s ≡ false → after_last sep cur s ≡ cur ++ s
unfolding after_last
after_last-none sep [] cur h = sym (append-nil cur)
after_last-none sep (x ∷ s) cur h = elim (Bool-cases (x == sep)) [
  | inl e ↦ absurd (ground arith)
  | inr e ↦
      rw e (after_last-none sep s (cur ++ x ∷ []) (ground arith) ∙ append_assoc cur (x ∷ []) s)
]

after_last-append :
    (sep : ℕ) (d s cur : Bytes) → after_last sep cur (d ++ sep ∷ s) ≡ after_last sep [] s
unfolding after_last
after_last-append sep [] s cur = ground arith
after_last-append sep (x ∷ d) s cur = after_last-append sep d s _

-- A file is classified by its name alone, whatever directory it stands in.
pub filename_language-directory :
    (directory name : Bytes)
    → contains b'/' name ≡ false
    → filename_language (directory ++ b'/' ∷ name) ≡ filename_language name
filename_language-directory directory name h =
    unfold filename_language in ap name_language (after_last-append b'/' directory name [])

pub after_last_dot-none :
    (e found : Bytes) → contains b'.' e ≡ false → after_last_dot (some found) e ≡ some (found ++ e)
unfolding after_last_dot
after_last_dot-none [] found h = rw append-nil
after_last_dot-none (x ∷ e) found h = elim (Bool-cases (x == b'.')) [
  | inl dot ↦ absurd (ground arith)
  | inr plain ↦ rw plain (
      after_last_dot-none e (found ++ x ∷ []) (ground arith)
      ∙ ap some (append_assoc found (x ∷ []) e))
]

pub after_last_dot-append :
    (base e : Bytes) (found : Option Bytes)
    → after_last_dot found (base ++ b'.' ∷ e) ≡ after_last_dot (some []) e
unfolding after_last_dot
after_last_dot-append [] e found = refl
after_last_dot-append (x ∷ base) e found = after_last_dot-append base e _

lower_twice : (b : ℕ) → to_ascii_lowercase (to_ascii_lowercase b) ≡ to_ascii_lowercase b
lower_twice b = ground arith

map_lower_twice :
    (e : Bytes) → map to_ascii_lowercase (map to_ascii_lowercase e) ≡ map to_ascii_lowercase e
map_lower_twice [] = refl
map_lower_twice (b ∷ e) = rw (lower_twice b, map_lower_twice e)

any_extension-lower :
    (cs : List String) (e : Bytes)
    → any_extension cs (map to_ascii_lowercase e) ≡ any_extension cs e
unfolding any_extension eq_ignore_ascii_case
any_extension-lower [] e = refl
any_extension-lower (c ∷ cs) e = rw (map_lower_twice e, any_extension-lower cs e)

pub find_language-lower :
    (rows : Table) (e : Bytes)
    → find_language rows (map to_ascii_lowercase e) ≡ find_language rows e
unfolding find_language
find_language-lower [] e = refl
find_language-lower ((language, cs) ∷ rows) e =
    rw (any_extension-lower cs e, find_language-lower rows e)

-- A name that holds a dot is not the dotless `q`; whether it starts with `q.` is settled before
-- the last dot.
dotted_ne : (q base e : Bytes) → contains b'.' q ≡ false → bytes_eq (base ++ b'.' ∷ e) q ≡ false
dotted_ne [] [] e h = refl
dotted_ne [] (x ∷ base) e h = refl
dotted_ne (c ∷ q) [] e h = ground arith
dotted_ne (c ∷ q) (x ∷ base) e h = ground (arith, dotted_ne q base e)

starts_with_dotted :
    (q base e f : Bytes)
    → contains b'.' q ≡ false
    → starts_with (q ++ b'.' ∷ []) (base ++ b'.' ∷ e)
      ≡ starts_with (q ++ b'.' ∷ []) (base ++ b'.' ∷ f)
starts_with_dotted [] [] e f h = refl
starts_with_dotted [] (x ∷ base) e f h = refl
starts_with_dotted (c ∷ q) [] e f h = ground arith
starts_with_dotted (c ∷ q) (x ∷ base) e f h = ground (arith, starts_with_dotted q base e f)

abbrev dockerfile_name : Bytes → Bytes → Bool
dockerfile_name base e =
    bytes_eq (base ++ b'.' ∷ e) (codes "Dockerfile")
    || starts_with (codes "Dockerfile.") (base ++ b'.' ∷ e)

dockerfile_name-lower : (base e f : Bytes) → dockerfile_name base e ≡ dockerfile_name base f
dockerfile_name-lower base e f =
    rw (dotted_ne (codes "Dockerfile") base e refl, dotted_ne (codes "Dockerfile") base f refl)
      (starts_with_dotted (codes "Dockerfile") base e f refl)

name_language_dotted :
    (base e : Bytes)
    → contains b'.' e ≡ false
    → name_language (base ++ b'.' ∷ e)
      ≡ (if dockerfile_name base e then some "Dockerfile" else find_language extensions e)
unfolding name_language
name_language_dotted base e h = rw (after_last_dot-append base e none ∙ after_last_dot-none e [] h)

-- Lower case letters change no separator.
contains-lower :
    (sep : ℕ) (e : Bytes)
    → within b'A' b'z' sep ≡ false
    → contains sep (map to_ascii_lowercase e) ≡ contains sep e
contains-lower sep [] h = refl
contains-lower sep (x ∷ e) h = ground (arith, contains-lower sep e)

name_language-lower :
    (base e : Bytes)
    → contains b'.' e ≡ false
    → name_language (base ++ b'.' ∷ map to_ascii_lowercase e) ≡ name_language (base ++ b'.' ∷ e)
name_language-lower base e h =
    name_language_dotted base (map to_ascii_lowercase e) (contains-lower b'.' e refl ∙ h)
    ∙ (rw
        (dockerfile_name-lower base (map to_ascii_lowercase e) e, find_language-lower extensions e))
    ∙ sym (name_language_dotted base e h)

contains-append :
    (sep : ℕ) (a b : Bytes) → contains sep (a ++ b) ≡ (contains sep a || contains sep b)
contains-append sep [] b = refl
contains-append sep (x ∷ a) b = ground (arith, contains-append sep a b)

pub filename_language-none :
    (name : Bytes) → contains b'/' name ≡ false → filename_language name ≡ name_language name
filename_language-none name h =
    unfold filename_language in ap name_language (after_last-none b'/' name [] h)

-- The letters of the extension, the part of the name behind its last dot, count in either case.
pub filename_language-lower :
    (base extension : Bytes)
    → contains b'/' base ≡ false
    → contains b'/' extension ≡ false
    → contains b'.' extension ≡ false
    → filename_language (base ++ b'.' ∷ map to_ascii_lowercase extension)
      ≡ filename_language (base ++ b'.' ∷ extension)
filename_language-lower base extension b h k =
    filename_language-none _
      (no_slash (map to_ascii_lowercase extension) (contains-lower b'/' extension refl ∙ h))
    ∙ name_language-lower base extension k
    ∙ sym (filename_language-none _ (no_slash extension h))
  where
    no_slash : (e : Bytes) → contains b'/' e ≡ false → contains b'/' (base ++ b'.' ∷ e) ≡ false
    no_slash e n = rw (contains-append b'/' base (b'.' ∷ e), b) n

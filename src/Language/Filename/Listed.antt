-- ===== src/Language/Filename/Listed.antt =====
-- The languages that `filename_language` of lib.rs gives, for any path.
use fornacast.Prelude.{
  ◌≡◌, ◌↔◌, ◌⊎◌, inl, inr, refl, sym, ap, ◌∙◌, subst, Bool, true, false, ◌||◌, Option, none, some,
  List, [], ◌∷◌, ◌++◌, String, ◌==◌, Bool-cases, arith,
}
use mathlib.Core.List.{map}
use fornacast.Prelude.Bytes.{
  Bytes, codes, bytes_eq, bytes_eq_iff, starts_with, starts_with-eq-true, contains,
  eq_ignore_ascii_case, to_ascii_lowercase,
}
use fornacast.Language.Filename.{
  after_last_dot, Table, extensions, any_extension, find_language, name_language, filename_language,
}
use fornacast.Language.Filename.Laws.{
  after_last_dot-append, after_last_dot-none, find_language-lower, filename_language-none,
  filename_language-directory,
}

-- The name of a file, behind any directories, holds no slash.
pub data Filename : Bytes → Bytes → Type 0 where
  bare : {name : Bytes} → contains b'/' name ≡ false → Filename name name
  within :
      {name : Bytes} (directory : Bytes)
      → contains b'/' name ≡ false
      → Filename (directory ++ b'/' ∷ name) name

-- The texts are the same but for the case of ASCII letters.
abbrev pub SameLetters : Bytes → Bytes → Type 0
SameLetters a b = map to_ascii_lowercase a ≡ map to_ascii_lowercase b

abbrev pub Among : List String → Bytes → Type 0
Among [] e = ⊥
Among (c ∷ cs) e = SameLetters e (codes c) ⊎ Among cs e

-- A row of the table has the extension for the language.
abbrev pub Listed : Table → Bytes → String → Type 0
Listed [] e language = ⊥
Listed ((l, cs) ∷ rows) e language = (l ≡ language) × Among cs e ⊎ Listed rows e language

abbrev pub DockerName : Bytes → Type 0
DockerName name =
    (name ≡ codes "Dockerfile") ⊎ ((rest : Bytes) × (name ≡ codes "Dockerfile." ++ rest))

-- What stands behind the last dot.
abbrev pub Extension : Bytes → Bytes → Type 0
Extension name e = (base : Bytes) × (name ≡ base ++ b'.' ∷ e) × (contains b'.' e ≡ false)

abbrev pub HasLanguage : Bytes → String → Type 0
HasLanguage name language =
    DockerName name × (language ≡ "Dockerfile")
    ⊎ ((DockerName name → ⊥) × ((e : Bytes) × Extension name e × Listed extensions e language))

last_dot : (name : Bytes) → (contains b'.' name ≡ false) ⊎ ((e : Bytes) × Extension name e)
last_dot [] = inl refl
last_dot (x ∷ name) = elim (last_dot name) [
  | inr (e, (base, is, no_dot)) ↦ inr (e, (x ∷ base, ap (λ s. x ∷ s) is, no_dot))
  | inl no_dot ↦ elim (Bool-cases (x == b'.')) [
    | inl dot ↦ inr (name, ([], ground arith, no_dot))
    | inr plain ↦ inl (ground arith)
  ]
]

after_last_dot-no_dot :
    (name : Bytes) → contains b'.' name ≡ false → after_last_dot none name ≡ none
unfolding after_last_dot
after_last_dot-no_dot [] h = refl
after_last_dot-no_dot (x ∷ name) h = elim (Bool-cases (x == b'.')) [
  | inl dot ↦ absurd (ground arith)
  | inr plain ↦ rw plain (after_last_dot-no_dot name (ground arith))
]

after_last_dot-Extension : (name e : Bytes) → Extension name e → after_last_dot none name ≡ some e
after_last_dot-Extension name e (base, is, no_dot) =
    ap (after_last_dot none) is
    ∙ after_last_dot-append base e none
    ∙ after_last_dot-none e [] no_dot

any_extension-Among : (cs : List String) (e : Bytes) → any_extension cs e ≡ true → Among cs e
unfolding any_extension eq_ignore_ascii_case
any_extension-Among [] e h = cc h
any_extension-Among (c ∷ cs) e h =
    let lower = map to_ascii_lowercase in
    elim (Bool-cases (bytes_eq (lower e) (lower (codes c)))) [
      | inl same ↦ inl ((bytes_eq_iff (lower e) (lower (codes c))).0 same)
      | inr other ↦ inr (any_extension-Among cs e (rw other at h))
    ]

find_language-Listed :
    (rows : Table) (e : Bytes) (language : String)
    → find_language rows e ≡ some language
    → Listed rows e language
unfolding find_language
find_language-Listed [] e language h = cc h
find_language-Listed ((l, cs) ∷ rows) e language h = elim (Bool-cases (any_extension cs e)) [
  | inl listed ↦ inl (cc (rw listed at h), any_extension-Among cs e listed)
  | inr no_match ↦ inr (find_language-Listed rows e language (rw no_match at h))
]

-- The table gives a language for each text that it lists: no text stands in two rows.
abbrev AllFound : List String → String → Type 0
AllFound [] language = Unit
AllFound (c ∷ cs) language =
    (find_language extensions (codes c) ≡ some language) × AllFound cs language

abbrev EachFound : Table → Type 0
EachFound [] = Unit
EachFound ((l, cs) ∷ rows) = AllFound cs l × EachFound rows

extensions_found : EachFound extensions
unfolding find_language any_extension eq_ignore_ascii_case
extensions_found = (
  (refl, (refl, tt)),
  (
    (refl, (refl, tt)),
    (
      (refl, tt),
      (
        (refl, (refl, (refl, (refl, tt)))),
        (
          (refl, (refl, (refl, (refl, tt)))),
          (
            (refl, tt),
            (
              (refl, (refl, (refl, tt))),
              (
                (refl, (refl, tt)),
                (
                  (refl, tt),
                  (
                    (refl, tt),
                    (
                      (refl, (refl, tt)),
                      (
                        (refl, (refl, (refl, tt))),
                        (
                          (refl, tt),
                          (
                            (refl, tt),
                            (
                              (refl, tt),
                              (
                                (refl, tt),
                                (
                                  (refl, (refl, tt)),
                                  (
                                    (refl, (refl, (refl, (refl, (refl, (refl, tt)))))),
                                    ((refl, tt), tt),
                                  ),
                                ),
                              ),
                            ),
                          ),
                        ),
                      ),
                    ),
                  ),
                ),
              ),
            ),
          ),
        ),
      ),
    ),
  ),
)

Among-found :
    (cs : List String) (e : Bytes) (language : String)
    → AllFound cs language
    → Among cs e
    → find_language extensions e ≡ some language
Among-found [] e language found h = absurd h
Among-found (c ∷ cs) e language found (inl same) =
    sym (find_language-lower extensions e)
    ∙ ap (find_language extensions) same
    ∙ find_language-lower extensions (codes c)
    ∙ found.0
Among-found (c ∷ cs) e language found (inr h) = Among-found cs e language found.1 h

Listed-found :
    (rows : Table) (e : Bytes) (language : String)
    → EachFound rows
    → Listed rows e language
    → find_language extensions e ≡ some language
Listed-found [] e language found h = absurd h
Listed-found ((l, cs) ∷ rows) e language found (inl (is, h)) =
    subst (λ x. find_language extensions e ≡ some x) is (Among-found cs e l found.0 h)
Listed-found ((l, cs) ∷ rows) e language found (inr h) = Listed-found rows e language found.1 h

abbrev is_docker : Bytes → Bool
is_docker name = bytes_eq name (codes "Dockerfile") || starts_with (codes "Dockerfile.") name

is_docker-DockerName : (name : Bytes) → (is_docker name ≡ true) ↔ DockerName name
is_docker-DockerName name = (to, from)
  where
    to : is_docker name ≡ true → DockerName name
    to h = elim (Bool-cases (bytes_eq name (codes "Dockerfile"))) [
      | inl same ↦ inl ((bytes_eq_iff name (codes "Dockerfile")).0 same)
      | inr other ↦ inr (starts_with-eq-true (codes "Dockerfile.") name (rw other at h))
    ]

    from : DockerName name → is_docker name ≡ true
    from (inl is) = subst (λ x. is_docker x ≡ true) (sym is) refl
    from (inr (rest, is)) = subst (λ x. is_docker x ≡ true) (sym is) refl

module _ (name : Bytes) where
  name_language-docker : is_docker name ≡ true → name_language name ≡ some "Dockerfile"
  name_language-docker h = unfold name_language in rw h refl

  name_language-other :
      (o : Option Bytes)
      → is_docker name ≡ false
      → after_last_dot none name ≡ o
      → name_language name ≡ elim o [ none ↦ none | some e ↦ find_language extensions e ]
  name_language-other o h e = unfold name_language in rw (h, e) refl

  name_language-HasLanguage :
      (language : String) → (name_language name ≡ some language) ↔ HasLanguage name language
  name_language-HasLanguage language = (to, from)
    where
      other_to :
          (is_docker name ≡ false)
          → name_language name ≡ some language
          → (contains b'.' name ≡ false) ⊎ ((e : Bytes) × Extension name e)
          → (e : Bytes) × Extension name e × Listed extensions e language
      other_to other h (inl no_dot) =
          absurd (cc (h, name_language-other none other (after_last_dot-no_dot name no_dot)))
      other_to other h (inr (e, ext)) =
          let found = name_language-other (some e) other (after_last_dot-Extension name e ext) in
          (e, ext, find_language-Listed extensions e language (sym found ∙ h))

      to : name_language name ≡ some language → HasLanguage name language
      to h = elim (Bool-cases (is_docker name)) [
        | inl docker ↦
            inl ((is_docker-DockerName name).0 docker, cc (name_language-docker docker, h))
        | inr other ↦
            inr
              ((λ d. cc ((is_docker-DockerName name).1 d, other)), other_to other h (last_dot name))
      ]

      from : HasLanguage name language → name_language name ≡ some language
      from (inl (docker, is)) =
          name_language-docker ((is_docker-DockerName name).1 docker) ∙ ap some (sym is)
      from (inr (no_docker, (e, ext, listed))) = elim (Bool-cases (is_docker name)) [
        | inl docker ↦ absurd (no_docker ((is_docker-DockerName name).0 docker))
        | inr other ↦
            name_language-other (some e) other (after_last_dot-Extension name e ext)
            ∙ Listed-found extensions e language extensions_found listed
      ]

filename_language-name :
    {path name : Bytes} → Filename path name → filename_language path ≡ name_language name
filename_language-name (bare {name} clean) = filename_language-none name clean
filename_language-name (within {name} directory clean) =
    filename_language-directory directory name clean ∙ filename_language-none name clean

-- The language of a path, whatever its directories: a name that is Dockerfile, or begins with
-- `Dockerfile.`, has the language Dockerfile; another one has the language of the row of the table
-- that lists the letters behind its last dot, in either case, and only that.
pub filename_language-HasLanguage :
    (path name : Bytes) (language : String)
    → Filename path name
    → (filename_language path ≡ some language) ↔ HasLanguage name language
filename_language-HasLanguage path name language is =
    subst (λ o. (o ≡ some language) ↔ HasLanguage name language) (sym (filename_language-name is))
      (name_language-HasLanguage name language)

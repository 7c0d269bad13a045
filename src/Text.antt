-- ===== src/Text.antt =====
-- src/string.c: whiteout tags, path building and directory names. A C string is the list of its
-- bytes before the closing byte 0.
pub mod Tag
pub mod Build
pub mod Length
pub mod Prefix
use unionfs_fuse.Prelude.{
  ℕ, zero, suc, ◌+◌, ◌-◌, max, Bool, true, false, not, ◌&&◌, Option, none, some, List, [], ◌∷◌,
  ◌++◌, length, codes, ltb, ◌==◌, if◌then◌else◌,
}

abbrev pub slash : ℕ
slash = b'/'

-- `HIDETAG`
abbrev pub hidetag : List ℕ
hidetag = codes "_HIDDEN~"

abbrev pub pathlen_max : ℕ
pathlen_max = 1024

abbrev pub enametoolong : ℕ
enametoolong = 36

-- Does the string begin with `needle`?
abbrev pub begins : List ℕ → List ℕ → Bool
begins [] s = true
begins (c ∷ needle) [] = false
begins (c ∷ needle) (d ∷ s) = c == d && begins needle s

-- The index of the first occurrence.
unfoldable pub strstr : List ℕ → List ℕ → Option ℕ
strstr [] needle = if begins needle [] then some 0 else none
strstr (c ∷ s) needle =
    let later : Option ℕ = elim (strstr s needle) [ none ↦ none | some i ↦ some (suc i) ] in
    if begins needle (c ∷ s) then some 0 else later

-- The index at which the tag begins, or NULL.
pub whiteout_tag : List ℕ → Option ℕ
whiteout_tag fname = elim (strstr fname hidetag) [
  | none ↦ none
  | some tag ↦ if not (tag == 0) && length fname - tag == length hidetag then some tag else none
]

-- Skip leading slashes: `while (*str == '/') str++`.
unfoldable pub skip_slashes : List ℕ → List ℕ
skip_slashes [] = []
skip_slashes (c ∷ s) = let rest = skip_slashes s in if c == slash then rest else c ∷ s

-- Is the last byte a slash?
unfoldable pub ends_slash : List ℕ → Bool
ends_slash [] = false
ends_slash (c ∷ []) = c == slash
ends_slash (c ∷ d ∷ s) = ends_slash (d ∷ s)

abbrev pub starts_slash : List ℕ → Bool
starts_slash [] = false
starts_slash (c ∷ s) = c == slash

-- The buffer, the variable `len`, and how many bytes of the buffer were written at most, the
-- closing byte 0 included.
pub record Buffer : Type 0 where
  pub path : List ℕ
  pub len : ℕ
  pub written : ℕ

abbrev strcat : Buffer → List ℕ → Buffer
strcat b s = record b { path = b.path ++ s; written = max b.written (length b.path + length s + 1) }

-- What the loop does between two elements: it may skip slashes of the next string, or add a
-- slash. (Where the path ends in slashes it also walks back over them and forward again, which
-- changes no byte: the next `strcat` looks for the end of the path anew.)
unfoldable pub separate : Buffer → List ℕ → Buffer × List ℕ
separate b str =
    if b.len == 0
    then (b, str)
    else if ends_slash b.path
    then (b, skip_slashes str)
    else if starts_slash str
    then (b, str)
    else (record (strcat b (slash ∷ [])) { len = b.len + 1 }, str)

-- Return value 0, or the negative of an error number, and the buffer.
pub data Built : Type 0 where
  done : Buffer → Built
  failed : ℕ → Buffer → Built

unfoldable pub append_element : ℕ → Buffer × List ℕ → Built
append_element max_len (b, str) =
    let len' = b.len + length str in
    if ltb max_len (len' + 1)
    then failed enametoolong (record b { len = len' })
    else done (record (strcat b str) { len = len' })

unfoldable pub build_loop : ℕ → List (List ℕ) → Buffer → Built
build_loop max_len [] b = if b.len == 0 then failed 5 b else done b
build_loop max_len (str ∷ rest) b = elim (append_element max_len (separate b str)) [
  | failed e b' ↦ failed e b'
  | done b' ↦ build_loop max_len rest b'
]

unfoldable pub build_path : ℕ → List (List ℕ) → Built
build_path max_len elements =
    build_loop max_len elements (record { path = []; len = 0; written = 1 })

-- The macro `BUILD_PATH`: the path, or `none` for a return value other than 0. The byte that
-- `build_path` may write behind the buffer does nothing here: that takes a first element of 1023
-- bytes without a slash at its end, and the paths of branches, with which the paths here begin, end in
-- one.
unfoldable pub build_path_max : List (List ℕ) → Option (List ℕ)
build_path_max elements = elim (build_path pathlen_max elements) [
  | done b ↦ some b.path
  | failed e b ↦ none
]

-- The part before the last slash.
unfoldable pub before_last_slash : List ℕ → Option (List ℕ)
before_last_slash [] = none
before_last_slash (c ∷ s) = elim (before_last_slash s) [
  | some d ↦ some (c ∷ d)
  | none ↦ if c == slash then some [] else none
]

-- `none` stands for the write of two bytes into the copy of an empty string, which has one.
unfoldable pub u_dirname : List ℕ → Option (List ℕ)
u_dirname path = elim (before_last_slash path) [
  | some d ↦ some d
  | none ↦ elim path [ [] ↦ none | _ ↦ some (codes ".") ]
]

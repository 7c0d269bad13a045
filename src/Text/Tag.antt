-- ===== src/Text/Tag.antt =====
-- `whiteout_tag` and `u_dirname` of src/string.c.
use unionfs_fuse.Prelude.{
  ℕ, zero, suc, ◌+◌, ◌≤◌, ◌<◌, ◌≡◌, refl, Bool, true, not, ◌&&◌, inl, inr, Option, none, some, List,
  [], ◌∷◌, ◌++◌, length, length-append, Bool-cases, Option-cases, ◌==◌, if◌then◌else◌, arith,
}
use unionfs_fuse.Text.{slash, hidetag, begins, strstr, whiteout_tag, before_last_slash, u_dirname}

-- The tag has no proper prefix that is a suffix: it cannot begin inside a name and end in the tag.
begins-append_tag :
    (c : ℕ) (r : List ℕ) → begins hidetag (c ∷ r ++ hidetag) ≡ begins hidetag (c ∷ r)
begins-append_tag a [] = ground arith
begins-append_tag a (b ∷ []) = ground arith
begins-append_tag a (b ∷ c ∷ []) = ground arith
begins-append_tag a (b ∷ c ∷ d ∷ []) = ground arith
begins-append_tag a (b ∷ c ∷ d ∷ e ∷ []) = ground arith
begins-append_tag a (b ∷ c ∷ d ∷ e ∷ f ∷ []) = ground arith
begins-append_tag a (b ∷ c ∷ d ∷ e ∷ f ∷ g ∷ []) = ground arith
begins-append_tag a (b ∷ c ∷ d ∷ e ∷ f ∷ g ∷ h ∷ r) = refl

abbrev found_or : ℕ → Option ℕ → Option ℕ
found_or n none = some n
found_or n (some i) = some i

strstr-append_tag :
    (name : List ℕ)
    → strstr (name ++ hidetag) hidetag ≡ found_or (length name) (strstr name hidetag)
unfolding strstr
strstr-append_tag [] = refl
strstr-append_tag (c ∷ name) = elim (Bool-cases (begins hidetag (c ∷ name))) [
  | inl b ↦ rw (begins-append_tag c name, b)
  | inr b ↦ elim (Option-cases (strstr name hidetag)) [
    | inl e ↦ rw (begins-append_tag c name, b, strstr-append_tag name, e)
    | inr (i, e) ↦ rw (begins-append_tag c name, b, strstr-append_tag name, e)
  ]
]

begins-length : (needle s : List ℕ) → begins needle s ≡ true → length needle ≤ length s
begins-length [] s h = omega arith
begins-length (c ∷ needle) [] h = cc
begins-length (c ∷ needle) (d ∷ s) h = ground (arith, begins-length needle s)

strstr-bound : (s needle : List ℕ) (i : ℕ) → strstr s needle ≡ some i → i + length needle ≤ length s
unfolding strstr
strstr-bound [] needle i h = ground (arith, begins-length needle [])
strstr-bound (c ∷ s) needle zero h = ground (arith, begins-length needle (c ∷ s))
strstr-bound (c ∷ s) needle (suc i) h = ground (arith, strstr-bound s needle i)

-- What is recognised of the whiteout of `name`, by the first tag inside the name itself.
abbrev pub recognised : List ℕ → Option ℕ → Option ℕ
recognised name (some i) = none
recognised name none = if length name == 0 then none else some (length name)

-- The name of the whiteout of `name` is recognised, with the tag behind the name, exactly if the
-- name is not empty and does not itself contain the tag.
pub whiteout_tag-append :
    (name : List ℕ) → whiteout_tag (name ++ hidetag) ≡ recognised name (strstr name hidetag)
unfolding whiteout_tag
whiteout_tag-append name =
    let size = length-append name hidetag in
    let at_tag = strstr-append_tag name in
    elim (Option-cases (strstr name hidetag)) [
      | inl e ↦ let f = rw e at at_tag in rw (e, f, whiteout_tag) (ground (arith, size))
      | inr (i, e) ↦
          let f = rw e at at_tag in
          rw (e, f, whiteout_tag) (ground (arith, size, strstr-bound name hidetag i e))
    ]

-- A name without slashes behind a slash.
abbrev pub no_slash : List ℕ → Bool
no_slash [] = true
no_slash (c ∷ s) = not (c == slash) && no_slash s

before_last_slash-none : (s : List ℕ) → no_slash s ≡ true → before_last_slash s ≡ none
unfolding before_last_slash
before_last_slash-none [] h = refl
before_last_slash-none (c ∷ s) h = ground (arith, before_last_slash-none s)

before_last_slash-append :
    (dir base : List ℕ)
    → no_slash base ≡ true
    → before_last_slash (dir ++ (slash ∷ base)) ≡ some dir
unfolding before_last_slash
before_last_slash-append [] base h = ground (arith, before_last_slash-none base)
before_last_slash-append (c ∷ dir) base h = ground (arith, before_last_slash-append dir base)

u_dirname_base :
    (base : List ℕ) → no_slash base ≡ true → 0 < length base → u_dirname base ≡ some (b'.' ∷ [])
unfolding u_dirname
u_dirname_base [] h z = elim z [ ]
u_dirname_base (c ∷ s) h z = ground (arith, before_last_slash-none (c ∷ s))

-- For a last element without slashes that is not empty, the directory name of a directory, a
-- slash and that element is the directory, and that of the element alone is `.`.
pub u_dirname_lem :
    (dir base : List ℕ)
    → no_slash base ≡ true
    → 0 < length base
    → (u_dirname (dir ++ (slash ∷ base)) ≡ some dir) × (u_dirname base ≡ some (b'.' ∷ []))
unfolding u_dirname
u_dirname_lem dir base h z =
    (rw (before_last_slash-append dir base h, u_dirname), u_dirname_base base h z)

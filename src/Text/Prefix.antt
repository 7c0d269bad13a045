-- ===== src/Text/Prefix.antt =====
-- A path that `build_path` of src/string.c makes begins with its first element.
use unionfs_fuse.Prelude.{
  ℕ, ◌+◌, ◌≡◌, refl, sym, ap, ◌∙◌, true, inl, inr, some, List, [], ◌∷◌, ◌++◌, length, Bool-cases,
  ltb, ◌==◌, arith,
}
use mathlib.Core.List.{append-nil, append_assoc}
use unionfs_fuse.Text.{
  pathlen_max, slash, begins, skip_slashes, ends_slash, starts_slash, Buffer, separate, done,
  append_element, build_loop, build_path, build_path_max,
}
use unionfs_fuse.Text.Length.{
  Built-cases, buffer_path, build_loop_round, empty_buffer, separate-rest,
}

pub begins-append : (d s : List ℕ) → begins d (d ++ s) ≡ true
begins-append [] s = refl
begins-append (c ∷ d) s = ground (arith, begins-append d s)

pub begins-longer : (d p s : List ℕ) → begins d p ≡ true → begins d (p ++ s) ≡ true
begins-longer [] p s h = refl
begins-longer (c ∷ d) [] s h = cc
begins-longer (c ∷ d) (e ∷ p) s h = ground (arith, begins-longer d p s, h)

begins_trans : (a b p : List ℕ) → begins a b ≡ true → begins b p ≡ true → begins a p ≡ true
begins_trans [] b p h k = refl
begins_trans (c ∷ a) [] p h k = cc
begins_trans (c ∷ a) (d ∷ b) [] h k = cc
begins_trans (c ∷ a) (d ∷ b) (e ∷ p) h k = ground (arith, begins_trans a b p, h, k)

pub begins-inside :
    (d name rest p : List ℕ)
    → begins name rest ≡ true
    → begins (d ++ rest) p ≡ true
    → begins (d ++ name) p ≡ true
begins-inside [] name rest p h k = begins_trans name rest p h k
begins-inside (c ∷ d) name rest [] h k = cc
begins-inside (c ∷ d) name rest (e ∷ p) h k = ground (arith, begins-inside d name rest p h, k)

-- `t` is `s` with something behind.
abbrev Extends : List ℕ → List ℕ → Type 0
Extends s t = (r : List ℕ) × (t ≡ s ++ r)

Extends-trans : (s t u : List ℕ) → Extends s t → Extends t u → Extends s u
Extends-trans s t u (r, e) (q, f) = (r ++ q, f ∙ rw e (append_assoc s r q))

Extends-begins : (d s : List ℕ) → Extends d s → begins d s ≡ true
Extends-begins d s (r, e) = rw e (begins-append d r)

append_element-path :
    (max_len : ℕ) (b b1 : Buffer) (str : List ℕ)
    → append_element max_len (b, str) ≡ done b1
    → b1.path ≡ b.path ++ str
unfolding append_element
append_element-path max_len b b1 str e = elim (Bool-cases (ltb max_len (b.len + length str + 1))) [
  | inl g ↦ let e' = rw g at e in cc
  | inr g ↦ let e' = rw g at e in sym (ap buffer_path e')
]

separate-Extends : (b : Buffer) (str : List ℕ) → Extends b.path (separate b str).0.path
unfolding separate
separate-Extends b str = elim (Bool-cases (b.len == 0)) [
  | inl e ↦ ([], rw e (sym (append-nil b.path)))
  | inr e ↦ elim (Bool-cases (ends_slash b.path)) [
    | inl f ↦ ([], rw (e, f) (sym (append-nil b.path)))
    | inr f ↦ elim (Bool-cases (starts_slash str)) [
      | inl g ↦ ([], rw (e, f, g) (sym (append-nil b.path)))
      | inr g ↦ (slash ∷ [], rw (e, f, g) refl)
    ]
  ]
]

round-Extends :
    (max_len : ℕ) (b b1 : Buffer) (str : List ℕ)
    → append_element max_len (separate b str) ≡ done b1
    → Extends b.path b1.path
round-Extends max_len b b1 str e =
    Extends-trans b.path _ b1.path (separate-Extends b str)
      ((separate b str).1, append_element-path max_len _ b1 _ e)

build_loop-Extends :
    (max_len : ℕ) (elements : List (List ℕ)) (b b' : Buffer)
    → build_loop max_len elements b ≡ done b'
    → Extends b.path b'.path
unfolding build_loop
build_loop-Extends max_len [] b b' e = elim (Bool-cases (b.len == 0)) [
  | inl g ↦ let e' = rw (g, build_loop) at e in cc
  | inr g ↦
      let e' = rw (g, build_loop) at e in
      let p : b.path ≡ b'.path = ap buffer_path e' in ([], sym p ∙ sym (append-nil b.path))
]
build_loop-Extends max_len (str ∷ rest) b b' e =
    let (b1, f, g) = build_loop_round max_len str rest b b' e in
    Extends-trans b.path b1.path b'.path (round-Extends max_len b b1 str f)
      (build_loop-Extends max_len rest b1 b' g)

-- The buffer after the first element is that element.
build_path_first :
    (dir : List ℕ) (rest : List (List ℕ)) (p : List ℕ)
    → build_path_max (dir ∷ rest) ≡ some p
    → (b1 : Buffer) × (b : Buffer) × (b1.path ≡ dir)
      × (build_loop pathlen_max rest b1 ≡ done b)
      × (b.path ≡ p)
unfolding build_path_max build_path separate append_element
build_path_first dir rest p e = elim (Built-cases (build_path pathlen_max (dir ∷ rest))) [
  | inr (c, b, f) ↦ let e' = rw (f, build_path_max) at e in cc
  | inl (b, f) ↦
      let e' = rw (f, build_path_max) at e in
      let (b1, f1, g1) = build_loop_round pathlen_max dir rest empty_buffer b f in
      (b1, b, append_element-path pathlen_max _ b1 _ f1, g1, cc)
]

pub build_path_max-begins :
    (dir : List ℕ) (rest : List (List ℕ)) (p : List ℕ)
    → build_path_max (dir ∷ rest) ≡ some p
    → begins dir p ≡ true
build_path_max-begins dir rest p e =
    let (b1, b, d, g, q) = build_path_first dir rest p e in
    Extends-begins dir p (rw (← q, ← d) (build_loop-Extends pathlen_max rest b1 b g))

-- No slash is put behind a directory that ends in one.
separate-path :
    (b : Buffer) (str : List ℕ) → ends_slash b.path ≡ true → (separate b str).0.path ≡ b.path
unfolding separate
separate-path b str e = elim (Bool-cases (b.len == 0)) [
  | inl f ↦ rw f refl
  | inr f ↦ rw (f, e) refl
]

-- A directory with a slash at its end, and a name that begins with none.
pub build_path_max-begins_two :
    (dir name : List ℕ) (rest : List (List ℕ)) (p : List ℕ)
    → ends_slash dir ≡ true
    → skip_slashes name ≡ name
    → build_path_max (dir ∷ name ∷ rest) ≡ some p
    → begins (dir ++ name) p ≡ true
unfolding separate
build_path_max-begins_two dir name rest p s h e =
    let (b1, b, d, g, q) = build_path_first dir (name ∷ rest) p e in
    let (b2, f2, g2) = build_loop_round pathlen_max name rest b1 b g in
    let same = separate-path b1 name (rw d s) in
    let two : b2.path ≡ dir ++ name =
      append_element-path pathlen_max _ b2 _ f2 ∙ rw (same, separate-rest b1 name h, d) refl in
    Extends-begins (dir ++ name) p (rw (← q, ← two) (build_loop-Extends pathlen_max rest b2 b g2))

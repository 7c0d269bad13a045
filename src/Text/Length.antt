-- ===== src/Text/Length.antt =====
-- How long the paths are that `build_path` of src/string.c makes.
use unionfs_fuse.Prelude.{
  ℕ, ◌+◌, ◌≤◌, ◌≡◌, refl, ap, inl, inr, ◌⊎◌, some, List, [], ◌∷◌, ◌++◌, length, length-append,
  Bool-cases, ltb, ◌==◌, arith,
}
use unionfs_fuse.Text.{
  slash, pathlen_max, skip_slashes, Buffer, separate, Built, done, failed, append_element,
  build_loop, build_path, build_path_max,
}

abbrev pub buffer_path : Built → List ℕ
buffer_path (done b) = b.path
buffer_path (failed e b) = b.path

pub Built-cases :
    (r : Built) → ((b : Buffer) × (r ≡ done b)) ⊎ ((e : ℕ) × (b : Buffer) × (r ≡ failed e b))
Built-cases (done b) = inl (b, refl)
Built-cases (failed e b) = inr (e, b, refl)

-- A loop that succeeds has done its first round.
pub build_loop_round :
    (max_len : ℕ) (str : List ℕ) (rest : List (List ℕ)) (b b' : Buffer)
    → build_loop max_len (str ∷ rest) b ≡ done b'
    → (b1 : Buffer) × (append_element max_len (separate b str) ≡ done b1)
      × (build_loop max_len rest b1 ≡ done b')
unfolding build_loop
build_loop_round max_len str rest b b' e =
    elim (Built-cases (append_element max_len (separate b str))) [
      | inl (b1, f) ↦ let e' = rw (f, build_loop) at e in (b1, f, e')
      | inr (c, b1, f) ↦ let e' = rw (f, build_loop) at e in cc
    ]

append_element-length :
    (max_len : ℕ) (b b1 : Buffer) (str : List ℕ)
    → append_element max_len (b, str) ≡ done b1
    → length b1.path ≡ length b.path + length str
unfolding append_element
append_element-length max_len b b1 str e =
    elim (Bool-cases (ltb max_len (b.len + length str + 1))) [
      | inl g ↦ let e' = rw g at e in cc
      | inr g ↦
          let e' = rw g at e in
          let p : b.path ++ str ≡ b1.path = ap buffer_path e' in rw (← p) (length-append b.path str)
    ]

separate-length : (b : Buffer) (str : List ℕ) → length b.path ≤ length (separate b str).0.path
unfolding separate
separate-length b str = ground (arith, length-append b.path (slash ∷ []))

-- One round does not shorten the path.
round-length :
    (max_len : ℕ) (b b1 : Buffer) (str : List ℕ)
    → append_element max_len (separate b str) ≡ done b1
    → length b.path + length (separate b str).1 ≤ length b1.path
round-length max_len b b1 str e =
    omega (arith, append_element-length max_len _ b1 _ e, separate-length b str)

build_loop-length :
    (max_len : ℕ) (elements : List (List ℕ)) (b b' : Buffer)
    → build_loop max_len elements b ≡ done b'
    → length b.path ≤ length b'.path
unfolding build_loop
build_loop-length max_len [] b b' e = elim (Bool-cases (b.len == 0)) [
  | inl g ↦ let e' = rw (g, build_loop) at e in cc
  | inr g ↦
      let e' = rw (g, build_loop) at e in
      let p : b.path ≡ b'.path = ap buffer_path e' in rw p (omega arith)
]
build_loop-length max_len (str ∷ rest) b b' e =
    let (b1, f, g) = build_loop_round max_len str rest b b' e in
    omega (arith, round-length max_len b b1 str f, build_loop-length max_len rest b1 b' g)

abbrev pub empty_buffer : Buffer
empty_buffer = record { path = []; len = 0; written = 1 }

pub separate-rest :
    (b : Buffer) (name : List ℕ) → skip_slashes name ≡ name → (separate b name).1 ≡ name
unfolding separate
separate-rest b name h = ground (arith, h)

-- A path of a name below a directory whose first byte is no slash is longer than both.
pub build_path_max-length :
    (dir name : List ℕ) (rest : List (List ℕ)) (p : List ℕ)
    → skip_slashes name ≡ name
    → build_path_max (dir ∷ name ∷ rest) ≡ some p
    → length dir + length name ≤ length p
unfolding build_path_max build_path separate
build_path_max-length dir name rest p h e =
    elim (Built-cases (build_path pathlen_max (dir ∷ name ∷ rest))) [
      | inr (c, b, f) ↦ let e' = rw (f, build_path_max) at e in cc
      | inl (b, f) ↦
          let e' = rw (f, build_path_max) at e in
          let (b1, f1, g1) = build_loop_round pathlen_max dir (name ∷ rest) _ b f in
          let (b2, f2, g2) = build_loop_round pathlen_max name rest b1 b g1 in
          let first = round-length pathlen_max empty_buffer b1 dir f1 in
          let second = round-length pathlen_max b1 b2 name f2 in
          let same_name = separate-rest b1 name h in
          let all = build_loop-length pathlen_max rest b2 b g2 in
          let q : b.path ≡ p = cc in rw (← q) (omega (arith, first, rw same_name at second, all))
    ]

-- What is in the buffer after one element: the element, or nothing if it is too long.
pub build_path_one :
    (max_len : ℕ) (str : List ℕ)
    → (buffer_path (build_path max_len (str ∷ [])) ≡ str)
      ⊎ (buffer_path (build_path max_len (str ∷ [])) ≡ [])
unfolding build_path build_loop append_element separate
build_path_one max_len str = elim (Bool-cases (ltb max_len (0 + length str + 1))) [
  | inl e ↦ inr (rw (buffer_path, build_path, build_loop, append_element, separate, e) refl)
  | inr e ↦ elim (Bool-cases ((0 + length str) == 0)) [
    | inl f ↦ inl (rw (buffer_path, build_path, build_loop, append_element, separate, e, f) refl)
    | inr f ↦ inl (rw (buffer_path, build_path, build_loop, append_element, separate, e, f) refl)
  ]
]

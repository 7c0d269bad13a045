-- ===== src/Text/Build.antt =====
-- `build_path` of src/string.c.
use unionfs_fuse.Prelude.{
  ℕ, ◌+◌, ◌≤◌, ◌<◌, ◌≡◌, refl, Bool, true, false, ◌&&◌, ◌||◌, inl, inr, List, [], ◌∷◌, ◌++◌, length,
  length-append, Bool-cases, ltb, ◌==◌, arith,
}
use unionfs_fuse.Text.{
  slash, skip_slashes, ends_slash, starts_slash, Buffer, separate, Built, done, failed,
  append_element, build_loop, build_path, enametoolong,
}

-- `len` counts the bytes in the buffer.
abbrev IsCounted : Buffer → Type 0
IsCounted b = b.len ≡ length b.path

-- The buffer holds at most `max_len` bytes with the closing byte, and at most one byte more was
-- ever written.
abbrev pub Fits : ℕ → Buffer → Type 0
Fits max_len b = (length b.path + 1 ≤ max_len) × (b.written ≤ max_len + 1)

abbrev pub WrittenWithin : ℕ → Built → Type 0
WrittenWithin max_len (done b) = Fits max_len b
WrittenWithin max_len (failed e b) = b.written ≤ max_len + 1

-- An element that succeeds leaves a buffer with `P`; one that fails ends the loop with `Q`.
abbrev Ensures : (Buffer → Type 0) → (Built → Type 0) → Built → Type 0
Ensures P Q (done b) = P b
Ensures P Q (failed e b) = Q (failed e b)

abbrev Roomy : ℕ → Buffer → Type 0
Roomy max_len b = IsCounted b × Fits max_len b

separate-Counted :
    (max_len : ℕ) (b : Buffer) (str : List ℕ)
    → IsCounted b
    → Fits max_len b
    → IsCounted (separate b str).0 × ((separate b str).0.written ≤ max_len + 1)
unfolding separate
separate-Counted max_len b str c f = ground (arith, length-append b.path (slash ∷ []))

append_element-Within :
    (max_len : ℕ) (b : Buffer) (str : List ℕ)
    → IsCounted b
    → b.written ≤ max_len + 1
    → Ensures (Roomy max_len) (WrittenWithin max_len) (append_element max_len (b, str))
unfolding append_element
append_element-Within max_len b str c f = elim (Bool-cases (ltb max_len (b.len + length str + 1))) [
  | inl e ↦ rw e f
  | inr e ↦ rw (e, length-append) (ground arith)
]

build_loop_step :
    (P : Buffer → Type 0) (Q : Built → Type 0) (max_len : ℕ) (rest : List (List ℕ)) (r : Built)
    → Ensures P Q r
    → ((b : Buffer) → P b → Q (build_loop max_len rest b))
    → Q (elim r [ failed e b' ↦ failed e b' | done b' ↦ build_loop max_len rest b' ])
build_loop_step P Q max_len rest (done b) s k = k b s
build_loop_step P Q max_len rest (failed e b) s k = s

build_loop-Within :
    (max_len : ℕ) (elements : List (List ℕ)) (b : Buffer)
    → IsCounted b
    → Fits max_len b
    → WrittenWithin max_len (build_loop max_len elements b)
unfolding build_loop
build_loop-Within max_len [] b c f = ground arith
build_loop-Within max_len (str ∷ rest) b c f =
    let s = separate-Counted max_len b str c f in
    build_loop_step (Roomy max_len) (WrittenWithin max_len) max_len rest _
      (append_element-Within max_len _ _ s.0 s.1)
      (λ b' r. build_loop-Within max_len rest b' r.0 r.1)

-- With a buffer of at least one byte, `build_path` leaves a path that fits into `max_len` bytes
-- with its closing byte if it returns 0, and it never writes more than one byte behind the buffer.
pub build_path-Within :
    (max_len : ℕ) (elements : List (List ℕ))
    → 1 ≤ max_len
    → WrittenWithin max_len (build_path max_len elements)
unfolding build_path
build_path-Within max_len elements h =
    build_loop-Within max_len elements _ refl (omega arith, omega arith)

-- The byte behind the buffer is written for every first element that fills the buffer and does
-- not end in a slash, if a second one follows that does not start with a slash; the call fails.
pub build_path_overflow :
    (max_len : ℕ) (first second : List ℕ)
    → length first + 1 ≡ max_len
    → 0 < length first
    → ends_slash first ≡ false
    → starts_slash second ≡ false
    → (b : Buffer) × (build_path max_len (first ∷ second ∷ []) ≡ failed enametoolong b)
      × (b.written ≡ max_len + 1)
unfolding build_path build_loop append_element separate
build_path_overflow max_len first second h z e s = (
  record {
    path = first ++ slash ∷ [];
    len = length first + 1 + length second;
    written = length first + 2;
  },
  ground arith,
  omega arith,
)

-- Does the string hold two slashes in a row?
abbrev pub double_slash : List ℕ → Bool
double_slash [] = false
double_slash (c ∷ []) = false
double_slash (c ∷ d ∷ s) = (c == slash && d == slash) || double_slash (d ∷ s)

double_slash-append :
    (a b : List ℕ)
    → double_slash a ≡ false
    → double_slash b ≡ false
    → (ends_slash a && starts_slash b) ≡ false
    → double_slash (a ++ b) ≡ false
unfolding ends_slash
double_slash-append [] b ha hb h = hb
double_slash-append (c ∷ []) [] ha hb h = refl
double_slash-append (c ∷ []) (d ∷ s) ha hb h = ground arith
double_slash-append (c ∷ d ∷ a) b ha hb h = ground (arith, double_slash-append (d ∷ a) b)

skip_slashes_lem :
    (s : List ℕ)
    → double_slash s ≡ false
    → (double_slash (skip_slashes s) ≡ false) × (starts_slash (skip_slashes s) ≡ false)
unfolding skip_slashes
skip_slashes_lem [] h = (refl, refl)
skip_slashes_lem (c ∷ []) h = ground arith
skip_slashes_lem (c ∷ d ∷ s) h = ground (arith, skip_slashes_lem (d ∷ s))

ends_slash-slash : (a : List ℕ) → ends_slash (a ++ slash ∷ []) ≡ true
unfolding ends_slash
ends_slash-slash [] = refl
ends_slash-slash (c ∷ []) = refl
ends_slash-slash (c ∷ d ∷ a) = ends_slash-slash (d ∷ a)

abbrev pub AllSingle : List (List ℕ) → Type 0
AllSingle [] = Unit
AllSingle (s ∷ rest) = (double_slash s ≡ false) × AllSingle rest

abbrev pub SingleIfDone : Built → Type 0
SingleIfDone (done b) = double_slash b.path ≡ false
SingleIfDone (failed e b) = Unit

empty_end : (p : List ℕ) (b : Bool) → length p ≡ 0 → (ends_slash p && b) ≡ false
unfolding ends_slash
empty_end [] b h = refl
empty_end (c ∷ p) b h = absurd (omega arith)

separate-single :
    (b : Buffer) (str : List ℕ)
    → IsCounted b
    → double_slash b.path ≡ false
    → double_slash str ≡ false
    → double_slash ((separate b str).0.path ++ (separate b str).1) ≡ false
unfolding separate
separate-single b str c h k = elim (Bool-cases (b.len == 0)) [
  | inl e ↦ rw e (double_slash-append b.path str h k (empty_end b.path _ (ground (arith, e))))
  | inr e ↦ elim (Bool-cases (ends_slash b.path)) [
    | inl g ↦
        let skipped = skip_slashes_lem str k in
        rw (e, g) (double_slash-append b.path (skip_slashes str) h skipped.0 (rw (g, skipped.1)))
    | inr g ↦ elim (Bool-cases (starts_slash str)) [
      | inl t ↦ rw (e, g, t) (double_slash-append b.path str h k (rw g))
      | inr t ↦
          rw (e, g, t)
            (double_slash-append (b.path ++ slash ∷ []) str
              (double_slash-append b.path (slash ∷ []) h refl (rw g)) k
              (rw (t, ends_slash-slash b.path)))
    ]
  ]
]

abbrev Clean : ℕ → Buffer → Type 0
Clean max_len b = Roomy max_len b × (double_slash b.path ≡ false)

append_element-single :
    (max_len : ℕ) (b : Buffer) (str : List ℕ)
    → Ensures (Roomy max_len) (WrittenWithin max_len) (append_element max_len (b, str))
    → double_slash (b.path ++ str) ≡ false
    → Ensures (Clean max_len) SingleIfDone (append_element max_len (b, str))
unfolding append_element
append_element-single max_len b str r d = elim (Bool-cases (ltb max_len (b.len + length str + 1))) [
  | inl e ↦ rw e tt
  | inr e ↦ let r' = rw e at r in rw e (r', d)
]

build_loop-single :
    (max_len : ℕ) (elements : List (List ℕ)) (b : Buffer)
    → Clean max_len b
    → AllSingle elements
    → SingleIfDone (build_loop max_len elements b)
unfolding build_loop
build_loop-single max_len [] b c a = ground arith
build_loop-single max_len (str ∷ rest) b c a =
    let s = separate-Counted max_len b str c.0.0 c.0.1 in
    build_loop_step (Clean max_len) SingleIfDone max_len rest _
      (append_element-single max_len _ _ (append_element-Within max_len _ _ s.0 s.1)
        (separate-single b str c.0.0 c.1 a.0))
      (λ b' r. build_loop-single max_len rest b' r a.1)

-- If no element holds two slashes in a row, neither does a path that `build_path` returns.
pub build_path-single :
    (max_len : ℕ) (elements : List (List ℕ))
    → 1 ≤ max_len
    → AllSingle elements
    → SingleIfDone (build_path max_len elements)
unfolding build_path
build_path-single max_len elements h a =
    build_loop-single max_len elements _ ((refl, (omega arith, omega arith)), refl) a

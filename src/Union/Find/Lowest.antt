-- ===== src/Union/Find/Lowest.antt =====
-- `find_lowest_rw_branch` of src/findbranch.c.
use mathlib.Core.Path.{subst}
use unionfs_fuse.Prelude.{
  ℕ, zero, suc, ◌+◌, ◌<◌, ◌≡◌, refl, sym, Bool, true, false, inl, inr, Option, none, some, List, [],
  ◌∷◌, Bool-cases, Option-cases, arith,
}
use unionfs_fuse.Union.{BranchEntry, Uopt}
use unionfs_fuse.Union.Find.{lowest_from, find_lowest_rw_branch}

-- Is branch `i` there and writable?
abbrev pub is_rw : List BranchEntry → ℕ → Bool
is_rw [] i = false
is_rw (b ∷ rest) zero = b.rw
is_rw (b ∷ rest) (suc i) = is_rw rest i

-- The result is the first writable branch among the first `n`, or there is none.
abbrev pub IsLowest : List BranchEntry → ℕ → Option ℕ → Type 0
IsLowest branches n none = (j : ℕ) → j < n → is_rw branches j ≡ false
IsLowest branches n (some i) =
    (i < n) × (is_rw branches i ≡ true) × ((j : ℕ) → j < i → is_rw branches j ≡ false)

-- An index, counted from `i`.
abbrev shifted : ℕ → Option ℕ → Option ℕ
shifted i none = none
shifted i (some k) = some (i + k)

shifted-zero : (o : Option ℕ) → shifted 0 o ≡ o
shifted-zero none = refl
shifted-zero (some k) = ground arith

abbrev next_lowest : Bool → Option ℕ → Option ℕ
next_lowest true o = some 0
next_lowest false none = none
next_lowest false (some k) = some (suc k)

lowest : List BranchEntry → ℕ → Option ℕ
lowest [] n = none
lowest (b ∷ rest) zero = none
lowest (b ∷ rest) (suc n) = next_lowest b.rw (lowest rest n)

lowest_from-shifted :
    (branches : List BranchEntry) (n i : ℕ)
    → lowest_from branches n i ≡ shifted i (lowest branches n)
unfolding lowest_from lowest
lowest_from-shifted [] n i = refl
lowest_from-shifted (b ∷ rest) zero i = refl
lowest_from-shifted (b ∷ rest) (suc n) i =
    let ih = lowest_from-shifted rest n (i + 1) in
    elim (Bool-cases b.rw) [
      | inl e ↦ ground (arith, e)
      | inr e ↦ elim (Option-cases (lowest rest n)) [
        | inl f ↦ rw (ih, e, f) refl
        | inr (k, f) ↦ rw (ih, e, f) (ground arith)
      ]
    ]

is_rw-skip :
    (b : BranchEntry) (rest : List BranchEntry) (n : ℕ)
    → b.rw ≡ false
    → ((j : ℕ) → j < n → is_rw rest j ≡ false)
    → (j : ℕ) → j < suc n
    → is_rw (b ∷ rest) j ≡ false
is_rw-skip b rest n e h zero k = e
is_rw-skip b rest n e h (suc j) k = h j (omega arith)

skip_first-IsLowest :
    (b : BranchEntry) (rest : List BranchEntry) (n : ℕ) (o : Option ℕ)
    → b.rw ≡ false
    → IsLowest rest n o
    → IsLowest (b ∷ rest) (suc n) (next_lowest false o)
skip_first-IsLowest b rest n none e h = is_rw-skip b rest n e h
skip_first-IsLowest b rest n (some k) e h = (omega (arith, h.0), h.1, is_rw-skip b rest k e h.2)

next_lowest-IsLowest :
    (b : BranchEntry) (rest : List BranchEntry) (n : ℕ) (o : Option ℕ)
    → IsLowest rest n o
    → IsLowest (b ∷ rest) (suc n) (next_lowest b.rw o)
next_lowest-IsLowest b rest n o h = elim (Bool-cases b.rw) [
  | inl e ↦
      subst (λ c. IsLowest (b ∷ rest) (suc n) (next_lowest c o)) (sym e)
        (omega arith, e, λ j k. absurd (omega arith))
  | inr e ↦
      subst (λ c. IsLowest (b ∷ rest) (suc n) (next_lowest c o)) (sym e)
        (skip_first-IsLowest b rest n o e h)
]

lowest-IsLowest : (branches : List BranchEntry) (n : ℕ) → IsLowest branches n (lowest branches n)
unfolding lowest
lowest-IsLowest [] n = λ j h. refl
lowest-IsLowest (b ∷ rest) zero = λ j h. absurd (omega arith)
lowest-IsLowest (b ∷ rest) (suc n) =
    next_lowest-IsLowest b rest n (lowest rest n) (lowest-IsLowest rest n)

-- The branch that is found is writable, is above the read-only branch, and no writable branch is
-- above it; if none is found, all branches above the read-only branch are read-only.
pub find_lowest_rw_branch-IsLowest :
    (uopt : Uopt) (branch_ro : ℕ)
    → IsLowest uopt.branches branch_ro (find_lowest_rw_branch uopt branch_ro)
unfolding find_lowest_rw_branch
find_lowest_rw_branch-IsLowest uopt branch_ro =
    rw
      (lowest_from-shifted uopt.branches branch_ro 0, shifted-zero (lowest uopt.branches branch_ro))
      (lowest-IsLowest uopt.branches branch_ro)

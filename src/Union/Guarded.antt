-- ===== src/Union/Guarded.antt =====
-- The paths at which the file system may change something, and the rule for a step that reads an
-- entry of the array of branches.
use unionfs_fuse.Prelude.{ℕ, ◌≡◌, true, ◌⊎◌, inr, some, ◌++◌, get_elem?}
use unionfs_fuse.Os.{FilePath, Os, World}
use unionfs_fuse.Os.Monad.{M, fault, pure, ◌>>=◌}
use unionfs_fuse.Os.Safe.{Safe, Safe-bind, Safe-option, Safe-pure, Safe-fault}
use unionfs_fuse.Text.{begins, ends_slash}
use unionfs_fuse.Union.{BranchEntry, Uopt, metadir, branch_at}

-- May everything below branch `i` be changed?
abbrev pub Opens : (FilePath → Type 0) → Uopt → ℕ → Type 0
Opens Ours uopt i =
    (b : BranchEntry)
    → get_elem? uopt.branches i ≡ some b
    → (p : FilePath) → begins b.path p ≡ true
    → Ours p

-- May the metadata directory of each branch be changed?
abbrev pub OpensMeta : (FilePath → Type 0) → Uopt → Type 0
OpensMeta Ours uopt =
    (i : ℕ) (b : BranchEntry)
    → get_elem? uopt.branches i ≡ some b
    → (p : FilePath) → begins (b.path ++ metadir) p ≡ true
    → Ours p

-- The paths of the branches end in a slash, as the option parser sees to.
abbrev pub Slashed : Uopt → Type 0
Slashed uopt =
    (i : ℕ) (b : BranchEntry) → get_elem? uopt.branches i ≡ some b → ends_slash b.path ≡ true

-- A path in a branch that is writable, or in the metadata directory of any branch.
abbrev pub Ours : Uopt → FilePath → Type 0
Ours uopt p =
    (i : ℕ) × (b : BranchEntry) × (get_elem? uopt.branches i ≡ some b)
    × ((b.rw ≡ true) × (begins b.path p ≡ true) ⊎ (begins (b.path ++ metadir) p ≡ true))

pub Ours-OpensMeta : (uopt : Uopt) → OpensMeta (Ours uopt) uopt
Ours-OpensMeta uopt i b e p h = (i, b, e, inr h)

module _ {S : Os} {P : S.State → Type 0} {B : Type 0} {Q : B → Type 0} (uopt : Uopt) where
  pub branch_at-then :
      (i : ℕ) (k : BranchEntry → M (World S) B)
      → ((b : BranchEntry) → get_elem? uopt.branches i ≡ some b → Safe S P (k b) Q)
      → Safe S P (branch_at S uopt i >>= k) Q
  branch_at-then i k h =
      Safe-bind (branch_at S uopt i) k
        (Safe-option (get_elem? uopt.branches i) fault pure Safe-fault (λ b e. Safe-pure b e)) h

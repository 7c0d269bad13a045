-- ===== src/Union/Find.antt =====
-- src/findbranch.c: the branch that serves a path.
pub mod Lowest
pub mod Served
pub mod Guarded
use unionfs_fuse.Prelude.{
  ℕ, zero, suc, ◌+◌, ◌-◌, Bool, true, false, not, ◌&&◌, Option, none, some, List, [], ◌∷◌, length,
  ltb, ◌==◌, if◌then◌else◌,
}
use unionfs_fuse.Prelude.Int.{pos, neg}
use unionfs_fuse.Os.{FilePath, Os, Stat, World, lstat, set_errno}
use unionfs_fuse.Os.Monad.{M, pure, ◌>>=◌, ◌>>◌}
use unionfs_fuse.Text.{enametoolong, build_path_max}
use unionfs_fuse.Union.{BranchEntry, Uopt, enoent}
use unionfs_fuse.Union.Hidden.{Hiding, visible, hidden, failure, path_hidden_in}

-- `searchflag_t`
pub data Searchflag : Type 0 where
  rwro rwonly : Searchflag

-- Does the branch serve the search, with what `lstat` returned for the path in it?
unfoldable pub accepts : Searchflag → BranchEntry → Option Stat → Bool
accepts flag b none = false
accepts rwro b (some st) = true
accepts rwonly b (some st) = b.rw

module _ (S : Os) (uopt : Uopt) where
  -- The loop from branch `i` on; `none` is -1.
  unfoldable pub find_from : Searchflag → FilePath → List BranchEntry → ℕ → M (World S) (Option ℕ)
  find_from flag path [] i = do _ ← set_errno S (pos enoent); pure none
  find_from flag path (b ∷ rest) i = elim (build_path_max (b.path ∷ path ∷ [])) [
    | none ↦ do _ ← set_errno S (pos enametoolong); pure none
    | some p ↦ do
      res ← lstat S p
      elim (accepts flag b res) [
        | true ↦ pure (some i)
        | false ↦ do
          whiteout ← path_hidden_in S uopt b path
          elim whiteout [
            | hidden ↦ do _ ← set_errno S (pos enoent); pure none
            | failure e ↦ do _ ← set_errno S (neg (pos e)); pure none
            | visible ↦ find_from flag path rest (i + 1)
          ]
      ]
  ]

  unfoldable pub find_branch : FilePath → Searchflag → M (World S) (Option ℕ)
  find_branch path flag = find_from flag path uopt.branches 0

  unfoldable pub find_rorw_branch : FilePath → M (World S) (Option ℕ)
  find_rorw_branch path = find_branch path rwro

-- The index of the first writable branch among the first `n`, counted from `i`.
lowest_from : List BranchEntry → ℕ → ℕ → Option ℕ
lowest_from [] n i = none
lowest_from (b ∷ rest) zero i = none
lowest_from (b ∷ rest) (suc n) i =
    let more = lowest_from rest n (i + 1) in if b.rw then some i else more

pub find_lowest_rw_branch : Uopt → ℕ → Option ℕ
find_lowest_rw_branch uopt branch_ro = lowest_from uopt.branches branch_ro 0

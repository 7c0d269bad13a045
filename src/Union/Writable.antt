-- ===== src/Union/Writable.antt =====
-- src/findbranch.c: a writable branch for a path, which is copied there if need be.
pub mod Guarded
pub mod Denied
pub mod Parent
pub mod Result
use unionfs_fuse.Prelude.{
  ℕ, ◌+◌, Bool, true, false, not, ◌&&◌, Option, none, some, length, ◌==◌, if◌then◌else◌,
}
use unionfs_fuse.Prelude.Int.{pos, is_code}
use unionfs_fuse.Os.{FilePath, Os, World, malloc, get_errno, set_errno}
use unionfs_fuse.Os.Monad.{M, pure, fault, ◌>>=◌}
use unionfs_fuse.Text.{pathlen_max, u_dirname}
use unionfs_fuse.Union.{Uopt, enoent, eacces, branch_at}
use unionfs_fuse.Union.Hidden.{remove_hidden}
use unionfs_fuse.Union.Find.{find_rorw_branch, find_lowest_rw_branch}
use unionfs_fuse.Union.Create.{path_create}
use unionfs_fuse.Union.Cow.{cow_cp}

abbrev enomem : ℕ
enomem = 12

-- Is the branch the one that is asked for? `none` asks for any.
abbrev agrees : Option ℕ → ℕ → Bool
agrees none branch = true
agrees (some hint) branch = branch == hint

module _ (S : Os) (uopt : Uopt) (fuel : ℕ) where
  -- `errno = e; RETURN(-1);`
  abbrev pub no_branch : ℕ → M (World S) (Option ℕ)
  no_branch e = do _ ← set_errno S (pos e); pure none

  -- The directories that are copied are nested less deep than a path is long.
  copy_up : FilePath → ℕ → ℕ → Bool → M (World S) (Option ℕ)
  copy_up path branch_rorw branch_rw copy_dir = do
    res ← cow_cp S uopt fuel pathlen_max path branch_rorw branch_rw copy_dir
    elim (is_code res 0) [
      | false ↦ pure none
      | true ↦ do _ ← remove_hidden S uopt path (some branch_rw); pure (some branch_rw)
    ]

  -- A branch that is found, and is not writable.
  pub from_read_only : FilePath → ℕ → Bool → M (World S) (Option ℕ)
  from_read_only path branch_rorw copy_dir =
      if not uopt.cow_enabled
      then no_branch eacces
      else elim (find_lowest_rw_branch uopt branch_rorw) [
        | none ↦ no_branch eacces
        | some branch_rw ↦ copy_up path branch_rorw branch_rw copy_dir
      ]

  unfoldable pub find_rw_branch_cow_common : FilePath → Bool → M (World S) (Option ℕ)
  find_rw_branch_cow_common path copy_dir = do
    branch ← find_rorw_branch S uopt path
    elim branch [
      | none ↦ pure none
      | some branch_rorw ↦ do
        b ← branch_at S uopt branch_rorw
        if b.rw then pure (some branch_rorw) else from_read_only path branch_rorw copy_dir
    ]

  unfoldable pub find_rw_branch_cow : FilePath → M (World S) (Option ℕ)
  find_rw_branch_cow path = find_rw_branch_cow_common path false

  -- If the directories cannot be created the branch that was found is returned all the same.
  pub create_parent : FilePath → ℕ → Option ℕ → M (World S) (Option ℕ)
  create_parent dname branch none = no_branch eacces
  create_parent dname branch (some branch_rw) = do
    res ← path_create S uopt dname branch branch_rw
    pure (some (if is_code res 0 then branch_rw else branch))

  -- The branch to create the directories in.
  pub target_branch : Option ℕ → Option ℕ
  target_branch none = find_lowest_rw_branch uopt (length uopt.branches)
  target_branch (some rw_hint) = some rw_hint

  unfoldable pub parent_branch : FilePath → Option ℕ → M (World S) (Option ℕ)
  parent_branch dname rw_hint = do
    found ← find_rorw_branch S uopt dname
    elim found [
      | none ↦ pure none
      | some branch ↦ do
        b ← branch_at S uopt branch
        if b.rw && agrees rw_hint branch
            then pure (some branch)
            else if not uopt.cow_enabled
            then no_branch eacces
            else create_parent dname branch (target_branch rw_hint)
    ]

  -- `none` for `rw_hint` is -1.
  unfoldable pub find_rw_branch_cutlast_hint : FilePath → Option ℕ → M (World S) (Option ℕ)
  find_rw_branch_cutlast_hint path rw_hint = do
    found ← find_rw_branch_cow path
    errno ← get_errno S
    elim found [
      | some branch ↦ pure (some branch)
      | none ↦ if not (is_code errno enoent) then pure none else (do
        copied ← malloc S (length path + 1)
        if not copied then no_branch enomem else (elim (u_dirname path) [
          | none ↦ fault
          | some dname ↦ parent_branch dname rw_hint
        ]))
    ]

  unfoldable pub find_rw_branch_cutlast : FilePath → M (World S) (Option ℕ)
  find_rw_branch_cutlast path = find_rw_branch_cutlast_hint path none

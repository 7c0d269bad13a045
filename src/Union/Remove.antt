-- ===== src/Union/Remove.antt =====
-- src/unlink.c and src/rmdir.c.
pub mod Guarded
use unionfs_fuse.Prelude.{ℕ, Bool, true, false, not, ◌||◌, none, some, [], ◌∷◌, if◌then◌else◌}
use unionfs_fuse.Prelude.Int.{ℤ, pos, neg, is_code}
use unionfs_fuse.Os.{FilePath, Os, Call, World, act, get_errno, set_errno}
use unionfs_fuse.Os.Monad.{M, pure, ◌>>=◌}
use unionfs_fuse.Text.{enametoolong, build_path_max}
use unionfs_fuse.Union.{Uopt, eacces, erofs, branch_at}
use unionfs_fuse.Union.Find.{find_rorw_branch, find_lowest_rw_branch}
use unionfs_fuse.Union.Whiteout.{whiteout_file, whiteout_dir, hide_file, hide_dir, maybe_whiteout}
use unionfs_fuse.Union.Datamap.{cowolf_destroy_datamap}
use unionfs_fuse.Union.Readdir.{NameSet, dir_not_empty}

abbrev pub enotempty : ℕ
enotempty = 39

-- EEXIST, ENOTDIR and ENOTEMPTY are not allowed for `rmdir`, and become EFAULT.
rmdir_errno : ℤ → ℤ
rmdir_errno e = if is_code e 17 || (is_code e 20 || is_code e enotempty) then pos 14 else e

-- 0 for the number 0.
is_success : ℤ → Bool
is_success e = is_code e 0

module _ (S : Os) (uopt : Uopt) where
  -- The result of a call that returns 0 or -1, as 0 or `errno`.
  errno_unless : Bool → M (World S) ℤ
  errno_unless done = do errno ← get_errno S; pure (if done then pos 0 else errno)

  unlink_ro : FilePath → ℕ → M (World S) ℤ
  unlink_ro path branch_ro = elim (find_lowest_rw_branch uopt branch_ro) [
    | none ↦ pure (pos eacces)
    | some branch_rw ↦ do made ← hide_file S uopt path branch_rw; errno_unless made
  ]

  -- The call on the path in the branch, `unlink` or `rmdir`.
  call_rw : (FilePath → Call) → FilePath → ℕ → M (World S) ℤ
  call_rw call path branch_rw = do
    b ← branch_at S uopt branch_rw
    elim (build_path_max (b.path ∷ path ∷ [])) [
      | none ↦ pure (pos enametoolong)
      | some p ↦ do res ← act S (call p); errno_unless (elim res [ none ↦ false | some _ ↦ true ])
    ]

  unlink_rw : FilePath → ℕ → M (World S) ℤ
  unlink_rw = call_rw Call.unlink

  unlink_writable : FilePath → ℕ → M (World S) ℤ
  unlink_writable path i = do
    res ← unlink_rw path i
    elim (is_success res) [
      | false ↦ pure res
      | true ↦ do _ ← maybe_whiteout S uopt path i whiteout_file; pure res
    ]

  unlink_found : FilePath → ℕ → M (World S) ℤ
  unlink_found path i = do
    b ← branch_at S uopt i
    res ←
        (if not b.rw
          then if not uopt.cow_enabled then pure (pos erofs) else unlink_ro path i
          else unlink_writable path i)
    _ ← cowolf_destroy_datamap S uopt path i
    pure (neg res)

  -- With no branch found the value of `errno` itself is returned, not its negative.
  pub unionfs_unlink : FilePath → M (World S) ℤ
  unionfs_unlink path = do
    i ← find_rorw_branch S uopt path
    elim i [ none ↦ get_errno S | some i ↦ unlink_found path i ]

  rmdir_rw : FilePath → ℕ → M (World S) ℤ
  rmdir_rw = call_rw Call.rmdir

  -- Without a writable branch the result is negative, unlike the other results.
  rmdir_ro : FilePath → ℕ → M (World S) ℤ
  rmdir_ro path branch_ro = elim (find_lowest_rw_branch uopt branch_ro) [
    | none ↦ pure (neg (pos eacces))
    | some branch_rw ↦ do
      made ← hide_dir S uopt path branch_rw
      elim made [
        | true ↦ pure (pos 0)
        | false ↦ do errno ← get_errno S; _ ← set_errno S (rmdir_errno errno); get_errno S
      ]
  ]

  rmdir_writable : FilePath → ℕ → M (World S) ℤ
  rmdir_writable path i = do
    res ← rmdir_rw path i
    elim (is_success res) [
      | false ↦ pure res
      | true ↦ do _ ← maybe_whiteout S uopt path i whiteout_dir; pure res
    ]

  rmdir_found : FilePath → ℕ → M (World S) ℤ
  rmdir_found path i = do
    b ← branch_at S uopt i
    res ←
        (if not b.rw
          then if not uopt.cow_enabled then pure (pos erofs) else rmdir_ro path i
          else rmdir_writable path i)
    pure (neg res)

  rmdir_empty : FilePath → M (World S) ℤ
  rmdir_empty path = do
    i ← find_rorw_branch S uopt path
    elim i [ none ↦ do errno ← get_errno S; pure (neg errno) | some i ↦ rmdir_found path i ]

  pub unionfs_rmdir : NameSet → FilePath → M (World S) ℤ
  unionfs_rmdir T path = do
    full ← dir_not_empty S T (λ _ _. false) uopt path
    if is_success full then rmdir_empty path else pure (neg (pos enotempty))

-- ===== src/Ops/Attributes/Denied.antt =====
-- Without copy on write, what is read-only is not changed.
use unionfs_fuse.Prelude.{ℕ, ◌≡◌, false, Option, none, some, List, get_elem?}
use unionfs_fuse.Prelude.Int.{pos, neg}
use unionfs_fuse.Os.{FilePath, Os, World}
use unionfs_fuse.Os.Monad.{M, ◌>>=◌, bind_run}
use unionfs_fuse.Drm.Mem.{Bsearch}
use unionfs_fuse.Union.{BranchEntry, Uopt, eacces}
use unionfs_fuse.Union.Find.{find_rorw_branch}
use unionfs_fuse.Union.Writable.{find_rw_branch_cow}
use unionfs_fuse.Union.Writable.Denied.{find_rw_branch_cow-denied}
use unionfs_fuse.Ops.{Reply, refuse}
use unionfs_fuse.Ops.Attributes.{
  changing, unionfs_chmod, unionfs_chown, unionfs_utimens, unionfs_removexattr, unionfs_setxattr,
  unionfs_truncate,
}

-- The run ends with `EACCES`, and nothing is changed after `w1` but `errno`.
abbrev pub IsDenied : {S : Os} {A : Type 0} → World S → Option (Reply A × World S) → Type 0
IsDenied w1 o = o ≡ some (refuse (neg (pos eacces)), record w1 { errno = pos eacces })

module _ {S : Os} (uopt : Uopt) (fuel : ℕ) (path : FilePath) (w w1 : World S) (i : ℕ)
    (b : BranchEntry) (C : uopt.cow_enabled ≡ false)
    (F : find_rorw_branch S uopt path w ≡ some (some i, w1))
    (E : get_elem? uopt.branches i ≡ some b) (R : b.rw ≡ false) where
  changing-IsDenied :
      {A : Type 0} (k : ℕ → FilePath → M (World S) (Reply A))
      → IsDenied w1 (changing S uopt fuel path k w)
  unfolding changing ◌>>=◌
  changing-IsDenied k =
      bind_run (find_rw_branch_cow S uopt fuel path) _ w (record w1 { errno = pos eacces }) none
        (find_rw_branch_cow-denied uopt fuel path w w1 i b C F E R)

  -- Without copy on write, the handlers that change attributes refuse a path that a read-only branch
  -- serves with `EACCES`, and change nothing after the search for the branch.
  pub attributes-IsDenied :
      (bsearch : Bsearch) (name : FilePath) (mode uid gid size flags : ℕ) (bytes : List ℕ)
      → IsDenied w1 (unionfs_chmod S uopt fuel path mode w)
        × IsDenied w1 (unionfs_chown S uopt fuel path uid gid w)
        × IsDenied w1 (unionfs_utimens S uopt fuel path bytes w)
        × IsDenied w1 (unionfs_truncate S uopt fuel bsearch path size w)
        × IsDenied w1 (unionfs_setxattr S uopt fuel path name bytes flags w)
        × IsDenied w1 (unionfs_removexattr S uopt fuel path name w)
  unfolding unionfs_chmod unionfs_chown unionfs_utimens unionfs_truncate unionfs_setxattr
      unionfs_removexattr
  attributes-IsDenied bsearch name mode uid gid size flags bytes = (
    changing-IsDenied _,
    changing-IsDenied _,
    changing-IsDenied _,
    changing-IsDenied _,
    changing-IsDenied _,
    changing-IsDenied _,
  )

-- ===== src/Ops/Attributes.antt =====
-- src/fuse_ops.c: the handlers that read and change attributes.
pub mod Guarded
pub mod Denied
use Prim.Native.Nat.{bit_and}
use unionfs_fuse.Prelude.{ℕ, ◌-◌, Bool, not, ◌&&◌, List, ◌==◌, if◌then◌else◌}
use unionfs_fuse.Prelude.Int.{pos, neg}
use unionfs_fuse.Os.{FilePath, Os, Stat, Call, World, act, lstat, readlink, getxattr, listxattr}
use unionfs_fuse.Os.Monad.{M, pure, ◌>>=◌}
use unionfs_fuse.Drm.Mem.{Bsearch}
use unionfs_fuse.Union.{Uopt, enoent, eacces}
use unionfs_fuse.Union.Hidden.{s_isdir}
use unionfs_fuse.Union.Find.{find_rorw_branch}
use unionfs_fuse.Union.Writable.{find_rw_branch_cow}
use unionfs_fuse.Union.Datamap.{cowolf_truncate_datamap}
use unionfs_fuse.Ops.{Reply, reply, refuse, or_errno, at_branch, call_reply}

-- Is the permission asked for and not given to the owner?
denied : ℕ → ℕ → ℕ → ℕ → Bool
denied mask asked st_mode bit = not (bit_and mask asked == 0) && (bit_and st_mode bit == 0)

access_reply : ℕ → ℕ → Reply (Unit {0})
access_reply mask st_mode =
    if denied mask 1 st_mode 0o100
    then refuse (neg (pos eacces))
    else if denied mask 2 st_mode 0o200
    then refuse (neg (pos eacces))
    else if denied mask 4 st_mode 0o400
    then refuse (neg (pos eacces))
    else reply tt

-- Broken programs want one link of a directory.
abbrev pub one_link : Stat → Stat
one_link st = if s_isdir st.st_mode then record st { st_nlink = 1 } else st

module _ (S : Os) (uopt : Uopt) where
  -- A handler that only reads: `k` is called with the path in the branch that serves it.
  reading : {A : Type 0} → FilePath → (FilePath → M (World S) (Reply A)) → M (World S) (Reply A)
  reading path k = do
    i ← find_rorw_branch S uopt path
    or_errno S i (λ i. at_branch S uopt i path k)

  pub unionfs_getattr : FilePath → M (World S) (Reply Stat)
  unionfs_getattr path =
      reading path (λ p. do stbuf ← lstat S p; or_errno S stbuf (λ st. pure (reply (one_link st))))

  pub unionfs_access : FilePath → ℕ → M (World S) (Reply (Unit {0}))
  unionfs_access path mask = do
    s ← unionfs_getattr path
    pure (elim s [ refuse z ↦ refuse (neg (pos enoent)) | reply st ↦ access_reply mask st.st_mode ])

  pub unionfs_readlink : FilePath → ℕ → M (World S) (Reply FilePath)
  unionfs_readlink path size =
      reading path
        (λ p. do res ← readlink S p (size - 1); or_errno S res (λ target. pure (reply target)))

  pub unionfs_getxattr : FilePath → FilePath → ℕ → M (World S) (Reply (List ℕ))
  unionfs_getxattr path name size =
      reading path
        (λ p. do res ← getxattr S p name size; or_errno S res (λ value. pure (reply value)))

  pub unionfs_listxattr : FilePath → ℕ → M (World S) (Reply (List ℕ))
  unionfs_listxattr path size =
      reading path (λ p. do res ← listxattr S p size; or_errno S res (λ names. pure (reply names)))

module _ (S : Os) (uopt : Uopt) (fuel : ℕ) where
  -- A handler that changes what exists: the path is copied to a writable branch first.
  changing :
      {A : Type 0} → FilePath → (ℕ → FilePath → M (World S) (Reply A)) → M (World S) (Reply A)
  changing path k = do
    i ← find_rw_branch_cow S uopt fuel path
    or_errno S i (λ i. at_branch S uopt i path (k i))

  pub unionfs_chmod : FilePath → ℕ → M (World S) (Reply (Unit {0}))
  unionfs_chmod path mode = changing path (λ i p. call_reply S (Call.chmod p mode))

  pub unionfs_chown : FilePath → ℕ → ℕ → M (World S) (Reply (Unit {0}))
  unionfs_chown path uid gid = changing path (λ i p. call_reply S (Call.lchown p uid gid))

  pub unionfs_utimens : FilePath → List ℕ → M (World S) (Reply (Unit {0}))
  unionfs_utimens path ts = changing path (λ i p. call_reply S (Call.utimensat p ts))

  pub unionfs_removexattr : FilePath → FilePath → M (World S) (Reply ℕ)
  unionfs_removexattr path name =
      changing path
        (λ i p. do res ← act S (Call.removexattr p name); or_errno S res (λ n. pure (reply n)))

  pub unionfs_setxattr : FilePath → FilePath → List ℕ → ℕ → M (World S) (Reply ℕ)
  unionfs_setxattr path name value flags = changing path (λ i p. do
    res ← act S (Call.setxattr p name value flags)
    or_errno S res (λ n. pure (reply n)))

  pub unionfs_truncate : Bsearch → FilePath → ℕ → M (World S) (Reply (Unit {0}))
  unionfs_truncate bsearch path size = changing path (λ i p. do
    res ← act S (Call.truncate p size)
    or_errno S res
        (λ _. do _ ← cowolf_truncate_datamap S uopt bsearch path i size; pure (reply tt)))

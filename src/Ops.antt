-- ===== src/Ops.antt =====
-- src/fuse_ops.c: what the handlers of the file system share.
pub mod Attributes
pub mod Files
pub mod Names
pub mod Statfs
pub mod Guarded
use unionfs_fuse.Prelude.{ℕ, Bool, not, ◌&&◌, Option, none, some, [], ◌∷◌, ◌==◌, if◌then◌else◌}
use unionfs_fuse.Prelude.Int.{ℤ, pos, neg}
use unionfs_fuse.Os.{FilePath, Os, Call, World, act, ask, get_errno}
use unionfs_fuse.Os.Monad.{M, pure, ◌>>=◌}
use unionfs_fuse.Text.{enametoolong, build_path_max}
use unionfs_fuse.Union.{Uopt, branch_at, too_long}

-- What a handler returns: a value with a return value that is no error, or an error's return value.
pub data Reply (A : Type 0) : Type 0 where
  reply : A → Reply A
  refuse : ℤ → Reply A

module _ (S : Os) {A : Type 0} where
  -- `RETURN(-errno)`
  abbrev pub refuse_errno : M (World S) (Reply A)
  refuse_errno = do errno ← get_errno S; pure (refuse (neg errno))

  -- A result of -1 is answered by `-errno`.
  abbrev pub or_errno :
      {B : Type 0} → Option B → (B → M (World S) (Reply A)) → M (World S) (Reply A)
  or_errno none k = refuse_errno
  or_errno (some b) k = k b

  -- The path in the branch, or `RETURN(-ENAMETOOLONG)`.
  abbrev pub at_branch :
      Uopt → ℕ → FilePath → (FilePath → M (World S) (Reply A)) → M (World S) (Reply A)
  at_branch uopt i path k = do
    b ← branch_at S uopt i
    elim (build_path_max (b.path ∷ path ∷ [])) [
      | none ↦ too_long S (refuse (neg (pos enametoolong)))
      | some p ↦ k p
    ]

module _ (S : Os) where
  -- A call of which only the failure matters.
  abbrev pub call_reply : Call → M (World S) (Reply (Unit {0}))
  call_reply c = do res ← act S c; or_errno S res (λ _. pure (reply tt))

  -- src/general.c: the owner of a new file is the user of the request. No caller looks at the
  -- result.
  pub set_owner : FilePath → M (World S) (Option ℕ)
  set_owner path = do
    uid ← ask S S.request_uid
    gid ← ask S S.request_gid
    if not (uid == 0) && not (gid == 0) then act S (Call.lchown path uid gid) else pure (some 0)

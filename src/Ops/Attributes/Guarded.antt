-- ===== src/Ops/Attributes/Guarded.antt =====
-- The handlers of attributes: those that read change nothing, the others change no read-only branch.
use mathlib.Core.Path.{subst}
use unionfs_fuse.Prelude.{Bool, ℕ, List}
use unionfs_fuse.Os.{FilePath, Os, Call, World, act}
use unionfs_fuse.Os.Monad.{M, pure, ◌>>=◌}
use unionfs_fuse.Os.Safe.{
  Guards, Safe, Any, Allowed, act-Safe, reads-Safe, safe_rules, Safe-bind, Safe-then,
}
use unionfs_fuse.Text.Prefix.{build_path_max-begins}
use unionfs_fuse.Drm.Mem.{Bsearch}
use unionfs_fuse.Union.{Uopt}
use unionfs_fuse.Union.Guarded.{Ours, Ours-OpensMeta, Slashed}
use unionfs_fuse.Union.Find.Guarded.{find_rorw_branch-Safe}
use unionfs_fuse.Union.Writable.Guarded.{IsWritable, IsWritable-Opens, find_rw_branch_cow-Safe}
use unionfs_fuse.Union.Datamap.Guarded.{cowolf_truncate_datamap-Safe}
use unionfs_fuse.Union.Readdir.{NameSet, unionfs_readdir}
use unionfs_fuse.Union.Readdir.Guarded.{unionfs_readdir-Safe}
use unionfs_fuse.Ops.{Reply, or_errno}
use unionfs_fuse.Ops.Guarded.{or_errno-Safe, at_branch-Safe, call_reply-Safe}
use unionfs_fuse.Ops.Attributes.{
  reading, unionfs_getattr, unionfs_access, unionfs_readlink, unionfs_getxattr, unionfs_listxattr,
  changing, unionfs_chmod, unionfs_chown, unionfs_utimens, unionfs_removexattr, unionfs_setxattr,
  unionfs_truncate,
}

module _ {S : Os} {P : S.State → Type 0} (uopt : Uopt) where
  reading-Safe :
      {A : Type 0} (path : FilePath) (k : FilePath → M (World S) (Reply A))
      → ((p : FilePath) → Safe S P (k p) Any)
      → Safe S P (reading S uopt path k) Any
  unfolding reading
  reading-Safe path k h =
      Safe-then _ _ (find_rorw_branch-Safe uopt path)
        (λ i. or_errno-Safe i _ (λ i _. at_branch-Safe uopt i path k (λ b p _ _. h p)))

  unionfs_getattr-Safe : (path : FilePath) → Safe S P (unionfs_getattr S uopt path) Any
  unfolding unionfs_getattr
  unionfs_getattr-Safe path = reading-Safe path _ (λ p.
      Safe-then _ _ (reads-Safe (S.lstat p)) (λ r. or_errno-Safe r _ (λ _ _. search safe_rules)))

  unionfs_access-Safe :
      (path : FilePath) (mask : ℕ) → Safe S P (unionfs_access S uopt path mask) Any
  unfolding unionfs_access
  unionfs_access-Safe path mask = Safe-then _ _ (unionfs_getattr-Safe path) (λ _. search safe_rules)

  unionfs_readlink-Safe :
      (path : FilePath) (size : ℕ) → Safe S P (unionfs_readlink S uopt path size) Any
  unfolding unionfs_readlink
  unionfs_readlink-Safe path size = reading-Safe path _ (λ p.
      Safe-then _ _ (reads-Safe (S.readlink p _))
        (λ r. or_errno-Safe r _ (λ _ _. search safe_rules)))

  unionfs_getxattr-Safe :
      (path name : FilePath) (size : ℕ) → Safe S P (unionfs_getxattr S uopt path name size) Any
  unfolding unionfs_getxattr
  unionfs_getxattr-Safe path name size = reading-Safe path _ (λ p.
      Safe-then _ _ (reads-Safe (S.getxattr p name size))
        (λ r. or_errno-Safe r _ (λ _ _. search safe_rules)))

  unionfs_listxattr-Safe :
      (path : FilePath) (size : ℕ) → Safe S P (unionfs_listxattr S uopt path size) Any
  unfolding unionfs_listxattr
  unionfs_listxattr-Safe path size = reading-Safe path _ (λ p.
      Safe-then _ _ (reads-Safe (S.listxattr p size))
        (λ r. or_errno-Safe r _ (λ _ _. search safe_rules)))

-- `getattr`, `access`, `readlink`, `getxattr`, `listxattr` and `readdir` change nothing: whatever is
-- true of the system before is true after.
pub reading-keeps :
    (S : Os) (P : S.State → Type 0) (uopt : Uopt) (T : NameSet)
    (filler : List FilePath → FilePath → Bool) (path name : FilePath) (mask size : ℕ)
    → Safe S P (unionfs_getattr S uopt path) Any
      × Safe S P (unionfs_access S uopt path mask) Any
      × Safe S P (unionfs_readlink S uopt path size) Any
      × Safe S P (unionfs_getxattr S uopt path name size) Any
      × Safe S P (unionfs_listxattr S uopt path size) Any
      × Safe S P (unionfs_readdir S T filler uopt path) Any
reading-keeps S P uopt T filler path name mask size = (
  unionfs_getattr-Safe uopt path,
  unionfs_access-Safe uopt path mask,
  unionfs_readlink-Safe uopt path size,
  unionfs_getxattr-Safe uopt path name size,
  unionfs_listxattr-Safe uopt path size,
  unionfs_readdir-Safe T filler uopt path,
)

module _ {S : Os} {P : S.State → Type 0} (uopt : Uopt) (G : Guards S (Allowed (Ours uopt)) P)
    (L : Slashed uopt) (fuel : ℕ) where
  changing-Safe :
      {A : Type 0} (path : FilePath) (k : ℕ → FilePath → M (World S) (Reply A))
      → ((i : ℕ) (p : FilePath) → Ours uopt p → Safe S P (k i p) Any)
      → Safe S P (changing S uopt fuel path k) Any
  unfolding changing
  changing-Safe path k h = Safe-bind _ _ (find_rw_branch_cow-Safe uopt G L fuel path) (λ o w.
      or_errno-Safe o _ (λ i e. at_branch-Safe uopt i path (k i) (λ b p f g. h i p (
        IsWritable-Opens uopt i (subst (IsWritable uopt) e w) b f p
          (build_path_max-begins b.path _ p g)))))

  unionfs_truncate-Safe :
      (bsearch : Bsearch) (path : FilePath) (size : ℕ)
      → Safe S P (unionfs_truncate S uopt fuel bsearch path size) Any
  unfolding unionfs_truncate
  unionfs_truncate-Safe bsearch path size = changing-Safe path _ (λ i p h.
      Safe-then _ _ (act-Safe (Ours uopt) G (Call.truncate p size) h) (λ res.
        or_errno-Safe res _ (λ _ _.
          Safe-then _ _
            (cowolf_truncate_datamap-Safe (Ours uopt) G uopt (Ours-OpensMeta uopt) L bsearch path i
              size)
            (λ _. search safe_rules))))

  call-Safe :
      {A : Type 0} (c : Call) (k : ℕ → Reply A)
      → Allowed (Ours uopt) c
      → Safe S P (act S c >>= (λ res. or_errno S res (λ n. pure (k n)))) Any
  call-Safe c k h =
      Safe-then _ _ (act-Safe (Ours uopt) G c h)
        (λ res. or_errno-Safe res _ (λ _ _. search safe_rules))

  -- The handlers that change attributes make no change but in writable branches and in metadata
  -- directories: what such changes keep true of the system is true after each of them. The paths
  -- of the branches end in a slash, and calls on descriptors count as such changes.
  pub attributes-Safe :
      (bsearch : Bsearch) (path name : FilePath) (mode uid gid size flags : ℕ) (bytes : List ℕ)
      → Safe S P (unionfs_chmod S uopt fuel path mode) Any
        × Safe S P (unionfs_chown S uopt fuel path uid gid) Any
        × Safe S P (unionfs_utimens S uopt fuel path bytes) Any
        × Safe S P (unionfs_truncate S uopt fuel bsearch path size) Any
        × Safe S P (unionfs_setxattr S uopt fuel path name bytes flags) Any
        × Safe S P (unionfs_removexattr S uopt fuel path name) Any
  unfolding unionfs_chmod unionfs_chown unionfs_utimens unionfs_setxattr unionfs_removexattr
  attributes-Safe bsearch path name mode uid gid size flags bytes = (
    changing-Safe path _ (λ i p h. call_reply-Safe (Ours uopt) G (Call.chmod p mode) h),
    changing-Safe path _ (λ i p h. call_reply-Safe (Ours uopt) G (Call.lchown p uid gid) h),
    changing-Safe path _ (λ i p h. call_reply-Safe (Ours uopt) G (Call.utimensat p bytes) h),
    unionfs_truncate-Safe bsearch path size,
    changing-Safe path _ (λ i p h. call-Safe (Call.setxattr p name bytes flags) _ h),
    changing-Safe path _ (λ i p h. call-Safe (Call.removexattr p name) _ h),
  )

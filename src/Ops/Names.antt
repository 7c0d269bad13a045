-- ===== src/Ops/Names.antt =====
-- src/fuse_ops.c: the handlers that make and move names.
pub mod Guarded
use Prim.Native.Nat.{bit_and}
use unionfs_fuse.Prelude.{ℕ, Bool, true, false, not, Option, none, some, ltb, ◌==◌, if◌then◌else◌}
use unionfs_fuse.Prelude.Int.{pos, neg}
use unionfs_fuse.Os.{FilePath, Os, Call, World, act, get_errno}
use unionfs_fuse.Os.Monad.{M, pure, ◌>>=◌}
use unionfs_fuse.Union.{Uopt, enoent, branch_at}
use unionfs_fuse.Union.Hidden.{not_existing, is_dir, is_file, path_is_dir, remove_hidden}
use unionfs_fuse.Union.Find.{find_rorw_branch}
use unionfs_fuse.Union.Whiteout.{
  Whiteout, whiteout_file, whiteout_dir, do_create_whiteout, maybe_whiteout,
}
use unionfs_fuse.Union.Datamap.{cowolf_rename_datamap}
use unionfs_fuse.Union.Writable.{
  find_rw_branch_cow, find_rw_branch_cow_common, find_rw_branch_cutlast,
  find_rw_branch_cutlast_hint,
}
use unionfs_fuse.Ops.{Reply, reply, refuse, refuse_errno, or_errno, at_branch, set_owner}

abbrev exdev : ℕ
exdev = 18

-- `hide_dir` or `hide_file`
abbrev whiteout_of : Bool → Whiteout
whiteout_of true = whiteout_dir
whiteout_of false = whiteout_file

module _ (S : Os) (uopt : Uopt) (fuel : ℕ) where
  -- A handler that makes a name: its directory is created in a writable branch first.
  making :
      FilePath → (ℕ → FilePath → M (World S) (Reply (Unit {0}))) → M (World S) (Reply (Unit {0}))
  making path k = do
    i ← find_rw_branch_cutlast S uopt fuel path
    or_errno S i (λ i. at_branch S uopt i path (k i))

  pub unionfs_mkdir : FilePath → ℕ → M (World S) (Reply (Unit {0}))
  unionfs_mkdir path mode = making path (λ i p. do
    res ← act S (Call.mkdir p 0)
    or_errno S res (λ _. do _ ← set_owner S p; _ ← act S (Call.chmod p mode); pure (reply tt)))

  -- `creat`, and `close` for a descriptor that is not 0; or `mknod`.
  make_node : FilePath → ℕ → ℕ → M (World S) (Option ℕ)
  make_node p file_type rdev =
      if not (file_type == 0o100000) then act S (Call.mknod p file_type rdev) else (do
        res ← act S (Call.creat p 0)
        elim res [
          | none ↦ pure none
          | some fd ↦
              if ltb 0 fd then (do _ ← act S (Call.close fd); pure (some fd)) else pure (some fd)
        ])

  pub unionfs_mknod : FilePath → ℕ → ℕ → M (World S) (Reply (Unit {0}))
  unionfs_mknod path mode rdev = making path (λ i p. do
    res ← make_node p (bit_and mode 0o170000) rdev
    or_errno S res (λ _. do
      _ ← set_owner S p
      _ ← act S (Call.chmod p (bit_and mode 0o7777))
      _ ← remove_hidden S uopt path (some i)
      pure (reply tt)))

  pub unionfs_symlink : FilePath → FilePath → M (World S) (Reply (Unit {0}))
  unionfs_symlink from to = making to (λ i t. do
    res ← act S (Call.symlink from t)
    or_errno S res
        (λ _. do _ ← set_owner S t; _ ← remove_hidden S uopt to (some i); pure (reply tt)))

  pub unionfs_link : FilePath → FilePath → M (World S) (Reply (Unit {0}))
  unionfs_link from to = do
    i ← find_rw_branch_cow S uopt fuel from
    or_errno S i (λ i. do
      j ← find_rw_branch_cutlast_hint S uopt fuel to (some i)
      or_errno S j (λ j. at_branch S uopt i from (λ f. at_branch S uopt j to (λ t. do
        res ← act S (Call.link f t)
        or_errno S res (λ _. do _ ← remove_hidden S uopt to (some i); pure (reply tt))))))

  -- The branch of the source, which is copied if its branch is not writable.
  rename_branch : FilePath → ℕ → M (World S) (Option ℕ)
  rename_branch from i = do
    b ← branch_at S uopt i
    if b.rw then pure (some i) else find_rw_branch_cow_common S uopt fuel from true

  -- After a `rename` that failed.
  rename_failed : Bool → FilePath → FilePath → ℕ → M (World S) (Reply (Unit {0}))
  rename_failed rw from f i = do
    err ← get_errno S
    _ ←
        (if rw
          then pure true
          else (do _ ← act S (Call.unlink f); remove_hidden S uopt from (some i)))
    pure (refuse (neg err))

  renamed : Bool → Bool → FilePath → FilePath → ℕ → M (World S) (Reply (Unit {0}))
  renamed rw dir from to i = do
    _ ← (if rw then maybe_whiteout S uopt from i (whiteout_of dir) else pure true)
    _ ← remove_hidden S uopt to (some i)
    _ ← cowolf_rename_datamap S uopt from to i
    pure (reply tt)

  -- From the whiteout for a source in a branch that is not writable on.
  rename_kind :
      Bool → FilePath → FilePath → ℕ → FilePath → FilePath → M (World S) (Reply (Unit {0}))
  rename_kind dir from to i f t = do
    b ← branch_at S uopt i
    hid ← (if b.rw then pure true else do_create_whiteout S uopt from i (whiteout_of dir))
    elim hid [
      | false ↦ refuse_errno S
      | true ↦ do
        res ← act S (Call.rename f t)
        elim res [ none ↦ rename_failed b.rw from f i | some _ ↦ renamed b.rw dir from to i ]
    ]

  rename_in : FilePath → FilePath → ℕ → M (World S) (Reply (Unit {0}))
  rename_in from to i = at_branch S uopt i from (λ f. at_branch S uopt i to (λ t. do
    ftype ← path_is_dir S uopt f
    elim ftype [
      | not_existing ↦ pure (refuse (neg (pos enoent)))
      | is_dir ↦ rename_kind true from to i f t
      | is_file ↦ rename_kind false from to i f t
    ]))

  pub unionfs_rename : FilePath → FilePath → M (World S) (Reply (Unit {0}))
  unionfs_rename from to = do
    j ← find_rw_branch_cutlast S uopt fuel to
    or_errno S j (λ j. do
      found ← find_rorw_branch S uopt from
      or_errno S found (λ found. do
        i ← rename_branch from found
        or_errno S i
            (λ i. if i == j then rename_in from to i else pure (refuse (neg (pos exdev))))))

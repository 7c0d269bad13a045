-- ===== src/Union/Whiteout.antt =====
-- src/general.c: making whiteouts.
pub mod Guarded
use unionfs_fuse.Prelude.{
  ℕ, ◌+◌, Bool, true, false, none, some, [], ◌∷◌, ◌++◌, length, ltb, if◌then◌else◌,
}
use unionfs_fuse.Os.{FilePath, Os, Call, World, act}
use unionfs_fuse.Os.Monad.{M, pure, fault, ◌>>=◌}
use unionfs_fuse.Text.{hidetag, pathlen_max, build_path_max}
use unionfs_fuse.Union.{Uopt, metadir, too_long, branch_at}
use unionfs_fuse.Union.Find.{find_rorw_branch}
use unionfs_fuse.Union.Create.{is_zero, path_create_cutlast}

-- `enum whiteout`
pub data Whiteout : Type 0 where
  whiteout_file whiteout_dir : Whiteout

module _ (S : Os) (uopt : Uopt) where
  make_whiteout : FilePath → Whiteout → M (World S) Bool
  make_whiteout p whiteout_dir = do res ← act S (Call.mkdir p 0o700); pure (is_zero res)
  make_whiteout p whiteout_file = do
    res ← act S (Call.open_file p 65 0o600)
    elim res [
      | none ↦ pure false
      | some fd ↦ do closed ← act S (Call.close fd); pure (is_zero closed)
    ]

  -- `true` is 0, `false` is -1. The tag is appended without a test of the length: a fault if it
  -- does not fit into the buffer.
  pub do_create_whiteout : FilePath → ℕ → Whiteout → M (World S) Bool
  do_create_whiteout path branch_rw mode = elim (build_path_max (metadir ∷ path ∷ [])) [
    | none ↦ too_long S false
    | some metapath ↦ do
      _ ← path_create_cutlast S uopt metapath branch_rw branch_rw
      b ← branch_at S uopt branch_rw
      elim (build_path_max (b.path ∷ metapath ∷ [])) [
        | none ↦ too_long S false
        | some p ↦
            if ltb (length p + length hidetag) pathlen_max
            then make_whiteout (p ++ hidetag) mode
            else fault
      ]
  ]

  pub hide_file : FilePath → ℕ → M (World S) Bool
  hide_file path branch_rw = do_create_whiteout path branch_rw whiteout_file

  pub hide_dir : FilePath → ℕ → M (World S) Bool
  hide_dir path branch_rw = do_create_whiteout path branch_rw whiteout_dir

  pub maybe_whiteout : FilePath → ℕ → Whiteout → M (World S) Bool
  maybe_whiteout path branch_rw mode = do
    found ← find_rorw_branch S uopt path
    elim found [ none ↦ pure true | some _ ↦ do_create_whiteout path branch_rw mode ]

  pub create_metapath : FilePath → ℕ → M (World S) Bool
  create_metapath path branch_rw = elim (build_path_max (metadir ∷ path ∷ [])) [
    | none ↦ too_long S false
    | some metapath ↦ do _ ← path_create_cutlast S uopt metapath branch_rw branch_rw; pure true
  ]

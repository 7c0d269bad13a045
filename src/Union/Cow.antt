-- ===== src/Union/Cow.antt =====
-- `cow_cp` and `copy_directory` of src/cow.c: a path of a lower branch is copied to a writable one.
pub mod Guarded
use Prim.Native.Nat.{bit_and}
use unionfs_fuse.Prelude.{
  ℕ, zero, suc, Bool, true, false, ◌||◌, none, some, List, [], ◌∷◌, codes, ◌==◌, if◌then◌else◌,
}
use unionfs_fuse.Prelude.Int.{ℤ, pos, neg, is_code}
use unionfs_fuse.Os.{FilePath, Os, World, lstat, opendir, ask}
use unionfs_fuse.Os.Monad.{M, pure, fault, ◌>>=◌}
use unionfs_fuse.Text.{enametoolong, build_path_max}
use unionfs_fuse.Union.{Uopt, too_long, branch_at}
use unionfs_fuse.Union.Create.{path_create, path_create_cutlast}
use unionfs_fuse.Union.Copy.{Cow, copy_file, copy_link, copy_fifo, copy_special, create_sparse_file}
use unionfs_fuse.Union.Datamap.{cowolf_create_datamap, cowolf_destroy_datamap}
use unionfs_fuse.Union.Readdir.{same}

-- `st_mode & S_IFMT`
pub data Kind : Type 0 where
  link_kind dir_kind special_kind fifo_kind socket_kind other_kind : Kind

kind_of : ℕ → Kind
kind_of st_mode =
    let fmt = bit_and st_mode 0o170000 in
    if fmt == 0o120000
    then link_kind
    else if fmt == 0o040000
    then dir_kind
    else if fmt == 0o060000 || fmt == 0o020000
    then special_kind
    else if fmt == 0o010000
    then fifo_kind
    else if fmt == 0o140000
    then socket_kind
    else other_kind

-- The return value of a function that returns 0 or 1.
abbrev zero_or_one : Bool → ℤ
zero_or_one true = pos 0
zero_or_one false = pos 1

-- How a copy of a directory is made; `cow_cp` and `copy_directory` call each other.
abbrev pub DirCopy : Os → Type 0
DirCopy S = FilePath → ℕ → ℕ → M (World S) ℤ

module _ (S : Os) (uopt : Uopt) (fuel : ℕ) where
  copy_regular : Cow → FilePath → ℕ → M (World S) ℤ
  copy_regular cow path branch_rw = do
    created ← cowolf_create_datamap S uopt path branch_rw cow.stat.st_size
    elim created [
      | false ↦ do res ← copy_file S fuel cow; pure (zero_or_one res)
      | true ↦ do
        res ← create_sparse_file S cow
        elim res [
          | true ↦ pure (pos 0)
          | false ↦ do _ ← cowolf_destroy_datamap S uopt path branch_rw; pure (pos 1)
        ]
    ]

  -- The `switch`, by the kind of the source.
  copy_kind : DirCopy S → Kind → Cow → FilePath → ℕ → ℕ → Bool → M (World S) ℤ
  copy_kind copy_dirs link_kind cow path branch_ro branch_rw copy_dir = do
    res ← copy_link S cow
    pure (zero_or_one res)
  copy_kind copy_dirs dir_kind cow path branch_ro branch_rw false =
      path_create S uopt path branch_ro branch_rw
  copy_kind copy_dirs dir_kind cow path branch_ro branch_rw true =
      copy_dirs path branch_ro branch_rw
  copy_kind copy_dirs special_kind cow path branch_ro branch_rw copy_dir = do
    res ← copy_special S cow
    pure (zero_or_one res)
  copy_kind copy_dirs fifo_kind cow path branch_ro branch_rw copy_dir = do
    res ← copy_fifo S cow
    pure (zero_or_one res)
  copy_kind copy_dirs socket_kind cow path branch_ro branch_rw copy_dir = pure (pos 1)
  copy_kind copy_dirs other_kind cow path branch_ro branch_rw copy_dir =
      copy_regular cow path branch_rw

  -- The status of the source is used without a test of the result of `lstat`: a fault if it fails.
  copy_from_to : DirCopy S → FilePath → FilePath → FilePath → ℕ → ℕ → Bool → M (World S) ℤ
  copy_from_to copy_dirs from to path branch_ro branch_rw copy_dir = do
    uid ← ask S S.uid
    umask ← ask S S.umask
    buf ← lstat S from
    elim buf [
      | none ↦ fault
      | some st ↦
          copy_kind copy_dirs (kind_of st.st_mode)
            (record { umask = umask; uid = uid; from_path = from; stat = st; to_path = to }) path
            branch_ro branch_rw copy_dir
    ]

  cow_cp_by : DirCopy S → FilePath → ℕ → ℕ → Bool → M (World S) ℤ
  cow_cp_by copy_dirs path branch_ro branch_rw copy_dir = do
    _ ← path_create_cutlast S uopt path branch_ro branch_rw
    ro ← branch_at S uopt branch_ro
    rw ← branch_at S uopt branch_rw
    elim (build_path_max (ro.path ∷ path ∷ [])) [
      | none ↦ too_long S (neg (pos enametoolong))
      | some from ↦ elim (build_path_max (rw.path ∷ path ∷ [])) [
        | none ↦ too_long S (neg (pos enametoolong))
        | some to ↦ copy_from_to copy_dirs from to path branch_ro branch_rw copy_dir
      ]
    ]

  -- The loop over the entries of a directory.
  copy_members : DirCopy S → FilePath → ℕ → ℕ → List FilePath → M (World S) ℤ
  copy_members copy_dirs path branch_ro branch_rw [] = pure (pos 0)
  copy_members copy_dirs path branch_ro branch_rw (name ∷ rest) =
      elim (same name (codes ".") || same name (codes "..")) [
        | true ↦ copy_members copy_dirs path branch_ro branch_rw rest
        | false ↦ elim (build_path_max (path ∷ codes "/" ∷ name ∷ [])) [
          | none ↦ too_long S (pos 1)
          | some member ↦ do
            res ← cow_cp_by copy_dirs member branch_ro branch_rw true
            elim (is_code res 0) [
              | false ↦ pure res
              | true ↦ copy_members copy_dirs path branch_ro branch_rw rest
            ]
        ]
      ]

  copy_entries : DirCopy S → FilePath → ℕ → ℕ → M (World S) ℤ
  copy_entries copy_dirs path branch_ro branch_rw = do
    ro ← branch_at S uopt branch_ro
    elim (build_path_max (ro.path ∷ path ∷ [])) [
      | none ↦ too_long S (pos 1)
      | some from ↦ do
        dp ← opendir S from
        elim dp [
          | none ↦ pure (pos 1)
          | some names ↦ copy_members copy_dirs path branch_ro branch_rw names
        ]
    ]

  -- `depth` bounds the nesting of the directories.
  pub copy_directory : ℕ → FilePath → ℕ → ℕ → M (World S) ℤ
  copy_directory zero path branch_ro branch_rw = fault
  copy_directory (suc depth) path branch_ro branch_rw = do
    res ← path_create S uopt path branch_ro branch_rw
    elim (is_code res 0) [
      | false ↦ pure res
      | true ↦ copy_entries (copy_directory depth) path branch_ro branch_rw
    ]

  pub cow_cp : ℕ → FilePath → ℕ → ℕ → Bool → M (World S) ℤ
  cow_cp depth = cow_cp_by (copy_directory depth)

-- ===== src/Union/Create.antt =====
-- `path_create` of src/cow.c, which makes the directories of a path in a writable branch, and
-- `setfile` of src/cow_utils.c.
pub mod Guarded
use Prim.Native.Nat.{bit_and}
use unionfs_fuse.Prelude.{
  ℕ, ◌+◌, Bool, true, false, not, ◌&&◌, Option, none, some, List, [], ◌∷◌, ◌++◌, length, ltb, ◌==◌,
  if◌then◌else◌,
}
use unionfs_fuse.Prelude.Int.{ℤ, pos, neg, is_code}
use unionfs_fuse.Os.{FilePath, Os, Stat, Call, World, act, stat, malloc, get_errno}
use unionfs_fuse.Os.Monad.{M, pure, fault, ◌>>=◌}
use unionfs_fuse.Text.{pathlen_max, enametoolong, build_path_max, u_dirname}
use unionfs_fuse.Union.{Uopt, too_long, branch_at}
use unionfs_fuse.Union.Hidden.{stops}

abbrev pub eperm : ℕ
eperm = 1

-- Is the result of a call the return value 0?
abbrev pub is_zero : Option ℕ → Bool
is_zero none = false
is_zero (some n) = n == 0

module _ (S : Os) where
  chown_file : FilePath → Stat → M (World S) (Bool × ℕ)
  chown_file path fs = do
    owned ← act S (Call.chown path fs.st_uid fs.st_gid)
    errno ← get_errno S
    let mode = bit_and fs.st_mode 0o7777
    pure (if is_zero owned then (true, mode) else (is_code errno eperm, bit_and mode 0o777))

  -- `true` is 0, `false` is 1; the number is the mode that is left in `fs`. (Without `chflags`.)
  pub setfile : FilePath → Stat → M (World S) (Bool × ℕ)
  setfile path fs = do
    timed ← act S (Call.utime path fs.st_atime fs.st_mtime)
    owner ← chown_file path fs
    moded ← act S (Call.chmod path owner.1)
    pure (is_zero timed && (owner.0 && is_zero moded), owner.1)

-- `sprintf` of a branch path and a path into a buffer of `PATHLEN_MAX` bytes.
sprintf_path : (S : Os) → FilePath → FilePath → M (World S) FilePath
sprintf_path S branch path =
    if ltb (length (branch ++ path)) pathlen_max then pure (branch ++ path) else fault

module _ (S : Os) (uopt : Uopt) where
  -- The mode and the owner that the new directory gets; `none` if the source is gone.
  source_stat : FilePath → ℕ → M (World S) (Option Stat)
  source_stat path nbranch_ro = do
    ro ← branch_at S uopt nbranch_ro
    o_dirp ← sprintf_path S ro.path path
    stat S o_dirp

  copied_dir : FilePath → Stat → M (World S) Bool
  copied_dir dirp buf = do
    made ← act S (Call.mkdir dirp buf.st_mode)
    if is_zero made then (do set ← setfile S dirp buf; pure set.0) else pure false

  -- `true` is 0, `false` is 1.
  do_create : FilePath → ℕ → ℕ → M (World S) Bool
  do_create path nbranch_ro nbranch_rw = do
    rw ← branch_at S uopt nbranch_rw
    dirp ← sprintf_path S rw.path path
    found ← stat S dirp
    elim found [
      | some _ ↦ pure true
      | none ↦
          if nbranch_ro == nbranch_rw
          then (do made ← act S (Call.mkdir dirp 0o770); pure (is_zero made))
          else (do
            buf ← source_stat path nbranch_ro
            elim buf [ none ↦ pure false | some st ↦ copied_dir dirp st ])
    ]

  create_all : List FilePath → ℕ → ℕ → M (World S) ℤ
  create_all [] nbranch_ro nbranch_rw = pure (pos 0)
  create_all (p ∷ rest) nbranch_ro nbranch_rw = do
    res ← do_create p nbranch_ro nbranch_rw
    elim res [ false ↦ pure (pos 1) | true ↦ create_all rest nbranch_ro nbranch_rw ]

  pub path_create : FilePath → ℕ → ℕ → M (World S) ℤ
  path_create path nbranch_ro nbranch_rw = if not uopt.cow_enabled then pure (pos 0) else (do
    rw ← branch_at S uopt nbranch_rw
    elim (build_path_max (rw.path ∷ path ∷ [])) [
      | none ↦ too_long S (neg (pos enametoolong))
      | some p ↦ do
        st ← stat S p
        elim st [ some _ ↦ pure (pos 0) | none ↦ create_all (stops [] path) nbranch_ro nbranch_rw ]
    ])

  pub path_create_cutlast : FilePath → ℕ → ℕ → M (World S) ℤ
  path_create_cutlast path nbranch_ro nbranch_rw = do
    copied ← malloc S (length path + 1)
    if not copied then pure (neg (pos 12)) else (elim (u_dirname path) [
      | none ↦ fault
      | some dname ↦ path_create dname nbranch_ro nbranch_rw
    ])

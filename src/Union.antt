-- ===== src/Union.antt =====
-- The union of the branches: the options of src/opts.h, and the modules of what works on them.
pub mod Guarded
pub mod Hidden
pub mod Find
pub mod Create
pub mod Copy
pub mod Cow
pub mod Writable
pub mod Whiteout
pub mod Datamap
pub mod Remove
pub mod Readdir
use unionfs_fuse.Prelude.{ℕ, zero, suc, Bool, Option, none, some, List, [], ◌∷◌, codes, get_elem?}
use unionfs_fuse.Prelude.Int.{pos}
use unionfs_fuse.Os.{FilePath, Os, World, set_errno}
use unionfs_fuse.Text.{enametoolong}
use unionfs_fuse.Os.Monad.{M, pure, fault, ◌>>=◌}

-- `branch_entry_t`, less the descriptor that only keeps the branch mounted.
pub record BranchEntry : Type 0 where
  pub path : FilePath
  pub path_len : ℕ
  pub rw : Bool

-- The fields of `uopt_t` that the file system operations read. They do not change after the start.
pub record Uopt : Type 0 where
  pub branches : List BranchEntry
  pub cow_enabled : Bool
  pub hide_meta_files : Bool
  pub cowolf_enabled : Bool
  pub cowolf_fsize_th : ℕ

-- `METADIR`, and `METANAME`
abbrev pub metadir : FilePath
metadir = codes ".unionfs/"

abbrev pub metaname : FilePath
metaname = codes ".unionfs"

abbrev pub enoent : ℕ
enoent = 2

abbrev pub eacces : ℕ
eacces = 13

abbrev pub erofs : ℕ
erofs = 30

-- What `BUILD_PATH` does on a path that is too long: `errno` is set, and the return value is not 0.
abbrev pub too_long : (S : Os) {A : Type 0} → A → M (World S) A
too_long S a = do _ ← set_errno S (pos enametoolong); pure a

-- `uopt.branches[i]`; an index behind the array is a fault.
abbrev pub branch_at : (S : Os) → Uopt → ℕ → M (World S) BranchEntry
branch_at S uopt i = elim (get_elem? uopt.branches i) [ none ↦ fault | some b ↦ pure b ]

-- ===== src/Ops/Statfs.antt =====
-- src/fuse_ops.c: `statfs`, which adds up the file systems of the branches.
pub mod Totals
use Prim.Native.Nat.{bit_and}
use unionfs_fuse.Prelude.{
  ℕ, ◌+◌, ◌-◌, ◌*◌, ◌%◌, ◌^◌, Bool, true, false, ◌||◌, List, [], ◌∷◌, ltb, ◌==◌, if◌then◌else◌,
}
use unionfs_fuse.Prelude.Int.{pos, neg}
use unionfs_fuse.Os.{FilePath, Sys, ok, err}
use unionfs_fuse.Union.{BranchEntry}
use unionfs_fuse.Ops.{Reply, reply, refuse}

-- `struct statfs` of the system, the fields that are read
pub record Statfs : Type 0 where
  pub f_bsize : ℕ
  pub f_frsize : ℕ
  pub f_blocks : ℕ
  pub f_bfree : ℕ
  pub f_bavail : ℕ
  pub f_files : ℕ
  pub f_ffree : ℕ
  pub f_namelen : ℕ

-- `struct statvfs`
pub record Statvfs : Type 0 where
  pub f_bsize : ℕ
  pub f_frsize : ℕ
  pub f_blocks : ℕ
  pub f_bfree : ℕ
  pub f_bavail : ℕ
  pub f_files : ℕ
  pub f_ffree : ℕ
  pub f_favail : ℕ
  pub f_fsid : ℕ
  pub f_flag : ℕ
  pub f_namemax : ℕ

abbrev pub st_rdonly : ℕ
st_rdonly = 1

abbrev pub st_nosuid : ℕ
st_nosuid = 2

abbrev pub add_wrap : ℕ → ℕ → ℕ
add_wrap a b = (a + b) % 2 ^ 64

-- Was the device met in a branch before?
abbrev pub met : ℕ → List ℕ → Bool
met d [] = false
met d (e ∷ devno) = d == e || met d devno

-- The flag is removed unless the branch has it.
abbrev pub keep_flag : ℕ → ℕ → ℕ → ℕ
keep_flag flag theirs ours =
    if bit_and theirs flag == 0 then bit_and ours (2 ^ 64 - 1 - flag) else ours

-- The same as a `struct statvfs`, with all that is not there set to 0.
abbrev pub local_of : Statfs → Statvfs
local_of stfs = record {
  f_bsize = stfs.f_bsize;
  f_frsize = if stfs.f_frsize == 0 then stfs.f_bsize else stfs.f_frsize;
  f_blocks = stfs.f_blocks;
  f_bfree = stfs.f_bfree;
  f_bavail = stfs.f_bavail;
  f_files = stfs.f_files;
  f_ffree = stfs.f_ffree;
  f_favail = stfs.f_ffree;
  f_fsid = 0;
  f_flag = 0;
  f_namemax = stfs.f_namelen;
}

-- `statfs` and `st_dev` are the system calls `statfs` and `stat`; `add_scaled a b n m` is the new value
-- of `a` after `a += b * ((double) n / (double) m)`.
module _ (statfs : FilePath → Sys Statfs) (st_dev : FilePath → Sys ℕ)
    (add_scaled : ℕ → ℕ → ℕ → ℕ → ℕ) (omit_ro : Bool) where
  pub statvfs_local : FilePath → Sys Statvfs
  statvfs_local path = elim (statfs path) [ err e ↦ err e | ok stfs ↦ ok (local_of stfs) ]

  -- The counts, for a branch that is writable or not.
  pub add_counts : Bool → Statvfs → Statvfs → Statvfs
  add_counts true stb stbuf = record stbuf {
    f_blocks = add_scaled stbuf.f_blocks stb.f_blocks stb.f_bsize stbuf.f_bsize;
    f_bfree = add_scaled stbuf.f_bfree stb.f_bfree stb.f_bsize stbuf.f_bsize;
    f_bavail = add_scaled stbuf.f_bavail stb.f_bavail stb.f_bsize stbuf.f_bsize;
    f_files = add_wrap stbuf.f_files stb.f_files;
    f_ffree = add_wrap stbuf.f_ffree stb.f_ffree;
    f_favail = add_wrap stbuf.f_favail stb.f_favail;
  }
  add_counts false stb stbuf = if omit_ro then stbuf else record stbuf {
    f_blocks = add_scaled stbuf.f_blocks stb.f_blocks stb.f_bsize stbuf.f_bsize;
    f_files = add_wrap stbuf.f_files stb.f_files;
  }

  pub merge_flags : Statvfs → Statvfs → Statvfs
  merge_flags stb stbuf = record stbuf {
    f_flag = keep_flag st_nosuid stb.f_flag (keep_flag st_rdonly stb.f_flag stbuf.f_flag);
    f_namemax = if ltb stb.f_namemax stbuf.f_namemax then stb.f_namemax else stbuf.f_namemax;
  }

  -- `stbuf` after a branch on a device: the first branch, one on a device that was met, or another.
  pub merge_branch : Bool → Bool → Bool → Statvfs → Statvfs → Statvfs
  merge_branch true seen rw stb stbuf = record stb { f_fsid = stb.f_fsid * 2 ^ 8 % 2 ^ 64 }
  merge_branch false true rw stb stbuf = stbuf
  merge_branch false false rw stb stbuf = merge_flags stb (add_counts rw stb stbuf)

  pub statfs_from : List BranchEntry → Bool → List ℕ → Statvfs → Reply Statvfs
  statfs_from [] first devno stbuf = reply stbuf
  statfs_from (b ∷ rest) first devno stbuf = elim (statvfs_local b.path) [
    | err e ↦ refuse (neg (pos e))
    | ok stb ↦ elim (st_dev b.path) [
      | err e ↦ refuse (neg (pos e))
      | ok dev ↦
          statfs_from rest false (dev ∷ devno) (merge_branch first (met dev devno) b.rw stb stbuf)
    ]
  ]

  -- `stbuf` is what the buffer of the caller holds before.
  pub unionfs_statfs : List BranchEntry → Statvfs → Reply Statvfs
  unionfs_statfs branches stbuf = statfs_from branches true [] stbuf

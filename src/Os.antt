-- ===== src/Os.antt =====
-- The operating system under the program: the system calls that src/ makes, as a parameter.
-- Nothing is assumed of them here; a theorem names what it relies on.
pub mod Monad
pub mod Safe
use unionfs_fuse.Prelude.{ℕ, Option, none, some, List, Bool}
use unionfs_fuse.Prelude.Int.{ℤ, pos}
use Monad.{M}

-- A path or a name: its bytes, with no byte 0.
abbrev pub FilePath : Type 0
FilePath = List ℕ

-- What a call returns: a value, or -1 with `errno` set.
pub data Sys (A : Type 0) : Type 0 where
  ok : A → Sys A
  err : ℕ → Sys A

-- `struct stat`
pub record Stat : Type 0 where
  pub st_mode : ℕ
  pub st_nlink : ℕ
  pub st_uid : ℕ
  pub st_gid : ℕ
  pub st_rdev : ℕ
  pub st_size : ℕ
  pub st_atime : ℕ
  pub st_mtime : ℕ

-- The calls that change something, with their arguments; each returns a number.
pub data Call : Type 0 where
  mkdir : FilePath → ℕ → Call
  open_file : FilePath → ℕ → ℕ → Call
  creat : FilePath → ℕ → Call
  close : ℕ → Call
  unlink : FilePath → Call
  rmdir : FilePath → Call
  rename : FilePath → FilePath → Call
  link : FilePath → FilePath → Call
  symlink : FilePath → FilePath → Call
  chmod : FilePath → ℕ → Call
  fchmod : ℕ → ℕ → Call
  chown : FilePath → ℕ → ℕ → Call
  lchown : FilePath → ℕ → ℕ → Call
  utime : FilePath → ℕ → ℕ → Call
  utimensat : FilePath → List ℕ → Call
  truncate : FilePath → ℕ → Call
  ftruncate : ℕ → ℕ → Call
  mknod : FilePath → ℕ → ℕ → Call
  mkfifo : FilePath → ℕ → Call
  flock : ℕ → ℕ → Call
  pwrite : ℕ → List ℕ → ℕ → Call
  dup : ℕ → Call
  fsync : ℕ → Call
  fdatasync : ℕ → Call
  setxattr : FilePath → FilePath → List ℕ → ℕ → Call
  removexattr : FilePath → FilePath → Call
  write : ℕ → List ℕ → Call
  munmap : ℕ → Call

pub record Os : Type 1 where
  pub State : Type 0
  pub act : Call → State → Sys ℕ × State
  pub lstat : FilePath → State → Sys Stat
  pub stat : FilePath → State → Sys Stat
  pub fstat : ℕ → State → Sys Stat
  pub readlink : FilePath → ℕ → State → Sys FilePath
  pub opendir : FilePath → State → Sys (List FilePath)
  pub pread : ℕ → ℕ → ℕ → State → Sys (List ℕ)
  pub malloc : ℕ → State → Bool
  -- `read` moves the position of the descriptor; `mmap` gives the bytes of the mapping.
  pub read : ℕ → ℕ → State → Sys (List ℕ) × State
  pub mmap : ℕ → ℕ → State → Sys (List ℕ)
  pub getxattr : FilePath → FilePath → ℕ → State → Sys (List ℕ)
  pub listxattr : FilePath → ℕ → State → Sys (List ℕ)
  -- The user and the umask of the process, and the user and group of the request.
  pub uid : State → ℕ
  pub umask : State → ℕ
  pub request_uid : State → ℕ
  pub request_gid : State → ℕ

-- The system's state, and the variable `errno`.
pub record World (S : Os) : Type 0 where
  pub os : S.State
  pub errno : ℤ

module _ (S : Os) where
  -- Store the outcome of a call: `none` is -1, with `errno` set.
  abbrev pub settle : {A : Type 0} → Sys A → S.State → M (World S) (Option A)
  settle (ok a) s w = some (some a, record w { os = s })
  settle (err e) s w = some (none, record { os = s; errno = pos e })

  abbrev pub act : Call → M (World S) (Option ℕ)
  act c w = settle (S.act c w.os).0 (S.act c w.os).1 w

  abbrev pub lstat : FilePath → M (World S) (Option Stat)
  lstat p w = settle (S.lstat p w.os) w.os w

  abbrev pub stat : FilePath → M (World S) (Option Stat)
  stat p w = settle (S.stat p w.os) w.os w

  abbrev pub fstat : ℕ → M (World S) (Option Stat)
  fstat fd w = settle (S.fstat fd w.os) w.os w

  abbrev pub readlink : FilePath → ℕ → M (World S) (Option FilePath)
  readlink p n w = settle (S.readlink p n w.os) w.os w

  abbrev pub opendir : FilePath → M (World S) (Option (List FilePath))
  opendir p w = settle (S.opendir p w.os) w.os w

  abbrev pub pread : ℕ → ℕ → ℕ → M (World S) (Option (List ℕ))
  pread fd n off w = settle (S.pread fd n off w.os) w.os w

  abbrev pub malloc : ℕ → M (World S) Bool
  malloc n w = some (S.malloc n w.os, w)

  abbrev pub read : ℕ → ℕ → M (World S) (Option (List ℕ))
  read fd n w = settle (S.read fd n w.os).0 (S.read fd n w.os).1 w

  abbrev pub mmap : ℕ → ℕ → M (World S) (Option (List ℕ))
  mmap fd n w = settle (S.mmap fd n w.os) w.os w

  abbrev pub getxattr : FilePath → FilePath → ℕ → M (World S) (Option (List ℕ))
  getxattr p name n w = settle (S.getxattr p name n w.os) w.os w

  abbrev pub listxattr : FilePath → ℕ → M (World S) (Option (List ℕ))
  listxattr p n w = settle (S.listxattr p n w.os) w.os w

  -- A value that the system tells without a failure.
  abbrev pub ask : {A : Type 0} → (S.State → A) → M (World S) A
  ask f w = some (f w.os, w)

  abbrev pub get_errno : M (World S) ℤ
  get_errno w = some (w.errno, w)

  abbrev pub set_errno : ℤ → M (World S) (Unit {0})
  set_errno e w = some (tt, record w { errno = e })

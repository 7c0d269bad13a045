-- ===== src/Union/Copy.antt =====
-- src/cow_utils.c: the copies of files, links, pipes and special files, and the empty copy of a
-- sparse file.
pub mod Guarded
pub mod Fuel
use Prim.Native.Nat.{bit_and}
use unionfs_fuse.Prelude.{
  ℕ, zero, suc, ◌-◌, ◌*◌, Bool, true, false, not, ◌&&◌, ◌||◌, Option, none, some, List, [], ◌∷◌,
  length, ltb, leb, ◌==◌, if◌then◌else◌,
}
use unionfs_fuse.Prelude.Int.{is_code}
use unionfs_fuse.Os.{FilePath, Os, Stat, Call, World, act, fstat, readlink, read, mmap, get_errno}
use unionfs_fuse.Os.Monad.{M, pure, fault, ◌>>=◌}
use unionfs_fuse.Text.{pathlen_max}
use unionfs_fuse.Union.Create.{eperm, is_zero, setfile}

-- `struct cow`
pub record Cow : Type 0 where
  pub umask : ℕ
  pub uid : ℕ
  pub from_path : FilePath
  pub stat : Stat
  pub to_path : FilePath

-- Without the set-user-ID, set-group-ID and sticky bits.
lose_bits : ℕ → ℕ
lose_bits st_mode = bit_and st_mode 0o170777

-- `MAXBSIZE`
abbrev pub maxbsize : ℕ
maxbsize = 4096

-- Is the result of a call the given number of bytes?
abbrev is_count : Option ℕ → ℕ → Bool
is_count none n = false
is_count (some m) n = m == n

-- Is it not -1?
abbrev returned : Option ℕ → Bool
returned none = false
returned (some n) = true

module _ (S : Os) where
  -- In this file `true` is 0 and `false` is 1.
  setlink : FilePath → Stat → M (World S) Bool
  setlink path fs = do
    owned ← act S (Call.lchown path fs.st_uid fs.st_gid)
    errno ← get_errno S
    pure (is_zero owned || is_code errno eperm)

  pub copy_link : Cow → M (World S) Bool
  copy_link cow = do
    link ← readlink S cow.from_path (pathlen_max - 1)
    elim link [
      | none ↦ pure false
      | some target ↦ do
        made ← act S (Call.symlink target cow.to_path)
        if is_zero made then setlink cow.to_path cow.stat else pure false
    ]

  -- The end of `copy_fifo` and of `copy_special`.
  set_made : Cow → Bool → M (World S) Bool
  set_made cow made =
      if made then (do set ← setfile S cow.to_path cow.stat; pure set.0) else pure false

  pub copy_fifo : Cow → M (World S) Bool
  copy_fifo cow = do
    made ← act S (Call.mkfifo cow.to_path cow.stat.st_mode)
    set_made cow (is_zero made)

  pub copy_special : Cow → M (World S) Bool
  copy_special cow = do
    made ← act S (Call.mknod cow.to_path cow.stat.st_mode cow.stat.st_rdev)
    set_made cow (is_zero made)

  -- The set-ID bits are given back to a copy with the same user and group; `mode` is what
  -- `setfile` left in the status.
  retain_bits : Cow → ℕ → ℕ → M (World S) Bool
  retain_bits cow to_fd mode =
      if bit_and mode 0o6000 == 0 || not (cow.stat.st_uid == cow.uid) then pure true else (do
        to_stat ← fstat S to_fd
        elim to_stat [
          | none ↦ pure false
          | some st ↦ if not (cow.stat.st_gid == st.st_gid) then pure true else (do
            let kept = bit_and (bit_and mode 0o7777) (0o7777 - bit_and cow.umask 0o7777)
            moded ← act S (Call.fchmod to_fd kept)
            pure (is_zero moded))
        ])

  -- The result of `ftruncate` is not used.
  pub create_sparse_file : Cow → M (World S) Bool
  create_sparse_file cow = do
    opened ← act S (Call.open_file cow.to_path 577 (lose_bits cow.stat.st_mode))
    elim opened [
      | none ↦ pure false
      | some to_fd ↦ do
        _ ← act S (Call.ftruncate to_fd cow.stat.st_size)
        set ← setfile S cow.to_path cow.stat
        kept ← (if set.0 then retain_bits cow to_fd set.1 else pure false)
        closed ← act S (Call.close to_fd)
        pure (kept && is_zero closed)
    ]

  -- What follows a `read` of some bytes; `again` is the rest of the loop.
  copy_chunk : ℕ → M (World S) Bool → List ℕ → M (World S) Bool
  copy_chunk to_fd again [] = pure true
  copy_chunk to_fd again (byte ∷ bytes) = do
    wcount ← act S (Call.write to_fd (byte ∷ bytes))
    elim (is_count wcount (length (byte ∷ bytes))) [ false ↦ pure false | true ↦ again ]

  -- The loop of `read` and `write`, followed for as many rounds as `fuel`; a fault if it goes on.
  pub copy_loop : ℕ → ℕ → ℕ → M (World S) Bool
  copy_loop zero from_fd to_fd = fault
  copy_loop (suc fuel) from_fd to_fd = do
    rcount ← read S from_fd maxbsize
    elim rcount [
      | none ↦ pure false
      | some bytes ↦ copy_chunk to_fd (copy_loop fuel from_fd to_fd) bytes
    ]

  copy_mapped : ℕ → ℕ → ℕ → M (World S) Bool
  copy_mapped size from_fd to_fd = do
    p ← mmap S from_fd size
    elim p [
      | none ↦ pure false
      | some bytes ↦ do
        written ← act S (Call.write to_fd bytes)
        unmapped ← act S (Call.munmap size)
        pure (is_count written size && returned unmapped)
    ]

  copy_bytes : ℕ → Cow → ℕ → ℕ → M (World S) Bool
  copy_bytes fuel cow from_fd to_fd =
      if ltb 0 cow.stat.st_size && leb cow.stat.st_size (8 * 1048576)
      then copy_mapped cow.stat.st_size from_fd to_fd
      else copy_loop fuel from_fd to_fd

  copy_opened : ℕ → Cow → ℕ → ℕ → M (World S) Bool
  copy_opened fuel cow from_fd to_fd = do
    copied ← copy_bytes fuel cow from_fd to_fd
    elim copied [
      | false ↦ do _ ← act S (Call.close from_fd); _ ← act S (Call.close to_fd); pure false
      | true ↦ do
        set ← setfile S cow.to_path cow.stat
        kept ← (if set.0 then retain_bits cow to_fd set.1 else pure false)
        _ ← act S (Call.close from_fd)
        closed ← act S (Call.close to_fd)
        pure (kept && is_zero closed)
    ]

  pub copy_file : ℕ → Cow → M (World S) Bool
  copy_file fuel cow = do
    from ← act S (Call.open_file cow.from_path 0 0)
    elim from [
      | none ↦ pure false
      | some from_fd ↦ do
        to ← act S (Call.open_file cow.to_path 577 (lose_bits cow.stat.st_mode))
        elim to [
          | none ↦ do _ ← act S (Call.close from_fd); pure false
          | some to_fd ↦ copy_opened fuel cow from_fd to_fd
        ]
    ]

-- ===== src/Ops/Files.antt =====
-- src/fuse_ops.c: the handlers of open files.
pub mod Sparse
pub mod Guarded
use Prim.Native.Nat.{bit_and}
use unionfs_fuse.Prelude.{
  ℕ, ◌-◌, ◌%◌, ◌^◌, ltb, Bool, true, false, not, Option, none, some, List, length, take, ◌==◌,
  if◌then◌else◌,
}
use unionfs_fuse.Prelude.Int.{pos, neg}
use unionfs_fuse.Os.{FilePath, Os, Call, World, act, pread, malloc, set_errno}
use unionfs_fuse.Os.Monad.{M, pure, ◌>>=◌}
use unionfs_fuse.Drm.Mem.{Bsearch}
use unionfs_fuse.Cowolf.Data.{CwfInfo, eio, cowolf_read, cowolf_write}
use unionfs_fuse.Union.{Uopt}
use unionfs_fuse.Union.Hidden.{remove_hidden}
use unionfs_fuse.Union.Find.{find_rorw_branch}
use unionfs_fuse.Union.Writable.{find_rw_branch_cutlast}
use unionfs_fuse.Union.Datamap.{cowolf_open, cowolf_close}
use unionfs_fuse.Ops.{
  Reply, reply, refuse, refuse_errno, or_errno, at_branch, call_reply, set_owner,
}

-- `unionfs_fhandle_t`; `none` for a file without a map.
pub record Fhandle : Type 0 where
  pub fd : ℕ
  pub cw : Option CwfInfo

-- `flags & (O_WRONLY | O_RDWR)`
abbrev pub opens_to_write : ℕ → Bool
opens_to_write flags = not (bit_and flags 3 == 0)

module _ (S : Os) where
  fhandle_create : ℕ → Option CwfInfo → M (World S) (Option Fhandle)
  fhandle_create fd cw = do
    fh ← malloc S 16
    if fh
        then pure (some (record { fd = fd; cw = cw }))
        else (do _ ← set_errno S (pos 12); pure none)

  -- The answer with a new handle, or with the file closed again.
  handle_or_close :
      ℕ → Option CwfInfo → (Fhandle → M (World S) (Reply Fhandle)) → M (World S) (Reply Fhandle)
  handle_or_close fd cw k = do
    fh ← fhandle_create fd cw
    elim fh [ none ↦ do _ ← act S (Call.close fd); refuse_errno S | some fh ↦ k fh ]

  pub unionfs_flush : Fhandle → M (World S) (Reply (Unit {0}))
  unionfs_flush fh = do
    fd ← act S (Call.dup fh.fd)
    elim fd [
      | some fd ↦ call_reply S (Call.close fd)
      | none ↦ do
        res ← act S (Call.fsync fh.fd)
        elim res [ none ↦ pure (refuse (neg (pos eio))) | some _ ↦ refuse_errno S ]
    ]

  pub unionfs_fsync : Fhandle → Bool → M (World S) (Reply (Unit {0}))
  unionfs_fsync fh isdatasync =
      call_reply S (if isdatasync then Call.fdatasync fh.fd else Call.fsync fh.fd)

  pub unionfs_release : Fhandle → M (World S) (Reply (Unit {0}))
  unionfs_release fh = do
    res ← act S (Call.close fh.fd)
    or_errno S res (λ _. do _ ← cowolf_close S fh.cw; pure (reply tt))

-- A count of bytes that is assigned to an `int`: its 32 bits, or `none` for -1.
abbrev pub int_result : ℕ → Option ℕ
int_result n = if n % 2 ^ 32 == 2 ^ 32 - 1 then none else some (n % 2 ^ 32)

-- An `int` with these 32 bits, as the return value of a handler.
abbrev pub int_reply : {A : Type 0} → (ℕ → A) → ℕ → Reply A
int_reply value n = if ltb n (2 ^ 31) then reply (value n) else refuse (neg (pos (2 ^ 32 - n)))

-- The answer of a read: as many bytes as the `int` says, or `none` for -1.
abbrev pub read_result : Option (List ℕ) → Option (Reply (List ℕ))
read_result none = none
read_result (some bytes) = elim (int_result (length bytes)) [
  | none ↦ none
  | some n ↦ some (int_reply (λ k. take k bytes) n)
]

-- The answer of a write.
abbrev pub write_result : Option ℕ → Option (Reply ℕ)
write_result none = none
write_result (some n) = elim (int_result n) [ none ↦ none | some r ↦ some (int_reply (λ k. k) r) ]

module _ (S : Os) (bsearch : Bsearch) where
  -- The bytes that are put into the buffer; their number is the return value, an `int`.
  pub unionfs_read : Fhandle → ℕ → ℕ → M (World S) (Reply (List ℕ))
  unionfs_read fh size offset = do
    res ← elim fh.cw [
      | some cw ↦ cowolf_read S bsearch fh.fd cw size offset
      | none ↦ pread S fh.fd size offset
    ]
    or_errno S (read_result res) pure

  -- The map of a sparse file is changed for the whole size, also after a write of fewer bytes.
  abbrev pub write_mapped : Fhandle → ℕ → ℕ → Reply ℕ → M (World S) (Reply ℕ)
  write_mapped fh size offset answer = elim fh.cw [
    | none ↦ pure answer
    | some cw ↦ do
      mapped ← cowolf_write S bsearch cw size offset
      elim mapped [ true ↦ pure answer | false ↦ refuse_errno S ]
  ]

  -- The number of bytes goes through an `int`.
  pub unionfs_write : Fhandle → List ℕ → ℕ → M (World S) (Reply ℕ)
  unionfs_write fh buf offset = do
    res ← act S (Call.pwrite fh.fd buf offset)
    or_errno S (write_result res) (write_mapped fh (length buf) offset)

module _ (S : Os) (uopt : Uopt) (fuel : ℕ) where
  pub unionfs_create : FilePath → ℕ → ℕ → M (World S) (Reply Fhandle)
  unionfs_create path mode flags = do
    i ← find_rw_branch_cutlast S uopt fuel path
    or_errno S i (λ i. at_branch S uopt i path (λ p. do
      res ← act S (Call.open_file p flags 0)
      or_errno S res (λ fd. do
        _ ← set_owner S p
        _ ← act S (Call.fchmod fd mode)
        handle_or_close S fd none
            (λ fh. do _ ← remove_hidden S uopt path (some i); pure (reply fh)))))

  -- The branch to open the path in.
  open_branch : FilePath → ℕ → M (World S) (Option ℕ)
  open_branch path flags =
      if opens_to_write flags
      then find_rw_branch_cutlast S uopt fuel path
      else find_rorw_branch S uopt path

  open_at : FilePath → ℕ → ℕ → FilePath → M (World S) (Reply Fhandle)
  open_at path flags i p = do
    opened ← act S (Call.open_file p flags 0)
    or_errno S opened (λ fd. do
      cw ← cowolf_open S uopt path i flags
      elim cw [
        | none ↦ do _ ← act S (Call.close fd); refuse_errno S
        | some cw ↦ do
          _ ← (if opens_to_write flags then remove_hidden S uopt path (some i) else pure true)
          handle_or_close S fd cw (λ fh. pure (reply fh))
      ])

  pub unionfs_open : FilePath → ℕ → M (World S) (Reply Fhandle)
  unionfs_open path flags = do
    i ← open_branch path flags
    or_errno S i (λ i. at_branch S uopt i path (open_at path flags i))

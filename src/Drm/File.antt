-- ===== src/Drm/File.antt =====
-- src/drm_file.c: the map file of a sparse file, read and written as a whole under a lock.
pub mod Sentinel
pub mod Io
pub mod Refine
pub mod Entries
pub mod Guarded
use Prim.Native.Nat.{bit_or}
use unionfs_fuse.Prelude.{
  ℕ, zero, suc, ◌+◌, ◌-◌, ◌*◌, ◌/◌, ◌%◌, ◌^◌, max, min, Bool, true, false, ◌&&◌, not, Option, none,
  some, List, [], ◌∷◌, length, take, drop, map, ◌==◌, ltb, if◌then◌else◌,
}
use unionfs_fuse.Prelude.Int.{is_code}
use unionfs_fuse.Os.{FilePath, Os, Call, World, act, fstat, pread, malloc, get_errno}
use unionfs_fuse.Os.Monad.{M, pure, fault, ◌>>=◌, ◌>>◌}
use unionfs_fuse.Drm.Mem.{
  DrmmRec, Bsearch, uint64_max, drmm_rec_insert, drmm_rec_truncate, drmm_rec_find_overlaps,
}
use unionfs_fuse.Drm.Codec.{recsz, encode_recs, decode_recs}

-- `struct drmf_entry`
pub record DrmfEntry : Type 0 where
  pub offset : ℕ
  pub len : ℕ

-- The numbers of <fcntl.h>, <sys/file.h> and <errno.h> that the file uses, as on Linux.
abbrev pub o_wronly : ℕ
o_wronly = 1

abbrev pub o_rdwr : ℕ
o_rdwr = 2

abbrev pub o_creat : ℕ
o_creat = 64

abbrev pub o_excl : ℕ
o_excl = 128

abbrev pub o_trunc : ℕ
o_trunc = 512

abbrev pub lock_ex : ℕ
lock_ex = 2

abbrev pub lock_un : ℕ
lock_un = 8

abbrev pub eexist : ℕ
eexist = 17

-- The record at the last index.
abbrev pub last_rec : List DrmmRec → Option DrmmRec
last_rec [] = none
last_rec (r ∷ []) = some r
last_rec (r ∷ s ∷ rs) = last_rec (s ∷ rs)

-- The array without its last record.
abbrev pub but_last : List DrmmRec → List DrmmRec
but_last [] = []
but_last (r ∷ []) = []
but_last (r ∷ s ∷ rs) = r ∷ but_last (s ∷ rs)

-- `true` is the return value 0, `false` any other.
abbrev returned_zero : Option ℕ → Bool
returned_zero none = false
returned_zero (some n) = n == 0

-- `{ offset, offset + len - 1 }` in 64 bits
abbrev pub new_range : ℕ → ℕ → DrmmRec
new_range offset len = record { off_start = offset; off_end = (offset + len + uint64_max) % 2 ^ 64 }

-- An overlapping record, cut to the range.
clip : ℕ → ℕ → DrmmRec → DrmfEntry
clip range_st range_en olap_rec =
    let start = max olap_rec.off_start range_st in
    record { offset = start; len = min olap_rec.off_end range_en - start + 1 }

-- `<` on numbers of type `off_t`, which has a sign.
pub off_less : ℕ → ℕ → Bool
off_less a b = ltb ((a + 2 ^ 63) % 2 ^ 64) ((b + 2 ^ 63) % 2 ^ 64)

-- The map cut at `new_size`, with the record for the bytes beyond the end added anew.
pub truncated : Bsearch → ℕ → List DrmmRec → DrmmRec → List DrmmRec
truncated bsearch new_size recs last =
    drmm_rec_insert bsearch
      (record {
        off_start = if off_less last.off_start new_size then last.off_start else new_size;
        off_end = uint64_max;
      })
      (drmm_rec_truncate bsearch new_size (but_last recs))

module _ (S : Os) where
  pub file_lock : ℕ → M (World S) Bool
  file_lock fd = do res ← act S (Call.flock fd lock_ex); pure (returned_zero res)

  pub file_unlock : ℕ → M (World S) Bool
  file_unlock fd = do res ← act S (Call.flock fd lock_un); pure (returned_zero res)

  -- The test of `buf[num_rec - 1]`, which lies outside the array if there is no record.
  check_sentinel : List DrmmRec → M (World S) (Option (List DrmmRec))
  check_sentinel recs = elim (last_rec recs) [
    | none ↦ fault
    | some r ↦ pure (if r.off_end == uint64_max then some recs else none)
  ]

  -- For a file of less than 2^31 bytes, where `num_rec` and `sz` are exact: `pread` returns no more
  -- than that on Linux.
  load_bytes : ℕ → ℕ → M (World S) (Option (List DrmmRec))
  load_bytes fd size = do
    sz ← pread S fd size 0
    elim sz [
      | none ↦ pure none
      | some bytes ↦
          if length bytes == size
          then check_sentinel (decode_recs (size / recsz) bytes)
          else pure none
    ]

  -- `none` is -1.
  pub file_load : ℕ → Bool → M (World S) (Option (List DrmmRec))
  file_load fd extra_rec_space = do
    fst ← fstat S fd
    elim fst [
      | none ↦ pure none
      | some st ↦ if not (st.st_size % recsz == 0) then pure none else do
        buf ← malloc S (st.st_size + (if extra_rec_space then recsz else 0))
        if buf then load_bytes fd st.st_size else pure none
    ]

  save_bytes : ℕ → List DrmmRec → M (World S) Bool
  save_bytes fd recs = do
    let sz : ℕ = length recs * recsz
    written ← act S (Call.pwrite fd (encode_recs recs) 0)
    elim written [
      | none ↦ pure false
      | some n ↦
          if not (n == sz)
          then pure false
          else do res ← act S (Call.ftruncate fd sz); pure (returned_zero res)
    ]

  -- A missing sentinel is only logged; the array must have a last record.
  pub file_save : ℕ → List DrmmRec → M (World S) Bool
  file_save fd recs = elim (last_rec recs) [ none ↦ fault | some _ ↦ save_bytes fd recs ]

  create_locked : ℕ → ℕ → M (World S) Bool
  create_locked fd size_initial = do
    sz ← act S (
        Call.pwrite fd
          (encode_recs (record { off_start = size_initial; off_end = uint64_max } ∷ [])) 0)
    _ ← file_unlock fd
    pure (elim sz [ none ↦ false | some n ↦ n == recsz ])

  pub drmf_create : FilePath → ℕ → M (World S) Bool
  drmf_create path size_initial = do
    fd ← act S (Call.open_file path (o_wronly + o_creat + o_excl + o_trunc) 384)
    elim fd [
      | none ↦ do errno ← get_errno S; pure (is_code errno eexist)
      | some fd ↦ do
        locked ← file_lock fd
        ret ← (if locked then create_locked fd size_initial else pure false)
        closed ← act S (Call.close fd)
        pure (ret && returned_zero closed)
    ]

  pub drmf_destroy : FilePath → M (World S) Bool
  drmf_destroy path = do res ← act S (Call.unlink path); pure (returned_zero res)

  pub drmf_rename : FilePath → FilePath → M (World S) Bool
  drmf_rename oldpath newpath = do
    res ← act S (Call.rename oldpath newpath)
    pure (returned_zero res)

  -- `some fd` with return value 0; otherwise `none`, and the return value is `errno`.
  pub drmf_open : FilePath → M (World S) (Option ℕ)
  drmf_open mpath = act S (Call.open_file mpath o_rdwr 0)

  pub drmf_close : ℕ → M (World S) (Unit {0})
  drmf_close map_fd = do _ ← act S (Call.close map_fd); pure tt

  -- Save, release the buffer and the lock: the end of `drmf_add_entry`.
  pub save_unlock : ℕ → List DrmmRec → M (World S) Bool
  save_unlock map_fd recs = do saved ← file_save map_fd recs; _ ← file_unlock map_fd; pure saved

  unlock_fail : {A : Type 0} → ℕ → A → M (World S) A
  unlock_fail map_fd res = do _ ← file_unlock map_fd; pure res

  module _ (bsearch : Bsearch) where
    pub drmf_add_entry : ℕ → ℕ → ℕ → M (World S) Bool
    drmf_add_entry map_fd offset len = do
      locked ← file_lock map_fd
      elim locked [
        | false ↦ pure false
        | true ↦ do
          loaded ← file_load map_fd true
          elim loaded [
            | none ↦ unlock_fail map_fd false
            | some recs ↦ save_unlock map_fd (drmm_rec_insert bsearch (new_range offset len) recs)
          ]
      ]

    entries_of : ℕ → ℕ → ℕ × ℕ → List DrmmRec → M (World S) (Option (List DrmfEntry))
    entries_of offset len (olap_cnt, olap_indx_first) recs =
        if olap_cnt == 0 then pure (some []) else (do
          dm_tmp ← malloc S (16 * olap_cnt)
          pure (
              if dm_tmp
              then some (
                  map (clip offset ((offset + len + uint64_max) % 2 ^ 64))
                    (take olap_cnt (drop olap_indx_first recs)))
              else none))

    -- `some entries` with return value 0, `none` with -1.
    pub drmf_get_entries : ℕ → ℕ → ℕ → M (World S) (Option (List DrmfEntry))
    drmf_get_entries map_fd offset len = if len == 0 then pure (some []) else (do
      locked ← file_lock map_fd
      elim locked [
        | false ↦ pure none
        | true ↦ do
          loaded ← file_load map_fd false
          _ ← file_unlock map_fd
          elim loaded [
            | none ↦ pure none
            | some recs ↦
                entries_of offset len (drmm_rec_find_overlaps bsearch offset len recs) recs
          ]
      ])

    trunc_loaded : ℕ → ℕ → List DrmmRec → M (World S) Bool
    trunc_loaded map_fd new_size recs = elim (last_rec recs) [
      | none ↦ fault
      | some last ↦ save_unlock map_fd (truncated bsearch new_size recs last)
    ]

    pub drmf_trunc : ℕ → ℕ → M (World S) Bool
    drmf_trunc map_fd new_size = do
      locked ← file_lock map_fd
      elim locked [
        | false ↦ pure false
        | true ↦ do
          loaded ← file_load map_fd true
          elim loaded [
            | none ↦ unlock_fail map_fd false
            | some recs ↦ trunc_loaded map_fd new_size recs
          ]
      ]

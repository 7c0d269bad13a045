-- ===== src/Cowolf/Data.antt =====
-- `cowolf_read` and `cowolf_write` of src/cowolf.c.
pub mod View
pub mod Read
pub mod Write
use unionfs_fuse.Prelude.{
  ℕ, ◌+◌, ◌-◌, ◌%◌, ◌^◌, Bool, true, false, Option, none, some, List, [], ◌∷◌, ◌++◌, length, ltb,
  ◌==◌, if◌then◌else◌,
}
use unionfs_fuse.Prelude.Int.{pos}
use unionfs_fuse.Os.{Os, World, pread, set_errno}
use unionfs_fuse.Os.Monad.{M, pure, ◌>>=◌, ◌>>◌}
use unionfs_fuse.Drm.Mem.{Bsearch}
use unionfs_fuse.Drm.File.{DrmfEntry, drmf_add_entry, drmf_get_entries}

-- `struct cwf_info` with `cwf_on` set.
pub record CwfInfo : Type 0 where
  pub lower_fd : ℕ
  pub drmap_fd : ℕ

abbrev pub eio : ℕ
eio = 5

module _ (S : Os) where
  -- A `pread` that is made only if there is something to read.
  read_segment : ℕ → ℕ → ℕ → M (World S) (Option (List ℕ))
  read_segment fd size start = if size == 0 then pure (some []) else pread S fd size start

  -- The loop: `mpe` is the first of the entries, or NULL behind the last. The bytes `out` are in
  -- the buffer already. `none` is -1.
  read_loop : ℕ → ℕ → List DrmfEntry → ℕ → ℕ → List ℕ → M (World S) (Option (List ℕ))
  read_loop upper_fd lower_fd [] start remain out = if remain == 0 then pure (some out) else (do
    lower ← read_segment lower_fd remain start
    elim lower [ none ↦ pure none | some bs ↦ pure (some (out ++ bs)) ])
  read_loop upper_fd lower_fd (mpe ∷ rest) start remain out =
      if remain == 0 then pure (some out) else (do
        let lower_sz = (mpe.offset + 2 ^ 64 - start) % 2 ^ 64
        lower ← read_segment lower_fd lower_sz start
        elim lower [
          | none ↦ pure none
          | some bs ↦ if ltb (length bs) lower_sz then pure (some (out ++ bs)) else (do
            upper ← read_segment upper_fd mpe.len (start + length bs)
            elim upper [
              | none ↦ pure none
              | some cs ↦
                  let more =
                    read_loop upper_fd lower_fd rest (start + length bs + length cs)
                      ((remain + 2 ^ 65 - length bs - length cs) % 2 ^ 64) (out ++ (bs ++ cs)) in
                  if ltb (length cs) mpe.len then pure (some (out ++ (bs ++ cs))) else more
            ])
        ])

module _ (S : Os) (bsearch : Bsearch) where
  -- The bytes that are put into the buffer, as many as the return value; `none` is -1.
  pub cowolf_read : ℕ → CwfInfo → ℕ → ℕ → M (World S) (Option (List ℕ))
  cowolf_read upper_fd cw size offset = do
    entries ← drmf_get_entries S bsearch cw.drmap_fd offset size
    elim entries [
      | none ↦ do _ ← set_errno S (pos eio); pure none
      | some map ↦ read_loop S upper_fd cw.lower_fd map offset size []
    ]

  pub cowolf_write : CwfInfo → ℕ → ℕ → M (World S) Bool
  cowolf_write cw size offset = do
    added ← drmf_add_entry S bsearch cw.drmap_fd offset size
    elim added [ false ↦ do _ ← set_errno S (pos eio); pure false | true ↦ pure true ]

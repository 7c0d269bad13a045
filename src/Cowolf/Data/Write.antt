-- ===== src/Cowolf/Data/Write.antt =====
-- `cowolf_write` of src/cowolf.c, and a later `cowolf_read`.
use unionfs_fuse.Os.Monad.{◌>>=◌}
use unionfs_fuse.Prelude.{ℕ, ◌+◌, ◌^◌, ◌≤◌, ◌<◌, ◌≡◌, ◌∙◌, Bool, true, ◌||◌, some, List, arith}
use unionfs_fuse.Os.{Os, Call, World}
use unionfs_fuse.Drm.Mem.{Bsearch, DrmmRec}
use unionfs_fuse.Drm.Mem.Search.{IsBsearch}
use unionfs_fuse.Drm.File.Io.{IsRegular}
use unionfs_fuse.Drm.File.Refine.{Holds, in_range, after, drmf_add_entry_run}
use unionfs_fuse.Cowolf.Data.{CwfInfo, cowolf_read, cowolf_write}
use unionfs_fuse.Cowolf.Data.View.{view}
use unionfs_fuse.Cowolf.Data.Read.{IsReadable, Backed, cowolf_read-view}

-- What is done to the map file does not change the file `file`.
pub record IsApart (S : Os) (map_fd : ℕ) (file : S.State → List ℕ) : Type 0 where
  pub flock : (k : ℕ) (s : S.State) → file (S.act (Call.flock map_fd k) s).1 ≡ file s
  pub pwrite : (bs : List ℕ) (s : S.State) → file (S.act (Call.pwrite map_fd bs 0) s).1 ≡ file s
  pub ftruncate : (n : ℕ) (s : S.State) → file (S.act (Call.ftruncate map_fd n) s).1 ≡ file s

after-IsApart :
    (S : Os) (map_fd : ℕ) (file : S.State → List ℕ)
    → IsApart S map_fd file
    → (recs : List DrmmRec) (s : S.State) → file (after S map_fd recs s) ≡ file s
after-IsApart S map_fd file K recs s = K.flock _ _ ∙ K.ftruncate _ _ ∙ K.pwrite _ _ ∙ K.flock _ _

module _ (S : Os) (bsearch : Bsearch) (L : IsBsearch bsearch) (upper_fd : ℕ) (cw : CwfInfo)
    (upper lower content : S.State → List ℕ) (U : IsReadable S upper_fd upper)
    (B : IsReadable S cw.lower_fd lower) (R : IsRegular S cw.drmap_fd content)
    (K : IsApart S cw.drmap_fd upper) (J : IsApart S cw.drmap_fd lower) (f : ℕ → Bool) (w : World S)
    (H : Holds (content w.os) f) where
  -- Without input or output errors, `cowolf_write` of a range that is not empty returns 0, and
  -- `cowolf_read` then returns the whole range that it is asked for: the bytes of the written range
  -- and those that were mapped before from the upper file, all others from the lower file. This is
  -- for a size to read that a C `int` holds, and where each byte is in the file that it is read
  -- from.
  pub cowolf_write-read :
      (size offset size' offset' : ℕ)
      → 0 < size
      → offset + size ≤ 2 ^ 64
      → size' < 2 ^ 31
      → offset' + size' ≤ 2 ^ 64
      → Backed
          (λ p. f p || in_range offset size p)
          (upper w.os)
          (lower w.os)
          offset'
          (offset' + size')
      → (w1 : World S) × (w2 : World S) × (cowolf_write S bsearch cw size offset w
          ≡ some (true, w1))
        × (cowolf_read S bsearch upper_fd cw size' offset' w1
            ≡ some (
              some (
                  view
                    (λ p. f p || in_range offset size p)
                    (upper w.os)
                    (lower w.os)
                    offset'
                    size'),
              w2,
            ))
  unfolding cowolf_write ◌>>=◌
  cowolf_write-read size offset size' offset' z b i b' k =
      let g = λ (p : ℕ). f p || in_range offset size p in
      let (w1, e, h, o) =
        drmf_add_entry_run S bsearch L cw.drmap_fd content R f w H offset size z b in
      let eu : upper w1.os ≡ upper w.os = rw o (after-IsApart S cw.drmap_fd upper K _ w.os) in
      let el : lower w1.os ≡ lower w.os = rw o (after-IsApart S cw.drmap_fd lower J _ w.os) in
      let (w2, r) =
        cowolf_read-view S bsearch L upper_fd cw upper lower content U B R g w1 h size' offset' i b'
          (rw (eu, el) k) in
      (w1, w2, ground (arith, e), rw (eu, el) at r)

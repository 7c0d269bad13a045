-- ===== src/Cowolf/Data/Read.antt =====
-- `cowolf_read` of src/cowolf.c merges the two files by the map.
use unionfs_fuse.Os.Monad.{◌>>=◌}
use unionfs_fuse.Prelude.{
  ℕ, zero, suc, ◌+◌, ◌-◌, ◌%◌, ◌^◌, ◌≤◌, ◌<◌, ◌≡◌, refl, ◌∙◌, Bool, true, false, some, List, [],
  ◌∷◌, ◌++◌, length, take, drop, ◌==◌, arith,
}
use mathlib.Core.List.{append-nil, append_assoc}
use unionfs_fuse.Os.{Os, ok, Call, World}
use unionfs_fuse.Drm.Mem.{Bsearch}
use unionfs_fuse.Drm.Mem.Search.{IsBsearch}
use unionfs_fuse.Drm.File.{DrmfEntry}
use unionfs_fuse.Drm.File.Io.{IsRegular}
use unionfs_fuse.Drm.File.Refine.{Holds}
use unionfs_fuse.Drm.File.Entries.{Tiles, drmf_get_entries-Tiles, drmf_get_entries-zero}
use unionfs_fuse.Cowolf.Data.{CwfInfo, read_segment, read_loop, cowolf_read}
use unionfs_fuse.Cowolf.Data.View.{view, length-view, view-add, view_unmapped, view_mapped}

-- `pread` on `fd` returns the bytes asked for, as far as the file `file` has them.
pub record IsReadable (S : Os) (fd : ℕ) (file : S.State → List ℕ) : Type 0 where
  pub pread : (n off : ℕ) (s : S.State) → S.pread fd n off s ≡ ok (take n (drop off (file s)))
  pub flock-file : (map_fd k : ℕ) (s : S.State) → file (S.act (Call.flock map_fd k) s).1 ≡ file s

-- Every unmapped byte of the range is in the lower file, every mapped one in the upper file.
abbrev pub Backed : (ℕ → Bool) → List ℕ → List ℕ → ℕ → ℕ → Type 0
Backed f upper lower start end =
    (p : ℕ)
    → start ≤ p
    → p < end
    → (f p ≡ false → p < length lower) × (f p ≡ true → p < length upper)

module _ (S : Os) (f : ℕ → Bool) (upper_fd lower_fd : ℕ) (upper lower : S.State → List ℕ)
    (U : IsReadable S upper_fd upper) (B : IsReadable S lower_fd lower) (w : World S) where
  abbrev see : ℕ → ℕ → List ℕ
  see start n = view f (upper w.os) (lower w.os) start n

  read_lower :
      (start n : ℕ)
      → ((p : ℕ) → start ≤ p → p < start + n → (f p ≡ false) × (p < length (lower w.os)))
      → read_segment S lower_fd n start w ≡ some (some (see start n), w)
  unfolding read_segment view ◌>>=◌
  read_lower start zero h = refl
  read_lower start (suc n) h =
      ground (
        arith,
        B.pread (suc n) start w.os,
        view_unmapped f (upper w.os) (lower w.os) (suc n) start h,
      )

  read_upper :
      (start n : ℕ)
      → ((p : ℕ) → start ≤ p → p < start + n → (f p ≡ true) × (p < length (upper w.os)))
      → read_segment S upper_fd n start w ≡ some (some (see start n), w)
  unfolding read_segment view ◌>>=◌
  read_upper start zero h = refl
  read_upper start (suc n) h =
      ground
        (arith, U.pread (suc n) start w.os, view_mapped f (upper w.os) (lower w.os) (suc n) start h)

  read_loop-Tiles :
      (es : List DrmfEntry) (start end remain : ℕ) (out : List ℕ)
      → Tiles f start end es
      → end ≤ 2 ^ 64
      → start + remain ≡ end
      → Backed f (upper w.os) (lower w.os) start end
      → read_loop S upper_fd lower_fd es start remain out w
        ≡ some (some (out ++ see start remain), w)
  unfolding read_loop view ◌>>=◌
  read_loop-Tiles [] start end zero out t b r k = ground (arith, append-nil out)
  read_loop-Tiles [] start end (suc n) out t b r k =
      let some_left : (suc n == 0) ≡ false = ground arith in
      let low =
        read_lower start (suc n)
          (λ p u v. (t.1 p u (omega arith), (k p u (omega arith)).0 (t.1 p u (omega arith)))) in
      rw some_left (ground (arith, low))
  read_loop-Tiles (e ∷ es) start end remain out t b r k =
      let some_left : (remain == 0) ≡ false = ground (arith, t.1, t.2, t.0) in
      let lower_sz = e.offset - start in
      let lsz : (e.offset + 2 ^ 64 - start) % 2 ^ 64 ≡ lower_sz = omega (arith, t.0, t.1, t.2) in
      let rest = remain - lower_sz - e.len in
      let back : start + lower_sz ≡ e.offset = omega (arith, t.0) in
      let low = read_lower start lower_sz (λ p u v.
        (t.3 p u (omega arith), (k p u (omega (arith, t.2))).0 (t.3 p u (omega arith)))) in
      let up =
        read_upper e.offset e.len
          (λ p u v. (t.4 p u v, (k p (omega (arith, t.0)) (omega (arith, t.2))).1 (t.4 p u v))) in
      let ih =
        read_loop-Tiles es (e.offset + e.len) end rest
          (out ++ (see start lower_sz ++ see e.offset e.len)) t.5 b (omega (arith, t.0, t.2))
          (λ p u v. k p (omega (arith, t.0)) v) in
      let len1 = length-view f (upper w.os) (lower w.os) start lower_sz in
      let len2 = length-view f (upper w.os) (lower w.os) e.offset e.len in
      let left : (remain + 2 ^ 65 - lower_sz - e.len) % 2 ^ 64 ≡ rest = omega (arith, t.0, t.2) in
      let split1 =
        view-add f (upper w.os) (lower w.os) lower_sz (e.len + rest) remain start e.offset
          (omega (arith, t.0, t.2)) (omega (arith, t.0)) in
      let split2 =
        view-add f (upper w.os) (lower w.os) e.len rest (e.len + rest) e.offset (e.offset + e.len)
          refl refl in
      let joined : (out ++ (see start lower_sz ++ see e.offset e.len))
            ++ see (e.offset + e.len) rest
          ≡ out ++ see start remain =
        rw (split1, split2) (simp append_assoc) in
      ground (arith, some_left, lsz, low, len1, back, up, len2, left, ih, joined)

module _ (S : Os) (bsearch : Bsearch) (L : IsBsearch bsearch) (upper_fd : ℕ) (cw : CwfInfo)
    (upper lower content : S.State → List ℕ) (U : IsReadable S upper_fd upper)
    (B : IsReadable S cw.lower_fd lower) (R : IsRegular S cw.drmap_fd content) (f : ℕ → Bool)
    (w : World S) (H : Holds (content w.os) f) where
  -- Without input or output errors, for a size that a C `int` holds, and where each byte of the
  -- range is in the file that the map says, `cowolf_read` returns the whole range: mapped bytes
  -- from the upper file and all others from the lower file.
  pub cowolf_read-view :
      (size offset : ℕ)
      → size < 2 ^ 31
      → offset + size ≤ 2 ^ 64
      → Backed f (upper w.os) (lower w.os) offset (offset + size)
      → (w' : World S) × (cowolf_read S bsearch upper_fd cw size offset w
          ≡ some (some (view f (upper w.os) (lower w.os) offset size), w'))
  unfolding cowolf_read view read_loop ◌>>=◌
  cowolf_read-view zero offset i b k =
      (w, ground (arith, drmf_get_entries-zero S bsearch cw.drmap_fd offset w))
  cowolf_read-view (suc n) offset i b k =
      let (w1, es, run, c, o, t) =
        drmf_get_entries-Tiles S bsearch L cw.drmap_fd content R f w H offset (suc n) (omega arith)
          b in
      let eu : upper w1.os ≡ upper w.os = rw o (U.flock-file _ _ _ ∙ U.flock-file _ _ _) in
      let el : lower w1.os ≡ lower w.os = rw o (B.flock-file _ _ _ ∙ B.flock-file _ _ _) in
      let loop =
        read_loop-Tiles S f upper_fd cw.lower_fd upper lower U B w1 es offset (offset + suc n)
          (suc n) [] t b refl (rw (eu, el) k) in
      let loop' = rw (eu, el) at loop in (w1, ground (arith, run, loop'))

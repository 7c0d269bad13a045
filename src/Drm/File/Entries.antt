-- ===== src/Drm/File/Entries.antt =====
-- `drmf_get_entries` of src/drm_file.c lists the mapped parts of a range.
use unionfs_fuse.Os.Monad.{◌>>=◌}
use unionfs_fuse.Prelude.{
  ℕ, ◌+◌, ◌-◌, ◌*◌, ◌%◌, ◌^◌, max, min, ◌≤◌, ◌<◌, ◌≡◌, refl, ◌∙◌, sym, Bool, true, false, inl, inr,
  some, List, [], ◌∷◌, map, leb, Bool-cases, ◌==◌, arith,
}
use unionfs_fuse.Os.{Os, Call, World}
use unionfs_fuse.Drm.Mem.{DrmmRec, Bsearch, uint64_max}
use unionfs_fuse.Drm.Mem.Ranges.{mapped, IsMap}
use unionfs_fuse.Drm.Mem.Search.{IsBsearch}
use unionfs_fuse.Drm.Mem.Truncate.{mapped-below}
use unionfs_fuse.Drm.Mem.Overlaps.{
  overlapping, overlapping-above, Chosen, drmm_rec_find_overlaps-Chosen,
}
use unionfs_fuse.Drm.File.{lock_ex, lock_un, DrmfEntry, clip, entries_of, drmf_get_entries}
use unionfs_fuse.Drm.File.Io.{IsRegular, file_lock_lem, file_unlock_lem, file_load_lem}
use unionfs_fuse.Drm.File.Refine.{Holds}

-- From `start` to `end` the entries are exactly the mapped bytes of `f`: in order, not empty, and
-- none maps a byte between two of them.
abbrev pub Tiles : (ℕ → Bool) → ℕ → ℕ → List DrmfEntry → Type 0
Tiles f start end [] = (start ≤ end) × ((p : ℕ) → start ≤ p → p < end → f p ≡ false)
Tiles f start end (e ∷ es) =
    (start ≤ e.offset)
    × (0 < e.len)
    × (e.offset + e.len ≤ end)
    × ((p : ℕ) → start ≤ p → p < e.offset → f p ≡ false)
    × ((p : ℕ) → e.offset ≤ p → p < e.offset + e.len → f p ≡ true)
    × Tiles f (e.offset + e.len) end es

module _ (f : ℕ → Bool) (offset range_end end : ℕ) (e : end ≡ range_end + 1)
    (o : offset ≤ range_end) where
  clip-Tiles :
      (lo cur : ℕ) (rs : List DrmmRec)
      → IsMap lo rs
      → offset ≤ cur
      → cur ≤ max offset lo
      → cur ≤ end
      → ((p : ℕ) → cur ≤ p → p < end → f p ≡ mapped rs p)
      → Tiles f cur end (map (clip offset range_end) (overlapping offset range_end rs))
  unfolding clip ◌>>=◌
  clip-Tiles lo cur [] m a b c h = (c, h)
  clip-Tiles lo cur (r ∷ rs) m a b c h = elim (Bool-cases (leb r.off_start range_end)) [
    | inl g ↦ elim (Bool-cases (leb offset r.off_end)) [
      | inl k ↦
          let g' : r.off_start ≤ range_end = ground arith in
          let k' : offset ≤ r.off_end = ground arith in
          let next = min r.off_end range_end + 1 in
          let start = max r.off_start offset in
          let rest =
            clip-Tiles (r.off_end + 2) next rs m.2 (ground arith) (ground arith) (omega arith)
              (λ p u v. ground (arith, h p)) in
          let joined : start + (min r.off_end range_end - start + 1) ≡ next =
            omega (arith, g', k') in
          rw (g, k)
            (
              ground arith,
              omega arith,
              omega (arith, g', k'),
              (λ p u v. ground (arith, h p, mapped-below r.off_start p (r ∷ rs))),
              (λ p u v. ground (arith, h p)),
              rw joined rest,
            )
      | inr k ↦
          rw (g, k)
            (clip-Tiles (r.off_end + 2) cur rs m.2 a (ground arith) c
              (λ p u v. ground (arith, h p)))
    ]
    | inr g ↦
        rw (g, overlapping-above offset range_end (r.off_end + 2) rs (ground arith) m.2)
          (c, λ p u v. ground (arith, h p, mapped-below (range_end + 1) p (r ∷ rs)))
  ]

-- The entries that `drmf_get_entries` computes from a map for a range that is not empty.
abbrev range_entries : List DrmmRec → ℕ → ℕ → List DrmfEntry
range_entries recs offset len =
    map (clip offset (offset + len - 1)) (overlapping offset (offset + len - 1) recs)

module _ (S : Os) (bsearch : Bsearch) (L : IsBsearch bsearch) (fd : ℕ) (content : S.State → List ℕ)
    (R : IsRegular S fd content) (f : ℕ → Bool) (w : World S) (H : Holds (content w.os) f) where
  entries_of_lem :
      (w : World S) (offset len : ℕ) (met recs : List DrmmRec) (r : ℕ × ℕ)
      → 0 < len
      → offset + len ≤ 2 ^ 64
      → Chosen met recs r
      → entries_of S bsearch offset len r recs w
        ≡ some (some (map (clip offset (offset + len - 1)) met), w)
  unfolding entries_of ◌>>=◌
  entries_of_lem w offset len [] recs (c, i) z b h = ground (arith, h.0)
  entries_of_lem w offset len (m ∷ ms) recs (c, i) z b h =
      let end : (offset + len + uint64_max) % 2 ^ 64 ≡ offset + len - 1 = omega arith in
      let full : (c == 0) ≡ false = ground (arith, h.0) in
      rw (full, end, h.1) (ground (arith, R.malloc (16 * c) w.os))

  -- On a map file without input or output errors, `drmf_get_entries` of a range that is not empty
  -- returns 0 with entries that are exactly the mapped parts of the range, in order, and leaves
  -- the map file as it is.
  pub drmf_get_entries-Tiles :
      (offset len : ℕ)
      → 0 < len
      → offset + len ≤ 2 ^ 64
      → (w' : World S) × (es : List DrmfEntry) × (drmf_get_entries S bsearch fd offset len w
          ≡ some (some es, w'))
        × (content w'.os ≡ content w.os)
        × (w'.os ≡ (S.act (Call.flock fd lock_un) (S.act (Call.flock fd lock_ex) w.os).1).1)
        × Tiles f offset (offset + len) es
  unfolding drmf_get_entries ◌>>=◌
  drmf_get_entries-Tiles offset len z b =
      let (w1, e1, c1, o1) = file_lock_lem S fd content R w in
      let e2 = file_load_lem S fd content R false H.recs w1 (c1 ∙ H.stored) H.in_order H.ended in
      let (w2, e3, c3, o3) = file_unlock_lem S fd content R w1 in
      let chosen = drmm_rec_find_overlaps-Chosen bsearch L offset len H.recs z b H.in_order in
      let run =
        entries_of_lem w2 offset len (overlapping offset (offset + len - 1) H.recs) H.recs _ z b
          chosen in
      (
        w2,
        range_entries H.recs offset len,
        ground (arith, e1, e2, e3, run),
        c3 ∙ c1,
        o3 ∙ rw o1,
        clip-Tiles f offset (offset + len - 1) (offset + len) (omega arith) (omega arith) 0 offset
            H.recs H.in_order (omega arith) (omega arith) (omega arith)
            (λ p u v. sym (H.reads p (omega arith))),
      )

-- For an empty range nothing is read.
pub drmf_get_entries-zero :
    (S : Os) (bsearch : Bsearch) (fd offset : ℕ) (w : World S)
    → drmf_get_entries S bsearch fd offset 0 w ≡ some (some [], w)
unfolding drmf_get_entries ◌>>=◌
drmf_get_entries-zero S bsearch fd offset w = refl

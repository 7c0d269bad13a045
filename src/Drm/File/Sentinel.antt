-- ===== src/Drm/File/Sentinel.antt =====
-- The maps that src/drm_file.c accepts: well-formed, and the last record ends at `UINT64_MAX`.
use unionfs_fuse.Prelude.{
  ℕ, ◌^◌, ◌+◌, min, ◌≤◌, ◌<◌, ◌≡◌, refl, ap, true, false, ◌&&◌, ◌||◌, some, List, [], ◌∷◌, leb,
  if◌then◌else◌, arith,
}
use unionfs_fuse.Drm.Mem.{DrmmRec, Bsearch, uint64_max, drmm_rec_insert, drmm_rec_truncate}
use unionfs_fuse.Drm.Mem.Ranges.{covers, mapped, IsMap}
use unionfs_fuse.Drm.Mem.Search.{IsBsearch}
use unionfs_fuse.Drm.Mem.Insert.{drmm_rec_insert-IsMap, drmm_rec_insert-mapped}
use unionfs_fuse.Drm.Mem.Truncate.{drmm_rec_truncate-IsMap, drmm_rec_truncate-mapped}
use unionfs_fuse.Drm.Codec.{AllFit}
use unionfs_fuse.Drm.File.{last_rec, but_last, off_less, truncated}

-- The last record exists and ends at `UINT64_MAX`.
abbrev pub HasSentinel : List DrmmRec → Type 0
HasSentinel [] = ⊥
HasSentinel (r ∷ []) = r.off_end ≡ uint64_max
HasSentinel (r ∷ s ∷ rs) = HasSentinel (s ∷ rs)

-- `truncated` with an unsigned comparison.
pub truncated_min : Bsearch → ℕ → List DrmmRec → DrmmRec → List DrmmRec
truncated_min bsearch new_size recs last =
    drmm_rec_insert bsearch
      (record { off_start = min last.off_start new_size; off_end = uint64_max })
      (drmm_rec_truncate bsearch new_size (but_last recs))

pub truncated_unsigned :
    (bsearch : Bsearch) (new_size : ℕ) (recs : List DrmmRec) (last : DrmmRec)
    → new_size < 2 ^ 63
    → last.off_start < 2 ^ 63
    → truncated bsearch new_size recs last ≡ truncated_min bsearch new_size recs last
unfolding truncated truncated_min off_less
truncated_unsigned bsearch new_size recs last h k =
    let e : (if off_less last.off_start new_size then last.off_start else new_size)
        ≡ min last.off_start new_size =
      ground arith in
    ap
      (λ t.
        drmm_rec_insert bsearch (record { off_start = t; off_end = uint64_max })
          (drmm_rec_truncate bsearch new_size (but_last recs)))
      e

pub HasSentinel-last_rec :
    (recs : List DrmmRec)
    → HasSentinel recs
    → (r : DrmmRec) × (last_rec recs ≡ some r) × (r.off_end ≡ uint64_max)
HasSentinel-last_rec [] h = absurd h
HasSentinel-last_rec (r ∷ []) h = (r, refl, h)
HasSentinel-last_rec (r ∷ s ∷ rs) h = HasSentinel-last_rec (s ∷ rs) h

HasSentinel-mapped :
    (lo : ℕ) (recs : List DrmmRec)
    → IsMap lo recs
    → HasSentinel recs
    → (lo ≤ uint64_max) × (mapped recs uint64_max ≡ true)
HasSentinel-mapped lo [] m h = absurd h
HasSentinel-mapped lo (r ∷ []) m h = ground arith
HasSentinel-mapped lo (r ∷ s ∷ rs) m h =
    let ih = HasSentinel-mapped (r.off_end + 2) (s ∷ rs) m.2 h in
    (omega (arith, ih.0), ground (arith, ih.1))

HasSentinel-bound :
    (lo p : ℕ) (recs : List DrmmRec)
    → IsMap lo recs
    → HasSentinel recs
    → uint64_max < p
    → mapped recs p ≡ false
HasSentinel-bound lo p [] m h l = absurd h
HasSentinel-bound lo p (r ∷ []) m h l = ground arith
HasSentinel-bound lo p (r ∷ s ∷ rs) m h l = ground (
  arith,
  HasSentinel-bound (r.off_end + 2) p (s ∷ rs) m.2 h l,
  (HasSentinel-mapped (r.off_end + 2) (s ∷ rs) m.2 h).0,
)

pub HasSentinel-AllFit :
    (lo : ℕ) (recs : List DrmmRec) → IsMap lo recs → HasSentinel recs → AllFit recs
HasSentinel-AllFit lo [] m h = absurd h
HasSentinel-AllFit lo (r ∷ []) m h = ((omega arith, omega arith), tt)
HasSentinel-AllFit lo (r ∷ s ∷ rs) m h =
    let b = (HasSentinel-mapped (r.off_end + 2) (s ∷ rs) m.2 h).0 in
    ((omega arith, omega arith), HasSentinel-AllFit (r.off_end + 2) (s ∷ rs) m.2 h)

HasSentinel-of_mapped :
    (lo : ℕ) (recs : List DrmmRec)
    → IsMap lo recs
    → mapped recs uint64_max ≡ true
    → ((p : ℕ) → uint64_max < p → mapped recs p ≡ false)
    → HasSentinel recs
HasSentinel-of_mapped lo [] m h b = cc
HasSentinel-of_mapped lo (r ∷ []) m h b = ground (arith, b r.off_end)
HasSentinel-of_mapped lo (r ∷ s ∷ rs) m h b =
    HasSentinel-of_mapped (r.off_end + 2) (s ∷ rs) m.2 (ground (arith, b s.off_start))
      (λ p l. ground (arith, b p l))

module _ (bsearch : Bsearch) (L : IsBsearch bsearch) where
  pub drmm_rec_insert-HasSentinel :
      (new : DrmmRec) (recs : List DrmmRec)
      → new.off_start ≤ new.off_end
      → new.off_end ≤ uint64_max
      → IsMap 0 recs
      → HasSentinel recs
      → HasSentinel (drmm_rec_insert bsearch new recs)
  drmm_rec_insert-HasSentinel new recs h b m s =
      HasSentinel-of_mapped 0 _ (drmm_rec_insert-IsMap bsearch L new recs h m)
        (ground (
          arith,
          drmm_rec_insert-mapped bsearch L new recs uint64_max h m,
          (HasSentinel-mapped 0 recs m s).1,
        ))
        (λ p l. ground (
          arith,
          drmm_rec_insert-mapped bsearch L new recs p h m,
          HasSentinel-bound 0 p recs m s l,
        ))

but_last-IsMap : (lo : ℕ) (recs : List DrmmRec) → IsMap lo recs → IsMap lo (but_last recs)
but_last-IsMap lo [] m = tt
but_last-IsMap lo (r ∷ []) m = tt
but_last-IsMap lo (r ∷ s ∷ rs) m = (m.0, m.1, but_last-IsMap (r.off_end + 2) (s ∷ rs) m.2)

-- The last record covers what the others leave, and starts behind them.
but_last-mapped :
    (lo p : ℕ) (recs : List DrmmRec) {last : DrmmRec}
    → IsMap lo recs
    → last_rec recs ≡ some last
    → (mapped recs p ≡ (mapped (but_last recs) p || covers last p))
      × (mapped (but_last recs) p ≡ true → p < last.off_start)
      × (lo ≤ last.off_start)
      × (last.off_start ≤ last.off_end)
but_last-mapped lo p [] m e = cc
but_last-mapped lo p (r ∷ []) m e = ground arith
but_last-mapped lo p (r ∷ s ∷ rs) {last} m e =
    let ih = but_last-mapped (r.off_end + 2) p (s ∷ rs) m.2 e in
    (ground (arith, ih.0), ground (arith, ih.1, ih.2), omega (arith, ih.2), ih.3)

module _ (bsearch : Bsearch) (L : IsBsearch bsearch) where
  module _ (new_size : ℕ) (recs : List DrmmRec) (last : DrmmRec) where
    abbrev tail_rec : DrmmRec
    tail_rec = record { off_start = min last.off_start new_size; off_end = uint64_max }

    module _ (small : new_size ≤ uint64_max) (m : IsMap 0 recs) (h : HasSentinel recs)
        (e : last_rec recs ≡ some last) where
      pub truncated-mapped :
          (p : ℕ)
          → mapped (truncated_min bsearch new_size recs last) p
            ≡ ((mapped recs p || leb new_size p) && leb p uint64_max)
      unfolding truncated_min
      truncated-mapped p =
          let b = but_last-mapped 0 p recs m e in
          let cut =
            drmm_rec_truncate-IsMap bsearch L new_size (but_last recs) (but_last-IsMap 0 recs m) in
          let ends : last.off_end ≡ uint64_max = last_end in
          ground (
            arith,
            drmm_rec_insert-mapped bsearch L tail_rec
                (drmm_rec_truncate bsearch new_size (but_last recs)) p (omega arith) cut,
            drmm_rec_truncate-mapped bsearch L new_size (but_last recs) p (but_last-IsMap 0 recs m),
            b.0,
            b.1,
            b.3,
          )
        where
          last_end : last.off_end ≡ uint64_max
          last_end = let (r, f, g) = HasSentinel-last_rec recs h in ground arith

      pub truncated-IsMap : IsMap 0 (truncated_min bsearch new_size recs last)
      unfolding truncated_min
      truncated-IsMap =
          drmm_rec_insert-IsMap bsearch L tail_rec _ (omega arith)
            (drmm_rec_truncate-IsMap bsearch L new_size (but_last recs) (but_last-IsMap 0 recs m))

      pub truncated-HasSentinel : HasSentinel (truncated_min bsearch new_size recs last)
      truncated-HasSentinel =
          HasSentinel-of_mapped 0 _ truncated-IsMap (ground (arith, truncated-mapped uint64_max))
            (λ p l. ground (arith, truncated-mapped p))

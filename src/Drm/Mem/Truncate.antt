-- ===== src/Drm/Mem/Truncate.antt =====
-- `drmm_rec_truncate` of src/drm_mem.c removes the mapped bytes from the new size on.
use unionfs_fuse.Prelude.{
  ℕ, ◌+◌, ◌-◌, ◌<◌, ◌≡◌, refl, inl, inr, false, ◌&&◌, List, [], ◌∷◌, length, ltb, arith,
  Option-cases,
}
use unionfs_fuse.Drm.Mem.{DrmmRec, Bsearch, cut_at, cut_found, drmm_rec_truncate}
use unionfs_fuse.Drm.Mem.Ranges.{mapped, IsMap}
use unionfs_fuse.Drm.Mem.Search.{IsBsearch, pred_index, search_sml_or_eql_lem}
use unionfs_fuse.Drm.Mem.Insert.{pred_index-none, pred_index-some}

-- No byte before `lo` is mapped.
pub mapped-below : (lo p : ℕ) (rs : List DrmmRec) → p < lo → IsMap lo rs → mapped rs p ≡ false
mapped-below lo p [] h m = refl
mapped-below lo p (r ∷ rs) h m = ground (arith, mapped-below (r.off_end + 2) p rs)

mapped-of_empty : (recs : List DrmmRec) (p : ℕ) → length recs ≡ 0 → mapped recs p ≡ false
mapped-of_empty [] p h = refl
mapped-of_empty (r ∷ rs) p h = absurd (omega arith)

cut_pred : ℕ → List DrmmRec → List DrmmRec
cut_pred last_off recs = cut_found (pred_index last_off recs) last_off recs

cut_pred-mapped :
    (lo last_off p : ℕ) (recs : List DrmmRec)
    → IsMap lo recs
    → mapped (cut_pred last_off recs) p ≡ (mapped recs p && ltb p (last_off + 1))
unfolding cut_pred pred_index cut_found cut_at
cut_pred-mapped lo last_off p [] m = refl
cut_pred-mapped lo last_off p (r ∷ rs) m = elim (Option-cases (pred_index last_off (r ∷ rs))) [
  | inl e ↦
      rw (e, cut_found)
        (ground
          (arith, mapped-below (last_off + 1) p (r ∷ rs), pred_index-none lo last_off (r ∷ rs) e m))
  | inr (i, e) ↦ elim (Option-cases (pred_index last_off rs)) [
    | inl n ↦
        ground (
          arith,
          mapped-below (last_off + 1) p rs,
          pred_index-none (r.off_end + 2) last_off rs n m.2,
        )
    | inr (j, f) ↦ ground (
      arith,
      cut_pred-mapped (r.off_end + 2) last_off p rs m.2,
      pred_index-some (r.off_end + 2) last_off j rs f m.2,
    )
  ]
]

cut_pred-IsMap :
    (lo last_off : ℕ) (recs : List DrmmRec) → IsMap lo recs → IsMap lo (cut_pred last_off recs)
unfolding cut_pred pred_index cut_found cut_at
cut_pred-IsMap lo last_off [] m = tt
cut_pred-IsMap lo last_off (r ∷ rs) m = elim (Option-cases (pred_index last_off (r ∷ rs))) [
  | inl e ↦ rw (e, cut_found) tt
  | inr (i, e) ↦ elim (Option-cases (pred_index last_off rs)) [
    | inl n ↦ ground arith
    | inr (j, f) ↦ ground (arith, cut_pred-IsMap (r.off_end + 2) last_off rs m.2)
  ]
]

module _ (bsearch : Bsearch) (L : IsBsearch bsearch) (new_size : ℕ) (recs : List DrmmRec) where
  -- Truncating a well-formed map leaves a well-formed map.
  pub drmm_rec_truncate-IsMap : IsMap 0 recs → IsMap 0 (drmm_rec_truncate bsearch new_size recs)
  unfolding drmm_rec_truncate cut_pred
  drmm_rec_truncate-IsMap m =
      rw (search_sml_or_eql_lem bsearch L (new_size - 1) recs m)
        (ground (arith, cut_pred-IsMap 0 (new_size - 1) recs m))

  -- After a truncation of a well-formed map to `new_size` a byte is mapped exactly if it was and
  -- lies before `new_size`.
  pub drmm_rec_truncate-mapped :
      (p : ℕ)
      → IsMap 0 recs
      → mapped (drmm_rec_truncate bsearch new_size recs) p ≡ (mapped recs p && ltb p new_size)
  unfolding drmm_rec_truncate cut_pred
  drmm_rec_truncate-mapped p m =
      rw (search_sml_or_eql_lem bsearch L (new_size - 1) recs m)
        (ground (arith, cut_pred-mapped 0 (new_size - 1) p recs m, mapped-of_empty recs p))

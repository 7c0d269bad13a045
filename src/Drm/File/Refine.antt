-- ===== src/Drm/File/Refine.antt =====
-- src/drm_file.c against its specification: the map file holds a set of bytes.
use unionfs_fuse.Prelude.{
  ℕ, ◌+◌, ◌-◌, ◌^◌, ◌≤◌, ◌<◌, ◌≡◌, ◌∙◌, Bool, true, ◌&&◌, ◌||◌, some, List, leb, ltb, arith,
}
use unionfs_fuse.Os.{Os, Call, World}
use unionfs_fuse.Os.Monad.{M, ◌>>=◌}
use unionfs_fuse.Drm.Mem.{DrmmRec, Bsearch, uint64_max, drmm_rec_insert}
use unionfs_fuse.Drm.Mem.Ranges.{mapped, IsMap}
use unionfs_fuse.Drm.Mem.Search.{IsBsearch}
use unionfs_fuse.Drm.Mem.Insert.{drmm_rec_insert-IsMap, drmm_rec_insert-mapped}
use unionfs_fuse.Drm.Codec.{encode_recs}
use unionfs_fuse.Drm.File.{
  lock_ex, lock_un, new_range, last_rec, drmf_add_entry, trunc_loaded, drmf_trunc,
}
use unionfs_fuse.Drm.File.Sentinel.{
  HasSentinel, HasSentinel-last_rec, drmm_rec_insert-HasSentinel, truncated_min, truncated_unsigned,
  truncated-mapped, truncated-IsMap, truncated-HasSentinel,
}
use unionfs_fuse.Drm.File.Io.{IsRegular, saved, file_lock_lem, file_load_lem, save_unlock_lem}

-- The bytes of a map file stand for the set `f` of byte positions below 2 ^ 64.
pub record Holds (bytes : List ℕ) (f : ℕ → Bool) : Type 0 where
  pub recs : List DrmmRec
  pub stored : bytes ≡ encode_recs recs
  pub in_order : IsMap 0 recs
  pub ended : HasSentinel recs
  pub reads : (p : ℕ) → p ≤ uint64_max → mapped recs p ≡ f p

-- The call returns 0 and leaves a map file for `f`.
abbrev pub Leaves : (S : Os) → (S.State → List ℕ) → (ℕ → Bool) → M (World S) Bool → World S → Type 0
Leaves S content f m w = (w' : World S) × (m w ≡ some (true, w')) × Holds (content w'.os) f

abbrev pub in_range : ℕ → ℕ → ℕ → Bool
in_range offset len p = leb offset p && ltb p (offset + len)

-- The state after a map was loaded and saved under the lock.
abbrev pub after : (S : Os) → ℕ → List DrmmRec → S.State → S.State
after S fd recs s =
    (S.act (Call.flock fd lock_un) (saved S fd recs (S.act (Call.flock fd lock_ex) s).1)).1

module _ (S : Os) (bsearch : Bsearch) (L : IsBsearch bsearch) (fd : ℕ) (content : S.State → List ℕ)
    (R : IsRegular S fd content) (f : ℕ → Bool) (w : World S) (H : Holds (content w.os) f) where
  -- The map that `drmf_add_entry` saves, and the state that it leaves.
  pub drmf_add_entry_run :
      (offset len : ℕ)
      → 0 < len
      → offset + len ≤ 2 ^ 64
      → (w' : World S) × (drmf_add_entry S bsearch fd offset len w ≡ some (true, w'))
        × Holds (content w'.os) (λ p. f p || in_range offset len p)
        × (w'.os ≡ after S fd (drmm_rec_insert bsearch (new_range offset len) H.recs) w.os)
  unfolding drmf_add_entry ◌>>=◌
  drmf_add_entry_run offset len z b =
      let new = new_range offset len in
      let end : new.off_end ≡ offset + len - 1 = omega arith in
      let recs' = drmm_rec_insert bsearch new H.recs in
      let (w1, e1, c1, o1) = file_lock_lem S fd content R w in
      let e2 = file_load_lem S fd content R true H.recs w1 (c1 ∙ H.stored) H.in_order H.ended in
      let h =
        drmm_rec_insert-HasSentinel bsearch L new H.recs (omega arith) (omega arith) H.in_order
          H.ended in
      let (w2, e3, c3, o3) = save_unlock_lem S fd content R recs' w1 h in
      (
        w2,
        ground (arith, e1, e2, e3),
        record {
          recs = recs';
          stored = c3;
          in_order = drmm_rec_insert-IsMap bsearch L new H.recs (omega arith) H.in_order;
          ended = h;
          reads = λ p q. ground (
            arith,
            end,
            drmm_rec_insert-mapped bsearch L new H.recs p (omega arith) H.in_order,
            H.reads p q,
          );
        },
        o3 ∙ rw o1,
      )

  -- On a map file without input or output errors, `drmf_add_entry` of a range that is not empty
  -- and ends within 64 bits returns 0 and adds exactly the bytes of the range to the mapped ones.
  pub drmf_add_entry-Leaves :
      (offset len : ℕ)
      → 0 < len
      → offset + len ≤ 2 ^ 64
      → Leaves S content
          (λ p. f p || in_range offset len p)
          (drmf_add_entry S bsearch fd offset len)
          w
  drmf_add_entry-Leaves offset len z b =
      let (w', e, h, o) = drmf_add_entry_run offset len z b in (w', e, h)

  -- On a map file without input or output errors whose last record starts below 2^63,
  -- `drmf_trunc` to a size below 2^63 returns 0 and adds exactly the bytes from the new size on to
  -- the mapped ones.
  pub drmf_trunc-Leaves :
      (new_size : ℕ)
      → new_size < 2 ^ 63
      → ((last : DrmmRec) → last_rec H.recs ≡ some last → last.off_start < 2 ^ 63)
      → Leaves S content (λ p. f p || leb new_size p) (drmf_trunc S bsearch fd new_size) w
  unfolding drmf_trunc trunc_loaded ◌>>=◌
  drmf_trunc-Leaves new_size b0 below =
      let b : new_size ≤ uint64_max = omega arith in
      let (last, e0, d) = HasSentinel-last_rec H.recs H.ended in
      let recs' = truncated_min bsearch new_size H.recs last in
      let same = truncated_unsigned bsearch new_size H.recs last b0 (below last e0) in
      let (w1, e1, c1, o1) = file_lock_lem S fd content R w in
      let e2 = file_load_lem S fd content R true H.recs w1 (c1 ∙ H.stored) H.in_order H.ended in
      let h = truncated-HasSentinel bsearch L new_size H.recs last b H.in_order H.ended e0 in
      let (w2, e3, c3, o3) = save_unlock_lem S fd content R recs' w1 h in
      (
        w2,
        ground (arith, e0, e1, e2, e3, same),
        record {
          recs = recs';
          stored = c3;
          in_order = truncated-IsMap bsearch L new_size H.recs last b H.in_order H.ended e0;
          ended = h;
          reads = λ p q. ground (
            arith,
            truncated-mapped bsearch L new_size H.recs last b H.in_order H.ended e0 p,
            H.reads p q,
          );
        },
      )

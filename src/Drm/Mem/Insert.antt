-- ===== src/Drm/Mem/Insert.antt =====
-- `drmm_rec_insert` of src/drm_mem.c adds a range to the mapped bytes.
use unionfs_fuse.Prelude.{
  ℕ, ◌+◌, ◌≤◌, max, ◌≡◌, refl, inl, inr, ◌||◌, none, some, List, [], ◌∷◌, arith, Option-cases,
}
use unionfs_fuse.Drm.Mem.{
  DrmmRec, Bsearch, rec_merge, merge_successors, insert_after, insert_at, insert_found,
  drmm_rec_insert,
}
use unionfs_fuse.Drm.Mem.Ranges.{covers, mapped, IsMap}
use unionfs_fuse.Drm.Mem.Search.{IsBsearch, pred_index, search_sml_or_eql_lem}

pub IsMap-weaken : (lo lo' : ℕ) (rs : List DrmmRec) → lo ≤ lo' → IsMap lo' rs → IsMap lo rs
IsMap-weaken lo lo' [] h m = tt
IsMap-weaken lo lo' (r ∷ rs) h m = (omega arith, m.1, m.2)

pub pred_index-none :
    (lo key : ℕ) (rs : List DrmmRec) → pred_index key rs ≡ none → IsMap lo rs → IsMap (key + 1) rs
unfolding pred_index
pred_index-none lo key [] e m = tt
pred_index-none lo key (r ∷ rs) e m = (ground (arith, e), m.1, m.2)

pub pred_index-some :
    (lo key i : ℕ) (rs : List DrmmRec) → pred_index key rs ≡ some i → IsMap lo rs → lo ≤ key
unfolding pred_index
pred_index-some lo key i [] e m = cc
pred_index-some lo key i (r ∷ rs) e m = ground (arith, e)

-- The merge of a record with one that starts no earlier.
rec_merge-covers :
    (l r : DrmmRec) (p : ℕ) {m : DrmmRec}
    → l.off_start ≤ l.off_end
    → l.off_start ≤ r.off_start
    → r.off_start ≤ r.off_end
    → rec_merge l r ≡ some m
    → covers m p ≡ (covers l p || covers r p)
unfolding rec_merge
rec_merge-covers l r p hl h hr e = ground arith

rec_merge-bounds :
    (l r : DrmmRec) {m : DrmmRec}
    → rec_merge l r ≡ some m
    → (m.off_start ≡ l.off_start) × (l.off_end ≤ m.off_end) × (m.off_end ≡ max r.off_end l.off_end)
unfolding rec_merge
rec_merge-bounds l r e = ground arith

rec_merge-none : (l r : DrmmRec) → rec_merge l r ≡ none → l.off_end + 2 ≤ r.off_start
unfolding rec_merge
rec_merge-none l r e = ground arith

merge_successors-mapped :
    (ins : DrmmRec) (rest : List DrmmRec) (p : ℕ)
    → ins.off_start ≤ ins.off_end
    → IsMap ins.off_start rest
    → mapped (merge_successors ins rest) p ≡ (covers ins p || mapped rest p)
unfolding merge_successors
merge_successors-mapped ins [] p h m = refl
merge_successors-mapped ins (next ∷ rest) p h m = elim (Option-cases (rec_merge ins next)) [
  | inl e ↦ rw (e, merge_successors)
  | inr (ins', e) ↦
      let b = rec_merge-bounds ins next e in
      rw (e, merge_successors)
        (ground (
          arith,
          merge_successors-mapped ins' rest p (omega (arith, b))
              (IsMap-weaken ins'.off_start (next.off_end + 2) rest (omega (arith, b)) m.2),
          rec_merge-covers ins next p h m.0 m.1 e,
        ))
]

merge_successors-IsMap :
    (lo : ℕ) (ins : DrmmRec) (rest : List DrmmRec)
    → lo ≤ ins.off_start
    → ins.off_start ≤ ins.off_end
    → IsMap ins.off_start rest
    → IsMap lo (merge_successors ins rest)
unfolding merge_successors
merge_successors-IsMap lo ins [] l h m = (l, h, tt)
merge_successors-IsMap lo ins (next ∷ rest) l h m = elim (Option-cases (rec_merge ins next)) [
  | inl e ↦ rw (e, merge_successors) (l, h, (rec_merge-none ins next e, m.1, m.2))
  | inr (ins', e) ↦
      let b = rec_merge-bounds ins next e in
      rw (e, merge_successors)
        (merge_successors-IsMap lo ins' rest (omega (arith, b)) (omega (arith, b))
          (IsMap-weaken ins'.off_start (next.off_end + 2) rest (omega (arith, b)) m.2))
]

module _ (new : DrmmRec) (proper : new.off_start ≤ new.off_end) where
  insert_after-mapped :
      (pred : DrmmRec) (rest : List DrmmRec) (p : ℕ)
      → pred.off_start ≤ new.off_start
      → pred.off_start ≤ pred.off_end
      → IsMap (new.off_start + 1) rest
      → mapped (insert_after pred new rest) p ≡ (covers new p || mapped (pred ∷ rest) p)
  unfolding insert_after
  insert_after-mapped pred rest p h q m = elim (Option-cases (rec_merge pred new)) [
    | inl e ↦
        rw (e, insert_after)
          (ground (
            arith,
            merge_successors-mapped new rest p proper
                (IsMap-weaken new.off_start (new.off_start + 1) rest (omega arith) m),
          ))
    | inr (pred', e) ↦
        let b = rec_merge-bounds pred new e in
        rw (e, insert_after)
          (ground (
            arith,
            merge_successors-mapped pred' rest p (omega (arith, b))
                (IsMap-weaken pred'.off_start (new.off_start + 1) rest (omega (arith, b)) m),
            rec_merge-covers pred new p q h proper e,
          ))
  ]

  insert_after-IsMap :
      (lo : ℕ) (pred : DrmmRec) (rest : List DrmmRec)
      → pred.off_start ≤ new.off_start
      → IsMap lo (pred ∷ rest)
      → IsMap (new.off_start + 1) rest
      → IsMap lo (insert_after pred new rest)
  unfolding insert_after
  insert_after-IsMap lo pred rest h q m = elim (Option-cases (rec_merge pred new)) [
    | inl e ↦
        rw (e, insert_after)
          (
            q.0,
            q.1,
            merge_successors-IsMap (pred.off_end + 2) new rest (rec_merge-none pred new e) proper
                (IsMap-weaken new.off_start (new.off_start + 1) rest (omega arith) m),
          )
    | inr (pred', e) ↦
        let b = rec_merge-bounds pred new e in
        rw (e, insert_after)
          (merge_successors-IsMap lo pred' rest (omega (arith, b, q)) (omega (arith, b, q))
            (IsMap-weaken pred'.off_start (new.off_start + 1) rest (omega (arith, b)) m))
  ]

  -- The insertion behind the predecessor that the linear search finds.
  insert_pred : List DrmmRec → List DrmmRec
  insert_pred recs = insert_found (pred_index new.off_start recs) new recs

  insert_pred-mapped :
      (lo : ℕ) (recs : List DrmmRec) (p : ℕ)
      → IsMap lo recs
      → mapped (insert_pred recs) p ≡ (covers new p || mapped recs p)
  unfolding insert_pred pred_index insert_found insert_at
  insert_pred-mapped lo [] p m = merge_successors-mapped new [] p proper tt
  insert_pred-mapped lo (r ∷ rs) p m = elim (Option-cases (pred_index new.off_start (r ∷ rs))) [
    | inl e ↦
        rw (e, insert_found)
          (merge_successors-mapped new (r ∷ rs) p proper (
            IsMap-weaken new.off_start (new.off_start + 1) (r ∷ rs) (omega arith)
              (pred_index-none lo new.off_start (r ∷ rs) e m)))
    | inr (i, e) ↦ elim (Option-cases (pred_index new.off_start rs)) [
      | inl n ↦ ground (
        arith,
        insert_after-mapped r rs p,
        pred_index-none (r.off_end + 2) new.off_start rs n m.2,
      )
      | inr (j, f) ↦ ground (arith, insert_pred-mapped (r.off_end + 2) rs p m.2)
    ]
  ]

  insert_pred-IsMap :
      (lo : ℕ) (recs : List DrmmRec)
      → lo ≤ new.off_start
      → IsMap lo recs
      → IsMap lo (insert_pred recs)
  unfolding insert_pred pred_index insert_found insert_at
  insert_pred-IsMap lo [] l m = merge_successors-IsMap lo new [] l proper tt
  insert_pred-IsMap lo (r ∷ rs) l m = elim (Option-cases (pred_index new.off_start (r ∷ rs))) [
    | inl e ↦
        rw (e, insert_found)
          (merge_successors-IsMap lo new (r ∷ rs) l proper (
            IsMap-weaken new.off_start (new.off_start + 1) (r ∷ rs) (omega arith)
              (pred_index-none lo new.off_start (r ∷ rs) e m)))
    | inr (i, e) ↦ elim (Option-cases (pred_index new.off_start rs)) [
      | inl n ↦ ground (
        arith,
        insert_after-IsMap lo r rs,
        pred_index-none (r.off_end + 2) new.off_start rs n m.2,
      )
      | inr (j, f) ↦ ground (
        arith,
        insert_pred-IsMap (r.off_end + 2) rs,
        pred_index-some (r.off_end + 2) new.off_start j rs f m.2,
      )
    ]
  ]

module _ (bsearch : Bsearch) (L : IsBsearch bsearch) (new : DrmmRec) (recs : List DrmmRec) where
  -- Inserting a range that is not empty into a well-formed map leaves a well-formed map.
  pub drmm_rec_insert-IsMap :
      new.off_start ≤ new.off_end → IsMap 0 recs → IsMap 0 (drmm_rec_insert bsearch new recs)
  unfolding drmm_rec_insert insert_pred
  drmm_rec_insert-IsMap h m =
      rw (search_sml_or_eql_lem bsearch L new.off_start recs m)
        (insert_pred-IsMap new h 0 recs (omega arith) m)

  -- After the insertion of a range that is not empty into a well-formed map a byte is mapped
  -- exactly if it lies in that range or was mapped before.
  pub drmm_rec_insert-mapped :
      (p : ℕ)
      → new.off_start ≤ new.off_end
      → IsMap 0 recs
      → mapped (drmm_rec_insert bsearch new recs) p ≡ (covers new p || mapped recs p)
  unfolding drmm_rec_insert insert_pred
  drmm_rec_insert-mapped p h m =
      rw (search_sml_or_eql_lem bsearch L new.off_start recs m)
        (insert_pred-mapped new h 0 recs p m)

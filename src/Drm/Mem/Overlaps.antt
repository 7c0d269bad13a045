-- ===== src/Drm/Mem/Overlaps.antt =====
-- `drmm_rec_find_overlaps` of src/drm_mem.c selects the records that meet a range.
use unionfs_fuse.Prelude.{
  ℕ, zero, suc, ◌+◌, ◌-◌, ◌%◌, ◌^◌, ◌≤◌, ◌<◌, ◌≡◌, refl, ap, ◌⊎◌, inl, inr, true, false, ◌&&◌,
  Option, none, some, List, [], ◌∷◌, length, take, drop, ltb, leb, ◌==◌, arith, Bool-cases,
  if◌then◌else◌,
}
use unionfs_fuse.Drm.Mem.{DrmmRec, Bsearch, overlap_loop, first_or_zero, drmm_rec_find_overlaps}
use unionfs_fuse.Drm.Mem.Ranges.{IsMap}
use unionfs_fuse.Drm.Mem.Search.{IsBsearch, pred_index, search_sml_or_eql_lem}
use unionfs_fuse.Drm.Mem.Insert.{pred_index-some}

-- The records that share a byte with the range from `offset` to `range_end`.
abbrev pub overlapping : ℕ → ℕ → List DrmmRec → List DrmmRec
overlapping offset range_end [] = []
overlapping offset range_end (r ∷ rs) =
    let rest = overlapping offset range_end rs in
    if leb r.off_start range_end && leb offset r.off_end then r ∷ rest else rest

module _ (offset range_end : ℕ) where
  pub overlapping-above :
      (lo : ℕ) (rs : List DrmmRec)
      → range_end < lo
      → IsMap lo rs
      → overlapping offset range_end rs ≡ []
  overlapping-above lo [] h m = refl
  overlapping-above lo (r ∷ rs) h m = ground (arith, overlapping-above (r.off_end + 2) rs)

  -- Once a record has met the range, the later ones are counted until one starts behind it.
  loop-counting :
      (lo : ℕ) (rs : List DrmmRec) (i cnt first : ℕ)
      → 0 < cnt
      → offset < lo
      → IsMap lo rs
      → (overlap_loop offset range_end rs i cnt first
          ≡ (cnt + length (overlapping offset range_end rs), first))
        × (take (length (overlapping offset range_end rs)) rs ≡ overlapping offset range_end rs)
  unfolding overlap_loop
  loop-counting lo [] i cnt first c h m = ground arith
  loop-counting lo (r ∷ rs) i cnt first c h m = ground (
    arith,
    loop-counting (r.off_end + 2) rs (i + 1) (cnt + 1) first,
    overlapping-above (r.off_end + 2) rs,
  )

  -- What the loop returns from index `i` on, before a record has met the range: the number of
  -- the records `met`, and where in the list they stand.
  abbrev Selects : List DrmmRec → List DrmmRec → ℕ → ℕ × ℕ → Type 0
  Selects met rs i r =
      (r.0 ≡ length met)
      × (((r.0 ≡ 0) × (r.1 ≡ 0)) ⊎ ((k : ℕ) × (r.1 ≡ i + k) × (take r.0 (drop k rs) ≡ met)))

  Selects-cons :
      (met : List DrmmRec) (r : DrmmRec) (rs : List DrmmRec) (i : ℕ) (res : ℕ × ℕ)
      → Selects met rs (i + 1) res
      → Selects met (r ∷ rs) i res
  Selects-cons met r rs i res (e, inl n) = (e, inl n)
  Selects-cons met r rs i res (e, inr (k, f, t)) = (e, inr (suc k, omega arith, t))

  loop-Selects :
      (lo : ℕ) (rs : List DrmmRec) (i : ℕ)
      → IsMap lo rs
      → Selects (overlapping offset range_end rs) rs i (overlap_loop offset range_end rs i 0 0)
  unfolding overlap_loop
  loop-Selects lo [] i m = (refl, inl (refl, refl))
  loop-Selects lo (r ∷ rs) i m = elim (Bool-cases (leb r.off_start range_end)) [
    | inl a ↦ elim (Bool-cases (ltb r.off_end offset)) [
      | inl b ↦
          let out : leb offset r.off_end ≡ false = ground arith in
          rw (a, b, out) (Selects-cons _ r rs i _ (loop-Selects (r.off_end + 2) rs (i + 1) m.2))
      | inr b ↦
          let met : leb offset r.off_end ≡ true = ground arith in
          let c = loop-counting (r.off_end + 2) rs (i + 1) 1 i (omega arith) (ground arith) m.2 in
          let n = length (overlapping offset range_end rs) in
          let one : 1 + n ≡ suc n = omega arith in
          rw (a, b, met, c.0) (omega arith, inr (0, omega arith, rw one (ap (λ t. r ∷ t) c.1)))
    ]
    | inr a ↦
        let none_later = overlapping-above (r.off_end + 2) rs (ground arith) m.2 in
        rw (a, none_later) (refl, inl (refl, refl))
  ]

  -- The records before the predecessor of `offset` end before it.
  overlapping-drop :
      (lo i : ℕ) (rs : List DrmmRec)
      → IsMap lo rs
      → pred_index offset rs ≡ some i
      → overlapping offset range_end (drop i rs) ≡ overlapping offset range_end rs
  unfolding pred_index
  overlapping-drop lo i [] m e = cc
  overlapping-drop lo zero (r ∷ rs) m e = refl
  overlapping-drop lo (suc i) (r ∷ rs) m e = ground (
    arith,
    overlapping-drop (r.off_end + 2) i rs m.2,
    pred_index-some (r.off_end + 2) offset i rs,
  )

  IsMap-drop : (lo i : ℕ) (rs : List DrmmRec) → IsMap lo rs → IsMap 0 (drop i rs)
  IsMap-drop lo zero [] m = tt
  IsMap-drop lo zero (r ∷ rs) m = (omega arith, m.1, m.2)
  IsMap-drop lo (suc i) [] m = tt
  IsMap-drop lo (suc i) (r ∷ rs) m = IsMap-drop (r.off_end + 2) i rs m.2

drop-drop {ℓ} : {A : Type ℓ} (k m n : ℕ) (xs : List A) → k ≡ m + n → drop k xs ≡ drop n (drop m xs)
drop-drop k zero n xs e = let f : k ≡ n = omega arith in rw f
drop-drop zero (suc m) n xs e = absurd (omega arith)
drop-drop (suc k) (suc m) zero [] e = refl
drop-drop (suc k) (suc m) (suc n) [] e = refl
drop-drop (suc k) (suc m) n (x ∷ xs) e = drop-drop k m n xs (omega arith)

-- The count and the index of the first select `met` from `recs`.
abbrev pub Chosen : List DrmmRec → List DrmmRec → ℕ × ℕ → Type 0
Chosen met recs r = (r.0 ≡ length met) × (take r.0 (drop r.1 recs) ≡ met)

eq-nil : (met : List DrmmRec) → 0 ≡ length met → [] ≡ met
eq-nil [] e = refl
eq-nil (x ∷ xs) e = absurd (omega arith)

Selects-Chosen :
    (offset range_end : ℕ) (met recs : List DrmmRec) (i : ℕ) (r : ℕ × ℕ)
    → Selects offset range_end met (drop i recs) i r
    → Chosen met recs r
Selects-Chosen offset range_end met recs i (c, f) (e, inl (z, w)) =
    (e, rw z (eq-nil met (omega arith)))
Selects-Chosen offset range_end met recs i (c, f) (e, inr (k, w, t)) =
    (e, rw (drop-drop f i k recs w) t)

overlaps-from :
    (offset range_end : ℕ) (recs : List DrmmRec) (o : Option ℕ)
    → IsMap 0 recs
    → pred_index offset recs ≡ o
    → let i = first_or_zero o in
      Chosen
        (overlapping offset range_end recs)
        recs
        (overlap_loop offset range_end (drop i recs) i 0 0)
unfolding first_or_zero
overlaps-from offset range_end recs none m e =
    Selects-Chosen offset range_end _ recs 0 _ (loop-Selects offset range_end 0 recs 0 m)
overlaps-from offset range_end recs (some i) m e =
    rw (← overlapping-drop offset range_end 0 i recs m e) (
      Selects-Chosen offset range_end _ recs i _
        (loop-Selects offset range_end 0 (drop i recs) i (IsMap-drop offset range_end 0 i recs m)))

-- For a range that is not empty and does not wrap around, the two numbers that the function
-- returns on a well-formed map select exactly the records that share a byte with the range.
pub drmm_rec_find_overlaps-Chosen :
    (bsearch : Bsearch)
    → IsBsearch bsearch
    → (offset len : ℕ) (recs : List DrmmRec) → 0 < len
    → offset + len ≤ 2 ^ 64
    → IsMap 0 recs
    → Chosen
        (overlapping offset (offset + len - 1) recs)
        recs
        (drmm_rec_find_overlaps bsearch offset len recs)
unfolding drmm_rec_find_overlaps
drmm_rec_find_overlaps-Chosen bsearch L offset len [] z b m = ground arith
drmm_rec_find_overlaps-Chosen bsearch L offset len (r ∷ rs) z b m =
    let some_len : (len == 0) ≡ false = ground arith in
    let end : (offset + len - 1) % 2 ^ 64 ≡ offset + len - 1 = omega arith in
    let full : (length (r ∷ rs) == 0) ≡ false = ground arith in
    rw (some_len, full, end, search_sml_or_eql_lem bsearch L offset (r ∷ rs) m)
      (overlaps-from offset (offset + len - 1) (r ∷ rs) _ m refl)

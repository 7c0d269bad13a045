-- ===== src/Drm/Mem/Search.antt =====
-- `search_sml_or_eql` of src/drm_mem.c against a linear reference.
use Prim.Native.Nat.{Ordering}
use native.Mathlib.Decide.{dec_lt}
use unionfs_fuse.Prelude.{
  ℕ, zero, suc, ◌+◌, ◌≤◌, ◌<◌, ◌≡◌, refl, ◌≢◌, ◌∙◌, sym, inl, inr, Option, none, some, List, [],
  ◌∷◌, length, ltb, Option-cases, arith, if◌then◌else◌,
}
use unionfs_fuse.Drm.Mem.{DrmmRec, Bsearch, start_at, comp_sml_or_eql, search_sml_or_eql}
use unionfs_fuse.Drm.Mem.Ranges.{IsMap}

-- The elements that are greater than the key come last, those that are less come first.
abbrev IsOrdered : (ℕ → Ordering) → ℕ → Type 0
IsOrdered cmp n =
    (i j : ℕ)
    → i < j
    → j < n
    → (cmp i ≡ Ordering.lt → cmp j ≡ Ordering.lt) × (cmp j ≡ Ordering.gt → cmp i ≡ Ordering.gt)

-- The documented behaviour of `bsearch`: what it returns compares equal, and on an array in order
-- it misses no such element.
pub record IsBsearch (bsearch : Bsearch) : Type 0 where
  pub found :
      (cmp : ℕ → Ordering) (n i : ℕ) → bsearch cmp n ≡ some i → (i < n) × (cmp i ≡ Ordering.eq)
  pub missing :
      (cmp : ℕ → Ordering) (n : ℕ)
      → IsOrdered cmp n
      → bsearch cmp n ≡ none
      → (i : ℕ) → i < n
      → cmp i ≢ Ordering.eq

abbrev bump : Option ℕ → Option ℕ
bump none = some 0
bump (some i) = some (suc i)

-- The index of the last record that starts at the key or before it.
unfoldable pub pred_index : ℕ → List DrmmRec → Option ℕ
pred_index key [] = none
pred_index key (r ∷ rs) = if ltb key r.off_start then none else bump (pred_index key rs)

pred_index-below :
    (key lo : ℕ) (recs : List DrmmRec) → key < lo → IsMap lo recs → pred_index key recs ≡ none
unfolding pred_index
pred_index-below key lo [] h m = refl
pred_index-below key lo (r ∷ rs) h m = ground arith

start_at-lower :
    (lo : ℕ) (recs : List DrmmRec) (i : ℕ) → IsMap lo recs → i < length recs → lo ≤ start_at recs i
unfolding start_at
start_at-lower lo [] i m h = absurd (omega arith)
start_at-lower lo (r ∷ rs) zero m h = omega arith
start_at-lower lo (r ∷ rs) (suc i) m h =
    omega (arith, start_at-lower (r.off_end + 2) rs i m.2 (omega arith))

start_at_mono :
    (lo : ℕ) (recs : List DrmmRec) (i j : ℕ)
    → IsMap lo recs
    → i < j
    → j < length recs
    → start_at recs i < start_at recs j
unfolding start_at
start_at_mono lo [] i j m h k = absurd (omega arith)
start_at_mono lo (r ∷ rs) i zero m h k = absurd (omega arith)
start_at_mono lo (r ∷ rs) zero (suc j) m h k =
    omega (arith, start_at-lower (r.off_end + 2) rs j m.2 (omega arith))
start_at_mono lo (r ∷ rs) (suc i) (suc j) m h k =
    start_at_mono (r.off_end + 2) rs i j m.2 (omega arith) (omega arith)

start_at_mono_le :
    (lo : ℕ) (recs : List DrmmRec) (i j : ℕ)
    → IsMap lo recs
    → i ≤ j
    → j < length recs
    → start_at recs i ≤ start_at recs j
start_at_mono_le lo recs i j m h k = elim (dec_lt i j) [
  | yes p ↦ omega (arith, start_at_mono lo recs i j m p k)
  | no p ↦ let e : i ≡ j = omega arith in rw e (omega arith)
]

comp-IsOrdered :
    (key lo : ℕ) (recs : List DrmmRec)
    → IsMap lo recs
    → IsOrdered (comp_sml_or_eql key recs) (length recs)
unfolding comp_sml_or_eql
comp-IsOrdered key lo recs m i j h k =
    let e = start_at_mono lo recs i j m h k in
    let f = start_at_mono_le lo recs (i + 1) j m (omega arith) k in (ground arith, ground arith)

-- An index that compares equal is the predecessor.
comp-pred_index :
    (key lo : ℕ) (recs : List DrmmRec) (i : ℕ)
    → IsMap lo recs
    → i < length recs
    → comp_sml_or_eql key recs i ≡ Ordering.eq
    → pred_index key recs ≡ some i
unfolding comp_sml_or_eql pred_index start_at
comp-pred_index key lo [] i m h e = absurd (omega arith)
comp-pred_index key lo (r ∷ []) zero m h e = ground arith
comp-pred_index key lo (r ∷ []) (suc i) m h e = absurd (omega arith)
comp-pred_index key lo (r ∷ s ∷ rs) zero m h e = ground arith
comp-pred_index key lo (r ∷ s ∷ rs) (suc i) m h e =
    ground (arith, comp-pred_index key (r.off_end + 2) (s ∷ rs) i m.2)

pred_index-comp :
    (key lo : ℕ) (recs : List DrmmRec) (i : ℕ)
    → IsMap lo recs
    → pred_index key recs ≡ some i
    → (i < length recs) × (comp_sml_or_eql key recs i ≡ Ordering.eq)
unfolding comp_sml_or_eql pred_index start_at
pred_index-comp key lo [] i m e = cc
pred_index-comp key lo (r ∷ []) zero m e = ground arith
pred_index-comp key lo (r ∷ []) (suc i) m e = ground arith
pred_index-comp key lo (r ∷ s ∷ rs) zero m e = ground arith
pred_index-comp key lo (r ∷ s ∷ rs) (suc i) m e =
    ground (arith, pred_index-comp key (r.off_end + 2) (s ∷ rs) i m.2)

-- On a well-formed map the search returns the last record that starts at the key or before it,
-- whatever binary search the C library has.
pub search_sml_or_eql_lem :
    (bsearch : Bsearch)
    → IsBsearch bsearch
    → (key : ℕ) (recs : List DrmmRec) → IsMap 0 recs
    → search_sml_or_eql bsearch key recs ≡ pred_index key recs
unfolding search_sml_or_eql
search_sml_or_eql_lem bsearch L key recs m =
    elim (Option-cases (search_sml_or_eql bsearch key recs)) [
      | inr (i, e) ↦
          let f = L.found (comp_sml_or_eql key recs) (length recs) i e in
          e ∙ sym (comp-pred_index key 0 recs i m f.0 f.1)
      | inl e ↦ elim (Option-cases (pred_index key recs)) [
        | inl n ↦ e ∙ sym n
        | inr (i, f) ↦
            let c = pred_index-comp key 0 recs i m f in
            absurd (L.missing _ _ (comp-IsOrdered key 0 recs m) e i c.0 c.1)
      ]
    ]

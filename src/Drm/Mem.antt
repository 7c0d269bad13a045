-- ===== src/Drm/Mem.antt =====
-- src/drm_mem.c: the sorted array of mapped ranges, as the list of its live records.
pub mod Ranges
pub mod Search
pub mod Insert
pub mod Truncate
pub mod Overlaps
use Prim.Native.Nat.{Ordering}
use unionfs_fuse.Prelude.{
  ℕ, zero, suc, ◌+◌, ◌-◌, ◌%◌, ◌^◌, min, max, ◌&&◌, ◌||◌, Option, none, some, List, [], ◌∷◌, length,
  drop, ltb, leb, ◌==◌, if◌then◌else◌,
}

-- `struct drmm_rec`: the mapped bytes from `off_start` to `off_end`, both included.
pub record DrmmRec : Type 0 where
  pub off_start : ℕ
  pub off_end : ℕ

abbrev pub uint64_max : ℕ
uint64_max = 2 ^ 64 - 1

-- `bsearch` of the C library: it is given the result of the comparison function at each index
-- and the number of elements.
abbrev pub Bsearch : Type 0
Bsearch = (ℕ → Ordering) → ℕ → Option ℕ

-- What the comparison reads of an element: its own start, and the start of the next one.
start_at : List DrmmRec → ℕ → ℕ
start_at [] i = 0
start_at (r ∷ rs) zero = r.off_start
start_at (r ∷ rs) (suc i) = start_at rs i

-- -1, 0 and 1 are `lt`, `eq` and `gt`.
comp_sml_or_eql : ℕ → List DrmmRec → ℕ → Ordering
comp_sml_or_eql key_off recs i =
    if key_off == start_at recs i
    then Ordering.eq
    else if ltb key_off (start_at recs i)
    then Ordering.lt
    else if i == length recs - 1 || ltb key_off (start_at recs (i + 1))
    then Ordering.eq
    else Ordering.gt

-- `none` is -1.
pub search_sml_or_eql : Bsearch → ℕ → List DrmmRec → Option ℕ
search_sml_or_eql bsearch key_off recs = bsearch (comp_sml_or_eql key_off recs) (length recs)

-- `none` is `false`; otherwise the value that `left` has after the call.
pub rec_merge : DrmmRec → DrmmRec → Option DrmmRec
rec_merge left right =
    if ltb left.off_end right.off_start && ltb 1 (right.off_start - left.off_end)
    then none
    else some (record left { off_end = max right.off_end left.off_end })

-- The loop that merges the inserted record with its successors, and the move that closes the gap.
pub merge_successors : DrmmRec → List DrmmRec → List DrmmRec
merge_successors ins [] = ins ∷ []
merge_successors ins (next ∷ rest) = elim (rec_merge ins next) [
  | none ↦ ins ∷ next ∷ rest
  | some ins' ↦ merge_successors ins' rest
]

-- The record at hand is the predecessor: the new one is merged into it, or put behind it.
insert_after : DrmmRec → DrmmRec → List DrmmRec → List DrmmRec
insert_after pred new_entry rest = elim (rec_merge pred new_entry) [
  | none ↦ pred ∷ merge_successors new_entry rest
  | some pred' ↦ merge_successors pred' rest
]

-- The records before index `pred_indx` stay. (An index out of range does not occur.)
insert_at : ℕ → DrmmRec → List DrmmRec → List DrmmRec
insert_at pred_indx new_entry [] = []
insert_at zero new_entry (pred ∷ rest) = insert_after pred new_entry rest
insert_at (suc pred_indx) new_entry (r ∷ rest) = r ∷ insert_at pred_indx new_entry rest

insert_found : Option ℕ → DrmmRec → List DrmmRec → List DrmmRec
insert_found none new_entry recs = merge_successors new_entry recs
insert_found (some pred_indx) new_entry recs = insert_at pred_indx new_entry recs

pub drmm_rec_insert : Bsearch → DrmmRec → List DrmmRec → List DrmmRec
drmm_rec_insert bsearch new_entry recs =
    insert_found (search_sml_or_eql bsearch new_entry.off_start recs) new_entry recs

-- The records up to `indx`, the last of them cut at `last_off`.
cut_at : ℕ → ℕ → List DrmmRec → List DrmmRec
cut_at indx last_off [] = []
cut_at zero last_off (r ∷ rest) = record r { off_end = min r.off_end last_off } ∷ []
cut_at (suc indx) last_off (r ∷ rest) = r ∷ cut_at indx last_off rest

cut_found : Option ℕ → ℕ → List DrmmRec → List DrmmRec
cut_found none last_off recs = []
cut_found (some indx) last_off recs = cut_at indx last_off recs

pub drmm_rec_truncate : Bsearch → ℕ → List DrmmRec → List DrmmRec
drmm_rec_truncate bsearch new_size recs =
    if new_size == 0 || length recs == 0
    then []
    else cut_found (search_sml_or_eql bsearch (new_size - 1) recs) (new_size - 1) recs

-- The loop of `drmm_rec_find_overlaps` at index `i`: `cnt` and `first_index` when it ends.
overlap_loop : ℕ → ℕ → List DrmmRec → ℕ → ℕ → ℕ → ℕ × ℕ
overlap_loop offset range_end [] i cnt first = (cnt, first)
overlap_loop offset range_end (r ∷ rest) i cnt first =
    let rest' =
      overlap_loop offset range_end rest (i + 1) (if ltb r.off_end offset then cnt else cnt + 1)
        (if ltb r.off_end offset then first else if cnt == 0 then i else first) in
    if leb r.off_start range_end then rest' else (cnt, first)

first_or_zero : Option ℕ → ℕ
first_or_zero none = 0
first_or_zero (some indx) = indx

-- The number of overlapping records and the index of the first.
pub drmm_rec_find_overlaps : Bsearch → ℕ → ℕ → List DrmmRec → ℕ × ℕ
drmm_rec_find_overlaps bsearch offset len recs =
    if len == 0 || length recs == 0
    then (0, 0)
    else let indx = first_or_zero (search_sml_or_eql bsearch offset recs) in
      overlap_loop offset ((offset + len - 1) % 2 ^ 64) (drop indx recs) indx 0 0

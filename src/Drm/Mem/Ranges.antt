-- ===== src/Drm/Mem/Ranges.antt =====
-- What a list of records of src/drm_mem.c means: the set of the mapped bytes.
use unionfs_fuse.Prelude.{ℕ, ◌+◌, ◌≤◌, Bool, false, ◌&&◌, ◌||◌, List, [], ◌∷◌, leb}
use unionfs_fuse.Drm.Mem.{DrmmRec}

abbrev pub covers : DrmmRec → ℕ → Bool
covers r p = leb r.off_start p && leb p r.off_end

-- Byte `p` is mapped by some record.
abbrev pub mapped : List DrmmRec → ℕ → Bool
mapped [] p = false
mapped (r ∷ rs) p = covers r p || mapped rs p

-- Well-formed: no empty range, in rising order, with a gap of a byte at least between two
-- neighbours, and nothing before `lo`.
abbrev pub IsMap : ℕ → List DrmmRec → Type 0
IsMap lo [] = Unit
IsMap lo (r ∷ rs) = (lo ≤ r.off_start) × (r.off_start ≤ r.off_end) × IsMap (r.off_end + 2) rs

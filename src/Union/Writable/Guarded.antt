-- ===== src/Union/Writable/Guarded.antt =====
-- The search for a writable branch with copying changes only what is writable, and finds a writable
-- branch.
use mathlib.Core.Path.{subst}
use unionfs_fuse.Prelude.{
  ℕ, zero, suc, [], ◌∷◌, ◌≡◌, not, inl, true, false, Bool, Option, none, some, List, get_elem?,
}
use unionfs_fuse.Prelude.Int.{is_code}
use unionfs_fuse.Os.{FilePath, Os}
use unionfs_fuse.Text.{pathlen_max}
use unionfs_fuse.Os.Safe.{
  Guards, Safe, Allowed, safe_rules, Safe-then, Safe-if, Safe-option, Safe-bool, Safe-pure,
}
use unionfs_fuse.Union.{Uopt, BranchEntry}
use unionfs_fuse.Union.Guarded.{Opens, Ours, Ours-OpensMeta, Slashed, branch_at-then}
use unionfs_fuse.Union.Hidden.Guarded.{remove_hidden-Safe}
use unionfs_fuse.Union.Find.{find_lowest_rw_branch}
use unionfs_fuse.Union.Find.Lowest.{is_rw, find_lowest_rw_branch-IsLowest, IsLowest}
use unionfs_fuse.Union.Find.Guarded.{find_rorw_branch-Safe}
use unionfs_fuse.Union.Cow.Guarded.{cow_cp-Safe}
use unionfs_fuse.Union.Writable.{
  copy_up, from_read_only, find_rw_branch_cow_common, find_rw_branch_cow,
}

-- No branch, or one that is writable.
abbrev pub IsWritable : Uopt → Option ℕ → Type 0
IsWritable uopt none = Unit
IsWritable uopt (some i) = (b : BranchEntry) → get_elem? uopt.branches i ≡ some b → b.rw ≡ true

pub IsWritable-Opens : (uopt : Uopt) (i : ℕ) → IsWritable uopt (some i) → Opens (Ours uopt) uopt i
IsWritable-Opens uopt i w b e p h = (i, b, e, inl (w b e, h))

is_rw-IsWritable :
    (branches : List BranchEntry) (i : ℕ) (b : BranchEntry)
    → is_rw branches i ≡ true
    → get_elem? branches i ≡ some b
    → b.rw ≡ true
is_rw-IsWritable [] i b r e = cc
is_rw-IsWritable (c ∷ rest) zero b r e = let f : some c ≡ some b = e in cc
is_rw-IsWritable (c ∷ rest) (suc i) b r e = is_rw-IsWritable rest i b r e

pub found-IsWritable :
    (uopt : Uopt) (i : ℕ) (b : BranchEntry)
    → get_elem? uopt.branches i ≡ some b
    → b.rw ≡ true
    → IsWritable uopt (some i)
found-IsWritable uopt i b e r b' e' = let f : some b ≡ some b' = cc in cc

pub lowest-IsWritable :
    (uopt : Uopt) (ro i : ℕ) → find_lowest_rw_branch uopt ro ≡ some i → IsWritable uopt (some i)
lowest-IsWritable uopt ro i e b f =
    let lowest = subst (IsLowest uopt.branches ro) e (find_lowest_rw_branch-IsLowest uopt ro) in
    is_rw-IsWritable uopt.branches i b lowest.1 f

module _ {S : Os} {P : S.State → Type 0} (uopt : Uopt) (G : Guards S (Allowed (Ours uopt)) P)
    (L : Slashed uopt) (fuel : ℕ) where
  copy_up-Safe :
      (path : FilePath) (ro i : ℕ) (copy_dir : Bool)
      → IsWritable uopt (some i)
      → Safe S P (copy_up S uopt fuel path ro i copy_dir) (IsWritable uopt)
  unfolding copy_up
  copy_up-Safe path ro i copy_dir w =
      Safe-then _ _
        (cow_cp-Safe (Ours uopt) G uopt (Ours-OpensMeta uopt) L fuel pathlen_max path ro i copy_dir
          (IsWritable-Opens uopt i w))
        (λ res.
          Safe-bool (is_code res 0) _ _
            (λ _.
              Safe-then _ _
                (remove_hidden-Safe (Ours uopt) G uopt (Ours-OpensMeta uopt) L path (some i))
                (λ _. Safe-pure (some i) w))
            (λ _. Safe-pure none tt))

  from_read_only-Safe :
      (path : FilePath) (ro : ℕ) (copy_dir : Bool)
      → Safe S P (from_read_only S uopt fuel path ro copy_dir) (IsWritable uopt)
  unfolding from_read_only
  from_read_only-Safe path ro copy_dir =
      Safe-if (not uopt.cow_enabled) _ _
        (λ _. Safe-then _ _ (search safe_rules) (λ _. Safe-pure none tt))
        (λ _.
          Safe-option (find_lowest_rw_branch uopt ro) _ _
            (Safe-then _ _ (search safe_rules) (λ _. Safe-pure none tt))
            (λ i e. copy_up-Safe path ro i copy_dir (lowest-IsWritable uopt ro i e)))

  -- The branch that `find_rw_branch_cow_common` returns is writable, also after a copy, and no change
  -- is made but in writable branches and in metadata directories: what such changes keep true of
  -- the system is true after it. The paths of the branches end in a slash, and calls on descriptors
  -- count as such changes.
  pub find_rw_branch_cow_common-Safe :
      (path : FilePath) (copy_dir : Bool)
      → Safe S P (find_rw_branch_cow_common S uopt fuel path copy_dir) (IsWritable uopt)
  unfolding find_rw_branch_cow_common
  find_rw_branch_cow_common-Safe path copy_dir =
      Safe-then _ _ (find_rorw_branch-Safe uopt path) (λ found.
        Safe-option found _ _ (Safe-pure none tt) (λ ro _. branch_at-then uopt ro _ (λ b e.
          Safe-if b.rw _ _ (λ r. Safe-pure (some ro) (found-IsWritable uopt ro b e r))
            (λ _. from_read_only-Safe path ro copy_dir))))

  pub find_rw_branch_cow-Safe :
      (path : FilePath) → Safe S P (find_rw_branch_cow S uopt fuel path) (IsWritable uopt)
  unfolding find_rw_branch_cow
  find_rw_branch_cow-Safe path = find_rw_branch_cow_common-Safe path false

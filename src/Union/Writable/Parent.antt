-- ===== src/Union/Writable/Parent.antt =====
-- The search for a branch to make a name in changes only what is writable.

use unionfs_fuse.Prelude.{
  ℕ, ◌≡◌, refl, not, ◌&&◌, Option, none, some, length, Option-cases, inl, inr,
}
use unionfs_fuse.Prelude.Int.{is_code}
use unionfs_fuse.Os.{FilePath, Os, World, get_errno, malloc}
use unionfs_fuse.Os.Safe.{
  Guards, Safe, After, Any, Allowed, safe_rules, Safe-bind, Safe-then, Safe-if, Safe-option,
  Safe-fault,
}
use unionfs_fuse.Text.{u_dirname}
use unionfs_fuse.Union.{Uopt, enoent}
use unionfs_fuse.Union.Guarded.{Ours, Slashed, branch_at-then}
use unionfs_fuse.Union.Create.Guarded.{path_create-Safe}
use unionfs_fuse.Union.Find.{find_lowest_rw_branch}
use unionfs_fuse.Union.Find.Guarded.{find_rorw_branch-Safe}
use unionfs_fuse.Union.Writable.{
  agrees, create_parent, target_branch, parent_branch, find_rw_branch_cutlast_hint,
  find_rw_branch_cutlast,
}
use unionfs_fuse.Union.Writable.Guarded.{
  IsWritable, IsWritable-Opens, lowest-IsWritable, find_rw_branch_cow-Safe,
}

-- In this run the search ends without a branch, or with one that is writable.
abbrev pub Writes : (S : Os) → Uopt → Option (Option ℕ × World S) → Type 0
Writes S uopt o = (i : ℕ) (w' : World S) → o ≡ some (some i, w') → IsWritable uopt (some i)

pub Writes-After :
    {S : Os} (P : S.State → Type 0) (uopt : Uopt) (o : Option (Option ℕ × World S))
    → After S P Any o
    → Writes S uopt o
    → After S P (IsWritable uopt) o
Writes-After P uopt none h k = tt
Writes-After P uopt (some (none, w')) h k = (h.0, tt)
Writes-After P uopt (some (some i, w')) h k = (h.0, k i w' refl)

module _ (S : Os) (uopt : Uopt) (fuel : ℕ) where
  pub target_branch-IsWritable :
      (hint : Option ℕ) → IsWritable uopt hint → IsWritable uopt (target_branch S uopt fuel hint)
  unfolding target_branch
  target_branch-IsWritable none h =
      elim (Option-cases (find_lowest_rw_branch uopt (length uopt.branches))) [
        | inl f ↦ rw f tt
        | inr (i, f) ↦ rw f (lowest-IsWritable uopt (length uopt.branches) i f)
      ]
  target_branch-IsWritable (some i) h = h

module _ {S : Os} {P : S.State → Type 0} (uopt : Uopt) (G : Guards S (Allowed (Ours uopt)) P)
    (L : Slashed uopt) (fuel : ℕ) where
  create_parent-Safe :
      (dname : FilePath) (branch : ℕ) (rw : Option ℕ)
      → IsWritable uopt rw
      → Safe S P (create_parent S uopt fuel dname branch rw) Any
  unfolding create_parent
  create_parent-Safe dname branch none h = search safe_rules
  create_parent-Safe dname branch (some i) h =
      Safe-then _ _ (path_create-Safe (Ours uopt) G uopt dname branch i (IsWritable-Opens uopt i h))
        (λ res. search safe_rules)

  parent_branch-Safe :
      (dname : FilePath) (hint : Option ℕ)
      → IsWritable uopt hint
      → Safe S P (parent_branch S uopt fuel dname hint) Any
  unfolding parent_branch
  parent_branch-Safe dname hint h = Safe-then _ _ (find_rorw_branch-Safe uopt dname) (λ found.
      Safe-option found _ _ (search safe_rules) (λ i _. branch_at-then uopt i _ (λ b f.
        Safe-if (b.rw && agrees hint i) _ _ (λ r. search safe_rules)
          (λ _.
            Safe-if (not uopt.cow_enabled) _ _
              (λ _. Safe-then _ _ (search safe_rules) (λ _. search safe_rules))
              (λ _.
                create_parent-Safe dname i (target_branch S uopt fuel hint)
                  (target_branch-IsWritable S uopt fuel hint h))))))

  pub find_rw_branch_cutlast_hint-Safe :
      (path : FilePath) (hint : Option ℕ)
      → IsWritable uopt hint
      → Safe S P (find_rw_branch_cutlast_hint S uopt fuel path hint) Any
  unfolding find_rw_branch_cutlast_hint
  find_rw_branch_cutlast_hint-Safe path hint h =
      Safe-bind _ _ (find_rw_branch_cow-Safe uopt G L fuel path) (λ found w.
        Safe-then (get_errno S) _ (search safe_rules) (λ errno.
          Safe-option found _ _
            (Safe-if (not (is_code errno enoent)) _ _ (λ _. search safe_rules)
              (λ _. Safe-then (malloc S _) _ (search safe_rules) (λ copied.
                Safe-if (not copied) _ _
                  (λ _. Safe-then _ _ (search safe_rules) (λ _. search safe_rules))
                  (λ _.
                    Safe-option (u_dirname path) _ _ Safe-fault
                      (λ dname e. parent_branch-Safe dname hint h)))))
            (λ i e. search safe_rules)))

  pub find_rw_branch_cutlast-Safe :
      (path : FilePath) → Safe S P (find_rw_branch_cutlast S uopt fuel path) Any
  unfolding find_rw_branch_cutlast
  find_rw_branch_cutlast-Safe path = find_rw_branch_cutlast_hint-Safe path none tt

-- ===== src/Union/Find/Guarded.antt =====
-- The search for a branch changes nothing.
use unionfs_fuse.Prelude.{ℕ, ◌+◌, List, [], ◌∷◌}
use unionfs_fuse.Os.{FilePath, Os, lstat}
use unionfs_fuse.Os.Safe.{Safe, Any, safe_rules, Safe-then, Safe-option, Safe-bool}
use unionfs_fuse.Text.{build_path_max}
use unionfs_fuse.Union.{BranchEntry, Uopt}
use unionfs_fuse.Union.Hidden.Guarded.{Safe-hiding, path_hidden_in-Safe}
use unionfs_fuse.Union.Find.{Searchflag, accepts, find_from, find_branch, find_rorw_branch}

module _ {S : Os} {P : S.State → Type 0} (uopt : Uopt) where
  find_from-Safe :
      (flag : Searchflag) (path : FilePath) (branches : List BranchEntry) (i : ℕ)
      → Safe S P (find_from S uopt flag path branches i) Any
  unfolding find_from
  find_from-Safe flag path [] i = search safe_rules
  find_from-Safe flag path (b ∷ rest) i =
      Safe-option (build_path_max (b.path ∷ path ∷ [])) _ _ (search safe_rules) (λ p _.
        Safe-then (lstat S p) _ (search safe_rules) (λ res.
          Safe-bool (accepts flag b res) _ _ (λ _. search safe_rules)
            (λ _. Safe-then _ _ (path_hidden_in-Safe uopt b path) (λ w.
              Safe-hiding w _ _ _ (find_from-Safe flag path rest (i + 1)) (search safe_rules)
                (λ e. search safe_rules)))))

  pub find_rorw_branch-Safe : (path : FilePath) → Safe S P (find_rorw_branch S uopt path) Any
  unfolding find_rorw_branch find_branch
  find_rorw_branch-Safe path = find_from-Safe _ path uopt.branches 0

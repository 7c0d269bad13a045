-- ===== src/Union/Hidden/Guarded.antt =====
-- The search for whiteouts changes nothing, and `remove_hidden` only the metadata directories.
use unionfs_fuse.Prelude.{
  ℕ, zero, suc, ◌+◌, ◌≡◌, refl, not, length, ltb, ◌==◌, List, [], ◌∷◌, ◌++◌, Option, some,
  get_elem?,
}
use unionfs_fuse.Os.{FilePath, Os, World}
use unionfs_fuse.Os.Monad.{M}
use unionfs_fuse.Os.Safe.{
  Guards, Safe, Any, Allowed, act-Safe, safe_rules, Safe-then, Safe-if, Safe-option, Safe-bool,
  Safe-fault,
}
use unionfs_fuse.Text.{skip_slashes, hidetag, pathlen_max, build_path_max}
use unionfs_fuse.Text.Prefix.{begins-longer, build_path_max-begins_two}
use unionfs_fuse.Union.{BranchEntry, Uopt, metadir}
use unionfs_fuse.Union.Guarded.{OpensMeta, branch_at-then, Slashed}
use unionfs_fuse.Union.Hidden.{
  Hiding, visible, hidden, failure, Filetype, not_existing, is_dir, is_file, filedir_hidden,
  any_hidden, hidden_below, path_hidden_in, path_is_dir, remove_one, remove_from, remove_hidden,
}

module _ {S : Os} {P : S.State → Type 0} {B : Type 0} {Q : B → Type 0} where
  pub Safe-hiding :
      (r : Hiding) (m n : M (World S) B) (k : ℕ → M (World S) B)
      → Safe S P m Q
      → Safe S P n Q
      → ((e : ℕ) → Safe S P (k e) Q)
      → Safe S P (elim r [ visible ↦ m | hidden ↦ n | failure e ↦ k e ]) Q
  Safe-hiding visible m n k h1 h2 h3 = h1
  Safe-hiding hidden m n k h1 h2 h3 = h2
  Safe-hiding (failure e) m n k h1 h2 h3 = h3 e

  pub Safe-filetype :
      (r : Filetype) (m n l : M (World S) B)
      → Safe S P m Q
      → Safe S P n Q
      → Safe S P l Q
      → Safe S P (elim r [ not_existing ↦ m | is_dir ↦ n | is_file ↦ l ]) Q
  Safe-filetype not_existing m n l h1 h2 h3 = h1
  Safe-filetype is_dir m n l h1 h2 h3 = h2
  Safe-filetype is_file m n l h1 h2 h3 = h3

module _ {S : Os} {P : S.State → Type 0} (uopt : Uopt) where
  filedir_hidden-Safe : (path : FilePath) → Safe S P (filedir_hidden S uopt path) Any
  unfolding filedir_hidden
  filedir_hidden-Safe path =
      Safe-if (not uopt.cow_enabled) _ _ (λ _. search safe_rules)
        (λ _.
          Safe-if (ltb pathlen_max (length path + length hidetag)) _ _ (λ _. search safe_rules)
            (λ _.
              Safe-then _ _ (search safe_rules)
                (λ res. Safe-option res _ _ (search safe_rules) (λ _ _. search safe_rules))))

  any_hidden-Safe : (ps : List FilePath) → Safe S P (any_hidden S uopt ps) Any
  unfolding any_hidden
  any_hidden-Safe [] = search safe_rules
  any_hidden-Safe (p ∷ ps) =
      Safe-then _ _ (filedir_hidden-Safe p)
        (λ r. Safe-hiding r _ _ _ (any_hidden-Safe ps) (search safe_rules) (λ e. search safe_rules))

  hidden_below-Safe : (b : BranchEntry) (p : FilePath) → Safe S P (hidden_below S uopt b p) Any
  unfolding hidden_below
  hidden_below-Safe b p = search (safe_rules, any_hidden-Safe)

  pub path_hidden_in-Safe :
      (b : BranchEntry) (path : FilePath) → Safe S P (path_hidden_in S uopt b path) Any
  unfolding path_hidden_in
  path_hidden_in-Safe b path =
      Safe-if (not uopt.cow_enabled) _ _ (λ _. search safe_rules)
        (λ _.
          Safe-option (build_path_max (b.path ∷ metadir ∷ path ∷ [])) _ _ (search safe_rules)
            (λ p _. hidden_below-Safe b p))

  pub path_is_dir-Safe : (path : FilePath) → Safe S P (path_is_dir S uopt path) Any
  unfolding path_is_dir
  path_is_dir-Safe path =
      Safe-then _ _ (search safe_rules)
        (λ buf. Safe-option buf _ _ (search safe_rules) (λ _ _. search safe_rules))

module _ {S : Os} {P : S.State → Type 0} (Ours : FilePath → Type 0) (G : Guards S (Allowed Ours) P)
    (uopt : Uopt) (M : OpensMeta Ours uopt) (L : Slashed uopt) where
  remove_one-Safe :
      (path : FilePath) (i : ℕ) (b : BranchEntry)
      → get_elem? uopt.branches i ≡ some b
      → Safe S P (remove_one S uopt path b) Any
  unfolding remove_one skip_slashes
  remove_one-Safe path i b e =
      Safe-option (build_path_max (b.path ∷ metadir ∷ path ∷ [])) _ _ (search safe_rules) (λ p f.
        let inside = M i b e (p ++ hidetag) (
          begins-longer _ p hidetag
            (build_path_max-begins_two b.path metadir (path ∷ []) p (L i b e) refl f)) in
        Safe-if (ltb pathlen_max (length p + length hidetag)) _ _ (λ _. search safe_rules)
          (λ _.
            Safe-if (length p + length hidetag == pathlen_max) _ _ (λ _. Safe-fault)
              (λ _. Safe-then _ _ (path_is_dir-Safe uopt (p ++ hidetag)) (λ kind.
                Safe-filetype kind _ _ _ (search safe_rules)
                  (search (safe_rules, act-Safe Ours G, inside))
                  (search (safe_rules, act-Safe Ours G, inside))))))

  remove_from-Safe :
      (path : FilePath) (rounds i : ℕ) → Safe S P (remove_from S uopt path rounds i) Any
  unfolding remove_from
  remove_from-Safe path zero i = search safe_rules
  remove_from-Safe path (suc rounds) i = branch_at-then uopt i _ (λ b e.
      Safe-then _ _ (remove_one-Safe path i b e) (λ going.
        Safe-bool going _ _ (λ _. remove_from-Safe path rounds (i + 1)) (λ _. search safe_rules)))

  pub remove_hidden-Safe :
      (path : FilePath) (top : Option ℕ) → Safe S P (remove_hidden S uopt path top) Any
  unfolding remove_hidden
  remove_hidden-Safe path top =
      Safe-if (not uopt.cow_enabled) _ _ (λ _. search safe_rules) (λ _. remove_from-Safe path _ 0)

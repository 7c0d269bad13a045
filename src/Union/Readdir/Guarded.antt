-- ===== src/Union/Readdir/Guarded.antt =====
-- Reading directories changes nothing.
use unionfs_fuse.Prelude.{Bool, List, [], ◌∷◌}
use unionfs_fuse.Os.{FilePath, Os}
use unionfs_fuse.Os.Safe.{Safe, Any, safe_rules, Safe-then, Safe-option, Safe-bool}
use unionfs_fuse.Text.{build_path_max}
use unionfs_fuse.Union.{BranchEntry, Uopt, metadir}
use unionfs_fuse.Union.Hidden.Guarded.{Safe-hiding, path_hidden_in-Safe}
use unionfs_fuse.Union.Readdir.{
  NameSet, Listing, read_whiteouts, more_whiteouts, add_directory, readdir_from, unionfs_readdir,
  directory_has_entry, not_empty_from, dir_not_empty,
}

module _ {S : Os} {P : S.State → Type 0} (T : NameSet) (filler : List FilePath → FilePath → Bool)
    (uopt : Uopt) where
  read_whiteouts-Safe :
      (b : BranchEntry) (path : FilePath) (t : T.Table)
      → Safe S P (read_whiteouts S T filler uopt b path t) Any
  unfolding read_whiteouts
  read_whiteouts-Safe b path t =
      Safe-option (build_path_max (b.path ∷ metadir ∷ path ∷ [])) _ _ (search safe_rules)
        (λ p _. search safe_rules)

  more_whiteouts-Safe :
      (b : BranchEntry) (path : FilePath) (t : T.Table)
      → Safe S P (more_whiteouts S T filler uopt b path t) Any
  unfolding more_whiteouts
  more_whiteouts-Safe b path t = search (safe_rules, read_whiteouts-Safe)

  add_directory-Safe :
      (b : BranchEntry) (p : FilePath) (t : T.Table) (l : Listing T)
      → Safe S P (add_directory S T filler uopt b p t l) Any
  unfolding add_directory
  add_directory-Safe b p t l = search safe_rules

  readdir_from-Safe :
      (path : FilePath) (branches : List BranchEntry) (t : T.Table) (l : Listing T)
      → Safe S P (readdir_from S T filler uopt path branches t l) Any
  unfolding readdir_from
  readdir_from-Safe path [] t l = search safe_rules
  readdir_from-Safe path (b ∷ rest) t l =
      Safe-option (build_path_max (b.path ∷ path ∷ [])) _ _ (search safe_rules) (λ p _.
        Safe-then _ _ (path_hidden_in-Safe uopt b path) (λ res.
          Safe-hiding res _ _ _
            (Safe-then _ _ (add_directory-Safe b p t l) (λ l'.
              Safe-then _ _ (more_whiteouts-Safe b path t)
                (λ t'. readdir_from-Safe path rest t' l')))
            (Safe-then _ _ (add_directory-Safe b p t l)
              (λ l'. Safe-then _ _ (more_whiteouts-Safe b path t) (λ _. search safe_rules)))
            (λ e. search safe_rules)))

  pub unionfs_readdir-Safe : (path : FilePath) → Safe S P (unionfs_readdir S T filler uopt path) Any
  unfolding unionfs_readdir
  unionfs_readdir-Safe path = readdir_from-Safe path uopt.branches _ _

  directory_has_entry-Safe :
      (b : BranchEntry) (p : FilePath) (t : T.Table)
      → Safe S P (directory_has_entry S T filler uopt b p t) Any
  unfolding directory_has_entry
  directory_has_entry-Safe b p t = search safe_rules

  not_empty_from-Safe :
      (path : FilePath) (branches : List BranchEntry) (t : T.Table)
      → Safe S P (not_empty_from S T filler uopt path branches t) Any
  unfolding not_empty_from
  not_empty_from-Safe path [] t = search safe_rules
  not_empty_from-Safe path (b ∷ rest) t =
      Safe-option (build_path_max (b.path ∷ path ∷ [])) _ _ (search safe_rules) (λ p _.
        Safe-then _ _ (path_hidden_in-Safe uopt b path) (λ res.
          Safe-hiding res _ _ _
            (Safe-then _ _ (directory_has_entry-Safe b p t) (λ found.
              Safe-bool found _ _ (λ _. search safe_rules)
                (λ _.
                  Safe-then _ _ (more_whiteouts-Safe b path t)
                    (λ t'. not_empty_from-Safe path rest t'))))
            (Safe-then _ _ (directory_has_entry-Safe b p t) (λ found.
              Safe-bool found _ _ (λ _. search safe_rules)
                (λ _. Safe-then _ _ (more_whiteouts-Safe b path t) (λ _. search safe_rules))))
            (λ e. search safe_rules)))

  pub dir_not_empty-Safe : (path : FilePath) → Safe S P (dir_not_empty S T filler uopt path) Any
  unfolding dir_not_empty
  dir_not_empty-Safe path = not_empty_from-Safe path uopt.branches _

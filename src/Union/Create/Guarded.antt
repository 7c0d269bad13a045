-- ===== src/Union/Create/Guarded.antt =====
-- `path_create` of src/cow.c and `setfile` of src/cow_utils.c change only what they are told to.
use unionfs_fuse.Prelude.{ℕ, ◌≡◌, true, List, [], ◌∷◌, not, ◌==◌}
use unionfs_fuse.Os.{World, FilePath, Os, Stat, stat, malloc}
use unionfs_fuse.Os.Monad.{M, ◌>>=◌}
use unionfs_fuse.Os.Safe.{
  Guards, Safe, Any, Allowed, act-Safe, safe_rules, Safe-bind, Safe-then, Safe-if, Safe-option,
  Safe-bool, Safe-fault,
}
use unionfs_fuse.Text.{begins, build_path_max, u_dirname}
use unionfs_fuse.Text.Prefix.{begins-append}
use unionfs_fuse.Union.{Uopt}
use unionfs_fuse.Union.Guarded.{Opens, branch_at-then}
use unionfs_fuse.Union.Create.{
  chown_file, setfile, sprintf_path, source_stat, copied_dir, do_create, create_all, path_create,
  path_create_cutlast,
}

module _ {S : Os} {P : S.State → Type 0} (Ours : FilePath → Type 0)
    (G : Guards S (Allowed Ours) P) where
  chown_file-Safe : (p : FilePath) (st : Stat) → Ours p → Safe S P (chown_file S p st) Any
  unfolding chown_file
  chown_file-Safe p st h = search (safe_rules, act-Safe Ours G, h)

  pub setfile-Safe : (p : FilePath) (st : Stat) → Ours p → Safe S P (setfile S p st) Any
  unfolding setfile
  setfile-Safe p st h = search (safe_rules, act-Safe Ours G, chown_file-Safe, h)

  sprintf_path-Safe :
      (branch path : FilePath) → Safe S P (sprintf_path S branch path) (λ p. begins branch p ≡ true)
  unfolding sprintf_path
  sprintf_path-Safe branch path = search (safe_rules, begins-append)

  sprintf_path-then :
      {B : Type 0} {Q : B → Type 0} (branch path : FilePath) (k : FilePath → M (World S) B)
      → ((p : FilePath) → begins branch p ≡ true → Safe S P (k p) Q)
      → Safe S P (sprintf_path S branch path >>= k) Q
  sprintf_path-then branch path k h =
      Safe-bind (sprintf_path S branch path) k (sprintf_path-Safe branch path) h

module _ {S : Os} {P : S.State → Type 0} (Ours : FilePath → Type 0) (G : Guards S (Allowed Ours) P)
    (uopt : Uopt) where
  source_stat-Safe : (path : FilePath) (i : ℕ) → Safe S P (source_stat S uopt path i) Any
  unfolding source_stat
  source_stat-Safe path i = search (branch_at-then, sprintf_path-then Ours G, safe_rules)

  copied_dir-Safe : (p : FilePath) (st : Stat) → Ours p → Safe S P (copied_dir S uopt p st) Any
  unfolding copied_dir
  copied_dir-Safe p st h = search (safe_rules, act-Safe Ours G, setfile-Safe Ours G, h)

  do_create-Safe :
      (path : FilePath) (ro i : ℕ) → Opens Ours uopt i → Safe S P (do_create S uopt path ro i) Any
  unfolding do_create
  do_create-Safe path ro i W = branch_at-then uopt i _ (λ b e.
      sprintf_path-then Ours G b.path path _ (λ p f.
        Safe-then (stat S p) _ (search safe_rules) (λ found.
          Safe-option found _ _
            (Safe-if (ro == i) _ _ (λ _. search (safe_rules, act-Safe Ours G, W b e p f))
              (λ _. Safe-then _ _ (source_stat-Safe path ro) (λ buf.
                Safe-option buf _ _ (search safe_rules)
                  (λ st _. copied_dir-Safe p st (W b e p f)))))
            (λ _ _. search safe_rules))))

  create_all-Safe :
      (ps : List FilePath) (ro i : ℕ) → Opens Ours uopt i → Safe S P (create_all S uopt ps ro i) Any
  unfolding create_all
  create_all-Safe [] ro i W = search safe_rules
  create_all-Safe (p ∷ ps) ro i W =
      Safe-then _ _ (do_create-Safe p ro i W)
        (λ made. Safe-bool made _ _ (λ _. create_all-Safe ps ro i W) (λ _. search safe_rules))

  pub path_create-Safe :
      (path : FilePath) (ro i : ℕ) → Opens Ours uopt i → Safe S P (path_create S uopt path ro i) Any
  unfolding path_create
  path_create-Safe path ro i W =
      Safe-if (not uopt.cow_enabled) _ _ (λ _. search safe_rules)
        (λ _. branch_at-then uopt i _ (λ b e.
          Safe-option (build_path_max (b.path ∷ path ∷ [])) _ _ (search safe_rules) (λ p f.
            Safe-then (stat S p) _ (search safe_rules)
              (λ st. Safe-option st _ _ (create_all-Safe _ ro i W) (λ _ _. search safe_rules)))))

  pub path_create_cutlast-Safe :
      (path : FilePath) (ro i : ℕ)
      → Opens Ours uopt i
      → Safe S P (path_create_cutlast S uopt path ro i) Any
  unfolding path_create_cutlast
  path_create_cutlast-Safe path ro i W = Safe-then (malloc S _) _ (search safe_rules) (λ c.
      Safe-if (not c) _ _ (λ _. search safe_rules)
        (λ _. Safe-option (u_dirname path) _ _ Safe-fault (λ d e. path_create-Safe d ro i W)))

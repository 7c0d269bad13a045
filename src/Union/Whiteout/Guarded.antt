-- ===== src/Union/Whiteout/Guarded.antt =====
-- Whiteouts are made only in the branch that is told.
use unionfs_fuse.Prelude.{ℕ, inr, [], ◌∷◌, ◌++◌, ◌+◌, length, ltb}
use unionfs_fuse.Os.{FilePath, Os}
use unionfs_fuse.Os.Safe.{
  Guards, Safe, Any, Allowed, safe_rules, Safe-then, Safe-option, Safe-if, Safe-fault, act-Safe,
}
use unionfs_fuse.Text.{build_path_max, hidetag, pathlen_max}
use unionfs_fuse.Text.Prefix.{begins-longer, build_path_max-begins}
use unionfs_fuse.Union.Find.Guarded.{find_rorw_branch-Safe}
use unionfs_fuse.Union.{Uopt, metadir}
use unionfs_fuse.Union.Guarded.{Opens, branch_at-then}
use unionfs_fuse.Union.Create.Guarded.{path_create_cutlast-Safe}
use unionfs_fuse.Union.Whiteout.{
  Whiteout, whiteout_file, whiteout_dir, make_whiteout, do_create_whiteout, hide_file, hide_dir,
  maybe_whiteout, create_metapath,
}

module _ {S : Os} {P : S.State → Type 0} (Ours : FilePath → Type 0) (G : Guards S (Allowed Ours) P)
    (uopt : Uopt) where
  pub create_metapath-Safe :
      (path : FilePath) (i : ℕ) → Opens Ours uopt i → Safe S P (create_metapath S uopt path i) Any
  unfolding create_metapath
  create_metapath-Safe path i W =
      Safe-option (build_path_max (metadir ∷ path ∷ [])) _ _ (search safe_rules) (λ p _.
        Safe-then _ _ (path_create_cutlast-Safe Ours G uopt p i i W) (λ _. search safe_rules))

  make_whiteout-Safe :
      (p : FilePath) (mode : Whiteout) → Ours p → Safe S P (make_whiteout S uopt p mode) Any
  unfolding make_whiteout
  make_whiteout-Safe p whiteout_dir h = search (safe_rules, act-Safe Ours G, h)
  make_whiteout-Safe p whiteout_file h = Safe-then _ _ (act-Safe Ours G _ (inr h)) (λ res.
      Safe-option res _ _ (search safe_rules) (λ fd _. search (safe_rules, act-Safe Ours G)))

  pub do_create_whiteout-Safe :
      (path : FilePath) (i : ℕ) (mode : Whiteout)
      → Opens Ours uopt i
      → Safe S P (do_create_whiteout S uopt path i mode) Any
  unfolding do_create_whiteout
  do_create_whiteout-Safe path i mode W =
      Safe-option (build_path_max (metadir ∷ path ∷ [])) _ _ (search safe_rules) (λ meta _.
        Safe-then _ _ (path_create_cutlast-Safe Ours G uopt meta i i W) (λ _.
          branch_at-then uopt i _ (λ b e.
            Safe-option (build_path_max (b.path ∷ meta ∷ [])) _ _ (search safe_rules) (λ p f.
              Safe-if (ltb (length p + length hidetag) pathlen_max) _ _
                (λ _.
                  make_whiteout-Safe (p ++ hidetag) mode
                    (W b e _ (begins-longer b.path p hidetag (build_path_max-begins b.path _ p f))))
                (λ _. Safe-fault)))))

  pub hide_file-Safe :
      (path : FilePath) (i : ℕ) → Opens Ours uopt i → Safe S P (hide_file S uopt path i) Any
  unfolding hide_file
  hide_file-Safe path i W = do_create_whiteout-Safe path i whiteout_file W

  pub hide_dir-Safe :
      (path : FilePath) (i : ℕ) → Opens Ours uopt i → Safe S P (hide_dir S uopt path i) Any
  unfolding hide_dir
  hide_dir-Safe path i W = do_create_whiteout-Safe path i whiteout_dir W

  pub maybe_whiteout-Safe :
      (path : FilePath) (i : ℕ) (mode : Whiteout)
      → Opens Ours uopt i
      → Safe S P (maybe_whiteout S uopt path i mode) Any
  unfolding maybe_whiteout
  maybe_whiteout-Safe path i mode W = Safe-then _ _ (find_rorw_branch-Safe uopt path) (λ found.
      Safe-option found _ _ (search safe_rules) (λ _ _. do_create_whiteout-Safe path i mode W))

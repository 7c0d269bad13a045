-- ===== src/Union/Cow/Guarded.antt =====
-- `cow_cp` of src/cow.c changes only the branch that it copies to.
use unionfs_fuse.Prelude.{ℕ, zero, suc, ◌||◌, Bool, true, false, List, [], ◌∷◌, codes}
use unionfs_fuse.Prelude.Int.{is_code}
use unionfs_fuse.Os.{FilePath, Os, lstat, opendir}
use unionfs_fuse.Os.Safe.{
  Guards, Safe, Any, Allowed, safe_rules, Safe-then, Safe-option, Safe-bool, Safe-fault,
}
use unionfs_fuse.Text.{build_path_max}
use unionfs_fuse.Text.Prefix.{build_path_max-begins}
use unionfs_fuse.Union.{Uopt}
use unionfs_fuse.Union.Guarded.{Opens, OpensMeta, Slashed, branch_at-then}
use unionfs_fuse.Union.Create.Guarded.{path_create-Safe, path_create_cutlast-Safe}
use unionfs_fuse.Union.Copy.{Cow}
use unionfs_fuse.Union.Copy.Guarded.{
  copy_file-Safe, copy_link-Safe, copy_fifo-Safe, copy_special-Safe, create_sparse_file-Safe,
}
use unionfs_fuse.Union.Datamap.Guarded.{cowolf_create_datamap-Safe, cowolf_destroy_datamap-Safe}
use unionfs_fuse.Union.Readdir.{same}
use unionfs_fuse.Union.Cow.{
  Kind, link_kind, dir_kind, special_kind, fifo_kind, socket_kind, other_kind, kind_of, DirCopy,
  copy_regular, copy_kind, copy_from_to, cow_cp_by, copy_members, copy_entries, copy_directory,
  cow_cp,
}

module _ {S : Os} {P : S.State → Type 0} (Ours : FilePath → Type 0) (G : Guards S (Allowed Ours) P)
    (uopt : Uopt) (M : OpensMeta Ours uopt) (L : Slashed uopt) (fuel : ℕ) where
  copy_regular-Safe :
      (cow : Cow) (path : FilePath) (i : ℕ)
      → Ours cow.to_path
      → Opens Ours uopt i
      → Safe S P (copy_regular S uopt fuel cow path i) Any
  unfolding copy_regular
  copy_regular-Safe cow path i h W =
      Safe-then _ _ (cowolf_create_datamap-Safe Ours G uopt M L path i cow.stat.st_size W)
        (λ created.
          Safe-bool created _ _
            (λ _. Safe-then _ _ (create_sparse_file-Safe Ours G cow h) (λ res.
              Safe-bool res _ _ (λ _. search safe_rules)
                (λ _.
                  Safe-then _ _ (cowolf_destroy_datamap-Safe Ours G uopt M L path i)
                    (λ _. search safe_rules))))
            (λ _. Safe-then _ _ (copy_file-Safe Ours G fuel cow h) (λ _. search safe_rules)))

  -- A way to copy directories that changes only the branch that is copied to.
  abbrev IsSafeCopy : DirCopy S → Type 0
  IsSafeCopy copy_dirs =
      (path : FilePath) (ro i : ℕ) → Opens Ours uopt i → Safe S P (copy_dirs path ro i) Any

  module _ (copy_dirs : DirCopy S) (D : IsSafeCopy copy_dirs) where
    copy_kind-Safe :
        (kind : Kind) (cow : Cow) (path : FilePath) (ro i : ℕ) (copy_dir : Bool)
        → Ours cow.to_path
        → Opens Ours uopt i
        → Safe S P (copy_kind S uopt fuel copy_dirs kind cow path ro i copy_dir) Any
    unfolding copy_kind
    copy_kind-Safe link_kind cow path ro i copy_dir h W =
        Safe-then _ _ (copy_link-Safe Ours G cow h) (λ _. search safe_rules)
    copy_kind-Safe dir_kind cow path ro i false h W = path_create-Safe Ours G uopt path ro i W
    copy_kind-Safe dir_kind cow path ro i true h W = D path ro i W
    copy_kind-Safe special_kind cow path ro i copy_dir h W =
        Safe-then _ _ (copy_special-Safe Ours G cow h) (λ _. search safe_rules)
    copy_kind-Safe fifo_kind cow path ro i copy_dir h W =
        Safe-then _ _ (copy_fifo-Safe Ours G cow h) (λ _. search safe_rules)
    copy_kind-Safe socket_kind cow path ro i copy_dir h W = search safe_rules
    copy_kind-Safe other_kind cow path ro i copy_dir h W = copy_regular-Safe cow path i h W

    copy_from_to-Safe :
        (from to path : FilePath) (ro i : ℕ) (copy_dir : Bool)
        → Ours to
        → Opens Ours uopt i
        → Safe S P (copy_from_to S uopt fuel copy_dirs from to path ro i copy_dir) Any
    unfolding copy_from_to
    copy_from_to-Safe from to path ro i copy_dir h W = Safe-then _ _ (search safe_rules) (λ uid.
        Safe-then _ _ (search safe_rules) (λ umask.
          Safe-then (lstat S from) _ (search safe_rules) (λ buf.
            Safe-option buf _ _ Safe-fault
              (λ st _. copy_kind-Safe (kind_of st.st_mode) _ path ro i copy_dir h W))))

    cow_cp_by-Safe :
        (path : FilePath) (ro i : ℕ) (copy_dir : Bool)
        → Opens Ours uopt i
        → Safe S P (cow_cp_by S uopt fuel copy_dirs path ro i copy_dir) Any
    unfolding cow_cp_by
    cow_cp_by-Safe path ro i copy_dir W =
        Safe-then _ _ (path_create_cutlast-Safe Ours G uopt path ro i W) (λ _.
          branch_at-then uopt ro _ (λ a _. branch_at-then uopt i _ (λ b e.
            Safe-option (build_path_max (a.path ∷ path ∷ [])) _ _ (search safe_rules) (λ from _.
              Safe-option (build_path_max (b.path ∷ path ∷ [])) _ _ (search safe_rules) (λ to f.
                copy_from_to-Safe from to path ro i copy_dir
                  (W b e to (build_path_max-begins b.path _ to f)) W)))))

    copy_members-Safe :
        (path : FilePath) (ro i : ℕ) (names : List FilePath)
        → Opens Ours uopt i
        → Safe S P (copy_members S uopt fuel copy_dirs path ro i names) Any
    unfolding copy_members
    copy_members-Safe path ro i [] W = search safe_rules
    copy_members-Safe path ro i (name ∷ rest) W =
        Safe-bool (same name (codes ".") || same name (codes "..")) _ _
          (λ _. copy_members-Safe path ro i rest W)
          (λ _.
            Safe-option (build_path_max (path ∷ codes "/" ∷ name ∷ [])) _ _ (search safe_rules)
              (λ member _. Safe-then _ _ (cow_cp_by-Safe member ro i true W) (λ res.
                Safe-bool (is_code res 0) _ _ (λ _. copy_members-Safe path ro i rest W)
                  (λ _. search safe_rules))))

    copy_entries-Safe :
        (path : FilePath) (ro i : ℕ)
        → Opens Ours uopt i
        → Safe S P (copy_entries S uopt fuel copy_dirs path ro i) Any
    unfolding copy_entries
    copy_entries-Safe path ro i W = branch_at-then uopt ro _ (λ b _.
        Safe-option (build_path_max (b.path ∷ path ∷ [])) _ _ (search safe_rules) (λ from _.
          Safe-then (opendir S from) _ (search safe_rules) (λ dp.
            Safe-option dp _ _ (search safe_rules)
              (λ names _. copy_members-Safe path ro i names W))))

  copy_directory-Safe : (depth : ℕ) → IsSafeCopy (copy_directory S uopt fuel depth)
  unfolding copy_directory
  copy_directory-Safe zero path ro i W = Safe-fault
  copy_directory-Safe (suc depth) path ro i W =
      Safe-then _ _ (path_create-Safe Ours G uopt path ro i W) (λ res.
        Safe-bool (is_code res 0) _ _
          (λ _.
            copy_entries-Safe (copy_directory S uopt fuel depth) (copy_directory-Safe depth) path ro
              i W)
          (λ _. search safe_rules))

  pub cow_cp-Safe :
      (depth : ℕ) (path : FilePath) (ro i : ℕ) (copy_dir : Bool)
      → Opens Ours uopt i
      → Safe S P (cow_cp S uopt fuel depth path ro i copy_dir) Any
  unfolding cow_cp
  cow_cp-Safe depth path ro i copy_dir W =
      cow_cp_by-Safe (copy_directory S uopt fuel depth) (copy_directory-Safe depth) path ro i
        copy_dir W

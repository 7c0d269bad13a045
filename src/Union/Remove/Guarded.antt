-- ===== src/Union/Remove/Guarded.antt =====
-- The handlers of src/unlink.c and src/rmdir.c change no branch that is read-only, but for its
-- metadata directory.
use unionfs_fuse.Prelude.{ℕ, ◌≡◌, refl, Bool, true, false, not, some, [], ◌∷◌}
use unionfs_fuse.Os.{FilePath, Os, Call}
use unionfs_fuse.Os.Safe.{
  Guards, Safe, Any, Allowed, act-Safe, safe_rules, Safe-then, Safe-if, Safe-option, Safe-bool,
}
use unionfs_fuse.Text.{build_path_max}
use unionfs_fuse.Text.Prefix.{build_path_max-begins}
use unionfs_fuse.Union.{Uopt}
use unionfs_fuse.Union.Guarded.{Opens, Ours, Ours-OpensMeta, Slashed, branch_at-then}
use unionfs_fuse.Union.Find.{find_lowest_rw_branch}
use unionfs_fuse.Union.Find.Guarded.{find_rorw_branch-Safe}
use unionfs_fuse.Union.Whiteout.{whiteout_file, whiteout_dir}
use unionfs_fuse.Union.Whiteout.Guarded.{hide_file-Safe, hide_dir-Safe, maybe_whiteout-Safe}
use unionfs_fuse.Union.Datamap.Guarded.{cowolf_destroy_datamap-Safe}
use unionfs_fuse.Union.Readdir.{NameSet}
use unionfs_fuse.Union.Readdir.Guarded.{dir_not_empty-Safe}
use unionfs_fuse.Union.Writable.Guarded.{IsWritable-Opens, lowest-IsWritable, found-IsWritable}
use unionfs_fuse.Union.Remove.{
  is_success, errno_unless, unlink_ro, call_rw, unlink_rw, unlink_writable, unlink_found,
  unionfs_unlink, rmdir_rw, rmdir_ro, rmdir_writable, rmdir_found, rmdir_empty, unionfs_rmdir,
}

not-false : (b : Bool) → not b ≡ false → b ≡ true
not-false true e = refl
not-false false e = cc

module _ {S : Os} {P : S.State → Type 0} (uopt : Uopt) (G : Guards S (Allowed (Ours uopt)) P)
    (L : Slashed uopt) where
  errno_unless-Safe : (done : Bool) → Safe S P (errno_unless S uopt done) Any
  unfolding errno_unless
  errno_unless-Safe done = search safe_rules

  lowest-Opens : (ro i : ℕ) → find_lowest_rw_branch uopt ro ≡ some i → Opens (Ours uopt) uopt i
  lowest-Opens ro i e = IsWritable-Opens uopt i (lowest-IsWritable uopt ro i e)

  unlink_ro-Safe : (path : FilePath) (ro : ℕ) → Safe S P (unlink_ro S uopt path ro) Any
  unfolding unlink_ro
  unlink_ro-Safe path ro =
      Safe-option (find_lowest_rw_branch uopt ro) _ _ (search safe_rules) (λ i e.
        Safe-then _ _ (hide_file-Safe (Ours uopt) G uopt path i (lowest-Opens ro i e))
          (λ made. errno_unless-Safe made))

  call_rw-Safe :
      (call : FilePath → Call) (path : FilePath) (i : ℕ)
      → Opens (Ours uopt) uopt i
      → ((p : FilePath) → Ours uopt p → Allowed (Ours uopt) (call p))
      → Safe S P (call_rw S uopt call path i) Any
  unfolding call_rw
  call_rw-Safe call path i W h = branch_at-then uopt i _ (λ b e.
      Safe-option (build_path_max (b.path ∷ path ∷ [])) _ _ (search safe_rules) (λ p f.
        Safe-then _ _
          (act-Safe (Ours uopt) G (call p) (h p (W b e p (build_path_max-begins b.path _ p f))))
          (λ res. errno_unless-Safe _)))

  unlink_writable-Safe :
      (path : FilePath) (i : ℕ)
      → Opens (Ours uopt) uopt i
      → Safe S P (unlink_writable S uopt path i) Any
  unfolding unlink_writable unlink_rw
  unlink_writable-Safe path i W =
      Safe-then _ _ (call_rw-Safe Call.unlink path i W (λ p h. h)) (λ res.
        Safe-bool (is_success res) _ _
          (λ _.
            Safe-then _ _ (maybe_whiteout-Safe (Ours uopt) G uopt path i whiteout_file W)
              (λ _. search safe_rules))
          (λ _. search safe_rules))

  unlink_found-Safe : (path : FilePath) (i : ℕ) → Safe S P (unlink_found S uopt path i) Any
  unfolding unlink_found
  unlink_found-Safe path i = branch_at-then uopt i _ (λ b e.
      Safe-then _ _
        (Safe-if (not b.rw) _ _ (λ _. search (safe_rules, unlink_ro-Safe))
          (λ r.
            unlink_writable-Safe path i
              (IsWritable-Opens uopt i (found-IsWritable uopt i b e (not-false b.rw r)))))
        (λ res.
          Safe-then _ _
            (cowolf_destroy_datamap-Safe (Ours uopt) G uopt (Ours-OpensMeta uopt) L path i)
            (λ _. search safe_rules)))

  unionfs_unlink-Safe : (path : FilePath) → Safe S P (unionfs_unlink S uopt path) Any
  unfolding unionfs_unlink
  unionfs_unlink-Safe path =
      Safe-then _ _ (find_rorw_branch-Safe uopt path)
        (λ i. Safe-option i _ _ (search safe_rules) (λ i _. unlink_found-Safe path i))

  rmdir_ro-Safe : (path : FilePath) (ro : ℕ) → Safe S P (rmdir_ro S uopt path ro) Any
  unfolding rmdir_ro
  rmdir_ro-Safe path ro =
      Safe-option (find_lowest_rw_branch uopt ro) _ _ (search safe_rules) (λ i e.
        Safe-then _ _ (hide_dir-Safe (Ours uopt) G uopt path i (lowest-Opens ro i e))
          (λ made. Safe-bool made _ _ (λ _. search safe_rules) (λ _. search safe_rules)))

  rmdir_writable-Safe :
      (path : FilePath) (i : ℕ)
      → Opens (Ours uopt) uopt i
      → Safe S P (rmdir_writable S uopt path i) Any
  unfolding rmdir_writable rmdir_rw
  rmdir_writable-Safe path i W = Safe-then _ _ (call_rw-Safe Call.rmdir path i W (λ p h. h)) (λ res.
      Safe-bool (is_success res) _ _
        (λ _.
          Safe-then _ _ (maybe_whiteout-Safe (Ours uopt) G uopt path i whiteout_dir W)
            (λ _. search safe_rules))
        (λ _. search safe_rules))

  rmdir_found-Safe : (path : FilePath) (i : ℕ) → Safe S P (rmdir_found S uopt path i) Any
  unfolding rmdir_found
  rmdir_found-Safe path i = branch_at-then uopt i _ (λ b e.
      Safe-then _ _
        (Safe-if (not b.rw) _ _ (λ _. search (safe_rules, rmdir_ro-Safe))
          (λ r.
            rmdir_writable-Safe path i
              (IsWritable-Opens uopt i (found-IsWritable uopt i b e (not-false b.rw r)))))
        (λ res. search safe_rules))

  rmdir_empty-Safe : (path : FilePath) → Safe S P (rmdir_empty S uopt path) Any
  unfolding rmdir_empty
  rmdir_empty-Safe path =
      Safe-then _ _ (find_rorw_branch-Safe uopt path)
        (λ i. Safe-option i _ _ (search safe_rules) (λ i _. rmdir_found-Safe path i))

  unionfs_rmdir-Safe : (T : NameSet) (path : FilePath) → Safe S P (unionfs_rmdir S uopt T path) Any
  unfolding unionfs_rmdir
  unionfs_rmdir-Safe T path =
      Safe-then _ _ (dir_not_empty-Safe T _ uopt path)
        (λ full. search (safe_rules, rmdir_empty-Safe))

  -- Removal makes no change but in writable branches and in metadata directories: what such changes
  -- keep true of the system is true after `unlink` and after `rmdir`. The paths of the branches end
  -- in a slash, and calls on descriptors count as such changes.
  pub removal-Safe :
      (T : NameSet) (path : FilePath)
      → Safe S P (unionfs_unlink S uopt path) Any × Safe S P (unionfs_rmdir S uopt T path) Any
  removal-Safe T path = (unionfs_unlink-Safe path, unionfs_rmdir-Safe T path)

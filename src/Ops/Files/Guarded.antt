-- ===== src/Ops/Files/Guarded.antt =====
-- `create` changes no read-only branch.
use unionfs_fuse.Prelude.{ℕ, inr, Option, none, some}
use unionfs_fuse.Os.{FilePath, Os, Call, World, malloc}
use unionfs_fuse.Os.Safe.{
  Guards, Safe, After, Any, Allowed, act-Safe, safe_rules, Safe-then, Safe-option, Safe-if,
}
use unionfs_fuse.Cowolf.Data.{CwfInfo}
use unionfs_fuse.Union.{Uopt}
use unionfs_fuse.Union.Guarded.{Ours, Ours-OpensMeta, Slashed}
use unionfs_fuse.Union.Hidden.Guarded.{remove_hidden-Safe}
use unionfs_fuse.Union.Writable.{find_rw_branch_cutlast}
use unionfs_fuse.Union.Writable.Parent.{Writes, Writes-After, find_rw_branch_cutlast-Safe}
use unionfs_fuse.Ops.Guarded.{or_errno-Safe, writable_path-After, set_owner-Safe}
use unionfs_fuse.Ops.Files.{fhandle_create, handle_or_close, unionfs_create}

module _ {S : Os} {P : S.State → Type 0} (uopt : Uopt) (G : Guards S (Allowed (Ours uopt)) P)
    (L : Slashed uopt) (fuel : ℕ) where
  fhandle_create-Safe : (fd : ℕ) (cw : Option CwfInfo) → Safe S P (fhandle_create S fd cw) Any
  unfolding fhandle_create
  fhandle_create-Safe fd cw =
      Safe-then (malloc S 16) _ (search safe_rules)
        (λ fh. Safe-if fh _ _ (λ _. search safe_rules) (λ _. search safe_rules))

  pub unionfs_create-After :
      (path : FilePath) (mode flags : ℕ) (w : World S)
      → P w.os
      → Writes S uopt (find_rw_branch_cutlast S uopt fuel path w)
      → After S P Any (unionfs_create S uopt fuel path mode flags w)
  unfolding unionfs_create handle_or_close
  unionfs_create-After path mode flags w q v =
      writable_path-After uopt path _ _ w
        (Writes-After P uopt _ ((find_rw_branch_cutlast-Safe uopt G L fuel path).at w q) v)
        (λ i p h. Safe-then _ _ (act-Safe (Ours uopt) G (Call.open_file p flags 0) (inr h)) (λ res.
          or_errno-Safe res _ (λ fd _. Safe-then _ _ (set_owner-Safe (Ours uopt) G p h) (λ _.
            Safe-then _ _ (act-Safe (Ours uopt) G (Call.fchmod fd mode) tt) (λ _.
              Safe-then _ _ (fhandle_create-Safe fd none) (λ fh.
                Safe-option fh _ _
                  (Safe-then _ _ (act-Safe (Ours uopt) G (Call.close fd) tt)
                    (λ _. search safe_rules))
                  (λ fh _.
                    Safe-then _ _
                      (remove_hidden-Safe (Ours uopt) G uopt (Ours-OpensMeta uopt) L path (some i))
                      (λ _. search safe_rules))))))))

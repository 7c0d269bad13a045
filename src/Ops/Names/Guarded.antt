-- ===== src/Ops/Names/Guarded.antt =====
-- The handlers that make and move names change no read-only branch.
use mathlib.Core.Path.{subst}
use unionfs_fuse.Prelude.{ℕ, Bool, true, false, not, ◌==◌, ◌≡◌, refl, ltb, Option, none, some}
use unionfs_fuse.Os.{FilePath, Os, Call, World, act, get_errno}
use unionfs_fuse.Os.Monad.{M, pure, fault, ◌>>=◌}
use unionfs_fuse.Os.Safe.{
  Guards, Safe, After, Any, Allowed, act-Safe, safe_rules, Safe-bind, bind-After, Safe-then,
  Safe-option, Safe-if, Safe-bool, Safe-pure, Safe-fault,
}
use unionfs_fuse.Union.{Uopt}
use unionfs_fuse.Union.Guarded.{Ours, Ours-OpensMeta, Slashed, branch_at-then}
use unionfs_fuse.Union.Hidden.{remove_hidden}
use unionfs_fuse.Union.Hidden.Guarded.{remove_hidden-Safe, path_is_dir-Safe, Safe-filetype}
use unionfs_fuse.Union.Find.Guarded.{find_rorw_branch-Safe}
use unionfs_fuse.Union.Whiteout.Guarded.{do_create_whiteout-Safe, maybe_whiteout-Safe}
use unionfs_fuse.Union.Datamap.Guarded.{cowolf_rename_datamap-Safe}
use unionfs_fuse.Union.Writable.Guarded.{
  IsWritable, IsWritable-Opens, found-IsWritable, find_rw_branch_cow-Safe,
  find_rw_branch_cow_common-Safe,
}
use unionfs_fuse.Union.Writable.{
  find_rw_branch_cow, find_rw_branch_cutlast, find_rw_branch_cutlast_hint,
}
use unionfs_fuse.Union.Writable.Parent.{
  Writes, Writes-After, find_rw_branch_cutlast-Safe, find_rw_branch_cutlast_hint-Safe,
}
use unionfs_fuse.Ops.{Reply, reply, or_errno, at_branch}
use unionfs_fuse.Ops.Guarded.{
  or_errno-Safe, at_branch-Safe, written_path, writable_path-After, set_owner-Safe,
}
use unionfs_fuse.Ops.Files.{unionfs_create}
use unionfs_fuse.Ops.Files.Guarded.{unionfs_create-After}
use unionfs_fuse.Ops.Names.{
  whiteout_of, making, unionfs_mkdir, make_node, unionfs_mknod, unionfs_symlink, unionfs_link,
  rename_branch, rename_failed, renamed, rename_kind, rename_in, unionfs_rename,
}

module _ {S : Os} {P : S.State → Type 0} (uopt : Uopt) (G : Guards S (Allowed (Ours uopt)) P)
    (L : Slashed uopt) (fuel : ℕ) where
  hidden-Safe :
      {B : Type 0} (path : FilePath) (i : ℕ) (k : Bool → M (World S) B)
      → ((b : Bool) → Safe S P (k b) Any)
      → Safe S P (remove_hidden S uopt path (some i) >>= k) Any
  hidden-Safe path i k h =
      Safe-then _ _ (remove_hidden-Safe (Ours uopt) G uopt (Ours-OpensMeta uopt) L path (some i)) h

  making-After :
      (path : FilePath) (k : ℕ → FilePath → M (World S) (Reply (Unit {0}))) (w : World S)
      → P w.os
      → Writes S uopt (find_rw_branch_cutlast S uopt fuel path w)
      → ((i : ℕ) (p : FilePath) → Ours uopt p → Safe S P (k i p) Any)
      → After S P Any (making S uopt fuel path k w)
  unfolding making
  making-After path k w q v h =
      writable_path-After uopt path _ _ w
        (Writes-After P uopt _ ((find_rw_branch_cutlast-Safe uopt G L fuel path).at w q) v) h

  unionfs_mkdir-After :
      (path : FilePath) (mode : ℕ) (w : World S)
      → P w.os
      → Writes S uopt (find_rw_branch_cutlast S uopt fuel path w)
      → After S P Any (unionfs_mkdir S uopt fuel path mode w)
  unfolding unionfs_mkdir
  unionfs_mkdir-After path mode w q v = making-After path _ w q v (λ i p h.
      Safe-then _ _ (act-Safe (Ours uopt) G (Call.mkdir p 0) h) (λ res. or_errno-Safe res _ (λ _ _.
        Safe-then _ _ (set_owner-Safe (Ours uopt) G p h) (λ _.
          Safe-then _ _ (act-Safe (Ours uopt) G (Call.chmod p mode) h) (λ _. search safe_rules)))))

  make_node-Safe :
      (p : FilePath) (file_type rdev : ℕ)
      → Ours uopt p
      → Safe S P (make_node S uopt fuel p file_type rdev) Any
  unfolding make_node
  make_node-Safe p file_type rdev h =
      Safe-if (not (file_type == 0o100000)) _ _
        (λ _. act-Safe (Ours uopt) G (Call.mknod p file_type rdev) h)
        (λ _. Safe-then _ _ (act-Safe (Ours uopt) G (Call.creat p 0) h) (λ res.
          Safe-option res _ _ (search safe_rules) (λ fd _.
            Safe-if (ltb 0 fd) _ _
              (λ _.
                Safe-then _ _ (act-Safe (Ours uopt) G (Call.close fd) tt) (λ _. search safe_rules))
              (λ _. search safe_rules))))

  unionfs_mknod-After :
      (path : FilePath) (mode rdev : ℕ) (w : World S)
      → P w.os
      → Writes S uopt (find_rw_branch_cutlast S uopt fuel path w)
      → After S P Any (unionfs_mknod S uopt fuel path mode rdev w)
  unfolding unionfs_mknod
  unionfs_mknod-After path mode rdev w q v = making-After path _ w q v (λ i p h.
      Safe-then _ _ (make_node-Safe p _ rdev h) (λ res. or_errno-Safe res _ (λ _ _.
        Safe-then _ _ (set_owner-Safe (Ours uopt) G p h) (λ _.
          Safe-then _ _ (act-Safe (Ours uopt) G (Call.chmod p _) h)
            (λ _. hidden-Safe path i _ (λ _. search safe_rules))))))

  unionfs_symlink-After :
      (from to : FilePath) (w : World S)
      → P w.os
      → Writes S uopt (find_rw_branch_cutlast S uopt fuel to w)
      → After S P Any (unionfs_symlink S uopt fuel from to w)
  unfolding unionfs_symlink
  unionfs_symlink-After from to w q v = making-After to _ w q v (λ i t h.
      Safe-then _ _ (act-Safe (Ours uopt) G (Call.symlink from t) h) (λ res.
        or_errno-Safe res _ (λ _ _.
          Safe-then _ _ (set_owner-Safe (Ours uopt) G t h)
            (λ _. hidden-Safe to i _ (λ _. search safe_rules)))))

  link_in-Safe :
      (from to : FilePath) (i : ℕ) (o : Option ℕ)
      → IsWritable uopt (some i)
      → IsWritable uopt o
      → Safe S P
          (or_errno S o (λ j. at_branch S uopt i from (λ f. at_branch S uopt j to (λ t. do
            res ← act S (Call.link f t)
            or_errno S res (λ _. do _ ← remove_hidden S uopt to (some i); pure (reply tt))))))
          Any
  link_in-Safe from to i o wi wo = or_errno-Safe o _ (λ j e.
      at_branch-Safe uopt i from _ (λ b f q q'. at_branch-Safe uopt j to _ (λ c t r r'.
        Safe-then _ _
          (act-Safe (Ours uopt) G (Call.link f t) (
            written_path uopt i b from f wi q q',
            written_path uopt j c to t (subst (IsWritable uopt) e wo) r r',
          ))
          (λ res. or_errno-Safe res _ (λ _ _. hidden-Safe to i _ (λ _. search safe_rules))))))

  link_from-After :
      (from to : FilePath) (o : Option ℕ) (w : World S)
      → P w.os
      → IsWritable uopt o
      → ((i : ℕ)
          → o ≡ some i
          → Writes S uopt (find_rw_branch_cutlast_hint S uopt fuel to (some i) w))
      → After S P Any (
          or_errno S o
            (λ i. do
              j ← find_rw_branch_cutlast_hint S uopt fuel to (some i)
              or_errno S j (λ j. at_branch S uopt i from (λ f. at_branch S uopt j to (λ t. do
                res ← act S (Call.link f t)
                or_errno S res (λ _. do _ ← remove_hidden S uopt to (some i); pure (reply tt))))))
            w)
  link_from-After from to none w q wo v =
      (or_errno-Safe {B = ℕ} none (λ i. fault) (λ i e. Safe-fault)).at w q
  link_from-After from to (some i) w q wo v =
      bind-After P (IsWritable uopt) Any (find_rw_branch_cutlast_hint S uopt fuel to (some i)) _ w
        (Writes-After P uopt _
          ((find_rw_branch_cutlast_hint-Safe uopt G L fuel to (some i) wo).at w q) (v i refl))
        (λ o w' e p u. (link_in-Safe from to i o wo u).at w' p)

  unionfs_link-After :
      (from to : FilePath) (w : World S)
      → P w.os
      → ((i : ℕ) (w' : World S)
          → find_rw_branch_cow S uopt fuel from w ≡ some (some i, w')
          → Writes S uopt (find_rw_branch_cutlast_hint S uopt fuel to (some i) w'))
      → After S P Any (unionfs_link S uopt fuel from to w)
  unfolding unionfs_link
  unionfs_link-After from to w q v =
      bind-After P (IsWritable uopt) Any (find_rw_branch_cow S uopt fuel from) _ w
        ((find_rw_branch_cow-Safe uopt G L fuel from).at w q)
        (λ o w' e p wo.
          link_from-After from to o w' p wo
            (λ i f. v i w' (subst (λ o. find_rw_branch_cow S uopt fuel from w ≡ some (o, w')) f e)))

  rename_branch-Safe :
      (path : FilePath) (i : ℕ) → Safe S P (rename_branch S uopt fuel path i) (IsWritable uopt)
  unfolding rename_branch
  rename_branch-Safe path i = branch_at-then uopt i _ (λ b e.
      Safe-if b.rw _ _ (λ r. Safe-pure (some i) (found-IsWritable uopt i b e r))
        (λ _. find_rw_branch_cow_common-Safe uopt G L fuel path true))

  rename_failed-Safe :
      (rw : Bool) (from f : FilePath) (i : ℕ)
      → Ours uopt f
      → Safe S P (rename_failed S uopt fuel rw from f i) Any
  unfolding rename_failed
  rename_failed-Safe rw from f i h = Safe-then (get_errno S) _ (search safe_rules) (λ err.
      Safe-then _ _
        (Safe-if rw _ _ (λ _. search safe_rules)
          (λ _.
            Safe-then _ _ (act-Safe (Ours uopt) G (Call.unlink f) h)
              (λ _. remove_hidden-Safe (Ours uopt) G uopt (Ours-OpensMeta uopt) L from (some i))))
        (λ _. search safe_rules))

  renamed-Safe :
      (rw dir : Bool) (from to : FilePath) (i : ℕ)
      → IsWritable uopt (some i)
      → Safe S P (renamed S uopt fuel rw dir from to i) Any
  unfolding renamed
  renamed-Safe rw dir from to i w =
      let W = IsWritable-Opens uopt i w in
      Safe-then _ _
        (Safe-if rw _ _ (λ _. maybe_whiteout-Safe (Ours uopt) G uopt from i (whiteout_of dir) W)
          (λ _. search safe_rules))
        (λ _. hidden-Safe to i _ (λ _.
          Safe-then _ _
            (cowolf_rename_datamap-Safe (Ours uopt) G uopt (Ours-OpensMeta uopt) L from to i W)
            (λ _. search safe_rules)))

  rename_kind-Safe :
      (dir : Bool) (from to : FilePath) (i : ℕ) (f t : FilePath)
      → IsWritable uopt (some i)
      → Ours uopt f
      → Ours uopt t
      → Safe S P (rename_kind S uopt fuel dir from to i f t) Any
  unfolding rename_kind
  rename_kind-Safe dir from to i f t w h k = branch_at-then uopt i _ (λ b e.
      Safe-then _ _
        (Safe-if b.rw _ _ (λ _. search safe_rules)
          (λ _.
            do_create_whiteout-Safe (Ours uopt) G uopt from i (whiteout_of dir)
              (IsWritable-Opens uopt i w)))
        (λ hid.
          Safe-bool hid _ _
            (λ _. Safe-then _ _ (act-Safe (Ours uopt) G (Call.rename f t) (h, k)) (λ res.
              Safe-option res _ _ (rename_failed-Safe b.rw from f i h)
                (λ _ _. renamed-Safe b.rw dir from to i w)))
            (λ _. search safe_rules)))

  rename_in-Safe :
      (from to : FilePath) (i : ℕ)
      → IsWritable uopt (some i)
      → Safe S P (rename_in S uopt fuel from to i) Any
  unfolding rename_in
  rename_in-Safe from to i w = at_branch-Safe uopt i from _ (λ b f q q'.
      at_branch-Safe uopt i to _ (λ c t r r'.
        let h = written_path uopt i b from f w q q' in
        let k = written_path uopt i c to t w r r' in
        Safe-then _ _ (path_is_dir-Safe uopt f) (λ ftype.
          Safe-filetype ftype _ _ _ (search safe_rules) (rename_kind-Safe true from to i f t w h k)
            (rename_kind-Safe false from to i f t w h k))))

  unionfs_rename-Safe : (from to : FilePath) → Safe S P (unionfs_rename S uopt fuel from to) Any
  unfolding unionfs_rename
  unionfs_rename-Safe from to = Safe-then _ _ (find_rw_branch_cutlast-Safe uopt G L fuel to) (λ o.
      or_errno-Safe o _ (λ j _. Safe-then _ _ (find_rorw_branch-Safe uopt from) (λ found.
        or_errno-Safe found _ (λ ro _. Safe-bind _ _ (rename_branch-Safe from ro) (λ o' w.
          or_errno-Safe o' _ (λ i e.
            Safe-if (i == j) _ _ (λ _. rename_in-Safe from to i (subst (IsWritable uopt) e w))
              (λ _. search safe_rules)))))))

  -- The handlers that make the name `path`, in a run in which the branch that the search for a
  -- branch of `path` returns, if it returns one, is writable: they make no change but in writable
  -- branches and in metadata directories, so what such changes keep true of the system is true
  -- after the run. For `link` the search is the one after the source was copied. `rename` makes no
  -- other change either, in any run, whatever that search returns. The paths of the branches end
  -- in a slash, and calls on descriptors count as such changes.
  pub names-Safe :
      (path from : FilePath) (mode rdev flags : ℕ) (w : World S)
      → P w.os
      → Writes S uopt (find_rw_branch_cutlast S uopt fuel path w)
      → ((i : ℕ) (w' : World S)
          → find_rw_branch_cow S uopt fuel from w ≡ some (some i, w')
          → Writes S uopt (find_rw_branch_cutlast_hint S uopt fuel path (some i) w'))
      → After S P Any (unionfs_create S uopt fuel path mode flags w)
        × After S P Any (unionfs_mkdir S uopt fuel path mode w)
        × After S P Any (unionfs_mknod S uopt fuel path mode rdev w)
        × After S P Any (unionfs_symlink S uopt fuel from path w)
        × After S P Any (unionfs_link S uopt fuel from path w)
        × Safe S P (unionfs_rename S uopt fuel from path) Any
  names-Safe path from mode rdev flags w q v l = (
    unionfs_create-After uopt G L fuel path mode flags w q v,
    unionfs_mkdir-After path mode w q v,
    unionfs_mknod-After path mode rdev w q v,
    unionfs_symlink-After from path w q v,
    unionfs_link-After from path w q l,
    unionfs_rename-Safe from path,
  )

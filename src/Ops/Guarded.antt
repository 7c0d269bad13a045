-- ===== src/Ops/Guarded.antt =====
-- Rules for the steps that the handlers share.
use mathlib.Core.Path.{subst}
use unionfs_fuse.Prelude.{ℕ, not, ◌&&◌, ◌==◌, ◌≡◌, refl, Option, none, some, [], ◌∷◌, get_elem?}
use unionfs_fuse.Os.{FilePath, Os, Call, World}
use unionfs_fuse.Os.Monad.{M, ◌>>=◌}
use unionfs_fuse.Os.Safe.{
  Guards, Safe, Any, Allowed, act-Safe, safe_rules, Safe-then, bind-After, After, Safe-if,
  Safe-option,
}
use unionfs_fuse.Text.{build_path_max}
use unionfs_fuse.Union.{BranchEntry, Uopt}
use unionfs_fuse.Union.Guarded.{Ours, branch_at-then}
use unionfs_fuse.Union.Writable.Guarded.{IsWritable, IsWritable-Opens}
use unionfs_fuse.Text.Prefix.{build_path_max-begins}
use unionfs_fuse.Ops.{Reply, or_errno, at_branch, call_reply, set_owner}

module _ {S : Os} {P : S.State → Type 0} {A : Type 0} where
  pub or_errno-Safe :
      {B : Type 0} (o : Option B) (k : B → M (World S) (Reply A))
      → ((b : B) → o ≡ some b → Safe S P (k b) Any)
      → Safe S P (or_errno S o k) Any
  or_errno-Safe none k h = search safe_rules
  or_errno-Safe (some b) k h = h b refl

  pub at_branch-Safe :
      (uopt : Uopt) (i : ℕ) (path : FilePath) (k : FilePath → M (World S) (Reply A))
      → ((b : BranchEntry) (p : FilePath)
          → get_elem? uopt.branches i ≡ some b
          → build_path_max (b.path ∷ path ∷ []) ≡ some p
          → Safe S P (k p) Any)
      → Safe S P (at_branch S uopt i path k) Any
  at_branch-Safe uopt i path k h = branch_at-then uopt i _ (λ b e.
      Safe-option (build_path_max (b.path ∷ path ∷ [])) _ _ (search safe_rules) (λ p f. h b p e f))

pub call_reply-Safe :
    {S : Os} {P : S.State → Type 0} (Ours : FilePath → Type 0) (G : Guards S (Allowed Ours) P)
    (c : Call)
    → Allowed Ours c
    → Safe S P (call_reply S c) Any
call_reply-Safe Ours G c h =
    Safe-then _ _ (act-Safe Ours G c h) (λ res. or_errno-Safe res _ (λ _ _. search safe_rules))

-- The path of a branch that is writable.
pub written_path :
    (uopt : Uopt) (i : ℕ) (b : BranchEntry) (path p : FilePath)
    → IsWritable uopt (some i)
    → get_elem? uopt.branches i ≡ some b
    → build_path_max (b.path ∷ path ∷ []) ≡ some p
    → Ours uopt p
written_path uopt i b path p w f g =
    IsWritable-Opens uopt i w b f p (build_path_max-begins b.path (path ∷ []) p g)

-- In this run the first step finds a writable branch, or none.
pub writable_path-After :
    {S : Os} {P : S.State → Type 0} {A : Type 0} (uopt : Uopt) (path : FilePath)
    (m : M (World S) (Option ℕ)) (k : ℕ → FilePath → M (World S) (Reply A)) (w : World S)
    → After S P (IsWritable uopt) (m w)
    → ((i : ℕ) (p : FilePath) → Ours uopt p → Safe S P (k i p) Any)
    → After S P Any ((m >>= (λ o. or_errno S o (λ i. at_branch S uopt i path (k i)))) w)
writable_path-After {S} {P} uopt path m k w h g =
    bind-After P (IsWritable uopt) Any m (λ o. or_errno S o (λ i. at_branch S uopt i path (k i))) w
      h
      (λ o w' e p v.
        (or_errno-Safe o _ (λ i q.
            at_branch-Safe uopt i path (k i) (λ b p f r.
              g i p (written_path uopt i b path p (subst (IsWritable uopt) q v) f r)))).at
          w' p)

module _ {S : Os} {P : S.State → Type 0} (Ours : FilePath → Type 0)
    (G : Guards S (Allowed Ours) P) where
  pub set_owner-Safe : (p : FilePath) → Ours p → Safe S P (set_owner S p) Any
  unfolding set_owner
  set_owner-Safe p h = Safe-then _ _ (search safe_rules) (λ uid.
      Safe-then _ _ (search safe_rules) (λ gid.
        Safe-if (not (uid == 0) && not (gid == 0)) _ _
          (λ _. act-Safe Ours G (Call.lchown p uid gid) h) (λ _. search safe_rules)))

-- ===== src/Union/Writable/Result.antt =====
-- What branch the search of src/findbranch.c for a new name returns.
use mathlib.Core.Path.{subst}
use unionfs_fuse.Prelude.{
  ℕ, ◌≡◌, refl, ◌⊎◌, inl, inr, ◌&&◌, not, Bool, true, false, if◌then◌else◌, Option, none, some,
  arith, length, ◌+◌, get_elem?,
}
use unionfs_fuse.Prelude.Int.{ℤ, is_code}
use unionfs_fuse.Os.{FilePath, Os, World, malloc, get_errno}
use unionfs_fuse.Os.Monad.{M, pure, fault, ◌>>=◌}
use unionfs_fuse.Os.Safe.{Guards, After, Allowed}
use unionfs_fuse.Text.{u_dirname}
use unionfs_fuse.Union.{BranchEntry, Uopt, branch_at, enoent, eacces}
use unionfs_fuse.Union.Guarded.{Ours, Slashed}
use unionfs_fuse.Union.Create.{path_create}
use unionfs_fuse.Union.Find.{find_rorw_branch}
use unionfs_fuse.Union.Writable.Parent.{target_branch-IsWritable}
use unionfs_fuse.Union.Writable.{
  agrees, enomem, no_branch, create_parent, target_branch, parent_branch, find_rw_branch_cow,
  find_rw_branch_cutlast_hint,
}
use unionfs_fuse.Union.Writable.Guarded.{IsWritable, found-IsWritable, find_rw_branch_cow-Safe}

module _ {S : Os} where
  -- A run ends in a fault, or its result and the world after it have `Q`.
  abbrev pub Ends : {A : Type 0} → (A → World S → Type 0) → Option (A × World S) → Type 0
  Ends Q none = Unit
  Ends Q (some (a, w)) = Q a w

  bound-Ends :
      {A B : Type 0} (R : A → World S → Type 0) (Q : B → World S → Type 0) (f : A → M (World S) B)
      (o : Option (A × World S))
      → Ends R o
      → ((a : A) (w : World S) → R a w → Ends Q (f a w))
      → Ends Q (elim o [ none ↦ none | some (a, w) ↦ f a w ])
  bound-Ends R Q f none h k = tt
  bound-Ends R Q f (some (a, w)) h k = k a w h

  Ends-bind :
      {A B : Type 0} (R : A → World S → Type 0) (Q : B → World S → Type 0) (m : M (World S) A)
      (f : A → M (World S) B) (w : World S)
      → Ends R (m w)
      → ((a : A) (w : World S) → R a w → Ends Q (f a w))
      → Ends Q ((m >>= f) w)
  unfolding ◌>>=◌
  Ends-bind R Q m f w h k = bound-Ends R Q f (m w) h k

  Ends-any : {A : Type 0} (o : Option (A × World S)) → Ends (λ a w. Unit) o
  Ends-any none = tt
  Ends-any (some (a, w)) = tt

  Ends-same : {A : Type 0} (o : Option (A × World S)) → Ends (λ a w. o ≡ some (a, w)) o
  Ends-same none = tt
  Ends-same (some (a, w)) = refl

  After-Ends :
      {A : Type 0} (Q : A → Type 0) (o : Option (A × World S))
      → After S (λ s. Unit) Q o
      → Ends (λ a w. Q a) o
  After-Ends Q none h = tt
  After-Ends Q (some (a, w)) h = h.1

  always-Guards : (Ours : FilePath → Type 0) → Guards S (Allowed Ours) (λ s. Unit)
  always-Guards Ours = record { act = λ c s h p. tt; read = λ fd n s p. tt }

  -- The directory of the path could not be made, and nothing happened since.
  abbrev pub NotMade : Uopt → ℕ → FilePath → ℕ → World S → Type 0
  NotMade uopt fuel path i w =
      (dname : FilePath) × (rw : ℕ) × (before : World S) × (res : ℤ) × (u_dirname path ≡ some dname)
      × (path_create S uopt dname i rw before ≡ some (res, w))
      × (is_code res 0 ≡ false)

  abbrev pub Found : Uopt → ℕ → FilePath → Option ℕ → World S → Type 0
  Found uopt fuel path none w = Unit
  Found uopt fuel path (some i) w = IsWritable uopt (some i) ⊎ NotMade uopt fuel path i w

  Ends-if :
      {A : Type 0} (Q : A → World S → Type 0) (b : Bool) (m n : M (World S) A) (w : World S)
      → (b ≡ true → Ends Q (m w))
      → (b ≡ false → Ends Q (n w))
      → Ends Q ((if b then m else n) w)
  Ends-if Q true m n w h k = h refl
  Ends-if Q false m n w h k = k refl

  Ends-option :
      {A B : Type 0} (Q : B → World S → Type 0) (o : Option A) (m : M (World S) B)
      (k : A → M (World S) B) (w : World S)
      → Ends Q (m w)
      → ((a : A) → o ≡ some a → Ends Q (k a w))
      → Ends Q ((elim o as (λ x. M (World S) B) [ none ↦ m | some a ↦ k a ]) w)
  Ends-option Q none m k w h g = h
  Ends-option Q (some a) m k w h g = g a refl

module _ {S : Os} (uopt : Uopt) (L : Slashed uopt) (fuel : ℕ) (path : FilePath) where
  abbrev Q : Option ℕ → World S → Type 0
  Q = Found uopt fuel path

  no_branch-Found : (e : ℕ) (w : World S) → Ends Q (no_branch S uopt fuel e w)
  unfolding ◌>>=◌
  no_branch-Found e w = tt

  chosen-Found :
      (dname : FilePath) (i rw : ℕ) (w w' : World S) (res : ℤ) (b : Bool)
      → IsWritable uopt (some rw)
      → u_dirname path ≡ some dname
      → path_create S uopt dname i rw w ≡ some (res, w')
      → is_code res 0 ≡ b
      → Q (some (if b then rw else i)) w'
  chosen-Found dname i rw w w' res true h d e f = inl h
  chosen-Found dname i rw w w' res false h d e f = inr (dname, rw, w, res, d, e, f)

  branch_at-Ends :
      (i : ℕ) (w : World S)
      → Ends (λ b w'. get_elem? uopt.branches i ≡ some b) (branch_at S uopt i w)
  branch_at-Ends i w = Ends-option _ (get_elem? uopt.branches i) fault pure w tt (λ b e. e)

  create_parent-Found :
      (dname : FilePath) (i : ℕ) (rw : Option ℕ) (w : World S)
      → IsWritable uopt rw
      → u_dirname path ≡ some dname
      → Ends Q (create_parent S uopt fuel dname i rw w)
  unfolding create_parent
  create_parent-Found dname i none w h d = no_branch-Found eacces w
  create_parent-Found dname i (some j) w h d =
      Ends-bind (λ res w'. path_create S uopt dname i j w ≡ some (res, w')) Q
        (path_create S uopt dname i j) _ w (Ends-same (path_create S uopt dname i j w))
        (λ res w' e. chosen-Found dname i j w w' res (is_code res 0) h d e refl)

  kept-Found :
      (dname : FilePath) (i : ℕ) (b : BranchEntry) (hint : Option ℕ) (w : World S)
      → get_elem? uopt.branches i ≡ some b
      → IsWritable uopt hint
      → u_dirname path ≡ some dname
      → Ends Q (
          (if b.rw && agrees hint i
              then pure (some i)
              else if not uopt.cow_enabled
              then no_branch S uopt fuel eacces
              else create_parent S uopt fuel dname i (target_branch S uopt fuel hint))
            w)
  kept-Found dname i b hint w f h d =
      Ends-if Q (b.rw && agrees hint i) (pure (some i)) _ w
        (λ e. inl (found-IsWritable uopt i b f (ground (arith, e))))
        (λ e.
          Ends-if Q (not uopt.cow_enabled) (no_branch S uopt fuel eacces) _ w
            (λ _. no_branch-Found eacces w)
            (λ _. create_parent-Found dname i _ w (target_branch-IsWritable S uopt fuel hint h) d))

  parent_branch-Found :
      (dname : FilePath) (hint : Option ℕ) (w : World S)
      → IsWritable uopt hint
      → u_dirname path ≡ some dname
      → Ends Q (parent_branch S uopt fuel dname hint w)
  unfolding parent_branch
  parent_branch-Found dname hint w h d =
      Ends-bind (λ o w'. Unit) Q (find_rorw_branch S uopt dname) _ w (Ends-any _)
        (λ o w' _. Ends-option Q o (pure none) _ w' tt (λ i _.
          Ends-bind (λ b w. get_elem? uopt.branches i ≡ some b) Q (branch_at S uopt i) _ w'
            (branch_at-Ends i w') (λ b w'' f. kept-Found dname i b hint w'' f h d)))

  -- After the search for the path itself.
  searched-Found :
      (found : Option ℕ) (hint : Option ℕ) (errno : ℤ) (w : World S)
      → IsWritable uopt found
      → IsWritable uopt hint
      → Ends Q (
          (elim found as (λ x. M (World S) (Option ℕ)) [
            | some branch ↦ pure (some branch)
            | none ↦ if not (is_code errno enoent) then pure none else (do
              copied ← malloc S (length path + 1)
              if not copied
                  then no_branch S uopt fuel enomem
                  else (elim (u_dirname path) as (λ x. M (World S) (Option ℕ)) [
                    | none ↦ fault
                    | some dname ↦ parent_branch S uopt fuel dname hint
                  ]))
          ])
            w)
  searched-Found (some i) hint errno w u h = inl u
  searched-Found none hint errno w u h =
      Ends-if Q (not (is_code errno enoent)) (pure none) _ w (λ _. tt)
        (λ _.
          Ends-bind (λ c w'. Unit) Q (malloc S _) _ w tt
            (λ copied w' _.
              Ends-if Q (not copied) (no_branch S uopt fuel enomem) _ w'
                (λ _. no_branch-Found enomem w')
                (λ _.
                  Ends-option Q (u_dirname path) fault _ w' tt
                    (λ dname d. parent_branch-Found dname hint w' h d))))

  hint-Found :
      (hint : Option ℕ) (w : World S)
      → IsWritable uopt hint
      → Ends Q (find_rw_branch_cutlast_hint S uopt fuel path hint w)
  unfolding find_rw_branch_cutlast_hint
  hint-Found hint w h =
      Ends-bind (λ o w'. IsWritable uopt o) Q (find_rw_branch_cow S uopt fuel path) _ w
        (After-Ends (IsWritable uopt) _
          ((find_rw_branch_cow-Safe uopt (always-Guards (Ours uopt)) L fuel path).at w tt))
        (λ found w1 u.
          Ends-bind (λ e w'. Unit) Q (get_errno S) _ w1 tt
            (λ errno w2 _. searched-Found found hint errno w2 u h))

  -- The search for a branch to make the name `path` in returns a writable branch or none; only right
  -- after a `path_create` of the directory of `path` that failed it may return another: the branch
  -- that the directory was to be copied from. The hint is none or a writable branch, and the paths of
  -- the branches end in a slash.
  pub find_rw_branch_cutlast_hint-Found :
      (hint : Option ℕ) (i : ℕ) (w w' : World S)
      → IsWritable uopt hint
      → find_rw_branch_cutlast_hint S uopt fuel path hint w ≡ some (some i, w')
      → IsWritable uopt (some i) ⊎ NotMade uopt fuel path i w'
  find_rw_branch_cutlast_hint-Found hint i w w' h e = subst (Ends Q) e (hint-Found hint w h)

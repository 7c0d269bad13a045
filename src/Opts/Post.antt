-- ===== src/Opts/Post.antt =====
-- What `unionfs_post_opts` makes of the paths of the branches.
use mathlib.Core.Path.{subst}
use unionfs_fuse.Prelude.{
  ℕ, zero, suc, ◌≡◌, refl, Bool, true, false, inl, inr, Option, none, some, List, [], ◌∷◌, ◌++◌,
  length, get_elem?, Bool-cases, Option-cases,
}
use unionfs_fuse.Os.{FilePath}
use unionfs_fuse.Text.{slash, pathlen_max, ends_slash, build_path}
use unionfs_fuse.Text.Length.{buffer_path, build_path_one}
use unionfs_fuse.Union.{BranchEntry}
use unionfs_fuse.Union.Guarded.{Slashed}
use unionfs_fuse.Union.Find.Served.{AllMeasured}
use unionfs_fuse.Opts.{
  Settings, make_absolute, add_trailing_slash, post_branch, post_branches, unionfs_post_opts,
}

ends_slash-append : (s : FilePath) → ends_slash (s ++ (slash ∷ [])) ≡ true
unfolding ends_slash
ends_slash-append [] = refl
ends_slash-append (c ∷ []) = refl
ends_slash-append (c ∷ d ∷ s) = ends_slash-append (d ∷ s)

add_trailing_slash-ends : (s p : FilePath) → add_trailing_slash s ≡ some p → ends_slash p ≡ true
unfolding add_trailing_slash
add_trailing_slash-ends [] p e = cc
add_trailing_slash-ends (c ∷ s) p e = elim (Bool-cases (ends_slash (c ∷ s))) [
  | inl f ↦
      let e' = rw (add_trailing_slash, f) at e in
      let q : c ∷ s ≡ p = cc in subst (λ t. ends_slash t ≡ true) q f
  | inr f ↦
      let e' = rw (add_trailing_slash, f) at e in
      let q : (c ∷ s) ++ (slash ∷ []) ≡ p = cc in
      subst (λ t. ends_slash t ≡ true) q (ends_slash-append (c ∷ s))
]

-- Ends in a slash, and knows its length.
abbrev IsReady : BranchEntry → Type 0
IsReady b = (ends_slash b.path ≡ true) × (b.path_len ≡ length b.path)

abbrev IsReadyIf : Option BranchEntry → Type 0
IsReadyIf none = Unit
IsReadyIf (some b) = IsReady b

abbrev AllReady : List BranchEntry → Type 0
AllReady [] = Unit
AllReady (b ∷ rest) = IsReady b × AllReady rest

abbrev ReadyIf : Option Settings → Type 0
ReadyIf none = Unit
ReadyIf (some s) = Slashed s.uopt × AllMeasured s.uopt.branches

AllReady-Measured : (bs : List BranchEntry) → AllReady bs → AllMeasured bs
AllReady-Measured [] h = tt
AllReady-Measured (b ∷ rest) h = (h.0.1, AllReady-Measured rest h.1)

AllReady-ends :
    (bs : List BranchEntry) (i : ℕ) (b : BranchEntry)
    → AllReady bs
    → get_elem? bs i ≡ some b
    → ends_slash b.path ≡ true
AllReady-ends [] i b h e = cc
AllReady-ends (c ∷ rest) zero b h e =
    let f : c ≡ b = cc in subst (λ x. ends_slash x.path ≡ true) f h.0.0
AllReady-ends (c ∷ rest) (suc i) b h e = AllReady-ends rest i b h.1 e

module _ (getcwd : Option FilePath) (opens : FilePath → Bool) where
  post_branch-IsReady :
      (b b' : BranchEntry)
      → opens [] ≡ false
      → post_branch getcwd opens none b ≡ some b'
      → IsReady b'
  unfolding post_branch
  post_branch-IsReady b b' h e = elim (Option-cases (make_absolute getcwd b.path)) [
    | inl f ↦ let e' = rw (post_branch, f) at e in cc
    | inr (abspath, f) ↦ elim (Option-cases (add_trailing_slash abspath)) [
      | inl g ↦ let e' = rw (post_branch, f, g) at e in cc
      | inr (path, g) ↦
          elim (Bool-cases (opens (buffer_path (build_path pathlen_max (path ∷ []))))) [
            | inr k ↦ let e' = rw (post_branch, f, g, k) at e in cc
            | inl k ↦
                let e' = rw (post_branch, f, g, k) at e in
                elim (build_path_one pathlen_max path) [
                  | inr o ↦ let k' = rw o at k in cc
                  | inl o ↦
                      let q = rw o at e' in
                      subst IsReadyIf q (add_trailing_slash-ends abspath path g, refl)
                ]
          ]
    ]
  ]

  post_branches-AllReady :
      (bs bs' : List BranchEntry)
      → opens [] ≡ false
      → post_branches getcwd opens none bs ≡ some bs'
      → AllReady bs'
  unfolding post_branches
  post_branches-AllReady [] bs' h e = let q : [] ≡ bs' = cc in subst AllReady q tt
  post_branches-AllReady (b ∷ rest) bs' h e =
      elim (Option-cases (post_branch getcwd opens none b)) [
        | inl f ↦ let e' = rw (post_branches, f) at e in cc
        | inr (b1, f) ↦ elim (Option-cases (post_branches getcwd opens none rest)) [
          | inl g ↦ let e' = rw (post_branches, f, g) at e in cc
          | inr (bs1, g) ↦
              let e' = rw (post_branches, f, g) at e in
              let q : b1 ∷ bs1 ≡ bs' = cc in
              subst AllReady q (post_branch-IsReady b b1 h f, post_branches-AllReady rest bs1 h g)
        ]
      ]

  -- Without `chroot`, after the options are processed the paths of all branches end in a slash, and
  -- each branch knows the length of its path. An empty path cannot be opened.
  pub unionfs_post_opts-ready :
      (chdir : FilePath → Bool) (s s' : Settings)
      → opens [] ≡ false
      → s.chroot ≡ none
      → unionfs_post_opts getcwd opens chdir s ≡ some s'
      → Slashed s'.uopt × AllMeasured s'.uopt.branches
  unfolding unionfs_post_opts
  unionfs_post_opts-ready chdir s s' h c e =
      elim (Option-cases (post_branches getcwd opens none s.uopt.branches)) [
        | inl f ↦ let e' = rw (unionfs_post_opts, c, f) at e in cc
        | inr (bs, f) ↦
            let e' = rw (unionfs_post_opts, c, f) at e in
            let r = post_branches-AllReady s.uopt.branches bs h f in
            subst (λ o. ReadyIf o) e' (λ i b. AllReady-ends bs i b r, AllReady-Measured bs r)
      ]

-- ===== src/Union/Hidden/Observe.antt =====
-- `path_hidden` of src/general.c reads the system and changes nothing.
use unionfs_fuse.Prelude.{
  ℕ, ◌+◌, ◌-◌, ◌≡◌, refl, ◌∙◌, true, false, ◌⊎◌, inl, inr, none, some, List, [], ◌∷◌, ◌++◌, length,
  take, drop, ltb, Bool-cases, Option-cases, if◌then◌else◌, arith,
}
use unionfs_fuse.Prelude.Int.{pos}
use unionfs_fuse.Os.{FilePath, Os, Sys, ok, err, Stat, World}
use unionfs_fuse.Os.Monad.{M, ◌>>=◌}
use unionfs_fuse.Text.{hidetag, pathlen_max, enametoolong, skip_slashes, build_path_max}
use unionfs_fuse.Text.Length.{build_path_max-length}
use unionfs_fuse.Union.{BranchEntry, Uopt, metadir}
use unionfs_fuse.Union.Hidden.{
  Hiding, visible, hidden, failure, stops, filedir_hidden, any_hidden, hidden_below, path_hidden_in,
}

-- The computation returns `a` and leaves the system as it is.
abbrev pub Observes : (S : Os) {A : Type 0} → M (World S) A → World S → A → Type 0
Observes S m w a = (w' : World S) × (m w ≡ some (a, w')) × (w'.os ≡ w.os)

pub Sys-cases : {A : Type 0} (r : Sys A) → ((a : A) × (r ≡ ok a)) ⊎ ((e : ℕ) × (r ≡ err e))
Sys-cases (ok a) = inl (a, refl)
Sys-cases (err e) = inr (e, refl)

pub Hiding-cases : (h : Hiding) → (h ≡ visible) ⊎ ((h ≡ hidden) ⊎ ((e : ℕ) × (h ≡ failure e)))
Hiding-cases visible = inl refl
Hiding-cases hidden = inr (inl refl)
Hiding-cases (failure e) = inr (inr (e, refl))

module _ (S : Os) where
  -- Is there a whiteout for the path?
  abbrev pub hiding_of_stat : Sys Stat → Hiding
  hiding_of_stat (ok st) = hidden
  hiding_of_stat (err e) = visible

  abbrev pub hidden_at : S.State → FilePath → Hiding
  hidden_at s p =
      if ltb pathlen_max (length p + length hidetag)
      then failure enametoolong
      else hiding_of_stat (S.lstat (take (pathlen_max - 1) (p ++ hidetag)) s)

  -- What the first of the paths that is not visible gives.
  abbrev pub first_hidden : S.State → List FilePath → Hiding
  first_hidden s [] = visible
  first_hidden s (p ∷ rest) = elim (hidden_at s p) [
    | visible ↦ first_hidden s rest
    | hidden ↦ hidden
    | failure e ↦ failure e
  ]

  -- Is the path hidden by a whiteout in the branch, for the path itself or a directory of it?
  abbrev pub hiding_in : Uopt → BranchEntry → FilePath → S.State → Hiding
  hiding_in uopt b path s =
      if uopt.cow_enabled
      then elim (build_path_max (b.path ∷ metadir ∷ path ∷ [])) [
        | none ↦ visible
        | some p ↦
            let start = length b.path + length metadir - 1 in
            first_hidden s (stops (take start p) (drop start p))
      ]
      else visible

  module _ (uopt : Uopt) where
    filedir_hidden-Observes :
        (p : FilePath) (w : World S)
        → uopt.cow_enabled ≡ true
        → Observes S (filedir_hidden S uopt p) w (hidden_at w.os p)
    unfolding filedir_hidden ◌>>=◌
    filedir_hidden-Observes p w c =
        elim (Bool-cases (ltb pathlen_max (length p + length hidetag))) [
          | inl e ↦ (w, ground (arith, c, e), refl)
          | inr e ↦ elim (Sys-cases (S.lstat (take (pathlen_max - 1) (p ++ hidetag)) w.os)) [
            | inl (st, f) ↦ (w, ground (arith, c, e, f), refl)
            | inr (n, f) ↦ (record { os = w.os; errno = pos n }, ground (arith, c, e, f), refl)
          ]
        ]

    any_hidden-Observes :
        (ps : List FilePath) (w : World S)
        → uopt.cow_enabled ≡ true
        → Observes S (any_hidden S uopt ps) w (first_hidden w.os ps)
    unfolding any_hidden ◌>>=◌
    any_hidden-Observes [] w c = (w, refl, refl)
    any_hidden-Observes (p ∷ ps) w c =
        let (w1, e1, o1) = filedir_hidden-Observes p w c in
        elim (Hiding-cases (hidden_at w.os p)) [
          | inl v ↦
              let (w2, e2, o2) = any_hidden-Observes ps w1 c in
              (w2, ground (arith, e1, v, e2, o1), o2 ∙ o1)
          | inr (inl v) ↦ (w1, ground (arith, e1, v), o1)
          | inr (inr (n, v)) ↦ (w1, ground (arith, e1, v), o1)
        ]

    -- Where the branch knows the length of its path, the search for whiteouts ends without a
    -- fault, with the first that it finds, and changes nothing.
    pub path_hidden_in-Observes :
        (b : BranchEntry) (path : FilePath) (w : World S)
        → b.path_len ≡ length b.path
        → Observes S (path_hidden_in S uopt b path) w (hiding_in uopt b path w.os)
    unfolding path_hidden_in hidden_below skip_slashes ◌>>=◌
    path_hidden_in-Observes b path w m = elim (Bool-cases uopt.cow_enabled) [
      | inr c ↦ (w, ground (arith, c), refl)
      | inl c ↦ elim (Option-cases (build_path_max (b.path ∷ metadir ∷ path ∷ []))) [
        | inl e ↦ (record w { errno = pos enametoolong }, ground (arith, c, e), refl)
        | inr (p, e) ↦
            let long = build_path_max-length b.path metadir (path ∷ []) p refl e in
            let start = length b.path + length metadir - 1 in
            let fits : ltb (length p) start ≡ false = ground (arith, long) in
            let (w1, f, o) = any_hidden-Observes (stops (take start p) (drop start p)) w c in
            (w1, ground (arith, c, e, m, fits, f), o)
      ]
    ]

-- ===== src/Union/Find/Served.antt =====
-- `find_branch` of src/findbranch.c against what a union is.
use unionfs_fuse.Os.Monad.{◌>>=◌}
use unionfs_fuse.Prelude.{
  ℕ, suc, zero, ◌+◌, ◌≡◌, ◌≢◌, refl, ◌∙◌, ◌⊎◌, Bool, true, false, ◌&&◌, inl, inr, Option, none,
  some, List, [], ◌∷◌, length, Bool-cases, Option-cases, arith,
}
use unionfs_fuse.Prelude.Int.{pos, neg}
use unionfs_fuse.Os.{FilePath, Os, Sys, ok, err, Stat, World, lstat}
use unionfs_fuse.Text.{enametoolong, build_path_max}
use unionfs_fuse.Union.{BranchEntry, Uopt, enoent}
use unionfs_fuse.Union.Hidden.{visible}
use unionfs_fuse.Union.Hidden.Observe.{
  Observes, Sys-cases, Hiding-cases, hiding_in, path_hidden_in-Observes,
}
use unionfs_fuse.Union.Find.{Searchflag, rwro, rwonly, accepts, find_from, find_branch}

-- Every branch knows the length of its path.
abbrev pub AllMeasured : List BranchEntry → Type 0
AllMeasured [] = Unit
AllMeasured (b ∷ rest) = (b.path_len ≡ length b.path) × AllMeasured rest

-- A search for a writable branch may use no other.
abbrev pub usable : Searchflag → BranchEntry → Bool
usable rwro b = true
usable rwonly b = b.rw

module _ (S : Os) (uopt : Uopt) (flag : Searchflag) (path : FilePath) where
  abbrev stat_of : Sys Stat → Option Stat
  stat_of (ok st) = some st
  stat_of (err e) = none

  abbrev succeeds : Sys Stat → Bool
  succeeds (ok st) = true
  succeeds (err e) = false

  -- Does the branch hold the path, and may it be used?
  abbrev pub holds_path : S.State → BranchEntry → Bool
  holds_path s b = elim (build_path_max (b.path ∷ path ∷ [])) [
    | none ↦ false
    | some p ↦ succeeds (S.lstat p s) && usable flag b
  ]

  -- The branch at the index holds the path; no branch above holds it, or has a whiteout for it.
  -- Without an index no branch holds it, or one that does is below a whiteout, an error, or a
  -- branch in which the path would be too long.
  abbrev pub IsServed : S.State → List BranchEntry → Option ℕ → Type 0
  IsServed s [] none = Unit
  IsServed s [] (some i) = ⊥
  IsServed s (b ∷ rest) (some zero) = holds_path s b ≡ true
  IsServed s (b ∷ rest) (some (suc i)) =
      (holds_path s b ≡ false) × (hiding_in S uopt b path s ≡ visible) × IsServed s rest (some i)
  IsServed s (b ∷ rest) none =
      (holds_path s b ≡ false)
      × (build_path_max (b.path ∷ path ∷ []) ≡ none
          ⊎ (hiding_in S uopt b path s ≢ visible ⊎ IsServed s rest none))

  abbrev next_branch : Option ℕ → Option ℕ
  next_branch none = none
  next_branch (some i) = some (suc i)

  abbrev plus : ℕ → Option ℕ → Option ℕ
  plus i none = none
  plus i (some k) = some (i + k)

  plus-next : (i : ℕ) (r : Option ℕ) → plus (i + 1) r ≡ plus i (next_branch r)
  plus-next i none = refl
  plus-next i (some k) = ground arith

  accepts_lem :
      (f : Searchflag) (b : BranchEntry) (r : Sys Stat)
      → accepts f b (stat_of r) ≡ (succeeds r && usable f b)
  unfolding accepts ◌>>=◌
  accepts_lem rwro b (ok st) = refl
  accepts_lem rwonly b (ok st) = refl
  accepts_lem rwro b (err e) = refl
  accepts_lem rwonly b (err e) = refl

  plus-zero : (r : Option ℕ) → plus 0 r ≡ r
  plus-zero none = refl
  plus-zero (some k) = ground arith

  lstat-Observes :
      (p : FilePath) (w : World S) → Observes S (lstat S p) w (stat_of (S.lstat p w.os))
  lstat-Observes p w = elim (Sys-cases (S.lstat p w.os)) [
    | inl (st, f) ↦ (w, ground (arith, f), refl)
    | inr (n, f) ↦ (record { os = w.os; errno = pos n }, ground (arith, f), refl)
  ]

  next-IsServed :
      (s : S.State) (b : BranchEntry) (rest : List BranchEntry) (r : Option ℕ)
      → holds_path s b ≡ false
      → hiding_in S uopt b path s ≡ visible
      → IsServed s rest r
      → IsServed s (b ∷ rest) (next_branch r)
  next-IsServed s b rest none h v k = (h, inr (inr k))
  next-IsServed s b rest (some i) h v k = (h, v, k)

  -- The search from branch `i` on ends, with the index counted from there.
  abbrev Searches : List BranchEntry → ℕ → World S → Type 0
  Searches branches i w =
      (r : Option ℕ) × Observes S (find_from S uopt flag path branches i) w (plus i r)
      × IsServed w.os branches r

  -- After a branch that does not hold the path.
  module _ (b : BranchEntry) (rest : List BranchEntry) (i : ℕ) (w w1 : World S) (p : FilePath)
      (e : build_path_max (b.path ∷ path ∷ []) ≡ some p)
      (run : lstat S p w ≡ some (stat_of (S.lstat p w.os), w1)) (o1 : w1.os ≡ w.os)
      (a : accepts flag b (stat_of (S.lstat p w.os)) ≡ false) (m : b.path_len ≡ length b.path) where
    after_miss : ((w2 : World S) → Searches rest (i + 1) w2) → Searches (b ∷ rest) i w
    unfolding find_from ◌>>=◌
    after_miss ih =
        let h : holds_path w.os b ≡ false =
          ground (arith, e, a, accepts_lem flag b (S.lstat p w.os)) in
        let (w2, e2, o2) = path_hidden_in-Observes S uopt b path w1 m in
        let same : w2.os ≡ w.os = o2 ∙ o1 in
        elim (Hiding-cases (hiding_in S uopt b path w.os)) [
          | inl v ↦
              let (r, (w3, e3, o3), k) = ih w2 in
              (
                next_branch r,
                (w3, ground (arith, e, run, a, e2, o1, v, e3, plus-next i r), o3 ∙ same),
                next-IsServed w.os b rest r h v (rw same at k),
              )
          | inr (inl v) ↦ (
            none,
            (record w2 { errno = pos enoent }, ground (arith, e, run, a, e2, o1, v), same),
            (h, inr (inl (λ k. cc))),
          )
          | inr (inr (n, v)) ↦ (
            none,
            (record w2 { errno = neg (pos n) }, ground (arith, e, run, a, e2, o1, v), same),
            (h, inr (inl (λ k. cc))),
          )
        ]

  find_from-Searches :
      (branches : List BranchEntry) (i : ℕ) (w : World S)
      → AllMeasured branches
      → Searches branches i w
  unfolding find_from ◌>>=◌
  find_from-Searches [] i w m = (none, (record w { errno = pos enoent }, refl, refl), tt)
  find_from-Searches (b ∷ rest) i w m = elim (Option-cases (build_path_max (b.path ∷ path ∷ []))) [
    | inl e ↦ (
      none,
      (record w { errno = pos enametoolong }, ground (arith, e), refl),
      (ground (arith, e), inl e),
    )
    | inr (p, e) ↦
        let (w1, run, o1) = lstat-Observes p w in
        elim (Bool-cases (accepts flag b (stat_of (S.lstat p w.os)))) [
          | inl a ↦ (
            some 0,
            (w1, ground (arith, e, run, a), o1),
            ground (arith, e, a, accepts_lem flag b (S.lstat p w.os)),
          )
          | inr a ↦
              after_miss b rest i w w1 p e run o1 a m.0
                (λ w2. find_from-Searches rest (i + 1) w2 m.1)
        ]
  ]

  -- If every branch knows the length of its path, the search ends without a fault and changes
  -- nothing but `errno`. If it returns a branch, the path is in that branch and may be used there,
  -- and no branch above has the path for use, or a whiteout for it. If it returns none, there is no
  -- branch with the path for use down to the first that has a whiteout for it or an error, or in
  -- which the path is too long.
  pub find_branch-IsServed :
      (w : World S)
      → AllMeasured uopt.branches
      → (r : Option ℕ) × Observes S (find_branch S uopt path flag) w r
        × IsServed w.os uopt.branches r
  unfolding find_branch ◌>>=◌
  find_branch-IsServed w m =
      let (r, (w1, e, o), k) = find_from-Searches uopt.branches 0 w m in
      (r, (w1, ground (arith, e, plus-zero r), o), k)

-- ===== src/Ops/Statfs/Totals.antt =====
-- `statfs` counts each device once.
use mathlib.Core.Path.{subst}
use unionfs_fuse.Prelude.{
  ℕ, ◌+◌, ◌≤◌, ◌<◌, ◌^◌, ◌≡◌, refl, sym, ap, ◌∙◌, Bool, true, false, not, ◌||◌, inl, inr, List, [],
  ◌∷◌, if◌then◌else◌, Bool-cases, arith,
}
use unionfs_fuse.Os.{FilePath, Sys, ok}
use unionfs_fuse.Union.{BranchEntry}
use unionfs_fuse.Ops.{Reply, reply, refuse}
use unionfs_fuse.Ops.Statfs.{
  Statfs, Statvfs, local_of, met, statvfs_local, add_counts, merge_flags, merge_branch, statfs_from,
  unionfs_statfs,
}

-- `double` is exact for sizes of up to 53 bits where the block sizes are the same.
abbrev pub IsExact : (ℕ → ℕ → ℕ → ℕ → ℕ) → Type 0
IsExact add_scaled = (a b n : ℕ) → 0 < n → a + b ≤ 2 ^ 53 → add_scaled a b n n ≡ a + b

-- The branches on a device that no branch before them is on.
abbrev pub fresh : (FilePath → ℕ) → List ℕ → List BranchEntry → List BranchEntry
fresh device devno [] = []
fresh device devno (b ∷ rest) =
    let others = fresh device (device b.path ∷ devno) rest in
    if met (device b.path) devno then others else b ∷ others

abbrev pub total : (BranchEntry → ℕ) → List BranchEntry → ℕ
total count [] = 0
total count (b ∷ rest) = count b + total count rest

module _ (volume : FilePath → Statfs) (omit_ro : Bool) where
  abbrev pub blocks_of : BranchEntry → ℕ
  blocks_of b = if b.rw || not omit_ro then (volume b.path).f_blocks else 0

  abbrev pub free_of : BranchEntry → ℕ
  free_of b = if b.rw then (volume b.path).f_bfree else 0

  abbrev pub available_of : BranchEntry → ℕ
  available_of b = if b.rw then (volume b.path).f_bavail else 0

-- The sizes in the answer.
abbrev pub Counts : Reply Statvfs → ℕ → ℕ → ℕ → Type 0
Counts (reply stbuf) x y z = (stbuf.f_blocks ≡ x) × (stbuf.f_bfree ≡ y) × (stbuf.f_bavail ≡ z)
Counts (refuse e) x y z = ⊥

-- One more volume.
record Added (omit_ro : Bool) (v : Statfs) (w : Bool) (s t : Statvfs) : Type 0 where
  f_bsize : t.f_bsize ≡ s.f_bsize
  f_blocks : t.f_blocks ≡ s.f_blocks + (if w || not omit_ro then v.f_blocks else 0)
  f_bfree : t.f_bfree ≡ s.f_bfree + (if w then v.f_bfree else 0)
  f_bavail : t.f_bavail ≡ s.f_bavail + (if w then v.f_bavail else 0)

module _ (statfs : FilePath → Sys Statfs) (st_dev : FilePath → Sys ℕ)
    (add_scaled : ℕ → ℕ → ℕ → ℕ → ℕ) (E : IsExact add_scaled) where
  exact : (a b n m : ℕ) → 0 < n → n ≡ m → a + b ≤ 2 ^ 53 → add_scaled a b n m ≡ a + b
  exact a b n m p q h = subst (λ k. add_scaled a b n k ≡ a + b) q (E a b n p h)

  add_counts-Added :
      (omit_ro : Bool) (v : Statfs) (w : Bool) (s : Statvfs)
      → 0 < v.f_bsize
      → v.f_bsize ≡ s.f_bsize
      → s.f_blocks + (if w || not omit_ro then v.f_blocks else 0) ≤ 2 ^ 53
      → s.f_bfree + (if w then v.f_bfree else 0) ≤ 2 ^ 53
      → s.f_bavail + (if w then v.f_bavail else 0) ≤ 2 ^ 53
      → Added omit_ro v w s
          (merge_branch statfs st_dev add_scaled omit_ro false false w (local_of v) s)
  unfolding merge_branch merge_flags add_counts
  add_counts-Added omit_ro v true s p q hx hy hz = record {
    f_bsize = refl;
    f_blocks = exact s.f_blocks v.f_blocks v.f_bsize s.f_bsize p q hx;
    f_bfree = exact s.f_bfree v.f_bfree v.f_bsize s.f_bsize p q hy;
    f_bavail = exact s.f_bavail v.f_bavail v.f_bsize s.f_bsize p q hz;
  }
  add_counts-Added true v false s p q hx hy hz = record {
    f_bsize = refl;
    f_blocks = omega arith;
    f_bfree = omega arith;
    f_bavail = omega arith;
  }
  add_counts-Added false v false s p q hx hy hz = record {
    f_bsize = refl;
    f_blocks = exact s.f_blocks v.f_blocks v.f_bsize s.f_bsize p q hx;
    f_bfree = omega arith;
    f_bavail = omega arith;
  }

module _ (statfs : FilePath → Sys Statfs) (st_dev : FilePath → Sys ℕ)
    (add_scaled : ℕ → ℕ → ℕ → ℕ → ℕ) (omit_ro : Bool) (volume : FilePath → Statfs)
    (device : FilePath → ℕ) (n : ℕ) (E : IsExact add_scaled)
    (F : (p : FilePath) → statfs p ≡ ok (volume p)) (D : (p : FilePath) → st_dev p ≡ ok (device p))
    (N : (p : FilePath) → (volume p).f_bsize ≡ n) (pos : 0 < n) where
  abbrev merged : Bool → List ℕ → BranchEntry → Statvfs → Statvfs
  merged start devno b s =
      merge_branch statfs st_dev add_scaled omit_ro start (met (device b.path) devno) b.rw
        (local_of (volume b.path)) s

  statfs_from_step :
      (b : BranchEntry) (rest : List BranchEntry) (start : Bool) (devno : List ℕ) (s : Statvfs)
      → statfs_from statfs st_dev add_scaled omit_ro (b ∷ rest) start devno s
        ≡ statfs_from statfs st_dev add_scaled omit_ro rest false
            (device b.path ∷ devno)
            (merged start devno b s)
  unfolding statfs_from statvfs_local
  statfs_from_step b rest start devno s = simp (statfs_from, statvfs_local, F b.path, D b.path)

  abbrev answer : List BranchEntry → Bool → List ℕ → Statvfs → Reply Statvfs
  answer bs start devno s = statfs_from statfs st_dev add_scaled omit_ro bs start devno s

  abbrev Fits : (BranchEntry → ℕ) → List BranchEntry → ℕ → Type 0
  Fits count bs x = x + total count bs ≤ 2 ^ 53

  abbrev FitsAll : List BranchEntry → Statvfs → Type 0
  FitsAll bs s =
      Fits (blocks_of volume omit_ro) bs s.f_blocks
      × Fits (free_of volume omit_ro) bs s.f_bfree
      × Fits (available_of volume omit_ro) bs s.f_bavail

  abbrev CountsOn : Reply Statvfs → Statvfs → List BranchEntry → Type 0
  CountsOn r s bs =
      Counts r (s.f_blocks + total (blocks_of volume omit_ro) bs)
        (s.f_bfree + total (free_of volume omit_ro) bs)
        (s.f_bavail + total (available_of volume omit_ro) bs)

  new_branch : BranchEntry → Statvfs → Statvfs
  new_branch b s =
      merge_branch statfs st_dev add_scaled omit_ro false false b.rw (local_of (volume b.path)) s

  new_branch-Added :
      (b : BranchEntry) (rest : List BranchEntry) (s : Statvfs)
      → s.f_bsize ≡ n
      → FitsAll (b ∷ rest) s
      → Added omit_ro (volume b.path) b.rw s (new_branch b s)
  unfolding new_branch
  new_branch-Added b rest s q h =
      add_counts-Added statfs st_dev add_scaled E omit_ro (volume b.path) b.rw s
        (omega (arith, N b.path, pos)) (N b.path ∙ sym q) (omega (arith, h.0)) (omega (arith, h.1))
        (omega (arith, h.2))

  new_branch-FitsAll :
      (b : BranchEntry) (rest : List BranchEntry) (s : Statvfs)
      → Added omit_ro (volume b.path) b.rw s (new_branch b s)
      → FitsAll (b ∷ rest) s
      → FitsAll rest (new_branch b s)
  new_branch-FitsAll b rest s A h = (
    omega (arith, A.f_blocks, h.0),
    omega (arith, A.f_bfree, h.1),
    omega (arith, A.f_bavail, h.2),
  )

  new_branch-CountsOn :
      (b : BranchEntry) (rest : List BranchEntry) (s : Statvfs) (r : Reply Statvfs)
      → Added omit_ro (volume b.path) b.rw s (new_branch b s)
      → CountsOn r (new_branch b s) rest
      → CountsOn r s (b ∷ rest)
  new_branch-CountsOn b rest s (refuse e) A c = c
  new_branch-CountsOn b rest s (reply t) A c = (
    omega (arith, A.f_blocks, c.0),
    omega (arith, A.f_bfree, c.1),
    omega (arith, A.f_bavail, c.2),
  )

  merged-new :
      (devno : List ℕ) (b : BranchEntry) (s : Statvfs)
      → met (device b.path) devno ≡ false
      → merged false devno b s ≡ new_branch b s
  unfolding new_branch
  merged-new devno b s f =
      ap
        (λ m.
          merge_branch statfs st_dev add_scaled omit_ro false m b.rw (local_of (volume b.path)) s)
        f

  merged-seen :
      (devno : List ℕ) (b : BranchEntry) (s : Statvfs)
      → met (device b.path) devno ≡ true
      → merged false devno b s ≡ s
  unfolding merge_branch
  merged-seen devno b s f =
      ap
        (λ m.
          merge_branch statfs st_dev add_scaled omit_ro false m b.rw (local_of (volume b.path)) s)
        f

  loop-CountsOn :
      (bs : List BranchEntry) (devno : List ℕ) (s : Statvfs)
      → s.f_bsize ≡ n
      → FitsAll (fresh device devno bs) s
      → CountsOn (answer bs false devno s) s (fresh device devno bs)
  unfolding statfs_from
  loop-CountsOn [] devno s q h = (omega arith, omega arith, omega arith)
  loop-CountsOn (b ∷ rest) devno s q h =
      let others = fresh device (device b.path ∷ devno) rest in
      elim (Bool-cases (met (device b.path) devno)) [
        | inl f ↦
            let e : fresh device devno (b ∷ rest) ≡ others = rw f refl in
            let h' = subst (λ l. FitsAll l s) e h in
            let r =
              statfs_from_step b rest false devno s
              ∙ ap (answer rest false (device b.path ∷ devno)) (merged-seen devno b s f) in
            subst (λ l. CountsOn (answer (b ∷ rest) false devno s) s l) (sym e)
              (subst (λ r. CountsOn r s others) (sym r)
                (loop-CountsOn rest (device b.path ∷ devno) s q h'))
        | inr f ↦
            let e : fresh device devno (b ∷ rest) ≡ b ∷ others = rw f refl in
            let h' = subst (λ l. FitsAll l s) e h in
            let A = new_branch-Added b others s q h' in
            let t = new_branch b s in
            let r =
              statfs_from_step b rest false devno s
              ∙ ap (answer rest false (device b.path ∷ devno)) (merged-new devno b s f) in
            subst (λ l. CountsOn (answer (b ∷ rest) false devno s) s l) (sym e)
              (subst (λ r. CountsOn r s (b ∷ others)) (sym r)
                (new_branch-CountsOn b others s (answer rest false (device b.path ∷ devno) t) A (
                  loop-CountsOn rest (device b.path ∷ devno) t (A.f_bsize ∙ q)
                    (new_branch-FitsAll b others s A h'))))
      ]

  abbrev first_of : BranchEntry → Statvfs
  first_of b = local_of (volume b.path)

  -- The sizes that `statfs` answers are those of the first branch and then of every branch on a device
  -- that no branch before is on. The first branch counts in full, also if it is read-only and
  -- `omit_ro` is on. The blocks of another such branch count if it is writable or `omit_ro` is off, the
  -- free and available ones if it is writable. All calls succeed, the block sizes are the same,
  -- and the sums have 53 bits, so that `double` is exact.
  pub unionfs_statfs-Counts :
      (b : BranchEntry) (rest : List BranchEntry) (stbuf : Statvfs)
      → FitsAll (fresh device (device b.path ∷ []) rest) (first_of b)
      → CountsOn
          (unionfs_statfs statfs st_dev add_scaled omit_ro (b ∷ rest) stbuf)
          (first_of b)
          (fresh device (device b.path ∷ []) rest)
  unfolding unionfs_statfs merge_branch
  unionfs_statfs-Counts b rest stbuf h =
      let s = merged true [] b stbuf in
      subst (λ r. CountsOn r (first_of b) (fresh device (device b.path ∷ []) rest))
        (sym (statfs_from_step b rest true [] stbuf))
        (loop-CountsOn rest (device b.path ∷ []) s (N b.path) h)

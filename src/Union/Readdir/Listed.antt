-- ===== src/Union/Readdir/Listed.antt =====
-- The whole of `unionfs_readdir` of src/readdir.c.
use unionfs_fuse.Prelude.{
  ◌≡◌, refl, sym, ap, ◌∙◌, Bool, false, not, ◌&&◌, ◌||◌, inl, inr, none, some, List, [], ◌∷◌,
  Bool-cases, Option-cases, arith,
}
use unionfs_fuse.Prelude.Int.{ℤ, pos, neg}
use unionfs_fuse.Os.{FilePath, Os, Sys, ok, err, World}
use unionfs_fuse.Os.Monad.{M, ◌>>=◌}
use unionfs_fuse.Text.{enametoolong, build_path_max}
use unionfs_fuse.Union.{BranchEntry, Uopt, metadir}
use unionfs_fuse.Union.Hidden.{visible, hidden, failure}
use unionfs_fuse.Union.Hidden.Observe.{
  Observes, Sys-cases, Hiding-cases, hiding_in, path_hidden_in-Observes,
}
use unionfs_fuse.Union.Find.Served.{AllMeasured}
use unionfs_fuse.Union.Readdir.{
  NameSet, IsNameSet, Listing, hide_meta_files, add_entries, add_whiteouts, read_whiteouts,
  more_whiteouts, add_directory, readdir_from, unionfs_readdir,
}
use unionfs_fuse.Union.Readdir.Merge.{
  AllDistinct, IsListing, occurs, marked, add_whiteouts-marked, add_entries-occurs,
}

abbrev names_of : Sys (List FilePath) → List FilePath
names_of (ok names) = names
names_of (err e) = []

module _ (S : Os) (uopt : Uopt) (path : FilePath) (s : S.State) where
  -- The names in the directory of the whiteouts for the path in a branch.
  abbrev whiteouts_at : BranchEntry → List FilePath
  whiteouts_at b = elim (build_path_max (b.path ∷ metadir ∷ path ∷ [])) [
    | none ↦ []
    | some p ↦ names_of (S.opendir p s)
  ]

  -- Is the name in the directory `p` of a branch, and not concealed there? `gone` says which names
  -- have a whiteout in a branch above.
  abbrev shows : (FilePath → Bool) → BranchEntry → FilePath → FilePath → Bool
  shows gone b p k =
      occurs k (names_of (S.opendir p s))
      && not ((uopt.cow_enabled && gone k) || hide_meta_files uopt b p k)

  -- Is the name in the listing of the path in the union of the branches? A branch in which the
  -- path has a whiteout is the last; a path that is too long ends the listing before.
  pub listed : List BranchEntry → (FilePath → Bool) → FilePath → Bool
  listed [] gone k = false
  listed (b ∷ rest) gone k =
      let below = listed rest (λ j. gone j || (uopt.cow_enabled && marked j (whiteouts_at b))) k in
      elim (build_path_max (b.path ∷ path ∷ [])) [
        | none ↦ false
        | some p ↦ elim (hiding_in S uopt b path s) [
          | failure e ↦ false
          | hidden ↦ shows gone b p k
          | visible ↦ shows gone b p k || below
        ]
      ]

module _ (S : Os) (T : NameSet) (L : IsNameSet T) (uopt : Uopt) where
  abbrev never_full : List FilePath → FilePath → Bool
  never_full names name = false

  add_directory-Observes :
      (b : BranchEntry) (path p : FilePath) (whiteouts : T.Table) (l : Listing T) (w : World S)
      (s : S.State)
      → w.os ≡ s
      → IsListing T L l
      → (l' : Listing T) × Observes S (add_directory S T never_full uopt b p whiteouts l) w l'
        × IsListing T L l'
        × ((k : FilePath)
            → occurs k l'.filled
              ≡ (occurs k l.filled || shows S uopt path s (T.search whiteouts) b p k))
  unfolding add_directory ◌>>=◌
  add_directory-Observes b path p whiteouts l w s q h = elim (Sys-cases (S.opendir p w.os)) [
    | inl (names, e) ↦
        let all = add_entries-occurs T L uopt b p whiteouts names l h in
        let e' = rw q at e in
        (
          add_entries T never_full uopt b p whiteouts l names,
          (w, ground (arith, e), refl),
          all.0,
          λ k. ground (arith, e', all.1 k),
        )
    | inr (n, e) ↦
        let e' = rw q at e in
        (
          l,
          (record { os = w.os; errno = pos n }, ground (arith, e), refl),
          h,
          λ k. ground (arith, e'),
        )
  ]

  more_whiteouts-Observes :
      (b : BranchEntry) (path : FilePath) (whiteouts : T.Table) (w : World S) (s : S.State)
      → w.os ≡ s
      → (whiteouts' : T.Table) × Observes S
          (more_whiteouts S T never_full uopt b path whiteouts)
          w
          whiteouts'
        × ((k : FilePath)
            → T.search whiteouts' k ≡ (
                T.search whiteouts k
                || (uopt.cow_enabled && marked k (whiteouts_at S uopt path s b))))
  unfolding more_whiteouts read_whiteouts ◌>>=◌
  more_whiteouts-Observes b path whiteouts w s q = elim (Bool-cases uopt.cow_enabled) [
    | inr c ↦ (whiteouts, (w, ground (arith, c), refl), λ k. ground (arith, c))
    | inl c ↦ elim (Option-cases (build_path_max (b.path ∷ metadir ∷ path ∷ []))) [
      | inl e ↦ (whiteouts, (w, ground (arith, c, e), refl), λ k. ground (arith, c, e))
      | inr (p, e) ↦ elim (Sys-cases (S.opendir p w.os)) [
        | inl (names, f) ↦
            let f' = rw q at f in
            (
              add_whiteouts T whiteouts names,
              (w, ground (arith, c, e, f), refl),
              λ k. ground (arith, c, e, f', add_whiteouts-marked T L whiteouts names k),
            )
        | inr (n, f) ↦
            let f' = rw q at f in
            (
              whiteouts,
              (record { os = w.os; errno = pos n }, ground (arith, c, e, f), refl),
              λ k. ground (arith, c, e, f'),
            )
      ]
    ]
  ]

  -- A result with distinct names, those before and those of the union, from a computation that
  -- only reads.
  abbrev Lists : M (World S) (ℤ × List FilePath) → World S → (FilePath → Bool) → Type 0
  Lists m w names =
      (r : ℤ × List FilePath) × Observes S m w r
      × AllDistinct r.1
      × ((k : FilePath) → occurs k r.1 ≡ names k)

  readdir_from-Lists :
      (path : FilePath) (branches : List BranchEntry) (gone : FilePath → Bool) (whiteouts : T.Table)
      (l : Listing T) (w : World S) (s : S.State)
      → w.os ≡ s
      → ((k : FilePath) → T.search whiteouts k ≡ gone k)
      → IsListing T L l
      → AllMeasured branches
      → Lists
          (readdir_from S T never_full uopt path branches whiteouts l)
          w
          (λ k. occurs k l.filled || listed S uopt path s branches gone k)
  unfolding readdir_from listed ◌>>=◌
  readdir_from-Lists path [] gone whiteouts l w s q g h m =
      ((pos 0, l.filled), (w, refl, refl), h.1, λ k. ground arith)
  readdir_from-Lists path (b ∷ rest) gone whiteouts l w s q g h m =
      elim (Option-cases (build_path_max (b.path ∷ path ∷ []))) [
        | inl e ↦ (
          (neg (pos enametoolong), l.filled),
          (w, ground (arith, e), refl),
          h.1,
          λ k. ground (arith, e),
        )
        | inr (p, e) ↦
            let (w1, e1, o1) = path_hidden_in-Observes S uopt b path w m.0 in
            let (l', (w2, e2, o2), h', f2) =
              add_directory-Observes b path p whiteouts l w1 s (o1 ∙ q) h in
            let (wh, (w3, e3, o3), f3) =
              more_whiteouts-Observes b path whiteouts w2 s (o2 ∙ (o1 ∙ q)) in
            let same = o3 ∙ (o2 ∙ o1) in
            let at_s = ap (hiding_in S uopt b path) q in
            elim (Hiding-cases (hiding_in S uopt b path w.os)) [
              | inr (inr (n, v)) ↦
                  let v' = sym at_s ∙ v in
                  (
                    (neg (pos n), l.filled),
                    (w1, ground (arith, e, e1, v), o1),
                    h.1,
                    λ k. ground (arith, e, v'),
                  )
              | inr (inl v) ↦
                  let v' = sym at_s ∙ v in
                  (
                    (pos 0, l'.filled),
                    (w3, ground (arith, e, e1, v, e2, e3), same),
                    h'.1,
                    λ k. ground (arith, e, v', f2 k, g k),
                  )
              | inl v ↦
                  let v' = sym at_s ∙ v in
                  let (r, (w4, e4, o4), d, f4) =
                    readdir_from-Lists path rest
                      (λ j. gone j || (uopt.cow_enabled && marked j (whiteouts_at S uopt path s b)))
                      wh l' w3 s (same ∙ q) (λ k. ground (arith, f3 k, g k)) h' m.1 in
                  (
                    r,
                    (w4, ground (arith, e, e1, v, e2, e3, e4), o4 ∙ same),
                    d,
                    λ k. ground (arith, e, v', f4 k, f2 k, g k),
                  )
            ]
      ]

  -- If every branch knows the length of its path, the hash table is a set of names, and the buffer
  -- takes every name, then listing a directory of the union ends without a fault, changes nothing
  -- but `errno`, and passes each name once: exactly the names that some branch has, that are no
  -- file of the union itself where such files are to be hidden, and that have no whiteout in a
  -- branch above, down to the first branch in which a whiteout hides the directory or a path is too
  -- long.
  pub unionfs_readdir-listed :
      (path : FilePath) (w : World S)
      → AllMeasured uopt.branches
      → (r : ℤ × List FilePath) × Observes S (unionfs_readdir S T never_full uopt path) w r
        × AllDistinct r.1
        × ((k : FilePath) → occurs k r.1 ≡ listed S uopt path w.os uopt.branches (λ _. false) k)
  unfolding unionfs_readdir ◌>>=◌
  unionfs_readdir-listed path w m =
      readdir_from-Lists path uopt.branches (λ _. false) T.create
        (record { files = T.create; filled = [] }) w w.os refl L.search-create (L.search-create, tt)
        m

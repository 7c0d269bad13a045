-- ===== src/Union/Datamap/Guarded.antt =====
-- Map files are made, destroyed and cut only in the metadata directories.
use unionfs_fuse.Prelude.{
  ℕ, ◌≡◌, true, not, Option, none, some, ◌∷◌, ◌++◌, take, ◌-◌, [], inl, inr, arith, Option-cases,
}
use unionfs_fuse.Os.{FilePath, Os, Call, World, stat, get_errno}
use unionfs_fuse.Os.Monad.{M}
use unionfs_fuse.Os.Safe.{
  Guards, Safe, Any, Allowed, act-Safe, safe_rules, Safe-bind, Safe-then, Safe-if, Safe-option,
  Safe-pure, Safe-forget,
}
use unionfs_fuse.Text.{begins, ends_slash, skip_slashes, build_path_max, pathlen_max}
use unionfs_fuse.Text.Prefix.{begins-inside, build_path_max-begins, build_path_max-begins_two}
use unionfs_fuse.Drm.Mem.{Bsearch}
use unionfs_fuse.Drm.File.Guarded.{
  drmf_create-Safe, drmf_destroy-Safe, drmf_rename-Safe, drmf_open-Safe, drmf_close-Safe,
  drmf_trunc-Safe,
}
use unionfs_fuse.Union.{Uopt, metadir}
use unionfs_fuse.Union.Guarded.{Opens, OpensMeta, Slashed, branch_at-then}
use unionfs_fuse.Union.Whiteout.Guarded.{create_metapath-Safe}
use unionfs_fuse.Union.Datamap.{
  cowolf_drmaptag, cowolf_linktag, check_cowolfability, tagged_path, build_mappath,
  build_cowolf_paths, has_datamap, create_files, cowolf_create_datamap, cowolf_destroy_datamap,
  cowolf_truncate_datamap, rename_files, rename_built, cowolf_rename_datamap,
}

no_slashes : (m : FilePath) → begins metadir m ≡ true → skip_slashes m ≡ m
unfolding skip_slashes
no_slashes [] h = cc
no_slashes (c ∷ m) h = ground (arith, h)

tagged_path-begins :
    (bpath path tag p : FilePath)
    → ends_slash bpath ≡ true
    → tagged_path bpath path tag ≡ some p
    → begins (bpath ++ metadir) p ≡ true
unfolding tagged_path
tagged_path-begins bpath path tag p h e =
    elim (Option-cases (build_path_max (metadir ∷ take (pathlen_max - 1) (path ++ tag) ∷ []))) [
      | inl f ↦ let e' = rw (tagged_path, f) at e in cc
      | inr (meta, f) ↦
          let e' = rw (tagged_path, f) at e in
          let inside = build_path_max-begins metadir _ meta f in
          begins-inside bpath metadir meta p inside
            (build_path_max-begins_two bpath meta [] p h (no_slashes meta inside) e')
    ]

-- The path, or both paths, have the property.
abbrev OurPath : (FilePath → Type 0) → Option FilePath → Type 0
OurPath Ours none = Unit
OurPath Ours (some p) = Ours p

abbrev OurPaths : (FilePath → Type 0) → Option (FilePath × FilePath) → Type 0
OurPaths Ours none = Unit
OurPaths Ours (some (p, q)) = Ours p × Ours q

module _ {S : Os} {P : S.State → Type 0} (Ours : FilePath → Type 0) {B : Type 0}
    {Q : B → Type 0} where
  Safe-path :
      (m : M (World S) B) (k : FilePath → M (World S) B)
      → Safe S P m Q
      → ((p : FilePath) → Ours p → Safe S P (k p) Q)
      → (o : Option FilePath) → OurPath Ours o
      → Safe S P (elim o [ none ↦ m | some p ↦ k p ]) Q
  Safe-path m k h g none o = h
  Safe-path m k h g (some p) o = g p o

  Safe-paths :
      (m : M (World S) B) (k : FilePath × FilePath → M (World S) B)
      → Safe S P m Q
      → ((p q : FilePath) → Ours p → Ours q → Safe S P (k (p, q)) Q)
      → (o : Option (FilePath × FilePath)) → OurPaths Ours o
      → Safe S P (elim o [ none ↦ m | some ps ↦ k ps ]) Q
  Safe-paths m k h g none o = h
  Safe-paths m k h g (some (p, q)) o = g p q o.0 o.1

module _ {S : Os} {P : S.State → Type 0} (Ours : FilePath → Type 0) (G : Guards S (Allowed Ours) P)
    (uopt : Uopt) (M : OpensMeta Ours uopt) (L : Slashed uopt) where
  build_mappath-Safe :
      (path : FilePath) (i : ℕ) → Safe S P (build_mappath S uopt path i) (OurPath Ours)
  unfolding build_mappath
  build_mappath-Safe path i = branch_at-then uopt i _ (λ b e.
      Safe-option (tagged_path b.path path cowolf_drmaptag) _ _
        (Safe-then _ _ (search safe_rules) (λ _. Safe-pure none tt))
        (λ p f. Safe-pure (some p) (M i b e p (tagged_path-begins b.path path _ p (L i b e) f))))

  build_cowolf_paths-Safe :
      (path : FilePath) (i : ℕ) → Safe S P (build_cowolf_paths S uopt path i) (OurPaths Ours)
  unfolding build_cowolf_paths
  build_cowolf_paths-Safe path i = branch_at-then uopt i _ (λ b e.
      Safe-option (tagged_path b.path path cowolf_drmaptag) _ _
        (Safe-then _ _ (search safe_rules) (λ _. Safe-pure none tt))
        (λ p f.
          Safe-option (tagged_path b.path path cowolf_linktag) _ _
            (Safe-then _ _ (search safe_rules) (λ _. Safe-pure none tt))
            (λ q g. Safe-pure (some (p, q)) (
              M i b e p (tagged_path-begins b.path path _ p (L i b e) f),
              M i b e q (tagged_path-begins b.path path _ q (L i b e) g),
            ))))

  has_datamap-Safe : (path : FilePath) (i : ℕ) → Safe S P (has_datamap S uopt path i) Any
  unfolding has_datamap
  has_datamap-Safe path i = Safe-then _ _ (Safe-forget _ (build_mappath-Safe path i)) (λ built.
      Safe-option built _ _ (search safe_rules) (λ p _.
        Safe-then (stat S p) _ (search safe_rules) (λ buf.
          Safe-then (get_errno S) _ (search safe_rules)
            (λ errno. Safe-option buf _ _ (search safe_rules) (λ _ _. search safe_rules)))))

  create_files-Safe :
      (path p q : FilePath) (n : ℕ)
      → Ours p
      → Ours q
      → Safe S P (create_files S uopt path n (p, q)) Any
  unfolding create_files
  create_files-Safe path p q n h1 h2 =
      search (safe_rules, act-Safe Ours G, drmf_create-Safe Ours G, h1, h2) depth 8

  pub cowolf_create_datamap-Safe :
      (path : FilePath) (i n : ℕ)
      → Opens Ours uopt i
      → Safe S P (cowolf_create_datamap S uopt path i n) Any
  unfolding cowolf_create_datamap
  cowolf_create_datamap-Safe path i n W =
      Safe-if (not (check_cowolfability uopt n)) _ _ (λ _. search safe_rules)
        (λ _. Safe-then _ _ (create_metapath-Safe Ours G uopt path i W) (λ meta.
          Safe-if (not meta) _ _ (λ _. search safe_rules)
            (λ _.
              Safe-bind _ _ (build_cowolf_paths-Safe path i)
                (Safe-paths Ours _ _ (search safe_rules) (λ p q. create_files-Safe path p q n)))))

  pub cowolf_destroy_datamap-Safe :
      (path : FilePath) (i : ℕ) → Safe S P (cowolf_destroy_datamap S uopt path i) Any
  unfolding cowolf_destroy_datamap
  cowolf_destroy_datamap-Safe path i = Safe-then _ _ (has_datamap-Safe path i) (λ has.
      Safe-if (not has) _ _ (λ _. search safe_rules)
        (λ _. Safe-bind _ _ (build_cowolf_paths-Safe path i) (
          Safe-paths Ours _ _ (search safe_rules) (λ p q h1 h2.
            Safe-then _ _ (drmf_destroy-Safe Ours G p h1)
              (λ _. search (safe_rules, act-Safe Ours G, h2))))))

  pub cowolf_truncate_datamap-Safe :
      (bsearch : Bsearch) (path : FilePath) (i n : ℕ)
      → Safe S P (cowolf_truncate_datamap S uopt bsearch path i n) Any
  unfolding cowolf_truncate_datamap
  cowolf_truncate_datamap-Safe bsearch path i n = Safe-then _ _ (has_datamap-Safe path i) (λ has.
      Safe-if (not has) _ _ (λ _. search safe_rules)
        (λ _. Safe-bind _ _ (build_mappath-Safe path i) (
          Safe-path Ours _ _ (search safe_rules) (λ p h.
            Safe-then _ _ (drmf_open-Safe Ours G p h) (λ opened.
              Safe-option opened _ _ (search safe_rules)
                (λ fd _. search (safe_rules, drmf_trunc-Safe Ours G, drmf_close-Safe Ours G)))))))

  rename_files-Safe :
      (o p n q : FilePath)
      → Ours o
      → Ours p
      → Ours n
      → Ours q
      → Safe S P (rename_files S uopt (o, p) (n, q)) Any
  unfolding rename_files
  rename_files-Safe o p n q h1 h2 h3 h4 =
      Safe-then _ _ (drmf_rename-Safe Ours G o n h1 h3) (λ renamed.
        Safe-if (not renamed) _ _ (λ _. search safe_rules)
          (λ _.
            Safe-then _ _ (act-Safe Ours G (Call.rename p q) (h2, h4)) (λ res. search safe_rules)))

  pub cowolf_rename_datamap-Safe :
      (path newpath : FilePath) (i : ℕ)
      → Opens Ours uopt i
      → Safe S P (cowolf_rename_datamap S uopt path newpath i) Any
  unfolding cowolf_rename_datamap rename_built
  cowolf_rename_datamap-Safe path newpath i W = Safe-then _ _ (has_datamap-Safe path i) (λ has.
      Safe-if (not has) _ _ (λ _. search safe_rules)
        (λ _. Safe-bind _ _ (build_cowolf_paths-Safe path i) (
          Safe-paths Ours _ _ (search safe_rules) (λ o p h1 h2.
            Safe-bind _ _ (build_cowolf_paths-Safe newpath i) (
              Safe-paths Ours _ _ (search safe_rules) (λ n q h3 h4.
                Safe-then _ _ (create_metapath-Safe Ours G uopt newpath i W) (λ meta.
                  Safe-if (not meta) _ _ (λ _. search safe_rules)
                    (λ _. rename_files-Safe o p n q h1 h2 h3 h4))))))))

-- ===== src/Union/Readdir/Merge.antt =====
-- The merge of directory listings in src/readdir.c, with a hash table that is a set of names.
use unionfs_fuse.Prelude.{
  ◌≡◌, refl, ◌∙◌, Bool, true, false, not, ◌&&◌, ◌||◌, inl, inr, none, some, List, [], ◌∷◌, ◌++◌,
  take, Bool-cases, Option-cases, arith,
}
use unionfs_fuse.Os.{FilePath}
use unionfs_fuse.Text.{whiteout_tag}
use unionfs_fuse.Union.{BranchEntry, Uopt}
use unionfs_fuse.Union.Readdir.{
  same, NameSet, IsNameSet, hide_meta_files, is_hiding, add_whiteouts, Listing, skips, add_entries,
}

abbrev pub occurs : FilePath → List FilePath → Bool
occurs k [] = false
occurs k (n ∷ ns) = same n k || occurs k ns

-- No name twice.
abbrev pub AllDistinct : List FilePath → Type 0
AllDistinct [] = Unit
AllDistinct (n ∷ ns) = (occurs n ns ≡ false) × AllDistinct ns

-- Is the name one that an entry of the directory marks as deleted?
abbrev pub marked : FilePath → List FilePath → Bool
marked k [] = false
marked k (n ∷ ns) =
    elim (whiteout_tag n) [ none ↦ false | some tag ↦ same (take tag n) k ] || marked k ns

same_refl : (a : FilePath) → same a a ≡ true
same_refl [] = refl
same_refl (c ∷ a) = ground (arith, same_refl a)

same→≡ : (a b : FilePath) → same a b ≡ true → a ≡ b
same→≡ [] [] h = refl
same→≡ [] (d ∷ b) h = cc
same→≡ (c ∷ a) [] h = cc
same→≡ (c ∷ a) (d ∷ b) h =
    let e : c ≡ d = ground arith in let f = same→≡ a b (ground arith) in λ i. e i ∷ f i

same-sym : (a b : FilePath) → same a b ≡ same b a
same-sym [] [] = refl
same-sym [] (d ∷ b) = refl
same-sym (c ∷ a) [] = refl
same-sym (c ∷ a) (d ∷ b) = ground (arith, same-sym a b)

occurs-append :
    (k n : FilePath) (ns : List FilePath) → occurs k (ns ++ (n ∷ [])) ≡ (occurs k ns || same n k)
occurs-append k n [] = ground arith
occurs-append k n (m ∷ ns) = ground (arith, occurs-append k n ns)

AllDistinct-append :
    (n : FilePath) (ns : List FilePath)
    → AllDistinct ns
    → occurs n ns ≡ false
    → AllDistinct (ns ++ (n ∷ []))
AllDistinct-append n [] d h = (refl, tt)
AllDistinct-append n (m ∷ ns) d h =
    (ground (arith, occurs-append m n ns, same-sym m n), AllDistinct-append n ns d.1 (ground arith))

module _ (T : NameSet) (L : IsNameSet T) where
  -- A name that is in the table already changes nothing.
  search-again :
      (t : T.Table) (key k : FilePath)
      → T.search t key ≡ true
      → T.search t k ≡ (T.search t k || same key k)
  search-again t key k h = elim (Bool-cases (same key k)) [
    | inl e ↦ let f = same→≡ key k e in let g = rw f at h in rw g refl
    | inr e ↦ rw e (ground arith)
  ]

  is_hiding-marked :
      (t : T.Table) (n k : FilePath)
      → T.search (is_hiding T t n) k ≡ (T.search t k || marked k (n ∷ []))
  unfolding is_hiding
  is_hiding-marked t n k = elim (Option-cases (whiteout_tag n)) [
    | inl e ↦ ground (arith, e)
    | inr (tag, e) ↦ elim (Bool-cases (T.search t (take tag n))) [
      | inl s ↦ ground (arith, e, s, search-again t (take tag n) k s)
      | inr s ↦ ground (arith, e, s, L.search-insert t (take tag n) k)
    ]
  ]

  -- The table of the names that whiteouts hide gains exactly the names that the entries of the
  -- directory mark.
  pub add_whiteouts-marked :
      (whiteouts : T.Table) (names : List FilePath) (k : FilePath)
      → T.search (add_whiteouts T whiteouts names) k ≡ (T.search whiteouts k || marked k names)
  unfolding add_whiteouts
  add_whiteouts-marked whiteouts [] k = ground arith
  add_whiteouts-marked whiteouts (n ∷ names) k = ground (
    arith,
    add_whiteouts-marked (is_hiding T whiteouts n) names k,
    is_hiding-marked whiteouts n k,
  )

  -- The table has exactly the names in the buffer, and those are distinct.
  abbrev pub IsListing : Listing T → Type 0
  IsListing l = ((k : FilePath) → T.search l.files k ≡ occurs k l.filled) × AllDistinct l.filled

  module _ (uopt : Uopt) (b : BranchEntry) (p : FilePath) (whiteouts : T.Table) where
    -- Is the name kept out of the listing, by a whiteout or as a file of the union itself?
    abbrev pub concealed : FilePath → Bool
    concealed k = (uopt.cow_enabled && T.search whiteouts k) || hide_meta_files uopt b p k

    add_entry-IsListing :
        (l : Listing T) (name : FilePath)
        → IsListing l
        → T.search l.files name ≡ false
        → IsListing (record { files = T.insert l.files name; filled = l.filled ++ (name ∷ []) })
    add_entry-IsListing l name h f = (
      λ k. ground (arith, h.0 k, L.search-insert l.files name k, occurs-append k name l.filled),
      AllDistinct-append name l.filled h.1 (ground (arith, h.0 name)),
    )

    occurs-skipped :
        (l : Listing T) (name : FilePath) (names : List FilePath) (k : FilePath) {found : Bool}
        → IsListing l
        → skips T (λ _ _. false) uopt b p l.files whiteouts name ≡ true
        → found ≡ (occurs k l.filled || (occurs k names && not (concealed k)))
        → found ≡ (occurs k l.filled || (occurs k (name ∷ names) && not (concealed k)))
    unfolding skips
    occurs-skipped l name names k h e f = elim (Bool-cases (same name k)) [
      | inl g ↦ let m = same→≡ name k g in let e' = rw m at e in f ∙ ground (arith, g, e', h.0 k)
      | inr g ↦ f ∙ ground (arith, g)
    ]

    occurs-added :
        (l : Listing T) (name : FilePath) (names : List FilePath) (k : FilePath) {found : Bool}
        → IsListing l
        → skips T (λ _ _. false) uopt b p l.files whiteouts name ≡ false
        → found ≡ (occurs k (l.filled ++ (name ∷ [])) || (occurs k names && not (concealed k)))
        → found ≡ (occurs k l.filled || (occurs k (name ∷ names) && not (concealed k)))
    unfolding skips
    occurs-added l name names k h e f = elim (Bool-cases (same name k)) [
      | inl g ↦
          let m = same→≡ name k g in
          let e' = rw m at e in f ∙ ground (arith, g, e', occurs-append k name l.filled)
      | inr g ↦ f ∙ ground (arith, g, occurs-append k name l.filled)
    ]

    -- Where the buffer takes every name, reading one more directory keeps the listing without
    -- duplicates, and adds exactly its names that neither a whiteout of a branch above nor the
    -- option for meta files conceals.
    pub add_entries-occurs :
        (names : List FilePath) (l : Listing T)
        → IsListing l
        → let l' = add_entries T (λ _ _. false) uopt b p whiteouts l names in
          IsListing l'
          × ((k : FilePath)
              → occurs k l'.filled ≡ (occurs k l.filled || (occurs k names && not (concealed k))))
    unfolding add_entries skips
    add_entries-occurs [] l h = (h, λ k. ground arith)
    add_entries-occurs (name ∷ names) l h =
        elim (Bool-cases (skips T (λ _ _. false) uopt b p l.files whiteouts name)) [
          | inl e ↦
              let skip = add_entries-occurs names l h in
              rw e (skip.0, λ k. occurs-skipped l name names k h e (skip.1 k))
          | inr e ↦
              let l1 : Listing T = record {
                files = T.insert l.files name;
                filled = l.filled ++ (name ∷ []);
              } in
              let add =
                add_entries-occurs names l1 (add_entry-IsListing l name h (ground (arith, e))) in
              rw e (add.0, λ k. occurs-added l name names k h e (add.1 k))
        ]

-- ===== src/Union/Readdir.antt =====
-- src/readdir.c: the merged listing of a directory, and whether it is empty.
pub mod Merge
pub mod Guarded
pub mod Listed
use unionfs_fuse.Prelude.{
  ℕ, zero, suc, ◌+◌, ◌≡◌, Bool, true, false, not, ◌&&◌, ◌||◌, Option, none, some, List, [], ◌∷◌,
  ◌++◌, length, take, codes, ◌==◌, if◌then◌else◌,
}
use unionfs_fuse.Prelude.Int.{ℤ, pos, neg}
use unionfs_fuse.Os.{FilePath, Os, World, opendir}
use unionfs_fuse.Os.Monad.{M, pure, ◌>>=◌, ◌>>◌}
use unionfs_fuse.Text.{enametoolong, begins, whiteout_tag, build_path_max}
use unionfs_fuse.Union.{BranchEntry, Uopt, metadir, metaname}
use unionfs_fuse.Union.Hidden.{Hiding, visible, hidden, failure, path_hidden_in}

-- `strcmp` as a test of equality.
abbrev pub same : FilePath → FilePath → Bool
same [] [] = true
same [] (d ∷ t) = false
same (c ∷ s) [] = false
same (c ∷ s) (d ∷ t) = c == d && same s t

-- The hash table of the vendored library, used as a set of names: `create_hashtable`,
-- `hashtable_search` against NULL, and `hashtable_insert`.
pub record NameSet : Type 1 where
  pub Table : Type 0
  pub create : Table
  pub search : Table → FilePath → Bool
  pub insert : Table → FilePath → Table

-- What the library documents: a key is found exactly if it was inserted.
pub record IsNameSet (T : NameSet) : Type 0 where
  pub search-create : (k : FilePath) → T.search T.create k ≡ false
  pub search-insert :
      (t : T.Table) (k j : FilePath) → T.search (T.insert t k) j ≡ (same k j || T.search t j)

abbrev fuse_meta_file : FilePath
fuse_meta_file = codes ".fuse_hidden"

-- `path` is the directory that is listed, as a path of the system.
pub hide_meta_files : Uopt → BranchEntry → FilePath → FilePath → Bool
hide_meta_files uopt b path name =
    uopt.hide_meta_files && ((same b.path path && same metaname name) || begins fuse_meta_file name)

module _ (T : NameSet) where
  pub is_hiding : T.Table → FilePath → T.Table
  is_hiding hides fname = elim (whiteout_tag fname) [
    | none ↦ hides
    | some tag ↦
        let key = take tag fname in if T.search hides key then hides else T.insert hides key
  ]

  -- The loop of `read_whiteouts`.
  pub add_whiteouts : T.Table → List FilePath → T.Table
  add_whiteouts whiteouts [] = whiteouts
  add_whiteouts whiteouts (name ∷ rest) = add_whiteouts (is_hiding whiteouts name) rest

  -- The table of the names that were added, and the names in the buffer, in order.
  pub record Listing : Type 0 where
    pub files : T.Table
    pub filled : List FilePath

-- `filler` is the function of the FUSE library: does it refuse the name, the buffer being full?
module _ (T : NameSet) (filler : List FilePath → FilePath → Bool) (uopt : Uopt) where
  -- Is the entry passed over?
  pub skips : BranchEntry → FilePath → T.Table → T.Table → FilePath → Bool
  skips b p files whiteouts name =
      T.search files name
      || ((uopt.cow_enabled && T.search whiteouts name) || hide_meta_files uopt b p name)

  -- The loop over the entries of one directory; a full buffer ends it.
  pub add_entries : BranchEntry → FilePath → T.Table → Listing T → List FilePath → Listing T
  add_entries b p whiteouts l [] = l
  add_entries b p whiteouts l (name ∷ rest) =
      let added = T.insert l.files name in
      let after_skip = add_entries b p whiteouts l rest in
      let after_add =
        add_entries b p whiteouts (record { files = added; filled = l.filled ++ (name ∷ []) })
          rest in
      if skips b p l.files whiteouts name
      then after_skip
      else if filler l.filled name
      then record { files = added; filled = l.filled }
      else after_add

module _ (S : Os) (T : NameSet) (filler : List FilePath → FilePath → Bool) (uopt : Uopt) where
  read_whiteouts : BranchEntry → FilePath → T.Table → M (World S) T.Table
  read_whiteouts b path whiteouts = elim (build_path_max (b.path ∷ metadir ∷ path ∷ [])) [
    | none ↦ pure whiteouts
    | some p ↦ do
      dp ← opendir S p
      pure (elim dp [ none ↦ whiteouts | some names ↦ add_whiteouts T whiteouts names ])
  ]

  -- `if (uopt.cow_enabled) read_whiteouts(path, whiteouts, i);`
  more_whiteouts : BranchEntry → FilePath → T.Table → M (World S) T.Table
  more_whiteouts b path whiteouts =
      if uopt.cow_enabled then read_whiteouts b path whiteouts else pure whiteouts

  add_directory : BranchEntry → FilePath → T.Table → Listing T → M (World S) (Listing T)
  add_directory b p whiteouts l = do
    dp ← opendir S p
    pure (elim dp [ none ↦ l | some names ↦ add_entries T filler uopt b p whiteouts l names ])

  -- The loop over the branches; a branch in which the path is hidden is the last.
  readdir_from : FilePath → List BranchEntry → T.Table → Listing T → M (World S) (ℤ × List FilePath)
  readdir_from path [] whiteouts l = pure (pos 0, l.filled)
  readdir_from path (b ∷ rest) whiteouts l = elim (build_path_max (b.path ∷ path ∷ [])) [
    | none ↦ pure (neg (pos enametoolong), l.filled)
    | some p ↦ do
      res ← path_hidden_in S uopt b path
      elim res [
        | failure e ↦ pure (neg (pos e), l.filled)
        | hidden ↦ do
          l' ← add_directory b p whiteouts l
          _ ← more_whiteouts b path whiteouts
          pure (pos 0, l'.filled)
        | visible ↦ do
          l' ← add_directory b p whiteouts l
          whiteouts' ← more_whiteouts b path whiteouts
          readdir_from path rest whiteouts' l'
      ]
  ]

  -- The return value and the names that are passed to the buffer.
  pub unionfs_readdir : FilePath → M (World S) (ℤ × List FilePath)
  unionfs_readdir path =
      readdir_from path uopt.branches T.create (record { files = T.create; filled = [] })

  -- Does the loop over one directory find a valid entry?
  pub has_entry : BranchEntry → FilePath → T.Table → List FilePath → Bool
  has_entry b p whiteouts [] = false
  has_entry b p whiteouts (name ∷ rest) =
      (not (same name (codes ".") || same name (codes ".."))
        && (not (uopt.cow_enabled && T.search whiteouts name)
            && not (hide_meta_files uopt b p name)))
      || has_entry b p whiteouts rest

  directory_has_entry : BranchEntry → FilePath → T.Table → M (World S) Bool
  directory_has_entry b p whiteouts = do
    dp ← opendir S p
    pure (elim dp [ none ↦ false | some names ↦ has_entry b p whiteouts names ])

  not_empty_from : FilePath → List BranchEntry → T.Table → M (World S) ℤ
  not_empty_from path [] whiteouts = pure (pos 0)
  not_empty_from path (b ∷ rest) whiteouts = elim (build_path_max (b.path ∷ path ∷ [])) [
    | none ↦ pure (neg (pos enametoolong))
    | some p ↦ do
      res ← path_hidden_in S uopt b path
      elim res [
        | failure e ↦ pure (neg (pos e))
        | hidden ↦ do
          found ← directory_has_entry b p whiteouts
          elim found [
            | true ↦ pure (pos 1)
            | false ↦ do _ ← more_whiteouts b path whiteouts; pure (pos 0)
          ]
        | visible ↦ do
          found ← directory_has_entry b p whiteouts
          elim found [
            | true ↦ pure (pos 1)
            | false ↦ do
              whiteouts' ← more_whiteouts b path whiteouts
              not_empty_from path rest whiteouts'
          ]
      ]
  ]

  -- 0 if the directory is empty in the union, 1 if not, negative on an error.
  pub dir_not_empty : FilePath → M (World S) ℤ
  dir_not_empty path = not_empty_from path uopt.branches T.create

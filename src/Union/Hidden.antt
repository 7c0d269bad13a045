-- ===== src/Union/Hidden.antt =====
-- src/general.c: whiteouts that hide a path, and their removal.
pub mod Observe
pub mod Stops
pub mod Guarded
use unionfs_fuse.Prelude.{
  ℕ, zero, suc, ◌+◌, ◌-◌, Bool, true, false, not, ◌&&◌, Option, none, some, List, [], ◌∷◌, ◌++◌,
  length, take, drop, ltb, ◌==◌, if◌then◌else◌,
}
use Prim.Native.Nat.{bit_and}
use unionfs_fuse.Os.{FilePath, Os, Call, World, lstat, act}
use unionfs_fuse.Os.Monad.{M, pure, fault, ◌>>=◌}
use unionfs_fuse.Text.{slash, hidetag, pathlen_max, enametoolong, skip_slashes, build_path_max}
use unionfs_fuse.Union.{BranchEntry, Uopt, metadir, too_long, branch_at}

-- What `path_hidden` returns: 0, 1, or the negative of an error number.
pub data Hiding : Type 0 where
  visible : Hiding
  hidden : Hiding
  failure : ℕ → Hiding

-- The paths at which the loops of `path_hidden` and `path_create` stop: what stands before each
-- slash that ends a name, and the whole if it does not end in a slash. `before` is what was
-- walked over; the flag tells whether the walk is between two names.
unfoldable pub walk_from : Bool → FilePath → FilePath → List FilePath
walk_from in_gap before [] = if in_gap then [] else before ∷ []
walk_from in_gap before (c ∷ s) =
    let rest = walk_from (c == slash) (before ++ (c ∷ [])) s in
    if not in_gap && c == slash then before ∷ rest else rest

-- The slashes that `skip_slashes` drops.
unfoldable pub leading_slashes : FilePath → FilePath
leading_slashes [] = []
leading_slashes (c ∷ s) = let rest = leading_slashes s in if c == slash then c ∷ rest else []

-- All stops from the pointer on: first slashes are skipped.
unfoldable pub stops : FilePath → FilePath → List FilePath
unfolding walk_from leading_slashes skip_slashes
stops before s = walk_from false (before ++ leading_slashes s) (skip_slashes s)

-- `filetype_t`
pub data Filetype : Type 0 where
  not_existing is_dir is_file : Filetype

-- `S_ISDIR`
pub s_isdir : ℕ → Bool
s_isdir st_mode = bit_and st_mode 0o170000 == 0o040000

module _ (S : Os) (uopt : Uopt) where
  unfoldable pub filedir_hidden : FilePath → M (World S) Hiding
  filedir_hidden path =
      if not uopt.cow_enabled
      then pure Hiding.visible
      else if ltb pathlen_max (length path + length hidetag)
      then pure (failure enametoolong)
      else (do
        res ← lstat S (take (pathlen_max - 1) (path ++ hidetag))
        elim res [ none ↦ pure Hiding.visible | some _ ↦ pure Hiding.hidden ])

  -- The loop over the stops: the first that is hidden, or an error, ends it.
  unfoldable pub any_hidden : List FilePath → M (World S) Hiding
  any_hidden [] = pure Hiding.visible
  any_hidden (p ∷ rest) = do
    res ← filedir_hidden p
    elim res [
      | visible ↦ any_hidden rest
      | hidden ↦ pure Hiding.hidden
      | failure e ↦ pure (failure e)
    ]

  -- The pointer `walk` starts at the last byte of `METADIR`; a fault if that is behind the path.
  unfoldable pub hidden_below : BranchEntry → FilePath → M (World S) Hiding
  hidden_below b whiteoutpath =
      let start = b.path_len + length metadir - 1 in
      if ltb (length whiteoutpath) start
      then fault
      else any_hidden (stops (take start whiteoutpath) (drop start whiteoutpath))

  unfoldable pub path_hidden_in : BranchEntry → FilePath → M (World S) Hiding
  path_hidden_in b path =
      if not uopt.cow_enabled
      then pure Hiding.visible
      else elim (build_path_max (b.path ∷ metadir ∷ path ∷ [])) [
        | none ↦ too_long S Hiding.visible
        | some whiteoutpath ↦ hidden_below b whiteoutpath
      ]

  pub path_hidden : FilePath → ℕ → M (World S) Hiding
  path_hidden path branch = do b ← branch_at S uopt branch; path_hidden_in b path

  pub path_is_dir : FilePath → M (World S) Filetype
  path_is_dir path = do
    buf ← lstat S path
    elim buf [
      | none ↦ pure Filetype.not_existing
      | some st ↦ pure (if s_isdir st.st_mode then Filetype.is_dir else Filetype.is_file)
    ]

  -- One round of the loop of `remove_hidden`; `false` is the return for a path that is too long.
  remove_one : FilePath → BranchEntry → M (World S) Bool
  remove_one path b = elim (build_path_max (b.path ∷ metadir ∷ path ∷ [])) [
    | none ↦ too_long S false
    | some p ↦
        if ltb pathlen_max (length p + length hidetag)
        then pure false
        else if length p + length hidetag == pathlen_max
        then fault
        else (do
          kind ← path_is_dir (p ++ hidetag)
          elim kind [
            | not_existing ↦ pure true
            | is_file ↦ do _ ← act S (Call.unlink (p ++ hidetag)); pure true
            | is_dir ↦ do _ ← act S (Call.rmdir (p ++ hidetag)); pure true
          ])
  ]

  -- The rounds for `i`, `i + 1` and so on, `rounds` of them.
  remove_from : FilePath → ℕ → ℕ → M (World S) Bool
  remove_from path zero i = pure true
  remove_from path (suc rounds) i = do
    b ← branch_at S uopt i
    going ← remove_one path b
    elim going [ false ↦ pure false | true ↦ remove_from path rounds (i + 1) ]

  -- `none` for `maxbranch` is -1. The loop runs up to `maxbranch` itself, so with -1 it reads the
  -- entry behind the last branch. `true` is 0, `false` is -ENAMETOOLONG.
  pub remove_hidden : FilePath → Option ℕ → M (World S) Bool
  remove_hidden path maxbranch =
      if not uopt.cow_enabled
      then pure true
      else remove_from path ((elim maxbranch [ none ↦ length uopt.branches | some m ↦ m ]) + 1) 0

-- ===== src/Union/Datamap.antt =====
-- src/cowolf.c: the life of the map file and the link that belong to a sparse copy.
pub mod Guarded
use unionfs_fuse.Prelude.{
  ℕ, zero, suc, ◌+◌, ◌-◌, Bool, true, false, not, ◌&&◌, Option, none, some, [], ◌∷◌, ◌++◌, length,
  take, codes, leb, ◌==◌, if◌then◌else◌,
}
use unionfs_fuse.Prelude.Int.{pos, is_code}
use unionfs_fuse.Os.{FilePath, Os, Call, World, act, stat, readlink, get_errno, set_errno}
use unionfs_fuse.Os.Monad.{M, pure, ◌>>=◌}
use unionfs_fuse.Text.{pathlen_max, enametoolong, build_path_max}
use unionfs_fuse.Drm.Mem.{Bsearch}
use unionfs_fuse.Drm.File.{
  drmf_create, drmf_destroy, drmf_rename, drmf_open, drmf_close, drmf_trunc,
}
use unionfs_fuse.Cowolf.Data.{CwfInfo, eio}
use unionfs_fuse.Union.{Uopt, metadir, enoent, too_long, branch_at}
use unionfs_fuse.Union.Create.{is_zero}
use unionfs_fuse.Union.Whiteout.{create_metapath}

abbrev cowolf_drmaptag : FilePath
cowolf_drmaptag = codes "_DRMAP~"

abbrev cowolf_linktag : FilePath
cowolf_linktag = codes "_LBLINK~"

pub check_cowolfability : Uopt → ℕ → Bool
check_cowolfability uopt file_size =
    uopt.cow_enabled
    && (uopt.cowolf_enabled && (length uopt.branches == 2 && leb uopt.cowolf_fsize_th file_size))

-- The path of a tagged file in the metadata directory of a branch.
tagged_path : FilePath → FilePath → FilePath → Option FilePath
tagged_path bpath path tag =
    elim (build_path_max (metadir ∷ take (pathlen_max - 1) (path ++ tag) ∷ [])) [
      | none ↦ none
      | some metapath ↦ build_path_max (bpath ∷ metapath ∷ [])
    ]

module _ (S : Os) (uopt : Uopt) where
  -- With a null pointer for `linkpath`.
  build_mappath : FilePath → ℕ → M (World S) (Option FilePath)
  build_mappath path branch = do
    b ← branch_at S uopt branch
    elim (tagged_path b.path path cowolf_drmaptag) [
      | none ↦ too_long S none
      | some mappath ↦ pure (some mappath)
    ]

  build_cowolf_paths : FilePath → ℕ → M (World S) (Option (FilePath × FilePath))
  build_cowolf_paths path branch = do
    b ← branch_at S uopt branch
    elim (tagged_path b.path path cowolf_drmaptag) [
      | none ↦ too_long S none
      | some mappath ↦ elim (tagged_path b.path path cowolf_linktag) [
        | none ↦ too_long S none
        | some linkpath ↦ pure (some (mappath, linkpath))
      ]
    ]

  pub has_datamap : FilePath → ℕ → M (World S) Bool
  has_datamap path branch = do
    built ← build_mappath path branch
    elim built [
      | none ↦ pure false
      | some mappath ↦ do
        buf ← stat S mappath
        errno ← get_errno S
        elim buf [ some _ ↦ pure true | none ↦ pure (not (is_code errno enoent)) ]
    ]

  -- The map file, and the link to the path in the lower branch.
  create_files : FilePath → ℕ → FilePath × FilePath → M (World S) Bool
  create_files path file_size (mappath, linkpath) = do
    created ← drmf_create S mappath file_size
    if not created then pure false else (do
      _ ← act S (Call.unlink linkpath)
      linked ← act S (Call.symlink path linkpath)
      pure (is_zero linked))

  pub cowolf_create_datamap : FilePath → ℕ → ℕ → M (World S) Bool
  cowolf_create_datamap path branch file_size =
      if not (check_cowolfability uopt file_size) then pure false else (do
        meta ← create_metapath S uopt path branch
        if not meta then pure false else (do
          paths ← build_cowolf_paths path branch
          elim paths [ none ↦ pure false | some ps ↦ create_files path file_size ps ]))

  -- The return value is that of the second `unlink`.
  pub cowolf_destroy_datamap : FilePath → ℕ → M (World S) Bool
  cowolf_destroy_datamap path branch = do
    has ← has_datamap path branch
    if not has then pure true else (do
      paths ← build_cowolf_paths path branch
      elim paths [
        | none ↦ pure false
        | some (mappath, linkpath) ↦ do
          _ ← drmf_destroy S mappath
          res ← act S (Call.unlink linkpath)
          pure (is_zero res)
      ])

  pub cowolf_truncate_datamap : Bsearch → FilePath → ℕ → ℕ → M (World S) Bool
  cowolf_truncate_datamap bsearch path branch new_size = do
    has ← has_datamap path branch
    if not has then pure true else (do
      built ← build_mappath path branch
      elim built [
        | none ↦ pure false
        | some mappath ↦ do
          opened ← drmf_open S mappath
          elim opened [
            | none ↦ pure false
            | some map_fd ↦ do
              res ← drmf_trunc S bsearch map_fd new_size
              _ ← drmf_close S map_fd
              pure res
          ]
      ])

  rename_files : FilePath × FilePath → FilePath × FilePath → M (World S) Bool
  rename_files (old_mappath, old_linkpath) (new_mappath, new_linkpath) = do
    renamed ← drmf_rename S old_mappath new_mappath
    if not renamed
        then pure false
        else (do res ← act S (Call.rename old_linkpath new_linkpath); pure (is_zero res))

  rename_built : FilePath → ℕ → FilePath × FilePath → FilePath × FilePath → M (World S) Bool
  rename_built newpath branch old new = do
    meta ← create_metapath S uopt newpath branch
    if not meta then pure false else rename_files old new

  pub cowolf_rename_datamap : FilePath → FilePath → ℕ → M (World S) Bool
  cowolf_rename_datamap oldpath newpath branch = do
    has ← has_datamap oldpath branch
    if not has then pure true else (do
      old ← build_cowolf_paths oldpath branch
      elim old [
        | none ↦ pure false
        | some os ↦ do
          new ← build_cowolf_paths newpath branch
          elim new [ none ↦ pure false | some ns ↦ rename_built newpath branch os ns ]
      ])

  close_fail : {A : Type 0} → ℕ → M (World S) (Option A)
  close_fail map_fd = do _ ← drmf_close S map_fd; pure none

  -- The file in the branch below, through the link; the map is open already.
  open_lower : FilePath → ℕ → ℕ → ℕ → M (World S) (Option (Option CwfInfo))
  open_lower linkpath branch flags map_fd = do
    target ← readlink S linkpath (pathlen_max - 1)
    elim target [
      | none ↦ close_fail map_fd
      | some link_tgt ↦ do
        below ← branch_at S uopt (branch + 1)
        elim (build_path_max (below.path ∷ link_tgt ∷ [])) [
          | none ↦ do _ ← set_errno S (pos enametoolong); close_fail map_fd
          | some backpath ↦ do
            lfd ← act S (Call.open_file backpath flags 0)
            elim lfd [
              | none ↦ close_fail map_fd
              | some fd ↦ pure (some (some (record { lower_fd = fd; drmap_fd = map_fd })))
            ]
        ]
    ]

  open_top : FilePath → ℕ → ℕ → M (World S) (Option (Option CwfInfo))
  open_top path branch flags = do
    paths ← build_cowolf_paths path branch
    elim paths [
      | none ↦ do _ ← set_errno S (pos enametoolong); pure none
      | some (mappath, linkpath) ↦ do
        opened ← drmf_open S mappath
        errno ← get_errno S
        elim opened [
          | none ↦ pure (if is_code errno enoent then some none else none)
          | some map_fd ↦ open_lower linkpath branch flags map_fd
        ]
    ]

  -- `none` is -1; otherwise 0, and `some none` stands for `cwf_on` 0 and both descriptors -1.
  pub cowolf_open : FilePath → ℕ → ℕ → M (World S) (Option (Option CwfInfo))
  cowolf_open path zero flags = open_top path 0 flags
  cowolf_open path (suc branch) flags = do
    has ← has_datamap path (suc branch)
    if has then (do _ ← set_errno S (pos eio); pure none) else pure (some none)

pub cowolf_close : (S : Os) → Option CwfInfo → M (World S) (Unit {0})
cowolf_close S none = pure tt
cowolf_close S (some cw) = do _ ← act S (Call.close cw.lower_fd); drmf_close S cw.drmap_fd

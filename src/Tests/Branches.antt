-- ===== src/Tests/Branches.antt =====
-- Runs of the theorems about branches, listings, handlers and options.
use unionfs_fuse.Prelude.{
  ℕ, Bool, ◌≡◌, refl, true, false, not, ◌&&◌, ◌⊎◌, Option, some, List, [], ◌∷◌, map, codes, arith,
}
use unionfs_fuse.Os.{World}
use unionfs_fuse.Prelude.Int.{pos}
use unionfs_fuse.Os.{FilePath}
use unionfs_fuse.Union.{BranchEntry, Uopt}
use unionfs_fuse.Union.Hidden.Observe.{Observes}
use unionfs_fuse.Union.Find.{rwro, find_branch, find_lowest_rw_branch}
use unionfs_fuse.Union.Find.Served.{IsServed, find_branch-IsServed}
use unionfs_fuse.Union.Find.Lowest.{IsLowest, find_lowest_rw_branch-IsLowest}
use unionfs_fuse.Prelude.Int.{ℤ}
use unionfs_fuse.Union.Readdir.{
  NameSet, IsNameSet, Listing, add_whiteouts, add_entries, unionfs_readdir,
}
use unionfs_fuse.Union.Readdir.Listed.{listed, unionfs_readdir-listed}
use unionfs_fuse.Union.Readdir.Merge.{
  AllDistinct, occurs, marked, concealed, IsListing, add_whiteouts-marked, add_entries-occurs,
}
use unionfs_fuse.Os.{FilePath}
use unionfs_fuse.Os.Safe.{Safe, After, Any}
use unionfs_fuse.Union.Writable.{find_rw_branch_cow_common}
use unionfs_fuse.Union.Writable.Guarded.{IsWritable, find_rw_branch_cow_common-Safe}
use unionfs_fuse.Union.Remove.{unionfs_unlink, unionfs_rmdir}
use unionfs_fuse.Union.Remove.Guarded.{removal-Safe}
use unionfs_fuse.Ops.Attributes.{
  unionfs_getattr, unionfs_access, unionfs_readlink, unionfs_getxattr, unionfs_listxattr,
  unionfs_chmod, unionfs_chown, unionfs_utimens, unionfs_truncate, unionfs_setxattr,
  unionfs_removexattr,
}
use unionfs_fuse.Ops.Attributes.Guarded.{reading-keeps, attributes-Safe}
use unionfs_fuse.Ops.Attributes.Denied.{IsDenied, attributes-IsDenied}
use unionfs_fuse.Opts.{parse_branches}
use unionfs_fuse.Opts.Parse.{branches_text, entry_of, parse_branches-branches_text}
use unionfs_fuse.Opts.Post.{unionfs_post_opts-ready}
use unionfs_fuse.Union.Guarded.{Slashed}
use unionfs_fuse.Union.Find.Served.{AllMeasured}
use unionfs_fuse.Tests.Options.{settings_of, parsed_branch, ready_branch, opens_all, one_ready}
use unionfs_fuse.Union.Copy.{copy_loop}
use unionfs_fuse.Union.Copy.Fuel.{Returns, copy_loop-Returns}
use unionfs_fuse.Union.Hidden.{stops}
use unionfs_fuse.Union.Hidden.Stops.{stops-prefixes}
use unionfs_fuse.Ops.Names.{
  unionfs_mkdir, unionfs_mknod, unionfs_symlink, unionfs_link, unionfs_rename,
}
use unionfs_fuse.Ops.Files.{unionfs_create}
use unionfs_fuse.Ops.Names.Guarded.{names-Safe}
use unionfs_fuse.Union.Writable.Result.{NotMade, find_rw_branch_cutlast_hint-Found}
use unionfs_fuse.Tests.Recorder.{
  steady, steady-Guards, steady_start, g-Writes, g-hinted-Writes, g-hinted, zero-IsWritable,
  not_found, drip, drip-Drains, two_bytes, no_calls, lone_branch, only_ro, f-found, recorder, two,
  two-Slashed, AllAllowed, recorder-Guards,
}
use unionfs_fuse.Tests.Disk.{scan, start, one_path}

-- A set of names as the list of its elements.
abbrev name_list : NameSet
name_list = record {
  Table = List FilePath;
  create = [];
  search = λ t k. occurs k t;
  insert = λ t k. k ∷ t;
}

name_list-IsNameSet : IsNameSet name_list
name_list-IsNameSet = record { search-create = λ k. refl; search-insert = λ t k j. refl }

abbrev ro_branch : BranchEntry
ro_branch = record { path = codes "/ro/"; path_len = 4; rw = false }

abbrev rw_branch : BranchEntry
rw_branch = record { path = codes "/rw/"; path_len = 4; rw = true }

abbrev three : Uopt
three = record {
  branches = ro_branch ∷ rw_branch ∷ ro_branch ∷ [];
  cow_enabled = true;
  hide_meta_files = true;
  cowolf_enabled = false;
  cowolf_fsize_th = 100;
}

abbrev upper_rw : Uopt
upper_rw = record three { branches = rw_branch ∷ ro_branch ∷ [] }

abbrev path_f : World one_path
path_f = record { os = start.os; errno = pos 0 }

find_branch-IsServed_example :
    (r : Option ℕ) × Observes one_path (find_branch one_path upper_rw (codes "/f") rwro) path_f r
    × IsServed one_path upper_rw rwro (codes "/f") start.os upper_rw.branches r
find_branch-IsServed_example =
    find_branch-IsServed one_path upper_rw rwro (codes "/f") path_f (refl, (refl, tt))

find_lowest_rw_branch_example : IsLowest three.branches 2 (find_lowest_rw_branch three 2)
find_lowest_rw_branch_example = find_lowest_rw_branch-IsLowest three 2

add_whiteouts-marked_example :
    name_list.search (add_whiteouts name_list [] (codes "a_HIDDEN~" ∷ codes "b" ∷ [])) (codes "a")
    ≡ marked (codes "a") (codes "a_HIDDEN~" ∷ codes "b" ∷ [])
add_whiteouts-marked_example =
    add_whiteouts-marked name_list name_list-IsNameSet [] (codes "a_HIDDEN~" ∷ codes "b" ∷ [])
      (codes "a")

abbrev no_files : Listing name_list
no_files = record { files = []; filled = [] }

abbrev two_names : List FilePath
two_names = codes "a" ∷ codes "b" ∷ codes "b" ∷ []

add_entries-occurs_example :
    let l' =
      add_entries name_list
        (λ _ _. false)
        three
        rw_branch
        (codes "/rw/d")
        (codes "a" ∷ [])
        no_files
        two_names in
    IsListing name_list name_list-IsNameSet l'
    × ((k : FilePath)
        → occurs k l'.filled ≡ (
            occurs k two_names
            && not (
                concealed name_list name_list-IsNameSet three rw_branch
                  (codes "/rw/d")
                  (codes "a" ∷ [])
                  k)))
add_entries-occurs_example =
    add_entries-occurs name_list name_list-IsNameSet three rw_branch (codes "/rw/d")
      (codes "a" ∷ []) two_names no_files (λ k. refl, tt)

unionfs_readdir-listed_example :
    (r : ℤ × List FilePath) × Observes one_path
      (unionfs_readdir one_path name_list (λ _ _. false) upper_rw (codes "/d"))
      path_f
      r
    × AllDistinct r.1
    × ((k : FilePath)
        → occurs k r.1
          ≡ listed one_path upper_rw (codes "/d") start.os upper_rw.branches (λ _. false) k)
unionfs_readdir-listed_example =
    unionfs_readdir-listed one_path name_list name_list-IsNameSet upper_rw (codes "/d") path_f
      (refl, (refl, tt))

find_rw_branch_cow_common-Safe_example :
    Safe recorder AllAllowed
      (find_rw_branch_cow_common recorder two 5 (codes "/f") false)
      (IsWritable two)
find_rw_branch_cow_common-Safe_example =
    find_rw_branch_cow_common-Safe two recorder-Guards two-Slashed 5 (codes "/f") false

attributes-Safe_example :
    Safe recorder AllAllowed (unionfs_chmod recorder two 5 (codes "/f") 0o600) Any
    × Safe recorder AllAllowed (unionfs_chown recorder two 5 (codes "/f") 7 8) Any
    × Safe recorder AllAllowed (unionfs_utimens recorder two 5 (codes "/f") (1 ∷ [])) Any
    × Safe recorder AllAllowed (unionfs_truncate recorder two 5 scan (codes "/f") 3) Any
    × Safe recorder AllAllowed
        (unionfs_setxattr recorder two 5 (codes "/f") (codes "user.a") (1 ∷ []) 0)
        Any
    × Safe recorder AllAllowed
        (unionfs_removexattr recorder two 5 (codes "/f") (codes "user.a"))
        Any
attributes-Safe_example =
    attributes-Safe two recorder-Guards two-Slashed 5 scan (codes "/f") (codes "user.a") 0o600 7 8 3
      0 (1 ∷ [])

removal-Safe_example :
    Safe recorder AllAllowed (unionfs_unlink recorder two (codes "/f")) Any
    × Safe recorder AllAllowed (unionfs_rmdir recorder two name_list (codes "/f")) Any
removal-Safe_example = removal-Safe two recorder-Guards two-Slashed name_list (codes "/f")

reading-keeps_example :
    Safe recorder (λ calls. calls ≡ []) (unionfs_getattr recorder two (codes "/f")) Any
    × Safe recorder (λ calls. calls ≡ []) (unionfs_access recorder two (codes "/f") 4) Any
    × Safe recorder (λ calls. calls ≡ []) (unionfs_readlink recorder two (codes "/f") 100) Any
    × Safe recorder
        (λ calls. calls ≡ [])
        (unionfs_getxattr recorder two (codes "/f") (codes "user.a") 100)
        Any
    × Safe recorder (λ calls. calls ≡ []) (unionfs_listxattr recorder two (codes "/f") 100) Any
    × Safe recorder
        (λ calls. calls ≡ [])
        (unionfs_readdir recorder name_list (λ l n. false) two (codes "/f"))
        Any
reading-keeps_example =
    reading-keeps recorder (λ calls. calls ≡ []) two name_list (λ l n. false) (codes "/f")
      (codes "user.a") 4 100

attributes-IsDenied_example :
    IsDenied no_calls (unionfs_chmod recorder only_ro 5 (codes "/f") 0o600 no_calls)
    × IsDenied no_calls (unionfs_chown recorder only_ro 5 (codes "/f") 7 8 no_calls)
    × IsDenied no_calls (unionfs_utimens recorder only_ro 5 (codes "/f") (1 ∷ []) no_calls)
    × IsDenied no_calls (unionfs_truncate recorder only_ro 5 scan (codes "/f") 3 no_calls)
    × IsDenied no_calls
        (unionfs_setxattr recorder only_ro 5 (codes "/f") (codes "user.a") (1 ∷ []) 0 no_calls)
    × IsDenied no_calls
        (unionfs_removexattr recorder only_ro 5 (codes "/f") (codes "user.a") no_calls)
attributes-IsDenied_example =
    attributes-IsDenied only_ro 5 (codes "/f") no_calls no_calls 0 lone_branch refl f-found refl
      refl scan (codes "user.a") 0o600 7 8 3 0 (1 ∷ [])

unionfs_post_opts-ready_example :
    Slashed (settings_of ready_branch).uopt × AllMeasured (ready_branch ∷ [])
unionfs_post_opts-ready_example =
    unionfs_post_opts-ready (some (codes "/c")) opens_all (λ p. true) (settings_of parsed_branch)
      (settings_of ready_branch) refl refl one_ready

abbrev two_branches : List (FilePath × Bool)
two_branches = (codes "/a", true) ∷ (codes "b", false) ∷ []

parse_branches-branches_text_example :
    parse_branches (branches_text two_branches) [] ≡ (map entry_of two_branches, 2)
parse_branches-branches_text_example =
    parse_branches-branches_text two_branches
      (((refl, (refl, tt)), (refl, (refl, tt)), refl), (((refl, tt), (refl, tt), refl), tt))

copy_loop-Returns_example : Returns (copy_loop drip 3 4 5 two_bytes)
copy_loop-Returns_example = copy_loop-Returns 4 5 (λ k. k) drip-Drains 3 two_bytes (omega arith)

names-Safe_example :
    After steady AllAllowed Any (unionfs_create steady two 5 (codes "/d/g") 0o644 66 steady_start)
    × After steady AllAllowed Any (unionfs_mkdir steady two 5 (codes "/d/g") 0o644 steady_start)
    × After steady AllAllowed Any (unionfs_mknod steady two 5 (codes "/d/g") 0o644 0 steady_start)
    × After steady AllAllowed Any
        (unionfs_symlink steady two 5 (codes "/e") (codes "/d/g") steady_start)
    × After steady AllAllowed Any
        (unionfs_link steady two 5 (codes "/e") (codes "/d/g") steady_start)
    × Safe steady AllAllowed (unionfs_rename steady two 5 (codes "/e") (codes "/d/g")) Any
names-Safe_example =
    names-Safe two steady-Guards two-Slashed 5 (codes "/d/g") (codes "/e") 0o644 0 66 steady_start
      tt g-Writes g-hinted-Writes

find_rw_branch_cutlast_hint-Found_example :
    IsWritable two (some 0) ⊎ NotMade two 5 (codes "/d/g") 0 not_found
find_rw_branch_cutlast_hint-Found_example =
    find_rw_branch_cutlast_hint-Found two two-Slashed 5 (codes "/d/g") (some 0) 0 steady_start
      not_found zero-IsWritable g-hinted

stops-prefixes_example :
    stops (codes "/b/.unionfs") (codes "/a/bc")
    ≡ codes "/b/.unionfs/a" ∷ codes "/b/.unionfs/a/bc" ∷ []
stops-prefixes_example = stops-prefixes (codes "/b/.unionfs") (codes "a") (codes "bc" ∷ []) refl

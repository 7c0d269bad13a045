-- ===== src/Tests.antt =====
-- Runs of the theorems on concrete maps and files; the children have the rest.
mod Disk
mod Recorder
mod Options
mod Log
mod Volumes
mod Branches
use unionfs_fuse.Prelude.{
  ◌+◌, ◌-◌, ◌≡◌, refl, true, ◌&&◌, ◌||◌, some, List, [], ◌∷◌, codes, ltb, leb, arith,
}
use unionfs_fuse.Os.{Call, World}
use unionfs_fuse.Drm.Mem.{
  DrmmRec, drmm_rec_insert, drmm_rec_truncate, drmm_rec_find_overlaps, search_sml_or_eql,
}
use unionfs_fuse.Drm.Mem.Ranges.{mapped, covers, IsMap}
use unionfs_fuse.Drm.Mem.Search.{pred_index, search_sml_or_eql_lem}
use unionfs_fuse.Drm.Mem.Insert.{drmm_rec_insert-IsMap, drmm_rec_insert-mapped}
use unionfs_fuse.Drm.Mem.Truncate.{drmm_rec_truncate-IsMap, drmm_rec_truncate-mapped}
use unionfs_fuse.Drm.Mem.Overlaps.{overlapping, Chosen, drmm_rec_find_overlaps-Chosen}
use unionfs_fuse.Drm.File.{
  DrmfEntry, drmf_add_entry, drmf_trunc, drmf_get_entries, lock_ex, lock_un,
}
use unionfs_fuse.Drm.Codec.{encode_recs}
use unionfs_fuse.Drm.File.Refine.{Leaves, in_range, drmf_add_entry-Leaves, drmf_trunc-Leaves}
use unionfs_fuse.Drm.File.Entries.{Tiles, drmf_get_entries-Tiles}
use unionfs_fuse.Cowolf.Data.{cowolf_read, cowolf_write}
use unionfs_fuse.Cowolf.Data.View.{view}
use unionfs_fuse.Cowolf.Data.Read.{cowolf_read-view}
use unionfs_fuse.Cowolf.Data.Write.{cowolf_write-read}
use unionfs_fuse.Text.{
  build_path, failed, Buffer, whiteout_tag, u_dirname, ends_slash, strstr, enametoolong,
}
use unionfs_fuse.Text.Build.{
  WrittenWithin, SingleIfDone, build_path-Within, build_path_overflow, build_path-single,
}
use unionfs_fuse.Text.Tag.{whiteout_tag-append, u_dirname_lem}
use unionfs_fuse.Ops.{reply}
use unionfs_fuse.Ops.Files.{Fhandle, unionfs_read, unionfs_write}
use unionfs_fuse.Ops.Files.Sparse.{unionfs_write-read}
use Disk.{
  upper-Pwrites, scan, scan-IsBsearch, disk, start, start-Holds, sparse, two_recs, two_recs-IsMap,
  map-IsRegular, lower-IsReadable, upper-IsReadable, upper-IsApart, lower-IsApart,
}

cowolf_read-view_example :
    (w' : World disk) × (cowolf_read disk scan 5 sparse 7 0 start
      ≡ some (some (10 ∷ 11 ∷ 22 ∷ 23 ∷ 14 ∷ 15 ∷ 26 ∷ []), w'))
unfolding view
cowolf_read-view_example =
    cowolf_read-view disk scan scan-IsBsearch 5 sparse (λ d. d.upper_file) (λ d. d.lower_file)
      (λ d. d.map_file) upper-IsReadable lower-IsReadable map-IsRegular (mapped two_recs) start
      start-Holds 7 0 (omega arith) (omega arith) (λ p u v. (λ e. ground arith, λ e. omega arith))

abbrev sparse_handle : Fhandle
sparse_handle = record { fd = 5; cw = some sparse }

cowolf_write-read_example :
    (w1 : World disk) × (w2 : World disk) × (cowolf_write disk scan sparse 1 4 start
      ≡ some (true, w1))
    × (cowolf_read disk scan 5 sparse 7 0 w1
        ≡ some (some (10 ∷ 11 ∷ 22 ∷ 23 ∷ 24 ∷ 15 ∷ 26 ∷ []), w2))
unfolding view
cowolf_write-read_example =
    cowolf_write-read disk scan scan-IsBsearch 5 sparse (λ d. d.upper_file) (λ d. d.lower_file)
      (λ d. d.map_file) upper-IsReadable lower-IsReadable map-IsRegular upper-IsApart lower-IsApart
      (mapped two_recs) start start-Holds 1 4 7 0 (omega arith) (omega arith) (omega arith)
      (omega arith) (λ p u v. (λ e. ground arith, λ e. omega arith))

unionfs_write-read_example :
    (w1 : World disk) × (w2 : World disk) × (unionfs_write disk scan sparse_handle (30 ∷ []) 4 start
      ≡ some (reply 1, w1))
    × (unionfs_read disk scan sparse_handle 7 0 w1
        ≡ some (reply (10 ∷ 11 ∷ 22 ∷ 23 ∷ 30 ∷ 15 ∷ 26 ∷ []), w2))
unfolding view
unionfs_write-read_example =
    unionfs_write-read disk scan scan-IsBsearch 5 sparse (λ d. d.upper_file) (λ d. d.lower_file)
      (λ d. d.map_file) upper-IsReadable lower-IsReadable map-IsRegular upper-IsApart lower-IsApart
      upper-Pwrites (mapped two_recs) start start-Holds (30 ∷ []) 4 7 0 (omega arith) (omega arith)
      (omega arith) (omega arith) (omega arith) (λ p u v. (λ e. ground arith, λ e. omega arith))

drmf_add_entry-Leaves_example :
    Leaves disk
      (λ d. d.map_file)
      (λ p. mapped two_recs p || in_range 4 1 p)
      (drmf_add_entry disk scan 3 4 1)
      start
drmf_add_entry-Leaves_example =
    drmf_add_entry-Leaves disk scan scan-IsBsearch 3 (λ d. d.map_file) map-IsRegular
      (mapped two_recs) start start-Holds 4 1 (omega arith) (omega arith)

drmf_trunc-Leaves_example :
    Leaves disk
      (λ d. d.map_file)
      (λ p. mapped two_recs p || leb 3 p)
      (drmf_trunc disk scan 3 3)
      start
drmf_trunc-Leaves_example =
    drmf_trunc-Leaves disk scan scan-IsBsearch 3 (λ d. d.map_file) map-IsRegular (mapped two_recs)
      start start-Holds 3 (omega arith) (λ l e. ground arith)

drmf_get_entries-Tiles_example :
    (w' : World disk) × (es : List DrmfEntry) × (drmf_get_entries disk scan 3 3 5 start
      ≡ some (some es, w'))
    × (w'.os.map_file ≡ encode_recs two_recs)
    × (w'.os ≡ (disk.act (Call.flock 3 lock_un) (disk.act (Call.flock 3 lock_ex) start.os).1).1)
    × Tiles (mapped two_recs) 3 8 es
drmf_get_entries-Tiles_example =
    drmf_get_entries-Tiles disk scan scan-IsBsearch 3 (λ d. d.map_file) map-IsRegular
      (mapped two_recs) start start-Holds 3 5 (omega arith) (omega arith)

abbrev joining : DrmmRec
joining = record { off_start = 4; off_end = 5 }

drmm_rec_insert-mapped_example :
    mapped (drmm_rec_insert scan joining two_recs) 4 ≡ (covers joining 4 || mapped two_recs 4)
drmm_rec_insert-mapped_example =
    drmm_rec_insert-mapped scan scan-IsBsearch joining two_recs 4 (omega arith) two_recs-IsMap

drmm_rec_insert-IsMap_example : IsMap 0 (drmm_rec_insert scan joining two_recs)
drmm_rec_insert-IsMap_example =
    drmm_rec_insert-IsMap scan scan-IsBsearch joining two_recs (omega arith) two_recs-IsMap

drmm_rec_truncate-mapped_example :
    mapped (drmm_rec_truncate scan 3 two_recs) 2 ≡ (mapped two_recs 2 && ltb 2 3)
drmm_rec_truncate-mapped_example =
    drmm_rec_truncate-mapped scan scan-IsBsearch 3 two_recs 2 two_recs-IsMap

drmm_rec_truncate-IsMap_example : IsMap 0 (drmm_rec_truncate scan 3 two_recs)
drmm_rec_truncate-IsMap_example =
    drmm_rec_truncate-IsMap scan scan-IsBsearch 3 two_recs two_recs-IsMap

drmm_rec_find_overlaps-Chosen_example :
    Chosen (overlapping 3 (3 + 5 - 1) two_recs) two_recs (drmm_rec_find_overlaps scan 3 5 two_recs)
drmm_rec_find_overlaps-Chosen_example =
    drmm_rec_find_overlaps-Chosen scan scan-IsBsearch 3 5 two_recs (omega arith) (omega arith)
      two_recs-IsMap

search_sml_or_eql_example : search_sml_or_eql scan 7 two_recs ≡ some 1
unfolding pred_index
search_sml_or_eql_example = search_sml_or_eql_lem scan scan-IsBsearch 7 two_recs two_recs-IsMap

build_path-Within_example : WrittenWithin 8 (build_path 8 (codes "/rw/" ∷ codes "/a" ∷ []))
build_path-Within_example = build_path-Within 8 (codes "/rw/" ∷ codes "/a" ∷ []) (omega arith)

build_path_overflow_example :
    (b : Buffer) × (build_path 5 (codes "/dir" ∷ codes "a" ∷ []) ≡ failed enametoolong b)
    × (b.written ≡ 6)
unfolding ends_slash
build_path_overflow_example =
    build_path_overflow 5 (codes "/dir") (codes "a") refl (omega arith) refl refl

build_path-single_example : SingleIfDone (build_path 20 (codes "/rw/" ∷ codes "/a" ∷ []))
build_path-single_example =
    build_path-single 20 (codes "/rw/" ∷ codes "/a" ∷ []) (omega arith) (refl, (refl, tt))

whiteout_tag-append_example : whiteout_tag (codes "a_HIDDEN~") ≡ some 1
unfolding strstr
whiteout_tag-append_example = whiteout_tag-append (codes "a")

u_dirname_example :
    (u_dirname (codes "/a/b") ≡ some (codes "/a")) × (u_dirname (codes "b") ≡ some (codes "."))
u_dirname_example = u_dirname_lem (codes "/a") (codes "b") refl (omega arith)

-- ===== src/Tests/Recorder.antt =====
-- A system that writes down the calls that change something, with one file in a read-only branch.
use mathlib.Core.Path.{subst}
use unionfs_fuse.Prelude.{
  ℕ, zero, suc, ◌<◌, arith, ◌||◌, ◌≡◌, refl, sym, ◌∙◌, Bool, true, false, Option, none, some, List,
  [], ◌∷◌, codes, if◌then◌else◌,
}
use unionfs_fuse.Prelude.Int.{pos}
use unionfs_fuse.Os.{FilePath, Sys, Os, ok, err, Stat, Call, World}
use unionfs_fuse.Os.Safe.{Guards, Allowed}
use unionfs_fuse.Os.Monad.{◌>>=◌}
use unionfs_fuse.Text.{
  u_dirname, before_last_slash, ends_slash, skip_slashes, build_loop, append_element, separate,
  build_path, build_path_max,
}
use unionfs_fuse.Union.Find.{find_rorw_branch, find_branch, find_from, accepts}
use unionfs_fuse.Union.{BranchEntry, Uopt}
use unionfs_fuse.Union.Guarded.{Ours, Slashed}
use unionfs_fuse.Union.Readdir.{same}
use unionfs_fuse.Union.Hidden.{
  path_hidden_in, hidden_below, any_hidden, filedir_hidden, stops, walk_from, leading_slashes,
}
use unionfs_fuse.Union.Writable.Parent.{Writes}
use unionfs_fuse.Union.Writable.Guarded.{IsWritable, found-IsWritable}
use unionfs_fuse.Union.Writable.{
  find_rw_branch_cow, find_rw_branch_cow_common, find_rw_branch_cutlast,
  find_rw_branch_cutlast_hint, parent_branch,
}
use unionfs_fuse.Union.Copy.Fuel.{Drains}

abbrev file_stat : Stat
file_stat = record {
  st_mode = 0o100644;
  st_nlink = 1;
  st_uid = 0;
  st_gid = 0;
  st_rdev = 0;
  st_size = 0;
  st_atime = 0;
  st_mtime = 0;
}

-- Every call that changes something succeeds.
abbrev pub recorder : Os
recorder = record {
  State = List Call;
  act = λ c calls. (ok 0, c ∷ calls);
  lstat = λ p d. if same p (codes "/ro/f") then ok file_stat else err 2;
  stat = λ p d. if same p (codes "/ro/f") then ok file_stat else err 2;
  fstat = λ fd d. ok file_stat;
  readlink = λ p n d. err 22;
  opendir = λ p d. err 2;
  pread = λ fd n off d. ok [];
  malloc = λ n d. true;
  read = λ fd n d. (ok [], d);
  mmap = λ fd n d. err 9;
  getxattr = λ p name n d. err 2;
  listxattr = λ p n d. err 2;
  uid = λ d. 0;
  umask = λ d. 18;
  request_uid = λ d. 1000;
  request_gid = λ d. 1000;
}

abbrev pub two : Uopt
two = record {
  branches =
      record { path = codes "/rw/"; path_len = 4; rw = true }
      ∷ record { path = codes "/ro/"; path_len = 4; rw = false }
      ∷ [];
  cow_enabled = true;
  hide_meta_files = true;
  cowolf_enabled = false;
  cowolf_fsize_th = 100;
}

abbrev EndsSlash : Option BranchEntry → Type 0
EndsSlash none = Unit
EndsSlash (some b) = ends_slash b.path ≡ true

pub two-Slashed : Slashed two
unfolding ends_slash
two-Slashed zero b e = subst EndsSlash e refl
two-Slashed (suc zero) b e = subst EndsSlash e refl
two-Slashed (suc (suc i)) b e = cc

-- All calls that were made were allowed.
abbrev pub AllAllowed : List Call → Type 0
AllAllowed [] = Unit
AllAllowed (c ∷ calls) = Allowed (Ours two) c × AllAllowed calls

pub recorder-Guards : Guards recorder (Allowed (Ours two)) AllAllowed
recorder-Guards = record { act = λ c s h p. (h, p); read = λ fd n s p. p }

abbrev pub no_calls : World recorder
no_calls = record { os = []; errno = pos 0 }

-- The read-only branch alone, without copy on write.
abbrev pub lone_branch : BranchEntry
lone_branch = record { path = codes "/ro/"; path_len = 4; rw = false }

abbrev pub only_ro : Uopt
only_ro = record two { branches = lone_branch ∷ []; cow_enabled = false }

pub f-found : find_rorw_branch recorder only_ro (codes "/f") no_calls ≡ some (some 0, no_calls)
unfolding find_rorw_branch find_branch find_from accepts build_loop append_element separate
    build_path build_path_max skip_slashes ends_slash ◌>>=◌
f-found = refl

-- A file that gives one byte at a time; the state is the number of bytes that it still has.
abbrev drip_read : ℕ → Sys (List ℕ) × ℕ
drip_read zero = (ok [], 0)
drip_read (suc k) = (ok (7 ∷ []), k)

abbrev pub drip : Os
drip = record {
  State = ℕ;
  act = λ c k. (ok 1, k);
  lstat = λ p k. ok file_stat;
  stat = λ p k. ok file_stat;
  fstat = λ fd k. ok file_stat;
  readlink = λ p n k. err 22;
  opendir = λ p k. err 2;
  pread = λ fd n off k. ok [];
  malloc = λ n k. true;
  read = λ fd n k. drip_read k;
  mmap = λ fd n k. err 9;
  getxattr = λ p name n k. err 2;
  listxattr = λ p n k. err 2;
  uid = λ k. 0;
  umask = λ k. 18;
  request_uid = λ k. 1000;
  request_gid = λ k. 1000;
}

drip_read_less : (k c : ℕ) (bytes : List ℕ) → (drip_read k).0 ≡ ok (c ∷ bytes) → (drip_read k).1 < k
drip_read_less zero c bytes e = cc
drip_read_less (suc k) c bytes e = omega arith

pub drip-Drains : Drains drip 4 5 (λ k. k)
drip-Drains = record { read = drip_read_less; write = λ k bytes. omega arith }

abbrev pub two_bytes : World drip
two_bytes = record { os = 2; errno = pos 0 }

-- The same with a directory and a file in the writable branch.
abbrev in_place : FilePath → Bool
in_place p = same p (codes "/rw/d") || same p (codes "/rw/e")

abbrev pub steady : Os
steady = record recorder { lstat = λ p d. if in_place p then ok file_stat else err 2 }

pub steady-Guards : Guards steady (Allowed (Ours two)) AllAllowed
steady-Guards = record { act = λ c s h p. (h, p); read = λ fd n s p. p }

abbrev pub steady_start : World steady
steady_start = record { os = []; errno = pos 0 }

abbrev pub not_found : World steady
not_found = record { os = []; errno = pos 2 }

-- The directory of the new name is in the writable branch.
g-made : find_rw_branch_cutlast steady two 5 (codes "/d/g") steady_start ≡ some (some 0, not_found)
unfolding find_rw_branch_cutlast find_rw_branch_cutlast_hint find_rw_branch_cow
    find_rw_branch_cow_common parent_branch find_rorw_branch find_branch find_from accepts
    build_loop append_element separate build_path build_path_max skip_slashes ends_slash ◌>>=◌
    path_hidden_in hidden_below any_hidden filedir_hidden stops walk_from leading_slashes u_dirname
    before_last_slash
g-made = refl

-- The same with the hint of the branch that has the other name.
pub g-hinted :
    find_rw_branch_cutlast_hint steady two 5 (codes "/d/g") (some 0) steady_start
    ≡ some (some 0, not_found)
unfolding find_rw_branch_cutlast_hint find_rw_branch_cow find_rw_branch_cow_common parent_branch
    find_rorw_branch find_branch find_from accepts build_loop append_element separate build_path
    build_path_max skip_slashes ends_slash ◌>>=◌ path_hidden_in hidden_below any_hidden
    filedir_hidden stops walk_from leading_slashes u_dirname before_last_slash
g-hinted = refl

e-found : find_rw_branch_cow steady two 5 (codes "/e") steady_start ≡ some (some 0, steady_start)
unfolding find_rw_branch_cow find_rw_branch_cow_common find_rorw_branch find_branch find_from
    accepts build_loop append_element separate build_path build_path_max skip_slashes ends_slash
    ◌>>=◌
e-found = refl

abbrev Outcome : Type 0
Outcome = Option (Option ℕ × World steady)

same_outcome :
    (o : Outcome) (i j : ℕ) (w w' : World steady)
    → o ≡ some (some i, w)
    → o ≡ some (some j, w')
    → (i ≡ j) × (w ≡ w')
same_outcome o i j w w' e f =
    let g : Path Outcome (some (some i, w)) (some (some j, w')) = sym e ∙ f in (cc, cc)

pub zero-IsWritable : IsWritable two (some 0)
zero-IsWritable =
    found-IsWritable two 0 (record { path = codes "/rw/"; path_len = 4; rw = true }) refl refl

first-Writes : (o : Outcome) → o ≡ some (some 0, not_found) → Writes steady two o
first-Writes o e i w' f =
    subst (λ i. IsWritable two (some i)) (same_outcome o 0 i not_found w' e f).0 zero-IsWritable

pub g-Writes : Writes steady two (find_rw_branch_cutlast steady two 5 (codes "/d/g") steady_start)
g-Writes = first-Writes _ g-made

pub g-hinted-Writes :
    (i : ℕ) (w' : World steady)
    → find_rw_branch_cow steady two 5 (codes "/e") steady_start ≡ some (some i, w')
    → Writes steady two (find_rw_branch_cutlast_hint steady two 5 (codes "/d/g") (some i) w')
g-hinted-Writes i w' f =
    let (h, k) = same_outcome _ 0 i steady_start w' e-found f in
    subst
      (λ w. Writes steady two (find_rw_branch_cutlast_hint steady two 5 (codes "/d/g") (some i) w))
      k
      (subst
        (λ i.
          Writes steady two
            (find_rw_branch_cutlast_hint steady two 5 (codes "/d/g") (some i) steady_start))
        h (first-Writes _ g-hinted))

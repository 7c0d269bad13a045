-- ===== src/Tests/Disk.antt =====
-- A system for the tests: three files in memory, and a linear scan for `bsearch`.
use Prim.Native.Nat.{Ordering}
use native.Mathlib.Decide.{dec_lt}
use unionfs_fuse.Prelude.{
  ℕ, zero, suc, ◌<◌, ◌≡◌, refl, ◌≢◌, ◌⊎◌, inl, inr, true, Option, none, some, List, [], ◌∷◌, ◌++◌,
  length, codes, take, drop, ◌==◌, if◌then◌else◌, arith,
}
use unionfs_fuse.Os.{Os, Sys, ok, err, Stat, Call, World}
use unionfs_fuse.Prelude.Int.{pos}
use unionfs_fuse.Drm.Mem.{Bsearch, DrmmRec, uint64_max}
use unionfs_fuse.Drm.Mem.Search.{IsBsearch}
use unionfs_fuse.Drm.Mem.Ranges.{mapped, IsMap}
use unionfs_fuse.Drm.Codec.{encode_recs}
use unionfs_fuse.Drm.File.Io.{IsRegular}
use unionfs_fuse.Drm.File.Refine.{Holds}
use unionfs_fuse.Cowolf.Data.{CwfInfo}
use unionfs_fuse.Union.Readdir.{same}
use unionfs_fuse.Cowolf.Data.Read.{IsReadable}
use unionfs_fuse.Cowolf.Data.Write.{IsApart}
use unionfs_fuse.Ops.Files.Sparse.{Pwrites}

abbrev first_equal : Ordering → Option ℕ → ℕ → Option ℕ
first_equal c (some i) n = some i
first_equal Ordering.eq none n = some n
first_equal Ordering.lt none n = none
first_equal Ordering.gt none n = none

unfoldable pub scan : Bsearch
scan cmp zero = none
scan cmp (suc n) = first_equal (cmp n) (scan cmp n) n

first_equal-found :
    (c : Ordering) (o : Option ℕ) (n i : ℕ)
    → first_equal c o n ≡ some i
    → (o ≡ some i) ⊎ ((i ≡ n) × (c ≡ Ordering.eq))
first_equal-found c (some j) n i e = inl e
first_equal-found Ordering.eq none n i e = inr (ground arith, refl)
first_equal-found Ordering.lt none n i e = cc
first_equal-found Ordering.gt none n i e = cc

first_equal-missing :
    (c : Ordering) (o : Option ℕ) (n : ℕ)
    → first_equal c o n ≡ none
    → (o ≡ none) × (c ≢ Ordering.eq)
first_equal-missing c (some j) n e = cc
first_equal-missing Ordering.eq none n e = cc
first_equal-missing Ordering.lt none n e = (refl, λ d. cc)
first_equal-missing Ordering.gt none n e = (refl, λ d. cc)

scan-found : (cmp : ℕ → Ordering) (n i : ℕ) → scan cmp n ≡ some i → (i < n) × (cmp i ≡ Ordering.eq)
unfolding scan
scan-found cmp zero i e = cc
scan-found cmp (suc n) i e = elim (first_equal-found (cmp n) (scan cmp n) n i e) [
  | inl f ↦ let ih = scan-found cmp n i f in (omega (arith, ih.0), ih.1)
  | inr (f, g) ↦ (omega (arith, f), rw f g)
]

scan-missing :
    (cmp : ℕ → Ordering) (n : ℕ) → scan cmp n ≡ none → (i : ℕ) → i < n → cmp i ≢ Ordering.eq
unfolding scan
scan-missing cmp zero e i h = absurd (omega arith)
scan-missing cmp (suc n) e i h =
    let (f, g) = first_equal-missing (cmp n) (scan cmp n) n e in
    elim (dec_lt i n) [
      | yes p ↦ scan-missing cmp n f i p
      | no p ↦ let k : i ≡ n = omega arith in rw k g
    ]

pub scan-IsBsearch : IsBsearch scan
scan-IsBsearch = record { found = scan-found; missing = λ cmp n o e. scan-missing cmp n e }

-- The map file, and the files of the two branches.
pub record Files : Type 0 where
  pub map_file : List ℕ
  pub lower_file : List ℕ
  pub upper_file : List ℕ

abbrev file_of : ℕ → Files → List ℕ
file_of fd d = if fd == 3 then d.map_file else if fd == 4 then d.lower_file else d.upper_file

-- Changes of the map file, which descriptor 3 stands for, and writes to the upper file.
abbrev disk_act : Call → Files → Sys ℕ × Files
disk_act (Call.flock fd k) d = (ok 0, d)
disk_act (Call.pwrite fd bs off) d =
    if fd == 3
    then (
      ok (length bs),
      record d { map_file = take off d.map_file ++ (bs ++ drop (length bs) (drop off d.map_file)) },
    )
    else if fd == 5
    then (
      ok (length bs),
      record d {
        upper_file = take off d.upper_file ++ (bs ++ drop (length bs) (drop off d.upper_file));
      },
    )
    else (err 9, d)
disk_act (Call.ftruncate fd n) d =
    if fd == 3 then (ok 0, record d { map_file = take n d.map_file }) else (err 9, d)
disk_act c d = (err 38, d)

abbrev disk_stat : List ℕ → Stat
disk_stat bs = record {
  st_mode = 33152;
  st_nlink = 1;
  st_uid = 0;
  st_gid = 0;
  st_rdev = 0;
  st_size = length bs;
  st_atime = 0;
  st_mtime = 0;
}

abbrev pub disk : Os
disk = record {
  State = Files;
  act = disk_act;
  lstat = λ p d. err 2;
  stat = λ p d. err 2;
  fstat = λ fd d. ok (disk_stat (file_of fd d));
  readlink = λ p n d. err 2;
  opendir = λ p d. err 2;
  pread = λ fd n off d. ok (take n (drop off (file_of fd d)));
  malloc = λ n d. true;
  read = λ fd n d. (err 9, d);
  mmap = λ fd n d. err 9;
  getxattr = λ p name n d. err 2;
  listxattr = λ p n d. err 2;
  uid = λ d. 0;
  umask = λ d. 18;
  request_uid = λ d. 1000;
  request_gid = λ d. 1000;
}

-- The same with a file in one branch, and a directory in two.
abbrev pub one_path : Os
one_path = record {
  State = Files;
  act = disk_act;
  lstat = λ p d. if same p (codes "/ro/f") then ok (disk_stat []) else err 2;
  stat = λ p d. err 2;
  fstat = λ fd d. err 9;
  readlink = λ p n d. err 2;
  opendir = λ p d.
      if same p (codes "/rw/d")
      then ok (codes "a" ∷ [])
      else if same p (codes "/ro/d")
      then ok (codes "a" ∷ codes "b" ∷ codes "c" ∷ [])
      else if same p (codes "/rw/.unionfs/d")
      then ok (codes "b_HIDDEN~" ∷ [])
      else err 2;
  pread = λ fd n off d. err 9;
  malloc = λ n d. true;
  read = λ fd n d. (err 9, d);
  mmap = λ fd n d. err 9;
  getxattr = λ p name n d. err 2;
  listxattr = λ p n d. err 2;
  uid = λ d. 0;
  umask = λ d. 18;
  request_uid = λ d. 1000;
  request_gid = λ d. 1000;
}

pub map-IsRegular : IsRegular disk 3 (λ d. d.map_file)
map-IsRegular = record {
  flock = λ k s. refl;
  flock-content = λ k s. refl;
  fstat = λ s. (disk_stat s.map_file, refl, refl);
  malloc = λ n s. refl;
  pread = λ n s. refl;
  pwrite = λ bs s. refl;
  pwrite-content = λ bs s. refl;
  ftruncate = λ n s. refl;
  ftruncate-content = λ n s h. refl;
}

pub lower-IsReadable : IsReadable disk 4 (λ d. d.lower_file)
lower-IsReadable = record { pread = λ n off s. refl; flock-file = λ m k s. refl }

pub upper-IsReadable : IsReadable disk 5 (λ d. d.upper_file)
upper-IsReadable = record { pread = λ n off s. refl; flock-file = λ m k s. refl }

pub upper-IsApart : IsApart disk 3 (λ d. d.upper_file)
upper-IsApart = record { flock = λ k s. refl; pwrite = λ bs s. refl; ftruncate = λ n s. refl }

pub lower-IsApart : IsApart disk 3 (λ d. d.lower_file)
lower-IsApart = record { flock = λ k s. refl; pwrite = λ bs s. refl; ftruncate = λ n s. refl }

pub upper-Pwrites : Pwrites disk 5 (λ d. d.map_file)
upper-Pwrites = record { pwrite = λ bs off s. refl; pwrite-content = λ bs off s. refl }

-- Bytes 2 and 3 are mapped, and all from 6 on.
abbrev pub two_recs : List DrmmRec
two_recs =
    record { off_start = 2; off_end = 3 } ∷ record { off_start = 6; off_end = uint64_max } ∷ []

pub two_recs-IsMap : IsMap 0 two_recs
two_recs-IsMap = (omega arith, omega arith, (omega arith, omega arith, tt))

abbrev pub start : World disk
start = record {
  os = record {
    map_file = encode_recs two_recs;
    lower_file = 10 ∷ 11 ∷ 12 ∷ 13 ∷ 14 ∷ 15 ∷ [];
    upper_file = 20 ∷ 21 ∷ 22 ∷ 23 ∷ 24 ∷ 25 ∷ 26 ∷ 27 ∷ [];
  };
  errno = pos 0;
}

abbrev pub start-Holds : Holds (encode_recs two_recs) (mapped two_recs)
start-Holds = record {
  recs = two_recs;
  stored = refl;
  in_order = two_recs-IsMap;
  ended = refl;
  reads = λ p q. refl;
}

abbrev pub sparse : CwfInfo
sparse = record { lower_fd = 4; drmap_fd = 3 }

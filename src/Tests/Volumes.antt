-- ===== src/Tests/Volumes.antt =====
-- `statfs` on three branches, two of them on one device.
use unionfs_fuse.Prelude.{
  ℕ, ◌+◌, ◌*◌, ◌/◌, refl, true, false, List, [], ◌∷◌, length, codes, ◌==◌, if◌then◌else◌, arith,
}
use unionfs_fuse.Os.{FilePath, ok}
use unionfs_fuse.Union.{BranchEntry}
use unionfs_fuse.Ops.Statfs.{Statfs, local_of, unionfs_statfs}
use unionfs_fuse.Ops.Statfs.Totals.{IsExact, Counts, unionfs_statfs-Counts}

abbrev volume : FilePath → Statfs
volume p = record {
  f_bsize = 4096;
  f_frsize = 0;
  f_blocks = 100 * length p;
  f_bfree = 50;
  f_bavail = 40;
  f_files = 10;
  f_ffree = 5;
  f_namelen = 255;
}

-- Paths of the same length are on one device.
abbrev device : FilePath → ℕ
device p = length p

abbrev add_scaled : ℕ → ℕ → ℕ → ℕ → ℕ
add_scaled a b n m = a + (if n == m then b else b * n / m)

add_scaled-IsExact : IsExact add_scaled
add_scaled-IsExact a b n p h = ground arith

abbrev first_branch : BranchEntry
first_branch = record { path = codes "/a/"; path_len = 3; rw = true }

abbrev other_branches : List BranchEntry
other_branches =
    record { path = codes "/b/"; path_len = 3; rw = false }
    ∷ record { path = codes "/cc/"; path_len = 4; rw = true }
    ∷ record { path = codes "/ddd/"; path_len = 5; rw = false }
    ∷ []

unionfs_statfs-Counts_example :
    Counts
      (unionfs_statfs
        (λ p. ok (volume p))
        (λ p. ok (device p))
        add_scaled
        false
        (first_branch ∷ other_branches)
        (local_of (volume (codes "/x"))))
      1200
      100
      80
unionfs_statfs-Counts_example =
    unionfs_statfs-Counts (λ p. ok (volume p)) (λ p. ok (device p)) add_scaled false volume device
      4096 add_scaled-IsExact (λ p. refl) (λ p. refl) (λ p. refl) (omega arith) first_branch
      other_branches (local_of (volume (codes "/x"))) (omega arith, omega arith, omega arith)

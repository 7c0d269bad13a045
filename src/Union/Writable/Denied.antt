-- ===== src/Union/Writable/Denied.antt =====
-- Without copy on write, no branch is found for what is read-only.
use unionfs_fuse.Prelude.{ℕ, ◌≡◌, refl, ◌∙◌, false, none, some, get_elem?}
use unionfs_fuse.Prelude.Int.{pos}
use unionfs_fuse.Os.{FilePath, Os, World}
use unionfs_fuse.Os.Monad.{◌>>=◌, bind_run}
use unionfs_fuse.Union.{BranchEntry, Uopt, eacces, branch_at}
use unionfs_fuse.Union.Find.{find_rorw_branch}
use unionfs_fuse.Union.Writable.{from_read_only, find_rw_branch_cow_common, find_rw_branch_cow}

branch_at_run :
    (S : Os) (uopt : Uopt) (i : ℕ) (b : BranchEntry) (w : World S)
    → get_elem? uopt.branches i ≡ some b
    → branch_at S uopt i w ≡ some (b, w)
branch_at_run S uopt i b w e = rw (branch_at, e) refl

from_read_only-denied :
    (S : Os) (uopt : Uopt) (fuel : ℕ) (path : FilePath) (w : World S) (i : ℕ)
    → uopt.cow_enabled ≡ false
    → from_read_only S uopt fuel path i false w ≡ some (none, record w { errno = pos eacces })
unfolding from_read_only ◌>>=◌
from_read_only-denied S uopt fuel path w i c = rw (from_read_only, c) refl

pub find_rw_branch_cow-denied :
    {S : Os} (uopt : Uopt) (fuel : ℕ) (path : FilePath) (w w1 : World S) (i : ℕ) (b : BranchEntry)
    → uopt.cow_enabled ≡ false
    → find_rorw_branch S uopt path w ≡ some (some i, w1)
    → get_elem? uopt.branches i ≡ some b
    → b.rw ≡ false
    → find_rw_branch_cow S uopt fuel path w ≡ some (none, record w1 { errno = pos eacces })
unfolding find_rw_branch_cow find_rw_branch_cow_common
find_rw_branch_cow-denied {S} uopt fuel path w w1 i b C F E R =
    bind_run (find_rorw_branch S uopt path) _ w w1 (some i) F
    ∙ bind_run (branch_at S uopt i) _ w1 w1 b (branch_at_run S uopt i b w1 E)
    ∙ rw R (from_read_only-denied S uopt fuel path w1 i C)

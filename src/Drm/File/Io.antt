-- ===== src/Drm/File/Io.antt =====
-- The file calls of src/drm_file.c on a map file that the system reads and writes without a fault.

use unionfs_fuse.Os.Monad.{◌>>=◌}
use unionfs_fuse.Prelude.{
  ℕ, ◌+◌, ◌*◌, ◌≤◌, ◌≡◌, refl, ◌∙◌, Bool, true, some, List, [], ◌∷◌, ◌++◌, length, take, drop,
  length-append, arith,
}
use unionfs_fuse.Os.{Os, ok, Stat, Call, World}
use unionfs_fuse.Drm.Mem.{DrmmRec}
use unionfs_fuse.Drm.Mem.Ranges.{IsMap}
use unionfs_fuse.Drm.Codec.{encode_recs, decode_recs-encode_recs, length-encode_recs}
use unionfs_fuse.Drm.File.{
  file_lock, file_unlock, check_sentinel, load_bytes, file_load, save_bytes, file_save, save_unlock,
  lock_ex, lock_un,
}
use unionfs_fuse.Drm.File.Sentinel.{HasSentinel, HasSentinel-last_rec, HasSentinel-AllFit}

-- The calls on the descriptor `fd` succeed, and act on the bytes `content` as documented.
pub record IsRegular (S : Os) (fd : ℕ) (content : S.State → List ℕ) : Type 0 where
  pub flock : (k : ℕ) (s : S.State) → (S.act (Call.flock fd k) s).0 ≡ ok 0
  pub flock-content : (k : ℕ) (s : S.State) → content (S.act (Call.flock fd k) s).1 ≡ content s
  pub fstat :
      (s : S.State) → (st : Stat) × (S.fstat fd s ≡ ok st) × (st.st_size ≡ length (content s))
  pub malloc : (n : ℕ) (s : S.State) → S.malloc n s ≡ true
  pub pread : (n : ℕ) (s : S.State) → S.pread fd n 0 s ≡ ok (take n (content s))
  pub pwrite : (bs : List ℕ) (s : S.State) → (S.act (Call.pwrite fd bs 0) s).0 ≡ ok (length bs)
  pub pwrite-content :
      (bs : List ℕ) (s : S.State)
      → content (S.act (Call.pwrite fd bs 0) s).1 ≡ bs ++ drop (length bs) (content s)
  pub ftruncate : (n : ℕ) (s : S.State) → (S.act (Call.ftruncate fd n) s).0 ≡ ok 0
  pub ftruncate-content :
      (n : ℕ) (s : S.State)
      → n ≤ length (content s)
      → content (S.act (Call.ftruncate fd n) s).1 ≡ take n (content s)

pub take-length {ℓ} : {A : Type ℓ} (xs : List A) → take (length xs) xs ≡ xs
take-length [] = refl
take-length (x ∷ xs) = rw (take-length xs)

take-append {ℓ} : {A : Type ℓ} (xs ys : List A) → take (length xs) (xs ++ ys) ≡ xs
take-append [] ys = refl
take-append (x ∷ xs) ys = rw (take-append xs ys)

-- The state after the two calls that save a map.
abbrev pub saved : (S : Os) → ℕ → List DrmmRec → S.State → S.State
saved S fd recs s =
    (S.act (Call.ftruncate fd (length recs * 16))
      (S.act (Call.pwrite fd (encode_recs recs) 0) s).1).1

module _ (S : Os) (fd : ℕ) (content : S.State → List ℕ) (R : IsRegular S fd content) where
  pub file_lock_lem :
      (w : World S)
      → (w' : World S) × (file_lock S fd w ≡ some (true, w'))
        × (content w'.os ≡ content w.os)
        × (w'.os ≡ (S.act (Call.flock fd lock_ex) w.os).1)
  unfolding file_lock ◌>>=◌
  file_lock_lem w = (
    record w { os = (S.act (Call.flock fd 2) w.os).1 },
    ground (arith, R.flock 2 w.os),
    R.flock-content 2 w.os,
    refl,
  )

  pub file_unlock_lem :
      (w : World S)
      → (w' : World S) × (file_unlock S fd w ≡ some (true, w'))
        × (content w'.os ≡ content w.os)
        × (w'.os ≡ (S.act (Call.flock fd lock_un) w.os).1)
  unfolding file_unlock ◌>>=◌
  file_unlock_lem w = (
    record w { os = (S.act (Call.flock fd 8) w.os).1 },
    ground (arith, R.flock 8 w.os),
    R.flock-content 8 w.os,
    refl,
  )

  -- A file that holds a valid map is loaded as that map, and nothing changes.
  pub file_load_lem :
      (extra : Bool) (recs : List DrmmRec) (w : World S)
      → content w.os ≡ encode_recs recs
      → IsMap 0 recs
      → HasSentinel recs
      → file_load S fd extra w ≡ some (some recs, w)
  unfolding file_load load_bytes check_sentinel ◌>>=◌
  file_load_lem extra recs w c m h =
      let (st, f, z) = R.fstat w.os in
      let size : st.st_size ≡ length recs * 16 = z ∙ rw c (length-encode_recs recs) in
      let whole : take st.st_size (content w.os) ≡ encode_recs recs =
        rw (z, c) (take-length (encode_recs recs)) in
      let (l, e, d) = HasSentinel-last_rec recs h in
      let back = decode_recs-encode_recs recs (HasSentinel-AllFit 0 recs m h) in
      ground (
        arith,
        f,
        z,
        size,
        whole,
        e,
        d,
        back,
        R.malloc (st.st_size + 16) w.os,
        R.malloc (st.st_size + 0) w.os,
        R.pread st.st_size w.os,
      )

  -- Saving a map with a last record replaces the whole content by it.
  pub file_save_lem :
      (recs : List DrmmRec) (w : World S)
      → HasSentinel recs
      → (w' : World S) × (file_save S fd recs w ≡ some (true, w'))
        × (content w'.os ≡ encode_recs recs)
        × (w'.os ≡ saved S fd recs w.os)
  unfolding file_save save_bytes ◌>>=◌
  file_save_lem recs w h =
      let bs = encode_recs recs in
      let size = length-encode_recs recs in
      let (l, e, d) = HasSentinel-last_rec recs h in
      let s1 = (S.act (Call.pwrite fd bs 0) w.os).1 in
      let n = length recs * 16 in
      let fits : n ≤ length (content s1) =
        rw (R.pwrite-content bs w.os, length-append bs _, size) (omega arith) in
      (
        record w { os = (S.act (Call.ftruncate fd n) s1).1 },
        ground (arith, e, size, R.pwrite bs w.os, R.ftruncate n s1),
        R.ftruncate-content n s1 fits
            ∙ rw (R.pwrite-content bs w.os, ← size)
                (take-append bs (drop (length bs) (content w.os))),
        refl,
      )

  pub save_unlock_lem :
      (recs : List DrmmRec) (w : World S)
      → HasSentinel recs
      → (w' : World S) × (save_unlock S fd recs w ≡ some (true, w'))
        × (content w'.os ≡ encode_recs recs)
        × (w'.os ≡ (S.act (Call.flock fd lock_un) (saved S fd recs w.os)).1)
  unfolding save_unlock ◌>>=◌
  save_unlock_lem recs w h =
      let (w1, e1, c1, o1) = file_save_lem recs w h in
      let (w2, e2, c2, o2) = file_unlock_lem w1 in (w2, ground (arith, e1, e2), c2 ∙ c1, o2 ∙ rw o1)

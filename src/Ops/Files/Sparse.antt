-- ===== src/Ops/Files/Sparse.antt =====
-- The handlers `unionfs_write` and `unionfs_read` on a sparse file.
use mathlib.Core.Path.{subst}
use unionfs_fuse.Prelude.{
  ℕ, ◌+◌, ◌-◌, ◌%◌, ap, arith, false, ltb, ◌==◌, ◌^◌, ◌≤◌, ◌<◌, ◌≡◌, refl, sym, ◌∙◌, Bool, true,
  ◌||◌, none, some, Option, List, length, take,
}
use unionfs_fuse.Os.{Os, ok, Call, World, act}
use unionfs_fuse.Os.Monad.{◌>>=◌, bind_run, pure}
use unionfs_fuse.Drm.Mem.{Bsearch}
use unionfs_fuse.Drm.Mem.Search.{IsBsearch}
use unionfs_fuse.Drm.File.Io.{IsRegular, take-length}
use unionfs_fuse.Drm.File.Refine.{Holds, in_range}
use unionfs_fuse.Cowolf.Data.{CwfInfo, cowolf_read, cowolf_write}
use unionfs_fuse.Cowolf.Data.View.{view, length-view}
use unionfs_fuse.Cowolf.Data.Read.{IsReadable, Backed}
use unionfs_fuse.Cowolf.Data.Write.{IsApart, cowolf_write-read}
use unionfs_fuse.Ops.{Reply, reply, or_errno}
use unionfs_fuse.Ops.Files.{
  int_reply, int_result, read_result, write_result, write_mapped, Fhandle, unionfs_read,
  unionfs_write,
}

-- A `pwrite` to the descriptor writes all its bytes, and does not touch the file that `content` tells.
pub record Pwrites (S : Os) (fd : ℕ) (content : S.State → List ℕ) : Type 0 where
  pub pwrite :
      (bytes : List ℕ) (offset : ℕ) (s : S.State)
      → (S.act (Call.pwrite fd bytes offset) s).0 ≡ ok (length bytes)
  pub pwrite-content :
      (bytes : List ℕ) (offset : ℕ) (s : S.State)
      → content (S.act (Call.pwrite fd bytes offset) s).1 ≡ content s

int_result_small : (n : ℕ) → n < 2 ^ 31 → int_result n ≡ some n
int_result_small n h =
    let e : n % 2 ^ 32 ≡ n = omega (arith, h) in
    let f : (n == 2 ^ 32 - 1) ≡ false = ground (arith, h) in rw (e, f) refl

int_reply_small :
    {A : Type 0} (value : ℕ → A) (n : ℕ) → n < 2 ^ 31 → int_reply value n ≡ reply (value n)
int_reply_small value n h = let f : ltb n (2 ^ 31) ≡ true = ground (arith, h) in rw f refl

write_result_small : (n : ℕ) → n < 2 ^ 31 → write_result (some n) ≡ some (reply n)
write_result_small n h =
    ap
      (λ o. elim o as (λ x. Option (Reply ℕ)) [
        | none ↦ none
        | some r ↦ some (int_reply (λ k. k) r)
      ])
      (int_result_small n h)
    ∙ ap some (int_reply_small (λ k. k) n h)

read_result_small :
    (bytes : List ℕ) → length bytes < 2 ^ 31 → read_result (some bytes) ≡ some (reply bytes)
read_result_small bytes h =
    ap
      (λ o. elim o as (λ x. Option (Reply (List ℕ))) [
        | none ↦ none
        | some r ↦ some (int_reply (λ k. take k bytes) r)
      ])
      (int_result_small (length bytes) h)
    ∙ ap some (int_reply_small (λ k. take k bytes) (length bytes) h ∙ ap reply (take-length bytes))

module _ (S : Os) (bsearch : Bsearch) (L : IsBsearch bsearch) (fd : ℕ) (cw : CwfInfo)
    (upper lower content : S.State → List ℕ) (U : IsReadable S fd upper)
    (B : IsReadable S cw.lower_fd lower) (R : IsRegular S cw.drmap_fd content)
    (K : IsApart S cw.drmap_fd upper) (J : IsApart S cw.drmap_fd lower) (W : Pwrites S fd content)
    (f : ℕ → Bool) (w : World S) (H : Holds (content w.os) f) where
  abbrev handle : Fhandle
  handle = record { fd = fd; cw = some cw }

  -- The system after the `pwrite` of the handler.
  abbrev pub after : List ℕ → ℕ → S.State
  after buf offset = (S.act (Call.pwrite fd buf offset) w.os).1

  pwrite_run :
      (buf : List ℕ) (offset : ℕ)
      → act S (Call.pwrite fd buf offset) w
        ≡ some (some (length buf), record w { os = after buf offset })
  pwrite_run buf offset = rw (act, W.pwrite buf offset w.os) refl

  -- Without input or output errors `unionfs_write` of some bytes to a sparse file replies their
  -- number, and `unionfs_read` then replies the whole range that it is asked for: the bytes of the
  -- written range and those that were mapped before from the upper file as the write left it, all
  -- others from the lower file. This is for sizes to write and to read that a C `int` holds, and where each
  -- byte is in the file that it is read from.
  pub unionfs_write-read :
      (buf : List ℕ) (offset size' offset' : ℕ)
      → 0 < length buf
      → length buf < 2 ^ 31
      → offset + length buf ≤ 2 ^ 64
      → size' < 2 ^ 31
      → offset' + size' ≤ 2 ^ 64
      → Backed
          (λ p. f p || in_range offset (length buf) p)
          (upper (after buf offset))
          (lower (after buf offset))
          offset'
          (offset' + size')
      → (w1 : World S) × (w2 : World S) × (unionfs_write S bsearch handle buf offset w
          ≡ some (reply (length buf), w1))
        × (unionfs_read S bsearch handle size' offset' w1
            ≡ some (
              reply (
                  view
                    (λ p. f p || in_range offset (length buf) p)
                    (upper (after buf offset))
                    (lower (after buf offset))
                    offset'
                    size'),
              w2,
            ))
  unfolding unionfs_write unionfs_read ◌>>=◌
  unionfs_write-read buf offset size' offset' z z' b i b' k =
      let s1 : World S = record w { os = after buf offset } in
      let held = subst (λ c. Holds c f) (sym (W.pwrite-content buf offset w.os)) H in
      let (w1, w2, e, r) =
        cowolf_write-read S bsearch L fd cw upper lower content U B R K J f s1 held (length buf)
          offset size' offset' z b i b' k in
      (
        w1,
        w2,
        bind_run (act S (Call.pwrite fd buf offset)) _ w s1 (some (length buf))
              (pwrite_run buf offset)
            ∙ ap (λ o. or_errno S o (write_mapped S bsearch handle (length buf) offset) s1)
                (write_result_small (length buf) z')
            ∙ bind_run (cowolf_write S bsearch cw (length buf) offset) _ s1 w1 true e,
        bind_run (cowolf_read S bsearch fd cw size' offset') _ w1 w2 _ r
            ∙ ap (λ o. or_errno S o pure w2)
                (read_result_small _ (rw (length-view _ _ _ offset' size') i)),
      )

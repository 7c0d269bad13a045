-- ===== src/Union/Copy/Guarded.antt =====
-- The copies of src/cow_utils.c change only the path that they copy to.
use unionfs_fuse.Prelude.{
  ℕ, zero, suc, inl, inr, refl, Bool, not, ◌||◌, List, [], ◌∷◌, length, ◌==◌,
}
use unionfs_fuse.Os.{FilePath, Os, Stat, Call, World, fstat, readlink, mmap}
use Prim.Native.Nat.{bit_and}
use unionfs_fuse.Os.Monad.{M}
use unionfs_fuse.Os.Safe.{
  Guards, Safe, Any, Allowed, act-Safe, read-Safe, safe_rules, Safe-then, Safe-if, Safe-option,
  Safe-bool, Safe-fault,
}
use unionfs_fuse.Union.Create.Guarded.{setfile-Safe}
use unionfs_fuse.Union.Copy.{
  Cow, maxbsize, is_count, setlink, copy_link, set_made, copy_fifo, copy_special, retain_bits,
  create_sparse_file, copy_chunk, copy_loop, copy_mapped, copy_bytes, copy_opened, copy_file,
}

module _ {S : Os} {P : S.State → Type 0} (Ours : FilePath → Type 0)
    (G : Guards S (Allowed Ours) P) where
  setlink-Safe : (p : FilePath) (fs : Stat) → Ours p → Safe S P (setlink S p fs) Any
  unfolding setlink
  setlink-Safe p fs h = search (safe_rules, act-Safe Ours G, h)

  pub copy_link-Safe : (cow : Cow) → Ours cow.to_path → Safe S P (copy_link S cow) Any
  unfolding copy_link
  copy_link-Safe cow h = Safe-then (readlink S cow.from_path _) _ (search safe_rules) (λ link.
      Safe-option link _ _ (search safe_rules)
        (λ target _. search (safe_rules, act-Safe Ours G, setlink-Safe, h)))

  set_made-Safe : (cow : Cow) (made : Bool) → Ours cow.to_path → Safe S P (set_made S cow made) Any
  unfolding set_made
  set_made-Safe cow made h = search (safe_rules, setfile-Safe Ours G, h)

  pub copy_fifo-Safe : (cow : Cow) → Ours cow.to_path → Safe S P (copy_fifo S cow) Any
  unfolding copy_fifo
  copy_fifo-Safe cow h = search (safe_rules, act-Safe Ours G, set_made-Safe, h)

  pub copy_special-Safe : (cow : Cow) → Ours cow.to_path → Safe S P (copy_special S cow) Any
  unfolding copy_special
  copy_special-Safe cow h = search (safe_rules, act-Safe Ours G, set_made-Safe, h)

  retain_bits-Safe : (cow : Cow) (fd mode : ℕ) → Safe S P (retain_bits S cow fd mode) Any
  unfolding retain_bits
  retain_bits-Safe cow fd mode =
      Safe-if (bit_and mode 0o6000 == 0 || not (cow.stat.st_uid == cow.uid)) _ _
        (λ _. search safe_rules)
        (λ _. Safe-then (fstat S fd) _ (search safe_rules) (λ st.
          Safe-option st _ _ (search safe_rules) (λ _ _. search (safe_rules, act-Safe Ours G))))

  pub create_sparse_file-Safe :
      (cow : Cow) → Ours cow.to_path → Safe S P (create_sparse_file S cow) Any
  unfolding create_sparse_file
  create_sparse_file-Safe cow h = Safe-then _ _ (act-Safe Ours G _ (inr h)) (λ opened.
      Safe-option opened _ _ (search safe_rules) (λ fd _.
        search (safe_rules, act-Safe Ours G, setfile-Safe Ours G, retain_bits-Safe, h) depth 9))

  copy_chunk-Safe :
      (to : ℕ) (again : M (World S) Bool) (bytes : List ℕ)
      → Safe S P again Any
      → Safe S P (copy_chunk S to again bytes) Any
  unfolding copy_chunk
  copy_chunk-Safe to again [] h = search safe_rules
  copy_chunk-Safe to again (c ∷ s) h =
      Safe-then _ _ (act-Safe Ours G (Call.write to (c ∷ s)) tt)
        (λ n. Safe-bool (is_count n (length (c ∷ s))) _ _ (λ _. h) (λ _. search safe_rules))

  copy_loop-Safe : (fuel from to : ℕ) → Safe S P (copy_loop S fuel from to) Any
  unfolding copy_loop
  copy_loop-Safe zero from to = Safe-fault
  copy_loop-Safe (suc fuel) from to = Safe-then _ _ (read-Safe Ours G from maxbsize) (λ r.
      Safe-option r _ _ (search safe_rules)
        (λ bytes _. copy_chunk-Safe to _ bytes (copy_loop-Safe fuel from to)))

  copy_mapped-Safe : (size from to : ℕ) → Safe S P (copy_mapped S size from to) Any
  unfolding copy_mapped
  copy_mapped-Safe size from to =
      Safe-then (mmap S from size) _ (search safe_rules) (λ p.
        Safe-option p _ _ (search safe_rules) (λ bytes _. search (safe_rules, act-Safe Ours G)))

  copy_bytes-Safe :
      (fuel : ℕ) (cow : Cow) (from to : ℕ) → Safe S P (copy_bytes S fuel cow from to) Any
  unfolding copy_bytes
  copy_bytes-Safe fuel cow from to = search (safe_rules, copy_mapped-Safe, copy_loop-Safe)

  copy_opened-Safe :
      (fuel : ℕ) (cow : Cow) (from to : ℕ)
      → Ours cow.to_path
      → Safe S P (copy_opened S fuel cow from to) Any
  unfolding copy_opened
  copy_opened-Safe fuel cow from to h = Safe-then _ _ (copy_bytes-Safe fuel cow from to) (λ copied.
      Safe-bool copied _ _
        (λ _.
          search (safe_rules, act-Safe Ours G, setfile-Safe Ours G, retain_bits-Safe, h) depth 9)
        (λ _. search (safe_rules, act-Safe Ours G)))

  pub copy_file-Safe :
      (fuel : ℕ) (cow : Cow) → Ours cow.to_path → Safe S P (copy_file S fuel cow) Any
  unfolding copy_file
  copy_file-Safe fuel cow h = Safe-then _ _ (act-Safe Ours G _ (inl refl)) (λ from.
      Safe-option from _ _ (search safe_rules) (λ from_fd _.
        Safe-then _ _ (act-Safe Ours G _ (inr h)) (λ to.
          Safe-option to _ _ (search (safe_rules, act-Safe Ours G))
            (λ to_fd _. copy_opened-Safe fuel cow from_fd to_fd h))))

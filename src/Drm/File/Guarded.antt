-- ===== src/Drm/File/Guarded.antt =====
-- The operations on map files change only the files that they are told to.
use unionfs_fuse.Prelude.{ℕ, ◌%◌, ◌/◌, Bool, ◌==◌, inr, true, not, List, length}
use unionfs_fuse.Os.{FilePath, Os, Call}
use unionfs_fuse.Os.Safe.{
  Guards, Safe, Any, Allowed, act-Safe, safe_rules, Safe-then, Safe-if, Safe-option, Safe-bool,
  Safe-fault,
}
use unionfs_fuse.Drm.Codec.{recsz, decode_recs}
use unionfs_fuse.Drm.Mem.{DrmmRec, Bsearch}
use unionfs_fuse.Drm.File.{
  o_rdwr, file_lock, file_unlock, check_sentinel, load_bytes, file_load, save_bytes, file_save,
  create_locked, drmf_create, drmf_destroy, drmf_rename, drmf_open, drmf_close, save_unlock,
  unlock_fail, trunc_loaded, drmf_trunc, last_rec, truncated,
}

module _ {S : Os} {P : S.State → Type 0} (Ours : FilePath → Type 0)
    (G : Guards S (Allowed Ours) P) where
  file_lock-Safe : (fd : ℕ) → Safe S P (file_lock S fd) Any
  unfolding file_lock
  file_lock-Safe fd = search (safe_rules, act-Safe Ours G)

  file_unlock-Safe : (fd : ℕ) → Safe S P (file_unlock S fd) Any
  unfolding file_unlock
  file_unlock-Safe fd = search (safe_rules, act-Safe Ours G)

  create_locked-Safe : (fd n : ℕ) → Safe S P (create_locked S fd n) Any
  unfolding create_locked
  create_locked-Safe fd n = search (safe_rules, act-Safe Ours G, file_unlock-Safe)

  pub drmf_create-Safe : (p : FilePath) (n : ℕ) → Ours p → Safe S P (drmf_create S p n) Any
  unfolding drmf_create
  drmf_create-Safe p n h = Safe-then _ _ (act-Safe Ours G _ (inr h)) (λ fd.
      Safe-option fd _ _ (search safe_rules)
        (λ fd' _. search (safe_rules, act-Safe Ours G, file_lock-Safe, create_locked-Safe) depth 9))

  pub drmf_destroy-Safe : (p : FilePath) → Ours p → Safe S P (drmf_destroy S p) Any
  unfolding drmf_destroy
  drmf_destroy-Safe p h = search (safe_rules, act-Safe Ours G, h)

  pub drmf_rename-Safe : (p q : FilePath) → Ours p → Ours q → Safe S P (drmf_rename S p q) Any
  unfolding drmf_rename
  drmf_rename-Safe p q h k =
      Safe-then _ _ (act-Safe Ours G (Call.rename p q) (h, k)) (λ res. search safe_rules)

  pub drmf_open-Safe : (p : FilePath) → Ours p → Safe S P (drmf_open S p) Any
  unfolding drmf_open
  drmf_open-Safe p h = act-Safe Ours G (Call.open_file p o_rdwr 0) (inr h)

  pub drmf_close-Safe : (fd : ℕ) → Safe S P (drmf_close S fd) Any
  unfolding drmf_close
  drmf_close-Safe fd = search (safe_rules, act-Safe Ours G)

  load_bytes-Safe : (fd n : ℕ) → Safe S P (load_bytes S fd n) Any
  unfolding load_bytes check_sentinel
  load_bytes-Safe fd n = Safe-then _ _ (search safe_rules) (λ sz.
      Safe-option sz _ _ (search safe_rules) (λ bytes _.
        Safe-if (length bytes == n) _ _
          (λ _.
            Safe-option (last_rec (decode_recs (n / recsz) bytes)) _ _ Safe-fault
              (λ _ _. search safe_rules))
          (λ _. search safe_rules)))

  file_load-Safe : (fd : ℕ) (extra : Bool) → Safe S P (file_load S fd extra) Any
  unfolding file_load
  file_load-Safe fd extra = Safe-then _ _ (search safe_rules) (λ fst.
      Safe-option fst _ _ (search safe_rules) (λ st _.
        Safe-if (not (st.st_size % recsz == 0)) _ _ (λ _. search safe_rules)
          (λ _. search (safe_rules, load_bytes-Safe))))

  save_bytes-Safe : (fd : ℕ) (recs : List DrmmRec) → Safe S P (save_bytes S fd recs) Any
  unfolding save_bytes
  save_bytes-Safe fd recs =
      Safe-then _ _ (search (safe_rules, act-Safe Ours G))
        (λ n. Safe-option n _ _ (search safe_rules) (λ m _. search (safe_rules, act-Safe Ours G)))

  save_unlock-Safe : (fd : ℕ) (recs : List DrmmRec) → Safe S P (save_unlock S fd recs) Any
  unfolding save_unlock file_save
  save_unlock-Safe fd recs =
      Safe-then _ _ (Safe-option (last_rec recs) _ _ Safe-fault (λ _ _. save_bytes-Safe fd recs))
        (λ saved. search (safe_rules, file_unlock-Safe))

  pub drmf_trunc-Safe : (bsearch : Bsearch) (fd n : ℕ) → Safe S P (drmf_trunc S bsearch fd n) Any
  unfolding drmf_trunc trunc_loaded unlock_fail
  drmf_trunc-Safe bsearch fd n = Safe-then _ _ (file_lock-Safe fd) (λ locked.
      Safe-bool locked _ _
        (λ _. Safe-then _ _ (file_load-Safe fd true) (λ loaded.
          Safe-option loaded _ _ (search (safe_rules, file_unlock-Safe)) (λ recs _.
            Safe-option (last_rec recs) _ _ Safe-fault
              (λ last _. save_unlock-Safe fd (truncated bsearch n recs last)))))
        (λ _. search safe_rules))

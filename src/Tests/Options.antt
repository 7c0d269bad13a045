-- ===== src/Tests/Options.antt =====
-- Options with one branch whose path is relative.
use unionfs_fuse.Prelude.{
  ◌≡◌, refl, Bool, true, false, not, none, some, [], ◌∷◌, codes, length, ◌==◌,
}
use unionfs_fuse.Os.{FilePath}
use unionfs_fuse.Text.{ends_slash, build_loop, append_element, separate, build_path}
use unionfs_fuse.Union.{BranchEntry}
use unionfs_fuse.Opts.{
  Settings, make_absolute, add_trailing_slash, post_branch, post_branches, unionfs_post_opts,
}

abbrev pub settings_of : BranchEntry → Settings
settings_of b = record {
  uopt = record {
    branches = b ∷ [];
    cow_enabled = true;
    hide_meta_files = true;
    cowolf_enabled = false;
    cowolf_fsize_th = 100;
  };
  statfs_omit_ro = false;
  doexit = false;
  retval = 0;
  chroot = none;
  debug = false;
  dbgpath = none;
  relaxed_permissions = false;
}

-- The branch before, and after.
abbrev pub parsed_branch : BranchEntry
parsed_branch = record { path = codes "a"; path_len = 0; rw = true }

abbrev pub ready_branch : BranchEntry
ready_branch = record { path = codes "/c/a/"; path_len = 5; rw = true }

-- All paths but the empty one can be opened.
abbrev pub opens_all : FilePath → Bool
opens_all p = not (length p == 0)

pub one_ready :
    unionfs_post_opts (some (codes "/c")) opens_all (λ p. true) (settings_of parsed_branch)
    ≡ some (settings_of ready_branch)
unfolding unionfs_post_opts post_branches post_branch make_absolute add_trailing_slash ends_slash
    build_loop append_element separate build_path
one_ready = refl

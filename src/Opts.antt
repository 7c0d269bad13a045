-- ===== src/Opts.antt =====
-- src/opts.c: the options, which are read once at the start.
pub mod Parse
pub mod Post
use unionfs_fuse.Prelude.{
  ℕ, zero, ◌+◌, ◌*◌, ◌-◌, ◌%◌, ◌^◌, min, Bool, true, false, not, ◌&&◌, ◌||◌, Option, none, some,
  List, [], ◌∷◌, ◌++◌, length, drop, map, codes, ltb, leb, ◌==◌, if◌then◌else◌,
}
use unionfs_fuse.Os.{FilePath}
use unionfs_fuse.Text.{slash, pathlen_max, ends_slash, starts_slash, build_path}
use unionfs_fuse.Text.Length.{buffer_path}
use unionfs_fuse.Union.{BranchEntry, Uopt}
use unionfs_fuse.Union.Readdir.{same}

abbrev pub map_some {ℓ} : {A B : Type ℓ} → (A → B) → Option A → Option B
map_some f none = none
map_some f (some a) = some (f a)

-- `uopt_t`: the options that the operations read, and the others.
pub record Settings : Type 0 where
  pub uopt : Uopt
  pub statfs_omit_ro : Bool
  pub doexit : Bool
  pub retval : ℕ
  pub chroot : Option FilePath
  pub debug : Bool
  pub dbgpath : Option FilePath
  pub relaxed_permissions : Bool

-- `DEAFAUT_COWOLF_THSIZE`
abbrev default_cowolf_thsize : ℕ
default_cowolf_thsize = 104857600

pub uopt_init : Settings
uopt_init = record {
  uopt = record {
    branches = [];
    cow_enabled = false;
    hide_meta_files = false;
    cowolf_enabled = false;
    cowolf_fsize_th = default_cowolf_thsize;
  };
  statfs_omit_ro = false;
  doexit = false;
  retval = 0;
  chroot = none;
  debug = false;
  dbgpath = none;
  relaxed_permissions = false;
}

-- All pieces that calls of `strsep` cut off; an empty string is one empty piece.
abbrev first_piece : ℕ → List FilePath → List FilePath
first_piece c [] = (c ∷ []) ∷ []
first_piece c (t ∷ ts) = (c ∷ t) ∷ ts

strsep : ℕ → FilePath → List FilePath
strsep sep [] = [] ∷ []
strsep sep (c ∷ s) = let rest = strsep sep s in if c == sep then [] ∷ rest else first_piece c rest

-- `strcasecmp`, is it 0?
abbrev lower : ℕ → ℕ
lower c = if leb b'A' c && leb c b'Z' then c + 32 else c

strcasecmp : FilePath → FilePath → Bool
strcasecmp a b = same (map lower a) (map lower b)

-- Does the part behind the path make the branch writable?
rw_flag : List FilePath → Bool
rw_flag [] = false
rw_flag (flag ∷ rest) = strcasecmp flag (codes "rw")

-- The entry from the pieces of a branch; the length of its path is set by `unionfs_post_opts`.
entry : List FilePath → List BranchEntry
entry [] = []
entry (path ∷ flags) = record { path = path; path_len = 0; rw = rw_flag flags } ∷ []

add_branch : FilePath → List BranchEntry → List BranchEntry
add_branch branch branches = branches ++ entry (strsep b'=' branch)

-- The loop over the pieces; empty ones are skipped.
add_branches : List FilePath → List BranchEntry → List BranchEntry
add_branches [] branches = branches
add_branches (branch ∷ rest) branches =
    add_branches rest (if length branch == 0 then branches else add_branch branch branches)

-- With the return value: the number of branches, or 0 if there were branches before.
pub parse_branches : FilePath → List BranchEntry → List BranchEntry × ℕ
parse_branches arg (b ∷ rest) = (b ∷ rest, 0)
parse_branches arg [] =
    let branches = add_branches (strsep b':' arg) [] in (branches, length branches)

-- The string from the first occurrence of a byte on.
index : FilePath → ℕ → Option FilePath
index [] c = none
index (d ∷ s) c = let rest = index s c in if d == c then some (d ∷ s) else rest

-- `none`: the process exits.
get_opt_str : FilePath → Option FilePath
get_opt_str arg = elim (index arg b'=') [
  | none ↦ none
  | some str ↦ if ltb (length str) 3 then none else some (drop 1 str)
]

abbrev is_space : ℕ → Bool
is_space c = c == 32 || (leb 9 c && leb c 13)

abbrev is_digit : ℕ → Bool
is_digit c = leb b'0' c && leb c b'9'

skip_spaces : FilePath → FilePath
skip_spaces [] = []
skip_spaces (c ∷ s) = let rest = skip_spaces s in if is_space c then rest else c ∷ s

-- The value of the digits, after `acc`, and what follows them.
read_digits : ℕ → FilePath → ℕ × FilePath
read_digits acc [] = (acc, [])
read_digits acc (c ∷ s) =
    let rest = read_digits (acc * 10 + (c - b'0')) s in if is_digit c then rest else (acc, c ∷ s)

-- At least one digit, or no conversion.
read_number : FilePath → Option (ℕ × FilePath)
read_number [] = none
read_number (c ∷ s) = if is_digit c then some (read_digits 0 (c ∷ s)) else none

-- A number out of range becomes the largest or the smallest of type `long`; it is stored in 64 bits.
abbrev positive : ℕ × FilePath → ℕ × FilePath
positive (n, s) = (min n (2 ^ 63 - 1), s)

abbrev negative : ℕ × FilePath → ℕ × FilePath
negative (n, s) = ((2 ^ 64 - min n (2 ^ 63)) % 2 ^ 64, s)

-- `%ld`
scan_long : FilePath → Option (ℕ × FilePath)
scan_long s = elim (skip_spaces s) [
  | [] ↦ none
  | c ∷ rest ↦
      if c == b'-'
      then map_some negative (read_number rest)
      else if c == b'+'
      then map_some positive (read_number rest)
      else map_some positive (read_number (c ∷ rest))
]

-- The size times 1024 as often as the suffix says, in 64 bits; `none`: the process exits.
scale : ℕ → ℕ → Option ℕ
scale sz suf =
    if suf == b't' || suf == b'T'
    then some (sz * 1024 ^ 4 % 2 ^ 64)
    else if suf == b'g' || suf == b'G'
    then some (sz * 1024 ^ 3 % 2 ^ 64)
    else if suf == b'm' || suf == b'M'
    then some (sz * 1024 ^ 2 % 2 ^ 64)
    else if suf == b'k' || suf == b'K'
    then some (sz * 1024 % 2 ^ 64)
    else none

-- The argument behind `cowolf_file_size=`, which the FUSE library has matched.
set_cowolf_file_size : FilePath → Option ℕ
set_cowolf_file_size arg = elim (scan_long arg) [
  | none ↦ none
  | some (sz, []) ↦ some sz
  | some (sz, suf ∷ rest) ↦ scale sz suf
]

pub set_debug_path : FilePath → Settings → Settings
set_debug_path new_path s = record s { dbgpath = some new_path }

pub set_debug_onoff : Bool → Settings → Settings × Bool
set_debug_onoff false s = (record s { debug = false }, true)
set_debug_onoff true s = elim s.dbgpath [
  | none ↦ (s, false)
  | some path ↦ (record s { debug = true }, true)
]

-- The keys that the FUSE library finds for the arguments; `nonopt` is `FUSE_OPT_KEY_NONOPT`.
pub data Key : Type 0 where
  nonopt key_chroot key_cow key_debug_file key_dirs key_help key_hide_meta_files : Key
  key_hide_metadir key_max_files key_noinitgroups key_relaxed_permissions : Key
  key_statfs_omit_ro key_version key_cowolf key_cowolf_thsize other_key : Key

-- What `parse_branches` leads to: the settings, and the return value.
with_branches : FilePath → Settings → Settings × ℕ
with_branches arg s =
    let (branches, res) = parse_branches arg s.uopt.branches in
    let s' = record s { uopt = record s.uopt { branches = branches } } in
    if ltb 0 res then (s', 0) else (record s' { retval = 1 }, 1)

-- `max_files` tells whether the number of open files could be set as the argument says. `none`:
-- the process exits.
pub unionfs_opt_proc : (FilePath → Bool) → FilePath → Key → Settings → Option (Settings × ℕ)
unionfs_opt_proc max_files arg nonopt s = some (with_branches arg s)
unionfs_opt_proc max_files arg key_dirs s = some (with_branches (drop 5 arg) s)
unionfs_opt_proc max_files arg key_chroot s =
    map_some (λ str. (record s { chroot = some str }, 0)) (get_opt_str arg)
unionfs_opt_proc max_files arg key_cow s =
    some (record s { uopt = record s.uopt { cow_enabled = true } }, 0)
unionfs_opt_proc max_files arg key_debug_file s =
    map_some (λ str. (record s { dbgpath = some str; debug = true }, 0)) (get_opt_str arg)
unionfs_opt_proc max_files arg key_help s = some (record s { doexit = true }, 0)
unionfs_opt_proc max_files arg key_hide_meta_files s =
    some (record s { uopt = record s.uopt { hide_meta_files = true } }, 0)
unionfs_opt_proc max_files arg key_hide_metadir s =
    some (record s { uopt = record s.uopt { hide_meta_files = true } }, 0)
unionfs_opt_proc max_files arg key_max_files s = if max_files arg then some (s, 0) else none
unionfs_opt_proc max_files arg key_noinitgroups s = some (s, 0)
unionfs_opt_proc max_files arg key_statfs_omit_ro s = some (record s { statfs_omit_ro = true }, 0)
unionfs_opt_proc max_files arg key_relaxed_permissions s =
    some (record s { relaxed_permissions = true }, 0)
unionfs_opt_proc max_files arg key_version s = some (record s { doexit = true }, 1)
unionfs_opt_proc max_files arg key_cowolf s =
    some (record s { uopt = record s.uopt { cowolf_enabled = true } }, 0)
unionfs_opt_proc max_files arg key_cowolf_thsize s =
    map_some (λ sz. (record s { uopt = record s.uopt { cowolf_fsize_th = sz } }, 0))
      (set_cowolf_file_size (drop 17 arg))
unionfs_opt_proc max_files arg other_key s = some (record s { retval = 1 }, 1)

-- The working directory, or a failure of `getcwd`. `none` is a null pointer.
unfoldable pub make_absolute : Option FilePath → FilePath → Option FilePath
make_absolute getcwd relpath = if starts_slash relpath then some relpath else elim getcwd [
  | none ↦ none
  | some [] ↦ none
  | some (c ∷ cwd) ↦
      if ltb pathlen_max (length (c ∷ cwd) + length relpath + 2)
      then none
      else some ((c ∷ cwd) ++ (slash ∷ relpath))
]

-- `none`: the byte before an empty string is read.
unfoldable pub add_trailing_slash : FilePath → Option FilePath
add_trailing_slash [] = none
add_trailing_slash (c ∷ path) =
    if ends_slash (c ∷ path) then some (c ∷ path) else some ((c ∷ path) ++ (slash ∷ []))

-- The elements of the path that is opened.
abbrev pub in_chroot : Option FilePath → FilePath → List FilePath
in_chroot none path = path ∷ []
in_chroot (some root) path = root ∷ path ∷ []

abbrev pub absolute : Option FilePath → Option FilePath → FilePath → Option FilePath
absolute getcwd none path = make_absolute getcwd path
absolute getcwd (some root) path = some path

-- `opens` tells whether a path can be opened. `none`: the process exits, or a null pointer or a byte
-- outside of a string is read.
module _ (getcwd : Option FilePath) (opens : FilePath → Bool) where
  unfoldable pub post_branch : Option FilePath → BranchEntry → Option BranchEntry
  post_branch chroot b = elim (absolute getcwd chroot b.path) [
    | none ↦ none
    | some abspath ↦ elim (add_trailing_slash abspath) [
      | none ↦ none
      | some path ↦
          -- `BUILD_PATH`, whose result is not tested: what is in the buffer.
          let opened = buffer_path (build_path pathlen_max (in_chroot chroot path)) in
          if opens opened then some (record b { path = path; path_len = length opened }) else none
    ]
  ]

  unfoldable pub post_branches : Option FilePath → List BranchEntry → Option (List BranchEntry)
  post_branches chroot [] = some []
  post_branches chroot (b ∷ rest) = elim (post_branch chroot b) [
    | none ↦ none
    | some b' ↦ map_some (λ bs. b' ∷ bs) (post_branches chroot rest)
  ]

  -- `chdir` tells whether the process may change to a directory.
  unfoldable pub unionfs_post_opts : (FilePath → Bool) → Settings → Option Settings
  unionfs_post_opts chdir s =
      let set : List BranchEntry → Settings =
        λ bs. record s { uopt = record s.uopt { branches = bs } } in
      elim s.chroot [
        | none ↦ map_some set (post_branches none s.uopt.branches)
        | some root ↦
            if chdir root then map_some set (post_branches (some root) s.uopt.branches) else none
      ]

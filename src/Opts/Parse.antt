-- ===== src/Opts/Parse.antt =====
-- `parse_branches` reads what a list of branches is written as.
use mathlib.Core.List.{append_assoc, append-nil}
use unionfs_fuse.Prelude.{
  ℕ, suc, ◌≡◌, refl, sym, ap, ◌∙◌, Bool, true, false, List, [], ◌∷◌, ◌++◌, length, length-append,
  map, codes, ◌==◌, arith,
}
use unionfs_fuse.Os.{FilePath}
use unionfs_fuse.Union.{BranchEntry}
use unionfs_fuse.Opts.{strsep, strcasecmp, rw_flag, entry, add_branch, add_branches, parse_branches}

-- The byte does not occur.
abbrev pub Lacks : ℕ → FilePath → Type 0
Lacks c [] = Unit
Lacks c (d ∷ s) = ((d == c) ≡ false) × Lacks c s

Lacks-append : (c : ℕ) (s t : FilePath) → Lacks c s → Lacks c t → Lacks c (s ++ t)
Lacks-append c [] t h k = k
Lacks-append c (d ∷ s) t h k = (h.0, Lacks-append c s t h.1 k)

strsep_one : (sep : ℕ) (s : FilePath) → Lacks sep s → strsep sep s ≡ s ∷ []
unfolding strsep
strsep_one sep [] h = refl
strsep_one sep (c ∷ s) h = rw (h.0, strsep_one sep s h.1) refl

strsep-append :
    (sep : ℕ) (s t : FilePath) → Lacks sep s → strsep sep (s ++ (sep ∷ t)) ≡ s ∷ strsep sep t
unfolding strsep
strsep-append sep [] t h = ground arith
strsep-append sep (c ∷ s) t h = rw (h.0, strsep-append sep s t h.1) refl

-- A branch is written with its flag.
abbrev flag : Bool → FilePath
flag true = codes "=RW"
flag false = codes "=RO"

abbrev branch_text : FilePath × Bool → FilePath
branch_text (path, rw) = path ++ flag rw

-- The branches with colons between them.
abbrev pub branches_text : List (FilePath × Bool) → FilePath
branches_text [] = []
branches_text (b ∷ []) = branch_text b
branches_text (b ∷ c ∷ bs) = branch_text b ++ (b':' ∷ branches_text (c ∷ bs))

abbrev pub entry_of : FilePath × Bool → BranchEntry
entry_of (path, rw) = record { path = path; path_len = 0; rw = rw }

-- A path that can stand in the argument: not empty, with no colon and no equals sign.
abbrev pub IsPlain : FilePath × Bool → Type 0
IsPlain (path, rw) = Lacks b':' path × Lacks b'=' path × ((length path == 0) ≡ false)

abbrev pub AllPlain : List (FilePath × Bool) → Type 0
AllPlain [] = Unit
AllPlain (b ∷ bs) = IsPlain b × AllPlain bs

flag-Lacks : (rw : Bool) → Lacks b':' (flag rw)
flag-Lacks true = (refl, (refl, (refl, tt)))
flag-Lacks false = (refl, (refl, (refl, tt)))

strsep-branches_text :
    (b : FilePath × Bool) (bs : List (FilePath × Bool))
    → AllPlain (b ∷ bs)
    → strsep b':' (branches_text (b ∷ bs)) ≡ map branch_text (b ∷ bs)
strsep-branches_text b [] h =
    strsep_one b':' (branch_text b) (Lacks-append b':' b.0 (flag b.1) h.0.0 (flag-Lacks b.1))
strsep-branches_text b (c ∷ bs) h =
    strsep-append b':' (branch_text b) (branches_text (c ∷ bs))
      (Lacks-append b':' b.0 (flag b.1) h.0.0 (flag-Lacks b.1))
    ∙ ap (λ ts. branch_text b ∷ ts) (strsep-branches_text c bs h.1)

add_branch-text :
    (b : FilePath × Bool) (acc : List BranchEntry)
    → IsPlain b
    → add_branch (branch_text b) acc ≡ acc ++ (entry_of b ∷ [])
unfolding add_branch entry rw_flag strcasecmp strsep
add_branch-text (path, true) acc h = rw (strsep-append b'=' path (codes "RW") h.1) refl
add_branch-text (path, false) acc h = rw (strsep-append b'=' path (codes "RO") h.1) refl

branch_text_full : (b : FilePath × Bool) → IsPlain b → (length (branch_text b) == 0) ≡ false
branch_text_full (path, rw) h = ground (arith, length-append path (flag rw), h.2)

add_branches_step :
    (text : FilePath) (rest : List FilePath) (acc : List BranchEntry)
    → (length text == 0) ≡ false
    → add_branches (text ∷ rest) acc ≡ add_branches rest (add_branch text acc)
unfolding add_branches
add_branches_step text rest acc e = rw e refl

add_branches-texts :
    (bs : List (FilePath × Bool)) (acc : List BranchEntry)
    → AllPlain bs
    → add_branches (map branch_text bs) acc ≡ acc ++ map entry_of bs
unfolding add_branches
add_branches-texts [] acc h = sym (append-nil acc)
add_branches-texts (b ∷ bs) acc h =
    add_branches_step (branch_text b) (map branch_text bs) acc (branch_text_full b h.0)
    ∙ ap (add_branches (map branch_text bs)) (add_branch-text b acc h.0)
    ∙ add_branches-texts bs (acc ++ (entry_of b ∷ [])) h.1
    ∙ append_assoc acc (entry_of b ∷ []) (map entry_of bs)

length-map_entry : (bs : List (FilePath × Bool)) → length (map entry_of bs) ≡ length bs
length-map_entry [] = refl
length-map_entry (b ∷ bs) = ap suc (length-map_entry bs)

-- Branches whose paths are not empty and hold no colon and no equals sign, each written with `=RW`
-- or `=RO` and joined by colons, are parsed into those branches in their order, and their number is
-- returned.
pub parse_branches-branches_text :
    (bs : List (FilePath × Bool))
    → AllPlain bs
    → parse_branches (branches_text bs) [] ≡ (map entry_of bs, length bs)
unfolding parse_branches strsep add_branches
parse_branches-branches_text [] h = refl
parse_branches-branches_text (b ∷ bs) h =
    let parsed : add_branches (strsep b':' (branches_text (b ∷ bs))) [] ≡ map entry_of (b ∷ bs) =
      ap (λ ts. add_branches ts []) (strsep-branches_text b bs h)
      ∙ add_branches-texts (b ∷ bs) [] h in
    ap (λ es. (es, length es)) parsed
    ∙ ap (λ n. (map entry_of (b ∷ bs), suc n)) (length-map_entry bs)

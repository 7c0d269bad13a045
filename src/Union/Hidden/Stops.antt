-- ===== src/Union/Hidden/Stops.antt =====
-- The loops of `path_hidden` and `path_create` stop at every directory of the path.
use mathlib.Core.List.{append-nil, append_assoc}
use unionfs_fuse.Prelude.{
  ℕ, ◌≡◌, refl, sym, ap, ◌∙◌, Bool, true, false, not, ◌&&◌, List, [], ◌∷◌, ◌++◌, ◌==◌, arith,
}
use unionfs_fuse.Os.{FilePath}
use unionfs_fuse.Text.{slash, skip_slashes}
use unionfs_fuse.Union.Hidden.{walk_from, leading_slashes, stops}

abbrev no_slash : FilePath → Bool
no_slash [] = true
no_slash (c ∷ s) = not (c == slash) && no_slash s

-- At least one byte, and no slash.
abbrev pub is_name : FilePath → Bool
is_name [] = false
is_name (c ∷ s) = not (c == slash) && no_slash s

abbrev pub are_names : List FilePath → Bool
are_names [] = true
are_names (n ∷ ns) = is_name n && are_names ns

-- The names, each with a slash before it.
abbrev pub joined : List FilePath → FilePath
joined [] = []
joined (n ∷ ns) = slash ∷ n ++ joined ns

-- The path of each directory on the way, and the whole.
abbrev pub prefixes : FilePath → List FilePath → List FilePath
prefixes before [] = []
prefixes before (n ∷ ns) = let p = before ++ (slash ∷ n) in p ∷ prefixes p ns

walk_from_name :
    (n w s : FilePath) → no_slash n ≡ true → walk_from false w (n ++ s) ≡ walk_from false (w ++ n) s
unfolding walk_from
walk_from_name [] w s h = ap (λ v. walk_from false v s) (sym (append-nil w))
walk_from_name (c ∷ n) w s h =
    let f : (c == slash) ≡ false = ground (arith, h) in
    let ih = walk_from_name n (w ++ (c ∷ [])) s (ground (arith, h)) in
    rw f (ih ∙ ap (λ v. walk_from false v s) (append_assoc w (c ∷ []) n))

-- After a slash.
walk_from_gap :
    (c : ℕ) (n w s : FilePath)
    → is_name (c ∷ n) ≡ true
    → walk_from true w (c ∷ n ++ s) ≡ walk_from false (w ++ (c ∷ n)) s
unfolding walk_from
walk_from_gap c n w s h =
    let f : (c == slash) ≡ false = ground (arith, h) in
    rw f (
      walk_from_name n (w ++ (c ∷ [])) s (ground (arith, h))
      ∙ ap (λ v. walk_from false v s) (append_assoc w (c ∷ []) n))

walk_from-joined :
    (names : List FilePath) (w : FilePath)
    → are_names names ≡ true
    → walk_from false w (joined names) ≡ w ∷ prefixes w names
unfolding walk_from
walk_from-joined [] w h = refl
walk_from-joined ([] ∷ names) w h = cc
walk_from-joined ((c ∷ n) ∷ names) w h =
    ap (λ l. w ∷ l)
      (walk_from_gap c n (w ++ (slash ∷ [])) (joined names) (ground (arith, h))
        ∙ ap (λ v. walk_from false v (joined names)) (append_assoc w (slash ∷ []) (c ∷ n))
        ∙ walk_from-joined names (w ++ (slash ∷ c ∷ n)) (ground (arith, h)))

skip_slashes_name : (c : ℕ) (s : FilePath) → (c == slash) ≡ false → skip_slashes (c ∷ s) ≡ c ∷ s
unfolding skip_slashes
skip_slashes_name c s f = rw f refl

leading_slashes_name : (c : ℕ) (s : FilePath) → (c == slash) ≡ false → leading_slashes (c ∷ s) ≡ []
unfolding leading_slashes
leading_slashes_name c s f = rw f refl

-- The slash before the first name is skipped.
stops_first :
    (before : FilePath) (c : ℕ) (s : FilePath)
    → (c == slash) ≡ false
    → stops before (slash ∷ c ∷ s) ≡ walk_from false (before ++ (slash ∷ [])) (c ∷ s)
unfolding stops leading_slashes skip_slashes
stops_first before c s f =
    ap (λ l. walk_from false (before ++ (slash ∷ l)) (skip_slashes (c ∷ s)))
      (leading_slashes_name c s f)
    ∙ ap (walk_from false (before ++ (slash ∷ []))) (skip_slashes_name c s f)

-- Where the walk starts at a slash with names behind it, each with one slash before it, the loops of
-- `path_hidden` and `path_create` stop at every directory of the path, from the first one on, and
-- then at the whole path, and nowhere else.
pub stops-prefixes :
    (before name : FilePath) (names : List FilePath)
    → are_names (name ∷ names) ≡ true
    → stops before (joined (name ∷ names)) ≡ prefixes before (name ∷ names)
stops-prefixes before [] names h = cc
stops-prefixes before (c ∷ n) names h =
    stops_first before c (n ++ joined names) (ground (arith, h))
    ∙ walk_from_name (c ∷ n) (before ++ (slash ∷ [])) (joined names) (ground (arith, h))
    ∙ ap (λ v. walk_from false v (joined names)) (append_assoc before (slash ∷ []) (c ∷ n))
    ∙ walk_from-joined names (before ++ (slash ∷ c ∷ n)) (ground (arith, h))

-- ===== src/Union/Copy/Fuel.antt =====
-- The loop of `copy_file` ends.
use unionfs_fuse.Prelude.{
  ℕ, zero, suc, ◌≤◌, ◌<◌, ◌≡◌, refl, Bool, true, false, Option, none, some, List, [], ◌∷◌, length,
  arith,
}
use unionfs_fuse.Os.{Os, Sys, ok, err, Call, World, settle}
use unionfs_fuse.Os.Monad.{M, ◌>>=◌}
use unionfs_fuse.Union.Copy.{maxbsize, is_count, copy_chunk, copy_loop}

-- No fault.
abbrev pub Returns : {A : Type 0} → Option A → Type 0
Returns none = ⊥
Returns (some a) = Unit

-- How many bytes `from` still gives: a `read` of some bytes leaves less, and a `write` to `to` adds
-- none.
pub record Drains (S : Os) (from to : ℕ) (remaining : S.State → ℕ) : Type 0 where
  pub read :
      (s : S.State) (c : ℕ) (bytes : List ℕ)
      → (S.read from maxbsize s).0 ≡ ok (c ∷ bytes)
      → remaining (S.read from maxbsize s).1 < remaining s
  pub write :
      (s : S.State) (bytes : List ℕ) → remaining (S.act (Call.write to bytes) s).1 ≤ remaining s

settle-Returns :
    {S : Os} {A B : Type 0} (r : Sys A) (s : S.State) (w : World S) (k : Option A → M (World S) B)
    → ((w1 : World S) → w1.os ≡ s → Returns (k none w1))
    → ((a : A) (w1 : World S) → r ≡ ok a → w1.os ≡ s → Returns (k (some a) w1))
    → Returns (elim (settle S r s w) [ none ↦ none | some (a, w1) ↦ k a w1 ])
settle-Returns (ok a) s w k h g = g a _ refl refl
settle-Returns (err e) s w k h g = h _ refl

bool-Returns :
    {S : Os} {B : Type 0} (b : Bool) (m n : M (World S) B) (w : World S)
    → Returns (m w)
    → Returns (n w)
    → Returns ((elim b as (λ x. M (World S) B) [ false ↦ m | true ↦ n ]) w)
bool-Returns false m n w h g = h
bool-Returns true m n w h g = g

module _ {S : Os} (from to : ℕ) (remaining : S.State → ℕ) (D : Drains S from to remaining) where
  -- The rest of the loop need only return where no more bytes remain.
  chunk-Returns :
      (again : M (World S) Bool) (c : ℕ) (bytes : List ℕ) (w : World S)
      → ((w1 : World S) → remaining w1.os ≤ remaining w.os → Returns (again w1))
      → Returns (copy_chunk S to again (c ∷ bytes) w)
  unfolding copy_chunk ◌>>=◌
  chunk-Returns again c bytes w h =
      let less = D.write w.os (c ∷ bytes) in
      settle-Returns (S.act (Call.write to (c ∷ bytes)) w.os).0 _ w _ (λ w1 e. tt)
        (λ n w1 e f.
          bool-Returns (is_count (some n) (length (c ∷ bytes))) _ _ w1 tt (h w1 (rw f less)))

  read-Returns :
      (fuel : ℕ) (bytes : List ℕ) (w w1 : World S)
      → ((w2 : World S) → remaining w2.os < fuel → Returns (copy_loop S fuel from to w2))
      → remaining w.os < suc fuel
      → (S.read from maxbsize w.os).0 ≡ ok bytes
      → w1.os ≡ (S.read from maxbsize w.os).1
      → Returns (copy_chunk S to (copy_loop S fuel from to) bytes w1)
  unfolding copy_chunk
  read-Returns fuel [] w w1 h l e f = tt
  read-Returns fuel (c ∷ bytes) w w1 h l e f =
      let less = D.read w.os c bytes e in
      let less1 : remaining w1.os < remaining w.os = rw f less in
      chunk-Returns (copy_loop S fuel from to) c bytes w1
        (λ w2 g. h w2 (omega (arith, g, less1, l)))

  -- If a `read` of some bytes leaves fewer bytes to read and a `write` adds none, the loop of
  -- `copy_file` returns on fuel that is greater than the number of bytes that remain.
  pub copy_loop-Returns :
      (fuel : ℕ) (w : World S) → remaining w.os < fuel → Returns (copy_loop S fuel from to w)
  unfolding copy_loop ◌>>=◌
  copy_loop-Returns zero w h = absurd (omega arith)
  copy_loop-Returns (suc fuel) w h =
      settle-Returns (S.read from maxbsize w.os).0 _ w _ (λ w1 e. tt)
        (λ bytes w1 e f. read-Returns fuel bytes w w1 (copy_loop-Returns fuel) h e f)

-- ===== src/Prelude/Int.antt =====
-- Return codes and `errno`: C integers of both signs.
use Prim.Native.Nat.{ℕ, zero, suc}
use mathlib.Core.Bool.{Bool, false}
use unionfs_fuse.Prelude.Tests.{◌==◌}

-- `negsuc n` is -(n + 1).
pub data ℤ : Type 0 where
  pos : ℕ → ℤ
  negsuc : ℕ → ℤ

abbrev pub of_neg : ℕ → ℤ
of_neg zero = pos 0
of_neg (suc n) = negsuc n

-- `-a`
abbrev pub neg : ℤ → ℤ
neg (pos n) = of_neg n
neg (negsuc n) = pos (suc n)

-- Is the integer the number `n`?
abbrev pub is_code : ℤ → ℕ → Bool
is_code (pos m) n = m == n
is_code (negsuc m) n = false

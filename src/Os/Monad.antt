-- ===== src/Os/Monad.antt =====
-- State passing with faults: the monad in which the C functions of src/ are written.

use unionfs_fuse.Prelude.{Option, none, some, ◌≡◌, refl}

-- `none` is undefined behaviour, such as an access outside an array.
abbrev pub M : Type 0 → Type 0 → Type 0
M W A = W → Option (A × W)

abbrev pub pure : {W A : Type 0} → A → M W A
pure a w = some (a, w)

abbrev pub fault : {W A : Type 0} → M W A
fault w = none

infixl 5 ◌>>=◌ ◌>>◌
unfoldable pub ◌>>=◌ : {W A B : Type 0} → M W A → (A → M W B) → M W B
◌>>=◌ m f w = elim (m w) [ none ↦ none | some (a, w') ↦ f a w' ]

abbrev pub ◌>>◌ : {W A B : Type 0} → M W A → M W B → M W B
m >> k = m >>= λ _. k

-- The first step of a run, if it ends.
pub bind_run :
    {W A B : Type 0} (m : M W A) (k : A → M W B) (w w1 : W) (a : A)
    → m w ≡ some (a, w1)
    → (m >>= k) w ≡ k a w1
unfolding ◌>>=◌
bind_run m k w w1 a e = rw (◌>>=◌, e) refl

-- ===== src/Os/Safe.antt =====
-- What a computation keeps true of the system, if it makes no call but those that are allowed.
use Prim.Native.Nat.{bit_and}
use unionfs_fuse.Prelude.{
  ◌≡◌, refl, Bool, true, false, ◌⊎◌, ◌==◌, Option, none, some, ℕ, if◌then◌else◌,
}
use unionfs_fuse.Prelude.Int.{ℤ}
use unionfs_fuse.Os.{
  FilePath, Os, Sys, ok, err, Call, World, act, lstat, stat, fstat, readlink, opendir, pread,
  malloc, read, mmap, settle, ask, get_errno, set_errno,
}
use unionfs_fuse.Os.Monad.{M, pure, fault, ◌>>=◌}

-- The allowed calls keep `P`, and so does `read`.
pub record Guards (S : Os) (Allowed : Call → Type 0) (P : S.State → Type 0) : Type 0 where
  pub act : (c : Call) (s : S.State) → Allowed c → P s → P (S.act c s).1
  pub read : (fd n : ℕ) (s : S.State) → P s → P (S.read fd n s).1

abbrev pub After :
    (S : Os) (P : S.State → Type 0) {A : Type 0} → (A → Type 0) → Option (A × World S) → Type 0
After S P Q none = Unit
After S P Q (some (a, w)) = P w.os × Q a

-- The computation keeps `P`, and its result has `Q` if it ends without a fault.
pub record Safe (S : Os) (P : S.State → Type 0) {A : Type 0} (m : M (World S) A) (Q : A → Type 0)
    : Type 0 where
  pub at : (w : World S) → P w.os → After S P Q (m w)

abbrev pub Any : {A : Type 0} → A → Type 0
Any a = Unit

forget-After :
    {S : Os} (P : S.State → Type 0) {A : Type 0} (Q : A → Type 0) (o : Option (A × World S))
    → After S P Q o
    → After S P Any o
forget-After P Q none h = tt
forget-After P Q (some (a, w)) h = (h.0, tt)

module _ {S : Os} {P : S.State → Type 0} where
  pub Safe-pure : {A : Type 0} {Q : A → Type 0} (a : A) → Q a → Safe S P (pure a) Q
  Safe-pure a q = record { at = λ w p. (p, q) }

  pub Safe-fault : {A : Type 0} {Q : A → Type 0} → Safe S P (fault {A = A}) Q
  Safe-fault = record { at = λ w p. tt }

  After-bind :
      {A B : Type 0} {Q : A → Type 0} {R : B → Type 0} (f : A → M (World S) B)
      (o : Option (A × World S))
      → ((a : A) → Q a → Safe S P (f a) R)
      → After S P Q o
      → After S P R (elim o [ none ↦ none | some (a, w') ↦ f a w' ])
  After-bind f none k h = tt
  After-bind f (some (a, w)) k h = (k a h.1).at w h.0

  pub Safe-bind :
      {A B : Type 0} {Q : A → Type 0} {R : B → Type 0} (m : M (World S) A) (f : A → M (World S) B)
      → Safe S P m Q
      → ((a : A) → Q a → Safe S P (f a) R)
      → Safe S P (m >>= f) R
  unfolding ◌>>=◌
  Safe-bind m f h k = record { at = λ w p. After-bind f (m w) k (h.at w p) }

  -- The rule for a step of whose result nothing is needed.
  pub Safe-then :
      {A B : Type 0} {R : B → Type 0} (m : M (World S) A) (f : A → M (World S) B)
      → Safe S P m Any
      → ((a : A) → Safe S P (f a) R)
      → Safe S P (m >>= f) R
  Safe-then m f h k = Safe-bind m f h (λ a _. k a)

  pub Safe-forget :
      {A : Type 0} {Q : A → Type 0} (m : M (World S) A) → Safe S P m Q → Safe S P m Any
  Safe-forget {A} {Q} m h = record { at = λ w p. forget-After P Q (m w) (h.at w p) }

  pub Safe-if :
      {A : Type 0} {Q : A → Type 0} (b : Bool) (m n : M (World S) A)
      → (b ≡ true → Safe S P m Q)
      → (b ≡ false → Safe S P n Q)
      → Safe S P (if b then m else n) Q
  Safe-if true m n h k = h refl
  Safe-if false m n h k = k refl

module _ {S : Os} (P : S.State → Type 0) {A B : Type 0} (Q : A → Type 0) (R : B → Type 0) where
  runs-After :
      (f : A → M (World S) B) (o : Option (A × World S))
      → After S P Q o
      → ((a : A) (w' : World S) → o ≡ some (a, w') → P w'.os → Q a → After S P R (f a w'))
      → After S P R (elim o [ none ↦ none | some (a, w') ↦ f a w' ])
  runs-After f none h k = tt
  runs-After f (some (a, w')) h k = k a w' refl h.0 h.1

  -- The rule for one run.
  pub bind-After :
      (m : M (World S) A) (f : A → M (World S) B) (w : World S)
      → After S P Q (m w)
      → ((a : A) (w' : World S) → m w ≡ some (a, w') → P w'.os → Q a → After S P R (f a w'))
      → After S P R ((m >>= f) w)
  unfolding ◌>>=◌
  bind-After m f w h k = runs-After f (m w) h k

module _ {S : Os} {P : S.State → Type 0} {B : Type 0} {Q : B → Type 0} where
  pub Safe-option :
      {A : Type 0} (o : Option A) (m : M (World S) B) (k : A → M (World S) B)
      → Safe S P m Q
      → ((a : A) → o ≡ some a → Safe S P (k a) Q)
      → Safe S P (elim o [ none ↦ m | some a ↦ k a ]) Q
  Safe-option none m k h g = h
  Safe-option (some a) m k h g = g a refl

  pub Safe-bool :
      (b : Bool) (m n : M (World S) B)
      → (b ≡ true → Safe S P m Q)
      → (b ≡ false → Safe S P n Q)
      → Safe S P (elim b [ true ↦ m | false ↦ n ]) Q
  Safe-bool true m n h g = h refl
  Safe-bool false m n h g = g refl

settled :
    {S : Os} (P : S.State → Type 0) {A : Type 0} (r : Sys A) (s : S.State) (w : World S)
    → P s
    → After S P {A = Option A} Any (settle S r s w)
settled P (ok a) s w p = (p, tt)
settled P (err e) s w p = (p, tt)

module _ {S : Os} {P : S.State → Type 0} where
  -- A call that only reads.
  pub reads-Safe :
      {A : Type 0} (f : S.State → Sys A)
      → Safe S P {A = Option A} (λ w. settle S (f w.os) w.os w) Any
  reads-Safe f = record { at = λ w p. settled P (f w.os) w.os w p }

  pub lstat-Safe : (p : FilePath) → Safe S P (lstat S p) Any
  lstat-Safe p = reads-Safe (S.lstat p)

  pub stat-Safe : (p : FilePath) → Safe S P (stat S p) Any
  stat-Safe p = reads-Safe (S.stat p)

  pub fstat-Safe : (fd : ℕ) → Safe S P (fstat S fd) Any
  fstat-Safe fd = reads-Safe (S.fstat fd)

  pub readlink-Safe : (p : FilePath) (n : ℕ) → Safe S P (readlink S p n) Any
  readlink-Safe p n = reads-Safe (S.readlink p n)

  pub opendir-Safe : (p : FilePath) → Safe S P (opendir S p) Any
  opendir-Safe p = reads-Safe (S.opendir p)

  pub pread-Safe : (fd n off : ℕ) → Safe S P (pread S fd n off) Any
  pread-Safe fd n off = reads-Safe (S.pread fd n off)

  pub mmap-Safe : (fd n : ℕ) → Safe S P (mmap S fd n) Any
  mmap-Safe fd n = reads-Safe (S.mmap fd n)

  pub malloc-Safe : (n : ℕ) → Safe S P (malloc S n) Any
  malloc-Safe n = record { at = λ w p. (p, tt) }

  pub ask-Safe : {A : Type 0} (f : S.State → A) → Safe S P (ask S f) Any
  ask-Safe f = record { at = λ w p. (p, tt) }

  pub get_errno-Safe : Safe S P (get_errno S) Any
  get_errno-Safe = record { at = λ w p. (p, tt) }

  pub set_errno-Safe : (e : ℤ) → Safe S P (set_errno S e) Any
  set_errno-Safe e = record { at = λ w p. (p, tt) }

-- Does `open` with these flags leave the file as it is?
abbrev pub only_reads : ℕ → Bool
only_reads flags = bit_and flags 579 == 0

-- The calls that change something only at paths with `Ours`. Calls on descriptors are allowed: the
-- descriptor is that of a file that was opened before.
abbrev pub Allowed : (FilePath → Type 0) → Call → Type 0
Allowed Ours (Call.mkdir p mode) = Ours p
Allowed Ours (Call.open_file p flags mode) = (only_reads flags ≡ true) ⊎ Ours p
Allowed Ours (Call.creat p mode) = Ours p
Allowed Ours (Call.unlink p) = Ours p
Allowed Ours (Call.rmdir p) = Ours p
Allowed Ours (Call.rename from to) = Ours from × Ours to
Allowed Ours (Call.link from to) = Ours from × Ours to
Allowed Ours (Call.symlink target p) = Ours p
Allowed Ours (Call.chmod p mode) = Ours p
Allowed Ours (Call.chown p uid gid) = Ours p
Allowed Ours (Call.lchown p uid gid) = Ours p
Allowed Ours (Call.utime p atime mtime) = Ours p
Allowed Ours (Call.utimensat p ts) = Ours p
Allowed Ours (Call.truncate p size) = Ours p
Allowed Ours (Call.mknod p mode rdev) = Ours p
Allowed Ours (Call.mkfifo p mode) = Ours p
Allowed Ours (Call.setxattr p name value flags) = Ours p
Allowed Ours (Call.removexattr p name) = Ours p
Allowed Ours (Call.fchmod fd mode) = Unit
Allowed Ours (Call.close fd) = Unit
Allowed Ours (Call.ftruncate fd size) = Unit
Allowed Ours (Call.flock fd operation) = Unit
Allowed Ours (Call.pwrite fd bytes offset) = Unit
Allowed Ours (Call.dup fd) = Unit
Allowed Ours (Call.fsync fd) = Unit
Allowed Ours (Call.fdatasync fd) = Unit
Allowed Ours (Call.write fd bytes) = Unit
Allowed Ours (Call.munmap size) = Unit

module _ {S : Os} {P : S.State → Type 0} (Ours : FilePath → Type 0)
    (G : Guards S (Allowed Ours) P) where
  pub act-Safe : (c : Call) → Allowed Ours c → Safe S P (act S c) Any
  act-Safe c h = record {
    at = λ w p. settled P (S.act c w.os).0 (S.act c w.os).1 w (G.act c w.os h p);
  }

  pub read-Safe : (fd n : ℕ) → Safe S P (read S fd n) Any
  read-Safe fd n = record {
    at = λ w p. settled P (S.read fd n w.os).0 (S.read fd n w.os).1 w (G.read fd n w.os p);
  }

pub ruleset safe_rules = (
  tt, Safe-option, Safe-bool, Safe-pure, Safe-fault, Safe-then, Safe-if, lstat-Safe, stat-Safe,
  fstat-Safe, readlink-Safe, opendir-Safe, pread-Safe, mmap-Safe, malloc-Safe, ask-Safe,
  get_errno-Safe, set_errno-Safe,
)

-- ===== src/Usyslog/Invariant.antt =====
-- What holds of the threads and the lists between two steps.
use unionfs_fuse.Prelude.{
  ℕ, zero, suc, ◌+◌, ◌≤◌, ◌≡◌, refl, sym, ap, ◌∙◌, Bool, true, false, inl, inr, Option, none, some,
  List, [], ◌∷◌, ◌++◌, length, map, ◌==◌, ==_iff, Bool-cases, arith, if◌then◌else◌,
}
use unionfs_fuse.Usyslog.{Ulogs, max_syslog_messages}
use unionfs_fuse.Usyslog.Chain.{out, distinct}
use unionfs_fuse.Usyslog.Represents.{Represents}
use unionfs_fuse.Usyslog.System.{
  Writer, filling, Reader, waiting, starting, looping, sleeping, printing, printed, moved, System,
  Result, blocked, crash, undefined, next, stored,
}

abbrev pub first : List ℕ → Option ℕ
first [] = none
first (x ∷ l) = some x

abbrev pub rest : List ℕ → List ℕ
rest [] = []
rest (x ∷ l) = l

abbrev pub HeadIs : Option ℕ → List ℕ → Type 0
HeadIs none used = Unit
HeadIs (some e) used = first used ≡ some e

-- The lock is held by a thread in `usyslog`.
abbrev pub by_writer : Option ℕ → Bool
by_writer none = false
by_writer (some zero) = false
by_writer (some (suc t)) = true

-- Which entry the thread of `syslog_thread` is at.
abbrev pub AtEntry : Reader → List ℕ → (ℕ → Ulogs) → Type 0
AtEntry (waiting h) used heap = Unit
AtEntry (starting h) used heap = Unit
AtEntry (looping h p) used heap = HeadIs p used
AtEntry sleeping used heap = Unit
AtEntry (printing e) used heap = (first used ≡ some e) × ((heap e).lock ≡ some 0)
AtEntry (printed e) used heap = (first used ≡ some e) × ((heap e).lock ≡ some 0)
AtEntry (moved e p) used heap = HeadIs p used × ((heap e).lock ≡ some 0)

-- The entries whose message was not passed to `syslog` yet.
abbrev pub pending : Reader → List ℕ → List ℕ
pending (waiting h) used = used
pending (starting h) used = used
pending (looping h p) used = used
pending sleeping used = used
pending (printing e) used = used
pending (printed e) used = rest used
pending (moved e p) used = used

-- A thread that fills an entry holds its lock.
abbrev pub Fills : (ℕ → Writer) → List ℕ → (ℕ → Ulogs) → (ℕ → List ℕ) → Type 0
Fills writer used heap promise =
    (t e q : ℕ) (x : List ℕ)
    → writer t ≡ filling e q x
    → (out e used ≡ false) × ((heap e).lock ≡ some (suc t)) × (promise e ≡ stored x)

-- The other entries in use have their message.
abbrev pub Filled : List ℕ → (ℕ → Ulogs) → (ℕ → List ℕ) → Type 0
Filled used heap promise =
    (e : ℕ) → out e used ≡ false → by_writer (heap e).lock ≡ false → (heap e).message ≡ promise e

-- `promise` is the message that an entry in use has or will have.
pub record Inv (s : System) (free used : List ℕ) (promise : ℕ → List ℕ) : Type 0 where
  pub lists : Represents s.lists free used
  pub size : length free + length used ≤ max_syslog_messages
  pub fills : Fills s.writer used s.lists.heap promise
  pub filled : Filled used s.lists.heap promise
  pub at_entry : AtEntry s.reader used s.lists.heap
  pub history : s.accepted ≡ s.sent ++ map promise (pending s.reader used)

abbrev pub Invariant : System → Type 0
Invariant s = (free used : List ℕ) × (promise : ℕ → List ℕ) × Inv s free used promise

-- A step does not follow a null pointer, and keeps the invariant where its behaviour is defined.
abbrev pub Keeping : Result → Type 0
Keeping blocked = Unit
Keeping crash = ⊥
Keeping undefined = Unit
Keeping (next s) = Invariant s

abbrev pub promised : ℕ → List ℕ → (ℕ → List ℕ) → ℕ → List ℕ
promised e m promise a = if a == e then m else promise a

pub promised_other :
    (e a : ℕ) (m : List ℕ) (promise : ℕ → List ℕ)
    → (a == e) ≡ false
    → promised e m promise a ≡ promise a
promised_other e a m promise k = rw k refl

pub promised_self : (e : ℕ) (m : List ℕ) (promise : ℕ → List ℕ) → promised e m promise e ≡ m
promised_self e m promise = let k : (e == e) ≡ true = ground arith in rw k refl

pub map-promised :
    (e : ℕ) (m : List ℕ) (promise : ℕ → List ℕ) (l : List ℕ)
    → out e l ≡ true
    → map (promised e m promise) l ≡ map promise l
map-promised e m promise [] o = refl
map-promised e m promise (x ∷ l) o =
    let k : (x == e) ≡ false = ground (arith, o) in
    let o' : out e l ≡ true = ground (arith, o) in
    rw (promised_other e x m promise k, map-promised e m promise l o') refl

pub first-append : (l : List ℕ) (x e : ℕ) → first l ≡ some x → first (l ++ (e ∷ [])) ≡ some x
first-append [] x e h = cc
first-append (y ∷ l) x e h = h

pub HeadIs-append : (p : Option ℕ) (l : List ℕ) (e : ℕ) → HeadIs p l → HeadIs p (l ++ (e ∷ []))
HeadIs-append none l e h = tt
HeadIs-append (some x) l e h = first-append l x e h

pub rest-append :
    (l : List ℕ) (x e : ℕ) → first l ≡ some x → rest (l ++ (e ∷ [])) ≡ rest l ++ (e ∷ [])
rest-append [] x e h = cc
rest-append (y ∷ l) x e h = refl

pub out-end : (l : List ℕ) (e : ℕ) → out e (l ++ (e ∷ [])) ≡ false
out-end [] e = ground arith
out-end (x ∷ l) e = ground (arith, out-end l e)

pub out-append_false : (l : List ℕ) (a e : ℕ) → out a l ≡ false → out a (l ++ (e ∷ [])) ≡ false
out-append_false [] a e h = cc
out-append_false (x ∷ l) a e h = ground (arith, out-append_false l a e, h)

pub in-append :
    (l : List ℕ) (a e : ℕ) → out a (l ++ (e ∷ [])) ≡ false → (a == e) ≡ false → out a l ≡ false
in-append [] a e h k = ground (arith, h, k)
in-append (x ∷ l) a e h k = ground (arith, in-append l a e, h, k)

not_end : (x e : ℕ) (l : List ℕ) → out x (l ++ (e ∷ [])) ≡ true → (e == x) ≡ false
not_end x e [] h = ground (arith, h)
not_end x e (y ∷ l) h = ground (arith, not_end x e l, h)

pub distinct-end : (l : List ℕ) (e : ℕ) → distinct (l ++ (e ∷ [])) ≡ true → out e l ≡ true
distinct-end [] e h = refl
distinct-end (x ∷ l) e h = ground (arith, distinct-end l e, not_end x e l, h)

-- Entries with different locks are different.
pub lock-apart :
    (heap : ℕ → Ulogs) (a e x : ℕ)
    → (heap a).lock ≡ some x
    → ¬ ((heap e).lock ≡ some x)
    → (a == e) ≡ false
lock-apart heap a e x h k = elim (Bool-cases (a == e)) [
  | inr f ↦ f
  | inl f ↦ let q : a ≡ e = (==_iff a e).0 f in absurd (k (ap (λ v. (heap v).lock) (sym q) ∙ h))
]

-- Where the reader is depends on nothing but the locks it holds.
pub AtEntry-locks :
    (r : Reader) (used : List ℕ) (g h : ℕ → Ulogs)
    → ((a : ℕ) → (g a).lock ≡ some 0 → (h a).lock ≡ some 0)
    → AtEntry r used g
    → AtEntry r used h
AtEntry-locks (waiting b) used g h k i = tt
AtEntry-locks (starting b) used g h k i = tt
AtEntry-locks (looping b p) used g h k i = i
AtEntry-locks sleeping used g h k i = tt
AtEntry-locks (printing x) used g h k i = (i.0, k x i.1)
AtEntry-locks (printed x) used g h k i = (i.0, k x i.1)
AtEntry-locks (moved x p) used g h k i = (i.0, k x i.1)

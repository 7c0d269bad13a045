-- ===== src/Usyslog/Init.antt =====
-- `init_syslog` makes a free list of all entries.
use unionfs_fuse.Prelude.{
  ℕ, zero, suc, ◌+◌, ◌≡◌, refl, Bool, true, false, ◌&&◌, Option, none, some, List, [], ◌∷◌, ◌==◌,
  ==_iff, arith,
}
use unionfs_fuse.Usyslog.{Ulogs, init_syslog, init_loop, max_syslog_messages}
use unionfs_fuse.Usyslog.Chain.{Chain}
use unionfs_fuse.Usyslog.Represents.{Represents}

-- The addresses from `i` on.
abbrev pub addresses : ℕ → ℕ → List ℕ
addresses zero i = []
addresses (suc n) i = i ∷ addresses n (i + 1)

abbrev leads_to : Option ℕ → ℕ → Bool
leads_to none x = false
leads_to (some a) x = a == x

abbrev is_end : Option ℕ → Bool
is_end none = true
is_end (some a) = false

-- `Chain` as a test.
abbrev pub follows : (ℕ → Ulogs) → Option ℕ → List ℕ → Bool
follows heap p [] = is_end p
follows heap p (x ∷ l) = leads_to p x && follows heap (heap x).next l

is_end_eq : (p : Option ℕ) → is_end p ≡ true → p ≡ none
is_end_eq none h = refl
is_end_eq (some a) h = cc

leads_to_eq : (p : Option ℕ) (x : ℕ) → leads_to p x ≡ true → p ≡ some x
leads_to_eq none x h = cc
leads_to_eq (some a) x h = let q : a ≡ x = (==_iff a x).0 h in cc

pub follows-Chain :
    (heap : ℕ → Ulogs) (p : Option ℕ) (l : List ℕ) → follows heap p l ≡ true → Chain heap p l
follows-Chain heap p [] h = is_end_eq p h
follows-Chain heap p (x ∷ l) h =
    (leads_to_eq p x (ground (arith, h)), follows-Chain heap (heap x).next l (ground (arith, h)))

-- Whatever the memory held, all entries are in the free list at the start.
pub init_syslog-Represents :
    (garbage : ℕ → Ulogs) → Represents (init_syslog garbage) (addresses max_syslog_messages 0) []
unfolding init_syslog init_loop
init_syslog-Represents garbage = record {
  free_chain =
      follows-Chain (init_syslog garbage).heap (init_syslog garbage).free_head
        (addresses max_syslog_messages 0) refl;
  used_chain = refl;
  free_end = refl;
  free_out = refl;
  used_end = refl;
  free_distinct = refl;
  used_distinct = refl;
  lists_apart = refl;
  count = refl;
}

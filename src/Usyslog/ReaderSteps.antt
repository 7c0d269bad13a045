-- ===== src/Usyslog/ReaderSteps.antt =====
-- The steps of `syslog_thread`.
use mathlib.Core.Path.{subst}
use mathlib.Core.List.{append_assoc}
use unionfs_fuse.Prelude.{
  ℕ, suc, ◌≡◌, refl, sym, ap, ◌∙◌, Bool, true, false, inl, inr, Option, none, some, List, [], ◌∷◌,
  ◌++◌, length-append, map, ◌==◌, ==_iff, Bool-cases, Option-cases, arith,
}
use unionfs_fuse.Usyslog.{
  Ulogs, Lists, set_lock, trylock_entry, clear_used, give_back, unlock_entry,
}
use unionfs_fuse.Usyslog.Chain.{Chain, out}
use unionfs_fuse.Usyslog.Represents.{Represents, Represents-heap}
use unionfs_fuse.Usyslog.Entries.{set-field, set_other, set_self}
use unionfs_fuse.Usyslog.Return.{give_back-Represents, give_back-Keeps, give_back_lock}
use unionfs_fuse.Usyslog.System.{
  Reader, waiting, starting, looping, sleeping, printing, printed, moved, System, try_entry,
  reader_step, wake_from,
}
use unionfs_fuse.Usyslog.Invariant.{
  first, rest, HeadIs, by_writer, AtEntry, pending, Fills, Filled, Inv, Invariant, Keeping,
  lock-apart,
}

pub Chain-HeadIs :
    (heap : ℕ → Ulogs) (p : Option ℕ) (used : List ℕ) → Chain heap p used → HeadIs p used
Chain-HeadIs heap p [] c = rw c tt
Chain-HeadIs heap p (x ∷ used) c = rw c.0 refl

first-in : (used : List ℕ) (e : ℕ) → first used ≡ some e → out e used ≡ false
first-in [] e h = cc
first-in (x ∷ used) e h = let h' : some x ≡ some e = h in let g : x ≡ e = cc in ground (arith, g)

map-first :
    (promise : ℕ → List ℕ) (used : List ℕ) (e : ℕ)
    → first used ≡ some e
    → map promise used ≡ promise e ∷ map promise (rest used)
map-first promise [] e h = cc
map-first promise (x ∷ used) e h = let h' : some x ≡ some e = h in let g : x ≡ e = cc in rw g refl

-- The lock of an entry changes that no thread in `usyslog` holds.
module _ (s : System) (free used : List ℕ) (promise : ℕ → List ℕ) (e : ℕ) (o : Option ℕ)
    (I : Inv s free used promise) (n : by_writer (s.lists.heap e).lock ≡ false)
    (n' : by_writer o ≡ false) where
  abbrev relocked : ℕ → Ulogs
  relocked = set_lock e o s.lists.heap

  relocked-Represents : Represents (record s.lists { heap = relocked }) free used
  relocked-Represents =
      Represents-heap s.lists relocked free used (set-field (λ v. v.next) e _ s.lists.heap refl)
        I.lists

  relocked-other : (a : ℕ) → (a == e) ≡ false → relocked a ≡ s.lists.heap a
  relocked-other a k = set_other e a _ s.lists.heap k

  relocked-Fills : Fills s.writer used relocked promise
  relocked-Fills t a q x w =
      let (i, k, m) = I.fills t a q x w in
      let apart =
        lock-apart s.lists.heap a e (suc t) k
          (λ f. let g : true ≡ false = ap by_writer (sym f) ∙ n in cc) in
      (i, ap (λ v. v.lock) (relocked-other a apart) ∙ k, m)

  relocked-Filled : Filled used relocked promise
  relocked-Filled a i k =
      set-field (λ v. v.message) e _ s.lists.heap refl a
      ∙ I.filled a i (elim (Bool-cases (a == e)) [
        | inl f ↦ let g : a ≡ e = (==_iff a e).0 f in rw g n
        | inr f ↦ ap (λ v. by_writer v.lock) (sym (relocked-other a f)) ∙ k
      ])

-- `syslog` was called.
pub printing-Inv :
    (s : System) (free used : List ℕ) (promise : ℕ → List ℕ) (e : ℕ)
    → Inv (record s { reader = printing e }) free used promise
    → Inv
        (record s {
          lists = clear_used e s.lists;
          reader = printed e;
          sent = s.sent ++ ((s.lists.heap e).message ∷ []);
        })
        free
        used
        promise
unfolding clear_used
printing-Inv s free used promise e I =
    let lock =
      set-field (λ v. v.lock) e (record (s.lists.heap e) { used = false }) s.lists.heap refl in
    let m : (s.lists.heap e).message ≡ promise e =
      I.filled e (first-in used e I.at_entry.0) (ap by_writer I.at_entry.1) in
    record {
      lists =
          Represents-heap s.lists _ free used
            (set-field (λ v. v.next) e (record (s.lists.heap e) { used = false }) s.lists.heap refl)
            I.lists;
      size = I.size;
      fills = λ t a q x w. let (i, k, p) = I.fills t a q x w in (i, lock a ∙ k, p);
      filled = λ a i k.
          set-field (λ v. v.message) e (record (s.lists.heap e) { used = false }) s.lists.heap refl
            a
          ∙ I.filled a i (ap by_writer (sym (lock a)) ∙ k);
      at_entry = (I.at_entry.0, lock e ∙ I.at_entry.1);
      history =
          rw (I.history, map-first promise used e I.at_entry.0, m)
            (sym (append_assoc s.sent (promise e ∷ []) (map promise (rest used))));
    }

-- The entry goes back to the free list.
pub printed-Inv :
    (s : System) (free used : List ℕ) (promise : ℕ → List ℕ) (e : ℕ)
    → Inv (record s { reader = printed e }) free (e ∷ used) promise
    → Inv
        (record s { lists = give_back e s.lists; reader = moved e (s.lists.heap e).next })
        (free ++ (e ∷ []))
        used
        promise
printed-Inv s free used promise e I =
    let K = give_back-Keeps s.lists e free used I.lists in
    let eu : out e used ≡ true = ground (arith, I.lists.used_distinct) in
    record {
      lists = give_back-Represents s.lists e free used I.lists;
      size = omega (arith, I.size, length-append free (e ∷ []));
      fills = λ t a q x w.
          let (i, k, p) = I.fills t a q x w in
          let apart =
            lock-apart s.lists.heap a e (suc t) k
              (λ f. let g : some 0 ≡ some (suc t) = sym I.at_entry.1 ∙ f in cc) in
          (ground (arith, i, apart), K.lock a apart ∙ k, p);
      filled = λ a i k.
          let apart : (a == e) ≡ false = elim (Bool-cases (a == e)) [
            | inr f ↦ f
            | inl f ↦
                let g : a ≡ e = (==_iff a e).0 f in let i' : out e used ≡ false = rw (← g) i in cc
          ] in
          K.message a ∙ I.filled a (ground (arith, i)) (ap by_writer (sym (K.lock a apart)) ∙ k);
      at_entry = (
        Chain-HeadIs s.lists.heap (s.lists.heap e).next used I.lists.used_chain.1,
        give_back_lock s.lists e free used I.lists ∙ I.at_entry.1,
      );
      history = I.history;
    }

-- A step that changes nothing but where the reader is.
moved_to :
    (s : System) (free used : List ℕ) (promise : ℕ → List ℕ) (r r' : Reader)
    → Inv (record s { reader = r }) free used promise
    → AtEntry r' used s.lists.heap
    → pending r' used ≡ pending r used
    → Invariant (record s { reader = r' })
moved_to s free used promise r r' I i p = (
  free,
  used,
  promise,
  record {
    lists = I.lists;
    size = I.size;
    fills = I.fills;
    filled = I.filled;
    at_entry = i;
    history = I.history ∙ ap (λ l. s.sent ++ map promise l) (sym p);
  },
)

-- The lock of the entry is free.
abbrev pub locked_lists : ℕ → Lists → Lists
locked_lists e l = record l { heap = set_lock e (some 0) l.heap }

pub trylock_entry-free :
    (e : ℕ) (l : Lists) → (l.heap e).lock ≡ none → trylock_entry 0 e l ≡ some (locked_lists e l)
unfolding trylock_entry
trylock_entry-free e l f = simp (trylock_entry, f)

pub locked-Inv :
    (h : Bool) (e : ℕ) (s : System) (free used : List ℕ) (promise : ℕ → List ℕ)
    → (s.lists.heap e).lock ≡ none
    → Inv (record s { reader = looping h (some e) }) free used promise
    → Inv (record s { lists = locked_lists e s.lists; reader = printing e }) free used promise
locked-Inv h e s free used promise f I =
    let t = record s { reader = looping h (some e) } in
    let n : by_writer (s.lists.heap e).lock ≡ false = rw f refl in
    record {
      lists = relocked-Represents t free used promise e (some 0) I n refl;
      size = I.size;
      fills = relocked-Fills t free used promise e (some 0) I n refl;
      filled = relocked-Filled t free used promise e (some 0) I n refl;
      at_entry = (I.at_entry, ap (λ v. v.lock) (set_self e _ s.lists.heap));
      history = I.history;
    }

try_entry-Keeping :
    (h : Bool) (e : ℕ) (s : System) (free used : List ℕ) (promise : ℕ → List ℕ)
    → Inv (record s { reader = looping h (some e) }) free used promise
    → Keeping (try_entry e s (trylock_entry 0 e s.lists))
unfolding trylock_entry
try_entry-Keeping h e s free used promise I = elim (Option-cases (s.lists.heap e).lock) [
  | inr (z, f) ↦
      let q : trylock_entry 0 e s.lists ≡ none = simp (trylock_entry, f) in
      subst (λ o. Keeping (try_entry e s o)) (sym q)
        (moved_to s free used promise (looping h (some e)) sleeping I tt refl)
  | inl f ↦
      subst (λ o. Keeping (try_entry e s o)) (sym (trylock_entry-free e s.lists f))
        (free, used, promise, locked-Inv h e s free used promise f I)
]

printed-Keeping :
    (e : ℕ) (s : System) (free used : List ℕ) (promise : ℕ → List ℕ)
    → Inv (record s { reader = printed e }) free used promise
    → Keeping (reader_step (printed e) s)
printed-Keeping e s free [] promise I = let f : none ≡ some e = I.at_entry.0 in cc
printed-Keeping e s free (x ∷ used) promise I =
    let f : some x ≡ some e = I.at_entry.0 in
    let g : x ≡ e = cc in
    (
      free ++ (e ∷ []),
      used,
      promise,
      printed-Inv s free used promise e
          (subst (λ a. Inv (record s { reader = printed e }) free (a ∷ used) promise) g I),
    )

pub moved-Inv :
    (e : ℕ) (p : Option ℕ) (s : System) (free used : List ℕ) (promise : ℕ → List ℕ)
    → Inv (record s { reader = moved e p }) free used promise
    → Inv (record s { lists = unlock_entry e s.lists; reader = looping false p }) free used promise
unfolding unlock_entry
moved-Inv e p s free used promise I =
    let t = record s { reader = moved e p } in
    let n : by_writer (s.lists.heap e).lock ≡ false = ap by_writer I.at_entry.1 in
    record {
      lists = relocked-Represents t free used promise e none I n refl;
      size = I.size;
      fills = relocked-Fills t free used promise e none I n refl;
      filled = relocked-Filled t free used promise e none I n refl;
      at_entry = I.at_entry.0;
      history = I.history;
    }

pub reader_step-Keeping :
    (r : Reader) (s : System) → Invariant (record s { reader = r }) → Keeping (reader_step r s)
reader_step-Keeping (waiting h) s i = tt
reader_step-Keeping (starting true) s i = tt
reader_step-Keeping (starting false) s (free, used, promise, I) =
    moved_to s free used promise (starting false) (looping true s.lists.used_head) I
      (Chain-HeadIs s.lists.heap s.lists.used_head used I.lists.used_chain) refl
reader_step-Keeping (looping h none) s (free, used, promise, I) =
    moved_to s free used promise (looping h none) (waiting h) I tt refl
reader_step-Keeping (looping false (some e)) s i = tt
reader_step-Keeping (looping true (some e)) s (free, used, promise, I) =
    try_entry-Keeping true e s free used promise I
reader_step-Keeping sleeping s (free, used, promise, I) =
    moved_to s free used promise sleeping (looping true s.lists.used_head) I
      (Chain-HeadIs s.lists.heap s.lists.used_head used I.lists.used_chain) refl
reader_step-Keeping (printing e) s (free, used, promise, I) =
    (free, used, promise, printing-Inv s free used promise e I)
reader_step-Keeping (printed e) s (free, used, promise, I) = printed-Keeping e s free used promise I
reader_step-Keeping (moved e p) s (free, used, promise, I) =
    (free, used, promise, moved-Inv e p s free used promise I)

pub wake_from-Keeping :
    (r : Reader) (s : System) → Invariant (record s { reader = r }) → Keeping (wake_from r s)
wake_from-Keeping (waiting h) s (free, used, promise, I) =
    moved_to s free used promise (waiting h) (starting h) I tt refl
wake_from-Keeping (starting h) s i = tt
wake_from-Keeping (looping h p) s i = tt
wake_from-Keeping sleeping s i = tt
wake_from-Keeping (printing e) s i = tt
wake_from-Keeping (printed e) s i = tt
wake_from-Keeping (moved e p) s i = tt

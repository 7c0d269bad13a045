-- ===== src/Usyslog/WriterSteps.antt =====
-- The steps of a thread in `usyslog`.
use mathlib.Core.Path.{subst}
use mathlib.Core.List.{append_assoc, map-append}
use unionfs_fuse.Prelude.{
  ℕ, suc, ◌≡◌, refl, sym, ap, ◌∙◌, Bool, true, false, inl, inr, none, some, List, [], ◌∷◌, ◌⊎◌,
  ◌++◌, length, length-append, map, ◌==◌, ==_iff, Bool-cases, arith, if◌then◌else◌,
}
use unionfs_fuse.Usyslog.{
  Ulogs, Lists, Taken, null_pointer, dropped, taken, usyslog_take, usyslog_fill,
}
use unionfs_fuse.Usyslog.Chain.{out}
use unionfs_fuse.Usyslog.Represents.{Represents, Represents-heap, AfterTake, Keeps}
use unionfs_fuse.Usyslog.Entries.{set-field, set_other, set_self}
use unionfs_fuse.Usyslog.Take.{usyslog_take-AfterTake}
use unionfs_fuse.Usyslog.System.{
  Writer, idle, filling, signalling, Reader, waiting, starting, looping, sleeping, printing,
  printed, moved, System, stored, set_writer, call_taken, call_from, fill_from, signal_from, woken,
}
use unionfs_fuse.Usyslog.Invariant.{
  by_writer, AtEntry, pending, Fills, Filled, Inv, Invariant, Keeping, promised, promised_other,
  promised_self, map-promised, first-append, HeadIs-append, rest-append, AtEntry-locks, out-end,
  out-append_false, in-append, distinct-end, lock-apart,
}

still_locked :
    (g h : ℕ → Ulogs) (x e z : ℕ)
    → (g e).lock ≡ none
    → ((a : ℕ) → (a == e) ≡ false → (h a).lock ≡ (g a).lock)
    → (g x).lock ≡ some z
    → (h x).lock ≡ some z
still_locked g h x e z n k i =
    k x (lock-apart g x e z i (λ v. let w : none ≡ some z = sym n ∙ v in cc)) ∙ i

-- A new last entry does not change where the reader is.
AtEntry-append :
    (r : Reader) (used : List ℕ) (e : ℕ) (h : ℕ → Ulogs)
    → AtEntry r used h
    → AtEntry r (used ++ (e ∷ [])) h
AtEntry-append (waiting b) used e h i = tt
AtEntry-append (starting b) used e h i = tt
AtEntry-append (looping b p) used e h i = HeadIs-append p used e i
AtEntry-append sleeping used e h i = tt
AtEntry-append (printing x) used e h i = (first-append used x e i.0, i.1)
AtEntry-append (printed x) used e h i = (first-append used x e i.0, i.1)
AtEntry-append (moved x p) used e h i = (HeadIs-append p used e i.0, i.1)

pending-append :
    (r : Reader) (used : List ℕ) (e : ℕ) (g : ℕ → Ulogs)
    → AtEntry r used g
    → pending r (used ++ (e ∷ [])) ≡ pending r used ++ (e ∷ [])
pending-append (waiting b) used e g i = refl
pending-append (starting b) used e g i = refl
pending-append (looping b p) used e g i = refl
pending-append sleeping used e g i = refl
pending-append (printing x) used e g i = refl
pending-append (printed x) used e g i = rest-append used x e i.0
pending-append (moved x p) used e g i = refl

out-pending :
    (r : Reader) (used : List ℕ) (e : ℕ) → out e used ≡ true → out e (pending r used) ≡ true
out-pending (waiting b) used e o = o
out-pending (starting b) used e o = o
out-pending (looping b p) used e o = o
out-pending sleeping used e o = o
out-pending (printing x) used e o = o
out-pending (printed x) [] e o = o
out-pending (printed x) (y ∷ used) e o = ground (arith, o)
out-pending (moved x p) used e o = o

set_writer-filling :
    (t u e q a b : ℕ) (x y : List ℕ) (writer : ℕ → Writer)
    → set_writer t (filling e q x) writer u ≡ filling a b y
    → ((u ≡ t) × (a ≡ e) × (y ≡ x)) ⊎ (writer u ≡ filling a b y)
set_writer-filling t u e q a b x y writer h = elim (Bool-cases (u == t)) [
  | inr f ↦ inr (subst (λ o. (if◌then◌else◌ o (filling e q x) (writer u)) ≡ filling a b y) f h)
  | inl f ↦
      let k : filling e q x ≡ filling a b y =
        subst (λ o. (if◌then◌else◌ o (filling e q x) (writer u)) ≡ filling a b y) f h in
      inl ((==_iff u t).0 f, cc, cc)
]

-- A message is accepted.
module _ (s : System) (free used free' : List ℕ) (promise : ℕ → List ℕ) (t e q : ℕ) (x : List ℕ)
    (l : Lists) (I : Inv s free used promise) (R : Represents l free' (used ++ (e ∷ [])))
    (len : suc (length free') ≡ length free) (unlocked : (s.lists.heap e).lock ≡ none)
    (locked : (l.heap e).lock ≡ some (suc t)) (K : Keeps e s.lists.heap l.heap) where
  new : out e used ≡ true
  new = distinct-end used e R.used_distinct

  in_use : (a : ℕ) → out a used ≡ false → (a == e) ≡ false
  in_use a o = elim (Bool-cases (a == e)) [
    | inr f ↦ f
    | inl f ↦
        let g : a ≡ e = (==_iff a e).0 f in
        let o' : out e used ≡ false = rw (← g) o in let n : out e used ≡ true = new in cc
  ]

  taken-Fills :
      Fills
        (set_writer t (filling e q x) s.writer)
        (used ++ (e ∷ []))
        l.heap
        (promised e (stored x) promise)
  taken-Fills u a b y h = elim (set_writer-filling t u e q a b x y s.writer h) [
    | inl (f, g, k) ↦ rw (f, g, k) (out-end used e, locked, promised_self e (stored x) promise)
    | inr f ↦
        let (o, i, m) = I.fills u a b y f in
        (
          out-append_false used a e o,
          still_locked s.lists.heap l.heap a e (suc u) unlocked K.lock i,
          promised_other e a (stored x) promise (in_use a o) ∙ m,
        )
  ]

  taken-Filled : Filled (used ++ (e ∷ [])) l.heap (promised e (stored x) promise)
  taken-Filled a o i = elim (Bool-cases (a == e)) [
    | inl f ↦
        let g : a ≡ e = (==_iff a e).0 f in
        let k : by_writer (l.heap a).lock ≡ true = rw (g, locked) refl in cc
    | inr f ↦
        K.message a
        ∙ I.filled a (in-append used a e o f) (rw (← K.lock a f) i)
        ∙ sym (promised_other e a (stored x) promise f)
  ]

  taken_messages :
      map (promised e (stored x) promise) (pending s.reader (used ++ (e ∷ [])))
      ≡ map promise (pending s.reader used) ++ (stored x ∷ [])
  taken_messages =
      rw
        (
          pending-append s.reader used e s.lists.heap I.at_entry,
          map-append (promised e (stored x) promise) (pending s.reader used) (e ∷ []),
          map-promised e (stored x) promise (pending s.reader used)
              (out-pending s.reader used e new),
          promised_self e (stored x) promise,
        )
        refl

  taken-Inv :
      Inv
        (record s {
          lists = l;
          writer = set_writer t (filling e q x) s.writer;
          accepted = s.accepted ++ (stored x ∷ []);
        })
        free'
        (used ++ (e ∷ []))
        (promised e (stored x) promise)
  taken-Inv = record {
    lists = R;
    size = omega (arith, len, I.size, length-append used (e ∷ []));
    fills = taken-Fills;
    filled = taken-Filled;
    at_entry =
        AtEntry-locks s.reader (used ++ (e ∷ [])) s.lists.heap l.heap
          (λ a i. still_locked s.lists.heap l.heap a e 0 unlocked K.lock i)
          (AtEntry-append s.reader used e s.lists.heap I.at_entry);
    history =
        rw (taken_messages, I.history)
          (append_assoc s.sent (map promise (pending s.reader used)) (stored x ∷ []));
  }

call_taken-Keeping :
    (t q : ℕ) (x : List ℕ) (s : System) (free used : List ℕ) (promise : ℕ → List ℕ) (r : Taken)
    → Inv s free used promise
    → AfterTake (suc t) free used s.lists r
    → Keeping (call_taken t q x s r)
call_taken-Keeping t q x s free used promise null_pointer I A = A
call_taken-Keeping t q x s free used promise (dropped l) I (free', R, len, same) = (
  free',
  used,
  promise,
  record {
    lists = R;
    size = omega (arith, len, I.size);
    fills = λ u a b y h. rw same (I.fills u a b y h);
    filled = λ a o i. subst (λ h. Filled used h promise) (sym same) I.filled a o i;
    at_entry = rw same I.at_entry;
    history = I.history;
  },
)
call_taken-Keeping t q x s free used promise (taken e l) I (free', R, len, u, k, K) = (
  free',
  used ++ (e ∷ []),
  promised e (stored x) promise,
  taken-Inv s free used free' promise t e q x l I R len u k K,
)

pub call_from-Keeping :
    (w : Writer) (held : Bool) (t q : ℕ) (x : List ℕ) (s : System)
    → Invariant s
    → Keeping (call_from w held t q x s)
call_from-Keeping idle false t q x s (free, used, promise, I) =
    call_taken-Keeping t q x s free used promise (usyslog_take (suc t) s.lists) I
      (usyslog_take-AfterTake s.lists (suc t) free used I.lists)
call_from-Keeping idle true t q x s i = tt
call_from-Keeping (filling e p y) held t q x s i = tt
call_from-Keeping signalling held t q x s i = tt

set_writer-signalling :
    (t u a b : ℕ) (y : List ℕ) (w : Writer) (writer : ℕ → Writer)
    → ¬ (w ≡ filling a b y)
    → set_writer t w writer u ≡ filling a b y
    → ((u == t) ≡ false) × (writer u ≡ filling a b y)
set_writer-signalling t u a b y w writer n h = elim (Bool-cases (u == t)) [
  | inr f ↦ (f, subst (λ o. if◌then◌else◌ o w (writer u) ≡ filling a b y) f h)
  | inl f ↦ absurd (n (subst (λ o. if◌then◌else◌ o w (writer u) ≡ filling a b y) f h))
]

-- The entry is filled and unlocked.
module _ (s : System) (free used : List ℕ) (promise : ℕ → List ℕ) (t e q : ℕ) (x : List ℕ)
    (I : Inv s free used promise) (w : s.writer t ≡ filling e q x) where
  abbrev filled_heap : ℕ → Ulogs
  filled_heap = (usyslog_fill e q x s.lists).heap

  other : (a : ℕ) → (a == e) ≡ false → filled_heap a ≡ s.lists.heap a
  unfolding usyslog_fill
  other a k = set_other e a _ s.lists.heap k

  not_reader : (a z : ℕ) → (s.lists.heap a).lock ≡ some z → ¬ (z ≡ suc t) → (a == e) ≡ false
  not_reader a z i n =
      let k : (s.lists.heap e).lock ≡ some (suc t) = (I.fills t e q x w).1 in
      lock-apart s.lists.heap a e z i (λ v. n (let u : some z ≡ some (suc t) = sym v ∙ k in cc))

  fill-Fills : Fills (set_writer t signalling s.writer) used filled_heap promise
  fill-Fills u a b y h =
      let (f, g) = set_writer-signalling t u a b y signalling s.writer (λ k. cc) h in
      let (o, i, m) = I.fills u a b y g in
      (o, ap (λ v. v.lock) (other a (not_reader a (suc u) i (λ k. ground (arith, f, k)))) ∙ i, m)

  fill-Filled : Filled used filled_heap promise
  unfolding usyslog_fill
  fill-Filled a o i = elim (Bool-cases (a == e)) [
    | inl f ↦
        let g : a ≡ e = (==_iff a e).0 f in
        rw g (ap (λ v. v.message) (set_self e _ s.lists.heap) ∙ sym (I.fills t e q x w).2)
    | inr f ↦ ap (λ v. v.message) (other a f) ∙ I.filled a o (rw (← other a f) i)
  ]

  fill-Inv :
      Inv
        (record s { lists = usyslog_fill e q x s.lists; writer = set_writer t signalling s.writer })
        free
        used
        promise
  unfolding usyslog_fill
  fill-Inv = record {
    lists =
        Represents-heap s.lists filled_heap free used
          (set-field (λ v. v.next) e _ s.lists.heap refl) I.lists;
    size = I.size;
    fills = fill-Fills;
    filled = fill-Filled;
    at_entry =
        AtEntry-locks s.reader used s.lists.heap filled_heap
          (λ a i. ap (λ v. v.lock) (other a (not_reader a 0 i (λ k. cc))) ∙ i) I.at_entry;
    history = I.history;
  }

pub fill_from-Keeping :
    (w : Writer) (t : ℕ) (s : System) → s.writer t ≡ w → Invariant s → Keeping (fill_from w t s)
fill_from-Keeping idle t s w i = tt
fill_from-Keeping (filling e q x) t s w (free, used, promise, I) =
    (free, used, promise, fill-Inv s free used promise t e q x I w)
fill_from-Keeping signalling t s w i = tt

-- A signal changes nothing but where the reader waits.
AtEntry-woken :
    (r : Reader) (used : List ℕ) (h : ℕ → Ulogs) → AtEntry r used h → AtEntry (woken r) used h
AtEntry-woken (waiting b) used h i = tt
AtEntry-woken (starting b) used h i = tt
AtEntry-woken (looping b p) used h i = i
AtEntry-woken sleeping used h i = tt
AtEntry-woken (printing x) used h i = i
AtEntry-woken (printed x) used h i = i
AtEntry-woken (moved x p) used h i = i

pending-woken : (r : Reader) (used : List ℕ) → pending (woken r) used ≡ pending r used
pending-woken (waiting b) used = refl
pending-woken (starting b) used = refl
pending-woken (looping b p) used = refl
pending-woken sleeping used = refl
pending-woken (printing x) used = refl
pending-woken (printed x) used = refl
pending-woken (moved x p) used = refl

pub signal_from-Keeping :
    (w : Writer) (t : ℕ) (s : System) → Invariant s → Keeping (signal_from w t s)
signal_from-Keeping idle t s i = tt
signal_from-Keeping (filling e q x) t s i = tt
signal_from-Keeping signalling t s (free, used, promise, I) = (
  free,
  used,
  promise,
  record {
    lists = I.lists;
    size = I.size;
    fills =
        λ u a b y h. I.fills u a b y (set_writer-signalling t u a b y idle s.writer (λ k. cc) h).1;
    filled = I.filled;
    at_entry = AtEntry-woken s.reader used s.lists.heap I.at_entry;
    history = I.history ∙ ap (λ p. s.sent ++ map promise p) (sym (pending-woken s.reader used));
  },
)

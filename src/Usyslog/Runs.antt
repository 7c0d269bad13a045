-- ===== src/Usyslog/Runs.antt =====
-- Executions of all threads.
use unionfs_fuse.Prelude.{
  ℕ, suc, ◌+◌, ◌≤◌, ◌≡◌, refl, ap, true, false, List, [], ◌∷◌, ◌++◌, length, map, arith,
}
use unionfs_fuse.Usyslog.{Ulogs, max_syslog_messages}
use unionfs_fuse.Usyslog.Init.{addresses, init_syslog-Represents}
use unionfs_fuse.Usyslog.Represents.{Represents}
use unionfs_fuse.Usyslog.System.{
  idle, filling, Reader, waiting, starting, looping, sleeping, printing, printed, moved, System,
  Result, blocked, crash, undefined, next, Event, call, fill, signal, read, wake_up, step, go_on,
  run, start, holds_list_lock,
}
use unionfs_fuse.Usyslog.Invariant.{rest, pending, Inv, Invariant, Keeping}
use unionfs_fuse.Usyslog.WriterSteps.{call_from-Keeping, fill_from-Keeping, signal_from-Keeping}
use unionfs_fuse.Usyslog.ReaderSteps.{reader_step-Keeping, wake_from-Keeping}

step-Keeping : (event : Event) (s : System) → Invariant s → Keeping (step event s)
step-Keeping (call t q x) s i = call_from-Keeping (s.writer t) (holds_list_lock s.reader) t q x s i
step-Keeping (fill t) s i = fill_from-Keeping (s.writer t) t s refl i
step-Keeping (signal t) s i = signal_from-Keeping (s.writer t) t s i
step-Keeping read s i = reader_step-Keeping s.reader s i
step-Keeping wake_up s i = wake_from-Keeping s.reader s i

go_on-Keeping :
    (f : System → Result)
    → ((s : System) → Invariant s → Keeping (f s))
    → (r : Result) → Keeping r
    → Keeping (go_on f r)
go_on-Keeping f k blocked i = tt
go_on-Keeping f k crash i = i
go_on-Keeping f k undefined i = i
go_on-Keeping f k (next s) i = k s i

run-Keeping : (events : List Event) (s : System) → Invariant s → Keeping (run events s)
run-Keeping [] s i = i
run-Keeping (event ∷ events) s i =
    go_on-Keeping (run events) (run-Keeping events) (step event s) (step-Keeping event s i)

start-Inv :
    (garbage : ℕ → Ulogs) → Inv (start garbage) (addresses max_syslog_messages 0) [] (λ e. [])
start-Inv garbage = record {
  lists = init_syslog-Represents garbage;
  size = omega arith;
  fills = λ t e q x w. let w' : idle ≡ filling e q x = w in cc;
  filled = λ e i k. let i' : true ≡ false = i in cc;
  at_entry = tt;
  history = refl;
}

pub run-start-Keeping :
    (events : List Event) (garbage : ℕ → Ulogs) → Keeping (run events (start garbage))
run-start-Keeping events garbage =
    run-Keeping events (start garbage)
      (addresses max_syslog_messages 0, [], λ e. [], start-Inv garbage)

-- No null pointer was followed, and both lists are chains of different entries, 32 at most.
abbrev pub WellFormed : Result → Type 0
WellFormed blocked = Unit
WellFormed crash = ⊥
WellFormed undefined = Unit
WellFormed (next s) =
    (free used : List ℕ) × Represents s.lists free used
    × (length free + length used ≤ max_syslog_messages)

-- The messages that were accepted are the ones that were sent, and then the ones that wait.
abbrev pub InOrder : Result → Type 0
InOrder blocked = Unit
InOrder crash = ⊥
InOrder undefined = Unit
InOrder (next s) =
    (waiting : List (List ℕ)) × (s.accepted ≡ s.sent ++ waiting)
    × (length waiting ≤ s.lists.used_entries)
    × (s.lists.used_entries ≤ max_syslog_messages)

Keeping-WellFormed : (r : Result) → Keeping r → WellFormed r
Keeping-WellFormed blocked i = tt
Keeping-WellFormed crash i = i
Keeping-WellFormed undefined i = i
Keeping-WellFormed (next s) (free, used, promise, I) = (free, used, I.lists, I.size)

length-map : (f : ℕ → List ℕ) (l : List ℕ) → length (map f l) ≡ length l
length-map f [] = refl
length-map f (x ∷ l) = ap suc (length-map f l)

length-rest : (l : List ℕ) → length (rest l) ≤ length l
length-rest [] = omega arith
length-rest (x ∷ l) = omega arith

length-pending : (r : Reader) (used : List ℕ) → length (pending r used) ≤ length used
length-pending (waiting h) used = omega arith
length-pending (starting h) used = omega arith
length-pending (looping h p) used = omega arith
length-pending sleeping used = omega arith
length-pending (printing e) used = omega arith
length-pending (printed e) used = length-rest used
length-pending (moved e p) used = omega arith

Keeping-InOrder : (r : Result) → Keeping r → InOrder r
Keeping-InOrder blocked i = tt
Keeping-InOrder crash i = i
Keeping-InOrder undefined i = i
Keeping-InOrder (next s) (free, used, promise, I) = (
  map promise (pending s.reader used),
  I.history,
  omega (
    arith,
    length-map promise (pending s.reader used),
    length-pending s.reader used,
    I.lists.count,
  ),
  omega (arith, I.lists.count, I.size),
)

-- In every run up to the first time that the thread of `do_syslog` unlocks `list_lock` without
-- holding it, which is undefined: no null pointer is followed, and the two lists stay chains of
-- different entries, 32 entries at most together. The pointers to the ends are right for a list that
-- is not empty, and `used_bottom` is null for an empty one; `free_bottom` may then be stale, but leads to
-- no entry in use.
pub run-WellFormed :
    (events : List Event) (garbage : ℕ → Ulogs) → WellFormed (run events (start garbage))
run-WellFormed events garbage =
    Keeping-WellFormed (run events (start garbage)) (run-start-Keeping events garbage)

-- In every run up to the first time that the thread of `do_syslog` unlocks `list_lock` without
-- holding it, which is undefined: the messages that `usyslog` accepted are the ones that `syslog`
-- got, in the same order, and then some that wait; those are at most `used_entries`, which is at
-- most 32.
pub run-InOrder : (events : List Event) (garbage : ℕ → Ulogs) → InOrder (run events (start garbage))
run-InOrder events garbage =
    Keeping-InOrder (run events (start garbage)) (run-start-Keeping events garbage)

-- ===== src/Usyslog/Hang.antt =====
-- The thread of `do_syslog` keeps `list_lock`.
use unionfs_fuse.Prelude.{ℕ, ◌≡◌, refl, ◌∙◌, true, false, List, [], ◌∷◌}
use unionfs_fuse.Usyslog.System.{
  Writer, idle, filling, signalling, Reader, waiting, starting, looping, sleeping, printing,
  printed, moved, System, Result, blocked, crash, undefined, next, Event, call, fill, signal, read,
  wake_up, call_from, fill_from, signal_from, reader_step, wake_from, woken, step, go_on, run,
  holds_list_lock,
}

-- In or before `pthread_cond_wait`, or on the way from there to its own lock.
abbrev pub Stuck : Reader → Type 0
Stuck (waiting h) = h ≡ true
Stuck (starting h) = h ≡ true
Stuck (looping h p) = ⊥
Stuck sleeping = ⊥
Stuck (printing e) = ⊥
Stuck (printed e) = ⊥
Stuck (moved e p) = ⊥

abbrev pub StaysStuck : System → Result → Type 0
StaysStuck s blocked = Unit
StaysStuck s crash = ⊥
StaysStuck s undefined = ⊥
StaysStuck s (next s') =
    Stuck s'.reader
    × (s'.accepted ≡ s.accepted)
    × (s'.sent ≡ s.sent)
    × ((t priority : ℕ) (text : List ℕ) → step (call t priority text) s' ≡ blocked)

Stuck-held : (r : Reader) → Stuck r → holds_list_lock r ≡ true
Stuck-held (waiting h) i = i
Stuck-held (starting h) i = i
Stuck-held (looping h p) i = absurd i
Stuck-held sleeping i = absurd i
Stuck-held (printing e) i = absurd i
Stuck-held (printed e) i = absurd i
Stuck-held (moved e p) i = absurd i

Stuck-woken : (r : Reader) → Stuck r → Stuck (woken r)
Stuck-woken (waiting h) i = i
Stuck-woken (starting h) i = i
Stuck-woken (looping h p) i = i
Stuck-woken sleeping i = i
Stuck-woken (printing e) i = i
Stuck-woken (printed e) i = i
Stuck-woken (moved e p) i = i

call_from-blocked :
    (w : Writer) (t q : ℕ) (x : List ℕ) (s : System) → call_from w true t q x s ≡ blocked
call_from-blocked idle t q x s = refl
call_from-blocked (filling e p y) t q x s = refl
call_from-blocked signalling t q x s = refl

call-blocked :
    (s : System) → Stuck s.reader → (t q : ℕ) (x : List ℕ) → step (call t q x) s ≡ blocked
call-blocked s i t q x = rw (Stuck-held s.reader i) (call_from-blocked (s.writer t) t q x s)

-- What a step leaves.
abbrev Unmoved : System → Result → Type 0
Unmoved s blocked = Unit
Unmoved s crash = ⊥
Unmoved s undefined = ⊥
Unmoved s (next s') = Stuck s'.reader × (s'.accepted ≡ s.accepted) × (s'.sent ≡ s.sent)

fill_from-Unmoved : (w : Writer) (t : ℕ) (s : System) → Stuck s.reader → Unmoved s (fill_from w t s)
fill_from-Unmoved idle t s i = tt
fill_from-Unmoved (filling e q x) t s i = (i, refl, refl)
fill_from-Unmoved signalling t s i = tt

signal_from-Unmoved :
    (w : Writer) (t : ℕ) (s : System) → Stuck s.reader → Unmoved s (signal_from w t s)
signal_from-Unmoved idle t s i = tt
signal_from-Unmoved (filling e q x) t s i = tt
signal_from-Unmoved signalling t s i = (Stuck-woken s.reader i, refl, refl)

reader_step-Unmoved : (r : Reader) (s : System) → Stuck r → Unmoved s (reader_step r s)
reader_step-Unmoved (waiting h) s i = tt
reader_step-Unmoved (starting true) s i = tt
reader_step-Unmoved (starting false) s i = let f : false ≡ true = i in cc
reader_step-Unmoved (looping h p) s i = absurd i
reader_step-Unmoved sleeping s i = absurd i
reader_step-Unmoved (printing e) s i = absurd i
reader_step-Unmoved (printed e) s i = absurd i
reader_step-Unmoved (moved e p) s i = absurd i

wake_from-Unmoved : (r : Reader) (s : System) → Stuck r → Unmoved s (wake_from r s)
wake_from-Unmoved (waiting h) s i = (i, refl, refl)
wake_from-Unmoved (starting h) s i = tt
wake_from-Unmoved (looping h p) s i = tt
wake_from-Unmoved sleeping s i = tt
wake_from-Unmoved (printing e) s i = tt
wake_from-Unmoved (printed e) s i = tt
wake_from-Unmoved (moved e p) s i = tt

step-Unmoved : (event : Event) (s : System) → Stuck s.reader → Unmoved s (step event s)
step-Unmoved (call t q x) s i = rw (call-blocked s i t q x) tt
step-Unmoved (fill t) s i = fill_from-Unmoved (s.writer t) t s i
step-Unmoved (signal t) s i = signal_from-Unmoved (s.writer t) t s i
step-Unmoved read s i = reader_step-Unmoved s.reader s i
step-Unmoved wake_up s i = wake_from-Unmoved s.reader s i

StaysStuck-from :
    (s s' : System) (r : Result)
    → s'.accepted ≡ s.accepted
    → s'.sent ≡ s.sent
    → StaysStuck s' r
    → StaysStuck s r
StaysStuck-from s s' blocked a b i = tt
StaysStuck-from s s' crash a b i = i
StaysStuck-from s s' undefined a b i = i
StaysStuck-from s s' (next s'') a b (i, c, d, k) = (i, c ∙ a, d ∙ b, k)

go_on-StaysStuck :
    (f : System → Result)
    → ((s : System) → Stuck s.reader → StaysStuck s (f s))
    → (s : System) (r : Result) → Unmoved s r
    → StaysStuck s (go_on f r)
go_on-StaysStuck f k s blocked i = tt
go_on-StaysStuck f k s crash i = i
go_on-StaysStuck f k s undefined i = i
go_on-StaysStuck f k s (next s') (i, a, b) = StaysStuck-from s s' (f s') a b (k s' i)

-- Once the thread of `do_syslog` waits or wakes up with `list_lock` held, it holds the lock for ever:
-- whatever the threads do, it gets no further, every call of `usyslog` blocks, and no message is
-- accepted or sent.
pub run-StaysStuck :
    (events : List Event) (s : System) → Stuck s.reader → StaysStuck s (run events s)
run-StaysStuck [] s i = (i, refl, refl, call-blocked s i)
run-StaysStuck (event ∷ events) s i =
    go_on-StaysStuck (run events) (run-StaysStuck events) s (step event s) (step-Unmoved event s i)

-- ===== src/Usyslog/System.antt =====
-- src/usyslog.c: the threads that call `usyslog`, and the thread of `do_syslog`, as a step function.
--
-- One step is what a thread does between two points where it takes a lock, waits or calls `syslog`.
-- `list_lock` is held within a step, or by the thread of `do_syslog` between two of its steps. In
-- later rounds of its loop that thread unlocks `list_lock` without holding it, which is undefined
-- behaviour: a run of the model ends there.
use unionfs_fuse.Prelude.{
  ℕ, suc, ◌-◌, Bool, true, false, Option, none, some, List, [], ◌∷◌, ◌++◌, take, ◌==◌,
  if◌then◌else◌,
}
use unionfs_fuse.Usyslog.{
  Ulogs, Lists, max_msg_size, Taken, null_pointer, dropped, taken, usyslog_take, usyslog_fill,
  trylock_entry, clear_used, give_back, unlock_entry, init_syslog,
}

-- Where a thread is in `usyslog`: outside; between the two unlocks; before the signal.
pub data Writer : Type 0 where
  idle : Writer
  filling : ℕ → ℕ → List ℕ → Writer
  signalling : Writer

-- Where the thread of `syslog_thread` is: in `pthread_cond_wait`; at the lock of `list_lock` in
-- `do_syslog`; at the condition of the loop with `log_entry`; in `sleep`; before the call of `syslog`;
-- before the second lock of `list_lock`; before the unlock of the entry. The flag says whether the
-- thread holds `list_lock`.
pub data Reader : Type 0 where
  waiting : Bool → Reader
  starting : Bool → Reader
  looping : Bool → Option ℕ → Reader
  sleeping : Reader
  printing : ℕ → Reader
  printed : ℕ → Reader
  moved : ℕ → Option ℕ → Reader

abbrev pub holds_list_lock : Reader → Bool
holds_list_lock (waiting h) = h
holds_list_lock (starting h) = h
holds_list_lock (looping h p) = h
holds_list_lock sleeping = false
holds_list_lock (printing e) = false
holds_list_lock (printed e) = false
holds_list_lock (moved e p) = false

-- `accepted` are the messages that got an entry, and `sent` the ones that `syslog` was called with.
pub record System : Type 0 where
  pub lists : Lists
  pub writer : ℕ → Writer
  pub reader : Reader
  pub accepted : List (List ℕ)
  pub sent : List (List ℕ)

-- A thread cannot go on, follows a null pointer, unlocks a mutex that it does not hold, or makes its
-- step.
pub data Result : Type 0 where
  blocked : Result
  crash : Result
  undefined : Result
  next : System → Result

abbrev pub set_writer : ℕ → Writer → (ℕ → Writer) → ℕ → Writer
set_writer t w writer u = if u == t then w else writer u

-- What `vsnprintf` keeps of a message.
abbrev pub stored : List ℕ → List ℕ
stored text = take (max_msg_size - 1) text

abbrev pub call_taken : ℕ → ℕ → List ℕ → System → Taken → Result
call_taken t priority text s null_pointer = crash
call_taken t priority text s (dropped l) = next (record s { lists = l })
call_taken t priority text s (taken e l) = next (record s {
  lists = l;
  writer = set_writer t (filling e priority text) s.writer;
  accepted = s.accepted ++ (stored text ∷ []);
})

abbrev pub call_from : Writer → Bool → ℕ → ℕ → List ℕ → System → Result
call_from idle false t priority text s = call_taken t priority text s (usyslog_take (suc t) s.lists)
call_from idle true t priority text s = blocked
call_from (filling e q x) held t priority text s = blocked
call_from signalling held t priority text s = blocked

abbrev pub fill_from : Writer → ℕ → System → Result
fill_from idle t s = blocked
fill_from (filling e priority text) t s = next (record s {
  lists = usyslog_fill e priority text s.lists;
  writer = set_writer t signalling s.writer;
})
fill_from signalling t s = blocked

-- A signal is lost where no thread waits.
abbrev pub woken : Reader → Reader
woken (waiting h) = starting h
woken (starting h) = starting h
woken (looping h p) = looping h p
woken sleeping = sleeping
woken (printing e) = printing e
woken (printed e) = printed e
woken (moved e p) = moved e p

abbrev pub signal_from : Writer → ℕ → System → Result
signal_from idle t s = blocked
signal_from (filling e q x) t s = blocked
signal_from signalling t s =
    next (record s { writer = set_writer t idle s.writer; reader = woken s.reader })

abbrev pub try_entry : ℕ → System → Option Lists → Result
try_entry e s none = next (record s { reader = sleeping })
try_entry e s (some l) = next (record s { lists = l; reader = printing e })

-- A step of `syslog_thread`. Nothing unlocks `list_lock` after a loop that ends at once. After the
-- `trylock` of an entry `list_lock` is unlocked, whether the thread holds it or not.
abbrev pub reader_step : Reader → System → Result
reader_step (waiting h) s = blocked
reader_step (starting true) s = blocked
reader_step (starting false) s = next (record s { reader = looping true s.lists.used_head })
reader_step (looping h none) s = next (record s { reader = waiting h })
reader_step (looping true (some e)) s = try_entry e s (trylock_entry 0 e s.lists)
reader_step (looping false (some e)) s = undefined
reader_step sleeping s = next (record s { reader = looping true s.lists.used_head })
reader_step (printing e) s = next (record s {
  lists = clear_used e s.lists;
  reader = printed e;
  sent = s.sent ++ ((s.lists.heap e).message ∷ []);
})
reader_step (printed e) s =
    next (record s { lists = give_back e s.lists; reader = moved e (s.lists.heap e).next })
reader_step (moved e p) s =
    next (record s { lists = unlock_entry e s.lists; reader = looping false p })

-- A thread calls `usyslog`, fills its entry, or signals; the thread of `syslog_thread` makes a step,
-- or wakes up without a signal, which `pthread_cond_wait` allows.
pub data Event : Type 0 where
  call : ℕ → ℕ → List ℕ → Event
  fill : ℕ → Event
  signal : ℕ → Event
  read : Event
  wake_up : Event

abbrev pub wake_from : Reader → System → Result
wake_from (waiting h) s = next (record s { reader = starting h })
wake_from (starting h) s = blocked
wake_from (looping h p) s = blocked
wake_from sleeping s = blocked
wake_from (printing e) s = blocked
wake_from (printed e) s = blocked
wake_from (moved e p) s = blocked

abbrev pub step : Event → System → Result
step (call t priority text) s = call_from (s.writer t) (holds_list_lock s.reader) t priority text s
step (fill t) s = fill_from (s.writer t) t s
step (signal t) s = signal_from (s.writer t) t s
step read s = reader_step s.reader s
step wake_up s = wake_from s.reader s

abbrev pub go_on : (System → Result) → Result → Result
go_on f blocked = blocked
go_on f crash = crash
go_on f undefined = undefined
go_on f (next s) = f s

abbrev pub run : List Event → System → Result
run [] s = next s
run (event ∷ events) s = go_on (run events) (step event s)

-- No thread has called `usyslog` yet.
abbrev pub start : (ℕ → Ulogs) → System
start garbage = record {
  lists = init_syslog garbage;
  writer = λ t. idle;
  reader = waiting false;
  accepted = [];
  sent = [];
}

-- ===== src/Usyslog.antt =====
-- src/usyslog.c: log messages wait in a list of entries, from which a thread passes them to `syslog`.
-- The functions are cut where they release or take a lock; `System` puts the pieces together.
pub mod Chain
pub mod Entries
pub mod Represents
pub mod Take
pub mod Return
pub mod Init
pub mod System
pub mod Invariant
pub mod WriterSteps
pub mod ReaderSteps
pub mod Runs
pub mod Hang
pub mod Drain
use unionfs_fuse.Prelude.{
  ℕ, zero, suc, ◌+◌, ◌-◌, Bool, true, false, Option, none, some, List, [], take, ◌==◌,
  if◌then◌else◌,
}

-- `MAX_SYSLOG_MESSAGES` and `MAX_MSG_SIZE`
abbrev pub max_syslog_messages : ℕ
max_syslog_messages = 32

abbrev pub max_msg_size : ℕ
max_msg_size = 256

-- `ulogs_t`; `lock` is the thread that holds the lock of the entry. A pointer is the address of an
-- entry, or `none`.
pub record Ulogs : Type 0 where
  pub priority : ℕ
  pub message : List ℕ
  pub used : Bool
  pub lock : Option ℕ
  pub next : Option ℕ

-- The two lists, with their counters, and the entries.
pub record Lists : Type 0 where
  pub heap : ℕ → Ulogs
  pub free_head : Option ℕ
  pub free_bottom : Option ℕ
  pub used_head : Option ℕ
  pub used_bottom : Option ℕ
  pub free_entries : ℕ
  pub used_entries : ℕ

abbrev pub set : ℕ → Ulogs → (ℕ → Ulogs) → ℕ → Ulogs
set e entry heap a = if a == e then entry else heap a

abbrev pub set_next : ℕ → Option ℕ → (ℕ → Ulogs) → ℕ → Ulogs
set_next e p heap = set e (record (heap e) { next = p }) heap

abbrev pub set_lock : ℕ → Option ℕ → (ℕ → Ulogs) → ℕ → Ulogs
set_lock e t heap = set e (record (heap e) { lock = t }) heap

-- The entry becomes the last of the used list; `none` is a null pointer that is followed.
unfoldable pub link_used : ℕ → Lists → Option Lists
link_used log l = elim l.used_head [
  | none ↦ some (record l { used_head = some log; used_bottom = some log })
  | some h ↦ elim l.used_bottom [
    | none ↦ none
    | some b ↦ some (record l { heap = set_next b (some log) l.heap; used_bottom = some log })
  ]
]

-- The entry no longer leads to the free list, and if it was the last there is none.
unfoldable pub unlink_free : ℕ → Lists → Lists
unlink_free log l = elim (l.heap log).next [
  | some n ↦ record l { heap = set_next log none l.heap }
  | none ↦ record l { free_bottom = none }
]

unfoldable pub count_used : Lists → Lists
count_used l = record l { free_entries = l.free_entries - 1; used_entries = l.used_entries + 1 }

-- What the part of `usyslog` under `list_lock` comes to: no entry, or one that is in the used list and
-- locked.
pub data Taken : Type 0 where
  null_pointer : Taken
  dropped : Lists → Taken
  taken : ℕ → Lists → Taken

unfoldable pub take_entry : ℕ → Lists → Taken
take_entry log l = elim (link_used log l) [
  | none ↦ null_pointer
  | some l' ↦ taken log (count_used (unlink_free log l'))
]

-- The first free entry is taken by the thread. An entry that is locked or in use is dropped, and is
-- in neither list from then on.
unfoldable pub usyslog_take : ℕ → Lists → Taken
usyslog_take thread l = elim l.free_head [
  | none ↦ dropped l
  | some log ↦
      let popped = record l { free_head = (l.heap log).next } in
      elim (l.heap log).lock [
        | some t ↦ dropped popped
        | none ↦
            if (l.heap log).used
            then dropped popped
            else take_entry log (record popped { heap = set_lock log (some thread) l.heap })
      ]
]

-- The rest of `usyslog`, less the signal: `text` is what `vsnprintf` makes of the arguments.
unfoldable pub usyslog_fill : ℕ → ℕ → List ℕ → Lists → Lists
usyslog_fill log priority text l = record l {
  heap =
      set log
        (record (l.heap log) {
          message = take (max_msg_size - 1) text;
          priority = priority;
          used = true;
          lock = none;
        })
        l.heap;
}

-- `pthread_mutex_trylock` by the thread of `do_syslog`; `none` is EBUSY.
unfoldable pub trylock_entry : ℕ → ℕ → Lists → Option Lists
trylock_entry thread log l = elim (l.heap log).lock [
  | some t ↦ none
  | none ↦ some (record l { heap = set_lock log (some thread) l.heap })
]

-- After `syslog` returned.
unfoldable pub clear_used : ℕ → Lists → Lists
clear_used log l = record l { heap = set log (record (l.heap log) { used = false }) l.heap }

unfoldable pub link_free : ℕ → Lists → Lists
link_free log l = elim l.free_bottom [
  | none ↦ l
  | some b ↦ record l { heap = set_next b (some log) l.heap }
]

unfoldable pub or_else : Option ℕ → Option ℕ → Option ℕ
or_else none q = q
or_else (some a) q = some a

-- The first entry of the used list is moved to the end of the free list.
unfoldable pub give_back : ℕ → Lists → Lists
give_back log l =
    let next_entry = (l.heap log).next in
    let unlinked = record l {
      used_head = next_entry;
      used_bottom = elim next_entry [ none ↦ none | some n ↦ l.used_bottom ];
    } in
    let linked = link_free log unlinked in
    record linked {
      heap = set_next log none linked.heap;
      free_bottom = some log;
      free_head = or_else linked.free_head (some log);
      free_entries = linked.free_entries + 1;
      used_entries = linked.used_entries - 1;
    }

unfoldable pub unlock_entry : ℕ → Lists → Lists
unlock_entry log l = record l { heap = set_lock log none l.heap }

-- The loop of `init_syslog`, from entry `i` on; `malloc` gives the entry at address `i`.
unfoldable pub init_loop : ℕ → ℕ → Option ℕ → Lists → Lists
init_loop zero i last l = elim last [
  | none ↦ l
  | some e ↦ record l { heap = set_next e none l.heap; free_bottom = some e }
]
init_loop (suc rounds) i last l =
    let unused = set i (record (l.heap i) { used = false; lock = none }) l.heap in
    init_loop rounds (i + 1) (some i) (elim last [
      | none ↦ record l { heap = unused; free_head = some i }
      | some e ↦ record l { heap = set_next e (some i) unused }
    ])

-- `garbage` is what the memory of the entries holds before.
unfoldable pub init_syslog : (ℕ → Ulogs) → Lists
init_syslog garbage =
    record (init_loop max_syslog_messages 0 none (record {
      heap = garbage;
      free_head = none;
      free_bottom = none;
      used_head = none;
      used_bottom = none;
      free_entries = 0;
      used_entries = 0;
    })) { free_entries = max_syslog_messages }

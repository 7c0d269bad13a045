-- ===== src/Tests/Log.antt =====
-- Runs of the threads of src/usyslog.c.
use unionfs_fuse.Prelude.{ℕ, ◌≡◌, refl, true, some, List, [], ◌∷◌, ◌++◌, codes}
use unionfs_fuse.Usyslog.{
  Ulogs, usyslog_take, take_entry, link_used, unlink_free, count_used, usyslog_fill, trylock_entry,
  clear_used, link_free, or_else, give_back, unlock_entry, init_loop, init_syslog,
}
use unionfs_fuse.Usyslog.Represents.{Represents}
use unionfs_fuse.Usyslog.Init.{addresses, follows-Chain}
use unionfs_fuse.Usyslog.Return.{give_back-Represents}
use unionfs_fuse.Usyslog.System.{
  System, Result, blocked, crash, undefined, next, Event, call, fill, signal, read, wake_up, run,
  start,
}
use unionfs_fuse.Usyslog.Runs.{WellFormed, InOrder, run-WellFormed, run-InOrder}
use unionfs_fuse.Usyslog.Hang.{StaysStuck, run-StaysStuck}
use unionfs_fuse.Usyslog.Drain.{reads, Outcome, run-Outcome}

abbrev garbage : ℕ → Ulogs
garbage a = record { priority = 7; message = 1 ∷ []; used = true; lock = some 9; next = some a }

abbrev state_of : Result → System
state_of blocked = start garbage
state_of crash = start garbage
state_of undefined = start garbage
state_of (next s) = s

-- A message is sent, and the thread of `do_syslog` then wakes up without a signal.
abbrev one_message : List Event
one_message = call 0 4 (codes "a") ∷ fill 0 ∷ signal 0 ∷ []

abbrev one_state : System
one_state = state_of (run one_message (start garbage))

abbrev spurious : List Event
spurious = one_message ++ reads 6 ++ (wake_up ∷ read ∷ read ∷ [])

abbrev stuck_state : System
stuck_state = state_of (run spurious (start garbage))

stuck_sent : stuck_state.sent ≡ codes "a" ∷ []
unfolding usyslog_take take_entry link_used unlink_free count_used usyslog_fill trylock_entry
    clear_used link_free or_else give_back unlock_entry init_loop init_syslog
stuck_sent = refl

run-spurious : run spurious (start garbage) ≡ next stuck_state
unfolding usyslog_take take_entry link_used unlink_free count_used usyslog_fill trylock_entry
    clear_used link_free or_else give_back unlock_entry init_loop init_syslog
run-spurious = refl

-- Two threads, each with a message.
abbrev two_messages : List Event
two_messages = call 0 4 (codes "a") ∷ call 1 5 (codes "b") ∷ fill 1 ∷ fill 0 ∷ signal 0 ∷ []

abbrev woken_state : System
woken_state = state_of (run two_messages (start garbage))

run-two_messages : run (two_messages ++ reads 6) (start garbage) ≡ undefined
unfolding usyslog_take take_entry link_used unlink_free count_used usyslog_fill trylock_entry
    clear_used link_free or_else give_back unlock_entry init_loop init_syslog
run-two_messages = refl

run-StaysStuck_example :
    StaysStuck stuck_state (run (wake_up ∷ call 2 4 (codes "c") ∷ []) stuck_state)
unfolding usyslog_take take_entry link_used unlink_free count_used usyslog_fill trylock_entry
    clear_used link_free or_else give_back unlock_entry init_loop init_syslog
run-StaysStuck_example = run-StaysStuck (wake_up ∷ call 2 4 (codes "c") ∷ []) stuck_state refl

run-WellFormed_example : WellFormed (run spurious (start garbage))
run-WellFormed_example = run-WellFormed spurious garbage

run-InOrder_example : InOrder (run two_messages (start garbage))
run-InOrder_example = run-InOrder two_messages garbage

run-Outcome_example : Outcome 1 one_state 1
unfolding usyslog_take take_entry link_used unlink_free count_used usyslog_fill trylock_entry
    clear_used link_free or_else give_back unlock_entry init_loop init_syslog
run-Outcome_example = run-Outcome one_message garbage one_state refl refl refl

two_used : Represents woken_state.lists (addresses 30 2) (0 ∷ 1 ∷ [])
unfolding usyslog_take take_entry link_used unlink_free count_used usyslog_fill trylock_entry
    clear_used link_free or_else give_back unlock_entry init_loop init_syslog
two_used = record {
  free_chain =
      follows-Chain woken_state.lists.heap woken_state.lists.free_head (addresses 30 2) refl;
  used_chain = (refl, (refl, refl));
  free_end = refl;
  free_out = refl;
  used_end = refl;
  free_distinct = refl;
  used_distinct = refl;
  lists_apart = refl;
  count = refl;
}

give_back-Represents_example :
    Represents (give_back 0 woken_state.lists) (addresses 30 2 ++ (0 ∷ [])) (1 ∷ [])
give_back-Represents_example =
    give_back-Represents woken_state.lists 0 (addresses 30 2) (1 ∷ []) two_used

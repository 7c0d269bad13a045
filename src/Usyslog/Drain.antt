-- ===== src/Usyslog/Drain.antt =====
-- What the thread of `do_syslog` does after a wake-up.
use mathlib.Core.Path.{subst}
use mathlib.Core.List.{append-nil}
use unionfs_fuse.Prelude.{
  ℕ, zero, suc, ◌+◌, ◌≡◌, refl, sym, ap, ◌∙◌, true, false, Option, none, some, List, [], ◌∷◌, ◌++◌,
  map, length,
}
use unionfs_fuse.Usyslog.{Ulogs, Lists, clear_used, give_back, unlock_entry}
use unionfs_fuse.Usyslog.Return.{give_back_used_head}
use unionfs_fuse.Usyslog.System.{
  waiting, starting, looping, printed, moved, System, next, undefined, Event, read, try_entry,
  reader_step, go_on, run, start,
}
use unionfs_fuse.Usyslog.Invariant.{Inv, Keeping, pending}
use unionfs_fuse.Usyslog.Runs.{run-start-Keeping}
use unionfs_fuse.Usyslog.ReaderSteps.{
  Chain-HeadIs, locked_lists, trylock_entry-free, locked-Inv, printing-Inv, printed-Inv, moved-Inv,
}

-- Nothing but the thread of `do_syslog` runs.
abbrev pub reads : ℕ → List Event
reads zero = []
reads (suc n) = read ∷ reads n

-- The first entry in use is not locked.
abbrev pub HeadUnlocked : (ℕ → Ulogs) → Option ℕ → Type 0
HeadUnlocked heap none = Unit
HeadUnlocked heap (some e) = (heap e).lock ≡ none

-- One round of the loop.
module _ (e : ℕ) (s : System) where
  abbrev locked : Lists
  locked = locked_lists e s.lists

  abbrev cleared : Lists
  cleared = clear_used e locked

  abbrev shown : System
  shown = record s {
    lists = cleared;
    reader = printed e;
    sent = s.sent ++ ((locked.heap e).message ∷ []);
  }

  abbrev given : System
  given = record shown { lists = give_back e cleared; reader = moved e (cleared.heap e).next }

  abbrev after_round : System
  after_round = record given {
    lists = unlock_entry e (give_back e cleared);
    reader = looping false (cleared.heap e).next;
  }

  round_run :
      (n : ℕ)
      → (s.lists.heap e).lock ≡ none
      → run (reads (suc (suc (suc (suc n))))) (record s { reader = looping true (some e) })
        ≡ run (reads n) after_round
  round_run n f =
      ap
        (λ o.
          go_on (run (reads (suc (suc (suc n)))))
            (try_entry e (record s { reader = looping true (some e) }) o))
        (trylock_entry-free e s.lists f)

  round-Inv :
      (free used : List ℕ) (promise : ℕ → List ℕ)
      → (s.lists.heap e).lock ≡ none
      → Inv (record s { reader = looping true (some e) }) free (e ∷ used) promise
      → Inv after_round (free ++ (e ∷ [])) used promise
  round-Inv free used promise f I =
      let I1 = locked-Inv true e s free (e ∷ used) promise f I in
      let I2 = printing-Inv (record s { lists = locked }) free (e ∷ used) promise e I1 in
      let I3 = printed-Inv shown free used promise e I2 in
      moved-Inv e (cleared.heap e).next given (free ++ (e ∷ [])) used promise I3

  round_used_head :
      (free used : List ℕ) (promise : ℕ → List ℕ)
      → (s.lists.heap e).lock ≡ none
      → Inv (record s { reader = looping true (some e) }) free (e ∷ used) promise
      → after_round.lists.used_head ≡ (cleared.heap e).next
  unfolding unlock_entry
  round_used_head free used promise f I =
      let I1 = locked-Inv true e s free (e ∷ used) promise f I in
      let I2 = printing-Inv (record s { lists = locked }) free (e ∷ used) promise e I1 in
      give_back_used_head cleared e free used I2.lists

-- What `rounds` and more steps of the thread come to, where as many entries as told are in use: it
-- waits with `list_lock` held; it passes the message on and waits; or it passes on the first message
-- and then unlocks `list_lock` without holding it.
abbrev pub Outcome : ℕ → System → ℕ → Type 0
Outcome rounds s zero =
    (s' : System) × (run (reads (rounds + 1)) s ≡ next s')
    × (s'.sent ≡ s.accepted)
    × (s'.reader ≡ waiting true)
Outcome rounds s (suc zero) =
    (s' : System) × (run (reads (rounds + 5)) s ≡ next s')
    × (s'.sent ≡ s.accepted)
    × (s'.lists.used_entries ≡ 0)
    × (s'.reader ≡ waiting false)
Outcome rounds s (suc (suc k)) =
    (s' : System) × (message : List ℕ) × (left : List (List ℕ)) × (run (reads (rounds + 4)) s
      ≡ next s')
    × (s'.sent ≡ s.sent ++ (message ∷ []))
    × (s.accepted ≡ s'.sent ++ left)
    × (run (reads (rounds + 5)) s ≡ undefined)

loop-Outcome :
    (used : List ℕ) (p : Option ℕ) (s : System) (free : List ℕ) (promise : ℕ → List ℕ)
    → Inv (record s { reader = looping true p }) free used promise
    → p ≡ s.lists.used_head
    → HeadUnlocked s.lists.heap p
    → Outcome 0 (record s { reader = looping true p }) (length used)
loop-Outcome [] p s free promise I f k =
    let g : none ≡ p = sym (f ∙ I.lists.used_chain) in
    subst (λ o. Outcome 0 (record s { reader = looping true o }) 0) g
      (record s { reader = waiting true }, refl, sym (I.history ∙ append-nil s.sent), refl)
loop-Outcome (x ∷ []) p s free promise I f k =
    let g : some x ≡ p = sym (f ∙ I.lists.used_chain.0) in
    let k' : (s.lists.heap x).lock ≡ none = subst (HeadUnlocked s.lists.heap) (sym g) k in
    let J =
      subst (λ o. Inv (record s { reader = looping true o }) free (x ∷ []) promise) (sym g) I in
    let t = after_round x s in
    let K = round-Inv x s free [] promise k' J in
    let n : ((cleared x s).heap x).next ≡ none =
      sym (round_used_head x s free [] promise k' J) ∙ K.lists.used_chain in
    subst (λ o. Outcome 0 (record s { reader = looping true o }) 1) g
      (
        record t { reader = waiting false },
        round_run x s 1 k' ∙ ap (λ o. go_on (run []) (reader_step (looping false o) t)) n,
        sym (K.history ∙ append-nil t.sent),
        K.lists.count,
        refl,
      )
loop-Outcome (x ∷ y ∷ used) p s free promise I f k =
    let g : some x ≡ p = sym (f ∙ I.lists.used_chain.0) in
    let k' : (s.lists.heap x).lock ≡ none = subst (HeadUnlocked s.lists.heap) (sym g) k in
    let J =
      subst (λ o. Inv (record s { reader = looping true o }) free (x ∷ y ∷ used) promise) (sym g)
        I in
    let t = after_round x s in
    let K = round-Inv x s free (y ∷ used) promise k' J in
    let n : ((cleared x s).heap x).next ≡ some y =
      sym (round_used_head x s free (y ∷ used) promise k' J) ∙ K.lists.used_chain.0 in
    subst (λ o. Outcome 0 (record s { reader = looping true o }) (suc (suc (length used)))) g
      (
        t,
        ((locked x s).heap x).message,
        map promise (y ∷ used),
        round_run x s 0 k',
        refl,
        K.history,
        round_run x s 1 k' ∙ ap (λ o. go_on (run []) (reader_step (looping false o) t)) n,
      )

started-Outcome :
    (n : ℕ) (s : System)
    → s.reader ≡ starting false
    → Outcome 0 (record s { reader = looping true s.lists.used_head }) n
    → Outcome 1 s n
started-Outcome zero s r (s', q, a, b) =
    (s', ap (λ o. go_on (run (reads 1)) (reader_step o s)) r ∙ q, a, b)
started-Outcome (suc zero) s r (s', q, a, c, b) =
    (s', ap (λ o. go_on (run (reads 5)) (reader_step o s)) r ∙ q, a, c, b)
started-Outcome (suc (suc k)) s r (s', m, l, q, a, c, u) = (
  s',
  m,
  l,
  ap (λ o. go_on (run (reads 4)) (reader_step o s)) r ∙ q,
  a,
  c,
  ap (λ o. go_on (run (reads 5)) (reader_step o s)) r ∙ u,
)

-- After a wake-up in a defined run, where the first entry in use is not locked and no other thread
-- runs, the thread of `do_syslog` passes on the first message if there is one. With one entry in use
-- `syslog` has then got every message that was accepted, the list is empty, and the thread waits
-- again. With none the thread waits with `list_lock` held. With more its next step unlocks `list_lock`
-- without holding it.
pub run-Outcome :
    (events : List Event) (garbage : ℕ → Ulogs) (s : System)
    → run events (start garbage) ≡ next s
    → s.reader ≡ starting false
    → HeadUnlocked s.lists.heap s.lists.used_head
    → Outcome 1 s s.lists.used_entries
run-Outcome events garbage s q r k =
    let (free, used, promise, I) = subst Keeping q (run-start-Keeping events garbage) in
    let p = s.lists.used_head in
    let J : Inv (record s { reader = looping true p }) free used promise = record {
      lists = I.lists;
      size = I.size;
      fills = I.fills;
      filled = I.filled;
      at_entry = Chain-HeadIs s.lists.heap p used I.lists.used_chain;
      history = I.history ∙ ap (λ o. s.sent ++ map promise (pending o used)) r;
    } in
    subst (Outcome 1 s) (sym I.lists.count)
      (started-Outcome (length used) s r (loop-Outcome used p s free promise J refl k))

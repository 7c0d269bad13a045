-- ===== src/Usyslog/Take.antt =====
-- `usyslog` takes the first free entry.
use unionfs_fuse.Prelude.{
  ℕ, ◌+◌, ◌≡◌, refl, sym, ap, ◌∙◌, ◌==◌, true, false, inl, inr, none, some, List, [], ◌∷◌, ◌++◌,
  Bool-cases, Option-cases, arith,
}
use mathlib.Core.Path.{subst}
use unionfs_fuse.Usyslog.{
  Lists, set_lock, unlink_free, count_used, dropped, take_entry, usyslog_take,
}
use unionfs_fuse.Usyslog.Chain.{out, last, out-last, Chain-same}
use unionfs_fuse.Usyslog.Entries.{unlink_free-Unlinked, set-field, set_other, set_self}
use unionfs_fuse.Usyslog.Represents.{
  Represents, Keeps, AfterTake, AfterLink, link_used_run, take_entry-Represents, dropped-Represents,
}

module _ (l : Lists) (t e : ℕ) (free used : List ℕ) (r : Represents l (e ∷ free) used) where
  abbrev popped : Lists
  popped = record l { free_head = (l.heap e).next; heap = set_lock e (some t) l.heap }

  same_next : (a : ℕ) → (popped.heap a).next ≡ (l.heap a).next
  same_next = set-field (λ v. v.next) e (record (l.heap e) { lock = some t }) l.heap refl

  outside : out e used ≡ true
  outside = ground (arith, r.lists_apart)

  not_last : (c : ℕ) → last used ≡ some c → (c == e) ≡ false
  not_last c f = out-last e c used outside f

  module _ (m : Lists) (A : AfterLink e used popped m) where
    abbrev final : Lists
    final = count_used (unlink_free e m)

    linked_next_e : (m.heap e).next ≡ (l.heap e).next
    linked_next_e = A.heap.next e (λ c f. ground (arith, not_last c f)) ∙ same_next e

    final-Represents : Represents final free (used ++ (e ∷ []))
    unfolding count_used
    final-Represents =
        let U = unlink_free-Unlinked e m in
        take_entry-Represents l final e free used r
          (λ a i j. U.next a j ∙ A.heap.next a i ∙ same_next a)
          (λ c f. U.next c (not_last c f) ∙ A.heap.next_b c f) U.next_e (rw U.used_head A.used_head)
          (U.free_head ∙ A.free_head) (rw (← linked_next_e, ← A.free_bottom) U.free_bottom)
          (U.used_bottom ∙ A.used_bottom) (ap (λ n. n + 1) (U.used_entries ∙ A.used_entries))

    final-Keeps : Keeps e l.heap final.heap
    unfolding count_used
    final-Keeps =
        let U = unlink_free-Unlinked e m in
        record {
          message = λ a.
              U.message a
              ∙ A.heap.message a
              ∙ set-field (λ v. v.message) e (record (l.heap e) { lock = some t }) l.heap refl a;
          lock = λ a k. U.lock a ∙ A.heap.lock a ∙ ap (λ v. v.lock) (set_other e a _ l.heap k);
        }

    final_lock : (final.heap e).lock ≡ some t
    unfolding count_used
    final_lock =
        let U = unlink_free-Unlinked e m in
        U.lock e ∙ A.heap.lock e ∙ ap (λ v. v.lock) (set_self e _ l.heap)

  take_entry-AfterTake :
      (l.heap e).lock ≡ none → AfterTake t (e ∷ free) used l (take_entry e popped)
  unfolding take_entry
  take_entry-AfterTake k =
      let (m, q, A) =
        link_used_run e used popped
          (Chain-same l.heap popped.heap l.used_head used same_next r.used_chain) r.used_end in
      rw (take_entry, q) (free, final-Represents m A, refl, k, final_lock m A, final-Keeps m A)

pub usyslog_take-AfterTake :
    (l : Lists) (t : ℕ) (free used : List ℕ)
    → Represents l free used
    → AfterTake t free used l (usyslog_take t l)
unfolding usyslog_take
usyslog_take-AfterTake l t [] used r =
    let q : usyslog_take t l ≡ dropped l = simp (usyslog_take, r.free_chain) in
    subst (AfterTake t [] used l) (sym q) ([], r, omega arith, refl)
usyslog_take-AfterTake l t (e ∷ free) used r = elim (Option-cases (l.heap e).lock) [
  | inr (s, f) ↦
      let q : usyslog_take t l ≡ dropped (record l { free_head = (l.heap e).next }) =
        simp (usyslog_take, r.free_chain.0, f) in
      subst (AfterTake t (e ∷ free) used l) (sym q)
        (free, dropped-Represents l e free used r, omega arith, refl)
  | inl f ↦ elim (Bool-cases (l.heap e).used) [
    | inl g ↦
        let q : usyslog_take t l ≡ dropped (record l { free_head = (l.heap e).next }) =
          simp (usyslog_take, r.free_chain.0, f, g) in
        subst (AfterTake t (e ∷ free) used l) (sym q)
          (free, dropped-Represents l e free used r, omega arith, refl)
    | inr g ↦
        let q : usyslog_take t l ≡ take_entry e (popped l t e free used r) =
          simp (usyslog_take, r.free_chain.0, f, g) in
        subst (AfterTake t (e ∷ free) used l) (sym q) (take_entry-AfterTake l t e free used r f)
  ]
]

-- ===== src/Usyslog/Entries.antt =====
-- What the parts of the operations do to the entries and the pointers.
use mathlib.Core.Path.{subst}
use unionfs_fuse.Prelude.{
  ℕ, ◌≡◌, refl, sym, ap, ◌∙◌, true, false, ◌⊎◌, inl, inr, Option, none, some, ◌==◌, ==_iff,
  Bool-cases, Option-cases, arith,
}
use unionfs_fuse.Usyslog.{Ulogs, Lists, set, set_next, unlink_free}

pub self : (e : ℕ) → (e == e) ≡ true
self e = ground arith

pub set_other : (e a : ℕ) (v : Ulogs) (h : ℕ → Ulogs) → (a == e) ≡ false → set e v h a ≡ h a
set_other e a v h k = rw k refl

pub set_self : (e : ℕ) (v : Ulogs) (h : ℕ → Ulogs) → set e v h e ≡ v
set_self e v h = rw (self e) refl

-- A field that the new entry has in common with the old one is the same everywhere.
pub set-field :
    {B : Type 0} (field : Ulogs → B) (e : ℕ) (v : Ulogs) (h : ℕ → Ulogs)
    → field v ≡ field (h e)
    → (a : ℕ) → field (set e v h a) ≡ field (h a)
set-field field e v h k a = elim (Bool-cases (a == e)) [
  | inr f ↦ rw f refl
  | inl f ↦ let q : a ≡ e = (==_iff a e).0 f in rw f (k ∙ ap (λ x. field (h x)) (sym q))
]

-- The pointer to the end of the free list: reset where no entry follows.
abbrev pub NewBottom : Option ℕ → Option ℕ → Option ℕ → Type 0
NewBottom next p q = ((next ≡ none) × (q ≡ none)) ⊎ ((q ≡ p) × (n : ℕ) × (next ≡ some n))

-- What `unlink_free` leaves.
pub record Unlinked (e : ℕ) (l m : Lists) : Type 0 where
  pub next_e : (m.heap e).next ≡ none
  pub next : (a : ℕ) → (a == e) ≡ false → (m.heap a).next ≡ (l.heap a).next
  pub message : (a : ℕ) → (m.heap a).message ≡ (l.heap a).message
  pub lock : (a : ℕ) → (m.heap a).lock ≡ (l.heap a).lock
  pub free_head : m.free_head ≡ l.free_head
  pub used_head : m.used_head ≡ l.used_head
  pub used_bottom : m.used_bottom ≡ l.used_bottom
  pub used_entries : m.used_entries ≡ l.used_entries
  pub free_bottom : NewBottom (l.heap e).next l.free_bottom m.free_bottom

pub unlink_free-Unlinked : (e : ℕ) (l : Lists) → Unlinked e l (unlink_free e l)
unfolding unlink_free
unlink_free-Unlinked e l = elim (Option-cases (l.heap e).next) [
  | inl g ↦
      let q : unlink_free e l ≡ record l { free_bottom = none } = rw (unlink_free, g) refl in
      subst (Unlinked e l) (sym q) (record {
        next_e = g;
        next = λ a k. refl;
        message = λ a. refl;
        lock = λ a. refl;
        free_head = refl;
        used_head = refl;
        used_bottom = refl;
        used_entries = refl;
        free_bottom = inl (g, refl);
      })
  | inr (n, g) ↦
      let q : unlink_free e l ≡ record l { heap = set_next e none l.heap } =
        rw (unlink_free, g) refl in
      subst (Unlinked e l) (sym q) (record {
        next_e = ap (λ v. v.next) (set_self e _ l.heap);
        next = λ a k. ap (λ v. v.next) (set_other e a _ l.heap k);
        message = set-field (λ v. v.message) e _ l.heap refl;
        lock = set-field (λ v. v.lock) e _ l.heap refl;
        free_head = refl;
        used_head = refl;
        used_bottom = refl;
        used_entries = refl;
        free_bottom = inr (refl, n, g);
      })
]

-- The entry `b`, if there is one, leads to `e`.
pub record Linked (b : Option ℕ) (e : ℕ) (g h : ℕ → Ulogs) : Type 0 where
  pub next_b : (c : ℕ) → b ≡ some c → (h c).next ≡ some e
  pub next : (a : ℕ) → ((c : ℕ) → b ≡ some c → (a == c) ≡ false) → (h a).next ≡ (g a).next
  pub message : (a : ℕ) → (h a).message ≡ (g a).message
  pub lock : (a : ℕ) → (h a).lock ≡ (g a).lock

pub set_next-Linked : (c e : ℕ) (h : ℕ → Ulogs) → Linked (some c) e h (set_next c (some e) h)
set_next-Linked c e h = record {
  next_b = λ d k.
      let f : some c ≡ some d = k in
      let f' : c ≡ d = cc in rw (← f') (ap (λ v. v.next) (set_self c _ h));
  next = λ a k. ap (λ v. v.next) (set_other c a _ h (k c refl));
  message = set-field (λ v. v.message) c _ h refl;
  lock = set-field (λ v. v.lock) c _ h refl;
}

pub unchanged-Linked : (e : ℕ) (h : ℕ → Ulogs) → Linked none e h h
unchanged-Linked e h = record {
  next_b = λ c k. cc;
  next = λ a k. refl;
  message = λ a. refl;
  lock = λ a. refl;
}

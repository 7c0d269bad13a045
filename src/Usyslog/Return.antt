-- ===== src/Usyslog/Return.antt =====
-- `do_syslog` gives the first used entry back.
use mathlib.Core.Path.{subst}
use unionfs_fuse.Prelude.{
  ℕ, ◌≡◌, refl, sym, ap, ◌∙◌, ◌==◌, true, false, inl, inr, Option, none, some, List, [], ◌∷◌, ◌++◌,
  Option-cases, arith,
}
use unionfs_fuse.Usyslog.{Ulogs, Lists, set_next, link_free, or_else, give_back}
use unionfs_fuse.Usyslog.Chain.{
  Chain, out, distinct, last, apart-tail, append-apart, distinct-append, last-append, Chain-other,
}
use unionfs_fuse.Usyslog.Entries.{
  Linked, set_next-Linked, unchanged-Linked, set-field, set_other, set_self,
}
use unionfs_fuse.Usyslog.Represents.{Represents, Keeps, OutIf, EndsAt, HeadOr, linked-Chain}

-- What `link_free` makes of the lists.
record AfterLinkFree (e : ℕ) (l m : Lists) : Type 0 where
  heap : Linked l.free_bottom e l.heap m.heap
  free_head : m.free_head ≡ l.free_head
  used_head : m.used_head ≡ l.used_head
  used_bottom : m.used_bottom ≡ l.used_bottom
  used_entries : m.used_entries ≡ l.used_entries

link_free-AfterLinkFree : (e : ℕ) (l : Lists) → AfterLinkFree e l (link_free e l)
unfolding link_free
link_free-AfterLinkFree e l = elim (Option-cases l.free_bottom) [
  | inl f ↦
      let q : link_free e l ≡ l = simp (link_free, f) in
      subst (AfterLinkFree e l) (sym q) (record {
        heap = subst (λ o. Linked o e l.heap l.heap) (sym f) (unchanged-Linked e l.heap);
        free_head = refl;
        used_head = refl;
        used_bottom = refl;
        used_entries = refl;
      })
  | inr (b, f) ↦
      let q : link_free e l ≡ record l { heap = set_next b (some e) l.heap } =
        simp (link_free, f) in
      subst (AfterLinkFree e l) (sym q) (record {
        heap =
            subst (λ o. Linked o e l.heap (set_next b (some e) l.heap)) (sym f)
              (set_next-Linked b e l.heap);
        free_head = refl;
        used_head = refl;
        used_bottom = refl;
        used_entries = refl;
      })
]

-- The pointer to the end of the rest of the used list.
rest_bottom :
    (g : ℕ → Ulogs) (p b : Option ℕ) (e : ℕ) (used : List ℕ)
    → Chain g p used
    → b ≡ last (e ∷ used)
    → (elim p as (λ x. Option ℕ) [ none ↦ none | some n ↦ b ]) ≡ last used
rest_bottom g p b e [] c h = rw c refl
rest_bottom g p b e (x ∷ used) c h = rw c.0 h

HeadOr-or_else :
    (g : ℕ → Ulogs) (p : Option ℕ) (free : List ℕ) (e : ℕ)
    → Chain g p free
    → HeadOr (or_else p (some e)) p free e
unfolding or_else
HeadOr-or_else g p [] e c = rw c refl
HeadOr-or_else g p (x ∷ free) e c = rw c.0 refl

EndsAt-append : (free : List ℕ) (e : ℕ) → EndsAt (some e) (free ++ (e ∷ []))
EndsAt-append [] e = refl
EndsAt-append (x ∷ free) e = sym (last-append (x ∷ free) e)

-- An entry of the used list is changed in nothing but `e` and the entry `o`.
Chain-outside :
    (g h : ℕ → Ulogs) (p o : Option ℕ) (l : List ℕ) (e : ℕ)
    → ((a : ℕ)
        → ((c : ℕ) → o ≡ some c → (a == c) ≡ false)
        → (a == e) ≡ false
        → (h a).next ≡ (g a).next)
    → OutIf o l
    → out e l ≡ true
    → Chain g p l
    → Chain h p l
Chain-outside g h p none l e k o oe c = Chain-other g h p l e e (λ a i j. k a (λ d f. cc) j) oe oe c
Chain-outside g h p (some b) l e k o oe c =
    Chain-other g h p l b e
      (λ a i j. k a (λ d f. let f' : some b ≡ some d = f in let f'' : b ≡ d = cc in rw (← f'') i) j)
      o oe c

returned-Chain :
    (g h : ℕ → Ulogs) (p q o : Option ℕ) (free : List ℕ) (e : ℕ)
    → ((a : ℕ)
        → ((c : ℕ) → o ≡ some c → (a == c) ≡ false)
        → (a == e) ≡ false
        → (h a).next ≡ (g a).next)
    → ((c : ℕ) → o ≡ some c → (h c).next ≡ some e)
    → (h e).next ≡ none
    → EndsAt o free
    → HeadOr q p free e
    → distinct free ≡ true
    → out e free ≡ true
    → Chain g p free
    → Chain h q (free ++ (e ∷ []))
returned-Chain g h p q o [] e k hb he en hq d oe c = (hq, he)
returned-Chain g h p q o (x ∷ free) e k hb he en hq d oe c =
    linked-Chain g h p q (x ∷ free) e (λ a i j. k a (λ z f. i z (sym en ∙ f)) j)
      (λ z f. hb z (en ∙ f)) he hq d oe c

OutIf-tail : (o : Option ℕ) (e : ℕ) (used : List ℕ) → OutIf o (e ∷ used) → OutIf o used
OutIf-tail none e used h = tt
OutIf-tail (some b) e used h = ground (arith, h)

not_out :
    (o : Option ℕ) (e c : ℕ) (used : List ℕ) → OutIf o (e ∷ used) → o ≡ some c → (c == e) ≡ false
not_out none e c used h f = cc
not_out (some b) e c used h f =
    let f' : some b ≡ some c = f in let g : b ≡ c = cc in ground (arith, h, g)

module _ (l : Lists) (e : ℕ) (free used : List ℕ) (r : Represents l free (e ∷ used)) where
  abbrev unlinked : Lists
  unlinked = record l {
    used_head = (l.heap e).next;
    used_bottom = elim (l.heap e).next [ none ↦ none | some n ↦ l.used_bottom ];
  }

  abbrev linked : Lists
  linked = link_free e unlinked

  A : AfterLinkFree e unlinked linked
  A = link_free-AfterLinkFree e unlinked

  out_free : out e free ≡ true
  out_free = (apart-tail free used e r.lists_apart).1

  out_used : out e used ≡ true
  out_used = ground (arith, r.used_distinct)

  next_other :
      (a : ℕ)
      → ((c : ℕ) → l.free_bottom ≡ some c → (a == c) ≡ false)
      → (a == e) ≡ false
      → ((give_back e l).heap a).next ≡ (l.heap a).next
  unfolding give_back
  next_other a i j = ap (λ v. v.next) (set_other e a _ linked.heap j) ∙ A.heap.next a i

  next_bottom : (c : ℕ) → l.free_bottom ≡ some c → ((give_back e l).heap c).next ≡ some e
  unfolding give_back
  next_bottom c f =
      ap (λ v. v.next) (set_other e c _ linked.heap (not_out l.free_bottom e c used r.free_out f))
      ∙ A.heap.next_b c f

  next_e : ((give_back e l).heap e).next ≡ none
  unfolding give_back
  next_e = ap (λ v. v.next) (set_self e _ linked.heap)

  returned_head : HeadOr (give_back e l).free_head l.free_head free e
  unfolding give_back
  returned_head =
      subst (λ p. HeadOr (or_else p (some e)) l.free_head free e) (sym A.free_head)
        (HeadOr-or_else l.heap l.free_head free e r.free_chain)

  -- If the two lists are the chains `free` and `e ∷ used`, then after `e` was given back they are
  -- `free` with `e` at its end, and `used`, with all pointers to heads and ends and the counter right.
  pub give_back-Represents : Represents (give_back e l) (free ++ (e ∷ [])) used
  unfolding give_back
  give_back-Represents = record {
    free_chain =
        returned-Chain l.heap (give_back e l).heap l.free_head (give_back e l).free_head
          l.free_bottom free e next_other next_bottom next_e r.free_end returned_head
          r.free_distinct out_free r.free_chain;
    used_chain = rw A.used_head (
        Chain-outside l.heap (give_back e l).heap (l.heap e).next l.free_bottom used e next_other
          (OutIf-tail l.free_bottom e used r.free_out) out_used r.used_chain.1);
    free_end = EndsAt-append free e;
    free_out = out_used;
    used_end =
        A.used_bottom
        ∙ rest_bottom l.heap (l.heap e).next l.used_bottom e used r.used_chain.1 r.used_end;
    free_distinct = distinct-append free e r.free_distinct out_free;
    used_distinct = ground (arith, r.used_distinct);
    lists_apart = append-apart free used e (apart-tail free used e r.lists_apart).0 out_used;
    count = omega (arith, A.used_entries, r.count);
  }

  pub give_back-Keeps : Keeps e l.heap (give_back e l).heap
  unfolding give_back
  give_back-Keeps = record {
    message = λ a.
        set-field (λ v. v.message) e (record (linked.heap e) { next = none }) linked.heap refl a
        ∙ A.heap.message a;
    lock = λ a k. ap (λ v. v.lock) (set_other e a _ linked.heap k) ∙ A.heap.lock a;
  }

  pub give_back_lock : ((give_back e l).heap e).lock ≡ (l.heap e).lock
  unfolding give_back
  give_back_lock = ap (λ v. v.lock) (set_self e _ linked.heap) ∙ A.heap.lock e

  pub give_back_used_head : (give_back e l).used_head ≡ (l.heap e).next
  unfolding give_back
  give_back_used_head = A.used_head

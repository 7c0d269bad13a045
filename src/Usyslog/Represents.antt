-- ===== src/Usyslog/Represents.antt =====
-- The two lists of entries as the lists of their addresses, and what the operations do to those.
use mathlib.Core.Path.{subst}
use unionfs_fuse.Prelude.{
  ℕ, suc, ◌+◌, ◌≤◌, ◌≡◌, refl, sym, ◌∙◌, true, false, inl, inr, Option, none, some, List, [], ◌∷◌,
  ◌++◌, length, length-append, ◌==◌, arith,
}
use unionfs_fuse.Usyslog.{Ulogs, Lists, set_next, link_used, Taken, null_pointer, dropped, taken}
use unionfs_fuse.Usyslog.Entries.{NewBottom, Linked, set_next-Linked, unchanged-Linked}
use unionfs_fuse.Usyslog.Chain.{
  Chain, out, distinct, apart, last, last-append, out-append, distinct-append, apart-append,
  out-last, apart-last, Chain-append, Chain-same,
}

-- The pointer to the end, where the list is not empty.
abbrev pub EndsAt : Option ℕ → List ℕ → Type 0
EndsAt p [] = Unit
EndsAt p (x ∷ l) = p ≡ last (x ∷ l)

abbrev pub OutIf : Option ℕ → List ℕ → Type 0
OutIf none l = Unit
OutIf (some b) l = out b l ≡ true

-- `free` and `used` are the entries of the two lists, in order. The pointer to the end of an empty
-- free list may be stale, but leads to no entry in use.
pub record Represents (l : Lists) (free used : List ℕ) : Type 0 where
  pub free_chain : Chain l.heap l.free_head free
  pub used_chain : Chain l.heap l.used_head used
  pub free_end : EndsAt l.free_bottom free
  pub free_out : OutIf l.free_bottom used
  pub used_end : l.used_bottom ≡ last used
  pub free_distinct : distinct free ≡ true
  pub used_distinct : distinct used ≡ true
  pub lists_apart : apart free used ≡ true
  pub count : l.used_entries ≡ length used

-- A change of the entries that keeps where they lead.
pub Represents-heap :
    (l : Lists) (h : ℕ → Ulogs) (free used : List ℕ)
    → ((a : ℕ) → (h a).next ≡ (l.heap a).next)
    → Represents l free used
    → Represents (record l { heap = h }) free used
Represents-heap l h free used k r = record {
  free_chain = Chain-same l.heap h l.free_head free k r.free_chain;
  used_chain = Chain-same l.heap h l.used_head used k r.used_chain;
  free_end = r.free_end;
  free_out = r.free_out;
  used_end = r.used_end;
  free_distinct = r.free_distinct;
  used_distinct = r.used_distinct;
  lists_apart = r.lists_apart;
  count = r.count;
}

-- What an operation leaves alone in all entries, and, but for `e`, their locks.
pub record Keeps (e : ℕ) (g h : ℕ → Ulogs) : Type 0 where
  pub message : (a : ℕ) → (h a).message ≡ (g a).message
  pub lock : (a : ℕ) → (a == e) ≡ false → (h a).lock ≡ (g a).lock

abbrev pub AfterTake : ℕ → List ℕ → List ℕ → Lists → Taken → Type 0
AfterTake t free used l null_pointer = ⊥
AfterTake t free used l (dropped m) =
    (free' : List ℕ) × Represents m free' used × (length free' ≤ length free) × (m.heap ≡ l.heap)
AfterTake t free used l (taken e m) =
    (free' : List ℕ) × Represents m free' (used ++ (e ∷ []))
    × (suc (length free') ≡ length free)
    × ((l.heap e).lock ≡ none)
    × ((m.heap e).lock ≡ some t)
    × Keeps e l.heap m.heap

EndsAt-tail : (p : Option ℕ) (x : ℕ) (l : List ℕ) → EndsAt p (x ∷ l) → EndsAt p l
EndsAt-tail p x [] h = tt
EndsAt-tail p x (y ∷ l) h = h

-- The first free entry is dropped.
pub dropped-Represents :
    (l : Lists) (e : ℕ) (free used : List ℕ)
    → Represents l (e ∷ free) used
    → Represents (record l { free_head = (l.heap e).next }) free used
dropped-Represents l e free used r = record {
  free_chain = r.free_chain.1;
  used_chain = r.used_chain;
  free_end = EndsAt-tail l.free_bottom e free r.free_end;
  free_out = r.free_out;
  used_end = r.used_end;
  free_distinct = ground (arith, r.free_distinct);
  used_distinct = r.used_distinct;
  lists_apart = ground (arith, r.lists_apart);
  count = r.count;
}

-- The pointer to the head of a list that gets `e` at its end.
abbrev pub HeadOr : Option ℕ → Option ℕ → List ℕ → ℕ → Type 0
HeadOr q p [] e = q ≡ some e
HeadOr q p (x ∷ l) e = q ≡ p

-- What `link_used` makes of the lists.
pub record AfterLink (e : ℕ) (used : List ℕ) (l m : Lists) : Type 0 where
  pub heap : Linked (last used) e l.heap m.heap
  pub free_head : m.free_head ≡ l.free_head
  pub free_bottom : m.free_bottom ≡ l.free_bottom
  pub used_head : HeadOr m.used_head l.used_head used e
  pub used_bottom : m.used_bottom ≡ some e
  pub used_entries : m.used_entries ≡ l.used_entries

pub last-some : (x : ℕ) (l : List ℕ) → (b : ℕ) × (last (x ∷ l) ≡ some b)
last-some x [] = (x, refl)
last-some x (y ∷ l) = last-some y l

pub link_used_run :
    (e : ℕ) (used : List ℕ) (l : Lists)
    → Chain l.heap l.used_head used
    → l.used_bottom ≡ last used
    → (m : Lists) × (link_used e l ≡ some m) × AfterLink e used l m
unfolding link_used
link_used_run e [] l c b = (
  record l { used_head = some e; used_bottom = some e },
  rw (link_used, c) refl,
  record {
    heap = unchanged-Linked e l.heap;
    free_head = refl;
    free_bottom = refl;
    used_head = refl;
    used_bottom = refl;
    used_entries = refl;
  },
)
link_used_run e (x ∷ used) l c b =
    let (z, f) = last-some x used in
    (
      record l { heap = set_next z (some e) l.heap; used_bottom = some e },
      simp (link_used, c.0, b, f),
      record {
        heap =
            subst (λ o. Linked o e l.heap (set_next z (some e) l.heap)) (sym f)
              (set_next-Linked z e l.heap);
        free_head = refl;
        free_bottom = refl;
        used_head = refl;
        used_bottom = refl;
        used_entries = refl;
      },
    )

-- A chain with an entry behind it, where the used list was `used`.
pub linked-Chain :
    (g h : ℕ → Ulogs) (p q : Option ℕ) (used : List ℕ) (e : ℕ)
    → ((a : ℕ)
        → ((c : ℕ) → last used ≡ some c → (a == c) ≡ false)
        → (a == e) ≡ false
        → (h a).next ≡ (g a).next)
    → ((c : ℕ) → last used ≡ some c → (h c).next ≡ some e)
    → (h e).next ≡ none
    → HeadOr q p used e
    → distinct used ≡ true
    → out e used ≡ true
    → Chain g p used
    → Chain h q (used ++ (e ∷ []))
linked-Chain g h p q [] e k hb he hq d o c = (hq, he)
linked-Chain g h p q (x ∷ used) e k hb he hq d o c =
    let (z, f) = last-some x used in
    Chain-append g h q (x ∷ used) z e
      (λ a i j.
        k a (λ w u. let v : some z ≡ some w = sym f ∙ u in let v' : z ≡ w = cc in rw (← v') i) j)
      (hb z f) he f d o (rw hq c)

-- The rest of the free list is not changed.
taken-Chain :
    (g h : ℕ → Ulogs) (p : Option ℕ) (free used : List ℕ) (e : ℕ)
    → ((a : ℕ)
        → ((c : ℕ) → last used ≡ some c → (a == c) ≡ false)
        → (a == e) ≡ false
        → (h a).next ≡ (g a).next)
    → out e free ≡ true
    → apart free used ≡ true
    → Chain g p free
    → Chain h p free
taken-Chain g h p [] used e k o a c = c
taken-Chain g h p (x ∷ free) used e k o a c =
    let same : (h x).next ≡ (g x).next =
      k x (λ b f. ground (arith, apart-last (x ∷ free) used b a f)) (ground (arith, o)) in
    (
      c.0,
      taken-Chain g h (h x).next free used e k (ground (arith, o)) (ground (arith, a))
          (rw same c.1),
    )

-- The pointer to the end of the free list after its first entry was taken.
OutIf-append :
    (p : Option ℕ) (used : List ℕ) (e : ℕ)
    → OutIf p used
    → ((b : ℕ) → p ≡ some b → (e == b) ≡ false)
    → OutIf p (used ++ (e ∷ []))
OutIf-append none used e h k = tt
OutIf-append (some b) used e h k = out-append b e used h (k b refl)

end-tail :
    (g : ℕ → Ulogs) (next p q : Option ℕ) (e : ℕ) (free : List ℕ)
    → Chain g next free
    → EndsAt p (e ∷ free)
    → NewBottom next p q
    → EndsAt q free
end-tail g next p q e [] c h b = tt
end-tail g next p q e (x ∷ free) c h (inl (f, k)) = let u : some x ≡ none = sym c.0 ∙ f in cc
end-tail g next p q e (x ∷ free) c h (inr (k, n, f)) = k ∙ h

out-tail :
    (g : ℕ → Ulogs) (next p q : Option ℕ) (e : ℕ) (free used : List ℕ)
    → Chain g next free
    → EndsAt p (e ∷ free)
    → OutIf p used
    → out e free ≡ true
    → NewBottom next p q
    → OutIf q (used ++ (e ∷ []))
out-tail g next p q e free used c h k o (inl (f, u)) = rw u tt
out-tail g next p q e [] used c h k o (inr (u, n, f)) = let v : none ≡ some n = sym c ∙ f in cc
out-tail g next p q e (x ∷ free) used c h k o (inr (u, n, f)) =
    rw u (OutIf-append p used e k (λ b w. ground (arith, out-last e b (x ∷ free) o (sym h ∙ w))))

-- All pointers after the three parts of the code.
pub take_entry-Represents :
    (l m : Lists) (e : ℕ) (free used : List ℕ)
    → Represents l (e ∷ free) used
    → ((a : ℕ)
        → ((c : ℕ) → last used ≡ some c → (a == c) ≡ false)
        → (a == e) ≡ false
        → (m.heap a).next ≡ (l.heap a).next)
    → ((c : ℕ) → last used ≡ some c → (m.heap c).next ≡ some e)
    → (m.heap e).next ≡ none
    → HeadOr m.used_head l.used_head used e
    → m.free_head ≡ (l.heap e).next
    → NewBottom (l.heap e).next l.free_bottom m.free_bottom
    → m.used_bottom ≡ some e
    → m.used_entries ≡ l.used_entries + 1
    → Represents m free (used ++ (e ∷ []))
take_entry-Represents l m e free used r k hb he hh fh fb ub n =
    let oe : out e free ≡ true = ground (arith, r.free_distinct) in
    let eu : out e used ≡ true = ground (arith, r.lists_apart) in
    let au : apart free used ≡ true = ground (arith, r.lists_apart) in
    record {
      free_chain =
          rw fh (taken-Chain l.heap m.heap (l.heap e).next free used e k oe au r.free_chain.1);
      used_chain =
          linked-Chain l.heap m.heap l.used_head m.used_head used e k hb he hh r.used_distinct eu
            r.used_chain;
      free_end =
          end-tail l.heap (l.heap e).next l.free_bottom m.free_bottom e free r.free_chain.1
            r.free_end fb;
      free_out =
          out-tail l.heap (l.heap e).next l.free_bottom m.free_bottom e free used r.free_chain.1
            r.free_end r.free_out oe fb;
      used_end = ub ∙ sym (last-append used e);
      free_distinct = ground (arith, r.free_distinct);
      used_distinct = distinct-append used e r.used_distinct eu;
      lists_apart = apart-append free used e au oe;
      count = omega (arith, n, r.count, length-append used (e ∷ []));
    }

-- ===== src/Usyslog/Chain.antt =====
-- Chains of entries, and the lists of their addresses.
use unionfs_fuse.Prelude.{
  ℕ, ◌≡◌, refl, Bool, true, false, not, ◌&&◌, Option, none, some, List, [], ◌∷◌, ◌++◌, ◌==◌, arith,
}
use unionfs_fuse.Usyslog.{Ulogs}

-- The entries that are met from `p` on.
abbrev pub Chain : (ℕ → Ulogs) → Option ℕ → List ℕ → Type 0
Chain heap p [] = p ≡ none
Chain heap p (x ∷ l) = (p ≡ some x) × Chain heap (heap x).next l

-- The address is not in the list.
abbrev pub out : ℕ → List ℕ → Bool
out e [] = true
out e (x ∷ l) = not (x == e) && out e l

abbrev pub distinct : List ℕ → Bool
distinct [] = true
distinct (x ∷ l) = out x l && distinct l

-- The lists share no address.
abbrev pub apart : List ℕ → List ℕ → Bool
apart [] l = true
apart (x ∷ k) l = out x l && apart k l

abbrev pub last : List ℕ → Option ℕ
last [] = none
last (x ∷ []) = some x
last (x ∷ y ∷ l) = last (y ∷ l)

pub last-append : (l : List ℕ) (e : ℕ) → last (l ++ (e ∷ [])) ≡ some e
last-append [] e = refl
last-append (x ∷ []) e = refl
last-append (x ∷ y ∷ l) e = last-append (y ∷ l) e

pub out-append :
    (x e : ℕ) (l : List ℕ) → out x l ≡ true → (e == x) ≡ false → out x (l ++ (e ∷ [])) ≡ true
out-append x e [] h k = ground (arith, k)
out-append x e (y ∷ l) h k = ground (arith, out-append x e l, h, k)

pub distinct-append :
    (l : List ℕ) (e : ℕ) → distinct l ≡ true → out e l ≡ true → distinct (l ++ (e ∷ [])) ≡ true
distinct-append [] e h k = refl
distinct-append (x ∷ l) e h k = ground (arith, distinct-append l e, out-append x e l, h, k)

pub apart-append :
    (k l : List ℕ) (e : ℕ) → apart k l ≡ true → out e k ≡ true → apart k (l ++ (e ∷ [])) ≡ true
apart-append [] l e h o = refl
apart-append (x ∷ k) l e h o = ground (arith, apart-append k l e, out-append x e l, h, o)

pub append-apart :
    (k l : List ℕ) (e : ℕ) → apart k l ≡ true → out e l ≡ true → apart (k ++ (e ∷ [])) l ≡ true
append-apart [] l e h o = ground (arith, o)
append-apart (x ∷ k) l e h o = ground (arith, append-apart k l e, h, o)

-- An address outside of a list is not its last one.
pub out-last : (x b : ℕ) (l : List ℕ) → out x l ≡ true → last l ≡ some b → (b == x) ≡ false
out-last x b [] h e = cc
out-last x b (y ∷ []) h e = let f : some y ≡ some b = e in ground (arith, h, f)
out-last x b (y ∷ z ∷ l) h e = ground (arith, out-last x b (z ∷ l), h, e)

pub apart-last : (k l : List ℕ) (b : ℕ) → apart k l ≡ true → last l ≡ some b → out b k ≡ true
apart-last [] l b h e = refl
apart-last (x ∷ k) l b h e = ground (arith, apart-last k l b, out-last x b l, h, e)

-- The address at the head is in no tail.
pub apart-tail :
    (k l : List ℕ) (x : ℕ) → apart k (x ∷ l) ≡ true → (apart k l ≡ true) × (out x k ≡ true)
apart-tail [] l x h = (refl, refl)
apart-tail (y ∷ k) l x h = ground (arith, apart-tail k l x, h)

-- A change of other entries.
pub Chain-other :
    (g h : ℕ → Ulogs) (p : Option ℕ) (l : List ℕ) (b e : ℕ)
    → ((a : ℕ) → (a == b) ≡ false → (a == e) ≡ false → (h a).next ≡ (g a).next)
    → out b l ≡ true
    → out e l ≡ true
    → Chain g p l
    → Chain h p l
Chain-other g h p [] b e k ob oe c = c
Chain-other g h p (x ∷ l) b e k ob oe c =
    let same = k x (ground (arith, ob)) (ground (arith, oe)) in
    (
      c.0,
      Chain-other g h (h x).next l b e k (ground (arith, ob)) (ground (arith, oe)) (rw same c.1),
    )

-- The last entry of a chain is made to lead to a new one.
pub Chain-append :
    (g h : ℕ → Ulogs) (p : Option ℕ) (l : List ℕ) (b e : ℕ)
    → ((a : ℕ) → (a == b) ≡ false → (a == e) ≡ false → (h a).next ≡ (g a).next)
    → (h b).next ≡ some e
    → (h e).next ≡ none
    → last l ≡ some b
    → distinct l ≡ true
    → out e l ≡ true
    → Chain g p l
    → Chain h p (l ++ (e ∷ []))
Chain-append g h p [] b e k hb he la d o c = cc
Chain-append g h p (x ∷ []) b e k hb he la d o c =
    let f : some x ≡ some b = la in
    let f' : x ≡ b = cc in let q : (h x).next ≡ some e = rw f' hb in (c.0, (q, he))
Chain-append g h p (x ∷ y ∷ l) b e k hb he la d o c =
    let nb : (x == b) ≡ false = ground (arith, out-last x b (y ∷ l), la, d) in
    let same = k x nb (ground (arith, o)) in
    (
      c.0,
      Chain-append g h (h x).next (y ∷ l) b e k hb he la (ground (arith, d)) (ground (arith, o))
          (rw same c.1),
    )

pub Chain-same :
    (g h : ℕ → Ulogs) (p : Option ℕ) (l : List ℕ)
    → ((a : ℕ) → (h a).next ≡ (g a).next)
    → Chain g p l
    → Chain h p l
Chain-same g h p [] k c = c
Chain-same g h p (x ∷ l) k c =
    let same : (h x).next ≡ (g x).next = k x in (c.0, Chain-same g h (h x).next l k (rw same c.1))

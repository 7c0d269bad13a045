-- ===== src/Cowolf/Data/View.antt =====
-- What a reader of a sparse file must see: mapped bytes from the upper file, the others from the
-- lower one.
use unionfs_fuse.Prelude.{
  ℕ, zero, suc, ◌+◌, ◌≤◌, ◌<◌, ◌≡◌, refl, ap, Bool, true, false, List, [], ◌∷◌, ◌++◌, length, take,
  drop, if◌then◌else◌, arith,
}

-- The byte at a position, 0 beyond the end.
abbrev pub byte_at : List ℕ → ℕ → ℕ
byte_at [] i = 0
byte_at (x ∷ xs) zero = x
byte_at (x ∷ xs) (suc i) = byte_at xs i

-- The `n` bytes from `start` on.
unfoldable pub view : (ℕ → Bool) → List ℕ → List ℕ → ℕ → ℕ → List ℕ
view f upper lower start zero = []
view f upper lower start (suc n) =
    (if f start then byte_at upper start else byte_at lower start)
    ∷ view f upper lower (suc start) n

drop-cons : (xs : List ℕ) (i : ℕ) → i < length xs → drop i xs ≡ byte_at xs i ∷ drop (suc i) xs
drop-cons [] i h = absurd (omega arith)
drop-cons (x ∷ xs) zero h = refl
drop-cons (x ∷ xs) (suc i) h = drop-cons xs i (omega arith)

module _ (f : ℕ → Bool) (upper lower : List ℕ) where
  pub length-view : (start n : ℕ) → length (view f upper lower start n) ≡ n
  unfolding view
  length-view start zero = refl
  length-view start (suc n) = ap suc (length-view (suc start) n)

  pub view-add :
      (a b n start mid : ℕ)
      → n ≡ a + b
      → mid ≡ start + a
      → view f upper lower start n ≡ view f upper lower start a ++ view f upper lower mid b
  unfolding view
  view-add zero b n start mid e g =
      let e' : n ≡ b = omega arith in let g' : mid ≡ start = omega arith in rw (e', g')
  view-add (suc a) b zero start mid e g = absurd (omega arith)
  view-add (suc a) b (suc n) start mid e g =
      ap (λ t. (if f start then byte_at upper start else byte_at lower start) ∷ t)
        (view-add a b n (suc start) mid (omega arith) (omega arith))

  -- Where no byte is mapped the view is a slice of the lower file.
  pub view_unmapped :
      (n start : ℕ)
      → ((p : ℕ) → start ≤ p → p < start + n → (f p ≡ false) × (p < length lower))
      → take n (drop start lower) ≡ view f upper lower start n
  unfolding view
  view_unmapped zero start h = refl
  view_unmapped (suc n) start h =
      let here = h start (omega arith) (omega arith) in
      let rest = view_unmapped n (suc start) (λ p a b. h p (omega arith) (omega arith)) in
      rw (drop-cons lower start here.1, here.0) (ap (λ t. byte_at lower start ∷ t) rest)

  -- Where all bytes are mapped it is a slice of the upper file.
  pub view_mapped :
      (n start : ℕ)
      → ((p : ℕ) → start ≤ p → p < start + n → (f p ≡ true) × (p < length upper))
      → take n (drop start upper) ≡ view f upper lower start n
  unfolding view
  view_mapped zero start h = refl
  view_mapped (suc n) start h =
      let here = h start (omega arith) (omega arith) in
      let rest = view_mapped n (suc start) (λ p a b. h p (omega arith) (omega arith)) in
      rw (drop-cons upper start here.1, here.0) (ap (λ t. byte_at upper start ∷ t) rest)

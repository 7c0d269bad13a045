-- ===== src/Drm/Codec.antt =====
-- The bytes of `struct drmm_rec` in memory, which src/drm_file.c passes to `pwrite` and `pread` as
-- they are. The source has no code for this: that they are two 64-bit numbers without padding, with
-- the low byte first, is an assumption about the machine.
use native.Mathlib.Nat.{pow-suc}
use unionfs_fuse.Prelude.{
  ℕ, zero, suc, ◌+◌, ◌*◌, ◌/◌, ◌%◌, ◌^◌, ◌<◌, ◌≡◌, refl, ap, List, [], ◌∷◌, ◌++◌, length, take,
  drop, arith,
}
use unionfs_fuse.Drm.Mem.{DrmmRec}

-- `RECSZ`
abbrev pub recsz : ℕ
recsz = 16

-- The `w` low bytes of a number, and the number that bytes stand for.
encode_word : ℕ → ℕ → List ℕ
encode_word zero n = []
encode_word (suc w) n = n % 256 ∷ encode_word w (n / 256)

decode_word : List ℕ → ℕ
decode_word [] = 0
decode_word (b ∷ bs) = b + 256 * decode_word bs

encode_rec : DrmmRec → List ℕ
encode_rec r = encode_word 8 r.off_start ++ encode_word 8 r.off_end

pub encode_recs : List DrmmRec → List ℕ
encode_recs [] = []
encode_recs (r ∷ rs) = encode_rec r ++ encode_recs rs

decode_rec : List ℕ → DrmmRec
decode_rec bs = record {
  off_start = decode_word (take 8 bs);
  off_end = decode_word (take 8 (drop 8 bs));
}

-- The array of `n` records that starts at the first byte.
pub decode_recs : ℕ → List ℕ → List DrmmRec
decode_recs zero bs = []
decode_recs (suc n) bs = decode_rec bs ∷ decode_recs n (drop 16 bs)

decode_word-encode_word : (w n : ℕ) → n < 256 ^ w → decode_word (encode_word w n) ≡ n
unfolding encode_word decode_word
decode_word-encode_word zero n h = omega arith
decode_word-encode_word (suc w) n h =
    let h' : n < 256 ^ w * 256 = rw pow-suc at h in
    omega (arith, decode_word-encode_word w (n / 256) (omega arith))

abbrev pub FitsWord : DrmmRec → Type 0
FitsWord r = (r.off_start < 2 ^ 64) × (r.off_end < 2 ^ 64)

abbrev pub AllFit : List DrmmRec → Type 0
AllFit [] = Unit
AllFit (r ∷ rs) = FitsWord r × AllFit rs

decode_rec-encode_rec :
    (r : DrmmRec) (rest : List ℕ) → FitsWord r → decode_rec (encode_rec r ++ rest) ≡ r
unfolding decode_rec encode_rec encode_word
decode_rec-encode_rec r rest h = λ i. record {
  off_start = decode_word-encode_word 8 r.off_start h.0 i;
  off_end = decode_word-encode_word 8 r.off_end h.1 i;
}

drop-encode_rec : (r : DrmmRec) (rest : List ℕ) → drop 16 (encode_rec r ++ rest) ≡ rest
unfolding encode_rec encode_word
drop-encode_rec r rest = refl

-- Records of 64-bit numbers are read back as they were written.
pub decode_recs-encode_recs :
    (rs : List DrmmRec) → AllFit rs → decode_recs (length rs) (encode_recs rs) ≡ rs
unfolding decode_recs encode_recs
decode_recs-encode_recs [] h = refl
decode_recs-encode_recs (r ∷ rs) h =
    rw (decode_rec-encode_rec r (encode_recs rs) h.0, drop-encode_rec r (encode_recs rs))
      (ap (λ t. r ∷ t) (decode_recs-encode_recs rs h.1))

pub length-encode_recs : (rs : List DrmmRec) → length (encode_recs rs) ≡ length rs * 16
unfolding encode_recs encode_rec encode_word
length-encode_recs [] = omega arith
length-encode_recs (r ∷ rs) = omega (arith, length-encode_recs rs)

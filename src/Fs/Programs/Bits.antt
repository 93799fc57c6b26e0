-- ===== src/Fs/Programs/Bits.antt =====
-- The buffer of `bits` in 06_alloc_blocks.c and 08_create_file.c.
use inside_the_cpu_storage_a.Base.{
  ℕ, suc, ◌+◌, ◌*◌, ◌%◌, ◌<◌, ◌≡◌, refl, ap, ◌∙◌, inl, inr, Bool, true, false, ◌&&◌, List, [], ◌∷◌,
  arith, length, ltb, ◌==◌, if◌then◌else◌, Bool-cases,
}
use inside_the_cpu_storage_a.Fs.{Bitmap}
use inside_the_cpu_storage_a.Fs.Programs.{digit, bits_from, bits}

bits_from-length :
    (room i k : ℕ) (us : Bitmap) → k < room → k + length (bits_from room i k us) < room
unfolding bits_from
bits_from-length room i k [] h = omega arith
bits_from-length room i k (u ∷ us) h = elim (Bool-cases (ltb (k + 2) room)) [
  | inl e ↦ ground (
    arith,
    bits_from-length room (suc i) (k + 2) us (ground arith),
    bits_from-length room (suc i) (k + 1) us (ground arith),
  )
  | inr e ↦ rw e (omega arith)
]

-- the bytes that are not spaces
abbrev pub digits : List ℕ → List ℕ
digits [] = []
digits (c ∷ line) = if c == 32 then digits line else c ∷ digits line

abbrev pub shown : Bitmap → List ℕ
shown [] = []
shown (u ∷ us) = digit u ∷ shown us

digits_keep : (u : Bool) (line : List ℕ) → digits (digit u ∷ line) ≡ digit u ∷ digits line
digits_keep true line = refl
digits_keep false line = refl

-- the buffer holds the rest of the line: two bytes for a block
bits_from-digits :
    (room i k : ℕ) (us : Bitmap)
    → k + 2 * length us < room
    → digits (bits_from room i k us) ≡ shown us
unfolding bits_from
bits_from-digits room i k [] h = refl
bits_from-digits room i k (u ∷ us) h =
    ap (λ b. digits (if b then line else [])) {y = true} (ground arith)
    ∙ by_gap (ltb 0 i && (i % 8 == 0)) (bits_from-digits room (suc i) (k + 2) us (omega arith))
        (bits_from-digits room (suc i) (k + 1) us (omega arith))
  where
    line : List ℕ
    line =
        if ltb 0 i && (i % 8 == 0)
        then 32 ∷ digit u ∷ bits_from room (suc i) (k + 2) us
        else digit u ∷ bits_from room (suc i) (k + 1) us

    by_gap :
        (gap : Bool)
        → digits (bits_from room (suc i) (k + 2) us) ≡ shown us
        → digits (bits_from room (suc i) (k + 1) us) ≡ shown us
        → digits (
            if gap
            then 32 ∷ digit u ∷ bits_from room (suc i) (k + 2) us
            else digit u ∷ bits_from room (suc i) (k + 1) us)
          ≡ digit u ∷ shown us
    by_gap true far near =
        digits_keep u (bits_from room (suc i) (k + 2) us) ∙ ap (λ t. digit u ∷ t) far
    by_gap false far near =
        digits_keep u (bits_from room (suc i) (k + 1) us) ∙ ap (λ t. digit u ∷ t) near

-- With a buffer that is not empty, `bits` leaves room for the end of the string. When the buffer has more than
-- two bytes for each block, the line has a digit for every block in order and no other byte but spaces.
pub bits_lem :
    (used : Bitmap) (room : ℕ)
    → 0 < room
    → (length (bits used room) < room)
      × (2 * length used < room → digits (bits used room) ≡ shown used)
unfolding bits
bits_lem used room h = (
  omega (arith, bits_from-length room 0 0 used h),
  λ k. bits_from-digits room 0 0 used (omega arith),
)

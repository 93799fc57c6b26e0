-- ===== src/Fs/Programs/Gather.antt =====
-- The loop of 06_alloc_blocks.c that asks `fs_alloc` until the need is covered.
use inside_the_cpu_storage_a.Base.{
  ℕ, zero, suc, ◌-◌, ◌≤◌, ◌<◌, ◌≡◌, ◌⊎◌, inl, inr, refl, ◌∙◌, Option, some, List, [], ◌∷◌, arith,
  ◌>>=◌,
}
use inside_the_cpu_storage_a.Fs.{Extent, Bitmap, fs_alloc}
use inside_the_cpu_storage_a.Fs.Bitmap.{free, covered, fs_alloc_lem, Extended}
use inside_the_cpu_storage_a.Fs.Programs.{gather}

-- what the loop comes to
abbrev pub Gathered : ℕ → Bitmap → Option (Bitmap × List Extent) → Type 0
Gathered need used o =
    (used' : Bitmap) × (es : List Extent) × (o ≡ some (used', es))
    × Extended need need used used' es
    × ((covered es ≡ need) ⊎ (free used' ≡ 0))

module _ (need : ℕ) (used : Bitmap) where
  abbrev used₁ : Bitmap
  used₁ = (fs_alloc (suc need) used).0

  abbrev e : Extent
  e = (fs_alloc (suc need) used).1

  -- one turn of the loop
  one-Gathered :
      (rest : Option (Bitmap × List Extent)) (n : ℕ)
      → e.count ≡ n
      → (0 < n → Gathered (suc need - e.count) used₁ rest)
      → Gathered
          (suc need)
          used
          (elim n [ zero ↦ some (used₁, []) | suc k ↦ rest >>= λ r. some (r.0, e ∷ r.1) ])
  one-Gathered rest zero h rec =
      let (bits, frees, at_most, first, some_free, stops, size) = fs_alloc_lem (suc need) used in
      let full : free used₁ ≡ 0 = ground (arith, some_free (omega arith)) in
      (
        used₁,
        [],
        refl,
        record {
          bits = λ b. ground (arith, bits b);
          frees = omega (arith, frees);
          at_most = omega arith;
          slots_left = omega arith;
          enough = inr (inr full);
          same_length = size;
        },
        inr full,
      )
  one-Gathered rest (suc n) h rec =
      let (bits, frees, at_most, first, some_free, stops, size) = fs_alloc_lem (suc need) used in
      let (last, es, run, r, enough) = rec (omega arith) in
      (
        last,
        e ∷ es,
        rw run refl,
        record {
          bits = λ b. omega (arith, r.bits b, bits b);
          frees = omega (arith, r.frees, frees);
          at_most = omega (arith, r.at_most, at_most);
          slots_left = omega (arith, r.slots_left);
          enough = elim enough [ inl a ↦ inl (omega (arith, at_most)) | inr a ↦ inr (inr a) ];
          same_length = r.same_length ∙ size;
        },
        elim enough [ inl a ↦ inl (omega (arith, at_most)) | inr a ↦ inr a ],
      )

-- The loop ends within as many turns as blocks are needed. Its extents hold blocks that were free, and no
-- other block changes; they cover the need exactly, unless the disk is full.
pub gather_lem :
    (fuel need : ℕ) (used : Bitmap) → need ≤ fuel → Gathered need used (gather fuel need used)
unfolding gather
gather_lem fuel zero used h = (
  used,
  [],
  refl,
  record {
    bits = λ b. omega arith;
    frees = omega arith;
    at_most = omega arith;
    slots_left = omega arith;
    enough = inl refl;
    same_length = refl;
  },
  inl refl,
)
gather_lem zero (suc need) used h = elim h [ ]
gather_lem (suc fuel) (suc need) used h = one-Gathered need used _ _ refl (λ k.
    gather_lem fuel (suc need - (fs_alloc (suc need) used).1.count) (fs_alloc (suc need) used).0
      (omega arith))

-- ===== src/Fs/Bitmap.antt =====
-- `fs_alloc` of 06_alloc_blocks.c, the loop of `fs_create` over it, and the freeing of extents, block by
-- block.
use inside_the_cpu_storage_a.Base.{
  ℕ, zero, suc, ◌+◌, ◌-◌, ◌≤◌, ◌<◌, ◌≡◌, ◌⊎◌, inl, inr, refl, ap, ◌∙◌, Bool, true, false, ◌&&◌,
  List, [], ◌∷◌, arith, length, get_or, set, length-set, total, ltb, leb, ◌==◌, if◌then◌else◌,
}
use inside_the_cpu_storage_a.Fs.{
  Extent, Bitmap, free_one, grow_run, alloc_from, fs_alloc, extend, clear_run, clear_all,
}

abbrev pub one_if : Bool → ℕ
one_if b = if b then 1 else 0

-- 1 for a block in use
abbrev pub bit : Bitmap → ℕ → ℕ
bit us b = one_if (get_or us b false)

-- 1 for a block of the extent
abbrev pub inside : ℕ → Extent → ℕ
inside b e = one_if (leb e.start b && ltb b (e.start + e.count))

-- the number of free blocks
abbrev pub free : Bitmap → ℕ
free us = total free_one us

abbrev pub covered : List Extent → ℕ
covered es = total (λ e. e.count) es

grow_run-bit :
    (want : ℕ) (us : Bitmap) (b : ℕ)
    → bit (grow_run want us).0 b ≡ bit us b + one_if (ltb b (grow_run want us).1)
unfolding grow_run
grow_run-bit want [] b = ground arith
grow_run-bit zero (u ∷ us) b = ground arith
grow_run-bit (suc want) (true ∷ us) b = ground arith
grow_run-bit (suc want) (false ∷ us) zero = ground arith
grow_run-bit (suc want) (false ∷ us) (suc b) = ground (arith, grow_run-bit want us b)

grow_run-free :
    (want : ℕ) (us : Bitmap)
    → let (us', n) = grow_run want us in
      (free us' + n ≡ free us) × (n ≤ want) × (length us' ≡ length us)
unfolding grow_run
grow_run-free want [] = omega arith
grow_run-free zero (u ∷ us) = omega arith
grow_run-free (suc want) (true ∷ us) = omega arith
grow_run-free (suc want) (false ∷ us) = omega (arith, grow_run-free want us)

-- The run stops at the end, at the count that is wanted, or at a block in use.
grow_run-stop :
    (want : ℕ) (us : Bitmap)
    → let (us', n) = grow_run want us in (n ≡ want) ⊎ ((n ≡ length us) ⊎ (bit us n ≡ 1))
unfolding grow_run
grow_run-stop want [] = inr (inl refl)
grow_run-stop zero (u ∷ us) = inl refl
grow_run-stop (suc want) (true ∷ us) = inr (inr refl)
grow_run-stop (suc want) (false ∷ us) = elim (grow_run-stop want us) [
  | inl a ↦ inl (ap suc a)
  | inr (inl a) ↦ inr (inl (ap suc a))
  | inr (inr a) ↦ inr (inr a)
]

-- What `e` and `us'` are for a call with `want` blocks on the blocks from `b` on.
record Run (want b : ℕ) (us us' : Bitmap) (e : Extent) : Type 0 where
  bits : (i : ℕ) → bit us' i ≡ bit us i + inside (b + i) e
  frees : free us' + e.count ≡ free us
  at_most : e.count ≤ want
  same_length : length us' ≡ length us
  from : b ≤ e.start
  first : (i : ℕ) → b + i < e.start → bit us i ≡ 1
  some_free : 0 < want → 0 < free us → 0 < e.count
  stops :
      (e.count ≡ want)
      ⊎ ((e.start + e.count ≡ b + length us) ⊎ (bit us (e.start + e.count - b) ≡ 1))

grow_run-some : (want : ℕ) (us : Bitmap) → 0 < want → 0 < (grow_run want (false ∷ us)).1
unfolding grow_run
grow_run-some zero us h = elim h [ ]
grow_run-some (suc want) us h = omega arith

-- The first block is in use: the run is that of the others.
module _ {want b : ℕ} {us us' : Bitmap} {e : Extent} (r : Run want (suc b) us us' e) where
  later-bits : (i : ℕ) → bit (true ∷ us') i ≡ bit (true ∷ us) i + inside (b + i) e
  later-bits zero = ground (arith, r.from)
  later-bits (suc i) = r.bits i ∙ ap (λ k. bit us i + inside k e) (omega arith)

  later-first : (i : ℕ) → b + i < e.start → bit (true ∷ us) i ≡ 1
  later-first zero h = refl
  later-first (suc i) h = r.first i (omega arith)

  later-Run : Run want b (true ∷ us) (true ∷ us') e
  later-Run = record {
    bits = later-bits;
    frees = omega (arith, r.frees);
    at_most = r.at_most;
    same_length = ap suc r.same_length;
    from = omega (arith, r.from);
    first = later-first;
    some_free = λ h k. r.some_free h (omega arith);
    stops = elim r.stops [
      | inl a ↦ inl a
      | inr (inl a) ↦ inr (inl (omega arith))
      | inr (inr a) ↦ inr (
          inr (
            ap (bit (true ∷ us)) {y = suc (e.start + e.count - suc b)} (omega (arith, r.from)) ∙ a))
    ];
  }

alloc_from-Run :
    (want b : ℕ) (us : Bitmap) → Run want b us (alloc_from want b us).0 (alloc_from want b us).1
unfolding alloc_from
alloc_from-Run want b [] = record {
  bits = λ i. ground arith;
  frees = refl;
  at_most = omega arith;
  same_length = refl;
  from = omega arith;
  first = λ i h. let absurd : ⊥ = omega arith in elim absurd [ ];
  some_free = λ h k. elim k [ ];
  stops = inr (inl refl);
}
alloc_from-Run want b (true ∷ us) = later-Run (alloc_from-Run want (suc b) us)
alloc_from-Run want b (false ∷ us) =
    let (frees, at_most, size) = grow_run-free want (false ∷ us) in
    let n = (grow_run want (false ∷ us)).1 in
    record {
      bits =
          λ i. grow_run-bit want (false ∷ us) i ∙ ap (λ k. bit (false ∷ us) i + k) (ground arith);
      frees = frees;
      at_most = at_most;
      same_length = size;
      from = omega arith;
      first = λ i h. let absurd : ⊥ = omega arith in elim absurd [ ];
      some_free = λ h k. grow_run-some want us h;
      stops = elim (grow_run-stop want (false ∷ us)) [
        | inl a ↦ inl a
        | inr (inl a) ↦ inr (inl (ap (λ k. b + k) a))
        | inr (inr a) ↦ inr (inr (ap (bit (false ∷ us)) {x = b + n - b} {y = n} (omega arith) ∙ a))
      ];
    }

-- `fs_alloc` gives the first run of free blocks, up to the number wanted: every block before its
-- start is in use, and it ends only at that number, at the end of the bitmap, or at a block
-- in use. Its blocks, all free before, are in use afterwards and no other block changes; it is empty
-- only when nothing is wanted or no block is free.
pub fs_alloc_lem :
    (want : ℕ) (us : Bitmap)
    → let (us', e) = fs_alloc want us in
      ((b : ℕ) → bit us' b ≡ bit us b + inside b e)
      × (free us' + e.count ≡ free us)
      × (e.count ≤ want)
      × ((b : ℕ) → b < e.start → bit us b ≡ 1)
      × (0 < want → 0 < free us → 0 < e.count)
      × ((e.count ≡ want) ⊎ ((e.start + e.count ≡ length us) ⊎ (bit us (e.start + e.count) ≡ 1)))
      × (length us' ≡ length us)
unfolding fs_alloc
fs_alloc_lem want us =
    let r = alloc_from-Run want 0 us in
    let e = (alloc_from want 0 us).1 in
    (
      λ b. r.bits b ∙ ap (λ k. bit us b + inside k e) (omega arith),
      r.frees,
      r.at_most,
      λ b h. r.first b (omega arith),
      r.some_free,
      elim r.stops [
        | inl a ↦ inl a
        | inr (inl a) ↦ inr (inl (omega arith))
        | inr (inr a) ↦ inr (inr (ap (bit us) {x = e.start + e.count} (omega arith) ∙ a))
      ],
      r.same_length,
    )

-- What the loop of `fs_create` does to the bitmap.
pub record Extended (slots need : ℕ) (us us' : Bitmap) (es : List Extent) : Type 0 where
  pub bits : (b : ℕ) → bit us' b ≡ bit us b + total (inside b) es
  pub frees : free us' + covered es ≡ free us
  pub at_most : covered es ≤ need
  pub slots_left : length es ≤ slots
  pub enough : (covered es ≡ need) ⊎ ((length es ≡ slots) ⊎ (free us' ≡ 0))
  pub same_length : length us' ≡ length us

pub extend-Extended :
    (slots need : ℕ) (us : Bitmap)
    → Extended slots need us (extend slots need us).0 (extend slots need us).1
unfolding extend
extend-Extended zero need us = record {
  bits = λ b. omega arith;
  frees = omega arith;
  at_most = omega arith;
  slots_left = omega arith;
  enough = inr (inl refl);
  same_length = refl;
}
extend-Extended (suc slots) zero us = record {
  bits = λ b. omega arith;
  frees = omega arith;
  at_most = omega arith;
  slots_left = omega arith;
  enough = inl refl;
  same_length = refl;
}
extend-Extended (suc slots) (suc n) us =
    let (bits, frees, at_most, first, some_free, stops, size) = fs_alloc_lem (suc n) us in
    let us₁ = (fs_alloc (suc n) us).0 in
    let e = (fs_alloc (suc n) us).1 in
    let r = extend-Extended slots (suc n - e.count) us₁ in
    record {
      bits = λ b. omega (arith, r.bits b, bits b);
      frees = omega (arith, r.frees, frees);
      at_most = omega (arith, r.at_most, at_most);
      slots_left = omega (arith, r.slots_left);
      enough = elim r.enough [
        | inl a ↦ inl (omega (arith, at_most))
        | inr (inl a) ↦ inr (inl (ap suc a))
        | inr (inr a) ↦ inr (inr a)
      ];
      same_length = r.same_length ∙ size;
    }

set-false : (us : Bitmap) (i b : ℕ) → bit (set us i false) b ≡ (if i == b then 0 else bit us b)
set-false [] i b = ground arith
set-false (u ∷ us) zero zero = refl
set-false (u ∷ us) zero (suc b) = ground arith
set-false (u ∷ us) (suc i) zero = ground arith
set-false (u ∷ us) (suc i) (suc b) = set-false us i b ∙ ground arith

clear_run-bit :
    (s n : ℕ) (us : Bitmap) (b : ℕ)
    → (bit (clear_run s n us) b ≡ (if leb s b && ltb b (s + n) then 0 else bit us b))
      × (length (clear_run s n us) ≡ length us)
unfolding clear_run
clear_run-bit s zero us b = (ground arith, refl)
clear_run-bit s (suc n) us b =
    let (bits, size) = clear_run-bit (suc s) n (set us s false) b in
    (bits ∙ ground (arith, set-false us s b), size ∙ length-set us s false)

-- Clearing extents that lie in blocks in use, and share none, frees these blocks and no other.
pub clear_all-bit :
    (es : List Extent) (us : Bitmap)
    → ((b : ℕ) → total (inside b) es ≤ bit us b)
    → (b : ℕ) → bit (clear_all es us) b + total (inside b) es ≡ bit us b
unfolding clear_all
clear_all-bit [] us h b = omega arith
clear_all-bit (e ∷ es) us h b =
    let one : (c : ℕ) → bit (clear_run e.start e.count us) c + inside c e ≡ bit us c =
      λ c. ground (arith, (clear_run-bit e.start e.count us c).0, h c) in
    let rest = clear_all-bit es (clear_run e.start e.count us) (λ c. omega (arith, h c, one c)) b in
    omega (arith, rest, one b)

pub length-clear_all : (es : List Extent) (us : Bitmap) → length (clear_all es us) ≡ length us
unfolding clear_all
length-clear_all [] us = refl
length-clear_all (e ∷ es) us =
    length-clear_all es (clear_run e.start e.count us) ∙ (clear_run-bit e.start e.count us 0).1

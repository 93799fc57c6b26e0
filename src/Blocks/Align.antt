-- ===== src/Blocks/Align.antt =====
-- `locate`, the partitions and the rounding of 02-storage-lab-blocks-sectors-pages-in-10-minutes.
use inside_the_cpu_storage_a.Base.{
  ap, ap₂, ◌∙◌, ℕ, ◌+◌, ◌-◌, ◌*◌, ◌/◌, ◌%◌, ◌≤◌, ◌<◌, ◌≡◌, arith, is_some, not,
}
use native.Mathlib.Nat.{div-add-mod, mod-lt, mul-mod_left}
use inside_the_cpu_storage_a.Blocks.{
  plus, minus, u64, k_block, k_sector, locate, back, Partition, is_aligned, straddles, align_down,
  align_up,
}

-- A located byte is the offset that was asked for, by its sector in the partition and by its block,
-- wherever the partition starts on the device; the remainders are in range, and the block begins
-- a whole number of sectors before the sector.
pub back-locate :
    (part_start_lba offset : ℕ)
    → offset < u64
    → part_start_lba + offset / k_sector < u64
    → let w = locate part_start_lba offset in
      (back part_start_lba w ≡ (offset, offset))
      × (w.in_sector < k_sector)
      × (w.in_block < k_block)
      × (w.lba ≡ part_start_lba + w.block * 8 + w.in_block / k_sector)
unfolding locate back
back-locate p o h k =
    (ap₂ (λ a b. (a, b)) (omega arith) (omega arith), omega arith, omega arith, omega arith)

-- On a drive with physical sectors of 4096 bytes, block 0 of a partition straddles two of them exactly
-- when the partition is not aligned to these.
pub straddles-is_aligned :
    (p : Partition)
    → p.start * k_sector + k_block ≤ u64
    → is_some (straddles p k_block) ≡ not (is_aligned p k_block)
unfolding straddles is_aligned
straddles-is_aligned p h = ground arith

multiple : (x a : ℕ) → 0 < a → (x / a * a ≤ x) × (x < x / a * a + a)
multiple x a h = grind (arith, div-add-mod x a, mod-lt x {m = a} h)

small : (x : ℕ) → x < u64 → x % u64 ≡ x
small x h = omega arith

-- Rounding down and up gives the multiples of `a` around `x`, each less than `a` away, when the sum of
-- the two does not wrap around.
pub align_lem :
    (x a : ℕ)
    → 0 < a
    → x + a < u64
    → (align_down x a ≤ x)
      × (x < align_down x a + a)
      × (x ≤ align_up x a)
      × (align_up x a < x + a)
      × (align_down x a % a ≡ 0)
      × (align_up x a % a ≡ 0)
unfolding align_down align_up
align_lem x a h k =
    let (below, above) = multiple x a h in
    let (below', above') = multiple (x + a - 1) a h in
    let sum : minus (plus x a) 1 ≡ x + a - 1 = omega arith in
    let up : align_up x a ≡ (x + a - 1) / a * a =
      ap (λ y. y / a * a % u64) sum ∙ small ((x + a - 1) / a * a) (omega arith) in
    (
      below,
      above,
      omega (arith, up),
      omega (arith, up),
      mul-mod_left (x / a) a,
      ap (λ y. y % a) up ∙ mul-mod_left ((x + a - 1) / a) a,
    )

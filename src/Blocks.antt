-- ===== src/Blocks.antt =====
-- Sectors and blocks of 02-storage-lab-blocks-sectors-pages-in-10-minutes: `locate` of
-- 08_offset_to_lba.c, the block device of 09_misaligned_write.c, the partitions of
-- 10_partition_alignment.c, and the rounding of 11_align_io.c. Offsets are uint64_t, so sums and
-- differences are taken modulo 2 ^ 64. Bytes in memory are a function from indexes.
pub mod Align
pub mod Device
pub mod Run
mod Tests
use inside_the_cpu_storage_a.Base.{
  ℕ, zero, suc, ◌+◌, ◌-◌, ◌*◌, ◌/◌, ◌%◌, ◌^◌, Bool, true, false, not, ◌&&◌, ◌||◌, Option, none,
  some, List, [], ◌∷◌, ltb, leb, ◌==◌, if◌then◌else◌, ◌>>=◌, String,
}

abbrev pub k_sector : ℕ
k_sector = 512

abbrev pub k_block : ℕ
k_block = 4096

abbrev pub u64 : ℕ
u64 = 2 ^ 64

-- sums and differences of uint64_t
abbrev pub plus : ℕ → ℕ → ℕ
plus a b = (a + b) % u64

abbrev pub minus : ℕ → ℕ → ℕ
minus a b = (a + u64 - b) % u64

pub record Where : Type 0 where
  pub lba : ℕ
  pub in_sector : ℕ
  pub block : ℕ
  pub in_block : ℕ

unfoldable pub locate : ℕ → ℕ → Where
locate part_start_lba offset = record {
  lba = plus part_start_lba (offset / k_sector);
  in_sector = offset % k_sector;
  block = offset / k_block;
  in_block = offset % k_block;
}

-- the test of the main function: the bytes that a place stands for, by sector and by block
unfoldable pub back : ℕ → Where → ℕ × ℕ
back part_start_lba w = (
  plus (minus w.lba part_start_lba * k_sector % u64) w.in_sector,
  plus (w.block * k_block % u64) w.in_block,
)

-- the loop of the main function of 08_offset_to_lba.c
unfoldable pub all_back : ℕ → List ℕ → Bool
unfolding locate back
all_back part_start_lba [] = true
all_back part_start_lba (offset ∷ offsets) =
    let (by_sector, by_block) = back part_start_lba (locate part_start_lba offset) in
    by_sector == offset && (by_block == offset && all_back part_start_lba offsets)

pub record Partition : Type 0 where
  pub name : String
  pub start : ℕ
  pub count : ℕ

unfoldable pub is_aligned : Partition → ℕ → Bool
is_aligned p physical = p.start * k_sector % u64 % physical == 0

-- what `report` finds of file system block 0: `some` for the two physical sectors that it straddles
unfoldable pub straddles : Partition → ℕ → Option (ℕ × ℕ)
straddles p physical =
    let first_byte = p.start * k_sector % u64 in
    let first_phys = first_byte / physical in
    let last_phys = minus (plus first_byte k_block) 1 / physical in
    if ltb physical k_block || first_phys == last_phys then none else some (first_phys, last_phys)

-- `ALIGN_DOWN` and `ALIGN_UP` on uint64_t
unfoldable pub align_down : ℕ → ℕ → ℕ
align_down x a = x / a * a

unfoldable pub align_up : ℕ → ℕ → ℕ
align_up x a = minus (plus x a) 1 / a * a % u64

unfoldable pub blocks_touched : ℕ → ℕ → ℕ
blocks_touched offset len =
    let first = offset / k_block in
    let last = minus (plus offset len) 1 / k_block in plus (minus last first) 1

abbrev pub Bytes : Type 0
Bytes = ℕ → ℕ

pub record ModelDevice : Type 0 where
  pub media : Bytes
  pub size : ℕ
  pub block_reads : ℕ
  pub block_writes : ℕ

-- `device_init`, when `calloc` succeeds
unfoldable pub device_init : ℕ → ModelDevice
device_init count = record {
  media = λ a. 0;
  size = count * k_block % u64;
  block_reads = 0;
  block_writes = 0;
}

-- `memcpy(to + at, from + start, n)`
abbrev pub copy : Bytes → ℕ → Bytes → ℕ → ℕ → Bytes
copy to at from start n a = if leb at a && ltb a (at + n) then from (start + (a - at)) else to a

-- the part of the range in block `b`: its first byte, and the byte behind its last
abbrev pub low : ℕ → ℕ → ℕ
low offset b = if ltb (b * k_block) offset then offset else b * k_block

abbrev pub high : ℕ → ℕ → ℕ
high end b = if ltb end ((b + 1) * k_block) then end else (b + 1) * k_block

-- the body of the loop of `device_write` for block `b`; `none` is a block past the media; where the end wraps around
-- below the start, the copy is longer than `staging`, and what it writes past that is left out
unfoldable pub write_block : ModelDevice → ℕ → Bytes → ℕ → ℕ → Option ModelDevice
write_block dev offset src len b =
    let lo = low offset b in
    let hi = high (plus offset len) b in
    let bytes = minus hi lo in
    let part = not (bytes == k_block) in
    let old : Bytes = if part then copy (λ a. 0) 0 dev.media (b * k_block) k_block else (λ a. 0) in
    let staging : Bytes = copy old (lo - b * k_block) src (lo - offset) bytes in
    if leb ((b + 1) * k_block) dev.size
    then some (record dev {
      media = copy dev.media (b * k_block) staging 0 k_block;
      block_reads = dev.block_reads + (if part then 1 else 0);
      block_writes = dev.block_writes + 1;
    })
    else none

-- the rounds of the loop from block `b` on, `n` of them
unfoldable pub write_blocks : ModelDevice → ℕ → Bytes → ℕ → ℕ → ℕ → Option ModelDevice
unfolding write_block
write_blocks dev offset src len b zero = some dev
write_blocks dev offset src len b (suc n) =
    write_block dev offset src len b >>= λ dev'. write_blocks dev' offset src len (suc b) n

-- `for (b = first; b <= last; ++b)`
unfoldable pub device_write : ModelDevice → ℕ → Bytes → ℕ → Option ModelDevice
unfolding write_blocks
device_write dev offset src len =
    let first = offset / k_block in
    let last = minus (plus offset len) 1 / k_block in
    write_blocks dev offset src len first (last + 1 - first)

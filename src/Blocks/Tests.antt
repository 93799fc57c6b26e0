-- ===== src/Blocks/Tests.antt =====
-- Runs of 02-storage-lab-blocks-sectors-pages-in-10-minutes, and its theorems on them.
use inside_the_cpu_storage_a.Base.{
  ℕ, ◌+◌, ◌*◌, ◌/◌, ◌%◌, ◌≤◌, ◌<◌, ◌≡◌, refl, true, Option, none, some, [], ◌∷◌, arith, is_some,
  not,
}
use inside_the_cpu_storage_a.Blocks.{
  k_block, k_sector, locate, back, all_back, Partition, is_aligned, straddles, align_down, align_up,
  Bytes, ModelDevice, copy, device_init, device_write, blocks_touched,
}
use inside_the_cpu_storage_a.Blocks.Align.{back-locate, straddles-is_aligned, align_lem}
use inside_the_cpu_storage_a.Blocks.Device.{device_write_lem}

back-locate_example :
    let w = locate 2048 10000 in
    (back 2048 w ≡ (10000, 10000))
    × (w.in_sector < k_sector)
    × (w.in_block < k_block)
    × (w.lba ≡ 2048 + w.block * 8 + w.in_block / k_sector)
back-locate_example = back-locate 2048 10000 (omega arith) (omega arith)

abbrev legacy : Partition
legacy = record { name = "hda1"; start = 63; count = 1048576 }

straddles_run : is_some (straddles legacy k_block) ≡ not (is_aligned legacy k_block)
straddles_run = straddles-is_aligned legacy (omega arith)

align_lem_example :
    (align_down 8292 4096 ≤ 8292)
    × (8292 < align_down 8292 4096 + 4096)
    × (8292 ≤ align_up 8292 4096)
    × (align_up 8292 4096 < 8292 + 4096)
    × (align_down 8292 4096 % 4096 ≡ 0)
    × (align_up 8292 4096 % 4096 ≡ 0)
align_lem_example = align_lem 8292 4096 (omega arith) (omega arith)

abbrev payload : Bytes
payload = λ a. 0xAB

device_write_lem_example :
    (dev' : ModelDevice) × (device_write (device_init 8) (8192 + 1024) payload 4096 ≡ some dev')
    × ((a : ℕ) → dev'.media a ≡ copy (device_init 8).media (8192 + 1024) payload 0 4096 a)
    × (dev'.block_writes ≡ (device_init 8).block_writes + blocks_touched (8192 + 1024) 4096)
    × ((8192 + 1024) % k_block ≡ 0
        → 4096 % k_block ≡ 0
        → dev'.block_reads ≡ (device_init 8).block_reads)
unfolding device_init
device_write_lem_example =
    device_write_lem (device_init 8) (8192 + 1024) payload 4096 (omega arith) (omega arith) refl
      (omega arith)

all_offsets :
    all_back 2048 (0 ∷ 511 ∷ 512 ∷ 4095 ∷ 4096 ∷ 8192 ∷ 9216 ∷ 10000 ∷ 1048576 ∷ []) ≡ true
unfolding all_back
all_offsets = refl

old_layout : straddles legacy 4096 ≡ some (7, 8)
unfolding straddles
old_layout = refl

abbrev counts : Option ModelDevice → ℕ × ℕ
counts none = (0, 0)
counts (some dev) = (dev.block_reads, dev.block_writes)

misaligned_counts : counts (device_write (device_init 8) (8192 + 1024) payload 4096) ≡ (2, 2)
unfolding device_write device_init
misaligned_counts = refl

aligned_counts : counts (device_write (device_init 8) 4096 payload (4 * 4096)) ≡ (0, 4)
unfolding device_write device_init
aligned_counts = refl

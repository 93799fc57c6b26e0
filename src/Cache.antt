-- ===== src/Cache.antt =====
-- The application's cache of 08-storage-lab-buffered-vs-direct-io-in-10-minutes/09_app_cache.c. What a
-- read of the device leaves in the buffer is an argument, `device`, for the file's
-- functions are the C library's; so is whether `malloc` gives memory for a block, `room`. The
-- times, and the file that the main function writes and removes, are left out.
mod Hits
mod Tests
use inside_the_cpu_storage_a.Base.{
  ℕ, zero, suc, ◌+◌, ◌-◌, ◌*◌, ◌/◌, ◌%◌, ◌^◌, Bool, true, false, not, ◌&&◌, Option, none, some,
  List, get_or, set, replicate, ltb, ◌==◌, if◌then◌else◌, bit_xor,
}

abbrev pub k_block_size : ℕ
k_block_size = 4096

abbrev pub k_blocks : ℕ
k_blocks = 64

-- the bytes of a block
abbrev pub CachedBlock : Type 0
CachedBlock = ℕ → ℕ

-- `g_device_reads` is here too.
pub record BlockCache : Type 0 where
  pub blocks : List (Option CachedBlock)
  pub cached : ℕ
  pub hits : ℕ
  pub misses : ℕ
  pub device_reads : ℕ

abbrev pub zero_cache : BlockCache
zero_cache = record {
  blocks = replicate k_blocks none;
  cached = 0;
  hits = 0;
  misses = 0;
  device_reads = 0;
}

-- on uint64_t
abbrev pub plus_one : ℕ → ℕ
plus_one n = (n + 1) % 2 ^ 64

-- `next_random`, which gives its state
unfoldable pub next_random : ℕ → ℕ
next_random r =
    let a = bit_xor r (r * 2 ^ 13 % 2 ^ 64) in
    let b = bit_xor a (a / 2 ^ 7) in bit_xor b (b * 2 ^ 17 % 2 ^ 64)

-- the block of a turn of the main function's loop, and the state after it
unfoldable pub pick : ℕ → ℕ × ℕ
unfolding next_random
pick r =
    let first = next_random r in
    let second = next_random first in
    if ltb (first % 100) 80 then (second % 8, second) else (second % k_blocks, second)

-- the test of the main function on the block that it gets
abbrev pub holds : ℕ → Option CachedBlock → Bool
holds n none = false
holds n (some b) = (b 0 == 65 + n % 26) && (b (k_block_size - 1) == b 0)

module _ (device : ℕ → CachedBlock) (room : ℕ → Bool) where
  -- a block that is not in the table, once the number of misses is seen to
  abbrev pub miss : BlockCache → ℕ → BlockCache × Option CachedBlock
  miss c n =
      if room c.misses
      then (
        record c {
          blocks = set c.blocks n (some (device n));
          cached = plus_one c.cached;
          misses = plus_one c.misses;
          device_reads = plus_one c.device_reads;
        },
        some (device n),
      )
      else (record c { misses = plus_one c.misses }, none)

  abbrev pub on_entry : BlockCache → ℕ → Option CachedBlock → BlockCache × Option CachedBlock
  on_entry c n (some b) = (record c { hits = plus_one c.hits }, some b)
  on_entry c n none = miss c n

  unfoldable pub cache_get : BlockCache → ℕ → BlockCache × Option CachedBlock
  cache_get c n = on_entry c n (get_or c.blocks n none)

  -- `reads` turns of the loop: the cache, the state of the generator and `ok`
  unfoldable pub read_all : ℕ → BlockCache → ℕ → Bool → BlockCache × ℕ × Bool
  unfolding pick cache_get
  read_all zero c r ok = (c, r, ok)
  read_all (suc reads) c r ok =
      let (n, r') = pick r in
      let (c', b) = cache_get c n in read_all reads c' r' (if holds n b then ok else false)

  unfoldable pub cache_main : BlockCache × ℕ × Bool
  unfolding read_all
  cache_main = read_all 20000 zero_cache 42 true

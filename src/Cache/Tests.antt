-- ===== src/Cache/Tests.antt =====
-- Runs of 09_app_cache.c.
use inside_the_cpu_storage_a.Base.{
  ℕ, ◌+◌, ◌%◌, ◌≤◌, ◌≡◌, refl, Bool, true, none, some, arith, get_or, get_or-replicate,
}
use inside_the_cpu_storage_a.Cache.{CachedBlock, BlockCache, k_blocks, zero_cache, holds, read_all}
use inside_the_cpu_storage_a.Cache.Hits.{IsCache, read_all_lem}

-- a file whose block `n` is full of one letter
abbrev letters : ℕ → CachedBlock
letters n i = 65 + n % 26

abbrev always : ℕ → Bool
always m = true

zero_cache_empty : (n : ℕ) → get_or zero_cache.blocks n none ≡ none
zero_cache_empty n = get_or-replicate k_blocks n none

zero_cache-IsCache : IsCache letters zero_cache
zero_cache-IsCache = record {
  size = refl;
  agrees = λ n b h. let absurd : ⊥ = cc (zero_cache_empty n, h) in elim absurd [ ];
  one_each = refl;
  one_read = refl;
  one_block = refl;
}

letters-holds : (n : ℕ) → holds n (some (letters n)) ≡ true
letters-holds n = ground arith

read_all_lem_example :
    (c' : BlockCache) × (r' : ℕ) × (read_all letters always 20000 zero_cache 42 true
      ≡ (c', r', true))
    × IsCache letters c'
    × (c'.hits + c'.misses ≡ zero_cache.hits + zero_cache.misses + 20000)
    × (c'.device_reads ≡ c'.misses)
    × (c'.misses ≤ k_blocks)
read_all_lem_example =
    read_all_lem letters always 20000 zero_cache 42 zero_cache-IsCache (omega arith) (λ m. refl)
      (λ n h. letters-holds n)

-- the first reads of the main function
first_reads :
    let (c, r, ok) = read_all letters always 8 zero_cache 42 true in
    (c.hits + c.misses ≡ 8) × (ok ≡ true)
unfolding read_all
first_reads = (refl, refl)

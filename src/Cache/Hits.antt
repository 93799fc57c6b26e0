-- ===== src/Cache/Hits.antt =====
-- `cache_get` and the reads of the main function in 09_app_cache.c.
use inside_the_cpu_storage_a.Base.{
  ℕ, zero, suc, ◌+◌, ◌^◌, ◌≤◌, ◌<◌, ◌≡◌, inl, inr, refl, ap, sym, ◌∙◌, Bool, true, false, Option,
  none, some, List, [], ◌∷◌, arith, length, get_or, set, total, if◌then◌else◌, is_some,
  Option-cases, length-set, get_or-set_self, get_or-set_ne, total-set, ℕ_discrete,
}
use mathlib.Core.Option.{some-injective}
use inside_the_cpu_storage_a.Cache.{
  CachedBlock, BlockCache, k_blocks, plus_one, pick, holds, on_entry, cache_get, read_all,
}

-- 1 for a block in the table
abbrev pub taken : Option CachedBlock → ℕ
taken o = if is_some o then 1 else 0

taken-at_most : (bs : List (Option CachedBlock)) → total taken bs ≤ length bs
taken-at_most [] = omega arith
taken-at_most (b ∷ bs) = ground (arith, taken-at_most bs)

module _ (device : ℕ → CachedBlock) where
  -- Each block of the table is the device's; every miss is one read of the device and one block in the table.
  pub record IsCache (c : BlockCache) : Type 0 where
    pub size : length c.blocks ≡ k_blocks
    pub agrees : (n : ℕ) (b : CachedBlock) → get_or c.blocks n none ≡ some b → b ≡ device n
    pub one_each : total taken c.blocks ≡ c.cached
    pub one_read : c.device_reads ≡ c.misses
    pub one_block : c.misses ≡ c.cached

  -- What a call with memory for a block does.
  pub record Got (c : BlockCache) (n : ℕ) (c' : BlockCache) : Type 0 where
    pub in_order : IsCache c'
    pub counted : c'.hits + c'.misses ≡ c.hits + c.misses + 1
    pub grows : c'.hits ≤ c.hits + 1
    pub kept : get_or c'.blocks n none ≡ some (device n)

  module _ (c : BlockCache) (n : ℕ) (v : IsCache c) (below : n < k_blocks)
      (small : c.hits < 2 ^ 63) where
    hit-Got :
        (b : CachedBlock)
        → get_or c.blocks n none ≡ some b
        → Got c n (record c { hits = plus_one c.hits })
    hit-Got b e = record {
      in_order = record {
        size = v.size;
        agrees = v.agrees;
        one_each = v.one_each;
        one_read = v.one_read;
        one_block = v.one_block;
      };
      counted = omega arith;
      grows = omega arith;
      kept = e ∙ ap some (v.agrees n b e);
    }

    abbrev filled : BlockCache
    filled = record c {
      blocks = set c.blocks n (some (device n));
      cached = plus_one c.cached;
      misses = plus_one c.misses;
      device_reads = plus_one c.device_reads;
    }

    fewer : c.cached ≤ k_blocks
    fewer = omega (arith, taken-at_most c.blocks, v.one_each, v.size)

    here : get_or (set c.blocks n (some (device n))) n none ≡ some (device n)
    here = get_or-set_self c.blocks n (some (device n)) none (omega (arith, v.size))

    filled-Got : get_or c.blocks n none ≡ none → Got c n filled
    filled-Got e = record {
      in_order = record {
        size = length-set c.blocks n _ ∙ v.size;
        agrees = λ m b h. elim (ℕ_discrete n m) [
          | yes same ↦
              some-injective _ _ (
                sym h
                ∙ ap (λ k. get_or (set c.blocks n (some (device n))) k none) (sym same)
                ∙ here)
              ∙ ap device same
          | no other ↦
              v.agrees m b (sym (get_or-set_ne c.blocks n m (some (device n)) none other) ∙ h)
        ];
        one_each = omega (
          arith,
          total-set taken c.blocks n (some (device n)) none (omega (arith, v.size)),
          ap taken e,
          v.one_each,
          fewer,
        );
        one_read = ap plus_one v.one_read;
        one_block = ap plus_one v.one_block;
      };
      counted = omega (arith, fewer, v.one_block);
      grows = omega arith;
      kept = here;
    }

  -- On a cache in order, with memory for a new block, `cache_get` of a block of the table gives the device's
  -- block, which stays in the cache: a hit when it was there, otherwise one miss and one read of
  -- the device. The cache stays in order.
  pub cache_get_lem :
      (room : ℕ → Bool) (c : BlockCache) (n : ℕ)
      → IsCache c
      → n < k_blocks
      → c.hits < 2 ^ 63
      → ((m : ℕ) → room m ≡ true)
      → (c' : BlockCache) × (cache_get device room c n ≡ (c', some (device n))) × Got c n c'
  unfolding cache_get
  cache_get_lem room c n v below small given = elim (Option-cases (get_or c.blocks n none)) [
    | inl e ↦ (
      filled c n v below small,
      ap (on_entry device room c n) e
          ∙ ap
              (λ b.
                if b
                then (filled c n v below small, some (device n))
                else (record c { misses = plus_one c.misses }, none))
              (given c.misses),
      filled-Got c n v below small e,
    )
    | inr (b, e) ↦ (
      record c { hits = plus_one c.hits },
      ap (on_entry device room c n) e
          ∙ ap (λ x. (record c { hits = plus_one c.hits }, some x)) (v.agrees n b e),
      hit-Got c n v below small b e,
    )
  ]

  pick-below : (r : ℕ) → (pick r).0 < k_blocks
  unfolding pick
  pick-below r = ground arith

  -- From a cache in order, with memory for every block and a device whose blocks pass the main function's
  -- test, any number of reads below 2^63 in all end with the cache in order and the test passed,
  -- whatever the generator's state: each read is counted as a hit or a miss, each miss is one
  -- read of the device, and there are at most 64 misses, one for each block.
  pub read_all_lem :
      (room : ℕ → Bool) (reads : ℕ) (c : BlockCache) (r : ℕ)
      → IsCache c
      → c.hits + reads < 2 ^ 63
      → ((m : ℕ) → room m ≡ true)
      → ((n : ℕ) → n < k_blocks → holds n (some (device n)) ≡ true)
      → (c' : BlockCache) × (r' : ℕ) × (read_all device room reads c r true ≡ (c', r', true))
        × IsCache c'
        × (c'.hits + c'.misses ≡ c.hits + c.misses + reads)
        × (c'.device_reads ≡ c'.misses)
        × (c'.misses ≤ k_blocks)
  unfolding read_all
  read_all_lem room zero c r v small given good = (
    c,
    r,
    refl,
    v,
    omega arith,
    v.one_read,
    omega (arith, taken-at_most c.blocks, v.one_each, v.size, v.one_block),
  )
  read_all_lem room (suc reads) c r v small given good =
      let n : ℕ = (pick r).0 in
      let (c₁, got, g) = cache_get_lem room c n v (pick-below r) (omega arith) given in
      let (c', r', run, v', counted, one_read, few) =
        read_all_lem room reads c₁ (pick r).1 g.in_order (omega (arith, g.grows)) given good in
      (
        c',
        r',
        ap (λ x. read_all device room reads x.0 (pick r).1 (if holds n x.1 then true else false))
              got
            ∙ ap (λ b. read_all device room reads c₁ (pick r).1 (if b then true else false))
                (good n (pick-below r))
            ∙ run,
        v',
        omega (arith, counted, g.counted),
        one_read,
        few,
      )

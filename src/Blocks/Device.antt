-- ===== src/Blocks/Device.antt =====
-- `device_write` of 09_misaligned_write.c against one copy into the media.
use inside_the_cpu_storage_a.Base.{
  ℕ, zero, suc, ◌+◌, ◌-◌, ◌*◌, ◌/◌, ◌%◌, ◌≤◌, ◌<◌, ◌≡◌, ◌≢◌, ◌⊎◌, inl, inr, refl, ap, sym, ◌∙◌,
  Bool, true, false, not, ◌&&◌, Option, none, some, arith, ltb, leb, ◌==◌, ne→==, ==_iff,
  if◌then◌else◌, ◌>>=◌, dec_lt,
}
use inside_the_cpu_storage_a.Blocks.{
  u64, plus, minus, k_block, Bytes, ModelDevice, copy, low, high, write_block, write_blocks,
  device_write, blocks_touched,
}

copy_in :
    (to : Bytes) (at : ℕ) (from : Bytes) (start n a : ℕ)
    → at ≤ a
    → a < at + n
    → copy to at from start n a ≡ from (start + (a - at))
copy_in to at from start n a h k =
    ap (λ b. if b then from (start + (a - at)) else to a) {x = leb at a && ltb a (at + n)}
      {y = true} (ground arith)

copy_out :
    (to : Bytes) (at : ℕ) (from : Bytes) (start n a : ℕ)
    → (a < at) ⊎ (at + n ≤ a)
    → copy to at from start n a ≡ to a
copy_out to at from start n a h =
    ap (λ b. if b then from (start + (a - at)) else to a) {x = leb at a && ltb a (at + n)}
      {y = false} (ground arith)

low_lem :
    (offset b : ℕ)
    → (offset ≤ low offset b)
      × (b * k_block ≤ low offset b)
      × ((low offset b ≡ offset) ⊎ (low offset b ≡ b * k_block))
low_lem offset b = ground arith

high_lem :
    (end b : ℕ)
    → (high end b ≤ end)
      × (high end b ≤ (b + 1) * k_block)
      × ((high end b ≡ end) ⊎ (high end b ≡ (b + 1) * k_block))
high_lem end b = ground arith

-- From `dev` to `dev'` the bytes from `lo` to `hi` are those of one copy of the range, and
-- the others stay.
record Copied (dev dev' : ModelDevice) (offset : ℕ) (src : Bytes) (len lo hi : ℕ) : Type 0 where
  same_size : dev'.size ≡ dev.size
  aligned : offset % k_block ≡ 0 → len % k_block ≡ 0 → dev'.block_reads ≡ dev.block_reads
  inside : (a : ℕ) → lo ≤ a → a < hi → dev'.media a ≡ copy dev.media offset src 0 len a
  outside : (a : ℕ) → (a < lo) ⊎ (hi ≤ a) → dev'.media a ≡ dev.media a

module _ (dev : ModelDevice) (offset : ℕ) (src : Bytes) (len b : ℕ) where
  abbrev lo : ℕ
  lo = low offset b

  abbrev hi : ℕ
  hi = high (plus offset len) b

  -- whether the block is read first
  abbrev partial : Bool
  partial = not (hi - lo == k_block)

  abbrev old : Bytes
  old = if partial then copy (λ a. 0) 0 dev.media (b * k_block) k_block else (λ a. 0)

  abbrev staging : Bytes
  staging = copy old (lo - b * k_block) src (lo - offset) (hi - lo)

  abbrev merged : ModelDevice
  merged = record dev {
    media = copy dev.media (b * k_block) staging 0 k_block;
    block_reads = dev.block_reads + (if partial then 1 else 0);
    block_writes = dev.block_writes + 1;
  }

  -- what `write_block` gives when it copies `bytes` bytes
  abbrev written : ℕ → Option ModelDevice
  written bytes =
      let part = not (bytes == k_block) in
      let before : Bytes =
        if part then copy (λ a. 0) 0 dev.media (b * k_block) k_block else (λ a. 0) in
      let new : Bytes = copy before (lo - b * k_block) src (lo - offset) bytes in
      if leb ((b + 1) * k_block) dev.size
      then some (record dev {
        media = copy dev.media (b * k_block) new 0 k_block;
        block_reads = dev.block_reads + (if part then 1 else 0);
        block_writes = dev.block_writes + 1;
      })
      else none

  -- The block meets the range, which is in the media.
  abbrev Meets : Type 0
  Meets =
      (offset < (b + 1) * k_block)
      × (b * k_block < offset + len)
      × (offset + len ≤ dev.size)
      × ((b + 1) * k_block ≤ dev.size)
      × (dev.size < u64)

  not_whole :
      (a : ℕ) → (hi ≤ a) ⊎ (a < lo) → b * k_block ≤ a → a < (b + 1) * k_block → hi - lo ≢ k_block
  not_whole a h k l = omega (arith, low_lem offset b, high_lem (plus offset len) b)

  old-media :
      (a : ℕ)
      → (hi ≤ a) ⊎ (a < lo)
      → b * k_block ≤ a
      → a < (b + 1) * k_block
      → old (a - b * k_block) ≡ dev.media a
  old-media a h k l =
      ap
        (λ c.
          (if not c then copy (λ a. 0) 0 dev.media (b * k_block) k_block else (λ a. 0))
            (a - b * k_block))
        (ne→== (hi - lo) k_block (not_whole a h k l))
      ∙ copy_in (λ a. 0) 0 dev.media (b * k_block) k_block (a - b * k_block) (omega arith)
          (omega arith)
      ∙ ap dev.media (omega arith)

  staged :
      Meets
      → (a : ℕ) → b * k_block ≤ a
      → a < (b + 1) * k_block
      → staging (a - b * k_block) ≡ copy dev.media offset src 0 len a
  staged m a k l = elim (dec_lt a lo) [
    | yes before ↦
        copy_out old (lo - b * k_block) src (lo - offset) (hi - lo) (a - b * k_block)
          (inl (omega (arith, low_lem offset b)))
        ∙ old-media a (inr before) k l
        ∙ sym (copy_out dev.media offset src 0 len a (inl (omega (arith, low_lem offset b))))
    | no from_lo ↦ elim (dec_lt a hi) [
      | yes to_hi ↦
          copy_in old (lo - b * k_block) src (lo - offset) (hi - lo) (a - b * k_block)
            (omega (arith, low_lem offset b)) (omega (arith, low_lem offset b))
          ∙ ap src (omega (arith, low_lem offset b))
          ∙ sym (
              copy_in dev.media offset src 0 len a (omega (arith, low_lem offset b))
                (omega (arith, high_lem (plus offset len) b)))
      | no from_hi ↦
          copy_out old (lo - b * k_block) src (lo - offset) (hi - lo) (a - b * k_block)
            (inr (omega (arith, low_lem offset b, high_lem (plus offset len) b)))
          ∙ old-media a (inl (omega arith)) k l
          ∙ sym (
              copy_out dev.media offset src 0 len a
                (inr (omega (arith, high_lem (plus offset len) b))))
    ]
  ]

  write_block-Copied :
      Meets
      → (write_block dev offset src len b ≡ some merged)
        × Copied dev merged offset src len (b * k_block) ((b + 1) * k_block)
  unfolding write_block
  write_block-Copied m = (
    ap written {x = minus hi lo} {y = hi - lo}
          (omega (arith, m, low_lem offset b, high_lem (plus offset len) b))
        ∙ ap (λ c. if c then some merged else none) {x = leb ((b + 1) * k_block) dev.size}
            {y = true} (ground arith),
    record {
      same_size = refl;
      aligned = λ o l.
          ap (λ c. dev.block_reads + (if not c then 1 else 0)) {y = true}
            ((==_iff (hi - lo) k_block).1
              (omega (arith, m, low_lem offset b, high_lem (plus offset len) b)))
          ∙ omega arith;
      inside = λ a k l.
          copy_in dev.media (b * k_block) staging 0 k_block a k (omega arith)
          ∙ ap staging (omega arith)
          ∙ staged m a k l;
      outside = λ a h. copy_out dev.media (b * k_block) staging 0 k_block a (ground arith);
    },
  )

module _ (offset : ℕ) (src : Bytes) (len : ℕ) where
  -- block `b`, then the rest
  chain :
      {dev dev₁ dev₂ : ModelDevice} (b n : ℕ)
      → Copied dev dev₁ offset src len (b * k_block) ((b + 1) * k_block)
      → Copied dev₁ dev₂ offset src len (suc b * k_block) ((suc b + n) * k_block)
      → Copied dev dev₂ offset src len (b * k_block) ((b + suc n) * k_block)
  chain {dev} {dev₁} {dev₂} b n c d = record {
    same_size = d.same_size ∙ c.same_size;
    aligned = λ o l. d.aligned o l ∙ c.aligned o l;
    inside = λ a k l. elim (dec_lt a ((b + 1) * k_block)) [
      | yes here ↦ d.outside a (inl (omega arith)) ∙ c.inside a k here
      | no later ↦
          d.inside a (omega arith) (omega arith)
          ∙ ap (λ x. if leb offset a && ltb a (offset + len) then src (0 + (a - offset)) else x)
              (c.outside a (inr (omega arith)))
    ];
    outside = λ a h. d.outside a (ground arith) ∙ c.outside a (ground arith);
  }

  -- The blocks from `b` on lie in the media and meet the range.
  abbrev InMedia : ModelDevice → ℕ → ℕ → Type 0
  InMedia dev b n =
      (offset < (b + 1) * k_block)
      × ((n ≡ 0) ⊎ ((b + n - 1) * k_block < offset + len))
      × (offset + len ≤ dev.size)
      × ((b + n) * k_block ≤ dev.size)
      × (dev.size < u64)

  write_blocks-Copied :
      (dev : ModelDevice) (b n : ℕ)
      → InMedia dev b n
      → (dev' : ModelDevice) × (write_blocks dev offset src len b n ≡ some dev')
        × Copied dev dev' offset src len (b * k_block) ((b + n) * k_block)
        × (dev'.block_writes ≡ dev.block_writes + n)
  unfolding write_blocks
  write_blocks-Copied dev b zero m = (
    dev,
    refl,
    record {
      same_size = refl;
      aligned = λ o l. refl;
      inside = λ a k l. let absurd : ⊥ = omega arith in elim absurd [ ];
      outside = λ a h. refl;
    },
    omega arith,
  )
  write_blocks-Copied dev b (suc n) m =
      let (e, c) = write_block-Copied dev offset src len b (omega arith) in
      let (dev', run, d, writes) =
        write_blocks-Copied (merged dev offset src len b) (suc b) n (omega arith) in
      (
        dev',
        ap (λ o. o >>= λ x. write_blocks x offset src len (suc b) n) e ∙ run,
        chain b n c d,
        omega (arith, writes),
      )

-- A write of some bytes within the media, which holds whole blocks, succeeds: the media is then as after
-- one copy of the source to the offset, one block is written for each that the range touches, and
-- none is read first when offset and length are multiples of the block size.
pub device_write_lem :
    (dev : ModelDevice) (offset : ℕ) (src : Bytes) (len : ℕ)
    → 0 < len
    → offset + len ≤ dev.size
    → dev.size % k_block ≡ 0
    → dev.size < u64
    → (dev' : ModelDevice) × (device_write dev offset src len ≡ some dev')
      × ((a : ℕ) → dev'.media a ≡ copy dev.media offset src 0 len a)
      × (dev'.block_writes ≡ dev.block_writes + blocks_touched offset len)
      × (offset % k_block ≡ 0 → len % k_block ≡ 0 → dev'.block_reads ≡ dev.block_reads)
unfolding device_write blocks_touched
device_write_lem dev offset src len some_bytes fits whole range =
    let first : ℕ = offset / k_block in
    let count : ℕ = minus (plus offset len) 1 / k_block + 1 - first in
    let (dev', run, c, writes) = write_blocks-Copied offset src len dev first count (omega arith) in
    (
      dev',
      run,
      λ a. elim (dec_lt a (first * k_block)) [
        | yes before ↦
            c.outside a (inl before)
            ∙ sym (copy_out dev.media offset src 0 len a (inl (omega arith)))
        | no from ↦ elim (dec_lt a ((first + count) * k_block)) [
          | yes inside ↦ c.inside a (omega arith) inside
          | no behind ↦
              c.outside a (inr (omega arith))
              ∙ sym (copy_out dev.media offset src 0 len a (inr (omega arith)))
        ]
      ],
      omega (arith, writes),
      c.aligned,
    )

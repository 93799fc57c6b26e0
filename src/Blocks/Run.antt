-- ===== src/Blocks/Run.antt =====
-- `run` and the main function of 09_misaligned_write.c: a write on a new device of eight blocks, compared with
-- the same write on an array. The size that is compared is that of the new device, which `device_write`
-- does not change; a write past the device is `none`, and an allocation that fails is left out.
use inside_the_cpu_storage_a.Base.{
  ap₂, ℕ, zero, suc, ◌+◌, ◌*◌, ◌≤◌, ◌<◌, ◌≡◌, refl, ap, sym, ◌∙◌, Bool, true, ◌&&◌, Option, some,
  arith, ◌==◌, ==_iff, ◌>>=◌,
}
use inside_the_cpu_storage_a.Blocks.{
  Bytes, k_block, copy, blocks_touched, device_init, device_write,
}
use inside_the_cpu_storage_a.Blocks.Device.{device_write_lem}

-- `memcmp(a, b, n) == 0`
unfoldable pub same_upto : ℕ → Bytes → Bytes → Bool
same_upto zero a b = true
same_upto (suc n) a b = (a n == b n) && same_upto n a b

-- `memset(payload, 0xAB, len)`
abbrev pub payload_bytes : Bytes
payload_bytes a = 0xAB

abbrev pub reference : ℕ → ℕ → Bytes
reference offset len = copy (λ a. 0) offset payload_bytes 0 len

unfoldable pub run : ℕ → ℕ → ℕ → Option Bool
unfolding device_write device_init blocks_touched same_upto
run offset len expected_blocks = device_write (device_init 8) offset payload_bytes len >>= λ dev.
    some (
      same_upto (device_init 8).size dev.media (reference offset len)
      && ((blocks_touched offset len == expected_blocks)
          && (dev.block_writes == blocks_touched offset len)))

-- the four runs, and `ok`
unfoldable pub misaligned_main : Option Bool
misaligned_main = run 8192 4096 1 >>= λ a. run (8192 + 1024) 4096 2 >>= λ b.
    run (8192 + 100) 10 1 >>= λ c. run 4096 (4 * 4096) 4 >>= λ d. some (
      ((blocks_touched 8192 4096 == 1) && (blocks_touched (8192 + 1024) 4096 == 2))
      && (a && (b && (c && d))))

same_upto_lem : (n : ℕ) (a b : Bytes) → ((i : ℕ) → a i ≡ b i) → same_upto n a b ≡ true
unfolding same_upto
same_upto_lem zero a b h = refl
same_upto_lem (suc n) a b h = ap₂ ◌&&◌ ((==_iff (a n) (b n)).1 (h n)) (same_upto_lem n a b h)

-- Any run within the device passes its test when the blocks expected are those that the range touches.
run_lem :
    (offset len : ℕ)
    → 0 < len
    → offset + len ≤ 8 * k_block
    → run offset len (blocks_touched offset len) ≡ some true
unfolding run device_init
run_lem offset len some_bytes fits =
    let (dev', written, media, writes, reads) =
      device_write_lem (device_init 8) offset payload_bytes len some_bytes fits refl
        (omega arith) in
    let touched = blocks_touched offset len in
    ap
      (λ o. o >>= λ dev. some (
        same_upto (8 * k_block) dev.media (reference offset len)
        && ((touched == touched) && (dev.block_writes == touched))))
      written
    ∙ ap some (
        ap₂ ◌&&◌ (same_upto_lem (8 * k_block) dev'.media (reference offset len) media) (
          ap₂ ◌&&◌ ((==_iff touched touched).1 refl)
            ((==_iff dev'.block_writes touched).1 (omega (arith, writes)))))

run_at :
    (offset len : ℕ) {n : ℕ}
    → 0 < len
    → offset + len ≤ 8 * k_block
    → blocks_touched offset len ≡ n
    → run offset len n ≡ some true
run_at offset len some_bytes fits e =
    ap (run offset len) (sym e) ∙ run_lem offset len some_bytes fits

-- the test of the main function
misaligned_ok : misaligned_main ≡ some true
unfolding misaligned_main blocks_touched
misaligned_ok =
    rw
      (
        run_at 8192 4096 (omega arith) (omega arith) refl,
        run_at (8192 + 1024) 4096 (omega arith) (omega arith) refl,
        run_at (8192 + 100) 10 (omega arith) (omega arith) refl,
        run_at 4096 (4 * 4096) (omega arith) (omega arith) refl,
      )
      refl

-- ===== src/Ftl/Random.antt =====
-- The random host writes of 10_write_amplification.c, 11_trim.c and 12_wear_leveling.c.
use inside_the_cpu_storage_a.Base.{
  ℕ, zero, suc, ◌+◌, ◌*◌, ◌/◌, ◌%◌, ◌^◌, ◌≤◌, ◌<◌, ◌≡◌, refl, ap, ◌∙◌, bit_xor, Bool, Option, some,
  arith, ◌>>=◌,
}
use inside_the_cpu_storage_a.Ftl.{Ftl, lbas}
use inside_the_cpu_storage_a.Ftl.Loops.{write}
use inside_the_cpu_storage_a.Ftl.Write.{Ready, write-Written}

abbrev u64 : ℕ
u64 = 2 ^ 64

-- `rng_next`: the 32 bits and the new state of the generator, splitmix64
unfoldable pub rng_next : ℕ → ℕ × ℕ
rng_next state =
    let s : ℕ = (state + 0x9E3779B97F4A7C15) % u64 in
    let z : ℕ = bit_xor s (s / 2 ^ 30) * 0xBF58476D1CE4E5B9 % u64 in
    let y : ℕ = bit_xor z (z / 2 ^ 27) * 0x94D049BB133111EB % u64 in
    (bit_xor y (y / 2 ^ 31) / 2 ^ 32, s)

-- `n` host writes, each of the LBA that `pick` makes of the next random number
unfoldable pub random_writes : Bool → (ℕ → ℕ) → ℕ → ℕ → Ftl → Option Ftl
unfolding rng_next
random_writes naive pick zero state f = some f
random_writes naive pick (suc n) state f =
    let (x, state') = rng_next state in
    write naive f (pick x) >>= λ g. random_writes naive pick n state' g

-- Whatever the generator's state, if `pick` stays within the LBAs and the drive is ready, all the
-- writes succeed: the drive is ready again, has counted them, and has programmed a page or more
-- for each.
pub random_writes-Ready :
    (naive : Bool) (pick : ℕ → ℕ) (n state : ℕ) {f : Ftl}
    → ((x : ℕ) → pick x < lbas)
    → Ready f
    → (g : Ftl) × (random_writes naive pick n state f ≡ some g)
      × Ready g
      × (g.host_writes ≡ f.host_writes + n)
      × (f.nand_writes + n ≤ g.nand_writes)
unfolding random_writes
random_writes-Ready naive pick zero state {f} h r = (f, refl, r, omega arith, omega arith)
random_writes-Ready naive pick (suc n) state {f} h r =
    let (x, state') = rng_next state in
    let (f', e, w) = write-Written naive (pick x) r (h x) in
    let (g, e', r', host, nand) = random_writes-Ready naive pick n state' h w.ready in
    (
      g,
      ap (λ o. o >>= (λ g. random_writes naive pick n state' g)) e ∙ e',
      r',
      omega (arith, host, w.host),
      omega (arith, nand, w.programs),
    )

-- ===== src/Rules.antt =====
-- The three rules of 10-storage-lab-series-summary-in-3-minutes/03_three_rules.c: the timing harness, the writes
-- in small records and in one batch, the read of the whole file, and the random reads. The stream, the
-- clock, the differences of its doubles and `qsort` are arguments; the texts around the printed
-- figures are left out.
pub mod Bench
pub mod Batch
pub mod Tail
mod Tests
use inside_the_cpu_storage_a.Base.{
  ℕ, zero, suc, ◌+◌, ◌*◌, ◌/◌, ◌%◌, ◌^◌, ◌≡◌, Bool, true, false, not, ◌&&◌, ◌||◌, Option, none,
  some, List, [], ◌∷◌, ◌++◌, length, get_elem?, take, drop, ltb, ◌==◌, if◌then◌else◌, bit_xor,
}

abbrev pub k_data : ℕ
k_data = 256 * 1024

abbrev pub k_record : ℕ
k_record = 64

abbrev pub k_disk_block : ℕ
k_disk_block = 4096

-- The C library's calls on files, over an unknown state.
pub record Stdio : Type 1 where
  pub State : Type 0
  -- `fopen(path, "rb")` of the file, whether it could be opened, and `fclose` of the same
  pub open_rb : State → State × Bool
  pub close_rb : State → State
  -- `fwrite(p, 1, n, out)`, the number of bytes that it takes
  pub fwrite : State → List ℕ → State × ℕ
  -- `fflush(out) == 0`
  pub fflush : State → State × Bool
  -- `fread(buf, 1, n, in)`
  pub fread : State → ℕ → State × ℕ
  -- `fseek(in, offset, SEEK_SET) == 0 && fread(block, 1, K_BLOCK, in) == K_BLOCK`
  pub read_at : State → ℕ → State × Bool

-- `now_ns`, the difference of two times, and `qsort` on them
pub record Clock (S : Type 0) : Type 1 where
  pub Time : Type 0
  pub now : S → S × Time
  pub gap : Time → Time → Time
  pub no_time : Time
  pub sort : List Time → List Time

abbrev pub at_most_64 : ℕ → ℕ
at_most_64 repeats = if ltb 64 repeats then 64 else repeats

module _ {S : Type 0} (clock : Clock S) where
  open clock use {Time, now, gap, no_time, sort}

  abbrev pub warm_up : (S → S) → ℕ → S → S
  warm_up f zero s = s
  warm_up f (suc n) s = warm_up f n (f s)

  -- one turn of the second loop
  abbrev pub timed : (S → S) → S → S × Time
  timed f s = let (s', t0) = now s in let (s'', t1) = now (f s') in (s'', gap t1 t0)

  abbrev pub sample : (S → S) → ℕ → S → S × List Time
  sample f zero s = (s, [])
  sample f (suc n) s = let (s', t) = timed f s in let (s'', ts) = sample f n s' in (s'', t ∷ ts)

  -- the minimum and the median; `none` is a read past the samples
  unfoldable pub bench_ns : (S → S) → ℕ → ℕ → S → S × Option Time × Option Time
  bench_ns f warmup repeats s =
      let (s', samples) = sample f (at_most_64 repeats) (warm_up f warmup s) in
      let sorted = sort samples in
      (s', get_elem? sorted 0, get_elem? sorted (at_most_64 repeats / 2))

  -- one latency at least
  abbrev pub filled_in : List Time → List Time
  filled_in lat = if length lat == 0 then no_time ∷ [] else lat

  -- p50, p99.9 and p99 of the latencies
  unfoldable pub tails : List Time → Option Time × Option Time × Option Time
  tails lat =
      let filled = filled_in lat in
      let n = length filled in
      let sorted = sort filled in
      (get_elem? sorted (n / 2), get_elem? sorted (n * 999 / 1000), get_elem? sorted (n * 99 / 100))

-- `xorshift64`, which gives its state
unfoldable pub xorshift64 : ℕ → ℕ
xorshift64 r =
    let a = bit_xor r (r * 2 ^ 13 % 2 ^ 64) in
    let b = bit_xor a (a / 2 ^ 7) in bit_xor b (b * 2 ^ 17 % 2 ^ 64)

module _ (io : Stdio) where
  open io use {State, open_rb, close_rb, fwrite, fflush, fread, read_at}

  -- the stream, and `written`
  abbrev pub Ctx : Type 0
  Ctx = State × Bool

  -- `fwrite(p, 1, n, out) != n || fflush(out) != 0`
  abbrev pub write_flush : Ctx → List ℕ → Ctx
  write_flush (s, written) p =
      let (s', n) = fwrite s p in
      let (s'', flushed) = fflush s' in
      if n == length p then (s'', written && flushed) else (s', false)

  abbrev pub records : ℕ → List ℕ → Ctx → Ctx
  records zero p c = c
  records (suc n) p c = records n (drop k_record p) (write_flush c (take k_record p))

  unfoldable pub tiny_writes : List ℕ → Ctx → Ctx
  tiny_writes p c = records (k_data / k_record) p c

  unfoldable pub batch_write : List ℕ → Ctx → Ctx
  batch_write p c = write_flush c p

  -- the loop of `read_all`, with fuel: the bytes that it saw
  unfoldable pub fread_all : ℕ → State → ℕ → Option (State × ℕ)
  fread_all zero s bytes = none
  fread_all (suc fuel) s bytes =
      let (s', n) = fread s (64 * 1024) in
      elim n [ zero ↦ some (s', bytes) | suc m ↦ fread_all fuel s' (bytes + suc m) ]

  abbrev pub close_read : Option (State × ℕ) → Option (State × ℕ)
  close_read none = none
  close_read (some (s, bytes)) = some (close_rb s, bytes)

  -- `read_all`
  unfoldable pub read_file : ℕ → State → Option (State × ℕ)
  unfolding fread_all
  read_file fuel s =
      let (s', opened) = open_rb s in
      if opened then close_read (fread_all fuel s' 0) else some (s', 0)

  module _ (clock : Clock State) where
    -- the loop of `random_read_latencies` over `reads` turns, with the state of the generator
    unfoldable pub read_blocks : ℕ → ℕ → ℕ → State → State × List clock.Time
    unfolding xorshift64
    read_blocks blocks zero rng s = (s, [])
    read_blocks blocks (suc reads) rng s =
        let rng' = xorshift64 rng in
        let (s₀, t0) = clock.now s in
        let (s₁, ok) = read_at s₀ (rng' % blocks * k_disk_block) in
        let (s₂, t1) = clock.now s₁ in
        let (s₃, lat) = read_blocks blocks reads rng' s₂ in
        if ltb 0 blocks then (if ok then (s₃, clock.gap t1 t0 ∷ lat) else (s₂, [])) else (s, [])

    unfoldable pub random_read_latencies : ℕ → ℕ → ℕ → State → State × List clock.Time
    unfolding read_blocks
    random_read_latencies file_bytes reads rng s =
        let (s', opened) = open_rb s in
        let (s'', lat) = read_blocks (file_bytes / k_disk_block) reads rng s' in
        if opened then (close_rb s'', lat) else (s', [])

  module _ (clock : Clock Ctx) where
    -- the first two benchmarks of the main function
    unfoldable pub write_twice : List ℕ → Ctx → Ctx
    unfolding bench_ns tiny_writes batch_write
    write_twice bytes c =
        let (c', minimum, median) = bench_ns clock (tiny_writes bytes) 3 21 c in
        (bench_ns clock (batch_write bytes) 3 21 c').0

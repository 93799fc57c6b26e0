-- ===== src/Latency.antt =====
-- The latency samples and the percentiles of
-- 09-storage-lab-iops-throughput-latency-queue-depth-in-10-minutes/12_percentiles.c. The samples are whole numbers of
-- nanoseconds below 2 ^ 23, which the doubles of the C code hold exactly. The percentiles are the three that the
-- main function asks for. For these, and up to 2 ^ 40 samples, the rank of the C code, a product of doubles that is
-- cut to a whole number, is the whole division below: the product is off by less than 2 ^ -51 of itself, which
-- is less than the distance to the next whole number above, and it is not below where it is whole. `qsort`
-- is an argument; the mean is the fraction that the C code divides, and the allocations that fail are left
-- out.
pub mod Rank
pub mod Model
mod Tests
use inside_the_cpu_storage_a.Base.{
  ℕ, zero, suc, ◌+◌, ◌-◌, ◌*◌, ◌/◌, ◌%◌, ◌^◌, Option, List, [], ◌∷◌, length, get_elem?, take, drop,
  ltb, ◌==◌, if◌then◌else◌, bit_xor,
}

-- the percentiles 50.0, 99.0 and 99.9
pub data Percentile : Type 0 where
  at_50 at_99 at_999 : Percentile

abbrev pub tenths : Percentile → ℕ
tenths at_50 = 500
tenths at_99 = 990
tenths at_999 = 999

-- the sample at a percentile, for 2 ^ 40 samples at most
unfoldable pub percentile : List ℕ → Percentile → Option ℕ
percentile sorted p = get_elem? sorted (tenths p * (length sorted - 1) / 1000)

abbrev pub sum_of : List ℕ → ℕ
sum_of [] = 0
sum_of (x ∷ v) = x + sum_of v

abbrev pub mean : List ℕ → ℕ × ℕ
mean v = (sum_of v, length v)

abbrev pub mix : ℕ → ℕ
mix z =
    let a = bit_xor z (z / 2 ^ 30) * 13787848793156543929 % 2 ^ 64 in
    let b = bit_xor a (a / 2 ^ 27) * 10723151780598845931 % 2 ^ 64 in bit_xor b (b / 2 ^ 31)

-- the new state and the number
unfoldable pub splitmix64 : ℕ → ℕ × ℕ
splitmix64 state = let z = (state + 11400714819323198485) % 2 ^ 64 in (z, mix z)

abbrev pub delayed : ℕ → ℕ → ℕ
delayed us dice =
    let behind = if ltb dice 10 then us + 400 else us in if dice == 0 then behind + 5000 else behind

-- one turn of the loop
unfoldable pub one_latency : ℕ → ℕ × ℕ
unfolding splitmix64
one_latency rng =
    let (rng', v) = splitmix64 rng in
    let (rng'', w) = splitmix64 rng' in (rng'', delayed (70 + v % 40) (w % 1000) * 1000)

unfoldable pub latencies_from : ℕ → ℕ → List ℕ
unfolding one_latency
latencies_from rng zero = []
latencies_from rng (suc n) = let (rng', ns) = one_latency rng in ns ∷ latencies_from rng' n

abbrev pub model_latencies : ℕ → List ℕ
model_latencies n = latencies_from 42 n

-- the five short tests of the main function: the median and the tail of each
unfoldable pub short_tests : (List ℕ → List ℕ) → List ℕ → ℕ → List (Option ℕ × Option ℕ)
unfolding percentile
short_tests sort all zero = []
short_tests sort all (suc t) =
    let small = sort (take 1000 all) in
    (percentile small at_50, percentile small at_999) ∷ short_tests sort (drop 1000 all) t

pub record Summary : Type 0 where
  pub p50 : Option ℕ
  pub p99 : Option ℕ
  pub p999 : Option ℕ
  pub highest : Option ℕ
  pub average : ℕ × ℕ
  pub short : List (Option ℕ × Option ℕ)

-- what the main function prints, for `n` samples
unfoldable pub percentiles_main : (List ℕ → List ℕ) → ℕ → Summary
unfolding percentile short_tests latencies_from
percentiles_main sort n =
    let lat_ns = sort (model_latencies n) in
    record {
      p50 = percentile lat_ns at_50;
      p99 = percentile lat_ns at_99;
      p999 = percentile lat_ns at_999;
      highest = get_elem? lat_ns (n - 1);
      average = mean lat_ns;
      short = short_tests sort (model_latencies 5000) 5;
    }

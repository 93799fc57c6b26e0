-- ===== src/Latency/Model.antt =====
-- The modelled samples, and the figures of the main function.
use inside_the_cpu_storage_a.Base.{
  ℕ, zero, suc, ◌+◌, ◌-◌, ◌*◌, ◌%◌, ◌≤◌, ◌<◌, ◌≡◌, ◌⊎◌, inl, inr, refl, ap, subst, ◌∙◌, Option,
  List, [], ◌∷◌, arith, length, length-take, length-drop, get_elem?, take, drop,
}
use inside_the_cpu_storage_a.Latency.{
  at_50, at_99, at_999, percentile, delayed, splitmix64, one_latency, latencies_from,
  model_latencies, short_tests, percentiles_main,
}
use inside_the_cpu_storage_a.Latency.Rank.{IsSorted, InOrder, percentile-InOrder, highest-InOrder}

-- A read of 70 to 109 us, alone, behind another command, or behind garbage collection too.
abbrev pub IsLatency : ℕ → Type 0
IsLatency ns =
    (us : ℕ) × (wait : ℕ) × (ns ≡ (us + wait) * 1000)
    × (70 ≤ us)
    × (us < 110)
    × ((wait ≡ 0) ⊎ (wait ≡ 400) ⊎ (wait ≡ 5400))

abbrev pub AllLatencies : List ℕ → Type 0
AllLatencies [] = Unit
AllLatencies (ns ∷ v) = IsLatency ns × AllLatencies v

delayed_lem :
    (us dice : ℕ)
    → (delayed us dice ≡ us) ⊎ (delayed us dice ≡ us + 400) ⊎ (delayed us dice ≡ us + 5400)
delayed_lem us dice = ground arith

delayed-IsLatency : (us dice : ℕ) → 70 ≤ us → us < 110 → IsLatency (delayed us dice * 1000)
delayed-IsLatency us dice low high = elim (delayed_lem us dice) [
  | inl e ↦ (us, 0, omega arith, low, high, inl refl)
  | inr (inl e) ↦ (us, 400, omega arith, low, high, inr (inl refl))
  | inr (inr e) ↦ (us, 5400, omega arith, low, high, inr (inr refl))
]

one_latency-IsLatency : (rng : ℕ) → IsLatency (one_latency rng).1
unfolding one_latency
one_latency-IsLatency rng =
    let (rng', v) = splitmix64 rng in
    let (rng'', w) = splitmix64 rng' in
    delayed-IsLatency (70 + v % 40) (w % 1000) (omega arith) (omega arith)

-- From any state of the generator, the model gives as many samples as it is asked for, and each is a read of 70 to 109
-- whole microseconds with a wait of 0, 400 or 5400 on top, in nanoseconds.
pub latencies_from_lem :
    (rng n : ℕ) → (length (latencies_from rng n) ≡ n) × AllLatencies (latencies_from rng n)
unfolding latencies_from
latencies_from_lem rng zero = (refl, tt)
latencies_from_lem rng (suc n) =
    let (count, all) = latencies_from_lem (one_latency rng).0 n in
    (ap suc count, (one_latency-IsLatency rng, all))

module _ (sort : List ℕ → List ℕ) (sorted : (xs : List ℕ) → IsSorted (sort xs))
    (kept : (xs : List ℕ) → length (sort xs) ≡ length xs) where
  -- the median of each short test is at most its tail
  abbrev pub AllInOrder : List (Option ℕ × Option ℕ) → Type 0
  AllInOrder [] = Unit
  AllInOrder ((median, tail) ∷ tests) = InOrder median tail × AllInOrder tests

  short_tests-AllInOrder :
      (all : List ℕ) (t : ℕ) → length all ≡ t * 1000 → AllInOrder (short_tests sort all t)
  unfolding short_tests
  short_tests-AllInOrder all zero h = tt
  short_tests-AllInOrder all (suc t) h =
      let split : length all ≡ 1000 + t * 1000 = omega arith in
      let count = kept (take 1000 all) ∙ length-take 1000 all (t * 1000) split in
      (
        percentile-InOrder (sort (take 1000 all)) at_50 at_999 (sorted (take 1000 all))
            (omega (arith, count)) (omega arith) (omega arith),
        short_tests-AllInOrder (drop 1000 all) t (length-drop 1000 all (t * 1000) split),
      )

  -- With one sample at least, each figure of the main function is read inside the sorted samples, and they grow: the
  -- median, p99, p99.9 and the maximum, and in each of the five short tests the median and p99.9. The sort
  -- must give a sorted list of the same length.
  pub percentiles_main_lem :
      (n : ℕ)
      → 0 < n
      → InOrder (percentiles_main sort n).p50 (percentiles_main sort n).p99
        × InOrder (percentiles_main sort n).p99 (percentiles_main sort n).p999
        × InOrder (percentiles_main sort n).p999 (percentiles_main sort n).highest
        × (length (percentiles_main sort n).short ≡ 5)
        × AllInOrder (percentiles_main sort n).short
  unfolding percentiles_main
  percentiles_main_lem n h =
      let lat = sort (model_latencies n) in
      let count : length lat ≡ n = kept (model_latencies n) ∙ (latencies_from_lem 42 n).0 in
      let all = sorted (model_latencies n) in
      (
        percentile-InOrder lat at_50 at_99 all (omega (arith, count)) (omega arith) (omega arith),
        percentile-InOrder lat at_99 at_999 all (omega (arith, count)) (omega arith) (omega arith),
        subst (λ k. InOrder (percentile lat at_999) (get_elem? lat (k - 1))) count
            (highest-InOrder lat at_999 all (omega (arith, count)) (omega arith)),
        refl,
        short_tests-AllInOrder (model_latencies 5000) 5 ((latencies_from_lem 42 5000).0),
      )

-- ===== src/Rules/Bench.antt =====
-- The timing harness `bench_ns` runs the function as often as it says, and its figures are inside the samples.
use inside_the_cpu_storage_a.Base.{
  ◌⊎◌, inl, inr, min, dec_lt, ℕ, zero, suc, ◌+◌, ◌/◌, ◌≡◌, refl, ap, ◌∙◌, subst, some, List, arith,
  length, get_elem?-some,
}
use inside_the_cpu_storage_a.Rules.{Clock, warm_up, timed, sample, at_most_64, bench_ns}

at_most_64_lem : (repeats : ℕ) → at_most_64 repeats ≡ min repeats 64
at_most_64_lem repeats = ground arith

module _ {S : Type 0} (clock : Clock S) where
  open clock use {Time, now, sort}

  module _ (P : ℕ → S → Type 0) (f : S → S) (run : (n : ℕ) (s : S) → P n s → P (suc n) (f s))
      (reading : (n : ℕ) (s : S) → P n s → P n (now s).0) where
    warm_up_lem : (k n : ℕ) (s : S) → P n s → P (n + k) (warm_up clock f k s)
    warm_up_lem zero n s p = subst (λ i. P i s) (omega arith) p
    warm_up_lem (suc k) n s p =
        subst (λ i. P i (warm_up clock f k (f s))) (omega arith)
          (warm_up_lem k (suc n) (f s) (run n s p))

    timed_lem : (n : ℕ) (s : S) → P n s → P (suc n) (timed clock f s).0
    timed_lem n s p = reading (suc n) _ (run n _ (reading n s p))

    sample_lem : (k n : ℕ) (s : S) → P n s → P (n + k) (sample clock f k s).0
    sample_lem zero n s p = subst (λ i. P i s) (omega arith) p
    sample_lem (suc k) n s p =
        subst (λ i. P i (sample clock f (suc k) s).0) (omega arith)
          (sample_lem k (suc n) (timed clock f s).0 (timed_lem n s p))

  length-sample : (f : S → S) (k : ℕ) (s : S) → length (sample clock f k s).1 ≡ k
  length-sample f zero s = refl
  length-sample f (suc k) s = ap suc (length-sample f k (timed clock f s).0)

  -- The harness runs the function once for each warm up turn and once for each repeat, 64 repeats at most: what holds
  -- after `n` runs of the function, and what a reading of the clock keeps, holds at the end for that number of
  -- runs. With a repeat at least, the minimum and the median are read inside the samples. The sort must keep
  -- their number.
  pub bench_ns_lem :
      (P : ℕ → S → Type 0) (f : S → S) (warmup repeats : ℕ) (s : S)
      → ((ts : List Time) → length (sort ts) ≡ length ts)
      → ((n : ℕ) (t : S) → P n t → P (suc n) (f t))
      → ((n : ℕ) (t : S) → P n t → P n (now t).0)
      → P 0 s
      → P (warmup + min repeats 64) (bench_ns clock f warmup repeats s).0
        × ((repeats ≡ 0)
            ⊎ (((t : Time) × ((bench_ns clock f warmup repeats s).1 ≡ some t))
                × ((t : Time) × ((bench_ns clock f warmup repeats s).2 ≡ some t))))
  unfolding bench_ns
  bench_ns_lem P f warmup repeats s sorted run reading p =
      let s' = warm_up clock f warmup s in
      let k = at_most_64 repeats in
      let all = sorted (sample clock f k s').1 ∙ length-sample f k s' in
      (
        subst (λ n. P (warmup + n) (sample clock f k s').0) (at_most_64_lem repeats)
            (sample_lem P f run reading k warmup s'
              (subst (λ i. P i s') (omega arith) (warm_up_lem P f run reading warmup 0 s p))),
        elim (dec_lt 0 repeats) [
          | no none_asked ↦ inl (omega arith)
          | yes asked ↦ inr (
            get_elem?-some (sort (sample clock f k s').1) 0
                (omega (arith, all, at_most_64_lem repeats)),
            get_elem?-some (sort (sample clock f k s').1) (k / 2)
                (omega (arith, all, at_most_64_lem repeats)),
          )
        ],
      )

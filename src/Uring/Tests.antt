-- ===== src/Uring/Tests.antt =====
-- Runs of 10_uring_model.c, and the theorems on its rings on them.
use inside_the_cpu_storage_a.Base.{
  List, ◌^◌, ◌-◌, ℕ, ◌≡◌, ◌⊎◌, refl, Option, none, some, [], ◌∷◌, ◌++◌, arith, length, ltb,
  if◌then◌else◌, map, replicate,
}
use inside_the_cpu_storage_a.Uring.{
  bytes, Sqe, Cqe, Ring, sq_n, cq_n, push, pop, zero_sqe, zero_cqe, read_at, enter, drain,
  uring_main, invalid, answer, enter_loop,
}
use inside_the_cpu_storage_a.Uring.Queue.{IsRing, contents, push_lem, pop_lem}
use inside_the_cpu_storage_a.Uring.Enter.{
  sq_n-Wraps, submissions, completions, AllAnswers, Entered, enter-Entered, drain_lem,
}

-- a submission ring with three entries, whose counters are about to wrap around
abbrev wrapping : Ring Sqe
wrapping = record {
  slots = map (λ i. read_at i i) (0 ∷ 1 ∷ 2 ∷ 3 ∷ 4 ∷ 5 ∷ 6 ∷ 7 ∷ []);
  head = 0xFFFFFFFE;
  tail = 1;
}

wrapping-IsRing : IsRing sq_n zero_sqe wrapping
wrapping-IsRing = omega arith

-- a completion ring with fifteen entries
abbrev nearly_full : Ring Cqe
nearly_full = record { slots = replicate cq_n zero_cqe; head = 0xFFFFFFF8; tail = 7 }

nearly_full-IsRing : IsRing cq_n zero_cqe nearly_full
nearly_full-IsRing = omega arith

push_run :
    let (r', ok) = push sq_n wrapping (read_at 9 9) in
    IsRing sq_n zero_sqe r'
    × (ok ≡ ltb (length (contents sq_n zero_sqe wrapping)) sq_n)
    × (contents sq_n zero_sqe r' ≡ (
        if ok
        then contents sq_n zero_sqe wrapping ++ (read_at 9 9 ∷ [])
        else contents sq_n zero_sqe wrapping))
push_run = push_lem sq_n zero_sqe (read_at 9 9) sq_n-Wraps wrapping-IsRing

pop_run :
    ((contents sq_n zero_sqe wrapping ≡ []) × (pop sq_n zero_sqe wrapping ≡ none))
    ⊎ ((x : Sqe) × (r' : Ring Sqe) × (pop sq_n zero_sqe wrapping ≡ some (x, r'))
        × IsRing sq_n zero_sqe r'
        × (contents sq_n zero_sqe wrapping ≡ x ∷ contents sq_n zero_sqe r'))
pop_run = pop_lem sq_n zero_sqe sq_n-Wraps wrapping-IsRing

enter-Entered_example :
    (sq' : Ring Sqe) × (cq' : Ring Cqe) × (cs : List Cqe) × AllAnswers (submissions wrapping) cs
    × Entered wrapping nearly_full sq' cq' cs
    × (enter wrapping nearly_full ≡ some (sq', cq', length (submissions wrapping)))
enter-Entered_example = enter-Entered wrapping-IsRing nearly_full-IsRing

drain_run :
    (cq' : Ring Cqe) × IsRing cq_n zero_cqe cq'
    × (completions cq' ≡ [])
    × (drain 17 nearly_full ≡ some (cq', completions nearly_full))
drain_run = drain_lem 17 nearly_full-IsRing (omega arith)

-- A read past the end of the file is answered by an error.
past_end : (answer (read_at 16 7)).res ≡ invalid
unfolding answer
past_end = refl

abbrev exit_status {ℓ} : {A : Type ℓ} → Option (A × ℕ) → Option ℕ
exit_status none = none
exit_status (some (a, s)) = some s

uring_exit : exit_status uring_main ≡ some 0
unfolding uring_main push pop enter_loop answer
uring_exit = refl

-- An offset whose end wraps around on 64 bits counts as in the file.
wrapped_end : (answer (record (read_at 0 7) { off = 2 ^ 64 - 4096 })).res ≡ bytes 4096
unfolding answer
wrapped_end = refl

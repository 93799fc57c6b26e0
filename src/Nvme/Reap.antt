-- ===== src/Nvme/Reap.antt =====
-- The loop of 10_reap.c on the completion ring as a queue.
use inside_the_cpu_storage_a.Base.{
  leb, if◌then◌else◌, ℕ, zero, suc, ◌+◌, ◌<◌, ◌≡◌, ◌≢◌, ap, ap₂, sym, ◌∙◌, some, List, [], ◌∷◌,
  ◌++◌, arith, length, get_or, window, ne→==, ◌>>=◌, ==_iff, ℕ_discrete,
}
use inside_the_cpu_storage_a.Nvme.{
  CompletionEntry, QueuePair, Event, error, done, k_size, next, zero_completion, handle, reap_loop,
  reap,
}
use inside_the_cpu_storage_a.Nvme.View.{IsPair, dist, posted, window-pop}

-- what is to be reported of a list of completions: each is done, and before that an error when the status above the
-- phase bit is not zero
abbrev pub reports : List CompletionEntry → List Event
reports [] = []
reports (c ∷ cs) =
    if leb 2 c.status
    then error c.command_id ∷ (done c.command_id ∷ reports cs)
    else done c.command_id ∷ reports cs

handle-reports :
    (c : CompletionEntry) (cs : List CompletionEntry) → handle c ++ reports cs ≡ reports (c ∷ cs)
unfolding handle
handle-reports c cs = ground arith

moved-IsPair :
    {q : QueuePair} (h d w : ℕ)
    → IsPair q
    → h < k_size
    → IsPair (record q { cq_head = h; cq_doorbell = d; doorbell_writes = w })
moved-IsPair h d w v h_in = record {
  sq_size = v.sq_size;
  cq_size = v.cq_size;
  sq_tail_in = v.sq_tail_in;
  sq_head_in = v.sq_head_in;
  cq_tail_in = v.cq_tail_in;
  cq_head_in = h_in;
  doorbell_in = v.doorbell_in;
  announced = v.announced;
  id_in = v.id_in;
}

nothing : (q : QueuePair) → IsPair q → q.cq_head ≡ q.cq_tail → posted q ≡ []
nothing q v e = ap (window k_size zero_completion q.cq q.cq_head) {y = 0} (omega arith)

next-in : (a : ℕ) → next a < k_size
unfolding next
next-in a = omega arith

next-dist : (a b : ℕ) → a < k_size → b < k_size → a ≢ b → suc (dist (next a) b) ≡ dist a b
unfolding next
next-dist a b a_in b_in ne = omega arith

reap_loop-lem :
    (n : ℕ) (q : QueuePair)
    → IsPair q
    → dist q.cq_head q.cq_tail < n
    → reap_loop n q ≡ some (record q { cq_head = q.cq_tail }, length (posted q), reports (posted q))
unfolding reap_loop
reap_loop-lem zero q v enough = elim enough [ ]
reap_loop-lem (suc n) q v enough = elim (ℕ_discrete q.cq_head q.cq_tail) [
  | yes e ↦
      rw ((==_iff q.cq_head q.cq_tail).1 e) (
        ap₂ (λ h cs. some (record q { cq_head = h }, length cs, reports cs)) e
          (sym (nothing q v e)))
  | no ne ↦ rw (ne→== q.cq_head q.cq_tail ne) (
      ap
        (λ o. o >>= λ r. some (r.0, suc r.1, handle (get_or q.cq q.cq_head zero_completion) ++ r.2))
        (reap_loop-lem n (record q { cq_head = next q.cq_head })
          (moved-IsPair (next q.cq_head) q.cq_doorbell q.doorbell_writes v (next-in q.cq_head))
          (omega (arith, next-dist q.cq_head q.cq_tail v.cq_head_in v.cq_tail_in ne)))
      ∙ ap
          (λ es. some (
            record q { cq_head = q.cq_tail },
            suc (length (posted (record q { cq_head = next q.cq_head }))),
            es,
          ))
          (handle-reports (get_or q.cq q.cq_head zero_completion)
            (posted (record q { cq_head = next q.cq_head })))
      ∙ ap (λ cs. some (record q { cq_head = q.cq_tail }, length cs, reports cs))
          (sym (window-pop zero_completion q.cq q.cq_head q.cq_tail v.cq_head_in v.cq_tail_in ne)))
]

-- On a pair in order, `reap` reports every completion in the ring as done, in the order in which they were posted, those
-- with a status other than success as an error first, and counts them. It writes the doorbell once: the
-- head, and the doorbell register, are then at the tail, and the ring is empty.
pub reap_lem :
    {q : QueuePair}
    → IsPair q
    → let q' = record q {
      cq_head = q.cq_tail;
      cq_doorbell = q.cq_tail;
      doorbell_writes = q.doorbell_writes + 1;
    } in
      (reap q ≡ some (q', length (posted q), reports (posted q))) × IsPair q' × (posted q' ≡ [])
unfolding reap
reap_lem {q} v = (
  ap
      (λ o. o >>= λ r. some (
        record (r.0) { cq_doorbell = (r.0).cq_head; doorbell_writes = (r.0).doorbell_writes + 1 },
        r.1,
        r.2,
      ))
      (reap_loop-lem k_size q v (omega arith)),
  moved-IsPair q.cq_tail q.cq_tail (q.doorbell_writes + 1) v v.cq_tail_in,
  ap (window k_size zero_completion q.cq q.cq_tail) {y = 0} (omega arith),
)

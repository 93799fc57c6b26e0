-- ===== src/Nvme/Fill.antt =====
-- The loop of the main functions of 08_submit.c and 10_reap.c that fills the submission ring.
use inside_the_cpu_storage_a.Base.{
  dec_lt, ℕ, zero, suc, ◌+◌, ◌-◌, ◌≤◌, ◌≡◌, ap, ◌∙◌, false, Option, none, some, [], ◌∷◌, ◌++◌,
  arith, length, length-append, if◌then◌else◌, ◌>>=◌, length-window,
}
use inside_the_cpu_storage_a.Nvme.{QueuePair, k_size, read_entry, submit, zero_entry}
use inside_the_cpu_storage_a.Nvme.View.{IsPair, dist, queued, rung, posted, submit_lem}
use inside_the_cpu_storage_a.Nvme.Batch.{submit-room}

-- `while (submit(&q, lba, buffer)) ++accepted;`, with fuel
unfoldable pub fill : ℕ → ℕ → ℕ → QueuePair → Option (QueuePair × ℕ)
fill zero lba buffer q = none
fill (suc n) lba buffer q =
    let rest = fill n lba buffer ((submit q lba buffer).0) >>= λ r. some (r.0, suc r.1) in
    if (submit q lba buffer).1 then rest else some ((submit q lba buffer).0, 0)

-- What filling makes of `q`.
pub record Filled (q q' : QueuePair) : Type 0 where
  pub pair : IsPair q'
  pub full : length (queued q') ≡ k_size - 1
  pub same_rung : rung q' ≡ rung q
  pub same_posted : posted q' ≡ posted q
  pub same_writes : q'.doorbell_writes ≡ q.doorbell_writes

length-queued : (q : QueuePair) → length (queued q) ≡ dist q.sq_head q.sq_tail
length-queued q = length-window k_size zero_entry q.sq q.sq_head (dist q.sq_head q.sq_tail)

-- On a pair in order, submitting until a command is refused ends within `n` calls when `n` and the
-- commands in the ring make eight or more: it accepts as many commands as the ring has slots left
-- but one, which stays empty; nothing is announced or completed, and no doorbell is written.
pub fill-Filled :
    (n lba buffer : ℕ) (q : QueuePair)
    → IsPair q
    → k_size ≤ n + length (queued q)
    → (q' : QueuePair) × Filled q q'
      × (fill n lba buffer q ≡ some (q', k_size - 1 - length (queued q)))
unfolding fill
fill-Filled zero lba buffer q v enough =
    let absurd : ⊥ = omega (arith, length-queued q) in elim absurd [ ]
fill-Filled (suc n) lba buffer q v enough = elim (dec_lt (length (queued q)) (k_size - 1)) [
  | yes room ↦
      let (pair, acc, more, r, p, id, w) = submit-room q lba buffer v room in
      let size : length (queued (submit q lba buffer).0) ≡ length (queued q) + 1 =
        ap length more ∙ length-append (queued q) (read_entry q.next_id lba buffer ∷ []) in
      let (q', f, run) = fill-Filled n lba buffer (submit q lba buffer).0 pair (omega arith) in
      (
        q',
        record {
          pair = f.pair;
          full = f.full;
          same_rung = f.same_rung ∙ r;
          same_posted = f.same_posted ∙ p;
          same_writes = f.same_writes ∙ w;
        },
        rw acc
            (ap (λ o. o >>= λ r. some (r.0, suc r.1)) run ∙ ap (λ m. some (q', m)) (omega arith)),
      )
  | no full ↦
      let (pair, acc, more, r, p, id, w) = submit_lem {q = q} lba buffer v in
      let refused : (submit q lba buffer).1 ≡ false = acc ∙ ground arith in
      (
        (submit q lba buffer).0,
        record {
          pair = pair;
          full =
              ap length (
                more
                ∙ ap
                    (λ b.
                      if b then queued q ++ (read_entry q.next_id lba buffer ∷ []) else queued q)
                    refused)
              ∙ omega (arith, length-queued q);
          same_rung = r;
          same_posted = p;
          same_writes = w;
        },
        rw refused (ap (λ m. some ((submit q lba buffer).0, m)) (omega arith)),
      )
]

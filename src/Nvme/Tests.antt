-- ===== src/Nvme/Tests.antt =====
-- Runs of the queue pair of 07-storage-lab-inside-nvme-queues-in-10-minutes, and its theorems on them.
use inside_the_cpu_storage_a.Base.{
  ℕ, ◌+◌, ◌-◌, ◌*◌, ◌%◌, ◌^◌, ◌≡◌, refl, true, false, Option, none, some, List, [], ◌∷◌, ◌++◌,
  arith, length, if◌then◌else◌, ltb, ◌>>=◌, map,
}
use inside_the_cpu_storage_a.Nvme.{
  QueuePair, HostRam, k_size, zero_pair, zero_completion, read_entry, submit, controller_run, reap,
}
use inside_the_cpu_storage_a.Nvme.View.{IsPair, queued, rung, posted, zero_pair-IsPair, submit_lem}
use inside_the_cpu_storage_a.Nvme.Controller.{Served, transfers, controller_run-Served}
use inside_the_cpu_storage_a.Nvme.Reap.{reports, reap_lem}
use inside_the_cpu_storage_a.Nvme.Batch.{
  batch, submit_all, Queued, reads, dones, batch_lem, submit_all-Queued,
}
use inside_the_cpu_storage_a.Nvme.Fill.{fill, Filled, fill-Filled}
use inside_the_cpu_storage_a.Nvme.Programs.{
  old_entry, new_entry, decode, submit_main, controller_main, reap_main,
}

abbrev four_reads : List (ℕ × ℕ)
four_reads = (16, 0) ∷ (17, 4096) ∷ (18, 8192) ∷ (19, 12288) ∷ []

batch_lem_example :
    (q' : QueuePair) × IsPair q'
    × (queued q' ≡ [])
    × (posted q' ≡ [])
    × (q'.doorbell_writes ≡ zero_pair.doorbell_writes + 2)
    × ((ram : HostRam)
        → batch four_reads zero_pair ram ≡ (
            transfers ram (reads zero_pair.next_id four_reads) >>= λ ram'.
            some (q', ram', length four_reads, dones zero_pair.next_id four_reads)))
unfolding zero_pair
batch_lem_example = batch_lem four_reads zero_pair zero_pair-IsPair refl refl (omega arith)

submit_run :
    let (q', accepted) = submit zero_pair 0x1000 4096 in
    IsPair q'
    × (accepted ≡ ltb (length (queued zero_pair)) (k_size - 1))
    × (queued q' ≡ (
        if accepted
        then queued zero_pair ++ (read_entry zero_pair.next_id 0x1000 4096 ∷ [])
        else queued zero_pair))
    × (rung q' ≡ rung zero_pair)
    × (posted q' ≡ posted zero_pair)
    × (q'.next_id ≡ (if accepted then (zero_pair.next_id + 1) % 2 ^ 16 else zero_pair.next_id))
    × (q'.doorbell_writes ≡ zero_pair.doorbell_writes)
submit_run = submit_lem 0x1000 4096 zero_pair-IsPair

submit_all_run : Queued four_reads zero_pair (submit_all four_reads zero_pair)
unfolding zero_pair
submit_all_run = submit_all-Queued four_reads zero_pair zero_pair-IsPair (omega arith)

-- three commands are announced, and two completions are in the ring
abbrev busy : QueuePair
busy = record {
  sq = map (λ i. read_entry i (16 + i) 0) (0 ∷ 1 ∷ 2 ∷ 3 ∷ 4 ∷ 5 ∷ 6 ∷ 7 ∷ []);
  cq =
      map (λ i. record zero_completion { command_id = i; status = 1 + i })
        (0 ∷ 1 ∷ 2 ∷ 3 ∷ 4 ∷ 5 ∷ 6 ∷ 7 ∷ []);
  sq_tail = 1;
  cq_head = 3;
  sq_head = 5;
  cq_tail = 5;
  sq_doorbell = 0;
  cq_doorbell = 3;
  next_id = 8;
  doorbell_writes = 4;
}

busy-IsPair : IsPair busy
busy-IsPair = omega arith

controller_run-Served_example :
    (q' : QueuePair) × Served busy q'
    × ((ram : HostRam)
        → controller_run busy ram ≡ (transfers ram (rung busy) >>= λ ram'. some (q', ram')))
controller_run-Served_example = controller_run-Served busy-IsPair

reap_lem_example :
    let q' = record busy {
      cq_head = busy.cq_tail;
      cq_doorbell = busy.cq_tail;
      doorbell_writes = busy.doorbell_writes + 1;
    } in
    (reap busy ≡ some (q', length (posted busy), reports (posted busy)))
    × IsPair q'
    × (posted q' ≡ [])
reap_lem_example = reap_lem busy-IsPair

fill-Filled_example :
    (q' : QueuePair) × Filled busy q'
    × (fill k_size 0x100 0 busy ≡ some (q', k_size - 1 - length (queued busy)))
fill-Filled_example = fill-Filled k_size 0x100 0 busy busy-IsPair (omega arith)

ok_entry :
    decode (record zero_completion { sq_head = 3; sq_id = 1; command_id = 42; status = 1 }) 1
    ≡ new_entry 42 1 1 0 true 3
unfolding decode
ok_entry = refl

failed_entry :
    decode
      (record zero_completion { sq_head = 4; sq_id = 1; command_id = 43; status = 0x281 * 2 + 1 })
      1
    ≡ new_entry 43 1 1 0x281 false 4
unfolding decode
failed_entry = refl

stale_entry : decode (record zero_completion { sq_id = 1; command_id = 7 }) 1 ≡ old_entry 7 1 0 1
unfolding decode
stale_entry = refl

abbrev exit_status {ℓ} : {A : Type ℓ} → Option (A × ℕ) → Option ℕ
exit_status none = none
exit_status (some (a, s)) = some s

submit_exit : submit_main ≡ some 0
unfolding submit_main
submit_exit = refl

controller_exit : exit_status controller_main ≡ some 0
unfolding controller_main submit_all submit
controller_exit = refl

reap_exit : exit_status reap_main ≡ some 0
unfolding reap_main submit_all submit
reap_exit = refl

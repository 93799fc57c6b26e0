-- ===== src/Nvme/Programs.antt =====
-- The main functions of 06_completion_entry.c, 08_submit.c, 09_controller.c and 10_reap.c of the
-- NVMe lab: the numbers that they print, and the exit status.
use inside_the_cpu_storage_a.Base.{
  ℕ, suc, ◌+◌, ◌-◌, ◌*◌, ◌/◌, ◌%◌, Bool, ◌&&◌, Option, some, List, [], ◌∷◌, ◌++◌, map, upto,
  if◌then◌else◌, ◌>>=◌, ◌==◌,
}
use inside_the_cpu_storage_a.Nvme.{
  CompletionEntry, QueuePair, Event, error, done, k_size, k_page, zero_pair, submit,
  ring_sq_doorbell, controller_run, reap,
}
use inside_the_cpu_storage_a.Nvme.Batch.{submit_all, batch}
use inside_the_cpu_storage_a.Nvme.Fill.{fill}

pub data Decoded : Type 0 where
  old_entry : (id sq phase expected : ℕ) → Decoded
  new_entry : (id sq phase code : ℕ) (success : Bool) (head : ℕ) → Decoded

-- what `decode` prints
unfoldable pub decode : CompletionEntry → ℕ → Decoded
decode c expected =
    let phase = c.status % 2 in
    let code = c.status / 2 in
    if phase == expected
    then new_entry c.command_id c.sq_id phase code (code == 0) c.sq_head
    else old_entry c.command_id c.sq_id phase expected

-- what `state` prints
pub record State : Type 0 where
  pub sq_tail : ℕ
  pub sq_head : ℕ
  pub cq_tail : ℕ
  pub cq_head : ℕ
  pub doorbell_writes : ℕ

abbrev pub state : QueuePair → State
state q = record {
  sq_tail = q.sq_tail;
  sq_head = q.sq_head;
  cq_tail = q.cq_tail;
  cq_head = q.cq_head;
  doorbell_writes = q.doorbell_writes;
}

-- `return ok ? 0 : 1`
abbrev pub status : Bool → ℕ
status ok = if ok then 0 else 1

-- `submit`, and the doorbell after each command that is queued
eager_all : List (ℕ × ℕ) → QueuePair → QueuePair
unfolding submit ring_sq_doorbell
eager_all [] q = q
eager_all ((lba, buffer) ∷ rs) q =
    let (q', ok) = submit q lba buffer in eager_all rs (if ok then ring_sq_doorbell q' else q')

-- 08_submit.c
unfoldable pub submit_main : Option ℕ
unfolding zero_pair submit_all eager_all fill ring_sq_doorbell
submit_main =
    let reads = map (λ i. (0x1000 + 8 * i, i * 4096)) (upto 4) in
    let batched = ring_sq_doorbell (submit_all reads zero_pair) in
    let eager = eager_all reads zero_pair in
    do
      (q, more) ← fill k_size 0x2000 0 batched
      some (
          status (
            (4 + more == k_size - 1) && ((q.doorbell_writes == 1) && (eager.doorbell_writes == 4))))

-- 09_controller.c: the states that it prints, and its exit status
unfoldable pub controller_main : Option (List State × ℕ)
unfolding zero_pair submit_all ring_sq_doorbell controller_run
controller_main =
    let queued_reads = submit_all (map (λ i. (0x10 + i, i * k_page)) (upto 3)) zero_pair in
    do
      (before, ram) ← controller_run queued_reads (λ a. 0)
      (q, ram') ← controller_run (ring_sq_doorbell before) ram
      some (
        state before ∷ state q ∷ [],
        status (
            (ram' 0 == 0x10)
            && ((ram' k_page == 0x11)
                && ((ram' (2 * k_page) == 0x12) && ((q.cq_tail == 3) && (q.sq_head == 3))))),
      )

-- how many errors `reap` reported
abbrev pub errors : List Event → ℕ
errors [] = 0
errors (error i ∷ es) = suc (errors es)
errors (done i ∷ es) = errors es

-- 10_reap.c: its states after each round, and its exit status
unfoldable pub reap_main : Option (List State × ℕ)
unfolding zero_pair batch fill ring_sq_doorbell controller_run reap
reap_main = do
  (q, ram, count, events) ← batch (map (λ i. (0x10 + i, i * k_page)) (upto 4)) zero_pair (λ a. 0)
  (filled, accepted) ← fill k_size 0x100 0 q
  (q', ram', count', events') ← batch [] filled ram
  some (
    state q ∷ state filled ∷ state q' ∷ [],
    status (
        (count == 4)
        && ((accepted == k_size - 1)
            && ((count' == accepted)
                && ((q'.doorbell_writes == 4) && (errors (events ++ events') == 0))))),
  )

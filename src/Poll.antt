-- ===== src/Poll.antt =====
-- The polled queue pair of 08-storage-lab-buffered-vs-direct-io-in-10-minutes/11_poll_model.c: one
-- command at a time, in model time. Counters are uint32_t, times uint64_t. The table of typical
-- devices at the end of its main function is left out.
pub mod Wait
mod Tests
use inside_the_cpu_storage_a.Base.{
  ℕ, zero, suc, ◌+◌, ◌-◌, ◌*◌, ◌/◌, ◌%◌, ◌^◌, Bool, true, false, not, ◌&&◌, Option, none, some, leb,
  ◌==◌, if◌then◌else◌, ◌>>=◌,
}

pub record Command : Type 0 where
  pub opcode : ℕ
  pub lba : ℕ
  pub blocks : ℕ

pub record Completion : Type 0 where
  pub command_id : ℕ
  pub status : ℕ

abbrev pub k_poll_ns : ℕ
k_poll_ns = 20

abbrev pub k_device_ns : ℕ
k_device_ns = 80000

pub record PolledPair : Type 0 where
  pub sq_entry : Command
  pub cq_entry : Completion
  pub sq_tail : ℕ
  pub cq_head : ℕ
  pub cq_tail : ℕ
  pub sq_doorbells : ℕ
  pub cq_doorbells : ℕ
  pub now_ns : ℕ
  pub done_at_ns : ℕ
  pub in_flight : Bool

unfoldable pub qp_submit : PolledPair → Command → PolledPair
qp_submit q c = record q {
  sq_entry = c;
  sq_tail = (q.sq_tail + 1) % 2 ^ 32;
  sq_doorbells = (q.sq_doorbells + 1) % 2 ^ 32;
  done_at_ns = (q.now_ns + k_device_ns) % 2 ^ 64;
  in_flight = true;
}

-- `qp->now_ns += K_POLL_NS`
abbrev pub pass_time : PolledPair → PolledPair
pass_time q = record q { now_ns = (q.now_ns + k_poll_ns) % 2 ^ 64 }

-- the completion that the device posts when it is due; its id is `(uint16_t)(sq_tail - 1)`
abbrev pub post : PolledPair → PolledPair
post q = record q {
  cq_entry = record { command_id = (q.sq_tail + 2 ^ 32 - 1) % 2 ^ 16; status = 0 };
  cq_tail = (q.cq_tail + 1) % 2 ^ 32;
  in_flight = false;
}

unfoldable pub qp_device_tick : PolledPair → PolledPair
qp_device_tick q =
    if q.in_flight && leb q.done_at_ns (pass_time q).now_ns then post (pass_time q) else pass_time q

abbrev pub qp_completion_ready : PolledPair → Bool
qp_completion_ready q = not (q.cq_head == q.cq_tail)

unfoldable pub qp_reap : PolledPair → PolledPair × Completion
qp_reap q = (
  record q { cq_head = (q.cq_head + 1) % 2 ^ 32; cq_doorbells = (q.cq_doorbells + 1) % 2 ^ 32 },
  q.cq_entry,
)

-- `while (!qp_completion_ready(&qp)) { ++polls; qp_device_tick(&qp); }`, with fuel
unfoldable pub busy_poll : ℕ → PolledPair → Option (PolledPair × ℕ)
unfolding qp_device_tick
busy_poll zero q = none
busy_poll (suc n) q =
    let rest = busy_poll n (qp_device_tick q) >>= λ r. some (r.0, suc r.1) in
    if qp_completion_ready q then some (q, 0) else rest

abbrev pub zero_polled : PolledPair
zero_polled = record {
  sq_entry = record { opcode = 0; lba = 0; blocks = 0 };
  cq_entry = record { command_id = 0; status = 0 };
  sq_tail = 0;
  cq_head = 0;
  cq_tail = 0;
  sq_doorbells = 0;
  cq_doorbells = 0;
  now_ns = 0;
  done_at_ns = 0;
  in_flight = false;
}

-- the main function: polls, microseconds, the completion, doorbell writes, and the exit status
unfoldable pub poll_main : Option (ℕ × ℕ × Completion × ℕ × ℕ)
unfolding qp_submit busy_poll qp_reap
poll_main = do
  (q, polls) ← busy_poll 4001 (qp_submit zero_polled (record { opcode = 2; lba = 0; blocks = 8 }))
  (q', done) ← some (qp_reap q)
  some (
    polls,
    q'.now_ns / 1000,
    done,
    q'.sq_doorbells + q'.cq_doorbells,
    if (polls == k_device_ns / k_poll_ns) && (done.status == 0) then 0 else 1,
  )

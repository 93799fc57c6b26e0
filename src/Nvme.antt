-- ===== src/Nvme.antt =====
-- The NVMe queue pair of 07-storage-lab-inside-nvme-queues-in-10-minutes: the entries and rings of
-- 07_queue_pair.c, and what 08_submit.c, 09_controller.c and 10_reap.c do with them. A field of a
-- fixed width holds a number below 2 to that width; `int` counters are unbounded. `host_ram` is a
-- function from addresses to bytes, and `none` is an access outside it.
pub mod View
pub mod Controller
pub mod Reap
pub mod Batch
pub mod Fill
pub mod Programs
mod Tests
use inside_the_cpu_storage_a.Base.{
  ℕ, zero, suc, ◌+◌, ◌*◌, ◌/◌, ◌%◌, ◌^◌, Bool, true, false, ◌&&◌, Option, none, some, List, [], ◌∷◌,
  ◌++◌, get_or, set, replicate, ltb, leb, ◌==◌, if◌then◌else◌, ◌>>=◌,
}

pub record SubmissionEntry : Type 0 where
  pub opcode : ℕ
  pub flags : ℕ
  pub command_id : ℕ
  pub nsid : ℕ
  pub reserved : ℕ
  pub metadata : ℕ
  pub prp1 : ℕ
  pub prp2 : ℕ
  pub slba : ℕ
  pub nlb : ℕ
  pub cdw13_15 : List ℕ

pub record CompletionEntry : Type 0 where
  pub result : ℕ
  pub reserved : ℕ
  pub sq_head : ℕ
  pub sq_id : ℕ
  pub command_id : ℕ
  pub status : ℕ

-- `kSize`
abbrev pub k_size : ℕ
k_size = 8

unfoldable pub next : ℕ → ℕ
next i = (i + 1) % k_size

pub record QueuePair : Type 0 where
  pub sq : List SubmissionEntry
  pub cq : List CompletionEntry
  pub sq_tail : ℕ
  pub cq_head : ℕ
  pub sq_head : ℕ
  pub cq_tail : ℕ
  pub sq_doorbell : ℕ
  pub cq_doorbell : ℕ
  pub next_id : ℕ
  pub doorbell_writes : ℕ

-- `memset(e, 0, sizeof *e)`
abbrev pub zero_entry : SubmissionEntry
zero_entry = record {
  opcode = 0;
  flags = 0;
  command_id = 0;
  nsid = 0;
  reserved = 0;
  metadata = 0;
  prp1 = 0;
  prp2 = 0;
  slba = 0;
  nlb = 0;
  cdw13_15 = 0 ∷ 0 ∷ 0 ∷ [];
}

abbrev pub zero_completion : CompletionEntry
zero_completion = record {
  result = 0;
  reserved = 0;
  sq_head = 0;
  sq_id = 0;
  command_id = 0;
  status = 0;
}

-- a static `QueuePair`
unfoldable pub zero_pair : QueuePair
zero_pair = record {
  sq = replicate k_size zero_entry;
  cq = replicate k_size zero_completion;
  sq_tail = 0;
  cq_head = 0;
  sq_head = 0;
  cq_tail = 0;
  sq_doorbell = 0;
  cq_doorbell = 0;
  next_id = 0;
  doorbell_writes = 0;
}

-- the read command that `submit` writes into the ring
abbrev pub read_entry : ℕ → ℕ → ℕ → SubmissionEntry
read_entry id lba buffer = record zero_entry {
  opcode = 0x02;
  command_id = id;
  nsid = 1;
  slba = lba;
  prp1 = buffer;
}

-- The flag is the result, 1 or 0. `next_id` is a `uint16_t`.
unfoldable pub submit : QueuePair → ℕ → ℕ → QueuePair × Bool
unfolding next
submit q lba buffer = if next q.sq_tail == q.sq_head then (q, false) else (
  record q {
    sq = set q.sq q.sq_tail (read_entry q.next_id lba buffer);
    next_id = (q.next_id + 1) % 2 ^ 16;
    sq_tail = next q.sq_tail;
  },
  true,
)

unfoldable pub ring_sq_doorbell : QueuePair → QueuePair
ring_sq_doorbell q = record q { sq_doorbell = q.sq_tail; doorbell_writes = q.doorbell_writes + 1 }

abbrev pub k_page : ℕ
k_page = 4096

abbrev pub ram_size : ℕ
ram_size = 4 * 4096

abbrev pub HostRam : Type 0
HostRam = ℕ → ℕ

-- `memset(host_ram + prp1, lba & 0xff, kPage)`
unfoldable pub dma_write : HostRam → ℕ → ℕ → Option HostRam
dma_write ram prp1 lba =
    if leb (prp1 + k_page) ram_size
    then some (λ a. if leb prp1 a && ltb a (prp1 + k_page) then lba % 256 else ram a)
    else none

-- the completion that the controller posts for an entry, once `sq_head` has moved on
abbrev pub completion : ℕ → SubmissionEntry → CompletionEntry
completion head e = record zero_completion {
  sq_head = head;
  sq_id = 1;
  command_id = e.command_id;
  status = 1;
}

-- the body of the loop of `controller_run`, without the transfer
unfoldable pub fetch : QueuePair → QueuePair
unfolding next
fetch q = record q {
  sq_head = next q.sq_head;
  cq = set q.cq q.cq_tail (completion (next q.sq_head) (get_or q.sq q.sq_head zero_entry));
  cq_tail = next q.cq_tail;
}

-- the loop of `controller_run`, with fuel
unfoldable pub controller_loop : ℕ → QueuePair → HostRam → Option (QueuePair × HostRam)
unfolding fetch dma_write
controller_loop zero q ram = none
controller_loop (suc n) q ram =
    let e = get_or q.sq q.sq_head zero_entry in
    let rest = dma_write ram e.prp1 e.slba >>= λ ram'. controller_loop n (fetch q) ram' in
    if q.sq_head == q.sq_doorbell then some (q, ram) else rest

-- The head comes round to the doorbell in fewer rounds than there are slots.
unfoldable pub controller_run : QueuePair → HostRam → Option (QueuePair × HostRam)
unfolding controller_loop
controller_run q ram = controller_loop k_size q ram

-- what `reap` reports of one command
pub data Event : Type 0 where
  error done : ℕ → Event

-- `if ((c->status >> 1) != 0) report_error(...); complete_request(...)`
unfoldable pub handle : CompletionEntry → List Event
handle c =
    if c.status / 2 == 0
    then done c.command_id ∷ []
    else error c.command_id ∷ done c.command_id ∷ []

-- the loop of `reap`, with fuel: the pair, `done`, and what was reported
unfoldable pub reap_loop : ℕ → QueuePair → Option (QueuePair × ℕ × List Event)
unfolding next handle
reap_loop zero q = none
reap_loop (suc n) q =
    let c = get_or q.cq q.cq_head zero_completion in
    let rest = reap_loop n (record q { cq_head = next q.cq_head }) >>= λ r.
    some (r.0, suc r.1, handle c ++ r.2) in
    if q.cq_head == q.cq_tail then some (q, 0, []) else rest

unfoldable pub reap : QueuePair → Option (QueuePair × ℕ × List Event)
unfolding reap_loop
reap q = reap_loop k_size q >>= λ r.
    let q' = r.0 in
    some
      (record q' { cq_doorbell = q'.cq_head; doorbell_writes = q'.doorbell_writes + 1 }, r.1, r.2)

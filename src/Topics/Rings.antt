-- ===== src/Topics/Rings.antt =====
-- The rings of 09-storage-lab-iops-throughput-latency-queue-depth-in-10-minutes/14_while_alive.c, with a head
-- and a count, and of 10-storage-lab-series-summary-in-3-minutes/05_while_alive.c, with indexes that run
-- on; and the main function of 04-storage-lab-read-write-system-calls-in-10-minutes/13_while_alive.c, whose
-- array is that of Linear.
use inside_the_cpu_storage_a.Base.{
  ℕ, zero, suc, ◌+◌, ◌-◌, ◌%◌, ◌^◌, Bool, true, false, ◌&&◌, Option, none, some, List, [], ◌∷◌,
  get_or, set, replicate, ltb, ◌==◌, if◌then◌else◌, ◌>>=◌, String,
}
use inside_the_cpu_storage_a.Topics.{Topic, empty_topic, storage_topic, viewer_request}
use inside_the_cpu_storage_a.Topics.Linear.{todo_cap, TopicArray, zero_array, print_array}

-- `push` of 04, which is refused when the array is used up
unfoldable pub checked_push : TopicArray → Topic → Option TopicArray
checked_push q t =
    if q.tail == todo_cap
    then none
    else some (record q { items = set q.items q.tail t; tail = q.tail + 1 })

-- the first loop of its main function; `none` when the program returns 1
unfoldable pub fill_checked : List String → ℕ → TopicArray → Option TopicArray
unfolding checked_push
fill_checked [] episodes q = some q
fill_checked (name ∷ names) episodes q = checked_push q (storage_topic name) >>= λ q'.
    checked_push q' (viewer_request (episodes + 1)) >>= λ q''. fill_checked names (episodes + 1) q''

unfoldable pub calls_alive : Option (List Topic)
unfolding fill_checked print_array
calls_alive =
    fill_checked
      ("Linux Page Cache: why disk I/O often never touches the disk immediately"
        ∷ "Inside an SSD: NAND, pages, blocks and the flash translation layer"
        ∷ "Inside NVMe: submission queues, completion queues and PCIe" ∷ [])
      0 zero_array
    >>= λ q. print_array (todo_cap + 1) q

abbrev pub ring_cap : ℕ
ring_cap = 8

pub record CountedRing : Type 0 where
  pub items : List Topic
  pub head : ℕ
  pub count : ℕ

abbrev pub zero_counted : CountedRing
zero_counted = record { items = replicate ring_cap empty_topic; head = 0; count = 0 }

unfoldable pub counted_push : CountedRing → Topic → CountedRing × Bool
counted_push q t = if q.count == ring_cap then (q, false) else (
  record q { items = set q.items ((q.head + q.count) % ring_cap) t; count = q.count + 1 },
  true,
)

unfoldable pub counted_pop : CountedRing → CountedRing × Topic
counted_pop q = (
  record q { head = (q.head + 1) % ring_cap; count = (q.count + 2 ^ 64 - 1) % 2 ^ 64 },
  get_or q.items q.head empty_topic,
)

-- the first loop, with `ok`
unfoldable pub fill_counted : List String → ℕ → CountedRing → Bool → CountedRing × Bool
unfolding counted_push
fill_counted [] episodes q ok = (q, ok)
fill_counted (name ∷ names) episodes q ok =
    let (q', first) = counted_push q (storage_topic name) in
    let (q'', second) = counted_push q' (viewer_request (episodes + 1)) in
    fill_counted names (episodes + 1) q'' (ok && first && second)

-- the second loop, with fuel
unfoldable pub print_counted : ℕ → CountedRing → Option (List Topic)
unfolding counted_pop
print_counted zero q = none
print_counted (suc n) q =
    let (q', t) = counted_pop q in
    let rest = print_counted n q' >>= λ ts. some (t ∷ ts) in if ltb 0 q.count then rest else some []

-- the number that it prints, the topics, and `ok`
unfoldable pub depth_alive : Option (ℕ × List Topic × Bool)
unfolding fill_counted print_counted
depth_alive =
    let (q, ok) =
      fill_counted
        ("Inside the CPU: What We Learned About Storage" ∷ "Networking and NIC Lab"
          ∷ "Low Latency C++ Lab" ∷ [])
        0 zero_counted true in
    print_counted (ring_cap + 1) q >>= λ ts. some (q.count, ts, ok)

-- a lab is its name
pub record LabQueue : Type 0 where
  pub slot : List String
  pub head : ℕ
  pub tail : ℕ

abbrev pub no_labs : LabQueue
no_labs = record { slot = replicate ring_cap ""; head = 0; tail = 0 }

-- on size_t
abbrev pub q_size : LabQueue → ℕ
q_size q = (q.tail + 2 ^ 64 - q.head) % 2 ^ 64

unfoldable pub q_push : LabQueue → String → Option LabQueue
q_push q lab =
    if q_size q == ring_cap
    then none
    else some (record q { slot = set q.slot (q.tail % ring_cap) lab; tail = (q.tail + 1) % 2 ^ 64 })

unfoldable pub q_back : LabQueue → String
q_back q = get_or q.slot ((q.tail + 2 ^ 64 - 1) % 2 ^ 64 % ring_cap) ""

unfoldable pub q_front : LabQueue → String
q_front q = get_or q.slot (q.head % ring_cap) ""

unfoldable pub q_pop : LabQueue → LabQueue
q_pop q = record q { head = (q.head + 1) % 2 ^ 64 }

-- the first loop: the queue, and the lines of `measure`; `none` when the program returns 1
unfoldable pub submit_labs : List String → LabQueue → Option (LabQueue × List String)
unfolding q_push q_back
submit_labs [] q = some (q, [])
submit_labs (lab ∷ labs) q =
    q_push q lab >>= λ q'. submit_labs labs q' >>= λ r. some (r.0, q_back q' ∷ r.1)

-- the second loop, with fuel
unfoldable pub complete_labs : ℕ → LabQueue → Option (List String)
unfolding q_front q_pop
complete_labs zero q = none
complete_labs (suc n) q =
    let rest = complete_labs n (q_pop q) >>= λ labs. some (q_front q ∷ labs) in
    if ltb 0 (q_size q) then rest else some []

-- the number submitted, the labs measured, and the labs completed
unfoldable pub series_alive : Option (ℕ × List String × List String)
unfolding submit_labs complete_labs
series_alive =
    submit_labs
      ("Inside the CPU: Networking and NIC Lab" ∷ "Inside the CPU: Low Latency C++ Lab"
        ∷ "Inside the CPU: PCIe and DMA Lab" ∷ [])
      no_labs
    >>= λ r. complete_labs (ring_cap + 1) r.0 >>= λ labs. some (q_size r.0, r.1, labs)

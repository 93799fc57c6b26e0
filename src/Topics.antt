-- ===== src/Topics.antt =====
-- The topic queue of 01-storage-lab-hdd-ssd-nvme-in-5-minutes/07_while_alive.c: a ring of eight slots with
-- a head, a tail and a count. A topic's name is a text, or the request with its number that
-- `viewer_request` prints.
pub mod Fifo
pub mod Linear
pub mod Rings
pub mod Disk
pub mod Directory
pub mod Doorbell
mod Tests
use inside_the_cpu_storage_a.Base.{
  ℕ, zero, suc, ◌+◌, ◌-◌, ◌%◌, ◌^◌, Bool, true, false, Option, none, some, List, [], ◌∷◌, get_or,
  set, replicate, ◌==◌, if◌then◌else◌, ◌>>=◌, String,
}

pub data Topic : Type 0 where
  empty_topic : Topic
  storage_topic : String → Topic
  viewer_request : ℕ → Topic

abbrev pub queue_slots : ℕ
queue_slots = 8

pub record TopicQueue : Type 0 where
  pub slots : List Topic
  pub head : ℕ
  pub tail : ℕ
  pub count : ℕ

abbrev pub no_topics : TopicQueue
no_topics = record { slots = replicate queue_slots empty_topic; head = 0; tail = 0; count = 0 }

unfoldable pub queue_push : TopicQueue → Topic → TopicQueue × Bool
queue_push q t = if q.count == queue_slots then (q, false) else (
  record q { slots = set q.slots q.tail t; tail = (q.tail + 1) % queue_slots; count = q.count + 1 },
  true,
)

unfoldable pub queue_front : TopicQueue → Topic
queue_front q = get_or q.slots q.head empty_topic

-- On an empty queue `count` is a size_t and wraps around.
unfoldable pub queue_pop : TopicQueue → TopicQueue
queue_pop q = record q {
  head = (q.head + 1) % queue_slots;
  count = (q.count + 2 ^ 64 - 1) % 2 ^ 64;
}

-- the first loop of the main function, with the topics that are left and the episodes so far
unfoldable pub fill_queue : List String → ℕ → TopicQueue → TopicQueue
unfolding queue_push
fill_queue [] episodes q = q
fill_queue (name ∷ names) episodes q =
    let (q', ok) = queue_push q (storage_topic name) in
    let (q'', ok') = queue_push q' (viewer_request (episodes + 1)) in
    let rest = fill_queue names (episodes + 1) q'' in if ok then (if ok' then rest else q'') else q'

-- the second loop, with fuel: the names that it prints
unfoldable pub print_queue : ℕ → TopicQueue → Option (List Topic)
unfolding queue_front queue_pop
print_queue zero q = none
print_queue (suc n) q =
    let rest = print_queue n (queue_pop q) >>= λ ts. some (queue_front q ∷ ts) in
    if q.count == 0 then some [] else rest

-- the main function: what it prints
unfoldable pub while_alive : Option (List Topic)
unfolding fill_queue print_queue
while_alive = print_queue (queue_slots + 1) (
    fill_queue
      ("Blocks, Sectors and Pages: How Storage Is Organized"
        ∷ "How Filesystems Work: From File Name to Disk Blocks"
        ∷ "Read and Write in C++: What Happens Behind the System Call" ∷ [])
      0 no_topics)

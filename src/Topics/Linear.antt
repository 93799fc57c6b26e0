-- ===== src/Topics/Linear.antt =====
-- The topic queues that are an array with a head and a tail index and never turn round:
-- 06-storage-lab-inside-an-ssd-nand-ftl-in-10-minutes/14_while_alive.c and
-- 08-storage-lab-buffered-vs-direct-io-in-10-minutes/13_while_alive.c, whose `push` drops a topic when
-- the array is used up. The flag says whether it is kept, as `push` does in
-- 04-storage-lab-read-write-system-calls-in-10-minutes/13_while_alive.c.
use inside_the_cpu_storage_a.Base.{
  ℕ, zero, suc, ◌+◌, ◌-◌, ◌%◌, ◌≤◌, ◌<◌, ◌≡◌, ◌≢◌, refl, ap, ap₂, ltb→lt, sym, ◌∙◌, Bool, true,
  false, Option, none, some, List, [], ◌∷◌, ◌++◌, arith, length, get_or, set, replicate, length-set,
  window, window-set, ltb, ◌==◌, ==_iff, ne→==, if◌then◌else◌, ◌>>=◌, ℕ_discrete, String,
  Bool-cases, inl, inr,
}
use inside_the_cpu_storage_a.Topics.{Topic, empty_topic, storage_topic, viewer_request}

-- `TODO_CAP`
abbrev pub todo_cap : ℕ
todo_cap = 8

pub record TopicArray : Type 0 where
  pub items : List Topic
  pub head : ℕ
  pub tail : ℕ

abbrev pub zero_array : TopicArray
zero_array = record { items = replicate todo_cap empty_topic; head = 0; tail = 0 }

unfoldable pub array_push : TopicArray → Topic → TopicArray × Bool
array_push q t =
    if ltb q.tail todo_cap
    then (record q { items = set q.items q.tail t; tail = q.tail + 1 }, true)
    else (q, false)

-- the first loop of the main functions, with the topics that are left and the episodes so far
unfoldable pub fill_array : List String → ℕ → TopicArray → TopicArray
unfolding array_push
fill_array [] episodes q = q
fill_array (name ∷ names) episodes q =
    let kept = (array_push q (storage_topic name)).0 in
    fill_array names (episodes + 1) ((array_push kept (viewer_request (episodes + 1))).0)

-- the second loop, with fuel: the names that it prints
unfoldable pub print_array : ℕ → TopicArray → Option (List Topic)
print_array zero q = none
print_array (suc n) q =
    let rest = print_array n (record q { head = q.head + 1 }) >>= λ ts.
    some (get_or q.items q.head empty_topic ∷ ts) in
    if q.head == q.tail then some [] else rest

-- 06, 14_while_alive.c: the number of topics that it prints, and the topics
unfoldable pub ftl_alive : Option (ℕ × List Topic)
unfolding fill_array print_array
ftl_alive =
    let todo : TopicArray =
      fill_array
        ("Inside NVMe: submission queues, completion queues and PCIe" ∷ "Buffered I/O vs direct I/O"
          ∷ "IOPS, throughput, latency and queue depth" ∷ [])
        0 zero_array in
    print_array (todo_cap + 1) todo >>= λ ts. some (todo.tail - todo.head, ts)

-- 08, 13_while_alive.c: the topics that it prints
unfoldable pub direct_alive : Option (List Topic)
unfolding fill_array print_array
direct_alive = print_array (todo_cap + 1) (
    fill_array
      ("Storage Performance: IOPS, Throughput, Latency and Queue Depth"
        ∷ "Inside the CPU: What We Learned About Storage" ∷ "Inside the CPU: Networking and NIC Lab"
        ∷ [])
      0 zero_array)

pub record IsArray (q : TopicArray) : Type 0 where
  pub size : length q.items ≡ todo_cap
  pub ordered : q.head ≤ q.tail
  pub tail_in : q.tail ≤ todo_cap

-- the topics between head and tail
abbrev pub pending : TopicArray → List Topic
pending q = window todo_cap empty_topic q.items q.head (q.tail - q.head)

-- On an array in order, a push puts its topic behind the pending ones while fewer than eight topics have
-- been pushed in all; when eight have, it is dropped and nothing changes, even if some
-- of the eight are gone.
pub array_push_lem :
    {q : TopicArray} (t : Topic)
    → IsArray q
    → let (q', kept) = array_push q t in
      IsArray q'
      × (kept ≡ ltb q.tail todo_cap)
      × (pending q' ≡ (if kept then pending q ++ (t ∷ []) else pending q))
unfolding array_push
array_push_lem {q} t v = elim (Bool-cases (ltb q.tail todo_cap)) [
  | inr full ↦ rw full (v, refl, refl)
  | inl room ↦ rw room (
    record {
      size = length-set q.items q.tail t ∙ v.size;
      ordered = omega (arith, v.ordered);
      tail_in = ground arith;
    },
    refl,
    ap (window todo_cap empty_topic (set q.items q.tail t) q.head) {y = suc (q.tail - q.head)}
          (omega (arith, v.ordered))
        ∙ ap (λ k. window todo_cap empty_topic (set q.items k t) q.head (suc (q.tail - q.head)))
            {y = (q.head + (q.tail - q.head)) % todo_cap}
            (omega (arith, v.ordered, ltb→lt q.tail todo_cap room))
        ∙ window-set todo_cap empty_topic q.items q.head (q.tail - q.head) t v.size
            (omega (arith, ltb→lt q.tail todo_cap room)),
  )
]

-- The first pending topic, and the others.
popped :
    {q : TopicArray}
    → IsArray q
    → q.head ≢ q.tail
    → pending q ≡ get_or q.items q.head empty_topic ∷ pending (record q { head = q.head + 1 })
popped {q} v more =
    ap (window todo_cap empty_topic q.items q.head) {y = suc (q.tail - (q.head + 1))}
      (omega (arith, v.ordered))
    ∙ ap₂
        (λ k i.
          get_or q.items k empty_topic
          ∷ window todo_cap empty_topic q.items i (q.tail - (q.head + 1)))
        {x = q.head % todo_cap} (omega (arith, v.ordered, v.tail_in)) (omega arith)

-- On an array in order, the printing loop ends and prints the pending topics, oldest first, when its rounds
-- are more than they.
pub print_array_lem :
    (n : ℕ) (q : TopicArray) → IsArray q → q.tail - q.head < n → print_array n q ≡ some (pending q)
unfolding print_array
print_array_lem zero q v h = elim h [ ]
print_array_lem (suc n) q v h = elim (ℕ_discrete q.head q.tail) [
  | yes e ↦
      rw ((==_iff q.head q.tail).1 e)
        (ap (λ m. some (window todo_cap empty_topic q.items q.head m)) {x = 0} (omega arith))
  | no more ↦ rw (ne→== q.head q.tail more) (
      ap (λ o. o >>= λ ts. some (get_or q.items q.head empty_topic ∷ ts))
        (print_array_lem n (record q { head = q.head + 1 })
          (record { size = v.size; ordered = omega (arith, v.ordered); tail_in = v.tail_in })
          (omega (arith, v.ordered)))
      ∙ ap some (sym (popped v more)))
]

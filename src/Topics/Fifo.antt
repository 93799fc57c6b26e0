-- ===== src/Topics/Fifo.antt =====
-- The ring of 07_while_alive.c as a queue.
use inside_the_cpu_storage_a.Base.{
  ℕ, zero, suc, ◌+◌, ◌-◌, ◌%◌, ◌^◌, ◌≤◌, ◌<◌, ◌≡◌, ◌≢◌, refl, ap, ap₂, sym, ◌∙◌, some, List, [],
  ◌∷◌, ◌++◌, arith, length, get_or, set, length-set, window, length-window, window-congr,
  window-set, ltb, ==_iff, ne→==, if◌then◌else◌, ◌>>=◌, ℕ_discrete,
}
use inside_the_cpu_storage_a.Topics.{
  Topic, empty_topic, TopicQueue, queue_slots, queue_push, queue_front, queue_pop, print_queue,
}

pub record IsQueue (q : TopicQueue) : Type 0 where
  pub size : length q.slots ≡ queue_slots
  pub head_in : q.head < queue_slots
  pub tail_at : q.tail ≡ (q.head + q.count) % queue_slots
  pub at_most : q.count ≤ queue_slots

-- the topics that wait, oldest first
abbrev pub waiting : TopicQueue → List Topic
waiting q = window queue_slots empty_topic q.slots q.head q.count

-- On a queue in order, a push is refused when eight topics wait, and changes nothing; any other puts its
-- topic behind those that wait.
pub queue_push_lem :
    {q : TopicQueue} (t : Topic)
    → IsQueue q
    → let (q', ok) = queue_push q t in
      IsQueue q'
      × (ok ≡ ltb (length (waiting q)) queue_slots)
      × (waiting q' ≡ (if ok then waiting q ++ (t ∷ []) else waiting q))
unfolding queue_push
queue_push_lem {q} t v = elim (ℕ_discrete q.count queue_slots) [
  | yes full ↦
      rw ((==_iff q.count queue_slots).1 full)
        (v, ground (arith, length-window queue_slots empty_topic q.slots q.head q.count), refl)
  | no room ↦ rw (ne→== q.count queue_slots room) (
    record {
      size = length-set q.slots q.tail t ∙ v.size;
      head_in = v.head_in;
      tail_at = omega (arith, v.tail_at);
      at_most = omega (arith, v.at_most);
    },
    ground (arith, length-window queue_slots empty_topic q.slots q.head q.count, v.at_most),
    ap (λ k. window queue_slots empty_topic (set q.slots k t) q.head (q.count + 1)) v.tail_at
        ∙ ap
            (window queue_slots empty_topic (set q.slots ((q.head + q.count) % queue_slots) t)
              q.head)
            {y = suc q.count} (omega arith)
        ∙ window-set queue_slots empty_topic q.slots q.head q.count t v.size
            (omega (arith, v.at_most)),
  )
]

pop-IsQueue : {q : TopicQueue} → IsQueue q → q.count ≢ 0 → IsQueue (queue_pop q)
unfolding queue_pop
pop-IsQueue {q} v more = record {
  size = v.size;
  head_in = omega arith;
  tail_at = omega (arith, v.tail_at, v.at_most);
  at_most = omega (arith, v.at_most);
}

-- A pop takes away the front.
pop-waiting :
    {q : TopicQueue} → IsQueue q → q.count ≢ 0 → waiting q ≡ queue_front q ∷ waiting (queue_pop q)
unfolding queue_pop queue_front
pop-waiting {q} v more =
    ap (window queue_slots empty_topic q.slots q.head) {y = suc ((q.count + 2 ^ 64 - 1) % 2 ^ 64)}
      (omega (arith, v.at_most))
    ∙ ap₂ ◌∷◌
        (ap (λ k. get_or q.slots k empty_topic) {x = q.head % queue_slots} {y = q.head}
          (omega (arith, v.head_in)))
        (window-congr queue_slots empty_topic q.slots (suc q.head) ((q.head + 1) % queue_slots) _
          (omega arith))

-- On a queue in order, the printing loop ends and prints the topics that wait, oldest first, when its
-- rounds are more than they.
pub print_queue_lem :
    (n : ℕ) (q : TopicQueue)
    → IsQueue q
    → length (waiting q) < n
    → print_queue n q ≡ some (waiting q)
unfolding print_queue
print_queue_lem zero q v h = elim h [ ]
print_queue_lem (suc n) q v h = elim (ℕ_discrete q.count 0) [
  | yes none_left ↦
      rw ((==_iff q.count 0).1 none_left)
        (ap (λ m. some (window queue_slots empty_topic q.slots q.head m)) (sym none_left))
  | no more ↦ rw (ne→== q.count 0 more) (
      ap (λ o. o >>= λ ts. some (queue_front q ∷ ts))
        (print_queue_lem n (queue_pop q) (pop-IsQueue v more)
          (omega (arith, ap length (pop-waiting v more))))
      ∙ ap some (sym (pop-waiting v more)))
]

-- ===== src/Topics/Doorbell.antt =====
-- The page of 05-storage-lab-linux-page-cache-in-10-minutes/13_while_alive.c, and the doorbell of
-- 07-storage-lab-inside-nvme-queues-in-10-minutes/14_while_alive.c.
use inside_the_cpu_storage_a.Base.{
  ℕ, zero, suc, ◌+◌, ◌-◌, Option, none, some, List, [], ◌∷◌, ◌++◌, get_or, set, replicate, ltb,
  ◌==◌, if◌then◌else◌, ◌>>=◌, String,
}
use inside_the_cpu_storage_a.Topics.{Topic, empty_topic, storage_topic, viewer_request}

-- `lab`, and the lesson of the current page
pub record PageCache : Type 0 where
  pub lab : String
  pub lesson : String

abbrev pub lessons : List String
lessons =
    "Inside an SSD: NAND and the flash translation layer"
    ∷ "Inside NVMe: submission queues, completion queues and PCIe"
    ∷ "Buffered I/O vs Direct I/O: O_DIRECT and io_uring" ∷ []

-- the cache after the read, and the episodes
unfoldable pub cache_read : PageCache → ℕ → PageCache × ℕ
cache_read c episodes = (record c { lesson = get_or lessons episodes "" }, episodes + 1)

-- the loop of its main function, of at most three turns: the lessons that it prints
unfoldable pub learn_pages : ℕ → PageCache → ℕ → List String
unfolding cache_read
learn_pages zero c episodes = []
learn_pages (suc n) c episodes =
    let (c', episodes') = cache_read c episodes in
    let rest = learn_pages n c' episodes' in if ltb episodes 3 then c'.lesson ∷ rest else []

unfoldable pub pages_alive : List String
unfolding learn_pages
pages_alive = learn_pages 4 (record { lab = "Storage and Disk Lab"; lesson = "" }) 0

abbrev pub pair_cap : ℕ
pair_cap = 16

pub record TopicQueuePair : Type 0 where
  pub sq : List Topic
  pub count : ℕ
  pub announced : ℕ
  pub doorbell_writes : ℕ

abbrev pub zero_topic_pair : TopicQueuePair
zero_topic_pair = record {
  sq = replicate pair_cap empty_topic;
  count = 0;
  announced = 0;
  doorbell_writes = 0;
}

unfoldable pub topic_submit : TopicQueuePair → Topic → Option TopicQueuePair
topic_submit q t =
    if q.count == pair_cap
    then none
    else some (record q { sq = set q.sq q.count t; count = q.count + 1 })

-- the loop of `ring_doorbell`, over the entries that are not announced: the topics that it prints
unfoldable pub announce : ℕ → TopicQueuePair → TopicQueuePair × List Topic
announce zero q = (q, [])
announce (suc n) q =
    let (q', ts) = announce n (record q { announced = q.announced + 1 }) in
    (q', get_or q.sq q.announced empty_topic ∷ ts)

unfoldable pub ring_topics : TopicQueuePair → TopicQueuePair × List Topic
unfolding announce
ring_topics q =
    announce (q.count - q.announced) (record q { doorbell_writes = q.doorbell_writes + 1 })

-- the loop of its main function; `none` when the program returns 1
unfoldable pub submit_topics :
    List String → ℕ → TopicQueuePair → Option (TopicQueuePair × List Topic)
unfolding topic_submit ring_topics
submit_topics [] episodes q = some (q, [])
submit_topics (name ∷ names) episodes q = topic_submit q (storage_topic name) >>= λ q₁.
    topic_submit q₁ (viewer_request (episodes + 1)) >>= λ q₂.
    submit_topics names (episodes + 1) (ring_topics q₂).0 >>= λ r.
    some (r.0, (ring_topics q₂).1 ++ r.1)

-- the topics, their number and the number of doorbell writes
unfoldable pub doorbell_alive : Option (List Topic × ℕ × ℕ)
unfolding submit_topics
doorbell_alive =
    submit_topics
      ("Buffered I/O vs Direct I/O: How Low Latency Storage Works"
        ∷ "Storage Performance: IOPS, Throughput, Latency and Queue Depth"
        ∷ "Inside the CPU: What We Learned About Storage" ∷ [])
      0 zero_topic_pair
    >>= λ r. some (r.1, r.0.count, r.0.doorbell_writes)

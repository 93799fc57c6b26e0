-- ===== src/Topics/Tests.antt =====
-- Runs of 01-storage-lab-hdd-ssd-nvme-in-5-minutes/07_while_alive.c.
use inside_the_cpu_storage_a.Base.{
  ◌≡◌, refl, some, List, String, true, [], ◌∷◌, ◌++◌, arith, length, ltb, if◌then◌else◌, replicate,
}
use inside_the_cpu_storage_a.Topics.{
  empty_topic, storage_topic, viewer_request, TopicQueue, queue_slots, queue_push, print_queue,
  while_alive,
}
use inside_the_cpu_storage_a.Topics.Fifo.{IsQueue, waiting, queue_push_lem, print_queue_lem}
use inside_the_cpu_storage_a.Topics.Linear.{
  todo_cap, TopicArray, array_push, print_array, ftl_alive, direct_alive, IsArray, pending,
  array_push_lem, print_array_lem,
}
use inside_the_cpu_storage_a.Topics.Rings.{calls_alive, depth_alive, series_alive}
use inside_the_cpu_storage_a.Topics.Disk.{disk_alive}
use inside_the_cpu_storage_a.Topics.Directory.{directory_alive}
use inside_the_cpu_storage_a.Topics.Doorbell.{pages_alive, doorbell_alive}
use inside_the_cpu_storage_a.Fs.Programs.{codes}

-- two topics at the end of the array, and one place left
abbrev nearly_used_up : TopicArray
nearly_used_up = record { items = replicate todo_cap empty_topic; head = 5; tail = 7 }

nearly_used_up-IsArray : IsArray nearly_used_up
nearly_used_up-IsArray = omega arith

array_push_run :
    let (q', kept) = array_push nearly_used_up (viewer_request 9) in
    IsArray q'
    × (kept ≡ ltb nearly_used_up.tail todo_cap)
    × (pending q' ≡ (
        if kept then pending nearly_used_up ++ (viewer_request 9 ∷ []) else pending nearly_used_up))
array_push_run = array_push_lem (viewer_request 9) nearly_used_up-IsArray

print_array_run : print_array 3 nearly_used_up ≡ some (pending nearly_used_up)
print_array_run = print_array_lem 3 nearly_used_up nearly_used_up-IsArray (omega arith)

ftl_topics :
    ftl_alive
    ≡ some (
      6,
      storage_topic "Inside NVMe: submission queues, completion queues and PCIe"
          ∷ viewer_request 1
          ∷ storage_topic "Buffered I/O vs direct I/O"
          ∷ viewer_request 2
          ∷ storage_topic "IOPS, throughput, latency and queue depth"
          ∷ viewer_request 3
          ∷ [],
    )
unfolding ftl_alive
ftl_topics = refl

direct_topics :
    direct_alive
    ≡ some (
        storage_topic "Storage Performance: IOPS, Throughput, Latency and Queue Depth"
        ∷ viewer_request 1
        ∷ storage_topic "Inside the CPU: What We Learned About Storage"
        ∷ viewer_request 2
        ∷ storage_topic "Inside the CPU: Networking and NIC Lab"
        ∷ viewer_request 3
        ∷ [])
unfolding direct_alive
direct_topics = refl

-- three topics, across the end of the array
abbrev turned : TopicQueue
turned = record { slots = replicate queue_slots empty_topic; head = 6; tail = 1; count = 3 }

turned-IsQueue : IsQueue turned
turned-IsQueue = omega arith

queue_push_run :
    let (q', ok) = queue_push turned (viewer_request 9) in
    IsQueue q'
    × (ok ≡ ltb (length (waiting turned)) queue_slots)
    × (waiting q' ≡ (if ok then waiting turned ++ (viewer_request 9 ∷ []) else waiting turned))
queue_push_run = queue_push_lem (viewer_request 9) turned-IsQueue

print_queue_run : print_queue 9 turned ≡ some (waiting turned)
print_queue_run = print_queue_lem 9 turned turned-IsQueue (omega arith)

printed :
    while_alive
    ≡ some (
        storage_topic "Blocks, Sectors and Pages: How Storage Is Organized"
        ∷ viewer_request 1
        ∷ storage_topic "How Filesystems Work: From File Name to Disk Blocks"
        ∷ viewer_request 2
        ∷ storage_topic "Read and Write in C++: What Happens Behind the System Call"
        ∷ viewer_request 3
        ∷ [])
unfolding while_alive
printed = refl

calls_topics :
    calls_alive
    ≡ some (
        storage_topic "Linux Page Cache: why disk I/O often never touches the disk immediately"
        ∷ viewer_request 1
        ∷ storage_topic "Inside an SSD: NAND, pages, blocks and the flash translation layer"
        ∷ viewer_request 2
        ∷ storage_topic "Inside NVMe: submission queues, completion queues and PCIe"
        ∷ viewer_request 3
        ∷ [])
unfolding calls_alive
calls_topics = refl

depth_topics :
    depth_alive
    ≡ some (
      6,
      storage_topic "Inside the CPU: What We Learned About Storage"
          ∷ viewer_request 1
          ∷ storage_topic "Networking and NIC Lab"
          ∷ viewer_request 2
          ∷ storage_topic "Low Latency C++ Lab"
          ∷ viewer_request 3
          ∷ [],
      true,
    )
unfolding depth_alive
depth_topics = refl

abbrev series : List String
series =
    "Inside the CPU: Networking and NIC Lab" ∷ "Inside the CPU: Low Latency C++ Lab"
    ∷ "Inside the CPU: PCIe and DMA Lab" ∷ []

series_labs : series_alive ≡ some (3, series, series)
unfolding series_alive
series_labs = refl

disk_topics :
    disk_alive (λ n. true)
    ≡ some (
        (2048, storage_topic "How Filesystems Work: From File Name to Disk Blocks")
        ∷ (2056, storage_topic "Read and Write in C++: What Happens Behind the System Call")
        ∷ (
          2064,
          storage_topic "Linux Page Cache: Why Disk I/O Often Never Touches the Disk Immediately",
        )
        ∷ [])
unfolding disk_alive
disk_topics = refl

directory_topics :
    directory_alive
    ≡ some (
      record {
        name = codes "next";
        topic = storage_topic "Inside an SSD: NAND, Pages, Blocks and the Flash Translation Layer";
      }
          ∷ record { name = codes "request"; topic = viewer_request 3 }
          ∷ [],
      storage_topic "Read and Write in C++: What Happens Behind the System Call"
          ∷ storage_topic "Linux Page Cache: Why Disk I/O Often Never Touches the Disk Immediately"
          ∷ storage_topic "Inside an SSD: NAND, Pages, Blocks and the Flash Translation Layer"
          ∷ [],
    )
unfolding directory_alive
directory_topics = refl

pages_lessons :
    pages_alive
    ≡ "Inside an SSD: NAND and the flash translation layer"
      ∷ "Inside NVMe: submission queues, completion queues and PCIe"
      ∷ "Buffered I/O vs Direct I/O: O_DIRECT and io_uring" ∷ []
unfolding pages_alive
pages_lessons = refl

doorbell_topics :
    doorbell_alive
    ≡ some (
      storage_topic "Buffered I/O vs Direct I/O: How Low Latency Storage Works"
          ∷ viewer_request 1
          ∷ storage_topic "Storage Performance: IOPS, Throughput, Latency and Queue Depth"
          ∷ viewer_request 2
          ∷ storage_topic "Inside the CPU: What We Learned About Storage"
          ∷ viewer_request 3
          ∷ [],
      6,
      3,
    )
unfolding doorbell_alive
doorbell_topics = refl

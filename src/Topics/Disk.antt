-- ===== src/Topics/Disk.antt =====
-- The disk of 02-storage-lab-blocks-sectors-pages-in-10-minutes/13_while_alive.c. Whether `realloc` gives an
-- array of a size is the argument `room`.
use inside_the_cpu_storage_a.Base.{
  ℕ, ◌+◌, ◌-◌, ◌*◌, ◌/◌, ◌%◌, ◌^◌, Bool, Option, none, some, List, [], ◌∷◌, ◌++◌, get_or, set,
  replicate, ◌==◌, if◌then◌else◌, ◌>>=◌, String,
}
use inside_the_cpu_storage_a.Topics.{Topic, empty_topic, storage_topic}

abbrev pub partition_start : ℕ
partition_start = 2048

-- `blocks` is the whole array, `capacity` topics long
pub record Disk : Type 0 where
  pub block_size : ℕ
  pub blocks : List Topic
  pub size : ℕ
  pub capacity : ℕ

-- `d->block_size / kSector`
abbrev pub sectors : Disk → ℕ
sectors d = d.block_size / 512

-- the array, made longer when it is full
abbrev pub grown : (ℕ → Bool) → Disk → Option Disk
grown room d =
    let cap = if d.capacity == 0 then 4 else d.capacity * 2 % 2 ^ 64 in
    if d.size == d.capacity
    then (if room cap
        then some (record d {
          blocks = d.blocks ++ replicate (cap - d.capacity) empty_topic;
          capacity = cap;
        })
        else none)
    else some d

-- the disk once there is a place, and the first LBA of the new block
abbrev pub appended : Disk → Topic → Disk × ℕ
appended d t = (
  record d { blocks = set d.blocks d.size t; size = d.size + 1 },
  (partition_start + d.size * sectors d % 2 ^ 64) % 2 ^ 64,
)

unfoldable pub disk_append : (ℕ → Bool) → Disk → Topic → Option (Disk × ℕ)
disk_append room d t = grown room d >>= λ d'. some (appended d' t)

unfoldable pub disk_read : Disk → ℕ → Topic
disk_read d lba =
    get_or d.blocks ((lba + 2 ^ 64 - partition_start) % 2 ^ 64 / sectors d) empty_topic

-- the loop of its main function: the LBAs and topics that it prints; `none` when memory runs out
unfoldable pub learn_all : (ℕ → Bool) → List String → Disk → Option (List (ℕ × Topic))
unfolding disk_append disk_read
learn_all room [] d = some []
learn_all room (name ∷ names) d = disk_append room d (storage_topic name) >>= λ r.
    learn_all room names r.0 >>= λ rest. some ((r.1, disk_read r.0 r.1) ∷ rest)

unfoldable pub disk_alive : (ℕ → Bool) → Option (List (ℕ × Topic))
unfolding learn_all
disk_alive room =
    learn_all room
      ("How Filesystems Work: From File Name to Disk Blocks"
        ∷ "Read and Write in C++: What Happens Behind the System Call"
        ∷ "Linux Page Cache: Why Disk I/O Often Never Touches the Disk Immediately" ∷ [])
      (record { block_size = 4096; blocks = []; size = 0; capacity = 0 })

-- ===== src/Topics/Directory.antt =====
-- The directory of 03-storage-lab-how-filesystems-work-in-10-minutes/13_while_alive.c; the sort before it is
-- printed is left out. `none` stands for the use of a null pointer.
use inside_the_cpu_storage_a.Base.{
  ℕ, suc, ◌+◌, Option, none, some, List, [], ◌∷◌, ◌++◌, take, get_or, set, ◌==◌, if◌then◌else◌,
  ◌>>=◌, String,
}
use inside_the_cpu_storage_a.Fs.{Name, same_name}
use inside_the_cpu_storage_a.Fs.Programs.{codes}
use inside_the_cpu_storage_a.Topics.{Topic, empty_topic, storage_topic, viewer_request}

abbrev pub lab_slots : ℕ
lab_slots = 8

pub record Entry : Type 0 where
  pub name : Name
  pub topic : Topic

-- the first `count` rows
abbrev pub Directory : Type 0
Directory = List Entry

-- the row of a name among the first `count`
unfoldable pub row_of : Directory → ℕ → Name → Option ℕ
unfolding same_name
row_of [] i name = none
row_of (e ∷ es) i name = if same_name e.name name then some i else row_of es (suc i) name

abbrev pub count_of : Directory → ℕ
count_of [] = 0
count_of (e ∷ es) = suc (count_of es)

-- `lookup`: the directory and the row; `none` for a full directory
unfoldable pub dir_lookup : Directory → Name → Option (Directory × ℕ)
unfolding row_of
dir_lookup d name = elim (row_of d 0 name) [
  | some i ↦ some (d, i)
  | none ↦
      if count_of d == lab_slots
      then none
      else some (d ++ record { name = take 15 name; topic = empty_topic } ∷ [], count_of d)
]

abbrev pub no_entry : Entry
no_entry = record { name = []; topic = empty_topic }

-- a topic written through the pointer to a row
abbrev pub write_topic : Directory → ℕ → Topic → Directory
write_topic d i t = set d i (record (get_or d i no_entry) { topic = t })

-- the loop of its main function: the directory, and the topics of `next` that it prints
unfoldable pub directory_loop : List String → ℕ → Directory → Option (Directory × List Topic)
unfolding dir_lookup
directory_loop [] episodes d = some (d, [])
directory_loop (name ∷ names) episodes d = elim (dir_lookup d (codes "next")) [
  | none ↦ some (d, [])
  | some next ↦ elim (dir_lookup next.0 (codes "request")) [
    | none ↦ some (next.0, [])
    | some request ↦
        let d₁ = write_topic request.0 next.1 (storage_topic name) in
        let d₂ = write_topic d₁ request.1 (viewer_request (episodes + 1)) in
        dir_lookup d₂ (codes "next") >>= λ again.
        directory_loop names (episodes + 1) again.0 >>= λ r.
        some (r.0, (get_or again.0 again.1 no_entry).topic ∷ r.1)
  ]
]

unfoldable pub directory_alive : Option (Directory × List Topic)
unfolding directory_loop
directory_alive =
    directory_loop
      ("Read and Write in C++: What Happens Behind the System Call"
        ∷ "Linux Page Cache: Why Disk I/O Often Never Touches the Disk Immediately"
        ∷ "Inside an SSD: NAND, Pages, Blocks and the Flash Translation Layer" ∷ [])
      0 []

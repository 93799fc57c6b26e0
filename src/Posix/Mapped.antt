-- ===== src/Posix/Mapped.antt =====
-- The mapped file of 05-storage-lab-linux-page-cache-in-10-minutes/08_mmap_cache.c: a file is written, mapped, and
-- one byte of each page is summed through the mapping. The page faults that are counted and the printed
-- texts are left out.
pub mod Sums
use inside_the_cpu_storage_a.Base.{
  ℕ, zero, suc, ◌+◌, ◌*◌, ◌%◌, ◌^◌, Bool, true, false, Option, none, some, List, [], ◌∷◌, length,
  map, upto, ◌==◌, if◌then◌else◌,
}
use inside_the_cpu_storage_a.Fs.{Name}
use inside_the_cpu_storage_a.Posix.{Posix}
use inside_the_cpu_storage_a.Posix.Copies.{write_file}

-- the bytes at 0, 4096, …, with the distance to the next of them
abbrev pub every_page : ℕ → ℕ → List ℕ → ℕ
every_page away sum [] = sum
every_page zero sum (c ∷ bytes) = every_page 4095 ((sum + c) % 2 ^ 64) bytes
every_page (suc away) sum (c ∷ bytes) = every_page away sum bytes

unfoldable pub expected_sum : List ℕ → ℕ
expected_sum bytes = every_page 0 0 bytes

-- `malloc(K_SIZE)` with whether it gave the memory, `free(data)`, `mmap` with the bytes of the mapping, over
-- which the main function runs the same loop, `munmap` and `unlink`
pub record Mapper (os : Posix) : Type 0 where
  pub malloc : os.State → os.State × Bool
  pub free : os.State → os.State
  pub mmap : os.State → Option ℕ → ℕ → os.State × Option (List ℕ)
  pub munmap : os.State → os.State
  pub unlink : os.State → Name → os.State

module _ (os : Posix) (mapper : Mapper os) (path : Name) where
  open os use {State}
  open mapper use {malloc, free, mmap, munmap, unlink}

  -- the state, the sum that is printed, and the value of the main function
  abbrev pub Mapping : Type 0
  Mapping = State × Option ℕ × ℕ

  abbrev pub close_given : Option ℕ → State → State
  close_given none s = s
  close_given (some fd) s = os.close s fd

  abbrev pub summed : ℕ → Option ℕ → State × Option (List ℕ) → Mapping
  summed expected fd (s, none) = (unlink (close_given fd s) path, none, 0)
  summed expected fd (s, some bytes) =
      let sum = expected_sum bytes in
      (unlink (close_given fd (munmap s)) path, some sum, if sum == expected then 0 else 1)

  abbrev pub map_written : List ℕ → State × Bool → Mapping
  map_written bytes (s, false) = (unlink s path, none, 0)
  map_written bytes (s, true) =
      let (s', fd) = os.open_read s path in
      summed (expected_sum bytes) fd (mmap s' fd (length bytes))

  abbrev pub close_written : ℕ → List ℕ → Option (State × Bool) → Option Mapping
  close_written fd bytes none = none
  close_written fd bytes (some (s, ok)) = some (map_written bytes (free (os.close s fd), ok))

  abbrev pub write_mapped : ℕ → List ℕ → State → Option ℕ → Option Mapping
  write_mapped fuel bytes s none = some (unlink (free s) path, none, 0)
  write_mapped fuel bytes s (some fd) = close_written fd bytes (write_file os fuel s fd bytes)

  abbrev pub with_memory : ℕ → List ℕ → State × Bool → Option Mapping
  with_memory fuel bytes (s, false) = some (s, none, 1)
  with_memory fuel bytes (s, true) =
      let (s', fd) = os.create s path in write_mapped fuel bytes s' fd

  unfoldable pub mmap_cache : ℕ → List ℕ → State → Option Mapping
  unfolding expected_sum
  mmap_cache fuel bytes s = with_memory fuel bytes (malloc s)

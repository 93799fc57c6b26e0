-- ===== src/Writes.antt =====
-- The loops over short writes and short reads of
-- 04-storage-lab-read-write-system-calls-in-10-minutes/06_write_all.c. The system calls are arguments: they
-- take the state of the system, of any type, to its next state and an answer. The rest of
-- the program makes pipes and files and prints what the calls answer.
pub mod Sent
pub mod All
mod Tests
use inside_the_cpu_storage_a.Base.{
  ℕ, zero, suc, ◌+◌, ◌-◌, ◌%◌, ◌^◌, Bool, true, false, Option, none, some, List, [], ◌∷◌, length,
  drop, ◌>>=◌,
}

-- what `read` and `write` return: a number of bytes, -1 with EINTR, or -1 with another error
pub data Answer : Type 0 where
  took : ℕ → Answer
  interrupted : Answer
  failed : Answer

module _ {W : Type 0} (write : W → List ℕ → W × Answer) where
  -- with fuel; the result of the loop beside the state of the system
  unfoldable pub write_all_bytes : ℕ → W → List ℕ → Option (W × Bool)
  write_all_bytes fuel w [] = some (w, true)
  write_all_bytes zero w (c ∷ p) = none
  write_all_bytes (suc fuel) w (c ∷ p) =
      let (w', answer) = write w (c ∷ p) in
      elim answer [
        | interrupted ↦ write_all_bytes fuel w' (c ∷ p)
        | failed ↦ some (w', false)
        | took n ↦ write_all_bytes fuel w' (drop n (c ∷ p))
      ]

module _ {W : Type 0} (read : W → ℕ → W × Answer) where
  -- with fuel; the bytes in all, and the number of calls
  unfoldable pub read_all_of : ℕ → ℕ → W → ℕ → ℕ → Option (ℕ × ℕ)
  read_all_of zero size w total calls = none
  read_all_of (suc fuel) size w total calls =
      let (w', answer) = read w size in
      elim answer [
        | interrupted ↦ read_all_of fuel size w' total (calls + 1)
        | failed ↦ some (total, calls + 1)
        | took n ↦ elim n [
          | zero ↦ some (total, calls + 1)
          | suc m ↦ read_all_of fuel size w' (total + suc m) (calls + 1)
        ]
      ]

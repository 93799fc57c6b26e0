-- ===== src/Writes/Tests.antt =====
-- A run of `write_all` over a pipe that takes three bytes at a time, with one signal.
use inside_the_cpu_storage_a.Base.{
  ℕ, zero, suc, ◌-◌, ◌<◌, ◌≡◌, refl, true, some, List, [], ◌∷◌, ◌++◌, arith, length, take, min,
}
use inside_the_cpu_storage_a.Writes.{Answer, took, interrupted, write_all_bytes, read_all_of}
use inside_the_cpu_storage_a.Writes.All.{CallOf, Written, write_all_bytes_lem}

-- the bytes that the pipe has got, and the signals to come
abbrev Pipe : Type 0
Pipe = List ℕ × ℕ

abbrev pipe_write : Pipe → List ℕ → Pipe × Answer
pipe_write (got, suc n) p = ((got, n), interrupted)
pipe_write (got, zero) p = ((got ++ take (min 3 (length p)) p, 0), took (min 3 (length p)))

abbrev got_of : Pipe → List ℕ
got_of w = w.0

abbrev signals_of : Pipe → ℕ
signals_of w = w.1

pipe-CallOf : (w : Pipe) (p : List ℕ) → 0 < length p → CallOf got_of signals_of w p (pipe_write w p)
pipe-CallOf (got, suc n) p h = (refl, omega arith)
pipe-CallOf (got, zero) p h = (omega arith, omega arith, refl, omega arith)

abbrev eight : List ℕ
eight = 1 ∷ 2 ∷ 3 ∷ 4 ∷ 5 ∷ 6 ∷ 7 ∷ 8 ∷ []

write_all_bytes_lem_example :
    Written pipe_write got_of signals_of pipe-CallOf
      ([], 1)
      eight
      (write_all_bytes pipe_write 9 ([], 1) eight)
write_all_bytes_lem_example =
    write_all_bytes_lem pipe_write got_of signals_of pipe-CallOf 9 ([], 1) eight (omega arith)

write_run : write_all_bytes pipe_write 9 ([], 1) eight ≡ some ((eight, 0), true)
unfolding write_all_bytes
write_run = refl

-- a file with a number of bytes left
abbrev file_read : ℕ → ℕ → ℕ × Answer
file_read left size = (left - min left size, took (min left size))

-- 1 MiB in reads of 48 KiB
read_run : read_all_of file_read 30 49152 1048576 0 0 ≡ some (1048576, 23)
unfolding read_all_of
read_run = refl

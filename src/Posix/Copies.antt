-- ===== src/Posix/Copies.antt =====
-- The ways to write a buffer to a file: a byte for each call, of
-- 04-storage-lab-read-write-system-calls-in-10-minutes/07_byte_at_a_time.c, one call, of 08_one_call.c beside it,
-- and the file of 05-storage-lab-linux-page-cache-in-10-minutes/05_cold_file.c, on the device and out of the
-- page cache. The times that the programs take are left out; `write_all` is the loop of Writes,
-- with its fuel.
pub mod Same
use inside_the_cpu_storage_a.Base.{
  ℕ, suc, Bool, true, false, Option, none, some, List, [], ◌∷◌, ◌==◌,
}
use inside_the_cpu_storage_a.Fs.{Name}
use inside_the_cpu_storage_a.Writes.{Answer, took, interrupted, failed, write_all_bytes}
use inside_the_cpu_storage_a.Posix.{Posix}

module _ (os : Posix) where
  open os use {State}

  -- `write(fd, &buf[i], 1) != 1` ends the loop; the number of bytes that were written
  unfoldable pub bytes_loop : State → ℕ → List ℕ → ℕ → State × ℕ
  bytes_loop s fd [] done = (s, done)
  bytes_loop s fd (c ∷ buf) done =
      let (s', answer) = os.write s fd (c ∷ []) in
      elim answer [
        | took n ↦ elim (n == 1) [ true ↦ bytes_loop s' fd buf (suc done) | false ↦ (s', done) ]
        | interrupted ↦ (s', done)
        | failed ↦ (s', done)
      ]

  -- the code behind `open`; `none` when the file cannot be opened
  abbrev pub byte_by_byte : State → List ℕ → Option ℕ → State × Option ℕ
  byte_by_byte s buf none = (s, none)
  byte_by_byte s buf (some fd) =
      let (s', done) = bytes_loop s fd buf 0 in (os.close s' fd, some done)

  unfoldable pub byte_at_a_time : State → Name → List ℕ → State × Option ℕ
  unfolding bytes_loop
  byte_at_a_time s path buf = let (s', fd) = os.create s path in byte_by_byte s' buf fd

  abbrev pub write_file : ℕ → State → ℕ → List ℕ → Option (State × Bool)
  write_file fuel s fd buf = write_all_bytes (λ t p. os.write t fd p) fuel s buf

  abbrev pub close_called : ℕ → Option (State × Bool) → Option (State × Option Bool)
  close_called fd none = none
  close_called fd (some (s, ok)) = some (os.close s fd, some ok)

  -- the code behind `open`; the inner `none` when the file cannot be opened, the outer for fuel that runs out
  abbrev pub call_once : ℕ → State → List ℕ → Option ℕ → Option (State × Option Bool)
  call_once fuel s buf none = some (s, none)
  call_once fuel s buf (some fd) = close_called fd (write_file fuel s fd buf)

  unfoldable pub one_call : ℕ → State → Name → List ℕ → Option (State × Option Bool)
  unfolding write_all_bytes
  one_call fuel s path buf = let (s', fd) = os.create s path in call_once fuel s' buf fd

  -- `ok && posix_fadvise(...) == 0`
  abbrev pub advised : ℕ → State × Bool → State × Bool
  advised fd (s, false) = (s, false)
  advised fd (s, true) = os.dont_need s fd

  -- `ok && fsync(fd) == 0`, and the line after it
  abbrev pub drop_pages : ℕ → State → Bool → State × Bool
  drop_pages fd s false = (s, false)
  drop_pages fd s true = advised fd (os.fsync s fd)

  abbrev pub close_dropped : ℕ → Option (State × Bool) → Option (State × Bool)
  close_dropped fd none = none
  close_dropped fd (some (s, wrote)) =
      let (s', ok) = drop_pages fd s wrote in some (os.close s' fd, ok)

  -- the code behind `open`
  abbrev pub make_cold : ℕ → State → List ℕ → Option ℕ → Option (State × Bool)
  make_cold fuel s d none = some (s, false)
  make_cold fuel s d (some fd) = close_dropped fd (write_file fuel s fd d)

  unfoldable pub make_cold_file : ℕ → State → Name → List ℕ → Option (State × Bool)
  unfolding write_all_bytes
  make_cold_file fuel s path d = let (s', fd) = os.create s path in make_cold fuel s' d fd

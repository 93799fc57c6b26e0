-- ===== src/Direct.antt =====
-- The files of 06_aligned_blocks.c and 07_buffered_vs_direct.c of
-- 08-storage-lab-buffered-vs-direct-io-in-10-minutes: a temporary file that is opened for direct I/O, or without it
-- where that is refused, and the main functions with every way out, over the operating system's calls and
-- with the timing harness of Rules. The paths are arguments; the printed texts, the copy of a block
-- in memory, and the bytes of the buffers are left out.
pub mod Held
pub mod Released
pub mod Compared
pub mod Flag
pub mod Reads
mod Tests
use inside_the_cpu_storage_a.Base.{
  ℕ, zero, suc, ◌+◌, ◌*◌, ◌/◌, ◌%◌, Bool, true, false, Option, none, some, List, [], ◌∷◌, map, ◌==◌,
  if◌then◌else◌,
}
use inside_the_cpu_storage_a.Fs.{Name}
use inside_the_cpu_storage_a.Rules.{Clock, bench_ns}

abbrev pub k_io_block : ℕ
k_io_block = 4096

-- A call that gives -1 gives `none`; the transfers are of one block.
pub record DirectOs : Type 1 where
  pub State : Type 0
  -- `open(path, O_RDWR | O_CREAT, 0600)`, with `O_DIRECT` or without it
  pub open_tmp : State → Name → Bool → State × Option ℕ
  -- `posix_memalign(&buf, 4096, 4096) == 0`
  pub memalign : State → State × Bool
  pub free : State → State
  pub pwrite : State → ℕ → ℕ → State × Option ℕ
  -- into a buffer, at an offset
  pub pread : State → ℕ → ℕ → State × Option ℕ
  pub fsync : State → ℕ → State × Option ℕ
  -- `open(path, O_RDONLY)`, with `O_DIRECT` or without it
  pub open_read : State → Name → Bool → State × Option ℕ
  -- `malloc` of the samples, freed with `free` too
  pub malloc : State → State × Bool
  pub close : State → ℕ → State
  pub unlink : State → Name → State

pub record TmpFile : Type 0 where
  pub fd : Option ℕ
  pub direct : Bool

unfoldable pub aligned : ℕ → ℕ → Bool
aligned x a = x % a == 0

-- the rows of the first table: the offset, whether it is aligned, its block and the byte inside
unfoldable pub contract_rows : List ℕ → List (ℕ × Bool × ℕ × ℕ)
unfolding aligned
contract_rows [] = []
contract_rows (off ∷ offs) =
    (off, aligned off k_io_block, off / k_io_block, off % k_io_block) ∷ contract_rows offs

abbrev pub whole_block : Option ℕ → Bool
whole_block none = false
whole_block (some n) = n == k_io_block

module _ (os : DirectOs) where
  open os use {State, open_tmp, memalign, free, pwrite, pread, fsync, close, unlink}

  -- the transfer that is tried, and whether the file is still direct
  abbrev pub probed : ℕ → State × Bool → State × Bool
  probed fd (s, false) = (s, true)
  probed fd (s, true) = let (s', n) = pwrite s fd 0 in (free s', whole_block n)

  abbrev pub kept_or_closed : ℕ → State × Bool → State × TmpFile
  kept_or_closed fd (s, true) = (s, record { fd = some fd; direct = true })
  kept_or_closed fd (s, false) = (close s fd, record { fd = some fd; direct = false })

  abbrev pub probe : State × Option ℕ → State × TmpFile
  probe (s, none) = (s, record { fd = none; direct = false })
  probe (s, some fd) = kept_or_closed fd (probed fd (memalign s))

  -- the file that is opened again without `O_DIRECT` where it is not direct
  abbrev pub fall_back : Name → State × TmpFile → State × TmpFile
  fall_back path (s, file) =
      let (s', fd) = open_tmp s path false in
      if file.direct then (s, file) else (s', record { fd = fd; direct = false })

  unfoldable pub tmpfile_open : Name → Bool → State → State × TmpFile
  tmpfile_open path true s = fall_back path (probe (open_tmp s path true))
  tmpfile_open path false s = fall_back path (s, record { fd = none; direct = false })

  abbrev pub close_fd : Option ℕ → State → State
  close_fd none s = s
  close_fd (some fd) s = close s fd

  unfoldable pub tmpfile_close : Name → TmpFile → State → State
  tmpfile_close path file s = unlink (close_fd file.fd s) path

  -- blocks `i`, `i` + 1, …, and whether all were written
  unfoldable pub pwrite_blocks : ℕ → ℕ → ℕ → State → State × Bool
  pwrite_blocks fd i zero s = (s, true)
  pwrite_blocks fd i (suc n) s =
      let (s', wrote) = pwrite s fd (i * k_io_block) in
      let rest = pwrite_blocks fd (suc i) n s' in if whole_block wrote then rest else (s', false)

  -- what the three reads gave, the state and the value of the main function
  abbrev pub Ending : Type 0
  Ending = State × List (Option ℕ) × ℕ

  abbrev pub read_three : Name → TmpFile → ℕ → State × Bool → Ending
  read_three path file fd (s, false) = (tmpfile_close path file (free s), [], 1)
  read_three path file fd (s, true) =
      let (s₁, n) = pread s fd (3 * 4096) in
      let (s₂, bad) = pread s₁ fd 6000 in
      let (s₃, odd) = pread (free s₂) fd 0 in (tmpfile_close path file s₃, n ∷ bad ∷ odd ∷ [], 0)

  abbrev pub with_buffer : Name → TmpFile → ℕ → State × Bool → Ending
  with_buffer path file fd (s, false) = (tmpfile_close path file s, [], 1)
  with_buffer path file fd (s, true) = read_three path file fd (pwrite_blocks fd 0 16 s)

  abbrev pub with_file : Name → Option ℕ → TmpFile → State → Ending
  with_file path none file s = (tmpfile_close path file s, [], 1)
  with_file path (some fd) file s = with_buffer path file fd (memalign s)

  unfoldable pub aligned_blocks : Name → State → Ending
  unfolding tmpfile_open tmpfile_close pwrite_blocks
  aligned_blocks path s =
      let (s', file) = tmpfile_open path true s in with_file path file.fd file s'

  abbrev pub one_pwrite : ℕ → State → State
  one_pwrite fd s = (pwrite s fd 0).0

  abbrev pub pwrite_fsync : ℕ → State → State
  pwrite_fsync fd s = (fsync (pwrite s fd 0).0 fd).0

  module _ (clock : Clock State) where
    abbrev pub close_both : Name → Name → TmpFile → TmpFile → State → State
    close_both path₁ path₂ buffered direct s =
        tmpfile_close path₂ direct (tmpfile_close path₁ buffered s)

    -- the three benchmarks
    abbrev pub measure : ℕ → ℕ → State → State
    measure fd₁ fd₂ s =
        let s₁ = (bench_ns clock (one_pwrite fd₁) 3 21 s).0 in
        let s₂ = (bench_ns clock (pwrite_fsync fd₁) 3 21 s₁).0 in
        (bench_ns clock (one_pwrite fd₂) 3 21 s₂).0

    abbrev pub measured : Name → Name → TmpFile → TmpFile → ℕ → ℕ → State × Bool → State × ℕ
    measured path₁ path₂ buffered direct fd₁ fd₂ (s, false) =
        (close_both path₁ path₂ buffered direct s, 1)
    measured path₁ path₂ buffered direct fd₁ fd₂ (s, true) =
        (close_both path₁ path₂ buffered direct (free (measure fd₁ fd₂ s)), 0)

    abbrev pub with_both : Name → Name → TmpFile → TmpFile → Option ℕ → Option ℕ → State → State × ℕ
    with_both path₁ path₂ buffered direct (some fd₁) (some fd₂) s =
        measured path₁ path₂ buffered direct fd₁ fd₂ (memalign s)
    with_both path₁ path₂ buffered direct (some fd₁) none s =
        (close_both path₁ path₂ buffered direct s, 1)
    with_both path₁ path₂ buffered direct none fd₂ s = (close_both path₁ path₂ buffered direct s, 1)

    unfoldable pub buffered_vs_direct : Name → Name → State → State × ℕ
    unfolding bench_ns tmpfile_open tmpfile_close
    buffered_vs_direct path₁ path₂ s =
        let (s₁, buffered) = tmpfile_open path₁ false s in
        let (s₂, direct) = tmpfile_open path₂ true s₁ in
        with_both path₁ path₂ buffered direct buffered.fd direct.fd s₂

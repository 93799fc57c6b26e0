-- ===== src/Direct/Released.antt =====
-- Every way out of the main function of 06_aligned_blocks.c closes what was opened and frees what was allocated.
use inside_the_cpu_storage_a.Base.{
  ℕ, zero, suc, ◌*◌, Bool, true, false, Option, none, some, List, [], ◌∷◌, if◌then◌else◌,
}
use inside_the_cpu_storage_a.Fs.{Name}
use inside_the_cpu_storage_a.Direct.{
  DirectOs, TmpFile, k_io_block, whole_block, probed, kept_or_closed, probe, fall_back,
  tmpfile_open, close_fd, tmpfile_close, pwrite_blocks, read_three, with_buffer, with_file,
  aligned_blocks,
}
use inside_the_cpu_storage_a.Direct.Held.{
  with_fd, Same, Counts, Holding, Same-Holding, Opened-Holding, closed-Holding, allocated-Holding,
  freed-Holding, written-Holding, read-Holding, at_start, released,
}

module _ (os : DirectOs) (held : os.State → ℕ → ℕ) (live : os.State → ℕ)
    (counts : Counts os held live) (base : os.State) where
  open os use {State, open_tmp, memalign, free, pwrite, pread}

  abbrev pub Has : List ℕ → ℕ → State → Type 0
  Has fds n s = Holding os held live counts base fds n s

  -- what a file holds before it is opened again: only a direct one is open
  abbrev direct_fd : Bool → Option ℕ → Option ℕ
  direct_fd true fd = fd
  direct_fd false fd = none

  abbrev Tried : List ℕ → ℕ → State × TmpFile → Type 0
  Tried fds n r = Has (with_fd (direct_fd r.1.direct r.1.fd) fds) n r.0

  probed-Holding :
      (fds : List ℕ) (n f : ℕ) (r : State × Bool)
      → Has fds (if r.1 then suc n else n) r.0
      → Has fds n (probed os f r).0
  probed-Holding fds n f (s, false) h = h
  probed-Holding fds n f (s, true) h =
      freed-Holding os held live counts base fds n (pwrite s f 0).0
        (written-Holding os held live counts base fds (suc n) f 0 s h)

  kept_or_closed-Tried :
      (fds : List ℕ) (n f : ℕ) (r : State × Bool)
      → Has (f ∷ fds) n r.0
      → Tried fds n (kept_or_closed os f r)
  kept_or_closed-Tried fds n f (s, true) h = h
  kept_or_closed-Tried fds n f (s, false) h = closed-Holding os held live counts base fds n f s h

  probe-Tried :
      (fds : List ℕ) (n : ℕ) (r : State × Option ℕ)
      → Has (with_fd r.1 fds) n r.0
      → Tried fds n (probe os r)
  probe-Tried fds n (s, none) h = h
  probe-Tried fds n (s, some f) h = kept_or_closed-Tried fds n f (probed os f (memalign s)) (
      probed-Holding (f ∷ fds) n f (memalign s)
        (allocated-Holding os held live counts base (f ∷ fds) n s h))

  fall_back-Holding :
      (path : Name) (fds : List ℕ) (n : ℕ) (s : State) (fd : Option ℕ) (direct : Bool)
      → Has (with_fd (direct_fd direct fd) fds) n s
      → Has
          (with_fd (fall_back os path (s, record { fd = fd; direct = direct })).1.fd fds)
          n
          (fall_back os path (s, record { fd = fd; direct = direct })).0
  fall_back-Holding path fds n s fd true h = h
  fall_back-Holding path fds n s fd false h =
      Opened-Holding os held live counts base fds n s (open_tmp s path false).0
        (open_tmp s path false).1 (counts.open_counts s path false) h

  pub tmpfile_open-Holding :
      (path : Name) (direct : Bool) (fds : List ℕ) (n : ℕ) (s : State)
      → Has fds n s
      → Has (with_fd (tmpfile_open os path direct s).1.fd fds) n (tmpfile_open os path direct s).0
  unfolding tmpfile_open
  tmpfile_open-Holding path true fds n s h =
      let (s', file) = probe os (open_tmp s path true) in
      fall_back-Holding path fds n s' file.fd file.direct (
        probe-Tried fds n (open_tmp s path true) (
          Opened-Holding os held live counts base fds n s (open_tmp s path true).0
            (open_tmp s path true).1 (counts.open_counts s path true) h))
  tmpfile_open-Holding path false fds n s h = fall_back-Holding path fds n s none false h

  close_fd-Holding :
      (fds : List ℕ) (n : ℕ) (fd : Option ℕ) (s : State)
      → Has (with_fd fd fds) n s
      → Has fds n (close_fd os fd s)
  close_fd-Holding fds n none s h = h
  close_fd-Holding fds n (some f) s h = closed-Holding os held live counts base fds n f s h

  pub tmpfile_close-Holding :
      (path : Name) (file : TmpFile) (fds : List ℕ) (n : ℕ) (s : State)
      → Has (with_fd file.fd fds) n s
      → Has fds n (tmpfile_close os path file s)
  unfolding tmpfile_close
  tmpfile_close-Holding path file fds n s h =
      Same-Holding os held live counts base fds n _ _
        (counts.unlink_same (close_fd os file.fd s) path) (close_fd-Holding fds n file.fd s h)

  pwrite_blocks-Holding :
      (fds : List ℕ) (n f i k : ℕ) (s : State)
      → Has fds n s
      → Has fds n (pwrite_blocks os f i k s).0
  unfolding pwrite_blocks
  pwrite_blocks-Holding fds n f i zero s h = h
  pwrite_blocks-Holding fds n f i (suc k) s h =
      let (s', wrote) = pwrite s f (i * k_io_block) in
      let after = written-Holding os held live counts base fds n f (i * k_io_block) s h in
      either (whole_block wrote) s' (pwrite_blocks os f (suc i) k s') after
        (pwrite_blocks-Holding fds n f (suc i) k s' after)
    where
      either :
          (b : Bool) (t : State) (r : State × Bool)
          → Has fds n t
          → Has fds n r.0
          → Has fds n (if b then r else (t, false)).0
      either true t r h k = k
      either false t r h k = h

  read_three-Holding :
      (path : Name) (file : TmpFile) (f n : ℕ) (fds : List ℕ) (r : State × Bool)
      → Has (with_fd file.fd fds) (suc n) r.0
      → Has fds n (read_three os path file f r).0
  read_three-Holding path file f n fds (s, false) h =
      tmpfile_close-Holding path file fds n (free s)
        (freed-Holding os held live counts base (with_fd file.fd fds) n s h)
  read_three-Holding path file f n fds (s, true) h =
      let has = with_fd file.fd fds in
      let s₁ = (pread s f (3 * 4096)).0 in
      let s₂ = (pread s₁ f 6000).0 in
      tmpfile_close-Holding path file fds n (pread (free s₂) f 0).0 (
        read-Holding os held live counts base has n f 0 (free s₂) (
          freed-Holding os held live counts base has n s₂ (
            read-Holding os held live counts base has (suc n) f 6000 s₁
              (read-Holding os held live counts base has (suc n) f (3 * 4096) s h))))

  with_buffer-Holding :
      (path : Name) (file : TmpFile) (f n : ℕ) (fds : List ℕ) (r : State × Bool)
      → Has (with_fd file.fd fds) (if r.1 then suc n else n) r.0
      → Has fds n (with_buffer os path file f r).0
  with_buffer-Holding path file f n fds (s, false) h = tmpfile_close-Holding path file fds n s h
  with_buffer-Holding path file f n fds (s, true) h =
      read_three-Holding path file f n fds (pwrite_blocks os f 0 16 s)
        (pwrite_blocks-Holding (with_fd file.fd fds) (suc n) f 0 16 s h)

  with_file-Holding :
      (path : Name) (fd : Option ℕ) (file : TmpFile) (n : ℕ) (fds : List ℕ) (s : State)
      → Has (with_fd file.fd fds) n s
      → Has fds n (with_file os path fd file s).0
  with_file-Holding path none file n fds s h = tmpfile_close-Holding path file fds n s h
  with_file-Holding path (some f) file n fds s h =
      with_buffer-Holding path file f n fds (memalign s)
        (allocated-Holding os held live counts base (with_fd file.fd fds) n s h)

  -- The main function of the aligned blocks ends, on every way out, with the descriptors open and the buffers allocated
  -- that were so at its start: the one of a file that refuses the direct transfer is closed too.
  pub aligned_blocks-Same : (path : Name) → Same os held live base (aligned_blocks os path base).0
  unfolding aligned_blocks
  aligned_blocks-Same path =
      let (s, file) = tmpfile_open os path true base in
      released os held live counts base _ (
        with_file-Holding path file.fd file 0 [] s
          (tmpfile_open-Holding path true [] 0 base (at_start os held live counts base)))

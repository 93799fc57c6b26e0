-- ===== src/Direct/Reads.antt =====
-- The random reads of 09-storage-lab-iops-throughput-latency-queue-depth-in-10-minutes/11_random_read.c on Linux, from the
-- file that is there to the end of the main function, over the same calls and with the clock of Rules. The
-- making of the file, the printed figures and the texts are left out.
use inside_the_cpu_storage_a.Base.{
  ℕ, zero, suc, ◌+◌, ◌*◌, ◌%◌, ◌≡◌, ◌∙◌, refl, ap, Bool, true, false, Option, none, some, List, [],
  ◌∷◌, length, arith, if◌then◌else◌,
}
use inside_the_cpu_storage_a.Fs.{Name}
use inside_the_cpu_storage_a.Rules.{Clock, xorshift64}
use inside_the_cpu_storage_a.Direct.{DirectOs, whole_block}
use inside_the_cpu_storage_a.Direct.Held.{
  Same, Counts, with_fd, Holding, Same-Holding, Opened-Holding, closed-Holding, allocated-Holding,
  freed-Holding, read-Holding, at_start, released,
}

abbrev pub k_file_blocks : ℕ
k_file_blocks = 4096

module _ (os : DirectOs) (clock : Clock os.State) where
  open os use {State, open_read, malloc, memalign, free, pread, fsync, close, unlink}

  -- the state at the end, and the latencies
  unfoldable pub random_reads : ℕ → ℕ → ℕ → State → State × List clock.Time
  unfolding xorshift64
  random_reads fd zero rng s = (s, [])
  random_reads fd (suc n) rng s =
      let rng' = xorshift64 rng in
      let (s₀, t0) = clock.now s in
      let s₁ = (pread s₀ fd (rng' % k_file_blocks * 4096)).0 in
      let (s₂, t1) = clock.now s₁ in
      let (s₃, lat) = random_reads fd n rng' s₂ in (s₃, clock.gap t1 t0 ∷ lat)

  -- the warm up from block `b` on, with `status`
  unfoldable pub warm_blocks : ℕ → ℕ → ℕ → State × ℕ → State × ℕ
  warm_blocks fd b zero r = r
  warm_blocks fd b (suc n) (s, status) =
      let (s', got) = pread s fd (b * 4096) in
      warm_blocks fd (suc b) n (s', if whole_block got then status else 1)

  -- `n` reads into an array that is allocated for them
  abbrev pub sampled : ℕ → ℕ → ℕ → State × Bool → State × ℕ
  sampled fd n status (s, false) = (s, 1)
  sampled fd n status (s, true) = (free (random_reads fd n 42 s).0, status)

  abbrev pub close_freed : ℕ → State × ℕ → State × ℕ
  close_freed fd (s, status) = (close (free s) fd, status)

  abbrev pub with_aligned : ℕ → ℕ → State × Bool → State × ℕ
  with_aligned fd status (s, false) = (close s fd, status)
  with_aligned fd status (s, true) = close_freed fd (sampled fd 5000 status (malloc s))

  abbrev pub with_direct : ℕ → State × Option ℕ → State × ℕ
  with_direct status (s, none) = (s, status)
  with_direct status (s, some fd) = with_aligned fd status (memalign s)

  abbrev pub direct_pass : Name → ℕ → State × ℕ → State × ℕ
  direct_pass path fd (s, status) = with_direct status (open_read (close s fd) path true)

  abbrev pub buffered_pass : ℕ → State × ℕ → State × ℕ
  buffered_pass fd (s, status) = sampled fd 100000 status (malloc s)

  abbrev pub both_passes : Name → State × Option ℕ → State × ℕ
  both_passes path (s, none) = (s, 0)
  both_passes path (s, some fd) =
      direct_pass path fd (buffered_pass fd (warm_blocks fd 0 k_file_blocks ((fsync s fd).0, 0)))

  abbrev pub remove_after : Name → State × ℕ → State × ℕ
  remove_after path (s, status) = (unlink s path, status)

  unfoldable pub random_read : Name → State → State × ℕ
  unfolding random_reads warm_blocks
  random_read path s = remove_after path (both_passes path (open_read s path false))

  length-random_reads : (fd n rng : ℕ) (s : State) → length (random_reads fd n rng s).1 ≡ n
  unfolding random_reads
  length-random_reads fd zero rng s = refl
  length-random_reads fd (suc n) rng s = ap suc (length-random_reads fd n (xorshift64 rng) _)

  module _ (held : State → ℕ → ℕ) (live : State → ℕ) (counts : Counts os held live)
      (quiet : (s : State) → Same os held live s (clock.now s).0) (base : State) where
    abbrev Has : List ℕ → ℕ → State → Type 0
    Has fds n s = Holding os held live counts base fds n s

    kept-Has :
        (fds : List ℕ) (n : ℕ) (s s' : State) → Same os held live s s' → Has fds n s → Has fds n s'
    kept-Has fds n s s' same h = Same-Holding os held live counts base fds n s s' same h

    random_reads-Has :
        (fds : List ℕ) (k fd n rng : ℕ) (s : State)
        → Has fds k s
        → Has fds k (random_reads fd n rng s).0
    unfolding random_reads
    random_reads-Has fds k fd zero rng s h = h
    random_reads-Has fds k fd (suc n) rng s h =
        let off = xorshift64 rng % k_file_blocks * 4096 in
        random_reads-Has fds k fd n (xorshift64 rng) _ (
          kept-Has fds k _ _ (quiet _)
            (read-Holding os held live counts base fds k fd off _ (kept-Has fds k s _ (quiet s) h)))

    warm_blocks-Has :
        (fds : List ℕ) (k fd b n : ℕ) (r : State × ℕ)
        → Has fds k r.0
        → Has fds k (warm_blocks fd b n r).0
    unfolding warm_blocks
    warm_blocks-Has fds k fd b zero r h = h
    warm_blocks-Has fds k fd b (suc n) (s, status) h =
        warm_blocks-Has fds k fd (suc b) n _
          (read-Holding os held live counts base fds k fd (b * 4096) s h)

    samples-Has :
        (fds : List ℕ) (k : ℕ) (s : State)
        → Has fds k s
        → Has fds (if (malloc s).1 then suc k else k) (malloc s).0
    samples-Has fds k s (all, buffers) = (
      (λ j. counts.malloc_held s j ∙ all j),
      counts.malloc_live s ∙ one_more (malloc s).1 (live s) buffers,
    )
      where
        one_more :
            (b : Bool) (l : ℕ)
            → l ≡ k + live base
            → (if b then suc l else l) ≡ (if b then suc k else k) + live base
        one_more true l e = omega arith
        one_more false l e = e

    sampled-Has :
        (fds : List ℕ) (k fd n status : ℕ) (r : State × Bool)
        → Has fds (if r.1 then suc k else k) r.0
        → Has fds k (sampled fd n status r).0
    sampled-Has fds k fd n status (s, false) h = h
    sampled-Has fds k fd n status (s, true) h =
        freed-Holding os held live counts base fds k _ (random_reads-Has fds (suc k) fd n 42 s h)

    with_aligned-Has :
        (fd status : ℕ) (r : State × Bool)
        → Has (fd ∷ []) (if r.1 then 1 else 0) r.0
        → Has [] 0 (with_aligned fd status r).0
    with_aligned-Has fd status (s, false) h = closed-Holding os held live counts base [] 0 fd s h
    with_aligned-Has fd status (s, true) h = closed-Holding os held live counts base [] 0 fd _ (
        freed-Holding os held live counts base (fd ∷ []) 0 _
          (sampled-Has (fd ∷ []) 1 fd 5000 status (malloc s) (samples-Has (fd ∷ []) 1 s h)))

    with_direct-Has :
        (status : ℕ) (r : State × Option ℕ)
        → Has (with_fd r.1 []) 0 r.0
        → Has [] 0 (with_direct status r).0
    with_direct-Has status (s, none) h = h
    with_direct-Has status (s, some fd) h =
        with_aligned-Has fd status (memalign s)
          (allocated-Holding os held live counts base (fd ∷ []) 0 s h)

    opened-Has :
        (path : Name) (direct : Bool) (s : State)
        → Has [] 0 s
        → Has (with_fd (open_read s path direct).1 []) 0 (open_read s path direct).0
    opened-Has path direct s h =
        Opened-Holding os held live counts base [] 0 s (open_read s path direct).0
          (open_read s path direct).1 (counts.open_read_counts s path direct) h

    direct_pass-Has :
        (path : Name) (fd : ℕ) (r : State × ℕ)
        → Has (fd ∷ []) 0 r.0
        → Has [] 0 (direct_pass path fd r).0
    direct_pass-Has path fd (s, status) h =
        with_direct-Has status _
          (opened-Has path true (close s fd) (closed-Holding os held live counts base [] 0 fd s h))

    buffered_pass-Has :
        (fd : ℕ) (r : State × ℕ) → Has (fd ∷ []) 0 r.0 → Has (fd ∷ []) 0 (buffered_pass fd r).0
    buffered_pass-Has fd (s, status) h =
        sampled-Has (fd ∷ []) 0 fd 100000 status (malloc s) (samples-Has (fd ∷ []) 0 s h)

    both_passes-Has :
        (path : Name) (r : State × Option ℕ)
        → Has (with_fd r.1 []) 0 r.0
        → Has [] 0 (both_passes path r).0
    both_passes-Has path (s, none) h = h
    both_passes-Has path (s, some fd) h =
        let warm = warm_blocks fd 0 k_file_blocks ((fsync s fd).0, 0) in
        direct_pass-Has path fd (buffered_pass fd warm) (
          buffered_pass-Has fd warm (
            warm_blocks-Has (fd ∷ []) 0 fd 0 k_file_blocks ((fsync s fd).0, 0)
              (kept-Has (fd ∷ []) 0 s _ (counts.fsync_same s fd) h)))

    -- The main function ends, whatever is refused, with the descriptors open and the buffers allocated that were so at
    -- its start.
    pub random_read-Same : (path : Name) → Same os held live base (random_read path base).0
    unfolding random_read
    random_read-Same path =
        let r = both_passes path (open_read base path false) in
        released os held live counts base _ (
          kept-Has [] 0 r.0 _ (counts.unlink_same r.0 path) (
            both_passes-Has path _
              (opened-Has path false base (at_start os held live counts base))))

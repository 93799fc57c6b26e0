-- ===== src/Direct/Compared.antt =====
-- The comparison of buffered and direct writes closes both files, however it ends.
use inside_the_cpu_storage_a.Base.{
  ℕ, ◌≡◌, Bool, true, false, Option, none, some, List, [], length, if◌then◌else◌,
}
use inside_the_cpu_storage_a.Fs.{Name}
use inside_the_cpu_storage_a.Rules.{Clock, bench_ns}
use inside_the_cpu_storage_a.Rules.Bench.{bench_ns_lem}
use inside_the_cpu_storage_a.Direct.{
  DirectOs, TmpFile, tmpfile_open, one_pwrite, pwrite_fsync, close_both, measure, measured,
  with_both, buffered_vs_direct,
}
use inside_the_cpu_storage_a.Direct.Held.{
  with_fd, Same, Counts, Holding, Same-Holding, swap-Holding, allocated-Holding, freed-Holding,
  written-Holding, at_start, released,
}
use inside_the_cpu_storage_a.Direct.Released.{tmpfile_open-Holding, tmpfile_close-Holding}

module _ (os : DirectOs) (held : os.State → ℕ → ℕ) (live : os.State → ℕ)
    (counts : Counts os held live) (clock : Clock os.State)
    (sorted : (ts : List clock.Time) → length (clock.sort ts) ≡ length ts)
    (quiet : (s : os.State) → Same os held live s (clock.now s).0) (base : os.State) where
  abbrev Has : List ℕ → ℕ → os.State → Type 0
  Has fds n s = Holding os held live counts base fds n s

  swap-Has :
      (a b : Option ℕ) (fds : List ℕ) (n : ℕ) (s : os.State)
      → Has (with_fd a (with_fd b fds)) n s
      → Has (with_fd b (with_fd a fds)) n s
  swap-Has none b fds n s h = h
  swap-Has (some f) none fds n s h = h
  swap-Has (some f) (some g) fds n s h = swap-Holding os held live counts base f g fds n s h

  close_both-Has :
      (path₁ path₂ : Name) (buffered direct : TmpFile) (s : os.State)
      → Has (with_fd direct.fd (with_fd buffered.fd [])) 0 s
      → Has [] 0 (close_both os clock path₁ path₂ buffered direct s)
  close_both-Has path₁ path₂ buffered direct s h =
      tmpfile_close-Holding os held live counts base path₂ direct [] 0 _ (
        tmpfile_close-Holding os held live counts base path₁ buffered (with_fd direct.fd []) 0 s
          (swap-Has direct.fd buffered.fd [] 0 s h))

  bench-Has :
      (fds : List ℕ) (n : ℕ) (f : os.State → os.State) (s : os.State)
      → ((t : os.State) → Has fds n t → Has fds n (f t))
      → Has fds n s
      → Has fds n (bench_ns clock f 3 21 s).0
  bench-Has fds n f s run h =
      (bench_ns_lem clock (λ k t. Has fds n t) f 3 21 s sorted (λ k. run)
        (λ k t g. Same-Holding os held live counts base fds n t (clock.now t).0 (quiet t) g) h).0

  one_pwrite-Has :
      (fds : List ℕ) (n f : ℕ) (s : os.State) → Has fds n s → Has fds n (one_pwrite os f s)
  one_pwrite-Has fds n f s h = written-Holding os held live counts base fds n f 0 s h

  pwrite_fsync-Has :
      (fds : List ℕ) (n f : ℕ) (s : os.State) → Has fds n s → Has fds n (pwrite_fsync os f s)
  pwrite_fsync-Has fds n f s h =
      Same-Holding os held live counts base fds n _ _ (counts.fsync_same (one_pwrite os f s) f)
        (one_pwrite-Has fds n f s h)

  measure-Has :
      (fds : List ℕ) (n f g : ℕ) (s : os.State) → Has fds n s → Has fds n (measure os clock f g s)
  measure-Has fds n f g s h = bench-Has fds n (one_pwrite os g) _ (one_pwrite-Has fds n g) (
      bench-Has fds n (pwrite_fsync os f) _ (pwrite_fsync-Has fds n f)
        (bench-Has fds n (one_pwrite os f) s (one_pwrite-Has fds n f) h))

  measured-Has :
      (path₁ path₂ : Name) (buffered direct : TmpFile) (f g : ℕ) (r : os.State × Bool)
      → Has (with_fd direct.fd (with_fd buffered.fd [])) (if r.1 then 1 else 0) r.0
      → Has [] 0 (measured os clock path₁ path₂ buffered direct f g r).0
  measured-Has path₁ path₂ buffered direct f g (s, false) h =
      close_both-Has path₁ path₂ buffered direct s h
  measured-Has path₁ path₂ buffered direct f g (s, true) h =
      let both = with_fd direct.fd (with_fd buffered.fd []) in
      close_both-Has path₁ path₂ buffered direct _
        (freed-Holding os held live counts base both 0 _ (measure-Has both 1 f g s h))

  with_both-Has :
      (path₁ path₂ : Name) (buffered direct : TmpFile) (a b : Option ℕ) (s : os.State)
      → Has (with_fd direct.fd (with_fd buffered.fd [])) 0 s
      → Has [] 0 (with_both os clock path₁ path₂ buffered direct a b s).0
  with_both-Has path₁ path₂ buffered direct (some f) (some g) s h =
      measured-Has path₁ path₂ buffered direct f g (os.memalign s) (
        allocated-Holding os held live counts base (with_fd direct.fd (with_fd buffered.fd [])) 0 s
          h)
  with_both-Has path₁ path₂ buffered direct (some f) none s h =
      close_both-Has path₁ path₂ buffered direct s h
  with_both-Has path₁ path₂ buffered direct none b s h =
      close_both-Has path₁ path₂ buffered direct s h

  -- The main function of buffered and direct writes ends, on every way out and through all its timed runs, with the
  -- descriptors open and the buffers allocated that were so at its start. The clock must keep both, and
  -- the sort the number of the times.
  pub buffered_vs_direct-Same :
      (path₁ path₂ : Name) → Same os held live base (buffered_vs_direct os clock path₁ path₂ base).0
  unfolding buffered_vs_direct
  buffered_vs_direct-Same path₁ path₂ =
      let (s₁, buffered) = tmpfile_open os path₁ false base in
      let (s₂, direct) = tmpfile_open os path₂ true s₁ in
      released os held live counts base _ (
        with_both-Has path₁ path₂ buffered direct buffered.fd direct.fd s₂ (
          tmpfile_open-Holding os held live counts base path₂ true (with_fd buffered.fd []) 0 s₁ (
            tmpfile_open-Holding os held live counts base path₁ false [] 0 base
              (at_start os held live counts base))))

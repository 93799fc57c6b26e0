-- ===== src/Direct/Flag.antt =====
-- The main function of 05_open_direct.c of 08-storage-lab-buffered-vs-direct-io-in-10-minutes, which asks for `O_DIRECT` and
-- goes on without it where that is an invalid argument. The flags that `fcntl` gives are only printed and
-- left out.
use inside_the_cpu_storage_a.Base.{
  ℕ, Bool, true, false, Option, none, some, List, [], if◌then◌else◌,
}
use inside_the_cpu_storage_a.Fs.{Name}
use inside_the_cpu_storage_a.Direct.{DirectOs, close_fd}
use inside_the_cpu_storage_a.Direct.Held.{
  with_fd, Same, Counts, Holding, Same-Holding, Opened-Holding, closed-Holding, at_start, released,
}

-- `errno == EINVAL` after the call that failed
module _ (os : DirectOs) (invalid : os.State → Bool) where
  open os use {State, open_tmp, close, unlink}

  -- `probe`
  unfoldable pub probe_dir : Name → State → State
  probe_dir file s = let (s', fd) = open_tmp s file true in unlink (close_fd os fd s') file

  abbrev pub opened_again : Name → State × Option ℕ → State × Option ℕ
  opened_again path (s, some fd) = (s, some fd)
  opened_again path (s, none) = if invalid s then open_tmp s path false else (s, none)

  abbrev pub shown_flags : Name → Name → Name → State × Option ℕ → State × ℕ
  shown_flags path tmp shm (s, none) = (s, 1)
  shown_flags path tmp shm (s, some fd) =
      (probe_dir shm (probe_dir tmp (unlink (close s fd) path)), 0)

  unfoldable pub open_direct : Name → Name → Name → State → State × ℕ
  unfolding probe_dir
  open_direct path tmp shm s = shown_flags path tmp shm (opened_again path (open_tmp s path true))

  module _ (held : State → ℕ → ℕ) (live : State → ℕ) (counts : Counts os held live)
      (base : State) where
    abbrev Has : List ℕ → State → Type 0
    Has fds s = Holding os held live counts base fds 0 s

    opened-Has :
        (fds : List ℕ) (file : Name) (direct : Bool) (s : State)
        → Has fds s
        → Has (with_fd (open_tmp s file direct).1 fds) (open_tmp s file direct).0
    opened-Has fds file direct s h =
        Opened-Holding os held live counts base fds 0 s (open_tmp s file direct).0
          (open_tmp s file direct).1 (counts.open_counts s file direct) h

    unlinked-Has : (file : Name) (s : State) → Has [] s → Has [] (unlink s file)
    unlinked-Has file s h =
        Same-Holding os held live counts base [] 0 s (unlink s file) (counts.unlink_same s file) h

    closed-Has : (fd : Option ℕ) (s : State) → Has (with_fd fd []) s → Has [] (close_fd os fd s)
    closed-Has none s h = h
    closed-Has (some f) s h = closed-Holding os held live counts base [] 0 f s h

    probe_dir-Has : (file : Name) (s : State) → Has [] s → Has [] (probe_dir file s)
    unfolding probe_dir
    probe_dir-Has file s h =
        unlinked-Has file _ (closed-Has (open_tmp s file true).1 _ (opened-Has [] file true s h))

    again-Has :
        (path : Name) (r : State × Option ℕ)
        → Has (with_fd r.1 []) r.0
        → Has (with_fd (opened_again path r).1 []) (opened_again path r).0
    again-Has path (s, some fd) h = h
    again-Has path (s, none) h = either (invalid s)
      where
        either :
            (b : Bool)
            → Has
                (with_fd (if b then open_tmp s path false else (s, none)).1 [])
                (if b then open_tmp s path false else (s, none)).0
        either true = opened-Has [] path false s h
        either false = h

    shown-Has :
        (path tmp shm : Name) (r : State × Option ℕ)
        → Has (with_fd r.1 []) r.0
        → Has [] (shown_flags path tmp shm r).0
    shown-Has path tmp shm (s, none) h = h
    shown-Has path tmp shm (s, some f) h = probe_dir-Has shm _ (
        probe_dir-Has tmp _
          (unlinked-Has path _ (closed-Holding os held live counts base [] 0 f s h)))

    -- The main function ends, whatever is refused, with the descriptors open that were so at its start.
    pub open_direct-Same :
        (path tmp shm : Name) → Same os held live base (open_direct path tmp shm base).0
    unfolding open_direct
    open_direct-Same path tmp shm = released os held live counts base _ (
        shown-Has path tmp shm _ (
          again-Has path (open_tmp base path true)
            (opened-Has [] path true base (at_start os held live counts base))))

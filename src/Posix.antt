-- ===== src/Posix.antt =====
-- The system calls that the programs of labs 04 and 05 make on files, over an unknown state, and what the
-- manual pages say of them. A path is the list of its bytes, a file descriptor a number.
pub mod Durable
pub mod Copies
pub mod Mapped
pub mod Tests
use inside_the_cpu_storage_a.Base.{
  ℕ, ◌≤◌, ◌<◌, ◌≡◌, ◌≢◌, ◌⊎◌, Bool, true, false, Option, none, some, List, [], ◌∷◌, ◌++◌, length,
}
use inside_the_cpu_storage_a.Fs.{Name}
use inside_the_cpu_storage_a.Writes.{Answer}
use inside_the_cpu_storage_a.Writes.Sent.{Call}

-- A call that fails with -1 gives `none` or `false`.
pub record Posix : Type 1 where
  pub State : Type 0
  -- `open(path, O_CREAT | O_TRUNC | O_WRONLY, mode)`
  pub create : State → Name → State × Option ℕ
  -- `open(path, O_RDONLY)`
  pub open_read : State → Name → State × Option ℕ
  pub write : State → ℕ → List ℕ → State × Answer
  pub fsync : State → ℕ → State × Bool
  pub close : State → ℕ → State
  -- `posix_fadvise(fd, 0, 0, POSIX_FADV_DONTNEED)`
  pub dont_need : State → ℕ → State × Bool
  pub rename : State → Name → Name → State × Bool

-- How the states are described.
pub record View (os : Posix) : Type 1 where
  -- the signals that are still to come
  pub signals : os.State → ℕ
  -- what a path holds now
  pub holds : os.State → Name → Option (List ℕ)
  -- what a path may hold when the machine has crashed in this state and is up again
  pub Crash : os.State → Name → Option (List ℕ) → Type 0
  -- the descriptor is open for writing at the end of the file of the path, which has these bytes
  pub Open : os.State → ℕ → Name → List ℕ → Type 0
  -- the file of the path has these bytes, and they are on the device
  pub Synced : os.State → Name → List ℕ → Type 0
  -- the path has been given to such a file
  pub Given : os.State → Name → List ℕ → Type 0
  -- the descriptor is open on the directory
  pub Dir : os.State → ℕ → Name → Type 0
  pub dir_of : Name → Name

module _ (os : Posix) (v : View os) where
  open os use {State, create, open_read, write, fsync, close, dont_need, rename}
  open v use {signals, holds, Crash, Open, Synced, Given, Dir, dir_of}

  -- open(2), write(2), signal(7) and close(2)
  pub record IsFiles : Type 0 where
    pub create_signals : (s : State) (p : Name) → signals (create s p).0 ≤ signals s
    pub create_open :
        (s : State) (p : Name) (fd : ℕ) → (create s p).1 ≡ some fd → Open (create s p).0 fd p []
    pub write_call :
        (s : State) (fd : ℕ) (p : Name) (b q : List ℕ)
        → 0 < length q
        → Open s fd p b
        → Call (λ t c. Open t fd p c) signals s b q (write s fd q)
    pub close_holds :
        (s : State) (fd : ℕ) (p : Name) (b : List ℕ) → Open s fd p b → holds (close s fd) p ≡ some b

  -- fsync(2) and rename(2): which calls change what a path holds after a crash
  pub record IsDurable : Type 0 where
    pub create_crash :
        (s : State) (p r : Name) (c : Option (List ℕ))
        → r ≢ p
        → Crash (create s p).0 r c
        → Crash s r c
    pub write_crash :
        (s : State) (fd : ℕ) (p : Name) (b q : List ℕ) (r : Name) (c : Option (List ℕ))
        → Open s fd p b
        → r ≢ p
        → Crash (write s fd q).0 r c
        → Crash s r c
    pub fsync_crash :
        (s : State) (fd : ℕ) (p : Name) (b : List ℕ) (r : Name) (c : Option (List ℕ))
        → Open s fd p b
        → r ≢ p
        → Crash (fsync s fd).0 r c
        → Crash s r c
    pub fsync_synced :
        (s : State) (fd : ℕ) (p : Name) (b : List ℕ)
        → Open s fd p b
        → (fsync s fd).1 ≡ true
        → Synced (fsync s fd).0 p b
    pub close_crash :
        (s : State) (fd : ℕ) (r : Name) (c : Option (List ℕ)) → Crash (close s fd) r c → Crash s r c
    pub dont_need_synced :
        (s : State) (fd : ℕ) (p : Name) (b : List ℕ) → Synced s p b → Synced (dont_need s fd).0 p b
    pub close_synced :
        (s : State) (fd : ℕ) (p : Name) (b : List ℕ) → Synced s p b → Synced (close s fd) p b
    pub rename_given :
        (s : State) (p q : Name) (b : List ℕ)
        → Synced s p b
        → (rename s p q).1 ≡ true
        → Given (rename s p q).0 q b
    pub rename_crash :
        (s : State) (p q : Name) (b : List ℕ) (c : Option (List ℕ))
        → Synced s p b
        → Crash (rename s p q).0 q c
        → Crash s q c ⊎ (c ≡ some b)
    pub open_read_dir :
        (s : State) (d : Name) (fd : ℕ) → (open_read s d).1 ≡ some fd → Dir (open_read s d).0 fd d
    pub open_read_given :
        (s : State) (d p : Name) (b : List ℕ) → Given s p b → Given (open_read s d).0 p b
    pub open_read_crash :
        (s : State) (d r : Name) (c : Option (List ℕ)) → Crash (open_read s d).0 r c → Crash s r c
    pub fsync_dir_crash :
        (s : State) (fd : ℕ) (d r : Name) (c : Option (List ℕ))
        → Dir s fd d
        → Crash (fsync s fd).0 r c
        → Crash s r c
    pub fsync_dir_durable :
        (s : State) (fd : ℕ) (p : Name) (b : List ℕ) (c : Option (List ℕ))
        → Dir s fd (dir_of p)
        → Given s p b
        → (fsync s fd).1 ≡ true
        → Crash (fsync s fd).0 p c
        → c ≡ some b
    pub fsync_dir_given :
        (s : State) (fd : ℕ) (d p : Name) (b : List ℕ)
        → Dir s fd d
        → Given s p b
        → Given (fsync s fd).0 p b
    pub close_given :
        (s : State) (fd : ℕ) (p : Name) (b : List ℕ) → Given s p b → Given (close s fd) p b
    pub given_holds : (s : State) (p : Name) (b : List ℕ) → Given s p b → holds s p ≡ some b

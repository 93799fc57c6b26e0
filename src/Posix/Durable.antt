-- ===== src/Posix/Durable.antt =====
-- `durable_replace` of 05-storage-lab-linux-page-cache-in-10-minutes/10_durable_replace.c, with the states that it
-- goes through, in which the machine may crash. `write_all`, which counts the bytes done there, is the
-- loop of Writes on the bytes that are left, with its fuel.
pub mod Replace
use inside_the_cpu_storage_a.Base.{
  ℕ, Bool, true, false, Option, none, some, List, [], ◌∷◌, if◌then◌else◌,
}
use inside_the_cpu_storage_a.Fs.{Name}
use inside_the_cpu_storage_a.Writes.{Answer, write_all_bytes}
use inside_the_cpu_storage_a.Posix.{Posix}

module _ (os : Posix) where
  open os use {State}

  -- the state, and those before it, the last one first
  pub record Log : Type 0 where
    pub now : State
    pub seen : List State

  abbrev pub Sys : Type 0 → Type 0
  Sys A = Log → Option (Log × A)

  infixl 5 ◌>>=◌ ◌>>◌
  abbrev pub ◌>>=◌ : {A B : Type 0} → Sys A → (A → Sys B) → Sys B
  ◌>>=◌ m f l = elim (m l) [ none ↦ none | some (l', a) ↦ f a l' ]

  abbrev pub ◌>>◌ : {A B : Type 0} → Sys A → Sys B → Sys B
  m >> k = m >>= λ _. k

  abbrev pub pure : {A : Type 0} → A → Sys A
  pure a l = some (l, a)

  abbrev pub logged : {A : Type 0} → Log → State × A → Log × A
  logged l (s, a) = (record { now = s; seen = l.now ∷ l.seen }, a)

  abbrev pub sys_create : Name → Sys (Option ℕ)
  sys_create p l = some (logged l (os.create l.now p))

  abbrev pub sys_open : Name → Sys (Option ℕ)
  sys_open p l = some (logged l (os.open_read l.now p))

  abbrev pub sys_write : ℕ → Log → List ℕ → Log × Answer
  sys_write fd l q = logged l (os.write l.now fd q)

  abbrev pub sys_fsync : ℕ → Sys Bool
  sys_fsync fd l = some (logged l (os.fsync l.now fd))

  abbrev pub sys_rename : Name → Name → Sys Bool
  sys_rename p q l = some (logged l (os.rename l.now p q))

  -- `if (fd >= 0) close(fd)`
  abbrev pub close_open : Option ℕ → Sys (Unit {0})
  close_open none l = some (l, tt)
  close_open (some fd) l = some (logged l (os.close l.now fd, tt))

  abbrev pub and_then : Bool → Sys Bool → Sys Bool
  and_then ok m = if ok then m else pure false

  unfoldable pub write_and_sync : ℕ → List ℕ → Option ℕ → Sys Bool
  unfolding write_all_bytes
  write_and_sync fuel bytes none = pure false
  write_and_sync fuel bytes (some fd) =
      (λ l. write_all_bytes (sys_write fd) fuel l bytes) >>= λ ok. and_then ok (sys_fsync fd)

  unfoldable pub sync_dir : Bool → Option ℕ → Sys Bool
  sync_dir ok none = pure false
  sync_dir ok (some fd) = and_then ok (sys_fsync fd)

  unfoldable pub durable_replace : ℕ → Name → Name → Name → List ℕ → Sys Bool
  unfolding write_and_sync sync_dir
  durable_replace fuel dir tmp dst bytes = do
    fd ← sys_create tmp
    synced ← write_and_sync fuel bytes fd
    close_open fd
    renamed ← and_then synced (sys_rename tmp dst)
    dfd ← sys_open dir
    ok ← sync_dir renamed dfd
    close_open dfd
    pure ok

-- ===== src/Posix/Tests.antt =====
-- A machine that does what the programs rely on, and runs on it. A name that is given to a file may or may not
-- outlive a crash until the directory is synced; `write` takes three bytes at most.
use inside_the_cpu_storage_a.Base.{
  ℕ, ◌≡◌, ◌≢◌, ◌⊎◌, inl, inr, refl, ap, sym, ◌∙◌, subst, Bool, true, false, Option, none, some,
  List, [], ◌++◌, arith, length, take, min, ◌==◌, if◌then◌else◌,
}
use mathlib.Core.Option.{some-injective}
use inside_the_cpu_storage_a.Fs.{Name, same_name}
use inside_the_cpu_storage_a.Fs.Names.{same_name_refl}
use inside_the_cpu_storage_a.Fs.Programs.{codes}
use inside_the_cpu_storage_a.Writes.{took}
use inside_the_cpu_storage_a.Posix.{Posix, View, IsFiles, IsDurable}
use inside_the_cpu_storage_a.Posix.Durable.{Log, durable_replace}
use inside_the_cpu_storage_a.Posix.Durable.Replace.{Ends, durable_replace_lem}
use inside_the_cpu_storage_a.Posix.Copies.{byte_at_a_time, one_call, make_cold_file}
use inside_the_cpu_storage_a.Posix.Mapped.{Mapper, mmap_cache}
use inside_the_cpu_storage_a.Posix.Mapped.Sums.{Maps, Answers, mmap_cache_lem}
use inside_the_cpu_storage_a.Posix.Copies.Same.{
  Outcome, one_call-byte_at_a_time, make_cold_file_lem,
}

abbrev Files : Type 0
Files = Name → Option (List ℕ)

record Machine : Type 0 where
  live : Files
  -- the files whose bytes are on the device
  synced : Files
  -- the names as they are given, and as the device has them
  named : Files
  disk : Files
  -- the file of descriptor 3; descriptor 4 is the directory, or a file that is read
  target : Name
  -- the file of descriptor 4
  reading : Name

abbrev put : Files → Name → Option (List ℕ) → Files
put f p b q = if same_name p q then b else f q

abbrev more : Option (List ℕ) → List ℕ → Option (List ℕ)
more none q = none
more (some b) q = some (b ++ q)

abbrev give : Machine → Name → Name → Option (List ℕ) → Machine × Bool
give s p q none = (s, false)
give s p q (some b) =
    (record s { live = put (put s.live p none) q (some b); named = put s.named q (some b) }, true)

abbrev machine : Posix
machine = record {
  State = Machine;
  create = λ s p. (
    record s { live = put s.live p (some []); synced = put s.synced p none; target = p },
    some 3,
  );
  open_read = λ s d. (record s { reading = d }, some 4);
  write = λ s fd q. (
    record s {
      live = put s.live s.target (more (s.live s.target) (take (min 3 (length q)) q));
      synced = put s.synced s.target none;
    },
    took (min 3 (length q)),
  );
  fsync = λ s fd.
      if fd == 3
      then (record s { synced = put s.synced s.target (s.live s.target) }, true)
      else (record s { disk = s.named }, true);
  close = λ s fd. s;
  dont_need = λ s fd. (s, true);
  rename = λ s p q. give s p q (s.synced p);
}

abbrev view : View machine
view = record {
  signals = λ s. 0;
  holds = λ s. s.live;
  Crash = λ s r c. (c ≡ s.disk r) ⊎ (c ≡ s.named r);
  Open = λ s fd p b. (fd ≡ 3) × (s.target ≡ p) × (s.live p ≡ some b);
  Synced = λ s p b. s.synced p ≡ some b;
  Given = λ s p b. (s.named p ≡ some b) × (s.live p ≡ some b);
  Dir = λ s fd d. fd ≡ 4;
  dir_of = λ p. codes "lab";
}

put_self : (f : Files) (p : Name) (b : Option (List ℕ)) → put f p b p ≡ b
put_self f p b = ap (λ s. if s then b else f p) (same_name_refl p)

machine-IsFiles : IsFiles machine view
machine-IsFiles = record {
  create_signals = λ s p. omega arith;
  create_open = λ s p fd e. (sym (some-injective _ _ e), refl, put_self s.live p (some []));
  write_call = λ s fd p b q some_bytes held. (
    omega arith,
    omega arith,
    (
      held.0,
      held.1,
      ap (λ t. put s.live t (more (s.live t) (take (min 3 (length q)) q)) p) held.1
          ∙ put_self s.live p (more (s.live p) (take (min 3 (length q)) q))
          ∙ ap (λ o. more o (take (min 3 (length q)) q)) held.2,
    ),
    omega arith,
  );
  close_holds = λ s fd p b held. held.2;
}

give_given :
    (s : Machine) (p q : Name) (b : List ℕ) (o : Option (List ℕ))
    → o ≡ some b
    → ((give s p q o).0.named q ≡ some b) × ((give s p q o).0.live q ≡ some b)
give_given s p q b none e = let absurd : ⊥ = cc in elim absurd [ ]
give_given s p q b (some c) e =
    (put_self s.named q (some c) ∙ e, put_self (put s.live p none) q (some c) ∙ e)

give_crash :
    (s : Machine) (p q : Name) (b : List ℕ) (o c : Option (List ℕ))
    → o ≡ some b
    → (c ≡ (give s p q o).0.disk q) ⊎ (c ≡ (give s p q o).0.named q)
    → ((c ≡ s.disk q) ⊎ (c ≡ s.named q)) ⊎ (c ≡ some b)
give_crash s p q b none c e k = let absurd : ⊥ = cc in elim absurd [ ]
give_crash s p q b (some d) c e (inl k) = inl (inl k)
give_crash s p q b (some d) c e (inr k) = inr (k ∙ put_self s.named q (some d) ∙ e)

at_file :
    (s : Machine) {fd : ℕ}
    → fd ≡ 3
    → machine.fsync s fd ≡ (record s { synced = put s.synced s.target (s.live s.target) }, true)
at_file s e = ap (machine.fsync s) e

at_dir : (s : Machine) {fd : ℕ} → fd ≡ 4 → machine.fsync s fd ≡ (record s { disk = s.named }, true)
at_dir s e = ap (machine.fsync s) e

machine-IsDurable : IsDurable machine view
machine-IsDurable = record {
  create_crash = λ s p r c ne k. k;
  write_crash = λ s fd p b q r c held ne k. k;
  fsync_crash = λ s fd p b r c held ne k.
      subst (λ t. (c ≡ t.0.disk r) ⊎ (c ≡ t.0.named r)) (at_file s held.0) k;
  fsync_synced = λ s fd p b held e.
      ap (λ t. t.0.synced p) (at_file s held.0)
      ∙ ap (λ t. put s.synced t (s.live t) p) held.1
      ∙ put_self s.synced p (s.live p)
      ∙ held.2;
  close_crash = λ s fd r c k. k;
  dont_need_synced = λ s fd p b k. k;
  close_synced = λ s fd p b k. k;
  rename_given = λ s p q b k e. give_given s p q b (s.synced p) k;
  rename_crash = λ s p q b c k. give_crash s p q b (s.synced p) c k;
  open_read_dir = λ s d fd e. sym (some-injective _ _ e);
  open_read_given = λ s d p b k. k;
  open_read_crash = λ s d r c k. k;
  fsync_dir_crash = λ s fd d r c at k.
      elim (subst (λ t. (c ≡ t.0.disk r) ⊎ (c ≡ t.0.named r)) (at_dir s at) k) [
        | inl named ↦ inr named
        | inr named ↦ inr named
      ];
  fsync_dir_durable = λ s fd p b c at given e k.
      elim (subst (λ t. (c ≡ t.0.disk p) ⊎ (c ≡ t.0.named p)) (at_dir s at) k) [
        | inl named ↦ named ∙ given.0
        | inr named ↦ named ∙ given.0
      ];
  fsync_dir_given = λ s fd d p b at given.
      (ap (λ t. t.0.named p) (at_dir s at) ∙ given.0, ap (λ t. t.0.live p) (at_dir s at) ∙ given.1);
  close_given = λ s fd p b k. k;
  given_holds = λ s p b k. k.1;
}

abbrev settings : Name
settings = codes "lab/settings.conf"

abbrev temporary : Name
temporary = codes "lab/settings.conf.tmp"

abbrev old_bytes : List ℕ
old_bytes = codes "settings version 1"

abbrev new_bytes : List ℕ
new_bytes = codes "settings version 2"

abbrev saved : Files
saved p = if same_name settings p then some old_bytes else none

abbrev started : Machine
started = record {
  live = saved;
  synced = saved;
  named = saved;
  disk = saved;
  target = [];
  reading = [];
}

settings_apart : settings ≢ temporary
settings_apart e = let absurd : ⊥ = omega (arith, ap length e) in elim absurd [ ]

abbrev start_log : Log machine
start_log = record { now = started; seen = [] }

durable_replace_lem_example :
    Ends view machine-IsFiles machine-IsDurable started temporary settings new_bytes settings_apart
      (λ k ok.
        ok ≡ true
        → (view.holds k.now settings ≡ some new_bytes)
          × ((c : Option (List ℕ)) → view.Crash k.now settings c → c ≡ some new_bytes))
      (durable_replace machine 18 (view.dir_of settings) temporary settings new_bytes start_log)
durable_replace_lem_example =
    durable_replace_lem view machine-IsFiles machine-IsDurable started temporary settings new_bytes
      settings_apart 18 start_log ((λ c k. inl k), tt) (omega arith)

all_counted : (byte_at_a_time machine started settings new_bytes).1 ≡ some (length new_bytes)
unfolding byte_at_a_time
all_counted = refl

one_call-byte_at_a_time_example :
    Outcome view machine-IsFiles settings
      (λ t' r.
        r ≡ some true
        → (view.holds t' settings ≡ some new_bytes)
          × (view.holds (byte_at_a_time machine started settings new_bytes).0 settings
              ≡ view.holds t' settings))
      (one_call machine 18 started settings new_bytes)
one_call-byte_at_a_time_example =
    one_call-byte_at_a_time view machine-IsFiles settings 18 started started new_bytes all_counted
      (omega arith)

make_cold_file_run :
    Outcome view machine-IsFiles settings
      (λ s' ok. ok ≡ true → view.Synced s' settings new_bytes)
      (make_cold_file machine 18 started settings new_bytes)
make_cold_file_run =
    make_cold_file_lem view machine-IsFiles settings machine-IsDurable 18 started new_bytes
      (omega arith)

abbrev mapped : Option (List ℕ) → Option ℕ → Option (List ℕ)
mapped b none = none
mapped b (some fd) = b

abbrev maps_of_machine : Mapper machine
maps_of_machine = record {
  malloc = λ s. (s, true);
  free = λ s. s;
  mmap = λ s fd n. (s, mapped (s.live s.reading) fd);
  munmap = λ s. s;
  unlink = λ s p. record s { live = put s.live p none; named = put s.named p none };
}

machine-Maps : Maps view machine-IsFiles maps_of_machine
machine-Maps = record {
  malloc_signals = λ s. omega arith;
  free_holds = λ s p b e. e;
  mmap_none = λ s n. refl;
  mmap_bytes = λ s p fd b m held e shown. some-injective _ _ (sym shown ∙ held);
}

mmap_cache_lem_example :
    Answers view machine-IsFiles maps_of_machine machine-Maps settings new_bytes true
      (mmap_cache machine maps_of_machine settings 18 new_bytes started)
mmap_cache_lem_example =
    mmap_cache_lem view machine-IsFiles maps_of_machine machine-Maps settings 18 new_bytes started
      (omega arith)

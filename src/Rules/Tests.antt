-- ===== src/Rules/Tests.antt =====
-- A stream and a clock that do what the three rules rely on, and runs on them.
use inside_the_cpu_storage_a.Base.{
  ◌≤◌, ◌<◌, ◌⊎◌, inl, inr, ◌-◌, ◌&&◌, ltb, ℕ, zero, suc, ◌+◌, ◌-◌, ◌*◌, ◌≡◌, refl, ap, sym, Bool,
  true, false, some, List, [], ◌∷◌, ◌++◌, append-nil, arith, length, take, drop, take-length,
  replicate, length-replicate, min, ◌==◌, ==_iff, if◌then◌else◌,
}
use inside_the_cpu_storage_a.Rules.{
  Stdio, Clock, Ctx, k_data, k_record, write_flush, records, tiny_writes, batch_write, bench_ns,
  write_twice, tails, fread_all, read_file, random_read_latencies,
}
use inside_the_cpu_storage_a.Rules.Bench.{bench_ns_lem}
use inside_the_cpu_storage_a.Rules.Batch.{Appends, copies, write_twice_lem}
use inside_the_cpu_storage_a.Rules.Tail.{
  IsRead, Counted, Reads, Asks, Read, tails_lem, read_file_lem, random_read_latencies_lem,
}

-- the bytes that are written, the size of the file and the bytes that are left to read, and the offsets that were asked for
record Stream : Type 0 where
  written : List ℕ
  size : ℕ
  left : ℕ
  -- whether the reads fail from the second on, and whether one has
  breaks : Bool
  failed : Bool
  asked : List ℕ

-- one `fread`, which fails or gives what is left
abbrev piece : Bool → Stream → ℕ → Stream × ℕ
piece true s n = (record s { failed = true }, 0)
piece false s n = (record s { left = s.left - min n s.left }, min n s.left)

abbrev stream : Stdio
stream = record {
  State = Stream;
  open_rb = λ s. (record s { left = s.size }, true);
  close_rb = λ s. s;
  fwrite = λ s p. (record s { written = s.written ++ p }, length p);
  fflush = λ s. (s, true);
  fread = λ s n. piece (s.breaks && ltb s.left s.size) s n;
  read_at = λ s o. (record s { asked = s.asked ++ o ∷ [] }, true);
}

-- a clock that stands still, over any state
abbrev stopwatch : (S : Type 0) → Clock S
stopwatch S = record {
  Time = ℕ;
  now = λ s. (s, 7);
  gap = λ a b. a - b;
  no_time = 0;
  sort = λ ts. ts;
}

abbrev fresh : Stream
fresh = record { written = []; size = 200000; left = 0; breaks = false; failed = false; asked = [] }

abbrev fresh_ctx : Ctx stream
fresh_ctx = (fresh, true)

stream-Appends : Appends stream (λ s. s.written)
stream-Appends = record {
  fwrite_sent = λ s p. ap (λ t. s.written ++ t) (sym (take-length p));
  fflush_sent = λ s. refl;
}

abbrev Failed : Stream → Type 0
Failed s = s.failed ≡ true

piece_within : (b : Bool) (s : Stream) (n : ℕ) → (piece b s n).1 + (piece b s n).0.left ≤ s.left
piece_within true s n = omega arith
piece_within false s n = ground arith

piece_rest :
    (b : Bool) (s : Stream) (n : ℕ)
    → ((piece b s n).1 + (piece b s n).0.left ≡ s.left) ⊎ Failed (piece b s n).0
piece_rest true s n = inr refl
piece_rest false s n = inl (ground arith)

piece_some :
    (b : Bool) (s : Stream) (n : ℕ)
    → 0 < n
    → (piece b s n).1 ≡ 0
    → (s.left ≡ 0) ⊎ Failed (piece b s n).0
piece_some true s n h e = inr refl
piece_some false s n h e = inl (ground arith)

piece-Failed : (b : Bool) (s : Stream) (n : ℕ) → Failed s → Failed (piece b s n).0
piece-Failed true s n h = refl
piece-Failed false s n h = h

stream-Reads : Reads stream (λ s. s.size) (λ s. s.left) Failed
stream-Reads = record {
  open_rest = λ s e. refl;
  fread_within = λ s n. piece_within (s.breaks && ltb s.left s.size) s n;
  fread_rest = λ s n. piece_rest (s.breaks && ltb s.left s.size) s n;
  fread_some = λ s n. piece_some (s.breaks && ltb s.left s.size) s n;
  fread_erred = λ s n. piece-Failed (s.breaks && ltb s.left s.size) s n;
  close_erred = λ s h. h;
}

stream-Asks : Asks stream (stopwatch Stream) (λ s. s.asked)
stream-Asks = record {
  open_asked = λ s. refl;
  close_asked = λ s. refl;
  read_asked = λ s o. refl;
  now_asked = λ s. refl;
}

abbrev letters : List ℕ
letters = replicate k_data 120

-- `written` stays 1 on this stream
kept_true :
    (c d : Ctx stream) (same : Bool) → same ≡ true → c.1 ≡ true → (if same then c else d).1 ≡ true
kept_true c d true e h = h
kept_true c d false e h = let absurd : ⊥ = cc in elim absurd [ ]

write_flush_run : (p : List ℕ) (c : Ctx stream) → c.1 ≡ true → (write_flush stream c p).1 ≡ true
write_flush_run p (s, true) h =
    let s' = record s { written = s.written ++ p } in
    kept_true (s', true) (s', false) (length p == length p) ((==_iff (length p) (length p)).1 refl)
      refl
write_flush_run p (s, false) h = let absurd : ⊥ = cc in elim absurd [ ]

records_run : (n : ℕ) (p : List ℕ) (c : Ctx stream) → c.1 ≡ true → (records stream n p c).1 ≡ true
records_run zero p c h = h
records_run (suc n) p c h =
    records_run n (drop k_record p) _ (write_flush_run (take k_record p) c h)

all_written : (write_twice stream (stopwatch (Ctx stream)) letters fresh_ctx).1 ≡ true
unfolding write_twice tiny_writes batch_write
all_written =
    let clock = stopwatch (Ctx stream) in
    let tiny =
      bench_ns_lem clock (λ n c. c.1 ≡ true) (tiny_writes stream letters) 3 21 fresh_ctx
        (λ ts. refl) (λ n c h. records_run 4096 letters c h) (λ n c h. h) refl in
    (bench_ns_lem clock (λ n c. c.1 ≡ true) (batch_write stream letters) 3 21
      (bench_ns clock (tiny_writes stream letters) 3 21 fresh_ctx).0 (λ ts. refl)
      (λ n c h. write_flush_run letters c h) (λ n c h. h) tiny.0).0

write_twice_lem_example :
    (fresh_ctx.1 ≡ true)
    × ((write_twice stream (stopwatch (Ctx stream)) letters fresh_ctx).0.written
        ≡ [] ++ copies 48 letters)
    × (length (write_twice stream (stopwatch (Ctx stream)) letters fresh_ctx).0.written
        ≡ 0 + 2 * 24 * 262144)
write_twice_lem_example =
    write_twice_lem stream (λ s. s.written) stream-Appends (stopwatch (Ctx stream)) (λ ts. refl)
      (λ c e. (e, sym (append-nil c.0.written))) letters fresh_ctx
      (length-replicate {A = ℕ} k_data 120) all_written

-- 80 repeats are cut to 64
bench_ns_lem_example :
    ((bench_ns (stopwatch ℕ) suc 3 80 10).0 ≡ 10 + 67)
    × ((80 ≡ zero)
        ⊎ (IsRead (bench_ns (stopwatch ℕ) suc 3 80 10).1
            × IsRead (bench_ns (stopwatch ℕ) suc 3 80 10).2))
bench_ns_lem_example =
    bench_ns_lem (stopwatch ℕ) (λ n s. s ≡ 10 + n) suc 3 80 10 (λ ts. refl)
      (λ n s h. omega (arith, h)) (λ n s h. h) refl

tails_run :
    IsRead (tails (stopwatch ℕ) (3 ∷ 5 ∷ 90 ∷ [])).0
    × IsRead (tails (stopwatch ℕ) (3 ∷ 5 ∷ 90 ∷ [])).1
    × IsRead (tails (stopwatch ℕ) (3 ∷ 5 ∷ 90 ∷ [])).2
tails_run = tails_lem (stopwatch ℕ) (λ ts. refl) (3 ∷ 5 ∷ 90 ∷ [])

read_file_lem_example :
    Counted stream (λ s. s.size) (λ s. s.left) Failed 200000 (read_file stream 200001 fresh)
read_file_lem_example =
    read_file_lem stream (λ s. s.size) (λ s. s.left) Failed stream-Reads 200001 fresh (omega arith)

-- the same file with a read that fails after the first piece
failing_run :
    (s' : Stream) × (read_file stream 10 (record fresh { breaks = true }) ≡ some (s', 65536))
    × (s'.failed ≡ true)
unfolding read_file fread_all
failing_run = (_, refl, refl)

random_read_latencies_lem_example :
    Read stream
      (stopwatch Stream)
      (λ s. s.asked)
      50000
      5
      fresh
      (random_read_latencies stream (stopwatch Stream) 50000 5 12345 fresh)
random_read_latencies_lem_example =
    random_read_latencies_lem stream (stopwatch Stream) (λ s. s.asked) stream-Asks 50000 5 12345
      fresh

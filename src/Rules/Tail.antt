-- ===== src/Rules/Tail.antt =====
-- The reads of the three rules: the whole file, the random reads, and the figures that are picked from the latencies.
use inside_the_cpu_storage_a.Base.{
  ◌⊎◌, inl, inr, subst, get_elem?-some, ℕ, zero, suc, ◌+◌, ◌*◌, ◌/◌, ◌%◌, ◌≤◌, ◌<◌, ◌≡◌, refl, ap,
  sym, ◌∙◌, Bool, true, false, Option, some, List, [], ◌∷◌, ◌++◌, append-nil, append_assoc, arith,
  length, ltb, ltb→lt, ◌==◌, if◌then◌else◌,
}
use inside_the_cpu_storage_a.Rules.{
  Stdio, Clock, k_disk_block, filled_in, tails, xorshift64, fread_all, close_read, read_file,
  read_blocks, random_read_latencies,
}

-- an entry that a list holds
abbrev pub IsRead {ℓ} : {A : Type ℓ} → Option A → Type ℓ
IsRead {A} o = (a : A) × (o ≡ some a)

some_entry :
    {A : Type 0} (t : A) (lat : List A) (b : Bool)
    → (length lat == 0) ≡ b
    → 0 < length (if b then t ∷ [] else lat)
some_entry t lat true e = omega arith
some_entry t [] false e = let absurd : ⊥ = cc in elim absurd [ ]
some_entry t (u ∷ lat) false e = omega arith

-- The median and the two tails are read inside the latencies, for any number of them, none included, if the sort
-- keeps their number.
pub tails_lem :
    {S : Type 0} (clock : Clock S)
    → ((ts : List clock.Time) → length (clock.sort ts) ≡ length ts)
    → (lat : List clock.Time)
    → IsRead (tails clock lat).0 × IsRead (tails clock lat).1 × IsRead (tails clock lat).2
unfolding tails
tails_lem clock sorted lat =
    let filled = filled_in clock lat in
    let n = length filled in
    let ranks = sorted filled in
    let more = some_entry clock.no_time lat (length lat == 0) refl in
    (
      get_elem?-some (clock.sort filled) (n / 2) (omega (arith, ranks, more)),
      get_elem?-some (clock.sort filled) (n * 999 / 1000) (omega (arith, ranks, more)),
      get_elem?-some (clock.sort filled) (n * 99 / 100) (omega (arith, ranks, more)),
    )

module _ (io : Stdio) (size rest : io.State → ℕ) (Erred : io.State → Type 0) where
  -- The file is opened at its start. `fread` gives bytes that are left, and is past those, and gives no byte only at the
  -- end of the file, unless an error occurs, which the state remembers.
  pub record Reads : Type 0 where
    pub open_rest : (s : io.State) → (io.open_rb s).1 ≡ true → rest (io.open_rb s).0 ≡ size s
    pub fread_within : (s : io.State) (n : ℕ) → (io.fread s n).1 + rest (io.fread s n).0 ≤ rest s
    pub fread_rest :
        (s : io.State) (n : ℕ)
        → ((io.fread s n).1 + rest (io.fread s n).0 ≡ rest s) ⊎ Erred (io.fread s n).0
    pub fread_some :
        (s : io.State) (n : ℕ)
        → 0 < n
        → (io.fread s n).1 ≡ 0
        → (rest s ≡ 0) ⊎ Erred (io.fread s n).0
    pub fread_erred : (s : io.State) (n : ℕ) → Erred s → Erred (io.fread s n).0
    pub close_erred : (s : io.State) → Erred s → Erred (io.close_rb s)

  -- the bytes were counted, or an error has stopped the count before them all
  abbrev pub Counted : ℕ → Option (io.State × ℕ) → Type 0
  Counted all o =
      (s' : io.State) × (bytes : ℕ) × (o ≡ some (s', bytes))
      × (bytes ≤ all)
      × ((bytes ≡ all) ⊎ Erred s')

  -- the same of the loop, which forgets no error
  abbrev Looped : io.State → ℕ → Option (io.State × ℕ) → Type 0
  Looped s all o =
      (s' : io.State) × (bytes : ℕ) × (o ≡ some (s', bytes))
      × (bytes ≤ all)
      × ((bytes ≡ all) ⊎ Erred s')
      × (Erred s → Erred s')

  module _ (reads : Reads) where
    after :
        (fuel : ℕ) (s : io.State) (bytes k : ℕ) (s' : io.State)
        → k + rest s' ≤ rest s
        → (k + rest s' ≡ rest s) ⊎ Erred s'
        → (k ≡ 0 → (rest s ≡ 0) ⊎ Erred s')
        → (Erred s → Erred s')
        → rest s < suc fuel
        → ((b : ℕ) → rest s' < fuel → Looped s' (b + rest s') (fread_all io fuel s' b))
        → Looped s
            (bytes + rest s)
            (elim k [ zero ↦ some (s', bytes) | suc m ↦ fread_all io fuel s' (bytes + suc m) ])
    after fuel s bytes zero s' within whole end kept h rec = (
      s',
      bytes,
      refl,
      omega arith,
      elim (end refl) [ inl none_left ↦ inl (omega arith) | inr failed ↦ inr failed ],
      kept,
    )
    after fuel s bytes (suc m) s' within whole end kept h rec =
        let (last, seen_bytes, run, low, all, later) = rec (bytes + suc m) (omega arith) in
        (
          last,
          seen_bytes,
          run,
          omega arith,
          elim whole [
            | inr failed ↦ inr (later failed)
            | inl split ↦ elim all [ inl e ↦ inl (omega arith) | inr failed ↦ inr failed ]
          ],
          λ failed. later (kept failed),
        )

    -- the loop ends within one turn for each byte and one more
    fread_all-Looped :
        (fuel : ℕ) (s : io.State) (bytes : ℕ)
        → rest s < fuel
        → Looped s (bytes + rest s) (fread_all io fuel s bytes)
    unfolding fread_all
    fread_all-Looped zero s bytes h = let absurd : ⊥ = omega arith in elim absurd [ ]
    fread_all-Looped (suc fuel) s bytes h =
        let (s', k) = io.fread s (64 * 1024) in
        after fuel s bytes k s' (reads.fread_within s (64 * 1024)) (reads.fread_rest s (64 * 1024))
          (reads.fread_some s (64 * 1024) (omega arith)) (reads.fread_erred s (64 * 1024)) h
          (λ b l. fread_all-Looped fuel s' b l)

    closed :
        (all : ℕ) (s : io.State) (o : Option (io.State × ℕ))
        → Looped s all o
        → Counted all (close_read io o)
    closed all s o (s', bytes, e, low, end, kept) = (
      io.close_rb s',
      bytes,
      ap (close_read io) e,
      low,
      elim end [ inl whole ↦ inl whole | inr failed ↦ inr (reads.close_erred s' failed) ],
    )

    seen :
        (fuel : ℕ) (s s' : io.State) (opened : Bool)
        → (opened ≡ true → rest s' ≡ size s)
        → size s < fuel
        → Counted
            (if opened then size s else 0)
            (if opened then close_read io (fread_all io fuel s' 0) else some (s', 0))
    seen fuel s s' false start h = (s', 0, refl, omega arith, inl refl)
    seen fuel s s' true start h =
        let same : 0 + rest s' ≡ size s = omega (arith, start refl) in
        closed (size s) s' (fread_all io fuel s' 0) (
          subst (λ n. Looped s' n (fread_all io fuel s' 0)) same
            (fread_all-Looped fuel s' 0 (omega (arith, start refl))))

    -- On a stream whose reads count the bytes that they take from the rest of the file, `read_all` ends, within one turn of its loop for each byte of the file and one more. If no read fails, it counts each
    -- byte of the file once; it never counts more, and none when the file cannot be opened.
    pub read_file_lem :
        (fuel : ℕ) (s : io.State)
        → size s < fuel
        → Counted (if (io.open_rb s).1 then size s else 0) (read_file io fuel s)
    unfolding read_file
    read_file_lem fuel s h = seen fuel s (io.open_rb s).0 (io.open_rb s).1 (reads.open_rest s) h

module _ (io : Stdio) (clock : Clock io.State) (asked : io.State → List ℕ) where
  -- the state of the reads: the offsets that were asked for
  pub record Asks : Type 0 where
    pub open_asked : (s : io.State) → asked (io.open_rb s).0 ≡ asked s
    pub close_asked : (s : io.State) → asked (io.close_rb s) ≡ asked s
    pub read_asked :
        (s : io.State) (offset : ℕ) → asked (io.read_at s offset).0 ≡ asked s ++ offset ∷ []
    pub now_asked : (s : io.State) → asked (clock.now s).0 ≡ asked s

  -- a block of the file, at its start
  abbrev pub InFile : ℕ → ℕ → Type 0
  InFile file_bytes offset = (offset % k_disk_block ≡ 0) × (offset + k_disk_block ≤ file_bytes)

  abbrev pub AllIn : ℕ → List ℕ → Type 0
  AllIn file_bytes [] = Unit
  AllIn file_bytes (o ∷ os) = InFile file_bytes o × AllIn file_bytes os

  -- the reads that were made
  abbrev pub Read : ℕ → ℕ → io.State → io.State × List clock.Time → Type 0
  Read file_bytes reads s r =
      (offsets : List ℕ) × (asked r.0 ≡ asked s ++ offsets)
      × AllIn file_bytes offsets
      × (length offsets ≤ reads)
      × (length r.1 ≤ length offsets)
      × (length offsets ≤ suc (length r.1))

  nothing_asked : (file_bytes reads : ℕ) (s : io.State) → Read file_bytes reads s (s, [])
  nothing_asked file_bytes reads s =
      ([], sym (append-nil (asked s)), tt, omega arith, omega arith, omega arith)

  block_in :
      (file_bytes r : ℕ)
      → 0 < file_bytes / k_disk_block
      → InFile file_bytes (r % (file_bytes / k_disk_block) * k_disk_block)
  block_in file_bytes r h = (omega arith, omega arith)

  module _ (asks : Asks) where
    turn :
        (file_bytes reads o : ℕ) (s s₂ s₃ : io.State) (lat : List clock.Time) (t : clock.Time)
        (more ok : Bool)
        → (more ≡ true → InFile file_bytes o)
        → asked s₂ ≡ asked s ++ o ∷ []
        → Read file_bytes reads s₂ (s₃, lat)
        → Read file_bytes
            (suc reads)
            s
            (if more then (if ok then (s₃, t ∷ lat) else (s₂, [])) else (s, []))
    turn file_bytes reads o s s₂ s₃ lat t false ok inside one rest =
        nothing_asked file_bytes (suc reads) s
    turn file_bytes reads o s s₂ s₃ lat t true false inside one rest =
        (o ∷ [], one, (inside refl, tt), omega arith, omega arith, omega arith)
    turn file_bytes reads o s s₂ s₃ lat t true true inside one (os, all, within, fewer, low, high) =
        (
          o ∷ os,
          all ∙ ap (λ l. l ++ os) one ∙ append_assoc (asked s) (o ∷ []) os,
          (inside refl, within),
          omega arith,
          omega arith,
          omega arith,
        )

    read_blocks-Read :
        (file_bytes reads rng : ℕ) (s : io.State)
        → Read file_bytes reads s (read_blocks io clock (file_bytes / k_disk_block) reads rng s)
    unfolding read_blocks
    read_blocks-Read file_bytes zero rng s = nothing_asked file_bytes 0 s
    read_blocks-Read file_bytes (suc reads) rng s =
        let blocks = file_bytes / k_disk_block in
        let rng' = xorshift64 rng in
        let (s₀, t0) = clock.now s in
        let (s₁, ok) = io.read_at s₀ (rng' % blocks * k_disk_block) in
        let (s₂, t1) = clock.now s₁ in
        let (s₃, lat) = read_blocks io clock blocks reads rng' s₂ in
        turn file_bytes reads (rng' % blocks * k_disk_block) s s₂ s₃ lat (clock.gap t1 t0)
          (ltb 0 blocks) ok (λ e. block_in file_bytes rng' (ltb→lt 0 blocks e))
          (asks.now_asked s₁
            ∙ asks.read_asked s₀ (rng' % blocks * k_disk_block)
            ∙ ap (λ l. l ++ rng' % blocks * k_disk_block ∷ []) (asks.now_asked s))
          (read_blocks-Read file_bytes reads rng' s₂)

    opened_reads :
        (file_bytes reads : ℕ) (s s' s'' : io.State) (lat : List clock.Time) (opened : Bool)
        → asked s' ≡ asked s
        → Read file_bytes reads s' (s'', lat)
        → Read file_bytes reads s (if opened then (io.close_rb s'', lat) else (s', []))
    opened_reads file_bytes reads s s' s'' lat true kept (os, all, within, fewer, low, high) =
        (os, asks.close_asked s'' ∙ all ∙ ap (λ l. l ++ os) kept, within, fewer, low, high)
    opened_reads file_bytes reads s s' s'' lat false kept read =
        ([], kept ∙ sym (append-nil (asked s)), tt, omega arith, omega arith, omega arith)

    -- Each random read asks for one whole block of the file, at a multiple of the block size, whatever the
    -- generator gives, and not past the end of the file; there are at most `reads` of them, and one latency for each,
    -- but for the read that fails and ends the loop.
    pub random_read_latencies_lem :
        (file_bytes reads rng : ℕ) (s : io.State)
        → Read file_bytes reads s (random_read_latencies io clock file_bytes reads rng s)
    unfolding random_read_latencies
    random_read_latencies_lem file_bytes reads rng s =
        let (s', opened) = io.open_rb s in
        let (s'', lat) = read_blocks io clock (file_bytes / k_disk_block) reads rng s' in
        opened_reads file_bytes reads s s' s'' lat opened (asks.open_asked s)
          (read_blocks-Read file_bytes reads rng s')

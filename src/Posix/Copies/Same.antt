-- ===== src/Posix/Copies/Same.antt =====
-- The ways to write a buffer leave the same file.
use inside_the_cpu_storage_a.Base.{
  ℕ, zero, suc, ◌+◌, ◌≤◌, ◌≡◌, inl, inr, refl, ap, sym, ◌∙◌, subst, Bool, true, false, Option, none,
  some, List, [], ◌∷◌, ◌++◌, append-nil, append_assoc, arith, length, take, take-length, ◌==◌,
}
use mathlib.Core.Option.{some-injective}
use inside_the_cpu_storage_a.Fs.{Name}
use inside_the_cpu_storage_a.Writes.{Answer, took, interrupted, failed}
use inside_the_cpu_storage_a.Writes.Sent.{Call, write_all_bytes-Sent}
use inside_the_cpu_storage_a.Posix.{Posix, View, IsFiles, IsDurable}
use inside_the_cpu_storage_a.Posix.Copies.{
  bytes_loop, byte_by_byte, byte_at_a_time, write_file, close_called, call_once, one_call, advised,
  drop_pages, close_dropped, make_cold, make_cold_file,
}

module _ {os : Posix} (v : View os) (files : IsFiles os v) (path : Name) where
  open os use {State}
  open v use {signals, holds, Open, Synced}

  -- the outcome of the loop over the bytes that are left
  abbrev Looped : ℕ → List ℕ → List ℕ → ℕ → State × ℕ → Type 0
  Looped fd b buf done r =
      (k : ℕ) × (r.1 ≡ done + k) × (k ≤ length buf) × Open r.0 fd path (b ++ take k buf)

  stopped :
      (s : State) (fd : ℕ) (b buf : List ℕ) (done : ℕ)
      → Open s fd path b
      → Looped fd b buf done (s, done)
  stopped s fd b buf done held =
      (0, omega arith, omega arith, subst (Open s fd path) (sym (append-nil b)) held)

  one_more :
      (fd : ℕ) (b : List ℕ) (c : ℕ) (buf : List ℕ) (done : ℕ) (r : State × ℕ)
      → Looped fd (b ++ c ∷ []) buf (suc done) r
      → Looped fd b (c ∷ buf) done r
  one_more fd b c buf done r (k, count, within, held) = (
    suc k,
    omega arith,
    omega arith,
    subst (Open r.0 fd path) (append_assoc b (c ∷ []) (take k buf)) held,
  )

  turn :
      (s : State) (fd : ℕ) (b : List ℕ) (c : ℕ) (buf : List ℕ) (done : ℕ) (answer : Answer)
      (before : State)
      → Call (λ t d. Open t fd path d) signals before b (c ∷ []) (s, answer)
      → (Open s fd path (b ++ c ∷ [])
          → Looped fd (b ++ c ∷ []) buf (suc done) (bytes_loop os s fd buf (suc done)))
      → Looped fd b (c ∷ buf) done (elim answer [
        | took n ↦ elim (n == 1) [ true ↦ bytes_loop os s fd buf (suc done) | false ↦ (s, done) ]
        | interrupted ↦ (s, done)
        | failed ↦ (s, done)
      ])
  turn s fd b c buf done (took zero) before (some_in, within, held, fewer) rec = elim some_in [ ]
  turn s fd b c buf done (took (suc zero)) before (some_in, within, held, fewer) rec =
      one_more fd b c buf done _ (rec held)
  turn s fd b c buf done (took (suc (suc n))) before (some_in, within, held, fewer) rec =
      let absurd : ⊥ = omega arith in elim absurd [ ]
  turn s fd b c buf done interrupted before (held, fewer) rec = stopped s fd b (c ∷ buf) done held
  turn s fd b c buf done failed before (held, fewer) rec = stopped s fd b (c ∷ buf) done held

  bytes_loop-Looped :
      (s : State) (fd : ℕ) (b buf : List ℕ) (done : ℕ)
      → Open s fd path b
      → Looped fd b buf done (bytes_loop os s fd buf done)
  unfolding bytes_loop
  bytes_loop-Looped s fd b [] done held = stopped s fd b [] done held
  bytes_loop-Looped s fd b (c ∷ buf) done held =
      let (s', answer) = os.write s fd (c ∷ []) in
      turn s' fd b c buf done answer s (files.write_call s fd path b (c ∷ []) (omega arith) held)
        (λ more. bytes_loop-Looped s' fd (b ++ c ∷ []) buf (suc done) more)

  opened :
      (s : State) (fd : Option ℕ) (buf : List ℕ) (done : ℕ)
      → ((n : ℕ) → fd ≡ some n → Open s n path [])
      → (byte_by_byte os s buf fd).1 ≡ some done
      → (done ≤ length buf) × (holds (byte_by_byte os s buf fd).0 path ≡ some (take done buf))
  opened s none buf done held e = let absurd : ⊥ = cc in elim absurd [ ]
  opened s (some n) buf done held e =
      let (k, count, within, end) = bytes_loop-Looped s n [] buf 0 (held n refl) in
      let same : k ≡ done = omega (arith, count, some-injective _ _ e) in
      (
        omega (arith, same),
        files.close_holds (bytes_loop os s n buf 0).0 n path (take k buf) end
            ∙ ap (λ j. some (take j buf)) same,
      )

  -- A byte at a time: the file holds as many bytes of the buffer as the calls took, and the count says how many.
  pub byte_at_a_time_lem :
      (s : State) (buf : List ℕ) (done : ℕ)
      → (byte_at_a_time os s path buf).1 ≡ some done
      → (done ≤ length buf) × (holds (byte_at_a_time os s path buf).0 path ≡ some (take done buf))
  unfolding byte_at_a_time
  byte_at_a_time_lem s buf done e =
      opened (os.create s path).0 (os.create s path).1 buf done (λ n. files.create_open s path n) e

  -- the outcome of a program that writes the whole buffer
  abbrev pub Outcome : {A : Type 0} → (State → A → Type 0) → Option (State × A) → Type 0
  Outcome {A} Q o = (s' : State) × (r : A) × (o ≡ some (s', r)) × Q s' r

  -- the file when `write_all` has ended
  abbrev pub Filled : ℕ → List ℕ → State → Bool → Type 0
  Filled fd buf s ok = (b : List ℕ) × Open s fd path b × (ok ≡ true → b ≡ buf)

  pub write_file-Filled :
      (fuel : ℕ) (s : State) (fd : ℕ) (buf : List ℕ)
      → Open s fd path []
      → length buf + signals s ≤ fuel
      → Outcome (Filled fd buf) (write_file os fuel s fd buf)
  write_file-Filled fuel s fd buf held h =
      let (s', sent, rest, split, held', fewer, end) =
        write_all_bytes-Sent (λ t b. Open t fd path b) signals (λ t p. os.write t fd p)
          (λ t b q k ready. files.write_call t fd path b q k ready) fuel s [] buf held h in
      elim end [
        | inl (run, all) ↦ (
          s',
          true,
          run,
          (sent, held', λ e. sym (split ∙ ap (λ t. sent ++ t) all ∙ append-nil sent)),
        )
        | inr run ↦ (s', false, run, (sent, held', λ e. let absurd : ⊥ = cc in elim absurd [ ]))
      ]

  abbrev pub WholeIf : List ℕ → State → Option Bool → Type 0
  WholeIf buf s r = r ≡ some true → holds s path ≡ some buf

  close_called-Outcome :
      (fd : ℕ) (buf : List ℕ) (o : Option (State × Bool))
      → Outcome (Filled fd buf) o
      → Outcome (WholeIf buf) (close_called os fd o)
  close_called-Outcome fd buf o (s, ok, e, (b, held, same)) = (
    os.close s fd,
    some ok,
    ap (close_called os fd) e,
    λ whole. files.close_holds s fd path b held ∙ ap some (same (some-injective _ _ whole)),
  )

  call_once-Outcome :
      (fuel : ℕ) (s : State) (buf : List ℕ) (fd : Option ℕ)
      → ((n : ℕ) → fd ≡ some n → Open s n path [])
      → length buf + signals s ≤ fuel
      → Outcome (WholeIf buf) (call_once os fuel s buf fd)
  call_once-Outcome fuel s buf none held h =
      (s, none, refl, λ e. let absurd : ⊥ = cc in elim absurd [ ])
  call_once-Outcome fuel s buf (some n) held h =
      close_called-Outcome n buf (write_file os fuel s n buf)
        (write_file-Filled fuel s n buf (held n refl) h)

  -- One call: with fuel for every byte and every signal the program ends, and when `write_all` returns 1 the file
  -- holds the buffer.
  one_call_lem :
      (fuel : ℕ) (s : State) (buf : List ℕ)
      → length buf + signals s ≤ fuel
      → Outcome (WholeIf buf) (one_call os fuel s path buf)
  unfolding one_call
  one_call_lem fuel s buf h =
      call_once-Outcome fuel (os.create s path).0 buf (os.create s path).1
        (λ n. files.create_open s path n) (omega (arith, files.create_signals s path))

  -- A byte for each call and one call leave the same file, in whatever states they start: when the first has
  -- counted every byte of the buffer, the second, with fuel for every byte and every signal, ends, and if
  -- `write_all` returns 1 both files are the buffer.
  pub one_call-byte_at_a_time :
      (fuel : ℕ) (s t : State) (buf : List ℕ)
      → (byte_at_a_time os s path buf).1 ≡ some (length buf)
      → length buf + signals t ≤ fuel
      → Outcome
          (λ t' r.
            r ≡ some true
            → (holds t' path ≡ some buf)
              × (holds (byte_at_a_time os s path buf).0 path ≡ holds t' path))
          (one_call os fuel t path buf)
  one_call-byte_at_a_time fuel s t buf e h =
      let (t', r, run, whole) = one_call_lem fuel t buf h in
      let all = (byte_at_a_time_lem s buf (length buf) e).1 ∙ ap some (take-length buf) in
      (t', r, run, λ ok. (whole ok, all ∙ sym (whole ok)))

  module _ (durable : IsDurable os v) where
    abbrev pub SyncedIf : List ℕ → State → Bool → Type 0
    SyncedIf d s ok = ok ≡ true → Synced s path d

    advised-SyncedIf :
        (fd : ℕ) (d : List ℕ) (r : State × Bool)
        → SyncedIf d r.0 r.1
        → SyncedIf d (advised os fd r).0 (advised os fd r).1
    advised-SyncedIf fd d (s, false) h e = let absurd : ⊥ = cc in elim absurd [ ]
    advised-SyncedIf fd d (s, true) h e = durable.dont_need_synced s fd path d (h refl)

    drop_pages-SyncedIf :
        (fd : ℕ) (d : List ℕ) (s : State) (wrote : Bool)
        → Filled fd d s wrote
        → SyncedIf d (drop_pages os fd s wrote).0 (drop_pages os fd s wrote).1
    drop_pages-SyncedIf fd d s false filled = λ e. let absurd : ⊥ = cc in elim absurd [ ]
    drop_pages-SyncedIf fd d s true (b, held, same) =
        advised-SyncedIf fd d (os.fsync s fd)
          (durable.fsync_synced s fd path d (subst (Open s fd path) (same refl) held))

    close_dropped-Outcome :
        (fd : ℕ) (d : List ℕ) (o : Option (State × Bool))
        → Outcome (Filled fd d) o
        → Outcome (SyncedIf d) (close_dropped os fd o)
    close_dropped-Outcome fd d o (s, wrote, e, filled) = (
      os.close (drop_pages os fd s wrote).0 fd,
      (drop_pages os fd s wrote).1,
      ap (close_dropped os fd) e,
      λ ok.
          durable.close_synced (drop_pages os fd s wrote).0 fd path d
            (drop_pages-SyncedIf fd d s wrote filled ok),
    )

    make_cold-Outcome :
        (fuel : ℕ) (s : State) (d : List ℕ) (fd : Option ℕ)
        → ((n : ℕ) → fd ≡ some n → Open s n path [])
        → length d + signals s ≤ fuel
        → Outcome (SyncedIf d) (make_cold os fuel s d fd)
    make_cold-Outcome fuel s d none held h =
        (s, false, refl, λ e. let absurd : ⊥ = cc in elim absurd [ ])
    make_cold-Outcome fuel s d (some n) held h =
        close_dropped-Outcome n d (write_file os fuel s n d)
          (write_file-Filled fuel s n d (held n refl) h)

    -- `make_cold_file` with fuel for every byte and every signal ends; if it returns 1, the file has the bytes and they
    -- are on the device.
    pub make_cold_file_lem :
        (fuel : ℕ) (s : State) (d : List ℕ)
        → length d + signals s ≤ fuel
        → Outcome (λ s' ok. ok ≡ true → Synced s' path d) (make_cold_file os fuel s path d)
    unfolding make_cold_file
    make_cold_file_lem fuel s d h =
        make_cold-Outcome fuel (os.create s path).0 d (os.create s path).1
          (λ n. files.create_open s path n) (omega (arith, files.create_signals s path))

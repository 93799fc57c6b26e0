-- ===== src/Posix/Mapped/Sums.antt =====
-- The sum through the mapping is the sum of the bytes that were written.
use inside_the_cpu_storage_a.Base.{
  ◌∷◌, zero, suc, ◌*◌, ◌%◌, ◌^◌, ◌<◌, get_or, ℕ, ◌+◌, ◌≤◌, ◌≡◌, ◌⊎◌, inl, inr, refl, ap, ◌∙◌, Bool,
  true, false, Option, none, some, List, [], arith, length, ◌==◌, ==_iff, if◌then◌else◌,
}
use inside_the_cpu_storage_a.Fs.{Name}
use inside_the_cpu_storage_a.Posix.{Posix, View, IsFiles}
use inside_the_cpu_storage_a.Posix.Copies.Same.{write_file-Filled}
use inside_the_cpu_storage_a.Posix.Mapped.{
  every_page, expected_sum, Mapper, Mapping, summed, map_written, close_written, write_mapped,
  with_memory, mmap_cache,
}

-- `n` bytes at the distance of a page, from place `i` on
abbrev pub at_pages : List ℕ → ℕ → ℕ → ℕ
at_pages bytes i zero = 0
at_pages bytes i (suc n) = get_or bytes i 0 + at_pages bytes (i + 4096) n

-- the first byte of each page, added up on 64 bits
abbrev pub page_total : List ℕ → ℕ
page_total bytes = at_pages bytes 0 (length bytes) % 2 ^ 64

none_at_pages : (i n : ℕ) → at_pages [] i n ≡ 0
none_at_pages i zero = refl
none_at_pages i (suc n) = omega (arith, none_at_pages (i + 4096) n)

at_pages-suc :
    (c : ℕ) (bytes : List ℕ) (i n : ℕ) → at_pages (c ∷ bytes) (suc i) n ≡ at_pages bytes i n
at_pages-suc c bytes i zero = refl
at_pages-suc c bytes i (suc n) =
    let next : suc i + 4096 ≡ suc (i + 4096) = omega arith in
    ap (λ k. get_or bytes i 0 + k)
      (ap (λ j. at_pages (c ∷ bytes) j n) next ∙ at_pages-suc c bytes (i + 4096) n)

every_page_lem :
    (bytes : List ℕ) (away sum n : ℕ)
    → sum < 2 ^ 64
    → length bytes ≤ away + n * 4096
    → every_page away sum bytes ≡ (sum + at_pages bytes away n) % 2 ^ 64
every_page_lem [] away sum n small h = omega (arith, none_at_pages away n)
every_page_lem (c ∷ bytes) zero sum zero small h = let absurd : ⊥ = omega arith in elim absurd [ ]
every_page_lem (c ∷ bytes) zero sum (suc n) small h =
    let rest = every_page_lem bytes 4095 ((sum + c) % 2 ^ 64) n (omega arith) (omega arith) in
    let pages : at_pages (c ∷ bytes) 4096 n ≡ at_pages bytes 4095 n = at_pages-suc c bytes 4095 n in
    omega (arith, rest, pages)
every_page_lem (c ∷ bytes) (suc away) sum n small h =
    let rest = every_page_lem bytes away sum n small (omega arith) in
    omega (arith, rest, at_pages-suc c bytes away n)

expected_sum-page_total : (bytes : List ℕ) → expected_sum bytes ≡ page_total bytes
unfolding expected_sum
expected_sum-page_total bytes =
    omega (arith, every_page_lem bytes 0 0 (length bytes) (omega arith) (omega arith))

module _ {os : Posix} (v : View os) (files : IsFiles os v) (mapper : Mapper os) where
  open os use {State}
  open v use {signals, holds, Open}

  -- malloc(3) waits for no signal, and free(3) keeps the files.
  -- A mapping of the file of a path that was opened shows its bytes, and there is none of a file that was not.
  pub record Maps : Type 0 where
    pub malloc_signals : (s : State) → signals (mapper.malloc s).0 ≤ signals s
    pub free_holds :
        (s : State) (p : Name) (b : List ℕ) → holds s p ≡ some b → holds (mapper.free s) p ≡ some b
    pub mmap_none : (s : State) (n : ℕ) → (mapper.mmap s none n).1 ≡ none
    pub mmap_bytes :
        (s : State) (p : Name) (fd : ℕ) (b m : List ℕ)
        → holds s p ≡ some b
        → (os.open_read s p).1 ≡ some fd
        → (mapper.mmap (os.open_read s p).0 (some fd) (length b)).1 ≡ some m
        → m ≡ b

  module _ (maps : Maps) (path : Name) where
    -- the main function gives 0, and a sum that it prints is the one expected
    abbrev pub Matches : List ℕ → Mapping os mapper path → Type 0
    Matches bytes (s, sum, status) = (status ≡ 0) × ((sum ≡ none) ⊎ (sum ≡ some (page_total bytes)))

    zero_if : (b : Bool) → b ≡ true → ◌≡◌ {A = ℕ} (if b then 0 else 1) 0
    zero_if true e = refl
    zero_if false e = let absurd : ⊥ = cc in elim absurd [ ]

    summed-Matches :
        (bytes : List ℕ) (fd : Option ℕ) (r : State × Option (List ℕ))
        → ((m : List ℕ) → r.1 ≡ some m → m ≡ bytes)
        → Matches bytes (summed os mapper path (expected_sum bytes) fd r)
    summed-Matches bytes fd (s, none) shown = (refl, inl refl)
    summed-Matches bytes fd (s, some m) shown =
        let same : expected_sum m ≡ expected_sum bytes = ap expected_sum (shown m refl) in
        (
          zero_if (expected_sum m == expected_sum bytes) ((==_iff _ _).1 same),
          inr (ap some (same ∙ expected_sum-page_total bytes)),
        )

    shown_bytes :
        (s : State) (bytes : List ℕ) (fd : Option ℕ)
        → holds s path ≡ some bytes
        → (os.open_read s path).1 ≡ fd
        → (m : List ℕ) → (mapper.mmap (os.open_read s path).0 fd (length bytes)).1 ≡ some m
        → m ≡ bytes
    shown_bytes s bytes none held e m shown =
        let none_mapped = maps.mmap_none (os.open_read s path).0 (length bytes) in
        let absurd : ⊥ = cc in elim absurd [ ]
    shown_bytes s bytes (some fd) held e m shown = maps.mmap_bytes s path fd bytes m held e shown

    map_written-Matches :
        (bytes : List ℕ) (s : State) (ok : Bool)
        → (ok ≡ true → holds s path ≡ some bytes)
        → Matches bytes (map_written os mapper path bytes (s, ok))
    map_written-Matches bytes s false held = (refl, inl refl)
    map_written-Matches bytes s true held =
        summed-Matches bytes (os.open_read s path).1 _
          (shown_bytes s bytes (os.open_read s path).1 (held refl) refl)

    abbrev pub Ends : List ℕ → Option (Mapping os mapper path) → Type 0
    Ends bytes o = (r : Mapping os mapper path) × (o ≡ some r) × Matches bytes r

    write_mapped-Ends :
        (fuel : ℕ) (bytes : List ℕ) (s : State) (fd : Option ℕ)
        → ((n : ℕ) → fd ≡ some n → Open s n path [])
        → length bytes + signals s ≤ fuel
        → Ends bytes (write_mapped os mapper path fuel bytes s fd)
    write_mapped-Ends fuel bytes s none held h = (_, refl, (refl, inl refl))
    write_mapped-Ends fuel bytes s (some fd) held h =
        let (s', ok, e, (b, open_still, same)) =
          write_file-Filled v files path fuel s fd bytes (held fd refl) h in
        (
          map_written os mapper path bytes (mapper.free (os.close s' fd), ok),
          ap (close_written os mapper path fd bytes) e,
          map_written-Matches bytes (mapper.free (os.close s' fd)) ok (λ wrote.
              maps.free_holds (os.close s' fd) path bytes
                (files.close_holds s' fd path b open_still ∙ ap some (same wrote))),
        )

    -- the memory was refused, and the main function gives 1 with no sum, or it ends as it should
    abbrev pub Answers : List ℕ → Bool → Option (Mapping os mapper path) → Type 0
    Answers bytes memory o =
        (r : Mapping os mapper path) × (o ≡ some r)
        × (((memory ≡ false) × (r.1 ≡ none) × (r.2 ≡ 1)) ⊎ ((memory ≡ true) × Matches bytes r))

    with_memory-Answers :
        (fuel : ℕ) (bytes : List ℕ) (r : State × Bool)
        → length bytes + signals r.0 ≤ fuel
        → Answers bytes r.1 (with_memory os mapper path fuel bytes r)
    with_memory-Answers fuel bytes (s, false) h = ((s, none, 1), refl, inl (refl, refl, refl))
    with_memory-Answers fuel bytes (s, true) h =
        let (r, e, good) =
          write_mapped-Ends fuel bytes (os.create s path).0 (os.create s path).1
            (λ n. files.create_open s path n) (omega (arith, files.create_signals s path)) in
        (r, e, inr (refl, good))

    -- With fuel for every byte and every signal, the main function ends, whatever calls are refused. If `malloc` gives
    -- no memory, it gives 1 and prints no sum; otherwise it gives 0, and where it prints the sum through the
    -- mapping, that is the sum of the first byte of each page of the bytes that it wrote, on 64 bits: it
    -- never finds a mismatch.
    pub mmap_cache_lem :
        (fuel : ℕ) (bytes : List ℕ) (s : State)
        → length bytes + signals s ≤ fuel
        → Answers bytes (mapper.malloc s).1 (mmap_cache os mapper path fuel bytes s)
    unfolding mmap_cache
    mmap_cache_lem fuel bytes s h =
        with_memory-Answers fuel bytes (mapper.malloc s) (omega (arith, maps.malloc_signals s))

-- ===== src/Direct/Held.antt =====
-- The descriptors that are open and the buffers that are allocated, through the operating system's calls.
use inside_the_cpu_storage_a.Base.{
  ℕ, suc, ◌+◌, ◌<◌, ◌≡◌, refl, ap, ◌∙◌, Bool, true, false, Option, none, some, List, [], ◌∷◌, arith,
  ◌==◌, ==_iff, if◌then◌else◌,
}
use inside_the_cpu_storage_a.Fs.{Name}
use inside_the_cpu_storage_a.Direct.{DirectOs}

abbrev pub one_if : ℕ → ℕ → ℕ
one_if f j = if f == j then 1 else 0

one_if_self : (f : ℕ) → one_if f f ≡ 1
one_if_self f = ap (λ b. if b then 1 else 0) ((==_iff f f).1 refl)

-- how often a descriptor is in a list
abbrev pub times : List ℕ → ℕ → ℕ
times [] j = 0
times (f ∷ fds) j = one_if f j + times fds j

abbrev pub with_fd : Option ℕ → List ℕ → List ℕ
with_fd none fds = fds
with_fd (some f) fds = f ∷ fds

module _ (os : DirectOs) (held : os.State → ℕ → ℕ) (live : os.State → ℕ) where
  open os use {State, open_tmp, memalign, free, pwrite, pread, fsync, close, unlink}

  abbrev pub Same : State → State → Type 0
  Same s s' = ((j : ℕ) → held s' j ≡ held s j) × (live s' ≡ live s)

  abbrev pub Opened : State → Option ℕ → State → Type 0
  Opened s none s' = Same s s'
  Opened s (some f) s' = ((j : ℕ) → held s' j ≡ one_if f j + held s j) × (live s' ≡ live s)

  -- The calls by the descriptors that are open, `held`, and the buffers that are allocated, `live`: only `open`
  -- and `close` change the first, `posix_memalign` and `free` the second.
  pub record Counts : Type 0 where
    pub open_counts :
        (s : State) (p : Name) (d : Bool) → Opened s (open_tmp s p d).1 (open_tmp s p d).0
    pub open_read_counts :
        (s : State) (p : Name) (d : Bool) → Opened s (os.open_read s p d).1 (os.open_read s p d).0
    pub malloc_held : (s : State) (j : ℕ) → held (os.malloc s).0 j ≡ held s j
    pub malloc_live :
        (s : State) → live (os.malloc s).0 ≡ (if (os.malloc s).1 then suc (live s) else live s)
    pub close_counts :
        (s : State) (f : ℕ)
        → 0 < held s f
        → ((j : ℕ) → one_if f j + held (close s f) j ≡ held s j) × (live (close s f) ≡ live s)
    pub memalign_held : (s : State) (j : ℕ) → held (memalign s).0 j ≡ held s j
    pub memalign_live :
        (s : State) → live (memalign s).0 ≡ (if (memalign s).1 then suc (live s) else live s)
    pub free_held : (s : State) (j : ℕ) → held (free s) j ≡ held s j
    pub free_live : (s : State) → 0 < live s → suc (live (free s)) ≡ live s
    pub pwrite_same : (s : State) (f o : ℕ) → Same s (pwrite s f o).0
    pub pread_same : (s : State) (f o : ℕ) → Same s (pread s f o).0
    pub fsync_same : (s : State) (f : ℕ) → Same s (fsync s f).0
    pub unlink_same : (s : State) (p : Name) → Same s (unlink s p)

  module _ (counts : Counts) (base : State) where
    -- the descriptors and the number of buffers that the program has, on top of those at the start
    abbrev pub Holding : List ℕ → ℕ → State → Type 0
    Holding fds n s = ((j : ℕ) → held s j ≡ times fds j + held base j) × (live s ≡ n + live base)

    pub Same-Holding :
        (fds : List ℕ) (n : ℕ) (s s' : State) → Same s s' → Holding fds n s → Holding fds n s'
    Same-Holding fds n s s' (same, level) (all, buffers) = ((λ j. same j ∙ all j), level ∙ buffers)

    pub Opened-Holding :
        (fds : List ℕ) (n : ℕ) (s s' : State) (fd : Option ℕ)
        → Opened s fd s'
        → Holding fds n s
        → Holding (with_fd fd fds) n s'
    Opened-Holding fds n s s' none same h = Same-Holding fds n s s' same h
    Opened-Holding fds n s s' (some f) (more, level) (all, buffers) =
        ((λ j. omega (arith, more j, all j)), level ∙ buffers)

    pub closed-Holding :
        (fds : List ℕ) (n f : ℕ) (s : State) → Holding (f ∷ fds) n s → Holding fds n (close s f)
    closed-Holding fds n f s (all, buffers) =
        let (fewer, level) = counts.close_counts s f (omega (arith, all f, one_if_self f)) in
        ((λ j. omega (arith, fewer j, all j)), level ∙ buffers)

    pub swap-Holding :
        (f g : ℕ) (fds : List ℕ) (n : ℕ) (s : State)
        → Holding (f ∷ g ∷ fds) n s
        → Holding (g ∷ f ∷ fds) n s
    swap-Holding f g fds n s (all, buffers) = ((λ j. omega (arith, all j)), buffers)

    pub allocated-Holding :
        (fds : List ℕ) (n : ℕ) (s : State)
        → Holding fds n s
        → Holding fds (if (memalign s).1 then suc n else n) (memalign s).0
    allocated-Holding fds n s (all, buffers) = (
      (λ j. counts.memalign_held s j ∙ all j),
      counts.memalign_live s ∙ one_more (memalign s).1 n (live s) (live base) buffers,
    )
      where
        one_more :
            (b : Bool) (m l k : ℕ)
            → l ≡ m + k
            → (if b then suc l else l) ≡ (if b then suc m else m) + k
        one_more true m l k h = omega arith
        one_more false m l k h = h

    pub freed-Holding :
        (fds : List ℕ) (n : ℕ) (s : State) → Holding fds (suc n) s → Holding fds n (free s)
    freed-Holding fds n s (all, buffers) =
        ((λ j. counts.free_held s j ∙ all j), omega (arith, counts.free_live s (omega arith)))

    pub written-Holding :
        (fds : List ℕ) (n f o : ℕ) (s : State) → Holding fds n s → Holding fds n (pwrite s f o).0
    written-Holding fds n f o s h =
        Same-Holding fds n s (pwrite s f o).0 (counts.pwrite_same s f o) h

    pub read-Holding :
        (fds : List ℕ) (n f o : ℕ) (s : State) → Holding fds n s → Holding fds n (pread s f o).0
    read-Holding fds n f o s h = Same-Holding fds n s (pread s f o).0 (counts.pread_same s f o) h

    pub at_start : Holding [] 0 base
    at_start = ((λ j. omega arith), omega arith)

    pub released : (s : State) → Holding [] 0 s → Same base s
    released s (all, buffers) = ((λ j. omega (arith, all j)), omega (arith, buffers))

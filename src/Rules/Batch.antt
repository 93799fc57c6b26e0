-- ===== src/Rules/Batch.antt =====
-- What the benchmarks of small writes and of one write leave in the file.
use inside_the_cpu_storage_a.Base.{
  ℕ, zero, suc, ◌+◌, ◌*◌, ◌/◌, ◌≡◌, refl, ap, sym, ◌∙◌, subst, Bool, true, false, ◌&&◌, List, [],
  ◌∷◌, ◌++◌, append-nil, append_assoc, arith, length, length-drop, length-append, take, drop,
  take-length, ◌==◌, ==_iff, if◌then◌else◌,
}
use inside_the_cpu_storage_a.Writes.Sent.{take-drop}
use inside_the_cpu_storage_a.Rules.{
  Stdio, Clock, Ctx, k_data, k_record, write_flush, records, tiny_writes, batch_write, bench_ns,
  write_twice,
}
use inside_the_cpu_storage_a.Rules.Bench.{bench_ns_lem}

-- the bytes `n` times over
abbrev pub copies : ℕ → List ℕ → List ℕ
copies zero p = []
copies (suc n) p = copies n p ++ p

pub length-copies : (n : ℕ) (p : List ℕ) → length (copies n p) ≡ n * length p
length-copies zero p = omega arith
length-copies (suc n) p = grind (arith, length-append (copies n p) p, length-copies n p)

copies-copies : (m n : ℕ) (p : List ℕ) → copies m p ++ copies n p ≡ copies (n + m) p
copies-copies m zero p =
    let same : m ≡ 0 + m = omega arith in append-nil (copies m p) ∙ ap (λ i. copies i p) same
copies-copies m (suc n) p =
    let next : suc (n + m) ≡ suc n + m = omega arith in
    sym (append_assoc (copies m p) (copies n p) p)
    ∙ ap (λ t. t ++ p) (copies-copies m n p)
    ∙ ap (λ i. copies i p) next

both_true : (a b : Bool) → (a && b) ≡ true → (a ≡ true) × (b ≡ true)
both_true true b e = (refl, e)
both_true false b e = let absurd : ⊥ = cc in elim absurd [ ]

module _ (io : Stdio) (sent : io.State → List ℕ) where
  -- The stream's calls by the bytes that the program has given: `fwrite` takes the first of them, as many as it
  -- says, and `fflush` adds none.
  pub record Appends : Type 0 where
    pub fwrite_sent :
        (s : io.State) (p : List ℕ) → sent (io.fwrite s p).0 ≡ sent s ++ take (io.fwrite s p).1 p
    pub fflush_sent : (s : io.State) → sent (io.fflush s).0 ≡ sent s

  -- if `written` is 1 at the end, it was before, and the bytes are added
  abbrev Wrote : List ℕ → Ctx io → Ctx io → Type 0
  Wrote p c c' = c'.1 ≡ true → (c.1 ≡ true) × (sent c'.0 ≡ sent c.0 ++ p)

  Wrote_trans : (p q : List ℕ) (a b c : Ctx io) → Wrote p a b → Wrote q b c → Wrote (p ++ q) a c
  Wrote_trans p q a b c first second e =
      let (mid, later) = second e in
      let (start, sooner) = first mid in
      (start, later ∙ ap (λ t. t ++ q) sooner ∙ append_assoc (sent a.0) p q)

  module _ (appends : Appends) where
    taken :
        (s s' s'' : io.State) (written flushed : Bool) (n : ℕ) (p : List ℕ) (whole : Bool)
        → (n == length p) ≡ whole
        → sent s' ≡ sent s ++ take n p
        → sent s'' ≡ sent s'
        → Wrote p (s, written) (if whole then (s'', written && flushed) else (s', false))
    taken s s' s'' written flushed n p true all added kept e = (
      (both_true written flushed e).0,
      kept
          ∙ added
          ∙ ap (λ t. sent s ++ t)
              (ap (λ i. take i p) ((==_iff n (length p)).0 all) ∙ take-length p),
    )
    taken s s' s'' written flushed n p false all added kept e =
        let absurd : ⊥ = cc in elim absurd [ ]

    write_flush-Wrote : (c : Ctx io) (p : List ℕ) → Wrote p c (write_flush io c p)
    write_flush-Wrote (s, written) p =
        let (s', n) = io.fwrite s p in
        taken s s' (io.fflush s').0 written (io.fflush s').1 n p (n == length p) refl
          (appends.fwrite_sent s p) (appends.fflush_sent s')

    records-Wrote :
        (n : ℕ) (p : List ℕ) (c : Ctx io) → length p ≡ n * k_record → Wrote p c (records io n p c)
    records-Wrote zero [] c h = λ e. (e, sym (append-nil (sent c.0)))
    records-Wrote zero (x ∷ p) c h = let absurd : ⊥ = omega arith in elim absurd [ ]
    records-Wrote (suc n) p c h =
        let c' = write_flush io c (take k_record p) in
        subst (λ q. Wrote q c (records io n (drop k_record p) c')) (take-drop k_record p)
          (Wrote_trans (take k_record p) (drop k_record p) c c' (records io n (drop k_record p) c')
            (write_flush-Wrote c (take k_record p))
            (records-Wrote n (drop k_record p) c'
              (length-drop k_record p (n * k_record) (omega arith))))

    pub tiny_writes-Wrote :
        (p : List ℕ) (c : Ctx io) → length p ≡ k_data → Wrote p c (tiny_writes io p c)
    unfolding tiny_writes
    tiny_writes-Wrote p c h = records-Wrote (k_data / k_record) p c (h ∙ refl)

    pub batch_write-Wrote : (p : List ℕ) (c : Ctx io) → Wrote p c (batch_write io p c)
    unfolding batch_write
    batch_write-Wrote p c = write_flush-Wrote c p

    benched :
        (clock : Clock (Ctx io))
        → ((ts : List clock.Time) → length (clock.sort ts) ≡ length ts)
        → ((c : Ctx io) → Wrote [] c (clock.now c).0)
        → (p : List ℕ) (f : Ctx io → Ctx io) (c : Ctx io) → ((b : Ctx io) → Wrote p b (f b))
        → Wrote (copies 24 p) c (bench_ns clock f 3 21 c).0
    benched clock sorted quiet p f c adds =
        (bench_ns_lem clock (λ n b. Wrote (copies n p) c b) f 3 21 c sorted
          (λ n b h. Wrote_trans (copies n p) p c b (f b) h (adds b))
          (λ n b h.
            subst (λ q. Wrote q c (clock.now b).0) (append-nil (copies n p))
              (Wrote_trans (copies n p) [] c b (clock.now b).0 h (quiet b)))
          (λ e. (e, sym (append-nil (sent c.0))))).0

    -- Whatever calls of the stream fall short, if `written` is 1 after the two benchmarks, the stream has got the
    -- 256 KiB of the data 48 times over and nothing else: as many bytes as the main function expects. The
    -- clock must keep what the stream has got.
    pub write_twice_lem :
        (clock : Clock (Ctx io))
        → ((ts : List clock.Time) → length (clock.sort ts) ≡ length ts)
        → ((c : Ctx io) → Wrote [] c (clock.now c).0)
        → (p : List ℕ) (c : Ctx io) → length p ≡ k_data
        → (write_twice io clock p c).1 ≡ true
        → (c.1 ≡ true)
          × (sent (write_twice io clock p c).0 ≡ sent c.0 ++ copies 48 p)
          × (length (sent (write_twice io clock p c).0) ≡ length (sent c.0) + 2 * 24 * 262144)
    unfolding write_twice
    write_twice_lem clock sorted quiet p c h e =
        let c' = (bench_ns clock (tiny_writes io p) 3 21 c).0 in
        let c'' = (bench_ns clock (batch_write io p) 3 21 c').0 in
        let tiny =
          benched clock sorted quiet p (tiny_writes io p) c (λ b. tiny_writes-Wrote p b h) in
        let batch = benched clock sorted quiet p (batch_write io p) c' (batch_write-Wrote p) in
        let (start, all) = Wrote_trans (copies 24 p) (copies 24 p) c c' c'' tiny batch e in
        let bytes = all ∙ ap (λ t. sent c.0 ++ t) (copies-copies 24 24 p) in
        (
          start,
          bytes,
          ap length bytes
              ∙ length-append (sent c.0) (copies 48 p)
              ∙ ap (λ n. length (sent c.0) + n) (length-copies 48 p ∙ ap (λ n. 48 * n) h),
        )

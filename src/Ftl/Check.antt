-- ===== src/Ftl/Check.antt =====
-- `consistent` of 07_ftl_model.c decides what its comment says.
use inside_the_cpu_storage_a.Base.{
  ℕ, zero, suc, ◌+◌, ◌/◌, ◌%◌, ◌<◌, ◌≡◌, refl, ap, sym, subst, subst₂, ◌∙◌, ◌↔◌, Bool, true, false,
  Option, none, some, List, [], ◌∷◌, arith, length, get_or, total, ◌==◌, ◌>>=◌, ◌&&◌, if◌then◌else◌,
  ==_iff,
}
use inside_the_cpu_storage_a.Ftl.{Page, free, valid, stale, Ftl, pages, is_valid, valid_pages}
use inside_the_cpu_storage_a.Ftl.Loops.{mapped_from, consistent}
use inside_the_cpu_storage_a.Ftl.Inv.{Inv, state_at, lba_at, map_at, mapped_one}

-- Page `q` is valid and carries `l`.
abbrev pub Carries : Ftl → ℕ → ℕ → Type 0
Carries f l q =
    (state_at f (q / pages) (q % pages) ≡ valid) × (lba_at f (q / pages) (q % pages) ≡ l)

-- Every LBA of the list, which starts at number `l`, points at a page that carries it.
abbrev Pointing : Ftl → ℕ → List (Option ℕ) → Type 0
Pointing f l [] = Unit {0}
Pointing f l (none ∷ ms) = Pointing f (suc l) ms
Pointing f l (some q ∷ ms) = Carries f l q × Pointing f (suc l) ms

abbrev carries : Ftl → ℕ → ℕ → Bool
carries f l q =
    is_valid (state_at f (q / pages) (q % pages)) && lba_at f (q / pages) (q % pages) == l

is_valid_iff : (s : Page) → (is_valid s ≡ true) ↔ (s ≡ valid)
is_valid_iff free = (λ e. cc, λ e. cc)
is_valid_iff valid = (λ e. refl, λ e. refl)
is_valid_iff stale = (λ e. cc, λ e. cc)

carries_iff : (f : Ftl) (l q : ℕ) → (carries f l q ≡ true) ↔ Carries f l q
carries_iff f l q =
    let s : Page = state_at f (q / pages) (q % pages) in
    let n : ℕ = lba_at f (q / pages) (q % pages) in
    (
      λ e. ground (arith, is_valid_iff s, ==_iff n l),
      λ c. ground (arith, is_valid_iff s, ==_iff n l),
    )

-- A round that does not return false.
went_on :
    (good : Bool) (o : Option ℕ) (n : ℕ)
    → (o >>= (λ k. if good then some (suc k) else none)) ≡ some n
    → (good ≡ true) × ((k : ℕ) × (o ≡ some k))
went_on true none n e = cc
went_on true (some k) n e = (refl, (k, refl))
went_on false none n e = cc
went_on false (some k) n e = cc

-- The loop succeeds exactly if they do, and then counts the mapped LBAs.
mapped_from_lem :
    (f : Ftl) (l : ℕ) (ms : List (Option ℕ))
    → (Pointing f l ms → mapped_from f l ms ≡ some (total mapped_one ms))
      × ((n : ℕ) → mapped_from f l ms ≡ some n → Pointing f l ms)
unfolding mapped_from
mapped_from_lem f l [] = (λ _. refl, λ n e. tt)
mapped_from_lem f l (none ∷ ms) =
    let (forth, back) = mapped_from_lem f (suc l) ms in (λ p. forth p ∙ ap some (omega arith), back)
mapped_from_lem f l (some q ∷ ms) =
    let (forth, back) = mapped_from_lem f (suc l) ms in
    (
      λ p. rw (forth p.1) (rw ((carries_iff f l q).1 p.0) (ap some (omega arith))),
      λ n e.
          let (good, (k, e')) = went_on (carries f l q) (mapped_from f (suc l) ms) n e in
          ((carries_iff f l q).0 good, back k e'),
    )

-- The list form is the statement for each LBA.
Pointing-get :
    (f : Ftl) (l : ℕ) (ms : List (Option ℕ)) (k q : ℕ)
    → Pointing f l ms
    → get_or ms k none ≡ some q
    → Carries f (l + k) q
Pointing-get f l [] k q p e = cc
Pointing-get f l (none ∷ ms) zero q p e = cc
Pointing-get f l (none ∷ ms) (suc k) q p e =
    subst (λ n. Carries f n q) (omega arith) (Pointing-get f (suc l) ms k q p e)
Pointing-get f l (some q₀ ∷ ms) zero q p e =
    let same : q₀ ≡ q = cc in subst₂ (Carries f) (omega arith) same p.0
Pointing-get f l (some q₀ ∷ ms) (suc k) q p e =
    subst (λ n. Carries f n q) (omega arith) (Pointing-get f (suc l) ms k q p.1 e)

Pointing-of_each :
    (f : Ftl) (l : ℕ) (ms : List (Option ℕ))
    → ((k q : ℕ) → k < length ms → get_or ms k none ≡ some q → Carries f (l + k) q)
    → Pointing f l ms
Pointing-of_each f l [] h = tt
Pointing-of_each f l (none ∷ ms) h =
    Pointing-of_each f (suc l) ms
      (λ k q hk e. subst (λ n. Carries f n q) (omega arith) (h (suc k) q (omega arith) e))
Pointing-of_each f l (some q₀ ∷ ms) h = (
  subst (λ n. Carries f n q₀) (omega arith) (h 0 q₀ (omega arith) refl),
  Pointing-of_each f (suc l) ms
      (λ k q hk e. subst (λ n. Carries f n q) (omega arith) (h (suc k) q (omega arith) e)),
)

-- What the check stands for: a mapped LBA points at a valid page that carries it, and there are as
-- many valid pages as mapped LBAs.
abbrev pub IsConsistent : Ftl → Type 0
IsConsistent f =
    ((l q : ℕ) → map_at f l ≡ some q → Carries f l q)
    × (total valid_pages f.nand ≡ total mapped_one f.map)

-- `consistent` returns true for exactly the drives in which every mapped LBA points at a valid page
-- that carries it and the valid pages are as many as the mapped LBAs.
pub consistent_iff : (f : Ftl) → (consistent f ≡ true) ↔ IsConsistent f
unfolding consistent
consistent_iff f = (forth (mapped_from f 0 f.map) refl, back)
  where
    forth :
        (o : Option ℕ)
        → mapped_from f 0 f.map ≡ o
        → (elim o [ none ↦ false | some n ↦ total valid_pages f.nand == n ]) ≡ true
        → IsConsistent f
    forth none e h = cc
    forth (some n) e h =
        let (count, points) = mapped_from_lem f 0 f.map in
        let p = points n e in
        let same : some n ≡ some (total mapped_one f.map) = sym e ∙ count p in
        let same' : n ≡ total mapped_one f.map = cc in
        (
          λ l q e'. subst (λ k. Carries f k q) (omega arith) (Pointing-get f 0 f.map l q p e'),
          (==_iff _ _).0 h ∙ same',
        )

    back :
        IsConsistent f
        → (elim (mapped_from f 0 f.map) [ none ↦ false | some n ↦ total valid_pages f.nand == n ])
          ≡ true
    back (each, counts) =
        rw
          ((mapped_from_lem f 0 f.map).0 (
            Pointing-of_each f 0 f.map
              (λ k q hk e. subst (λ n. Carries f n q) (omega arith) (each k q e))))
          ((==_iff _ _).1 counts)

-- Only an LBA of the drive is mapped.
lt-length : (ms : List (Option ℕ)) (k q : ℕ) → get_or ms k none ≡ some q → k < length ms
lt-length [] k q e = cc
lt-length (m ∷ ms) zero q e = omega arith
lt-length (m ∷ ms) (suc k) q e = omega (arith, lt-length ms k q e)

-- The invariant makes the check succeed.
pub consistent-Inv : {f : Ftl} → Inv f → consistent f ≡ true
consistent-Inv {f} v = (consistent_iff f).1 (
  λ l q e.
      let (_, is_valid, carried) =
        v.mapped l q (omega (arith, lt-length f.map l q e, v.map_size)) e in
      (is_valid, carried),
  v.counts,
)

-- ===== src/Ftl/Victim.antt =====
-- Which block `victim` of 12_wear_leveling.c picks, with and without wear leveling.
use inside_the_cpu_storage_a.Base.{
  ℕ, suc, ◌+◌, ◌≤◌, ◌<◌, ◌≡◌, refl, ap, subst, inl, inr, ◌≢◌, Bool, true, false, Option, none, some,
  List, [], ◌∷◌, arith, length, if◌then◌else◌, Bool-cases,
}
use inside_the_cpu_storage_a.Ftl.{Block, Ftl, block, stale_pages, preferred, victim_from, victim}
use inside_the_cpu_storage_a.Ftl.Choice.{From, From-head, From-tail, below-suc}

-- Block `j` is no better victim than `a`, which has `most` stale pages.
abbrev pub Worse : Bool → Ftl → ℕ → ℕ → ℕ → Type 0
Worse naive f a most j =
    j ≢ f.active
    → (stale_pages (block f j) ≤ most)
      × (naive ≡ false → stale_pages (block f j) ≡ most → (block f a).erases ≤ (block f j).erases)

-- What is known of the victim among the first `n` blocks: no block but the open one has a stale
-- page, or the victim has `most` of them, the maximum, and under wear leveling the fewest erases
-- among those that have as many.
abbrev pub Greediest : Bool → Ftl → ℕ → Option ℕ → ℕ → Type 0
Greediest naive f n none most =
    (most ≡ 0) × ((j : ℕ) → j < n → j ≢ f.active → stale_pages (block f j) ≡ 0)
Greediest naive f n (some a) most =
    (a < n)
    × (a ≢ f.active)
    × (stale_pages (block f a) ≡ most)
    × (0 < most)
    × ((j : ℕ) → j < n → Worse naive f a most j)

module _ (naive : Bool) (f : Ftl) (i : ℕ) (most : ℕ) where
  abbrev count : ℕ
  count = stale_pages (block f i)

  first_preferred :
      preferred naive f i (block f i) none most ≡ true → (i ≢ f.active) × (most < count)
  unfolding preferred
  first_preferred h = ground arith

  first_not_preferred :
      preferred naive f i (block f i) none most ≡ false → i ≢ f.active → count ≤ most
  unfolding preferred
  first_not_preferred h ne = ground arith

  next_preferred :
      (a : ℕ)
      → preferred naive f i (block f i) (some a) most ≡ true
      → (i ≢ f.active) × (most ≤ count) × (count ≡ most → (block f i).erases < (block f a).erases)
  unfolding preferred
  next_preferred a h = ground arith

  next_not_preferred :
      (a : ℕ)
      → preferred naive f i (block f i) (some a) most ≡ false
      → i ≢ f.active
      → (count ≤ most) × (naive ≡ false → count ≡ most → (block f a).erases ≤ (block f i).erases)
  unfolding preferred
  next_not_preferred a h ne = ground arith

Greediest-step :
    (naive : Bool) (f : Ftl) (i : ℕ) (best : Option ℕ) (most : ℕ)
    → Greediest naive f i best most
    → let take_it = preferred naive f i (block f i) best most in
      Greediest naive f
        (suc i)
        (if take_it then some i else best)
        (if take_it then stale_pages (block f i) else most)
Greediest-step naive f i none most h =
    elim (Bool-cases (preferred naive f i (block f i) none most)) [
      | inl take_it ↦
          let (ne, more) = first_preferred naive f i most take_it in
          rw take_it (
            omega arith,
            ne,
            refl,
            omega arith,
            below-suc (Worse naive f i (stale_pages (block f i))) i
                (λ j hj e.
                  (omega (arith, h.1 j hj e), λ l same. absurd (omega (arith, h.1 j hj e))))
                (λ e. (omega arith, λ l same. omega arith)),
          )
      | inr leave ↦ rw leave (
        h.0,
        below-suc (λ j. j ≢ f.active → stale_pages (block f j) ≡ 0) i h.1
            (λ e. omega (arith, first_not_preferred naive f i most leave e, h.0)),
      )
    ]
Greediest-step naive f i (some a) most h =
    elim (Bool-cases (preferred naive f i (block f i) (some a) most)) [
      | inl take_it ↦
          let (ne, more, less) = next_preferred naive f i most a take_it in
          rw take_it (
            omega arith,
            ne,
            refl,
            omega arith,
            below-suc (Worse naive f i (stale_pages (block f i))) i
                (λ j hj e.
                  let old = h.4 j hj e in
                  (
                    omega arith,
                    λ l same.
                        let a_le = old.1 l (omega arith) in
                        let i_lt = less (omega arith) in omega arith,
                  ))
                (λ e. (omega arith, λ l same. omega arith)),
          )
      | inr leave ↦ rw leave (
        omega arith,
        h.1,
        h.2,
        h.3,
        below-suc (Worse naive f a most) i h.4 (next_not_preferred naive f i most a leave),
      )
    ]

victim_from-Greediest :
    (naive : Bool) (f : Ftl) (n i : ℕ) (bs : List Block) (best : Option ℕ) (most : ℕ)
    → From f i bs
    → i + length bs ≡ n
    → Greediest naive f i best most
    → (m : ℕ) × Greediest naive f n (victim_from naive f i bs best most) m
unfolding victim_from
victim_from-Greediest naive f n i [] best most at e h =
    (most, subst (λ k. Greediest naive f k best most) (omega arith) h)
victim_from-Greediest naive f n i (b ∷ bs) best most at e h = rw (From-head f i b bs at) (
    victim_from-Greediest naive f n (suc i) bs _ _ (From-tail f i b bs at) (omega arith)
      (Greediest-step naive f i best most h))

-- `victim` picks a block that is not the open one and has at least one stale page and the most of all
-- these blocks, under wear leveling one with the fewest erases of those; it picks none exactly
-- when no block but the open one has a stale page.
pub victim-Greediest :
    (naive : Bool) (f : Ftl) → (most : ℕ) × Greediest naive f (length f.nand) (victim naive f) most
unfolding victim
victim-Greediest naive f =
    victim_from-Greediest naive f (length f.nand) 0 f.nand none 0
      (λ k hk. ap (block f) (omega arith)) (omega arith) (refl, λ j hj. elim hj [ ])

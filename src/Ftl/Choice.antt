-- ===== src/Ftl/Choice.antt =====
-- Which block `erased_block` of 12_wear_leveling.c opens, with and without wear leveling.
use inside_the_cpu_storage_a.Base.{
  ℕ, suc, ◌+◌, ◌≤◌, ◌<◌, ◌≡◌, ap, subst, inl, inr, ◌≢◌, ◌∙◌, Bool, true, false, ◌&&◌, Option, none,
  some, List, [], ◌∷◌, arith, length, get_or, ltb, is_some, Bool-cases, ℕ_discrete,
}
use inside_the_cpu_storage_a.Ftl.{
  Block, Ftl, blank, block, unused, better, erased_block_from, erased_block,
}

-- `bs` are the blocks from number `i` on.
abbrev pub From : Ftl → ℕ → List Block → Type 0
From f i bs = (k : ℕ) → k < length bs → get_or bs k blank ≡ block f (i + k)

pub From-head : (f : Ftl) (i : ℕ) (b : Block) (bs : List Block) → From f i (b ∷ bs) → b ≡ block f i
From-head f i b bs h = h 0 (omega arith) ∙ ap (block f) (omega arith)

pub From-tail :
    (f : Ftl) (i : ℕ) (b : Block) (bs : List Block) → From f i (b ∷ bs) → From f (suc i) bs
From-tail f i b bs h k hk = h (suc k) (omega arith) ∙ ap (block f) (omega arith)

-- Block `j` may be opened.
abbrev pub Erased : Ftl → ℕ → Type 0
Erased f j = (j ≢ f.active) × ((block f j).next ≡ 0)

-- What is known of the choice among the first `n` blocks: none of them is erased, or the choice is
-- and, under wear leveling, has the fewest erases.
abbrev pub LeastWorn : Bool → Ftl → ℕ → Option ℕ → Type 0
LeastWorn naive f n none = (j : ℕ) → j < n → ¬ Erased f j
LeastWorn naive f n (some a) =
    (a < n)
    × Erased f a
    × (naive ≡ false → (j : ℕ) → j < n → Erased f j → (block f a).erases ≤ (block f j).erases)

-- a fact about the blocks below `i`, and about `i`
pub below-suc {ℓ} :
    (P : ℕ → Type ℓ) (i : ℕ) → ((j : ℕ) → j < i → P j) → P i → (j : ℕ) → j < suc i → P j
below-suc P i h here j hj = elim (ℕ_discrete i j) [
  | yes e ↦ subst P e here
  | no ne ↦ h j (omega arith)
]

LeastWorn-skip :
    (naive : Bool) (f : Ftl) (i : ℕ) (best : Option ℕ)
    → ¬ Erased f i
    → LeastWorn naive f i best
    → LeastWorn naive f (suc i) best
LeastWorn-skip naive f i none no_use h = below-suc (λ j. ¬ Erased f j) i h no_use
LeastWorn-skip naive f i (some a) no_use h = (
  omega arith,
  h.1,
  λ level.
      below-suc (λ j. Erased f j → (block f a).erases ≤ (block f j).erases) i (h.2 level)
        (λ e. absurd (no_use e)),
)

LeastWorn-first :
    (naive : Bool) (f : Ftl) (i : ℕ)
    → Erased f i
    → LeastWorn naive f i none
    → LeastWorn naive f (suc i) (some i)
LeastWorn-first naive f i here h = (
  omega arith,
  here,
  λ level.
      below-suc (λ j. Erased f j → (block f i).erases ≤ (block f j).erases) i
        (λ j hj e. absurd (h j hj e)) (λ e. omega arith),
)

-- The choice after an erased block `i`.
LeastWorn-better :
    (naive : Bool) (f : Ftl) (i : ℕ) (best : Option ℕ)
    → Erased f i
    → LeastWorn naive f i best
    → LeastWorn naive f (suc i) (better f i (block f i) best)
unfolding better
LeastWorn-better naive f i none here h = (
  omega arith,
  here,
  λ level.
      below-suc (λ j. Erased f j → (block f i).erases ≤ (block f j).erases) i
        (λ j hj e. absurd (h j hj e)) (λ e. omega arith),
)
LeastWorn-better naive f i (some a) here h =
    elim (Bool-cases (ltb (block f i).erases (block f a).erases)) [
      | inl less ↦ rw less (
        omega arith,
        here,
        λ level.
            below-suc (λ j. Erased f j → (block f i).erases ≤ (block f j).erases) i
              (λ j hj e. let old = h.2 level j hj e in ground arith) (λ e. omega arith),
      )
      | inr more ↦ rw more (
        omega arith,
        h.1,
        λ level.
            below-suc (λ j. Erased f j → (block f a).erases ≤ (block f j).erases) i (h.2 level)
              (λ e. ground arith),
      )
    ]

-- Without wear leveling a choice that is made stays.
LeastWorn-naive :
    (f : Ftl) (i n : ℕ) (best : Option ℕ)
    → i ≤ n
    → is_some best ≡ true
    → LeastWorn true f i best
    → LeastWorn true f n best
LeastWorn-naive f i n none hn e h = cc
LeastWorn-naive f i n (some a) hn e h = (omega arith, h.1, λ level. cc)

unused-Erased : (f : Ftl) (i : ℕ) → unused f i (block f i) ≡ true → Erased f i
unfolding unused
unused-Erased f i h = ground arith

used-not-Erased : (f : Ftl) (i : ℕ) → unused f i (block f i) ≡ false → ¬ Erased f i
unfolding unused
used-not-Erased f i h = ground arith

erased_block_from-LeastWorn :
    (naive : Bool) (f : Ftl) (n i : ℕ) (bs : List Block) (best : Option ℕ)
    → From f i bs
    → i + length bs ≡ n
    → LeastWorn naive f i best
    → LeastWorn naive f n (erased_block_from naive f i bs best)
unfolding erased_block_from
erased_block_from-LeastWorn naive f n i [] best at e h =
    subst (λ k. LeastWorn naive f k best) (omega arith) h
erased_block_from-LeastWorn naive f n i (b ∷ bs) best at e h =
    rw (From-head f i b bs at) (elim (Bool-cases (unused f i (block f i))) [
      | inr used ↦ rw used (
          erased_block_from-LeastWorn naive f n (suc i) bs best (From-tail f i b bs at)
            (omega arith) (LeastWorn-skip naive f i best (used-not-Erased f i used) h))
      | inl here ↦ rw here (elim (Bool-cases (naive && is_some best)) [
        | inr go_on ↦ rw go_on (
            erased_block_from-LeastWorn naive f n (suc i) bs _ (From-tail f i b bs at) (omega arith)
              (LeastWorn-better naive f i best (unused-Erased f i here) h))
        | inl stop ↦ rw stop (stays naive stop h)
      ])
    ])
  where
    stays :
        (naive : Bool)
        → (naive && is_some best) ≡ true
        → LeastWorn naive f i best
        → LeastWorn naive f n best
    stays true stop h = LeastWorn-naive f i n best (omega arith) stop h
    stays false stop h = cc

-- `erased_block` finds an erased block that is not open if there is one, and under wear leveling one
-- with the fewest erases.
pub erased_block-LeastWorn :
    (naive : Bool) (f : Ftl) → LeastWorn naive f (length f.nand) (erased_block naive f)
unfolding erased_block
erased_block-LeastWorn naive f =
    erased_block_from-LeastWorn naive f (length f.nand) 0 f.nand none
      (λ k hk. ap (block f) (omega arith)) (omega arith) (λ j hj. elim hj [ ])

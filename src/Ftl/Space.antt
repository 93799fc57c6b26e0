-- ===== src/Ftl/Space.antt =====
-- How many pages the drive of 07_ftl_model.c has programmed, and how many erased blocks that leaves.
use inside_the_cpu_storage_a.Base.{
  ℕ, zero, suc, ◌+◌, ◌-◌, ◌*◌, ◌≤◌, ◌<◌, ◌≡◌, refl, ap, sym, subst, ◌⊎◌, inl, inr, ◌≢◌, ◌∙◌, Bool,
  Option, none, some, List, [], ◌∷◌, arith, length, get_or, set, length-set, get_or-set_self,
  get_or-set_ne, total, total-set, total-le, total-const, total-congr, total-add, ◌==◌, ℕ_discrete,
  Bool-cases,
}
use inside_the_cpu_storage_a.Ftl.{
  Block, Ftl, blocks, pages, lbas, blank, block, one_if, valid_pages, stale_pages, erased_from,
  erased_blocks, erased_block, open_block,
}
use inside_the_cpu_storage_a.Ftl.Inv.{Inv, mapped_one}
use inside_the_cpu_storage_a.Ftl.Choice.{Erased, LeastWorn, erased_block-LeastWorn}

-- the pages that are programmed
abbrev pub used : Ftl → ℕ
used f = total (λ b. b.next) f.nand

abbrev is_erased : Block → ℕ
is_erased b = one_if (b.next == 0)

erased_from-past : (a i : ℕ) (bs : List Block) → a < i → erased_from a i bs ≡ total is_erased bs
unfolding erased_from
erased_from-past a i [] h = refl
erased_from-past a i (b ∷ bs) h = ground (arith, erased_from-past a (suc i) bs (omega arith))

-- The loop counts every erased block but the open one.
erased_from-total :
    (a i k : ℕ) (bs : List Block)
    → a ≡ i + k
    → k < length bs
    → erased_from a i bs + is_erased (get_or bs k blank) ≡ total is_erased bs
unfolding erased_from
erased_from-total a i k [] e h = absurd (omega arith)
erased_from-total a i zero (b ∷ bs) e h =
    ground (arith, erased_from-past a (suc i) bs (omega arith))
erased_from-total a i (suc k) (b ∷ bs) e h =
    ground (arith, erased_from-total a (suc i) k bs (omega arith) (omega arith))

module _ {f : Ftl} (v : Inv f) where
  abbrev cost : Block → ℕ
  cost b = b.next + pages * is_erased b

  -- Every block but the open one is full or erased.
  cost-filled : (i : ℕ) → i < blocks → i ≢ f.active → cost (block f i) ≡ pages
  cost-filled i h ne = ground (arith, v.filled i h ne)

  cost-without_open : total cost (set f.nand f.active blank) ≡ pages * blocks
  cost-without_open = omega (
    arith,
    total-const cost pages (set f.nand f.active blank) blank (λ i h. each i (omega (arith, size))),
    size,
  )
    where
      size : length (set f.nand f.active blank) ≡ blocks
      size = length-set f.nand f.active blank ∙ v.nand_size

      each : (i : ℕ) → i < blocks → cost (get_or (set f.nand f.active blank) i blank) ≡ pages
      each i h = elim (ℕ_discrete f.active i) [
        | yes e ↦
            subst (λ k. cost (get_or (set f.nand f.active blank) k blank) ≡ pages) e
              (ap cost (
                get_or-set_self f.nand f.active blank blank
                  (omega (arith, v.nand_size, v.active_in))))
        | no ne ↦
            ap cost (get_or-set_ne f.nand f.active i blank blank ne)
            ∙ cost-filled i h (λ e. ne (sym e))
      ]

  -- The programmed pages decide the number of erased blocks.
  pub used-erased_blocks :
      used f + pages * erased_blocks f ≡ pages * (blocks - 1) + (block f f.active).next
  unfolding erased_blocks
  used-erased_blocks = omega (
    arith,
    cost-without_open,
    total-set cost f.nand f.active blank blank (omega (arith, v.nand_size, v.active_in)),
    total-add (λ b. b.next) (λ b. pages * is_erased b) f.nand,
    scaled f.nand,
    erased_from-total f.active 0 f.active f.nand (omega arith)
        (omega (arith, v.nand_size, v.active_in)),
  )
    where
      scaled : (bs : List Block) → total (λ b. pages * is_erased b) bs ≡ pages * total is_erased bs
      scaled [] = refl
      scaled (b ∷ bs) = omega (arith, scaled bs)

  pub used-split : used f ≡ total valid_pages f.nand + total stale_pages f.nand
  used-split =
      total-congr (λ b. b.next) (λ b. valid_pages b + stale_pages b) f.nand blank
        (λ i h. sym (v.block_ok i (omega (arith, v.nand_size))).used)
      ∙ total-add valid_pages stale_pages f.nand

  -- No more pages are valid than the host has LBAs.
  pub valid-le-lbas : total valid_pages f.nand ≤ lbas
  valid-le-lbas = omega (arith, v.counts, v.map_size, total-le mapped_one 1 f.map mapped_one-le)
    where
      mapped_one-le : (m : Option ℕ) → mapped_one m ≤ 1
      mapped_one-le none = omega arith
      mapped_one-le (some q) = omega arith

  -- With a page left a full open block can be replaced.
  not_all_full :
      ((j : ℕ) → j < length f.nand → ¬ Erased f j)
      → (block f f.active).next ≡ pages
      → used f ≡ pages * blocks
  not_all_full no_erased full =
      omega (arith, total-const (λ b. b.next) pages f.nand blank each, v.nand_size)
    where
      each : (i : ℕ) → i < length f.nand → (block f i).next ≡ pages
      each i h = elim (ℕ_discrete i f.active) [
        | yes e ↦ subst (λ k. (block f k).next ≡ pages) (sym e) full
        | no ne ↦ elim (v.filled i (omega (arith, v.nand_size)) ne) [
          | inl z ↦ absurd (no_erased i h (ne, z))
          | inr p ↦ p
        ]
      ]

  -- What `open_block` gives: the open block if it has room, else an erased block.
  abbrev pub Opens : ℕ → Type 0
  Opens a =
      (a < blocks)
      × ((block f a).next < pages)
      × ((a ≡ f.active) ⊎ (((block f f.active).next ≡ pages) × Erased f a))

  pub open_block-total :
      (naive : Bool) → used f < pages * blocks → (a : ℕ) × (open_block naive f ≡ some a) × Opens a
  unfolding open_block
  open_block-total naive h = elim (Bool-cases ((block f f.active).next == pages)) [
    | inr room ↦ rw room (
      f.active,
      refl,
      (v.active_in, ground (arith, (v.block_ok f.active v.active_in).next_in), inl refl),
    )
    | inl full ↦
        rw full (found (erased_block naive f) refl (erased_block-LeastWorn naive f) (ground arith))
  ]
    where
      found :
          (o : Option ℕ)
          → erased_block naive f ≡ o
          → LeastWorn naive f (length f.nand) o
          → (block f f.active).next ≡ pages
          → (a : ℕ) × (erased_block naive f ≡ some a) × Opens a
      found none e least full = absurd (omega (arith, not_all_full least full))
      found (some a) e least full = (
        a,
        e,
        (omega (arith, v.nand_size, least.0), omega (arith, least.1.1), inr (full, least.1)),
      )

  -- The invariant does not mind which such block is open.
  pub open-Inv : (a : ℕ) → Opens a → Inv (record f { active = a })
  open-Inv a o = record {
    nand_size = v.nand_size;
    map_size = v.map_size;
    active_in = o.0;
    block_ok = v.block_ok;
    filled = filled;
    mapped = v.mapped;
    owned = v.owned;
    counts = v.counts;
  }
    where
      filled : (i : ℕ) → i < blocks → i ≢ a → ((block f i).next ≡ 0) ⊎ ((block f i).next ≡ pages)
      filled i h ne = elim (ℕ_discrete i f.active) [
        | no other ↦ v.filled i h other
        | yes same ↦ elim o.2 [
          | inl e ↦ absurd (ne (same ∙ sym e))
          | inr full ↦ inr (subst (λ k. (block f k).next ≡ pages) (sym same) full.0)
        ]
      ]

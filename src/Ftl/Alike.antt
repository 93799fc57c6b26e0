-- ===== src/Ftl/Alike.antt =====
-- `erased_block` reads the `next` and `erases` of the blocks and nothing else.
use inside_the_cpu_storage_a.Base.{
  ℕ, zero, suc, ◌≡◌, refl, ap, ◌∙◌, Bool, Option, none, some, List, [], ◌∷◌, get_or, set, ◌==◌,
  if◌then◌else◌,
}
use inside_the_cpu_storage_a.Ftl.{
  Page, Block, Ftl, blank, block, pages, unused, better, erased_block_from, erased_block,
  open_block,
}

-- The blocks differ in their pages at most.
abbrev pub Alike : List Block → List Block → Type 0
Alike [] [] = Unit {0}
Alike [] (c ∷ cs) = ⊥
Alike (b ∷ bs) [] = ⊥
Alike (b ∷ bs) (c ∷ cs) = (b.next ≡ c.next) × (b.erases ≡ c.erases) × Alike bs cs

pub Alike-refl : (bs : List Block) → Alike bs bs
Alike-refl [] = tt
Alike-refl (b ∷ bs) = (refl, refl, Alike-refl bs)

pub Alike-set :
    (bs : List Block) (i : ℕ) (s : List Page)
    → Alike bs (set bs i (record (get_or bs i blank) { state = s }))
Alike-set [] i s = tt
Alike-set (b ∷ bs) zero s = (refl, refl, Alike-refl bs)
Alike-set (b ∷ bs) (suc i) s = (refl, refl, Alike-set bs i s)

get_or-Alike :
    (bs cs : List Block) (i : ℕ)
    → Alike bs cs
    → ((get_or bs i blank).next ≡ (get_or cs i blank).next)
      × ((get_or bs i blank).erases ≡ (get_or cs i blank).erases)
get_or-Alike [] [] i h = (refl, refl)
get_or-Alike [] (c ∷ cs) i h = absurd h
get_or-Alike (b ∷ bs) [] i h = absurd h
get_or-Alike (b ∷ bs) (c ∷ cs) zero h = (h.0, h.1)
get_or-Alike (b ∷ bs) (c ∷ cs) (suc i) h = get_or-Alike bs cs i h.2

module _ (f g : Ftl) (same : f.active ≡ g.active) (alike : Alike f.nand g.nand) where
  unused-Alike : (i : ℕ) (b c : Block) → b.next ≡ c.next → unused f i b ≡ unused g i c
  unfolding unused
  unused-Alike i b c e = rw (same, e)

  better-Alike :
      (i : ℕ) (b c : Block) (best : Option ℕ)
      → b.erases ≡ c.erases
      → better f i b best ≡ better g i c best
  unfolding better
  better-Alike i b c none e = refl
  better-Alike i b c (some j) e = rw (e, (get_or-Alike f.nand g.nand j alike).1)

  erased_block_from-Alike :
      (naive : Bool) (i : ℕ) (bs cs : List Block) (best : Option ℕ)
      → Alike bs cs
      → erased_block_from naive f i bs best ≡ erased_block_from naive g i cs best
  unfolding erased_block_from
  erased_block_from-Alike naive i [] [] best h = refl
  erased_block_from-Alike naive i [] (c ∷ cs) best h = absurd h
  erased_block_from-Alike naive i (b ∷ bs) [] best h = absurd h
  erased_block_from-Alike naive i (b ∷ bs) (c ∷ cs) best h = rw (
    unused-Alike i b c h.0,
    better-Alike i b c best h.1,
    erased_block_from-Alike naive (suc i) bs cs _ h.2,
  )

  erased_block-Alike : (naive : Bool) → erased_block naive f ≡ erased_block naive g
  unfolding erased_block
  erased_block-Alike naive = erased_block_from-Alike naive 0 f.nand g.nand none alike

  open_next-Alike : (block f f.active).next ≡ (block g g.active).next
  open_next-Alike = (get_or-Alike f.nand g.nand f.active alike).0 ∙ ap (λ a. (block g a).next) same

  pub open_block-Alike : (naive : Bool) → open_block naive f ≡ open_block naive g
  unfolding open_block
  open_block-Alike naive =
      λ i. if open_next-Alike i == pages then erased_block-Alike naive i else some (same i)

-- ===== src/Ftl/Inv.antt =====
-- The invariant of the flash translation layer, for the programs of
-- 06-storage-lab-inside-an-ssd-nand-ftl-in-10-minutes.
use inside_the_cpu_storage_a.Base.{
  ℕ, ◌+◌, ◌*◌, ◌/◌, ◌%◌, ◌<◌, ◌≡◌, refl, ◌⊎◌, ◌≢◌, ◌∙◌, Option, none, some, arith, length, get_or,
  total, is_some, get_or-replicate, ap, sym, subst, inl,
}
use inside_the_cpu_storage_a.Ftl.{
  Page, free, valid, Ftl, blocks, pages, lbas, blank, block, one_if, valid_pages, make_ftl,
}
use inside_the_cpu_storage_a.Ftl.Blocks.{IsBlock, blank-IsBlock}

abbrev pub state_at : Ftl → ℕ → ℕ → Page
state_at f i p = get_or (block f i).state p free

abbrev pub lba_at : Ftl → ℕ → ℕ → ℕ
lba_at f i p = get_or (block f i).lba p 0

abbrev pub map_at : Ftl → ℕ → Option ℕ
map_at f l = get_or f.map l none

-- 1 for a mapped LBA
abbrev pub mapped_one : Option ℕ → ℕ
mapped_one m = one_if (is_some m)

-- Every block is well formed, and full or erased unless it is open; the map and the reverse map
-- of the valid pages are inverse to each other.
pub record Inv (f : Ftl) : Type 0 where
  pub nand_size : length f.nand ≡ blocks
  pub map_size : length f.map ≡ lbas
  pub active_in : f.active < blocks
  pub block_ok : (i : ℕ) → i < blocks → IsBlock (block f i)
  pub filled :
      (i : ℕ) → i < blocks → i ≢ f.active → ((block f i).next ≡ 0) ⊎ ((block f i).next ≡ pages)
  pub mapped :
      (l q : ℕ)
      → l < lbas
      → map_at f l ≡ some q
      → (q < blocks * pages)
        × (state_at f (q / pages) (q % pages) ≡ valid)
        × (lba_at f (q / pages) (q % pages) ≡ l)
  pub owned :
      (i p : ℕ)
      → i < blocks
      → p < pages
      → state_at f i p ≡ valid
      → (lba_at f i p < lbas) × (map_at f (lba_at f i p) ≡ some (i * pages + p))
  pub counts : total valid_pages f.nand ≡ total mapped_one f.map

fresh_block : (i : ℕ) → block make_ftl i ≡ blank
unfolding make_ftl
fresh_block i = get_or-replicate blocks i blank

fresh_map : (l : ℕ) → map_at make_ftl l ≡ none
unfolding make_ftl
fresh_map l = get_or-replicate lbas l none

fresh_state : (i p : ℕ) → state_at make_ftl i p ≡ free
fresh_state i p = ap (λ b. get_or b.state p free) (fresh_block i) ∙ get_or-replicate pages p free

-- A factory fresh drive satisfies the invariant.
pub make_ftl-Inv : Inv make_ftl
unfolding make_ftl
make_ftl-Inv = record {
  nand_size = refl;
  map_size = refl;
  active_in = omega arith;
  block_ok = λ i h. subst IsBlock (sym (fresh_block i)) (blank-IsBlock 0);
  filled = λ i h ne. inl (ap (λ b. b.next) (fresh_block i));
  mapped = λ l q h e. cc (fresh_map l);
  owned = λ i p hi hp e. cc (fresh_state i p);
  counts = refl;
}

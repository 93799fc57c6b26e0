-- ===== src/Ftl/Blocks.antt =====
-- One erase block of the flash translation layer: what keeps it well formed.
use inside_the_cpu_storage_a.Base.{
  ℕ, zero, suc, ◌+◌, ◌≤◌, ◌<◌, ◌≡◌, refl, ◌∙◌, arith, length, get_or, set, total-set, length-set,
  get_or-set_ne,
}
use inside_the_cpu_storage_a.Ftl.{
  free, valid, stale, Block, pages, blank, is_valid, is_stale, one_if, stale_pages, valid_pages,
}

-- The pages below `next` are programmed, the others are free.
pub record IsBlock (b : Block) : Type 0 where
  pub states : length b.state ≡ pages
  pub reverse_map : length b.lba ≡ pages
  pub next_in : b.next ≤ pages
  pub used : valid_pages b + stale_pages b ≡ b.next
  pub in_order : (p : ℕ) → b.next ≤ p → get_or b.state p free ≡ free

-- The block after `program` has put `lba` on its next page.
abbrev pub programmed : Block → ℕ → Block
programmed b lba = record b {
  state = set b.state b.next valid;
  lba = set b.lba b.next lba;
  next = b.next + 1;
}

-- The block after its page `p` went stale.
abbrev pub staled : Block → ℕ → Block
staled b p = record b { state = set b.state p stale }

pub blank-IsBlock : (n : ℕ) → IsBlock (record blank { erases = n })
blank-IsBlock n = record {
  states = refl;
  reverse_map = refl;
  next_in = omega arith;
  used = refl;
  in_order = free_everywhere;
}
  where
    free_everywhere : (p : ℕ) → 0 ≤ p → get_or blank.state p free ≡ free
    free_everywhere zero h = refl
    free_everywhere (suc zero) h = refl
    free_everywhere (suc (suc zero)) h = refl
    free_everywhere (suc (suc (suc zero))) h = refl
    free_everywhere (suc (suc (suc (suc p)))) h = refl

module _ (b : Block) (v : IsBlock b) where
  pub programmed-counts :
      (lba : ℕ)
      → b.next < pages
      → (valid_pages (programmed b lba) ≡ valid_pages b + 1)
        × (stale_pages (programmed b lba) ≡ stale_pages b)
  programmed-counts lba h = ground (
    arith,
    v.in_order b.next (omega arith),
    total-set (λ s. one_if (is_valid s)) b.state b.next valid free (omega (arith, v.states)),
    total-set (λ s. one_if (is_stale s)) b.state b.next valid free (omega (arith, v.states)),
  )

  programmed-in_order : (lba p : ℕ) → b.next + 1 ≤ p → get_or (programmed b lba).state p free ≡ free
  programmed-in_order lba p h =
      get_or-set_ne b.state b.next p valid free (omega arith) ∙ v.in_order p (omega arith)

  pub programmed-IsBlock : (lba : ℕ) → b.next < pages → IsBlock (programmed b lba)
  programmed-IsBlock lba h = record {
    states = length-set b.state b.next valid ∙ v.states;
    reverse_map = length-set b.lba b.next lba ∙ v.reverse_map;
    next_in = omega arith;
    used = omega (arith, programmed-counts lba h, v.used);
    in_order = programmed-in_order lba;
  }

  -- A valid page lies below `next`.
  pub valid-lt-next : (p : ℕ) → get_or b.state p free ≡ valid → p < b.next
  valid-lt-next p e = grind (arith, v.in_order)

  pub staled-counts :
      (p : ℕ)
      → get_or b.state p free ≡ valid
      → (valid_pages (staled b p) + 1 ≡ valid_pages b)
        × (stale_pages (staled b p) ≡ stale_pages b + 1)
  staled-counts p e =
      let h : p < length b.state = omega (arith, v.states, v.next_in, valid-lt-next p e) in
      ground (
        arith,
        total-set (λ s. one_if (is_valid s)) b.state p stale free h,
        total-set (λ s. one_if (is_stale s)) b.state p stale free h,
      )

  pub staled-IsBlock : (p : ℕ) → get_or b.state p free ≡ valid → IsBlock (staled b p)
  staled-IsBlock p e = record {
    states = length-set b.state p stale ∙ v.states;
    reverse_map = v.reverse_map;
    next_in = v.next_in;
    used = omega (arith, staled-counts p e, v.used);
    in_order = λ q h.
        get_or-set_ne b.state p q stale free (omega (arith, valid-lt-next p e)) ∙ v.in_order q h;
  }

-- ===== src/Ftl/Program.antt =====
-- `program` of the flash translation layer keeps the invariant.
use inside_the_cpu_storage_a.Base.{
  ℕ, ◌+◌, ◌*◌, ◌/◌, ◌%◌, ◌<◌, ◌≡◌, ap, ap₂, sym, subst, ◌⊎◌, inl, inr, ◌≢◌, ◌∙◌, none, some, arith,
  get_or, total, total-set, length-set, get_or-set_self, get_or-set_ne, ℕ_discrete,
}
use inside_the_cpu_storage_a.Ftl.{
  free, valid, Block, Ftl, blocks, pages, lbas, blank, block, valid_pages, program_page,
}
use inside_the_cpu_storage_a.Ftl.Blocks.{IsBlock, programmed, programmed-counts, programmed-IsBlock}
use inside_the_cpu_storage_a.Ftl.Inv.{Inv, state_at, lba_at, map_at, mapped_one}

-- A page number names its block and its place there.
pub page_number : (a n q : ℕ) → n < pages → q ≡ a * pages + n → (q / pages ≡ a) × (q % pages ≡ n)
page_number a n q h e = omega arith

-- Two pages are the same or not.
pub page_cases : (i p a n : ℕ) → ((i ≡ a) × (p ≡ n)) ⊎ (i ≡ a → p ≢ n)
page_cases i p a n = elim (ℕ_discrete p n) [
  | no ne ↦ inr (λ _. ne)
  | yes ep ↦ elim (ℕ_discrete i a) [ yes ei ↦ inl (ei, ep) | no ne ↦ inr (λ ei. absurd (ne ei)) ]
]

module _ {f : Ftl} (v : Inv f) (l : ℕ) (room : (block f f.active).next < pages)
    (hl : l < lbas) where
  abbrev old : Block
  old = block f f.active

  abbrev after : Ftl
  after = program_page f l

  old-IsBlock : IsBlock old
  old-IsBlock = v.block_ok f.active v.active_in

  block_self : block after f.active ≡ programmed old l
  unfolding program_page
  block_self = get_or-set_self f.nand f.active _ blank (omega (arith, v.nand_size, v.active_in))

  block-other : (i : ℕ) → f.active ≢ i → block after i ≡ block f i
  unfolding program_page
  block-other i ne = get_or-set_ne f.nand f.active i _ blank ne

  map_self : map_at after l ≡ some (f.active * pages + old.next)
  unfolding program_page
  map_self = get_or-set_self f.map l _ none (omega (arith, v.map_size))

  map-other : (m : ℕ) → l ≢ m → map_at after m ≡ map_at f m
  unfolding program_page
  map-other m ne = get_or-set_ne f.map l m _ none ne

  -- the page that was programmed, and every other page
  state_self : state_at after f.active old.next ≡ valid
  state_self =
      ap (λ b. get_or b.state old.next free) block_self
      ∙ get_or-set_self old.state old.next valid free (omega (arith, old-IsBlock.states))

  lba_self : lba_at after f.active old.next ≡ l
  lba_self =
      ap (λ b. get_or b.lba old.next 0) block_self
      ∙ get_or-set_self old.lba old.next l 0 (omega (arith, old-IsBlock.reverse_map))

  page-other :
      (i p : ℕ)
      → (i ≡ f.active → p ≢ old.next)
      → (state_at after i p ≡ state_at f i p) × (lba_at after i p ≡ lba_at f i p)
  page-other i p ne = elim (ℕ_discrete f.active i) [
    | yes e ↦
        subst (λ k. (state_at after k p ≡ state_at f k p) × (lba_at after k p ≡ lba_at f k p)) e
          (
            ap (λ b. get_or b.state p free) block_self
                ∙ get_or-set_ne old.state old.next p valid free (λ e'. ne (sym e) (sym e')),
            ap (λ b. get_or b.lba p 0) block_self
                ∙ get_or-set_ne old.lba old.next p l 0 (λ e'. ne (sym e) (sym e')),
          )
    | no n ↦ (
      ap (λ b. get_or b.state p free) (block-other i n),
      ap (λ b. get_or b.lba p 0) (block-other i n),
    )
  ]

  -- A valid page is none that `program` could have written.
  not_next : (i p : ℕ) → state_at f i p ≡ valid → i ≡ f.active → p ≢ old.next
  not_next i p e ei ep = cc (old-IsBlock.in_order old.next (omega arith))

  after-block_ok : (i : ℕ) → i < blocks → IsBlock (block after i)
  after-block_ok i h = elim (ℕ_discrete f.active i) [
    | yes e ↦
        subst (λ k. IsBlock (block after k)) e
          (subst IsBlock (sym block_self) (programmed-IsBlock old old-IsBlock l room))
    | no n ↦ subst IsBlock (sym (block-other i n)) (v.block_ok i h)
  ]

  after-mapped_self :
      (q : ℕ)
      → map_at after l ≡ some q
      → (q < blocks * pages)
        × (state_at after (q / pages) (q % pages) ≡ valid)
        × (lba_at after (q / pages) (q % pages) ≡ l)
  after-mapped_self q e =
      let here : q ≡ f.active * pages + old.next = cc map_self in
      let (at_block, at_page) = page_number f.active old.next q room here in
      (
        omega (arith, v.active_in),
        ap₂ (λ i p. state_at after i p) at_block at_page ∙ state_self,
        ap₂ (λ i p. lba_at after i p) at_block at_page ∙ lba_self,
      )

  after-mapped :
      (m q : ℕ)
      → m < lbas
      → map_at after m ≡ some q
      → (q < blocks * pages)
        × (state_at after (q / pages) (q % pages) ≡ valid)
        × (lba_at after (q / pages) (q % pages) ≡ m)
  after-mapped m q h e = elim (ℕ_discrete l m) [
    | yes same ↦
        let own = after-mapped_self q (ap (map_at after) same ∙ e) in (own.0, own.1, own.2 ∙ same)
    | no other ↦
        let before = v.mapped m q h (sym (map-other m other) ∙ e) in
        let kept = page-other (q / pages) (q % pages) (not_next _ _ before.1) in
        (before.0, kept.0 ∙ before.1, kept.1 ∙ before.2)
  ]

  -- `l` was not mapped, so no valid page carried it.
  not_l : (unmapped : map_at f l ≡ none) (m : ℕ) {q : ℕ} → map_at f m ≡ some q → l ≢ m
  not_l unmapped m e same = cc (ap (map_at f) same)

  after-owned :
      (unmapped : map_at f l ≡ none) (i p : ℕ)
      → i < blocks
      → p < pages
      → state_at after i p ≡ valid
      → (lba_at after i p < lbas) × (map_at after (lba_at after i p) ≡ some (i * pages + p))
  after-owned unmapped i p hi hp e = elim (page_cases i p f.active old.next) [
    | inl (ei, ep) ↦
        let here : lba_at after i p ≡ l = ap₂ (λ i p. lba_at after i p) ei ep ∙ lba_self in
        (
          omega arith,
          ap (map_at after) here ∙ map_self ∙ ap₂ (λ i p. some (i * pages + p)) (sym ei) (sym ep),
        )
    | inr other ↦
        let kept = page-other i p other in
        let before = v.owned i p hi hp (sym kept.0 ∙ e) in
        (omega arith, ap (map_at after) kept.1 ∙ map-other _ (not_l unmapped _ before.1) ∙ before.1)
  ]

  after-counts : map_at f l ≡ none → total valid_pages after.nand ≡ total mapped_one after.map
  unfolding program_page
  after-counts unmapped = ground (
    arith,
    programmed-counts old old-IsBlock l room,
    total-set valid_pages f.nand f.active (programmed old l) blank
        (omega (arith, v.nand_size, v.active_in)),
    total-set mapped_one f.map l (some (f.active * pages + old.next)) none
        (omega (arith, v.map_size)),
    v.counts,
  )

  -- Programming an LBA that is not mapped, in an open block with room, keeps the invariant.
  pub program_page-Inv : map_at f l ≡ none → Inv after
  unfolding program_page
  program_page-Inv unmapped = record {
    nand_size = length-set f.nand f.active _ ∙ v.nand_size;
    map_size = length-set f.map l _ ∙ v.map_size;
    active_in = v.active_in;
    block_ok = after-block_ok;
    filled = λ i h ne.
        subst (λ b. (b.next ≡ 0) ⊎ (b.next ≡ pages)) (sym (block-other i (λ e. ne (sym e))))
          (v.filled i h ne);
    mapped = after-mapped;
    owned = after-owned unmapped;
    counts = after-counts unmapped;
  }

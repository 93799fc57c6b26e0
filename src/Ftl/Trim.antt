-- ===== src/Ftl/Trim.antt =====
-- `trim` of 11_trim.c keeps the invariant; the first half of `write` is a trim.
use inside_the_cpu_storage_a.Base.{
  ℕ, ◌+◌, ◌*◌, ◌/◌, ◌%◌, ◌<◌, ◌≡◌, ap, ap₂, sym, subst, ◌⊎◌, inl, inr, ◌≢◌, ◌∙◌, none, some, arith,
  get_or, set, total, total-set, length-set, get_or-set_self, get_or-set_ne, ℕ_discrete,
  Option-cases,
}
use inside_the_cpu_storage_a.Ftl.{
  free, valid, stale, Block, Ftl, blocks, pages, lbas, blank, block, valid_pages, set_state, trim,
  invalidate,
}
use inside_the_cpu_storage_a.Ftl.Blocks.{IsBlock, staled, staled-counts, staled-IsBlock}
use inside_the_cpu_storage_a.Ftl.Inv.{Inv, state_at, lba_at, map_at, mapped_one}
use inside_the_cpu_storage_a.Ftl.Program.{page_cases}

-- What `trim` makes of a drive that maps `l` to page `q`.
abbrev pub trimmed : Ftl → ℕ → ℕ → Ftl
trimmed f l q = record (set_state f q stale) { map = set f.map l none }

pub trim-none : (f : Ftl) (l : ℕ) → map_at f l ≡ none → trim f l ≡ f
unfolding trim
trim-none f l e = rw (e, trim)

pub trim-some : (f : Ftl) (l q : ℕ) → map_at f l ≡ some q → trim f l ≡ trimmed f l q
unfolding trim
trim-some f l q e = rw (e, trim)

pub invalidate-none : (f : Ftl) (l : ℕ) → map_at f l ≡ none → invalidate f l ≡ f
unfolding invalidate
invalidate-none f l e = rw (e, invalidate)

pub invalidate-some :
    (f : Ftl) (l q : ℕ) → map_at f l ≡ some q → invalidate f l ≡ set_state f q stale
unfolding invalidate
invalidate-some f l q e = rw (e, invalidate)

module _ {f : Ftl} (v : Inv f) (l q : ℕ) (hl : l < lbas) (e : map_at f l ≡ some q) where
  abbrev after : Ftl
  after = trimmed f l q

  abbrev i₀ : ℕ
  i₀ = q / pages

  abbrev p₀ : ℕ
  p₀ = q % pages

  abbrev old : Block
  old = block f i₀

  i₀-in : i₀ < blocks
  i₀-in = omega (arith, v.mapped l q hl e)

  old-IsBlock : IsBlock old
  old-IsBlock = v.block_ok i₀ i₀-in

  old-valid : state_at f i₀ p₀ ≡ valid
  old-valid = (v.mapped l q hl e).1

  block_self : block after i₀ ≡ staled old p₀
  unfolding set_state
  block_self = get_or-set_self f.nand i₀ _ blank (omega (arith, v.nand_size, i₀-in))

  block-other : (i : ℕ) → i₀ ≢ i → block after i ≡ block f i
  unfolding set_state
  block-other i ne = get_or-set_ne f.nand i₀ i _ blank ne

  map_self : map_at after l ≡ none
  map_self = get_or-set_self f.map l none none (omega (arith, v.map_size))

  map-other : (m : ℕ) → l ≢ m → map_at after m ≡ map_at f m
  map-other m ne = get_or-set_ne f.map l m none none ne

  pub block-same : (i : ℕ) → (block after i).next ≡ (block f i).next
  block-same i = elim (ℕ_discrete i₀ i) [
    | yes same ↦
        subst (λ k. (block after k).next ≡ (block f k).next) same (ap (λ b. b.next) block_self)
    | no other ↦ ap (λ b. b.next) (block-other i other)
  ]

  lba-same : (i p : ℕ) → lba_at after i p ≡ lba_at f i p
  lba-same i p = elim (ℕ_discrete i₀ i) [
    | yes same ↦
        subst (λ k. lba_at after k p ≡ lba_at f k p) same (ap (λ b. get_or b.lba p 0) block_self)
    | no other ↦ ap (λ b. get_or b.lba p 0) (block-other i other)
  ]

  state_self : state_at after i₀ p₀ ≡ stale
  state_self =
      ap (λ b. get_or b.state p₀ free) block_self
      ∙ get_or-set_self old.state p₀ stale free (omega (arith, old-IsBlock.states))

  state-other : (i p : ℕ) → (i ≡ i₀ → p ≢ p₀) → state_at after i p ≡ state_at f i p
  state-other i p ne = elim (ℕ_discrete i₀ i) [
    | yes same ↦
        subst (λ k. state_at after k p ≡ state_at f k p) same
          (ap (λ b. get_or b.state p free) block_self
            ∙ get_or-set_ne old.state p₀ p stale free (λ e'. ne (sym same) (sym e')))
    | no other ↦ ap (λ b. get_or b.state p free) (block-other i other)
  ]

  after-block_ok : (i : ℕ) → i < blocks → IsBlock (block after i)
  after-block_ok i h = elim (ℕ_discrete i₀ i) [
    | yes same ↦
        subst (λ k. IsBlock (block after k)) same
          (subst IsBlock (sym block_self) (staled-IsBlock old old-IsBlock p₀ old-valid))
    | no other ↦ subst IsBlock (sym (block-other i other)) (v.block_ok i h)
  ]

  after-mapped :
      (m r : ℕ)
      → m < lbas
      → map_at after m ≡ some r
      → (r < blocks * pages)
        × (state_at after (r / pages) (r % pages) ≡ valid)
        × (lba_at after (r / pages) (r % pages) ≡ m)
  after-mapped m r h e' = elim (ℕ_discrete l m) [
    | yes same ↦ cc (ap (map_at after) same, map_self)
    | no other ↦
        let before = v.mapped m r h (sym (map-other m other) ∙ e') in
        let elsewhere : r / pages ≡ i₀ → r % pages ≢ p₀ = λ ei ep.
          other (sym (v.mapped l q hl e).2 ∙ ap₂ (lba_at f) (sym ei) (sym ep) ∙ before.2) in
        (before.0, state-other _ _ elsewhere ∙ before.1, lba-same _ _ ∙ before.2)
  ]

  after-owned :
      (i p : ℕ)
      → i < blocks
      → p < pages
      → state_at after i p ≡ valid
      → (lba_at after i p < lbas) × (map_at after (lba_at after i p) ≡ some (i * pages + p))
  after-owned i p hi hp e' = elim (page_cases i p i₀ p₀) [
    | inl (ei, ep) ↦ cc (ap₂ (state_at after) ei ep, state_self)
    | inr other ↦
        let before = v.owned i p hi hp (sym (state-other i p other) ∙ e') in
        let not_l : l ≢ lba_at f i p = λ same.
          let twice : some q ≡ some (i * pages + p) = sym e ∙ ap (map_at f) same ∙ before.1 in
          let here : q ≡ i * pages + p = cc twice in other (omega arith) (omega arith) in
        (
          omega (arith, lba-same i p),
          ap (map_at after) (lba-same i p) ∙ map-other _ not_l ∙ before.1,
        )
  ]

  after-counts : total valid_pages after.nand ≡ total mapped_one after.map
  unfolding set_state
  after-counts = ground (
    arith,
    staled-counts old old-IsBlock p₀ old-valid,
    total-set valid_pages f.nand i₀ (staled old p₀) blank (omega (arith, v.nand_size, i₀-in)),
    total-set mapped_one f.map l none none (omega (arith, v.map_size)),
    v.counts,
  )

  pub trimmed-Inv : Inv after
  unfolding set_state
  trimmed-Inv = record {
    nand_size = length-set f.nand i₀ _ ∙ v.nand_size;
    map_size = length-set f.map l _ ∙ v.map_size;
    active_in = v.active_in;
    block_ok = after-block_ok;
    filled = λ i h ne. subst (λ n. (n ≡ 0) ⊎ (n ≡ pages)) (sym (block-same i)) (v.filled i h ne);
    mapped = after-mapped;
    owned = after-owned;
    counts = after-counts;
  }

-- `trim` keeps the invariant.
pub trim-Inv : {f : Ftl} (l : ℕ) → l < lbas → Inv f → Inv (trim f l)
trim-Inv {f} l hl v = elim (Option-cases (map_at f l)) [
  | inl e ↦ rw (trim-none f l e) v
  | inr (q, e) ↦ rw (trim-some f l q e) (trimmed-Inv v l q hl e)
]

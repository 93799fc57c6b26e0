-- ===== src/Ftl/Ghost.antt =====
-- The loop of `garbage_collect` against a ghost drive. The C code leaves a moved page valid until
-- the victim is erased; the ghost marks it stale at once, so that each round is a `trim` and a
-- `program`, and the ghost keeps the invariant.
use inside_the_cpu_storage_a.Base.{
  ℕ, suc, ◌+◌, ◌*◌, ◌≤◌, ◌<◌, ◌≡◌, refl, ap, ap₂, sym, subst, inl, inr, ◌≢◌, ◌∙◌, Bool, none, some,
  List, arith, length, get_or, set, length-set, get_or-set_self, get_or-set_ne, set-set, set-set_ne,
  set-get_or, is_some, ℕ_discrete,
}
use inside_the_cpu_storage_a.Ftl.{
  Page, free, valid, stale, Block, Ftl, blocks, pages, lbas, blank, block, valid_pages, set_state,
  open_block, program_page, trim,
}
use inside_the_cpu_storage_a.Ftl.Blocks.{programmed, staled, staled-counts}
use inside_the_cpu_storage_a.Ftl.Inv.{Inv, state_at, lba_at, map_at}
use inside_the_cpu_storage_a.Ftl.Trim.{trimmed, trim-some}
use inside_the_cpu_storage_a.Ftl.Alike.{Alike, Alike-set, open_block-Alike}
use inside_the_cpu_storage_a.Ftl.Space.{used, Opens}
use inside_the_cpu_storage_a.Ftl.Step.{Wrote, programs, programs-Wrote, moved_v, trim-counters}

-- `g` is the drive `f` with the valid pages of block `v` below page `k` no longer valid.
pub record Ghost (v k : ℕ) (f g : Ftl) : Type 0 where
  pub active : g.active ≡ f.active
  pub map : g.map ≡ f.map
  pub host : g.host_writes ≡ f.host_writes
  pub programs : g.nand_writes ≡ f.nand_writes
  pub nand : g.nand ≡ set f.nand v (record (block f v) { state = (block g v).state })
  pub moved : (p : ℕ) → p < k → state_at g v p ≢ valid
  pub left : (p : ℕ) → k ≤ p → state_at g v p ≡ state_at f v p

pub Ghost-start : (v : ℕ) (f : Ftl) → Ghost v 0 f f
Ghost-start v f = record {
  active = refl;
  map = refl;
  host = refl;
  programs = refl;
  nand = sym (set-get_or f.nand v blank);
  moved = λ p h. elim h [ ];
  left = λ p h. refl;
}

-- The ghost is a sound drive whose block `v` is full and not open.
pub record IsSound (v : ℕ) (g : Ftl) : Type 0 where
  pub inv : Inv g
  pub block_in : v < blocks
  pub not_open : v ≢ g.active
  pub full : (block g v).next ≡ pages

-- The round found `c` valid pages (1 or 0) and took the ghost from `g` to `g'`.
pub record Moved (c : ℕ) (g g' : Ftl) : Type 0 where
  pub use_more : used g' ≡ used g + c
  pub host : g'.host_writes ≡ g.host_writes
  pub programmed_more : g'.nand_writes ≡ g.nand_writes + c
  pub still_mapped : (m : ℕ) → is_some (map_at g' m) ≡ is_some (map_at g m)
  pub open_valid : 1 ≤ valid_pages (block g g.active) → 1 ≤ valid_pages (block g' g'.active)

module _ {f g : Ftl} (v k : ℕ) (h : Ghost v k f g) (s : IsSound v g) where
  abbrev ghost_state : List Page
  ghost_state = (block g v).state

  size : length f.nand ≡ blocks
  size = sym (length-set f.nand v _) ∙ ap length (sym h.nand) ∙ s.inv.nand_size

  -- The victim of the ghost has the reverse map of the real one.
  victim-eq : block g v ≡ record (block f v) { state = ghost_state }
  victim-eq =
      ap (λ bs. get_or bs v blank) h.nand
      ∙ get_or-set_self f.nand v _ blank (omega (arith, size, s.block_in))

  pub lba-eq : (p : ℕ) → lba_at g v p ≡ lba_at f v p
  lba-eq p = ap (λ b. get_or b.lba p 0) victim-eq

  full-f : (block f v).next ≡ pages
  full-f = sym (ap (λ b. b.next) victim-eq) ∙ s.full

  module _ (hk : k < pages) (here : state_at f v k ≡ valid) where
    abbrev l : ℕ
    l = lba_at g v k

    abbrev q : ℕ
    q = v * pages + k

    abbrev g₁ : Ftl
    g₁ = trim g l

    -- the victim once page `k` is stale too
    abbrev victim₁ : Block
    victim₁ = record (block f v) { state = set ghost_state k stale }

    pub owned : (l < lbas) × (map_at g l ≡ some q)
    owned = s.inv.owned v k s.block_in hk (h.left k (omega arith) ∙ here)

    g₁-trimmed : g₁ ≡ trimmed g l q
    g₁-trimmed = trim-some g l q owned.1

    nand₁ : g₁.nand ≡ set f.nand v victim₁
    unfolding set_state
    nand₁ =
        ap (λ t. t.nand) g₁-trimmed
        ∙ ap₂ (λ i p. set g.nand i (staled (block g i) p)) (omega arith) (omega arith)
        ∙ ap (λ b. set g.nand v (record b { state = set ghost_state k stale })) victim-eq
        ∙ ap (λ bs. set bs v victim₁) h.nand
        ∙ set-set f.nand v _ victim₁

    block₁-victim : block g₁ v ≡ victim₁
    block₁-victim =
        ap (λ bs. get_or bs v blank) nand₁
        ∙ get_or-set_self f.nand v victim₁ blank (omega (arith, size, s.block_in))

    block₁-other : (a : ℕ) → v ≢ a → block g₁ a ≡ block f a
    block₁-other a ne =
        ap (λ bs. get_or bs a blank) nand₁ ∙ get_or-set_ne f.nand v a victim₁ blank ne

    pub opens-same : (naive : Bool) → open_block naive f ≡ open_block naive g₁
    opens-same naive =
        open_block-Alike f g₁ (sym ((trim-counters g l).2 ∙ h.active))
          (subst (Alike f.nand) (sym nand₁) (Alike-set f.nand v (set ghost_state k stale))) naive

    module _ (a : ℕ) (o : Opens (moved_v s.inv l a owned.0) a) where
      abbrev pub f' : Ftl
      f' = programs f a l

      abbrev pub g' : Ftl
      g' = programs g₁ a l

      not_victim : v ≢ a
      not_victim e = elim o.2 [
        | inl same ↦ s.not_open (e ∙ same ∙ (trim-counters g l).2)
        | inr (_, (_, z)) ↦ absurd (
            omega (arith, full-f, ap (λ b. b.next) block₁-victim, ap (λ i. (block g₁ i).next) e, z))
      ]

      nand' : g'.nand ≡ set f'.nand v victim₁
      unfolding program_page
      nand' =
          ap₂ (λ bs b. set bs a (programmed b l)) nand₁ (block₁-other a not_victim)
          ∙ set-set_ne f.nand v a victim₁ (programmed (block f a) l) not_victim

      map' : g'.map ≡ f'.map
      unfolding program_page set_state
      map' =
          ap (λ m. set m l (some (a * pages + (block g₁ a).next)))
            (ap (λ t. t.map) g₁-trimmed ∙ ap (λ m. set m l none) h.map)
          ∙ set-set f.map l none (some (a * pages + (block g₁ a).next))
          ∙ ap (λ b. set f.map l (some (a * pages + b.next))) (block₁-other a not_victim)

      pub victim-f' : block f' v ≡ block f v
      unfolding program_page
      victim-f' = get_or-set_ne f.nand a v _ blank (λ e. not_victim (sym e))

      victim-g' : block g' v ≡ victim₁
      victim-g' =
          ap (λ bs. get_or bs v blank) nand'
          ∙ get_or-set_self f'.nand v victim₁ blank (
              omega (
                arith,
                ap length nand',
                length-set f'.nand v victim₁,
                (programs-Wrote s.inv l a owned.0 o).inv.nand_size,
                s.block_in,
              ))

      state-g' : (p : ℕ) → state_at g' v p ≡ get_or (set ghost_state k stale) p free
      state-g' p = ap (λ b. get_or b.state p free) victim-g'

      moved' : (p : ℕ) → p < suc k → state_at g' v p ≢ valid
      moved' p hp e = elim (ℕ_discrete k p) [
        | yes same ↦ cc (
          get_or-set_self ghost_state k stale free
              (omega (arith, (s.inv.block_ok v s.block_in).states)),
          state-g' p,
          ap (get_or (set ghost_state k stale)) same,
        )
        | no other ↦
            h.moved p (omega arith)
              (sym (get_or-set_ne ghost_state k p stale free other) ∙ sym (state-g' p) ∙ e)
      ]

      left' : (p : ℕ) → suc k ≤ p → state_at g' v p ≡ state_at f' v p
      left' p hp =
          state-g' p
          ∙ get_or-set_ne ghost_state k p stale free (omega arith)
          ∙ h.left p (omega arith)
          ∙ sym (ap (λ b. get_or b.state p free) victim-f')

      pub Ghost-step : Ghost v (suc k) f' g'
      unfolding program_page
      Ghost-step = record {
        active = refl;
        map = map';
        host = (trim-counters g l).0 ∙ h.host;
        programs = ap (λ n. n + 1) ((trim-counters g l).1 ∙ h.programs);
        nand =
            nand'
            ∙ ap₂ (λ b st. set f'.nand v (record b { state = st })) (sym victim-f')
                (sym (ap (λ b. b.state) victim-g'));
        moved = moved';
        left = left';
      }

      wrote : Wrote g l g'
      wrote = programs-Wrote s.inv l a owned.0 o

      pub Moved-step : Moved 1 g g'
      Moved-step = record {
        use_more = wrote.one_more;
        host = wrote.host;
        programmed_more = wrote.programmed_one;
        still_mapped = λ m. elim (ℕ_discrete l m) [
          | yes same ↦
              sym (ap (λ m. is_some (map_at g' m)) same)
              ∙ wrote.now_mapped
              ∙ sym (ap is_some owned.1)
              ∙ ap (λ m. is_some (map_at g m)) same
          | no other ↦ ap is_some (wrote.others_kept m other)
        ];
        open_valid = λ _. wrote.open_valid;
      }

      pub IsSound-step : IsSound v g'
      unfolding program_page
      IsSound-step = record {
        inv = wrote.inv;
        block_in = s.block_in;
        not_open = not_victim;
        full = ap (λ b. b.next) victim-g' ∙ full-f;
      }

      pub valid-step : 1 + valid_pages (block g' v) ≡ valid_pages (block g v)
      valid-step = omega (
        arith,
        ap valid_pages victim-g',
        staled-counts (block g v) (s.inv.block_ok v s.block_in) k (h.left k (omega arith) ∙ here),
      )

-- ===== src/Ftl/Collect.antt =====
-- `garbage_collect` of 09_garbage_collect.c: it keeps the invariant and gains the stale pages.
use inside_the_cpu_storage_a.Base.{
  ℕ, ◌+◌, ◌-◌, ◌*◌, ◌/◌, ◌%◌, ◌≤◌, ◌<◌, ◌≡◌, refl, ap, ap₂, sym, subst, ◌⊎◌, inl, inr, ◌≢◌, ◌∙◌,
  Bool, true, false, Option, none, some, arith, length, get_or, set, length-set, get_or-set_self,
  get_or-set_ne, set-set, is_some, total-set, total-const, ℕ_discrete, get_or-replicate,
  get_or-le-total,
}
use inside_the_cpu_storage_a.Ftl.{
  Page, free, valid, stale, Block, Ftl, blocks, pages, lbas, blank, block, is_valid, one_if,
  valid_pages, stale_pages, victim,
}
use inside_the_cpu_storage_a.Ftl.Loops.{move_pages, erase, garbage_collect}
use inside_the_cpu_storage_a.Ftl.Blocks.{IsBlock, blank-IsBlock, valid-lt-next}
use inside_the_cpu_storage_a.Ftl.Inv.{Inv, state_at, map_at}
use inside_the_cpu_storage_a.Ftl.Victim.{Greediest, victim-Greediest}
use inside_the_cpu_storage_a.Ftl.Space.{used}
use inside_the_cpu_storage_a.Ftl.Ghost.{Ghost, Ghost-start, IsSound}
use inside_the_cpu_storage_a.Ftl.Move.{Rounds, rounds}

-- A list of pages none of which is valid.
no_valid_pages :
    (b : Block)
    → IsBlock b
    → ((p : ℕ) → p < pages → get_or b.state p free ≢ valid)
    → valid_pages b ≡ 0
no_valid_pages b v h = omega (arith, total-const (λ s. one_if (is_valid s)) 0 b.state free each)
  where
    none_valid : (s : Page) → s ≢ valid → one_if (is_valid s) ≡ 0
    none_valid free ne = refl
    none_valid valid ne = absurd (ne refl)
    none_valid stale ne = refl

    each : (i : ℕ) → i < length b.state → one_if (is_valid (get_or b.state i free)) ≡ 0
    each i hi = none_valid _ (h i (omega (arith, v.states)))

module _ {g : Ftl} (v : ℕ) (s : IsSound v g) (empty : valid_pages (block g v) ≡ 0) where
  abbrev erased : Block
  erased = record blank { erases = (block g v).erases + 1 }

  abbrev after : Ftl
  after = erase g v

  v-in : v < length g.nand
  v-in = omega (arith, s.inv.nand_size, s.block_in)

  block_self : block after v ≡ erased
  unfolding erase
  block_self = get_or-set_self g.nand v erased blank v-in

  block-other : (i : ℕ) → v ≢ i → block after i ≡ block g i
  unfolding erase
  block-other i ne = get_or-set_ne g.nand v i erased blank ne

  -- A block with a valid page is another one.
  holds_valid : (i p : ℕ) → i < blocks → state_at g i p ≡ valid → v ≢ i
  holds_valid i p hi e same =
      let there : get_or (block g v).state p free ≡ valid = ap (λ k. state_at g k p) same ∙ e in
      let ok = s.inv.block_ok v s.block_in in
      let below = valid-lt-next (block g v) ok p there in
      absurd (
        omega (
          arith,
          get_or-le-total (λ s. one_if (is_valid s)) (block g v).state p free
              (omega (arith, ok.states, ok.next_in)),
          ap (λ s. one_if (is_valid s)) there,
          empty,
        ))

  erased_state : (p : ℕ) → state_at after v p ≢ valid
  erased_state p e = cc (ap (λ b. get_or b.state p free) block_self ∙ get_or-replicate pages p free)

  erase-block_ok : (i : ℕ) → i < blocks → IsBlock (block after i)
  erase-block_ok i h = elim (ℕ_discrete v i) [
    | yes e ↦
        subst (λ k. IsBlock (block after k)) e (subst IsBlock (sym block_self) (blank-IsBlock _))
    | no ne ↦ subst IsBlock (sym (block-other i ne)) (s.inv.block_ok i h)
  ]

  erase-filled :
      (i : ℕ)
      → i < blocks
      → i ≢ g.active
      → ((block after i).next ≡ 0) ⊎ ((block after i).next ≡ pages)
  erase-filled i h ne = elim (ℕ_discrete v i) [
    | yes e ↦ inl (subst (λ k. (block after k).next ≡ 0) e (ap (λ b. b.next) block_self))
    | no other ↦
        subst (λ b. (b.next ≡ 0) ⊎ (b.next ≡ pages)) (sym (block-other i other))
          (s.inv.filled i h ne)
  ]

  -- Erasing a full block with no valid page keeps the invariant.
  erase-Inv : Inv after
  unfolding erase
  erase-Inv = record {
    nand_size = length-set g.nand v erased ∙ s.inv.nand_size;
    map_size = s.inv.map_size;
    active_in = s.inv.active_in;
    block_ok = erase-block_ok;
    filled = erase-filled;
    mapped = λ l q hl e.
        let (q_in, valid_q, lba_q) = s.inv.mapped l q hl e in
        let same =
          block-other (q / pages) (holds_valid (q / pages) (q % pages) (omega arith) valid_q) in
        (
          q_in,
          ap (λ b. get_or b.state (q % pages) free) same ∙ valid_q,
          ap (λ b. get_or b.lba (q % pages) 0) same ∙ lba_q,
        );
    owned = λ i p hi hp e. elim (ℕ_discrete v i) [
      | yes e' ↦ absurd (erased_state p (ap (λ k. state_at after k p) e' ∙ e))
      | no other ↦
          let same = block-other i other in
          subst
            (λ b. (get_or b.lba p 0 < lbas) × (map_at g (get_or b.lba p 0) ≡ some (i * pages + p)))
            (sym same) (s.inv.owned i p hi hp (sym (ap (λ b. get_or b.state p free) same) ∙ e))
    ];
    counts = omega (arith, total-set valid_pages g.nand v erased blank v-in, s.inv.counts);
  }

  used-erase : used after + pages ≡ used g
  unfolding erase
  used-erase = omega (arith, total-set (λ b. b.next) g.nand v erased blank v-in, s.full)

  erase-open : 1 ≤ valid_pages (block g g.active) → 1 ≤ valid_pages (block after after.active)
  unfolding erase
  erase-open o = rw (block-other g.active s.not_open) o

-- What `erase` leaves alone.
erase-host : (g : Ftl) (v : ℕ) → (erase g v).host_writes ≡ g.host_writes
unfolding erase
erase-host g v = refl

erase-programs : (g : Ftl) (v : ℕ) → (erase g v).nand_writes ≡ g.nand_writes
unfolding erase
erase-programs g v = refl

erase-map : (g : Ftl) (v k : ℕ) → map_at (erase g v) k ≡ map_at g k
unfolding erase
erase-map g v k = refl

-- What collecting block `v` does to a drive.
pub record Collected (v : ℕ) (f g : Ftl) : Type 0 where
  pub inv : Inv g
  pub gain : used g + stale_pages (block f v) ≡ used f
  pub host : g.host_writes ≡ f.host_writes
  pub cost : g.nand_writes ≡ f.nand_writes + valid_pages (block f v)
  pub worn : block g v ≡ record blank { erases = (block f v).erases + 1 }
  pub still_mapped : (m : ℕ) → is_some (map_at g m) ≡ is_some (map_at f m)
  pub open_valid : 1 ≤ valid_pages (block f f.active) → 1 ≤ valid_pages (block g g.active)

-- The real drive and its ghost are one once the victim is erased.
erase-Ghost : (v : ℕ) (f g : Ftl) → Ghost v pages f g → v < length f.nand → erase g v ≡ erase f v
unfolding erase
erase-Ghost v f g h hv = λ i. record {
  nand = same_nand i;
  map = h.map i;
  active = h.active i;
  host_writes = h.host i;
  nand_writes = h.programs i;
}
  where
    victim-eq : (block g v).erases ≡ (block f v).erases
    victim-eq =
        ap (λ bs. (get_or bs v blank).erases) h.nand
        ∙ ap (λ b. b.erases) (get_or-set_self f.nand v _ blank hv)

    same_nand :
        set g.nand v (record blank { erases = (block g v).erases + 1 })
        ≡ set f.nand v (record blank { erases = (block f v).erases + 1 })
    same_nand =
        ap₂ (λ bs n. set bs v (record blank { erases = n + 1 })) h.nand victim-eq
        ∙ set-set f.nand v _ _

module _ (naive : Bool) {f : Ftl} (i : Inv f) (v most : ℕ) where
  victim-IsSound : Greediest naive f (length f.nand) (some v) most → IsSound v f
  victim-IsSound best = record {
    inv = i;
    block_in = omega (arith, i.nand_size, best.0);
    not_open = best.1;
    full = elim (i.filled v (omega (arith, i.nand_size, best.0)) best.1) [
      | inr full ↦ full
      | inl empty ↦ absurd (
          omega (
            arith,
            (i.block_ok v (omega (arith, i.nand_size, best.0))).used,
            empty,
            best.2,
            best.3,
          ))
    ];
  }

  finished :
      IsSound v f
      → Rounds naive v pages 0 f f
      → (f' : Ftl) × (move_pages naive v pages 0 f ≡ some f') × Collected v f (erase f' v)
  finished s (f', g', c, e, h, s', m, n, b) = (f', e, subst (Collected v f) one ghost)
    where
      empty : valid_pages (block g' v) ≡ 0
      empty = no_valid_pages (block g' v) (s'.inv.block_ok v s'.block_in) h.moved

      size : length f'.nand ≡ blocks
      size = sym (length-set f'.nand v _) ∙ ap length (sym h.nand) ∙ s'.inv.nand_size

      one : erase g' v ≡ erase f' v
      one = erase-Ghost v f' g' h (omega (arith, size, s'.block_in))

      same_erases : (block g' v).erases ≡ (block f v).erases
      same_erases =
          ap (λ bs. (get_or bs v blank).erases) h.nand
          ∙ ap (λ b. b.erases)
              (get_or-set_self f'.nand v _ blank (omega (arith, size, s'.block_in)))
          ∙ ap (λ b. b.erases) b

      ghost : Collected v f (erase g' v)
      ghost = record {
        inv = erase-Inv v s' empty;
        gain = omega (
          arith,
          used-erase v s' empty,
          m.use_more,
          (s.inv.block_ok v s.block_in).used,
          s.full,
          empty,
          n,
        );
        host = erase-host g' v ∙ m.host;
        cost = erase-programs g' v ∙ omega (arith, m.programmed_more, empty, n);
        worn = block_self v s' empty ∙ ap (λ n. record blank { erases = n + 1 }) same_erases;
        still_mapped = λ k. ap is_some (erase-map g' v k) ∙ m.still_mapped k;
        open_valid = λ o. erase-open v s' empty (m.open_valid o);
      }

  collected :
      Greediest naive f (length f.nand) (some v) most
      → used f ≤ pages * (blocks - 1)
      → (f' : Ftl) × (move_pages naive v pages 0 f ≡ some f') × Collected v f (erase f' v)
  collected best room =
      let s = victim-IsSound best in
      let counted = (i.block_ok v s.block_in).used in
      finished s (
        rounds naive v pages 0 f f refl (Ghost-start v f) s (omega (arith, s.full, best.2, best.3)))

-- On a drive that is in order, and has programmed no more pages than all blocks but one hold,
-- `garbage_collect` finds no victim and changes nothing, or erases its victim, which had a stale page,
-- once the pages in use there are moved: the drive is in order again, the programmed pages fall by
-- the victim's stale pages, each valid page of the victim costs one NAND write, every LBA
-- stays mapped or not as it was, and the victim is blank with one more erase.
pub garbage_collect-total :
    (naive : Bool) {f : Ftl}
    → Inv f
    → used f ≤ pages * (blocks - 1)
    → ((victim naive f ≡ none) × (garbage_collect naive f ≡ some (f, false)))
      ⊎ ((v : ℕ) × (g : Ftl) × (victim naive f ≡ some v)
          × (garbage_collect naive f ≡ some (g, true))
          × (0 < stale_pages (block f v))
          × Collected v f g)
unfolding garbage_collect
garbage_collect-total naive {f} i room = go (victim naive f) refl (victim-Greediest naive f)
  where
    go :
        (o : Option ℕ)
        → victim naive f ≡ o
        → (most : ℕ) × Greediest naive f (length f.nand) o most
        → ((victim naive f ≡ none) × (garbage_collect naive f ≡ some (f, false)))
          ⊎ ((v : ℕ) × (g : Ftl) × (victim naive f ≡ some v)
              × (garbage_collect naive f ≡ some (g, true))
              × (0 < stale_pages (block f v))
              × Collected v f g)
    go none e best = inl (e, rw (e, garbage_collect))
    go (some v) e (most, best) =
        let (f', moved, c) = collected naive i v most best room in
        inr (v, erase f' v, e, rw (e, garbage_collect) (rw moved), omega (arith, best.2, best.3), c)

-- ===== src/Ftl/Write.antt =====
-- `write` of 08_ftl_write.c: every host write succeeds and leaves two erased blocks.
use inside_the_cpu_storage_a.Base.{
  ℕ, zero, suc, ◌+◌, ◌-◌, ◌*◌, ◌≤◌, ◌<◌, ◌≡◌, refl, ap, sym, subst, inl, inr, ◌≢◌, ◌∙◌, Bool, true,
  none, some, arith, length, get_or, set, length-set, get_or-set_self, get_or-set_ne, is_some,
  total, total-set, total-const, ltb, if◌then◌else◌, Bool-cases, ltb→lt, ne→==, ==_iff, ◌==◌,
  ℕ_discrete,
}
use inside_the_cpu_storage_a.Ftl.{
  Ftl, blocks, pages, lbas, blank, block, valid_pages, stale_pages, erased_blocks, victim,
}
use inside_the_cpu_storage_a.Ftl.Loops.{collect, enough_rounds, write}
use inside_the_cpu_storage_a.Ftl.Inv.{Inv, map_at}
use inside_the_cpu_storage_a.Ftl.Victim.{Greediest, victim-Greediest}
use inside_the_cpu_storage_a.Ftl.Space.{used, used-erased_blocks, used-split, valid-le-lbas}
use inside_the_cpu_storage_a.Ftl.Step.{Wrote, write_no_gc-Wrote}
use inside_the_cpu_storage_a.Ftl.Collect.{garbage_collect-total}

-- If nothing outside the open block is stale, the drive has two erased blocks: it has more pages
-- than the host has LBAs.
enough_erased :
    (naive : Bool) {f : Ftl}
    → Inv f
    → victim naive f ≡ none
    → 1 ≤ valid_pages (block f f.active)
    → 2 ≤ erased_blocks f
enough_erased naive {f} i e o = omega (
  arith,
  used-erased_blocks i,
  used-split i,
  valid-le-lbas i,
  stale_total,
  (i.block_ok f.active i.active_in).used,
)
  where
    nothing : (j : ℕ) → j < length f.nand → j ≢ f.active → stale_pages (block f j) ≡ 0
    nothing =
        (subst (λ r. Greediest naive f (length f.nand) r (victim-Greediest naive f).0) e
          (victim-Greediest naive f).1).1

    active-in : f.active < length f.nand
    active-in = omega (arith, i.nand_size, i.active_in)

    each :
        (j : ℕ)
        → j < length (set f.nand f.active blank)
        → stale_pages (get_or (set f.nand f.active blank) j blank) ≡ 0
    each j h = elim (ℕ_discrete f.active j) [
      | yes same ↦
          subst (λ k. stale_pages (get_or (set f.nand f.active blank) k blank) ≡ 0) same
            (ap stale_pages (get_or-set_self f.nand f.active blank blank active-in))
      | no other ↦
          ap stale_pages (get_or-set_ne f.nand f.active j blank blank other)
          ∙ nothing j (omega (arith, length-set f.nand f.active blank)) (λ same. other (sym same))
    ]

    stale_total : total stale_pages f.nand ≡ stale_pages (block f f.active)
    stale_total = omega (
      arith,
      total-set stale_pages f.nand f.active blank blank active-in,
      total-const stale_pages 0 (set f.nand f.active blank) blank each,
    )

-- What the collections after a write leave.
pub record Settled (f g : Ftl) : Type 0 where
  pub inv : Inv g
  pub two_erased : 2 ≤ erased_blocks g
  pub host : g.host_writes ≡ f.host_writes
  pub programs : f.nand_writes ≤ g.nand_writes
  pub still_mapped : (m : ℕ) → is_some (map_at g m) ≡ is_some (map_at f m)

-- The loop ends within the fuel, with two erased blocks.
collect-Settled :
    (naive : Bool) (fuel : ℕ) {f : Ftl}
    → Inv f
    → used f ≤ pages * (blocks - 1)
    → used f < fuel
    → 1 ≤ valid_pages (block f f.active)
    → (g : Ftl) × (collect naive fuel f ≡ some g) × Settled f g
unfolding collect
collect-Settled naive zero i room more o = absurd (omega arith)
collect-Settled naive (suc n) {f} i room more o = elim (Bool-cases (ltb (erased_blocks f) 2)) [
  | inr plenty ↦ rw plenty (
    f,
    refl,
    record {
      inv = i;
      two_erased = ground arith;
      host = refl;
      programs = omega arith;
      still_mapped = λ m. refl;
    },
  )
  | inl few ↦ rw few (elim (garbage_collect-total naive i room) [
    | inl (no_victim, e) ↦ absurd (omega (arith, ltb→lt _ _ few, enough_erased naive i no_victim o))
    | inr (v, g, _, e, gain, c) ↦
        let (g', e', s) =
          collect-Settled naive n c.inv (omega (arith, c.gain)) (omega (arith, c.gain))
            (c.open_valid o) in
        rw e (
          g',
          e',
          record {
            inv = s.inv;
            two_erased = s.two_erased;
            host = s.host ∙ c.host;
            programs = omega (arith, s.programs, c.cost);
            still_mapped = λ m. s.still_mapped m ∙ c.still_mapped m;
          },
        )
  ])
]

-- A drive between two host writes.
pub record Ready (f : Ftl) : Type 0 where
  pub inv : Inv f
  pub two_erased : 2 ≤ erased_blocks f

-- What one host write of `l` does.
pub record Written (l : ℕ) (f g : Ftl) : Type 0 where
  pub ready : Ready g
  pub host : g.host_writes ≡ f.host_writes + 1
  pub programs : f.nand_writes + 1 ≤ g.nand_writes
  pub mapped : (m : ℕ) → is_some (map_at g m) ≡ (if l == m then true else is_some (map_at f m))

pub Ready-used : {f : Ftl} → Ready f → used f ≤ pages * (blocks - 2)
Ready-used {f} r = omega (
  arith,
  used-erased_blocks r.inv,
  r.two_erased,
  (r.inv.block_ok f.active r.inv.active_in).next_in,
)

-- On a drive that is ready `write` succeeds for every LBA in range, with or without wear leveling: it
-- maps that LBA, keeps the others mapped or not as they were, counts one host write and at least
-- one NAND write, and leaves the drive ready.
pub write-Written :
    (naive : Bool) {f : Ftl} (l : ℕ)
    → Ready f
    → l < lbas
    → (g : Ftl) × (write naive f l ≡ some g) × Written l f g
unfolding write
write-Written naive {f} l r hl =
    let (f₁, e, w) = write_no_gc-Wrote naive l r.inv hl (omega (arith, Ready-used r)) in
    let (g, e', s) =
      collect-Settled naive enough_rounds w.inv (omega (arith, w.one_more, Ready-used r))
        (omega (arith, w.one_more, Ready-used r)) w.open_valid in
    rw e (
      g,
      e',
      record {
        ready = record { inv = s.inv; two_erased = s.two_erased };
        host = s.host ∙ w.host;
        programs = omega (arith, s.programs, w.programmed_one);
        mapped = λ m. s.still_mapped m ∙ now m w;
      },
    )
  where
    now :
        {f f₁ : Ftl} (m : ℕ)
        → Wrote f l f₁
        → is_some (map_at f₁ m) ≡ (if l == m then true else is_some (map_at f m))
    now {f} {f₁} m w = elim (ℕ_discrete l m) [
      | yes same ↦
          rw ((==_iff l m).1 same) (ap (λ k. is_some (map_at f₁ k)) (sym same) ∙ w.now_mapped)
      | no other ↦ rw (ne→== l m other) (ap is_some (w.others_kept m other))
    ]

-- ===== src/Ftl/Step.antt =====
-- `program` and `write_no_gc` of the flash translation layer: they succeed while a page is left.
use inside_the_cpu_storage_a.Base.{
  ℕ, ◌+◌, ◌*◌, ◌/◌, ◌%◌, ◌≤◌, ◌<◌, ◌≡◌, refl, ap, ap₂, sym, inl, inr, ◌≢◌, ◌∙◌, Bool, true, Option,
  none, some, arith, set, total-set, get_or-set_self, get_or-set_ne, set-set, is_some, Option-cases,
  ◌>>=◌,
}
use mathlib.Core.Path.{fun_ext}
use inside_the_cpu_storage_a.Ftl.{
  stale, Ftl, blocks, pages, lbas, blank, block, valid_pages, set_state, open_block, program_page,
  program, trim, invalidate, write_no_gc,
}
use inside_the_cpu_storage_a.Ftl.Blocks.{programmed, programmed-counts, staled}
use inside_the_cpu_storage_a.Ftl.Inv.{Inv, map_at}
use inside_the_cpu_storage_a.Ftl.Program.{program_page-Inv}
use inside_the_cpu_storage_a.Ftl.Trim.{
  trimmed, trim-none, trim-some, trim-Inv, invalidate-none, invalidate-some, block-same,
}
use inside_the_cpu_storage_a.Ftl.Alike.{Alike-refl, open_block-Alike}
use inside_the_cpu_storage_a.Ftl.Space.{used, Opens, open_block-total, open-Inv}

-- The drive that `program` leaves when it has opened block `a`.
abbrev pub programs : Ftl → ℕ → ℕ → Ftl
programs f a l = program_page (record f { active = a }) l

pub program-some :
    (naive : Bool) (f : Ftl) (l a : ℕ)
    → open_block naive f ≡ some a
    → program naive f l ≡ some (programs f a l)
unfolding program
program-some naive f l a e = rw (e, program)

-- The fields of the drive after `program`.
pub programs_fields :
    (f : Ftl) (a l : ℕ)
    → let g = programs f a l in
      (g.nand ≡ set f.nand a (programmed (block f a) l))
      × (g.map ≡ set f.map l (some (a * pages + (block f a).next)))
      × (g.active ≡ a)
      × (g.host_writes ≡ f.host_writes)
      × (g.nand_writes ≡ f.nand_writes + 1)
unfolding program_page
programs_fields f a l = (refl, refl, refl, refl, refl)

module _ {f : Ftl} (v : Inv f) (a l : ℕ) (o : Opens v a) (hl : l < lbas) where
  abbrev after : Ftl
  after = programs f a l

  pub programs-Inv : map_at f l ≡ none → Inv after
  programs-Inv unmapped = program_page-Inv (open-Inv v a o) l o.1 hl unmapped

  -- One more page is used.
  pub used-programs : used after ≡ used f + 1
  unfolding program_page
  used-programs = omega (
    arith,
    total-set (λ b. b.next) f.nand a (programmed (block f a) l) blank
        (omega (arith, v.nand_size, o.0)),
  )

  -- It holds the data of `l`.
  pub programs-valid : 1 ≤ valid_pages (block after after.active)
  unfolding program_page
  programs-valid =
      rw
        (get_or-set_self f.nand a (programmed (block f a) l) blank
          (omega (arith, v.nand_size, o.0)))
        (omega (arith, programmed-counts (block f a) (v.block_ok a o.0) l o.1))

  pub programs-map_self : map_at after l ≡ some (a * pages + (block f a).next)
  unfolding program_page
  programs-map_self = get_or-set_self f.map l _ none (omega (arith, v.map_size))

  pub programs-map_other : (m : ℕ) → l ≢ m → map_at after m ≡ map_at f m
  unfolding program_page
  programs-map_other m ne = get_or-set_ne f.map l m _ none ne

-- `program` overwrites the map at `l`.
program_page-map :
    (f : Ftl) (a l : ℕ) (m : Option ℕ)
    → programs f a l ≡ programs (record f { map = set f.map l m }) a l
unfolding program_page
program_page-map f a l m =
    ap (λ t. record (programs f a l) { map = t })
      (sym (set-set f.map l m (some (a * pages + (block f a).next))))

-- So the first half of `write` may as well be a `trim`.
pub relocate :
    (naive : Bool) (f : Ftl) (l : ℕ) → program naive (invalidate f l) l ≡ program naive (trim f l) l
unfolding program set_state
relocate naive f l = elim (Option-cases (map_at f l)) [
  | inl e ↦ rw (invalidate-none f l e, trim-none f l e)
  | inr (q, e) ↦
      let before : Ftl = set_state f q stale in
      rw (invalidate-some f l q e, trim-some f l q e)
        (ap₂ (◌>>=◌ {A = ℕ} {B = Ftl})
          (open_block-Alike before (trimmed f l q) refl (Alike-refl _) naive)
          (fun_ext (λ a. ap some (program_page-map before a l none))))
]

-- What giving `l` a new page does to a drive.
pub record Wrote (f : Ftl) (l : ℕ) (g : Ftl) : Type 0 where
  pub inv : Inv g
  pub one_more : used g ≡ used f + 1
  pub open_valid : 1 ≤ valid_pages (block g g.active)
  pub now_mapped : is_some (map_at g l) ≡ true
  pub others_kept : (m : ℕ) → l ≢ m → map_at g m ≡ map_at f m
  pub host : g.host_writes ≡ f.host_writes
  pub programmed_one : g.nand_writes ≡ f.nand_writes + 1

pub used-trim : {f : Ftl} (v : Inv f) (l : ℕ) → l < lbas → used (trim f l) ≡ used f
unfolding set_state
used-trim {f} v l hl = elim (Option-cases (map_at f l)) [
  | inl e ↦ ap used (trim-none f l e)
  | inr (q, e) ↦
      ap used (trim-some f l q e)
      ∙ omega (
        arith,
        total-set (λ b. b.next) f.nand (q / pages) (staled (block f (q / pages)) (q % pages)) blank
            (omega (arith, v.nand_size, v.mapped l q hl e)),
      )
]

pub trim-map_self : {f : Ftl} (v : Inv f) (l : ℕ) → l < lbas → map_at (trim f l) l ≡ none
trim-map_self {f} v l hl = elim (Option-cases (map_at f l)) [
  | inl e ↦ ap (λ g. map_at g l) (trim-none f l e) ∙ e
  | inr (q, e) ↦
      ap (λ g. map_at g l) (trim-some f l q e)
      ∙ get_or-set_self f.map l none none (omega (arith, v.map_size))
]

pub trim-map_other : (f : Ftl) (l m : ℕ) → l ≢ m → map_at (trim f l) m ≡ map_at f m
trim-map_other f l m ne = elim (Option-cases (map_at f l)) [
  | inl e ↦ ap (λ g. map_at g m) (trim-none f l e)
  | inr (q, e) ↦ ap (λ g. map_at g m) (trim-some f l q e) ∙ get_or-set_ne f.map l m none none ne
]

pub trim-counters :
    (f : Ftl) (l : ℕ)
    → ((trim f l).host_writes ≡ f.host_writes)
      × ((trim f l).nand_writes ≡ f.nand_writes)
      × ((trim f l).active ≡ f.active)
unfolding trim set_state
trim-counters f l = ground arith

module _ {f : Ftl} (v : Inv f) (l a : ℕ) (hl : l < lbas) where
  abbrev pub moved_v : Inv (trim f l)
  moved_v = trim-Inv l hl v

  -- `trim`, then `program`: what both a host write and a move of the collector come to.
  pub programs-Wrote : Opens moved_v a → Wrote f l (programs (trim f l) a l)
  programs-Wrote o = record {
    inv = programs-Inv moved_v a l o hl (trim-map_self v l hl);
    one_more = used-programs moved_v a l o hl ∙ ap (λ n. n + 1) (used-trim v l hl);
    open_valid = programs-valid moved_v a l o hl;
    now_mapped = ap is_some (programs-map_self moved_v a l o hl);
    others_kept = λ m ne. programs-map_other moved_v a l o hl m ne ∙ trim-map_other f l m ne;
    host = (programs_fields (trim f l) a l).3 ∙ (trim-counters f l).0;
    programmed_one = (programs_fields (trim f l) a l).4 ∙ ap (λ n. n + 1) (trim-counters f l).1;
  }

-- The counters are no part of the invariant.
pub host_writes-Inv :
    {f : Ftl} (h n : ℕ) → Inv f → Inv (record f { host_writes = h; nand_writes = n })
host_writes-Inv h n v = record {
  nand_size = v.nand_size;
  map_size = v.map_size;
  active_in = v.active_in;
  block_ok = v.block_ok;
  filled = v.filled;
  mapped = v.mapped;
  owned = v.owned;
  counts = v.counts;
}

-- On a drive that is in order, a host write of an LBA in range succeeds while a page is left: it
-- takes one page, maps the LBA, leaves every other LBA where it was, and keeps the drive in order.
pub write_no_gc-Wrote :
    (naive : Bool) {f : Ftl} (l : ℕ)
    → Inv f
    → l < lbas
    → used f < pages * blocks
    → (g : Ftl) × (write_no_gc naive f l ≡ some g)
      × Wrote (record f { host_writes = f.host_writes + 1 }) l g
unfolding write_no_gc
write_no_gc-Wrote naive {f} l v hl room =
    let counted : Ftl = record f { host_writes = f.host_writes + 1 } in
    let cv : Inv counted = host_writes-Inv (f.host_writes + 1) f.nand_writes v in
    let (a, e, o) = open_block-total (trim-Inv l hl cv) naive (omega (arith, used-trim cv l hl)) in
    (
      programs (trim counted l) a l,
      relocate naive counted l ∙ program-some naive (trim counted l) l a e,
      programs-Wrote cv l a hl o,
    )

-- `trim` programs no page and opens no block.
pub trim-next :
    {f : Ftl} (v : Inv f) (l : ℕ)
    → l < lbas
    → (block (trim f l) (trim f l).active).next ≡ (block f f.active).next
trim-next {f} v l hl = elim (Option-cases (map_at f l)) [
  | inl e ↦ ap (λ g. (block g g.active).next) (trim-none f l e)
  | inr (q, e) ↦
      ap (λ g. (block g g.active).next) (trim-some f l q e)
      ∙ ap (λ a. (block (trimmed f l q) a).next)
          (sym (ap (λ g. g.active) (trim-some f l q e)) ∙ (trim-counters f l).2)
      ∙ block-same v l q hl e f.active
]

-- ===== src/Ftl.antt =====
-- The flash translation layer of 06-storage-lab-inside-an-ssd-nand-ftl-in-10-minutes: the drive of
-- 07_ftl_model.c and the operations that 07 to 12 share. The global `g_naive` of
-- 12_wear_leveling.c is the argument `naive`; the other programs are the case `false`.
-- `int` and `long` counters are unbounded here. A -1 is `none`, and `none` as the result of an
-- operation is an access to `nand[-1]`, which the C program does not guard.
pub mod Loops
mod Blocks
mod Inv
mod Program
mod Trim
mod Choice
mod Victim
mod Space
mod Alike
mod Step
mod Ghost
mod Move
mod Collect
mod Write
mod Check
pub mod Host
pub mod Report
mod Random
pub mod Programs
mod Tests
use inside_the_cpu_storage_a.Base.{
  ℕ, zero, suc, ◌+◌, ◌*◌, ◌/◌, ◌%◌, ◌≡◌, Bool, true, false, not, ◌&&◌, ◌||◌, Option, none, some,
  List, [], ◌∷◌, get_or, set, replicate, total, ltb, ◌==◌, if◌then◌else◌, ◌>>=◌, is_some,
}

abbrev pub blocks : ℕ
blocks = 6

abbrev pub pages : ℕ
pages = 4

abbrev pub lbas : ℕ
lbas = 16

pub data Page : Type 0 where
  free valid stale : Page

pub record Block : Type 0 where
  pub state : List Page
  pub lba : List ℕ
  pub next : ℕ
  pub erases : ℕ

pub record Ftl : Type 0 where
  pub nand : List Block
  pub map : List (Option ℕ)
  pub active : ℕ
  pub host_writes : ℕ
  pub nand_writes : ℕ

-- `(Block){0}`
abbrev pub blank : Block
blank = record { state = replicate pages free; lba = replicate pages 0; next = 0; erases = 0 }

abbrev pub block : Ftl → ℕ → Block
block f i = get_or f.nand i blank

unfoldable pub make_ftl : Ftl
make_ftl = record {
  nand = replicate blocks blank;
  map = replicate lbas none;
  active = 0;
  host_writes = 0;
  nand_writes = 0;
}

-- `*state_of(f, ppn) = s`
unfoldable pub set_state : Ftl → ℕ → Page → Ftl
set_state f ppn s =
    let b = block f (ppn / pages) in
    record f { nand = set f.nand (ppn / pages) (record b { state = set b.state (ppn % pages) s }) }

abbrev pub is_valid : Page → Bool
is_valid valid = true
is_valid _ = false

abbrev pub is_stale : Page → Bool
is_stale stale = true
is_stale _ = false

abbrev pub one_if : Bool → ℕ
one_if b = if b then 1 else 0

abbrev pub stale_pages : Block → ℕ
stale_pages b = total (λ s. one_if (is_stale s)) b.state

abbrev pub valid_pages : Block → ℕ
valid_pages b = total (λ s. one_if (is_valid s)) b.state

-- the counting loop of `erased_blocks`, from block `i` on
pub erased_from : ℕ → ℕ → List Block → ℕ
erased_from active i [] = 0
erased_from active i (b ∷ bs) =
    one_if (not (i == active) && b.next == 0) + erased_from active (suc i) bs

unfoldable pub erased_blocks : Ftl → ℕ
unfolding erased_from
erased_blocks f = erased_from f.active 0 f.nand

-- `nand[best].erases > b.erases`, for a best that is there
abbrev pub less_worn : Ftl → Block → Option ℕ → Bool
less_worn f b none = false
less_worn f b (some j) = ltb b.erases (block f j).erases

-- the test of `victim` at block `i`: more stale pages, or a tie and fewer erases
pub preferred : Bool → Ftl → ℕ → Block → Option ℕ → ℕ → Bool
preferred naive f i b best most =
    let n = stale_pages b in
    not (i == f.active) && (ltb most n || (not naive && n == most && less_worn f b best))

-- the loop of `victim`, from block `i` on, with its `best` and `most`
pub victim_from : Bool → Ftl → ℕ → List Block → Option ℕ → ℕ → Option ℕ
victim_from naive f i [] best most = best
victim_from naive f i (b ∷ bs) best most =
    let take_it = preferred naive f i b best most in
    victim_from naive f (suc i) bs (if take_it then some i else best)
      (if take_it then stale_pages b else most)

unfoldable pub victim : Bool → Ftl → Option ℕ
unfolding victim_from
victim naive f = victim_from naive f 0 f.nand none 0

-- block `i` may be opened: it is erased and not the open one
pub unused : Ftl → ℕ → Block → Bool
unused f i b = not (i == f.active) && b.next == 0

-- `best` after block `i`, where that is unused
pub better : Ftl → ℕ → Block → Option ℕ → Option ℕ
better f i b best = if not (is_some best) || less_worn f b best then some i else best

-- the loop of `erased_block`; without wear leveling the first erased block ends it
pub erased_block_from : Bool → Ftl → ℕ → List Block → Option ℕ → Option ℕ
erased_block_from naive f i [] best = best
erased_block_from naive f i (b ∷ bs) best =
    let next_best = if unused f i b then better f i b best else best in
    let rest = erased_block_from naive f (suc i) bs next_best in
    if unused f i b && (naive && is_some best) then best else rest

unfoldable pub erased_block : Bool → Ftl → Option ℕ
unfolding erased_block_from
erased_block naive f = erased_block_from naive f 0 f.nand none

-- the first line of `program`: a full open block is replaced by an erased one
unfoldable pub open_block : Bool → Ftl → Option ℕ
open_block naive f =
    if (block f f.active).next == pages then erased_block naive f else some f.active

-- the rest of `program`, on the block that is open
unfoldable pub program_page : Ftl → ℕ → Ftl
program_page f lba =
    let b = block f f.active in
    record f {
      nand = set f.nand f.active (record b {
        state = set b.state b.next valid;
        lba = set b.lba b.next lba;
        next = b.next + 1;
      });
      map = set f.map lba (some (f.active * pages + b.next));
      nand_writes = f.nand_writes + 1;
    }

unfoldable pub program : Bool → Ftl → ℕ → Option Ftl
program naive f lba = do a ← open_block naive f; some (program_page (record f { active = a }) lba)

-- `if (f->map[lba] >= 0) *state_of(f, f->map[lba]) = PAGE_STALE`
unfoldable pub invalidate : Ftl → ℕ → Ftl
unfolding set_state
invalidate f lba = elim (get_or f.map lba none) [ none ↦ f | some ppn ↦ set_state f ppn stale ]

-- 11_trim.c
unfoldable pub trim : Ftl → ℕ → Ftl
unfolding set_state
trim f lba = elim (get_or f.map lba none) [
  | none ↦ f
  | some ppn ↦ record (set_state f ppn stale) { map = set f.map lba none }
]

-- 09_garbage_collect.c
unfoldable pub write_no_gc : Bool → Ftl → ℕ → Option Ftl
unfolding invalidate program
write_no_gc naive f lba =
    program naive (invalidate (record f { host_writes = f.host_writes + 1 }) lba) lba

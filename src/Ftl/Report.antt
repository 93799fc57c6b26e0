-- ===== src/Ftl/Report.antt =====
-- What the programs 07 to 12 of 06-storage-lab-inside-an-ssd-nand-ftl-in-10-minutes print. A line
-- holds the values that `printf` is given; the fixed text around them is left out.
use inside_the_cpu_storage_a.Base.{
  ℕ, suc, ◌-◌, ◌/◌, ◌%◌, Bool, not, Option, none, some, List, [], ◌∷◌, map, ltb, ◌==◌,
  if◌then◌else◌,
}
use Prim.Native.String.{String}
use inside_the_cpu_storage_a.Ftl.{Page, Block, Ftl, pages, block}
use inside_the_cpu_storage_a.Ftl.Loops.{consistent}

pub data Line : Type 0 where
  -- erase blocks, pages in each, pages in all, LBAs
  geometry : ℕ → ℕ → ℕ → ℕ → Line
  -- spare pages, percent of the visible capacity
  provisioning : ℕ → ℕ → Line
  -- number, pages with the LBA that each carries, erases, open
  block_row : ℕ → List (Page × ℕ) → ℕ → Bool → Line
  -- LBA, page, and the page's block and place there
  map_row : ℕ → Option (ℕ × ℕ × ℕ) → Line
  -- name, host writes, NAND writes, write amplification as a fraction, erases, map broken
  summary : String → ℕ → ℕ → Option (ℕ × ℕ) → List ℕ → Bool → Line
  -- victim and erased blocks left
  choice : Option ℕ → ℕ → Line
  -- whether a block was erased
  outcome : Bool → Line
  -- LBA, page before, page after
  moved_row : ℕ → Option ℕ → Option ℕ → Line
  extra_writes : ℕ → Line
  spread_row : ℕ → Line
  mode : Bool → Line

-- `map[lba]` with the block and page that it stands for
abbrev pub place : Option ℕ → Option (ℕ × ℕ × ℕ)
place none = none
place (some q) = some (q, q / pages, q % pages)

abbrev cells : List Page → List ℕ → List (Page × ℕ)
cells [] ls = []
cells (s ∷ ss) [] = []
cells (s ∷ ss) (l ∷ ls) = (s, l) ∷ cells ss ls

-- The loop over the blocks, from block `i` on.
print_blocks_from : ℕ → ℕ → List Block → List Line
print_blocks_from active i [] = []
print_blocks_from active i (b ∷ bs) =
    block_row i (cells b.state b.lba) b.erases (i == active) ∷ print_blocks_from active (suc i) bs

unfoldable pub print_blocks : Ftl → List Line
unfolding print_blocks_from
print_blocks f = print_blocks_from f.active 0 f.nand

-- `none` stands for the 0.0 of a drive with no host write.
unfoldable pub waf : Ftl → Option (ℕ × ℕ)
waf f = if f.host_writes == 0 then none else some (f.nand_writes, f.host_writes)

unfoldable pub report : String → Ftl → Line
unfolding waf consistent
report name f =
    summary name f.host_writes f.nand_writes (waf f) (map (λ b. b.erases) f.nand)
      (not (consistent f))

-- the loop of `spread`, with its `lo` and `hi`
spread_from : List Block → ℕ → ℕ → ℕ
spread_from [] lo hi = hi - lo
spread_from (b ∷ bs) lo hi =
    spread_from bs (if ltb b.erases lo then b.erases else lo)
      (if ltb hi b.erases then b.erases else hi)

-- 12_wear_leveling.c
unfoldable pub spread : Ftl → ℕ
unfolding spread_from
spread f = spread_from f.nand (block f 0).erases (block f 0).erases

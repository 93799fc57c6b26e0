-- ===== src/Ftl/Loops.antt =====
-- `garbage_collect`, `write` and `consistent` of the flash translation layer.
use inside_the_cpu_storage_a.Base.{
  ℕ, zero, suc, ◌+◌, ◌*◌, ◌/◌, ◌%◌, Bool, true, false, ◌&&◌, Option, none, some, List, [], ◌∷◌,
  get_or, set, total, ltb, ◌==◌, if◌then◌else◌, ◌>>=◌,
}
use inside_the_cpu_storage_a.Ftl.{
  free, Ftl, blocks, pages, blank, block, is_valid, valid_pages, erased_blocks, victim, program,
  write_no_gc,
}

-- one round of the loop of `garbage_collect`: a valid page of the victim is programmed again
unfoldable pub move_page : Bool → ℕ → Ftl → ℕ → Option Ftl
unfolding program
move_page naive v f p =
    let b = block f v in
    if is_valid (get_or b.state p free) then program naive f (get_or b.lba p 0) else some f

-- the rounds from page `p` on, `n` of them
unfoldable pub move_pages : Bool → ℕ → ℕ → ℕ → Ftl → Option Ftl
unfolding move_page
move_pages naive v zero p f = some f
move_pages naive v (suc n) p f = do f' ← move_page naive v f p; move_pages naive v n (suc p) f'

-- `*b = (Block){0}; b->erases = worn`
unfoldable pub erase : Ftl → ℕ → Ftl
erase f v = record f { nand = set f.nand v (record blank { erases = (block f v).erases + 1 }) }

-- The flag says whether a block was erased.
unfoldable pub garbage_collect : Bool → Ftl → Option (Ftl × Bool)
unfolding move_pages erase victim
garbage_collect naive f = elim (victim naive f) [
  | none ↦ some (f, false)
  | some v ↦ move_pages naive v pages 0 f >>= λ f'. some (erase f' v, true)
]

-- `while (erased_blocks(f) < 2 && garbage_collect(f)) {}`, with fuel
unfoldable pub collect : Bool → ℕ → Ftl → Option Ftl
unfolding garbage_collect erased_blocks
collect naive zero f = none
collect naive (suc n) f =
    let rest =
      garbage_collect naive f >>= λ r. elim r.1 [ true ↦ collect naive n r.0 | false ↦ some r.0 ] in
    if ltb (erased_blocks f) 2 then rest else some f

-- Each collection removes a stale page, so one round more than there are pages is enough.
abbrev pub enough_rounds : ℕ
enough_rounds = blocks * pages + 1

unfoldable pub write : Bool → Ftl → ℕ → Option Ftl
unfolding write_no_gc collect
write naive f lba = do f' ← write_no_gc naive f lba; collect naive enough_rounds f'

-- `write` for each LBA in turn
unfoldable pub write_all : Bool → List ℕ → Ftl → Option Ftl
unfolding write
write_all naive [] f = some f
write_all naive (lba ∷ rest) f = do f' ← write naive f lba; write_all naive rest f'

-- the second loop of `consistent`, from `lba` on: the number of mapped LBAs, or `none` for
-- `return false`
unfoldable pub mapped_from : Ftl → ℕ → List (Option ℕ) → Option ℕ
mapped_from f lba [] = some 0
mapped_from f lba (none ∷ ms) = mapped_from f (suc lba) ms
mapped_from f lba (some ppn ∷ ms) =
    let b = block f (ppn / pages) in
    let good =
      is_valid (get_or b.state (ppn % pages) free) && get_or b.lba (ppn % pages) 0 == lba in
    mapped_from f (suc lba) ms >>= λ n. if good then some (suc n) else none

unfoldable pub consistent : Ftl → Bool
unfolding mapped_from
consistent f = elim (mapped_from f 0 f.map) [
  | none ↦ false
  | some mapped ↦ total valid_pages f.nand == mapped
]

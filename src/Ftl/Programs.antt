-- ===== src/Ftl/Programs.antt =====
-- The main functions of 07_ftl_model.c to 12_wear_leveling.c: the lines that they print and the
-- exit status, or `none` for an access outside an array.
use inside_the_cpu_storage_a.Base.{
  ℕ, zero, suc, ◌+◌, ◌-◌, ◌*◌, ◌/◌, ◌%◌, Bool, true, false, not, ◌&&◌, Option, none, some, List, [],
  ◌∷◌, ◌++◌, map, upto, ◌>>=◌, ◌==◌, if◌then◌else◌,
}
use inside_the_cpu_storage_a.Ftl.{
  Ftl, blocks, pages, lbas, make_ftl, erased_blocks, victim, trim, write_no_gc,
}
use inside_the_cpu_storage_a.Ftl.Loops.{garbage_collect, write, write_all, consistent}
use inside_the_cpu_storage_a.Ftl.Inv.{map_at}
use inside_the_cpu_storage_a.Ftl.Random.{random_writes}
use inside_the_cpu_storage_a.Ftl.Report.{
  Line, geometry, provisioning, map_row, choice, outcome, moved_row, extra_writes, spread_row, mode,
  place, print_blocks, report, spread,
}

-- `return ok ? 0 : 1`
abbrev pub status : Bool → ℕ
status ok = if ok then 0 else 1

-- `write(f, lba)` for each LBA in turn, with the line printed after each
trace_writes : ℕ → ℕ → Ftl → Option (List Line × Ftl)
unfolding write
trace_writes zero lba f = some ([], f)
trace_writes (suc n) lba f = do
  f' ← write false f lba
  (rest, g) ← trace_writes n lba f'
  some (map_row lba (place (map_at f' lba)) ∷ rest, g)

-- 07_ftl_model.c
unfoldable pub ftl_model : Option (List Line × ℕ)
unfolding make_ftl write_all print_blocks report
ftl_model =
    let fresh : Ftl = make_ftl in
    let spare : ℕ = blocks * pages - lbas in
    do
      f ← write_all false (upto 6) fresh
      some (
        geometry blocks pages (blocks * pages) lbas
            ∷ provisioning spare (100 * spare / lbas)
            ∷ (print_blocks fresh
                ++ (print_blocks f
                    ++ (map (λ l. map_row l (place (map_at f l))) (upto 8)
                        ++ (report "six first writes" f ∷ [])))),
        status (consistent f),
      )

-- 08_ftl_write.c
unfoldable pub ftl_write : Option (List Line × ℕ)
unfolding make_ftl trace_writes print_blocks report
ftl_write = do
  (trace, f) ← trace_writes 8 7 make_ftl
  (_, g) ← trace_writes 12 7 f
  some (
    trace
        ++ (print_blocks f
            ++ (report "8 writes of LBA 7" f
                ∷ (print_blocks g ++ (report "20 writes of LBA 7" g ∷ [])))),
    status (consistent g),
  )

-- `write_no_gc` for each LBA in turn
overwrite_no_gc : List ℕ → Ftl → Option Ftl
unfolding write_no_gc
overwrite_no_gc [] f = some f
overwrite_no_gc (l ∷ ls) f = do f' ← write_no_gc false f l; overwrite_no_gc ls f'

-- the lines for the LBAs that a collection moved
moved_rows : List (Option ℕ) → List (Option ℕ) → ℕ → List Line
moved_rows [] after l = []
moved_rows (q ∷ before) [] l = []
moved_rows (q ∷ before) (r ∷ after) l =
    let rest = moved_rows before after (suc l) in
    if same_page q r then rest else moved_row l q r ∷ rest
  where
    same_page : Option ℕ → Option ℕ → Bool
    same_page none none = true
    same_page none (some r) = false
    same_page (some q) none = false
    same_page (some q) (some r) = q == r

-- 09_garbage_collect.c
unfoldable pub garbage_collection : Option (List Line × ℕ)
unfolding make_ftl write_all overwrite_no_gc garbage_collect moved_rows victim erased_blocks
    print_blocks report
garbage_collection = do
  filled ← write_all false (upto lbas) make_ftl
  f ← overwrite_no_gc (0 ∷ 1 ∷ 2 ∷ 5 ∷ []) filled
  (g, collected) ← garbage_collect false f
  clean ← write_all false (upto 4) make_ftl
  (clean', again) ← garbage_collect false clean
  some (
    print_blocks f
        ++ (choice (victim false f) (erased_blocks f)
            ∷ outcome collected
            ∷ (print_blocks g
                ++ (moved_rows f.map g.map 0
                    ++ (extra_writes (g.nand_writes - f.nand_writes)
                        ∷ report "after the collection" g
                        ∷ outcome again
                        ∷ [])))),
    status (collected && (not again && (consistent g && consistent clean'))),
  )

-- the run of 10_write_amplification.c over the first `used` LBAs
steady_state : ℕ → Option Ftl
unfolding make_ftl write_all random_writes
steady_state used = do
  f ← write_all false (upto used) make_ftl
  random_writes false (λ x. x % used) 4000 42 (record f { host_writes = 0; nand_writes = 0 })

-- 10_write_amplification.c
unfoldable pub write_amplification : Option (List Line × ℕ)
unfolding make_ftl write_all random_writes steady_state report
write_amplification = do
  hot ← write_all false (map (λ _. 7) (upto 1000)) make_ftl
  filled ← write_all false (upto lbas) make_ftl
  full ← random_writes false (λ x. x % lbas) 1000 42 filled
  f4 ← steady_state 4
  f8 ← steady_state 8
  f12 ← steady_state 12
  f16 ← steady_state 16
  some (
    report "one hot LBA" hot
        ∷ report "full, random" full
        ∷ report "4 of 16 LBAs in use" f4
        ∷ report "8 of 16 LBAs in use" f8
        ∷ report "12 of 16 LBAs in use" f12
        ∷ report "16 of 16 LBAs in use" f16
        ∷ [],
    status (
        consistent hot
        && (consistent full
            && (consistent f4 && (consistent f8 && (consistent f12 && consistent f16))))),
  )

-- `overwrite_odd_lbas` of 11_trim.c
pub overwrite_odd_lbas : Ftl → Option Ftl
unfolding random_writes
overwrite_odd_lbas f =
    random_writes false (λ x. 1 + 2 * (x % 8)) 1000 42
      (record f { host_writes = 0; nand_writes = 0 })

-- `trim` of every second LBA from `l` on
trim_even : ℕ → ℕ → Ftl → Ftl
trim_even zero l f = f
trim_even (suc n) l f = trim_even n (l + 2) (trim f l)

-- 11_trim.c
unfoldable pub trimming : Option (List Line × ℕ)
unfolding make_ftl write_all overwrite_odd_lbas trim_even trim print_blocks report
trimming = do
  full ← write_all false (upto lbas) make_ftl
  no_trim ← overwrite_odd_lbas full
  trimmed ← some (trim_even (lbas / 2) 0 full)
  g ← overwrite_odd_lbas trimmed
  some (
    report "without TRIM" no_trim
        ∷ map_row 0 (place (map_at trimmed 0))
        ∷ map_row 1 (place (map_at trimmed 1))
        ∷ (print_blocks trimmed ++ (report "with TRIM" g ∷ [])),
    status (consistent no_trim && consistent g),
  )

-- one run of the loop of 12_wear_leveling.c, with its part of `ok`
wear_run : Bool → Option (List Line × Bool)
unfolding make_ftl write_all random_writes report spread
wear_run naive = do
  hot ← write_all naive (map (λ _. 7) (upto 1000)) make_ftl
  filled ← write_all naive (upto 8) make_ftl
  mixed ← random_writes naive (λ x. x % 8) 2000 7 filled
  some (
    mode naive
        ∷ report "one hot LBA" hot
        ∷ spread_row (spread hot)
        ∷ report "8 LBAs, random" mixed
        ∷ spread_row (spread mixed)
        ∷ [],
    consistent hot && consistent mixed,
  )

-- 12_wear_leveling.c
unfoldable pub wear_leveling : Option (List Line × ℕ)
unfolding wear_run
wear_leveling = do
  (first, ok) ← wear_run true
  (second, ok') ← wear_run false
  some (first ++ second, status (ok && ok'))

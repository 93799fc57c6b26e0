-- ===== src/Ftl/Tests.antt =====
-- Runs of the flash translation layer of 06-storage-lab-inside-an-ssd-nand-ftl-in-10-minutes, and its
-- theorems on them.
use inside_the_cpu_storage_a.Base.{
  ℕ, ◌+◌, ◌%◌, ◌≤◌, ◌<◌, ◌≡◌, refl, ◌↔◌, ◌⊎◌, true, false, Option, none, some, List, [], ◌∷◌, arith,
  length, ◌==◌, if◌then◌else◌,
}
use inside_the_cpu_storage_a.Ftl.{
  Ftl, lbas, block, stale_pages, make_ftl, victim, erased_block, open_block, program_page, unused,
  better, preferred, trim, write_no_gc,
}
use inside_the_cpu_storage_a.Ftl.Loops.{garbage_collect, write, consistent}
use inside_the_cpu_storage_a.Ftl.Inv.{make_ftl-Inv}
use inside_the_cpu_storage_a.Ftl.Choice.{LeastWorn, erased_block-LeastWorn}
use inside_the_cpu_storage_a.Ftl.Victim.{Greediest, victim-Greediest}
use inside_the_cpu_storage_a.Ftl.Step.{Wrote, write_no_gc-Wrote}
use inside_the_cpu_storage_a.Ftl.Collect.{Collected, garbage_collect-total}
use inside_the_cpu_storage_a.Ftl.Write.{Ready, Written, Ready-used, write-Written}
use inside_the_cpu_storage_a.Ftl.Check.{IsConsistent, consistent_iff}
use inside_the_cpu_storage_a.Ftl.Host.{
  Request, writes, trims, held, after, host_count, serve, make_ftl-Ready, trim-Ready, serve_refines,
}
use inside_the_cpu_storage_a.Ftl.Random.{random_writes, random_writes-Ready}
use inside_the_cpu_storage_a.Ftl.Programs.{
  ftl_model, ftl_write, garbage_collection, write_amplification, trimming, wear_leveling,
}

abbrev some_requests : List Request
some_requests = writes 7 ∷ writes 3 ∷ writes 7 ∷ trims 3 ∷ writes 5 ∷ trims 9 ∷ []

serve_refines_example :
    (g : Ftl) × (serve true some_requests make_ftl ≡ some g)
    × Ready g
    × ((m : ℕ) → held g m ≡ after some_requests (held make_ftl) m)
    × (consistent g ≡ true)
    × (g.host_writes ≡ make_ftl.host_writes + host_count some_requests)
    × (make_ftl.nand_writes + host_count some_requests ≤ g.nand_writes)
serve_refines_example = serve_refines true some_requests make_ftl-Ready (omega arith)

write-Written_example : (g : Ftl) × (write false make_ftl 7 ≡ some g) × Written 7 make_ftl g
write-Written_example = write-Written false 7 make_ftl-Ready (omega arith)

-- six writes of one LBA, as the theorem has it: a full block of stale pages waits
abbrev overwrites : List Request
overwrites = writes 7 ∷ writes 7 ∷ writes 7 ∷ writes 7 ∷ writes 7 ∷ writes 7 ∷ []

abbrev overwritten :
    (g : Ftl) × (serve false overwrites make_ftl ≡ some g)
    × Ready g
    × ((m : ℕ) → held g m ≡ after overwrites (held make_ftl) m)
    × (consistent g ≡ true)
    × (g.host_writes ≡ make_ftl.host_writes + host_count overwrites)
    × (make_ftl.nand_writes + host_count overwrites ≤ g.nand_writes)
overwritten = serve_refines false overwrites make_ftl-Ready (omega arith)

garbage_collect-total_example :
    ((victim false overwritten.0 ≡ none)
      × (garbage_collect false overwritten.0 ≡ some (overwritten.0, false)))
    ⊎ ((v : ℕ) × (g : Ftl) × (victim false overwritten.0 ≡ some v)
        × (garbage_collect false overwritten.0 ≡ some (g, true))
        × (0 < stale_pages (block overwritten.0 v))
        × Collected v overwritten.0 g)
garbage_collect-total_example =
    garbage_collect-total false {f = overwritten.0} overwritten.2.inv
      (omega (arith, Ready-used overwritten.2))

consistent_iff_example : (consistent make_ftl ≡ true) ↔ IsConsistent make_ftl
consistent_iff_example = consistent_iff make_ftl

trim-Ready_example :
    Ready (trim make_ftl 3)
    × ((m : ℕ) → held (trim make_ftl 3) m ≡ (if 3 == m then false else held make_ftl m))
    × ((trim make_ftl 3).host_writes ≡ make_ftl.host_writes)
    × ((trim make_ftl 3).nand_writes ≡ make_ftl.nand_writes)
trim-Ready_example = trim-Ready 3 make_ftl-Ready (omega arith)

erased_block-LeastWorn_example :
    LeastWorn false make_ftl (length make_ftl.nand) (erased_block false make_ftl)
erased_block-LeastWorn_example = erased_block-LeastWorn false make_ftl

victim-Greediest_example :
    (most : ℕ) × Greediest false make_ftl (length make_ftl.nand) (victim false make_ftl) most
victim-Greediest_example = victim-Greediest false make_ftl

write_no_gc-Wrote_example :
    (g : Ftl) × (write_no_gc false make_ftl 7 ≡ some g)
    × Wrote (record make_ftl { host_writes = make_ftl.host_writes + 1 }) 7 g
unfolding make_ftl
write_no_gc-Wrote_example = write_no_gc-Wrote false 7 make_ftl-Inv (omega arith) (omega arith)

random_writes_ready_run :
    (g : Ftl) × (random_writes false (λ x. x % lbas) 4000 42 make_ftl ≡ some g)
    × Ready g
    × (g.host_writes ≡ make_ftl.host_writes + 4000)
    × (make_ftl.nand_writes + 4000 ≤ g.nand_writes)
random_writes_ready_run =
    random_writes-Ready false (λ x. x % lbas) 4000 42 (λ x. omega arith) make_ftl-Ready

abbrev exit_status {ℓ} : {A : Type ℓ} → Option (A × ℕ) → Option ℕ
exit_status none = none
exit_status (some (a, s)) = some s

ftl_model_exit : exit_status ftl_model ≡ some 0
unfolding ftl_model open_block program_page erased_block unused better preferred
ftl_model_exit = refl

ftl_write_exit : exit_status ftl_write ≡ some 0
unfolding ftl_write open_block program_page erased_block unused better preferred
ftl_write_exit = refl

garbage_collection_exit : exit_status garbage_collection ≡ some 0
unfolding garbage_collection open_block program_page erased_block unused better preferred
garbage_collection_exit = refl

write_amplification_exit : exit_status write_amplification ≡ some 0
unfolding write_amplification open_block program_page erased_block unused better preferred
write_amplification_exit = refl

trimming_exit : exit_status trimming ≡ some 0
unfolding trimming open_block program_page erased_block unused better preferred
trimming_exit = refl

wear_leveling_exit : exit_status wear_leveling ≡ some 0
unfolding wear_leveling open_block program_page erased_block unused better preferred
wear_leveling_exit = refl

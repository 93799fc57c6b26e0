-- ===== src/Direct/Tests.antt =====
-- Calls that do what the main functions rely on, and runs on them: the descriptor 3 is opened for direct I/O and refuses the
-- first transfer.
use inside_the_cpu_storage_a.Base.{
  ℕ, suc, ◌+◌, ◌-◌, ◌<◌, ◌≡◌, refl, ap, true, false, none, some, [], ◌∷◌, arith, ◌==◌,
  if◌then◌else◌,
}
use inside_the_cpu_storage_a.Rules.{Clock}
use inside_the_cpu_storage_a.Fs.Programs.{codes}
use inside_the_cpu_storage_a.Direct.{
  DirectOs, contract_rows, tmpfile_open, tmpfile_close, pwrite_blocks, aligned_blocks,
  buffered_vs_direct,
}
use inside_the_cpu_storage_a.Direct.Held.{one_if, Same, Counts}
use inside_the_cpu_storage_a.Direct.Released.{aligned_blocks-Same}
use inside_the_cpu_storage_a.Direct.Compared.{buffered_vs_direct-Same}

record Process : Type 0 where
  held : ℕ → ℕ
  live : ℕ
  -- the next descriptor, and the one that refuses transfers
  next : ℕ
  bad : ℕ

abbrev calls : DirectOs
calls = record {
  State = Process;
  open_tmp = λ s p d.
      (record s { held = λ j. one_if s.next j + s.held j; next = suc s.next }, some s.next);
  open_read = λ s p d.
      (record s { held = λ j. one_if s.next j + s.held j; next = suc s.next }, some s.next);
  malloc = λ s. (record s { live = suc s.live }, true);
  memalign = λ s. (record s { live = suc s.live }, true);
  free = λ s. record s { live = s.live - 1 };
  pwrite = λ s f o. (s, if f == s.bad then none else some 4096);
  pread = λ s f o. (s, if f == s.bad then none else some 4096);
  fsync = λ s f. (s, some 0);
  close = λ s f. record s { held = λ j. s.held j - one_if f j };
  unlink = λ s p. s;
}

abbrev started : Process
started = record { held = λ j. if j == 1 then 1 else 0; live = 2; next = 3; bad = 3 }

closed_once : (f j a b : ℕ) → 0 < a → (f ≡ j → a ≡ b) → one_if f j + (b - one_if f j) ≡ b
closed_once f j a b h same = ground arith

calls-Counts : Counts calls (λ s. s.held) (λ s. s.live)
calls-Counts = record {
  open_counts = λ s p d. ((λ j. refl), refl);
  open_read_counts = λ s p d. ((λ j. refl), refl);
  malloc_held = λ s j. refl;
  malloc_live = λ s. refl;
  close_counts = λ s f h. ((λ j. closed_once f j (s.held f) (s.held j) h (λ e. ap s.held e)), refl);
  memalign_held = λ s j. refl;
  memalign_live = λ s. refl;
  free_held = λ s j. refl;
  free_live = λ s h. omega arith;
  pwrite_same = λ s f o. ((λ j. refl), refl);
  pread_same = λ s f o. ((λ j. refl), refl);
  fsync_same = λ s f. ((λ j. refl), refl);
  unlink_same = λ s p. ((λ j. refl), refl);
}

abbrev still : Clock Process
still = record { Time = ℕ; now = λ s. (s, 7); gap = λ a b. a - b; no_time = 0; sort = λ ts. ts }

contract_run :
    contract_rows (0 ∷ 6000 ∷ 12800 ∷ [])
    ≡ (0, true, 0, 0) ∷ (6000, false, 1, 1904) ∷ (12800, false, 3, 512) ∷ []
unfolding contract_rows
contract_run = refl

-- the file is opened again and the blocks are written to the descriptor 4
blocks_run :
    ((aligned_blocks calls (codes "/tmp/b") started).1 ≡ some 4096 ∷ some 4096 ∷ some 4096 ∷ [])
    × ((aligned_blocks calls (codes "/tmp/b") started).2 ≡ 0)
unfolding aligned_blocks tmpfile_open tmpfile_close pwrite_blocks
blocks_run = (refl, refl)

aligned_blocks-Same_example :
    Same calls (λ s. s.held) (λ s. s.live) started (aligned_blocks calls (codes "/tmp/b") started).0
aligned_blocks-Same_example =
    aligned_blocks-Same calls (λ s. s.held) (λ s. s.live) calls-Counts started (codes "/tmp/b")

buffered_vs_direct-Same_example :
    Same calls
      (λ s. s.held)
      (λ s. s.live)
      started
      (buffered_vs_direct calls still (codes "/tmp/b") (codes "/tmp/d") started).0
buffered_vs_direct-Same_example =
    buffered_vs_direct-Same calls (λ s. s.held) (λ s. s.live) calls-Counts still (λ ts. refl)
      (λ s. ((λ j. refl), refl)) started (codes "/tmp/b") (codes "/tmp/d")

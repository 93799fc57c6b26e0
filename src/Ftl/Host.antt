-- ===== src/Ftl/Host.antt =====
-- What the host sees of the drive of 06-storage-lab-inside-an-ssd-nand-ftl-in-10-minutes: the LBAs
-- that hold data, under any sequence of its writes and trims.
use inside_the_cpu_storage_a.Base.{
  ℕ, suc, ◌+◌, ◌≤◌, ◌<◌, ◌≡◌, refl, ap, sym, ◌∙◌, Bool, true, false, Option, some, List, [], ◌∷◌,
  arith, ◌==◌, ◌>>=◌, if◌then◌else◌, is_some, ℕ_discrete, ==_iff, ne→==,
}
use inside_the_cpu_storage_a.Ftl.{Ftl, lbas, erased_blocks, make_ftl, trim}
use inside_the_cpu_storage_a.Ftl.Loops.{write, consistent}
use inside_the_cpu_storage_a.Ftl.Inv.{map_at, make_ftl-Inv}
use inside_the_cpu_storage_a.Ftl.Trim.{trim-Inv}
use inside_the_cpu_storage_a.Ftl.Space.{used-erased_blocks}
use inside_the_cpu_storage_a.Ftl.Step.{
  used-trim, trim-map_self, trim-map_other, trim-counters, trim-next,
}
use inside_the_cpu_storage_a.Ftl.Write.{Ready, write-Written}
use inside_the_cpu_storage_a.Ftl.Check.{consistent-Inv}

-- The drive as the host sees it: which LBAs hold data.
abbrev pub Held : Type 0
Held = ℕ → Bool

abbrev pub held : Ftl → Held
held f l = is_some (map_at f l)

pub make_ftl-Ready : Ready make_ftl
unfolding make_ftl erased_blocks
make_ftl-Ready = record { inv = make_ftl-Inv; two_erased = omega arith }

-- On a drive that is ready, `trim` of an LBA in range leaves the drive ready, empties that LBA, keeps
-- the others, and counts nothing.
pub trim-Ready :
    {f : Ftl} (l : ℕ)
    → Ready f
    → l < lbas
    → Ready (trim f l)
      × ((m : ℕ) → held (trim f l) m ≡ (if l == m then false else held f m))
      × ((trim f l).host_writes ≡ f.host_writes)
      × ((trim f l).nand_writes ≡ f.nand_writes)
trim-Ready {f} l r hl = (
  record {
    inv = trim-Inv l hl r.inv;
    two_erased = omega (
      arith,
      used-erased_blocks r.inv,
      used-erased_blocks (trim-Inv l hl r.inv),
      used-trim r.inv l hl,
      trim-next r.inv l hl,
      r.two_erased,
    );
  },
  λ m. elim (ℕ_discrete l m) [
    | yes same ↦
        rw ((==_iff l m).1 same)
          (ap is_some (ap (map_at (trim f l)) (sym same) ∙ trim-map_self r.inv l hl))
    | no other ↦ rw (ne→== l m other) (ap is_some (trim-map_other f l m other))
  ],
  (trim-counters f l).0,
  (trim-counters f l).1,
)

-- What the host asks for.
pub data Request : Type 0 where
  writes trims : ℕ → Request

abbrev pub lba_of : Request → ℕ
lba_of (writes l) = l
lba_of (trims l) = l

abbrev pub InRange : List Request → Type 0
InRange [] = Unit {0}
InRange (r ∷ rs) = (lba_of r < lbas) × InRange rs

abbrev pub host_count : List Request → ℕ
host_count [] = 0
host_count (writes l ∷ rs) = suc (host_count rs)
host_count (trims l ∷ rs) = host_count rs

-- the requests in order, on the drive
pub serve : Bool → List Request → Ftl → Option Ftl
serve naive [] f = some f
serve naive (writes l ∷ rs) f = write naive f l >>= λ g. serve naive rs g
serve naive (trims l ∷ rs) f = serve naive rs (trim f l)

-- the requests in order, on the set of LBAs that hold data
abbrev pub after : List Request → Held → Held
after [] h = h
after (writes l ∷ rs) h = after rs (λ m. if l == m then true else h m)
after (trims l ∷ rs) h = after rs (λ m. if l == m then false else h m)

after-congr :
    (rs : List Request) (h k : Held) → ((m : ℕ) → h m ≡ k m) → (m : ℕ) → after rs h m ≡ after rs k m
after-congr [] h k e m = e m
after-congr (writes l ∷ rs) h k e m = after-congr rs _ _ (λ m. rw (e m)) m
after-congr (trims l ∷ rs) h k e m = after-congr rs _ _ (λ m. rw (e m)) m

-- Any sequence of writes and trims within the drive's LBAs succeeds from a drive that is ready. The
-- drive then holds the LBAs that the host expects, is consistent and ready again, has counted each
-- host write, and has programmed a page or more for each.
pub serve_refines :
    (naive : Bool) (rs : List Request) {f : Ftl}
    → Ready f
    → InRange rs
    → (g : Ftl) × (serve naive rs f ≡ some g)
      × Ready g
      × ((m : ℕ) → held g m ≡ after rs (held f) m)
      × (consistent g ≡ true)
      × (g.host_writes ≡ f.host_writes + host_count rs)
      × (f.nand_writes + host_count rs ≤ g.nand_writes)
unfolding serve
serve_refines naive [] {f} r h =
    (f, refl, r, λ m. refl, consistent-Inv r.inv, omega arith, omega arith)
serve_refines naive (writes l ∷ rs) {f} r h =
    let (f', e, w) = write-Written naive l r h.0 in
    let (g, e', r', same, ok, host, nand) = serve_refines naive rs w.ready h.1 in
    (
      g,
      ap (λ o. o >>= (λ g. serve naive rs g)) e ∙ e',
      r',
      λ m. same m ∙ after-congr rs (held f') _ w.mapped m,
      ok,
      omega (arith, host, w.host),
      omega (arith, nand, w.programs),
    )
serve_refines naive (trims l ∷ rs) {f} r h =
    let (ready, mapped, same_host, same_nand) = trim-Ready l r h.0 in
    let (g, e', r', same, ok, host, nand) = serve_refines naive rs ready h.1 in
    (
      g,
      e',
      r',
      λ m. same m ∙ after-congr rs (held (trim f l)) _ mapped m,
      ok,
      omega (arith, host, same_host),
      omega (arith, nand, same_nand),
    )

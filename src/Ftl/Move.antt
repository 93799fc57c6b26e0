-- ===== src/Ftl/Move.antt =====
-- The loop of `garbage_collect` of 09_garbage_collect.c: every valid page of the victim moves.
use inside_the_cpu_storage_a.Base.{
  ℕ, zero, suc, ◌+◌, ◌*◌, ◌<◌, ◌≡◌, refl, ap, sym, subst, ◌⊎◌, inl, inr, ◌≢◌, ◌∙◌, Bool, false,
  some, arith, ◌>>=◌, ℕ_discrete,
}
use inside_the_cpu_storage_a.Ftl.{
  Page, free, valid, stale, Ftl, blocks, pages, block, is_valid, valid_pages, program,
}
use inside_the_cpu_storage_a.Ftl.Loops.{move_page, move_pages}
use inside_the_cpu_storage_a.Ftl.Inv.{state_at, lba_at}
use inside_the_cpu_storage_a.Ftl.Trim.{trim-Inv}
use inside_the_cpu_storage_a.Ftl.Space.{used, open_block-total}
use inside_the_cpu_storage_a.Ftl.Step.{program-some, used-trim}
use inside_the_cpu_storage_a.Ftl.Ghost.{
  Ghost, IsSound, Moved, lba-eq, owned, opens-same, f', g', Ghost-step, IsSound-step, Moved-step,
  valid-step, victim-f',
}

-- A page is valid or not.
Page-cases : (s : Page) → (s ≡ valid) ⊎ ((is_valid s ≡ false) × (s ≢ valid))
Page-cases free = inr (refl, λ e. cc)
Page-cases valid = inl refl
Page-cases stale = inr (refl, λ e. cc)

-- One round: the real drive and the ghost move on together.
pub round :
    (naive : Bool) (v k : ℕ) (f g : Ftl)
    → Ghost v k f g
    → IsSound v g
    → k < pages
    → used g < pages * blocks
    → (f' : Ftl) × (g' : Ftl) × (c : ℕ) × (move_page naive v f k ≡ some f')
      × Ghost v (suc k) f' g'
      × IsSound v g'
      × Moved c g g'
      × (c + valid_pages (block g' v) ≡ valid_pages (block g v))
      × (block f' v ≡ block f v)
unfolding move_page
round naive v k f g h s hk room = elim (Page-cases (state_at f v k)) [
  | inl here ↦
      let (a, e, o) =
        open_block-total (trim-Inv (lba_at g v k) (owned v k h s hk here).0 s.inv) naive
          (omega (arith, used-trim s.inv (lba_at g v k) (owned v k h s hk here).0)) in
      rw here (
        f' v k h s hk here a o,
        g' v k h s hk here a o,
        1,
        ap (program naive f) (sym (lba-eq v k h s k))
            ∙ program-some naive f (lba_at g v k) a (opens-same v k h s hk here naive ∙ e),
        Ghost-step v k h s hk here a o,
        IsSound-step v k h s hk here a o,
        Moved-step v k h s hk here a o,
        valid-step v k h s hk here a o,
        victim-f' v k h s hk here a o,
      )
  | inr (other, ne) ↦ rw other (
    f,
    g,
    0,
    refl,
    record {
      active = h.active;
      map = h.map;
      host = h.host;
      programs = h.programs;
      nand = h.nand;
      moved = λ p hp e. elim (ℕ_discrete p k) [
        | yes same ↦ ne (sym (h.left k (omega arith)) ∙ ap (state_at g v) (sym same) ∙ e)
        | no earlier ↦ h.moved p (omega arith) e
      ];
      left = λ p hp. h.left p (omega arith);
    },
    s,
    record {
      use_more = omega arith;
      host = refl;
      programmed_more = omega arith;
      still_mapped = λ m. refl;
      open_valid = λ o. o;
    },
    omega arith,
    refl,
  )
]

-- What the rounds from page `k` on leave.
abbrev pub Rounds : Bool → ℕ → ℕ → ℕ → Ftl → Ftl → Type 0
Rounds naive v n k f g =
    (f' : Ftl) × (g' : Ftl) × (c : ℕ) × (move_pages naive v n k f ≡ some f')
    × Ghost v pages f' g'
    × IsSound v g'
    × Moved c g g'
    × (c + valid_pages (block g' v) ≡ valid_pages (block g v))
    × (block f' v ≡ block f v)

pub rounds :
    (naive : Bool) (v n k : ℕ) (f g : Ftl)
    → k + n ≡ pages
    → Ghost v k f g
    → IsSound v g
    → used g + valid_pages (block g v) < pages * blocks
    → Rounds naive v n k f g
unfolding move_pages
rounds naive v zero k f g e h s room = (
  f,
  g,
  0,
  refl,
  subst (λ k. Ghost v k f g) (omega arith) h,
  s,
  record {
    use_more = omega arith;
    host = refl;
    programmed_more = omega arith;
    still_mapped = λ m. refl;
    open_valid = λ o. o;
  },
  omega arith,
  refl,
)
rounds naive v (suc n) k f g e h s room =
    let (f₁, g₁, c₁, e₁, h₁, s₁, m₁, n₁, b₁) =
      round naive v k f g h s (omega arith) (omega arith) in
    let (f₂, g₂, c₂, e₂, h₂, s₂, m₂, n₂, b₂) =
      rounds naive v n (suc k) f₁ g₁ (omega arith) h₁ s₁ (omega (arith, m₁.use_more)) in
    (
      f₂,
      g₂,
      c₁ + c₂,
      ap (λ o. o >>= move_pages naive v n (suc k)) e₁ ∙ e₂,
      h₂,
      s₂,
      record {
        use_more = omega (arith, m₁.use_more, m₂.use_more);
        host = m₂.host ∙ m₁.host;
        programmed_more = omega (arith, m₁.programmed_more, m₂.programmed_more);
        still_mapped = λ m. m₂.still_mapped m ∙ m₁.still_mapped m;
        open_valid = λ o. m₂.open_valid (m₁.open_valid o);
      },
      omega arith,
      b₂ ∙ b₁,
    )

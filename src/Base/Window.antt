-- ===== src/Base/Window.antt =====
-- A ring buffer read from a free running index.
use Prim.Native.Nat.{ℕ, zero, suc, ◌+◌, ◌-◌, ◌%◌, ◌≤◌, ◌<◌}
use mathlib.Core.Path.{◌≡◌, refl, ap, ap₂, ◌∙◌, sym}
use mathlib.Core.Logic.{◌≢◌}
use mathlib.Core.List.{List, [], ◌∷◌, ◌++◌}
use native.Mathlib.Omega.{arith}
use native.Mathlib.Nat.{mod-add-mod, mod-lt, div-add-mod}
use inside_the_cpu_storage_a.Base.Lists.{length, get_or, set, get_or-set_self, get_or-set_ne}

-- Two indices less than a round apart are not at one place.
pub mod-ne : (c i n : ℕ) → 0 < n → n < c → i % c ≢ (i + n) % c
mod-ne c i n h k e = grind (arith, div-add-mod i c, div-add-mod (i + n) c)

mod-suc_congr : (c i j : ℕ) → i % c ≡ j % c → suc i % c ≡ suc j % c
mod-suc_congr c i j e =
    ap (λ k. k % c) (omega arith)
    ∙ sym (mod-add-mod i c 1)
    ∙ ap (λ k. (k + 1) % c) e
    ∙ mod-add-mod j c 1
    ∙ ap (λ k. k % c) (omega arith)

module _ {ℓ} {A : Type ℓ} (c : ℕ) (d : A) where
  -- the `n` entries from index `i` on; `d` stands for an entry outside the array
  abbrev pub window : List A → ℕ → ℕ → List A
  window buf i zero = []
  window buf i (suc n) = get_or buf (i % c) d ∷ window buf (suc i) n

  pub length-window : (buf : List A) (i n : ℕ) → length (window buf i n) ≡ n
  length-window buf i zero = refl
  length-window buf i (suc n) = ap suc (length-window buf (suc i) n)

  -- Only the place in the ring matters.
  pub window-congr : (buf : List A) (i j n : ℕ) → i % c ≡ j % c → window buf i n ≡ window buf j n
  window-congr buf i j zero e = refl
  window-congr buf i j (suc n) e =
      ap₂ ◌∷◌ (ap (λ k. get_or buf k d) e)
        (window-congr buf (suc i) (suc j) n (mod-suc_congr c i j e))

  pub window-append :
      (buf : List A) (i m n : ℕ) → window buf i (m + n) ≡ window buf i m ++ window buf (i + m) n
  window-append buf i zero n = ap₂ (window buf) (omega arith) (omega arith)
  window-append buf i (suc m) n =
      ap (window buf i) {y = suc (m + n)} (omega arith)
      ∙ ap (λ t. get_or buf (i % c) d ∷ t) (window-append buf (suc i) m n)
      ∙ ap (λ k. window buf i (suc m) ++ window buf k n) (omega arith)

  -- A write just past the window extends it by what is written.
  pub window-set :
      (buf : List A) (i n : ℕ) (x : A)
      → length buf ≡ c
      → n < c
      → window (set buf ((i + n) % c) x) i (suc n) ≡ window buf i n ++ (x ∷ [])
  window-set buf i zero x size h =
      ap (λ y. y ∷ [])
        (ap (λ k. get_or (set buf ((i + 0) % c) x) k d) (ap (λ k. k % c) (omega arith))
          ∙ get_or-set_self buf ((i + 0) % c) x d
              (omega (arith, mod-lt (i + 0) {m = c} (omega arith))))
  window-set buf i (suc n) x size h =
      ap₂ ◌∷◌
        (get_or-set_ne buf ((i + suc n) % c) (i % c) x d
          (λ e. mod-ne c i (suc n) (omega arith) h (sym e)))
        (ap (λ k. window (set buf k x) (suc i) (suc n)) (ap (λ k. k % c) (omega arith))
          ∙ window-set buf (suc i) n x size (omega arith))

  -- Such a write leaves the window and what lies before its end.
  pub window-set_past :
      (buf : List A) (i k n : ℕ) (x : A)
      → k ≤ n
      → n < c
      → window (set buf ((i + n) % c) x) i k ≡ window buf i k
  window-set_past buf i zero n x le h = refl
  window-set_past buf i (suc k) n x le h =
      ap₂ ◌∷◌
        (get_or-set_ne buf ((i + n) % c) (i % c) x d (λ e. mod-ne c i n (omega arith) h (sym e)))
        (ap (λ m. window (set buf m x) (suc i) k)
            (ap (λ m. m % c) {y = suc i + (n - 1)} (omega arith))
          ∙ window-set_past buf (suc i) k (n - 1) x (omega arith) (omega arith))

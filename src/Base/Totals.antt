-- ===== src/Base/Totals.antt =====
-- Sums over an array, the form that the counting loops take.
use Prim.Native.Nat.{ℕ, zero, suc, ◌+◌, ◌*◌, ◌≤◌, ◌<◌}
use mathlib.Core.Path.{◌≡◌}
use mathlib.Core.List.{List, [], ◌∷◌}
use native.Mathlib.Omega.{arith}
use inside_the_cpu_storage_a.Base.Lists.{length, get_or, set}

module _ {ℓ} {A : Type ℓ} (g : A → ℕ) where
  abbrev pub total : List A → ℕ
  total [] = 0
  total (x ∷ xs) = g x + total xs

  -- One write changes the sum by what it writes and what it overwrites.
  pub total-set :
      (xs : List A) (i : ℕ) (v d : A)
      → i < length xs
      → total (set xs i v) + g (get_or xs i d) ≡ total xs + g v
  total-set [] i v d h = absurd (omega arith)
  total-set (x ∷ xs) zero v d h = omega arith
  total-set (x ∷ xs) (suc i) v d h = omega (arith, total-set xs i v d (omega arith))

  pub total-le : (c : ℕ) (xs : List A) → ((x : A) → g x ≤ c) → total xs ≤ c * length xs
  total-le c [] h = omega arith
  total-le c (x ∷ xs) h = omega (arith, h x, total-le c xs h)

  pub total-ge :
      (c : ℕ) (xs : List A) (d : A)
      → ((i : ℕ) → i < length xs → c ≤ g (get_or xs i d))
      → c * length xs ≤ total xs
  total-ge c [] d h = omega arith
  total-ge c (x ∷ xs) d h =
      omega (arith, h 0 (omega arith), total-ge c xs d (λ i hi. h (suc i) (omega arith)))

  -- One term is part of the sum.
  pub get_or-le-total : (xs : List A) (i : ℕ) (d : A) → i < length xs → g (get_or xs i d) ≤ total xs
  get_or-le-total [] i d h = absurd (omega arith)
  get_or-le-total (x ∷ xs) zero d h = omega arith
  get_or-le-total (x ∷ xs) (suc i) d h = omega (arith, get_or-le-total xs i d (omega arith))

  pub total-const :
      (c : ℕ) (xs : List A) (d : A)
      → ((i : ℕ) → i < length xs → g (get_or xs i d) ≡ c)
      → total xs ≡ c * length xs
  total-const c [] d h = omega arith
  total-const c (x ∷ xs) d h =
      omega (arith, h 0 (omega arith), total-const c xs d (λ i hi. h (suc i) (omega arith)))

module _ {ℓ} {A : Type ℓ} (g h : A → ℕ) where
  pub total-congr :
      (xs : List A) (d : A)
      → ((i : ℕ) → i < length xs → g (get_or xs i d) ≡ h (get_or xs i d))
      → total g xs ≡ total h xs
  total-congr [] d e = omega arith
  total-congr (x ∷ xs) d e =
      omega (arith, e 0 (omega arith), total-congr xs d (λ i hi. e (suc i) (omega arith)))

  pub total-add : (xs : List A) → total (λ x. g x + h x) xs ≡ total g xs + total h xs
  total-add [] = omega arith
  total-add (x ∷ xs) = omega (arith, total-add xs)

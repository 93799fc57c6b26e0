-- ===== src/Latency/Rank.antt =====
-- A percentile of the sorted samples has its share of the samples at or below it.
use inside_the_cpu_storage_a.Base.{
  ◌^◌, ℕ, zero, suc, ◌+◌, ◌-◌, ◌*◌, ◌/◌, ◌≤◌, ◌<◌, ◌≡◌, refl, ap, sym, ◌∙◌, Option, some, List, [],
  ◌∷◌, arith, length, get_elem?, get_elem?-some, leb, if◌then◌else◌,
}
use mathlib.Core.Option.{some-injective}
use native.Mathlib.Nat.{add-mul, mul-le-mul_right}
use inside_the_cpu_storage_a.Latency.{Percentile, at_50, at_99, at_999, tenths, percentile}

abbrev pub AllFrom : ℕ → List ℕ → Type 0
AllFrom x [] = Unit
AllFrom x (y ∷ ys) = (x ≤ y) × AllFrom x ys

abbrev pub IsSorted : List ℕ → Type 0
IsSorted [] = Unit
IsSorted (x ∷ xs) = AllFrom x xs × IsSorted xs

-- the samples that are at most `v`, and those that are at least `v`
abbrev pub at_most : ℕ → List ℕ → ℕ
at_most v [] = 0
at_most v (x ∷ xs) = if leb x v then suc (at_most v xs) else at_most v xs

abbrev pub at_least : ℕ → List ℕ → ℕ
at_least v [] = 0
at_least v (x ∷ xs) = if leb v x then suc (at_least v xs) else at_least v xs

AllFrom-get_elem? : (x : ℕ) (xs : List ℕ) (i v : ℕ) → AllFrom x xs → get_elem? xs i ≡ some v → x ≤ v
AllFrom-get_elem? x [] i v h e = let absurd : ⊥ = cc in elim absurd [ ]
AllFrom-get_elem? x (y ∷ ys) zero v (low, h) e = omega (arith, low, some-injective _ _ e)
AllFrom-get_elem? x (y ∷ ys) (suc i) v (low, h) e = AllFrom-get_elem? x ys i v h e

at_least-AllFrom : (x : ℕ) (xs : List ℕ) → AllFrom x xs → at_least x xs ≡ length xs
at_least-AllFrom x [] h = refl
at_least-AllFrom x (y ∷ ys) (low, h) = let rest = at_least-AllFrom x ys h in ground arith

more_at_most : (x v : ℕ) (xs : List ℕ) → x ≤ v → at_most v (x ∷ xs) ≡ suc (at_most v xs)
more_at_most x v xs h = ground arith

more_at_least : (x v : ℕ) (xs : List ℕ) → at_least v xs ≤ at_least v (x ∷ xs)
more_at_least x v xs = ground arith

-- the sample at place `r`
ranked :
    (xs : List ℕ) (r v : ℕ)
    → IsSorted xs
    → get_elem? xs r ≡ some v
    → (suc r ≤ at_most v xs) × (length xs ≤ at_least v xs + r)
ranked [] r v sorted e = let absurd : ⊥ = cc in elim absurd [ ]
ranked (x ∷ xs) zero v (low, sorted) e =
    let same : x ≡ v = some-injective _ _ e in
    let all : at_least x (x ∷ xs) ≡ length (x ∷ xs) =
      at_least-AllFrom x (x ∷ xs) (omega arith, low) in
    (
      omega (arith, more_at_most x v xs (omega (arith, same))),
      omega (arith, all, ap (λ t. at_least t (x ∷ xs)) same),
    )
ranked (x ∷ xs) (suc r) v (low, sorted) e =
    let (below, above) = ranked xs r v sorted e in
    (
      omega (arith, more_at_most x v xs (AllFrom-get_elem? x xs r v low e)),
      omega (arith, more_at_least x v xs),
    )

-- p tenths of a percent of n, and the rest of n
shares : (p n : ℕ) → p ≤ 1000 → p * n + (1000 - p) * n ≡ 1000 * n
shares p n h =
    let whole : p + (1000 - p) ≡ 1000 = omega arith in
    sym (add-mul p (1000 - p) n) ∙ ap (λ k. k * n) whole

-- The sample `o` has its share of the samples on both sides: with p tenths of a percent and n samples, 1000 times the
-- number of samples at or below it is more than p * (n - 1), and 1000 times the number at or above it is at least
-- (1000 - p) * (n - 1) + 1000.
abbrev pub HasShares : List ℕ → ℕ → Option ℕ → Type 0
HasShares xs p o =
    (v : ℕ) × (o ≡ some v)
    × (p * (length xs - 1) < 1000 * at_most v xs)
    × ((1000 - p) * (length xs - 1) + 1000 ≤ 1000 * at_least v xs)

ranked-HasShares :
    (xs : List ℕ) (p : ℕ)
    → IsSorted xs
    → 0 < length xs
    → p ≤ 1000
    → HasShares xs p (get_elem? xs (p * (length xs - 1) / 1000))
ranked-HasShares xs p sorted some_in within =
    let n = length xs - 1 in
    let (v, e) = get_elem?-some xs (p * n / 1000) (omega (arith, shares p n within)) in
    let (below, above) = ranked xs (p * n / 1000) v sorted e in
    (v, e, omega arith, omega (arith, shares p n within))

-- Of n sorted samples, one at least and 2 ^ 40 at most, the percentiles 50, 99 and 99.9 are samples with their share of
-- the others on both sides: with p tenths of a percent, 1000 times the number of samples at or below is more
-- than p * (n - 1), and 1000 times the number at or above is at least (1000 - p) * (n - 1) + 1000.
pub percentile_lem :
    (xs : List ℕ)
    → IsSorted xs
    → 0 < length xs
    → length xs ≤ 2 ^ 40
    → HasShares xs 500 (percentile xs at_50)
      × HasShares xs 990 (percentile xs at_99)
      × HasShares xs 999 (percentile xs at_999)
unfolding percentile
percentile_lem xs sorted some_in small = (
  ranked-HasShares xs 500 sorted some_in (omega arith),
  ranked-HasShares xs 990 sorted some_in (omega arith),
  ranked-HasShares xs 999 sorted some_in (omega arith),
)

-- sorted samples grow with the place
growing :
    (xs : List ℕ) (i j v w : ℕ)
    → IsSorted xs
    → i ≤ j
    → get_elem? xs i ≡ some v
    → get_elem? xs j ≡ some w
    → v ≤ w
growing [] i j v w sorted h d e = let absurd : ⊥ = cc in elim absurd [ ]
growing (x ∷ xs) zero zero v w (low, sorted) h d e = omega (arith, some-injective _ _ (sym d ∙ e))
growing (x ∷ xs) zero (suc j) v w (low, sorted) h d e =
    omega (arith, some-injective _ _ d, AllFrom-get_elem? x xs j w low e)
growing (x ∷ xs) (suc i) zero v w (low, sorted) h d e =
    let absurd : ⊥ = omega arith in elim absurd [ ]
growing (x ∷ xs) (suc i) (suc j) v w (low, sorted) h d e =
    growing xs i j v w sorted (omega arith) d e

-- the samples at two places, in order
abbrev pub InOrder : Option ℕ → Option ℕ → Type 0
InOrder o t = (v : ℕ) × (w : ℕ) × (o ≡ some v) × (t ≡ some w) × (v ≤ w)

places-InOrder :
    (xs : List ℕ) (i j : ℕ)
    → IsSorted xs
    → i ≤ j
    → j < length xs
    → InOrder (get_elem? xs i) (get_elem? xs j)
places-InOrder xs i j sorted h within =
    let (v, d) = get_elem?-some xs i (omega arith) in
    let (w, e) = get_elem?-some xs j within in (v, w, d, e, growing xs i j v w sorted h d e)

ranks_le : (p q n : ℕ) → p ≤ q → p * n / 1000 ≤ q * n / 1000
ranks_le p q n h = let more = mul-le-mul_right n h in omega (arith, more)

pub percentile-InOrder :
    (xs : List ℕ) (p q : Percentile)
    → IsSorted xs
    → 0 < length xs
    → tenths p ≤ tenths q
    → tenths q ≤ 1000
    → InOrder (percentile xs p) (percentile xs q)
unfolding percentile
percentile-InOrder xs p q sorted some_in less within =
    let n = length xs - 1 in
    places-InOrder xs (tenths p * n / 1000) (tenths q * n / 1000) sorted
      (ranks_le (tenths p) (tenths q) n less) (omega (arith, shares (tenths q) n within))

pub highest-InOrder :
    (xs : List ℕ) (p : Percentile)
    → IsSorted xs
    → 0 < length xs
    → tenths p ≤ 1000
    → InOrder (percentile xs p) (get_elem? xs (length xs - 1))
unfolding percentile
highest-InOrder xs p sorted some_in within =
    let n = length xs - 1 in
    places-InOrder xs (tenths p * n / 1000) n sorted (omega (arith, shares (tenths p) n within))
      (omega arith)

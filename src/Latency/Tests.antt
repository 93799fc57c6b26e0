-- ===== src/Latency/Tests.antt =====
-- Runs of the generator, and a sort that does what the main function relies on.
use inside_the_cpu_storage_a.Base.{
  ℕ, suc, ◌≤◌, ◌≡◌, refl, ap, ◌∙◌, Bool, true, false, List, [], ◌∷◌, arith, length, leb,
  if◌then◌else◌,
}
use inside_the_cpu_storage_a.Latency.{
  at_50, at_99, at_999, percentile, splitmix64, latencies_from, model_latencies, percentiles_main,
}
use inside_the_cpu_storage_a.Latency.Rank.{AllFrom, IsSorted, InOrder, HasShares, percentile_lem}
use inside_the_cpu_storage_a.Latency.Model.{
  AllLatencies, AllInOrder, latencies_from_lem, percentiles_main_lem,
}

splitmix64_run : (splitmix64 42).1 ≡ 13679457532755275413
unfolding splitmix64
splitmix64_run = refl

model_run : model_latencies 4 ≡ 83000 ∷ 88000 ∷ 80000 ∷ 75000 ∷ []
unfolding latencies_from
model_run = refl

abbrev insert : ℕ → List ℕ → List ℕ
insert x [] = x ∷ []
insert x (y ∷ ys) = if leb x y then x ∷ y ∷ ys else y ∷ insert x ys

abbrev sorting : List ℕ → List ℕ
sorting [] = []
sorting (x ∷ xs) = insert x (sorting xs)

AllFrom-le : (a b : ℕ) (xs : List ℕ) → a ≤ b → AllFrom b xs → AllFrom a xs
AllFrom-le a b [] h all = tt
AllFrom-le a b (x ∷ xs) h (low, all) = (omega arith, AllFrom-le a b xs h all)

AllFrom-if :
    (a : ℕ) (first : Bool) (xs ys : List ℕ)
    → AllFrom a xs
    → AllFrom a ys
    → AllFrom a (if first then xs else ys)
AllFrom-if a true xs ys h k = h
AllFrom-if a false xs ys h k = k

insert-AllFrom : (a x : ℕ) (xs : List ℕ) → a ≤ x → AllFrom a xs → AllFrom a (insert x xs)
insert-AllFrom a x [] h all = (h, tt)
insert-AllFrom a x (y ∷ ys) h (low, all) =
    AllFrom-if a (leb x y) (x ∷ y ∷ ys) (y ∷ insert x ys) (h, (low, all))
      (low, insert-AllFrom a x ys h all)

IsSorted-if :
    (first : Bool) (xs ys : List ℕ)
    → (first ≡ true → IsSorted xs)
    → (first ≡ false → IsSorted ys)
    → IsSorted (if first then xs else ys)
IsSorted-if true xs ys h k = h refl
IsSorted-if false xs ys h k = k refl

insert-IsSorted : (x : ℕ) (xs : List ℕ) → IsSorted xs → IsSorted (insert x xs)
insert-IsSorted x [] h = (tt, tt)
insert-IsSorted x (y ∷ ys) (low, sorted) =
    IsSorted-if (leb x y) (x ∷ y ∷ ys) (y ∷ insert x ys)
      (λ e. let less : x ≤ y = ground arith in ((less, AllFrom-le x y ys less low), (low, sorted)))
      (λ e.
        let less : y ≤ x = ground arith in
        (insert-AllFrom y x ys less low, insert-IsSorted x ys sorted))

length-insert : (x : ℕ) (xs : List ℕ) → length (insert x xs) ≡ suc (length xs)
length-insert x [] = refl
length-insert x (y ∷ ys) = let rest = length-insert x ys in ground arith

sorting-IsSorted : (xs : List ℕ) → IsSorted (sorting xs)
sorting-IsSorted [] = tt
sorting-IsSorted (x ∷ xs) = insert-IsSorted x (sorting xs) (sorting-IsSorted xs)

length-sorting : (xs : List ℕ) → length (sorting xs) ≡ length xs
length-sorting [] = refl
length-sorting (x ∷ xs) = length-insert x (sorting xs) ∙ ap suc (length-sorting xs)

abbrev ten : List ℕ
ten = sorting (9 ∷ 7 ∷ 1 ∷ 3 ∷ 3 ∷ 90 ∷ 12 ∷ 8 ∷ 2 ∷ 5 ∷ [])

percentile_lem_example :
    HasShares ten 500 (percentile ten at_50)
    × HasShares ten 990 (percentile ten at_99)
    × HasShares ten 999 (percentile ten at_999)
percentile_lem_example =
    percentile_lem ten (sorting-IsSorted (9 ∷ 7 ∷ 1 ∷ 3 ∷ 3 ∷ 90 ∷ 12 ∷ 8 ∷ 2 ∷ 5 ∷ []))
      (omega arith) (omega arith)

latencies_from_lem_example : (length (latencies_from 42 4) ≡ 4) × AllLatencies (latencies_from 42 4)
latencies_from_lem_example = latencies_from_lem 42 4

percentiles_main_lem_example :
    InOrder (percentiles_main sorting 100).p50 (percentiles_main sorting 100).p99
    × InOrder (percentiles_main sorting 100).p99 (percentiles_main sorting 100).p999
    × InOrder (percentiles_main sorting 100).p999 (percentiles_main sorting 100).highest
    × (length (percentiles_main sorting 100).short ≡ 5)
    × AllInOrder sorting sorting-IsSorted length-sorting (percentiles_main sorting 100).short
percentiles_main_lem_example =
    percentiles_main_lem sorting sorting-IsSorted length-sorting 100 (omega arith)

-- ===== src/Fs/Rows.antt =====
-- The rows of a name in the directory table of 08_create_file.c, and the searches for a row.
use inside_the_cpu_storage_a.Base.{
  ap₂, ℕ, zero, suc, ◌+◌, ◌≤◌, ◌<◌, ◌≡◌, inl, inr, refl, ap, sym, ◌∙◌, Bool, true, false, Option,
  none, some, List, [], ◌∷◌, arith, length, get_or, if◌then◌else◌, Bool-cases, is_some,
}
use inside_the_cpu_storage_a.Fs.{Name, Dirent, zero_dirent, matches, first_row, is_dead}
use inside_the_cpu_storage_a.Fs.Bitmap.{one_if}
use inside_the_cpu_storage_a.Fs.Names.{
  same_name_iff, same_key, lookup, rows, IsRow, New, first_set, dead-matches, first_row-later,
  first_row-suc, swap, other, matches-same, lookup-none,
}

pub rows-none :
    (dir : ℕ) (name : Name) (ds : List Dirent) → lookup ds dir name ≡ none → rows ds dir name ≡ 0
unfolding rows lookup
rows-none dir name [] h = refl
rows-none dir name (d ∷ ds) h =
    let (e, h') = lookup-none dir name d ds h in
    ap (λ b. one_if b + rows ds dir name) e ∙ omega (arith, rows-none dir name ds h')

pub lookup-rows :
    (dir : ℕ) (name : Name) (ds : List Dirent) → rows ds dir name ≡ 0 → lookup ds dir name ≡ none
unfolding rows lookup
lookup-rows dir name [] h = refl
lookup-rows dir name (d ∷ ds) h =
    ap (λ b. if b then some d.ino else lookup ds dir name) {y = false} (ground arith)
    ∙ lookup-rows dir name ds (omega arith)

pub key-parts :
    (dir : ℕ) (name : Name) (dir' : ℕ) (name' : Name)
    → same_key dir name dir' name' ≡ true
    → (dir ≡ dir') × (name ≡ name')
key-parts dir name dir' name' h = (ground arith, (same_name_iff name name').0 (ground arith))

gone {ℓ} :
    {A : Type ℓ} (s : Bool) (l x : Option A)
    → (s ≡ true → l ≡ none)
    → l ≡ (if s then none else (if s then x else l))
gone true l x h = h refl
gone false l x h = refl

module _ (dir : ℕ) (name : Name) (dir' : ℕ) (name' : Name) where
  pub rows-replace :
      (ino : ℕ) (new : Dirent → Dirent) (ds : List Dirent)
      → New dir name ino new
      → rows (first_set (matches dir name) new ds) dir' name' ≡ rows ds dir' name'
  unfolding rows first_set New IsRow
  rows-replace ino new [] n = refl
  rows-replace ino new (d ∷ ds) n = elim (Bool-cases (matches dir name d)) [
    | inl e ↦ rw e (
        ap (λ b. one_if b + rows ds dir' name')
          ((n d).0 dir' name' ∙ sym (matches-same dir name d dir' name' e)))
    | inr e ↦ rw e (ap (λ k. one_if (matches dir' name' d) + k) (rows-replace ino new ds n))
  ]

  pub rows-add :
      (ino : ℕ) (new : Dirent → Dirent) (ds : List Dirent)
      → New dir name ino new
      → is_some (first_row is_dead 0 ds) ≡ true
      → rows (first_set is_dead new ds) dir' name'
        ≡ rows ds dir' name' + one_if (same_key dir name dir' name')
  unfolding rows first_set first_row New IsRow
  rows-add ino new [] n h = let absurd : ⊥ = cc in elim absurd [ ]
  rows-add ino new (d ∷ ds) n h = elim (Bool-cases (is_dead d)) [
    | inl e ↦ rw e (
        ap₂ (λ b c. one_if b + rows ds dir' name') ((n d).0 dir' name') e
        ∙ ground (arith, dead-matches dir' name' d e))
    | inr e ↦ rw e (omega (arith, rows-add ino new ds n (sym (first_row-later is_dead d ds e) ∙ h)))
  ]

  -- the row that `d->live = 0` leaves
  abbrev dead : Dirent → Dirent
  dead d = record d { live = false }

  pub rows-kill :
      (ds : List Dirent)
      → is_some (lookup ds dir name) ≡ true
      → rows (first_set (matches dir name) dead ds) dir' name'
          + one_if (same_key dir name dir' name')
        ≡ rows ds dir' name'
  unfolding rows first_set lookup
  rows-kill [] h = let absurd : ⊥ = cc in elim absurd [ ]
  rows-kill (d ∷ ds) h = elim (Bool-cases (matches dir name d)) [
    | inl e ↦ rw e (
        ground (arith, dead-matches dir' name' (dead d) refl, matches-same dir name d dir' name' e))
    | inr e ↦ rw e (
        omega (
          arith,
          rows-kill ds
              (sym (ap (λ b. is_some (if b then some d.ino else lookup ds dir name)) e) ∙ h),
        ))
  ]

  pub lookup-kill :
      (ds : List Dirent)
      → rows ds dir name ≤ 1
      → lookup (first_set (matches dir name) dead ds) dir' name'
        ≡ (if same_key dir name dir' name' then none else lookup ds dir' name')
  unfolding rows first_set lookup
  lookup-kill [] h = ground arith
  lookup-kill (d ∷ ds) h = elim (Bool-cases (matches dir name d)) [
    | inl e ↦ rw e (
        ap (λ b. if b then some d.ino else lookup ds dir' name')
          (dead-matches dir' name' (dead d) refl)
        ∙ gone (same_key dir name dir' name') (lookup ds dir' name') (some d.ino) (λ s.
          let (at, named) = key-parts dir name dir' name' s in
          ap₂ (lookup ds) (sym at) (sym named) ∙ lookup-rows dir name ds (ground arith))
        ∙ ap
            (λ b.
              if same_key dir name dir' name'
              then none
              else (if b then some d.ino else lookup ds dir' name'))
            (sym (matches-same dir name d dir' name' e)))
    | inr e ↦ rw e (
        ap (λ o. if matches dir' name' d then some d.ino else o) (lookup-kill ds (omega arith))
        ∙ swap (matches dir' name' d) (same_key dir name dir' name') _ _ _
            (other dir name 0 (λ r. r) dir' name' d e))
  ]

-- A row that passes the test is found.
pub first_row-finds :
    (test : Dirent → Bool) (ds : List Dirent) (i : ℕ)
    → i < length ds
    → test (get_or ds i zero_dirent) ≡ true
    → is_some (first_row test 0 ds) ≡ true
unfolding first_row
first_row-finds test [] i h e = elim h [ ]
first_row-finds test (d ∷ ds) zero h e =
    ap (λ b. is_some (if b then some 0 else first_row test 1 ds)) e
first_row-finds test (d ∷ ds) (suc i) h e = elim (Bool-cases (test d)) [
  | inl t ↦ ap (λ b. is_some (if b then some 0 else first_row test 1 ds)) t
  | inr t ↦ first_row-later test d ds t ∙ first_row-finds test ds i (omega arith) e
]

-- The row that a search gives is in the table and passes the test.
pub first_row-in :
    (test : Dirent → Bool) (ds : List Dirent) {i : ℕ}
    → first_row test 0 ds ≡ some i
    → (i < length ds) × (test (get_or ds i zero_dirent) ≡ true)
unfolding first_row
first_row-in test [] e = let absurd : ⊥ = cc in elim absurd [ ]
first_row-in test (d ∷ ds) {i} e = elim (Bool-cases (test d)) [
  | inl t ↦
      let here : 0 ≡ i = cc in
      (omega arith, ap (λ k. test (get_or (d ∷ ds) k zero_dirent)) (sym here) ∙ t)
  | inr t ↦
      go (first_row test 0 ds) refl
        (sym (first_row-suc test 0 ds)
          ∙ sym (ap (λ b. if b then some 0 else first_row test 1 ds) t)
          ∙ e)
        (λ j f. first_row-in test ds {i = j} f)
]
  where
    go :
        (o : Option ℕ)
        → first_row test 0 ds ≡ o
        → (elim o [ none ↦ none | some j ↦ some (suc j) ]) ≡ some i
        → ((j : ℕ)
            → first_row test 0 ds ≡ some j
            → (j < length ds) × (test (get_or ds j zero_dirent) ≡ true))
        → (i < length (d ∷ ds)) × (test (get_or (d ∷ ds) i zero_dirent) ≡ true)
    go none f g rec = let absurd : ⊥ = cc in elim absurd [ ]
    go (some j) f g rec =
        let (below, passes) = rec j f in
        let next : suc j ≡ i = cc in
        (omega arith, ap (λ k. test (get_or (d ∷ ds) k zero_dirent)) (sym next) ∙ passes)

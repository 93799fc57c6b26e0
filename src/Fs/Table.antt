-- ===== src/Fs/Table.antt =====
-- `dir_set` and the removal of a row of 08_create_file.c as updates of a finite map.
use inside_the_cpu_storage_a.Base.{
  ap₂, ℕ, zero, suc, ◌-◌, ◌≤◌, ◌<◌, ◌≡◌, ◌⊎◌, inl, inr, refl, ap, sym, ◌∙◌, true, false, ◌&&◌,
  Option, none, some, List, [], ◌∷◌, arith, length, set, take, ◌==◌, if◌then◌else◌, Bool-cases,
  is_some,
}
use inside_the_cpu_storage_a.Fs.{
  Name, same_name, Dirent, name_max_len, matches, first_row, dir_find, is_dead, row_for, dir_set,
  kill,
}
use inside_the_cpu_storage_a.Fs.Bitmap.{one_if}
use inside_the_cpu_storage_a.Fs.Names.{
  same_key, lookup, rows, IsRow, New, first_set, first_set-eq, written, first_row-lookup, ino_at,
  lookup-replace, lookup-add,
}
use inside_the_cpu_storage_a.Fs.Rows.{
  rows-none, rows-replace, rows-add, rows-kill, lookup-kill, key-parts,
}

take-short : (name : Name) (n : ℕ) → length name ≤ n → take n name ≡ name
take-short [] zero h = refl
take-short [] (suc n) h = refl
take-short (c ∷ name) zero h = let absurd : ⊥ = omega arith in elim absurd [ ]
take-short (c ∷ name) (suc n) h = ap (λ t. c ∷ t) (take-short name n (omega arith))

-- the row that `dir_set` writes
abbrev pub new_row : ℕ → Name → ℕ → Dirent
new_row dir name ino = record {
  dir = dir;
  ino = ino;
  name = take (name_max_len - 1) name;
  live = true;
}

new_row-New :
    (dir : ℕ) (name : Name) (ino : ℕ)
    → length name < name_max_len
    → New dir name ino (λ d. new_row dir name ino)
unfolding New IsRow matches
new_row-New dir name ino h d = (
  λ dir' name'.
      ap (λ n. (dir == dir') && same_name n name')
        (take-short name (name_max_len - 1) (omega arith)),
  refl,
)

dir_set-written :
    (ds : List Dirent) (dir : ℕ) (name : Name) (ino : ℕ)
    → dir_set ds dir name ino ≡ written (row_for ds dir name) (λ d. new_row dir name ino) ds
unfolding dir_set written
dir_set-written ds dir name ino = go (row_for ds dir name)
  where
    go :
        (o : Option ℕ)
        → (elim o [ none ↦ ds | some i ↦ set ds i (new_row dir name ino) ])
          ≡ written o (λ d. new_row dir name ino) ds
    go none = refl
    go (some i) = refl

-- The row of the name, or a row that is not live.
row_for-cases :
    (ds : List Dirent) (dir : ℕ) (name : Name)
    → is_some (row_for ds dir name) ≡ true
    → ((is_some (lookup ds dir name) ≡ true)
        × (row_for ds dir name ≡ first_row (matches dir name) 0 ds))
      ⊎ ((lookup ds dir name ≡ none)
          × (row_for ds dir name ≡ first_row is_dead 0 ds)
          × (is_some (first_row is_dead 0 ds) ≡ true))
unfolding row_for dir_find ino_at
row_for-cases ds dir name = go (first_row (matches dir name) 0 ds) (first_row-lookup dir name ds)
  where
    go :
        (o : Option ℕ)
        → ino_at o ds ≡ lookup ds dir name
        → is_some (elim o [ some i ↦ some i | none ↦ first_row is_dead 0 ds ]) ≡ true
        → ((is_some (lookup ds dir name) ≡ true)
            × ((elim o [ some i ↦ some i | none ↦ first_row is_dead 0 ds ]) ≡ o))
          ⊎ ((lookup ds dir name ≡ none)
              × ((elim o [ some i ↦ some i | none ↦ first_row is_dead 0 ds ])
                  ≡ first_row is_dead 0 ds)
              × (is_some (first_row is_dead 0 ds) ≡ true))
    go none e h = inr (sym e, refl, h)
    go (some i) e h = inl (sym (ap is_some e), refl)

dir_set-cases :
    (ds : List Dirent) (dir : ℕ) (name : Name) (ino : ℕ)
    → is_some (row_for ds dir name) ≡ true
    → ((is_some (lookup ds dir name) ≡ true)
        × (dir_set ds dir name ino ≡ first_set (matches dir name) (λ d. new_row dir name ino) ds))
      ⊎ ((lookup ds dir name ≡ none)
          × (is_some (first_row is_dead 0 ds) ≡ true)
          × (dir_set ds dir name ino ≡ first_set is_dead (λ d. new_row dir name ino) ds))
dir_set-cases ds dir name ino h = elim (row_for-cases ds dir name h) [
  | inl (found, at) ↦ inl (
    found,
    dir_set-written ds dir name ino
        ∙ ap (λ o. written o (λ d. new_row dir name ino) ds) at
        ∙ first_set-eq (matches dir name) (λ d. new_row dir name ino) ds,
  )
  | inr (absent, at, dead_row) ↦ inr (
    absent,
    dead_row,
    dir_set-written ds dir name ino
        ∙ ap (λ o. written o (λ d. new_row dir name ino) ds) at
        ∙ first_set-eq is_dead (λ d. new_row dir name ino) ds,
  )
]

-- `dir_set` of a name of at most 31 bytes, when the name has a row or a row is free, makes the name stand for the
-- inode; every other name in every directory keeps its meaning.
pub dir_set_lem :
    (ds : List Dirent) (dir : ℕ) (name : Name) (ino : ℕ) (dir' : ℕ) (name' : Name)
    → length name < name_max_len
    → is_some (row_for ds dir name) ≡ true
    → lookup (dir_set ds dir name ino) dir' name'
      ≡ (if same_key dir name dir' name' then some ino else lookup ds dir' name')
dir_set_lem ds dir name ino dir' name' short room = elim (dir_set-cases ds dir name ino room) [
  | inl (found, e) ↦
      ap (λ t. lookup t dir' name') e
      ∙ lookup-replace dir name ino (λ d. new_row dir name ino) dir' name' ds
          (new_row-New dir name ino short) found
  | inr (absent, dead_row, e) ↦
      ap (λ t. lookup t dir' name') e
      ∙ lookup-add dir name ino (λ d. new_row dir name ino) dir' name' ds
          (new_row-New dir name ino short) absent dead_row
]

dir_set-rows_room :
    (ds : List Dirent) (dir : ℕ) (name : Name) (ino : ℕ) (dir' : ℕ) (name' : Name)
    → length name < name_max_len
    → is_some (row_for ds dir name) ≡ true
    → rows ds dir' name' ≤ 1
    → rows (dir_set ds dir name ino) dir' name' ≤ 1
dir_set-rows_room ds dir name ino dir' name' short room h =
    elim (dir_set-cases ds dir name ino room) [
      | inl (found, e) ↦ omega (
        arith,
        ap (λ t. rows t dir' name') e,
        rows-replace dir name dir' name' ino (λ d. new_row dir name ino) ds
            (new_row-New dir name ino short),
      )
      | inr (absent, dead_row, e) ↦
          let added =
            ap (λ t. rows t dir' name') e
            ∙ rows-add dir name dir' name' ino (λ d. new_row dir name ino) ds
                (new_row-New dir name ino short) dead_row in
          elim (Bool-cases (same_key dir name dir' name')) [
            | inl s ↦
                let (at, named) = key-parts dir name dir' name' s in
                let fresh : rows ds dir' name' ≡ 0 =
                  ap₂ (rows ds) (sym at) (sym named) ∙ rows-none dir name ds absent in
                omega (arith, added, ap one_if s, fresh)
            | inr s ↦ omega (arith, added, ap one_if s)
          ]
    ]

-- A full table drops the name.
dir_set_full :
    (ds : List Dirent) (dir : ℕ) (name : Name) (ino : ℕ)
    → is_some (row_for ds dir name) ≡ false
    → dir_set ds dir name ino ≡ ds
unfolding written
dir_set_full ds dir name ino h = dir_set-written ds dir name ino ∙ go (row_for ds dir name) h
  where
    go : (o : Option ℕ) → is_some o ≡ false → written o (λ d. new_row dir name ino) ds ≡ ds
    go none e = refl
    go (some i) e = let absurd : ⊥ = cc in elim absurd [ ]

-- No name gets a second row.
pub dir_set-rows :
    (ds : List Dirent) (dir : ℕ) (name : Name) (ino : ℕ) (dir' : ℕ) (name' : Name)
    → length name < name_max_len
    → rows ds dir' name' ≤ 1
    → rows (dir_set ds dir name ino) dir' name' ≤ 1
dir_set-rows ds dir name ino dir' name' short h =
    elim (Bool-cases (is_some (row_for ds dir name))) [
      | inl found ↦ dir_set-rows_room ds dir name ino dir' name' short found h
      | inr full ↦ omega (arith, ap (λ t. rows t dir' name') (dir_set_full ds dir name ino full))
    ]

-- `d->live = 0` on the row that `dir_find` gives.
kill-first :
    (ds : List Dirent) (dir : ℕ) (name : Name) (i : ℕ)
    → dir_find ds dir name ≡ some i
    → kill ds i ≡ first_set (matches dir name) (λ d. record d { live = false }) ds
unfolding dir_find written
kill-first ds dir name i e =
    sym (ap (λ o. written o (λ d. record d { live = false }) ds) e)
    ∙ first_set-eq (matches dir name) (λ d. record d { live = false }) ds

pub dir_find-lookup :
    (ds : List Dirent) (dir : ℕ) (name : Name) {o : Option ℕ}
    → dir_find ds dir name ≡ o
    → ino_at o ds ≡ lookup ds dir name
unfolding dir_find
dir_find-lookup ds dir name e = ap (λ o. ino_at o ds) (sym e) ∙ first_row-lookup dir name ds

-- A name whose one row is removed stands for nothing; the others keep their meaning.
pub lookup-removed :
    (ds : List Dirent) (dir : ℕ) (name : Name) (i : ℕ) (dir' : ℕ) (name' : Name)
    → dir_find ds dir name ≡ some i
    → rows ds dir name ≤ 1
    → lookup (kill ds i) dir' name'
      ≡ (if same_key dir name dir' name' then none else lookup ds dir' name')
lookup-removed ds dir name i dir' name' e h =
    ap (λ t. lookup t dir' name') (kill-first ds dir name i e)
    ∙ lookup-kill dir name dir' name' ds h

pub rows-removed :
    (ds : List Dirent) (dir : ℕ) (name : Name) (i : ℕ) (dir' : ℕ) (name' : Name)
    → dir_find ds dir name ≡ some i
    → rows (kill ds i) dir' name' ≤ rows ds dir' name'
unfolding ino_at
rows-removed ds dir name i dir' name' e = omega (
  arith,
  ap (λ t. rows t dir' name') (kill-first ds dir name i e),
  rows-kill dir name dir' name' ds (sym (ap is_some (dir_find-lookup ds dir name e))),
)

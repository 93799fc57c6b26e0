-- ===== src/Fs/Names.antt =====
-- The directory table of 08_create_file.c as a finite map from directories and names to inodes.
use inside_the_cpu_storage_a.Base.{
  ap₂, ℕ, suc, ◌≡◌, ◌↔◌, inl, inr, refl, ap, sym, ◌∙◌, Bool, true, false, ◌&&◌, Option, none, some,
  List, [], ◌∷◌, arith, get_or, set, total, ◌==◌, if◌then◌else◌, Bool-cases, is_some,
}
use inside_the_cpu_storage_a.Fs.{Name, same_name, Dirent, zero_dirent, matches, first_row, is_dead}
use inside_the_cpu_storage_a.Fs.Bitmap.{one_if}

pub same_name_iff : (a b : Name) → (same_name a b ≡ true) ↔ (a ≡ b)
unfolding same_name
same_name_iff [] [] = (λ h. refl, λ h. refl)
same_name_iff [] (c ∷ b) = (λ h. cc, λ h. cc)
same_name_iff (c ∷ a) [] = (λ h. cc, λ h. cc)
same_name_iff (c ∷ a) (d ∷ b) = grind (arith, same_name_iff a b)

-- one key of the map
abbrev pub same_key : ℕ → Name → ℕ → Name → Bool
same_key dir name dir' name' = (dir == dir') && same_name name name'

-- the inode of a name, by the first of its rows
unfoldable pub lookup : List Dirent → ℕ → Name → Option ℕ
lookup [] dir name = none
lookup (d ∷ ds) dir name = if matches dir name d then some d.ino else lookup ds dir name

-- the number of rows of a name
unfoldable pub rows : List Dirent → ℕ → Name → ℕ
rows ds dir name = total (λ d. one_if (matches dir name d)) ds

-- the first row that passes the test, written over by `new`
unfoldable pub first_set : (Dirent → Bool) → (Dirent → Dirent) → List Dirent → List Dirent
first_set test new [] = []
first_set test new (d ∷ ds) = if test d then new d ∷ ds else d ∷ first_set test new ds

pub same_name_refl : (a : Name) → same_name a a ≡ true
same_name_refl a = (same_name_iff a a).1 refl

pub matches-parts :
    {dir : ℕ} {name : Name} (d : Dirent)
    → matches dir name d ≡ true
    → (d.live ≡ true) × (d.dir ≡ dir) × (d.name ≡ name)
unfolding matches
matches-parts {dir} {name} d h =
    (ground arith, ground arith, (same_name_iff d.name name).0 (ground arith))

-- A row has one key.
pub matches-same :
    (dir : ℕ) (name : Name) (d : Dirent) (dir' : ℕ) (name' : Name)
    → matches dir name d ≡ true
    → matches dir' name' d ≡ same_key dir name dir' name'
unfolding matches
matches-same dir name d dir' name' h =
    let (live, at, named) = matches-parts d h in
    ap (λ l. l && ((d.dir == dir') && same_name d.name name')) live
    ∙ ap₂ (λ e n. (e == dir') && same_name n name') at named

-- a live row with the key `dir`, `name`
unfoldable pub IsRow : ℕ → Name → Dirent → Type 0
IsRow dir name d = (dir' : ℕ) (name' : Name) → matches dir' name' d ≡ same_key dir name dir' name'

-- Both directions of a search for the first row.
pub first_row-suc :
    (test : Dirent → Bool) (i : ℕ) (ds : List Dirent)
    → first_row test (suc i) ds ≡ elim (first_row test i ds) [ none ↦ none | some j ↦ some (suc j) ]
unfolding first_row
first_row-suc test i [] = refl
first_row-suc test i (d ∷ ds) = elim (Bool-cases (test d)) [
  | inl e ↦ rw (e, first_row) refl
  | inr e ↦ rw (e, first_row) (first_row-suc test (suc i) ds)
]

-- a row written over by what `new` makes of it
unfoldable pub written : Option ℕ → (Dirent → Dirent) → List Dirent → List Dirent
written none new ds = ds
written (some j) new ds = set ds j (new (get_or ds j zero_dirent))

pub first_set-eq :
    (test : Dirent → Bool) (new : Dirent → Dirent) (ds : List Dirent)
    → written (first_row test 0 ds) new ds ≡ first_set test new ds
unfolding first_row first_set written
first_set-eq test new [] = refl
first_set-eq test new (d ∷ ds) = elim (Bool-cases (test d)) [
  | inl e ↦ rw e refl
  | inr e ↦ rw e (
      ap (λ o. written o new (d ∷ ds)) (first_row-suc test 0 ds)
      ∙ later (first_row test 0 ds)
      ∙ ap (λ t. d ∷ t) (first_set-eq test new ds))
]
  where
    later :
        (o : Option ℕ)
        → written (elim o [ none ↦ none | some j ↦ some (suc j) ]) new (d ∷ ds)
          ≡ d ∷ written o new ds
    later none = refl
    later (some j) = refl

-- the inode of a row
unfoldable pub ino_at : Option ℕ → List Dirent → Option ℕ
ino_at none ds = none
ino_at (some j) ds = some (get_or ds j zero_dirent).ino

pub first_row-lookup :
    (dir : ℕ) (name : Name) (ds : List Dirent)
    → ino_at (first_row (matches dir name) 0 ds) ds ≡ lookup ds dir name
unfolding first_row lookup ino_at
first_row-lookup dir name [] = refl
first_row-lookup dir name (d ∷ ds) = elim (Bool-cases (matches dir name d)) [
  | inl e ↦ rw e refl
  | inr e ↦ rw e (
      ap (λ o. ino_at o (d ∷ ds)) (first_row-suc (matches dir name) 0 ds)
      ∙ later (first_row (matches dir name) 0 ds)
      ∙ first_row-lookup dir name ds)
]
  where
    later :
        (o : Option ℕ)
        → ino_at (elim o [ none ↦ none | some j ↦ some (suc j) ]) (d ∷ ds) ≡ ino_at o ds
    later none = refl
    later (some j) = refl

same_name_sym : (a b : Name) → same_name a b ≡ same_name b a
unfolding same_name
same_name_sym [] [] = refl
same_name_sym [] (c ∷ b) = refl
same_name_sym (c ∷ a) [] = refl
same_name_sym (c ∷ a) (d ∷ b) = ap₂ ◌&&◌ (ground arith) (same_name_sym a b)

pub same_key_sym :
    (dir : ℕ) (name : Name) (dir' : ℕ) (name' : Name)
    → same_key dir name dir' name' ≡ same_key dir' name' dir name
same_key_sym dir name dir' name' = ap₂ ◌&&◌ (ground arith) (same_name_sym name name')

pub dead-matches :
    (dir : ℕ) (name : Name) (d : Dirent) → is_dead d ≡ true → matches dir name d ≡ false
unfolding matches
dead-matches dir name d e = ground arith

pub lookup-none :
    (dir : ℕ) (name : Name) (d : Dirent) (ds : List Dirent)
    → lookup (d ∷ ds) dir name ≡ none
    → (matches dir name d ≡ false) × (lookup ds dir name ≡ none)
unfolding lookup
lookup-none dir name d ds h = elim (Bool-cases (matches dir name d)) [
  | inl e ↦ let absurd : ⊥ = cc in elim absurd [ ]
  | inr e ↦ (e, sym (ap (λ b. if b then some d.ino else lookup ds dir name) e) ∙ h)
]

-- A search that goes past a row has the same outcome without it.
pub first_row-later :
    (test : Dirent → Bool) (d : Dirent) (ds : List Dirent)
    → test d ≡ false
    → is_some (first_row test 0 (d ∷ ds)) ≡ is_some (first_row test 0 ds)
unfolding first_row
first_row-later test d ds e =
    ap (λ b. is_some (if b then some 0 else first_row test 1 ds)) e
    ∙ ap is_some (first_row-suc test 0 ds)
    ∙ kept (first_row test 0 ds)
  where
    kept : (o : Option ℕ) → is_some (elim o [ none ↦ none | some j ↦ some (suc j) ]) ≡ is_some o
    kept none = refl
    kept (some j) = refl

pub twice {ℓ} :
    {A : Type ℓ} (s : Bool) (v x l : A)
    → (if s then v else l) ≡ (if s then v else (if s then x else l))
twice true v x l = refl
twice false v x l = refl

pub swap {ℓ} :
    {A : Type ℓ} (m s : Bool) (v x l : A)
    → (m ≡ true → s ≡ false)
    → (if m then x else (if s then v else l)) ≡ (if s then v else (if m then x else l))
swap false s v x l h = refl
swap true s v x l h = sym (ap (λ b. if b then v else x) (h refl))

module _ (dir : ℕ) (name : Name) (ino : ℕ) (new : Dirent → Dirent) where
  -- `new` makes a row of the key
  unfoldable pub New : Type 0
  New = (d : Dirent) → IsRow dir name (new d) × ((new d).ino ≡ ino)

  module _ (dir' : ℕ) (name' : Name) where
    abbrev same : Bool
    same = same_key dir name dir' name'

    pub other :
        (d : Dirent) → matches dir name d ≡ false → matches dir' name' d ≡ true → same ≡ false
    other d e e' =
        same_key_sym dir name dir' name' ∙ sym (matches-same dir' name' d dir name e') ∙ e

    lookup-new :
        (d : Dirent) (ds : List Dirent)
        → New
        → lookup (new d ∷ ds) dir' name' ≡ (if same then some ino else lookup ds dir' name')
    unfolding lookup New IsRow
    lookup-new d ds n =
        ap₂ (λ b i. if b then some i else lookup ds dir' name') ((n d).0 dir' name') (n d).1

    -- The first row of the key is written over.
    pub lookup-replace :
        (ds : List Dirent)
        → New
        → is_some (lookup ds dir name) ≡ true
        → lookup (first_set (matches dir name) new ds) dir' name'
          ≡ (if same then some ino else lookup ds dir' name')
    unfolding lookup first_set
    lookup-replace [] n h = (let absurd : ⊥ = cc in elim absurd [ ])
    lookup-replace (d ∷ ds) n h = elim (Bool-cases (matches dir name d)) [
      | inl e ↦ rw e (
          lookup-new d ds n
          ∙ twice same (some ino) (some d.ino) (lookup ds dir' name')
          ∙ ap (λ b. if same then some ino else (if b then some d.ino else lookup ds dir' name'))
              (sym (matches-same dir name d dir' name' e)))
      | inr e ↦ rw e (
          ap (λ o. if matches dir' name' d then some d.ino else o)
            (lookup-replace ds n
              (sym (ap (λ b. is_some (if b then some d.ino else lookup ds dir name)) e) ∙ h))
          ∙ swap (matches dir' name' d) same _ _ _ (other d e))
    ]

    -- The first row that is not live is written over.
    pub lookup-add :
        (ds : List Dirent)
        → New
        → lookup ds dir name ≡ none
        → is_some (first_row is_dead 0 ds) ≡ true
        → lookup (first_set is_dead new ds) dir' name'
          ≡ (if same then some ino else lookup ds dir' name')
    unfolding lookup first_set first_row
    lookup-add [] n h k = (let absurd : ⊥ = cc in elim absurd [ ])
    lookup-add (d ∷ ds) n h k = elim (Bool-cases (is_dead d)) [
      | inl e ↦ rw e (
          lookup-new d ds n
          ∙ ap (λ b. if same then some ino else (if b then some d.ino else lookup ds dir' name'))
              (sym (dead-matches dir' name' d e)))
      | inr e ↦ rw e (
          ap (λ o. if matches dir' name' d then some d.ino else o)
            (lookup-add ds n (lookup-none dir name d ds h).1
              (sym (first_row-later is_dead d ds e) ∙ k))
          ∙ swap (matches dir' name' d) same _ _ _ (other d (lookup-none dir name d ds h).0))
    ]

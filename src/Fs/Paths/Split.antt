-- ===== src/Fs/Paths/Split.antt =====
-- The components of a path, by one pass over its bytes, and the pieces that the loop of `fs_resolve` in
-- 09_resolve_path.c takes off.
use inside_the_cpu_storage_a.Base.{
  ℕ, suc, ◌≡◌, ◌≤◌, ◌<◌, inl, inr, refl, ap, sym, ◌∙◌, true, List, [], ◌∷◌, ◌++◌, take, drop,
  length, ◌==◌, if◌then◌else◌, Bool-cases, arith,
}
use inside_the_cpu_storage_a.Fs.{Name}
use inside_the_cpu_storage_a.Fs.Paths.{slash, until_slash, over_slash}

-- a byte put before the first part
abbrev onto : ℕ → List Name → List Name
onto c [] = (c ∷ []) ∷ []
onto c (part ∷ parts) = (c ∷ part) ∷ parts

-- the parts between slashes
unfoldable pub split : Name → List Name
split [] = [] ∷ []
split (c ∷ p) = if c == slash then [] ∷ split p else onto c (split p)

-- the parts that are not empty
abbrev pub kept : List Name → List Name
kept [] = []
kept ([] ∷ parts) = kept parts
kept ((c ∷ part) ∷ parts) = (c ∷ part) ∷ kept parts

abbrev pub components : Name → List Name
components p = kept (split p)

-- the parts past the first slash
abbrev pub parts_after : Name → List Name
parts_after [] = []
parts_after (c ∷ p) = split p

pub until_slash-length : (p : Name) → until_slash p ≤ length p
unfolding until_slash
until_slash-length [] = omega arith
until_slash-length (c ∷ p) = ground (arith, until_slash-length p)

pub split-take :
    (p : Name) → split p ≡ take (until_slash p) p ∷ parts_after (drop (until_slash p) p)
unfolding split until_slash
split-take [] = refl
split-take (c ∷ p) = elim (Bool-cases (c == slash)) [
  | inl e ↦ rw e refl
  | inr e ↦ rw e (ap (onto c) (split-take p))
]

over_slash_self : (c : ℕ) (p : Name) → (c == slash) ≡ true → over_slash (c ∷ p) ≡ p
unfolding over_slash
over_slash_self c p e = ap (λ b. if b then p else c ∷ p) e

over_slash_empty : over_slash [] ≡ []
unfolding over_slash
over_slash_empty = refl

pub over_slash-parts :
    (p : Name)
    → kept (parts_after (drop (until_slash p) p)) ≡ components (over_slash (drop (until_slash p) p))
unfolding until_slash split
over_slash-parts [] = ap components (sym over_slash_empty)
over_slash-parts (c ∷ p) = elim (Bool-cases (c == slash)) [
  | inl e ↦ rw e (ap components (sym (over_slash_self c p e)))
  | inr e ↦ rw e (over_slash-parts p)
]

pub over_slash-length :
    (p : Name) (c : ℕ)
    → suc (length (over_slash (drop (until_slash (c ∷ p)) (c ∷ p)))) ≤ length (c ∷ p)
unfolding until_slash
over_slash-length p c = elim (Bool-cases (c == slash)) [
  | inl e ↦ rw e (omega (arith, ap length (over_slash_self c p e)))
  | inr e ↦ rw e (omega (arith, shorter p))
]
  where
    shorter : (p : Name) → length (over_slash (drop (until_slash p) p)) ≤ length p
    shorter [] = omega (arith, ap length over_slash_empty)
    shorter (c ∷ p) = elim (Bool-cases (c == slash)) [
      | inl e ↦ rw e (omega (arith, ap length (over_slash_self c p e)))
      | inr e ↦ rw e (omega (arith, shorter p))
    ]

-- a name that can be a component
pub record IsComponent (name : Name) : Type 0 where
  pub not_empty : 0 < length name
  pub no_slash : until_slash name ≡ length name

split-append : (p q : Name) → split (p ++ slash ∷ q) ≡ split p ++ split q
unfolding split
split-append [] q = refl
split-append (c ∷ p) q = elim (Bool-cases (c == slash)) [
  | inl e ↦ rw e (ap (λ t. [] ∷ t) (split-append p q))
  | inr e ↦ rw e (ap (onto c) (split-append p q) ∙ onto-append (split p) (split-take p))
]
  where
    onto-append :
        (parts : List Name) {part : Name} {rest : List Name}
        → parts ≡ part ∷ rest
        → onto c (parts ++ split q) ≡ onto c parts ++ split q
    onto-append [] e = let absurd : ⊥ = cc in elim absurd [ ]
    onto-append (part ∷ parts) e = refl

split-component : (name : Name) → until_slash name ≡ length name → split name ≡ name ∷ []
unfolding split until_slash
split-component [] e = refl
split-component (c ∷ name) h = elim (Bool-cases (c == slash)) [
  | inl e ↦ let absurd : ⊥ = ground arith in elim absurd [ ]
  | inr e ↦ rw e (ap (onto c) (split-component name (ground arith)))
]

kept-append : (xs ys : List Name) → kept (xs ++ ys) ≡ kept xs ++ kept ys
kept-append [] ys = refl
kept-append ([] ∷ xs) ys = kept-append xs ys
kept-append ((c ∷ x) ∷ xs) ys = ap (λ t. (c ∷ x) ∷ t) (kept-append xs ys)

kept-one : (name : Name) → 0 < length name → kept (name ∷ []) ≡ name ∷ []
kept-one [] h = elim h [ ]
kept-one (c ∷ name) h = refl

-- A slash and a name put behind a path add the name to its components.
pub components-append :
    (p name : Name) → IsComponent name → components (p ++ slash ∷ name) ≡ components p ++ name ∷ []
components-append p name h =
    ap kept (split-append p name ∙ ap (λ t. split p ++ t) (split-component name h.no_slash))
    ∙ kept-append (split p) (name ∷ [])
    ∙ ap (λ t. components p ++ t) (kept-one name h.not_empty)

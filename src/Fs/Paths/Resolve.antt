-- ===== src/Fs/Paths/Resolve.antt =====
-- `fs_resolve` of 09_resolve_path.c.
use inside_the_cpu_storage_a.Base.{
  ap₂, ℕ, zero, suc, ◌≡◌, ◌≢◌, ◌≤◌, ◌<◌, inl, inr, ==_iff, ◌&&◌, refl, ap, sym, ◌∙◌, true, Option,
  none, some, List, [], ◌∷◌, ◌++◌, take, drop, length, if◌then◌else◌, Bool-cases, arith, ◌>>=◌,
  get_or, is_some,
}
use mathlib.Core.Option.{some-injective}
use inside_the_cpu_storage_a.Fs.{
  blocks_for, Name, Dirent, TinyFs, n_inodes, name_max_len, zero_dirent, root, dir_find, row_for,
  fs_create,
}
use inside_the_cpu_storage_a.Fs.Names.{lookup, ino_at, same_key, same_name_refl}
use inside_the_cpu_storage_a.Fs.Rows.{key-parts}
use inside_the_cpu_storage_a.Fs.Table.{dir_find-lookup}
use inside_the_cpu_storage_a.Fs.Inv.{IsFs}
use inside_the_cpu_storage_a.Fs.Create.{Created, after, fs_create-after, after-Created}
use inside_the_cpu_storage_a.Fs.Paths.{
  slash, until_slash, over_slash, hop, resolve_loop, fs_resolve,
}
use inside_the_cpu_storage_a.Fs.Paths.Prefix.{dir_find_len-take}
use inside_the_cpu_storage_a.Fs.Paths.Split.{
  split, split-take, kept, components, parts_after, until_slash-length, over_slash-parts,
  over_slash-length, IsComponent, components-append,
}

-- From an inode, one lookup for each name; 0 once a name is missing.
unfoldable pub walk : List Dirent → ℕ → List Name → ℕ
walk ds ino [] = ino
walk ds ino (name ∷ names) = elim (lookup ds ino name) [ none ↦ 0 | some i ↦ walk ds i names ]

hop-lookup :
    (ds : List Dirent) (p : Name) (n ino : ℕ)
    → suc n ≤ length p
    → hop ds p (suc n) ino ≡ lookup ds ino (take (suc n) p)
unfolding hop ino_at
hop-lookup ds p n ino h =
    ap (λ o. o >>= λ i. some (get_or ds i zero_dirent).ino) (dir_find_len-take ds ino p (suc n) h)
    ∙ at (dir_find ds ino (take (suc n) p))
    ∙ dir_find-lookup ds ino (take (suc n) p) refl
  where
    at : (o : Option ℕ) → (o >>= λ i. some (get_or ds i zero_dirent).ino) ≡ ino_at o ds
    at none = refl
    at (some i) = refl

module _ (fuel : ℕ) (ds : List Dirent) (rest : Name) (parts : List Name)
    (later : (i : ℕ) → resolve_loop fuel ds rest i ≡ some (walk ds i (kept parts))) where
  looked_up :
      (o : Option ℕ)
      → ◌≡◌ {A = Option ℕ}
          (elim o [ none ↦ some 0 | some i ↦ resolve_loop fuel ds rest i ])
          (some (elim o [ none ↦ 0 | some i ↦ walk ds i (kept parts) ]))
  looked_up none = refl
  looked_up (some i) = later i

  -- one turn of the loop
  turn :
      (c : ℕ) (p : Name) (len ino : ℕ)
      → len ≤ length (c ∷ p)
      → (elim (hop ds (c ∷ p) len ino) [ none ↦ some 0 | some i ↦ resolve_loop fuel ds rest i ])
        ≡ some (walk ds ino (kept (take len (c ∷ p) ∷ parts)))
  unfolding walk hop
  turn c p zero ino h = later ino
  turn c p (suc n) ino h =
      ap (λ o. elim o [ none ↦ some 0 | some i ↦ resolve_loop fuel ds rest i ])
        (hop-lookup ds (c ∷ p) n ino h)
      ∙ looked_up (lookup ds ino (take (suc n) (c ∷ p)))

resolve_loop-walk :
    (fuel : ℕ) (ds : List Dirent) (p : Name) (ino : ℕ)
    → length p ≤ fuel
    → resolve_loop fuel ds p ino ≡ some (walk ds ino (components p))
unfolding resolve_loop walk split
resolve_loop-walk fuel ds [] ino h = refl
resolve_loop-walk zero ds (c ∷ p) ino h = elim h [ ]
resolve_loop-walk (suc fuel) ds (c ∷ p) ino h =
    let len = until_slash (c ∷ p) in
    let rest = over_slash (drop len (c ∷ p)) in
    turn fuel ds rest (parts_after (drop len (c ∷ p)))
      (λ i.
        resolve_loop-walk fuel ds rest i (omega (arith, over_slash-length p c))
        ∙ ap (λ ns. some (walk ds i ns)) (sym (over_slash-parts (c ∷ p))))
      c p len ino (until_slash-length (c ∷ p))
    ∙ ap (λ ns. some (walk ds ino (kept ns))) (sym (split-take (c ∷ p)))

-- `fs_resolve` ends for every path: it gives the inode that the walk from the root reaches, with one lookup
-- for each component that is not empty, and 0 once a component is missing.
pub fs_resolve-walk :
    (fs : TinyFs) (path : Name) → fs_resolve fs path ≡ some (walk fs.dirents root (components path))
unfolding fs_resolve
fs_resolve-walk fs path = resolve_loop-walk (length path) fs.dirents path root (omega arith)

-- Names that are met before a walk ends at a live inode.
walk-append :
    (ds : List Dirent) (ino : ℕ) (xs ys : List Name)
    → walk ds ino xs ≢ 0
    → walk ds ino (xs ++ ys) ≡ walk ds (walk ds ino xs) ys
unfolding walk
walk-append ds ino [] ys h = refl
walk-append ds ino (x ∷ xs) ys h = go (lookup ds ino x) (λ i. walk-append ds i xs ys) refl
  where
    go :
        (o : Option ℕ)
        → ((i : ℕ) → walk ds i xs ≢ 0 → walk ds i (xs ++ ys) ≡ walk ds (walk ds i xs) ys)
        → lookup ds ino x ≡ o
        → (elim o [ none ↦ 0 | some i ↦ walk ds i (xs ++ ys) ])
          ≡ walk ds (elim o [ none ↦ 0 | some i ↦ walk ds i xs ]) ys
    go none rec e =
        let absurd : ⊥ = h (ap (λ o. elim o [ none ↦ 0 | some i ↦ walk ds i xs ]) e) in
        elim absurd [ ]
    go (some i) rec e = rec i (λ z. h (ap (λ o. elim o [ none ↦ 0 | some j ↦ walk ds j xs ]) e ∙ z))

-- The table `ds'` gives every name that `ds` knows the same inode.
abbrev Extends : List Dirent → List Dirent → Type 0
Extends ds ds' =
    (dir : ℕ) (name : Name) (i : ℕ) → lookup ds dir name ≡ some i → lookup ds' dir name ≡ some i

walk-Extends :
    (ds ds' : List Dirent) (ino : ℕ) (names : List Name)
    → Extends ds ds'
    → walk ds ino names ≢ 0
    → walk ds' ino names ≡ walk ds ino names
unfolding walk
walk-Extends ds ds' ino [] ext h = refl
walk-Extends ds ds' ino (x ∷ xs) ext h =
    go (lookup ds ino x) (λ i. walk-Extends ds ds' i xs ext) refl
  where
    go :
        (o : Option ℕ)
        → ((i : ℕ) → walk ds i xs ≢ 0 → walk ds' i xs ≡ walk ds i xs)
        → lookup ds ino x ≡ o
        → ◌≡◌ {A = ℕ}
            (elim (lookup ds' ino x) [ none ↦ 0 | some i ↦ walk ds' i xs ])
            (elim o [ none ↦ 0 | some i ↦ walk ds i xs ])
    go none rec e =
        let absurd : ⊥ = h (ap (λ o. elim o [ none ↦ 0 | some i ↦ walk ds i xs ]) e) in
        elim absurd [ ]
    go (some i) rec e =
        ap (λ o. elim o [ none ↦ 0 | some j ↦ walk ds' j xs ]) (ext ino x i e)
        ∙ rec i (λ z. h (ap (λ o. elim o [ none ↦ 0 | some j ↦ walk ds j xs ]) e ∙ z))

-- a new name hides no name that is there
new-Extends :
    (ds ds' : List Dirent) (dir : ℕ) (name : Name) (ino : ℕ)
    → lookup ds dir name ≡ none
    → ((dir' : ℕ) (name' : Name)
        → lookup ds' dir' name'
          ≡ (if same_key dir name dir' name' then some ino else lookup ds dir' name'))
    → Extends ds ds'
new-Extends ds ds' dir name ino absent names dir' name' i e =
    elim (Bool-cases (same_key dir name dir' name')) [
      | inl s ↦
          let (at, named) = key-parts dir name dir' name' s in
          let absurd : ⊥ = different (sym absent ∙ ap₂ (lookup ds) at named ∙ e) in elim absurd [ ]
      | inr s ↦ names dir' name' ∙ ap (λ b. if b then some ino else lookup ds dir' name') s ∙ e
    ]
  where
    different : none ≡ some i → ⊥
    different k = cc

module _ (fs fs' : TinyFs) (path name : Name) (n need dir : ℕ)
    (c : Created fs dir name n need fs') where
  reached :
      fs_resolve fs path ≡ some dir
      → dir ≢ 0
      → IsComponent name
      → lookup fs.dirents dir name ≡ none
      → fs_resolve fs' (path ++ slash ∷ name) ≡ some fs.next_inode
  unfolding walk
  reached at here shape absent =
      let to_dir : walk fs.dirents root (components path) ≡ dir =
        some-injective _ _ (sym (fs_resolve-walk fs path) ∙ at) in
      let kept_walk : walk fs'.dirents root (components path) ≡ dir =
        walk-Extends fs.dirents fs'.dirents root (components path)
          (new-Extends fs.dirents fs'.dirents dir name fs.next_inode absent c.names)
          (λ z. here (sym to_dir ∙ z))
        ∙ to_dir in
      fs_resolve-walk fs' (path ++ slash ∷ name)
      ∙ ap some (
          ap (walk fs'.dirents root) (components-append path name shape)
          ∙ walk-append fs'.dirents root (components path) (name ∷ [])
              (λ z. here (sym kept_walk ∙ z))
          ∙ ap (λ i. walk fs'.dirents i (name ∷ [])) kept_walk
          ∙ ap (λ o. elim o [ none ↦ 0 | some j ↦ j ])
              (c.names dir name
                ∙ ap (λ b. if b then some fs.next_inode else lookup fs.dirents dir name)
                    (ap₂ ◌&&◌ ((==_iff dir dir).1 refl) (same_name_refl name))))

-- On a file system in order with an inode left, where a path leads to the inode `dir` and `dir` has no entry
-- of the name, a component of at most 31 bytes for which a row is free: after `fs_create` makes the
-- name in `dir`, the path with the name behind it leads to the new inode.
pub fs_resolve-fs_create :
    {fs : TinyFs} (path name : Name) (n dir : ℕ)
    → IsFs fs
    → fs.next_inode < n_inodes
    → length name < name_max_len
    → is_some (row_for fs.dirents dir name) ≡ true
    → IsComponent name
    → fs_resolve fs path ≡ some dir
    → dir ≢ 0
    → lookup fs.dirents dir name ≡ none
    → (fs' : TinyFs) × (fs_create fs dir name n ≡ some (fs', fs.next_inode))
      × (fs_resolve fs' (path ++ slash ∷ name) ≡ some fs.next_inode)
fs_resolve-fs_create {fs} path name n dir v left short room shape at here absent =
    let c = after-Created v dir name n left short room in
    let made = fs_create-after v dir name n left short in
    let fs' = after fs dir name n in
    (fs', made, reached fs fs' path name n (blocks_for n) dir c at here shape absent)

-- ===== src/Fs/Reach.antt =====
-- The file systems that the operations of 08_create_file.c and 09_resolve_path.c reach from `fs_init`.
use inside_the_cpu_storage_a.Base.{
  ℕ, ◌<◌, ◌≡◌, ◌⊎◌, inl, inr, refl, ap, sym, ◌∙◌, subst, Bool, true, false, ◌||◌, Option, none,
  some, arith, length, ltb, leb, if◌then◌else◌, ◌>>=◌,
}
use mathlib.Core.Option.{some-injective}
use inside_the_cpu_storage_a.Fs.{
  Name, TinyFs, root, is_file, n_inodes, name_max_len, inode, fs_init, free_blocks, blocks_for,
  fs_create, fs_unlink, create_checked,
}
use inside_the_cpu_storage_a.Fs.Inv.{IsFs, fs_init-IsFs}
use inside_the_cpu_storage_a.Fs.Create.{after, fs_create-after, after-IsFs, set_inode-IsFs}
use inside_the_cpu_storage_a.Fs.Unlink.{fs_unlink_lem}
use inside_the_cpu_storage_a.Fs.Paths.{fs_make_dir, fs_rename}
use inside_the_cpu_storage_a.Fs.Paths.Rename.{fs_rename_lem, as_dir-IsFs}

-- one operation that does not leave the tables, with new names of at most 31 bytes
pub data Step (fs fs' : TinyFs) : Type 0 where
  create :
      (dir : ℕ) (name : Name) (n ino : ℕ)
      → length name < name_max_len
      → fs_create fs dir name n ≡ some (fs', ino)
      → Step fs fs'
  create_file :
      (name : Name) (bytes ino : ℕ)
      → length name < name_max_len
      → create_checked fs name bytes ≡ some (fs', ino)
      → Step fs fs'
  make_dir :
      (dir : ℕ) (name : Name) (ino : ℕ)
      → length name < name_max_len
      → fs_make_dir fs dir name ≡ some (fs', ino)
      → Step fs fs'
  unlink : (dir : ℕ) (name : Name) → fs_unlink fs dir name ≡ some fs' → Step fs fs'
  rename :
      (from : ℕ) (name : Name) (to : ℕ) (new_name : Name)
      → length new_name < name_max_len
      → fs_rename fs from name to new_name ≡ fs'
      → Step fs fs'

pub data Reachable : TinyFs → Type 0 where
  start : (fs : TinyFs) → fs ≡ fs_init → Reachable fs
  later : (fs fs' : TinyFs) → Reachable fs → Step fs fs' → Reachable fs'

bind_some {ℓ κ} :
    {A : Type ℓ} {B : Type κ} (o : Option A) (k : A → Option B) {b : B}
    → (o >>= k) ≡ some b
    → (a : A) × (o ≡ some a) × (k a ≡ some b)
bind_some none k e = let absurd : ⊥ = cc in elim absurd [ ]
bind_some (some a) k e = (a, refl, e)

branch {ℓ} :
    {A : Type ℓ} (b : Bool) (x y : A) {r : A}
    → (if b then x else y) ≡ r
    → ((b ≡ true) × (x ≡ r)) ⊎ ((b ≡ false) × (y ≡ r))
branch true x y e = inl (refl, e)
branch false x y e = inr (refl, e)

not_none {ℓ} : {A : Type ℓ} {a : A} → none ≡ some a → ⊥
not_none e = cc

-- A file that `fs_create` makes is made with an inode of the table.
fs_create_left :
    (fs : TinyFs) (dir : ℕ) (name : Name) (n : ℕ) {r : TinyFs × ℕ}
    → fs_create fs dir name n ≡ some r
    → fs.next_inode < n_inodes
unfolding fs_create
fs_create_left fs dir name n e = elim (branch (ltb fs.next_inode n_inodes) _ none e) [
  | inl (below, made) ↦ ground arith
  | inr (full, none_made) ↦ elim (not_none none_made) [ ]
]

module _ {fs : TinyFs} (v : IsFs fs) (dir : ℕ) (name : Name) (n : ℕ)
    (short : length name < name_max_len) where
  -- What `fs_create` gives, whether or not the table has a row for the name.
  create_made :
      {r : TinyFs × ℕ} → fs_create fs dir name n ≡ some r → IsFs r.0 × (r.1 < r.0.next_inode)
  create_made {r} e =
      let left = fs_create_left fs dir name n e in
      let same : (after fs dir name n, fs.next_inode) ≡ r =
        some-injective _ _ (sym (fs_create-after v dir name n left short) ∙ e) in
      subst (λ r. IsFs r.0 × (r.1 < r.0.next_inode)) same
        (after-IsFs v dir name n left short, omega arith)

make_dir-IsFs :
    {fs : TinyFs} (dir : ℕ) (name : Name)
    → IsFs fs
    → length name < name_max_len
    → {fs' : TinyFs} {ino : ℕ} → fs_make_dir fs dir name ≡ some (fs', ino)
    → IsFs fs'
unfolding fs_make_dir
make_dir-IsFs {fs} dir name v short {fs'} {ino} e =
    let (r, made, result) = bind_some (fs_create fs dir name 0) _ e in
    let (in_order, below) = create_made v dir name 0 short made in
    subst IsFs (ap (λ x. x.0) (some-injective _ _ result)) (as_dir-IsFs r.1 in_order below)

create_file-IsFs :
    {fs : TinyFs} (name : Name) (bytes : ℕ)
    → IsFs fs
    → length name < name_max_len
    → {fs' : TinyFs} {ino : ℕ} → create_checked fs name bytes ≡ some (fs', ino)
    → IsFs fs'
unfolding create_checked
create_file-IsFs {fs} name bytes v short {fs'} {ino} e =
    elim (branch (ltb (free_blocks fs) (blocks_for bytes) || leb n_inodes fs.next_inode) _ _ e) [
      | inl (full, same) ↦ subst IsFs (ap (λ x. x.0) (some-injective _ _ same)) v
      | inr (space, made) ↦
          let (r, made', result) = bind_some (fs_create fs root name bytes) _ made in
          let (in_order, below) = create_made v root name bytes short made' in
          subst IsFs (ap (λ x. x.0) (some-injective _ _ result))
            (set_inode-IsFs r.1 (record (inode r.0 r.1) { mode = is_file }) in_order below refl)
    ]

unlink-IsFs :
    {fs fs' : TinyFs} (dir : ℕ) (name : Name)
    → IsFs fs
    → fs_unlink fs dir name ≡ some fs'
    → IsFs fs'
unlink-IsFs {fs} {fs'} dir name v e = elim (fs_unlink_lem dir name v) [
  | inl (absent, same) ↦ subst IsFs (some-injective _ _ (sym same ∙ e)) v
  | inr (ino, made, found, run, u) ↦ subst IsFs (some-injective _ _ (sym run ∙ e)) u.in_order
]

rename-IsFs :
    {fs : TinyFs} (from : ℕ) (name : Name) (to : ℕ) (new_name : Name)
    → IsFs fs
    → length new_name < name_max_len
    → IsFs (fs_rename fs from name to new_name)
rename-IsFs {fs} from name to new_name v short =
    elim (fs_rename_lem from name to new_name v short) [
      | inl (absent, same) ↦ subst IsFs (sym same) v
      | inr (ino, found, r) ↦ r.in_order
    ]

-- One operation keeps the file system in order.
Step-IsFs : {fs fs' : TinyFs} → Step fs fs' → IsFs fs → IsFs fs'
Step-IsFs (create dir name n ino short e) v = (create_made v dir name n short e).0
Step-IsFs (create_file name bytes ino short e) v = create_file-IsFs name bytes v short e
Step-IsFs (make_dir dir name ino short e) v = make_dir-IsFs dir name v short e
Step-IsFs (unlink dir name e) v = unlink-IsFs dir name v e
Step-IsFs (rename from name to new_name short e) v =
    subst IsFs e (rename-IsFs from name to new_name v short)

-- Every file system that the operations reach from `fs_init`, in any order and with new names of at most 31
-- bytes, as long as none goes outside the tables, is in order: a block is in use exactly when it is
-- one of the four of the metadata or lies in an extent, no block lies in two extents, no name has
-- two rows, and every row that is live points to an inode that has been given out.
pub Reachable-IsFs : {fs : TinyFs} → Reachable fs → IsFs fs
Reachable-IsFs (start fs e) = subst IsFs (sym e) fs_init-IsFs
Reachable-IsFs (later fs fs' before step) = Step-IsFs step (Reachable-IsFs before)

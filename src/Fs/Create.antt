-- ===== src/Fs/Create.antt =====
-- `fs_create` and `create_checked` of 08_create_file.c.
use inside_the_cpu_storage_a.Base.{
  ℕ, zero, suc, ◌+◌, ◌-◌, ◌*◌, ◌%◌, ◌^◌, ◌≤◌, ◌<◌, ◌≡◌, ◌≢◌, ◌⊎◌, inl, inr, refl, ap, sym, ◌∙◌,
  subst, true, Option, none, some, List, [], ◌∷◌, arith, length, get_or, set, total, ltb,
  if◌then◌else◌, is_some, length-set, get_or-set_self, get_or-set_ne,
}
use inside_the_cpu_storage_a.Fs.{
  Extent, Inode, zero_inode, Name, Dirent, zero_dirent, name_max_len, n_inodes, max_extents, root,
  is_file, TinyFs, inode, set_inode, created, blocks_for, extend, row_for, dir_set, fs_create,
}
use inside_the_cpu_storage_a.Fs.Bitmap.{inside, free, covered, Extended, extend-Extended}
use inside_the_cpu_storage_a.Fs.Names.{lookup, same_key}
use inside_the_cpu_storage_a.Fs.Table.{dir_set_lem, dir_set-rows, new_row}
use inside_the_cpu_storage_a.Fs.Inv.{IsFs, owners-set}

-- A row after `dir_set` is the new row or an old one.
pub dir_set-get :
    (ds : List Dirent) (dir : ℕ) (name : Name) (ino i : ℕ)
    → (get_or (dir_set ds dir name ino) i zero_dirent ≡ new_row dir name ino)
      ⊎ (get_or (dir_set ds dir name ino) i zero_dirent ≡ get_or ds i zero_dirent)
unfolding dir_set
dir_set-get ds dir name ino i = go (row_for ds dir name)
  where
    Either : List Dirent → ℕ → List Dirent → Type 0
    Either ds i t =
        (get_or t i zero_dirent ≡ new_row dir name ino)
        ⊎ (get_or t i zero_dirent ≡ get_or ds i zero_dirent)

    put : (j : ℕ) (ds : List Dirent) (i : ℕ) → Either ds i (set ds j (new_row dir name ino))
    put j [] i = inr refl
    put zero (d ∷ ds) zero = inl refl
    put zero (d ∷ ds) (suc i) = inr refl
    put (suc j) (d ∷ ds) zero = inr refl
    put (suc j) (d ∷ ds) (suc i) = put j ds i

    go :
        (o : Option ℕ)
        → Either ds i (elim o [ none ↦ ds | some j ↦ set ds j (new_row dir name ino) ])
    go none = inr refl
    go (some j) = put j ds i

pub length-dir_set :
    (ds : List Dirent) (dir : ℕ) (name : Name) (ino : ℕ)
    → length (dir_set ds dir name ino) ≡ length ds
unfolding dir_set
length-dir_set ds dir name ino = go (row_for ds dir name)
  where
    go :
        (o : Option ℕ)
        → length (elim o [ none ↦ ds | some j ↦ set ds j (new_row dir name ino) ]) ≡ length ds
    go none = refl
    go (some j) = length-set ds j _

-- `need` blocks of 4096 bytes hold `n` bytes, and fewer do not.
abbrev pub Least : ℕ → ℕ → Type 0
Least need n = (n ≤ need * 4096) × (need * 4096 < n + 4096)

-- the sizes whose number of blocks is below 2 ^ 32
abbrev pub largest : ℕ
largest = 2 ^ 44 - 4096

blocks_for-Least : (n : ℕ) → n ≤ largest → Least (blocks_for n) n
unfolding blocks_for
blocks_for-Least n h = omega arith

-- What creating a file of `n` bytes, which need `need` blocks, does.
pub record Created (fs : TinyFs) (dir : ℕ) (name : Name) (n need : ℕ) (fs' : TinyFs) : Type 0 where
  pub in_order : IsFs fs'
  pub next : fs'.next_inode ≡ fs.next_inode + 1
  pub file : inode fs' fs.next_inode ≡ created zero_inode n (inode fs' fs.next_inode).extents
  pub blocks : Extended max_extents need fs.used fs'.used (inode fs' fs.next_inode).extents
  pub others : (i : ℕ) → i ≢ fs.next_inode → inode fs' i ≡ inode fs i
  pub names :
      (dir' : ℕ) (name' : Name)
      → lookup fs'.dirents dir' name' ≡ (
          if same_key dir name dir' name' then some fs.next_inode else lookup fs.dirents dir' name')

-- the file system that `fs_create` makes of blank inodes
abbrev pub after : TinyFs → ℕ → Name → ℕ → TinyFs
after fs dir name n =
    let (used', es) = extend max_extents (blocks_for n) fs.used in
    record {
      inodes = set fs.inodes fs.next_inode (created zero_inode n es);
      used = used';
      dirents = dir_set fs.dirents dir name fs.next_inode;
      next_inode = fs.next_inode + 1;
    }

module _ {fs : TinyFs} (v : IsFs fs) (dir : ℕ) (name : Name) (n : ℕ)
    (left : fs.next_inode < n_inodes) (short : length name < name_max_len) where
  abbrev made : Inode → ℕ → TinyFs × ℕ
  made f next =
      let (used', es) = extend (max_extents - length f.extents) (blocks_for n) fs.used in
      (
        record {
          inodes = set fs.inodes fs.next_inode (created f n es);
          used = used';
          dirents = dir_set fs.dirents dir name fs.next_inode;
          next_inode = next;
        },
        fs.next_inode,
      )

  pub fs_create-after : fs_create fs dir name n ≡ some (after fs dir name n, fs.next_inode)
  unfolding fs_create
  fs_create-after =
      ap
        (λ b.
          if b then some (made (inode fs fs.next_inode) ((fs.next_inode + 1) % 2 ^ 32)) else none)
        {x = ltb fs.next_inode n_inodes} {y = true} (ground arith)
      ∙ ap (λ f. some (made f ((fs.next_inode + 1) % 2 ^ 32)))
          (v.unborn fs.next_inode (omega arith))
      ∙ ap (λ k. some (made zero_inode k)) {y = fs.next_inode + 1} (omega arith)

  abbrev es : List Extent
  es = (extend max_extents (blocks_for n) fs.used).1

  extended : Extended max_extents (blocks_for n) fs.used (after fs dir name n).used es
  extended = extend-Extended max_extents (blocks_for n) fs.used

  here : inode (after fs dir name n) fs.next_inode ≡ created zero_inode n es
  here =
      get_or-set_self fs.inodes fs.next_inode (created zero_inode n es) zero_inode
        (omega (arith, v.inode_count))

  pub after-IsFs : IsFs (after fs dir name n)
  after-IsFs = record {
    inode_count = length-set fs.inodes fs.next_inode _ ∙ v.inode_count;
    block_count = extended.same_length ∙ v.block_count;
    row_count = length-dir_set fs.dirents dir name fs.next_inode ∙ v.row_count;
    next_from = omega (arith, v.next_from);
    next_to = omega arith;
    unborn = λ i h.
        get_or-set_ne fs.inodes fs.next_inode i _ zero_inode (omega arith)
        ∙ v.unborn i (omega arith);
    owned = λ b. omega (
      arith,
      extended.bits b,
      v.owned b,
      v.inode_count,
      owners-set b fs.inodes fs.next_inode (created zero_inode n es) (omega (arith, v.inode_count)),
      ap (λ f. total (inside b) f.extents) (v.unborn fs.next_inode (omega arith)),
    );
    one_row = λ dir' name'.
        dir_set-rows fs.dirents dir name fs.next_inode dir' name' short (v.one_row dir' name');
    born = λ i h. elim (dir_set-get fs.dirents dir name fs.next_inode i) [
      | inl e ↦ omega (arith, ap (λ d. d.ino) e)
      | inr e ↦ omega (arith, ap (λ d. d.ino) e, v.born i (sym (ap (λ d. d.live) e) ∙ h))
    ];
  }

  module _ (room : is_some (row_for fs.dirents dir name) ≡ true) where
    pub after-Created : Created fs dir name n (blocks_for n) (after fs dir name n)
    after-Created = record {
      in_order = after-IsFs;
      next = refl;
      file = here ∙ ap (λ f. created zero_inode n f.extents) (sym here);
      blocks =
          subst
            (λ f. Extended max_extents (blocks_for n) fs.used (after fs dir name n).used f.extents)
            (sym here) extended;
      others = λ i h. get_or-set_ne fs.inodes fs.next_inode i _ zero_inode (λ e. h (sym e));
      names = λ dir' name'. dir_set_lem fs.dirents dir name fs.next_inode dir' name' short room;
    }

-- On a file system in order with an inode left, `fs_create` of at most 2 ^ 44 - 4096 bytes, with a name of at most 31
-- bytes that has a row or finds one free, keeps it in order. The new inode has one link, the size, and
-- extents of blocks that were free: as many as hold the size, and no more, unless all eight extents are
-- taken or the disk is full. The name stands for it; all other names and inodes stay.
pub fs_create-Created :
    {fs : TinyFs} (dir : ℕ) (name : Name) (n : ℕ)
    → IsFs fs
    → fs.next_inode < n_inodes
    → length name < name_max_len
    → is_some (row_for fs.dirents dir name) ≡ true
    → n ≤ largest
    → (fs' : TinyFs) × (need : ℕ) × (fs_create fs dir name n ≡ some (fs', fs.next_inode))
      × Least need n
      × Created fs dir name n need fs'
fs_create-Created {fs} dir name n v left short room small = (
  after fs dir name n,
  blocks_for n,
  fs_create-after v dir name n left short,
  blocks_for-Least n small,
  after-Created v dir name n left short room,
)

-- Changing a live inode, but not its extents.
pub set_inode-IsFs :
    {fs : TinyFs} (i : ℕ) (f : Inode)
    → IsFs fs
    → i < fs.next_inode
    → f.extents ≡ (inode fs i).extents
    → IsFs (set_inode fs i f)
set_inode-IsFs {fs} i f v h same = record {
  inode_count = length-set fs.inodes i f ∙ v.inode_count;
  block_count = v.block_count;
  row_count = v.row_count;
  next_from = v.next_from;
  next_to = v.next_to;
  unborn = λ j k. get_or-set_ne fs.inodes i j f zero_inode (omega arith) ∙ v.unborn j k;
  owned = λ b. omega (
    arith,
    v.owned b,
    owners-set b fs.inodes i f (omega (arith, v.inode_count, v.next_to)),
    ap (total (inside b)) same,
  );
  one_row = v.one_row;
  born = v.born;
}

-- What `create_checked` makes of the file system when there is space.
pub record Checked (fs : TinyFs) (name : Name) (bytes need : ℕ) (fs' : TinyFs) (es : List Extent)
    : Type 0 where
  pub in_order : IsFs fs'
  pub file :
      inode fs' fs.next_inode ≡ record { mode = is_file; links = 1; size = bytes; extents = es }
  pub enough : (covered es ≡ need) ⊎ (length es ≡ max_extents)
  pub frees : free fs'.used + covered es ≡ free fs.used
  pub names :
      (dir' : ℕ) (name' : Name)
      → lookup fs'.dirents dir' name' ≡ (
          if same_key root name dir' name'
          then some fs.next_inode
          else lookup fs.dirents dir' name')

as_file : TinyFs → ℕ → TinyFs
as_file fs i = set_inode fs i (record (inode fs i) { mode = is_file })

-- ===== src/Fs/Paths/Rename.antt =====
-- `fs_make_dir` and `fs_rename` of 09_resolve_path.c.
use inside_the_cpu_storage_a.Base.{
  subst, ℕ, ◌<◌, ◌≡◌, ◌⊎◌, inl, inr, refl, ap, sym, ◌∙◌, true, false, Option, none, some, List, [],
  arith, length, get_or, if◌then◌else◌, Option-cases, is_some, length-set, get_or-set_self,
}
use inside_the_cpu_storage_a.Fs.{
  Inode, zero_inode, created, Name, Dirent, zero_dirent, name_max_len, n_inodes, TinyFs, inode,
  set_inode, is_dir, is_dead, first_row, row_for, dir_find, dir_set, kill, extend, blocks_for,
}
use inside_the_cpu_storage_a.Fs.Names.{lookup, same_key, ino_at}
use inside_the_cpu_storage_a.Fs.Rows.{first_row-finds}
use inside_the_cpu_storage_a.Fs.Table.{dir_set_lem, dir_set-rows, dir_find-lookup, lookup-removed}
use inside_the_cpu_storage_a.Fs.Inv.{IsFs}
use inside_the_cpu_storage_a.Fs.Create.{
  dir_set-get, length-dir_set, set_inode-IsFs, after, fs_create-after, after-Created,
}
use inside_the_cpu_storage_a.Fs.Unlink.{dir_find-row, kill-IsFs}
use inside_the_cpu_storage_a.Fs.Paths.{dir_find_len, fs_make_dir, fs_rename}
use inside_the_cpu_storage_a.Fs.Paths.Prefix.{dir_find_len-length}

-- A name for a live inode keeps the file system in order.
pub dir_set-IsFs :
    {fs : TinyFs} (dir : ℕ) (name : Name) (ino : ℕ)
    → IsFs fs
    → ino < fs.next_inode
    → length name < name_max_len
    → IsFs (record fs { dirents = dir_set fs.dirents dir name ino })
dir_set-IsFs {fs} dir name ino v live short = record {
  inode_count = v.inode_count;
  block_count = v.block_count;
  row_count = length-dir_set fs.dirents dir name ino ∙ v.row_count;
  next_from = v.next_from;
  next_to = v.next_to;
  unborn = v.unborn;
  owned = v.owned;
  one_row =
      λ dir' name'. dir_set-rows fs.dirents dir name ino dir' name' short (v.one_row dir' name');
  born = λ i h. elim (dir_set-get fs.dirents dir name ino i) [
    | inl e ↦ omega (arith, ap (λ d. d.ino) e)
    | inr e ↦ omega (arith, ap (λ d. d.ino) e, v.born i (sym (ap (λ d. d.live) e) ∙ h))
  ];
}

-- With a row that is not live every name finds a row.
dead-row_for :
    (ds : List Dirent) (dir : ℕ) (name : Name)
    → is_some (first_row is_dead 0 ds) ≡ true
    → is_some (row_for ds dir name) ≡ true
unfolding row_for
dead-row_for ds dir name h = go (dir_find ds dir name)
  where
    go :
        (o : Option ℕ) → is_some (elim o [ some i ↦ some i | none ↦ first_row is_dead 0 ds ]) ≡ true
    go none = h
    go (some i) = refl

kill-dead :
    (ds : List Dirent) (i : ℕ) → i < length ds → is_some (first_row is_dead 0 (kill ds i)) ≡ true
kill-dead ds i h =
    let put = record (get_or ds i zero_dirent) { live = false } in
    first_row-finds is_dead (kill ds i) i (omega (arith, length-set ds i put))
      (ap is_dead (get_or-set_self ds i put zero_dirent h))

-- What renaming does: the inodes and the bitmap stay, the old name is gone, the new name stands
-- for the inode, and every other name keeps its meaning.
pub record Renamed (fs : TinyFs) (from : ℕ) (name : Name) (to : ℕ) (new_name : Name) (ino : ℕ)
    (fs' : TinyFs) : Type 0 where
  pub in_order : IsFs fs'
  pub same_inodes : fs'.inodes ≡ fs.inodes
  pub same_blocks : fs'.used ≡ fs.used
  pub names :
      (dir : ℕ) (other : Name)
      → lookup fs'.dirents dir other ≡ (
          if same_key to new_name dir other
          then some ino
          else (if same_key from name dir other then none else lookup fs.dirents dir other))

-- the file system that `fs_rename` makes of the row it finds
abbrev renamed : TinyFs → ℕ → Name → Option ℕ → TinyFs
renamed fs to new_name none = fs
renamed fs to new_name (some i) = record fs {
  dirents = dir_set (kill fs.dirents i) to new_name (get_or fs.dirents i zero_dirent).ino;
}

fs_rename-renamed :
    (fs : TinyFs) (from : ℕ) (name : Name) (to : ℕ) (new_name : Name) (o : Option ℕ)
    → dir_find fs.dirents from name ≡ o
    → fs_rename fs from name to new_name ≡ renamed fs to new_name o
unfolding fs_rename
fs_rename-renamed fs from name to new_name o e =
    by_row (dir_find_len fs.dirents from name (length name))
    ∙ ap (renamed fs to new_name) (dir_find_len-length fs.dirents from name ∙ e)
  where
    by_row :
        (o : Option ℕ)
        → (elim o [
          | none ↦ fs
          | some i ↦ record fs {
            dirents = dir_set (kill fs.dirents i) to new_name (get_or fs.dirents i zero_dirent).ino;
          }
        ])
          ≡ renamed fs to new_name o
    by_row none = refl
    by_row (some i) = refl

renamed-Renamed :
    {fs : TinyFs} (from : ℕ) (name : Name) (to : ℕ) (new_name : Name) (i : ℕ)
    → IsFs fs
    → length new_name < name_max_len
    → dir_find fs.dirents from name ≡ some i
    → Renamed fs from name to new_name
        (get_or fs.dirents i zero_dirent).ino
        (renamed fs to new_name (some i))
renamed-Renamed {fs} from name to new_name i v short e =
    let (below, live) = dir_find-row from name v e in
    let ino : ℕ = (get_or fs.dirents i zero_dirent).ino in
    let room = dead-row_for (kill fs.dirents i) to new_name (kill-dead fs.dirents i below) in
    record {
      in_order = dir_set-IsFs to new_name ino (kill-IsFs from name v e) live short;
      same_inodes = refl;
      same_blocks = refl;
      names = λ dir other.
          dir_set_lem (kill fs.dirents i) to new_name ino dir other short room
          ∙ ap (λ o. if same_key to new_name dir other then some ino else o)
              (lookup-removed fs.dirents from name i dir other e (v.one_row from name));
    }

-- `fs_rename` on a file system in order, to a name of at most 31 bytes, changes nothing when the old name is
-- not there. Otherwise there is a row for the new name, which takes the inode over: the
-- file system stays in order, no inode and no block changes, the old name is gone unless it is the
-- new one, and every other name keeps its meaning.
pub fs_rename_lem :
    {fs : TinyFs} (from : ℕ) (name : Name) (to : ℕ) (new_name : Name)
    → IsFs fs
    → length new_name < name_max_len
    → ((lookup fs.dirents from name ≡ none) × (fs_rename fs from name to new_name ≡ fs))
      ⊎ ((ino : ℕ) × (lookup fs.dirents from name ≡ some ino)
          × Renamed fs from name to new_name ino (fs_rename fs from name to new_name))
unfolding ino_at
fs_rename_lem {fs} from name to new_name v short =
    elim (Option-cases (dir_find fs.dirents from name)) [
      | inl e ↦ inl (
        sym (dir_find-lookup fs.dirents from name e),
        fs_rename-renamed fs from name to new_name none e,
      )
      | inr (i, e) ↦
          let ino : ℕ = (get_or fs.dirents i zero_dirent).ino in
          inr (
            ino,
            sym (dir_find-lookup fs.dirents from name e),
            subst (Renamed fs from name to new_name ino)
                (sym (fs_rename-renamed fs from name to new_name (some i) e))
                (renamed-Renamed from name to new_name i v short e),
          )
    ]

-- a new file made a directory
abbrev pub with_mode : TinyFs → ℕ → TinyFs
with_mode fs i = set_inode fs i (record (inode fs i) { mode = is_dir })

abbrev pub as_dir : TinyFs → ℕ → TinyFs
as_dir fs i = set_inode (with_mode fs i) i (record (inode (with_mode fs i) i) { links = 2 })

module _ {fs : TinyFs} (i : ℕ) (v : IsFs fs) (h : i < fs.next_inode) where
  with_mode_self : inode (with_mode fs i) i ≡ record (inode fs i) { mode = is_dir }
  with_mode_self =
      get_or-set_self fs.inodes i _ zero_inode (omega (arith, v.inode_count, v.next_to))

  with_mode-IsFs : IsFs (with_mode fs i)
  with_mode-IsFs = set_inode-IsFs i (record (inode fs i) { mode = is_dir }) v h refl

  pub as_dir-IsFs : IsFs (as_dir fs i)
  as_dir-IsFs =
      set_inode-IsFs i (record (inode (with_mode fs i) i) { links = 2 }) with_mode-IsFs h refl

  as_dir_self : inode (as_dir fs i) i ≡ record (inode fs i) { mode = is_dir; links = 2 }
  as_dir_self =
      get_or-set_self (with_mode fs i).inodes i _ zero_inode
        (omega (arith, with_mode-IsFs.inode_count, v.next_to))
      ∙ ap {A = Inode} (λ f. record f { links = 2 }) with_mode_self

-- `fs_make_dir` on a file system in order with an inode left, of a name of at most 31 bytes that has a row or
-- finds one free, keeps it in order and takes no block: the new inode is a directory with two
-- links and no extent, the name stands for it, and every other name keeps its meaning.
pub fs_make_dir_lem :
    {fs : TinyFs} (dir : ℕ) (name : Name)
    → IsFs fs
    → fs.next_inode < n_inodes
    → length name < name_max_len
    → is_some (row_for fs.dirents dir name) ≡ true
    → (fs' : TinyFs) × (fs_make_dir fs dir name ≡ some (fs', fs.next_inode))
      × IsFs fs'
      × (fs'.used ≡ fs.used)
      × (inode fs' fs.next_inode ≡ record { mode = is_dir; links = 2; size = 0; extents = [] })
      × ((dir' : ℕ) (name' : Name)
          → lookup fs'.dirents dir' name' ≡ (
              if same_key dir name dir' name'
              then some fs.next_inode
              else lookup fs.dirents dir' name'))
unfolding fs_make_dir extend blocks_for
fs_make_dir_lem {fs} dir name v left short room =
    let c = after-Created v dir name 0 left short room in
    let below : fs.next_inode < (after fs dir name 0).next_inode = omega arith in
    (
      as_dir (after fs dir name 0) fs.next_inode,
      rw (fs_create-after v dir name 0 left short) refl,
      as_dir-IsFs fs.next_inode c.in_order below,
      refl,
      as_dir_self fs.next_inode c.in_order below
          ∙ ap {A = Inode} (λ f. record f { mode = is_dir; links = 2 })
              (get_or-set_self fs.inodes fs.next_inode (created zero_inode 0 []) zero_inode
                (omega (arith, v.inode_count))),
      c.names,
    )

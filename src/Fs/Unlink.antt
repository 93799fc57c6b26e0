-- ===== src/Fs/Unlink.antt =====
-- `fs_unlink` of 08_create_file.c.
use inside_the_cpu_storage_a.Base.{
  ℕ, ◌+◌, ◌<◌, ◌≡◌, ◌≢◌, ◌⊎◌, inl, inr, refl, ap, sym, ◌∙◌, true, false, none, some, List, arith,
  length, get_or, set, total, ltb, if◌then◌else◌, ltb→lt, Bool-cases, Option-cases, length-set,
  get_or-set_self, get_or-set_ne, ℕ_discrete,
}
use inside_the_cpu_storage_a.Fs.{
  Inode, zero_inode, Name, Dirent, zero_dirent, n_inodes, TinyFs, inode, set_inode, matches,
  dir_find, kill, fewer, drop_link, clear_all, fs_unlink,
}
use inside_the_cpu_storage_a.Fs.Bitmap.{bit, inside, clear_all-bit, length-clear_all}
use inside_the_cpu_storage_a.Fs.Names.{lookup, same_key, ino_at, matches-parts}
use inside_the_cpu_storage_a.Fs.Rows.{first_row-in}
use inside_the_cpu_storage_a.Fs.Table.{dir_find-lookup, lookup-removed, rows-removed}
use inside_the_cpu_storage_a.Fs.Inv.{IsFs, owners-set}
use inside_the_cpu_storage_a.Fs.Create.{set_inode-IsFs}

-- The row that `dir_find` gives is live, and points to an inode of the table.
pub dir_find-row :
    {fs : TinyFs} (dir : ℕ) (name : Name) {i : ℕ}
    → IsFs fs
    → dir_find fs.dirents dir name ≡ some i
    → (i < length fs.dirents) × ((get_or fs.dirents i zero_dirent).ino < fs.next_inode)
unfolding dir_find
dir_find-row {fs} dir name {i} v e =
    let (below, passes) = first_row-in (matches dir name) fs.dirents e in
    (
      below,
      v.born i (matches-parts {dir = dir} {name = name} (get_or fs.dirents i zero_dirent) passes).0,
    )

-- Without one of its rows the file system is in order.
pub kill-IsFs :
    {fs : TinyFs} (dir : ℕ) (name : Name) {i : ℕ}
    → IsFs fs
    → dir_find fs.dirents dir name ≡ some i
    → IsFs (record fs { dirents = kill fs.dirents i })
kill-IsFs {fs} dir name {i} v e = record {
  inode_count = v.inode_count;
  block_count = v.block_count;
  row_count = length-set fs.dirents i _ ∙ v.row_count;
  next_from = v.next_from;
  next_to = v.next_to;
  unborn = v.unborn;
  owned = v.owned;
  one_row = λ dir' name'.
      omega (arith, v.one_row dir' name', rows-removed fs.dirents dir name i dir' name' e);
  born = λ j h. elim (ℕ_discrete i j) [
    | yes same ↦ omega (
      arith,
      ap (λ k. (get_or (kill fs.dirents i) k zero_dirent).ino) (sym same),
      ap (λ d. d.ino)
          (get_or-set_self fs.dirents i (record (get_or fs.dirents i zero_dirent) { live = false })
            zero_dirent (dir_find-row dir name v e).0),
      (dir_find-row dir name v e).1,
    )
    | no other ↦
        let kept =
          get_or-set_ne fs.dirents i j (record (get_or fs.dirents i zero_dirent) { live = false })
            zero_dirent other in
        omega (arith, ap (λ d. d.ino) kept, v.born j (sym (ap (λ d. d.live) kept) ∙ h))
  ];
}

-- The bits of the blocks after an inode is freed.
freed_bits :
    {fs : TinyFs} (ino : ℕ)
    → IsFs fs
    → ino < fs.next_inode
    → (b : ℕ)
    → bit (clear_all (inode fs ino).extents fs.used) b + total (inside b) (inode fs ino).extents
      ≡ bit fs.used b
freed_bits {fs} ino v h = clear_all-bit (inode fs ino).extents fs.used (λ b. omega (
  arith,
  v.owned b,
  owners-set b fs.inodes ino zero_inode (omega (arith, v.inode_count, v.next_to)),
))

-- An inode that is freed gives its blocks back.
freed-IsFs :
    {fs : TinyFs} (ino : ℕ)
    → IsFs fs
    → ino < fs.next_inode
    → IsFs
        (record (set_inode fs ino zero_inode) { used = clear_all (inode fs ino).extents fs.used })
freed-IsFs {fs} ino v h = record {
  inode_count = length-set fs.inodes ino zero_inode ∙ v.inode_count;
  block_count = length-clear_all (inode fs ino).extents fs.used ∙ v.block_count;
  row_count = v.row_count;
  next_from = v.next_from;
  next_to = v.next_to;
  unborn = λ j k. get_or-set_ne fs.inodes ino j zero_inode zero_inode (omega arith) ∙ v.unborn j k;
  owned = λ b. omega (
    arith,
    v.owned b,
    freed_bits ino v h b,
    owners-set b fs.inodes ino zero_inode (omega (arith, v.inode_count, v.next_to)),
  );
  one_row = v.one_row;
  born = v.born;
}

-- What removing the name of inode `ino` does.
pub record Unlinked (fs : TinyFs) (dir : ℕ) (name : Name) (ino : ℕ) (fs' : TinyFs) : Type 0 where
  pub in_order : IsFs fs'
  pub names :
      (dir' : ℕ) (name' : Name)
      → lookup fs'.dirents dir' name'
        ≡ (if same_key dir name dir' name' then none else lookup fs.dirents dir' name')
  pub others : (i : ℕ) → i ≢ ino → inode fs' i ≡ inode fs i
  pub linked :
      0 < fewer (inode fs ino).links
      → (inode fs' ino ≡ record (inode fs ino) { links = fewer (inode fs ino).links })
        × (fs'.used ≡ fs.used)
  pub freed :
      fewer (inode fs ino).links ≡ 0
      → (inode fs' ino ≡ zero_inode)
        × ((b : ℕ) → bit fs'.used b + total (inside b) (inode fs ino).extents ≡ bit fs.used b)

-- the names without one
Without : TinyFs → ℕ → Name → List Dirent → Type 0
Without fs dir name ds =
    (dir' : ℕ) (name' : Name)
    → lookup ds dir' name'
      ≡ (if same_key dir name dir' name' then none else lookup fs.dirents dir' name')

module _ (fs : TinyFs) (dir : ℕ) (name : Name) (ino : ℕ) (ds : List Dirent)
    (v : IsFs (record fs { dirents = ds })) (h : ino < fs.next_inode)
    (names : Without fs dir name ds) where
  abbrev f : Inode
  f = inode fs ino

  here : (g : Inode) → get_or (set fs.inodes ino g) ino zero_inode ≡ g
  here g = get_or-set_self fs.inodes ino g zero_inode (omega (arith, v.inode_count, v.next_to))

  elsewhere : (g : Inode) (i : ℕ) → i ≢ ino → get_or (set fs.inodes ino g) i zero_inode ≡ inode fs i
  elsewhere g i ne = get_or-set_ne fs.inodes ino i g zero_inode (λ e. ne (sym e))

  fewer-Unlinked :
      0 < fewer f.links
      → Unlinked fs dir name ino
          (set_inode (record fs { dirents = ds }) ino (record f { links = fewer f.links }))
  unfolding Without
  fewer-Unlinked more = record {
    in_order = set_inode-IsFs ino (record f { links = fewer f.links }) v h refl;
    names = names;
    others = elsewhere (record f { links = fewer f.links });
    linked = λ k. (here (record f { links = fewer f.links }), refl);
    freed = λ z. let absurd : ⊥ = omega arith in elim absurd [ ];
  }

  last-Unlinked :
      fewer f.links ≡ 0
      → Unlinked fs dir name ino (record (set_inode (record fs { dirents = ds }) ino zero_inode) {
        used = clear_all f.extents fs.used;
      })
  unfolding Without
  last-Unlinked last = record {
    in_order = freed-IsFs ino v h;
    names = names;
    others = elsewhere zero_inode;
    linked = λ k. let absurd : ⊥ = omega arith in elim absurd [ ];
    freed = λ z. (here zero_inode, freed_bits ino v h);
  }

  drop_link-Unlinked : Unlinked fs dir name ino (drop_link (record fs { dirents = ds }) ino)
  drop_link-Unlinked = elim (Bool-cases (ltb 0 (fewer f.links))) [
    | inl more ↦ rw more (fewer-Unlinked (ltb→lt 0 (fewer f.links) more))
    | inr last ↦ rw last (last-Unlinked (ground arith))
  ]

-- On a file system in order, `fs_unlink` of a name that is not there changes nothing. Of a name that is, it
-- removes the name and no other, and keeps the file system in order: the inode loses a link,
-- and at the last one it is blank and its blocks, and no others, are free again. Other inodes stay.
pub fs_unlink_lem :
    {fs : TinyFs} (dir : ℕ) (name : Name)
    → IsFs fs
    → ((lookup fs.dirents dir name ≡ none) × (fs_unlink fs dir name ≡ some fs))
      ⊎ ((ino : ℕ) × (fs' : TinyFs) × (lookup fs.dirents dir name ≡ some ino)
          × (fs_unlink fs dir name ≡ some fs')
          × Unlinked fs dir name ino fs')
unfolding fs_unlink ino_at Without
fs_unlink_lem {fs} dir name v = elim (Option-cases (dir_find fs.dirents dir name)) [
  | inl e ↦ inl (sym (dir_find-lookup fs.dirents dir name e), rw (e, fs_unlink) refl)
  | inr (i, e) ↦
      let ino : ℕ = (get_or fs.dirents i zero_dirent).ino in
      let (below, live) = dir_find-row dir name v e in
      inr (
        ino,
        drop_link (record fs { dirents = kill fs.dirents i }) ino,
        sym (dir_find-lookup fs.dirents dir name e),
        rw (e, fs_unlink)
            (ap
              (λ b.
                if b
                then some (drop_link (record fs { dirents = kill fs.dirents i }) ino)
                else none)
              {x = ltb ino n_inodes} {y = true} (ground (arith, v.next_to))),
        drop_link-Unlinked fs dir name ino (kill fs.dirents i) (kill-IsFs dir name v e) live
            (λ dir' name'. lookup-removed fs.dirents dir name i dir' name' e (v.one_row dir name)),
      )
]

-- ===== src/Fs/Inv.antt =====
-- The invariant of the tiny file system of 08_create_file.c and 09_resolve_path.c.
use inside_the_cpu_storage_a.Base.{
  ℕ, zero, suc, ◌+◌, ◌≤◌, ◌<◌, ◌≡◌, refl, ap, ◌∙◌, true, false, List, ◌++◌, arith, length, get_or,
  set, total, ltb, get_or-set_ne, total-set, get_or-replicate, replicate,
}
use inside_the_cpu_storage_a.Fs.{
  Inode, zero_inode, Name, zero_dirent, n_inodes, n_blocks, max_dirents, first_inode, root, TinyFs,
  inode, fs_init,
}
use inside_the_cpu_storage_a.Fs.Bitmap.{one_if, bit, inside}
use inside_the_cpu_storage_a.Fs.Names.{rows, dead-matches}

-- 1 for each extent of the inodes that holds block `b`
abbrev pub owners : ℕ → List Inode → ℕ
owners b fs = total (λ f. total (inside b) f.extents) fs

-- A block is in use exactly when it is one of the four of the metadata or lies in an extent, and then in
-- only one; no name has two rows; the inodes from `next_inode` on are blank, and no row points there.
pub record IsFs (fs : TinyFs) : Type 0 where
  pub inode_count : length fs.inodes ≡ n_inodes
  pub block_count : length fs.used ≡ n_blocks
  pub row_count : length fs.dirents ≡ max_dirents
  pub next_from : first_inode ≤ fs.next_inode
  pub next_to : fs.next_inode ≤ n_inodes
  pub unborn : (i : ℕ) → fs.next_inode ≤ i → inode fs i ≡ zero_inode
  pub owned : (b : ℕ) → bit fs.used b ≡ one_if (ltb b 4) + owners b fs.inodes
  pub one_row : (dir : ℕ) (name : Name) → rows fs.dirents dir name ≤ 1
  pub born :
      (i : ℕ)
      → (get_or fs.dirents i zero_dirent).live ≡ true
      → (get_or fs.dirents i zero_dirent).ino < fs.next_inode

-- What a change of one inode does to the owners of a block.
pub owners-set :
    (b : ℕ) (fs : List Inode) (i : ℕ) (f : Inode)
    → i < length fs
    → owners b (set fs i f) + total (inside b) (get_or fs i zero_inode).extents
      ≡ owners b fs + total (inside b) f.extents
owners-set b fs i f h = total-set (λ f. total (inside b) f.extents) fs i f zero_inode h

init-rows : (n dir : ℕ) (name : Name) → rows (replicate n zero_dirent) dir name ≡ 0
unfolding rows
init-rows zero dir name = refl
init-rows (suc n) dir name =
    ap (λ b. one_if b + rows (replicate n zero_dirent) dir name)
      (dead-matches dir name zero_dirent refl)
    ∙ omega (arith, init-rows n dir name)

first_used : (n m b : ℕ) → bit (replicate n true ++ replicate m false) b ≡ one_if (ltb b n)
first_used zero m b = ap one_if (get_or-replicate m b false) ∙ ground arith
first_used (suc n) m zero = ground arith
first_used (suc n) m (suc b) = first_used n m b ∙ ground arith

-- The file system that `fs_init` makes is in order.
pub fs_init-IsFs : IsFs fs_init
unfolding fs_init
fs_init-IsFs = record {
  inode_count = refl;
  block_count = refl;
  row_count = refl;
  next_from = omega arith;
  next_to = omega arith;
  unborn = λ i h.
      get_or-set_ne (replicate n_inodes zero_inode) root i _ zero_inode (omega arith)
      ∙ get_or-replicate n_inodes i zero_inode;
  owned = λ b. first_used 4 60 b ∙ omega arith;
  one_row = λ dir name. omega (arith, init-rows max_dirents dir name);
  born = λ i h. omega (arith, ap (λ d. d.ino) (get_or-replicate max_dirents i zero_dirent));
}

-- ===== src/Fs.antt =====
-- The tiny file system of 03-storage-lab-how-filesystems-work-in-10-minutes: the block allocator of
-- 06_alloc_blocks.c, and the inodes, the bitmap and the directory table of 08_create_file.c. A name
-- is the list of its bytes. `extents` are the first `n_extents` entries of the inode's array; an
-- inode number outside the table is `none`, as an access outside an array. Bytes of the
-- bitmap are Booleans, and no write outside it is made for the extents that `fs_alloc` gives.
mod Bitmap
pub mod Names
mod Rows
mod Table
mod Inv
mod Create
mod Unlink
pub mod Paths
pub mod Reach
pub mod Programs
pub mod Tests
use inside_the_cpu_storage_a.Base.{
  ℕ, zero, suc, ◌+◌, ◌-◌, ◌*◌, ◌/◌, ◌%◌, ◌^◌, Bool, true, false, not, ◌&&◌, ◌||◌, Option, none,
  some, List, [], ◌∷◌, ◌++◌, length, get_or, set, take, replicate, total, ltb, leb, ◌==◌,
  if◌then◌else◌, ◌>>=◌,
}

pub record Extent : Type 0 where
  pub start : ℕ
  pub count : ℕ

pub record Inode : Type 0 where
  pub mode : ℕ
  pub links : ℕ
  pub size : ℕ
  pub extents : List Extent

abbrev pub max_extents : ℕ
max_extents = 8

abbrev pub root : ℕ
root = 2

abbrev pub first_inode : ℕ
first_inode = 11

abbrev pub block_size : ℕ
block_size = 4096

-- 0040755
abbrev pub is_dir : ℕ
is_dir = 16877

-- 0100644
abbrev pub is_file : ℕ
is_file = 33188

abbrev pub n_inodes : ℕ
n_inodes = 32

abbrev pub n_blocks : ℕ
n_blocks = 64

abbrev pub max_dirents : ℕ
max_dirents = 32

abbrev pub name_max_len : ℕ
name_max_len = 32

-- a C string
abbrev pub Name : Type 0
Name = List ℕ

-- `strcmp(a, b) == 0`
unfoldable pub same_name : Name → Name → Bool
same_name [] [] = true
same_name [] (c ∷ b) = false
same_name (c ∷ a) [] = false
same_name (c ∷ a) (d ∷ b) = (c == d) && same_name a b

pub record Dirent : Type 0 where
  pub dir : ℕ
  pub ino : ℕ
  pub name : Name
  pub live : Bool

abbrev pub Bitmap : Type 0
Bitmap = List Bool

pub record TinyFs : Type 0 where
  pub inodes : List Inode
  pub used : Bitmap
  pub dirents : List Dirent
  pub next_inode : ℕ

-- `memset(f, 0, sizeof *f)`
abbrev pub zero_inode : Inode
zero_inode = record { mode = 0; links = 0; size = 0; extents = [] }

abbrev pub zero_dirent : Dirent
zero_dirent = record { dir = 0; ino = 0; name = []; live = false }

abbrev pub inode : TinyFs → ℕ → Inode
inode fs i = get_or fs.inodes i zero_inode

abbrev pub set_inode : TinyFs → ℕ → Inode → TinyFs
set_inode fs i f = record fs { inodes = set fs.inodes i f }

unfoldable pub fs_init : TinyFs
fs_init = record {
  inodes =
      set (replicate n_inodes zero_inode) root (record zero_inode { mode = is_dir; links = 2 });
  used = replicate 4 true ++ replicate (n_blocks - 4) false;
  dirents = replicate max_dirents zero_dirent;
  next_inode = first_inode;
}

-- on uint64_t, then cut to uint32_t
unfoldable pub blocks_for : ℕ → ℕ
blocks_for n = (n + (block_size - 1)) % 2 ^ 64 / block_size % 2 ^ 32

abbrev pub free_one : Bool → ℕ
free_one b = if b then 0 else 1

unfoldable pub free_blocks : TinyFs → ℕ
free_blocks fs = total free_one fs.used

-- the second loop of `fs_alloc` on the blocks from the first free one on, and `e.count`
unfoldable pub grow_run : ℕ → Bitmap → Bitmap × ℕ
grow_run want [] = ([], 0)
grow_run zero (u ∷ us) = (u ∷ us, 0)
grow_run (suc want) (true ∷ us) = (true ∷ us, 0)
grow_run (suc want) (false ∷ us) = let (rest, n) = grow_run want us in (true ∷ rest, suc n)

-- both loops of `fs_alloc`, on the blocks from `b` on
unfoldable pub alloc_from : ℕ → ℕ → Bitmap → Bitmap × Extent
unfolding grow_run
alloc_from want b [] = ([], record { start = b; count = 0 })
alloc_from want b (true ∷ us) = let (rest, e) = alloc_from want (suc b) us in (true ∷ rest, e)
alloc_from want b (false ∷ us) =
    let (rest, n) = grow_run want (false ∷ us) in (rest, record { start = b; count = n })

unfoldable pub fs_alloc : ℕ → Bitmap → Bitmap × Extent
unfolding alloc_from
fs_alloc want used = alloc_from want 0 used

-- the loop of `fs_create` with `slots` entries left in the extent array: the bitmap, and the new extents
unfoldable pub extend : ℕ → ℕ → Bitmap → Bitmap × List Extent
unfolding fs_alloc
extend zero need used = (used, [])
extend (suc slots) zero used = (used, [])
extend (suc slots) (suc n) used =
    let (used', e) = fs_alloc (suc n) used in
    let (last, es) = extend slots (suc n - e.count) used' in (last, e ∷ es)

-- the test of `dir_find`
unfoldable pub matches : ℕ → Name → Dirent → Bool
unfolding same_name
matches dir name d = d.live && (d.dir == dir && same_name d.name name)

-- the number of the first row that passes a test, from row `i` on
unfoldable pub first_row : (Dirent → Bool) → ℕ → List Dirent → Option ℕ
first_row test i [] = none
first_row test i (d ∷ ds) = if test d then some i else first_row test (suc i) ds

unfoldable pub dir_find : List Dirent → ℕ → Name → Option ℕ
unfolding first_row matches
dir_find ds dir name = first_row (matches dir name) 0 ds

abbrev pub is_dead : Dirent → Bool
is_dead d = not d.live

-- the row that `dir_set` writes: the name's, or else the first that is not live
unfoldable pub row_for : List Dirent → ℕ → Name → Option ℕ
unfolding dir_find first_row
row_for ds dir name = elim (dir_find ds dir name) [
  | some i ↦ some i
  | none ↦ first_row is_dead 0 ds
]

-- `snprintf` keeps 31 bytes of the name; a full table drops the name.
unfoldable pub dir_set : List Dirent → ℕ → Name → ℕ → List Dirent
unfolding row_for
dir_set ds dir name ino = elim (row_for ds dir name) [
  | none ↦ ds
  | some i ↦
      set ds i (record { dir = dir; ino = ino; name = take (name_max_len - 1) name; live = true })
]

-- the file's inode once its blocks are there
abbrev pub created : Inode → ℕ → List Extent → Inode
created f n es = record f { links = 1; size = n; extents = f.extents ++ es }

unfoldable pub fs_create : TinyFs → ℕ → Name → ℕ → Option (TinyFs × ℕ)
unfolding blocks_for extend dir_set
fs_create fs dir name n =
    let ino = fs.next_inode in
    let f = inode fs ino in
    let (used', es) = extend (max_extents - length f.extents) (blocks_for n) fs.used in
    if ltb ino n_inodes
    then some (
      record {
        inodes = set fs.inodes ino (created f n es);
        used = used';
        dirents = dir_set fs.dirents dir name ino;
        next_inode = (ino + 1) % 2 ^ 32;
      },
      ino,
    )
    else none

-- `used[b] = 0` for the `n` blocks from `b` on
unfoldable pub clear_run : ℕ → ℕ → Bitmap → Bitmap
clear_run b zero used = used
clear_run b (suc n) used = clear_run (suc b) n (set used b false)

unfoldable pub clear_all : List Extent → Bitmap → Bitmap
unfolding clear_run
clear_all [] used = used
clear_all (e ∷ es) used = clear_all es (clear_run e.start e.count used)

-- `--f->links` on uint16_t
abbrev pub fewer : ℕ → ℕ
fewer links = (links + 2 ^ 16 - 1) % 2 ^ 16

-- the rest of `fs_unlink` once the row is found
abbrev pub drop_link : TinyFs → ℕ → TinyFs
drop_link fs ino =
    let f = inode fs ino in
    if ltb 0 (fewer f.links)
    then set_inode fs ino (record f { links = fewer f.links })
    else record (set_inode fs ino zero_inode) { used = clear_all f.extents fs.used }

-- `d->live = 0`
abbrev pub kill : List Dirent → ℕ → List Dirent
kill ds i = set ds i (record (get_or ds i zero_dirent) { live = false })

unfoldable pub fs_unlink : TinyFs → ℕ → Name → Option TinyFs
unfolding dir_find clear_all
fs_unlink fs dir name = elim (dir_find fs.dirents dir name) [
  | none ↦ some fs
  | some i ↦
      let ino = (get_or fs.dirents i zero_dirent).ino in
      if ltb ino n_inodes
      then some (drop_link (record fs { dirents = kill fs.dirents i }) ino)
      else none
]

-- 0 stands for ENOSPC
unfoldable pub create_checked : TinyFs → Name → ℕ → Option (TinyFs × ℕ)
unfolding free_blocks blocks_for fs_create
create_checked fs name bytes =
    let made = fs_create fs root name bytes >>= λ r.
    some (set_inode r.0 r.1 (record (inode r.0 r.1) { mode = is_file }), r.1) in
    if ltb (free_blocks fs) (blocks_for bytes) || leb n_inodes fs.next_inode
    then some (fs, 0)
    else made

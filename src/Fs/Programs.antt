-- ===== src/Fs/Programs.antt =====
-- The main functions of lab 03: 04_inode.c, 06_alloc_blocks.c, 08_create_file.c and 09_resolve_path.c,
-- with the printing of the bitmap. A printed line is the list of its bytes; a main function gives what it
-- prints, where that is more than a number of the text, and the test at its end. The sort of the
-- directory's rows before they are printed, and the figures of 04_inode.c and
-- 06_alloc_blocks.c that are computed from constants alone, are left out.
pub mod Bits
pub mod Gather
use Prim.Native.Char.{code}
use inside_the_cpu_storage_a.Base.{
  ℕ, zero, suc, ◌+◌, ◌-◌, ◌*◌, ◌/◌, ◌%◌, ◌^◌, Bool, true, false, not, ◌&&◌, Option, none, some,
  List, [], ◌∷◌, ◌++◌, String, length, get_or, set, replicate, total, ltb, ◌==◌, if◌then◌else◌,
  ◌>>=◌,
}
use inside_the_cpu_storage_a.Fs.{
  Extent, Inode, zero_inode, root, block_size, is_dir, is_file, Name, Dirent, Bitmap, TinyFs, inode,
  set_inode, fs_init, fs_alloc, fs_create, fs_unlink, create_checked,
}
use inside_the_cpu_storage_a.Fs.Paths.{fs_make_dir, fs_rename, fs_resolve}

-- the bytes of a text
abbrev pub codes : String → Name
codes String.[] = []
codes (String.◌∷◌ c s) = code c ∷ codes s

abbrev pub digit : Bool → ℕ
digit u = if u then 49 else 48

-- what `bits` writes before the end of the string, from block `i` and byte `k` on
unfoldable pub bits_from : ℕ → ℕ → ℕ → Bitmap → List ℕ
bits_from cap i k [] = []
bits_from cap i k (u ∷ us) =
    let gap = ltb 0 i && (i % 8 == 0) in
    let line =
      if gap
      then 32 ∷ digit u ∷ bits_from cap (suc i) (k + 2) us
      else digit u ∷ bits_from cap (suc i) (k + 1) us in
    if ltb (k + 2) cap then line else []

unfoldable pub bits : Bitmap → ℕ → List ℕ
unfolding bits_from
bits used cap = bits_from cap 0 0 used

-- the loop of 06_alloc_blocks.c that asks until the need is covered
unfoldable pub gather : ℕ → ℕ → Bitmap → Option (Bitmap × List Extent)
unfolding fs_alloc
gather fuel zero used = some (used, [])
gather zero (suc need) used = none
gather (suc fuel) (suc need) used =
    let (used', e) = fs_alloc (suc need) used in
    let rest = gather fuel (suc need - e.count) used' in
    elim e.count [ zero ↦ some (used', []) | suc n ↦ rest >>= λ r. some (r.0, e ∷ r.1) ]

abbrev pub zero_extent : Extent
zero_extent = record { start = 0; count = 0 }

-- `e.start == s && e.count == n`
abbrev pub is_extent : List Extent → ℕ → ℕ → ℕ → Bool
is_extent es i s n =
    ((get_or es i zero_extent).start == s) && ((get_or es i zero_extent).count == n)

abbrev pub figure : Bitmap
figure = replicate 10 true ++ replicate 3 false ++ replicate 7 true ++ replicate 12 false

-- the line before, the line after, and `ok`
unfoldable pub alloc_main : Option (List ℕ × List ℕ × Bool)
unfolding gather bits
alloc_main = gather 5 5 figure >>= λ r. some (
  bits figure 64,
  bits r.0 64,
  (length r.1 == 2) && (is_extent r.1 0 10 3 && is_extent r.1 1 20 2),
)

unfoldable pub print_bits : TinyFs → List ℕ
unfolding bits
print_bits fs = bits fs.used 96

-- the rows of the root that the main function of 08_create_file.c sorts and prints
unfoldable pub root_rows : List Dirent → List Dirent
root_rows [] = []
root_rows (d ∷ ds) = if d.live && (d.dir == root) then d ∷ root_rows ds else root_rows ds

-- the bitmap after the steps, the rows of the root, and `ok`
unfoldable pub create_main : Option (List (List ℕ) × List Dirent × Bool)
unfolding fs_init create_checked fs_unlink print_bits root_rows
create_main = create_checked fs_init (codes "a.log") 20000 >>= λ a.
    create_checked a.0 (codes "b.tmp") 12000 >>= λ b.
    create_checked b.0 (codes "c.db") 24000 >>= λ c. fs_unlink c.0 root (codes "b.tmp") >>= λ u.
    create_checked u (codes "d.bin") 32768 >>= λ d.
    create_checked d.0 (codes "huge.iso") (64 * block_size) >>= λ h.
    let f = inode h.0 d.1 in
    some (
      print_bits fs_init ∷ print_bits c.0 ∷ print_bits u ∷ print_bits d.0 ∷ [],
      root_rows d.0.dirents,
      not (d.1 == 0)
          && ((length f.extents == 2) && (is_extent f.extents 0 9 3 && is_extent f.extents 1 18 5)),
    )

-- a line of `show`, when the path leads to an inode
pub record Shown : Type 0 where
  pub ino : ℕ
  pub directory : Bool
  pub extents : List Extent

unfoldable pub show : TinyFs → Name → Option (Option Shown)
unfolding fs_resolve
show fs path = fs_resolve fs path >>= λ ino.
    let f = inode fs ino in
    some (
      if ino == 0
      then none
      else some (record { ino = ino; directory = f.mode == is_dir; extents = f.extents }))

-- the directories and files of the main function of 09_resolve_path.c, and the numbers of `tom` and `report`
unfoldable pub home_tree : Option (TinyFs × ℕ × ℕ)
unfolding fs_init fs_make_dir fs_create
home_tree = fs_make_dir fs_init root (codes "home") >>= λ home.
    fs_make_dir home.0 home.1 (codes "tom") >>= λ tom.
    fs_make_dir tom.0 home.1 (codes "ana") >>= λ ana.
    fs_create ana.0 tom.1 (codes "notes.md") 3000 >>= λ notes.
    fs_create notes.0 tom.1 (codes "report.txt") 10000 >>= λ report.
    let as_file : TinyFs → ℕ → TinyFs =
      λ fs i. set_inode fs i (record (inode fs i) { mode = is_file }) in
    some (as_file (as_file report.0 notes.1) report.1, tom.1, report.1)

-- the file system after the rename
unfoldable pub home_renamed : TinyFs → ℕ → Option TinyFs
unfolding fs_rename fs_resolve
home_renamed fs tom = fs_resolve fs (codes "/home/ana") >>= λ ana.
    some (fs_rename fs tom (codes "report.txt") ana (codes "final.txt"))

-- the two lines of `show` after the rename, and `ok`
unfoldable pub resolve_main : Option (Option Shown × Option Shown × Bool)
unfolding home_tree home_renamed show
resolve_main = home_tree >>= λ t. home_renamed t.0 t.1 >>= λ fs.
    show fs (codes "/home/tom/report.txt") >>= λ old.
    show fs (codes "/home/ana/final.txt") >>= λ new.
    fs_resolve fs (codes "/home/ana/final.txt") >>= λ after.
    fs_resolve fs (codes "/home/tom") >>= λ tom.
    fs_resolve fs (codes "/home/tom/report.txt") >>= λ gone.
    let before = (inode t.0 t.2).extents in
    let f = inode fs after in
    some (
      old,
      new,
      (tom == t.1)
          && ((after == t.2)
              && ((gone == 0)
                  && ((length f.extents == length before)
                      && ((get_or f.extents 0 zero_extent).start
                          == (get_or before 0 zero_extent).start)))),
    )

-- the inode of 04_inode.c, and the bytes that its extents cover
unfoldable pub video : Inode
video = record {
  mode = is_file;
  links = 1;
  size = 2 ^ 30;
  extents =
      record { start = 34816; count = 131072 }
      ∷ record { start = 190000; count = 98304 }
      ∷ record { start = 400000; count = 32768 }
      ∷ [];
}

unfoldable pub covered_bytes : List Extent → ℕ
covered_bytes es = total (λ e. e.count * block_size) es

-- the pointer blocks of a file that needs the double indirect level
unfoldable pub pointer_blocks : ℕ → ℕ
pointer_blocks blocks =
    let per_block = block_size / 4 in
    let left = blocks - 12 - per_block in 1 + 1 + (left + per_block - 1) / per_block

unfoldable pub inode_main : Bool × ℕ
unfolding video covered_bytes pointer_blocks
inode_main = (covered_bytes video.extents == video.size, pointer_blocks (video.size / block_size))

-- ===== src/Fs/Tests.antt =====
-- Runs of the programs of lab 03.
use inside_the_cpu_storage_a.Base.{
  ℕ, ◌+◌, ◌*◌, ◌≤◌, ◌<◌, ◌≡◌, ◌⊎◌, refl, true, false, none, some, [], ◌∷◌, ◌++◌, arith, length,
  if◌then◌else◌, is_some,
}
use inside_the_cpu_storage_a.Fs.{
  Name, TinyFs, inode, root, n_inodes, is_dir, row_for, dir_set, fs_init, fs_alloc, fs_create,
  fs_unlink, dir_find, matches,
}
use inside_the_cpu_storage_a.Fs.Bitmap.{bit, inside, free, fs_alloc_lem}
use inside_the_cpu_storage_a.Fs.Names.{lookup, same_key}
use inside_the_cpu_storage_a.Fs.Table.{dir_set_lem}
use inside_the_cpu_storage_a.Fs.Inv.{IsFs, fs_init-IsFs}
use inside_the_cpu_storage_a.Fs.Create.{
  after, fs_create-after, after-Created, Least, Created, fs_create-Created,
}
use inside_the_cpu_storage_a.Fs.Unlink.{Unlinked, fs_unlink_lem}
use inside_the_cpu_storage_a.Fs.Paths.{
  slash, until_slash, fs_make_dir, fs_rename, fs_resolve, dir_find_len,
}
use inside_the_cpu_storage_a.Fs.Paths.Prefix.{dir_find_len-take}
use inside_the_cpu_storage_a.Fs.Paths.Split.{components, IsComponent}
use inside_the_cpu_storage_a.Fs.Paths.Resolve.{walk, fs_resolve-walk, fs_resolve-fs_create}
use inside_the_cpu_storage_a.Fs.Paths.Rename.{Renamed, fs_rename_lem, fs_make_dir_lem}
use inside_the_cpu_storage_a.Fs.Reach.{Reachable, start, later, create, Reachable-IsFs}
use inside_the_cpu_storage_a.Fs.Programs.{
  codes, bits, gather, figure, alloc_main, create_main, resolve_main, inode_main,
}
use inside_the_cpu_storage_a.Fs.Programs.Bits.{bits_lem, digits, shown}
use inside_the_cpu_storage_a.Fs.Programs.Gather.{Gathered, gather_lem}

abbrev a_log : Name
a_log = codes "a.log"

abbrev b_log : Name
b_log = codes "b.log"

init-room : is_some (row_for fs_init.dirents root a_log) ≡ true
unfolding fs_init row_for
init-room = refl

init-left : fs_init.next_inode < n_inodes
unfolding fs_init
init-left = omega arith

-- the file system with one file of five blocks
abbrev one_file : TinyFs
one_file = after fs_init root a_log 20000

one_file-IsFs : IsFs one_file
one_file-IsFs =
    (after-Created fs_init-IsFs root a_log 20000 init-left (omega arith) init-room).in_order

fs_create-Created_example :
    (fs' : TinyFs) × (need : ℕ) × (fs_create fs_init root a_log 20000
      ≡ some (fs', fs_init.next_inode))
    × Least need 20000
    × Created fs_init root a_log 20000 need fs'
fs_create-Created_example =
    fs_create-Created root a_log 20000 fs_init-IsFs init-left (omega arith) init-room (omega arith)

fs_unlink_lem_example :
    ((lookup one_file.dirents root a_log ≡ none) × (fs_unlink one_file root a_log ≡ some one_file))
    ⊎ ((ino : ℕ) × (fs' : TinyFs) × (lookup one_file.dirents root a_log ≡ some ino)
        × (fs_unlink one_file root a_log ≡ some fs')
        × Unlinked one_file root a_log ino fs')
fs_unlink_lem_example = fs_unlink_lem root a_log one_file-IsFs

fs_rename_lem_example :
    ((lookup one_file.dirents root a_log ≡ none)
      × (fs_rename one_file root a_log root b_log ≡ one_file))
    ⊎ ((ino : ℕ) × (lookup one_file.dirents root a_log ≡ some ino)
        × Renamed one_file root a_log root b_log ino (fs_rename one_file root a_log root b_log))
fs_rename_lem_example = fs_rename_lem root a_log root b_log one_file-IsFs (omega arith)

fs_make_dir_lem_example :
    (fs' : TinyFs) × (fs_make_dir fs_init root a_log ≡ some (fs', fs_init.next_inode))
    × IsFs fs'
    × (fs'.used ≡ fs_init.used)
    × (inode fs' fs_init.next_inode ≡ record { mode = is_dir; links = 2; size = 0; extents = [] })
    × ((dir' : ℕ) (name' : Name)
        → lookup fs'.dirents dir' name' ≡ (
            if same_key root a_log dir' name'
            then some fs_init.next_inode
            else lookup fs_init.dirents dir' name'))
fs_make_dir_lem_example = fs_make_dir_lem root a_log fs_init-IsFs init-left (omega arith) init-room

dir_set_lem_example :
    lookup (dir_set fs_init.dirents root a_log 11) root b_log
    ≡ (if same_key root a_log root b_log then some 11 else lookup fs_init.dirents root b_log)
dir_set_lem_example = dir_set_lem fs_init.dirents root a_log 11 root b_log (omega arith) init-room

fs_alloc_lem_example :
    let (us', e) = fs_alloc 5 figure in
    ((b : ℕ) → bit us' b ≡ bit figure b + inside b e)
    × (free us' + e.count ≡ free figure)
    × (e.count ≤ 5)
    × ((b : ℕ) → b < e.start → bit figure b ≡ 1)
    × (0 < 5 → 0 < free figure → 0 < e.count)
    × ((e.count ≡ 5) ⊎ ((e.start + e.count ≡ length figure) ⊎ (bit figure (e.start + e.count) ≡ 1)))
    × (length us' ≡ length figure)
fs_alloc_lem_example = fs_alloc_lem 5 figure

gather_lem_run : Gathered 5 figure (gather 5 5 figure)
gather_lem_run = gather_lem 5 5 figure (omega arith)

bits_lem_run :
    (length (bits figure 96) < 96)
    × (2 * length figure < 96 → digits (bits figure 96) ≡ shown figure)
bits_lem_run = bits_lem figure 96 (omega arith)

fs_resolve-walk_example :
    fs_resolve one_file (codes "//a.log/")
    ≡ some (walk one_file.dirents root (components (codes "//a.log/")))
fs_resolve-walk_example = fs_resolve-walk one_file (codes "//a.log/")

dir_find_len-take_example :
    dir_find_len one_file.dirents root (codes "a.log/b") 5 ≡ dir_find one_file.dirents root a_log
dir_find_len-take_example =
    dir_find_len-take one_file.dirents root (codes "a.log/b") 5 (omega arith)

init-absent : lookup fs_init.dirents root a_log ≡ none
unfolding fs_init lookup matches
init-absent = refl

root-resolve : fs_resolve fs_init (codes "/") ≡ some root
unfolding fs_resolve
root-resolve = refl

a_log-IsComponent : IsComponent a_log
unfolding until_slash
a_log-IsComponent = record { not_empty = omega arith; no_slash = refl }

fs_resolve-fs_create_example :
    (fs' : TinyFs) × (fs_create fs_init root a_log 20000 ≡ some (fs', fs_init.next_inode))
    × (fs_resolve fs' (codes "/" ++ slash ∷ a_log) ≡ some fs_init.next_inode)
fs_resolve-fs_create_example =
    fs_resolve-fs_create (codes "/") a_log 20000 root fs_init-IsFs init-left (omega arith) init-room
      a_log-IsComponent root-resolve (omega arith) init-absent

alloc_run :
    alloc_main
    ≡ some (
      codes "11111111 11000111 11110000 00000000",
      codes "11111111 11111111 11111100 00000000",
      true,
    )
unfolding alloc_main
alloc_run = refl

create_run :
    create_main
    ≡ some (
      codes "11110000 00000000 00000000 00000000 00000000 00000000 00000000 00000000"
          ∷ codes "11111111 11111111 11000000 00000000 00000000 00000000 00000000 00000000"
          ∷ codes "11111111 10001111 11000000 00000000 00000000 00000000 00000000 00000000"
          ∷ codes "11111111 11111111 11111110 00000000 00000000 00000000 00000000 00000000"
          ∷ [],
      record { dir = root; ino = 11; name = codes "a.log"; live = true }
          ∷ record { dir = root; ino = 14; name = codes "d.bin"; live = true }
          ∷ record { dir = root; ino = 13; name = codes "c.db"; live = true }
          ∷ [],
      true,
    )
unfolding create_main
create_run = refl

resolve_run :
    resolve_main
    ≡ some (
      none,
      some (record { ino = 15; directory = false; extents = record { start = 5; count = 3 } ∷ [] }),
      true,
    )
unfolding resolve_main
resolve_run = refl

inode_run : inode_main ≡ (true, 257)
unfolding inode_main
inode_run = refl

one_file-Reachable : Reachable one_file
one_file-Reachable = later fs_init one_file (start fs_init refl) (
    create root a_log 20000 fs_init.next_inode (omega arith)
      (fs_create-after fs_init-IsFs root a_log 20000 init-left (omega arith)))

Reachable-IsFs_example : IsFs one_file
Reachable-IsFs_example = Reachable-IsFs one_file-Reachable

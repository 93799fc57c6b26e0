-- ===== src/Fs/Paths.antt =====
-- 09_resolve_path.c: its `dir_find` on a prefix, directories, rename, and the resolution of paths, on the
-- file system of Fs. A path is the list of its bytes; the loop of `fs_resolve` runs on fuel,
-- of which the length of the path is enough.
pub mod Prefix
pub mod Rename
pub mod Split
pub mod Resolve
use inside_the_cpu_storage_a.Base.{
  ℕ, zero, suc, ◌+◌, ◌-◌, Bool, true, false, not, ◌&&◌, Option, none, some, List, [], ◌∷◌, length,
  get_or, set, drop, ◌==◌, if◌then◌else◌, ◌>>=◌,
}
use inside_the_cpu_storage_a.Fs.{
  Inode, Name, Dirent, zero_dirent, root, is_dir, TinyFs, inode, set_inode, first_row, dir_set,
  fs_create, kill,
}

-- `memcmp(a, b, n) == 0` on arrays that hold at least `n` bytes
unfoldable pub same_bytes : ℕ → Name → Name → Bool
same_bytes zero a b = true
same_bytes (suc n) (c ∷ a) (d ∷ b) = (c == d) && same_bytes n a b
same_bytes (suc n) a b = false

-- the test of `dir_find`, with the length of the name
unfoldable pub matches_len : ℕ → Name → ℕ → Dirent → Bool
unfolding same_bytes
matches_len dir name len d =
    d.live && (d.dir == dir && (length d.name == len && same_bytes len d.name name))

unfoldable pub dir_find_len : List Dirent → ℕ → Name → ℕ → Option ℕ
unfolding first_row matches_len
dir_find_len ds dir name len = first_row (matches_len dir name len) 0 ds

unfoldable pub fs_make_dir : TinyFs → ℕ → Name → Option (TinyFs × ℕ)
unfolding fs_create
fs_make_dir fs dir name = fs_create fs dir name 0 >>= λ r.
    let fs' = set_inode r.0 r.1 (record (inode r.0 r.1) { mode = is_dir }) in
    some (set_inode fs' r.1 (record (inode fs' r.1) { links = 2 }), r.1)

unfoldable pub fs_rename : TinyFs → ℕ → Name → ℕ → Name → TinyFs
unfolding dir_find_len dir_set
fs_rename fs from name to new_name = elim (dir_find_len fs.dirents from name (length name)) [
  | none ↦ fs
  | some i ↦
      let ino = (get_or fs.dirents i zero_dirent).ino in
      record fs { dirents = dir_set (kill fs.dirents i) to new_name ino }
]

abbrev pub slash : ℕ
slash = 47

-- `slash ? slash - p : strlen(p)`
unfoldable pub until_slash : Name → ℕ
until_slash [] = 0
until_slash (c ∷ p) = if c == slash then 0 else suc (until_slash p)

-- `if (*p == '/') ++p`
unfoldable pub over_slash : Name → Name
over_slash [] = []
over_slash (c ∷ p) = if c == slash then p else c ∷ p

-- `none`: ENOENT, and the loop returns 0
unfoldable pub hop : List Dirent → Name → ℕ → ℕ → Option ℕ
unfolding dir_find_len
hop ds p len ino = elim len [
  | zero ↦ some ino
  | suc n ↦ dir_find_len ds ino p (suc n) >>= λ i. some (get_or ds i zero_dirent).ino
]

unfoldable pub resolve_loop : ℕ → List Dirent → Name → ℕ → Option ℕ
unfolding until_slash over_slash hop
resolve_loop fuel ds [] ino = some ino
resolve_loop zero ds (c ∷ p) ino = none
resolve_loop (suc fuel) ds (c ∷ p) ino =
    let len = until_slash (c ∷ p) in
    elim (hop ds (c ∷ p) len ino) [
      | none ↦ some 0
      | some i ↦ resolve_loop fuel ds (over_slash (drop len (c ∷ p))) i
    ]

unfoldable pub fs_resolve : TinyFs → Name → Option ℕ
unfolding resolve_loop
fs_resolve fs path = resolve_loop (length path) fs.dirents path root

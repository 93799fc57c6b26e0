-- ===== src/Fs/Paths/Prefix.antt =====
-- The two forms of `dir_find`: 08_create_file.c compares C strings, 09_resolve_path.c the first bytes of a
-- path.
use inside_the_cpu_storage_a.Base.{
  ap₂, ℕ, zero, suc, ◌≡◌, ◌≤◌, refl, ap, ◌∙◌, Bool, ◌&&◌, List, [], ◌∷◌, some, take, length,
  take-length, ◌==◌, if◌then◌else◌, arith,
}
use inside_the_cpu_storage_a.Fs.{Name, Dirent, same_name, matches, first_row, dir_find}
use inside_the_cpu_storage_a.Fs.Paths.{same_bytes, matches_len, dir_find_len}

same_bytes-take :
    (n : ℕ) (a p : Name)
    → n ≤ length p
    → ((length a == n) && same_bytes n a p) ≡ same_name a (take n p)
unfolding same_bytes same_name
same_bytes-take zero [] p h = refl
same_bytes-take zero (c ∷ a) p h = ground arith
same_bytes-take (suc n) a [] h = elim h [ ]
same_bytes-take (suc n) [] (d ∷ p) h = ground arith
same_bytes-take (suc n) (c ∷ a) (d ∷ p) h = ground (arith, same_bytes-take n a p (omega arith))

first_row-same :
    (f g : Dirent → Bool) (i : ℕ) (ds : List Dirent)
    → ((d : Dirent) → f d ≡ g d)
    → first_row f i ds ≡ first_row g i ds
unfolding first_row
first_row-same f g i [] h = refl
first_row-same f g i (d ∷ ds) h =
    ap₂ (λ b o. if b then some i else o) (h d) (first_row-same f g (suc i) ds h)

-- Looking for the first `n` bytes of a path, of at least that length, finds the row of the name that they are.
pub dir_find_len-take :
    (ds : List Dirent) (dir : ℕ) (p : Name) (n : ℕ)
    → n ≤ length p
    → dir_find_len ds dir p n ≡ dir_find ds dir (take n p)
unfolding dir_find_len dir_find matches_len matches
dir_find_len-take ds dir p n h =
    first_row-same _ _ 0 ds
      (λ d. ap (λ b. d.live && (d.dir == dir && b)) (same_bytes-take n d.name p h))

pub dir_find_len-length :
    (ds : List Dirent) (dir : ℕ) (name : Name)
    → dir_find_len ds dir name (length name) ≡ dir_find ds dir name
dir_find_len-length ds dir name =
    dir_find_len-take ds dir name (length name) (omega arith)
    ∙ ap (dir_find ds dir) (take-length name)

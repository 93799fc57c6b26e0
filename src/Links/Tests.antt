-- ===== src/Links/Tests.antt =====
-- A directory that does what the main function relies on, and runs on it.
use inside_the_cpu_storage_a.Base.{
  ℕ, suc, ◌-◌, ◌≡◌, ◌≢◌, ◌⊎◌, inl, inr, refl, ap, sym, ◌∙◌, Bool, true, false, Option, none, some,
  List, [], ◌∷◌, ◌++◌, arith, length, take-length, is_some, ◌==◌, ==_iff, if◌then◌else◌,
}
use mathlib.Core.Option.{some-injective}
use inside_the_cpu_storage_a.Fs.{Name, same_name}
use inside_the_cpu_storage_a.Fs.Names.{same_name_iff, same_name_refl}
use inside_the_cpu_storage_a.Fs.Programs.{codes}
use inside_the_cpu_storage_a.Links.{
  LinkFs, working, size_and_links, alive, two_names, still_reads, all_removed, lost, refused_demo,
  hello, write_text, tried, say, read_alias, second_demo, first_demo, hard_links,
}
use inside_the_cpu_storage_a.Links.Survive.{LinkView, IsLinkFs, Survives, hard_links_lem}

record Directory : Type 0 where
  names : Name → Option ℕ
  bytes : ℕ → List ℕ
  counts : ℕ → ℕ
  -- the next inode, and the one of the stream that is open
  next : ℕ
  -- whether the directory takes a second name for a file
  linking : Bool
  -- whether `fgets` fails
  failing : Bool

abbrev put : (Name → Option ℕ) → Name → Option ℕ → Name → Option ℕ
put f p o q = if same_name p q then o else f q

abbrev put_at {ℓ} : {A : Type ℓ} → (ℕ → A) → ℕ → A → ℕ → A
put_at f i x j = if i == j then x else f j

abbrev opened : Directory → Name → Option ℕ → Directory × Option ℕ
opened s p (some i) = (record s { bytes = put_at s.bytes i [] }, some i)
opened s p none = (
  record s {
    names = put s.names p (some s.next);
    bytes = put_at s.bytes s.next [];
    counts = put_at s.counts s.next 1;
    next = suc s.next;
  },
  some s.next,
)

abbrev linked : Directory → Name → Option ℕ → Bool → Directory × Bool
linked s q none may = (s, false)
linked s q (some i) false = (s, false)
linked s q (some i) true = (
  record s { names = put s.names q (some i); counts = put_at s.counts i (suc (s.counts i)) },
  true,
)

abbrev removed : Directory → Name → Option ℕ → Directory × Bool
removed s p none = (record s { names = put s.names p none }, true)
removed s p (some i) =
    (record s { names = put s.names p none; counts = put_at s.counts i (s.counts i - 1) }, true)

abbrev text_at : Directory → Option ℕ → Option (List ℕ)
text_at s none = none
text_at s (some i) = some (s.bytes i)

abbrev count_at : Directory → Option ℕ → Option ℕ
count_at s none = none
count_at s (some i) = some (s.counts i)

abbrev read_at : Directory → Option (List ℕ) → Bool → Option (List ℕ)
read_at s text true = none
read_at s text false = text

abbrev size_of : Option (List ℕ) → Option ℕ
size_of none = none
size_of (some t) = some (length t)

abbrev directory : LinkFs
directory = record {
  State = Directory;
  mkdir = λ s d. (record s { names = λ p. none }, true);
  rmdir = λ s d. s;
  open_write = λ s p. opened s p (s.names p);
  fwrite = λ s f t. (record s { bytes = put_at s.bytes f (s.bytes f ++ t) }, length t);
  fclose = λ s f. (s, true);
  link = λ s p q. linked s q (s.names p) s.linking;
  remove = λ s p. removed s p (s.names p);
  stat_nlink = λ s p. count_at s (s.names p);
  readable = λ s p. is_some (s.names p);
  end_of = λ s p. size_of (text_at s (s.names p));
  fgets = λ s p n. read_at s (text_at s (s.names p)) s.failing;
}

abbrev view : LinkView directory
view = record {
  inode = λ s. s.names;
  content = λ s. s.bytes;
  count = λ s. s.counts;
  Writes = λ s f i. f ≡ i;
  Below = λ d p. Unit;
}

abbrev empty_dir : Directory
empty_dir = record {
  names = λ p. none;
  bytes = λ i. [];
  counts = λ i. 0;
  next = 5;
  linking = true;
  failing = false;
}

abbrev lab_dir : Name
lab_dir = codes "lab"

abbrev report : Name
report = codes "lab/report.txt"

abbrev alias : Name
alias = codes "lab/alias.txt"

hard_links_run :
    (hard_links directory lab_dir report alias empty_dir).1
    ≡ working
      ∷ size_and_links (some 16) (some 2)
      ∷ alive true (some 1)
      ∷ two_names
      ∷ still_reads hello
      ∷ all_removed
      ∷ []
unfolding hard_links first_demo second_demo read_alias write_text tried say same_name
hard_links_run = refl

-- a directory that takes no second name
refused_run :
    (hard_links directory lab_dir report alias (record empty_dir { linking = false })).1
    ≡ working ∷ refused_demo ∷ []
unfolding hard_links first_demo second_demo read_alias write_text tried say same_name
refused_run = refl

-- a directory on a device that fails
unread_run :
    (hard_links directory lab_dir report alias (record empty_dir { failing = true })).1
    ≡ working
      ∷ size_and_links (some 16) (some 2)
      ∷ alive true (some 1)
      ∷ two_names
      ∷ still_reads []
      ∷ all_removed
      ∷ lost
      ∷ []
unfolding hard_links first_demo second_demo read_alias write_text tried say same_name
unread_run = refl

put_self : (f : Name → Option ℕ) (p : Name) (o : Option ℕ) → put f p o p ≡ o
put_self f p o = ap (λ b. if b then o else f p) (same_name_refl p)

put_other : (f : Name → Option ℕ) (p q : Name) (o : Option ℕ) → p ≢ q → put f p o q ≡ f q
put_other f p q o apart = different (same_name p q) (λ e. apart ((same_name_iff p q).0 e))
  where
    different : (b : Bool) → (b ≡ true → ⊥) → (if b then o else f q) ≡ f q
    different true h = elim (h refl) [ ]
    different false h = refl

put_twice : (f : Name → Option ℕ) (p q : Name) (o : Option ℕ) → f q ≡ o → put f p o q ≡ o
put_twice f p q o e = either (same_name p q)
  where
    either : (b : Bool) → (if b then o else f q) ≡ o
    either true = refl
    either false = e

put_at_self {ℓ} : {A : Type ℓ} (f : ℕ → A) (i : ℕ) (x : A) → put_at f i x i ≡ x
put_at_self f i x = ap (λ b. if b then x else f i) ((==_iff i i).1 refl)

opened_new :
    (s : Directory) (p : Name) (o : Option ℕ) (f : ℕ)
    → o ≡ none
    → (opened s p o).1 ≡ some f
    → (i : ℕ) × ((opened s p o).0.names p ≡ some i)
      × ((opened s p o).0.bytes i ≡ [])
      × ((opened s p o).0.counts i ≡ 1)
      × (f ≡ i)
opened_new s p (some i) f e h = let absurd : ⊥ = cc in elim absurd [ ]
opened_new s p none f e h = (
  s.next,
  put_self s.names p (some s.next),
  put_at_self s.bytes s.next [],
  put_at_self s.counts s.next 1,
  sym (some-injective _ _ h),
)

linked_names :
    (s : Directory) (p q : Name) (o : Option ℕ) (may : Bool) (i : ℕ)
    → (linked s q o may).1 ≡ true
    → s.names p ≡ some i
    → o ≡ some i
    → ((linked s q o may).0.names p ≡ some i)
      × ((linked s q o may).0.names q ≡ some i)
      × ((linked s q o may).0.bytes i ≡ s.bytes i)
      × ((linked s q o may).0.counts i ≡ suc (s.counts i))
linked_names s p q none may i h named e = let absurd : ⊥ = cc in elim absurd [ ]
linked_names s p q (some j) false i h named e = let absurd : ⊥ = cc in elim absurd [ ]
linked_names s p q (some j) true i h named e =
    let same : j ≡ i = some-injective _ _ e in
    (
      put_twice s.names q p (some j) (named ∙ sym e) ∙ e,
      put_self s.names q (some j) ∙ e,
      refl,
      ap (λ k. put_at s.counts k (suc (s.counts k)) i) same
          ∙ put_at_self s.counts i (suc (s.counts i)),
    )

removed_names :
    (s : Directory) (p q : Name) (o : Option ℕ) → (removed s p o).0.names q ≡ put s.names p none q
removed_names s p q none = refl
removed_names s p q (some i) = refl

removed_file :
    (s : Directory) (p : Name) (o : Option ℕ) (i : ℕ)
    → o ≡ some i
    → ((removed s p o).0.bytes i ≡ s.bytes i) × ((removed s p o).0.counts i ≡ s.counts i - 1)
removed_file s p none i e = let absurd : ⊥ = cc in elim absurd [ ]
removed_file s p (some j) i e =
    let same : j ≡ i = some-injective _ _ e in
    (
      refl,
      ap (λ k. put_at s.counts k (s.counts k - 1) i) same ∙ put_at_self s.counts i (s.counts i - 1),
    )

read_line :
    (s : Directory) (text : Option (List ℕ)) (failing : Bool) (t : List ℕ)
    → text ≡ some t
    → (read_at s text failing ≡ none) ⊎ (read_at s text failing ≡ some t)
read_line s text true t e = inl refl
read_line s text false t e = inr e

directory-IsLinkFs : IsLinkFs directory view
directory-IsLinkFs = record {
  mkdir_empty = λ s d p e below. refl;
  open_new = λ s p f new e. opened_new s p (s.names p) f new e;
  fwrite_inode = λ s f t p. refl;
  fwrite_count = λ s f t i. refl;
  fwrite_content = λ s f i t e.
      ap (λ k. put_at s.bytes k (s.bytes k ++ t) i) e
      ∙ put_at_self s.bytes i (s.bytes i ++ t)
      ∙ ap (λ u. s.bytes i ++ u) (sym (take-length t));
  fclose_same = λ s f. ((λ p. refl), (λ i. refl), (λ i. refl));
  link_names = λ s p q i e named. linked_names s p q (s.names p) s.linking i e named named;
  remove_name = λ s p e. removed_names s p p (s.names p) ∙ put_self s.names p none;
  remove_other = λ s p q apart. removed_names s p q (s.names p) ∙ put_other s.names p q none apart;
  remove_file = λ s p q i e apart named other. removed_file s p (s.names p) i named;
  stat_count = λ s p i named. inr (ap (count_at s) named);
  end_length = λ s p i named. inr (ap (λ o. size_of (text_at s o)) named);
  fgets_line = λ s p i n named there line.
      read_line s (text_at s (s.names p)) s.failing (s.bytes i) (ap (text_at s) named);
}

names_apart : report ≢ alias
names_apart e = let absurd : ⊥ = omega (arith, ap length e) in elim absurd [ ]

hard_links_lem_example :
    Survives directory view directory-IsLinkFs lab_dir report alias names_apart
      (hard_links directory lab_dir report alias (record empty_dir { failing = true }))
hard_links_lem_example =
    hard_links_lem directory view directory-IsLinkFs lab_dir report alias names_apart
      (record empty_dir { failing = true }) tt

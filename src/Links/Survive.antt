-- ===== src/Links/Survive.antt =====
-- The data outlives its first name, or could not be read by the second.
use inside_the_cpu_storage_a.Base.{
  ℕ, suc, ◌+◌, ◌-◌, ◌<◌, ◌≤◌, ◌≡◌, ◌≢◌, ◌⊎◌, inl, inr, refl, ap, sym, subst, ◌∙◌, Bool, true, false,
  ◌&&◌, Option, none, some, List, [], ◌∷◌, ◌++◌, arith, length, take, ◌==◌, ==_iff, if◌then◌else◌,
}
use mathlib.Core.Option.{some-injective}
use inside_the_cpu_storage_a.Fs.{Name, same_name}
use inside_the_cpu_storage_a.Links.{
  LinkFs, DemoLine, no_directory, working, size_and_links, alive, two_names, count_note,
  still_reads, all_removed, lost, refused_demo, hello, until_line_end, got, is_two, write_open,
  write_text, size_of_file, Demo, say, refused, tried, ended, read_alias, second_demo, first_demo,
  hard_links,
}

-- How the states are described: the inode of a path, the bytes and the link count of an inode, a stream that is open for
-- writing, and the paths below a directory.
pub record LinkView (fs : LinkFs) : Type 1 where
  pub inode : fs.State → Name → Option ℕ
  pub content : fs.State → ℕ → List ℕ
  pub count : fs.State → ℕ → ℕ
  pub Writes : fs.State → ℕ → ℕ → Type 0
  pub Below : Name → Name → Type 0

-- a text that `fgets` reads in one piece
abbrev pub OneLine : ℕ → List ℕ → Type 0
OneLine n text = (0 < length text) × (length text < n) × (until_line_end text ≡ text)

module _ (fs : LinkFs) (v : LinkView fs) where
  open fs use {
    State, mkdir, rmdir, open_write, fwrite, fclose, link, remove, stat_nlink, readable, end_of,
    fgets,
  }
  open v use {inode, content, count, Writes, Below}

  -- nothing that the view shows has changed
  abbrev pub SameFiles : State → State → Type 0
  SameFiles s s' =
      ((p : Name) → inode s' p ≡ inode s p)
      × ((i : ℕ) → content s' i ≡ content s i)
      × ((i : ℕ) → count s' i ≡ count s i)

  -- mkdir(2), fopen(3), fwrite(3), link(2), unlink(2), stat(2), fgets(3)
  pub record IsLinkFs : Type 0 where
    pub mkdir_empty :
        (s : State) (d p : Name) → (mkdir s d).1 ≡ true → Below d p → inode (mkdir s d).0 p ≡ none
    pub open_new :
        (s : State) (p : Name) (f : ℕ)
        → inode s p ≡ none
        → (open_write s p).1 ≡ some f
        → (i : ℕ) × (inode (open_write s p).0 p ≡ some i)
          × (content (open_write s p).0 i ≡ [])
          × (count (open_write s p).0 i ≡ 1)
          × Writes (open_write s p).0 f i
    pub fwrite_inode :
        (s : State) (f : ℕ) (text : List ℕ) (p : Name) → inode (fwrite s f text).0 p ≡ inode s p
    pub fwrite_count :
        (s : State) (f : ℕ) (text : List ℕ) (i : ℕ) → count (fwrite s f text).0 i ≡ count s i
    pub fwrite_content :
        (s : State) (f i : ℕ) (text : List ℕ)
        → Writes s f i
        → content (fwrite s f text).0 i ≡ content s i ++ take (fwrite s f text).1 text
    pub fclose_same : (s : State) (f : ℕ) → SameFiles s (fclose s f).0
    pub link_names :
        (s : State) (p q : Name) (i : ℕ)
        → (link s p q).1 ≡ true
        → inode s p ≡ some i
        → (inode (link s p q).0 p ≡ some i)
          × (inode (link s p q).0 q ≡ some i)
          × (content (link s p q).0 i ≡ content s i)
          × (count (link s p q).0 i ≡ suc (count s i))
    pub remove_name : (s : State) (p : Name) → (remove s p).1 ≡ true → inode (remove s p).0 p ≡ none
    pub remove_other : (s : State) (p q : Name) → p ≢ q → inode (remove s p).0 q ≡ inode s q
    pub remove_file :
        (s : State) (p q : Name) (i : ℕ)
        → (remove s p).1 ≡ true
        → p ≢ q
        → inode s p ≡ some i
        → inode s q ≡ some i
        → (content (remove s p).0 i ≡ content s i) × (count (remove s p).0 i ≡ count s i - 1)
    pub stat_count :
        (s : State) (p : Name) (i : ℕ)
        → inode s p ≡ some i
        → (stat_nlink s p ≡ none) ⊎ (stat_nlink s p ≡ some (count s i))
    pub end_length :
        (s : State) (p : Name) (i : ℕ)
        → inode s p ≡ some i
        → (end_of s p ≡ none) ⊎ (end_of s p ≡ some (length (content s i)))
    pub fgets_line :
        (s : State) (p : Name) (i n : ℕ)
        → inode s p ≡ some i
        → readable s p ≡ true
        → OneLine n (content s i)
        → (fgets s p n ≡ none) ⊎ (fgets s p n ≡ some (content s i))

  module _ (laws : IsLinkFs) (dir a b : Name) (apart : a ≢ b) where
    -- a figure that is missing or as it should be
    abbrev pub Reads : Option ℕ → ℕ → Type 0
    Reads o n = (o ≡ none) ⊎ (o ≡ some n)

    -- where `read` is the text that the second name gives
    abbrev pub Fits : List ℕ → DemoLine → Type 0
    Fits read no_directory = Unit
    Fits read working = Unit
    Fits read (size_and_links bytes links) = Reads bytes 16 × Reads links 2
    Fits read (alive there links) = Reads links 1
    Fits read two_names = Unit
    Fits read (count_note links) = links ≡ none
    Fits read (still_reads text) = text ≡ read
    Fits read all_removed = Unit
    Fits read lost = read ≢ hello
    Fits read refused_demo = Unit

    abbrev pub AllFit : List ℕ → List DemoLine → Type 0
    AllFit read [] = Unit
    AllFit read (line ∷ lines) = Fits read line × AllFit read lines

    abbrev pub is_text : DemoLine → Bool
    is_text (still_reads text) = true
    is_text line = false

    abbrev pub is_loss : DemoLine → Bool
    is_loss lost = true
    is_loss line = false

    -- how many lines of a kind there are
    abbrev pub lines_of : (DemoLine → Bool) → List DemoLine → ℕ
    lines_of kind [] = 0
    lines_of kind (line ∷ lines) = (if kind line then 1 else 0) + lines_of kind lines

    -- The second name gives the text that was written, or nothing and then exactly the loss is an error.
    abbrev pub Survives : Demo fs → Type 0
    Survives (s, lines, status) =
        (AllFit hello lines × (lines_of is_loss lines ≡ 0) × (status ≡ 0))
        ⊎ (AllFit [] lines
            × (lines_of is_text lines ≡ 1)
            × (lines_of is_loss lines ≤ 1)
            × (status ≡ lines_of is_loss lines))

    -- a line that fits whatever the second name gives, and is neither a text nor a loss
    abbrev Neutral : DemoLine → Type 0
    Neutral line =
        ((read : List ℕ) → Fits read line) × (is_text line ≡ false) × (is_loss line ≡ false)

    none_more : (b : Bool) (n : ℕ) → b ≡ false → (if b then 1 else 0) + n ≡ n
    none_more true n e = let absurd : ⊥ = cc in elim absurd [ ]
    none_more false n e = omega arith

    none_of_kind :
        (kind : DemoLine → Bool) (line : DemoLine) (lines : List DemoLine)
        → kind line ≡ false
        → lines_of kind (line ∷ lines) ≡ lines_of kind lines
    none_of_kind kind line lines e = none_more (kind line) (lines_of kind lines) e

    say-Survives :
        (line : DemoLine) (r : Demo fs) → Neutral line → Survives r → Survives (say fs line r)
    unfolding say
    say-Survives line (s, lines, status) (fit, no_text, no_loss)
          (inl (fits, none_lost, zero_status)) =
        inl ((fit hello, fits), none_of_kind is_loss line lines no_loss ∙ none_lost, zero_status)
    say-Survives line (s, lines, status) (fit, no_text, no_loss) (inr (fits, one, few, same)) =
        let same_losses = none_of_kind is_loss line lines no_loss in
        inr (
          (fit [], fits),
          none_of_kind is_text line lines no_text ∙ one,
          subst (λ n. n ≤ 1) (sym same_losses) few,
          same ∙ sym same_losses,
        )

    refused-Survives : (s : State) → Survives (refused fs dir a b s)
    refused-Survives s = inl ((tt, tt), refl, refl)

    tried-Survives :
        (r : State × Bool) (rest : State → Demo fs)
        → (r.1 ≡ true → Survives (rest r.0))
        → Survives (tried fs dir a b r rest)
    unfolding tried
    tried-Survives (s, false) rest h = refused-Survives s
    tried-Survives (s, true) rest h = h refl

    -- the name has the only link to the text
    abbrev Written : Name → State → Type 0
    Written p s = (i : ℕ) × (inode s p ≡ some i) × (content s i ≡ hello) × (count s i ≡ 1)

    -- both names have the text
    abbrev Linked : State → Type 0
    Linked s =
        (i : ℕ) × (inode s a ≡ some i)
        × (inode s b ≡ some i)
        × (content s i ≡ hello)
        × (count s i ≡ 2)

    both_true : (x y : Bool) → (x && y) ≡ true → (x ≡ true) × (y ≡ true)
    both_true true y e = (refl, e)
    both_true false y e = let absurd : ⊥ = cc in elim absurd [ ]

    write_open-Written :
        (s : State) (f : Option ℕ)
        → ((n : ℕ)
            → f ≡ some n
            → (i : ℕ) × (inode s a ≡ some i) × (content s i ≡ []) × (count s i ≡ 1) × Writes s n i)
        → (write_open fs s hello f).1 ≡ true
        → Written a (write_open fs s hello f).0
    write_open-Written s none made e = let absurd : ⊥ = cc in elim absurd [ ]
    write_open-Written s (some f) made e =
        let (i, named, empty, one, writing) = made f refl in
        let (s', n) = fwrite s f hello in
        let (closed, all) = both_true (fclose s' f).1 (n == length hello) e in
        let whole : n ≡ length hello = (==_iff n (length hello)).0 all in
        let (same_names, same_bytes, same_counts) = laws.fclose_same s' f in
        (
          i,
          same_names a ∙ laws.fwrite_inode s f hello a ∙ named,
          same_bytes i
              ∙ laws.fwrite_content s f i hello writing
              ∙ ap (λ t. t ++ take n hello) empty
              ∙ ap (λ k. take k hello) whole,
          same_counts i ∙ laws.fwrite_count s f hello i ∙ one,
        )

    write_text-Written :
        (s : State)
        → inode s a ≡ none
        → (write_text fs s a hello).1 ≡ true
        → Written a (write_text fs s a hello).0
    unfolding write_text
    write_text-Written s new e =
        write_open-Written (open_write s a).0 (open_write s a).1 (λ n. laws.open_new s a n new) e

    link-Linked : (s : State) → Written a s → (link s a b).1 ≡ true → Linked (link s a b).0
    link-Linked s (i, named, text, one) e =
        let (first, second, same, more) = laws.link_names s a b i e named in
        (i, first, second, same ∙ text, more ∙ ap suc one)

    remove-Written :
        (s : State)
        → Linked s
        → (remove s a).1 ≡ true
        → Written b (remove s a).0 × (inode (remove s a).0 a ≡ none)
    remove-Written s (i, first, second, text, two) e =
        let (same, fewer) = laws.remove_file s a b i e apart first second in
        (
          (i, laws.remove_other s a b apart ∙ second, same ∙ text, omega (arith, fewer, two)),
          laws.remove_name s a e,
        )

    links_read :
        (s : State) (p : Name) (i n : ℕ)
        → inode s p ≡ some i
        → count s i ≡ n
        → Reads (stat_nlink s p) n
    links_read s p i n named counted = elim (laws.stat_count s p i named) [
      | inl e ↦ inl e
      | inr e ↦ inr (e ∙ ap some counted)
    ]

    if_read :
        (there : Bool) (o : Option ℕ) (n : ℕ) → Reads o n → Reads (if there then o else none) n
    if_read true o n h = h
    if_read false o n h = inl refl

    size_read :
        (s : State) (p : Name) (i : ℕ)
        → inode s p ≡ some i
        → content s i ≡ hello
        → Reads (size_of_file fs s p) 16
    size_read s p i named text =
        if_read (readable s p) (end_of s p) 16 (elim (laws.end_length s p i named) [
          | inl e ↦ inl e
          | inr e ↦ inr (e ∙ ap (λ t. some (length t)) text)
        ])

    note_fits :
        (o : Option ℕ) (rest : Demo fs)
        → Reads o 2
        → Survives rest
        → Survives (if is_two o then rest else say fs (count_note o) rest)
    note_fits none rest h good =
        say-Survives (count_note none) rest ((λ read. refl), refl, refl) good
    note_fits (some n) rest (inl e) good = let absurd : ⊥ = cc in elim absurd [ ]
    note_fits (some n) rest (inr e) good =
        subst (λ k. Survives (if is_two (some k) then rest else say fs (count_note (some k)) rest))
          (sym (some-injective _ _ e)) good

    hello_line : OneLine 64 hello
    hello_line = (omega arith, omega arith, refl)

    -- what is done with the text of the second name
    abbrev AliasDemo : State × Bool → List ℕ → Demo fs
    AliasDemo r text =
        say fs (still_reads text) (
          tried fs dir a b r
            (λ s'. say fs all_removed (ended fs dir a b s' (same_name text hello))))

    hello_given : (r : State × Bool) → Survives (AliasDemo r hello)
    unfolding say tried same_name
    hello_given (s, false) = inl ((refl, (tt, tt)), refl, refl)
    hello_given (s, true) = inl ((refl, (tt, tt)), refl, refl)

    not_hello : [] ≢ hello
    not_hello e = let absurd : ⊥ = omega (arith, ap length e) in elim absurd [ ]

    nothing_given : (r : State × Bool) → Survives (AliasDemo r [])
    unfolding say tried same_name
    nothing_given (s, false) = inr ((refl, (tt, tt)), refl, omega arith, refl)
    nothing_given (s, true) = inr ((refl, (tt, (not_hello, tt))), refl, omega arith, refl)

    open_alias :
        (s : State) (there : Bool) (text : List ℕ)
        → (there ≡ true → (text ≡ []) ⊎ (text ≡ hello))
        → Survives (if there then AliasDemo (remove s b) text else refused fs dir a b s)
    open_alias s false text h = refused-Survives s
    open_alias s true text h = elim (h refl) [
      | inl e ↦
          subst (λ t. Survives (AliasDemo (remove s b) t)) (sym e) (nothing_given (remove s b))
      | inr e ↦ subst (λ t. Survives (AliasDemo (remove s b) t)) (sym e) (hello_given (remove s b))
    ]

    read_alias-Survives : (s : State) → Written b s → Survives (read_alias fs dir a b s)
    unfolding read_alias
    read_alias-Survives s (i, named, text, one) =
        open_alias s (readable s b) (until_line_end (got (fgets s b 64))) (λ there.
          elim (laws.fgets_line s b i 64 named there (subst (OneLine 64) (sym text) hello_line)) [
            | inl e ↦ inl (ap (λ t. until_line_end (got t)) e)
            | inr e ↦ inr (ap (λ t. until_line_end (got t)) (e ∙ ap some text))
          ])

    second_demo-Survives : (s : State) → inode s a ≡ none → Survives (second_demo fs dir a b s)
    unfolding second_demo
    second_demo-Survives s new =
        say-Survives two_names _ ((λ read. tt), refl, refl)
          (tried-Survives (write_text fs s a hello) _ (λ e.
            let s₁ = (write_text fs s a hello).0 in
            let one = write_text-Written s new e in
            tried-Survives (link s₁ a b) _ (λ e₁.
              let s₂ = (link s₁ a b).0 in
              let two = link-Linked s₁ one e₁ in
              let (i, first, second, text, counted) = two in
              note_fits (stat_nlink s₂ a) _ (links_read s₂ a i 2 first counted) (
                tried-Survives (remove s₂ a) _
                  (λ e₂. read_alias-Survives (remove s₂ a).0 (remove-Written s₂ two e₂).0)))))

    first_demo-Survives : (s : State) → inode s a ≡ none → Survives (first_demo fs dir a b s)
    unfolding first_demo
    first_demo-Survives s new = tried-Survives (write_text fs s a hello) _ (λ e.
        let s₁ = (write_text fs s a hello).0 in
        let one = write_text-Written s new e in
        tried-Survives (link s₁ a b) _ (λ e₁.
          let s₂ = (link s₁ a b).0 in
          let two = link-Linked s₁ one e₁ in
          let (i, first, second, text, counted) = two in
          say-Survives _ _
            (
              (λ read. (size_read s₂ b i second text, links_read s₂ a i 2 first counted)),
              refl,
              refl,
            )
            (tried-Survives (remove s₂ a) _ (λ e₂.
              let s₃ = (remove s₂ a).0 in
              let ((j, named, text', counted'), gone) = remove-Written s₂ two e₂ in
              say-Survives _ _ ((λ read. links_read s₃ b j 1 named counted'), refl, refl)
                (tried-Survives (remove s₃ b) _ (λ e₃.
                  second_demo-Survives (remove s₃ b).0
                    (laws.remove_other s₃ b a (λ q. apart (sym q)) ∙ gone)))))))

    made_dir :
        (s : State) (made : Bool)
        → (made ≡ true → inode s a ≡ none)
        → Survives
            (if made then say fs working (first_demo fs dir a b s) else (s, no_directory ∷ [], 0))
    made_dir s false new = inl ((tt, tt), refl, refl)
    made_dir s true new =
        say-Survives working _ ((λ read. tt), refl, refl) (first_demo-Survives s (new refl))

    -- Whichever calls are refused, and wherever the main function ends for it, a size that it prints is 16 bytes,
    -- or could not be read, and a link count is 2 with both names and 1 with one, or could not be read. What it
    -- reads by the second name is the text that it wrote by the first, and then it never prints that the
    -- data is lost and returns 0; only where it has read nothing by the second name, as when `fgets` fails, it may print
    -- that, once, and it returns 1 exactly if it does. The first path must lie below the
    -- directory, and differ from the second.
    pub hard_links_lem : (s : State) → Below dir a → Survives (hard_links fs dir a b s)
    unfolding hard_links
    hard_links_lem s below =
        made_dir (mkdir s dir).0 (mkdir s dir).1 (λ made. laws.mkdir_empty s dir a made below)

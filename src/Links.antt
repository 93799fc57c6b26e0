-- ===== src/Links.antt =====
-- The hard links of 03-storage-lab-how-filesystems-work-in-10-minutes/10_hard_links.c: the helpers and the main
-- function, with every early end, over the operating system's calls on a directory. The paths are
-- arguments; the reasons of refused calls and the inode numbers that `print_inode` shows are left out.
pub mod Survive
mod Tests
use inside_the_cpu_storage_a.Base.{
  ℕ, ◌==◌, Bool, true, false, ◌&&◌, ◌||◌, Option, none, some, List, [], ◌∷◌, length, if◌then◌else◌,
}
use inside_the_cpu_storage_a.Fs.{Name, same_name}
use inside_the_cpu_storage_a.Fs.Programs.{codes}

-- The calls; those that read leave the state as it is.
pub record LinkFs : Type 1 where
  pub State : Type 0
  pub mkdir : State → Name → State × Bool
  pub rmdir : State → Name → State
  -- `fopen(path, "wb")`, `fwrite(text, 1, n, f)` and `fclose(f) == 0`
  pub open_write : State → Name → State × Option ℕ
  pub fwrite : State → ℕ → List ℕ → State × ℕ
  pub fclose : State → ℕ → State × Bool
  pub link : State → Name → Name → State × Bool
  pub remove : State → Name → State × Bool
  -- the link count that `stat` gives
  pub stat_nlink : State → Name → Option ℕ
  -- `fopen(path, "rb") != NULL`, and on such a file `fseek` to the end with `ftell`, and the first `fgets`
  pub readable : State → Name → Bool
  pub end_of : State → Name → Option ℕ
  pub fgets : State → Name → ℕ → Option (List ℕ)

-- what the main function prints
pub data DemoLine : Type 0 where
  no_directory : DemoLine
  working : DemoLine
  size_and_links : Option ℕ → Option ℕ → DemoLine
  alive : Bool → Option ℕ → DemoLine
  two_names : DemoLine
  count_note : Option ℕ → DemoLine
  still_reads : List ℕ → DemoLine
  all_removed : DemoLine
  lost : DemoLine
  refused_demo : DemoLine

abbrev pub hello : List ℕ
hello = codes "hello filesystem"

-- the text as far as `strcspn(text, "\r\n")`
abbrev pub until_line_end : List ℕ → List ℕ
until_line_end [] = []
until_line_end (c ∷ text) = if (c == 10) || (c == 13) then [] else c ∷ until_line_end text

abbrev pub got : Option (List ℕ) → List ℕ
got none = []
got (some text) = text

abbrev pub is_two : Option ℕ → Bool
is_two none = false
is_two (some n) = n == 2

module _ (fs : LinkFs) where
  open fs use {
    State, mkdir, rmdir, open_write, fwrite, fclose, link, remove, stat_nlink, readable, end_of,
    fgets,
  }

  abbrev pub write_open : State → List ℕ → Option ℕ → State × Bool
  write_open s text none = (s, false)
  write_open s text (some f) =
      let (s', n) = fwrite s f text in
      let (s'', closed) = fclose s' f in (s'', closed && n == length text)

  unfoldable pub write_text : State → Name → List ℕ → State × Bool
  write_text s path text = let (s', f) = open_write s path in write_open s' text f

  abbrev pub size_of_file : State → Name → Option ℕ
  size_of_file s path = if readable s path then end_of s path else none

  -- the state at the end, what was printed, and the value of the main function
  abbrev pub Demo : Type 0
  Demo = State × List DemoLine × ℕ

  unfoldable pub say : DemoLine → Demo → Demo
  say line (s, lines, status) = (s, line ∷ lines, status)

  module _ (dir a b : Name) where
    -- `refused_demo`
    abbrev pub refused : State → Demo
    refused s =
        let (s', _) = remove s a in
        let (s'', _) = remove s' b in (rmdir s'' dir, refused_demo ∷ [], 0)

    -- `if (... != 0) goto refused_demo`
    unfoldable pub tried : State × Bool → (State → Demo) → Demo
    tried (s, false) rest = refused s
    tried (s, true) rest = rest s

    abbrev pub ended : State → Bool → Demo
    ended s true = (rmdir s dir, [], 0)
    ended s false = (rmdir s dir, lost ∷ [], 1)

    abbrev pub count_said : State → Demo → Demo
    count_said s rest =
        if is_two (stat_nlink s a) then rest else say (count_note (stat_nlink s a)) rest

    unfoldable pub read_alias : State → Demo
    unfolding same_name
    read_alias s =
        let text = until_line_end (got (fgets s b 64)) in
        if readable s b
        then say (still_reads text)
            (tried (remove s b) (λ s'. say all_removed (ended s' (same_name text hello))))
        else refused s

    unfoldable pub second_demo : State → Demo
    unfolding write_text read_alias
    second_demo s = say two_names (
        tried (write_text s a hello) (λ s₁.
          tried (link s₁ a b) (λ s₂. count_said s₂ (tried (remove s₂ a) (λ s₃. read_alias s₃)))))

    unfoldable pub first_demo : State → Demo
    unfolding write_text second_demo
    first_demo s = tried (write_text s a hello) (λ s₁. tried (link s₁ a b) (λ s₂.
        say (size_and_links (size_of_file s₂ b) (stat_nlink s₂ a)) (
          tried (remove s₂ a) (λ s₃.
            say (alive (readable s₃ b) (stat_nlink s₃ b))
              (tried (remove s₃ b) (λ s₄. second_demo s₄))))))

    unfoldable pub hard_links : State → Demo
    unfolding first_demo
    hard_links s =
        let (s', made) = mkdir s dir in
        if made then say working (first_demo s') else (s', no_directory ∷ [], 0)

-- ===== src/Posix/Durable/Replace.antt =====
-- What a crash leaves of `durable_replace` in 10_durable_replace.c.
use inside_the_cpu_storage_a.Base.{
  ℕ, ◌+◌, ◌≤◌, ◌<◌, ◌≡◌, ◌≢◌, ◌⊎◌, inl, inr, refl, ap, sym, ◌∙◌, subst, Bool, true, false, Option,
  none, some, List, [], ◌∷◌, ◌++◌, append-nil, arith, length,
}
use inside_the_cpu_storage_a.Fs.{Name}
use inside_the_cpu_storage_a.Writes.{Answer, took, interrupted, failed, write_all_bytes}
use inside_the_cpu_storage_a.Writes.Sent.{Call, write_all_bytes-Sent}
use inside_the_cpu_storage_a.Posix.{Posix, View, IsFiles, IsDurable}
use inside_the_cpu_storage_a.Posix.Durable.{
  Log, Sys, ◌>>=◌, sys_create, sys_open, sys_write, sys_fsync, sys_rename, close_open, and_then,
  pure, logged, write_and_sync, sync_dir, durable_replace,
}

abbrev pub All {ℓ κ} : {A : Type ℓ} → (A → Type κ) → List A → Type κ
All P [] = Unit
All P (x ∷ xs) = P x × All P xs

module _ {os : Posix} (v : View os) (files : IsFiles os v) (durable : IsDurable os v)
    (before : os.State) (tmp dst : Name) (bytes : List ℕ) (apart : dst ≢ tmp) where
  open os use {State}
  open v use {signals, holds, Crash, Open, Synced, Given, Dir, dir_of}

  -- After a crash in this state the file is the old one or the new one.
  abbrev pub IsWhole : State → Type 0
  IsWhole s = (c : Option (List ℕ)) → Crash s dst c → Crash before dst c ⊎ (c ≡ some bytes)

  -- so it is in the state of the log and in those before it
  abbrev pub IsSafe : Log os → Type 0
  IsSafe l = All IsWhole (l.now ∷ l.seen)

  -- the outcome of a part of the code
  abbrev pub Ends : {A : Type 0} → (Log os → A → Type 0) → Option (Log os × A) → Type 0
  Ends {A} Q o = (l : Log os) × (a : A) × (o ≡ some (l, a)) × IsSafe l × Q l a

  Ends-bind :
      {A B : Type 0} {Q : Log os → A → Type 0} {R : Log os → B → Type 0} (m : Sys os A)
      (f : A → Sys os B) (l : Log os)
      → Ends Q (m l)
      → ((k : Log os) (a : A) → IsSafe k → Q k a → Ends R (f a k))
      → Ends R (◌>>=◌ os m f l)
  Ends-bind {A} {B} {Q} {R} m f l (k, a, e, safe, q) rest =
      subst (λ o. Ends R (elim o [ none ↦ none | some (j, b) ↦ f b j ])) (sym e) (rest k a safe q)

  -- a call that does not change what the file may be after a crash
  calm :
      (l : Log os) {A : Type 0} (r : State × A)
      → IsSafe l
      → ((c : Option (List ℕ)) → Crash r.0 dst c → Crash l.now dst c)
      → IsSafe (logged os l r).0
  calm l r safe h = (λ c k. safe.0 c (h c k), safe)

  -- the descriptor that `open` gives, if it gives one
  abbrev Opened : List ℕ → Log os → Option ℕ → Type 0
  Opened b l none = Unit
  Opened b l (some fd) = Open l.now fd tmp b

  create-Ends :
      (l : Log os)
      → IsSafe l
      → Ends (λ k fd. Opened [] k fd × (signals k.now ≤ signals l.now)) (sys_create os tmp l)
  create-Ends l safe = (
    (logged os l (os.create l.now tmp)).0,
    (os.create l.now tmp).1,
    refl,
    calm l (os.create l.now tmp) safe (λ c. durable.create_crash l.now tmp dst c apart),
    (opened (os.create l.now tmp).1 refl, files.create_signals l.now tmp),
  )
    where
      opened :
          (o : Option ℕ)
          → (os.create l.now tmp).1 ≡ o
          → Opened [] (logged os l (os.create l.now tmp)).0 o
      opened none e = tt
      opened (some fd) e = files.create_open l.now tmp fd e

  -- the file while it is written
  abbrev Held : ℕ → Log os → List ℕ → Type 0
  Held fd l b = IsSafe l × Open l.now fd tmp b

  abbrev log_signals : Log os → ℕ
  log_signals l = signals l.now

  wrote :
      (fd : ℕ) (l : Log os) (b q : List ℕ) (s : State) (answer : Answer)
      → IsSafe (logged os l (s, answer)).0
      → Call (λ t c. Open t fd tmp c) signals l.now b q (s, answer)
      → Call (Held fd) log_signals l b q (logged os l (s, answer))
  wrote fd l b q s (took n) safe (some_in, within, held, fewer) =
      (some_in, within, (safe, held), fewer)
  wrote fd l b q s interrupted safe (held, fewer) = ((safe, held), fewer)
  wrote fd l b q s failed safe (held, fewer) = ((safe, held), fewer)

  write_call :
      (fd : ℕ) (l : Log os) (b q : List ℕ)
      → 0 < length q
      → Held fd l b
      → Call (Held fd) log_signals l b q (sys_write os fd l q)
  write_call fd l b q some_bytes (safe, held) =
      wrote fd l b q (os.write l.now fd q).0 (os.write l.now fd q).1
        (calm l (os.write l.now fd q) safe
          (λ c. durable.write_crash l.now fd tmp b q dst c held apart))
        (files.write_call l.now fd tmp b q some_bytes held)

  -- the file once the loop has ended
  abbrev Filled : ℕ → Log os → Bool → Type 0
  Filled fd l ok = (b : List ℕ) × Open l.now fd tmp b × (ok ≡ true → b ≡ bytes)

  fill-Ends :
      (fuel fd : ℕ) (l : Log os)
      → IsSafe l
      → Open l.now fd tmp []
      → length bytes + signals l.now ≤ fuel
      → Ends (Filled fd) (write_all_bytes (sys_write os fd) fuel l bytes)
  fill-Ends fuel fd l safe held h =
      let (k, sent, rest, split, (safe', held'), fewer, end) =
        write_all_bytes-Sent (Held fd) log_signals (sys_write os fd) (write_call fd) fuel l [] bytes
          (safe, held) h in
      elim end [
        | inl (run, all) ↦ (
          k,
          true,
          run,
          safe',
          (sent, held', λ e. sym (split ∙ ap (λ t. sent ++ t) all ∙ append-nil sent)),
        )
        | inr run ↦
            (k, false, run, safe', (sent, held', λ e. let absurd : ⊥ = cc in elim absurd [ ]))
      ]

  abbrev SyncedIf : Log os → Bool → Type 0
  SyncedIf l ok = ok ≡ true → Synced l.now tmp bytes

  fsync-Ends :
      (fd : ℕ) (ok : Bool) (l : Log os)
      → IsSafe l
      → Filled fd l ok
      → Ends SyncedIf (and_then os ok (sys_fsync os fd) l)
  fsync-Ends fd false l safe filled =
      (l, false, refl, safe, λ e. let absurd : ⊥ = cc in elim absurd [ ])
  fsync-Ends fd true l safe (b, held, same) =
      let held' = subst (Open l.now fd tmp) (same refl) held in
      (
        (logged os l (os.fsync l.now fd)).0,
        (os.fsync l.now fd).1,
        refl,
        calm l (os.fsync l.now fd) safe
            (λ c. durable.fsync_crash l.now fd tmp bytes dst c held' apart),
        durable.fsync_synced l.now fd tmp bytes held',
      )

  write_and_sync-Ends :
      (fuel : ℕ) (fd : Option ℕ) (l : Log os)
      → IsSafe l
      → Opened [] l fd
      → length bytes + signals l.now ≤ fuel
      → Ends SyncedIf (write_and_sync os fuel bytes fd l)
  unfolding write_and_sync
  write_and_sync-Ends fuel none l safe opened h =
      (l, false, refl, safe, λ e. let absurd : ⊥ = cc in elim absurd [ ])
  write_and_sync-Ends fuel (some fd) l safe opened h =
      Ends-bind (λ k. write_all_bytes (sys_write os fd) fuel k bytes)
        (λ ok. and_then os ok (sys_fsync os fd)) l (fill-Ends fuel fd l safe opened h)
        (λ k ok. fsync-Ends fd ok k)

  close-Ends :
      (fd : Option ℕ) (Q : State → Type 0) (l : Log os)
      → ((s : State) (n : ℕ) → Q s → Q (os.close s n))
      → IsSafe l
      → Q l.now
      → Ends (λ k u. Q k.now) (close_open os fd l)
  close-Ends none Q l keeps safe q = (l, tt, refl, safe, q)
  close-Ends (some fd) Q l keeps safe q = (
    (logged os l (os.close l.now fd, tt)).0,
    tt,
    refl,
    calm l (os.close l.now fd, tt) safe (λ c. durable.close_crash l.now fd dst c),
    keeps l.now fd q,
  )

  abbrev GivenIf : State → Bool → Type 0
  GivenIf s ok = ok ≡ true → Given s dst bytes

  rename-Ends :
      (ok : Bool) (l : Log os)
      → IsSafe l
      → SyncedIf l ok
      → Ends (λ k done. GivenIf k.now done) (and_then os ok (sys_rename os tmp dst) l)
  rename-Ends false l safe synced =
      (l, false, refl, safe, λ e. let absurd : ⊥ = cc in elim absurd [ ])
  rename-Ends true l safe synced = (
    (logged os l (os.rename l.now tmp dst)).0,
    (os.rename l.now tmp dst).1,
    refl,
    (
      λ c k. elim (durable.rename_crash l.now tmp dst bytes c (synced refl) k) [
        | inl old ↦ safe.0 c old
        | inr new ↦ inr new
      ],
      safe,
    ),
    durable.rename_given l.now tmp dst bytes (synced refl),
  )

  -- the directory is open, if it could be opened
  abbrev DirOpen : Name → Bool → Log os → Option ℕ → Type 0
  DirOpen dir ok l fd = GivenIf l.now ok × ((n : ℕ) → fd ≡ some n → Dir l.now n dir)

  open-Ends :
      (dir : Name) (ok : Bool) (l : Log os)
      → IsSafe l
      → GivenIf l.now ok
      → Ends (DirOpen dir ok) (sys_open os dir l)
  open-Ends dir ok l safe given = (
    (logged os l (os.open_read l.now dir)).0,
    (os.open_read l.now dir).1,
    refl,
    calm l (os.open_read l.now dir) safe (λ c. durable.open_read_crash l.now dir dst c),
    (
      λ e. durable.open_read_given l.now dir dst bytes (given e),
      λ n. durable.open_read_dir l.now dir n,
    ),
  )

  -- Now and after a crash the file is the new one.
  abbrev pub IsNew : State → Type 0
  IsNew s = ((c : Option (List ℕ)) → Crash s dst c → c ≡ some bytes) × Given s dst bytes

  sync_dir-Ends :
      (ok : Bool) (fd : Option ℕ) (l : Log os)
      → IsSafe l
      → DirOpen (dir_of dst) ok l fd
      → Ends (λ k done. done ≡ true → IsNew k.now) (sync_dir os ok fd l)
  unfolding sync_dir
  sync_dir-Ends ok none l safe opened =
      (l, false, refl, safe, λ e. let absurd : ⊥ = cc in elim absurd [ ])
  sync_dir-Ends false (some fd) l safe opened =
      (l, false, refl, safe, λ e. let absurd : ⊥ = cc in elim absurd [ ])
  sync_dir-Ends true (some fd) l safe (given, opened) =
      let at = opened fd refl in
      (
        (logged os l (os.fsync l.now fd)).0,
        (os.fsync l.now fd).1,
        refl,
        calm l (os.fsync l.now fd) safe
            (λ c. durable.fsync_dir_crash l.now fd (dir_of dst) dst c at),
        λ e. (
          λ c. durable.fsync_dir_durable l.now fd dst bytes c at (given refl) e,
          durable.fsync_dir_given l.now fd (dir_of dst) dst bytes at (given refl),
        ),
      )

  -- The two files are different, and `dir` is the directory of `dst`. From a state after whose crash `dst` is the old
  -- file or the new one, `durable_replace` with fuel for every byte and every signal ends. In each state on
  -- its way, whichever calls fail, a crash leaves the old file or the new one. If it returns 1, `dst` is
  -- the new file, and so it is after any crash.
  pub durable_replace_lem :
      (fuel : ℕ) (l : Log os)
      → IsSafe l
      → length bytes + signals l.now ≤ fuel
      → Ends
          (λ k ok.
            ok ≡ true
            → (holds k.now dst ≡ some bytes)
              × ((c : Option (List ℕ)) → Crash k.now dst c → c ≡ some bytes))
          (durable_replace os fuel (dir_of dst) tmp dst bytes l)
  unfolding durable_replace
  durable_replace_lem fuel l safe h =
      Ends-bind (sys_create os tmp) _ l (create-Ends l safe) (λ l₁ fd safe₁ (opened, fewer).
        Ends-bind (write_and_sync os fuel bytes fd) _ l₁
          (write_and_sync-Ends fuel fd l₁ safe₁ opened (omega arith))
          (λ l₂ synced safe₂ q₂.
            Ends-bind (close_open os fd) _ l₂
              (close-Ends fd (λ s. synced ≡ true → Synced s tmp bytes) l₂
                (λ s n q e. durable.close_synced s n tmp bytes (q e)) safe₂ q₂)
              (λ l₃ u safe₃ q₃.
                Ends-bind (and_then os synced (sys_rename os tmp dst)) _ l₃
                  (rename-Ends synced l₃ safe₃ q₃)
                  (λ l₄ renamed safe₄ q₄.
                    Ends-bind (sys_open os (dir_of dst)) _ l₄
                      (open-Ends (dir_of dst) renamed l₄ safe₄ q₄)
                      (λ l₅ dfd safe₅ q₅.
                        Ends-bind (sync_dir os renamed dfd) _ l₅
                          (sync_dir-Ends renamed dfd l₅ safe₅ q₅)
                          (λ l₆ ok safe₆ q₆.
                            Ends-bind (close_open os dfd) (λ u. pure os ok) l₆
                              (close-Ends dfd (λ s. ok ≡ true → IsNew s) l₆ new_closed safe₆ q₆)
                              (λ l₇ u safe₇ q₇. (
                                l₇,
                                ok,
                                refl,
                                safe₇,
                                λ e. (durable.given_holds l₇.now dst bytes (q₇ e).1, (q₇ e).0),
                              ))))))))
    where
      new_closed :
          {ok : Bool} (s : State) (n : ℕ) → (ok ≡ true → IsNew s) → ok ≡ true → IsNew (os.close s n)
      new_closed s n q e = (
        λ c k. (q e).0 c (durable.close_crash s n dst c k),
        durable.close_given s n dst bytes (q e).1,
      )

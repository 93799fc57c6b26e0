-- ===== src/Uring/Enter.antt =====
-- `enter` of 10_uring_model.c, the kernel's side, and the application's loop over the completions.
use inside_the_cpu_storage_a.Base.{
  ◌%◌, ◌^◌, ◌⊎◌, leb, ◌==◌, ◌&&◌, ℕ, zero, suc, ◌+◌, ◌≤◌, ◌<◌, ◌≡◌, inl, inr, refl, ap, sym, ◌∙◌,
  some, List, [], ◌∷◌, ◌++◌, map, arith, length, take, ltb, if◌then◌else◌, ◌>>=◌, append-nil,
  append_assoc, Bool-cases,
}
use inside_the_cpu_storage_a.Uring.{
  bytes, invalid, k_read, file_size, Sqe, Cqe, Ring, sq_n, cq_n, push, zero_sqe, zero_cqe, answer,
  enter_loop, enter, drain,
}
use inside_the_cpu_storage_a.Uring.Queue.{
  Wraps, IsRing, contents, length-contents, push_lem, pop_lem,
}

pub sq_n-Wraps : Wraps sq_n
sq_n-Wraps = omega arith

pub cq_n-Wraps : Wraps cq_n
cq_n-Wraps = omega arith

take-append {ℓ} : {A : Type ℓ} (n : ℕ) (xs ys : List A) → length xs ≡ n → take n (xs ++ ys) ≡ xs
take-append zero [] ys e = refl
take-append zero (x ∷ xs) ys e = let absurd : ⊥ = omega arith in elim absurd [ ]
take-append (suc n) [] ys e = let absurd : ⊥ = omega arith in elim absurd [ ]
take-append (suc n) (x ∷ xs) ys e = ap (λ zs. x ∷ zs) (take-append n xs ys (omega arith))

take-all {ℓ} : {A : Type ℓ} (n : ℕ) (xs : List A) → length xs ≤ n → take n xs ≡ xs
take-all zero [] h = refl
take-all zero (x ∷ xs) h = let absurd : ⊥ = omega arith in elim absurd [ ]
take-all (suc n) [] h = refl
take-all (suc n) (x ∷ xs) h = ap (λ zs. x ∷ zs) (take-all n xs (omega arith))

abbrev pub submissions : Ring Sqe → List Sqe
submissions = contents sq_n zero_sqe

abbrev pub completions : Ring Cqe → List Cqe
completions = contents cq_n zero_cqe

-- One more completion, kept or dropped.
kept :
    {cq : Ring Cqe} (c : Cqe) (cs : List Cqe)
    → IsRing cq_n zero_cqe cq
    → take cq_n (completions (push cq_n cq c).0 ++ cs) ≡ take cq_n (completions cq ++ (c ∷ cs))
kept {cq} c cs v =
    let (pair, ok, more) = push_lem cq_n zero_cqe {r = cq} c cq_n-Wraps v in
    elim (Bool-cases (ltb (length (completions cq)) cq_n)) [
      | inl room ↦
          ap (λ xs. take cq_n (xs ++ cs))
            (more ∙ ap (λ b. if b then completions cq ++ (c ∷ []) else completions cq) (ok ∙ room))
          ∙ ap (take cq_n) (append_assoc (completions cq) (c ∷ []) cs)
      | inr full ↦
          let size : length (completions cq) ≡ cq_n =
            ground (arith, length-contents cq_n zero_cqe cq, v.at_most) in
          ap (λ xs. take cq_n (xs ++ cs))
            (more ∙ ap (λ b. if b then completions cq ++ (c ∷ []) else completions cq) (ok ∙ full))
          ∙ take-append cq_n (completions cq) cs size
          ∙ sym (take-append cq_n (completions cq) (c ∷ cs) size)
    ]

-- A read of 4096 bytes in the file of sixteen blocks, whose end is counted on 64 bits.
abbrev pub InFile : Sqe → Type 0
InFile s = (s.opcode ≡ 22) × ((s.off + 4096) % 2 ^ 64 ≤ 65536)

-- The completion names its submission, and says 4096 bytes for a read in the file, and EINVAL for all else.
abbrev pub Answers : Sqe → Cqe → Type 0
Answers s c =
    (c.user_data ≡ s.user_data)
    × ((InFile s × (c.res ≡ bytes 4096)) ⊎ ((InFile s → ⊥) × (c.res ≡ invalid)))

-- one completion for each submission, in order
abbrev pub AllAnswers : List Sqe → List Cqe → Type 0
AllAnswers [] [] = Unit
AllAnswers [] (c ∷ cs) = ⊥
AllAnswers (s ∷ ss) [] = ⊥
AllAnswers (s ∷ ss) (c ∷ cs) = Answers s c × AllAnswers ss cs

answer-Answers : (s : Sqe) → Answers s (answer s)
unfolding answer
answer-Answers s =
    elim (Bool-cases (s.opcode == k_read && leb ((s.off + 4096) % 2 ^ 64) file_size)) [
      | inl e ↦ (refl, inl (ground arith, ap (λ b. if b then bytes 4096 else invalid) e))
      | inr e ↦ (refl, inr ((λ h. ground arith), ap (λ b. if b then bytes 4096 else invalid) e))
    ]

map-AllAnswers : (ss : List Sqe) → AllAnswers ss (map answer ss)
map-AllAnswers [] = tt
map-AllAnswers (s ∷ ss) = (answer-Answers s, map-AllAnswers ss)

-- What `enter` makes of the rings.
pub record Entered (sq : Ring Sqe) (cq : Ring Cqe) (sq' : Ring Sqe) (cq' : Ring Cqe) (cs : List Cqe)
    : Type 0 where
  pub sq_ok : IsRing sq_n zero_sqe sq'
  pub cq_ok : IsRing cq_n zero_cqe cq'
  pub consumed : submissions sq' ≡ []
  pub answered : completions cq' ≡ take cq_n (completions cq ++ cs)

enter_loop-Entered :
    (n : ℕ) {sq : Ring Sqe} {cq : Ring Cqe}
    → IsRing sq_n zero_sqe sq
    → IsRing cq_n zero_cqe cq
    → length (submissions sq) < n
    → (sq' : Ring Sqe) × (cq' : Ring Cqe) × Entered sq cq sq' cq' (map answer (submissions sq))
      × (enter_loop n sq cq ≡ some (sq', cq', length (submissions sq)))
unfolding enter_loop
enter_loop-Entered zero v w enough = elim enough [ ]
enter_loop-Entered (suc n) {sq} {cq} v w enough = elim (pop_lem sq_n zero_sqe sq_n-Wraps v) [
  | inl (empty, e) ↦ (
    sq,
    cq,
    record {
      sq_ok = v;
      cq_ok = w;
      consumed = empty;
      answered =
          sym (
            take-all cq_n (completions cq)
              (omega (arith, length-contents cq_n zero_cqe cq, w.at_most)))
          ∙ ap (take cq_n) (sym (append-nil (completions cq)))
          ∙ ap (λ ss. take cq_n (completions cq ++ map answer ss)) (sym empty);
    },
    rw (e, enter_loop) (ap (λ ss. some (sq, cq, length ss)) (sym empty)),
  )
  | inr (s, sq₁, e, v', front) ↦
      let (w', ok, more) = push_lem cq_n zero_cqe {r = cq} (answer s) cq_n-Wraps w in
      let (sq', cq', after, run) = enter_loop-Entered n v' w' (omega (arith, ap length front)) in
      (
        sq',
        cq',
        record {
          sq_ok = after.sq_ok;
          cq_ok = after.cq_ok;
          consumed = after.consumed;
          answered =
              after.answered
              ∙ kept (answer s) (map answer (submissions sq₁)) w
              ∙ ap (λ ss. take cq_n (completions cq ++ map answer ss)) (sym front);
        },
        rw (e, enter_loop)
            (ap (λ o. o >>= λ r. some (r.0, r.1, suc r.2)) run
              ∙ ap (λ ss. some (sq', cq', length ss)) (sym front)),
      )
]

-- On rings in order `enter` ends, consumes every submission and counts it. The completions, one for each submission and
-- in order, with 4096 bytes for a read whose end, counted on 64 bits, is in the file, and EINVAL for all else, go behind
-- those in the completion ring; it keeps the first sixteen, and those past them are lost.
pub enter-Entered :
    {sq : Ring Sqe} {cq : Ring Cqe}
    → IsRing sq_n zero_sqe sq
    → IsRing cq_n zero_cqe cq
    → (sq' : Ring Sqe) × (cq' : Ring Cqe) × (cs : List Cqe) × AllAnswers (submissions sq) cs
      × Entered sq cq sq' cq' cs
      × (enter sq cq ≡ some (sq', cq', length (submissions sq)))
unfolding enter
enter-Entered {sq} {cq} v w =
    let (sq', cq', entered, run) =
      enter_loop-Entered (sq_n + 1) v w
        (omega (arith, length-contents sq_n zero_sqe sq, v.at_most)) in
    (sq', cq', map answer (submissions sq), map-AllAnswers (submissions sq), entered, run)

-- The application's loop uses the completions in order and leaves the ring empty, when its rounds are
-- more than they.
pub drain_lem :
    (n : ℕ) {cq : Ring Cqe}
    → IsRing cq_n zero_cqe cq
    → length (completions cq) < n
    → (cq' : Ring Cqe) × IsRing cq_n zero_cqe cq'
      × (completions cq' ≡ [])
      × (drain n cq ≡ some (cq', completions cq))
unfolding drain
drain_lem zero v enough = elim enough [ ]
drain_lem (suc n) {cq} v enough = elim (pop_lem cq_n zero_cqe cq_n-Wraps v) [
  | inl (empty, e) ↦ (cq, v, empty, rw (e, drain) (ap (λ cs. some (cq, cs)) (sym empty)))
  | inr (c, cq₁, e, v', front) ↦
      let (cq', ok, empty, run) = drain_lem n v' (omega (arith, ap length front)) in
      (
        cq',
        ok,
        empty,
        rw (e, drain)
            (ap (λ o. o >>= λ r. some (r.0, c ∷ r.1)) run ∙ ap (λ cs. some (cq', cs)) (sym front)),
      )
]

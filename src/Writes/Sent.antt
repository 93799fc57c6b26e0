-- ===== src/Writes/Sent.antt =====
-- The loop of `write_all` over a `write` that keeps a predicate of the state and the bytes of the file.
use inside_the_cpu_storage_a.Base.{
  ℕ, zero, suc, ◌+◌, ◌≤◌, ◌<◌, ◌≡◌, ◌⊎◌, inl, inr, refl, ap, sym, ◌∙◌, subst, Bool, true, false,
  Option, some, List, [], ◌∷◌, ◌++◌, append-nil, append_assoc, arith, length, take, drop,
}
use inside_the_cpu_storage_a.Writes.{Answer, took, interrupted, failed, write_all_bytes}

pub take-drop : (n : ℕ) (p : List ℕ) → take n p ++ drop n p ≡ p
take-drop zero p = refl
take-drop (suc n) [] = refl
take-drop (suc n) (c ∷ p) = ap (λ t. c ∷ t) (take-drop n p)

drop-length : (n : ℕ) (p : List ℕ) → 0 < n → n ≤ length p → length (drop n p) < length p
drop-length zero p h k = elim h [ ]
drop-length (suc zero) [] h k = elim k [ ]
drop-length (suc (suc n)) [] h k = elim k [ ]
drop-length (suc zero) (c ∷ p) h k = omega arith
drop-length (suc (suc n)) (c ∷ p) h k =
    omega (arith, drop-length (suc n) p (omega arith) (omega arith))

module _ {W : Type 0} (Held : W → List ℕ → Type 0) (signals : W → ℕ) where
  -- What one call may do when the file holds `b`: take some of the bytes `p`, be interrupted by one of the
  -- signals that are still to come, or fail.
  abbrev pub Call : W → List ℕ → List ℕ → W × Answer → Type 0
  Call w b p (w', took n) =
      (0 < n) × (n ≤ length p) × Held w' (b ++ take n p) × (signals w' ≤ signals w)
  Call w b p (w', interrupted) = Held w' b × (signals w' < signals w)
  Call w b p (w', failed) = Held w' b × (signals w' ≤ signals w)

  module _ (write : W → List ℕ → W × Answer)
      (call : (w : W) (b p : List ℕ) → 0 < length p → Held w b → Call w b p (write w p)) where
    -- the outcome of the loop
    abbrev pub Sent : W → List ℕ → List ℕ → Option (W × Bool) → Type 0
    Sent w b p o =
        (w' : W) × (sent : List ℕ) × (rest : List ℕ) × (p ≡ sent ++ rest)
        × Held w' (b ++ sent)
        × (signals w' ≤ signals w)
        × (((o ≡ some (w', true)) × (rest ≡ [])) ⊎ (o ≡ some (w', false)))

    turn :
        (fuel : ℕ) (w : W) (b p : List ℕ) (w' : W) (answer : Answer)
        → Call w b p (w', answer)
        → length p + signals w ≤ suc fuel
        → ((v : W) (c q : List ℕ)
            → Held v c
            → length q + signals v ≤ fuel
            → Sent v c q (write_all_bytes write fuel v q))
        → Sent w b p (elim answer [
          | interrupted ↦ write_all_bytes write fuel w' p
          | failed ↦ some (w', false)
          | took n ↦ write_all_bytes write fuel w' (drop n p)
        ])
    turn fuel w b p w' (took n) (some_in, within, wrote, calm) h rec =
        let (last, sent, rest, split, put, fewer, end) =
          rec w' (b ++ take n p) (drop n p) wrote (omega (arith, drop-length n p some_in within)) in
        (
          last,
          take n p ++ sent,
          rest,
          sym (take-drop n p)
              ∙ ap (λ t. take n p ++ t) split
              ∙ sym (append_assoc (take n p) sent rest),
          subst (Held last) (append_assoc b (take n p) sent) put,
          omega arith,
          end,
        )
    turn fuel w b p w' interrupted (same, calm) h rec =
        let (last, sent, rest, split, put, fewer, end) = rec w' b p same (omega arith) in
        (last, sent, rest, split, put, omega arith, end)
    turn fuel w b p w' failed (same, calm) h rec =
        (w', [], p, refl, subst (Held w') (sym (append-nil b)) same, calm, inr refl)

    -- The loop ends within one turn for each byte and each signal. If it returns 1 the file has got all the bytes,
    -- in order; otherwise a first part of them.
    pub write_all_bytes-Sent :
        (fuel : ℕ) (w : W) (b p : List ℕ)
        → Held w b
        → length p + signals w ≤ fuel
        → Sent w b p (write_all_bytes write fuel w p)
    unfolding write_all_bytes
    write_all_bytes-Sent fuel w b [] held h =
        (w, [], [], refl, subst (Held w) (sym (append-nil b)) held, omega arith, inl (refl, refl))
    write_all_bytes-Sent zero w b (c ∷ p) held h = let absurd : ⊥ = omega arith in elim absurd [ ]
    write_all_bytes-Sent (suc fuel) w b (c ∷ p) held h =
        turn fuel w b (c ∷ p) (write w (c ∷ p)).0 (write w (c ∷ p)).1
          (call w b (c ∷ p) (omega arith) held) h (λ v d q k l. write_all_bytes-Sent fuel v d q k l)

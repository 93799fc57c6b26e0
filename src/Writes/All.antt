-- ===== src/Writes/All.antt =====
-- `write_all` of 06_write_all.c.
use inside_the_cpu_storage_a.Base.{
  ℕ, ◌+◌, ◌≤◌, ◌<◌, ◌≡◌, ◌⊎◌, refl, ap, ◌∙◌, Bool, true, false, Option, some, List, [], ◌++◌,
  length, take,
}
use inside_the_cpu_storage_a.Writes.Sent.{Call, write_all_bytes-Sent}
use inside_the_cpu_storage_a.Writes.{Answer, took, interrupted, failed, write_all_bytes}

-- What one call of `write` may do to the bytes of the file, `bytes`, and to the number of signals that are
-- still to come, `signals`.
abbrev pub CallOf : {W : Type 0} → (W → List ℕ) → (W → ℕ) → W → List ℕ → W × Answer → Type 0
CallOf bytes signals w p (w', took n) =
    (0 < n) × (n ≤ length p) × (bytes w' ≡ bytes w ++ take n p) × (signals w' ≤ signals w)
CallOf bytes signals w p (w', interrupted) = (bytes w' ≡ bytes w) × (signals w' < signals w)
CallOf bytes signals w p (w', failed) = (bytes w' ≡ bytes w) × (signals w' ≤ signals w)

module _ {W : Type 0} (write : W → List ℕ → W × Answer) (bytes : W → List ℕ) (signals : W → ℕ)
    (call : (w : W) (p : List ℕ) → 0 < length p → CallOf bytes signals w p (write w p)) where
  -- the outcome of the loop
  abbrev pub Written : W → List ℕ → Option (W × Bool) → Type 0
  Written w p o =
      (w' : W) × (sent : List ℕ) × (rest : List ℕ) × (p ≡ sent ++ rest)
      × (bytes w' ≡ bytes w ++ sent)
      × (((o ≡ some (w', true)) × (rest ≡ [])) ⊎ (o ≡ some (w', false)))

  -- the state's bytes as a predicate
  abbrev Held : W → List ℕ → Type 0
  Held w b = bytes w ≡ b

  held_call :
      (w : W) (b p : List ℕ) (r : W × Answer)
      → Held w b
      → CallOf bytes signals w p r
      → Call Held signals w b p r
  held_call w b p (w', took n) held (some_in, within, wrote, calm) =
      (some_in, within, wrote ∙ ap (λ t. t ++ take n p) held, calm)
  held_call w b p (w', interrupted) held (same, calm) = (same ∙ held, calm)
  held_call w b p (w', failed) held (same, calm) = (same ∙ held, calm)

  -- When each call takes at least one byte and at most those it is given, or is interrupted by one of finitely many
  -- signals, or fails and leaves the file as it is: `write_all` ends within one turn for each byte and each
  -- signal. If it returns 1 the file has got all the bytes, in order; otherwise a first part of them.
  pub write_all_bytes_lem :
      (fuel : ℕ) (w : W) (p : List ℕ)
      → length p + signals w ≤ fuel
      → Written w p (write_all_bytes write fuel w p)
  write_all_bytes_lem fuel w p h =
      let (w', sent, rest, split, put, fewer, end) =
        write_all_bytes-Sent Held signals write
          (λ v b q k held. held_call v b q (write v q) held (call v q k)) fuel w (bytes w) p refl
          h in
      (w', sent, rest, split, put, end)

-- ===== src/Uring/Queue.antt =====
-- The rings of 10_uring_model.c as queues, across the wrap-around of their counters.
use inside_the_cpu_storage_a.Base.{
  ℕ, suc, ◌+◌, ◌-◌, ◌%◌, ◌≤◌, ◌<◌, ◌≡◌, ◌≢◌, ◌⊎◌, inl, inr, refl, ap, sym, ◌∙◌, none, some, List,
  [], ◌∷◌, ◌++◌, arith, length, get_or, set, length-set, window, length-window, window-congr,
  window-set, ltb, ==_iff, ne→==, if◌then◌else◌, ℕ_discrete,
}
use inside_the_cpu_storage_a.Uring.{Ring, u32, count, push, pop}

-- The number of slots divides the range of the counters.
abbrev pub Wraps : ℕ → Type 0
Wraps n = (0 < n) × (n < u32) × ((i : ℕ) → i % u32 % n ≡ i % n)

module _ {ℓ} {A : Type ℓ} (n : ℕ) (d : A) where
  pub record IsRing (r : Ring A) : Type ℓ where
    pub size : length r.slots ≡ n
    pub head_in : r.head < u32
    pub tail_in : r.tail < u32
    pub at_most : count r ≤ n

  -- the entries, oldest first
  abbrev pub contents : Ring A → List A
  contents r = window n d r.slots r.head (count r)

  pub length-contents : (r : Ring A) → length (contents r) ≡ count r
  length-contents r = length-window n d r.slots r.head (count r)

  pushed-count :
      {r : Ring A}
      → n < u32
      → IsRing r
      → count r ≢ n
      → ((r.tail + 1) % u32 + u32 - r.head) % u32 ≡ suc (count r)
  pushed-count h v room = omega arith

  -- where the next entry goes
  tail-place : {r : Ring A} → Wraps n → IsRing r → r.tail % n ≡ (r.head + count r) % n
  tail-place {r} w v =
      ap (λ k. k % n) {y = (r.head + count r) % u32} (omega arith) ∙ w.2 (r.head + count r)

  popped-count :
      {r : Ring A}
      → IsRing r
      → r.head ≢ r.tail
      → suc ((r.tail + u32 - (r.head + 1) % u32) % u32) ≡ count r
  popped-count v ne = omega arith

  -- A push on a ring with `n` entries is refused and changes nothing; any other adds its entry behind
  -- those in the ring, also where the counters wrap around.
  pub push_lem :
      {r : Ring A} (x : A)
      → Wraps n
      → IsRing r
      → let (r', ok) = push n r x in
        IsRing r'
        × (ok ≡ ltb (length (contents r)) n)
        × (contents r' ≡ (if ok then contents r ++ (x ∷ []) else contents r))
  unfolding push
  push_lem {r} x w v = elim (ℕ_discrete (count r) n) [
    | yes full ↦ rw ((==_iff (count r) n).1 full) (v, ground (arith, length-contents r), refl)
    | no room ↦ rw (ne→== (count r) n room) (
      record {
        size = length-set r.slots (r.tail % n) x ∙ v.size;
        head_in = v.head_in;
        tail_in = omega arith;
        at_most = omega (arith, pushed-count {r = r} w.1 v room, v.at_most);
      },
      ground (arith, length-contents r),
      ap (window n d (set r.slots (r.tail % n) x) r.head) (pushed-count {r = r} w.1 v room)
          ∙ ap (λ k. window n d (set r.slots k x) r.head (suc (count r))) (tail-place {r = r} w v)
          ∙ window-set n d r.slots r.head (count r) x v.size (omega (arith, v.at_most)),
    )
  ]

  -- A pop takes the oldest entry, or finds none in an empty ring.
  pub pop_lem :
      {r : Ring A}
      → Wraps n
      → IsRing r
      → ((contents r ≡ []) × (pop n d r ≡ none))
        ⊎ ((x : A) × (r' : Ring A) × (pop n d r ≡ some (x, r'))
            × IsRing r'
            × (contents r ≡ x ∷ contents r'))
  unfolding pop
  pop_lem {r} w v = elim (ℕ_discrete r.head r.tail) [
    | yes e ↦
        inl (
          ap (window n d r.slots r.head) {y = 0} (omega arith),
          rw ((==_iff r.head r.tail).1 e) refl,
        )
    | no ne ↦ inr (
      get_or r.slots (r.head % n) d,
      record r { head = (r.head + 1) % u32 },
      rw (ne→== r.head r.tail ne) refl,
      record { size = v.size; head_in = omega arith; tail_in = v.tail_in; at_most = omega arith },
      ap (window n d r.slots r.head) (sym (popped-count {r = r} v ne))
          ∙ ap (λ xs. get_or r.slots (r.head % n) d ∷ xs)
              (window-congr n d r.slots (suc r.head) ((r.head + 1) % u32) _
                (ap (λ k. k % n) {y = r.head + 1} (omega arith) ∙ sym (w.2 (r.head + 1)))),
    )
  ]

-- ===== src/Nvme/View.antt =====
-- The rings of the queue pair of 07_queue_pair.c as queues, and 08_submit.c on them.
use inside_the_cpu_storage_a.Base.{
  get_or, ap₂, ◌≢◌, ℕ, suc, ◌+◌, ◌-◌, ◌%◌, ◌^◌, ◌≤◌, ◌<◌, ◌≡◌, refl, ap, sym, ◌∙◌, Bool, true,
  false, List, [], ◌∷◌, ◌++◌, arith, length, set, length-set, window, length-window, window-congr,
  window-set, window-set_past, ltb, ◌==◌, if◌then◌else◌, Bool-cases, inl, inr,
}
use inside_the_cpu_storage_a.Nvme.{
  SubmissionEntry, CompletionEntry, QueuePair, k_size, next, zero_entry, zero_completion, zero_pair,
  read_entry, submit,
}

-- the slots from index `a` up to index `b`
abbrev pub dist : ℕ → ℕ → ℕ
dist a b = (b + k_size - a) % k_size

-- The indexes are in range, and the doorbell register lies between the head and the tail.
pub record IsPair (q : QueuePair) : Type 0 where
  pub sq_size : length q.sq ≡ k_size
  pub cq_size : length q.cq ≡ k_size
  pub sq_tail_in : q.sq_tail < k_size
  pub sq_head_in : q.sq_head < k_size
  pub cq_tail_in : q.cq_tail < k_size
  pub cq_head_in : q.cq_head < k_size
  pub doorbell_in : q.sq_doorbell < k_size
  pub announced : dist q.sq_head q.sq_doorbell ≤ dist q.sq_head q.sq_tail
  pub id_in : q.next_id < 2 ^ 16

-- the commands in the submission ring, oldest first
abbrev pub queued : QueuePair → List SubmissionEntry
queued q = window k_size zero_entry q.sq q.sq_head (dist q.sq_head q.sq_tail)

-- those that the controller may fetch
abbrev pub rung : QueuePair → List SubmissionEntry
rung q = window k_size zero_entry q.sq q.sq_head (dist q.sq_head q.sq_doorbell)

-- the completions that the host has not reaped, oldest first
abbrev pub posted : QueuePair → List CompletionEntry
posted q = window k_size zero_completion q.cq q.cq_head (dist q.cq_head q.cq_tail)

pub zero_pair-IsPair : IsPair zero_pair
unfolding zero_pair
zero_pair-IsPair = omega arith

-- The index where the next command goes.
tail-eq : {q : QueuePair} → IsPair q → q.sq_tail ≡ (q.sq_head + dist q.sq_head q.sq_tail) % k_size
tail-eq v = omega arith

-- The index moves on by one slot while there is room.
dist-next : (a b : ℕ) → a < k_size → b < k_size → next b ≢ a → dist a (next b) ≡ suc (dist a b)
unfolding next
dist-next a b a_in b_in ne = omega arith

full-accepted :
    {q : QueuePair}
    → IsPair q
    → (full : Bool) → (next q.sq_tail == q.sq_head) ≡ full
    → (if full then false else true) ≡ ltb (length (queued q)) (k_size - 1)
unfolding next
full-accepted {q} v full e =
    go full e
    ∙ ap (λ n. ltb n (k_size - 1))
        (sym (length-window k_size zero_entry q.sq q.sq_head (dist q.sq_head q.sq_tail)))
  where
    go :
        (full : Bool)
        → (next q.sq_tail == q.sq_head) ≡ full
        → (if full then false else true) ≡ ltb (dist q.sq_head q.sq_tail) (k_size - 1)
    go true e = ground arith
    go false e = ground arith

room-ne : (a b : ℕ) → (next a == b) ≡ false → next a ≢ b
unfolding next
room-ne a b e h = ground arith

submit-IsPair :
    {q : QueuePair} (e : SubmissionEntry)
    → IsPair q
    → next q.sq_tail ≢ q.sq_head
    → IsPair (record q {
      sq = set q.sq q.sq_tail e;
      next_id = (q.next_id + 1) % 2 ^ 16;
      sq_tail = next q.sq_tail;
    })
unfolding next
submit-IsPair {q} e v ne = record {
  sq_size = length-set q.sq q.sq_tail e ∙ v.sq_size;
  cq_size = v.cq_size;
  sq_tail_in = omega arith;
  sq_head_in = v.sq_head_in;
  cq_tail_in = v.cq_tail_in;
  cq_head_in = v.cq_head_in;
  doorbell_in = v.doorbell_in;
  announced =
      omega (arith, v.announced, dist-next q.sq_head q.sq_tail v.sq_head_in v.sq_tail_in ne);
  id_in = omega arith;
}

-- An entry leaves the front of a ring when the head moves on.
pub window-pop {ℓ} :
    {A : Type ℓ} (d : A) (buf : List A) (a b : ℕ)
    → a < k_size
    → b < k_size
    → a ≢ b
    → window k_size d buf a (dist a b)
      ≡ get_or buf a d ∷ window k_size d buf (next a) (dist (next a) b)
unfolding next
window-pop d buf a b a_in b_in ne =
    ap (window k_size d buf a) {y = suc (dist (next a) b)} (omega arith)
    ∙ ap₂ ◌∷◌ (ap (λ k. get_or buf k d) {x = a % k_size} {y = a} (omega arith))
        (window-congr k_size d buf (suc a) (next a) (dist (next a) b) (omega arith))

-- a new entry behind those that are in a ring
pub window-push {ℓ} :
    {A : Type ℓ} (d : A) (buf : List A) (a b : ℕ) (x : A)
    → length buf ≡ k_size
    → a < k_size
    → b < k_size
    → next b ≢ a
    → window k_size d (set buf b x) a (dist a (next b))
      ≡ window k_size d buf a (dist a b) ++ (x ∷ [])
unfolding next
window-push d buf a b x size a_in b_in ne =
    ap (window k_size d (set buf b x) a) (dist-next a b a_in b_in ne)
    ∙ ap (λ k. window k_size d (set buf k x) a (suc (dist a b))) {y = (a + dist a b) % k_size}
        (omega arith)
    ∙ window-set k_size d buf a (dist a b) x size (omega arith)

-- it does not reach the older ones
pub window-push_past {ℓ} :
    {A : Type ℓ} (d : A) (buf : List A) (a b k : ℕ) (x : A)
    → a < k_size
    → b < k_size
    → k ≤ dist a b
    → window k_size d (set buf b x) a k ≡ window k_size d buf a k
window-push_past d buf a b k x a_in b_in le =
    ap (λ m. window k_size d (set buf m x) a k) {y = (a + dist a b) % k_size} (omega arith)
    ∙ window-set_past k_size d buf a k (dist a b) x le (omega arith)

-- A pair that is in order and has seven commands in its submission ring refuses the next one, with the
-- same commands and the same next id as before; any other takes it: the command goes behind those in the ring,
-- and the next id moves on. Either way the pair is in order, no command is announced or completed
-- by that, and no doorbell is written.
pub submit_lem :
    {q : QueuePair} (lba buffer : ℕ)
    → IsPair q
    → let (q', accepted) = submit q lba buffer in
      IsPair q'
      × (accepted ≡ ltb (length (queued q)) (k_size - 1))
      × (queued q'
          ≡ (if accepted then queued q ++ (read_entry q.next_id lba buffer ∷ []) else queued q))
      × (rung q' ≡ rung q)
      × (posted q' ≡ posted q)
      × (q'.next_id ≡ (if accepted then (q.next_id + 1) % 2 ^ 16 else q.next_id))
      × (q'.doorbell_writes ≡ q.doorbell_writes)
unfolding submit next
submit_lem {q} lba buffer v = elim (Bool-cases (next q.sq_tail == q.sq_head)) [
  | inl full ↦ rw full (v, full-accepted v true full, refl, refl, refl, refl, refl)
  | inr room ↦ rw room (
    submit-IsPair _ v (room-ne _ _ room),
    full-accepted v false room,
    window-push zero_entry q.sq q.sq_head q.sq_tail _ v.sq_size v.sq_head_in v.sq_tail_in
        (room-ne _ _ room),
    window-push_past zero_entry q.sq q.sq_head q.sq_tail _ _ v.sq_head_in v.sq_tail_in v.announced,
    refl,
    refl,
    refl,
  )
]

-- ===== src/Nvme/Controller.antt =====
-- The loop of 09_controller.c on the rings as queues.
use inside_the_cpu_storage_a.Base.{
  window, append-nil, append_assoc, ℕ, zero, suc, ◌+◌, ◌%◌, ◌<◌, ◌≡◌, ◌≢◌, refl, ap, sym, ◌∙◌,
  Option, none, some, List, [], ◌∷◌, ◌++◌, arith, length, get_or, length-set, length-window, ==_iff,
  ne→==, ◌>>=◌, ℕ_discrete,
}
use inside_the_cpu_storage_a.Nvme.{
  SubmissionEntry, CompletionEntry, QueuePair, HostRam, k_size, next, zero_entry, zero_completion,
  completion, dma_write, fetch, controller_loop, controller_run,
}
use inside_the_cpu_storage_a.Nvme.View.{IsPair, dist, queued, rung, posted, window-pop, window-push}

-- the transfers of a list of commands, in order
abbrev pub transfers : HostRam → List SubmissionEntry → Option HostRam
transfers ram [] = some ram
transfers ram (e ∷ es) = dma_write ram e.prp1 e.slba >>= λ ram'. transfers ram' es

-- the completions of a list of commands, the first fetched from slot `h`
abbrev pub answers : ℕ → List SubmissionEntry → List CompletionEntry
answers h [] = []
answers h (e ∷ es) = completion (next h) e ∷ answers (next h) es

-- From `q` to `q'` every announced command is taken, in order, and answered if the completion ring
-- has room for that; with or without room, the ring then counts the completions modulo its size.
pub record Served (q q' : QueuePair) : Type 0 where
  pub pair : IsPair q'
  pub none_rung : rung q' ≡ []
  pub left : queued q ≡ rung q ++ queued q'
  pub count : length (posted q') ≡ (length (posted q) + length (rung q)) % k_size
  pub answered :
      length (posted q) + length (rung q) < k_size
      → posted q' ≡ posted q ++ answers q.sq_head (rung q)
  pub same_id : q'.next_id ≡ q.next_id
  pub same_writes : q'.doorbell_writes ≡ q.doorbell_writes

length-posted : (q : QueuePair) → length (posted q) ≡ dist q.cq_head q.cq_tail
length-posted q = length-window k_size zero_completion q.cq q.cq_head (dist q.cq_head q.cq_tail)

length-rung : (q : QueuePair) → length (rung q) ≡ dist q.sq_head q.sq_doorbell
length-rung q = length-window k_size zero_entry q.sq q.sq_head (dist q.sq_head q.sq_doorbell)

fetch-IsPair : {q : QueuePair} → IsPair q → q.sq_head ≢ q.sq_doorbell → IsPair (fetch q)
unfolding fetch next
fetch-IsPair {q} v ne = record {
  sq_size = v.sq_size;
  cq_size = length-set q.cq q.cq_tail _ ∙ v.cq_size;
  sq_tail_in = v.sq_tail_in;
  sq_head_in = omega arith;
  cq_tail_in = omega arith;
  cq_head_in = v.cq_head_in;
  doorbell_in = v.doorbell_in;
  announced = omega arith;
  id_in = v.id_in;
}

rung-fetch :
    {q : QueuePair}
    → IsPair q
    → q.sq_head ≢ q.sq_doorbell
    → rung q ≡ get_or q.sq q.sq_head zero_entry ∷ rung (fetch q)
unfolding fetch
rung-fetch {q} v ne =
    window-pop zero_entry q.sq q.sq_head q.sq_doorbell v.sq_head_in v.doorbell_in ne

queued-fetch :
    {q : QueuePair}
    → IsPair q
    → q.sq_head ≢ q.sq_doorbell
    → queued q ≡ get_or q.sq q.sq_head zero_entry ∷ queued (fetch q)
unfolding fetch
queued-fetch {q} v ne =
    window-pop zero_entry q.sq q.sq_head q.sq_tail v.sq_head_in v.sq_tail_in (omega arith)

posted-fetch :
    {q : QueuePair}
    → IsPair q
    → length (posted q) + 1 < k_size
    → posted (fetch q)
      ≡ posted q ++ (completion (next q.sq_head) (get_or q.sq q.sq_head zero_entry) ∷ [])
unfolding fetch next
posted-fetch {q} v room =
    window-push zero_completion q.cq q.cq_head q.cq_tail _ v.cq_size v.cq_head_in v.cq_tail_in
      (omega (arith, length-posted q))

-- Fetching counts one completion more, modulo the size.
count-fetch :
    {q : QueuePair} → IsPair q → length (posted (fetch q)) ≡ (length (posted q) + 1) % k_size
unfolding fetch next
count-fetch {q} v =
    length-posted (fetch q) ∙ go ∙ ap (λ n. (n + 1) % k_size) (sym (length-posted q))
  where
    go : dist q.cq_head ((q.cq_tail + 1) % k_size) ≡ (dist q.cq_head q.cq_tail + 1) % k_size
    go = omega arith

-- Nothing is announced: the loop ends.
stop : {q : QueuePair} → IsPair q → q.sq_head ≡ q.sq_doorbell → Served q q
stop {q} v e = record {
  pair = v;
  none_rung = empty;
  left = ap (λ es. es ++ queued q) (sym empty);
  count = omega (arith, length-posted q, length-rung q, ap length empty);
  answered =
      λ _. sym (append-nil (posted q)) ∙ ap (λ es. posted q ++ answers q.sq_head es) (sym empty);
  same_id = refl;
  same_writes = refl;
}
  where
    empty : rung q ≡ []
    empty = ap (window k_size zero_entry q.sq q.sq_head) {y = 0} (omega arith)

-- A round, then the rest.
go_on :
    {q q' : QueuePair} → IsPair q → q.sq_head ≢ q.sq_doorbell → Served (fetch q) q' → Served q q'
unfolding fetch
go_on {q} {q'} v ne s = record {
  pair = s.pair;
  none_rung = s.none_rung;
  left =
      queued-fetch v ne
      ∙ ap (λ es. get_or q.sq q.sq_head zero_entry ∷ es) s.left
      ∙ ap (λ es. es ++ queued q') (sym (rung-fetch v ne));
  count = omega (arith, s.count, count-fetch v, ap length (rung-fetch v ne));
  answered = λ room.
      s.answered (omega (arith, count-fetch v, ap length (rung-fetch v ne)))
      ∙ ap (λ cs. cs ++ answers (next q.sq_head) (rung (fetch q)))
          (posted-fetch v (omega (arith, ap length (rung-fetch v ne))))
      ∙ append_assoc (posted q)
          (completion (next q.sq_head) (get_or q.sq q.sq_head zero_entry) ∷ [])
          (answers (next q.sq_head) (rung (fetch q)))
      ∙ ap (λ es. posted q ++ answers q.sq_head es) (sym (rung-fetch v ne));
  same_id = s.same_id;
  same_writes = s.same_writes;
}

first_run :
    {f : HostRam → Option (QueuePair × HostRam)} (q' : QueuePair) (o : Option HostRam)
    (es : List SubmissionEntry)
    → ((ram : HostRam) → f ram ≡ (transfers ram es >>= λ ram'. some (q', ram')))
    → (o >>= f) ≡ ((o >>= λ ram. transfers ram es) >>= λ ram'. some (q', ram'))
first_run q' none es run = refl
first_run q' (some ram) es run = run ram

controller_loop-Served :
    (n : ℕ) {q : QueuePair}
    → IsPair q
    → length (rung q) < n
    → (q' : QueuePair) × Served q q'
      × ((ram : HostRam)
          → controller_loop n q ram ≡ (transfers ram (rung q) >>= λ ram'. some (q', ram')))
unfolding controller_loop
controller_loop-Served zero {q} v enough = elim enough [ ]
controller_loop-Served (suc n) {q} v enough = elim (ℕ_discrete q.sq_head q.sq_doorbell) [
  | yes e ↦ (
    q,
    stop v e,
    λ ram.
        rw ((==_iff q.sq_head q.sq_doorbell).1 e)
          (ap (λ es. transfers ram es >>= λ ram'. some (q, ram')) (sym (stop v e).none_rung)),
  )
  | no ne ↦
      let (q', s, run) =
        controller_loop-Served n (fetch-IsPair v ne) (omega (arith, ap length (rung-fetch v ne))) in
      (
        q',
        go_on v ne s,
        λ ram. rw (ne→== q.sq_head q.sq_doorbell ne) (
            first_run q'
              (dma_write ram (get_or q.sq q.sq_head zero_entry).prp1
                (get_or q.sq q.sq_head zero_entry).slba)
              (rung (fetch q)) run
            ∙ ap (λ es. transfers ram es >>= λ ram'. some (q', ram')) (sym (rung-fetch v ne))),
      )
]

-- `controller_run` ends, and does so on every pair in order: it makes the transfers of the announced
-- commands, oldest first, and fails exactly where one of these would leave the memory; it takes
-- those commands and no others, and posts their completions in order behind those in the ring
-- when there is room for them. With room or without, the completion ring then counts the old and
-- the new ones modulo its size; the ids and the number of doorbell writes stay.
pub controller_run-Served :
    {q : QueuePair}
    → IsPair q
    → (q' : QueuePair) × Served q q'
      × ((ram : HostRam)
          → controller_run q ram ≡ (transfers ram (rung q) >>= λ ram'. some (q', ram')))
unfolding controller_run
controller_run-Served {q} v = controller_loop-Served k_size v (omega (arith, length-rung q))

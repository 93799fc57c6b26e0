-- ===== src/Nvme/Batch.antt =====
-- The rounds of the main function of 10_reap.c: submit, ring, run the controller, reap.
use inside_the_cpu_storage_a.Base.{
  ap₂, ℕ, suc, ◌+◌, ◌-◌, ◌%◌, ◌^◌, ◌<◌, ◌≡◌, refl, ap, sym, ◌∙◌, true, Option, none, some, List, [],
  ◌∷◌, ◌++◌, arith, length, length-append, if◌then◌else◌, ◌>>=◌, append-nil, append_assoc,
}
use inside_the_cpu_storage_a.Nvme.{
  SubmissionEntry, QueuePair, HostRam, Event, k_size, read_entry, submit, ring_sq_doorbell,
  controller_run, handle, reap, next, done,
}
use inside_the_cpu_storage_a.Nvme.View.{IsPair, queued, rung, posted, submit_lem}
use inside_the_cpu_storage_a.Nvme.Controller.{transfers, answers, controller_run-Served}
use inside_the_cpu_storage_a.Nvme.Reap.{reports, reap_lem}

-- `submit` for each LBA and buffer in turn
unfoldable pub submit_all : List (ℕ × ℕ) → QueuePair → QueuePair
submit_all [] q = q
submit_all ((lba, buffer) ∷ rs) q = submit_all rs ((submit q lba buffer).0)

-- the host's side, once the controller is done
abbrev pub and_ram : HostRam → QueuePair × ℕ × List Event → QueuePair × HostRam × ℕ × List Event
and_ram ram (q, n, es) = (q, ram, n, es)

abbrev pub and_reap : QueuePair × HostRam → Option (QueuePair × HostRam × ℕ × List Event)
and_reap (q, ram) = reap q >>= λ s. some (and_ram ram s)

-- the pair once all is reaped
abbrev pub reaped_pair : QueuePair → QueuePair
reaped_pair q = record q {
  cq_head = q.cq_tail;
  cq_doorbell = q.cq_tail;
  doorbell_writes = q.doorbell_writes + 1;
}

-- A round: the commands are announced together, served and reaped.
unfoldable pub batch :
    List (ℕ × ℕ) → QueuePair → HostRam → Option (QueuePair × HostRam × ℕ × List Event)
batch rs q ram = controller_run (ring_sq_doorbell (submit_all rs q)) ram >>= and_reap

-- the commands that the requests become, from command id `id` on
abbrev pub reads : ℕ → List (ℕ × ℕ) → List SubmissionEntry
reads id [] = []
reads id ((lba, buffer) ∷ rs) = read_entry id lba buffer ∷ reads ((id + 1) % 2 ^ 16) rs

-- the reports of those commands
abbrev pub dones : ℕ → List (ℕ × ℕ) → List Event
dones id [] = []
dones id (r ∷ rs) = done id ∷ dones ((id + 1) % 2 ^ 16) rs

reports-answers : (h id : ℕ) (rs : List (ℕ × ℕ)) → reports (answers h (reads id rs)) ≡ dones id rs
unfolding handle
reports-answers h id [] = refl
reports-answers h id ((lba, buffer) ∷ rs) =
    ap (λ es. done id ∷ es) (reports-answers (next h) ((id + 1) % 2 ^ 16) rs)

length-reads : (id : ℕ) (rs : List (ℕ × ℕ)) → length (reads id rs) ≡ length rs
length-reads id [] = refl
length-reads id (r ∷ rs) = ap suc (length-reads ((id + 1) % 2 ^ 16) rs)

length-answers : (h : ℕ) (es : List SubmissionEntry) → length (answers h es) ≡ length es
length-answers h [] = refl
length-answers h (e ∷ es) = ap suc (length-answers (next h) es)

-- What a submission with room does.
pub submit-room :
    (q : QueuePair) (lba buffer : ℕ)
    → IsPair q
    → length (queued q) < k_size - 1
    → let (q', accepted) = submit q lba buffer in
      IsPair q'
      × (accepted ≡ true)
      × (queued q' ≡ queued q ++ (read_entry q.next_id lba buffer ∷ []))
      × (rung q' ≡ rung q)
      × (posted q' ≡ posted q)
      × (q'.next_id ≡ (q.next_id + 1) % 2 ^ 16)
      × (q'.doorbell_writes ≡ q.doorbell_writes)
submit-room q lba buffer v room =
    let (pair, acc, more, r, p, id, w) = submit_lem {q = q} lba buffer v in
    let yes : (submit q lba buffer).1 ≡ true = acc ∙ ground arith in
    (
      pair,
      yes,
      more
          ∙ ap (λ b. if b then queued q ++ (read_entry q.next_id lba buffer ∷ []) else queued q)
              yes,
      r,
      p,
      id ∙ ap (λ b. if b then (q.next_id + 1) % 2 ^ 16 else q.next_id) yes,
      w,
    )

-- What submitting the requests `rs` makes of `q`.
pub record Queued (rs : List (ℕ × ℕ)) (q q' : QueuePair) : Type 0 where
  pub pair : IsPair q'
  pub commands : queued q' ≡ queued q ++ reads q.next_id rs
  pub same_rung : rung q' ≡ rung q
  pub same_posted : posted q' ≡ posted q
  pub same_writes : q'.doorbell_writes ≡ q.doorbell_writes

-- On a pair in order, requests for which the submission ring has room are all queued, in order, with ids in sequence;
-- nothing is announced by that, and no doorbell written.
pub submit_all-Queued :
    (rs : List (ℕ × ℕ)) (q : QueuePair)
    → IsPair q
    → length (queued q) + length rs < k_size
    → Queued rs q (submit_all rs q)
unfolding submit_all
submit_all-Queued [] q v room = record {
  pair = v;
  commands = sym (append-nil (queued q));
  same_rung = refl;
  same_posted = refl;
  same_writes = refl;
}
submit_all-Queued ((lba, buffer) ∷ rs) q v room =
    let (pair, acc, more, r, p, id, w) = submit-room q lba buffer v (omega arith) in
    let rest = submit_all-Queued rs ((submit q lba buffer).0) pair (
      omega
        (arith, ap length more, length-append (queued q) (read_entry q.next_id lba buffer ∷ []))) in
    record {
      pair = rest.pair;
      commands =
          rest.commands
          ∙ ap (λ i. queued (submit q lba buffer).0 ++ reads i rs) id
          ∙ ap (λ es. es ++ reads ((q.next_id + 1) % 2 ^ 16) rs) more
          ∙ append_assoc (queued q) (read_entry q.next_id lba buffer ∷ [])
              (reads ((q.next_id + 1) % 2 ^ 16) rs);
      same_rung = rest.same_rung ∙ r;
      same_posted = rest.same_posted ∙ p;
      same_writes = rest.same_writes ∙ w;
    }

ring-IsPair : {q : QueuePair} → IsPair q → IsPair (ring_sq_doorbell q)
unfolding ring_sq_doorbell
ring-IsPair v = record {
  sq_size = v.sq_size;
  cq_size = v.cq_size;
  sq_tail_in = v.sq_tail_in;
  sq_head_in = v.sq_head_in;
  cq_tail_in = v.cq_tail_in;
  cq_head_in = v.cq_head_in;
  doorbell_in = v.sq_tail_in;
  announced = omega arith;
  id_in = v.id_in;
}

-- Writing the doorbell announces every command in the ring, and changes nothing else in the rings.
ring-rung :
    (q : QueuePair)
    → let q' = ring_sq_doorbell q in
      (rung q' ≡ queued q)
      × (queued q' ≡ queued q)
      × (posted q' ≡ posted q)
      × (q'.next_id ≡ q.next_id)
      × (q'.doorbell_writes ≡ q.doorbell_writes + 1)
unfolding ring_sq_doorbell
ring-rung q = (refl, refl, refl, refl, refl)

no_more {ℓ} : {A : Type ℓ} (xs ys : List A) → xs ≡ xs ++ ys → ys ≡ []
no_more xs [] e = refl
no_more xs (y ∷ ys) e =
    let absurd : ⊥ = omega (arith, ap length e, length-append xs (y ∷ ys)) in elim absurd [ ]

abbrev some_round :
    List (ℕ × ℕ) → ℕ → QueuePair → HostRam → Option (QueuePair × HostRam × ℕ × List Event)
some_round rs id q ram = some (q, ram, length rs, dones id rs)

abbrev some_pair : QueuePair → HostRam → Option (QueuePair × HostRam)
some_pair q ram = some (q, ram)

-- What is left of a round once its commands are served.
finish :
    (rs : List (ℕ × ℕ)) (id : ℕ) (h : ℕ) (q : QueuePair)
    → IsPair q
    → posted q ≡ answers h (reads id rs)
    → (o : Option HostRam)
    → (o >>= λ ram. and_reap (q, ram)) ≡ (o >>= λ ram. some_round rs id (reaped_pair q) ram)
finish rs id h q v e none = refl
finish rs id h q v e (some ram) =
    let (run, pair, left) = reap_lem v in
    ap (λ o. o >>= λ s. some (and_ram ram s)) run
    ∙ ap₂ (λ n es. some (reaped_pair q, ram, n, es))
        (ap length e ∙ length-answers h (reads id rs) ∙ length-reads id rs)
        (ap reports e ∙ reports-answers h id rs)

chained :
    (q : QueuePair) (o : Option HostRam)
    → (o >>= (λ ram. some_pair q ram)) >>= and_reap ≡ (o >>= λ ram. and_reap (q, ram))
chained q none = refl
chained q (some ram) = refl

-- A round of at most seven requests on a pair in order with empty rings: the transfers are made in order
-- (the round fails exactly where one would leave the memory), each command is reported done
-- once, in order, none as an error, and both rings are empty again after two doorbell writes.
pub batch_lem :
    (rs : List (ℕ × ℕ)) (q : QueuePair)
    → IsPair q
    → queued q ≡ []
    → posted q ≡ []
    → length rs < k_size
    → (q' : QueuePair) × IsPair q'
      × (queued q' ≡ [])
      × (posted q' ≡ [])
      × (q'.doorbell_writes ≡ q.doorbell_writes + 2)
      × ((ram : HostRam)
          → batch rs q ram ≡ (
              transfers ram (reads q.next_id rs) >>= λ ram'.
              some (q', ram', length rs, dones q.next_id rs)))
unfolding batch
batch_lem rs q v no_queued no_posted room =
    let b : Queued rs q (submit_all rs q) =
      submit_all-Queued rs q v (omega (arith, ap length no_queued)) in
    let (all_rung, same_queued, same_posted, same_id, writes) = ring-rung (submit_all rs q) in
    let (q₂, s, run) = controller_run-Served (ring-IsPair b.pair) in
    let commands : rung (ring_sq_doorbell (submit_all rs q)) ≡ reads q.next_id rs =
      all_rung ∙ b.commands ∙ ap (λ es. es ++ reads q.next_id rs) no_queued in
    let empty : posted (ring_sq_doorbell (submit_all rs q)) ≡ [] =
      same_posted ∙ b.same_posted ∙ no_posted in
    let answered : posted q₂
        ≡ answers (ring_sq_doorbell (submit_all rs q)).sq_head (reads q.next_id rs) =
      s.answered (omega (arith, ap length empty, ap length commands, length-reads q.next_id rs))
      ∙ ap₂ (λ cs es. cs ++ answers (ring_sq_doorbell (submit_all rs q)).sq_head es) empty
          commands in
    let (reaped, pair, left) = reap_lem s.pair in
    (
      reaped_pair q₂,
      pair,
      no_more (rung (ring_sq_doorbell (submit_all rs q))) (queued q₂)
          (all_rung ∙ sym same_queued ∙ s.left),
      left,
      omega (arith, s.same_writes, writes, b.same_writes),
      λ ram.
          ap (λ o. o >>= and_reap) (run ram)
          ∙ chained q₂ (transfers ram (rung (ring_sq_doorbell (submit_all rs q))))
          ∙ finish rs q.next_id (ring_sq_doorbell (submit_all rs q)).sq_head q₂ s.pair answered
              (transfers ram (rung (ring_sq_doorbell (submit_all rs q))))
          ∙ ap (λ es. transfers ram es >>= some_round rs q.next_id (reaped_pair q₂)) commands,
    )

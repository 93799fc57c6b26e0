-- ===== src/Poll/Wait.antt =====
-- How long the loop of 11_poll_model.c waits for a completion.
use inside_the_cpu_storage_a.Base.{
  ℕ, zero, suc, ◌+◌, ◌-◌, ◌*◌, ◌/◌, ◌%◌, ◌^◌, ◌<◌, ◌≡◌, refl, ap, ◌∙◌, Bool, true, false, not, ◌&&◌,
  some, arith, leb, ==_iff, ne→==, if◌then◌else◌, ◌>>=◌,
}
use inside_the_cpu_storage_a.Poll.{
  Command, PolledPair, k_poll_ns, k_device_ns, qp_submit, pass_time, post, qp_device_tick,
  qp_completion_ready, qp_reap, busy_poll,
}

-- A command is in flight, and is done after `k` polls more.
record Waiting (k : ℕ) (q : PolledPair) : Type 0 where
  flies : q.in_flight ≡ true
  nothing_yet : q.cq_head ≡ q.cq_tail
  due : q.done_at_ns ≡ q.now_ns + k_poll_ns * k
  in_time : q.done_at_ns < 2 ^ 64
  tail_in : q.cq_tail < 2 ^ 32

-- the pair once the completion is posted
abbrev pub completed : PolledPair → PolledPair
completed q = post (record q { now_ns = q.done_at_ns })

due_test :
    (q : PolledPair) (b : Bool)
    → q.in_flight ≡ true
    → leb q.done_at_ns (pass_time q).now_ns ≡ b
    → qp_device_tick q ≡ (if b then post (pass_time q) else pass_time q)
unfolding qp_device_tick
due_test q b flies e =
    ap (λ a. if a then post (pass_time q) else pass_time q)
      (ap (λ f. f && leb q.done_at_ns (pass_time q).now_ns) flies ∙ e)

early : {k : ℕ} (q : PolledPair) → Waiting (suc (suc k)) q → qp_device_tick q ≡ pass_time q
early {k} q w = due_test q false w.flies (ground (arith, w.due, w.in_time))

last : (q : PolledPair) → Waiting 1 q → qp_device_tick q ≡ completed q
last q w =
    due_test q true w.flies (ground (arith, w.due, w.in_time))
    ∙ ap (λ t. post (record q { now_ns = t })) (omega (arith, w.due, w.in_time))

still-Waiting : {k : ℕ} {q : PolledPair} → Waiting (suc (suc k)) q → Waiting (suc k) (pass_time q)
still-Waiting {k} {q} w = record {
  flies = w.flies;
  nothing_yet = w.nothing_yet;
  due = omega (arith, w.due, w.in_time);
  in_time = w.in_time;
  tail_in = w.tail_in;
}

not_ready : {k : ℕ} {q : PolledPair} → Waiting k q → qp_completion_ready q ≡ false
not_ready {k} {q} w = ap not ((==_iff q.cq_head q.cq_tail).1 w.nothing_yet)

now_ready : {k : ℕ} {q : PolledPair} → Waiting k q → qp_completion_ready (completed q) ≡ true
now_ready {k} {q} w =
    ap not (ne→== q.cq_head ((q.cq_tail + 1) % 2 ^ 32) (omega (arith, w.nothing_yet, w.tail_in)))

ready_stops :
    (n : ℕ) (q : PolledPair) → qp_completion_ready q ≡ true → busy_poll (suc n) q ≡ some (q, 0)
unfolding busy_poll
ready_stops n q e = rw e refl

-- The loop polls `k + 1` times, and then sees the completion.
busy_poll-Waiting :
    (n k : ℕ) (q : PolledPair)
    → Waiting (suc k) q
    → suc k < n
    → busy_poll n q ≡ some (completed q, suc k)
unfolding busy_poll
busy_poll-Waiting zero k q w h = elim h [ ]
busy_poll-Waiting (suc zero) k q w h = let absurd : ⊥ = omega arith in elim absurd [ ]
busy_poll-Waiting (suc (suc n)) zero q w h = rw (not_ready w) (
    ap (λ o. o >>= λ r. some (r.0, suc r.1))
      (ap (busy_poll (suc n)) (last q w) ∙ ready_stops n (completed q) (now_ready w)))
busy_poll-Waiting (suc (suc n)) (suc k) q w h = rw (not_ready w) (
    ap (λ o. o >>= λ r. some (r.0, suc r.1))
      (ap (busy_poll (suc n)) (early q w)
        ∙ busy_poll-Waiting (suc n) k (pass_time q) (still-Waiting w) (omega arith)))

-- From a pair with nothing to reap and its times far from the end of uint64_t, a submitted command
-- is polled for exactly 4000 times, given that many rounds and one more. The completion that is then
-- reaped has the command's id and status 0, and nothing else is left to reap.
pub busy_poll_lem :
    (n : ℕ) (q : PolledPair) (c : Command)
    → q.cq_head ≡ q.cq_tail
    → q.cq_tail < 2 ^ 32
    → q.now_ns + k_device_ns < 2 ^ 64
    → k_device_ns / k_poll_ns < n
    → (q' : PolledPair) × (busy_poll n (qp_submit q c) ≡ some (q', k_device_ns / k_poll_ns))
      × (q'.now_ns ≡ q.now_ns + k_device_ns)
      × ((qp_reap q').1 ≡ record { command_id = q.sq_tail % 2 ^ 16; status = 0 })
      × (qp_completion_ready (qp_reap q').0 ≡ false)
unfolding qp_submit qp_reap
busy_poll_lem n q c idle tail_in time enough = (
  completed (qp_submit q c),
  busy_poll-Waiting n 3999 (qp_submit q c)
      (record {
        flies = refl;
        nothing_yet = idle;
        due = omega arith;
        in_time = omega arith;
        tail_in = tail_in;
      })
      enough,
  omega arith,
  ap (λ i. record { command_id = i; status = 0 })
      {x = ((q.sq_tail + 1) % 2 ^ 32 + 2 ^ 32 - 1) % 2 ^ 16} (omega arith),
  ap not (
      (==_iff ((q.cq_head + 1) % 2 ^ 32) ((q.cq_tail + 1) % 2 ^ 32)).1
        (ap (λ i. (i + 1) % 2 ^ 32) idle)),
)

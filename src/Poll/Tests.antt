-- ===== src/Poll/Tests.antt =====
-- Runs of 11_poll_model.c.
use inside_the_cpu_storage_a.Base.{◌+◌, ◌/◌, ◌%◌, ◌^◌, ◌≡◌, refl, false, some, arith}
use inside_the_cpu_storage_a.Poll.{
  Command, PolledPair, k_poll_ns, k_device_ns, zero_polled, qp_submit, qp_completion_ready, qp_reap,
  busy_poll, poll_main,
}
use inside_the_cpu_storage_a.Poll.Wait.{busy_poll_lem}

abbrev a_read : Command
a_read = record { opcode = 2; lba = 0; blocks = 8 }

-- the counters are about to wrap around
abbrev old_pair : PolledPair
old_pair = record zero_polled {
  sq_tail = 0xFFFFFFFF;
  cq_head = 0xFFFFFFFF;
  cq_tail = 0xFFFFFFFF;
  now_ns = 1000;
}

busy_poll_lem_example :
    (q' : PolledPair) × (busy_poll 4001 (qp_submit old_pair a_read)
      ≡ some (q', k_device_ns / k_poll_ns))
    × (q'.now_ns ≡ old_pair.now_ns + k_device_ns)
    × ((qp_reap q').1 ≡ record { command_id = old_pair.sq_tail % 2 ^ 16; status = 0 })
    × (qp_completion_ready (qp_reap q').0 ≡ false)
busy_poll_lem_example =
    busy_poll_lem 4001 old_pair a_read refl (omega arith) (omega arith) (omega arith)

poll_exit : poll_main ≡ some (4000, 80, record { command_id = 0; status = 0 }, 2, 0)
unfolding poll_main
poll_exit = refl

-- ===== src/Bpf/Counters/Apart.antt =====
-- democracy-scheduler/src/bpf.rs: the nine counters do not overlap.
use managed_linux_democracy.Prelude.{ℕ, ◌≡◌, arith, eqb, if◌then◌else◌}
use managed_linux_democracy.Bpf.Libbpf.{Libbpf}
use managed_linux_democracy.Bpf.Connection.{BpfScheduler}
use managed_linux_democracy.Bpf.Counters.{
  Ref, nr_running_mut, nr_queued_mut, nr_scheduled_mut, nr_user_dispatches_mut,
  nr_kernel_dispatches_mut, nr_cancel_dispatches_mut, nr_bounce_dispatches_mut,
  nr_failed_dispatches_mut, nr_sched_congested_mut,
}

pub data Counter : Type 0 where
  running queued scheduled user kernel cancel bounce failed congested : Counter

abbrev pub number : Counter → ℕ
number running = 0
number queued = 1
number scheduled = 2
number user = 3
number kernel = 4
number cancel = 5
number bounce = 6
number failed = 7
number congested = 8

module _ (l : Libbpf) where
  -- The accessor of each counter.
  abbrev pub ref : Counter → BpfScheduler l → Ref (BpfScheduler l)
  ref running = nr_running_mut l
  ref queued = nr_queued_mut l
  ref scheduled = nr_scheduled_mut l
  ref user = nr_user_dispatches_mut l
  ref kernel = nr_kernel_dispatches_mut l
  ref cancel = nr_cancel_dispatches_mut l
  ref bounce = nr_bounce_dispatches_mut l
  ref failed = nr_failed_dispatches_mut l
  ref congested = nr_sched_congested_mut l

  -- What is written through the reference that one accessor gives is read by this accessor, and by
  -- none of the other eight.
  pub ref-write :
      (i j : Counter) (s : BpfScheduler l) (n : ℕ)
      → (ref j ((ref i s).write n)).value
        ≡ (if eqb (number i) (number j) then n else (ref j s).value)
  unfolding nr_running_mut nr_queued_mut nr_scheduled_mut nr_user_dispatches_mut
      nr_kernel_dispatches_mut nr_cancel_dispatches_mut nr_bounce_dispatches_mut
      nr_failed_dispatches_mut nr_sched_congested_mut
  ref-write i j s n = ground arith

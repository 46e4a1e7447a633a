-- ===== src/Bpf/Views.antt =====
-- democracy-scheduler/src/bpf.rs as its user sees it: the tasks that are still to come, those that
-- were dispatched, and the counts that the kernel's part was told.
use managed_linux_democracy.Prelude.{ℕ, negsuc, List, map}
use managed_linux_democracy.Bpf.Task.{DispatchedTask}
use managed_linux_democracy.Bpf.Message.{from_bytes, to_queued_task}
use managed_linux_democracy.Bpf.Libbpf.{Libbpf, Event, sample, fault, DispatchedTaskCtx}
use managed_linux_democracy.Bpf.Connection.{BpfScheduler}
use managed_linux_democracy.Scheduler.Connector.{Arrival, task, failure}

-- What `dequeue_task` makes of an event of the ring.
abbrev pub as_arrival : Event → Arrival
as_arrival (sample d) = task (to_queued_task (from_bytes d))
as_arrival (fault n) = failure (negsuc n)

-- What the kernel's part reads of a submitted structure.
abbrev pub as_dispatched : DispatchedTaskCtx → DispatchedTask
as_dispatched c = record {
  pid = c.pid;
  cpu = c.cpu;
  flags = c.flags;
  slice_ns = c.slice_ns;
  cpumask_cnt = c.cpumask_cnt;
}

module _ (l : Libbpf) where
  abbrev pub queue : BpfScheduler l → List Arrival
  queue s = map as_arrival (l.events s.queued)

  abbrev pub sent : BpfScheduler l → List DispatchedTask
  sent s = map as_dispatched (l.sent s.dispatched)

  abbrev pub told : BpfScheduler l → ℕ × ℕ
  told s = (s.bss.nr_queued, s.bss.nr_scheduled)

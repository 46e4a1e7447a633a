-- ===== src/Bpf/Connection.antt =====
-- democracy-scheduler/src/bpf.rs: `BpfScheduler`, the queue of tasks from the kernel and the queue
-- of decisions to it.
use managed_linux_democracy.Prelude.{
  ℕ, zero, suc, ℤ, pos, negsuc, eqb, if◌then◌else◌, Bool, length, List, Option, none, some, Result,
  ok, err, Outcome, returned, panicked,
}
use managed_linux_democracy.Bpf.Task.{QueuedTask, DispatchedTask}
use managed_linux_democracy.Bpf.Message.{Bytes, from_bytes, to_queued_task}
use managed_linux_democracy.Bpf.Libbpf.{Libbpf, DispatchedTaskCtx, dispatched_size, queued_size}

-- The variables of the kernel's part that the scheduler reads and writes.
pub record Bss : Type 0 where
  pub usersched_pid : ℕ
  pub nr_running : ℕ
  pub nr_queued : ℕ
  pub nr_scheduled : ℕ
  pub nr_user_dispatches : ℕ
  pub nr_kernel_dispatches : ℕ
  pub nr_cancel_dispatches : ℕ
  pub nr_bounce_dispatches : ℕ
  pub nr_failed_dispatches : ℕ
  pub nr_sched_congested : ℕ
  pub cpu_map : List ℕ

-- What `init` sets before the kernel's part is loaded: the read-only variables, and the fields of
-- its `struct sched_ext_ops`.
pub record Config : Type 0 where
  pub num_possible_cpus : ℤ
  pub ops_flags : ℕ
  pub exit_dump_len : ℕ
  pub slice_ns : ℕ
  pub switch_partial : Bool
  pub debug : Bool
  pub full_user : Bool
  pub low_power : Bool
  pub fifo_sched : Bool

-- `buf` is the static `BUF`, of `queued_size` bytes.
pub record BpfScheduler (l : Libbpf) : Type 0 where
  pub config : Config
  pub bss : Bss
  pub queued : l.Ring
  pub dispatched : l.UserRing
  pub struct_ops : Option l.Link
  pub buf : Bytes

-- `LIBBPF_STOP`, -255.
abbrev pub libbpf_stop : ℤ
libbpf_stop = negsuc 254

-- The callback of `init`: `copy_from_slice` panics on a slice of another length.
unfoldable pub callback : Bytes → Bytes → Option (ℤ × Bytes)
callback slice buf = if eqb (length slice) queued_size then some (libbpf_stop, slice) else none

-- The `match` of `dequeue_task` on the code that `consume_raw` returned.
unfoldable pub received_task : ℤ → Bytes → Outcome (Result (Option QueuedTask) ℤ)
received_task (pos zero) buf = returned (ok none)
received_task (pos (suc n)) buf = panicked
received_task (negsuc n) buf =
    if eqb n 254
    then returned (ok (some (to_queued_task (from_bytes buf))))
    else returned (err (negsuc n))

-- The assignments of `dispatch_task` to the structure in the sample.
abbrev pub fill : DispatchedTask → DispatchedTaskCtx → DispatchedTaskCtx
fill task ctx = record ctx {
  pid = task.pid;
  cpu = task.cpu;
  flags = task.flags;
  cpumask_cnt = task.cpumask_cnt;
  slice_ns = task.slice_ns;
}

abbrev set_queued : Option ℕ → Bss → Bss
set_queued none b = b
set_queued (some n) b = record b { nr_queued = n }

abbrev set_scheduled : Option ℕ → Bss → Bss
set_scheduled none b = b
set_scheduled (some n) b = record b { nr_scheduled = n }

module _ (l : Libbpf) where
  unfoldable pub update_tasks : Option ℕ → Option ℕ → BpfScheduler l → BpfScheduler l
  update_tasks nr_queued nr_scheduled s = record s {
    bss = set_scheduled nr_scheduled (set_queued nr_queued s.bss);
  }

  unfoldable pub dequeue_task :
      BpfScheduler l → BpfScheduler l × Outcome (Result (Option QueuedTask) ℤ)
  dequeue_task s = elim (l.consume_raw callback s.queued s.buf) [
    | none ↦ (s, panicked)
    | some (res, buf, queued) ↦ (record s { queued = queued; buf = buf }, received_task res buf)
  ]

  unfoldable pub dispatch_task :
      DispatchedTask → BpfScheduler l → BpfScheduler l × Outcome (Result (Unit {0}) l.Error)
  dispatch_task task s = elim (l.reserve dispatched_size s.dispatched) [
    | err e ↦ (s, returned (err e))
    | ok (urb_sample, reserved) ↦ elim (l.from_mut_bytes urb_sample) [
      | none ↦ (record s { dispatched = reserved }, panicked)
      | some ctx ↦ elim (l.submit (l.store (fill task ctx) urb_sample) reserved) [
        | none ↦ (record s { dispatched = reserved }, panicked)
        | some submitted ↦ (record s { dispatched = submitted }, returned (ok tt))
      ]
    ]
  ]

  -- `shutdown_and_report` and `drop` take the link, which disconnects the kernel's part; a second
  -- call finds none.
  unfoldable pub take_struct_ops : BpfScheduler l → BpfScheduler l × Option l.Link
  take_struct_ops s = (record s { struct_ops = none }, s.struct_ops)

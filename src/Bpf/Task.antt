-- ===== src/Bpf/Task.antt =====
-- democracy-scheduler/src/bpf.rs: the tasks that come from the kernel and go back to it.
use Prim.Native.Nat.{bit_or}
use managed_linux_democracy.Prelude.{ℕ, ℤ}

pub record QueuedTask : Type 0 where
  pub pid : ℤ
  pub cpu : ℤ
  pub sum_exec_runtime : ℕ
  pub nvcsw : ℕ
  pub weight : ℕ
  pub cpumask_cnt : ℕ

pub record DispatchedTask : Type 0 where
  pub pid : ℤ
  pub cpu : ℤ
  pub flags : ℕ
  pub slice_ns : ℕ
  pub cpumask_cnt : ℕ

-- `DispatchedTask::new`, and the setters.
unfoldable pub new_task : QueuedTask → DispatchedTask
new_task task = record {
  pid = task.pid;
  cpu = task.cpu;
  flags = 0;
  slice_ns = 0;
  cpumask_cnt = task.cpumask_cnt;
}

unfoldable pub set_cpu : ℤ → DispatchedTask → DispatchedTask
set_cpu cpu task = record task { cpu = cpu }

unfoldable pub set_flag : ℕ → DispatchedTask → DispatchedTask
set_flag flag task = record task { flags = bit_or task.flags flag }

unfoldable pub set_slice_ns : ℕ → DispatchedTask → DispatchedTask
set_slice_ns slice_ns task = record task { slice_ns = slice_ns }

-- ===== src/Bpf/Message.antt =====
-- democracy-scheduler/src/bpf.rs: `EnqueuedMessage`, a task read from the bytes of the ring buffer.
-- The layout is that of `struct queued_task_ctx` in democracy-scheduler/intf.h, on a little-endian
-- machine: two `s32` and four `u64`, with no padding.
pub mod Inverse
use mathlib.Core.List.{append_assoc}
use native.Mathlib.Nat.{pow-suc}
use managed_linux_democracy.Prelude.{
  ap, ℕ, zero, suc, ◌+◌, ◌-◌, ◌*◌, ◌/◌, ◌%◌, ◌^◌, ◌<◌, ◌≡◌, arith, if◌then◌else◌, ltb, ℤ, pos,
  negsuc, List, [], ◌∷◌, ◌++◌,
}
use managed_linux_democracy.Bpf.Task.{QueuedTask}

abbrev pub Bytes : Type 0
Bytes = List ℕ

-- `struct queued_task_ctx`
pub record QueuedTaskCtx : Type 0 where
  pub pid : ℤ
  pub cpu : ℤ
  pub cpumask_cnt : ℕ
  pub sum_exec_runtime : ℕ
  pub nvcsw : ℕ
  pub weight : ℕ

-- The first `k` bytes as a number, the lowest first, and the bytes behind them. Bytes that are
-- missing read as 0; the buffer always has enough.
unfoldable pub read : ℕ → Bytes → ℕ × Bytes
read zero bytes = (0, bytes)
read (suc k) [] = (0, [])
read (suc k) (b ∷ bytes) = let (n, rest) = read k bytes in (b + 256 * n, rest)

-- An `s32` from its bit pattern, and the pattern.
abbrev pub signed : ℕ → ℤ
signed w = if ltb w (2 ^ 31) then pos w else negsuc (2 ^ 32 - 1 - w)

abbrev pub pattern_of : ℤ → ℕ
pattern_of (pos n) = n
pattern_of (negsuc n) = 2 ^ 32 - 1 - n

pub record EnqueuedMessage : Type 0 where
  pub inner : QueuedTaskCtx

unfoldable pub from_bytes : Bytes → EnqueuedMessage
from_bytes bytes =
    let (pid, bytes₁) = read 4 bytes in
    let (cpu, bytes₂) = read 4 bytes₁ in
    let (cpumask_cnt, bytes₃) = read 8 bytes₂ in
    let (sum_exec_runtime, bytes₄) = read 8 bytes₃ in
    let (nvcsw, bytes₅) = read 8 bytes₄ in
    let (weight, bytes₆) = read 8 bytes₅ in
    record {
      inner = record {
        pid = signed pid;
        cpu = signed cpu;
        cpumask_cnt = cpumask_cnt;
        sum_exec_runtime = sum_exec_runtime;
        nvcsw = nvcsw;
        weight = weight;
      };
    }

unfoldable pub to_queued_task : EnqueuedMessage → QueuedTask
to_queued_task m = record {
  pid = m.inner.pid;
  cpu = m.inner.cpu;
  cpumask_cnt = m.inner.cpumask_cnt;
  sum_exec_runtime = m.inner.sum_exec_runtime;
  nvcsw = m.inner.nvcsw;
  weight = m.inner.weight;
}

-- What the kernel puts into the ring buffer: `n` in `k` bytes.
unfoldable pub write : ℕ → ℕ → Bytes
write zero n = []
write (suc k) n = n % 256 ∷ write k (n / 256)

-- The bytes of a task's message.
unfoldable pub to_bytes : QueuedTask → Bytes
to_bytes t =
    write 4 (pattern_of t.pid)
    ++ write 4 (pattern_of t.cpu)
    ++ write 8 t.cpumask_cnt
    ++ write 8 t.sum_exec_runtime
    ++ write 8 t.nvcsw
    ++ write 8 t.weight

-- An `s32` is in range.
abbrev pub IsI32 : ℤ → Type 0
IsI32 (pos n) = n < 2 ^ 31
IsI32 (negsuc n) = n < 2 ^ 31

-- The fields are in the range of their C types.
pub record IsInRange (t : QueuedTask) : Type 0 where
  pub pid_fits : IsI32 t.pid
  pub cpu_fits : IsI32 t.cpu
  pub cpumask_cnt_fits : t.cpumask_cnt < 2 ^ 64
  pub sum_exec_runtime_fits : t.sum_exec_runtime < 2 ^ 64
  pub nvcsw_fits : t.nvcsw < 2 ^ 64
  pub weight_fits : t.weight < 2 ^ 64

read-write : (k n : ℕ) (rest : Bytes) → n < 256 ^ k → read k (write k n ++ rest) ≡ (n, rest)
unfolding read write
read-write zero n rest h = let e : n ≡ 0 = omega arith in rw e
read-write (suc k) n rest h =
    rw (read-write k (n / 256) rest (omega (arith, pow-suc 256 k)))
      (ap (λ m. (m, rest)) (omega arith))

signed-pattern_of : (z : ℤ) → IsI32 z → signed (pattern_of z) ≡ z
signed-pattern_of (pos n) h = ground arith
signed-pattern_of (negsuc n) h = ground arith

pattern_of-lt : (z : ℤ) → IsI32 z → pattern_of z < 256 ^ 4
pattern_of-lt (pos n) h = omega arith
pattern_of-lt (negsuc n) h = omega arith

-- A task with fields in the range of their types is read back from its message as it was, whatever
-- bytes stand behind the message in the buffer.
pub to_queued_task-from_bytes :
    (t : QueuedTask) (rest : Bytes)
    → IsInRange t
    → to_queued_task (from_bytes (to_bytes t ++ rest)) ≡ t
unfolding to_queued_task from_bytes to_bytes
to_queued_task-from_bytes t rest r = simp append_assoc (
    rw (
      read-write 4 (pattern_of t.pid) _ (pattern_of-lt t.pid r.pid_fits),
      read-write 4 (pattern_of t.cpu) _ (pattern_of-lt t.cpu r.cpu_fits),
      read-write 8 t.cpumask_cnt _ (omega arith),
      read-write 8 t.sum_exec_runtime _ (omega arith),
      read-write 8 t.nvcsw _ (omega arith),
      read-write 8 t.weight _ (omega arith),
      signed-pattern_of t.pid r.pid_fits,
      signed-pattern_of t.cpu r.cpu_fits,
    ))

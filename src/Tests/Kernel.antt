-- ===== src/Tests/Kernel.antt =====
-- Libraries and data for the tests: rings that are lists, ASCII text, and a few tasks.
use managed_linux_democracy.Prelude.{
  ℕ, ◌<◌, ◌^◌, ◌≡◌, refl, sym, subst, inl, arith, false, ℤ, pos, negsuc, List, [], ◌∷◌, ◌++◌, All,
  Option, none, some, Result, ok,
}
use managed_linux_democracy.Prelude.Text.{Unicode}
use managed_linux_democracy.Bpf.Task.{QueuedTask}
use managed_linux_democracy.Bpf.Message.{IsInRange, Bytes, to_bytes, write}
use managed_linux_democracy.Bpf.Libbpf.{Libbpf, Event, sample, fault, IsExpected, DispatchedTaskCtx}
use managed_linux_democracy.Bpf.Connection.{Bss, Config, BpfScheduler}

-- Unicode's lower case without its letters: a character outside ASCII stays.
abbrev pub ascii_only : Unicode
ascii_only = record { lower = λ before c after. c ∷ []; lower_starts = λ before c after h. inl h }

-- A ring holds events that the kernel's part may submit.
abbrev pub Ring : Type 0
Ring = (es : List Event) × All IsExpected es

abbrev pub consume : (Bytes → Bytes → Option (ℤ × Bytes)) → Ring → Bytes → Option (ℤ × Bytes × Ring)
consume cb ([], e) buf = some (pos 0, buf, ([], e))
consume cb (fault n ∷ es, e) buf = some (negsuc n, buf, (es, e.1))
consume cb (sample d ∷ es, e) buf = elim (cb d buf) [
  | none ↦ none
  | some (code, buf') ↦ some (code, buf', (es, e.1))
]

abbrev pub blank : DispatchedTaskCtx
blank = record { pid = pos 0; cpu = pos 0; flags = 0; cpumask_cnt = 0; slice_ns = 0 }

pub consume_empty :
    (cb : Bytes → Bytes → Option (ℤ × Bytes)) (r : Ring) (buf : Bytes)
    → r.0 ≡ []
    → (r' : Ring) × (consume cb r buf ≡ some (pos 0, buf, r'))
consume_empty cb ([], e) buf h = (([], e), refl)
consume_empty cb (x ∷ es, e) buf h = absurd (ground arith)

pub consume_sample :
    (cb : Bytes → Bytes → Option (ℤ × Bytes)) (r : Ring) (buf d : Bytes) (es : List Event) (n : ℕ)
    (buf' : Bytes)
    → r.0 ≡ sample d ∷ es
    → cb d buf ≡ some (negsuc n, buf')
    → (r' : Ring) × (consume cb r buf ≡ some (negsuc n, buf', r')) × (r'.0 ≡ es)
consume_sample cb ([], e) buf d es n buf' h k = absurd (ground arith)
consume_sample cb (fault m ∷ xs, e) buf d es n buf' h k = absurd (ground arith)
consume_sample cb (sample b ∷ xs, e) buf d es n buf' h k =
    let same : b ≡ d = cc in
    let copied : cb b buf ≡ some (negsuc n, buf') =
      subst (λ x. cb x buf ≡ some (negsuc n, buf')) (sym same) k in
    ((xs, e.1), rw (copied, consume), cc)

pub consume_fault :
    (cb : Bytes → Bytes → Option (ℤ × Bytes)) (r : Ring) (buf : Bytes) (n : ℕ) (es : List Event)
    → r.0 ≡ fault n ∷ es
    → (r' : Ring) × (consume cb r buf ≡ some (negsuc n, buf, r')) × (r'.0 ≡ es)
consume_fault cb ([], e) buf n es h = absurd (ground arith)
consume_fault cb (sample b ∷ xs, e) buf n es h = absurd (ground arith)
consume_fault cb (fault m ∷ xs, e) buf n es h = let same : m ≡ n = cc in ((xs, e.1), rw same, cc)

-- The user ring is never full.
abbrev pub reserve :
    ℕ → List DispatchedTaskCtx → Result (DispatchedTaskCtx × List DispatchedTaskCtx) ℕ
reserve n r = ok (blank, r)

pub reserve_fits :
    (r r' : List DispatchedTaskCtx) (x : DispatchedTaskCtx)
    → reserve 32 r ≡ ok (x, r')
    → (r' ≡ r) × ((c : DispatchedTaskCtx) × (some x ≡ some c))
reserve_fits r r' x h = (ground arith, (x, refl))

abbrev pub lists : Libbpf
lists = record {
  Ring = Ring;
  UserRing = List DispatchedTaskCtx;
  Sample = DispatchedTaskCtx;
  Link = Unit;
  Error = ℕ;
  consume_raw = consume;
  reserve = reserve;
  submit = λ x r. some (r ++ x ∷ []);
  from_mut_bytes = some;
  store = λ c x. c;
  events = λ r. r.0;
  sent = λ r. r;
  expected = λ r. r.1;
  consume_empty = consume_empty;
  consume_sample = consume_sample;
  consume_fault = consume_fault;
  reserve_fits = reserve_fits;
  submit_sends = λ r r' x c h. (r' ++ c ∷ [], refl, refl);
}

-- A task of each competitor's process, of which the first runs as pid 10 and the second as pid 20.
abbrev pub task_of : ℕ → QueuedTask
task_of n = record {
  pid = pos n;
  cpu = pos 1;
  sum_exec_runtime = 5;
  nvcsw = 6;
  weight = 100;
  cpumask_cnt = 7;
}

pub task_of-IsInRange : (n : ℕ) → n < 2 ^ 31 → IsInRange (task_of n)
task_of-IsInRange n h = record {
  pid_fits = h;
  cpu_fits = omega arith;
  cpumask_cnt_fits = omega arith;
  sum_exec_runtime_fits = omega arith;
  nvcsw_fits = omega arith;
  weight_fits = omega arith;
}

abbrev pub zero_bss : Bss
zero_bss = record {
  usersched_pid = 0;
  nr_running = 0;
  nr_queued = 3;
  nr_scheduled = 3;
  nr_user_dispatches = 0;
  nr_kernel_dispatches = 0;
  nr_cancel_dispatches = 0;
  nr_bounce_dispatches = 0;
  nr_failed_dispatches = 0;
  nr_sched_congested = 0;
  cpu_map = [];
}

abbrev pub zero_config : Config
zero_config = record {
  num_possible_cpus = pos 0;
  ops_flags = 1;
  exit_dump_len = 0;
  slice_ns = 0;
  switch_partial = false;
  debug = false;
  full_user = false;
  low_power = false;
  fifo_sched = false;
}

-- The messages of a foreign task, of the first competitor's and, after a failure, of the second's.
abbrev pub arrivals : List Event
arrivals =
    sample (to_bytes (task_of 30))
    ∷ sample (to_bytes (task_of 10))
    ∷ fault 4
    ∷ sample (to_bytes (task_of 20))
    ∷ []

pub arrivals-IsExpected : All IsExpected arrivals
unfolding to_bytes write
arrivals-IsExpected = omega arith

abbrev pub connection : Ring → BpfScheduler lists
connection queued = record {
  config = zero_config;
  bss = zero_bss;
  queued = queued;
  dispatched = [];
  struct_ops = some tt;
  buf = [];
}

abbrev pub idle : BpfScheduler lists
idle = connection ([], tt)

abbrev pub busy : BpfScheduler lists
busy = connection (arrivals, arrivals-IsExpected)

-- ===== src/Bpf/Counters.antt =====
-- democracy-scheduler/src/bpf.rs: the accessors of the kernel part's counters and of its CPU map.
pub mod Apart
use managed_linux_democracy.Prelude.{
  ℕ, zero, suc, ◌≡◌, refl, ℤ, pos, negsuc, List, [], ◌∷◌, Option, none, some,
}
use managed_linux_democracy.Bpf.Libbpf.{Libbpf}
use managed_linux_democracy.Bpf.Connection.{BpfScheduler, update_tasks}

-- A `&mut u64`: the value behind it, and the owner after a write through it.
pub record Ref (S : Type 0) : Type 0 where
  pub value : ℕ
  pub write : ℕ → S

module _ (l : Libbpf) where
  unfoldable pub nr_running_mut : BpfScheduler l → Ref (BpfScheduler l)
  nr_running_mut s = record {
    value = s.bss.nr_running;
    write = λ n. record s { bss = record (s.bss) { nr_running = n } };
  }

  unfoldable pub nr_queued_mut : BpfScheduler l → Ref (BpfScheduler l)
  nr_queued_mut s = record {
    value = s.bss.nr_queued;
    write = λ n. record s { bss = record (s.bss) { nr_queued = n } };
  }

  unfoldable pub nr_scheduled_mut : BpfScheduler l → Ref (BpfScheduler l)
  nr_scheduled_mut s = record {
    value = s.bss.nr_scheduled;
    write = λ n. record s { bss = record (s.bss) { nr_scheduled = n } };
  }

  unfoldable pub nr_user_dispatches_mut : BpfScheduler l → Ref (BpfScheduler l)
  nr_user_dispatches_mut s = record {
    value = s.bss.nr_user_dispatches;
    write = λ n. record s { bss = record (s.bss) { nr_user_dispatches = n } };
  }

  unfoldable pub nr_kernel_dispatches_mut : BpfScheduler l → Ref (BpfScheduler l)
  nr_kernel_dispatches_mut s = record {
    value = s.bss.nr_kernel_dispatches;
    write = λ n. record s { bss = record (s.bss) { nr_kernel_dispatches = n } };
  }

  unfoldable pub nr_cancel_dispatches_mut : BpfScheduler l → Ref (BpfScheduler l)
  nr_cancel_dispatches_mut s = record {
    value = s.bss.nr_cancel_dispatches;
    write = λ n. record s { bss = record (s.bss) { nr_cancel_dispatches = n } };
  }

  unfoldable pub nr_bounce_dispatches_mut : BpfScheduler l → Ref (BpfScheduler l)
  nr_bounce_dispatches_mut s = record {
    value = s.bss.nr_bounce_dispatches;
    write = λ n. record s { bss = record (s.bss) { nr_bounce_dispatches = n } };
  }

  unfoldable pub nr_failed_dispatches_mut : BpfScheduler l → Ref (BpfScheduler l)
  nr_failed_dispatches_mut s = record {
    value = s.bss.nr_failed_dispatches;
    write = λ n. record s { bss = record (s.bss) { nr_failed_dispatches = n } };
  }

  unfoldable pub nr_sched_congested_mut : BpfScheduler l → Ref (BpfScheduler l)
  nr_sched_congested_mut s = record {
    value = s.bss.nr_sched_congested;
    write = λ n. record s { bss = record (s.bss) { nr_sched_congested = n } };
  }

  abbrev pub written :
      Option ℕ → (BpfScheduler l → Ref (BpfScheduler l)) → BpfScheduler l → BpfScheduler l
  written none ref s = s
  written (some n) ref s = (ref s).write n

  -- `update_tasks` writes through the two references, each where a count is given.
  pub update_tasks-written :
      (q n : Option ℕ) (s : BpfScheduler l)
      → update_tasks l q n s ≡ written n nr_scheduled_mut (written q nr_queued_mut s)
  unfolding update_tasks nr_scheduled_mut nr_queued_mut
  update_tasks-written none none s = refl
  update_tasks-written none (some n) s = refl
  update_tasks-written (some q) none s = refl
  update_tasks-written (some q) (some n) s = refl

  entry_at : List ℕ → ℕ → Option ℕ
  entry_at [] i = none
  entry_at (x ∷ xs) zero = some x
  entry_at (x ∷ xs) (suc i) = entry_at xs i

  -- `get_cpu_pid`; `none` is a read outside the map, which is undefined behaviour.
  unfoldable pub get_cpu_pid : ℤ → BpfScheduler l → Option ℕ
  unfolding entry_at
  get_cpu_pid (pos cpu) s = entry_at s.bss.cpu_map cpu
  get_cpu_pid (negsuc _) s = none

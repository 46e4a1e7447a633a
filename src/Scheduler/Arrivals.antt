-- ===== src/Scheduler/Arrivals.antt =====
-- democracy-scheduler/src/main.rs over democracy-scheduler/src/bpf.rs: from the kernel's messages to
-- the tasks that `schedule` knows.
use mathlib.Core.List.{append-nil}
use managed_linux_democracy.Prelude.{
  ℕ, suc, ◌<◌, ◌≡◌, refl, sym, ap, ◌∙◌, subst, arith, nat_eq, length, All, List, [], ◌∷◌, map, some,
  returned,
}
use managed_linux_democracy.Prelude.Map.{get}
use managed_linux_democracy.Bpf.Task.{QueuedTask}
use managed_linux_democracy.Bpf.Message.{
  IsInRange, to_bytes, from_bytes, to_queued_task, to_queued_task-from_bytes,
}
use managed_linux_democracy.Bpf.Libbpf.{Libbpf, Event, sample}
use managed_linux_democracy.Bpf.Connection.{BpfScheduler}
use managed_linux_democracy.Bpf.Views.{as_arrival, queue, sent}
use managed_linux_democracy.Bpf.Implements.{bpf_connector}
use managed_linux_democracy.Scheduler.Connector.{task}
use managed_linux_democracy.Scheduler.Drain.{TaskMap, tracked, drain, drain-ends}

-- The messages of tasks.
abbrev pub messages : List QueuedTask → List Event
messages [] = []
messages (t ∷ ts) = sample (to_bytes t) ∷ messages ts

read_back : (t : QueuedTask) → IsInRange t → to_queued_task (from_bytes (to_bytes t)) ≡ t
read_back t fits =
    ap (λ b. to_queued_task (from_bytes b)) (sym (append-nil (to_bytes t)))
    ∙ to_queued_task-from_bytes t [] fits

arrivals_of : (ts : List QueuedTask) → All IsInRange ts → map as_arrival (messages ts) ≡ map task ts
arrivals_of [] fits = refl
arrivals_of (t ∷ ts) fits = rw (read_back t fits.0, arrivals_of ts fits.1)

length_arrivals : (ts : List QueuedTask) → length (map task ts) ≡ length ts
length_arrivals [] = refl
length_arrivals (t ∷ ts) = ap suc (length_arrivals ts)

module _ (l : Libbpf) where
  -- If the kernel's part has submitted the messages of some tasks, with fields in the range of their
  -- types, then the first loop of `schedule`, with more fuel than there are messages, leaves the map
  -- with the same pids as before, each with its last one of these very tasks or else what it had,
  -- and has dispatched nothing.
  pub drain-messages :
      (fuel : ℕ) (ts : List QueuedTask) (bpf : BpfScheduler l) (m : TaskMap)
      → l.events bpf.queued ≡ messages ts
      → All IsInRange ts
      → length ts < fuel
      → (bpf' : BpfScheduler l) × (m' : TaskMap) × (drain (bpf_connector l) fuel bpf m
          ≡ some (returned (bpf', m')))
        × ((pid : ℕ) → get pid m' ≡ tracked pid (map task ts) (get pid m))
        × (sent l bpf' ≡ sent l bpf)
  drain-messages fuel ts bpf m submitted fits enough =
      let arrived : queue l bpf ≡ map task ts =
        ap (map as_arrival) submitted ∙ arrivals_of ts fits in
      let (bpf', m', ends, entries, kept, told) =
        drain-ends (bpf_connector l) fuel bpf m
          (subst (λ q. length q < fuel) (sym arrived) (omega (arith, length_arrivals ts))) in
      (
        bpf',
        m',
        ends,
        λ pid. subst (λ q. get pid m' ≡ tracked pid q (get pid m)) arrived (entries pid),
        kept,
      )

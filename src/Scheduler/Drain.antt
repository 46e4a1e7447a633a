-- ===== src/Scheduler/Drain.antt =====
-- democracy-scheduler/src/main.rs: the first loop of `schedule`, which empties the queue of tasks.
use managed_linux_democracy.Prelude.{
  ℕ, zero, suc, ◌<◌, ◌≡◌, refl, ◌∙◌, arith, if◌then◌else◌, nat_eq, eqb, ℤ, as_u32, length, List, [],
  ◌∷◌, Option, none, some, ok, err, Outcome, returned, panicked,
}
use managed_linux_democracy.Prelude.Map.{Map, get, contains_key, insert, get-insert}
use managed_linux_democracy.Bpf.Task.{QueuedTask}
use managed_linux_democracy.Scheduler.Connector.{Connector, Arrival, task, failure}

pub record Task : Type 0 where
  pub vruntime : ℕ
  pub queued_task : QueuedTask

-- `task_map`: the pids that matter, each with its task once it has arrived.
abbrev pub TaskMap : Type 0
TaskMap = Map ℕ (Option Task)

abbrev pub fresh : QueuedTask → Task
fresh t = record { vruntime = 0; queued_task = t }

-- The arm for a task: it is kept if its pid is a key of the map.
unfoldable pub keep_task : QueuedTask → TaskMap → TaskMap
keep_task t m =
    if contains_key (as_u32 t.pid) m then insert (as_u32 t.pid) (some (fresh t)) m else m

module _ (c : Connector) where
  -- The loop, with fuel for its rounds; `none` is a loop that still goes on.
  unfoldable pub drain : ℕ → c.State → TaskMap → Option (Outcome (c.State × TaskMap))
  drain zero bpf task_map = none
  drain (suc fuel) bpf task_map =
      let (bpf', found) = c.dequeue_task bpf in
      elim found [
        | panicked ↦ some panicked
        | returned (ok (some t)) ↦ drain fuel bpf' (keep_task t task_map)
        | returned (ok none) ↦ some (returned (c.update_tasks (some 0) (some 0) bpf', task_map))
        | returned (err _) ↦ drain fuel bpf' task_map
      ]

-- The tasks of the queue put into the map one after another; failures are skipped.
pub absorb : List Arrival → TaskMap → TaskMap
absorb [] m = m
absorb (task t ∷ q) m = absorb q (keep_task t m)
absorb (failure _ ∷ q) m = absorb q m

-- What a pid has in the end that had `old`: its last task of the queue, with no run time yet.
abbrev pub latest : ℕ → List Arrival → Option Task → Option Task
latest pid [] old = old
latest pid (task t ∷ q) old = latest pid q (if eqb pid (as_u32 t.pid) then some (fresh t) else old)
latest pid (failure _ ∷ q) old = latest pid q old

abbrev pub tracked : ℕ → List Arrival → Option (Option Task) → Option (Option Task)
tracked pid q none = none
tracked pid q (some old) = some (latest pid q old)

tracked-task :
    (pid : ℕ) (t : QueuedTask) (q : List Arrival) (m : TaskMap)
    → tracked pid q (get pid (keep_task t m)) ≡ tracked pid (task t ∷ q) (get pid m)
unfolding keep_task contains_key
tracked-task pid t q m = ground (arith, get-insert pid (as_u32 t.pid) (some (fresh t)) m)

pub get-absorb :
    (pid : ℕ) (q : List Arrival) (m : TaskMap) → get pid (absorb q m) ≡ tracked pid q (get pid m)
unfolding absorb
get-absorb pid [] m = ground arith
get-absorb pid (task t ∷ q) m = get-absorb pid q (keep_task t m) ∙ tracked-task pid t q m
get-absorb pid (failure e ∷ q) m = get-absorb pid q m ∙ ground arith

module _ (c : Connector) where
  drain_end :
      (fuel : ℕ) (bpf bpf' : c.State) (m : TaskMap)
      → c.dequeue_task bpf ≡ (bpf', returned (ok none))
      → drain c (suc fuel) bpf m ≡ some (returned (c.update_tasks (some 0) (some 0) bpf', m))
  unfolding drain
  drain_end fuel bpf bpf' m e = ground arith

  drain_task :
      (fuel : ℕ) (bpf bpf' : c.State) (m : TaskMap) (t : QueuedTask)
      → c.dequeue_task bpf ≡ (bpf', returned (ok (some t)))
      → drain c (suc fuel) bpf m ≡ drain c fuel bpf' (keep_task t m)
  unfolding drain
  drain_task fuel bpf bpf' m t e = ground arith

  drain_failure :
      (fuel : ℕ) (bpf bpf' : c.State) (m : TaskMap) (x : ℤ)
      → c.dequeue_task bpf ≡ (bpf', returned (err x))
      → drain c (suc fuel) bpf m ≡ drain c fuel bpf' m
  unfolding drain
  drain_failure fuel bpf bpf' m x e = ground arith

  drain-Drained_at :
      (fuel : ℕ) (q : List Arrival) (bpf : c.State) (m : TaskMap)
      → c.queue bpf ≡ q
      → length q < fuel
      → (bpf' : c.State) × (drain c fuel bpf m ≡ some (returned (bpf', absorb q m)))
        × (c.sent bpf' ≡ c.sent bpf)
        × (c.told bpf' ≡ (0, 0))
  unfolding absorb
  drain-Drained_at zero q bpf m e h = absurd (omega arith)
  drain-Drained_at (suc fuel) [] bpf m e h =
      let (bpf', done, kept) = c.dequeue-end bpf e in
      (
        c.update_tasks (some 0) (some 0) bpf',
        drain_end fuel bpf bpf' m done,
        c.sent-update_tasks (some 0) (some 0) bpf' ∙ kept,
        c.told-update_tasks 0 0 bpf',
      )
  drain-Drained_at (suc fuel) (task t ∷ q) bpf m e h =
      let (bpf', done, rest, kept) = c.dequeue-task bpf t q e in
      let (bpf'', ends, kept', told) =
        drain-Drained_at fuel q bpf' (keep_task t m) rest (omega arith) in
      (bpf'', drain_task fuel bpf bpf' m t done ∙ ends, kept' ∙ kept, told)
  drain-Drained_at (suc fuel) (failure x ∷ q) bpf m e h =
      let (bpf', done, rest, kept) = c.dequeue-failure bpf x q e in
      let (bpf'', ends, kept', told) = drain-Drained_at fuel q bpf' m rest (omega arith) in
      (bpf'', drain_failure fuel bpf bpf' m x done ∙ ends, kept' ∙ kept, told)

  -- With more fuel than the queue has entries the loop ends, without a panic and without a dispatch.
  -- It has told the kernel's part that nothing is queued or scheduled, and the map has the same pids
  -- as before, each with its last task of the queue or else what it had.
  pub drain-ends :
      (fuel : ℕ) (bpf : c.State) (m : TaskMap)
      → length (c.queue bpf) < fuel
      → (bpf' : c.State) × (m' : TaskMap) × (drain c fuel bpf m ≡ some (returned (bpf', m')))
        × ((pid : ℕ) → get pid m' ≡ tracked pid (c.queue bpf) (get pid m))
        × (c.sent bpf' ≡ c.sent bpf)
        × (c.told bpf' ≡ (0, 0))
  drain-ends fuel bpf m h =
      let (bpf', ends, kept, told) = drain-Drained_at fuel (c.queue bpf) bpf m refl h in
      (bpf', absorb (c.queue bpf) m, ends, λ pid. get-absorb pid (c.queue bpf) m, kept, told)

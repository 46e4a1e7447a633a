-- ===== src/Scheduler/Connector.antt =====
-- What democracy-scheduler/src/main.rs uses of the connection to the kernel, and what it can rely
-- on. `Bpf.Implements` shows that democracy-scheduler/src/bpf.rs provides it.
use managed_linux_democracy.Prelude.{
  ℕ, ◌≡◌, ◌⊎◌, ℤ, List, [], ◌∷◌, ◌++◌, Option, none, some, Result, ok, err, Outcome, returned,
}
use managed_linux_democracy.Bpf.Task.{QueuedTask, DispatchedTask}

-- What one call of `dequeue_task` finds.
pub data Arrival : Type 0 where
  task : QueuedTask → Arrival
  failure : ℤ → Arrival

pub record Connector : Type 1 where
  pub State : Type 0
  pub Error : Type 0
  pub dequeue_task : State → State × Outcome (Result (Option QueuedTask) ℤ)
  pub dispatch_task : DispatchedTask → State → State × Outcome (Result (Unit {0}) Error)
  pub update_tasks : Option ℕ → Option ℕ → State → State
  -- What the calls of `dequeue_task` find until one finds nothing, what was dispatched, and the
  -- counts of queued and of scheduled tasks that the kernel's part was told.
  pub queue : State → List Arrival
  pub sent : State → List DispatchedTask
  pub told : State → ℕ × ℕ
  pub dequeue-task :
      (s : State) (t : QueuedTask) (rest : List Arrival)
      → queue s ≡ task t ∷ rest
      → (s' : State) × (dequeue_task s ≡ (s', returned (ok (some t))))
        × (queue s' ≡ rest)
        × (sent s' ≡ sent s)
  pub dequeue-failure :
      (s : State) (e : ℤ) (rest : List Arrival)
      → queue s ≡ failure e ∷ rest
      → (s' : State) × (dequeue_task s ≡ (s', returned (err e)))
        × (queue s' ≡ rest)
        × (sent s' ≡ sent s)
  pub dequeue-end :
      (s : State)
      → queue s ≡ []
      → (s' : State) × (dequeue_task s ≡ (s', returned (ok none))) × (sent s' ≡ sent s)
  pub sent-update_tasks : (q n : Option ℕ) (s : State) → sent (update_tasks q n s) ≡ sent s
  pub told-update_tasks : (q n : ℕ) (s : State) → told (update_tasks (some q) (some n) s) ≡ (q, n)
  -- A dispatch adds its task at the end of what was sent, or fails and sends nothing.
  pub dispatch :
      (t : DispatchedTask) (s : State)
      → ((s' : State) × (dispatch_task t s ≡ (s', returned (ok tt)))
          × (sent s' ≡ sent s ++ t ∷ [])
          × (told s' ≡ told s))
        ⊎ ((s' : State) × (e : Error) × (dispatch_task t s ≡ (s', returned (err e)))
            × (sent s' ≡ sent s)
            × (told s' ≡ told s))

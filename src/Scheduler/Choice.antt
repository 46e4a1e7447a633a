-- ===== src/Scheduler/Choice.antt =====
-- democracy-scheduler/src/main.rs: the turn that a round of `schedule` is to give.
use managed_linux_democracy.Prelude.{
  ℕ, ◌≡◌, ◌⊎◌, inl, inr, nat_eq, List, [], ◌∷◌, ◌++◌, Option, none, some, Result, ok, err, returned,
}
use managed_linux_democracy.Prelude.Map.{Map, get}
use managed_linux_democracy.Bpf.Task.{QueuedTask, DispatchedTask}
use managed_linux_democracy.Scheduler.Competitors.{Competitors, competitors_eq}
use managed_linux_democracy.Scheduler.Winner.{WinnerError}
use managed_linux_democracy.Scheduler.Connector.{Connector}
use managed_linux_democracy.Scheduler.Drain.{Task}

-- A turn of a tenth of a second for a task, on its CPU, with no flags.
abbrev pub turn : QueuedTask → DispatchedTask
turn t = record {
  pid = t.pid;
  cpu = t.cpu;
  flags = 0;
  slice_ns = 100_000_000;
  cpumask_cnt = t.cpumask_cnt;
}

abbrev pub turn_of : Option (Option Task) → Option DispatchedTask
turn_of none = none
turn_of (some none) = none
turn_of (some (some t)) = some (turn t.queued_task)

-- The one turn that a map of tasks gives: the winner's, if there is a winner whose task is known.
abbrev pub chosen :
    Result Competitors WinnerError
    → Map Competitors ℕ
    → (ℕ → Option (Option Task))
    → Option DispatchedTask
chosen (err _) owners tasks = none
chosen (ok w) owners tasks = elim (get w owners) [ none ↦ none | some pid ↦ turn_of (tasks pid) ]

-- Of a turn that was decided on, everything is sent, or the dispatch of this turn has failed, with
-- the connection in the state in which it left it, and nothing is.
abbrev pub Sends : (c : Connector) → List DispatchedTask → Option DispatchedTask → c.State → Type 0
Sends c before none bpf = c.sent bpf ≡ before
Sends c before (some d) bpf =
    ((earlier : c.State) × (e : c.Error) × (c.dispatch_task d earlier ≡ (bpf, returned (err e)))
      × (c.sent bpf ≡ before))
    ⊎ (c.sent bpf ≡ before ++ d ∷ [])

-- The same, where only what was sent counts.
abbrev pub MaySend : List DispatchedTask → Option DispatchedTask → List DispatchedTask → Type 0
MaySend before none after = after ≡ before
MaySend before (some d) after = (after ≡ before) ⊎ (after ≡ before ++ d ∷ [])

pub Sends-MaySend :
    (c : Connector) (before : List DispatchedTask) (choice : Option DispatchedTask) (bpf : c.State)
    → Sends c before choice bpf
    → MaySend before choice (c.sent bpf)
Sends-MaySend c before none bpf e = e
Sends-MaySend c before (some d) bpf (inl (earlier, e, failed, same)) = inl same
Sends-MaySend c before (some d) bpf (inr e) = inr e

-- A second more of run time than any task had.
abbrev pub a_second : ℕ
a_second = 1_000_000_000

-- ===== src/Scheduler/Schedule.antt =====
-- democracy-scheduler/src/main.rs: `struct Scheduler` and one call of `schedule`.
use managed_linux_democracy.Prelude.{
  ℕ, nat_eq, Profile, add_u64, Option, none, some, Result, ok, err, Outcome, returned, panicked,
}
use managed_linux_democracy.Prelude.Map.{Map, get, insert}
use managed_linux_democracy.Bpf.Task.{new_task, set_slice_ns}
use managed_linux_democracy.Scheduler.Competitors.{Competitors, competitors_eq}
use managed_linux_democracy.Scheduler.Winner.{WinnerError}
use managed_linux_democracy.Scheduler.Connector.{Connector}
use managed_linux_democracy.Scheduler.Drain.{Task, TaskMap, drain}

pub record Scheduler (c : Connector) : Type 0 where
  pub bpf : c.State
  pub task_map : TaskMap
  pub owner_map : Map Competitors ℕ

module _ (p : Profile) (c : Connector) where
  -- From the clone of the winner's task on.
  unfoldable pub dispatch_winner : ℕ → Task → Scheduler c → Outcome (Scheduler c)
  dispatch_winner winner_pid winner_task s =
      let dispatched_task = set_slice_ns 100_000_000 (new_task winner_task.queued_task) in
      let (bpf, sent) = c.dispatch_task dispatched_task s.bpf in
      elim sent [
        | panicked ↦ panicked
        | returned _ ↦ elim (add_u64 p winner_task.vruntime 1_000_000_000) [
          | none ↦ panicked
          | some vruntime ↦ returned (record s {
            bpf = bpf;
            task_map =
                insert winner_pid (some (record winner_task { vruntime = vruntime })) s.task_map;
          })
        ]
      ]

  -- After the first loop, with what `get_current_winner` answered. Both `unwrap`s may panic.
  unfoldable pub run_winner : Result Competitors WinnerError → Scheduler c → Outcome (Scheduler c)
  run_winner (err _) s = returned s
  run_winner (ok winner) s = elim (get winner s.owner_map) [
    | none ↦ panicked
    | some winner_pid ↦ elim (get winner_pid s.task_map) [
      | none ↦ panicked
      | some none ↦ returned s
      | some (some winner_task) ↦ dispatch_winner winner_pid winner_task s
    ]
  ]

  -- `none`: the fuel of the first loop did not suffice.
  unfoldable pub schedule :
      ℕ → Result Competitors WinnerError → Scheduler c → Option (Outcome (Scheduler c))
  schedule fuel answer s = elim (drain c fuel s.bpf s.task_map) [
    | none ↦ none
    | some panicked ↦ some panicked
    | some (returned (bpf, task_map)) ↦
        some (run_winner answer (record s { bpf = bpf; task_map = task_map }))
  ]

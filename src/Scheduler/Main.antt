-- ===== src/Scheduler/Main.antt =====
-- democracy-scheduler/src/main.rs: `Scheduler::run`, and `main` from the launch of the two
-- processes on.
use Prim.Native.String.{String}
use managed_linux_democracy.Prelude.{
  ℕ, zero, suc, nat_eq, Bool, true, false, Profile, length, [], Option, none, some, Result, ok, err,
  Outcome, returned, panicked,
}
use managed_linux_democracy.Prelude.Map.{insert}
use managed_linux_democracy.Scheduler.Competitors.{Competitors, summer1, summer2, competitors_eq}
use managed_linux_democracy.Scheduler.Winner.{WinnerError}
use managed_linux_democracy.Scheduler.Connector.{Connector}
use managed_linux_democracy.Scheduler.Schedule.{Scheduler, schedule}

-- What the program meets at each load of the shutdown flag, counted from its start: the flag, and
-- what `get_current_winner` answers in the round that follows if the flag is not set.
pub record World : Type 0 where
  pub shutdown : ℕ → Bool
  pub answer : ℕ → Result Competitors WinnerError

-- The end of `run`: the number of the load that ended it, the scheduler, and the result.
pub record Ended (c : Connector) : Type 0 where
  pub loads : ℕ
  pub scheduler : Scheduler c
  pub result : Result (Unit {0}) String

module _ (p : Profile) (c : Connector) (world : World) where
  -- A round with fuel enough for the queue that it finds.
  unfoldable pub round : ℕ → Scheduler c → Option (Outcome (Scheduler c))
  round i s = schedule p c (suc (length (c.queue s.bpf))) (world.answer i) s

  -- `Scheduler::run`; `none`: it still goes on after `fuel` loads of the flag.
  unfoldable pub run : ℕ → ℕ → Scheduler c → Option (Outcome (Ended c))
  run zero i s = none
  run (suc fuel) i s = elim (world.shutdown i) [
    | true ↦ some (returned (record { loads = i; scheduler = s; result = ok tt }))
    | false ↦ elim (round i s) [
      | none ↦ none
      | some panicked ↦ some panicked
      | some (returned s') ↦ run fuel (suc i) s'
    ]
  ]

  -- The loop of `main`, which is left by `break` on an error of `run`.
  unfoldable pub main_loop : ℕ → ℕ → Scheduler c → Option (Outcome (Ended c))
  main_loop zero i s = none
  main_loop (suc fuel) i s = elim (run (suc fuel) i s) [
    | none ↦ none
    | some panicked ↦ some panicked
    | some (returned ended) ↦ elim ended.result [
      | ok _ ↦ main_loop fuel (suc ended.loads) ended.scheduler
      | err _ ↦ some (returned ended)
    ]
  ]

-- `launch_process`: the operating system starts the program and gives its pid, or fails, and then
-- `expect` panics.
unfoldable pub launch_process : (String → String → Option ℕ) → String → String → Outcome ℕ
launch_process spawn bin_name name = elim (spawn bin_name name) [
  | none ↦ panicked
  | some pid ↦ returned pid
]

module _ (c : Connector) where
  -- The maps of `Scheduler::init` are empty.
  abbrev pub init : c.State → Scheduler c
  init bpf = record { bpf = bpf; task_map = []; owner_map = [] }

  -- The four `insert`s of `main`.
  unfoldable pub register : ℕ → ℕ → Scheduler c → Scheduler c
  register summer_1_pid summer_2_pid s = record s {
    task_map = insert summer_2_pid none (insert summer_1_pid none s.task_map);
    owner_map = insert summer2 summer_2_pid (insert summer1 summer_1_pid s.owner_map);
  }

  unfoldable pub launch : (String → String → Option ℕ) → Scheduler c → Outcome (Scheduler c)
  unfolding launch_process register
  launch spawn sched = elim (launch_process spawn "thingdoer" "summer1") [
    | panicked ↦ panicked
    | returned summer_1_pid ↦ elim (launch_process spawn "thingdoer" "summer2") [
      | panicked ↦ panicked
      | returned summer_2_pid ↦ returned (register summer_1_pid summer_2_pid sched)
    ]
  ]

-- ===== src/Tests/Rounds.antt =====
-- The scheduler at concrete inputs: rounds over rings that are lists.
use managed_linux_democracy.Prelude.{
  if◌then◌else◌, ℕ, ◌+◌, ◌≡◌, refl, arith, nat_eq, ltb, leb, dev, List, [], ◌∷◌, some, ok, returned,
}
use managed_linux_democracy.Prelude.Text.{codes, text_eq}
use managed_linux_democracy.Prelude.Map.{get, insert, contains_key}
use managed_linux_democracy.Bpf.Message.{from_bytes, to_queued_task, to_bytes, read, write}
use managed_linux_democracy.Bpf.Implements.{bpf_connector}
use managed_linux_democracy.Scheduler.Competitors.{summer1, summer2, competitors_eq}
use managed_linux_democracy.Scheduler.Winner.{Vote, nobody, pick, Found, pick-Found}
use managed_linux_democracy.Scheduler.Connector.{Connector}
use managed_linux_democracy.Scheduler.Drain.{fresh, keep_task, drain, TaskMap, tracked, drain-ends}
use managed_linux_democracy.Scheduler.Schedule.{run_winner, dispatch_winner, Scheduler, schedule}
use managed_linux_democracy.Scheduler.Invariant.{IsWired}
use managed_linux_democracy.Bpf.Task.{new_task, set_slice_ns}
use managed_linux_democracy.Bpf.Connection.{
  fill, dispatch_task, dequeue_task, update_tasks, received_task, callback,
}
use managed_linux_democracy.Scheduler.Decision.{schedule-Goes}
use managed_linux_democracy.Scheduler.Choice.{turn, Sends, chosen, a_second}
use managed_linux_democracy.Scheduler.Main.{World, init, register}
use managed_linux_democracy.Scheduler.Chain.{StopsAfter}
use managed_linux_democracy.Scheduler.Shutdown.{register-IsWired}
use managed_linux_democracy.Scheduler.Progress.{Accepts}
use managed_linux_democracy.Tests.Kernel.{connection, zero_bss, blank, lists, task_of, busy}

abbrev pub link : Connector
link = bpf_connector lists

-- Both processes run, and three messages and a failure wait in the ring.
abbrev pub start : Scheduler link
start = register link 10 20 (init link busy)

-- The flag is set at the third load; the first side wins at first, then the second.
abbrev pub evening : World
evening = record {
  shutdown = λ j. leb 2 j;
  answer = λ j. if ltb 0 j then ok summer2 else ok summer1;
}

abbrev votes : List Vote
votes =
    record { choice = codes "summer1"; count = 2 }
    ∷ record { choice = codes "summer2"; count = 3 }
    ∷ record { choice = codes "other"; count = 3 }
    ∷ []

pick-Found_example : Found nobody votes (pick nobody votes)
pick-Found_example = pick-Found nobody votes

picks-first_most : (pick nobody votes).choice ≡ codes "summer2"
unfolding pick
picks-first_most = refl

pub start-IsWired : IsWired 0 start.owner_map start.task_map
start-IsWired = register-IsWired link 10 20 busy

pub evening-StopsAfter : StopsAfter evening 2 0
evening-StopsAfter = record { before = λ k h. ground arith; then_set = refl }

drain-ends_example :
    (bpf' : link.State) × (m' : TaskMap) × (drain link 5 busy start.task_map
      ≡ some (returned (bpf', m')))
    × ((pid : ℕ) → get pid m' ≡ tracked pid (link.queue busy) (get pid start.task_map))
    × (link.sent bpf' ≡ link.sent busy)
    × (link.told bpf' ≡ (0, 0))
drain-ends_example = drain-ends link 5 busy start.task_map (omega arith)

schedule-Goes_example :
    (s' : Scheduler link) × (schedule dev link 5 (ok summer2) start ≡ some (returned s'))
    × IsWired (0 + a_second) s'.owner_map s'.task_map
    × (s'.owner_map ≡ start.owner_map)
    × Sends link
        (link.sent start.bpf)
        (chosen
          (ok summer2)
          start.owner_map
          (λ pid. tracked pid (link.queue start.bpf) (get pid start.task_map)))
        s'.bpf
    × (link.told s'.bpf ≡ (0, 0))
unfolding register
schedule-Goes_example =
    schedule-Goes dev link 5 0 (ok summer2) start (omega arith) (omega arith) start-IsWired

-- The state after that round.
abbrev next : Scheduler link
next = record {
  bpf = record (connection ([], tt)) {
    bss = record zero_bss { nr_queued = 0; nr_scheduled = 0 };
    dispatched = fill (turn (task_of 20)) blank ∷ [];
    buf = to_bytes (task_of 20);
  };
  task_map =
      (10, some (fresh (task_of 10)))
      ∷ (20, some (record { vruntime = a_second; queued_task = task_of 20 }))
      ∷ [];
  owner_map = (summer1, 10) ∷ (summer2, 20) ∷ [];
}

round-next : schedule dev link 5 (ok summer2) start ≡ some (returned next)
unfolding schedule run_winner dispatch_winner drain keep_task contains_key get insert register
    dispatch_task dequeue_task update_tasks received_task callback new_task set_slice_ns from_bytes
    to_queued_task to_bytes read write
round-next = refl

start-owner : get summer2 start.owner_map ≡ some 20
unfolding register get insert
start-owner = refl

start-chosen :
    chosen
      (ok summer2)
      start.owner_map
      (λ j. tracked j (link.queue start.bpf) (get j start.task_map))
    ≡ some (turn (task_of 20))
unfolding register get insert from_bytes to_queued_task to_bytes read write
start-chosen = refl

-- The ring of decisions is never full.
pub never_fails : Accepts link
unfolding dispatch_task
never_fails d s s' e h = cc

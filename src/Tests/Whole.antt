-- ===== src/Tests/Whole.antt =====
-- The scheduler's program from its start on, at concrete inputs.
use Prim.Native.String.{String}
use managed_linux_democracy.Prelude.{
  [], ◌∷◌, All, List, map, if◌then◌else◌, ℕ, ◌≡◌, refl, arith, true, nat_eq, ltb, leb, pos, dev,
  Option, none, some, ok, returned,
}
use managed_linux_democracy.Bpf.Init.{Host, configure, use_sched_ext, build, attach_and_build}
use managed_linux_democracy.Bpf.Init as Connection
use managed_linux_democracy.Bpf.Implements.{bpf_connector}
use managed_linux_democracy.Scheduler.Competitors.{summer1, summer2, competitors_eq}
use managed_linux_democracy.Scheduler.Connector.{Connector, task}
use managed_linux_democracy.Scheduler.Schedule.{Scheduler}
use managed_linux_democracy.Scheduler.Main.{World, launch, launch_process, register, init}
use managed_linux_democracy.Scheduler.Chain.{StopsAfter}
use managed_linux_democracy.Scheduler.Start.{options, scheduler_init, start, main}
use managed_linux_democracy.Scheduler.Whole.{main-endless}
use managed_linux_democracy.Prelude.Map.{get}
use managed_linux_democracy.Prelude.Text.{codes, text_eqb}
use managed_linux_democracy.Bpf.Task.{QueuedTask}
use managed_linux_democracy.Bpf.Message.{to_bytes, write}
use managed_linux_democracy.Bpf.Libbpf.{IsExpected}
use managed_linux_democracy.Bpf.Connection.{BpfScheduler}
use managed_linux_democracy.Bpf.Views.{sent}
use managed_linux_democracy.Scheduler.Drain.{TaskMap, tracked, drain}
use managed_linux_democracy.Scheduler.Arrivals.{messages, drain-messages}
use managed_linux_democracy.Tests.Startup.{tracing}
use managed_linux_democracy.Tests.Kernel.{
  task_of-IsInRange, task_of, connection, lists, arrivals, arrivals-IsExpected, zero_bss,
  zero_config,
}

abbrev pub link : Connector
link = bpf_connector lists

-- Tasks wait in the ring from the start.
abbrev pub machine : Host lists
machine = record {
  opened = some (zero_config, zero_bss);
  process_id = 77;
  partial_flag = 8;
  load = λ c b. some (c, b);
  attach = λ c b. some tt;
  ring = some (arrivals, arrivals-IsExpected);
  user_ring = some [];
  static_buf = [];
  sched_setscheduler = λ pid policy priority. pos 0;
}

abbrev pub spawn : String → String → Option ℕ
spawn bin_name name = some (if text_eqb (codes name) (codes "summer1") then 10 else 20)

abbrev pub running : Scheduler link
running = register link 10 20 (
    init link (record {
      config = configure dev lists machine (options (pos 4)) 1_000_000_000 zero_config;
      bss = record zero_bss { usersched_pid = 77 };
      queued = (arrivals, arrivals-IsExpected);
      dispatched = [];
      struct_ops = some tt;
      buf = [];
    }))

pub starts : (start dev lists machine true (some 4) spawn).1 ≡ returned (ok running)
unfolding start scheduler_init Connection.init attach_and_build use_sched_ext launch launch_process
    text_eqb build
starts = refl

abbrev evening : World
evening = record {
  shutdown = λ j. leb 2 j;
  answer = λ j. if ltb 0 j then ok summer2 else ok summer1;
}

evening-StopsAfter : StopsAfter evening 2 0
evening-StopsAfter = record { before = λ k h. ground arith; then_set = refl }

main-endless_example : main dev lists machine tracing none evening 9 true (some 4) spawn ≡ none
main-endless_example =
    main-endless dev lists machine tracing none evening 9 2 true (some 4) spawn running refl starts
      evening-StopsAfter (λ j h. ground arith) (omega arith)

-- The tasks whose messages wait in a ring.
abbrev waiting : List QueuedTask
waiting = task_of 30 ∷ task_of 10 ∷ []

waiting-IsExpected : All IsExpected (messages waiting)
unfolding to_bytes write
waiting-IsExpected = omega arith

abbrev full : BpfScheduler lists
full = connection (messages waiting, waiting-IsExpected)

drain-messages_example :
    (bpf' : BpfScheduler lists) × (m' : TaskMap) × (drain
        (bpf_connector lists)
        3
        full
        ((10, none) ∷ [])
      ≡ some (returned (bpf', m')))
    × ((pid : ℕ) → get pid m' ≡ tracked pid (map task waiting) (get pid ((10, none) ∷ [])))
    × (sent lists bpf' ≡ sent lists full)
drain-messages_example =
    drain-messages lists 3 waiting full ((10, none) ∷ []) refl
      (task_of-IsInRange 30 (omega arith), (task_of-IsInRange 10 (omega arith), tt)) (omega arith)

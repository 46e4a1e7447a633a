-- ===== src/Scheduler/Start.antt =====
-- democracy-scheduler/src/main.rs: `Scheduler::init` over the connection of
-- democracy-scheduler/src/bpf.rs, and the whole of `main`.
use Prim.Native.String.{String}
use managed_linux_democracy.Prelude.{
  ℕ, Bool, true, false, ℤ, Profile, Option, none, some, Result, ok, err, Outcome, returned,
  panicked,
}
use managed_linux_democracy.Logging.{Tracing}
use managed_linux_democracy.Bpf.Libbpf.{Libbpf}
use managed_linux_democracy.Bpf.Init.{Options, InitError, Host, Footprint, untouched, as_i32}
use managed_linux_democracy.Bpf.Lifetime.{drop}
use managed_linux_democracy.Bpf.Init as Connection
use managed_linux_democracy.Bpf.Implements.{bpf_connector}
use managed_linux_democracy.Scheduler.Logger.{init_logger}
use managed_linux_democracy.Scheduler.Schedule.{Scheduler}
use managed_linux_democracy.Scheduler.Main.{World, Ended, init, launch, main_loop}

-- The arguments of `BpfScheduler::init`.
abbrev pub options : ℤ → Options
options nr_cpus = record {
  slice_us = 1_000_000;
  nr_cpus_online = nr_cpus;
  partial = true;
  exit_dump_len = 0;
  full_user = true;
  low_power = false;
  fifo_sched = false;
  debug = true;
}

-- How `main` may fail before its loop.
pub data StartError : Type 0 where
  no_handler : StartError
  no_scheduler : InitError → StartError

module _ (p : Profile) (l : Libbpf) (host : Host l) where
  -- `Scheduler::init`, from the number of CPUs that `Topology::new` finds; it panics without one.
  unfoldable pub scheduler_init :
      Option ℕ → Footprint l × Outcome (Result (Scheduler (bpf_connector l)) InitError)
  scheduler_init none = (untouched l, panicked)
  scheduler_init (some nr_cpus) =
      let (left, built) = Connection.init p l host (options (as_i32 nr_cpus)) in
      (
        left,
        elim built [
          | panicked ↦ panicked
          | returned (err e) ↦ returned (err e)
          | returned (ok bpf) ↦ returned (ok (init (bpf_connector l) bpf))
        ],
      )

  -- A panic drops the local `sched`, and with it the connection.
  unfoldable pub unwind : Scheduler (bpf_connector l) → Footprint l → Footprint l
  unwind sched left =
      let end = drop l (record {
        scheduler = sched.bpf;
        released = left.released;
        memory_locked = left.memory_locked;
      }) in
      record left { released = end.released; memory_locked = end.memory_locked }

  -- `main` from the Ctrl-C handler on, up to its loop, with what it leaves behind. `handler` is
  -- whether the handler could be set.
  unfoldable pub start :
      Bool
      → Option ℕ
      → (String → String → Option ℕ)
      → Footprint l × Outcome (Result (Scheduler (bpf_connector l)) StartError)
  unfolding unwind
  start false topology spawn = (untouched l, returned (err no_handler))
  start true topology spawn =
      let (left, prepared) = scheduler_init topology in
      elim prepared [
        | panicked ↦ (left, panicked)
        | returned (err e) ↦ (left, returned (err (no_scheduler e)))
        | returned (ok sched) ↦ elim (launch (bpf_connector l) spawn sched) [
          | panicked ↦ (unwind sched left, panicked)
          | returned sched' ↦ (left, returned (ok sched'))
        ]
      ]

  -- `main` from the Ctrl-C handler on; `none`: its loop still goes on after `fuel` rounds.
  unfoldable pub start_and_loop :
      World
      → ℕ
      → Bool
      → Option ℕ
      → (String → String → Option ℕ)
      → Option (Outcome (Result (Ended (bpf_connector l)) StartError))
  start_and_loop world fuel handler topology spawn = elim (start handler topology spawn).1 [
    | panicked ↦ some panicked
    | returned (err e) ↦ some (returned (err e))
    | returned (ok s) ↦ elim (main_loop p (bpf_connector l) world fuel 0 s) [
      | none ↦ none
      | some panicked ↦ some panicked
      | some (returned ended) ↦ some (returned (ok ended))
    ]
  ]

  -- `main`: the `unwrap` of `init_logger`, and the rest.
  unfoldable pub main :
      (t : Tracing)
      → t.Global
      → World
      → ℕ
      → Bool
      → Option ℕ
      → (String → String → Option ℕ)
      → Option (Outcome (Result (Ended (bpf_connector l)) StartError))
  main t g world fuel handler topology spawn = elim (init_logger t g).1 [
    | panicked ↦ some panicked
    | returned (err e) ↦ some panicked
    | returned (ok _) ↦ start_and_loop world fuel handler topology spawn
  ]

-- ===== src/Scheduler/Teardown.antt =====
-- democracy-scheduler/src/main.rs: what a start of `main` leaves behind of the link and of the memory
-- lock, however it ends.
use Prim.Native.String.{String}
use managed_linux_democracy.Prelude.{
  ℕ, ◌≡◌, ◌≢◌, ◌⊎◌, inl, inr, refl, sym, ap, ◌∙◌, subst, arith, Bool, true, false, Profile, dev,
  release, List, [], ◌∷◌, Option, none, some, Result, ok, err, Outcome, returned, panicked,
  Option-cases,
}
use managed_linux_democracy.Bpf.Libbpf.{Libbpf}
use managed_linux_democracy.Bpf.Connection.{BpfScheduler, Config, Bss}
use managed_linux_democracy.Bpf.Init.{
  InitError, open_failed, load_failed, attach_failed, sched_setscheduler_error, Host, Footprint,
  Built, untouched, as_i32, mul_u64, Options, configure, attach_and_build, build, use_sched_ext,
}
use managed_linux_democracy.Bpf.Init as Connection
use managed_linux_democracy.Bpf.Init.Settling.{owned, Settles, init-Settles}
use managed_linux_democracy.Bpf.Lifetime.{ExitInfo, drop, Call, call_all}
use managed_linux_democracy.Bpf.Implements.{bpf_connector}
use managed_linux_democracy.Scheduler.Schedule.{Scheduler}
use managed_linux_democracy.Scheduler.Main.{init, launch}
use managed_linux_democracy.Scheduler.Ready.{launch-ok, register-bpf}
use managed_linux_democracy.Scheduler.Start.{
  options, StartError, no_handler, no_scheduler, scheduler_init, unwind, start,
}

slice_fits : (p : Profile) → mul_u64 p 1_000_000 1000 ≢ none
slice_fits dev h = ground arith
slice_fits release h = ground arith

module _ (p : Profile) (l : Libbpf) (host : Host l) where
  attach_and_build-panicked :
      (config : Config) (bss : Bss)
      → (attach_and_build p l host config bss).1 ≡ panicked
      → (host.ring ≡ none) ⊎ (host.user_ring ≡ none)
  unfolding attach_and_build build
  attach_and_build-panicked config bss h = ground arith

  init-panicked :
      (o : Options)
      → (Connection.init p l host o).1 ≡ panicked
      → (mul_u64 p o.slice_us 1000 ≡ none) ⊎ (host.ring ≡ none) ⊎ (host.user_ring ≡ none)
  unfolding Connection.init
  init-panicked o h = elim (Option-cases host.opened) [
    | inl fails ↦ absurd (ground arith)
    | inr ((c, bss), opened) ↦ elim (Option-cases (mul_u64 p o.slice_us 1000)) [
      | inl overflows ↦ inl overflows
      | inr (slice_ns, product) ↦ inr (
          attach_and_build-panicked (configure p l host o slice_ns c)
            (record bss { usersched_pid = host.process_id }) (ground arith))
    ]
  ]

  -- The time slice of `main` does not overflow.
  no_rings :
      (nr_cpus : ℕ)
      → (Connection.init p l host (options (as_i32 nr_cpus))).1 ≡ panicked
      → (host.ring ≡ none) ⊎ (host.user_ring ≡ none)
  no_rings nr_cpus h = elim (init-panicked (options (as_i32 nr_cpus)) h) [
    | inl overflows ↦ absurd (slice_fits p overflows)
    | inr missing ↦ missing
  ]

module _ (l : Libbpf) (host : Host l) (info : ExitInfo l) where
  -- What a start leaves behind, by how it ends. At the loop of `main` the scheduler holds the one link
  -- that was made, and its drop, whatever calls come before, releases this link and unlocks the memory.
  abbrev pub Settled :
      List (Call l info)
      → Footprint l × Outcome (Result (Scheduler (bpf_connector l)) StartError)
      → Type 0
  Settled calls (f, returned (ok s)) =
      let end = drop l (call_all l info calls (owned l info f s.bpf)) in
      (link : l.Link) × (f.attached ≡ link ∷ [])
      × (f.released ≡ [])
      × (f.memory_locked ≡ true)
      × (end.released ≡ link ∷ [])
      × (end.scheduler.struct_ops ≡ none)
      × (end.memory_locked ≡ false)
  Settled calls (f, returned (err no_handler)) = (f.attached ≡ []) × (f.memory_locked ≡ false)
  Settled calls (f, returned (err (no_scheduler open_failed))) =
      (f.attached ≡ []) × (f.memory_locked ≡ false)
  Settled calls (f, returned (err (no_scheduler _))) =
      (f.released ≡ f.attached) × (f.memory_locked ≡ true)
  Settled calls (f, panicked) =
      (f.released ≡ f.attached)
      × ((f.memory_locked ≡ false) ⊎ (host.ring ≡ none) ⊎ (host.user_ring ≡ none))

module _ (p : Profile) (l : Libbpf) (host : Host l) (info : ExitInfo l) where
  start_failed :
      (nr_cpus : ℕ) (spawn : String → String → Option ℕ) (f : Footprint l) (e : InitError)
      → Connection.init p l host (options (as_i32 nr_cpus)) ≡ (f, returned (err e))
      → start p l host true (some nr_cpus) spawn ≡ (f, returned (err (no_scheduler e)))
  unfolding start scheduler_init
  start_failed nr_cpus spawn f e h = ground arith

  start_panicked :
      (nr_cpus : ℕ) (spawn : String → String → Option ℕ) (f : Footprint l)
      → Connection.init p l host (options (as_i32 nr_cpus)) ≡ (f, panicked)
      → start p l host true (some nr_cpus) spawn ≡ (f, panicked)
  unfolding start scheduler_init
  start_panicked nr_cpus spawn f h = ground arith

  -- With the connection, by how the launch goes.
  start_built :
      (nr_cpus : ℕ) (spawn : String → String → Option ℕ) (f : Footprint l) (bpf : BpfScheduler l)
      (end : Outcome (Scheduler (bpf_connector l)))
      → Connection.init p l host (options (as_i32 nr_cpus)) ≡ (f, returned (ok bpf))
      → launch (bpf_connector l) spawn (init (bpf_connector l) bpf) ≡ end
      → start p l host true (some nr_cpus) spawn ≡ (elim end [
        | panicked ↦ (unwind p l host (init (bpf_connector l) bpf) f, panicked)
        | returned s ↦ (f, returned (ok s))
      ])
  unfolding start scheduler_init
  start_built nr_cpus spawn f bpf panicked h e = ground arith
  start_built nr_cpus spawn f bpf (returned s) h e = ground arith

  Settled-built :
      (calls : List (Call l info)) (spawn : String → String → Option ℕ) (f : Footprint l)
      (bpf : BpfScheduler l) (end : Outcome (Scheduler (bpf_connector l)))
      → launch (bpf_connector l) spawn (init (bpf_connector l) bpf) ≡ end
      → Settles l info calls (f, returned (ok bpf))
      → Settles l info [] (f, returned (ok bpf))
      → Settled l host info calls (elim end [
        | panicked ↦ (unwind p l host (init (bpf_connector l) bpf) f, panicked)
        | returned s ↦ (f, returned (ok s))
      ])
  unfolding unwind call_all
  Settled-built calls spawn f bpf panicked e later
        (link, made, none_yet, locked, once, given, unlocked) =
      (once ∙ sym made, inl unlocked)
  Settled-built calls spawn f bpf (returned s) e
        (link, made, none_yet, locked, once, given, unlocked) now =
      let (a, b, first, second, same) =
        launch-ok (bpf_connector l) spawn (init (bpf_connector l) bpf) s e in
      let kept : bpf ≡ s.bpf =
        sym (register-bpf (bpf_connector l) a b (init (bpf_connector l) bpf))
        ∙ ap (λ t. t.bpf) same in
      subst (λ x. Settles l info calls (f, returned (ok x))) kept
        (link, made, none_yet, locked, once, given, unlocked)

  start_unhandled :
      (topology : Option ℕ) (spawn : String → String → Option ℕ)
      → start p l host false topology spawn ≡ (untouched l, returned (err no_handler))
  unfolding start
  start_unhandled topology spawn = refl

  start_unknown :
      (spawn : String → String → Option ℕ)
      → start p l host true none spawn ≡ (untouched l, panicked)
  unfolding start scheduler_init
  start_unknown spawn = refl

  Settled-start :
      (calls : List (Call l info)) (nr_cpus : ℕ) (spawn : String → String → Option ℕ)
      (built : Built l)
      → Connection.init p l host (options (as_i32 nr_cpus)) ≡ built
      → Settles l info calls built
      → Settles l info [] built
      → Settled l host info calls (start p l host true (some nr_cpus) spawn)
  Settled-start calls nr_cpus spawn (f, panicked) e (released, locked) now =
      rw (start_panicked nr_cpus spawn f e)
        (released, inr (no_rings p l host nr_cpus (ap (λ b. b.1) e)))
  Settled-start calls nr_cpus spawn (f, returned (err open_failed)) e later now =
      rw (start_failed nr_cpus spawn f open_failed e) later
  Settled-start calls nr_cpus spawn (f, returned (err load_failed)) e later now =
      rw (start_failed nr_cpus spawn f load_failed e) later
  Settled-start calls nr_cpus spawn (f, returned (err attach_failed)) e later now =
      rw (start_failed nr_cpus spawn f attach_failed e) later
  Settled-start calls nr_cpus spawn (f, returned (err (sched_setscheduler_error x))) e later now =
      rw (start_failed nr_cpus spawn f (sched_setscheduler_error x) e) later
  Settled-start calls nr_cpus spawn (f, returned (ok bpf)) e later now =
      let end = launch (bpf_connector l) spawn (init (bpf_connector l) bpf) in
      rw (start_built nr_cpus spawn f bpf end e refl)
        (Settled-built calls spawn f bpf end refl later now)

  -- Whatever a start of `main` meets, up to its loop. If it reaches the loop, the scheduler holds the
  -- one link that was made, and the drop of its connection, whatever calls come before, releases this
  -- link, exactly once, and unlocks the memory. If the Ctrl-C handler cannot be set or the program
  -- cannot be opened, no link was made and the memory is not locked. If `Scheduler::init` fails
  -- later, every link that was made is released, but the memory stays locked. If the start panics,
  -- every link that was made is released, and the memory is not locked unless a ring buffer could
  -- not be built; also when a process cannot be launched.
  pub start-Settled :
      (calls : List (Call l info)) (handler : Bool) (topology : Option ℕ)
      (spawn : String → String → Option ℕ)
      → Settled l host info calls (start p l host handler topology spawn)
  start-Settled calls false topology spawn = rw (start_unhandled topology spawn) (refl, refl)
  start-Settled calls true none spawn = rw (start_unknown spawn) (refl, inl refl)
  start-Settled calls true (some nr_cpus) spawn =
      Settled-start calls nr_cpus spawn (Connection.init p l host (options (as_i32 nr_cpus))) refl
        (init-Settles p l host info calls (options (as_i32 nr_cpus)))
        (init-Settles p l host info [] (options (as_i32 nr_cpus)))

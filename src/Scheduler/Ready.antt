-- ===== src/Scheduler/Ready.antt =====
-- democracy-scheduler/src/main.rs: what holds when `main` reaches its loop, and what comes then.
use Prim.Native.Nat.{bit_or}
use Prim.Native.String.{String}
use managed_linux_democracy.Prelude.{
  ℕ, ◌≡◌, ◌≢◌, refl, sym, ap, ◌∙◌, subst, inl, inr, arith, nat_eq, Bool, true, false, pos, Profile,
  dev, release, Option, none, some, Option-cases, Result, ok, err, Outcome, returned, panicked,
}
use managed_linux_democracy.Bpf.Libbpf.{Libbpf}
use managed_linux_democracy.Bpf.Connection.{Bss, Config, BpfScheduler}
use managed_linux_democracy.Bpf.Init.{
  as_i32, Options, InitError, Host, configure, mul_u64, use_sched_ext,
}
use managed_linux_democracy.Bpf.Init.Success.{init-ok}
use managed_linux_democracy.Bpf.Init as Connection
use managed_linux_democracy.Bpf.Implements.{bpf_connector}
use managed_linux_democracy.Scheduler.Connector.{Connector}
use managed_linux_democracy.Scheduler.Schedule.{Scheduler}
use managed_linux_democracy.Scheduler.Invariant.{IsWired}
use managed_linux_democracy.Scheduler.Main.{init, register, launch}
use managed_linux_democracy.Scheduler.Owners.{OwnsLaunched, register-OwnsLaunched}
use managed_linux_democracy.Scheduler.Shutdown.{register-IsWired}
use managed_linux_democracy.Scheduler.Start.{options, scheduler_init, start}

pub launch-ok :
    (c : Connector) (spawn : String → String → Option ℕ) (s s' : Scheduler c)
    → launch c spawn s ≡ returned s'
    → (a : ℕ) × (b : ℕ) × (spawn "thingdoer" "summer1" ≡ some a)
      × (spawn "thingdoer" "summer2" ≡ some b)
      × (register c a b s ≡ s')
unfolding launch
launch-ok c spawn s s' h = elim (Option-cases (spawn "thingdoer" "summer1")) [
  | inl fails ↦ absurd (ground arith)
  | inr (a, starts) ↦ elim (Option-cases (spawn "thingdoer" "summer2")) [
    | inl fails ↦ absurd (ground arith)
    | inr (b, starts') ↦ (a, b, starts, starts', ground arith)
  ]
]

pub register-bpf : (c : Connector) (a b : ℕ) (s : Scheduler c) → (register c a b s).bpf ≡ s.bpf
unfolding register
register-bpf c a b s = refl

slice :
    (p : Profile) (slice_ns : ℕ)
    → mul_u64 p 1_000_000 1000 ≡ some slice_ns
    → slice_ns ≡ 1_000_000_000
slice dev slice_ns h = ground arith
slice release slice_ns h = ground arith

module _ (p : Profile) (l : Libbpf) (host : Host l) where
  -- The variables of the kernel's part before its load, from those that it was opened with.
  pub record IsConfigured (nr_cpus : ℕ) (opened config : Config) : Type 0 where
    pub all_cpus : config.num_possible_cpus ≡ as_i32 nr_cpus
    pub a_second_each : config.slice_ns ≡ 1_000_000_000
    pub partial_flag : config.ops_flags ≡ bit_or opened.ops_flags host.partial_flag
    pub partial_switch : config.switch_partial ≡ true
    pub all_in_user_space : config.full_user ≡ true
    pub with_debug : config.debug ≡ true
    pub full_power : config.low_power ≡ false
    pub by_priority : config.fifo_sched ≡ false
    pub no_dump : config.exit_dump_len ≡ 0

  -- The kernel's part is loaded with these variables and the pid of the scheduler, and attached, and
  -- the scheduler's process runs under SCHED_EXT, which is policy 7.
  pub record IsAttached (nr_cpus : ℕ) (bpf : BpfScheduler l) : Type 0 where
    pub opened : Config
    pub variables : Bss
    pub config : Config
    pub opens : host.opened ≡ some (opened, variables)
    pub configured : IsConfigured nr_cpus opened config
    pub loads :
        host.load config (record variables { usersched_pid = host.process_id })
        ≡ some (bpf.config, bpf.bss)
    pub attaches : bpf.struct_ops ≡ host.attach bpf.config bpf.bss
    pub holds : bpf.struct_ops ≢ none
    pub scheduled : host.sched_setscheduler (as_i32 host.process_id) (pos 7) (pos 0) ≡ pos 0

  configure-IsConfigured :
      (nr_cpus slice_ns : ℕ) (c : Config)
      → slice_ns ≡ 1_000_000_000
      → IsConfigured nr_cpus c (configure p l host (options (as_i32 nr_cpus)) slice_ns c)
  configure-IsConfigured nr_cpus slice_ns c turn = record {
    all_cpus = refl;
    a_second_each = turn;
    partial_flag = refl;
    partial_switch = refl;
    all_in_user_space = refl;
    with_debug = refl;
    full_power = refl;
    by_priority = refl;
    no_dump = refl;
  }

  attached :
      (nr_cpus : ℕ) (bpf : BpfScheduler l)
      → (Connection.init p l host (options (as_i32 nr_cpus))).1 ≡ returned (ok bpf)
      → IsAttached nr_cpus bpf
  unfolding use_sched_ext
  attached nr_cpus bpf e =
      let (c, bss, slice_ns, opens, product, loads, attaches, holds, scheduled) =
        init-ok p l host (options (as_i32 nr_cpus)) bpf e in
      record {
        opened = c;
        variables = bss;
        config = configure p l host (options (as_i32 nr_cpus)) slice_ns c;
        opens = opens;
        configured = configure-IsConfigured nr_cpus slice_ns c (slice p slice_ns product);
        loads = loads;
        attaches = attaches;
        holds = holds;
        scheduled = scheduled;
      }

  scheduler_init-IsAttached :
      (nr_cpus : ℕ) (s : Scheduler (bpf_connector l))
      → (scheduler_init p l host (some nr_cpus)).1 ≡ returned (ok s)
      → (s ≡ init (bpf_connector l) s.bpf) × IsAttached nr_cpus s.bpf
  unfolding scheduler_init
  scheduler_init-IsAttached nr_cpus s h =
      go (Connection.init p l host (options (as_i32 nr_cpus))).1 refl
    where
      go :
          (o : Outcome (Result (BpfScheduler l) InitError))
          → (Connection.init p l host (options (as_i32 nr_cpus))).1 ≡ o
          → (s ≡ init (bpf_connector l) s.bpf) × IsAttached nr_cpus s.bpf
      go panicked e = absurd (ground arith)
      go (returned (err x)) e = absurd (ground arith)
      go (returned (ok bpf)) e =
          let same : init (bpf_connector l) bpf ≡ s = ground arith in
          subst (λ t. (t ≡ init (bpf_connector l) t.bpf) × IsAttached nr_cpus t.bpf) same
            (refl, attached nr_cpus bpf e)

  launched :
      (nr_cpus : ℕ) (spawn : String → String → Option ℕ) (s₀ s : Scheduler (bpf_connector l))
      → s₀ ≡ init (bpf_connector l) s₀.bpf
      → IsAttached nr_cpus s₀.bpf
      → launch (bpf_connector l) spawn s₀ ≡ returned s
      → IsAttached nr_cpus s.bpf × IsWired 0 s.owner_map s.task_map × OwnsLaunched spawn s.owner_map
  launched nr_cpus spawn s₀ s fresh at h =
      let (a, b, first, second, same) = launch-ok (bpf_connector l) spawn s₀ s h in
      let wired = register-IsWired (bpf_connector l) a b s₀.bpf in
      (
        subst (IsAttached nr_cpus)
            (sym (register-bpf (bpf_connector l) a b s₀) ∙ ap (λ t. t.bpf) same) at,
        subst (λ t. IsWired 0 t.owner_map t.task_map)
            (ap (register (bpf_connector l) a b) (sym fresh) ∙ same) wired,
        subst (λ t. OwnsLaunched spawn t.owner_map) same
            (register-OwnsLaunched (bpf_connector l) spawn a b s₀ first second),
      )

  no_cpus :
      (spawn : String → String → Option ℕ) (s : Scheduler (bpf_connector l))
      → (start p l host true none spawn).1 ≢ returned (ok s)
  unfolding start scheduler_init
  no_cpus spawn s h = cc

  pub start-ok :
      (handler : Bool) (topology : Option ℕ) (spawn : String → String → Option ℕ)
      (s : Scheduler (bpf_connector l))
      → (start p l host handler topology spawn).1 ≡ returned (ok s)
      → (nr_cpus : ℕ) × (handler ≡ true)
        × (topology ≡ some nr_cpus)
        × IsAttached nr_cpus s.bpf
        × IsWired 0 s.owner_map s.task_map
        × OwnsLaunched spawn s.owner_map
  unfolding start
  start-ok false topology spawn s h = absurd (ground arith)
  start-ok true none spawn s h = absurd (no_cpus spawn s h)
  start-ok true (some nr_cpus) spawn s h = go (scheduler_init p l host (some nr_cpus)).1 refl
    where
      started :
          (s₀ : Scheduler (bpf_connector l))
          → (scheduler_init p l host (some nr_cpus)).1 ≡ returned (ok s₀)
          → launch (bpf_connector l) spawn s₀ ≡ returned s
      started s₀ e = ground arith

      go :
          (o : Outcome (Result (Scheduler (bpf_connector l)) InitError))
          → (scheduler_init p l host (some nr_cpus)).1 ≡ o
          → (n : ℕ) × (true ≡ true)
            × (some nr_cpus ≡ some n)
            × IsAttached n s.bpf
            × IsWired 0 s.owner_map s.task_map
            × OwnsLaunched spawn s.owner_map
      go panicked e = absurd (ground arith)
      go (returned (err x)) e = absurd (ground arith)
      go (returned (ok s₀)) e =
          let (fresh, at) = scheduler_init-IsAttached nr_cpus s₀ e in
          let (attached, wired, owned) = launched nr_cpus spawn s₀ s fresh at (started s₀ e) in
          (nr_cpus, refl, refl, attached, wired, owned)

-- ===== src/Bpf/Init.antt =====
-- democracy-scheduler/src/bpf.rs: `BpfScheduler::init` and `use_sched_ext`.
pub mod Success
pub mod Settling
use Prim.Native.Nat.{bit_or}
use managed_linux_democracy.Prelude.{
  ℕ, ◌*◌, ◌^◌, ◌%◌, ◌≡◌, arith, Bool, if◌then◌else◌, ltb, ℤ, pos, negsuc, false, true, List, [],
  ◌∷◌, eqb_ℤ, eqb_ℤ_iff, ◌-◌, ◌≢◌, Profile, dev, release, Option, Option-cases, none, some, Result,
  ok, err, Outcome, returned, panicked, inl, inr,
}
use managed_linux_democracy.Bpf.Message.{Bytes}
use managed_linux_democracy.Bpf.Libbpf.{Libbpf}
use managed_linux_democracy.Bpf.Connection.{Bss, Config, BpfScheduler}

pub record Options : Type 0 where
  pub slice_us : ℕ
  pub nr_cpus_online : ℤ
  pub partial : Bool
  pub exit_dump_len : ℕ
  pub full_user : Bool
  pub low_power : Bool
  pub fifo_sched : Bool
  pub debug : Bool

pub data InitError : Type 0 where
  open_failed load_failed attach_failed : InitError
  sched_setscheduler_error : ℤ → InitError

-- What the libraries and the system answer in `init`, each `none` a failure: the opened program
-- with its initial variables, its load, its attachment, the two ring buffers, and the system call
-- `sched_setscheduler` with the process, the policy and the priority.
pub record Host (l : Libbpf) : Type 0 where
  pub opened : Option (Config × Bss)
  pub process_id : ℕ
  pub partial_flag : ℕ
  pub load : Config → Bss → Option (Config × Bss)
  pub attach : Config → Bss → Option l.Link
  pub ring : Option l.Ring
  pub user_ring : Option l.UserRing
  pub static_buf : Bytes
  pub sched_setscheduler : ℤ → ℤ → ℤ → ℤ

abbrev pub sched_ext : ℤ
sched_ext = pos 7

-- `x as i32` for an unsigned `x`.
abbrev pub as_i32 : ℕ → ℤ
as_i32 n = let w = n % 2 ^ 32 in if ltb w (2 ^ 31) then pos w else negsuc (2 ^ 32 - 1 - w)

-- `slice_us * 1000` on `u64`
abbrev pub mul_u64 : Profile → ℕ → ℕ → Option ℕ
mul_u64 dev a b = if ltb (a * b) (2 ^ 64) then some (a * b) else none
mul_u64 release a b = some ((a * b) % 2 ^ 64)

-- What `init` leaves behind besides its result: the links that it made, those of them that were
-- dropped, which releases them, and whether the process has its memory locked.
pub record Footprint (l : Libbpf) : Type 0 where
  pub attached : List l.Link
  pub released : List l.Link
  pub memory_locked : Bool

module _ (l : Libbpf) where
  -- Before and after `ALLOCATOR.lock_memory`.
  abbrev pub untouched : Footprint l
  untouched = record { attached = []; released = []; memory_locked = false }

  abbrev pub locked : Footprint l
  locked = record untouched { memory_locked = true }

  abbrev pub holding : l.Link → Footprint l
  holding link = record locked { attached = link ∷ [] }

  -- The local `struct_ops` is dropped at the end of a failed call.
  abbrev pub dropping : l.Link → Footprint l
  dropping link = record (holding link) { released = link ∷ [] }

  abbrev pub Built : Type 0
  Built = Footprint l × Outcome (Result (BpfScheduler l) InitError)

module _ (p : Profile) (l : Libbpf) (host : Host l) where
  unfoldable pub use_sched_ext : ℤ
  use_sched_ext = host.sched_setscheduler (as_i32 host.process_id) sched_ext (pos 0)

  -- The options before the program is loaded.
  abbrev pub configure : Options → ℕ → Config → Config
  configure o slice_ns c = record {
    num_possible_cpus = o.nr_cpus_online;
    ops_flags = if o.partial then bit_or c.ops_flags host.partial_flag else c.ops_flags;
    exit_dump_len = o.exit_dump_len;
    slice_ns = slice_ns;
    switch_partial = o.partial;
    debug = o.debug;
    full_user = o.full_user;
    low_power = o.low_power;
    fifo_sched = o.fifo_sched;
  }

  -- With the link, from the ring buffers on.
  unfoldable pub build : Config → Bss → l.Link → Built l
  build config bss link = elim host.ring [
    | none ↦ (dropping l link, panicked)
    | some queued ↦ elim host.user_ring [
      | none ↦ (dropping l link, panicked)
      | some dispatched ↦
          if eqb_ℤ (use_sched_ext) (pos 0)
          then (
            holding l link,
            returned (
                ok (record {
                  config = config;
                  bss = bss;
                  queued = queued;
                  dispatched = dispatched;
                  struct_ops = some link;
                  buf = host.static_buf;
                })),
          )
          else (dropping l link, returned (err (sched_setscheduler_error use_sched_ext)))
    ]
  ]

  -- From the load on.
  unfoldable pub attach_and_build : Config → Bss → Built l
  unfolding build
  attach_and_build config bss = elim (host.load config bss) [
    | none ↦ (locked l, returned (err load_failed))
    | some (config', bss') ↦ elim (host.attach config' bss') [
      | none ↦ (locked l, returned (err attach_failed))
      | some link ↦ build config' bss' link
    ]
  ]

  unfoldable pub init : Options → Built l
  init o = elim host.opened [
    | none ↦ (untouched l, returned (err open_failed))
    | some (c, bss) ↦ elim (mul_u64 p o.slice_us 1000) [
      | none ↦ (locked l, panicked)
      | some slice_ns ↦
          attach_and_build (configure o slice_ns c) (record bss { usersched_pid = host.process_id })
    ]
  ]

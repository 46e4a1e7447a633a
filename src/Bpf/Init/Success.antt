-- ===== src/Bpf/Init/Success.antt =====
-- democracy-scheduler/src/bpf.rs: what an `init` that succeeds has done.
use managed_linux_democracy.Prelude.{
  ℕ, ◌≡◌, ◌≢◌, ◌∙◌, refl, ap, arith, pos, eqb_ℤ_iff, Profile, Option-cases, none, some, ok,
  returned, inl, inr,
}
use managed_linux_democracy.Bpf.Libbpf.{Libbpf}
use managed_linux_democracy.Bpf.Connection.{Bss, Config, BpfScheduler}
use managed_linux_democracy.Bpf.Init.{
  Options, Host, mul_u64, use_sched_ext, configure, Built, build, attach_and_build, init,
}

module _ (p : Profile) (l : Libbpf) (host : Host l) where
  init_attaches :
      (o : Options) (c : Config) (bss : Bss) (slice_ns : ℕ) {r : Built l}
      → host.opened ≡ some (c, bss)
      → mul_u64 p o.slice_us 1000 ≡ some slice_ns
      → init p l host o ≡ r
      → attach_and_build p l host
          (configure p l host o slice_ns c)
          (record bss { usersched_pid = host.process_id })
        ≡ r
  unfolding init
  init_attaches o c bss slice_ns e f h = ground arith

  attach_and_build-ok :
      (config : Config) (bss : Bss) (s : BpfScheduler l)
      → (attach_and_build p l host config bss).1 ≡ returned (ok s)
      → (host.load config bss ≡ some (s.config, s.bss))
        × (s.struct_ops ≡ host.attach s.config s.bss)
        × (s.struct_ops ≢ none)
        × (use_sched_ext p l host ≡ pos 0)
  unfolding attach_and_build build
  attach_and_build-ok config bss s h = ground (arith, eqb_ℤ_iff (use_sched_ext p l host) (pos 0))

  -- An `init` that succeeds has opened the program, has loaded and attached it with exactly these
  -- options, the time slice in nanoseconds and the scheduler's own process, holds the link, and has
  -- put the scheduler itself under SCHED_EXT.
  pub init-ok :
      (o : Options) (s : BpfScheduler l)
      → (init p l host o).1 ≡ returned (ok s)
      → (c : Config) × (bss : Bss) × (slice_ns : ℕ) × (host.opened ≡ some (c, bss))
        × (mul_u64 p o.slice_us 1000 ≡ some slice_ns)
        × (host.load
              (configure p l host o slice_ns c)
              (record bss { usersched_pid = host.process_id })
            ≡ some (s.config, s.bss))
        × (s.struct_ops ≡ host.attach s.config s.bss)
        × (s.struct_ops ≢ none)
        × (use_sched_ext p l host ≡ pos 0)
  unfolding init
  init-ok o s h = elim (Option-cases host.opened) [
    | inl fails ↦ absurd (ground arith)
    | inr ((c, bss), opened) ↦ elim (Option-cases (mul_u64 p o.slice_us 1000)) [
      | inl overflows ↦ absurd (ground arith)
      | inr (slice_ns, product) ↦
          let (loaded, attached, held, under) =
            attach_and_build-ok (configure p l host o slice_ns c)
              (record bss { usersched_pid = host.process_id }) s
              (ap (λ t. t.1) (init_attaches o c bss slice_ns opened product refl) ∙ h) in
          (c, bss, slice_ns, opened, product, loaded, attached, held, under)
    ]
  ]

-- ===== src/Bpf/Init/Settling.antt =====
-- democracy-scheduler/src/bpf.rs: what becomes of the link and of the memory lock that `init` takes.
use managed_linux_democracy.Prelude.{
  ◌≡◌, refl, true, false, Profile, List, [], ◌∷◌, Option-cases, Bool-cases, eqb_ℤ, pos, none, ok,
  err, returned, inl, inr,
}
use managed_linux_democracy.Bpf.Libbpf.{Libbpf}
use managed_linux_democracy.Bpf.Connection.{Bss, Config, BpfScheduler}
use managed_linux_democracy.Bpf.Init.{
  Options, open_failed, Host, Footprint, mul_u64, configure, Built, holding, use_sched_ext, build,
  attach_and_build, init,
}
use managed_linux_democracy.Bpf.Lifetime.{ExitInfo, Owned, drop, Call, call_all, drop-released}

module _ (l : Libbpf) (info : ExitInfo l) where
  -- The scheduler that `init` returns, with what it left behind.
  abbrev pub owned : Footprint l → BpfScheduler l → Owned l
  owned f s = record { scheduler = s; released = f.released; memory_locked = f.memory_locked }

  -- How it ends: with a scheduler, whose one link is released by its drop, once, and the memory then
  -- unlocked, whatever calls come before; or before the memory is locked, with no link; or with every
  -- link that was made released, but the memory still locked.
  abbrev pub Settles : List (Call l info) → Built l → Type 0
  Settles calls (f, returned (ok s)) =
      let end = drop l (call_all l info calls (owned f s)) in
      (link : l.Link) × (f.attached ≡ link ∷ [])
      × (f.released ≡ [])
      × (f.memory_locked ≡ true)
      × (end.released ≡ link ∷ [])
      × (end.scheduler.struct_ops ≡ none)
      × (end.memory_locked ≡ false)
  Settles calls (f, returned (err open_failed)) = (f.attached ≡ []) × (f.memory_locked ≡ false)
  Settles calls (f, _) = (f.released ≡ f.attached) × (f.memory_locked ≡ true)

module _ (p : Profile) (l : Libbpf) (host : Host l) (info : ExitInfo l) where
  -- With the link: it is held by a scheduler or dropped.
  build-Settles :
      (calls : List (Call l info)) (config : Config) (bss : Bss) (link : l.Link)
      → Settles l info calls (build p l host config bss link)
  unfolding build
  build-Settles calls config bss link = elim (Option-cases host.ring) [
    | inl no_ring ↦ rw (no_ring, build) (refl, refl)
    | inr (queued, ring) ↦ elim (Option-cases host.user_ring) [
      | inl no_ring ↦ rw (ring, no_ring, build) (refl, refl)
      | inr (dispatched, user_ring) ↦ elim (Bool-cases (eqb_ℤ (use_sched_ext p l host) (pos 0))) [
        | inr refused ↦ rw (ring, user_ring, refused, build) (refl, refl)
        | inl under ↦
            let (once, none_held, unlocked) =
              drop-released l info calls (owned l info (holding l link) _) link refl in
            rw (ring, user_ring, under, build) (link, refl, refl, refl, once, none_held, unlocked)
      ]
    ]
  ]

  attach_and_build-Settles :
      (calls : List (Call l info)) (config : Config) (bss : Bss)
      → Settles l info calls (attach_and_build p l host config bss)
  unfolding attach_and_build
  attach_and_build-Settles calls config bss = elim (Option-cases (host.load config bss)) [
    | inl fails ↦ rw (fails, attach_and_build) (refl, refl)
    | inr ((config', bss'), loads) ↦ elim (Option-cases (host.attach config' bss')) [
      | inl fails ↦ rw (loads, fails, attach_and_build) (refl, refl)
      | inr (link, attaches) ↦
          rw (loads, attaches, attach_and_build) (build-Settles calls config' bss' link)
    ]
  ]

  -- Whatever `init` meets: if it returns a scheduler, the one link that it has made is released by
  -- the scheduler's drop, exactly once and whatever calls come before, and the memory is unlocked
  -- then; if the program cannot be opened, no link is made and the memory is not locked; if it fails
  -- or panics later, every link that it has made is released, but the memory stays locked.
  pub init-Settles :
      (calls : List (Call l info)) (o : Options) → Settles l info calls (init p l host o)
  unfolding init
  init-Settles calls o = elim (Option-cases host.opened) [
    | inl fails ↦ rw (fails, init) (refl, refl)
    | inr ((c, bss), opens) ↦ elim (Option-cases (mul_u64 p o.slice_us 1000)) [
      | inl overflows ↦ rw (opens, overflows, init) (refl, refl)
      | inr (slice_ns, product) ↦
          rw (opens, product, init)
            (attach_and_build-Settles calls (configure p l host o slice_ns c)
              (record bss { usersched_pid = host.process_id }))
    ]
  ]

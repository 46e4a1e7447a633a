-- ===== src/Scheduler/Shutdown.antt =====
-- democracy-scheduler/src/main.rs: the start of the scheduler, and the loop of `main` after Ctrl-C.
use Prim.Native.String.{String}
use managed_linux_democracy.Prelude.{
  ℕ, zero, suc, ◌≤◌, ◌≡◌, ◌≢◌, refl, sym, ◌∙◌, ◌⊎◌, inl, inr, arith, nat_eq, Bool, true, false,
  Profile, [], Option, none, some, Option-cases, ok, Outcome, returned, panicked,
}
use managed_linux_democracy.Prelude.Map.{get, insert}
use managed_linux_democracy.Scheduler.Competitors.{Competitors, summer1, summer2, competitors_eq}
use managed_linux_democracy.Scheduler.Connector.{Connector}
use managed_linux_democracy.Scheduler.Drain.{Task}
use managed_linux_democracy.Scheduler.Schedule.{Scheduler}
use managed_linux_democracy.Scheduler.Invariant.{Entry, IsWired}
use managed_linux_democracy.Scheduler.Chain.{run-round}
use managed_linux_democracy.Scheduler.Main.{
  World, Ended, round, run, main_loop, init, register, launch,
}

registered-entries : (a b pid : ℕ) → Entry 0 pid (get pid (insert b none (insert a none [])))
unfolding get insert
registered-entries a b pid = ground arith

module _ (c : Connector) where
  -- Both competitors own the pid of their process, which is known, though it may be one pid.
  pub register-IsWired :
      (a b : ℕ) (bpf : c.State)
      → let s = register c a b (init c bpf) in IsWired 0 s.owner_map s.task_map
  unfolding register get insert
  register-IsWired a b bpf = record { owned = owned; entries = registered-entries a b }
    where
      owned :
          (w : Competitors)
          → (pid : ℕ) × (o : Option Task) × (get w (insert summer2 b (insert summer1 a []))
              ≡ some pid)
            × (get pid (insert b none (insert a none [])) ≡ some o)
      owned summer1 = (a, none, ground arith, ground arith)
      owned summer2 = (b, none, ground arith, ground arith)

  launch_first :
      (spawn : String → String → Option ℕ) (bpf : c.State)
      → spawn "thingdoer" "summer1" ≡ none
      → launch c spawn (init c bpf) ≡ panicked
  unfolding launch
  launch_first spawn bpf e = ground arith

  launch_second :
      (spawn : String → String → Option ℕ) (bpf : c.State) (a : ℕ)
      → spawn "thingdoer" "summer1" ≡ some a
      → spawn "thingdoer" "summer2" ≡ none
      → launch c spawn (init c bpf) ≡ panicked
  unfolding launch
  launch_second spawn bpf a e f = ground arith

  launch_both :
      (spawn : String → String → Option ℕ) (bpf : c.State) (a b : ℕ)
      → spawn "thingdoer" "summer1" ≡ some a
      → spawn "thingdoer" "summer2" ≡ some b
      → launch c spawn (init c bpf) ≡ returned (register c a b (init c bpf))
  unfolding launch
  launch_both spawn bpf a b e f = ground arith

  -- If both processes start, the scheduler that `main` runs is wired up; otherwise `main` panics.
  pub launch-IsWired :
      (spawn : String → String → Option ℕ) (bpf : c.State)
      → ((s : Scheduler c) × (launch c spawn (init c bpf) ≡ returned s)
          × IsWired 0 s.owner_map s.task_map)
        ⊎ ((launch c spawn (init c bpf) ≡ panicked)
            × ((spawn "thingdoer" "summer1" ≡ none) ⊎ (spawn "thingdoer" "summer2" ≡ none)))
  launch-IsWired spawn bpf = elim (Option-cases (spawn "thingdoer" "summer1")) [
    | inl fails ↦ inr (launch_first spawn bpf fails, inl fails)
    | inr (a, starts) ↦ elim (Option-cases (spawn "thingdoer" "summer2")) [
      | inl fails ↦ inr (launch_second spawn bpf a starts fails, inr fails)
      | inr (b, starts') ↦ inl (
        register c a b (init c bpf),
        launch_both spawn bpf a b starts starts',
        register-IsWired a b bpf,
      )
    ]
  ]

module _ (p : Profile) (c : Connector) (world : World) where
  -- `run` has no result but `Ok`.
  run-ok :
      (fuel i : ℕ) (s : Scheduler c) (e : Ended c)
      → run p c world fuel i s ≡ some (returned e)
      → e.result ≡ ok tt
  unfolding run
  run-ok zero i s e h = cc
  run-ok (suc fuel) i s e h =
      go (λ s'. run-ok fuel (suc i) s' e) (world.shutdown i) refl (round p c world i s) refl
    where
      go :
          (later : (s' : Scheduler c)
            → run p c world fuel (suc i) s' ≡ some (returned e)
            → e.result ≡ ok tt)
          (b : Bool)
          → world.shutdown i ≡ b
          → (o : Option (Outcome (Scheduler c))) → round p c world i s ≡ o
          → e.result ≡ ok tt
      go later true set o f = ground arith
      go later false unset none f = ground arith
      go later false unset (some panicked) f = ground arith
      go later false unset (some (returned s')) f =
          later s' (sym (run-round p c world fuel i s s' unset f) ∙ h)

  main_loop_again :
      (fuel i : ℕ) (s : Scheduler c) (x : Ended c)
      → run p c world (suc fuel) i s ≡ some (returned x)
      → x.result ≡ ok tt
      → main_loop p c world (suc fuel) i s ≡ main_loop p c world fuel (suc x.loads) x.scheduler
  unfolding main_loop
  main_loop_again fuel i s x h e = ground arith

  -- The loop of `main` is never left by its `break`: whatever the flag and the answers are, it has
  -- not ended after any number of rounds.
  pub main_loop-never_breaks :
      (fuel i : ℕ) (s : Scheduler c) (e : Ended c)
      → main_loop p c world fuel i s ≢ some (returned e)
  unfolding main_loop
  main_loop-never_breaks zero i s e h = cc
  main_loop-never_breaks (suc fuel) i s e h =
      go (λ j t. main_loop-never_breaks fuel j t e) (run p c world (suc fuel) i s) refl
    where
      go :
          (later : (j : ℕ) (t : Scheduler c) → main_loop p c world fuel j t ≢ some (returned e))
          (o : Option (Outcome (Ended c)))
          → run p c world (suc fuel) i s ≡ o
          → ⊥
      go later none f = ground arith
      go later (some panicked) f = ground arith
      go later (some (returned x)) f =
          later (suc x.loads) x.scheduler
            (sym (main_loop_again fuel i s x f (run-ok (suc fuel) i s x f)) ∙ h)

  -- Once the flag is set for good, the loop of `main` goes on for ever: it has not ended, nor
  -- panicked, after any number of rounds.
  pub main_loop-shutdown :
      (fuel i : ℕ) (s : Scheduler c)
      → ((j : ℕ) → i ≤ j → world.shutdown j ≡ true)
      → main_loop p c world fuel i s ≡ none
  unfolding main_loop run
  main_loop-shutdown zero i s set = refl
  main_loop-shutdown (suc fuel) i s set =
      ground (arith, set i, main_loop-shutdown fuel (suc i) s (λ j h. set j (omega arith)))

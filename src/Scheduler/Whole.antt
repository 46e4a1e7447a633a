-- ===== src/Scheduler/Whole.antt =====
-- democracy-scheduler/src/main.rs: `main` from its start to after Ctrl-C.
use Prim.Native.String.{String}
use managed_linux_democracy.Prelude.{
  ℕ, zero, suc, ◌+◌, ◌*◌, ◌^◌, ◌≤◌, ◌<◌, ◌≡◌, refl, sym, ap, ◌∙◌, subst, inl, inr, arith, nat_eq,
  Bool, true, false, Profile, Option, none, some, ok, returned, ltb, Bool-cases,
}
use managed_linux_democracy.Logging.{Tracing, set_up-installed}
use managed_linux_democracy.Bpf.Libbpf.{Libbpf}
use managed_linux_democracy.Bpf.Init.{Host}
use managed_linux_democracy.Bpf.Implements.{bpf_connector}
use managed_linux_democracy.Scheduler.Logger.{directives, directives-IsOff, init_logger}
use managed_linux_democracy.Scheduler.Connector.{Connector}
use managed_linux_democracy.Scheduler.Schedule.{Scheduler}
use managed_linux_democracy.Scheduler.Invariant.{IsWired}
use managed_linux_democracy.Scheduler.Choice.{a_second}
use managed_linux_democracy.Scheduler.Main.{World, run, main_loop}
use managed_linux_democracy.Scheduler.Follows.{round-Follows}
use managed_linux_democracy.Scheduler.Chain.{StopsAfter, run-round}
use managed_linux_democracy.Scheduler.Rounds.{Turns, run-Turns}
use managed_linux_democracy.Scheduler.Shutdown.{main_loop-shutdown}
use managed_linux_democracy.Scheduler.Start.{start, start_and_loop, main}
use managed_linux_democracy.Scheduler.Ready.{start-ok}

module _ (p : Profile) (c : Connector) (world : World) where
  -- While the flag is not set, `run` goes on.
  run-busy :
      (fuel i bound : ℕ) (s : Scheduler c)
      → ((k : ℕ) → k < fuel → world.shutdown (i + k) ≡ false)
      → bound + fuel * a_second < 2 ^ 64
      → IsWired bound s.owner_map s.task_map
      → run p c world fuel i s ≡ none
  unfolding run
  run-busy zero i bound s unset room w = refl
  run-busy (suc fuel) i bound s unset room w =
      let (s', done, wired, same, turns) = round-Follows p c world i bound s (omega arith) w in
      let here : i + 0 ≡ i = omega arith in
      run-round p c world fuel i s s'
        (subst (λ j. world.shutdown j ≡ false) here (unset 0 (omega arith))) done
      ∙ run-busy fuel (suc i) (bound + a_second) s'
          (λ k h.
            let next : i + suc k ≡ suc i + k = omega arith in
            subst (λ j. world.shutdown j ≡ false) next (unset (suc k) (omega arith)))
          (omega arith)
          (subst (λ owners. IsWired (bound + a_second) owners s'.task_map) (sym same) wired)

  main_loop_busy :
      (fuel i : ℕ) (s : Scheduler c)
      → run p c world (suc fuel) i s ≡ none
      → main_loop p c world (suc fuel) i s ≡ none
  unfolding main_loop
  main_loop_busy fuel i s e = ground arith

  main_loop_next :
      (fuel i j : ℕ) (s s' : Scheduler c)
      → run p c world (suc fuel) i s
        ≡ some (returned (record { loads = j; scheduler = s'; result = ok tt }))
      → main_loop p c world (suc fuel) i s ≡ main_loop p c world fuel (suc j) s'
  unfolding main_loop
  main_loop_next fuel i j s s' e = ground arith

  main_loop-none :
      (fuel n : ℕ) (s : Scheduler c)
      → StopsAfter world n 0
      → ((j : ℕ) → n ≤ j → world.shutdown j ≡ true)
      → n * a_second < 2 ^ 64
      → IsWired 0 s.owner_map s.task_map
      → main_loop p c world fuel 0 s ≡ none
  unfolding main_loop
  main_loop-none zero n s stops set room w = refl
  main_loop-none (suc fuel) n s stops set room w = elim (Bool-cases (ltb n (suc fuel))) [
    | inl stopped ↦
        let (s', ends, wired, same, turns) =
          run-Turns p c world n 0 0 (suc fuel) s stops (ground arith) (omega arith) w in
        main_loop_next fuel 0 (0 + n) s s' ends
        ∙ main_loop-shutdown p c world fuel (suc (0 + n)) s' (λ j h. set j (omega arith))
    | inr goes_on ↦
        let below : suc fuel ≤ n = ground arith in
        main_loop_busy fuel 0 s
          (run-busy (suc fuel) 0 0 s (λ k h. stops.before k (omega arith)) (omega arith) w)
  ]

module _ (p : Profile) (l : Libbpf) (host : Host l) where
  -- `main` reaches its loop, and Ctrl-C sets the flag for good after `n` rounds, before `n` seconds of
  -- run time overflow: then the first call of `run` returns after those rounds, in which it has sent
  -- at most one turn each, a tenth of a second for a process that a competitor owns.
  pub start-Turns :
      (world : World) (n : ℕ) (handler : Bool) (topology : Option ℕ)
      (spawn : String → String → Option ℕ) (s : Scheduler (bpf_connector l))
      → (start p l host handler topology spawn).1 ≡ returned (ok s)
      → StopsAfter world n 0
      → n * a_second < 2 ^ 64
      → (s' : Scheduler (bpf_connector l)) × (run p (bpf_connector l) world (suc n) 0 s
          ≡ some (returned (record { loads = n; scheduler = s'; result = ok tt })))
        × (s'.owner_map ≡ s.owner_map)
        × Turns s.owner_map n ((bpf_connector l).sent s.bpf) ((bpf_connector l).sent s'.bpf)
  start-Turns world n handler topology spawn s started stops room =
      let (nr, handled, found, attached, wired, owned) =
        start-ok p l host handler topology spawn s started in
      let (s', ends, wired', same, turns) =
        run-Turns p (bpf_connector l) world n 0 0 (suc n) s stops (omega arith) (omega arith)
          wired in
      let here : 0 + n ≡ n = omega arith in
      (
        s',
        ends
            ∙ ap (λ j. some (returned (record { loads = j; scheduler = s'; result = ok tt }))) here,
        same,
        turns,
      )

  start_and_loop-none :
      (world : World) (fuel n : ℕ) (handler : Bool) (topology : Option ℕ)
      (spawn : String → String → Option ℕ) (s : Scheduler (bpf_connector l))
      → (start p l host handler topology spawn).1 ≡ returned (ok s)
      → StopsAfter world n 0
      → ((j : ℕ) → n ≤ j → world.shutdown j ≡ true)
      → n * a_second < 2 ^ 64
      → start_and_loop p l host world fuel handler topology spawn ≡ none
  unfolding start_and_loop
  start_and_loop-none world fuel n handler topology spawn s started stops set room =
      let (nr, handled, found, attached, wired, owned) =
        start-ok p l host handler topology spawn s started in
      rw (started, start_and_loop)
        (rw
          (main_loop-none p (bpf_connector l) world fuel n s stops set room wired, start_and_loop))

  -- In the same case, and if no subscriber for its logs was there before, `main` as a whole does not
  -- end after any number of rounds: it neither returns nor panics.
  pub main-endless :
      (t : Tracing) (g : t.Global) (world : World) (fuel n : ℕ) (handler : Bool)
      (topology : Option ℕ) (spawn : String → String → Option ℕ) (s : Scheduler (bpf_connector l))
      → t.installed g ≡ none
      → (start p l host handler topology spawn).1 ≡ returned (ok s)
      → StopsAfter world n 0
      → ((j : ℕ) → n ≤ j → world.shutdown j ≡ true)
      → n * a_second < 2 ^ 64
      → main p l host t g world fuel handler topology spawn ≡ none
  unfolding main init_logger
  main-endless t g world fuel n handler topology spawn s fresh started stops set room =
      let (filter, g', parsed, logs, installed) =
        set_up-installed t directives true g directives-IsOff fresh in
      rw (logs, main, init_logger)
        (start_and_loop-none world fuel n handler topology spawn s started stops set room)

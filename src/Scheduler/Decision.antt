-- ===== src/Scheduler/Decision.antt =====
-- democracy-scheduler/src/main.rs: what one call of `schedule` decides.
use managed_linux_democracy.Prelude.{
  ℕ, ◌+◌, ◌^◌, ◌<◌, ◌≡◌, refl, ap, ◌∙◌, subst, inl, inr, arith, nat_eq, Profile, fun_ext, length,
  Option, none, some, Result, ok, err, returned,
}
use managed_linux_democracy.Prelude.Map.{get, insert}
use managed_linux_democracy.Bpf.Task.{new_task, set_slice_ns}
use managed_linux_democracy.Scheduler.Competitors.{Competitors, competitors_eq}
use managed_linux_democracy.Scheduler.Winner.{WinnerError}
use managed_linux_democracy.Scheduler.Connector.{Connector}
use managed_linux_democracy.Scheduler.Drain.{Task, TaskMap, tracked, drain-ends, drain}
use managed_linux_democracy.Scheduler.Schedule.{Scheduler, dispatch_winner, run_winner, schedule}
use managed_linux_democracy.Scheduler.Invariant.{
  Belongs, Entry, IsWired, tracked-IsWired, IsWired-mono, insert-IsWired,
}
use managed_linux_democracy.Scheduler.Choice.{turn, turn_of, chosen, Sends, a_second}

module _ (p : Profile) (c : Connector) where
  -- A round that went well, from the state `s` with `tasks` known when the winner is asked for.
  abbrev pub Goes :
      ℕ
      → Result Competitors WinnerError
      → Scheduler c
      → (ℕ → Option (Option Task))
      → Scheduler c
      → Type 0
  Goes bound answer s tasks s' =
      IsWired (bound + a_second) s'.owner_map s'.task_map
      × (s'.owner_map ≡ s.owner_map)
      × Sends c (c.sent s.bpf) (chosen answer s.owner_map tasks) s'.bpf
      × (c.told s'.bpf ≡ c.told s.bpf)

  ran : Task → Task
  ran t = record t { vruntime = t.vruntime + a_second }

  after_turn : ℕ → Task → Scheduler c → c.State → Scheduler c
  after_turn pid t s bpf = record s { bpf = bpf; task_map = insert pid (some (ran t)) s.task_map }

  dispatch_winner_of :
      (pid : ℕ) (t : Task) (s : Scheduler c) (bpf : c.State) (r : Result (Unit {0}) c.Error)
      → t.vruntime + a_second < 2 ^ 64
      → c.dispatch_task (turn t.queued_task) s.bpf ≡ (bpf, returned r)
      → dispatch_winner p c pid t s ≡ returned (after_turn pid t s bpf)
  unfolding dispatch_winner new_task set_slice_ns after_turn ran
  dispatch_winner_of pid t s bpf r room e = ground arith

  dispatched :
      (bound pid : ℕ) (t : Task) (s : Scheduler c)
      → bound + a_second < 2 ^ 64
      → IsWired bound s.owner_map s.task_map
      → get pid s.task_map ≡ some (some t)
      → (s' : Scheduler c) × (dispatch_winner p c pid t s ≡ returned s')
        × IsWired (bound + a_second) s'.owner_map s'.task_map
        × (s'.owner_map ≡ s.owner_map)
        × Sends c (c.sent s.bpf) (some (turn t.queued_task)) s'.bpf
        × (c.told s'.bpf ≡ c.told s.bpf)
  unfolding after_turn ran
  dispatched bound pid t s room w known = elim (c.dispatch (turn t.queued_task) s.bpf) [
    | inl (bpf, done, sent, told) ↦ (
      after_turn pid t s bpf,
      dispatch_winner_of pid t s bpf (ok tt) fits done,
      wired,
      refl,
      inr sent,
      told,
    )
    | inr (bpf, e, done, sent, told) ↦ (
      after_turn pid t s bpf,
      dispatch_winner_of pid t s bpf (err e) fits done,
      wired,
      refl,
      inl (s.bpf, e, done, sent),
      told,
    )
  ]
    where
      own : Belongs bound pid (some t)
      own = subst (Entry bound pid) known (w.entries pid)

      fits : t.vruntime + a_second < 2 ^ 64
      fits = omega (arith, own.1)

      wired : IsWired (bound + a_second) s.owner_map (insert pid (some (ran t)) s.task_map)
      wired =
          insert-IsWired bound (bound + a_second) s.owner_map s.task_map pid (ran t) (omega arith)
            (own.0, omega (arith, own.1)) w

  -- The part of the round after the first loop.
  run_winner-Goes :
      (bound : ℕ) (answer : Result Competitors WinnerError) (s : Scheduler c)
      → bound + a_second < 2 ^ 64
      → IsWired bound s.owner_map s.task_map
      → (s' : Scheduler c) × (run_winner p c answer s ≡ returned s')
        × Goes bound answer s (λ pid. get pid s.task_map) s'
  unfolding run_winner
  run_winner-Goes bound (err e) s room w =
      (s, refl, (IsWired-mono bound (bound + a_second) _ _ (omega arith) w, refl, refl, refl))
  run_winner-Goes bound (ok x) s room w =
      let (pid, o, owner, entry) = w.owned x in go pid o owner entry
    where
      go :
          (pid : ℕ) (o : Option Task)
          → get x s.owner_map ≡ some pid
          → get pid s.task_map ≡ some o
          → (s' : Scheduler c) × (run_winner p c (ok x) s ≡ returned s')
            × Goes bound (ok x) s (λ j. get j s.task_map) s'
      go pid none owner entry = (
        s,
        rw (owner, run_winner) (rw (entry, run_winner)),
        (
          IsWired-mono bound (bound + a_second) _ _ (omega arith) w,
          refl,
          rw (owner, chosen) (rw (entry, turn_of)),
          refl,
        ),
      )
      go pid (some t) owner entry =
          let (s', done, wired, owners, sends, told) = dispatched bound pid t s room w entry in
          (
            s',
            rw (owner, run_winner) (rw (entry, run_winner) done),
            (wired, owners, rw (owner, chosen) (rw (entry, turn_of) sends), told),
          )

  pub schedule_drained :
      (fuel : ℕ) (answer : Result Competitors WinnerError) (s : Scheduler c) (bpf : c.State)
      (m : TaskMap)
      → drain c fuel s.bpf s.task_map ≡ some (returned (bpf, m))
      → schedule p c fuel answer s
        ≡ some (run_winner p c answer (record s { bpf = bpf; task_map = m }))
  unfolding schedule
  schedule_drained fuel answer s bpf m e = ground arith

  -- One call of `schedule`, from a state that is wired up, where no task has run for so long that
  -- another second overflows: with more fuel than the queue has entries it returns, and does not
  -- panic. The state is wired up again, with the same owners, and no task has run a second longer
  -- than before. If the answer names a winner whose task is known, from the queue or from earlier,
  -- then one turn of a tenth of a second for that task is sent, or its dispatch failed and nothing
  -- is; otherwise nothing is sent. The kernel's part has been told that nothing is queued.
  pub schedule-Goes :
      (fuel bound : ℕ) (answer : Result Competitors WinnerError) (s : Scheduler c)
      → length (c.queue s.bpf) < fuel
      → bound + a_second < 2 ^ 64
      → IsWired bound s.owner_map s.task_map
      → (s' : Scheduler c) × (schedule p c fuel answer s ≡ some (returned s'))
        × IsWired (bound + a_second) s'.owner_map s'.task_map
        × (s'.owner_map ≡ s.owner_map)
        × Sends c
            (c.sent s.bpf)
            (chosen answer s.owner_map (λ pid. tracked pid (c.queue s.bpf) (get pid s.task_map)))
            s'.bpf
        × (c.told s'.bpf ≡ (0, 0))
  schedule-Goes fuel bound answer s enough room w =
      let (bpf, m, ends, entries, kept, told) = drain-ends c fuel s.bpf s.task_map enough in
      let t : Scheduler c = record s { bpf = bpf; task_map = m } in
      let (s', done, (wired, owners, sends, told')) =
        run_winner-Goes bound answer t room
          (tracked-IsWired bound s.owner_map s.task_map m (c.queue s.bpf) entries w) in
      (
        s',
        schedule_drained fuel answer s bpf m ends ∙ ap some done,
        wired,
        owners,
        subst (λ tasks. Sends c (c.sent s.bpf) (chosen answer s.owner_map tasks) s'.bpf)
            (fun_ext entries)
            (subst (λ before. Sends c before (chosen answer s.owner_map (λ pid. get pid m)) s'.bpf)
              kept sends),
        told' ∙ told,
      )

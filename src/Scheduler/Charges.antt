-- ===== src/Scheduler/Charges.antt =====
-- democracy-scheduler/src/main.rs: the run time that a round of `schedule` charges, and to whom.
use managed_linux_democracy.Prelude.{
  ℕ, ◌+◌, ◌^◌, ◌%◌, ◌<◌, ◌≡◌, refl, ap, ◌∙◌, arith, nat_eq, if◌then◌else◌, eqb, Profile, length,
  Option, none, some, Result, ok, err, returned,
}
use managed_linux_democracy.Prelude.Map.{Map, get, get-insert}
use managed_linux_democracy.Scheduler.Competitors.{Competitors, competitors_eq}
use managed_linux_democracy.Scheduler.Winner.{WinnerError}
use managed_linux_democracy.Scheduler.Connector.{Connector}
use managed_linux_democracy.Scheduler.Drain.{Task, tracked, drain-ends}
use managed_linux_democracy.Scheduler.Schedule.{Scheduler, dispatch_winner, run_winner, schedule}
use managed_linux_democracy.Scheduler.Decision.{schedule_drained}
use managed_linux_democracy.Scheduler.Choice.{a_second}

-- A task that is known has run a second longer, modulo 2 ^ 64.
abbrev pub charge : Option (Option Task) → Option (Option Task)
charge none = none
charge (some none) = some none
charge (some (some t)) = some (some (record t { vruntime = (t.vruntime + a_second) % 2 ^ 64 }))

-- What stands under a pid after a round: the winner's task is charged, and no other.
abbrev pub charged :
    Result Competitors WinnerError
    → Map Competitors ℕ
    → ℕ
    → Option (Option Task)
    → Option (Option Task)
charged (err _) owners pid o = o
charged (ok w) owners pid o = elim (get w owners) [
  | none ↦ o
  | some winner_pid ↦ if eqb pid winner_pid then charge o else o
]

module _ (p : Profile) (c : Connector) where
  dispatch_winner-charge :
      (pid j : ℕ) (t : Task) (s s' : Scheduler c)
      → get pid s.task_map ≡ some (some t)
      → dispatch_winner p c pid t s ≡ returned s'
      → (get j s'.task_map ≡ (if eqb j pid then charge (get j s.task_map) else get j s.task_map))
        × (s'.owner_map ≡ s.owner_map)
  unfolding dispatch_winner
  dispatch_winner-charge pid j t s s' known h = ground (
    arith,
    get-insert j pid (some (record t { vruntime = t.vruntime + 1_000_000_000 })) s.task_map,
    get-insert j pid (some (record t { vruntime = (t.vruntime + 1_000_000_000) % 2 ^ 64 }))
        s.task_map,
  )

  run_winner-charged :
      (answer : Result Competitors WinnerError) (j : ℕ) (s s' : Scheduler c)
      → run_winner p c answer s ≡ returned s'
      → (get j s'.task_map ≡ charged answer s.owner_map j (get j s.task_map))
        × (s'.owner_map ≡ s.owner_map)
  unfolding run_winner
  run_winner-charged (err e) j s s' h = ground arith
  run_winner-charged (ok w) j s s' h = go (get w s.owner_map) refl
    where
      entry :
          (pid : ℕ)
          → get w s.owner_map ≡ some pid
          → (x : Option (Option Task)) → get pid s.task_map ≡ x
          → (get j s'.task_map
              ≡ (if eqb j pid then charge (get j s.task_map) else get j s.task_map))
            × (s'.owner_map ≡ s.owner_map)
      entry pid e none f = absurd (ground arith)
      entry pid e (some none) f = ground arith
      entry pid e (some (some t)) f = dispatch_winner-charge pid j t s s' f (ground arith)

      go :
          (o : Option ℕ)
          → get w s.owner_map ≡ o
          → (get j s'.task_map ≡ charged (ok w) s.owner_map j (get j s.task_map))
            × (s'.owner_map ≡ s.owner_map)
      go none e = absurd (ground arith)
      go (some pid) e =
          let (entered, owners) = entry pid e (get pid s.task_map) refl in
          (entered ∙ rw (e, charged), owners)

  pub schedule-charges :
      (fuel : ℕ) (answer : Result Competitors WinnerError) (s s' : Scheduler c) (pid : ℕ)
      → length (c.queue s.bpf) < fuel
      → schedule p c fuel answer s ≡ some (returned s')
      → (get pid s'.task_map
          ≡ charged answer s.owner_map pid (tracked pid (c.queue s.bpf) (get pid s.task_map)))
        × (s'.owner_map ≡ s.owner_map)
  schedule-charges fuel answer s s' pid enough h =
      let (bpf, m, ends, entries, kept, told) = drain-ends c fuel s.bpf s.task_map enough in
      let t : Scheduler c = record s { bpf = bpf; task_map = m } in
      let wins : run_winner p c answer t ≡ returned s' =
        cc (schedule_drained p c fuel answer s bpf m ends) in
      let (entered, owners) = run_winner-charged answer pid t s' wins in
      (entered ∙ ap (charged answer s.owner_map pid) (entries pid), owners)

  -- Whenever `schedule` returns, with more fuel than the queue has entries: each pid has its last task
  -- of the queue or else what it had, and the winner's task, if there is one, has run a second longer,
  -- modulo 2 ^ 64, whether it was dispatched or not; no other task is charged.
  pub schedule-charged :
      (fuel : ℕ) (answer : Result Competitors WinnerError) (s s' : Scheduler c) (pid : ℕ)
      → length (c.queue s.bpf) < fuel
      → schedule p c fuel answer s ≡ some (returned s')
      → get pid s'.task_map
        ≡ charged answer s.owner_map pid (tracked pid (c.queue s.bpf) (get pid s.task_map))
  schedule-charged fuel answer s s' pid enough h =
      (schedule-charges fuel answer s s' pid enough h).0

-- ===== src/Scheduler/Progress.antt =====
-- democracy-scheduler/src/main.rs: no round of `run` is idle where both tasks are there.
use managed_linux_democracy.Prelude.{
  ℕ, suc, ◌+◌, ◌*◌, ◌^◌, ◌<◌, ◌≡◌, ◌≢◌, refl, sym, ap, ◌∙◌, subst, inl, inr, arith, nat_eq, Profile,
  List, [], ◌∷◌, ◌++◌, length, Option, none, some, ok, err, returned,
}
use managed_linux_democracy.Prelude.Map.{Map, get}
use managed_linux_democracy.Bpf.Task.{QueuedTask, DispatchedTask}
use managed_linux_democracy.Scheduler.Competitors.{Competitors, competitors_eq}
use managed_linux_democracy.Scheduler.Connector.{Connector, Arrival, task, failure}
use managed_linux_democracy.Scheduler.Drain.{Task, latest, tracked}
use managed_linux_democracy.Scheduler.Schedule.{Scheduler}
use managed_linux_democracy.Scheduler.Invariant.{IsWired, Entry-tracked}
use managed_linux_democracy.Scheduler.Choice.{turn, chosen, Sends, a_second}
use managed_linux_democracy.Scheduler.Decision.{schedule-Goes}
use managed_linux_democracy.Scheduler.Main.{World, round, run}
use managed_linux_democracy.Scheduler.Follows.{IsTurnFor, chosen-IsTurnFor}
use managed_linux_democracy.Scheduler.Chain.{Chain, Round, StopsAfter, run-Chain}
use managed_linux_democracy.Scheduler.Repeats.{queued_of, turn_queued, chosen_of, schedule-keeps}

-- The task of each side's process has arrived, or waits in the queue.
abbrev pub HasTasks : (c : Connector) → Map Competitors ℕ → Scheduler c → Type 0
HasTasks c owners s =
    (w : Competitors)
    → (pid : ℕ) × (get w owners ≡ some pid)
      × (queued_of (tracked pid (c.queue s.bpf) (get pid s.task_map)) ≢ none)

-- No dispatch fails.
abbrev pub Accepts : Connector → Type 0
Accepts c =
    (d : DispatchedTask) (s s' : c.State) (e : c.Error)
    → c.dispatch_task d s ≢ (s', returned (err e))

-- The load `i` leads to exactly one turn, for the process that its answer names.
abbrev pub Gives :
    World → Map Competitors ℕ → ℕ → List DispatchedTask → List DispatchedTask → Type 0
Gives world owners i before after =
    (d : DispatchedTask) × IsTurnFor owners (world.answer i) d × (after ≡ before ++ d ∷ [])

-- A queue takes no task away.
latest-some :
    (pid : ℕ) (q : List Arrival) (o : Option Task)
    → queued_of (some o) ≢ none
    → queued_of (some (latest pid q o)) ≢ none
latest-some pid [] o h = h
latest-some pid (task t ∷ q) o h = latest-some pid q _ (λ e. h (ground arith))
latest-some pid (failure x ∷ q) o h = latest-some pid q o h

tracked-some :
    (pid : ℕ) (q : List Arrival) (o : Option (Option Task))
    → queued_of o ≢ none
    → queued_of (tracked pid q o) ≢ none
tracked-some pid q none h = h
tracked-some pid q (some o) h = latest-some pid q o h

turn_queued-some :
    (o : Option QueuedTask) → o ≢ none → (d : DispatchedTask) × (turn_queued o ≡ some d)
turn_queued-some none h = absurd (h refl)
turn_queued-some (some t) h = (turn t, refl)

module _ (p : Profile) (c : Connector) (world : World) (accepts : Accepts c) where
  sends-all :
      (before : List DispatchedTask) (choice : Option DispatchedTask) (d : DispatchedTask)
      (bpf : c.State)
      → choice ≡ some d
      → Sends c before choice bpf
      → c.sent bpf ≡ before ++ d ∷ []
  sends-all before choice d bpf e sends = elim (subst (λ o. Sends c before o bpf) e sends) [
    | inl (earlier, x, failed, same) ↦ absurd (accepts d earlier bpf x failed)
    | inr sent ↦ sent
  ]

  round-HasTasks :
      (i : ℕ) (s s' : Scheduler c)
      → round p c world i s ≡ some (returned s')
      → HasTasks c s.owner_map s
      → HasTasks c s.owner_map s'
  unfolding round
  round-HasTasks i s s' done has w =
      let (pid, owner, known) = has w in
      let (same, owners) =
        schedule-keeps p c (suc (length (c.queue s.bpf))) pid (world.answer i) s s' (omega arith)
          done in
      (
        pid,
        owner,
        tracked-some pid (c.queue s'.bpf) (get pid s'.task_map) (λ gone. known (sym same ∙ gone)),
      )

  round-Gives :
      (i bound : ℕ) (s : Scheduler c) (w : Competitors)
      → bound + a_second < 2 ^ 64
      → IsWired bound s.owner_map s.task_map
      → HasTasks c s.owner_map s
      → world.answer i ≡ ok w
      → (s' : Scheduler c) × (round p c world i s ≡ some (returned s'))
        × IsWired (bound + a_second) s.owner_map s'.task_map
        × (s'.owner_map ≡ s.owner_map)
        × HasTasks c s.owner_map s'
        × (d : DispatchedTask) × IsTurnFor s.owner_map (world.answer i) d
        × (c.sent s'.bpf ≡ c.sent s.bpf ++ d ∷ [])
  unfolding round
  round-Gives i bound s w room wired has named =
      let (s', done, wired', same, sends, told) =
        schedule-Goes p c (suc (length (c.queue s.bpf))) bound (world.answer i) s (omega arith) room
          wired in
      let (pid, owner, known) = has w in
      let (d, turned) =
        turn_queued-some (queued_of (tracked pid (c.queue s.bpf) (get pid s.task_map))) known in
      let decided : chosen (world.answer i) s.owner_map
            (λ k. tracked k (c.queue s.bpf) (get k s.task_map))
          ≡ some d =
        ap (λ a. chosen a s.owner_map (λ k. tracked k (c.queue s.bpf) (get k s.task_map))) named
        ∙ chosen_of w s.owner_map _ pid owner
        ∙ turned in
      (
        s',
        done,
        subst (λ owners. IsWired (bound + a_second) owners s'.task_map) same wired',
        same,
        round-HasTasks i s s' done has,
        d,
        chosen-IsTurnFor bound (world.answer i) s.owner_map _ d
            (λ k. Entry-tracked bound k (c.queue s.bpf) (get k s.task_map) (wired.entries k))
            decided,
        sends-all (c.sent s.bpf) _ d s'.bpf decided sends,
      )

  Fed : Map Competitors ℕ → ℕ → Scheduler c → Type 0
  Fed owners bound s =
      (s.owner_map ≡ owners) × IsWired bound owners s.task_map × HasTasks c owners s

  each-Gives :
      (last : ℕ) (winner : ℕ → Competitors) (owners : Map Competitors ℕ)
      → ((k : ℕ) → k < last → world.answer k ≡ ok (winner k))
      → Round p c world last (Fed owners) (Gives world owners)
  unfolding Fed
  each-Gives last winner owners named i bound s before room (own, wired, has) =
      let (s', done, wired', same, has', d, turned, sent) =
        round-Gives i bound s (winner i) room
          (subst (λ m. IsWired bound m s.task_map) (sym own) wired)
          (subst (λ m. HasTasks c m s) (sym own) has) (named i before) in
      (
        s',
        done,
        (
          same ∙ own,
          subst (λ m. IsWired (bound + a_second) m s'.task_map) own wired',
          subst (λ m. HasTasks c m s') own has',
        ),
        (d, subst (λ m. IsTurnFor m (world.answer i) d) own turned, sent),
      )

  -- From a state that is wired up and where the task of each side's process has arrived or
  -- waits in the queue, if no dispatch fails and every question until the flag is set finds a winner,
  -- `run` is never idle: when the flag is set after `n` rounds, before `n` seconds more of run time
  -- overflow, it returns, and each round has sent exactly one turn of a tenth of a second, for the
  -- process of its winner.
  pub run-Gives :
      (n i bound fuel : ℕ) (winner : ℕ → Competitors) (s : Scheduler c)
      → StopsAfter world n i
      → n < fuel
      → bound + n * a_second < 2 ^ 64
      → IsWired bound s.owner_map s.task_map
      → HasTasks c s.owner_map s
      → ((k : ℕ) → k < i + n → world.answer k ≡ ok (winner k))
      → (s' : Scheduler c) × (run p c world fuel i s
          ≡ some (returned (record { loads = i + n; scheduler = s'; result = ok tt })))
        × Chain (Gives world s.owner_map) n i (c.sent s.bpf) (c.sent s'.bpf)
  unfolding Fed
  run-Gives n i bound fuel winner s stops enough room wired has named =
      let (s', ends, fed, all) =
        run-Chain p c world (i + n) (Fed s.owner_map) (Gives world s.owner_map)
          (each-Gives (i + n) winner s.owner_map named) n i bound fuel s (omega arith) stops enough
          room (refl, wired, has) in
      (s', ends, all)

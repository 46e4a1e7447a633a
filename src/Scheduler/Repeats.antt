-- ===== src/Scheduler/Repeats.antt =====
-- democracy-scheduler/src/main.rs: a task stays in `task_map` when it has been dispatched.
use managed_linux_democracy.Prelude.{
  ℕ, ◌<◌, ◌≡◌, ◌≢◌, refl, sym, ap, ◌∙◌, arith, nat_eq, if◌then◌else◌, eqb, as_u32, Profile, List,
  [], ◌∷◌, length, Option, none, some, Result, ok, err, returned,
}
use managed_linux_democracy.Prelude.Map.{Map, get}
use managed_linux_democracy.Bpf.Task.{QueuedTask, DispatchedTask}
use managed_linux_democracy.Scheduler.Competitors.{Competitors, competitors_eq}
use managed_linux_democracy.Scheduler.Winner.{WinnerError}
use managed_linux_democracy.Scheduler.Connector.{Connector, Arrival, task, failure}
use managed_linux_democracy.Scheduler.Drain.{Task, fresh, latest, tracked}
use managed_linux_democracy.Scheduler.Schedule.{Scheduler, schedule}
use managed_linux_democracy.Scheduler.Charges.{charge, charged, schedule-charges}
use managed_linux_democracy.Scheduler.Choice.{turn, turn_of, chosen}

-- The task that stands under a pid.
abbrev pub queued_of : Option (Option Task) → Option QueuedTask
queued_of none = none
queued_of (some none) = none
queued_of (some (some t)) = some t.queued_task

-- A charge leaves the queued task as it is.
queued_of-charge : (o : Option (Option Task)) → queued_of (charge o) ≡ queued_of o
queued_of-charge none = refl
queued_of-charge (some none) = refl
queued_of-charge (some (some t)) = refl

queued_of-charged :
    (answer : Result Competitors WinnerError) (owners : Map Competitors ℕ) (j : ℕ)
    (o : Option (Option Task))
    → queued_of (charged answer owners j o) ≡ queued_of o
queued_of-charged (err e) owners j o = refl
queued_of-charged (ok w) owners j o = ground (arith, queued_of-charge o)

module _ (p : Profile) (c : Connector) where
  pub schedule-keeps :
      (fuel j : ℕ) (answer : Result Competitors WinnerError) (s s' : Scheduler c)
      → length (c.queue s.bpf) < fuel
      → schedule p c fuel answer s ≡ some (returned s')
      → (queued_of (get j s'.task_map) ≡ queued_of (tracked j (c.queue s.bpf) (get j s.task_map)))
        × (s'.owner_map ≡ s.owner_map)
  schedule-keeps fuel j answer s s' enough h =
      let (entered, owners) = schedule-charges p c fuel answer s s' j enough h in
      (ap queued_of entered ∙ queued_of-charged answer s.owner_map j _, owners)

-- No task of this pid is in the queue.
abbrev pub Absent : ℕ → List Arrival → Type 0
Absent pid [] = Unit
Absent pid (task t ∷ q) = (as_u32 t.pid ≢ pid) × Absent pid q
Absent pid (failure _ ∷ q) = Absent pid q

other :
    (pid : ℕ) (t : QueuedTask) (o : Option Task)
    → as_u32 t.pid ≢ pid
    → (if eqb pid (as_u32 t.pid) then some (fresh t) else o) ≡ o
other pid t o h = ground arith

latest-Absent : (pid : ℕ) (q : List Arrival) (o : Option Task) → Absent pid q → latest pid q o ≡ o
latest-Absent pid [] o h = refl
latest-Absent pid (task t ∷ q) o h =
    ap (latest pid q) (other pid t o h.0) ∙ latest-Absent pid q o h.1
latest-Absent pid (failure x ∷ q) o h = latest-Absent pid q o h

tracked-Absent :
    (pid : ℕ) (q : List Arrival) (o : Option (Option Task)) → Absent pid q → tracked pid q o ≡ o
tracked-Absent pid q none h = refl
tracked-Absent pid q (some o) h = ap some (latest-Absent pid q o h)

abbrev pub turn_queued : Option QueuedTask → Option DispatchedTask
turn_queued none = none
turn_queued (some t) = some (turn t)

turn_of-queued : (o : Option (Option Task)) → turn_of o ≡ turn_queued (queued_of o)
turn_of-queued none = refl
turn_of-queued (some none) = refl
turn_of-queued (some (some t)) = refl

pub chosen_of :
    (w : Competitors) (owners : Map Competitors ℕ) (tasks : ℕ → Option (Option Task)) (pid : ℕ)
    → get w owners ≡ some pid
    → chosen (ok w) owners tasks ≡ turn_queued (queued_of (tasks pid))
chosen_of w owners tasks pid e = rw (e, chosen) (turn_of-queued (tasks pid))

-- A round does not use up the task that it dispatches. If one round decides on a turn for the
-- winner, and no newer task of the winner's pid is in the queue that the next round finds, then the
-- next round, if it has the same winner, decides on the very same turn again, with the CPU and the
-- `cpumask_cnt` that were current when the task was queued.
pub schedule-repeats :
    (p : Profile) (c : Connector) (fuel pid : ℕ) (w : Competitors) (d : DispatchedTask)
    (s s' : Scheduler c)
    → length (c.queue s.bpf) < fuel
    → get w s.owner_map ≡ some pid
    → chosen (ok w) s.owner_map (λ j. tracked j (c.queue s.bpf) (get j s.task_map)) ≡ some d
    → schedule p c fuel (ok w) s ≡ some (returned s')
    → Absent pid (c.queue s'.bpf)
    → chosen (ok w) s'.owner_map (λ j. tracked j (c.queue s'.bpf) (get j s'.task_map)) ≡ some d
schedule-repeats p c fuel pid w d s s' enough owner decided done absent =
    let (same, owners) = schedule-keeps p c fuel pid (ok w) s s' enough done in
    let owner' : get w s'.owner_map ≡ some pid = ap (get w) owners ∙ owner in
    chosen_of w s'.owner_map _ pid owner'
    ∙ ap (λ o. turn_queued (queued_of o))
        (tracked-Absent pid (c.queue s'.bpf) (get pid s'.task_map) absent)
    ∙ ap turn_queued same
    ∙ sym (chosen_of w s.owner_map _ pid owner)
    ∙ decided

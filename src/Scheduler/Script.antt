-- ===== src/Scheduler/Script.antt =====
-- democracy-scheduler/src/main.rs: the turns that any number of rounds decide on, by what the rounds
-- have met.
use mathlib.Core.Option
use managed_linux_democracy.Prelude.{
  ℕ, ◌≡◌, refl, ap, nat_eq, List, [], ◌∷◌, Option, none, some, Option-cases, inl, inr, ok, err,
}
use managed_linux_democracy.Prelude.Map.{Map, get}
use managed_linux_democracy.Bpf.Task.{QueuedTask, DispatchedTask}
use managed_linux_democracy.Scheduler.Competitors.{Competitors, competitors_eq}
use managed_linux_democracy.Scheduler.Connector.{Arrival}
use managed_linux_democracy.Scheduler.Drain.{Task, tracked}
use managed_linux_democracy.Scheduler.Choice.{turn, turn_of, chosen, MaySend}
use managed_linux_democracy.Scheduler.Ledger.{Answer, History, newest, queued, queued-latest}

-- The pids of the map, each with its task once it has arrived.
abbrev pub Waiting : Type 0
Waiting = ℕ → Option (Option QueuedTask)

abbrev pub after_queue : List Arrival → Waiting → Waiting
after_queue q tasks pid = Option.map (newest pid q) (tasks pid)

abbrev turn_for : Option (Option QueuedTask) → Option DispatchedTask
turn_for none = none
turn_for (some none) = none
turn_for (some (some t)) = some (turn t)

-- A turn for the winner, if its task has arrived.
abbrev pub decision : Answer → Map Competitors ℕ → Waiting → Option DispatchedTask
decision (err _) owners tasks = none
decision (ok w) owners tasks = elim (get w owners) [ none ↦ none | some pid ↦ turn_for (tasks pid) ]

-- What the rounds have sent: in each one the turn that it decides on, unless the dispatch failed. A
-- task stays until another one of its pid arrives.
abbrev pub Sent :
    Map Competitors ℕ → Waiting → History → List DispatchedTask → List DispatchedTask → Type 0
Sent owners tasks [] before after = after ≡ before
Sent owners tasks ((q, a) ∷ h) before after =
    (between : List DispatchedTask) × MaySend before (decision a owners (after_queue q tasks))
      between
    × Sent owners (after_queue q tasks) h between after

turn_of-queued : (o : Option (Option Task)) → turn_of o ≡ turn_for (Option.map queued o)
turn_of-queued none = refl
turn_of-queued (some none) = refl
turn_of-queued (some (some t)) = refl

pub chosen-decision :
    (a : Answer) (owners : Map Competitors ℕ) (tasks : ℕ → Option (Option Task))
    → chosen a owners tasks ≡ decision a owners (λ pid. Option.map queued (tasks pid))
chosen-decision (err e) owners tasks = refl
chosen-decision (ok w) owners tasks = elim (Option-cases (get w owners)) [
  | inl nobody ↦ rw (nobody, chosen, decision) refl
  | inr (pid, owner) ↦ rw (owner, chosen, decision) (turn_of-queued (tasks pid))
]

pub queued-tracked :
    (pid : ℕ) (q : List Arrival) (o : Option (Option Task))
    → Option.map queued (tracked pid q o) ≡ Option.map (newest pid q) (Option.map queued o)
queued-tracked pid q none = refl
queued-tracked pid q (some old) = ap some (queued-latest pid q old)

-- ===== src/Election/Turns.antt =====
-- From the votes to the CPU: a round of the scheduler (democracy-scheduler/src/main.rs, `schedule`)
-- whose question is answered by the service (ballot_box/src/main.rs, `votes_handler`).
use managed_linux_democracy.Prelude.{
  ℕ, ◌+◌, ◌^◌, ◌<◌, ◌≡◌, ap, ◌∙◌, subst, arith, nat_eq, if◌then◌else◌, ltb, ◌&&◌, length, Profile,
  Option, none, some, returned,
}
use managed_linux_democracy.Prelude.Map.{Map, get}
use managed_linux_democracy.Prelude.Text.{Unicode}
use managed_linux_democracy.Bpf.Task.{DispatchedTask}
use managed_linux_democracy.Ballot.State.{AppContext}
use managed_linux_democracy.Ballot.Handler.{votes_handler}
use managed_linux_democracy.Scheduler.Competitors.{Competitors, summer1, summer2, competitors_eq}
use managed_linux_democracy.Scheduler.Winner.{received, get_current_winner}
use managed_linux_democracy.Scheduler.Connector.{Connector}
use managed_linux_democracy.Scheduler.Drain.{Task, tracked}
use managed_linux_democracy.Scheduler.Schedule.{Scheduler, schedule}
use managed_linux_democracy.Scheduler.Invariant.{IsWired}
use managed_linux_democracy.Scheduler.Decision.{schedule-Goes}
use managed_linux_democracy.Scheduler.Choice.{turn_of, chosen, Sends, a_second}
use managed_linux_democracy.Election.{Json, elected, get_current_winner-votes_handler}

-- The side that leads by two tallies: the one with more votes, the first on a tie; none before the
-- first vote, and none once a tally does not fit 32 bits.
abbrev pub ahead : ℕ → ℕ → Option Competitors
ahead a b =
    if ltb a (2 ^ 32) && ltb b (2 ^ 32)
    then (if ltb a b then some summer2 else if ltb 0 a then some summer1 else none)
    else none

abbrev pub leader : AppContext → Option Competitors
leader a = ahead a.summer1_votes a.summer2_votes

-- The turn for a side's process, if there is a side and its task is known.
abbrev pub turn_for :
    Option Competitors → Map Competitors ℕ → (ℕ → Option (Option Task)) → Option DispatchedTask
turn_for none owners tasks = none
turn_for (some w) owners tasks = elim (get w owners) [
  | none ↦ none
  | some pid ↦ turn_of (tasks pid)
]

chosen-leader :
    (a : AppContext) (owners : Map Competitors ℕ) (tasks : ℕ → Option (Option Task))
    → chosen (elected a.summer1_votes a.summer2_votes) owners tasks
      ≡ turn_for (leader a) owners tasks
chosen-leader a owners tasks = ground arith

-- In a round that asks the service in a state with its tallies, the process of the side that leads by
-- them gets the turn, if its task is known, unless its dispatch fails; without a leader, or without
-- its task, nothing is sent. The scheduler is wired up before and after, and no task has run for so
-- long that another second overflows.
pub schedule-leader :
    (u : Unicode) (j : Json) (p : Profile) (c : Connector) (fuel bound : ℕ) (a : AppContext)
    (s : Scheduler c)
    → length (c.queue s.bpf) < fuel
    → bound + a_second < 2 ^ 64
    → IsWired bound s.owner_map s.task_map
    → (s' : Scheduler c) × (schedule p c fuel
          (get_current_winner u j.decode (received (j.encode (votes_handler a))))
          s
        ≡ some (returned s'))
      × IsWired (bound + a_second) s'.owner_map s'.task_map
      × Sends c
          (c.sent s.bpf)
          (turn_for
            (leader a)
            s.owner_map
            (λ pid. tracked pid (c.queue s.bpf) (get pid s.task_map)))
          s'.bpf
schedule-leader u j p c fuel bound a s enough room w =
    let (s', done, wired, owners, sends, told) =
      schedule-Goes p c fuel bound (elected a.summer1_votes a.summer2_votes) s enough room w in
    (
      s',
      ap (λ answer. schedule p c fuel answer s) (get_current_winner-votes_handler u j a) ∙ done,
      wired,
      subst (λ d. Sends c (c.sent s.bpf) d s'.bpf) (chosen-leader a s.owner_map _) sends,
    )

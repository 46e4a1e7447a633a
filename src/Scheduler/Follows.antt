-- ===== src/Scheduler/Follows.antt =====
-- democracy-scheduler/src/main.rs: what each round of `run` sends.
use managed_linux_democracy.Prelude.{
  ℕ, suc, ◌+◌, ◌*◌, ◌^◌, ◌<◌, ◌≡◌, refl, sym, ◌∙◌, subst, inl, inr, arith, nat_eq, as_u32, Profile,
  List, length, Option, none, some, Option-cases, Result, ok, err, returned,
}
use managed_linux_democracy.Prelude.Map.{Map, get}
use managed_linux_democracy.Bpf.Task.{DispatchedTask}
use managed_linux_democracy.Scheduler.Competitors.{Competitors, competitors_eq}
use managed_linux_democracy.Scheduler.Winner.{WinnerError}
use managed_linux_democracy.Scheduler.Connector.{Connector}
use managed_linux_democracy.Scheduler.Drain.{Task, tracked}
use managed_linux_democracy.Scheduler.Schedule.{Scheduler}
use managed_linux_democracy.Scheduler.Invariant.{Entry, IsWired, Entry-tracked}
use managed_linux_democracy.Scheduler.Decision.{schedule-Goes}
use managed_linux_democracy.Scheduler.Choice.{turn_of, chosen, MaySend, Sends-MaySend, a_second}
use managed_linux_democracy.Scheduler.Chain.{Chain, Round, StopsAfter, run-Chain}
use managed_linux_democracy.Scheduler.Main.{World, round, run}

-- A tenth of a second, without flags, for the process of the competitor that the answer names.
abbrev pub IsTurnFor : Map Competitors ℕ → Result Competitors WinnerError → DispatchedTask → Type 0
IsTurnFor owners answer d =
    (w : Competitors) × (answer ≡ ok w)
    × (get w owners ≡ some (as_u32 d.pid))
    × (d.flags ≡ 0)
    × (d.slice_ns ≡ 100_000_000)

-- What one round sends: a turn by its answer, if it decides on one and the dispatch succeeds.
pub record Step (owners : Map Competitors ℕ) (answer : Result Competitors WinnerError)
    (before after : List DispatchedTask) : Type 0 where
  pub choice : Option DispatchedTask
  pub own : (d : DispatchedTask) → choice ≡ some d → IsTurnFor owners answer d
  pub sends : MaySend before choice after

-- What the load `i` leads to, by its own answer.
abbrev pub Follows :
    World → Map Competitors ℕ → ℕ → List DispatchedTask → List DispatchedTask → Type 0
Follows world owners i = Step owners (world.answer i)

turn_of-IsTurnFor :
    (bound pid : ℕ) (w : Competitors) (owners : Map Competitors ℕ) (o : Option (Option Task))
    (d : DispatchedTask)
    → get w owners ≡ some pid
    → Entry bound pid o
    → turn_of o ≡ some d
    → IsTurnFor owners (ok w) d
turn_of-IsTurnFor bound pid w owners none d owner own h = cc
turn_of-IsTurnFor bound pid w owners (some none) d owner own h = cc
turn_of-IsTurnFor bound pid w owners (some (some t)) d owner own h =
    (w, refl, ground arith, ground arith, ground arith)

-- What is chosen is a turn.
pub chosen-IsTurnFor :
    (bound : ℕ) (answer : Result Competitors WinnerError) (owners : Map Competitors ℕ)
    (tasks : ℕ → Option (Option Task)) (d : DispatchedTask)
    → ((pid : ℕ) → Entry bound pid (tasks pid))
    → chosen answer owners tasks ≡ some d
    → IsTurnFor owners answer d
chosen-IsTurnFor bound (err e) owners tasks d own h = cc
chosen-IsTurnFor bound (ok w) owners tasks d own h = elim (Option-cases (get w owners)) [
  | inl nobody ↦ let absent : none ≡ some d = rw (nobody, chosen) at h in cc
  | inr (pid, owner) ↦
      turn_of-IsTurnFor bound pid w owners (tasks pid) d owner (own pid) (rw (owner, chosen) at h)
]

module _ (p : Profile) (c : Connector) (world : World) where
  pub round-Follows :
      (i bound : ℕ) (s : Scheduler c)
      → bound + a_second < 2 ^ 64
      → IsWired bound s.owner_map s.task_map
      → (s' : Scheduler c) × (round p c world i s ≡ some (returned s'))
        × IsWired (bound + a_second) s.owner_map s'.task_map
        × (s'.owner_map ≡ s.owner_map)
        × Step s.owner_map (world.answer i) (c.sent s.bpf) (c.sent s'.bpf)
  unfolding round
  round-Follows i bound s room w =
      let (s', done, wired, same, sends, told) =
        schedule-Goes p c (suc (length (c.queue s.bpf))) bound (world.answer i) s (omega arith) room
          w in
      (
        s',
        done,
        subst (λ owners. IsWired (bound + a_second) owners s'.task_map) same wired,
        same,
        record {
          choice =
              chosen (world.answer i) s.owner_map
                (λ pid. tracked pid (c.queue s.bpf) (get pid s.task_map));
          own = λ d.
              chosen-IsTurnFor bound (world.answer i) s.owner_map _ d (λ pid.
                Entry-tracked bound pid (c.queue s.bpf) (get pid s.task_map) (w.entries pid));
          sends = Sends-MaySend c (c.sent s.bpf) _ s'.bpf sends;
        },
      )

  -- The owners stay as they are.
  abbrev pub Wired : Map Competitors ℕ → ℕ → Scheduler c → Type 0
  Wired owners bound s = (s.owner_map ≡ owners) × IsWired bound owners s.task_map

  each-Follows :
      (owners : Map Competitors ℕ) (last : ℕ)
      → Round p c world last (Wired owners) (Follows world owners)
  each-Follows owners last i bound s before room (own, w) =
      let (s', done, wired, same, one) =
        round-Follows i bound s room (subst (λ m. IsWired bound m s.task_map) (sym own) w) in
      (
        s',
        done,
        (same ∙ own, subst (λ m. IsWired (bound + a_second) m s'.task_map) own wired),
        subst (λ m. Follows world m i (c.sent s.bpf) (c.sent s'.bpf)) own one,
      )

  -- `run` until the flag is set after `n` rounds: it returns, and each round has sent a turn by its
  -- own answer or nothing.
  pub run-Follows :
      (n i bound fuel : ℕ) (s : Scheduler c)
      → StopsAfter world n i
      → n < fuel
      → bound + n * a_second < 2 ^ 64
      → IsWired bound s.owner_map s.task_map
      → (s' : Scheduler c) × (run p c world fuel i s
          ≡ some (returned (record { loads = i + n; scheduler = s'; result = ok tt })))
        × IsWired (bound + n * a_second) s.owner_map s'.task_map
        × (s'.owner_map ≡ s.owner_map)
        × Chain (Follows world s.owner_map) n i (c.sent s.bpf) (c.sent s'.bpf)
  run-Follows n i bound fuel s stops enough room w =
      let (s', ends, (same, wired), all) =
        run-Chain p c world (i + n) (Wired s.owner_map) (Follows world s.owner_map)
          (each-Follows s.owner_map (i + n)) n i bound fuel s (omega arith) stops enough room
          (refl, w) in
      (s', ends, wired, same, all)

-- ===== src/Scheduler/Governing.antt =====
-- democracy-scheduler/src/main.rs: the rounds of `run` where each question finds a known winner, and
-- those where none does.
use managed_linux_democracy.Prelude.{
  ℕ, zero, suc, ◌+◌, ◌*◌, ◌^◌, ◌<◌, ◌≡◌, refl, sym, ap, ◌∙◌, arith, nat_eq, as_u32, Profile, List,
  [], ◌∷◌, ◌++◌, Option, none, some, Result, ok, err, returned,
}
use managed_linux_democracy.Prelude.Map.{Map, get}
use managed_linux_democracy.Bpf.Task.{DispatchedTask}
use managed_linux_democracy.Scheduler.Competitors.{Competitors, competitors_eq}
use managed_linux_democracy.Scheduler.Winner.{WinnerError}
use managed_linux_democracy.Scheduler.Connector.{Connector}
use managed_linux_democracy.Scheduler.Schedule.{Scheduler}
use managed_linux_democracy.Scheduler.Invariant.{IsWired}
use managed_linux_democracy.Scheduler.Choice.{MaySend, a_second}
use managed_linux_democracy.Scheduler.Follows.{IsTurnFor, Follows, run-Follows}
use managed_linux_democracy.Scheduler.Main.{World, run}
use managed_linux_democracy.Scheduler.Chain.{Chain, Chain-map, StopsAfter}
use managed_linux_democracy.Scheduler.Progress.{HasTasks, Accepts, Gives, run-Gives}

-- The load `i` leads to exactly one turn of a tenth of a second, for the process of the side that wins
-- it.
abbrev pub Governs :
    Map Competitors ℕ → (ℕ → Competitors) → ℕ → List DispatchedTask → List DispatchedTask → Type 0
Governs owners winner i before after =
    (d : DispatchedTask) × (get (winner i) owners ≡ some (as_u32 d.pid))
    × (d.flags ≡ 0)
    × (d.slice_ns ≡ 100_000_000)
    × (after ≡ before ++ d ∷ [])

Gives-Governs :
    (world : World) (winner : ℕ → Competitors) (owners : Map Competitors ℕ) (i : ℕ)
    (before after : List DispatchedTask)
    → world.answer i ≡ ok (winner i)
    → Gives world owners i before after
    → Governs owners winner i before after
Gives-Governs world winner owners i before after won (d, (w, named, owner, flags, slice), sent) =
    let same : w ≡ winner i = cc in
    (d, ap (λ x. get x owners) (sym same) ∙ owner, flags, slice, sent)

-- From a state that is wired up and where the task of each side's process has arrived or waits in
-- the queue, if no dispatch fails and each question until the flag is set names a winner: when the
-- flag is set after `n` rounds, before `n` seconds more of run time overflow, `run` returns, and
-- each round has sent exactly one turn, of a tenth of a second, for the process of its winner.
pub run-Governs :
    (build : Profile) (c : Connector) (world : World) (accepts : Accepts c)
    (winner : ℕ → Competitors) (n i bound fuel : ℕ) (s : Scheduler c)
    → StopsAfter world n i
    → n < fuel
    → bound + n * a_second < 2 ^ 64
    → IsWired bound s.owner_map s.task_map
    → HasTasks c s.owner_map s
    → ((k : ℕ) → k < i + n → world.answer k ≡ ok (winner k))
    → (s' : Scheduler c) × (run build c world fuel i s
        ≡ some (returned (record { loads = i + n; scheduler = s'; result = ok tt })))
      × Chain (Governs s.owner_map winner) n i (c.sent s.bpf) (c.sent s'.bpf)
run-Governs build c world accepts winner n i bound fuel s stops enough room wired has won =
    let (s', ends, all) =
      run-Gives build c world accepts n i bound fuel winner s stops enough room wired has won in
    (
      s',
      ends,
      Chain-map (λ (d : List DispatchedTask). d) (i + n) (Gives world s.owner_map)
          (Governs s.owner_map winner)
          (λ k before after below.
            Gives-Governs world winner s.owner_map k before after (won k below))
          n i (c.sent s.bpf) (c.sent s'.bpf) (omega arith) all,
    )

-- Each round has left what was sent as it was.
Chain-still :
    (n i : ℕ) (before after : List DispatchedTask)
    → Chain (λ k b a. a ≡ b) n i before after
    → after ≡ before
Chain-still zero i before after e = e
Chain-still (suc n) i before after (between, one, others) =
    Chain-still n (suc i) between after others ∙ one

Step-still :
    (owners : Map Competitors ℕ) (answer : Result Competitors WinnerError) (e : WinnerError)
    (before after : List DispatchedTask) (choice : Option DispatchedTask)
    → answer ≡ err e
    → ((d : DispatchedTask) → choice ≡ some d → IsTurnFor owners answer d)
    → MaySend before choice after
    → after ≡ before
Step-still owners answer e before after none failed own sends = sends
Step-still owners answer e before after (some d) failed own sends =
    let (w, named, owner, flags, slice) = own d refl in absurd (ground arith)

-- From a state that is wired up, when the flag is set after `n` rounds, before `n` seconds more of run
-- time overflow, and no question until then finds a winner, `run` returns, and has sent nothing.
pub run_still :
    (build : Profile) (c : Connector) (world : World) (n i bound fuel : ℕ) (s : Scheduler c)
    → StopsAfter world n i
    → n < fuel
    → bound + n * a_second < 2 ^ 64
    → IsWired bound s.owner_map s.task_map
    → ((k : ℕ) → k < i + n → (e : WinnerError) × (world.answer k ≡ err e))
    → (s' : Scheduler c) × (run build c world fuel i s
        ≡ some (returned (record { loads = i + n; scheduler = s'; result = ok tt })))
      × (c.sent s'.bpf ≡ c.sent s.bpf)
run_still build c world n i bound fuel s stops enough room wired failed =
    let (s', ends, wired', same, all) =
      run-Follows build c world n i bound fuel s stops enough room wired in
    (
      s',
      ends,
      Chain-still n i (c.sent s.bpf) (c.sent s'.bpf) (
          Chain-map (λ (d : List DispatchedTask). d) (i + n) (Follows world s.owner_map)
            (λ k before after. after ≡ before)
            (λ k before after below one.
              let (e, fails) = failed k below in
              Step-still s.owner_map (world.answer k) e before after one.choice fails one.own
                one.sends)
            n i (c.sent s.bpf) (c.sent s'.bpf) (omega arith) all),
    )

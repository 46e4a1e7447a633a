-- ===== src/Election/Landslide.antt =====
-- Both programs at once: the questions of the scheduler (democracy-scheduler/src/main.rs) are calls of
-- `votes_handler` (ballot_box/src/main.rs) among the votes that come in while it runs.
use Prim.Native.String.{String}
use managed_linux_democracy.Prelude.{
  ℕ, suc, ◌+◌, ◌*◌, ◌^◌, ◌≤◌, ◌<◌, ◌≡◌, ◌∙◌, arith, Bool, List, length, get_elem?, Option, some,
  Profile, ok, returned,
}
use managed_linux_democracy.Prelude.Text.{Unicode}
use managed_linux_democracy.Bpf.Libbpf.{Libbpf}
use managed_linux_democracy.Bpf.Init.{Host}
use managed_linux_democracy.Bpf.Implements.{bpf_connector}
use managed_linux_democracy.Ballot.State.{AppContext, VotesResponse}
use managed_linux_democracy.Ballot.Concurrent.{Thread}
use managed_linux_democracy.Ballot.Reading.{Reading, asked, answered, Turn, Service}
use managed_linux_democracy.Ballot.Reading.Bounds.{reads}
use managed_linux_democracy.Scheduler.Competitors.{Competitors}
use managed_linux_democracy.Scheduler.Winner.{received, get_current_winner}
use managed_linux_democracy.Scheduler.Schedule.{Scheduler}
use managed_linux_democracy.Scheduler.Choice.{a_second}
use managed_linux_democracy.Scheduler.Main.{World, run}
use managed_linux_democracy.Scheduler.Start.{start}
use managed_linux_democracy.Scheduler.Owners.{OwnsLaunched}
use managed_linux_democracy.Scheduler.Ready.{start-ok}
use managed_linux_democracy.Scheduler.Chain.{Chain, StopsAfter}
use managed_linux_democracy.Scheduler.Progress.{HasTasks, Accepts}
use managed_linux_democracy.Scheduler.Governing.{Governs, run-Governs}
use managed_linux_democracy.Election.{Json}
use managed_linux_democracy.Election.Margin.{IsClear, after_turns, turns-elects}

some-injective : (v v' : VotesResponse) → some (answered v) ≡ some (answered v') → v ≡ v'
some-injective v v' e = cc

module _ (u : Unicode) (p : Profile) (j : Json) (world : World) where
  -- The first `n` questions are the calls of `votes_handler` with the same numbers: each has its two
  -- turns, and the scheduler's answer is read from what the call answers.
  pub record Questions (n : ℕ) (ts : List Turn) (readers : List Reading) (end : Service)
      : Type 0 where
    pub ask : (k : ℕ) → k < n → get_elem? readers k ≡ some asked
    pub end_up : (k : ℕ) → k < n → 2 ≤ reads k ts
    pub arrive :
        (k : ℕ) (v : VotesResponse)
        → k < n
        → get_elem? end.readers k ≡ some (answered v)
        → world.answer k ≡ get_current_winner u j.decode (received (j.encode v))

  all_won :
      (w : Competitors) (n : ℕ) (ts : List Turn) (calls : List Thread) (s : AppContext)
      (readers : List Reading)
      → s.summer1_votes + length calls < 2 ^ 64
      → s.summer2_votes + length calls < 2 ^ 64
      → let end = after_turns u p ts calls s readers in
        Questions n ts readers end
        → IsClear w s end.state
        → end.state.summer1_votes < 2 ^ 32
        → end.state.summer2_votes < 2 ^ 32
        → (k : ℕ) → k < n
        → world.answer k ≡ ok w
  all_won w n ts calls s readers room1 room2 questions clear fits1 fits2 k below =
      let (v, answer, elects) =
        turns-elects u p j w k ts calls s readers room1 room2 (questions.ask k below)
          (questions.end_up k below) clear fits1 fits2 in
      questions.arrive k v below answer ∙ elects

  -- The scheduler's `main` reaches its loop, where the task of each side's process has arrived or
  -- waits in the queue, Ctrl-C sets the flag after `n` rounds, before `n` seconds of run time
  -- overflow, and no dispatch fails. Its `n` questions are calls of `votes_handler`, each with two
  -- turns, among calls of `vote_handler` in any interleaving, too few votes to make a tally overflow.
  -- If one side's votes before are more than the other's after, both below 2 ^ 32, or as many for the
  -- first side, which has a vote, then the first call of `run` returns after those rounds, each of
  -- which has sent exactly one turn, of a tenth of a second, for the process launched with this side's name.
  pub start-Governs_clear :
      (w : Competitors) (n : ℕ) (ts : List Turn) (calls : List Thread) (s : AppContext)
      (readers : List Reading) (build : Profile) (l : Libbpf) (host : Host l)
      (accepts : Accepts (bpf_connector l)) (handler : Bool) (topology : Option ℕ)
      (spawn : String → String → Option ℕ) (sched : Scheduler (bpf_connector l))
      → (start build l host handler topology spawn).1 ≡ returned (ok sched)
      → HasTasks (bpf_connector l) sched.owner_map sched
      → StopsAfter world n 0
      → n * a_second < 2 ^ 64
      → s.summer1_votes + length calls < 2 ^ 64
      → s.summer2_votes + length calls < 2 ^ 64
      → let end = after_turns u p ts calls s readers in
        Questions n ts readers end
        → IsClear w s end.state
        → end.state.summer1_votes < 2 ^ 32
        → end.state.summer2_votes < 2 ^ 32
        → OwnsLaunched spawn sched.owner_map
          × (sched' : Scheduler (bpf_connector l)) × (run build
                (bpf_connector l)
                world
                (suc n)
                0
                sched
              ≡ some (returned (record { loads = 0 + n; scheduler = sched'; result = ok tt })))
          × Chain
              (Governs sched.owner_map (λ k. w))
              n
              0
              ((bpf_connector l).sent sched.bpf)
              ((bpf_connector l).sent sched'.bpf)
  start-Governs_clear w n ts calls s readers build l host accepts handler topology spawn sched
        started has stops seconds room1 room2 questions clear fits1 fits2 =
      let (nr, handled, found, attached, wired, owned) =
        start-ok build l host handler topology spawn sched started in
      let (sched', ends, governs) =
        run-Governs build (bpf_connector l) world accepts (λ k. w) n 0 0 (suc n) sched stops
          (omega arith) (omega arith) wired has
          (λ k below.
            all_won w n ts calls s readers room1 room2 questions clear fits1 fits2 k
              (omega arith)) in
      (owned, sched', ends, governs)

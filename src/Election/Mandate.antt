-- ===== src/Election/Mandate.antt =====
-- From the HTTP requests to the CPU, where both tasks are there: no round of the scheduler
-- (democracy-scheduler/src/main.rs) passes the elected side over.
use Prim.Native.String.{String}
use managed_linux_democracy.Prelude.{
  suc, Option, Bool, ℕ, ◌+◌, ◌*◌, ◌^◌, ◌<◌, ◌≡◌, sym, ap, ◌∙◌, arith, nat_eq, Profile, List, length,
  All, some, ok, returned,
}
use managed_linux_democracy.Prelude.Text.{codes}
use managed_linux_democracy.Bpf.Libbpf.{Libbpf}
use managed_linux_democracy.Bpf.Init.{Host}
use managed_linux_democracy.Bpf.Implements.{bpf_connector}
use managed_linux_democracy.Ballot.State.{new, summer1, summer2, VotesResponse}
use managed_linux_democracy.Ballot.Replies.{IsI64}
use managed_linux_democracy.Ballot.Routes.{get_method}
use managed_linux_democracy.Ballot.Server.{HttpRequest, votes_json, Surroundings, respond}
use managed_linux_democracy.Ballot.Server.History.{respond_all}
use managed_linux_democracy.Scheduler.Competitors.{Competitors, competitors_eq}
use managed_linux_democracy.Scheduler.Winner.{received, get_current_winner}
use managed_linux_democracy.Scheduler.Schedule.{Scheduler}
use managed_linux_democracy.Scheduler.Choice.{a_second}
use managed_linux_democracy.Scheduler.Main.{World, run}
use managed_linux_democracy.Scheduler.Start.{start}
use managed_linux_democracy.Scheduler.Owners.{OwnsLaunched}
use managed_linux_democracy.Scheduler.Ready.{start-ok}
use managed_linux_democracy.Scheduler.Chain.{Chain, StopsAfter}
use managed_linux_democracy.Scheduler.Progress.{HasTasks, Accepts}
use managed_linux_democracy.Scheduler.Governing.{Governs, run-Governs}
use managed_linux_democracy.Election.{Json, elected}
use managed_linux_democracy.Election.Turns.{ahead}
use managed_linux_democracy.Ballot.Server.Counts.{counted}
use managed_linux_democracy.Election.Polls.{respond_all-elects, votes_json-injective}

-- Each question is answered, after the requests that came before it.
abbrev pub Answers :
    (o : Surroundings)
    → Profile
    → Json
    → (ℕ → List (HttpRequest o.Body))
    → HttpRequest o.Body
    → World
    → Type 0
Answers o p j history question world =
    (i : ℕ)
    → (v : VotesResponse) × ((respond o p question (respond_all o p (history i) new).0).1
        ≡ returned (votes_json v))
      × (world.answer i ≡ get_current_winner o.unicode j.decode (received (j.encode v)))

elected-ahead : (a b : ℕ) (w : Competitors) → ahead a b ≡ some w → elected a b ≡ ok w
elected-ahead a b w h = ground arith

module _ (o : Surroundings) (p : Profile) (j : Json) (history : ℕ → List (HttpRequest o.Body))
    (question : HttpRequest o.Body) (world : World) (winner : ℕ → Competitors)
    (answers : Answers o p j history question world) (method : question.method ≡ get_method)
    (path : question.path ≡ codes "/api/votes")
    (range : (i : ℕ) → All (λ q. IsI64 q.timestamp) (history i))
    (few : (i : ℕ) → length (history i) < 2 ^ 64)
    (leads : (i : ℕ)
      → ahead (counted o p summer1 (history i)) (counted o p summer2 (history i))
        ≡ some (winner i)) where
  answer-winner : (i : ℕ) → world.answer i ≡ ok (winner i)
  answer-winner i =
      let (v, response, answer) = answers i in
      let (v', response', elects) =
        respond_all-elects o p j (history i) question (range i) (few i) method path in
      let same : v' ≡ v =
        votes_json-injective o.Content v' v (sym (ap (λ t. t.1) response') ∙ response) in
      answer
      ∙ ap (λ x. get_current_winner o.unicode j.decode (received (j.encode x))) (sym same)
      ∙ elects
      ∙ elected-ahead (counted o p summer1 (history i)) (counted o p summer2 (history i)) (winner i)
          (leads i)

  -- `main` of the scheduler reaches its loop, where the task of each side's process has arrived or
  -- waits in the queue, and Ctrl-C sets the flag after `n` rounds, before `n` seconds of run time
  -- overflow. No dispatch fails, and every question is answered by the server after a history of
  -- fewer than 2 ^ 64 HTTP requests from its start, one after another, with timestamps in the range
  -- of an `i64`, by which one side is ahead: the one with more counted votes, the first on a tie
  -- above 0, both below 2 ^ 32. Then the first call of `run` returns after those rounds, each of
  -- which has sent exactly one turn, of a tenth of a second, for the process that was launched with
  -- the name of the side that is ahead.
  pub start-Governs :
      (build : Profile) (l : Libbpf) (host : Host l) (accepts : Accepts (bpf_connector l)) (n : ℕ)
      (handler : Bool) (topology : Option ℕ) (spawn : String → String → Option ℕ)
      (s : Scheduler (bpf_connector l))
      → (start build l host handler topology spawn).1 ≡ returned (ok s)
      → HasTasks (bpf_connector l) s.owner_map s
      → StopsAfter world n 0
      → n * a_second < 2 ^ 64
      → OwnsLaunched spawn s.owner_map
        × (s' : Scheduler (bpf_connector l)) × (run build (bpf_connector l) world (suc n) 0 s
            ≡ some (returned (record { loads = 0 + n; scheduler = s'; result = ok tt })))
        × Chain
            (Governs s.owner_map winner)
            n
            0
            ((bpf_connector l).sent s.bpf)
            ((bpf_connector l).sent s'.bpf)
  start-Governs build l host accepts n handler topology spawn s started has stops room =
      let (nr, handled, found, attached, wired, owned) =
        start-ok build l host handler topology spawn s started in
      let (s', ends, governs) =
        run-Governs build (bpf_connector l) world accepts winner n 0 0 (suc n) s stops (omega arith)
          (omega arith) wired has (λ k before. answer-winner k) in
      (owned, s', ends, governs)

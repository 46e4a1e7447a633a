-- ===== src/Election/Democracy.antt =====
-- From the HTTP requests to the CPU: the scheduler (democracy-scheduler/src/main.rs) over the server
-- (ballot_box/src/main.rs), both from their starts.
use Prim.Native.String.{String}
use managed_linux_democracy.Prelude.{
  ℕ, some, suc, ◌+◌, ◌*◌, ◌^◌, ◌<◌, ◌≡◌, sym, ap, ◌∙◌, subst, ◌⊎◌, inl, inr, Bool, Profile, List,
  Option, ok, err, returned, length, All, fun_ext, nat_eq,
}
use managed_linux_democracy.Prelude.Text.{codes}
use managed_linux_democracy.Bpf.Libbpf.{Libbpf}
use managed_linux_democracy.Bpf.Init.{Host}
use managed_linux_democracy.Bpf.Implements.{bpf_connector}
use managed_linux_democracy.Ballot.State.{AppContext, new, summer1, summer2, VotesResponse}
use managed_linux_democracy.Ballot.Handler.{votes_handler}
use managed_linux_democracy.Ballot.Replies.{IsI64}
use managed_linux_democracy.Ballot.Routes.{get_method}
use managed_linux_democracy.Ballot.Server.{HttpRequest, votes_json, Surroundings, respond}
use managed_linux_democracy.Ballot.Server.History.{respond_all, respond_votes}
use managed_linux_democracy.Scheduler.Winner.{WinnerError, received, get_current_winner}
use managed_linux_democracy.Scheduler.Schedule.{Scheduler}
use managed_linux_democracy.Scheduler.Choice.{a_second}
use managed_linux_democracy.Scheduler.Main.{World, run}
use managed_linux_democracy.Scheduler.Chain.{Chain, StopsAfter}
use managed_linux_democracy.Scheduler.Owners.{OwnsLaunched}
use managed_linux_democracy.Scheduler.Start.{start}
use managed_linux_democracy.Election.{Json}
use managed_linux_democracy.Election.Turns.{ahead, leader}
use managed_linux_democracy.Ballot.Server.Counts.{counted, votes_for-counted}
use managed_linux_democracy.Election.Polls.{votes_json-injective}
use managed_linux_democracy.Election.Reign.{Reigns, Polls, start-Reigns}

-- Each answer is read from the server's response to the scheduler's question, after the requests
-- that came before it, or the question failed.
abbrev pub Asks :
    (o : Surroundings)
    → Profile
    → Json
    → (ℕ → List (HttpRequest o.Body))
    → HttpRequest o.Body
    → World
    → Type 0
Asks o p j history question world =
    (i : ℕ)
    → ((v : VotesResponse) × ((respond o p question (respond_all o p (history i) new).0).1
          ≡ returned (votes_json v))
        × (world.answer i ≡ get_current_winner o.unicode j.decode (received (j.encode v))))
      ⊎ ((e : WinnerError) × (world.answer i ≡ err e))

module _ (o : Surroundings) (p : Profile) (j : Json) (history : ℕ → List (HttpRequest o.Body))
    (question : HttpRequest o.Body) (world : World) (asks : Asks o p j history question world)
    (method : question.method ≡ get_method) (path : question.path ≡ codes "/api/votes")
    (range : (i : ℕ) → All (λ q. IsI64 q.timestamp) (history i))
    (few : (i : ℕ) → length (history i) < 2 ^ 64) where
  state_at : ℕ → AppContext
  state_at i = (respond_all o p (history i) new).0

  asks-Polls : Polls o.unicode j state_at world
  unfolding state_at
  asks-Polls i = elim (asks i) [
    | inr failed ↦ inr failed
    | inl (v, response, answer) ↦
        let same : votes_handler (state_at i) ≡ v =
          votes_json-injective o.Content (votes_handler (state_at i)) v (
            sym (ap (λ t. t.1) (respond_votes o p question (state_at i) method path)) ∙ response) in
        inl (
          answer
          ∙ ap (λ x. get_current_winner o.unicode j.decode (received (j.encode x))) (sym same))
  ]

  leader-counted :
      (i : ℕ)
      → leader (state_at i)
        ≡ ahead (counted o p summer1 (history i)) (counted o p summer2 (history i))
  unfolding state_at
  leader-counted i =
      ap (λ a. ahead a (state_at i).summer2_votes)
        (votes_for-counted o p summer1 (history i) (range i) (few i))
      ∙ ap (ahead (counted o p summer1 (history i)))
          (votes_for-counted o p summer2 (history i) (range i) (few i))

  -- The scheduler's `main` reaches its loop, Ctrl-C sets the flag after `n` rounds, before `n`
  -- seconds of run time overflow, and before each question the server has answered, from its start,
  -- some history of fewer than 2 ^ 64 HTTP requests, one after another, with timestamps in the range
  -- of an `i64`. Unless a question fails, its answer is read from the server's response. Then the
  -- first call of `run` returns after those rounds, each of which has sent nothing or one turn of a
  -- tenth of a second for the process that was launched with the name of the side for which more
  -- votes were counted in the history, the first on a tie above 0, as long as both counts are below 2
  -- ^ 32.
  pub start-democracy :
      (build : Profile) (l : Libbpf) (host : Host l) (n : ℕ) (handler : Bool) (topology : Option ℕ)
      (spawn : String → String → Option ℕ) (s : Scheduler (bpf_connector l))
      → (start build l host handler topology spawn).1 ≡ returned (ok s)
      → StopsAfter world n 0
      → n * a_second < 2 ^ 64
      → OwnsLaunched spawn s.owner_map
        × (s' : Scheduler (bpf_connector l)) × (run build (bpf_connector l) world (suc n) 0 s
            ≡ some (returned (record { loads = 0 + n; scheduler = s'; result = ok tt })))
        × Chain
            (Reigns
              (λ i. ahead (counted o p summer1 (history i)) (counted o p summer2 (history i)))
              s.owner_map)
            n
            0
            ((bpf_connector l).sent s.bpf)
            ((bpf_connector l).sent s'.bpf)
  start-democracy build l host n handler topology spawn s started stops room =
      let (owned, s', ends, reigns) =
        start-Reigns o.unicode j state_at world asks-Polls build l host n handler topology spawn s
          started stops room in
      (
        owned,
        s',
        ends,
        subst
            (λ led.
              Chain (Reigns led s.owner_map) n 0 ((bpf_connector l).sent s.bpf)
                ((bpf_connector l).sent s'.bpf))
            (fun_ext leader-counted) reigns,
      )

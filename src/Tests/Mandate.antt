-- ===== src/Tests/Mandate.antt =====
-- Both programs together where both tasks are there, at a concrete history of requests.
use managed_linux_democracy.Prelude.{
  ℕ, ◌+◌, ◌≡◌, refl, ap, arith, leb, dev, List, Option, some, true, ok, returned,
}
use managed_linux_democracy.Prelude.Map.{get, insert}
use managed_linux_democracy.Prelude.Text.{Text, text_eqb, to_lowercase}
use managed_linux_democracy.Ballot.State.{AppContext, new}
use managed_linux_democracy.Ballot.Vote.{check_vote}
use managed_linux_democracy.Ballot.Handler.{votes_handler, vote_handler, count_vote}
use managed_linux_democracy.Ballot.Server.{HttpRequest}
use managed_linux_democracy.Ballot.Server.History.{respond_all, respond_votes, ballots}
use managed_linux_democracy.Ballot.Trace.{serve}
use managed_linux_democracy.Scheduler.Competitors.{summer1, summer2}
use managed_linux_democracy.Scheduler.Winner.{get_current_winner, received}
use managed_linux_democracy.Scheduler.Schedule.{Scheduler}
use managed_linux_democracy.Scheduler.Main.{World, run, register}
use managed_linux_democracy.Scheduler.Owners.{OwnsLaunched}
use managed_linux_democracy.Scheduler.Chain.{Chain, StopsAfter}
use managed_linux_democracy.Election.Mandate.{Answers, start-Governs}
use managed_linux_democracy.Scheduler.Governing.{Governs}
use managed_linux_democracy.Tests.Kernel.{ascii_only, lists}
use managed_linux_democracy.Tests.Links.{plain}
use managed_linux_democracy.Tests.Web.{small, get_votes, visits}
use managed_linux_democracy.Tests.Rounds.{never_fails}
use managed_linux_democracy.Tests.Whole.{link, machine, spawn, running, starts}
use managed_linux_democracy.Scheduler.Progress.{HasTasks}
use managed_linux_democracy.Bpf.Message.{from_bytes, to_queued_task, to_bytes, read, write}

-- All of the visits came before the first question.
abbrev history : ℕ → List (HttpRequest (Option Text))
history i = visits

abbrev reached : AppContext
reached = (respond_all small dev visits new).0

abbrev voting : World
voting = record {
  shutdown = λ i. leb 2 i;
  answer = λ i.
      get_current_winner ascii_only plain.decode (received (plain.encode (votes_handler reached)));
}

voting-StopsAfter : StopsAfter voting 2 0
voting-StopsAfter = record { before = λ k h. ground arith; then_set = refl }

voting-Answers : Answers small dev plain history get_votes voting
voting-Answers i = (
  votes_handler reached,
  ap (λ t. t.1) (respond_votes small dev get_votes reached refl refl),
  refl,
)

-- The messages of both processes' tasks wait in the ring.
pub running-HasTasks : HasTasks link running.owner_map running
unfolding register get insert from_bytes to_queued_task to_bytes read write
running-HasTasks summer1 = (10, refl, λ e. cc)
running-HasTasks summer2 = (20, refl, λ e. cc)

start-Governs_example :
    OwnsLaunched spawn running.owner_map
    × (s' : Scheduler link) × (run dev link voting 3 0 running
        ≡ some (returned (record { loads = 0 + 2; scheduler = s'; result = ok tt })))
    × Chain
        (Governs running.owner_map (λ i. summer2))
        2
        0
        (link.sent running.bpf)
        (link.sent s'.bpf)
unfolding serve ballots vote_handler count_vote check_vote to_lowercase insert get text_eqb
start-Governs_example =
    start-Governs small dev plain history get_votes voting (λ i. summer2) voting-Answers refl refl
      (λ i. omega arith) (λ i. omega arith) (λ i. refl) dev lists machine never_fails 2 true
      (some 4) spawn running starts running-HasTasks voting-StopsAfter (omega arith)

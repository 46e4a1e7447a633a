-- ===== src/Tests/Democracy.antt =====
-- Both programs together, at a concrete history of requests.
use managed_linux_democracy.Prelude.{
  ℕ, ◌+◌, ◌≡◌, refl, ap, arith, inl, if◌then◌else◌, ltb, leb, List, [], dev, Option, some, true, ok,
  returned,
}
use managed_linux_democracy.Prelude.Text.{Text}
use managed_linux_democracy.Ballot.State.{AppContext, new, summer1, summer2}
use managed_linux_democracy.Ballot.Handler.{votes_handler}
use managed_linux_democracy.Ballot.Server.{HttpRequest}
use managed_linux_democracy.Ballot.Server.History.{respond_all, respond_votes}
use managed_linux_democracy.Scheduler.Winner.{get_current_winner, received}
use managed_linux_democracy.Scheduler.Schedule.{Scheduler}
use managed_linux_democracy.Scheduler.Main.{World, run}
use managed_linux_democracy.Scheduler.Owners.{OwnsLaunched}
use managed_linux_democracy.Scheduler.Chain.{Chain, StopsAfter}
use managed_linux_democracy.Election.Turns.{ahead}
use managed_linux_democracy.Ballot.Server.Counts.{counted}
use managed_linux_democracy.Election.Reign.{Reigns}
use managed_linux_democracy.Election.Democracy.{Asks, start-democracy}
use managed_linux_democracy.Tests.Kernel.{ascii_only, lists}
use managed_linux_democracy.Tests.Links.{plain}
use managed_linux_democracy.Tests.Web.{small, get_votes, visits}
use managed_linux_democracy.Tests.Whole.{link, machine, spawn, running, starts}

-- Nobody has voted at the first question, and all of the visits came before the second.
abbrev history : ℕ → List (HttpRequest (Option Text))
history i = if ltb 0 i then visits else []

abbrev reached : ℕ → AppContext
reached i = (respond_all small dev (history i) new).0

abbrev voting : World
voting = record {
  shutdown = λ i. leb 2 i;
  answer = λ i.
      get_current_winner ascii_only plain.decode
        (received (plain.encode (votes_handler (reached i))));
}

voting-StopsAfter : StopsAfter voting 2 0
voting-StopsAfter = record { before = λ k h. ground arith; then_set = refl }

voting-Asks : Asks small dev plain history get_votes voting
voting-Asks i = inl (
  votes_handler (reached i),
  ap (λ t. t.1) (respond_votes small dev get_votes (reached i) refl refl),
  refl,
)

start-democracy_example :
    OwnsLaunched spawn running.owner_map
    × (s' : Scheduler link) × (run dev link voting 3 0 running
        ≡ some (returned (record { loads = 0 + 2; scheduler = s'; result = ok tt })))
    × Chain
        (Reigns
          (λ i.
            ahead (counted small dev summer1 (history i)) (counted small dev summer2 (history i)))
          running.owner_map)
        2
        0
        (link.sent running.bpf)
        (link.sent s'.bpf)
start-democracy_example =
    start-democracy small dev plain history get_votes voting voting-Asks refl refl
      (λ i. ground arith) (λ i. ground arith) dev lists machine 2 true (some 4) spawn running starts
      voting-StopsAfter (omega arith)

-- ===== src/Election/Polls.antt =====
-- From the votes to the winner: the scheduler's question (democracy-scheduler/src/main.rs,
-- `get_current_winner`) to the server (ballot_box/src/main.rs) after a history of HTTP requests.
use managed_linux_democracy.Prelude.{
  ◌^◌, ◌<◌, ◌≡◌, ap, ◌∙◌, All, List, length, Profile, Outcome, returned,
}
use managed_linux_democracy.Prelude.Text.{codes}
use managed_linux_democracy.Ballot.State.{new, summer1, summer2, VotesResponse}
use managed_linux_democracy.Ballot.Handler.{votes_handler}
use managed_linux_democracy.Ballot.Replies.{IsI64}
use managed_linux_democracy.Ballot.Routes.{get_method}
use managed_linux_democracy.Ballot.Server.{HttpRequest, Response, votes_json, Surroundings, respond}
use managed_linux_democracy.Ballot.Server.History.{respond_all, respond_votes}
use managed_linux_democracy.Ballot.Server.Counts.{counted, votes_for-counted}
use managed_linux_democracy.Scheduler.Winner.{received, get_current_winner}
use managed_linux_democracy.Election.{Json, elected, get_current_winner-votes_handler}

pub votes_json-injective :
    (Content : Type 0) (v w : VotesResponse)
    → ◌≡◌ {A = Outcome (Response Content)} (returned (votes_json v)) (returned (votes_json w))
    → v ≡ w
votes_json-injective Content v w h = cc

module _ (o : Surroundings) (p : Profile) where
  -- After any history of fewer than 2 ^ 64 HTTP requests with timestamps in the range of an `i64`, a
  -- GET of /api/votes changes nothing and is answered with tallies by which the scheduler elects the
  -- side for which more votes were counted, the first on a tie above 0, as long as they are below
  -- 2 ^ 32.
  pub respond_all-elects :
      (j : Json) (rs : List (HttpRequest o.Body)) (r : HttpRequest o.Body)
      → All (λ q. IsI64 q.timestamp) rs
      → length rs < 2 ^ 64
      → r.method ≡ get_method
      → r.path ≡ codes "/api/votes"
      → let s = (respond_all o p rs new).0 in
        (v : VotesResponse) × (respond o p r s ≡ (s, returned (votes_json v)))
        × (get_current_winner o.unicode j.decode (received (j.encode v))
            ≡ elected (counted o p summer1 rs) (counted o p summer2 rs))
  respond_all-elects j rs r range few method path = (
    votes_handler (respond_all o p rs new).0,
    respond_votes o p r _ method path,
    get_current_winner-votes_handler o.unicode j (respond_all o p rs new).0
        ∙ ap (λ a. elected a (respond_all o p rs new).0.summer2_votes)
            (votes_for-counted o p summer1 rs range few)
        ∙ ap (elected (counted o p summer1 rs)) (votes_for-counted o p summer2 rs range few),
  )

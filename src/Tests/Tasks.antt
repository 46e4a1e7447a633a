-- ===== src/Tests/Tasks.antt =====
-- HTTP requests that are served at once.
use managed_linux_democracy.Prelude.{
  ℕ, ◌≡◌, Option, ◌≢◌, refl, Outcome, get_elem?, arith, dev, List, [], ◌∷◌, map, some,
}
use managed_linux_democracy.Ballot.State.{new, summer1}
use managed_linux_democracy.Prelude.Text.{Text, codes}
use managed_linux_democracy.Ballot.Server.{HttpRequest, Response, respond}
use managed_linux_democracy.Ballot.Interleavings.{Gains}
use managed_linux_democracy.Ballot.Server.Tasks.{ServerTask, waiting, answer, run_tasks}
use managed_linux_democracy.Ballot.Server.Tasks.Answering.{run_tasks-answers}
use managed_linux_democracy.Ballot.Routes.{head_method}
use managed_linux_democracy.Ballot.Server.Tasks.Conservation.{all_cast, run_tasks-Gains}
use managed_linux_democracy.Tests.Web.{small, visits, get_css, get_votes}

-- The page, the tallies and a HEAD of the latter.
abbrev readers : List (HttpRequest (Option Text))
readers = get_css ∷ get_votes ∷ record get_votes { method = head_method } ∷ []

abbrev arrivals : List (ServerTask small dev)
arrivals = map waiting visits

-- Three votes and a question for the tallies take turns.
abbrev mixed : List ℕ
mixed = 1 ∷ 3 ∷ 4 ∷ 0 ∷ 1 ∷ 3 ∷ 4 ∷ 1 ∷ 0 ∷ 3 ∷ 4 ∷ 4 ∷ 1 ∷ 3 ∷ 0 ∷ 4 ∷ 1 ∷ 3 ∷ []

run_tasks-Gains_example :
    let (ts, s') = run_tasks small dev mixed arrivals new in
    Gains summer1 (all_cast small dev summer1 arrivals) (all_cast small dev summer1 ts) new s'
run_tasks-Gains_example = run_tasks-Gains small dev summer1 mixed arrivals new (omega arith)

-- A page among the votes.
abbrev page_order : List ℕ
page_order = 0 ∷ 2 ∷ 0 ∷ 1 ∷ 2 ∷ 0 ∷ 0 ∷ 2 ∷ 0 ∷ 2 ∷ 0 ∷ []

run_tasks-answers_example :
    let (ts, _) = run_tasks small dev page_order (map waiting (get_css ∷ visits)) new in
    (x : Outcome (Response small.Content)) × (get_elem? (map (answer small dev) ts) 0
      ≡ some (some x))
    × (get_css.path ≢ codes "/api/votes" → x ≡ (respond small dev get_css new).1)
run_tasks-answers_example =
    run_tasks-answers small dev 0 page_order (get_css ∷ visits) new get_css refl (omega arith)

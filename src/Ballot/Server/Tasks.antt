-- ===== src/Ballot/Server/Tasks.antt =====
-- ballot_box/src/main.rs: many HTTP requests at once, each served by a task of the server's own. A task
-- is routed first; a vote then goes through the steps of `vote_handler`, a question for the tallies
-- through those of `votes_handler`, and every other request is answered at once, since it reads no
-- shared state.
pub mod Adequacy
pub mod Answering
pub mod Beginning
pub mod Conservation
pub mod Readers
use managed_linux_democracy.Prelude.{
  ℕ, zero, suc, List, [], ◌∷◌, Option, none, some, Profile, Outcome, returned,
}
use managed_linux_democracy.Prelude.Text.{Text}
use managed_linux_democracy.Ballot.State.{AppContext, new, Request}
use managed_linux_democracy.Ballot.Concurrent.{Pc, arrived, finished, advance}
use managed_linux_democracy.Ballot.Reading.{Reading, asked, answered, read}
use managed_linux_democracy.Ballot.Routes.{Handler, votes, vote, app, refused, to_handler}
use managed_linux_democracy.Ballot.Server.{
  HttpRequest, Response, votes_json, rejected, Surroundings, vote_reply, handle,
}

-- Where the task of a request stands.
pub data RequestTask (Body Content : Type 0) : Type 0 where
  waiting : HttpRequest Body → RequestTask Body Content  -- not routed yet
  casting : Request → Pc → RequestTask Body Content
  asking : Reading → RequestTask Body Content
  done : Outcome (Response Content) → RequestTask Body Content

module _ (o : Surroundings) (p : Profile) where
  abbrev pub ServerTask : Type 0
  ServerTask = RequestTask o.Body o.Content

  -- The handler that the router chose, with what its extractors take from the request.
  unfoldable pub assign : Handler → Text → HttpRequest o.Body → AppContext → ServerTask
  assign votes rest r s = asking asked
  assign vote rest r s = elim (o.vote_request r.body) [
    | none ↦ done (returned rejected)
    | some text ↦ casting (record { ip = r.ip; timestamp = r.timestamp; vote = text }) arrived
  ]
  assign h rest r s = done (handle o p h rest r s).1

  unfoldable pub begin : HttpRequest o.Body → AppContext → ServerTask
  unfolding assign
  begin r s = elim (o.axum.route app r.method r.path) [
    | refused ↦ done (returned rejected)
    | to_handler h rest ↦ assign h rest r s
  ]

  -- One step of one task; an answered one stays as it is.
  unfoldable pub advance_task : ServerTask → AppContext → ServerTask × AppContext
  unfolding begin
  advance_task (waiting r) s = (begin r s, s)
  advance_task (casting q pc) s = let (pc', s') = advance o.unicode p q pc s in (casting q pc', s')
  advance_task (asking q) s = (asking (read q s), s)
  advance_task (done x) s = (done x, s)

  -- What a task has answered.
  abbrev pub answer : ServerTask → Option (Outcome (Response o.Content))
  answer (waiting r) = none
  answer (casting q (finished reply)) = some (vote_reply o p (new, reply)).1
  answer (casting q _) = none
  answer (asking (answered v)) = some (returned (votes_json v))
  answer (asking _) = none
  answer (done x) = some x

  -- A step of the task with the given number.
  unfoldable pub step_task : ℕ → List ServerTask → AppContext → List ServerTask × AppContext
  unfolding advance_task
  step_task k [] s = ([], s)
  step_task zero (t ∷ ts) s = let (t', s') = advance_task t s in (t' ∷ ts, s')
  step_task (suc k) (t ∷ ts) s = let (ts', s') = step_task k ts s in (t ∷ ts', s')

  -- The steps in the order that the runtime chooses.
  unfoldable pub run_tasks : List ℕ → List ServerTask → AppContext → List ServerTask × AppContext
  unfolding step_task
  run_tasks [] ts s = (ts, s)
  run_tasks (k ∷ ks) ts s = let (ts', s') = step_task k ts s in run_tasks ks ts' s'

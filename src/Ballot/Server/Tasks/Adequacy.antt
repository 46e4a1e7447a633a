-- ===== src/Ballot/Server/Tasks/Adequacy.antt =====
-- ballot_box/src/main.rs: tasks that run one after another answer as the server does to one request
-- after another.
use managed_linux_democracy.Prelude.{
  ℕ, suc, ◌≡◌, refl, sym, ap, ◌∙◌, arith, List, [], ◌∷◌, map, some, Profile, Outcome, returned, inl,
  inr, Option-cases,
}
use managed_linux_democracy.Prelude.Text.{Text}
use managed_linux_democracy.Ballot.State.{AppContext, new, Request, Reply}
use managed_linux_democracy.Ballot.Handler.{vote_handler, votes_handler}
use managed_linux_democracy.Ballot.Concurrent.{arrived, finished, advance}
use managed_linux_democracy.Ballot.Reading.{asked, answered, read}
use managed_linux_democracy.Ballot.Routes.{
  Handler, system, votes, vote, index, static_file, app, Routed, refused, to_handler,
}
use managed_linux_democracy.Ballot.Server.{
  HttpRequest, Response, votes_json, rejected, Surroundings, vote_reply, handle, respond,
}
use managed_linux_democracy.Ballot.Server.History.{respond_all}
use managed_linux_democracy.Ballot.Server.Tasks.{
  waiting, casting, asking, done, ServerTask, assign, begin, answer, step_task, run_tasks,
}

module _ (o : Surroundings) (p : Profile) where
  -- The first task, alone for five steps after it was routed.
  five_votes :
      (q : Request) (ks : List ℕ) (ts : List (ServerTask o p)) (s : AppContext)
      → let (s', reply) = vote_handler o.unicode p q s in
        run_tasks o p (0 ∷ 0 ∷ 0 ∷ 0 ∷ 0 ∷ ks) (casting q arrived ∷ ts) s
        ≡ run_tasks o p ks (casting q (finished reply) ∷ ts) s'
  unfolding run_tasks vote_handler advance
  five_votes q ks ts s = ground arith

  five_done :
      (x : Outcome (Response o.Content)) (ks : List ℕ) (ts : List (ServerTask o p)) (s : AppContext)
      → run_tasks o p (0 ∷ 0 ∷ 0 ∷ 0 ∷ 0 ∷ ks) (done x ∷ ts) s ≡ run_tasks o p ks (done x ∷ ts) s
  unfolding run_tasks
  five_done x ks ts s = refl

  reply-state :
      (s t : AppContext) (reply : Reply)
      → (vote_reply o p (s, reply)).1 ≡ (vote_reply o p (t, reply)).1
  reply-state s t reply = ground arith

  reply-kept : (x : AppContext × Reply) → (vote_reply o p x).0 ≡ x.0
  reply-kept x = ground arith

  -- From the handler on: what `handle` answers, and the state that it leaves.
  Served :
      List ℕ
      → List (ServerTask o p)
      → AppContext
      → ServerTask o p
      → AppContext × Outcome (Response o.Content)
      → Type 0
  Served ks ts s begun (s', x) =
      (t : ServerTask o p) × (answer o p t ≡ some x)
      × (run_tasks o p (0 ∷ 0 ∷ 0 ∷ 0 ∷ 0 ∷ ks) (begun ∷ ts) s ≡ run_tasks o p ks (t ∷ ts) s')

  Served-done :
      (ks : List ℕ) (ts : List (ServerTask o p)) (s : AppContext) (x : Outcome (Response o.Content))
      → Served ks ts s (done x) (s, x)
  unfolding Served
  Served-done ks ts s x = (done x, refl, five_done x ks ts s)

  Served-vote :
      (ks : List ℕ) (ts : List (ServerTask o p)) (s : AppContext) (q : Request)
      → Served ks ts s (casting q arrived) (vote_reply o p (vote_handler o.unicode p q s))
  unfolding Served
  Served-vote ks ts s q =
      let (s', reply) = vote_handler o.unicode p q s in
      (
        casting q (finished reply),
        ap some (reply-state new s' reply),
        five_votes q ks ts s
            ∙ ap (run_tasks o p ks (casting q (finished reply) ∷ ts))
                (sym (reply-kept (s', reply))),
      )

  Served-votes :
      (ks : List ℕ) (ts : List (ServerTask o p)) (s : AppContext)
      → Served ks ts s (asking asked) (s, returned (votes_json (votes_handler s)))
  unfolding Served run_tasks read votes_handler
  Served-votes ks ts s = (asking (answered (votes_handler s)), refl, refl)

  Served-assign :
      (h : Handler) (rest : Text) (r : HttpRequest o.Body) (ks : List ℕ)
      (ts : List (ServerTask o p)) (s : AppContext)
      → Served ks ts s (assign o p h rest r s) (handle o p h rest r s)
  unfolding assign handle
  Served-assign system rest r ks ts s = Served-done ks ts s _
  Served-assign index rest r ks ts s = Served-done ks ts s _
  Served-assign static_file rest r ks ts s = elim (Option-cases (o.axum.decoded rest)) [
    | inl garbled ↦ rw (garbled, handle) (Served-done ks ts s _)
    | inr (path, decoded) ↦ rw (decoded, handle) (Served-done ks ts s _)
  ]
  Served-assign votes rest r ks ts s = Served-votes ks ts s
  Served-assign vote rest r ks ts s = elim (Option-cases (o.vote_request r.body)) [
    | inl unreadable ↦ rw (unreadable, handle, assign) (Served-done ks ts s (returned rejected))
    | inr (text, body) ↦
        rw (body, handle, assign)
          (Served-vote ks ts s (record { ip = r.ip; timestamp = r.timestamp; vote = text }))
  ]

  Served-begin :
      (r : HttpRequest o.Body) (ks : List ℕ) (ts : List (ServerTask o p)) (s : AppContext)
      → Served ks ts s (begin o p r s) (respond o p r s)
  unfolding begin respond
  Served-begin r ks ts s = go (o.axum.route app r.method r.path) refl
    where
      go :
          (x : Routed)
          → o.axum.route app r.method r.path ≡ x
          → Served ks ts s (begin o p r s) (respond o p r s)
      go refused e = rw (e, begin, respond) (Served-done ks ts s (returned rejected))
      go (to_handler h rest) e = rw (e, begin, respond) (Served-assign h rest r ks ts s)

  first_served :
      (r : HttpRequest o.Body) (ks : List ℕ) (ts : List (ServerTask o p)) (s : AppContext)
      → (t : ServerTask o p) × (answer o p t ≡ some (respond o p r s).1)
        × (run_tasks o p (0 ∷ 0 ∷ 0 ∷ 0 ∷ 0 ∷ 0 ∷ ks) (waiting r ∷ ts) s
            ≡ run_tasks o p ks (t ∷ ts) (respond o p r s).0)
  unfolding Served run_tasks
  first_served r ks ts s = Served-begin r ks ts s

  -- A step of a task behind the first one leaves the first one alone.
  later_tasks :
      (ks : List ℕ) (t : ServerTask o p) (ts : List (ServerTask o p)) (s : AppContext)
      → let (ts', s') = run_tasks o p ks ts s in
        run_tasks o p (map suc ks) (t ∷ ts) s ≡ (t ∷ ts', s')
  unfolding run_tasks
  later_tasks [] t ts s = refl
  later_tasks (k ∷ ks) t ts s = later_tasks ks t (step_task o p k ts s).0 (step_task o p k ts s).1

  -- Every task has six steps in a row, in the order of the requests.
  abbrev one_at_a_time : List (HttpRequest o.Body) → List ℕ
  one_at_a_time [] = []
  one_at_a_time (r ∷ rs) = 0 ∷ 0 ∷ 0 ∷ 0 ∷ 0 ∷ 0 ∷ map suc (one_at_a_time rs)

  -- Tasks that run one after another, six steps each, leave the state that the server leaves which
  -- answers one request after another, and each task has the same answer.
  run_tasks-respond_all :
      (rs : List (HttpRequest o.Body)) (s : AppContext)
      → let (s', answers) = respond_all o p rs s in
        (ts : List (ServerTask o p)) × (run_tasks o p (one_at_a_time rs) (map waiting rs) s
          ≡ (ts, s'))
        × (map (answer o p) ts ≡ map some answers)
  unfolding run_tasks respond_all
  run_tasks-respond_all [] s = ([], refl, refl)
  run_tasks-respond_all (r ∷ rs) s =
      let (ts, later, answers) = run_tasks-respond_all rs (respond o p r s).0 in
      let (t, first, alone) = first_served r (map suc (one_at_a_time rs)) (map waiting rs) s in
      (
        t ∷ ts,
        alone
            ∙ later_tasks (one_at_a_time rs) t (map waiting rs) (respond o p r s).0
            ∙ ap (λ x. (t ∷ x.0, x.1)) later,
        cc,
      )

-- ===== src/Ballot/Server/Tasks/Conservation.antt =====
-- ballot_box/src/main.rs: no interleaving of HTTP requests loses a vote or makes one up.
use managed_linux_democracy.Prelude.{
  ap, ℕ, zero, suc, inl, inr, ◌+◌, ◌^◌, ◌<◌, ◌≡◌, arith, List, [], ◌∷◌, Profile,
}
use managed_linux_democracy.Ballot.State.{AppContext, PossibleVote}
use managed_linux_democracy.Ballot.Replies.{votes_for}
use managed_linux_democracy.Ballot.Interleavings.{has_cast, Gains, advance-Gains}
use managed_linux_democracy.Ballot.Server.{HttpRequest, Surroundings}
use managed_linux_democracy.Ballot.Server.Tasks.Beginning.{begin-Begun}
use managed_linux_democracy.Ballot.Server.Tasks.{
  waiting, casting, asking, done, ServerTask, begin, advance_task, step_task, run_tasks,
}

module _ (o : Surroundings) (p : Profile) where
  -- 1 if the task has added its vote to the tally of `v`.
  abbrev pub cast_by : PossibleVote → ServerTask o p → ℕ
  cast_by v (casting q pc) = has_cast o.unicode v (q, pc)
  cast_by v _ = 0

  abbrev pub all_cast : PossibleVote → List (ServerTask o p) → ℕ
  all_cast v [] = 0
  all_cast v (t ∷ ts) = cast_by v t + all_cast v ts

  begin-uncast :
      (v : PossibleVote) (r : HttpRequest o.Body) (s : AppContext) → cast_by v (begin o p r s) ≡ 0
  begin-uncast v r s = elim (begin-Begun o p r s) [
    | inl (q, casts, _, _) ↦ ap (cast_by v) casts
    | inr (inl (asks, _)) ↦ ap (cast_by v) asks
    | inr (inr ends) ↦ ap (cast_by v) (ends s)
  ]

  advance_task-Gains :
      (v : PossibleVote) (t : ServerTask o p) (s : AppContext)
      → votes_for v s < 2 ^ 64
      → let (t', s') = advance_task o p t s in Gains v (cast_by v t) (cast_by v t') s s'
  unfolding advance_task
  advance_task-Gains v (waiting r) s fits = (0, omega arith, omega (arith, begin-uncast v r s))
  advance_task-Gains v (casting q pc) s fits = advance-Gains o.unicode p v q pc s fits
  advance_task-Gains v (asking q) s fits = (0, omega arith, omega arith)
  advance_task-Gains v (done x) s fits = (0, omega arith, omega arith)

  pub step_task-Gains :
      (v : PossibleVote) (k : ℕ) (ts : List (ServerTask o p)) (s : AppContext)
      → votes_for v s < 2 ^ 64
      → let (ts', s') = step_task o p k ts s in Gains v (all_cast v ts) (all_cast v ts') s s'
  unfolding step_task
  step_task-Gains v k [] s fits = (0, omega arith, omega arith)
  step_task-Gains v zero (t ∷ ts) s fits =
      let (gain, tally, cast) = advance_task-Gains v t s fits in (gain, tally, omega (arith, cast))
  step_task-Gains v (suc k) (t ∷ ts) s fits =
      let (gain, tally, total) = step_task-Gains v k ts s fits in
      (gain, tally, omega (arith, total))

  -- In every interleaving of the tasks of any HTTP requests, from a tally below 2 ^ 64, the tally is,
  -- modulo 2 ^ 64, what it was with the votes that the tasks have cast since.
  pub run_tasks-Gains :
      (v : PossibleVote) (ks : List ℕ) (ts : List (ServerTask o p)) (s : AppContext)
      → votes_for v s < 2 ^ 64
      → let (ts', s') = run_tasks o p ks ts s in Gains v (all_cast v ts) (all_cast v ts') s s'
  unfolding run_tasks
  run_tasks-Gains v [] ts s fits = (0, omega arith, omega arith)
  run_tasks-Gains v (k ∷ ks) ts s fits =
      let (gain, tally, total) = step_task-Gains v k ts s fits in
      let (gain', tally', total') =
        run_tasks-Gains v ks (step_task o p k ts s).0 (step_task o p k ts s).1
          (omega (arith, tally)) in
      (gain + gain', omega (arith, tally, tally'), omega (arith, total, total'))

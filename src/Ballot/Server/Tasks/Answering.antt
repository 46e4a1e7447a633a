-- ===== src/Ballot/Server/Tasks/Answering.antt =====
-- ballot_box/src/main.rs: every task is answered that has its turns, whatever the others do, and a page
-- is the same as if its request were alone.
use managed_linux_democracy.Prelude.{
  ℕ, zero, suc, ◌-◌, ◌≤◌, ◌≡◌, ◌≢◌, refl, sym, ap, ◌∙◌, subst, arith, eqb, Bool-cases, ◌⊎◌, inl,
  inr, List, [], ◌∷◌, map, get_elem?, modify, get_elem?-modify_self, get_elem?-map,
  get_elem?-modify_other, some, Profile, Outcome,
}
use mathlib.Core.Option
use managed_linux_democracy.Prelude.Text.{codes, text_eq}
use managed_linux_democracy.Ballot.State.{AppContext, new}
use managed_linux_democracy.Ballot.Concurrent.{arrived, passed, recorded, counted, loaded, finished}
use managed_linux_democracy.Ballot.Finishing.{remaining, turns_of, remaining-advance}
use managed_linux_democracy.Ballot.Reading.{asked, half_read, answered, read}
use managed_linux_democracy.Ballot.Server.{HttpRequest, Response, Surroundings, respond}
use managed_linux_democracy.Ballot.Server.Tasks.Beginning.{begin-Begun}
use managed_linux_democracy.Ballot.Server.Tasks.{
  waiting, casting, asking, done, ServerTask, begin, advance_task, answer, step_task, run_tasks,
}

module _ (o : Surroundings) (p : Profile) where
  -- The steps that a task needs at most before it has its answer.
  abbrev left : ServerTask o p → ℕ
  left (waiting r) = 6
  left (casting q pc) = remaining pc
  left (asking asked) = 2
  left (asking (half_read a)) = 1
  left (asking (answered v)) = 0
  left (done x) = 0

  left-begin : (r : HttpRequest o.Body) (s : AppContext) → left (begin o p r s) ≤ 5
  left-begin r s = elim (begin-Begun o p r s) [
    | inl (q, casts, _, _) ↦ subst (λ t. left t ≤ 5) (sym casts) (omega arith)
    | inr (inl (asks, _)) ↦ subst (λ t. left t ≤ 5) (sym asks) (omega arith)
    | inr (inr ends) ↦ subst (λ t. left t ≤ 5) (sym (ends s)) (omega arith)
  ]

  left-advance : (t : ServerTask o p) (s : AppContext) → left (advance_task o p t s).0 ≤ left t - 1
  unfolding advance_task read
  left-advance (waiting r) s = left-begin r s
  left-advance (casting q pc) s = remaining-advance o.unicode p q pc s
  left-advance (asking asked) s = omega arith
  left-advance (asking (half_read a)) s = omega arith
  left-advance (asking (answered v)) s = omega arith
  left-advance (done x) s = omega arith

  none_left :
      (t : ServerTask o p)
      → left t ≤ 0
      → (x : Outcome (Response o.Content)) × (answer o p t ≡ some x)
  none_left (waiting r) h = absurd (omega arith)
  none_left (casting q arrived) h = absurd (omega arith)
  none_left (casting q passed) h = absurd (omega arith)
  none_left (casting q recorded) h = absurd (omega arith)
  none_left (casting q counted) h = absurd (omega arith)
  none_left (casting q (loaded a)) h = absurd (omega arith)
  none_left (casting q (finished reply)) h = (_, refl)
  none_left (asking asked) h = absurd (omega arith)
  none_left (asking (half_read a)) h = absurd (omega arith)
  none_left (asking (answered v)) h = (_, refl)
  none_left (done x) h = (x, refl)

  -- A task whose request does not concern the votes: not routed yet, or with the answer that its request
  -- has alone.
  abbrev IsPage : HttpRequest o.Body → ServerTask o p → Type 0
  IsPage r t = (t ≡ waiting r) ⊎ (t ≡ done (respond o p r new).1)

  IsPage-advance :
      (r : HttpRequest o.Body) (t : ServerTask o p) (s : AppContext)
      → r.path ≢ codes "/api/votes"
      → IsPage r t
      → IsPage r (advance_task o p t s).0
  unfolding advance_task
  IsPage-advance r t s other (inl e) = elim (begin-Begun o p r s) [
    | inl (_, _, _, path) ↦ absurd (other path)
    | inr (inl (_, path)) ↦ absurd (other path)
    | inr (inr ends) ↦ inr (ap (λ u. (advance_task o p u s).0) e ∙ ends new)
  ]
  IsPage-advance r t s other (inr e) = inr (ap (λ u. (advance_task o p u s).0) e)

  IsPage-answer :
      (r : HttpRequest o.Body) (t : ServerTask o p) (x : Outcome (Response o.Content))
      → left t ≤ 0
      → answer o p t ≡ some x
      → IsPage r t
      → x ≡ (respond o p r new).1
  IsPage-answer r t x h e (inl same) = let all : left t ≡ 6 = ap left same in absurd (omega arith)
  IsPage-answer r t x h e (inr same) =
      let alone : answer o p t ≡ some (respond o p r new).1 = ap (answer o p) same in cc

  -- A step changes the task that takes it, and no other.
  step_task-modify :
      (k : ℕ) (ts : List (ServerTask o p)) (s : AppContext)
      → (step_task o p k ts s).0 ≡ modify ts k (λ t. (advance_task o p t s).0)
  unfolding step_task
  step_task-modify k [] s = refl
  step_task-modify zero (t ∷ ts) s = refl
  step_task-modify (suc k) (t ∷ ts) s = ap (t ∷◌) (step_task-modify k ts s)

  step_task-own :
      (k : ℕ) (ts : List (ServerTask o p)) (t : ServerTask o p) (s : AppContext)
      → get_elem? ts k ≡ some t
      → get_elem? (step_task o p k ts s).0 k ≡ some (advance_task o p t s).0
  step_task-own k ts t s e =
      ap (λ us. get_elem? us k) (step_task-modify k ts s)
      ∙ get_elem?-modify_self ts k (λ t. (advance_task o p t s).0)
      ∙ ap (Option.map (λ t. (advance_task o p t s).0)) e

  step_task-other :
      (k j : ℕ) (ts : List (ServerTask o p)) (s : AppContext)
      → k ≢ j
      → get_elem? (step_task o p j ts s).0 k ≡ get_elem? ts k
  step_task-other k j ts s other =
      ap (λ us. get_elem? us k) (step_task-modify j ts s)
      ∙ get_elem?-modify_other ts k j (λ t. (advance_task o p t s).0) other

  -- A task of the request with at most so many steps left.
  abbrev Going : HttpRequest o.Body → ℕ → ServerTask o p → Type 0
  Going r n t = (left t ≤ n) × (r.path ≢ codes "/api/votes" → IsPage r t)

  Going-advance :
      (r : HttpRequest o.Body) (n : ℕ) (t : ServerTask o p) (s : AppContext)
      → Going r n t
      → Going r (n - 1) (advance_task o p t s).0
  Going-advance r n t s (few, page) =
      (omega (arith, left-advance t s), λ other. IsPage-advance r t s other (page other))

  run_tasks-Going :
      (k : ℕ) (ks : List ℕ) (ts : List (ServerTask o p)) (s : AppContext) (r : HttpRequest o.Body)
      (n : ℕ) (t : ServerTask o p)
      → get_elem? ts k ≡ some t
      → Going r n t
      → n ≤ turns_of k ks
      → (t' : ServerTask o p) × (get_elem? (run_tasks o p ks ts s).0 k ≡ some t') × Going r 0 t'
  unfolding run_tasks
  run_tasks-Going k [] ts s r n t e (few, page) enough = (t, e, (omega arith, page))
  run_tasks-Going k (j ∷ ks) ts s r n t e going enough = elim (Bool-cases (eqb k j)) [
    | inl own ↦
        let same : k ≡ j = ground arith in
        run_tasks-Going k ks (step_task o p j ts s).0 (step_task o p j ts s).1 r (n - 1)
          (advance_task o p t s).0
          (subst (λ i. get_elem? (step_task o p i ts s).0 k ≡ some (advance_task o p t s).0) same
            (step_task-own k ts t s e))
          (Going-advance r n t s going) (ground arith)
    | inr other ↦
        run_tasks-Going k ks (step_task o p j ts s).0 (step_task o p j ts s).1 r n t
          (step_task-other k j ts s (λ same. ground arith) ∙ e) going (ground arith)
  ]

  -- While the tasks of any HTTP requests run in any interleaving, each that has six turns has its answer,
  -- and a request for anything but /api/votes has the answer that it has alone, from whatever state.
  pub run_tasks-answers :
      (k : ℕ) (ks : List ℕ) (rs : List (HttpRequest o.Body)) (s : AppContext)
      (r : HttpRequest o.Body)
      → get_elem? rs k ≡ some r
      → 6 ≤ turns_of k ks
      → let (ts, _) = run_tasks o p ks (map waiting rs) s in
        (x : Outcome (Response o.Content)) × (get_elem? (map (answer o p) ts) k ≡ some (some x))
        × (r.path ≢ codes "/api/votes" → x ≡ (respond o p r new).1)
  run_tasks-answers k ks rs s r e enough =
      let (t, there, (few, page)) =
        run_tasks-Going k ks (map waiting rs) s r 6 (waiting r)
          (get_elem?-map waiting rs k ∙ ap (Option.map waiting) e) (omega arith, λ other. inl refl)
          enough in
      let (x, answers) = none_left t few in
      (
        x,
        get_elem?-map (answer o p) (run_tasks o p ks (map waiting rs) s).0 k
            ∙ ap (Option.map (answer o p)) there
            ∙ ap some answers,
        λ other. IsPage-answer r t x few answers (page other),
      )

-- ===== src/Election/Overflow.antt =====
-- Both programs at once (democracy-scheduler/src/main.rs, ballot_box/src/main.rs), after a tally has
-- outgrown the 32 bits at which the scheduler reads it.
use Prim.Native.String.{String}
use managed_linux_democracy.Prelude.{
  ℕ, suc, ◌+◌, ◌*◌, ◌^◌, ◌≤◌, ◌<◌, ◌≡◌, ◌∙◌, ◌⊎◌, arith, Bool, List, length, Option, some, Profile,
  ok, err, returned,
}
use managed_linux_democracy.Prelude.Text.{Unicode}
use managed_linux_democracy.Bpf.Libbpf.{Libbpf}
use managed_linux_democracy.Bpf.Init.{Host}
use managed_linux_democracy.Bpf.Implements.{bpf_connector}
use managed_linux_democracy.Ballot.State.{AppContext}
use managed_linux_democracy.Ballot.Concurrent.{Thread}
use managed_linux_democracy.Ballot.Reading.{Reading, tallies, Turn}
use managed_linux_democracy.Ballot.Reading.Bounds.{votes_handler-between}
use managed_linux_democracy.Scheduler.Winner.{bad_json}
use managed_linux_democracy.Scheduler.Schedule.{Scheduler}
use managed_linux_democracy.Scheduler.Choice.{a_second}
use managed_linux_democracy.Scheduler.Main.{World, run}
use managed_linux_democracy.Scheduler.Start.{start}
use managed_linux_democracy.Scheduler.Ready.{start-ok}
use managed_linux_democracy.Scheduler.Chain.{StopsAfter}
use managed_linux_democracy.Scheduler.Governing.{run_still}
use managed_linux_democracy.Election.{Json, elected}
use managed_linux_democracy.Election.Margin.{after_turns, elected-tallies}
use managed_linux_democracy.Election.Landslide.{Questions}

elected_full :
    (x y a b : ℕ) → (2 ^ 32 ≤ x) ⊎ (2 ^ 32 ≤ y) → x ≤ a → y ≤ b → elected a b ≡ err bad_json
elected_full x y a b full above1 above2 = ground arith

module _ (u : Unicode) (p : Profile) (j : Json) (world : World) where
  -- The scheduler's `main` reaches its loop, and Ctrl-C sets the flag after `n` rounds, before `n`
  -- seconds of run time overflow. Its `n` questions are calls of `votes_handler`, each with two turns,
  -- among calls of `vote_handler` in any interleaving, too few votes to make a tally overflow. If a
  -- tally has reached 2 ^ 32 before, then, whichever side is ahead, the first call of `run` returns
  -- after those rounds without having sent any turn.
  pub start_overflown :
      (n : ℕ) (ts : List Turn) (calls : List Thread) (s : AppContext) (readers : List Reading)
      (build : Profile) (l : Libbpf) (host : Host l) (handler : Bool) (topology : Option ℕ)
      (spawn : String → String → Option ℕ) (sched : Scheduler (bpf_connector l))
      → (start build l host handler topology spawn).1 ≡ returned (ok sched)
      → StopsAfter world n 0
      → n * a_second < 2 ^ 64
      → s.summer1_votes + length calls < 2 ^ 64
      → s.summer2_votes + length calls < 2 ^ 64
      → Questions u p j world n ts readers (after_turns u p ts calls s readers)
      → (2 ^ 32 ≤ s.summer1_votes) ⊎ (2 ^ 32 ≤ s.summer2_votes)
      → (sched' : Scheduler (bpf_connector l)) × (run build (bpf_connector l) world (suc n) 0 sched
          ≡ some (returned (record { loads = 0 + n; scheduler = sched'; result = ok tt })))
        × ((bpf_connector l).sent sched'.bpf ≡ (bpf_connector l).sent sched.bpf)
  start_overflown n ts calls s readers build l host handler topology spawn sched started stops
        seconds room1 room2 questions full =
      let (nr, handled, found, attached, wired, owned) =
        start-ok build l host handler topology spawn sched started in
      run_still build (bpf_connector l) world n 0 0 (suc n) sched stops (omega arith) (omega arith)
        wired
        (λ k within.
          let below : k < n = omega arith in
          let (a, b, answer, from1, to1, from2, to2) =
            votes_handler-between u p k ts calls s readers room1 room2 (questions.ask k below)
              (questions.end_up k below) in
          (
            bad_json,
            questions.arrive k (tallies a b) below answer
                ∙ elected-tallies u j a b
                ∙ elected_full s.summer1_votes s.summer2_votes a b full from1 from2,
          ))

-- ===== src/Tests/Landslide.antt =====
-- Both programs at once: two questions among two votes, at a concrete interleaving.
use managed_linux_democracy.Prelude.{
  ℕ, zero, suc, ◌+◌, ◌≤◌, ◌<◌, ◌^◌, inl, ◌≡◌, refl, ap, arith, leb, dev, List, [], ◌∷◌, get_elem?,
  Option, some, true, Result, ok, err, returned,
}
use managed_linux_democracy.Prelude.Map.{get, insert}
use managed_linux_democracy.Prelude.Text.{text_eqb, to_lowercase}
use managed_linux_democracy.Ballot.State.{v4, AppContext}
use managed_linux_democracy.Ballot.Vote.{check_vote}
use managed_linux_democracy.Ballot.Concurrent.{step, advance}
use managed_linux_democracy.Ballot.Reading.{
  Reading, asked, answered, Turn, voting, reading, Service, turn, turns,
}
use managed_linux_democracy.Ballot.Reading.Bounds.{reads}
use managed_linux_democracy.Scheduler.Competitors.{Competitors}
use managed_linux_democracy.Scheduler.Winner.{
  WinnerError, unknown_competitor, received, get_current_winner,
}
use managed_linux_democracy.Scheduler.Schedule.{Scheduler}
use managed_linux_democracy.Scheduler.Main.{World, run}
use managed_linux_democracy.Scheduler.Owners.{OwnsLaunched}
use managed_linux_democracy.Scheduler.Chain.{Chain, StopsAfter}
use managed_linux_democracy.Scheduler.Governing.{Governs}
use managed_linux_democracy.Election.Margin.{after_turns}
use managed_linux_democracy.Election.Landslide.{Questions, start-Governs_clear}
use managed_linux_democracy.Election.Overflow.{start_overflown}
use managed_linux_democracy.Tests.Kernel.{ascii_only, lists}
use managed_linux_democracy.Tests.Links.{plain}
use managed_linux_democracy.Tests.Interleaved.{pair, far}
use managed_linux_democracy.Tests.Rounds.{never_fails}
use managed_linux_democracy.Tests.Mandate.{running-HasTasks}
use managed_linux_democracy.Tests.Whole.{link, machine, spawn, running, starts}

abbrev order : List Turn
order =
    reading 0 ∷ voting 0 ∷ voting 0 ∷ voting 0 ∷ reading 0 ∷ voting 1 ∷ reading 1 ∷ reading 1 ∷ []

abbrev two : List Reading
two = asked ∷ asked ∷ []

-- From these tallies on.
abbrev end : AppContext → Service
end tally = after_turns ascii_only dev order pair tally two

abbrev reply_of : Option Reading → Result Competitors WinnerError
reply_of (some (answered v)) =
    get_current_winner ascii_only plain.decode (received (plain.encode v))
reply_of _ = err unknown_competitor

abbrev busy_day : AppContext → World
busy_day tally = record {
  shutdown = λ k. leb 2 k;
  answer = λ k. reply_of (get_elem? (end tally).readers k);
}

busy_day-StopsAfter : (tally : AppContext) → StopsAfter (busy_day tally) 2 0
busy_day-StopsAfter tally = record { before = λ k h. ground arith; then_set = refl }

both-ask : (k : ℕ) → k < 2 → get_elem? two k ≡ some asked
both-ask zero h = refl
both-ask (suc zero) h = refl
both-ask (suc (suc k)) h = absurd (omega arith)

both_end : (k : ℕ) → k < 2 → 2 ≤ reads k order
both_end zero h = omega arith
both_end (suc zero) h = omega arith
both_end (suc (suc k)) h = absurd (omega arith)

busy_day-Questions :
    (tally : AppContext) → Questions ascii_only dev plain (busy_day tally) 2 order two (end tally)
busy_day-Questions tally = record {
  ask = both-ask;
  end_up = both_end;
  arrive = λ k v below answer. ap reply_of answer;
}

end-state : (end far).state ≡ record far { summer1_votes = 3; rate_limiter = (v4 1, 7) ∷ [] }
unfolding turns turn step advance check_vote to_lowercase text_eqb get insert
end-state = refl

start-Governs_clear_example :
    OwnsLaunched spawn running.owner_map
    × (sched' : Scheduler link) × (run dev link (busy_day far) 3 0 running
        ≡ some (returned (record { loads = 0 + 2; scheduler = sched'; result = ok tt })))
    × Chain
        (Governs running.owner_map (λ k. Competitors.summer2))
        2
        0
        (link.sent running.bpf)
        (link.sent sched'.bpf)
start-Governs_clear_example =
    start-Governs_clear ascii_only dev plain (busy_day far) Competitors.summer2 2 order pair far two
      dev lists machine never_fails true (some 4) spawn running starts running-HasTasks
      (busy_day-StopsAfter far) (omega arith) (omega arith) (omega arith) (busy_day-Questions far)
      (rw end-state (omega arith)) (rw end-state (omega arith)) (rw end-state (omega arith))

-- The first side is far ahead.
abbrev full : AppContext
full = record { summer1_votes = 2 ^ 32; summer2_votes = 5; rate_limiter = [] }

start_overflown_example :
    (sched' : Scheduler link) × (run dev link (busy_day full) 3 0 running
      ≡ some (returned (record { loads = 0 + 2; scheduler = sched'; result = ok tt })))
    × (link.sent sched'.bpf ≡ link.sent running.bpf)
start_overflown_example =
    start_overflown ascii_only dev plain (busy_day full) 2 order pair full two dev lists machine
      true (some 4) spawn running starts (busy_day-StopsAfter full) (omega arith) (omega arith)
      (omega arith) (busy_day-Questions full) (inl (omega arith))

-- ===== src/Ballot/Reading/Torn.antt =====
-- ballot_box/src/main.rs: `votes_handler` can answer with tallies that never stood together.
use managed_linux_democracy.Prelude.{
  ◌+◌, ◌^◌, ◌≤◌, ◌<◌, ◌≡◌, ◌≢◌, arith, All, List, [], ◌∷◌, Profile, some, false,
}
use managed_linux_democracy.Prelude.Map.{get, get-insert}
use managed_linux_democracy.Prelude.Text.{Unicode}
use managed_linux_democracy.Ballot.State.{ip_eq, AppContext, summer1, summer2, Request}
use managed_linux_democracy.Ballot.Vote.{check_vote}
use managed_linux_democracy.Ballot.Handler.{too_early, record_request}
use managed_linux_democracy.Ballot.Replies.{second}
use managed_linux_democracy.Ballot.Concurrent.{arrived, step, advance}
use managed_linux_democracy.Ballot.Reading.{
  asked, answered, tallies, read, Turn, voting, reading, Service, turn, turns,
}

-- The states that a run goes through, the first and the last one included.
module _ (u : Unicode) (p : Profile) where
  unfoldable pub passed_states : List Turn → Service → List AppContext
  passed_states [] w = w.state ∷ []
  passed_states (t ∷ ts) w = w.state ∷ passed_states ts (turn u p t w)

-- Two votes that have just arrived, and a question.
abbrev pub torn_start : Request → Request → AppContext → Service
torn_start r q s = record {
  calls = (r, arrived) ∷ (q, arrived) ∷ [];
  state = s;
  readers = asked ∷ [];
}

-- The reader loads the first tally, then both votes are cast, and then it loads the second one.
abbrev pub torn_order : List Turn
torn_order =
    reading 0 ∷ voting 0 ∷ voting 0 ∷ voting 0 ∷ voting 1 ∷ voting 1 ∷ voting 1 ∷ reading 0 ∷ []

module _ (u : Unicode) (p : Profile) (r q : Request) (s : AppContext) (other : q.ip ≢ r.ip)
    (free1 : too_early p (get r.ip s.rate_limiter) (second r) ≡ some false)
    (free2 : too_early p (get q.ip s.rate_limiter) (second q) ≡ some false)
    (first_vote : check_vote u r.vote ≡ some summer1)
    (second_vote : check_vote u q.vote ≡ some summer2) where
  after_record : get q.ip (record_request r.ip (second r) s).rate_limiter ≡ get q.ip s.rate_limiter
  after_record =
      ground (arith, get-insert q.ip r.ip (second r) s.rate_limiter, ip_eq.same_iff q.ip r.ip)

  -- Between a first vote and a second one from elsewhere, from equal tallies below 2 ^ 64 - 1, the
  -- second side is never ahead; but if a call of `votes_handler` loads the first tally before both
  -- votes and the second after them, it answers that the second side is ahead.
  pub votes_handler_torn :
      s.summer1_votes ≡ s.summer2_votes
      → s.summer1_votes + 1 < 2 ^ 64
      → All
          (λ t. t.summer2_votes ≤ t.summer1_votes)
          (passed_states u p torn_order (torn_start r q s))
        × ((turns u p torn_order (torn_start r q s)).readers
            ≡ answered (tallies s.summer1_votes (s.summer1_votes + 1)) ∷ [])
  unfolding passed_states turns turn read step advance
  votes_handler_torn even fits = ground (arith, after_record)

-- ===== src/Ballot/Reading.antt =====
-- ballot_box/src/main.rs: calls of `votes_handler` while calls of `vote_handler` run. The two loads of
-- each are steps of their own, which interleave with the steps of the votes and of each other.
pub mod Bounds
pub mod Order
pub mod Torn
use managed_linux_democracy.Prelude.{
  ℕ, zero, suc, ◌+◌, ◌%◌, ◌^◌, ◌≤◌, ◌<◌, ◌≡◌, refl, arith, length, modify, List, [], ◌∷◌, Profile,
}
use managed_linux_democracy.Prelude.Text.{codes, Unicode}
use managed_linux_democracy.Ballot.State.{
  AppContext, PossibleVote, summer1, summer2, Request, VotesResponse,
}
use managed_linux_democracy.Ballot.Handler.{votes_handler}
use managed_linux_democracy.Ballot.Replies.{votes_for}
use managed_linux_democracy.Ballot.Concurrent.{
  Pc, arrived, passed, recorded, counted, loaded, finished, Thread, advance, step,
}
use managed_linux_democracy.Ballot.Trace.{cast_of, cast_for}
use managed_linux_democracy.Ballot.Interleavings.{has_cast, total_cast, Gains, step-Gains}

-- Where a call of `votes_handler` stands.
pub data Reading : Type 0 where
  asked : Reading  -- before the first load
  half_read : (summer1_votes : ℕ) → Reading  -- before the second load
  answered : VotesResponse → Reading

abbrev pub tallies : ℕ → ℕ → VotesResponse
tallies a b = record { votes = (codes "summer1", a) ∷ (codes "summer2", b) ∷ [] }

-- One step of the call; when it has answered, it stays as it is.
unfoldable pub read : Reading → AppContext → Reading
read asked s = half_read s.summer1_votes
read (half_read a) s = answered (tallies a s.summer2_votes)
read (answered v) s = answered v

-- Whose step comes next: that of a call of `vote_handler` or of `votes_handler`, by its number.
pub data Turn : Type 0 where
  voting : ℕ → Turn
  reading : ℕ → Turn

pub record Service : Type 0 where
  pub calls : List Thread
  pub state : AppContext
  pub readers : List Reading

module _ (u : Unicode) (p : Profile) where
  unfoldable pub turn : Turn → Service → Service
  turn (voting k) w =
      let (calls', state') = step u p k w.calls w.state in
      record w { calls = calls'; state = state' }
  turn (reading k) w = record w { readers = modify w.readers k (λ q. read q w.state) }

  unfoldable pub turns : List Turn → Service → Service
  unfolding turn
  turns [] w = w
  turns (t ∷ ts) w = turns ts (turn t w)

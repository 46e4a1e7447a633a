-- ===== src/Election/Margin.antt =====
-- The scheduler's question (democracy-scheduler/src/main.rs, `get_current_winner`) while votes come in
-- (ballot_box/src/main.rs): what a lead has to be so that no interleaving can hide it.
use managed_linux_democracy.Prelude.{
  ℕ, ◌+◌, ◌^◌, ◌≤◌, ◌<◌, ◌≡◌, ◌∙◌, arith, List, [], length, get_elem?, some, Profile, ok,
}
use managed_linux_democracy.Prelude.Text.{Unicode}
use managed_linux_democracy.Ballot.State.{AppContext, VotesResponse}
use managed_linux_democracy.Ballot.Handler.{votes_handler}
use managed_linux_democracy.Ballot.Concurrent.{Thread}
use managed_linux_democracy.Ballot.Reading.{Reading, asked, answered, tallies, Turn, Service, turns}
use managed_linux_democracy.Ballot.Reading.Bounds.{reads, votes_handler-between}
use managed_linux_democracy.Scheduler.Competitors.{Competitors, summer1, summer2}
use managed_linux_democracy.Scheduler.Winner.{received, get_current_winner}
use managed_linux_democracy.Election.{Json, elected, get_current_winner-votes_handler}

-- The votes that a side has in the first state are more than the other side's in the second; the
-- first side may be level, but must have a vote.
abbrev pub IsClear : Competitors → AppContext → AppContext → Type 0
IsClear summer1 before after =
    (after.summer2_votes ≤ before.summer1_votes) × (0 < before.summer1_votes)
IsClear summer2 before after = after.summer1_votes < before.summer2_votes

elected-clear :
    (w : Competitors) (before after : AppContext) (a b : ℕ)
    → IsClear w before after
    → after.summer1_votes < 2 ^ 32
    → after.summer2_votes < 2 ^ 32
    → (before.summer1_votes ≤ a)
      × (a ≤ after.summer1_votes)
      × (before.summer2_votes ≤ b)
      × (b ≤ after.summer2_votes)
    → elected a b ≡ ok w
elected-clear summer1 before after a b clear fits1 fits2 between = ground arith
elected-clear summer2 before after a b clear fits1 fits2 between = ground arith

pub elected-tallies :
    (u : Unicode) (j : Json) (a b : ℕ)
    → get_current_winner u j.decode (received (j.encode (tallies a b))) ≡ elected a b
unfolding votes_handler
elected-tallies u j a b =
    get_current_winner-votes_handler u j
      (record { summer1_votes = a; summer2_votes = b; rate_limiter = [] })

-- The service after some turns.
abbrev pub after_turns :
    Unicode → Profile → List Turn → List Thread → AppContext → List Reading → Service
after_turns u p ts calls s readers =
    turns u p ts (record { calls = calls; state = s; readers = readers })

module _ (u : Unicode) (p : Profile) (j : Json) where
  -- While calls of `vote_handler` and of `votes_handler` run in any interleaving, too few votes to
  -- make a tally overflow, each call of `votes_handler` that has two turns answers; and if one side's
  -- votes before are more than the other's after, or as many for the first side, which has a vote,
  -- then the scheduler elects this side by the answer, as long as the tallies are below 2 ^ 32.
  pub turns-elects :
      (w : Competitors) (k : ℕ) (ts : List Turn) (calls : List Thread) (s : AppContext)
      (readers : List Reading)
      → s.summer1_votes + length calls < 2 ^ 64
      → s.summer2_votes + length calls < 2 ^ 64
      → get_elem? readers k ≡ some asked
      → 2 ≤ reads k ts
      → let end = after_turns u p ts calls s readers in
        IsClear w s end.state
        → end.state.summer1_votes < 2 ^ 32
        → end.state.summer2_votes < 2 ^ 32
        → (v : VotesResponse) × (get_elem? end.readers k ≡ some (answered v))
          × (get_current_winner u j.decode (received (j.encode v)) ≡ ok w)
  turns-elects w k ts calls s readers room1 room2 here enough clear fits1 fits2 =
      let end : Service = after_turns u p ts calls s readers in
      let (a, b, answer, from1, to1, from2, to2) =
        votes_handler-between u p k ts calls s readers room1 room2 here enough in
      (
        tallies a b,
        answer,
        elected-tallies u j a b
            ∙ elected-clear w s end.state a b clear fits1 fits2 (from1, to1, from2, to2),
      )

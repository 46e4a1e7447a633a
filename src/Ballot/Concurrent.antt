-- ===== src/Ballot/Concurrent.antt =====
-- ballot_box/src/main.rs: several calls of `vote_handler` at once, as the server's tasks run them.
-- The shared accesses of a call are the steps: the limiter's `get`, its `entry`, the `fetch_add`, and
-- the two loads of the reply. They interleave in any order, and each takes effect at once.
use managed_linux_democracy.Prelude.{
  ℕ, zero, suc, List, [], ◌∷◌, true, false, Profile, none, some, ok, err, returned, panicked,
}
use managed_linux_democracy.Prelude.Map.{get}
use managed_linux_democracy.Prelude.Text.{Unicode}
use managed_linux_democracy.Ballot.State.{ip_eq, AppContext, Request, Reply}
use managed_linux_democracy.Ballot.Vote.{check_vote}
use managed_linux_democracy.Ballot.Handler.{
  limited, invalid, too_early, record_request, cast_vote, tally_response,
}
use managed_linux_democracy.Ballot.Replies.{second}

-- Where a call stands, with the local variables that it still needs.
pub data Pc : Type 0 where
  arrived : Pc  -- before the limiter's `get`
  passed : Pc  -- before its `entry`
  recorded : Pc  -- before `check_vote` and `fetch_add`
  counted : Pc  -- before the first load
  loaded : (summer1_votes : ℕ) → Pc  -- before the second load
  finished : Reply → Pc

abbrev pub Thread : Type 0
Thread = Request × Pc

module _ (u : Unicode) (p : Profile) where
  -- One step of one call; a finished call stays as it is.
  unfoldable pub advance : Request → Pc → AppContext → Pc × AppContext
  advance r arrived s = elim (too_early p (get r.ip s.rate_limiter) (second r)) [
    | none ↦ (finished panicked, s)
    | some true ↦ (finished (returned (err limited)), s)
    | some false ↦ (passed, s)
  ]
  advance r passed s = (recorded, record_request r.ip (second r) s)
  advance r recorded s = elim (check_vote u r.vote) [
    | none ↦ (finished (returned (err invalid)), s)
    | some v ↦ (counted, cast_vote v s)
  ]
  advance r counted s = (loaded s.summer1_votes, s)
  advance r (loaded a) s = (finished (returned (ok (tally_response a s.summer2_votes))), s)
  advance r (finished reply) s = (finished reply, s)

  -- A step of the call with the given number; a number that no call has does nothing.
  unfoldable pub step : ℕ → List Thread → AppContext → List Thread × AppContext
  unfolding advance
  step k [] s = ([], s)
  step zero ((r, pc) ∷ ts) s = let (pc', s') = advance r pc s in ((r, pc') ∷ ts, s')
  step (suc k) (t ∷ ts) s = let (ts', s') = step k ts s in (t ∷ ts', s')

  -- The steps in the order that the scheduler of the tasks chooses.
  unfoldable pub interleave : List ℕ → List Thread → AppContext → List Thread × AppContext
  unfolding step
  interleave [] ts s = (ts, s)
  interleave (k ∷ ks) ts s = let (ts', s') = step k ts s in interleave ks ts' s'

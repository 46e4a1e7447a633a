-- ===== src/Ballot/Handler.antt =====
-- ballot_box/src/main.rs: `vote_handler` and `votes_handler`, each as one call that nothing
-- interrupts. (`Ballot.Concurrent` has the calls of several tasks interleaved.)
use managed_linux_democracy.Prelude.{
  ℕ, ◌+◌, ◌%◌, ◌^◌, [], ◌∷◌, Option, none, some, Bool, true, false, ltb, Profile, sub_u64, as_u64,
  ok, err, returned, panicked,
}
use managed_linux_democracy.Prelude.Map.{get, insert}
use managed_linux_democracy.Prelude.Text.{Text, codes, Unicode}
use managed_linux_democracy.Ballot.State.{
  IpAddr, ip_eq, AppContext, PossibleVote, summer1, summer2, too_many_requests, bad_request,
  AppError, Request, VoteResponse, VotesResponse, Reply,
}
use managed_linux_democracy.Ballot.Vote.{check_vote}

abbrev pub limited : AppError
limited = record {
  status = too_many_requests;
  message =
      "Okay, listen. Democracy has limits. You're doing that too much; try again in a second.";
}

abbrev pub invalid : AppError
invalid = record {
  status = bad_request;
  message = "Not a valid vote; Must be one of 'summer1', 'summer2'";
}

-- The first `if let`: with the last request's second at hand, whether this one comes too early.
-- `none` is the panic of the subtraction under overflow checks.
abbrev pub too_early : Profile → Option ℕ → ℕ → Option Bool
too_early p none epoch_seconds = some false
too_early p (some last_request_time) epoch_seconds =
    elim (sub_u64 p epoch_seconds last_request_time) [ none ↦ none | some d ↦ some (ltb d 1) ]

-- `entry(ip).and_modify(..).or_insert(..)`
abbrev pub record_request : IpAddr → ℕ → AppContext → AppContext
record_request ip epoch_seconds state = record state {
  rate_limiter = insert ip epoch_seconds state.rate_limiter;
}

-- `fetch_add(1)` on the tally of the vote; it wraps in either build.
abbrev pub cast_vote : PossibleVote → AppContext → AppContext
cast_vote summer1 state = record state { summer1_votes = (state.summer1_votes + 1) % 2 ^ 64 }
cast_vote summer2 state = record state { summer2_votes = (state.summer2_votes + 1) % 2 ^ 64 }

abbrev pub tally_response : ℕ → ℕ → VoteResponse
tally_response a b = record {
  current_tally = (codes "summer1_votes", a) ∷ (codes "summer2_votes", b) ∷ [];
}

module _ (u : Unicode) (p : Profile) where
  -- From the check of the vote on.
  unfoldable pub count_vote : Text → AppContext → AppContext × Reply
  count_vote vote state = elim (check_vote u vote) [
    | none ↦ (state, returned (err invalid))
    | some v ↦
        let after = cast_vote v state in
        (after, returned (ok (tally_response after.summer1_votes after.summer2_votes)))
  ]

  unfoldable pub vote_handler : Request → AppContext → AppContext × Reply
  unfolding count_vote
  vote_handler input state =
      let epoch_seconds = as_u64 input.timestamp in
      elim (too_early p (get input.ip state.rate_limiter) epoch_seconds) [
        | none ↦ (state, panicked)
        | some true ↦ (state, returned (err limited))
        | some false ↦ count_vote input.vote (record_request input.ip epoch_seconds state)
      ]

unfoldable pub votes_handler : AppContext → VotesResponse
votes_handler state = record {
  votes = (codes "summer1", state.summer1_votes) ∷ (codes "summer2", state.summer2_votes) ∷ [];
}

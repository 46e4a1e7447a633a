-- ===== src/Ballot/Trace.antt =====
-- ballot_box/src/main.rs: requests handled one after another, and what that keeps.
use managed_linux_democracy.Prelude.{
  ℕ, ◌+◌, ◌%◌, ◌^◌, ◌<◌, ◌≡◌, arith, none, some, Profile, ok, returned, List, [], ◌∷◌, All,
}
use managed_linux_democracy.Prelude.Map.{get}
use managed_linux_democracy.Prelude.Text.{Unicode}
use managed_linux_democracy.Ballot.State.{
  ip_eq, AppContext, new, PossibleVote, summer1, summer2, Request, Reply,
}
use managed_linux_democracy.Ballot.Vote.{check_vote}
use managed_linux_democracy.Ballot.Handler.{vote_handler}
use managed_linux_democracy.Ballot.Replies.{
  second, IsI64, IsValid, votes_for, rate_limiter-vote_handler,
}

-- Each request with its reply.
abbrev pub Log : Type 0
Log = List (Request × Reply)

module _ (u : Unicode) (p : Profile) where
  unfoldable pub serve : List Request → AppContext → AppContext × Log
  serve [] s = (s, [])
  serve (r ∷ rs) s =
      let (s', reply) = vote_handler u p r s in
      let (end, log) = serve rs s' in (end, (r, reply) ∷ log)

abbrev same_side : PossibleVote → PossibleVote → ℕ
same_side summer1 summer1 = 1
same_side summer2 summer2 = 1
same_side _ _ = 0

-- 1 if the request's text is a vote for `v`.
abbrev pub cast_of : Unicode → PossibleVote → Request → ℕ
cast_of u v r = elim (check_vote u r.vote) [ some w ↦ same_side v w | none ↦ 0 ]

-- 1 if the entry is a vote for `v` that was counted.
abbrev pub cast_for : Unicode → PossibleVote → Request × Reply → ℕ
cast_for u v (r, returned (ok _)) = cast_of u v r
cast_for u v (r, _) = 0

abbrev pub total_for : Unicode → PossibleVote → Log → ℕ
total_for u v [] = 0
total_for u v (x ∷ log) = cast_for u v x + total_for u v log

second-lt : (r : Request) → IsI64 r.timestamp → second r < 2 ^ 64
second-lt r h = ground arith

pub new-IsValid : IsValid new
unfolding get
new-IsValid = record {
  summer1_fits = omega arith;
  summer2_fits = omega arith;
  seconds_fit = λ ip t h. absurd (ground arith);
}

module _ (u : Unicode) (p : Profile) where
  -- One more for the side of a counted vote, none for any other reply.
  pub votes_for-vote_handler :
      (v : PossibleVote) (r : Request) (s : AppContext)
      → IsValid s
      → let (s', reply) = vote_handler u p r s in
        votes_for v s' ≡ (votes_for v s + cast_for u v (r, reply)) % 2 ^ 64
  unfolding vote_handler
  votes_for-vote_handler summer1 r s valid = ground arith
  votes_for-vote_handler summer2 r s valid = ground arith

  pub vote_handler-IsValid :
      (r : Request) (s : AppContext)
      → IsI64 r.timestamp
      → IsValid s
      → IsValid (vote_handler u p r s).0
  vote_handler-IsValid r s range valid = record {
    summer1_fits = omega (arith, votes_for-vote_handler summer1 r s valid);
    summer2_fits = omega (arith, votes_for-vote_handler summer2 r s valid);
    seconds_fit = λ ip t h.
        ground
          (arith, rate_limiter-vote_handler u p r s ip, valid.seconds_fit ip t, second-lt r range);
  }

  -- Any sequence of requests with timestamps in the range of an `i64` keeps the state in range: the
  -- tallies and the seconds of the limiter stay below 2 ^ 64.
  pub serve-IsValid :
      (rs : List Request) (s : AppContext)
      → All (λ r. IsI64 r.timestamp) rs
      → IsValid s
      → IsValid (serve u p rs s).0
  unfolding serve
  serve-IsValid [] s range valid = valid
  serve-IsValid (r ∷ rs) s range valid =
      serve-IsValid rs (vote_handler u p r s).0 range.1 (vote_handler-IsValid r s range.0 valid)

  -- After any sequence of requests, from a state in range and with timestamps in the range of an
  -- `i64`, each tally is, modulo 2 ^ 64, the tally before it with the votes for that side that were
  -- counted: no vote is lost and none is counted twice.
  pub votes_for-serve :
      (v : PossibleVote) (rs : List Request) (s : AppContext)
      → All (λ r. IsI64 r.timestamp) rs
      → IsValid s
      → let (end, log) = serve u p rs s in
        votes_for v end ≡ (votes_for v s + total_for u v log) % 2 ^ 64
  unfolding serve
  votes_for-serve summer1 [] s range valid = omega arith
  votes_for-serve summer2 [] s range valid = omega arith
  votes_for-serve v (r ∷ rs) s range valid = omega (
    arith,
    votes_for-vote_handler v r s valid,
    votes_for-serve v rs (vote_handler u p r s).0 range.1 (vote_handler-IsValid r s range.0 valid),
  )

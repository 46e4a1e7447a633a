-- ===== src/Ballot/Commuting.antt =====
-- ballot_box/src/main.rs: requests from different addresses do not depend on their order.
use managed_linux_democracy.Prelude.{
  ℕ, ◌+◌, ◌%◌, ◌^◌, ◌≡◌, ◌≢◌, sym, arith, eqb, if◌then◌else◌, Profile,
}
use managed_linux_democracy.Prelude.Map.{get}
use managed_linux_democracy.Prelude.Text.{Unicode}
use managed_linux_democracy.Ballot.State.{
  IpAddr, ip_eq, AppContext, PossibleVote, summer1, summer2, Request,
}
use managed_linux_democracy.Ballot.Handler.{vote_handler, count_vote}
use managed_linux_democracy.Ballot.Replies.{admitted, votes_for, rate_limiter-vote_handler}
use managed_linux_democracy.Ballot.Trace.{cast_for}

-- Two states that no request can tell apart: they may keep their addresses in another order.
pub record Agree (s t : AppContext) : Type 0 where
  pub tallies : (v : PossibleVote) → votes_for v s ≡ votes_for v t
  pub seconds : (ip : IpAddr) → get ip s.rate_limiter ≡ get ip t.rate_limiter

-- A tally after a call that has cast `n` votes for it, none or one.
abbrev bump : ℕ → ℕ → ℕ
bump n x = if eqb n 0 then x else (x + 1) % 2 ^ 64

module _ (u : Unicode) (p : Profile) where
  -- What a call does depends on the state by the second of its address only.
  admitted-same :
      (r : Request) (s t : AppContext)
      → get r.ip s.rate_limiter ≡ get r.ip t.rate_limiter
      → admitted (vote_handler u p r s).1 ≡ admitted (vote_handler u p r t).1
  unfolding vote_handler count_vote
  admitted-same r s t e = ground arith

  cast_for-same :
      (v : PossibleVote) (r : Request) (s t : AppContext)
      → get r.ip s.rate_limiter ≡ get r.ip t.rate_limiter
      → cast_for u v (r, (vote_handler u p r s).1) ≡ cast_for u v (r, (vote_handler u p r t).1)
  unfolding vote_handler count_vote
  cast_for-same v r s t e = ground arith

  seconds_other :
      (r : Request) (s : AppContext) (ip : IpAddr)
      → ip ≢ r.ip
      → get ip (vote_handler u p r s).0.rate_limiter ≡ get ip s.rate_limiter
  seconds_other r s ip other =
      ground (arith, rate_limiter-vote_handler u p r s ip, ip_eq.same_iff ip r.ip)

  after : Request → Request → AppContext → AppContext
  after r q s = (vote_handler u p q (vote_handler u p r s).0).0

  tally-vote_handler :
      (v : PossibleVote) (r : Request) (s : AppContext)
      → votes_for v (vote_handler u p r s).0
        ≡ bump (cast_for u v (r, (vote_handler u p r s).1)) (votes_for v s)
  unfolding vote_handler count_vote
  tally-vote_handler summer1 r s = ground arith
  tally-vote_handler summer2 r s = ground arith

  tallies_commute :
      (v : PossibleVote) (r q : Request) (s : AppContext)
      → r.ip ≢ q.ip
      → votes_for v (after r q s) ≡ votes_for v (after q r s)
  unfolding after
  tallies_commute v r q s other = ground (
    arith,
    tally-vote_handler v r s,
    tally-vote_handler v q s,
    tally-vote_handler v q (vote_handler u p r s).0,
    tally-vote_handler v r (vote_handler u p q s).0,
    cast_for-same v q (vote_handler u p r s).0 s (seconds_other r s q.ip (λ e. other (sym e))),
    cast_for-same v r (vote_handler u p q s).0 s (seconds_other q s r.ip other),
  )

  seconds_commute :
      (r q : Request) (s : AppContext) (ip : IpAddr)
      → r.ip ≢ q.ip
      → get ip (after r q s).rate_limiter ≡ get ip (after q r s).rate_limiter
  unfolding after
  seconds_commute r q s ip other = ground (
    arith,
    rate_limiter-vote_handler u p r s ip,
    rate_limiter-vote_handler u p q s ip,
    rate_limiter-vote_handler u p q (vote_handler u p r s).0 ip,
    rate_limiter-vote_handler u p r (vote_handler u p q s).0 ip,
    admitted-same q (vote_handler u p r s).0 s (seconds_other r s q.ip (λ e. other (sym e))),
    admitted-same r (vote_handler u p q s).0 s (seconds_other q s r.ip other),
    ip_eq.same_iff ip r.ip,
    ip_eq.same_iff ip q.ip,
  )

  -- Of two requests from different addresses either may come first: from any state, the states in
  -- the end agree on both tallies and on the second of every address.
  pub vote_handler_commute :
      (r q : Request) (s : AppContext)
      → r.ip ≢ q.ip
      → Agree
          (vote_handler u p q (vote_handler u p r s).0).0
          (vote_handler u p r (vote_handler u p q s).0).0
  unfolding after
  vote_handler_commute r q s other = record {
    tallies = λ v. tallies_commute v r q s other;
    seconds = λ ip. seconds_commute r q s ip other;
  }

  tally_same :
      (v : PossibleVote) (r : Request) (s t : AppContext)
      → Agree s t
      → votes_for v (vote_handler u p r s).0 ≡ votes_for v (vote_handler u p r t).0
  tally_same v r s t same = ground (
    arith,
    tally-vote_handler v r s,
    tally-vote_handler v r t,
    same.tallies v,
    cast_for-same v r s t (same.seconds r.ip),
  )

  reply_same :
      (r : Request) (s t : AppContext)
      → Agree s t
      → (vote_handler u p r s).1 ≡ (vote_handler u p r t).1
  unfolding vote_handler count_vote
  reply_same r s t same =
      ground (arith, same.seconds r.ip, same.tallies summer1, same.tallies summer2)

  -- A call in two states that agree gives the same reply, and states that agree.
  pub vote_handler-Agree :
      (r : Request) (s t : AppContext)
      → Agree s t
      → Agree (vote_handler u p r s).0 (vote_handler u p r t).0
        × ((vote_handler u p r s).1 ≡ (vote_handler u p r t).1)
  vote_handler-Agree r s t same = (
    record {
      tallies = λ v. tally_same v r s t same;
      seconds = λ ip. ground (
        arith,
        same.seconds ip,
        rate_limiter-vote_handler u p r s ip,
        rate_limiter-vote_handler u p r t ip,
        admitted-same r s t (same.seconds r.ip),
      );
    },
    reply_same r s t same,
  )

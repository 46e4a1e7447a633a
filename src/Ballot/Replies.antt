-- ===== src/Ballot/Replies.antt =====
-- ballot_box/src/main.rs: every way in which a call of `vote_handler` can end.
use managed_linux_democracy.Prelude.{
  ℕ, ◌+◌, ◌%◌, ◌^◌, ◌<◌, ◌≡◌, ◌≢◌, ◌⊎◌, inl, inr, refl, arith, if◌then◌else◌, Bool, true, false,
  Option, none, some, Option-cases, ◌==◌, ◌&&◌, ℤ, pos, negsuc, Profile, dev, as_u64, ok, err,
  returned, panicked,
}
use managed_linux_democracy.Prelude.Map.{get, get-insert}
use managed_linux_democracy.Prelude.Text.{Text, Unicode, Spells}
use managed_linux_democracy.Ballot.State.{
  IpAddr, ip_eq, AppContext, PossibleVote, summer1, summer2, too_many_requests, bad_request,
  Request, Reply,
}
use managed_linux_democracy.Ballot.Vote.{check_vote, check_vote_iff, name}
use managed_linux_democracy.Ballot.Verdict.{
  too_early-true, too_early-none, too_early-false, too_early-later,
}
use managed_linux_democracy.Ballot.Handler.{
  limited, invalid, too_early, record_request, cast_vote, tally_response, count_vote, vote_handler,
}

-- The second in which a request is handled.
abbrev pub second : Request → ℕ
second r = as_u64 r.timestamp

-- The clock's reading is an `i64`.
abbrev pub IsI64 : ℤ → Type 0
IsI64 (pos n) = n < 2 ^ 63
IsI64 (negsuc n) = n < 2 ^ 63

-- Words stay words.
pub record IsValid (s : AppContext) : Type 0 where
  pub summer1_fits : s.summer1_votes < 2 ^ 64
  pub summer2_fits : s.summer2_votes < 2 ^ 64
  pub seconds_fit : (ip : IpAddr) (t : ℕ) → get ip s.rate_limiter ≡ some t → t < 2 ^ 64

-- The votes for one side.
abbrev pub votes_for : PossibleVote → AppContext → ℕ
votes_for summer1 s = s.summer1_votes
votes_for summer2 s = s.summer2_votes

-- The other side.
abbrev pub rival : PossibleVote → PossibleVote
rival summer1 = summer2
rival summer2 = summer1

-- The request passed the rate limiter.
abbrev pub admitted : Reply → Bool
admitted (returned (ok _)) = true
admitted (returned (err e)) = elim e.status [ bad_request ↦ true | _ ↦ false ]
admitted panicked = false

module _ (u : Unicode) (p : Profile) where
  -- The limiter after a call: an admitted request leaves its second at its address, and nothing
  -- else changes.
  pub rate_limiter-vote_handler :
      (r : Request) (s : AppContext) (j : IpAddr)
      → let (s', reply) = vote_handler u p r s in
        get j s'.rate_limiter
        ≡ (if admitted reply && (j == r.ip) then some (second r) else get j s.rate_limiter)
  unfolding vote_handler
  rate_limiter-vote_handler r s j = ground (arith, get-insert j r.ip (second r) s.rate_limiter)

-- The limiter has no second of the address that stops a request of this second, or that lies later
-- where the build checks overflow.
abbrev pub IsLetThrough : Profile → Request → AppContext → Type 0
IsLetThrough p r s =
    (get r.ip s.rate_limiter ≢ some (second r))
    × ((last : ℕ) → p ≡ dev → get r.ip s.rate_limiter ≡ some last → last < second r)

-- The limiter has the request's second at its address, and every other address as before.
abbrev pub IsEntered : Request → AppContext → AppContext → Type 0
IsEntered r s s' =
    (j : IpAddr)
    → get j s'.rate_limiter ≡ (if j == r.ip then some (second r) else get j s.rate_limiter)

-- What a call has done and what its reply says, by the kind of the reply.
abbrev pub Handled : Profile → Request → AppContext → AppContext → Reply → Type 0
Handled p r s s' (returned (ok resp)) =
    (v : PossibleVote) × Spells r.vote (name v)
    × (votes_for v s' ≡ (votes_for v s + 1) % 2 ^ 64)
    × (votes_for (rival v) s' ≡ votes_for (rival v) s)
    × (resp ≡ tally_response s'.summer1_votes s'.summer2_votes)
    × IsLetThrough p r s
    × IsEntered r s s'
Handled p r s s' (returned (err e)) =
    ((e.status ≡ too_many_requests) × (get r.ip s.rate_limiter ≡ some (second r)) × (s' ≡ s))
    ⊎ ((e.status ≡ bad_request)
        × ((v : PossibleVote) → ¬ Spells r.vote (name v))
        × (s'.summer1_votes ≡ s.summer1_votes)
        × (s'.summer2_votes ≡ s.summer2_votes)
        × IsLetThrough p r s
        × IsEntered r s s')
Handled p r s s' panicked =
    (s' ≡ s) × (p ≡ dev) × ((last : ℕ) × (get r.ip s.rate_limiter ≡ some last) × (second r < last))

module _ (u : Unicode) (p : Profile) where
  count_vote_bad :
      (t : Text) (s : AppContext)
      → check_vote u t ≡ none
      → count_vote u p t s ≡ (s, returned (err invalid))
  unfolding count_vote
  count_vote_bad t s h = ground arith

  count_vote_good :
      (t : Text) (s : AppContext) (v : PossibleVote)
      → check_vote u t ≡ some v
      → let after = cast_vote v s in
        count_vote u p t s
        ≡ (after, returned (ok (tally_response after.summer1_votes after.summer2_votes)))
  unfolding count_vote
  count_vote_good t s v h = ground arith

  count_vote-Handled :
      (r : Request) (s s₀ : AppContext)
      → s.summer1_votes ≡ s₀.summer1_votes
      → s.summer2_votes ≡ s₀.summer2_votes
      → IsLetThrough p r s₀
      → IsEntered r s₀ s
      → let (s', reply) = count_vote u p r.vote s in Handled p r s₀ s' reply
  count_vote-Handled r s s₀ e1 e2 through entered = elim (Option-cases (check_vote u r.vote)) [
    | inl nothing ↦ rw (count_vote_bad r.vote s nothing) (
        inr (
          refl,
          λ v h. let spelled = (check_vote_iff u r.vote v).1 h in cc,
          e1,
          e2,
          through,
          entered,
        ))
    | inr (summer1, vote) ↦
        rw (count_vote_good r.vote s summer1 vote)
          (summer1, (check_vote_iff u r.vote summer1).0 vote, rw e1, e2, refl, through, entered)
    | inr (summer2, vote) ↦
        rw (count_vote_good r.vote s summer2 vote)
          (summer2, (check_vote_iff u r.vote summer2).0 vote, rw e2, e1, refl, through, entered)
  ]

  -- Past the limiter, or stopped by it.
  pub vote_handler-admits :
      (r : Request) (s : AppContext)
      → too_early p (get r.ip s.rate_limiter) (second r) ≡ some false
      → vote_handler u p r s ≡ count_vote u p r.vote (record_request r.ip (second r) s)
  unfolding vote_handler
  vote_handler-admits r s h = ground arith

  pub vote_handler-limits :
      (r : Request) (s : AppContext)
      → too_early p (get r.ip s.rate_limiter) (second r) ≡ some true
      → vote_handler u p r s ≡ (s, returned (err limited))
  unfolding vote_handler
  vote_handler-limits r s h = ground arith

  pub vote_handler-panics :
      (r : Request) (s : AppContext)
      → too_early p (get r.ip s.rate_limiter) (second r) ≡ none
      → vote_handler u p r s ≡ (s, panicked)
  unfolding vote_handler
  vote_handler-panics r s h = ground arith

record_request-entry :
    (j ip : IpAddr) (now : ℕ) (s : AppContext)
    → get j (record_request ip now s).rate_limiter
      ≡ (if j == ip then some now else get j s.rate_limiter)
record_request-entry j ip now s = get-insert j ip now s.rate_limiter

module _ (u : Unicode) (p : Profile) (r : Request) (s : AppContext) (valid : IsValid s) where
  limiter-Handled :
      (o : Option Bool)
      → too_early p (get r.ip s.rate_limiter) (second r) ≡ o
      → let (s', reply) = vote_handler u p r s in Handled p r s s' reply
  limiter-Handled none h =
      let (build, past) = too_early-none p (get r.ip s.rate_limiter) (second r) h in
      rw (vote_handler-panics u p r s h) (refl, build, past)
  limiter-Handled (some true) h =
      rw (vote_handler-limits u p r s h)
        (inl (refl, too_early-true p _ (second r) (valid.seconds_fit r.ip) h, refl))
  limiter-Handled (some false) h = rw (vote_handler-admits u p r s h) (
      count_vote-Handled u p r (record_request r.ip (second r) s) s refl refl
        (
          too_early-false p _ (second r) h,
          λ last build known. too_early-later p _ last (second r) build known h,
        )
        (λ j. record_request-entry j r.ip (second r) s))

  -- In a state whose words are in range, every call of the handler ends in one of these ways. If the
  -- vote was counted, the text spells the name of a side, that side has one vote more (modulo
  -- 2 ^ 64), the other as many as before, and the reply holds the new tallies. If the status is 400,
  -- the text spells neither name, and both tallies are unchanged. In both cases the address's last
  -- second was not this one, and earlier where the build checks overflow, and the limiter now has
  -- this second for the address, and what it had for every other one. If the status is 429, the
  -- address was last let through in this very second, and nothing has changed. If it panicked,
  -- nothing has changed, the build checks overflow, and the address's last second lies in the future.
  pub vote_handler-Handled : let (s', reply) = vote_handler u p r s in Handled p r s s' reply
  vote_handler-Handled = limiter-Handled _ refl

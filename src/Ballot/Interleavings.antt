-- ===== src/Ballot/Interleavings.antt =====
-- ballot_box/src/main.rs: what holds of the votes in every interleaving of calls, and what does not
-- hold of the rate limiter.
use managed_linux_democracy.Prelude.{
  ℕ, zero, suc, ◌+◌, ◌%◌, ◌^◌, ◌<◌, ◌≡◌, refl, sym, ap, subst, arith, List, [], ◌∷◌, true, false,
  Profile, some, ok, err, returned,
}
use managed_linux_democracy.Prelude.Map.{get, get-insert_self}
use managed_linux_democracy.Prelude.Text.{Unicode}
use managed_linux_democracy.Ballot.State.{
  ip_eq, AppContext, PossibleVote, summer1, summer2, Request,
}
use managed_linux_democracy.Ballot.Vote.{check_vote}
use managed_linux_democracy.Ballot.Handler.{
  limited, too_early, record_request, cast_vote, tally_response, vote_handler,
}
use managed_linux_democracy.Ballot.Replies.{second, votes_for, vote_handler-limits}
use managed_linux_democracy.Ballot.Concurrent.{
  Pc, arrived, passed, recorded, counted, loaded, finished, Thread, advance, step, interleave,
}
use managed_linux_democracy.Ballot.Trace.{cast_of, cast_for}

module _ (u : Unicode) (p : Profile) where
  -- A call that runs alone for five steps does what `vote_handler` does.
  pub interleave-alone :
      (r : Request) (s : AppContext)
      → let (s', reply) = vote_handler u p r s in
        interleave u p (0 ∷ 0 ∷ 0 ∷ 0 ∷ 0 ∷ []) ((r, arrived) ∷ []) s
        ≡ ((r, finished reply) ∷ [], s')
  unfolding interleave vote_handler
  interleave-alone r s = ground arith

-- 1 if the call has added its vote to the tally of `v`.
abbrev pub has_cast : Unicode → PossibleVote → Thread → ℕ
has_cast u v (r, counted) = cast_of u v r
has_cast u v (r, loaded _) = cast_of u v r
has_cast u v (r, finished reply) = cast_for u v (r, reply)
has_cast u v (r, _) = 0

abbrev pub total_cast : Unicode → PossibleVote → List Thread → ℕ
total_cast u v [] = 0
total_cast u v (t ∷ ts) = has_cast u v t + total_cast u v ts

-- Between two states a tally has gained, modulo 2 ^ 64, what the calls' votes for that side have.
abbrev pub Gains : PossibleVote → ℕ → ℕ → AppContext → AppContext → Type 0
Gains v cast cast' s s' =
    (gain : ℕ) × (votes_for v s' ≡ (votes_for v s + gain) % 2 ^ 64) × (cast' ≡ cast + gain)

module _ (u : Unicode) (p : Profile) where
  pub advance-Gains :
      (v : PossibleVote) (r : Request) (pc : Pc) (s : AppContext)
      → votes_for v s < 2 ^ 64
      → let (pc', s') = advance u p r pc s in
        Gains v (has_cast u v (r, pc)) (has_cast u v (r, pc')) s s'
  unfolding advance
  advance-Gains v r arrived s fits = (0, ground arith, ground arith)
  advance-Gains summer1 r passed s fits = (0, omega arith, refl)
  advance-Gains summer2 r passed s fits = (0, omega arith, refl)
  advance-Gains summer1 r recorded s fits = (cast_of u summer1 r, ground arith, ground arith)
  advance-Gains summer2 r recorded s fits = (cast_of u summer2 r, ground arith, ground arith)
  advance-Gains v r counted s fits = (0, omega arith, omega arith)
  advance-Gains v r (loaded a) s fits = (0, omega arith, omega arith)
  advance-Gains v r (finished reply) s fits = (0, omega arith, omega arith)

  pub step-Gains :
      (v : PossibleVote) (k : ℕ) (ts : List Thread) (s : AppContext)
      → votes_for v s < 2 ^ 64
      → let (ts', s') = step u p k ts s in Gains v (total_cast u v ts) (total_cast u v ts') s s'
  unfolding step
  step-Gains v k [] s fits = (0, omega arith, omega arith)
  step-Gains v zero ((r, pc) ∷ ts) s fits =
      let (gain, votes, cast) = advance-Gains v r pc s fits in (gain, votes, omega (arith, cast))
  step-Gains v (suc k) (t ∷ ts) s fits =
      let (gain, votes, total) = step-Gains v k ts s fits in (gain, votes, omega (arith, total))

  -- In every interleaving of any calls, from a tally below 2 ^ 64, the tally is, modulo 2 ^ 64, what
  -- it was with the votes that the calls have cast since: no vote is lost.
  interleave-Gains :
      (v : PossibleVote) (ks : List ℕ) (ts : List Thread) (s : AppContext)
      → votes_for v s < 2 ^ 64
      → let (ts', s') = interleave u p ks ts s in
        Gains v (total_cast u v ts) (total_cast u v ts') s s'
  unfolding interleave
  interleave-Gains v [] ts s fits = (0, omega arith, omega arith)
  interleave-Gains v (k ∷ ks) ts s fits =
      let (gain, votes, total) = step-Gains v k ts s fits in
      let (gain', votes', total') =
        interleave-Gains v ks (step u p k ts s).0 (step u p k ts s).1 (omega (arith, votes)) in
      (gain + gain', omega (arith, votes, votes'), omega (arith, total, total'))

pub too_early_same : (p : Profile) (now : ℕ) → too_early p (some now) now ≡ some true
too_early_same p now = ground arith

-- Two calls from one address in one second, the first of which the limiter lets through.
module _ (u : Unicode) (p : Profile) (r q : Request) (s : AppContext) (v w : PossibleVote)
    (same_ip : q.ip ≡ r.ip) (same_second : second q ≡ second r)
    (free : too_early p (get r.ip s.rate_limiter) (second r) ≡ some false)
    (first_vote : check_vote u r.vote ≡ some v) (second_vote : check_vote u q.vote ≡ some w) where
  after_first : AppContext
  after_first = (vote_handler u p r s).0

  limited_after : get r.ip after_first.rate_limiter ≡ some (second r)
  unfolding after_first vote_handler
  limited_after =
      ground (arith, get-insert_self r.ip (second r) s.rate_limiter, rate_limiter-cast_vote)
    where
      rate_limiter-cast_vote : (x : AppContext) → (cast_vote v x).rate_limiter ≡ x.rate_limiter
      rate_limiter-cast_vote x = ground arith

  second_refused : (vote_handler u p q after_first).1 ≡ returned (err limited)
  second_refused =
      ap (λ t. t.1)
        (vote_handler-limits u p q after_first (
          subst (λ x. too_early p (get x after_first.rate_limiter) (second q) ≡ some true)
            (sym same_ip)
            (subst (λ o. too_early p o (second q) ≡ some true) (sym limited_after)
              (subst (λ n. too_early p (some (second r)) n ≡ some true) (sym same_second)
                (too_early_same p (second r))))))

  second_free : too_early p (get q.ip s.rate_limiter) (second q) ≡ some false
  second_free = rw (same_ip, same_second) free

  -- One after the other the second is refused with 429; but if both read the limiter before either
  -- writes to it, both votes are counted, and both replies hold the tallies with both votes.
  pub vote_handler_race :
      let s' =
        cast_vote w
          (cast_vote v (record_request q.ip (second q) (record_request r.ip (second r) s))) in
      let both = returned (ok (tally_response s'.summer1_votes s'.summer2_votes)) in
      ((vote_handler u p q (vote_handler u p r s).0).1 ≡ returned (err limited))
      × (interleave u p
            (0 ∷ 1 ∷ 0 ∷ 1 ∷ 0 ∷ 1 ∷ 0 ∷ 1 ∷ 0 ∷ 1 ∷ [])
            ((r, arrived) ∷ (q, arrived) ∷ [])
            s
          ≡ ((r, finished both) ∷ (q, finished both) ∷ [], s'))
  unfolding interleave after_first
  vote_handler_race = (second_refused, ground (arith, second_free))

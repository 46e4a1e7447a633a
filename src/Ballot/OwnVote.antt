-- ===== src/Ballot/OwnVote.antt =====
-- ballot_box/src/main.rs: the reply of one call of `vote_handler` among others that run at once.
pub mod Interleaved
use managed_linux_democracy.Prelude.{
  ℕ, zero, suc, ◌+◌, ◌-◌, ◌^◌, ◌≤◌, ◌<◌, ◌≡◌, ◌≢◌, refl, sym, ap, ◌∙◌, subst, ◌⊎◌, inl, inr, arith,
  eqb, if◌then◌else◌, true, false, Bool-cases, length, List, [], ◌∷◌, Option, none, some, Profile,
  ok, err, returned, panicked,
}
use managed_linux_democracy.Prelude.Map.{get}
use managed_linux_democracy.Prelude.Text.{Unicode}
use managed_linux_democracy.Ballot.State.{
  ip_eq, AppContext, PossibleVote, summer1, summer2, Request, Reply,
}
use managed_linux_democracy.Ballot.Vote.{check_vote}
use managed_linux_democracy.Ballot.Handler.{
  limited, invalid, too_early, record_request, cast_vote, tally_response,
}
use managed_linux_democracy.Ballot.Replies.{second, votes_for}
use managed_linux_democracy.Ballot.Concurrent.{
  Pc, arrived, passed, recorded, counted, loaded, finished, Thread, advance, step, interleave,
}
use managed_linux_democracy.Ballot.Trace.{cast_of}
use managed_linux_democracy.Ballot.Interleavings.{has_cast, total_cast}
use managed_linux_democracy.Ballot.Finishing.{
  remaining, remaining_at, turns_of, interleave-finishes,
}

-- What a reply says, for a call that came when the tallies were `x` and `y`.
abbrev pub Replied : Unicode → Request → ℕ → ℕ → AppContext → Reply → Type 0
Replied u r x y s (returned (ok resp)) =
    (a : ℕ) × (b : ℕ) × (resp ≡ tally_response a b)
    × (x + cast_of u summer1 r ≤ a)
    × (a ≤ s.summer1_votes)
    × (y + cast_of u summer2 r ≤ b)
    × (b ≤ s.summer2_votes)
    × (check_vote u r.vote ≢ none)
Replied u r x y s (returned (err e)) =
    (e ≡ limited) ⊎ ((e ≡ invalid) × (check_vote u r.vote ≡ none))
Replied u r x y s panicked = Unit

-- What is known of the tallies while the call goes on.
abbrev pub Knows : Unicode → Request → ℕ → ℕ → AppContext → Pc → Type 0
Knows u r x y s counted =
    (x + cast_of u summer1 r ≤ s.summer1_votes)
    × (y + cast_of u summer2 r ≤ s.summer2_votes)
    × (check_vote u r.vote ≢ none)
Knows u r x y s (loaded a) =
    (x + cast_of u summer1 r ≤ a)
    × (a ≤ s.summer1_votes)
    × (y + cast_of u summer2 r ≤ s.summer2_votes)
    × (check_vote u r.vote ≢ none)
Knows u r x y s (finished reply) = Replied u r x y s reply
Knows u r x y s _ = (x ≤ s.summer1_votes) × (y ≤ s.summer2_votes)

module _ (u : Unicode) (r : Request) (x y : ℕ) where
  Replied-grows :
      (s s' : AppContext) (reply : Reply)
      → s.summer1_votes ≤ s'.summer1_votes
      → s.summer2_votes ≤ s'.summer2_votes
      → Replied u r x y s reply
      → Replied u r x y s' reply
  Replied-grows s s' (returned (ok resp)) g1 g2
        (a, b, same, above1, below1, above2, below2, voted) =
      (a, b, same, above1, omega arith, above2, omega arith, voted)
  Replied-grows s s' (returned (err e)) g1 g2 known = known
  Replied-grows s s' panicked g1 g2 known = tt

  pub Knows-grows :
      (s s' : AppContext) (pc : Pc)
      → s.summer1_votes ≤ s'.summer1_votes
      → s.summer2_votes ≤ s'.summer2_votes
      → Knows u r x y s pc
      → Knows u r x y s' pc
  Knows-grows s s' arrived g1 g2 known = omega (arith, known)
  Knows-grows s s' passed g1 g2 known = omega (arith, known)
  Knows-grows s s' recorded g1 g2 known = omega (arith, known)
  Knows-grows s s' counted g1 g2 (own1, own2, voted) = (omega arith, omega arith, voted)
  Knows-grows s s' (loaded a) g1 g2 (above, below, own2, voted) =
      (above, omega arith, omega arith, voted)
  Knows-grows s s' (finished reply) g1 g2 known = Replied-grows s s' reply g1 g2 known

  -- The call's own step, where its vote does not wrap.
  pub Knows-advance :
      (p : Profile) (s : AppContext) (pc : Pc)
      → (pc ≡ recorded → (s.summer1_votes + 1 < 2 ^ 64) × (s.summer2_votes + 1 < 2 ^ 64))
      → Knows u r x y s pc
      → let (pc', s') = advance u p r pc s in Knows u r x y s' pc'
  unfolding advance
  Knows-advance p s arrived fits known = ground arith
  Knows-advance p s passed fits known = known
  Knows-advance p s recorded fits known = let (fits1, fits2) = fits refl in ground arith
  Knows-advance p s counted fits (own1, own2, voted) = (own1, omega arith, own2, voted)
  Knows-advance p s (loaded a) fits (above, below, own2, voted) =
      (a, s.summer2_votes, refl, above, below, own2, omega arith, voted)
  Knows-advance p s (finished reply) fits known = known

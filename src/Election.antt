-- ===== src/Election.antt =====
-- The two programs together: what the scheduler (democracy-scheduler/src/main.rs,
-- `get_current_winner`) makes of the tallies that the service (ballot_box/src/main.rs,
-- `votes_handler`) sends it.
pub mod Turns
pub mod Polls
pub mod Reign
pub mod Democracy
pub mod Mandate
pub mod Margin
pub mod Landslide
pub mod Overflow
pub mod Integrity
use managed_linux_democracy.Prelude.{
  ℕ, ◌^◌, ◌≡◌, ◌↔◌, arith, if◌then◌else◌, ltb, ◌&&◌, inl, inr, List, [], ◌∷◌, Option, none, some,
  Option-cases, Result, ok, err,
}
use managed_linux_democracy.Prelude.Text.{Text, codes, Unicode}
use managed_linux_democracy.Ballot.State.{PossibleVote, AppContext, VotesResponse}
use managed_linux_democracy.Ballot.Vote.{check_vote, check_vote_iff}
use managed_linux_democracy.Ballot.Handler.{votes_handler}
use managed_linux_democracy.Scheduler.Competitors.{
  Competitors, summer1, summer2, from_str, from_str_iff,
}
use managed_linux_democracy.Scheduler.Winner.{
  Vote, CurrentWinnerResponse, pick, received, WinnerError, bad_json, unknown_competitor,
  get_current_winner,
}

-- Read as a `u32` each, counts of 2 ^ 32 and more are refused, and with one the whole list is.
unfoldable pub narrow : List (Text × ℕ) → Option (List Vote)
narrow [] = some []
narrow ((name, n) ∷ votes) =
    if ltb n (2 ^ 32)
    then elim (narrow votes) [
      | none ↦ none
      | some vs ↦ some (record { choice = name; count = n } ∷ vs)
    ]
    else none

abbrev pub as_response : Option (List Vote) → Option CurrentWinnerResponse
as_response none = none
as_response (some votes) = some (record { votes = votes })

-- `serde_json` on both sides: what the service encodes decodes to the same names and counts, if
-- each count fits the type that it is read at.
pub record Json : Type 1 where
  pub Body : Type 0
  pub encode : VotesResponse → Body
  pub decode : Body → Option CurrentWinnerResponse
  pub decode-encode : (v : VotesResponse) → decode (encode v) ≡ as_response (narrow v.votes)

-- Which side two tallies elect.
abbrev pub elected : ℕ → ℕ → Result Competitors WinnerError
elected a b =
    if ltb a (2 ^ 32) && ltb b (2 ^ 32)
    then (if ltb a b then ok summer2 else if ltb 0 a then ok summer1 else err unknown_competitor)
    else err bad_json

-- The same side, in the two programs' words.
abbrev pub as_competitor : PossibleVote → Competitors
as_competitor PossibleVote.summer1 = summer1
as_competitor PossibleVote.summer2 = summer2

module _ (u : Unicode) where
  from_str-summer1 : from_str u (codes "summer1") ≡ some summer1
  from_str-summer1 = (from_str_iff u (codes "summer1") summer1).1 (omega arith)

  from_str-summer2 : from_str u (codes "summer2") ≡ some summer2
  from_str-summer2 = (from_str_iff u (codes "summer2") summer2).1 (omega arith)

  from_str-nobody : from_str u [] ≡ none
  from_str-nobody = elim (Option-cases (from_str u [])) [
    | inl nothing ↦ nothing
    | inr (summer1, e) ↦ absurd ((from_str_iff u [] summer1).0 e)
    | inr (summer2, e) ↦ absurd ((from_str_iff u [] summer2).0 e)
  ]

  -- The service takes a text for a vote exactly when the scheduler takes it for that competitor.
  pub check_vote-from_str :
      (s : Text) (v : PossibleVote)
      → (check_vote u s ≡ some v) ↔ (from_str u s ≡ some (as_competitor v))
  check_vote-from_str s PossibleVote.summer1 = (
    λ h. (from_str_iff u s summer1).1 ((check_vote_iff u s PossibleVote.summer1).0 h),
    λ h. (check_vote_iff u s PossibleVote.summer1).1 ((from_str_iff u s summer1).0 h),
  )
  check_vote-from_str s PossibleVote.summer2 = (
    λ h. (from_str_iff u s summer2).1 ((check_vote_iff u s PossibleVote.summer2).0 h),
    λ h. (check_vote_iff u s PossibleVote.summer2).1 ((from_str_iff u s summer2).0 h),
  )

  -- From the tallies of the service the scheduler elects the side with more votes, the first on a
  -- tie above 0; at 0 votes to 0 it finds no competitor, and once either tally has reached 2 ^ 32
  -- the answer cannot be read any more.
  pub get_current_winner-votes_handler :
      (j : Json) (s : AppContext)
      → get_current_winner u j.decode (received (j.encode (votes_handler s)))
        ≡ elected s.summer1_votes s.summer2_votes
  unfolding get_current_winner votes_handler narrow pick
  get_current_winner-votes_handler j s = ground (
    arith,
    j.decode-encode (votes_handler s),
    from_str-summer1,
    from_str-summer2,
    from_str-nobody,
  )

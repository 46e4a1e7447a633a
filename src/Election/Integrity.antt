-- ===== src/Election/Integrity.antt =====
-- What the rate limiter (ballot_box/src/main.rs) does for the election
-- (democracy-scheduler/src/main.rs, `get_current_winner`): how long a group of addresses needs to
-- overturn a lead.
use managed_linux_democracy.Prelude.{
  ℕ, ◌+◌, ◌*◌, ◌-◌, ◌%◌, ◌^◌, ◌≤◌, ◌<◌, ◌≡◌, ap, ◌∙◌, arith, All, List, length, Profile, ok,
}
use managed_linux_democracy.Ballot.State.{IpAddr, AppContext, PossibleVote, summer1, summer2}
use managed_linux_democracy.Ballot.Handler.{votes_handler}
use managed_linux_democracy.Ballot.Replies.{IsI64, IsValid, votes_for}
use managed_linux_democracy.Ballot.Trace.{serve, total_for, votes_for-serve}
use managed_linux_democracy.Ballot.Electorate.{IsAmong}
use managed_linux_democracy.Ballot.Server.{HttpRequest, Surroundings}
use managed_linux_democracy.Ballot.Server.History.{respond_all, ballots, respond_all-serve}
use managed_linux_democracy.Ballot.Server.Counts.{ballots-IsI64}
use managed_linux_democracy.Ballot.Server.Group.{handled_at, Onward, ballots-electorate}
use managed_linux_democracy.Scheduler.Competitors.{Competitors}
use managed_linux_democracy.Scheduler.Winner.{received, get_current_winner}
use managed_linux_democracy.Election.{Json, elected, get_current_winner-votes_handler}

-- A side leads by `n` votes: the second one by more than that, the first one, which wins a tie, by
-- that many, if it has a vote.
abbrev pub Leads : Competitors → ℕ → AppContext → Type 0
Leads Competitors.summer1 n s = (s.summer2_votes + n ≤ s.summer1_votes) × (0 < s.summer1_votes)
Leads Competitors.summer2 n s = s.summer1_votes + n < s.summer2_votes

elected-Leads :
    (w : Competitors) (n a b : ℕ) (s s' : AppContext)
    → Leads w n s
    → s.summer1_votes + n < 2 ^ 32
    → s.summer2_votes + n < 2 ^ 32
    → a + b ≤ n
    → s'.summer1_votes ≡ (s.summer1_votes + a) % 2 ^ 64
    → s'.summer2_votes ≡ (s.summer2_votes + b) % 2 ^ 64
    → elected s'.summer1_votes s'.summer2_votes ≡ ok w
elected-Leads Competitors.summer1 n a b s s' leads fits1 fits2 few gain1 gain2 =
    let more1 : s'.summer1_votes ≡ s.summer1_votes + a = omega (arith, gain1) in
    let more2 : s'.summer2_votes ≡ s.summer2_votes + b = omega (arith, gain2) in ground arith
elected-Leads Competitors.summer2 n a b s s' leads fits1 fits2 few gain1 gain2 =
    let more1 : s'.summer1_votes ≡ s.summer1_votes + a = omega (arith, gain1) in
    let more2 : s'.summer2_votes ≡ s.summer2_votes + b = omega (arith, gain2) in ground arith

module _ (o : Surroundings) (p : Profile) (j : Json) where
  gained :
      (v : PossibleVote) (rs : List (HttpRequest o.Body)) (s : AppContext)
      → All (λ r. IsI64 r.timestamp) rs
      → IsValid s
      → votes_for v (respond_all o p rs s).0
        ≡ (votes_for v s + total_for o.unicode v (serve o.unicode p (ballots o p rs) s).1) % 2 ^ 64
  gained v rs s range valid =
      ap (votes_for v) (respond_all-serve o p rs s)
      ∙ votes_for-serve o.unicode p v (ballots o p rs) s (ballots-IsI64 o p rs range) valid

  -- While the clock does not go back, HTTP requests that are answered one after another, none before
  -- the last one is done, and that come from the addresses of a group, from second `start` on and
  -- before second `end`, cannot overturn a lead of as many votes as there are addresses in the group
  -- times `end - start`, or one more for the second side, which loses a tie: from a state in range,
  -- with timestamps in the range of an `i64` and tallies that stay below 2 ^ 32 with as many votes
  -- more, the scheduler elects the leading side after them.
  pub get_current_winner-respond_all :
      (w : Competitors) (group : List IpAddr) (rs : List (HttpRequest o.Body)) (s : AppContext)
      (start end : ℕ)
      → IsValid s
      → All (λ r. IsI64 r.timestamp) rs
      → Onward start rs
      → All (λ r. handled_at r < end) rs
      → All (λ r. IsAmong group r.ip) rs
      → Leads w (length group * (end - start)) s
      → s.summer1_votes + length group * (end - start) < 2 ^ 32
      → s.summer2_votes + length group * (end - start) < 2 ^ 32
      → get_current_winner o.unicode j.decode
          (received (j.encode (votes_handler (respond_all o p rs s).0)))
        ≡ ok w
  get_current_winner-respond_all w group rs s start end valid range onward below among leads fits1
        fits2 =
      let log = (serve o.unicode p (ballots o p rs) s).1 in
      get_current_winner-votes_handler o.unicode j (respond_all o p rs s).0
      ∙ elected-Leads w (length group * (end - start)) (total_for o.unicode summer1 log)
          (total_for o.unicode summer2 log) s (respond_all o p rs s).0 leads fits1 fits2
          (ballots-electorate o p group rs s start end onward below among)
          (gained summer1 rs s range valid) (gained summer2 rs s range valid)

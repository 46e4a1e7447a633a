-- ===== src/Tests/Integrity.antt =====
-- A lead that two addresses cannot overturn in two seconds.
use managed_linux_democracy.Prelude.{
  ◌≡◌, refl, arith, inl, inr, pos, dev, List, [], ◌∷◌, Option, ok,
}
use managed_linux_democracy.Prelude.Map.{get}
use managed_linux_democracy.Prelude.Text.{Text, codes}
use managed_linux_democracy.Ballot.State.{v4, ip_eq, AppContext}
use managed_linux_democracy.Ballot.Handler.{votes_handler}
use managed_linux_democracy.Ballot.Replies.{IsValid}
use managed_linux_democracy.Ballot.Server.{HttpRequest}
use managed_linux_democracy.Ballot.Server.History.{respond_all}
use managed_linux_democracy.Scheduler.Competitors.{summer1}
use managed_linux_democracy.Scheduler.Winner.{received, get_current_winner}
use managed_linux_democracy.Election.Integrity.{get_current_winner-respond_all}
use managed_linux_democracy.Tests.Kernel.{ascii_only}
use managed_linux_democracy.Tests.Links.{plain}
use managed_linux_democracy.Tests.Web.{small, get_votes, post_vote}

-- Four votes ahead.
abbrev leading : AppContext
leading = record { summer1_votes = 9; summer2_votes = 5; rate_limiter = [] }

leading-IsValid : IsValid leading
unfolding get
leading-IsValid = record {
  summer1_fits = omega arith;
  summer2_fits = omega arith;
  seconds_fit = λ ip t h. absurd (ground arith);
}

abbrev rush : List (HttpRequest (Option Text))
rush =
    post_vote (codes "summer2")
    ∷ get_votes
    ∷ record (post_vote (codes "summer2")) { ip = v4 2 }
    ∷ record (post_vote (codes "summer2")) { timestamp = pos 8 }
    ∷ record (post_vote (codes "summer2")) { ip = v4 2; timestamp = pos 8 }
    ∷ record (post_vote (codes "summer2")) { timestamp = pos 8 }
    ∷ []

get_current_winner-respond_all_example :
    get_current_winner ascii_only plain.decode
      (received (plain.encode (votes_handler (respond_all small dev rush leading).0)))
    ≡ ok summer1
get_current_winner-respond_all_example =
    get_current_winner-respond_all small dev plain summer1 (v4 1 ∷ v4 2 ∷ []) rush leading 7 9
      leading-IsValid (omega arith) (omega arith) (omega arith)
      (inl refl, (inl refl, (inr (inl refl), (inl refl, (inr (inl refl), (inl refl, tt))))))
      (omega arith) (omega arith) (omega arith)

-- ===== src/Tests/Web.antt =====
-- The server at concrete requests.
use managed_linux_democracy.Prelude.{
  if◌then◌else◌, ℕ, ◌≡◌, refl, arith, ◌⊎◌, pos, dev, List, [], ◌∷◌, ◌++◌, Option, none, some,
  returned,
}
use managed_linux_democracy.Prelude.Map.{get, insert}
use managed_linux_democracy.Prelude.Text.{Text, codes, text_eq, text_eqb, to_lowercase}
use managed_linux_democracy.Ballot.State.{
  v4, AppContext, new, too_many_requests, bad_request, summer1, summer2, VotesResponse,
}
use managed_linux_democracy.Ballot.Handler.{record_request, invalid, vote_handler, count_vote}
use managed_linux_democracy.Ballot.Vote.{check_vote}
use managed_linux_democracy.Ballot.Address.{
  SocketAddrV4, digits, to_string, socket_to_string, port_text, from_str, read_ipv4_addr,
  read_octet, read_char, read_bounded,
}
use managed_linux_democracy.Ballot.System.{
  IpNetwork, NetworkInterface, IsFirstOutside, all_ips, system_handler, get_local_ipv4_address,
}
use managed_linux_democracy.Ballot.Server.Listening.{from_str-system_handler}
use managed_linux_democracy.Ballot.Routes.{Method, get_method, post_method}
use managed_linux_democracy.Ballot.Server.{
  HttpRequest, Surroundings, error_json, ErrorResponse, into_response, respond, file, votes_json,
}
use managed_linux_democracy.Ballot.Static.Extension.{served_as}
use managed_linux_democracy.Ballot.Server.Files.{respond-path_of}
use managed_linux_democracy.Ballot.Server.Answers.{respond-error_json}
use managed_linux_democracy.Ballot.Server.History.{respond_all, ballots, respond_all-serve}
use managed_linux_democracy.Ballot.Trace.{serve}
use managed_linux_democracy.Scheduler.Winner.{received, get_current_winner}
use managed_linux_democracy.Election.{elected}
use managed_linux_democracy.Ballot.Server.Counts.{counted}
use managed_linux_democracy.Election.Polls.{respond_all-elects}
use managed_linux_democracy.Tests.Router.{router}
use managed_linux_democracy.Tests.Links.{plain}
use managed_linux_democracy.Tests.Kernel.{ascii_only}

-- A body is the text of a vote, if there is one; one file is embedded.
abbrev pub small : Surroundings
small = record {
  unicode = ascii_only;
  axum = router;
  Body = Option Text;
  vote_request = λ b. b;
  interfaces = [];
  Content = Text;
  embedded = λ path. if text_eqb path (codes "css/main.css") then some (codes "body {}") else none;
  first_or_text_plain = λ ext. codes "text/plain";
  missing = codes "<h1>404</h1><p>Not Found</p>";
}

abbrev pub get_votes : HttpRequest (Option Text)
get_votes = record {
  method = get_method;
  path = codes "/api/votes";
  ip = v4 1;
  timestamp = pos 7;
  body = none;
}

abbrev pub post_vote : Text → HttpRequest (Option Text)
post_vote text = record {
  method = post_method;
  path = codes "/api/votes";
  ip = v4 1;
  timestamp = pos 7;
  body = some text;
}

abbrev pub get_css : HttpRequest (Option Text)
get_css = record get_votes { path = codes "/css/main.css" }

respond-path_of_example : respond small dev get_css new ≡ (
  new,
  returned (
      file (
        served_as
          (small.embedded (codes "css/main.css"))
          (small.first_or_text_plain (codes "css"))
          small.missing)),
)
unfolding get text_eqb
respond-path_of_example =
    respond-path_of small dev get_css new refl (codes "css/main.css") (some (codes "css")) b'm' b'c'
      (codes "ain") (codes "ss") refl (λ e. cc) refl refl (omega arith) (omega arith) (omega arith)

-- The limiter has the request, and nothing is counted.
abbrev entered : AppContext
entered = record_request (v4 1) 7 new

abbrev not_valid : ErrorResponse
not_valid = record { status = bad_request; error = invalid.message }

posts-nonsense :
    respond small dev (post_vote (codes "maybe")) new ≡ (entered, returned (error_json not_valid))
unfolding respond get text_eqb into_response vote_handler count_vote check_vote to_lowercase insert
posts-nonsense = refl

respond-error_json_example :
    (◌≡◌ {A = Method} post_method post_method)
    × (codes "/api/votes" ≡ codes "/api/votes")
    × ((not_valid.status ≡ too_many_requests) ⊎ (not_valid.status ≡ bad_request))
    × (entered.summer1_votes ≡ new.summer1_votes)
    × (entered.summer2_votes ≡ new.summer2_votes)
respond-error_json_example =
    respond-error_json small dev (post_vote (codes "maybe")) new entered not_valid posts-nonsense

abbrev lan : SocketAddrV4
lan = record { ip = 0x0A640778; port = 8080 }

prints-lan : socket_to_string lan ≡ codes "10.100.7.120:8080"
unfolding socket_to_string to_string digits
prints-lan = refl

refuses-zero : from_str (codes "10.100.07.120:8080") ≡ none
unfolding from_str read_ipv4_addr read_octet read_char read_bounded
refuses-zero = refl

abbrev machine : List NetworkInterface
machine =
    record { ips = IpNetwork.v4 0x7F000001 8 ∷ [] }
    ∷ record { ips = IpNetwork.v6 1 64 ∷ IpNetwork.v4 0x0A640778 24 ∷ [] }
    ∷ []

shows-lan : system_handler machine ≡ returned (record { address = to_string 0x0A640778 })
unfolding system_handler get_local_ipv4_address
shows-lan = refl

from_str-system_handler_example :
    (ip : ℕ) × IsFirstOutside ip (all_ips machine)
    × (from_str (to_string 0x0A640778 ++ b':' ∷ port_text 8080)
        ≡ some (record { ip = ip; port = 8080 }))
from_str-system_handler_example =
    from_str-system_handler machine (to_string 0x0A640778) 8080 (omega arith) (omega arith)
      shows-lan

-- A page, a vote for the first side, nonsense, and a vote for the second side in the next second.
abbrev pub visits : List (HttpRequest (Option Text))
visits =
    get_votes
    ∷ post_vote (codes "summer1")
    ∷ post_vote (codes "maybe")
    ∷ record (post_vote (codes "Summer2")) { timestamp = pos 8 }
    ∷ record (post_vote (codes "Summer2")) { ip = v4 2 }
    ∷ []

respond_all-serve_example :
    (respond_all small dev visits new).0 ≡ (serve ascii_only dev (ballots small dev visits) new).0
respond_all-serve_example = respond_all-serve small dev visits new

two-to-one : (counted small dev summer1 visits ≡ 1) × (counted small dev summer2 visits ≡ 2)
unfolding serve ballots vote_handler count_vote check_vote to_lowercase insert get text_eqb
two-to-one = (refl, refl)

respond_all-elects_example :
    (v : VotesResponse) × (respond small dev get_votes (respond_all small dev visits new).0
      ≡ ((respond_all small dev visits new).0, returned (votes_json v)))
    × (get_current_winner ascii_only plain.decode (received (plain.encode v))
        ≡ elected (counted small dev summer1 visits) (counted small dev summer2 visits))
respond_all-elects_example =
    respond_all-elects small dev plain visits get_votes (omega arith) (omega arith) refl refl

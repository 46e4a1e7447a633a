-- ===== src/Tests/Service.antt =====
-- The voting service on concrete requests.
use mathlib.Core.List.Perm
use managed_linux_democracy.Prelude.{
  ◌≤◌, ◌-◌, ℕ, ◌+◌, ◌*◌, inl, inr, ◌%◌, ◌^◌, ◌≡◌, refl, ◌↔◌, arith, pos, dev, release, List, [],
  ◌∷◌, some, ok, err, returned, panicked,
}
use managed_linux_democracy.Prelude.Map.{get, insert}
use managed_linux_democracy.Prelude.Text.{Text, codes, to_lowercase, text_eqb, Spells}
use managed_linux_democracy.Ballot.State.{v4, ip_eq, AppContext, new, summer1, summer2, Request}
use managed_linux_democracy.Ballot.Vote.{check_vote, check_vote_iff}
use managed_linux_democracy.Ballot.Handler.{limited, invalid, tally_response, vote_handler}
use managed_linux_democracy.Ballot.Replies.{votes_for, Handled, vote_handler-Handled}
use managed_linux_democracy.Ballot.Trace.{new-IsValid, serve, total_for, votes_for-serve}
use managed_linux_democracy.Ballot.Electorate.{serve-electorate}
use managed_linux_democracy.Ballot.Quota.{Increasing, seconds_of, serve-Increasing}
use managed_linux_democracy.Ballot.Tally.{tally, serve-perm}
use managed_linux_democracy.Ballot.System
use managed_linux_democracy.Ballot.System.{
  NetworkInterface, Search, all_ips, get_local_ipv4_address, get_local_ipv4_address-Search,
}
use managed_linux_democracy.Tests.Kernel.{ascii_only}

abbrev pub ask : ℕ → ℕ → Text → Request
ask ip t vote = record { ip = v4 ip; timestamp = pos t; vote = vote }

-- Two votes of one address in one second, a bad one of another, and then a good one.
abbrev requests : List Request
requests =
    ask 1 100 (codes "Summer1")
    ∷ ask 1 100 (codes "summer2")
    ∷ ask 2 100 (codes "summer3")
    ∷ ask 1 101 (codes "SUMMER2")
    ∷ []

abbrev reached : AppContext
reached = record {
  summer1_votes = 1;
  summer2_votes = 1;
  rate_limiter = (v4 1, 101) ∷ (v4 2, 100) ∷ [];
}

serve-requests : serve ascii_only dev requests new ≡ (
  reached,
  (ask 1 100 (codes "Summer1"), returned (ok (tally_response 1 0)))
      ∷ (ask 1 100 (codes "summer2"), returned (err limited))
      ∷ (ask 2 100 (codes "summer3"), returned (err invalid))
      ∷ (ask 1 101 (codes "SUMMER2"), returned (ok (tally_response 1 1)))
      ∷ [],
)
unfolding serve vote_handler check_vote to_lowercase text_eqb get insert
serve-requests = refl

-- A clock that has gone back stops a build with overflow checks; another counts the vote.
backwards_dev :
    vote_handler ascii_only dev (ask 1 99 (codes "summer1")) reached ≡ (reached, panicked)
unfolding vote_handler get
backwards_dev = refl

backwards_release :
    (vote_handler ascii_only release (ask 1 99 (codes "summer1")) reached).1
    ≡ returned (ok (tally_response 2 1))
unfolding vote_handler check_vote to_lowercase text_eqb get
backwards_release = refl

vote_handler-Handled_example :
    let (s', reply) = vote_handler ascii_only dev (ask 1 7 (codes "summer1")) new in
    Handled dev (ask 1 7 (codes "summer1")) new s' reply
vote_handler-Handled_example =
    vote_handler-Handled ascii_only dev (ask 1 7 (codes "summer1")) new new-IsValid

serve-Increasing_example : Increasing (seconds_of (v4 1) (serve ascii_only dev requests new).1)
serve-Increasing_example = serve-Increasing ascii_only dev (v4 1) requests new 100 (omega arith)

votes_for-serve_example :
    let (end, log) = serve ascii_only dev requests new in
    end.summer2_votes ≡ (0 + total_for ascii_only summer2 log) % 2 ^ 64
votes_for-serve_example =
    votes_for-serve ascii_only dev summer2 requests new (omega arith) new-IsValid

check_vote_iff_example :
    (check_vote ascii_only (codes "SuMMer2") ≡ some summer2)
    ↔ Spells (codes "SuMMer2") (codes "summer2")
check_vote_iff_example = check_vote_iff ascii_only (codes "SuMMer2") summer2

-- A loopback and an IPv6 address before the one that is found.
abbrev interfaces : List NetworkInterface
interfaces =
    record { ips = System.v4 0x7f00_0001 8 ∷ System.v6 1 128 ∷ [] }
    ∷ record { ips = System.v4 0x0a64_0778 24 ∷ [] }
    ∷ []

get_local_ipv4_address-interfaces : get_local_ipv4_address interfaces ≡ some 0x0a64_0778
unfolding get_local_ipv4_address
get_local_ipv4_address-interfaces = refl

serve-electorate_example :
    let log = (serve ascii_only dev requests new).1 in
    total_for ascii_only summer1 log + total_for ascii_only summer2 log ≤ 2 * (102 - 100)
serve-electorate_example =
    serve-electorate ascii_only dev (v4 1 ∷ v4 2 ∷ []) requests new 100 102 (omega arith)
      (omega arith) (inl refl, (inl refl, (inr (inl refl), (inl refl, tt))))

serve-perm_example :
    (tally (serve ascii_only dev (ask 1 7 (codes "summer1") ∷ ask 2 7 (codes "summer2") ∷ []) new).0
      ≡ tally
          (serve ascii_only dev (ask 2 7 (codes "summer2") ∷ ask 1 7 (codes "summer1") ∷ []) new).0)
    × (votes_for summer1
          (serve ascii_only dev (ask 1 7 (codes "summer1") ∷ ask 2 7 (codes "summer2") ∷ []) new).0
        ≡ votes_for summer1
            (serve ascii_only dev
              (ask 2 7 (codes "summer2") ∷ ask 1 7 (codes "summer1") ∷ [])
              new).0)
serve-perm_example =
    serve-perm ascii_only dev (ask 1 7 (codes "summer1") ∷ ask 2 7 (codes "summer2") ∷ [])
      (ask 2 7 (codes "summer2") ∷ ask 1 7 (codes "summer1") ∷ []) new summer1
      ((λ h. ground arith, tt), (tt, tt))
      (Perm.swap (ask 2 7 (codes "summer2")) (ask 1 7 (codes "summer1")) [])

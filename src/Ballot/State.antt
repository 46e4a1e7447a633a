-- ===== src/Ballot/State.antt =====
-- ballot_box/src/main.rs: `AppContext`, the state that all requests share, and the data of requests
-- and replies.
use Prim.Native.String.{String}
use managed_linux_democracy.Prelude.{
  ℕ, ◌≡◌, ◌↔◌, List, [], arith, Bool, true, false, eqb, PartialEq, ℤ, Result, Outcome,
}
use managed_linux_democracy.Prelude.Map.{Map}
use managed_linux_democracy.Prelude.Text.{Text}

-- `std::net::IpAddr`, an address as a number of 32 or of 128 bits.
pub data IpAddr : Type 0 where
  v4 : ℕ → IpAddr
  v6 : ℕ → IpAddr

abbrev same_address : IpAddr → IpAddr → Bool
same_address (v4 a) (v4 b) = eqb a b
same_address (v4 a) (v6 b) = false
same_address (v6 a) (v4 b) = false
same_address (v6 a) (v6 b) = eqb a b

pub same_address_iff : (a b : IpAddr) → (same_address a b ≡ true) ↔ (a ≡ b)
same_address_iff a b = ground arith

instance abbrev pub ip_eq : PartialEq IpAddr
ip_eq = record { same = same_address; same_iff = same_address_iff }

-- The tallies are below 2 ^ 64; `rate_limiter` has the second of each address's last request that
-- was let through.
pub record AppContext : Type 0 where
  pub summer1_votes : ℕ
  pub summer2_votes : ℕ
  pub rate_limiter : Map IpAddr ℕ

-- `AppContext::new`
abbrev pub new : AppContext
new = record { summer1_votes = 0; summer2_votes = 0; rate_limiter = [] }

pub data PossibleVote : Type 0 where
  summer1 summer2 : PossibleVote

-- The status codes that the handlers set.
pub data StatusCode : Type 0 where
  too_many_requests bad_request not_found ok_status : StatusCode

pub record AppError : Type 0 where
  pub status : StatusCode
  pub message : String

-- What a call of `vote_handler` is given: the peer's address, the clock's reading in seconds since
-- the epoch (an `i64`), and the `vote` of the JSON body.
pub record Request : Type 0 where
  pub ip : IpAddr
  pub timestamp : ℤ
  pub vote : Text

-- `VoteResponse`, of which `current_tally` is the one field.
pub record VoteResponse : Type 0 where
  pub current_tally : List (Text × ℕ)

-- `VotesResponse`, of which `votes` is the one field.
pub record VotesResponse : Type 0 where
  pub votes : List (Text × ℕ)

abbrev pub Reply : Type 0
Reply = Outcome (Result VoteResponse AppError)

-- ===== src/Ballot/Server.antt =====
-- ballot_box/src/main.rs: `main` up to the server's start, `AppError::into_response`, and the answer
-- of the server to one request.
pub mod Answers
pub mod Counts
pub mod Files
pub mod Group
pub mod History
pub mod Listening
pub mod Main
pub mod Serving
pub mod Tasks
use Prim.Native.String.{String}
use managed_linux_democracy.Prelude.{
  ℕ, ℤ, List, [], ◌∷◌, Option, none, some, Profile, Result, ok, err, Outcome, returned, panicked,
}
use managed_linux_democracy.Prelude.Text.{Text, Unicode, codes}
use managed_linux_democracy.Ballot.State.{
  IpAddr, AppContext, StatusCode, AppError, Request, VoteResponse, VotesResponse, Reply,
}
use managed_linux_democracy.Ballot.Handler.{vote_handler, votes_handler}
use managed_linux_democracy.Ballot.Address.{SocketAddrV4, from_str}
use managed_linux_democracy.Ballot.System.{NetworkInterface, SystemResponse, system_handler}
use managed_linux_democracy.Ballot.Static.{Served, static_handler}
use managed_linux_democracy.Ballot.Routes.{
  Method, Handler, system, votes, vote, index, static_file, app, Routed, to_handler, refused, Axum,
}

-- 0.0.0.0:8080
abbrev pub default_address : SocketAddrV4
default_address = record { ip = 0; port = 8080 }

-- The address to listen on, from the command line; the `unwrap` panics on what is no address.
unfoldable pub bind_address : List Text → Outcome SocketAddrV4
bind_address [] = returned default_address
bind_address (_ ∷ []) = returned default_address
bind_address (_ ∷ text ∷ _) = elim (from_str text) [ none ↦ panicked | some a ↦ returned a ]

-- The JSON object {"error": message} with the error's status.
pub record ErrorResponse : Type 0 where
  pub status : StatusCode
  pub error : String

unfoldable pub into_response : AppError → ErrorResponse
into_response e = record { status = e.status; error = e.message }

-- A request with the peer's address and the clock's reading when it is handled.
pub record HttpRequest (Body : Type 0) : Type 0 where
  pub method : Method
  pub path : Text
  pub ip : IpAddr
  pub timestamp : ℤ
  pub body : Body

-- What the server sends back, of which HEAD gets the headers only. `rejected` is an answer of axum's own: no route, another method, a
-- body that is no `VoteRequest`, or a path that cannot be decoded.
pub data Response (Content : Type 0) : Type 0 where
  system_json : SystemResponse → Response Content
  votes_json : VotesResponse → Response Content
  tally_json : VoteResponse → Response Content
  error_json : ErrorResponse → Response Content
  file : Served Content → Response Content
  rejected : Response Content

-- What stands outside: axum, the JSON of a `VoteRequest`, the interfaces, and the static files.
pub record Surroundings : Type 1 where
  pub unicode : Unicode
  pub axum : Axum
  pub Body : Type 0
  pub vote_request : Body → Option Text
  pub interfaces : List NetworkInterface
  pub Content : Type 0
  pub embedded : Text → Option Content
  pub first_or_text_plain : Text → Text
  pub missing : Content

module _ (o : Surroundings) (p : Profile) where
  abbrev pub Answer : Type 0
  Answer = AppContext × Outcome (Response o.Content)

  abbrev pub static_reply : Text → Response o.Content
  static_reply path = file (static_handler o.embedded o.first_or_text_plain o.missing path)

  abbrev pub vote_reply : AppContext × Reply → Answer
  vote_reply (s, panicked) = (s, panicked)
  vote_reply (s, returned (ok tally)) = (s, returned (tally_json tally))
  vote_reply (s, returned (err e)) = (s, returned (error_json (into_response e)))

  abbrev system_reply : Outcome SystemResponse → Outcome (Response o.Content)
  system_reply panicked = panicked
  system_reply (returned response) = returned (system_json response)

  -- A handler with what its extractors take from the request.
  unfoldable pub handle : Handler → Text → HttpRequest o.Body → AppContext → Answer
  handle system rest r s = (s, system_reply (system_handler o.interfaces))
  handle votes rest r s = (s, returned (votes_json (votes_handler s)))
  handle vote rest r s = elim (o.vote_request r.body) [
    | none ↦ (s, returned rejected)
    | some text ↦
        vote_reply
          (vote_handler o.unicode p (record { ip = r.ip; timestamp = r.timestamp; vote = text }) s)
  ]
  handle index rest r s = (s, returned (static_reply []))
  handle static_file rest r s = elim (o.axum.decoded rest) [
    | none ↦ (s, returned rejected)
    | some path ↦ (s, returned (static_reply path))
  ]

  unfoldable pub respond : HttpRequest o.Body → AppContext → Answer
  unfolding handle
  respond r s = elim (o.axum.route app r.method r.path) [
    | refused ↦ (s, returned rejected)
    | to_handler h rest ↦ handle h rest r s
  ]

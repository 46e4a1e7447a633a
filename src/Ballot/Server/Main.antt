-- ===== src/Ballot/Server/Main.antt =====
-- ballot_box/src/main.rs: the whole of `main`, from the command line to the answers.
use Prim.Native.String.{String}
use managed_linux_democracy.Prelude.{
  List, if◌then◌else◌, Profile, Option, none, some, Result, ok, err, Outcome, returned, panicked,
}
use managed_linux_democracy.Prelude.Text.{Text}
use managed_linux_democracy.Logging.{Tracing}
use managed_linux_democracy.Ballot.Logger.{init_logger}
use managed_linux_democracy.Ballot.State.{AppContext, new}
use managed_linux_democracy.Ballot.Address.{SocketAddrV4}
use managed_linux_democracy.Ballot.Server.{HttpRequest, Response, Surroundings, bind_address}
use managed_linux_democracy.Ballot.Server.History.{respond_all}

-- tokio's listeners: `TcpListener::bind`, and `local_addr` of what it gives; `none` is an error.
pub record Net : Type 1 where
  pub Listener : Type 0
  pub bind : SocketAddrV4 → Option Listener
  pub local_addr : Listener → Option SocketAddrV4

module _ (o : Surroundings) (p : Profile) (net : Net) (t : Tracing) where
  -- The event that the server has started; its address is read only if the event is recorded.
  unfoldable pub announce : t.Global → net.Listener → Outcome (Unit {0})
  announce g listener =
      if t.enabled g
      then elim (net.local_addr listener) [ none ↦ panicked | some _ ↦ returned tt ]
      else returned tt

  -- From the command line to the listener.
  unfoldable pub listen : List Text → t.Global → Outcome net.Listener
  listen args g = elim (bind_address args) [
    | panicked ↦ panicked
    | returned a ↦ elim (net.bind a) [
      | none ↦ panicked
      | some listener ↦ elim (announce g listener) [
        | panicked ↦ panicked
        | returned _ ↦ returned listener
      ]
    ]
  ]

  abbrev pub Served : Type 0
  Served = AppContext × List (Outcome (Response o.Content))

  -- From the `unwrap` of `init_logger` on.
  abbrev pub serve_logged :
      List Text
      → List (HttpRequest o.Body)
      → t.Global × Outcome (Result (Unit {0}) String)
      → Outcome (net.Listener × Served)
  serve_logged args history (g, panicked) = panicked
  serve_logged args history (g, returned (err e)) = panicked
  serve_logged args history (g, returned (ok _)) = elim (listen args g) [
    | panicked ↦ panicked
    | returned listener ↦ returned (listener, respond_all o p history new)
  ]

  -- `main`: its listener, and the state and the answers after a history of requests. The server
  -- never ends: `axum::serve` does not return.
  unfoldable pub main :
      List Text → t.Global → List (HttpRequest o.Body) → Outcome (net.Listener × Served)
  main args g history = serve_logged args history (init_logger t g)

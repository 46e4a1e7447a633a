-- ===== src/Ballot/Server/Serving.antt =====
-- ballot_box/src/main.rs: what `main` comes to, on every branch.
use managed_linux_democracy.Prelude.{
  ◌^◌, ◌<◌, ◌≡◌, ◌≢◌, ◌⊎◌, refl, ap, ◌∙◌, inl, inr, All, List, [], ◌∷◌, true, length, false,
  Bool-cases, Profile, Option-cases, none, some, ok, Outcome, returned, panicked,
}
use managed_linux_democracy.Prelude.Text.{Text}
use managed_linux_democracy.Logging.{Tracing, set_up-installed, set_up-again}
use managed_linux_democracy.Ballot.Logger.{directives, directives-IsOff, init_logger}
use managed_linux_democracy.Ballot.State.{AppContext, new, summer1, summer2}
use managed_linux_democracy.Ballot.Replies.{IsI64}
use managed_linux_democracy.Ballot.Address.{SocketAddrV4, socket_to_string, from_str}
use managed_linux_democracy.Ballot.Address.RoundTrip.{from_str-socket_to_string}
use managed_linux_democracy.Ballot.Server.Main.{Net, announce, listen, serve_logged, main}
use managed_linux_democracy.Ballot.Server.{HttpRequest, Response, Surroundings, bind_address}
use managed_linux_democracy.Ballot.Server.History.{respond_all}
use managed_linux_democracy.Ballot.Server.Counts.{counted, votes_for-counted}

-- The address that the command line asks for: port 8080 of every interface if it has no argument, and
-- otherwise the one that the first argument is read as.
abbrev pub Asked : List Text → SocketAddrV4 → Type 0
Asked [] a = a ≡ record { ip = 0; port = 8080 }
Asked (_ ∷ []) a = a ≡ record { ip = 0; port = 8080 }
Asked (_ ∷ text ∷ _) a = from_str text ≡ some a

bind_address-cases :
    (args : List Text)
    → ((bind_address args ≡ panicked) × ((a : SocketAddrV4) → ¬ Asked args a))
      ⊎ ((a : SocketAddrV4) × (bind_address args ≡ returned a) × Asked args a)
unfolding bind_address
bind_address-cases [] = inr (_, refl, refl)
bind_address-cases (name ∷ []) = inr (_, refl, refl)
bind_address-cases (name ∷ text ∷ more) = elim (Option-cases (from_str text)) [
  | inl unread ↦ inl (rw (unread, bind_address), λ a asked. cc)
  | inr (a, read) ↦ inr (a, rw (read, bind_address), read)
]

module _ (o : Surroundings) (p : Profile) (net : Net) (t : Tracing) where
  -- `init_logger` has installed its subscriber, and `g'` is the process's state then.
  abbrev IsLogged : t.Global → t.Global → Type 0
  IsLogged g g' =
      (init_logger t g ≡ (g', returned (ok tt)))
      × ((filter : t.EnvFilter) × (t.installed g'
            ≡ some (record {
              env_filter = t.add_directive filter t.debug;
              with_target = false;
              compact = true;
            })))

  -- Why `main` may panic: there is a subscriber already, the command line asks for no address, the
  -- address cannot be bound, or the message of the start is recorded and the listener's address, which
  -- it shows, cannot be read.
  abbrev pub Fails : List Text → t.Global → Type 0
  Fails args g =
      (t.installed g ≢ none)
      ⊎ (((a : SocketAddrV4) → ¬ Asked args a)
          ⊎ ((a : SocketAddrV4) × Asked args a
              × ((net.bind a ≡ none)
                  ⊎ ((x : net.Listener) × (g' : t.Global) × (net.bind a ≡ some x)
                      × IsLogged g g'
                      × (t.enabled g' ≡ true)
                      × (net.local_addr x ≡ none)))))

  abbrev pub Listens : List Text → t.Global → net.Listener → Type 0
  Listens args g x =
      (a : SocketAddrV4) × (g' : t.Global) × Asked args a
      × (net.bind a ≡ some x)
      × (t.installed g ≡ none)
      × IsLogged g g'
      × ((t.enabled g' ≡ false) ⊎ (net.local_addr x ≢ none))

  announce-cases :
      (g : t.Global) (x : net.Listener)
      → ((announce o p net t g x ≡ panicked) × (t.enabled g ≡ true) × (net.local_addr x ≡ none))
        ⊎ ((announce o p net t g x ≡ returned tt)
            × ((t.enabled g ≡ false) ⊎ (net.local_addr x ≢ none)))
  unfolding announce
  announce-cases g x = elim (Bool-cases (t.enabled g)) [
    | inr quiet ↦ inr (rw quiet, inl quiet)
    | inl recorded ↦ elim (Option-cases (net.local_addr x)) [
      | inl nothing ↦ inl (rw (recorded, nothing), recorded, nothing)
      | inr (a, known) ↦ inr (rw (recorded, known), inr (λ e. cc))
    ]
  ]

  logged : (g : t.Global) → t.installed g ≡ none → (g' : t.Global) × IsLogged g g'
  unfolding init_logger
  logged g fresh =
      let (filter, g', parsed, done, set) =
        set_up-installed t directives false g directives-IsOff fresh in
      (g', (done, (filter, set)))

  listen-cases :
      (args : List Text) (g g' : t.Global)
      → t.installed g ≡ none
      → IsLogged g g'
      → ((listen o p net t args g' ≡ panicked) × Fails args g)
        ⊎ ((x : net.Listener) × (listen o p net t args g' ≡ returned x) × Listens args g x)
  unfolding listen
  listen-cases args g g' fresh log = elim (bind_address-cases args) [
    | inl (fails, nowhere) ↦ inl (rw (fails, listen), inr (inl nowhere))
    | inr (a, read, asked) ↦ elim (Option-cases (net.bind a)) [
      | inl taken ↦ inl (rw (read, taken, listen), inr (inr (a, asked, inl taken)))
      | inr (x, bound) ↦ elim (announce-cases g' x) [
        | inl (fails, recorded, nothing) ↦ inl (
          rw (read, bound, fails, listen),
          inr (inr (a, asked, inr (x, g', bound, log, recorded, nothing))),
        )
        | inr (said, readable) ↦
            inr (x, rw (read, bound, said, listen), (a, g', asked, bound, fresh, log, readable))
      ]
    ]
  ]

  -- Whatever the command line and the process: `main` panics, and then there is a subscriber for its
  -- logs already, the command line asks for no address, no listener can be bound to it, or the message
  -- of the start is recorded but the listener's address cannot be read; or it serves from the start
  -- state, at a listener bound to the address that the command line asks for, and none of this is so.
  -- Without an argument the address is port 8080 of every interface.
  pub main-Listens :
      (args : List Text) (g : t.Global) (history : List (HttpRequest o.Body))
      → ((main o p net t args g history ≡ panicked) × Fails args g)
        ⊎ ((x : net.Listener) × (main o p net t args g history
              ≡ returned (x, respond_all o p history new))
            × Listens args g x)
  unfolding main init_logger
  main-Listens args g history = elim (Option-cases (t.installed g)) [
    | inr (settings, there) ↦
        let taken : t.installed g ≢ none = λ e. cc in
        inl (
          ap (serve_logged o p net t args history)
              (set_up-again t directives false g directives-IsOff taken),
          inl taken,
        )
    | inl fresh ↦
        let (g', log) = logged g fresh in
        elim (listen-cases args g g' fresh log) [
          | inl (fails, why) ↦
              inl (ap (serve_logged o p net t args history) log.0 ∙ rw (fails, serve_logged), why)
          | inr (x, starts, at) ↦
              inr
                (x, ap (serve_logged o p net t args history) log.0 ∙ rw (starts, serve_logged), at)
        ]
  ]

  -- The address in its printed form, to which `x` is bound.
  module _ (name : Text) (a : SocketAddrV4) (more : List Text) (x : net.Listener)
      (reads : from_str (socket_to_string a) ≡ some a) (bound : net.bind a ≡ some x) where
    not-Fails :
        (g : t.Global)
        → t.installed g ≡ none
        → net.local_addr x ≢ none
        → Fails (name ∷ socket_to_string a ∷ more) g
        → ⊥
    not-Fails g fresh known (inl taken) = taken fresh
    not-Fails g fresh known (inr (inl nowhere)) = nowhere a reads
    not-Fails g fresh known (inr (inr (b, asked, inl taken))) =
        let same : b ≡ a = cc in let taken' : net.bind a ≡ none = rw same at taken in cc
    not-Fails g fresh known (inr (inr (b, asked, inr (y, g', bound', log, recorded, nothing)))) =
        let same : b ≡ a = cc in
        let bound'' : net.bind a ≡ some y = rw same at bound' in
        let same_listener : y ≡ x = cc in known (rw same_listener at nothing)

    bound_to :
        (g : t.Global) (y : net.Listener) → Listens (name ∷ socket_to_string a ∷ more) g y → y ≡ x
    bound_to g y (b, g', asked, bound', there, log, readable) =
        let same : b ≡ a = cc in let bound'' : net.bind a ≡ some y = rw same at bound' in cc

  -- Started with an address in its printed form, to which a listener can be bound, `main` serves there,
  -- and after any history of fewer than 2 ^ 64 requests with timestamps in the range of an `i64` the
  -- tallies are the numbers of votes that were counted for each side.
  pub main-counted :
      (name : Text) (a : SocketAddrV4) (more : List Text) (x : net.Listener) (g : t.Global)
      (history : List (HttpRequest o.Body))
      → a.ip < 2 ^ 32
      → a.port < 2 ^ 16
      → net.bind a ≡ some x
      → net.local_addr x ≢ none
      → t.installed g ≡ none
      → All (λ r. IsI64 r.timestamp) history
      → length history < 2 ^ 64
      → (s : AppContext) × (answers : List (Outcome (Response o.Content))) × (main o p net t
            (name ∷ socket_to_string a ∷ more)
            g
            history
          ≡ returned (x, (s, answers)))
        × (s.summer1_votes ≡ counted o p summer1 history)
        × (s.summer2_votes ≡ counted o p summer2 history)
  main-counted name a more x g history fits fits' bound known fresh range few =
      let args : List Text = name ∷ socket_to_string a ∷ more in
      let reads = from_str-socket_to_string a fits fits' in
      elim (main-Listens args g history) [
        | inl (fails, why) ↦ absurd (not-Fails name a more x reads bound g fresh known why)
        | inr (y, starts, at) ↦
            let same : y ≡ x = bound_to name a more x reads bound g y at in
            (
              (respond_all o p history new).0,
              (respond_all o p history new).1,
              starts ∙ ap (λ z. returned (z, respond_all o p history new)) same,
              votes_for-counted o p summer1 history range few,
              votes_for-counted o p summer2 history range few,
            )
      ]

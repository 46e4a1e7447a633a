-- ===== src/Tests/Startup.antt =====
-- The start of both programs, at a concrete command line and history of requests.
use managed_linux_democracy.Prelude.{
  ◌≡◌, ◌≢◌, All, refl, arith, List, [], ◌∷◌, ◌++◌, ◌⊎◌, dev, true, eqb, if◌then◌else◌, Option, none,
  some, Outcome, returned, panicked,
}
use managed_linux_democracy.Prelude.Text.{Text, codes}
use managed_linux_democracy.Logging.{IsWordChar, Settings, Tracing}
use managed_linux_democracy.Ballot.State.{AppContext, new, summer1, summer2}
use managed_linux_democracy.Ballot.Address.{SocketAddrV4, socket_to_string}
use managed_linux_democracy.Ballot.Server.{Response}
use managed_linux_democracy.Ballot.Server.Counts.{counted}
use managed_linux_democracy.Ballot.Server.History.{respond_all}
use managed_linux_democracy.Ballot.Server.Main.{Net, main}
use managed_linux_democracy.Ballot.Server.Serving.{Fails, Listens, main-Listens, main-counted}
use managed_linux_democracy.Tests.Web.{small, visits}

-- A filter is the list of its directives.
abbrev Filter : Type 0
Filter = List Text

abbrev install : Settings Filter → Option (Settings Filter) → Outcome (Option (Settings Filter))
install s none = returned (some s)
install s (some _) = panicked

pub parses :
    (target : Text) → target ≢ [] → All IsWordChar target → some (target ++ codes "=off") ≢ none
parses target named word e = cc

pub refuses :
    (s : Settings Filter) (g : Option (Settings Filter)) → g ≢ none → install s g ≡ panicked
refuses s none taken = absurd (taken refl)
refuses s (some _) taken = refl

abbrev pub tracing : Tracing
tracing = record {
  EnvFilter = Filter;
  Directive = Text;
  Global = Option (Settings Filter);
  from_default_env = [];
  parse = some;
  debug = codes "debug";
  add_directive = λ f d. f ++ d ∷ [];
  init = install;
  installed = λ g. g;
  enabled = λ g. true;
  parse_off = parses;
  init_first = λ s g fresh. (some s, rw fresh, refl);
  init_again = refuses;
}

-- Every address can be bound but port 80.
abbrev bound : SocketAddrV4 → Option SocketAddrV4
bound a = if eqb a.port 80 then none else some a

abbrev net : Net
net = record { Listener = SocketAddrV4; bind = bound; local_addr = some }

abbrev lan : SocketAddrV4
lan = record { ip = 0x0A640778; port = 8080 }

main-counted_example :
    (s : AppContext) × (answers : List (Outcome (Response small.Content))) × (main small dev net
        tracing
        (codes "ballot_box" ∷ socket_to_string lan ∷ [])
        none
        visits
      ≡ returned (lan, (s, answers)))
    × (s.summer1_votes ≡ counted small dev summer1 visits)
    × (s.summer2_votes ≡ counted small dev summer2 visits)
main-counted_example =
    main-counted small dev net tracing (codes "ballot_box") lan [] lan none visits (omega arith)
      (omega arith) refl (λ e. cc) refl (omega arith) (omega arith)

main-Listens_example :
    ((main small dev net tracing (codes "ballot_box" ∷ codes "10.1.2" ∷ []) none visits ≡ panicked)
      × Fails small dev net tracing (codes "ballot_box" ∷ codes "10.1.2" ∷ []) none)
    ⊎ ((x : SocketAddrV4) × (main small dev net tracing
            (codes "ballot_box" ∷ codes "10.1.2" ∷ [])
            none
            visits
          ≡ returned (x, respond_all small dev visits new))
        × Listens small dev net tracing (codes "ballot_box" ∷ codes "10.1.2" ∷ []) none x)
main-Listens_example =
    main-Listens small dev net tracing (codes "ballot_box" ∷ codes "10.1.2" ∷ []) none visits

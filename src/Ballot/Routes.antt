-- ===== src/Ballot/Routes.antt =====
-- ballot_box/src/main.rs: the routes of `main`, and what is relied on of the crate axum, which
-- dispatches a request to one of them.
use managed_linux_democracy.Prelude.{◌≡◌, ◌≢◌, ◌⊎◌, All, [], ◌∷◌, Option, none, some}
use managed_linux_democracy.Prelude.Map.{Map, get}
use managed_linux_democracy.Prelude.Text.{Text, codes, text_eq}

pub data Method : Type 0 where
  get_method head_method post_method other_method : Method

-- `index` is the closure of the route `/`.
pub data Handler : Type 0 where
  system votes vote index static_file : Handler

-- `get(..)`, `post(..)`
pub record MethodRouter : Type 0 where
  pub on_get : Option Handler
  pub on_post : Option Handler

abbrev pub on_get : Handler → MethodRouter
on_get h = record { on_get = some h; on_post = none }

abbrev pub Routes : Type 0
Routes = Map Text MethodRouter

-- The argument of `axum::serve`, in the order of the calls of `route`.
abbrev pub wildcard : Text
wildcard = codes "/*path"

abbrev pub app : Routes
app =
    (codes "/api/system", on_get system)
    ∷ (codes "/api/votes", record { on_get = some votes; on_post = some vote })
    ∷ (codes "/", on_get index)
    ∷ (wildcard, on_get static_file)
    ∷ []

-- The handler of a method, where HEAD is served by GET's.
abbrev pub Offers : MethodRouter → Method → Handler → Type 0
Offers m get_method h = m.on_get ≡ some h
Offers m head_method h = m.on_get ≡ some h
Offers m post_method h = m.on_post ≡ some h
Offers m other_method h = ⊥

-- The request goes to a handler, with what the wildcard stands for, or axum refuses it.
pub data Routed : Type 0 where
  to_handler : Handler → Text → Routed
  refused : Routed

-- A pattern without parameters and wildcards.
abbrev pub IsLiteral : Text → Type 0
IsLiteral p = All (λ c. (c ≢ b'*') × (c ≢ b':')) p

-- At most one pattern is not literal: the wildcard for the whole path.
abbrev pub IsSimple : Routes → Type 0
IsSimple t = All (λ e. (e.0 ≡ wildcard) ⊎ IsLiteral e.0) t

pub record Axum : Type 0 where
  pub route : Routes → Method → Text → Routed
  -- The percent-decoding of the extractor `Path`, which refuses what is no UTF-8.
  pub decoded : Text → Option Text
  -- A request is served by a route that fits its path and offers its method.
  pub route_fits :
      (t : Routes) (m : Method) (path : Text) (h : Handler) (rest : Text)
      → IsSimple t
      → route t m path ≡ to_handler h rest
      → ((r : MethodRouter) × (get path t ≡ some r) × Offers r m h)
        ⊎ ((r : MethodRouter) × (get wildcard t ≡ some r) × Offers r m h × (path ≡ b'/' ∷ rest))
  -- A literal route goes before the wildcard.
  pub route_literal :
      (t : Routes) (m : Method) (path : Text) (r : MethodRouter) (h : Handler)
      → IsSimple t
      → IsLiteral path
      → get path t ≡ some r
      → Offers r m h
      → (rest : Text) × (route t m path ≡ to_handler h rest)
  -- The wildcard stands for one character or more.
  pub route_wildcard :
      (t : Routes) (m : Method) (rest : Text) (r : MethodRouter) (h : Handler)
      → IsSimple t
      → rest ≢ []
      → get (b'/' ∷ rest) t ≡ none
      → get wildcard t ≡ some r
      → Offers r m h
      → route t m (b'/' ∷ rest) ≡ to_handler h rest

-- ===== src/Tests/Router.antt =====
-- A router that looks the path up and then tries the wildcard.
use managed_linux_democracy.Prelude.{
  if◌then◌else◌, eqb, ◌≡◌, ◌≢◌, refl, arith, ◌⊎◌, inl, inr, [], ◌∷◌, Option, none, some,
}
use managed_linux_democracy.Prelude.Map.{get}
use managed_linux_democracy.Prelude.Text.{Text, text_eq}
use managed_linux_democracy.Ballot.Routes.{
  Method, get_method, head_method, post_method, other_method, Handler, Routes, MethodRouter, Routed,
  Offers, IsSimple, IsLiteral, wildcard, to_handler, refused, Axum,
}

abbrev offered : MethodRouter → Method → Option Handler
offered r get_method = r.on_get
offered r head_method = r.on_get
offered r post_method = r.on_post
offered r other_method = none

offered-Offers : (r : MethodRouter) (m : Method) (h : Handler) → offered r m ≡ some h → Offers r m h
offered-Offers r get_method h e = e
offered-Offers r head_method h e = e
offered-Offers r post_method h e = e
offered-Offers r other_method h e = cc

Offers-offered : (r : MethodRouter) (m : Method) (h : Handler) → Offers r m h → offered r m ≡ some h
Offers-offered r get_method h e = e
Offers-offered r head_method h e = e
Offers-offered r post_method h e = e
Offers-offered r other_method h e = absurd e

abbrev to_offered : Option Handler → Text → Routed
to_offered none rest = refused
to_offered (some h) rest = to_handler h rest

abbrev behind_slash : Option MethodRouter → Method → Text → Routed
behind_slash none m path = refused
behind_slash (some r) m [] = refused
behind_slash (some r) m (c ∷ []) = refused
behind_slash (some r) m (c ∷ d ∷ rest) =
    if eqb c b'/' then to_offered (offered r m) (d ∷ rest) else refused

abbrev by_table : Option MethodRouter → Routes → Method → Text → Routed
by_table (some r) t m path = to_offered (offered r m) []
by_table none t m path = behind_slash (get wildcard t) m path

to_offered-some :
    (o : Option Handler) (x rest : Text) (h : Handler)
    → to_offered o x ≡ to_handler h rest
    → (o ≡ some h) × (x ≡ rest)
to_offered-some o x rest h e = ground arith

behind_slash_fits :
    (w : Option MethodRouter) (m : Method) (path rest : Text) (h : Handler)
    → behind_slash w m path ≡ to_handler h rest
    → (r : MethodRouter) × (w ≡ some r) × (offered r m ≡ some h) × (path ≡ b'/' ∷ rest)
behind_slash_fits none m path rest h e = cc
behind_slash_fits (some r) m [] rest h e = cc
behind_slash_fits (some r) m (c ∷ []) rest h e = cc
behind_slash_fits (some r) m (c ∷ d ∷ tail) rest h e = (r, refl, ground arith, ground arith)

abbrev route : Routes → Method → Text → Routed
route t m path = by_table (get path t) t m path

pub route_fits :
    (t : Routes) (m : Method) (path : Text) (h : Handler) (rest : Text)
    → IsSimple t
    → route t m path ≡ to_handler h rest
    → ((r : MethodRouter) × (get path t ≡ some r) × Offers r m h)
      ⊎ ((r : MethodRouter) × (get wildcard t ≡ some r) × Offers r m h × (path ≡ b'/' ∷ rest))
route_fits t m path h rest simple e = go (get path t) refl
  where
    go :
        (o : Option MethodRouter)
        → get path t ≡ o
        → ((r : MethodRouter) × (get path t ≡ some r) × Offers r m h)
          ⊎ ((r : MethodRouter) × (get wildcard t ≡ some r) × Offers r m h × (path ≡ b'/' ∷ rest))
    go none f =
        let missing : behind_slash (get wildcard t) m path ≡ to_handler h rest = rw f at e in
        let (r, found, offers, fits) = behind_slash_fits (get wildcard t) m path rest h missing in
        inr (r, found, offered-Offers r m h offers, fits)
    go (some r) f =
        let here : to_offered (offered r m) [] ≡ to_handler h rest = rw f at e in
        inl (r, f, offered-Offers r m h (to_offered-some (offered r m) [] rest h here).0)

pub route_literal :
    (t : Routes) (m : Method) (path : Text) (r : MethodRouter) (h : Handler)
    → IsSimple t
    → IsLiteral path
    → get path t ≡ some r
    → Offers r m h
    → (rest : Text) × (route t m path ≡ to_handler h rest)
route_literal t m path r h simple literal found offers =
    ([], rw found (rw (Offers-offered r m h offers)))

pub route_wildcard :
    (t : Routes) (m : Method) (rest : Text) (r : MethodRouter) (h : Handler)
    → IsSimple t
    → rest ≢ []
    → get (b'/' ∷ rest) t ≡ none
    → get wildcard t ≡ some r
    → Offers r m h
    → route t m (b'/' ∷ rest) ≡ to_handler h rest
route_wildcard t m [] r h simple ne missing found offers = absurd (ne refl)
route_wildcard t m (c ∷ rest) r h simple ne missing found offers =
    rw missing (rw found (rw (Offers-offered r m h offers)))

abbrev pub router : Axum
router = record {
  route = route;
  decoded = some;
  route_fits = route_fits;
  route_literal = route_literal;
  route_wildcard = route_wildcard;
}

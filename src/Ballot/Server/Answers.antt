-- ===== src/Ballot/Server/Answers.antt =====
-- ballot_box/src/main.rs: which requests change the votes, and what the server answers.
use managed_linux_democracy.Prelude.{
  ◌≡◌, ◌≢◌, refl, sym, ap, ◌∙◌, ◌⊎◌, inl, inr, arith, some, Profile, returned,
}
use managed_linux_democracy.Prelude.Map.{get}
use managed_linux_democracy.Prelude.Text.{Text, codes, text_eq, text_eqb, text_eqb_iff}
use managed_linux_democracy.Ballot.State.{AppContext, too_many_requests, bad_request}
use managed_linux_democracy.Ballot.Handler.{vote_handler, count_vote}
use managed_linux_democracy.Ballot.Routes.{
  Method, post_method, Handler, vote, MethodRouter, app, wildcard, Routed, Offers, IsSimple,
  IsLiteral, to_handler, refused, Axum,
}
use managed_linux_democracy.Ballot.Server.{
  HttpRequest, error_json, rejected, ErrorResponse, into_response, Surroundings, Answer, vote_reply,
  handle, respond,
}

pub app-IsSimple : IsSimple app
app-IsSimple = (inr (omega arith), (inr (omega arith), (inr (omega arith), (inl refl, tt))))

Offers-vote :
    (m : Method) (path : Text) (r : MethodRouter)
    → get path app ≡ some r
    → Offers r m vote
    → (m ≡ post_method) × (path ≡ codes "/api/votes")
unfolding get
Offers-vote m path r found offers = ground (
  arith,
  text_eqb_iff path (codes "/api/system"),
  text_eqb_iff path (codes "/api/votes"),
  text_eqb_iff path (codes "/"),
  text_eqb_iff path wildcard,
)

wildcard_no_vote : (m : Method) (r : MethodRouter) → get wildcard app ≡ some r → Offers r m vote → ⊥
unfolding get text_eqb
wildcard_no_vote m r found offers = ground arith

-- Only a POST of /api/votes is routed to `vote_handler`.
pub routed_vote :
    (a : Axum) (m : Method) (path rest : Text)
    → a.route app m path ≡ to_handler vote rest
    → (m ≡ post_method) × (path ≡ codes "/api/votes")
routed_vote a m path rest h = elim (a.route_fits app m path vote rest app-IsSimple h) [
  | inl (r, found, offers) ↦ Offers-vote m path r found offers
  | inr (r, found, offers, _) ↦ absurd (wildcard_no_vote m r found offers)
]

module _ (o : Surroundings) (p : Profile) where
  -- Any handler but `vote_handler` leaves the state as it is.
  handle_kept :
      (h : Handler) (rest : Text) (r : HttpRequest o.Body) (s : AppContext)
      → h ≢ vote
      → (handle o p h rest r s).0 ≡ s
  unfolding handle
  handle_kept h rest r s other = ground arith

  not_vote :
      (r : HttpRequest o.Body) (h : Handler) (rest : Text)
      → (r.method ≢ post_method) ⊎ (r.path ≢ codes "/api/votes")
      → o.axum.route app r.method r.path ≡ to_handler h rest
      → h ≢ vote
  not_vote r h rest other routed e =
      let (posted, path) =
        routed_vote o.axum r.method r.path rest (routed ∙ ap (λ x. to_handler x rest) e) in
      elim other [ inl ne ↦ ne posted | inr ne ↦ ne path ]

  pub respond-handle :
      (r : HttpRequest o.Body) (s : AppContext) (h : Handler) (rest : Text)
      → o.axum.route app r.method r.path ≡ to_handler h rest
      → respond o p r s ≡ handle o p h rest r s
  unfolding respond
  respond-handle r s h rest e = rw (e, respond)

  respond_refused :
      (r : HttpRequest o.Body) (s : AppContext)
      → o.axum.route app r.method r.path ≡ refused
      → respond o p r s ≡ (s, returned rejected)
  unfolding respond
  respond_refused r s e = rw (e, respond)

  -- Every request but a POST of /api/votes leaves the votes and the limiter as they are.
  pub respond_kept :
      (r : HttpRequest o.Body) (s : AppContext)
      → (r.method ≢ post_method) ⊎ (r.path ≢ codes "/api/votes")
      → (respond o p r s).0 ≡ s
  respond_kept r s other = go (o.axum.route app r.method r.path) refl
    where
      go : (x : Routed) → o.axum.route app r.method r.path ≡ x → (respond o p r s).0 ≡ s
      go refused h = ap (λ t. t.0) (respond_refused r s h)
      go (to_handler h rest) e =
          ap (λ t. t.0) (respond-handle r s h rest e)
          ∙ handle_kept h rest r s (not_vote r h rest other e)

  handle_error :
      (h : Handler) (rest : Text) (r : HttpRequest o.Body) (s s' : AppContext) (e : ErrorResponse)
      → handle o p h rest r s ≡ (s', returned (error_json e))
      → (h ≡ vote)
        × ((e.status ≡ too_many_requests) ⊎ (e.status ≡ bad_request))
        × (s'.summer1_votes ≡ s.summer1_votes)
        × (s'.summer2_votes ≡ s.summer2_votes)
  unfolding handle vote_handler count_vote into_response
  handle_error h rest r s s' e k = ground arith

  rejected_no_error :
      (s s' : AppContext) (e : ErrorResponse)
      → ◌≡◌ {A = Answer o p} (s, returned rejected) (s', returned (error_json e))
      → ⊥
  rejected_no_error s s' e h = cc

  -- An error of the service's own comes from a POST of /api/votes only. It has status 429 or 400, and
  -- no vote is counted with it.
  pub respond-error_json :
      (r : HttpRequest o.Body) (s s' : AppContext) (e : ErrorResponse)
      → respond o p r s ≡ (s', returned (error_json e))
      → (r.method ≡ post_method)
        × (r.path ≡ codes "/api/votes")
        × ((e.status ≡ too_many_requests) ⊎ (e.status ≡ bad_request))
        × (s'.summer1_votes ≡ s.summer1_votes)
        × (s'.summer2_votes ≡ s.summer2_votes)
  respond-error_json r s s' e k = go (o.axum.route app r.method r.path) refl
    where
      go :
          (x : Routed)
          → o.axum.route app r.method r.path ≡ x
          → (r.method ≡ post_method)
            × (r.path ≡ codes "/api/votes")
            × ((e.status ≡ too_many_requests) ⊎ (e.status ≡ bad_request))
            × (s'.summer1_votes ≡ s.summer1_votes)
            × (s'.summer2_votes ≡ s.summer2_votes)
      go refused h = absurd (rejected_no_error s s' e (sym (respond_refused r s h) ∙ k))
      go (to_handler h rest) routed =
          let (voted, status, same1, same2) =
            handle_error h rest r s s' e (sym (respond-handle r s h rest routed) ∙ k) in
          let (posted, path) =
            routed_vote o.axum r.method r.path rest (routed ∙ ap (λ x. to_handler x rest) voted) in
          (posted, path, status, same1, same2)

  pub routed_to :
      (m : Method) (path : Text) (r : MethodRouter) (h : Handler)
      → IsLiteral path
      → get path app ≡ some r
      → Offers r m h
      → (rest : Text) × (o.axum.route app m path ≡ to_handler h rest)
  routed_to m path r h literal found offers =
      o.axum.route_literal app m path r h app-IsSimple literal found offers

  -- A POST of /api/votes whose body is a vote is answered by `vote_handler` for the peer's address, and
  -- its error, if any, by `into_response`.
  pub respond_post :
      (r : HttpRequest o.Body) (s : AppContext) (text : Text)
      → r.method ≡ post_method
      → r.path ≡ codes "/api/votes"
      → o.vote_request r.body ≡ some text
      → respond o p r s
        ≡ vote_reply o p (
            vote_handler o.unicode p (record { ip = r.ip; timestamp = r.timestamp; vote = text }) s)
  unfolding get text_eqb handle
  respond_post r s text posted path body =
      let (rest, e) = routed_to post_method (codes "/api/votes") _ vote (omega arith) refl refl in
      let routed : o.axum.route app r.method r.path ≡ to_handler vote rest = rw (posted, path) e in
      respond-handle r s vote rest routed ∙ rw (body, handle)

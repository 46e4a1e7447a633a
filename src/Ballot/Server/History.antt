-- ===== src/Ballot/Server/History.antt =====
-- ballot_box/src/main.rs: the server over a sequence of HTTP requests, against `vote_handler` over the
-- votes among them.
use managed_linux_democracy.Prelude.{
  ◌≡◌, ◌≢◌, refl, sym, ap, ◌∙◌, ◌⊎◌, inl, inr, arith, List, [], ◌∷◌, Option, none, some,
  Option-cases, if◌then◌else◌, Bool-cases, Profile, Outcome, returned,
}
use managed_linux_democracy.Prelude.Map.{get}
use managed_linux_democracy.Prelude.Text.{Text, codes, text_eq, text_eqb, text_eqb_iff}
use managed_linux_democracy.Ballot.State.{AppContext, Request, Reply}
use managed_linux_democracy.Ballot.Handler.{vote_handler, votes_handler}
use managed_linux_democracy.Ballot.Trace.{serve}
use managed_linux_democracy.Ballot.Routes.{
  Method, get_method, head_method, post_method, other_method, vote, votes, to_handler, app,
}
use managed_linux_democracy.Ballot.Server.{
  HttpRequest, Response, votes_json, rejected, Surroundings, vote_reply, handle, respond,
}
use managed_linux_democracy.Ballot.Server.Answers.{
  respond_kept, respond_post, respond-handle, routed_to,
}

post_or_not : (m : Method) → (m ≡ post_method) ⊎ (m ≢ post_method)
post_or_not post_method = inl refl
post_or_not get_method = inr (λ e. cc)
post_or_not head_method = inr (λ e. cc)
post_or_not other_method = inr (λ e. cc)

module _ (o : Surroundings) (p : Profile) where
  unfoldable pub respond_all :
      List (HttpRequest o.Body) → AppContext → AppContext × List (Outcome (Response o.Content))
  respond_all [] s = (s, [])
  respond_all (r ∷ rs) s =
      let (s', answer) = respond o p r s in
      let (end, answers) = respond_all rs s' in (end, answer ∷ answers)

  -- The vote that a request brings, if it is a POST of /api/votes with a readable body.
  abbrev pub brought : HttpRequest o.Body → Option Text → Option Request
  brought r none = none
  brought r (some text) = some (record { ip = r.ip; timestamp = r.timestamp; vote = text })

  abbrev pub ballot : HttpRequest o.Body → Option Request
  ballot r = elim r.method [
    | post_method ↦
        if text_eqb r.path (codes "/api/votes") then brought r (o.vote_request r.body) else none
    | _ ↦ none
  ]

  abbrev pub onto : Option Request → List Request → List Request
  onto none qs = qs
  onto (some q) qs = q ∷ qs

  unfoldable pub ballots : List (HttpRequest o.Body) → List Request
  ballots [] = []
  ballots (r ∷ rs) = onto (ballot r) (ballots rs)

  state-vote_reply : (x : AppContext × Reply) → (vote_reply o p x).0 ≡ x.0
  state-vote_reply x = ground arith

  -- A POST of /api/votes without a readable body is refused, and counts nothing.
  respond_unreadable :
      (r : HttpRequest o.Body) (s : AppContext)
      → r.method ≡ post_method
      → r.path ≡ codes "/api/votes"
      → o.vote_request r.body ≡ none
      → respond o p r s ≡ (s, returned rejected)
  unfolding get text_eqb handle
  respond_unreadable r s posted path body =
      let (rest, e) =
        routed_to o p post_method (codes "/api/votes") _ vote (omega arith) refl refl in
      let routed : o.axum.route app r.method r.path ≡ to_handler vote rest = rw (posted, path) e in
      respond-handle o p r s vote rest routed ∙ rw (body, handle)

  -- A GET or a HEAD of /api/votes is answered by `votes_handler`.
  pub respond_votes :
      (r : HttpRequest o.Body) (s : AppContext)
      → r.method ≡ get_method
      → r.path ≡ codes "/api/votes"
      → respond o p r s ≡ (s, returned (votes_json (votes_handler s)))
  unfolding get text_eqb handle
  respond_votes r s method path =
      let (rest, e) =
        routed_to o p get_method (codes "/api/votes") _ votes (omega arith) refl refl in
      let routed : o.axum.route app r.method r.path ≡ to_handler votes rest = rw (method, path) e in
      respond-handle o p r s votes rest routed

  ballot-cases :
      (r : HttpRequest o.Body)
      → ((r.method ≡ post_method)
          × (r.path ≡ codes "/api/votes")
          × (ballot r ≡ brought r (o.vote_request r.body)))
        ⊎ (((r.method ≢ post_method) ⊎ (r.path ≢ codes "/api/votes")) × (ballot r ≡ none))
  ballot-cases r = elim (post_or_not r.method) [
    | inr other ↦ inr (inl other, ground arith)
    | inl posted ↦ elim (Bool-cases (text_eqb r.path (codes "/api/votes"))) [
      | inl same ↦ inl (posted, (text_eqb_iff r.path (codes "/api/votes")).0 same, ground arith)
      | inr other ↦
          inr (inr (λ e. ground (arith, text_eqb_iff r.path (codes "/api/votes"))), ground arith)
    ]
  ]

  -- One request does to the votes and the limiter what `vote_handler` does with its vote, if any.
  after_one : Option Request → AppContext → AppContext
  after_one none s = s
  after_one (some q) s = (vote_handler o.unicode p q s).0

  after_brought :
      (r : HttpRequest o.Body) (s : AppContext)
      → r.method ≡ post_method
      → r.path ≡ codes "/api/votes"
      → (respond o p r s).0 ≡ after_one (brought r (o.vote_request r.body)) s
  unfolding after_one
  after_brought r s posted path = elim (Option-cases (o.vote_request r.body)) [
    | inl unreadable ↦
        ap (λ x. x.0) (respond_unreadable r s posted path unreadable)
        ∙ sym (ap (λ b. after_one (brought r b) s) unreadable)
    | inr (text, body) ↦
        ap (λ x. x.0) (respond_post o p r s text posted path body)
        ∙ state-vote_reply _
        ∙ sym (ap (λ b. after_one (brought r b) s) body)
  ]

  respond-ballot :
      (r : HttpRequest o.Body) (s : AppContext) → (respond o p r s).0 ≡ after_one (ballot r) s
  unfolding after_one
  respond-ballot r s = elim (ballot-cases r) [
    | inl (posted, path, own) ↦ after_brought r s posted path ∙ sym (ap (λ b. after_one b s) own)
    | inr (other, nothing) ↦ respond_kept o p r s other ∙ sym (ap (λ b. after_one b s) nothing)
  ]

  serve-onto :
      (b : Option Request) (qs : List Request) (s : AppContext)
      → (serve o.unicode p (onto b qs) s).0 ≡ (serve o.unicode p qs (after_one b s)).0
  unfolding serve after_one
  serve-onto none qs s = refl
  serve-onto (some q) qs s = refl

  -- Over any sequence of HTTP requests the votes and the limiter go through what `vote_handler` makes
  -- of the votes among the requests, in their order: the POSTs of /api/votes with a readable body.
  pub respond_all-serve :
      (rs : List (HttpRequest o.Body)) (s : AppContext)
      → (respond_all rs s).0 ≡ (serve o.unicode p (ballots rs) s).0
  unfolding respond_all ballots serve
  respond_all-serve [] s = refl
  respond_all-serve (r ∷ rs) s =
      respond_all-serve rs (respond o p r s).0
      ∙ ap (λ x. (serve o.unicode p (ballots rs) x).0) (respond-ballot r s)
      ∙ sym (serve-onto (ballot r) (ballots rs) s)

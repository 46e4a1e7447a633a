-- ===== src/Ballot/Server/Tasks/Beginning.antt =====
-- ballot_box/src/main.rs: what becomes of a request when its task begins.
use managed_linux_democracy.Prelude.{
  ◌≡◌, refl, sym, ap, ◌∙◌, arith, ◌⊎◌, inl, inr, Option-cases, some, Profile,
}
use managed_linux_democracy.Prelude.Map.{get}
use managed_linux_democracy.Prelude.Text.{Text, codes, text_eq, text_eqb, text_eqb_iff}
use managed_linux_democracy.Ballot.State.{AppContext, Request}
use managed_linux_democracy.Ballot.Concurrent.{arrived}
use managed_linux_democracy.Ballot.Reading.{asked}
use managed_linux_democracy.Ballot.Routes.{
  Method, post_method, Handler, system, votes, vote, index, static_file, MethodRouter, app,
  wildcard, Routed, Offers, refused, to_handler, Axum,
}
use managed_linux_democracy.Ballot.Server.{HttpRequest, Surroundings, handle, respond}
use managed_linux_democracy.Ballot.Server.Answers.{app-IsSimple, respond-handle, routed_vote}
use managed_linux_democracy.Ballot.Server.Tasks.{casting, asking, done, ServerTask, assign, begin}

-- The handlers that work on the votes.
abbrev IsOfVotes : Handler → Type 0
IsOfVotes h = (h ≡ vote) ⊎ (h ≡ votes)

Offers-votes :
    (m : Method) (h : Handler) (path : Text) (r : MethodRouter)
    → IsOfVotes h
    → get path app ≡ some r
    → Offers r m h
    → path ≡ codes "/api/votes"
unfolding get
Offers-votes m h path r own found offers = ground (
  arith,
  text_eqb_iff path (codes "/api/system"),
  text_eqb_iff path (codes "/api/votes"),
  text_eqb_iff path (codes "/"),
  text_eqb_iff path wildcard,
)

wildcard_no_votes :
    (m : Method) (h : Handler) (r : MethodRouter)
    → IsOfVotes h
    → get wildcard app ≡ some r
    → Offers r m h
    → ⊥
unfolding get text_eqb
wildcard_no_votes m h r own found offers = ground arith

routed_votes :
    (a : Axum) (m : Method) (h : Handler) (path rest : Text)
    → IsOfVotes h
    → a.route app m path ≡ to_handler h rest
    → path ≡ codes "/api/votes"
routed_votes a m h path rest own e = elim (a.route_fits app m path h rest app-IsSimple e) [
  | inl (r, found, offers) ↦ Offers-votes m h path r own found offers
  | inr (r, found, offers, _) ↦ absurd (wildcard_no_votes m h r own found offers)
]

module _ (o : Surroundings) (p : Profile) where
  Assigned : Handler → Text → HttpRequest o.Body → ServerTask o p → Type 0
  Assigned h rest r t =
      ((q : Request) × (t ≡ casting q arrived) × (h ≡ vote))
      ⊎ (((t ≡ asking asked) × (h ≡ votes))
          ⊎ ((s : AppContext) → t ≡ done (handle o p h rest r s).1))

  assign-Assigned :
      (h : Handler) (rest : Text) (r : HttpRequest o.Body) (s : AppContext)
      → Assigned h rest r (assign o p h rest r s)
  unfolding Assigned assign handle
  assign-Assigned system rest r s = inr (inr (λ t. refl))
  assign-Assigned votes rest r s = inr (inl (refl, refl))
  assign-Assigned vote rest r s = elim (Option-cases (o.vote_request r.body)) [
    | inl unreadable ↦ inr (inr (λ t. rw (unreadable, assign, handle) refl))
    | inr (text, body) ↦
        inl
          (record { ip = r.ip; timestamp = r.timestamp; vote = text }, rw (body, assign) refl, refl)
  ]
  assign-Assigned index rest r s = inr (inr (λ t. refl))
  assign-Assigned static_file rest r s = elim (Option-cases (o.axum.decoded rest)) [
    | inl garbled ↦ inr (inr (λ t. rw (garbled, assign, handle) refl))
    | inr (path, decoded) ↦ inr (inr (λ t. rw (decoded, assign, handle) refl))
  ]

  -- A task begins with a vote, for a POST of /api/votes only, or with a question for the tallies, for
  -- this path only, or it has its answer at once, whatever the state.
  abbrev pub Begun : HttpRequest o.Body → ServerTask o p → Type 0
  Begun r t =
      ((q : Request) × (t ≡ casting q arrived)
        × (r.method ≡ post_method)
        × (r.path ≡ codes "/api/votes"))
      ⊎ (((t ≡ asking asked) × (r.path ≡ codes "/api/votes"))
          ⊎ ((s : AppContext) → t ≡ done (respond o p r s).1))

  pub begin-Begun : (r : HttpRequest o.Body) (s : AppContext) → Begun r (begin o p r s)
  unfolding begin respond Assigned
  begin-Begun r s = go (o.axum.route app r.method r.path) refl
    where
      go : (x : Routed) → o.axum.route app r.method r.path ≡ x → Begun r (begin o p r s)
      go refused e = inr (inr (λ t. rw (e, begin, respond) refl))
      go (to_handler h rest) e =
          let begun : begin o p r s ≡ assign o p h rest r s = rw (e, begin) in
          let for_votes = λ (own : IsOfVotes h). routed_votes o.axum r.method h r.path rest own e in
          elim (assign-Assigned h rest r s) [
            | inl (q, casts, own) ↦
                let (posted, path) =
                  routed_vote o.axum r.method r.path rest (e ∙ ap (λ x. to_handler x rest) own) in
                inl (q, begun ∙ casts, posted, path)
            | inr (inl (asks, own)) ↦ inr (inl (begun ∙ asks, for_votes (inr own)))
            | inr (inr same) ↦ inr (
                inr (λ t.
                  begun ∙ same t ∙ ap (λ x. done x.1) (sym (respond-handle o p r t h rest e))))
          ]

-- ===== src/Ballot/Server/Counts.antt =====
-- ballot_box/src/main.rs: the tallies after a history of HTTP requests from the server's start.
use managed_linux_democracy.Prelude.{
  ℕ, ◌+◌, ◌%◌, ◌^◌, ◌≤◌, ◌<◌, ◌≡◌, refl, ap, ◌∙◌, subst, arith, All, List, [], ◌∷◌, Option, none,
  some, length, Profile,
}
use managed_linux_democracy.Prelude.Text.{Unicode}
use managed_linux_democracy.Ballot.State.{
  AppContext, new, PossibleVote, summer1, summer2, Request, Reply,
}
use managed_linux_democracy.Ballot.Handler.{vote_handler}
use managed_linux_democracy.Ballot.Replies.{IsI64, votes_for}
use managed_linux_democracy.Ballot.Trace.{serve, cast_for, total_for, new-IsValid, votes_for-serve}
use managed_linux_democracy.Ballot.Server.{HttpRequest, Surroundings}
use managed_linux_democracy.Ballot.Server.History.{
  respond_all, ballot, onto, ballots, respond_all-serve,
}

none_before : (v : PossibleVote) (n : ℕ) → n < 2 ^ 64 → (votes_for v new + n) % 2 ^ 64 ≡ n
none_before summer1 n fits = omega arith
none_before summer2 n fits = omega arith

module _ (u : Unicode) (p : Profile) where
  cast_for-one : (v : PossibleVote) (x : Request × Reply) → cast_for u v x ≤ 1
  cast_for-one v x = ground arith

  total_for-serve :
      (v : PossibleVote) (qs : List Request) (s : AppContext)
      → total_for u v (serve u p qs s).1 ≤ length qs
  unfolding serve
  total_for-serve v [] s = omega arith
  total_for-serve v (q ∷ qs) s = omega (
    arith,
    cast_for-one v (q, (vote_handler u p q s).1),
    total_for-serve v qs (vote_handler u p q s).0,
  )

module _ (o : Surroundings) (p : Profile) where
  length-onto : (b : Option Request) (qs : List Request) → length (onto o p b qs) ≤ length qs + 1
  length-onto none qs = omega arith
  length-onto (some q) qs = omega arith

  length-ballots : (rs : List (HttpRequest o.Body)) → length (ballots o p rs) ≤ length rs
  unfolding ballots
  length-ballots [] = omega arith
  length-ballots (r ∷ rs) =
      omega (arith, length-onto (ballot o p r) (ballots o p rs), length-ballots rs)

  pub timestamp-ballot :
      (r : HttpRequest o.Body) (q : Request) → ballot o p r ≡ some q → r.timestamp ≡ q.timestamp
  timestamp-ballot r q h = ground arith

  onto-All :
      (P : Request → Type 0) (b : Option Request) (qs : List Request)
      → ((q : Request) → b ≡ some q → P q)
      → All P qs
      → All P (onto o p b qs)
  onto-All P none qs own others = others
  onto-All P (some q) qs own others = (own q refl, others)

  -- What holds of the requests holds of the votes that they bring.
  pub ballots-All :
      (Q : HttpRequest o.Body → Type 0) (P : Request → Type 0)
      → ((r : HttpRequest o.Body) (q : Request) → ballot o p r ≡ some q → Q r → P q)
      → (rs : List (HttpRequest o.Body)) → All Q rs
      → All P (ballots o p rs)
  unfolding ballots
  ballots-All Q P each [] h = tt
  ballots-All Q P each (r ∷ rs) h =
      onto-All P (ballot o p r) (ballots o p rs) (λ q e. each r q e h.0)
        (ballots-All Q P each rs h.1)

  pub ballots-IsI64 :
      (rs : List (HttpRequest o.Body))
      → All (λ r. IsI64 r.timestamp) rs
      → All (λ q. IsI64 q.timestamp) (ballots o p rs)
  ballots-IsI64 rs h =
      ballots-All (λ r. IsI64 r.timestamp) (λ q. IsI64 q.timestamp)
        (λ r q e range. subst IsI64 (timestamp-ballot r q e) range) rs h

  -- The votes that the server has counted for a side over a history from its start.
  abbrev pub counted : PossibleVote → List (HttpRequest o.Body) → ℕ
  counted v rs = total_for o.unicode v (serve o.unicode p (ballots o p rs) new).1

  pub votes_for-counted :
      (v : PossibleVote) (rs : List (HttpRequest o.Body))
      → All (λ r. IsI64 r.timestamp) rs
      → length rs < 2 ^ 64
      → votes_for v (respond_all o p rs new).0 ≡ counted v rs
  votes_for-counted v rs range few =
      let few_votes : counted v rs < 2 ^ 64 =
        omega (arith, total_for-serve o.unicode p v (ballots o p rs) new, length-ballots rs, few) in
      ap (votes_for v) (respond_all-serve o p rs new)
      ∙ votes_for-serve o.unicode p v (ballots o p rs) new (ballots-IsI64 rs range) new-IsValid
      ∙ none_before v (counted v rs) few_votes

-- ===== src/Ballot/Server/Group.antt =====
-- ballot_box/src/main.rs: how many votes a group of addresses has counted over HTTP.
use managed_linux_democracy.Prelude.{
  ℕ, ◌+◌, ◌*◌, ◌-◌, ◌≤◌, ◌<◌, ◌≡◌, refl, ap, subst, arith, as_u64, All, List, [], ◌∷◌, Option, none,
  some, length, Profile,
}
use managed_linux_democracy.Ballot.State.{IpAddr, AppContext, summer1, summer2, Request}
use managed_linux_democracy.Ballot.Replies.{second}
use managed_linux_democracy.Ballot.Trace.{serve, total_for}
use managed_linux_democracy.Ballot.Limits.{Since, Since-mono}
use managed_linux_democracy.Ballot.Electorate.{IsAmong, serve-electorate}
use managed_linux_democracy.Ballot.Server.{HttpRequest, Surroundings}
use managed_linux_democracy.Ballot.Server.History.{ballot, onto, ballots}
use managed_linux_democracy.Ballot.Server.Counts.{ballots-All, timestamp-ballot}

-- The second in which an HTTP request is handled.
abbrev pub handled_at : {Body : Type 0} → HttpRequest Body → ℕ
handled_at r = as_u64 r.timestamp

-- The clock does not go back.
abbrev pub Onward : {Body : Type 0} → ℕ → List (HttpRequest Body) → Type 0
Onward t [] = Unit
Onward t (r ∷ rs) = (t ≤ handled_at r) × Onward (handled_at r) rs

module _ (o : Surroundings) (p : Profile) where
  ip-ballot : (r : HttpRequest o.Body) (q : Request) → ballot o p r ≡ some q → r.ip ≡ q.ip
  ip-ballot r q h = ground arith

  second-ballot :
      (r : HttpRequest o.Body) (q : Request) → ballot o p r ≡ some q → handled_at r ≡ second q
  second-ballot r q h = ap as_u64 (timestamp-ballot o p r q h)

  onto-Since :
      (t now : ℕ) (b : Option Request) (qs : List Request)
      → t ≤ now
      → ((q : Request) → b ≡ some q → now ≡ second q)
      → Since now qs
      → Since t (onto o p b qs)
  onto-Since t now none qs later own since = Since-mono t now qs later since
  onto-Since t now (some q) qs later own since =
      (omega (arith, own q refl), subst (λ n. Since n qs) (own q refl) since)

  ballots-Since : (t : ℕ) (rs : List (HttpRequest o.Body)) → Onward t rs → Since t (ballots o p rs)
  unfolding ballots
  ballots-Since t [] h = tt
  ballots-Since t (r ∷ rs) h =
      onto-Since t (handled_at r) (ballot o p r) (ballots o p rs) h.0 (second-ballot r)
        (ballots-Since (handled_at r) rs h.1)

  -- While the clock does not go back, HTTP requests that come from the addresses of a group, from
  -- second `start` on and before second `end`, have at most as many votes counted, for both sides
  -- together, as there are addresses in the group times `end - start`.
  pub ballots-electorate :
      (group : List IpAddr) (rs : List (HttpRequest o.Body)) (s : AppContext) (start end : ℕ)
      → Onward start rs
      → All (λ r. handled_at r < end) rs
      → All (λ r. IsAmong group r.ip) rs
      → let log = (serve o.unicode p (ballots o p rs) s).1 in
        total_for o.unicode summer1 log + total_for o.unicode summer2 log
        ≤ length group * (end - start)
  ballots-electorate group rs s start end onward below among =
      serve-electorate o.unicode p group (ballots o p rs) s start end
        (ballots-Since start rs onward)
        (ballots-All o p (λ r. handled_at r < end) (λ q. second q < end)
          (λ r q e h. omega (arith, second-ballot r q e, h)) rs below)
        (ballots-All o p (λ r. IsAmong group r.ip) (λ q. IsAmong group q.ip)
          (λ r q e h. subst (IsAmong group) (ip-ballot r q e) h) rs among)

-- ===== src/Ballot/Limits.antt =====
-- ballot_box/src/main.rs: the rate limiter over a sequence of requests.
use managed_linux_democracy.Prelude.{
  ℕ, ◌≤◌, ◌<◌, ◌≡◌, ◌≢◌, ◌⊎◌, ◌∙◌, ap, subst, refl, arith, Bool, true, false, Option, none, some,
  inl, inr, Profile, List, [], ◌∷◌, All, All-imp,
}
use managed_linux_democracy.Prelude.Map.{get}
use managed_linux_democracy.Prelude.Text.{Unicode}
use managed_linux_democracy.Ballot.State.{IpAddr, ip_eq, AppContext, Request}
use managed_linux_democracy.Ballot.Handler.{too_early, vote_handler}
use managed_linux_democracy.Ballot.Verdict.{too_early-false}
use managed_linux_democracy.Ballot.Replies.{
  second, admitted, rate_limiter-vote_handler, vote_handler-limits, vote_handler-panics,
}
use managed_linux_democracy.Ballot.Trace.{Log, serve}

-- The clock does not go back: each request comes in the second of the one before it or later.
abbrev pub Since : ℕ → List Request → Type 0
Since t [] = Unit
Since t (r ∷ rs) = (t ≤ second r) × Since (second r) rs

pub Since-mono : (t t' : ℕ) (rs : List Request) → t ≤ t' → Since t' rs → Since t rs
Since-mono t t' [] h since = tt
Since-mono t t' (r ∷ rs) h since = (omega arith, since.1)

-- Once an address is let through, no later request of it is let through in the same second.
abbrev pub After : IpAddr → ℕ → Log → Type 0
After ip t log = All (λ e. admitted e.1 ≡ true → e.0.ip ≡ ip → t < second e.0) log

abbrev pub Spaced : Log → Type 0
Spaced [] = Unit
Spaced ((r, reply) ∷ log) = (admitted reply ≡ true → After r.ip (second r) log) × Spaced log

module _ (u : Unicode) (p : Profile) where
  admitted-ne :
      (r : Request) (s : AppContext)
      → admitted (vote_handler u p r s).1 ≡ true
      → get r.ip s.rate_limiter ≢ some (second r)
  admitted-ne r s h = go (too_early p (get r.ip s.rate_limiter) (second r)) refl
    where
      go :
          (o : Option Bool)
          → too_early p (get r.ip s.rate_limiter) (second r) ≡ o
          → get r.ip s.rate_limiter ≢ some (second r)
      go none e =
          let f : admitted (vote_handler u p r s).1 ≡ false = rw (vote_handler-panics u p r s e) in
          cc
      go (some true) e =
          let f : admitted (vote_handler u p r s).1 ≡ false = rw (vote_handler-limits u p r s e) in
          cc
      go (some false) e = too_early-false p (get r.ip s.rate_limiter) (second r) e

  admitted-leaves :
      (r : Request) (s : AppContext)
      → admitted (vote_handler u p r s).1 ≡ true
      → get r.ip (vote_handler u p r s).0.rate_limiter ≡ some (second r)
  admitted-leaves r s h =
      ground (arith, rate_limiter-vote_handler u p r s r.ip, ip_eq.same_iff r.ip r.ip)

  -- Either the call let its own address `ip` through, or the limiter's entry of `ip` is as before.
  entry-cases :
      (r : Request) (s : AppContext) (ip : IpAddr)
      → ((admitted (vote_handler u p r s).1 ≡ true) × (r.ip ≡ ip))
        ⊎ (get ip (vote_handler u p r s).0.rate_limiter ≡ get ip s.rate_limiter)
  entry-cases r s ip = ground (arith, rate_limiter-vote_handler u p r s ip, ip_eq.same_iff ip r.ip)

  first-After :
      (r : Request) (s : AppContext) (ip : IpAddr) (last : ℕ)
      → get ip s.rate_limiter ≡ some last
      → last ≤ second r
      → admitted (vote_handler u p r s).1 ≡ true
      → r.ip ≡ ip
      → last < second r
  first-After r s ip last known le passed same =
      let fresh : get ip s.rate_limiter ≢ some (second r) =
        subst (λ x. get x s.rate_limiter ≢ some (second r)) same (admitted-ne r s passed) in
      let apart : last ≢ second r = λ e. fresh (known ∙ ap some e) in omega arith

  serve-After :
      (rs : List Request) (s : AppContext) (ip : IpAddr) (last : ℕ)
      → get ip s.rate_limiter ≡ some last
      → Since last rs
      → After ip last (serve u p rs s).1
  unfolding serve
  serve-After [] s ip last known since = tt
  serve-After (r ∷ rs) s ip last known since = (
    first-After r s ip last known since.0,
    elim (entry-cases r s ip) [
      | inl (passed, same) ↦
          All-imp (λ e later a q. let after : second r < second e.0 = later a q in omega arith) _
            (serve-After rs (vote_handler u p r s).0 ip (second r)
              (subst (λ x. get x (vote_handler u p r s).0.rate_limiter ≡ some (second r)) same
                (admitted-leaves r s passed))
              since.1)
      | inr same ↦
          serve-After rs (vote_handler u p r s).0 ip last (same ∙ known)
            (Since-mono last (second r) rs since.0 since.1)
    ],
  )

  -- While the clock does not go back, the limiter lets each address through at most once a second:
  -- of two admitted requests from one address, the later one comes in a later second.
  pub serve-Spaced :
      (rs : List Request) (s : AppContext) (start : ℕ) → Since start rs → Spaced (serve u p rs s).1
  unfolding serve
  serve-Spaced [] s start since = tt
  serve-Spaced (r ∷ rs) s start since = (
    λ passed.
        serve-After rs (vote_handler u p r s).0 r.ip (second r) (admitted-leaves r s passed)
          since.1,
    serve-Spaced rs (vote_handler u p r s).0 (second r) since.1,
  )

-- ===== src/Ballot/Closing.antt =====
-- ballot_box/src/main.rs: once the limiter has an address's second, it is closed to the calls of that
-- address in that second that come later, however the calls interleave.
use managed_linux_democracy.Prelude.{
  ℕ, zero, suc, ◌≤◌, ◌≡◌, ◌≢◌, ap, ◌∙◌, subst, inl, inr, ◌⊎◌, arith, eqb, Bool-cases, All, List, [],
  ◌∷◌, some, Profile, err, returned,
}
use managed_linux_democracy.Prelude.Map.{get, get-insert}
use managed_linux_democracy.Prelude.Text.{Unicode}
use managed_linux_democracy.Ballot.State.{IpAddr, ip_eq, AppContext, Request, Reply}
use managed_linux_democracy.Ballot.Handler.{limited}
use managed_linux_democracy.Ballot.Replies.{second}
use managed_linux_democracy.Ballot.Concurrent.{
  Pc, arrived, passed, recorded, counted, loaded, finished, Thread, advance, step, interleave,
}
use managed_linux_democracy.Ballot.Interleavings.{too_early_same}
use managed_linux_democracy.Ballot.Finishing.{turns_of}
use managed_linux_democracy.Ballot.Calls.{call_at, call_at-step, call_at-step_other}

-- A call is from another address or handled in this second.
abbrev pub IsInSecond : IpAddr → ℕ → Thread → Type 0
IsInSecond a t (r, _) = (r.ip ≢ a) ⊎ (second r ≡ t)

-- The limiter has this second at the address.
abbrev IsClosed : IpAddr → ℕ → AppContext → Type 0
IsClosed a t s = get a s.rate_limiter ≡ some t

module _ (u : Unicode) (p : Profile) (a : IpAddr) (t : ℕ) where
  advance-IsClosed :
      (r : Request) (pc : Pc) (s : AppContext)
      → IsInSecond a t (r, pc)
      → IsClosed a t s
      → IsClosed a t (advance u p r pc s).1
  unfolding advance
  advance-IsClosed r arrived s h closed = ground arith
  advance-IsClosed r passed s h closed =
      ground (arith, get-insert a r.ip (second r) s.rate_limiter, ip_eq.same_iff a r.ip)
  advance-IsClosed r recorded s h closed = ground arith
  advance-IsClosed r counted s h closed = closed
  advance-IsClosed r (loaded x) s h closed = closed
  advance-IsClosed r (finished reply) s h closed = closed

  step-IsClosed :
      (k : ℕ) (ts : List Thread) (s : AppContext)
      → All (IsInSecond a t) ts
      → IsClosed a t s
      → let (ts', s') = step u p k ts s in All (IsInSecond a t) ts' × IsClosed a t s'
  unfolding step
  step-IsClosed k [] s calls closed = (calls, closed)
  step-IsClosed zero ((r, pc) ∷ ts) s (h, calls) closed =
      ((h, calls), advance-IsClosed r pc s h closed)
  step-IsClosed (suc k) (x ∷ ts) s (h, calls) closed =
      let (calls', closed') = step-IsClosed k ts s calls closed in ((h, calls'), closed')

module _ (u : Unicode) (p : Profile) where
  -- A call that has its reply keeps it.
  step-finished :
      (k j : ℕ) (ts : List Thread) (s : AppContext) (r : Request) (reply : Reply)
      → call_at k ts ≡ some (r, finished reply)
      → call_at k (step u p j ts s).0 ≡ some (r, finished reply)
  unfolding advance
  step-finished k j ts s r reply here = elim (Bool-cases (eqb k j)) [
    | inl own ↦
        let same : k ≡ j = ground arith in
        subst (λ i. call_at k (step u p i ts s).0 ≡ some (r, finished reply)) same
          (call_at-step u p k ts s r (finished reply) here).0
    | inr other ↦ call_at-step_other u p k j ts s (λ e. ground arith) ∙ here
  ]

  pub interleave-finished :
      (k : ℕ) (ks : List ℕ) (ts : List Thread) (s : AppContext) (r : Request) (reply : Reply)
      → call_at k ts ≡ some (r, finished reply)
      → call_at k (interleave u p ks ts s).0 ≡ some (r, finished reply)
  unfolding interleave
  interleave-finished k [] ts s r reply here = here
  interleave-finished k (j ∷ ks) ts s r reply here =
      interleave-finished k ks (step u p j ts s).0 (step u p j ts s).1 r reply
        (step-finished k j ts s r reply here)

  advance-limited :
      (r : Request) (s : AppContext)
      → IsClosed r.ip (second r) s
      → (advance u p r arrived s).0 ≡ finished (returned (err limited))
  unfolding advance
  advance-limited r s closed = ground (arith, too_early_same p (second r))

  -- Where the limiter has the second of a call's address, and all calls from this address are handled
  -- in that second, a call that has not yet read the limiter is refused with 429 in its next turn,
  -- in any interleaving.
  pub interleave-limited :
      (k : ℕ) (ks : List ℕ) (ts : List Thread) (s : AppContext) (r : Request)
      → All (IsInSecond r.ip (second r)) ts
      → get r.ip s.rate_limiter ≡ some (second r)
      → call_at k ts ≡ some (r, arrived)
      → 1 ≤ turns_of k ks
      → call_at k (interleave u p ks ts s).0 ≡ some (r, finished (returned (err limited)))
  unfolding interleave
  interleave-limited k [] ts s r calls closed here enough = absurd (omega arith)
  interleave-limited k (j ∷ ks) ts s r calls closed here enough = elim (Bool-cases (eqb k j)) [
    | inl own ↦
        let same : k ≡ j = ground arith in
        let (there, state) = call_at-step u p k ts s r arrived here in
        interleave-finished k ks (step u p j ts s).0 (step u p j ts s).1 r (returned (err limited))
          (subst (λ i. call_at k (step u p i ts s).0 ≡ some (r, finished (returned (err limited))))
            same (there ∙ ap (λ pc. some (r, pc)) (advance-limited r s closed)))
    | inr other ↦
        let (calls', closed') = step-IsClosed u p r.ip (second r) j ts s calls closed in
        interleave-limited k ks (step u p j ts s).0 (step u p j ts s).1 r calls' closed'
          (call_at-step_other u p k j ts s (λ e. ground arith) ∙ here) (ground arith)
  ]

-- ===== src/Ballot/Quota.antt =====
-- ballot_box/src/main.rs: how often the rate limiter lets one address through in a span of time.
use managed_linux_democracy.Prelude.{
  ℕ, suc, ◌+◌, ◌-◌, ◌≤◌, ◌<◌, ◌≡◌, subst, arith, if◌then◌else◌, ◌==◌, ◌&&◌, true, Bool-cases, inl,
  inr, Profile, List, [], ◌∷◌, All, All-imp,
}
use managed_linux_democracy.Prelude.Text.{Unicode}
use managed_linux_democracy.Ballot.State.{IpAddr, ip_eq, AppContext, Request, Reply}
use managed_linux_democracy.Ballot.Handler.{vote_handler}
use managed_linux_democracy.Ballot.Replies.{second, admitted}
use managed_linux_democracy.Ballot.Trace.{Log, serve}
use managed_linux_democracy.Ballot.Limits.{Since, Since-mono, After, Spaced, serve-Spaced}

-- How many requests of an address were let through.
abbrev pub admissions : IpAddr → Log → ℕ
admissions ip [] = 0
admissions ip ((r, reply) ∷ log) =
    (if admitted reply && r.ip == ip then 1 else 0) + admissions ip log

-- The seconds in which requests of an address were let through, in their order.
abbrev pub seconds_of : IpAddr → Log → List ℕ
seconds_of ip [] = []
seconds_of ip ((r, reply) ∷ log) =
    if admitted reply && r.ip == ip then second r ∷ seconds_of ip log else seconds_of ip log

abbrev pub Increasing : List ℕ → Type 0
Increasing [] = Unit
Increasing (t ∷ ts) = All (λ x. t < x) ts × Increasing ts

-- The admitted requests of an address come in second `low` or later.
abbrev From : IpAddr → ℕ → Log → Type 0
From ip low log = All (λ e. admitted e.1 ≡ true → e.0.ip ≡ ip → low ≤ second e.0) log

After-From : (ip : IpAddr) (t : ℕ) (log : Log) → After ip t log → From ip (suc t) log
After-From ip t [] h = tt
After-From ip t (e ∷ log) h = (λ passed own. omega (arith, h.0 passed own), After-From ip t log h.1)

both :
    (r : Request) (reply : Reply) (ip : IpAddr)
    → (admitted reply && r.ip == ip) ≡ true
    → (admitted reply ≡ true) × (r.ip ≡ ip)
both r reply ip h = ground (arith, ip_eq.same_iff r.ip ip)

seconds_of-above :
    (ip : IpAddr) (low : ℕ) (log : Log) → From ip low log → All (λ x. low ≤ x) (seconds_of ip log)
seconds_of-above ip low [] above = tt
seconds_of-above ip low ((r, reply) ∷ log) above =
    elim (Bool-cases (admitted reply && r.ip == ip)) [
      | inl passed ↦
          let (let_through, own) = both r reply ip passed in
          rw passed (above.0 let_through own, seconds_of-above ip low log above.1)
      | inr other ↦ rw other (seconds_of-above ip low log above.1)
    ]

seconds_of-Increasing : (ip : IpAddr) (log : Log) → Spaced log → Increasing (seconds_of ip log)
seconds_of-Increasing ip [] spaced = tt
seconds_of-Increasing ip ((r, reply) ∷ log) spaced =
    elim (Bool-cases (admitted reply && r.ip == ip)) [
      | inl passed ↦
          let (let_through, own) = both r reply ip passed in
          let after : After ip (second r) log =
            subst (λ a. After a (second r) log) own (spaced.0 let_through) in
          rw passed (
            seconds_of-above ip (suc (second r)) log (After-From ip (second r) log after),
            seconds_of-Increasing ip log spaced.1,
          )
      | inr other ↦ rw other (seconds_of-Increasing ip log spaced.1)
    ]

admissions_le :
    (ip : IpAddr) (low end : ℕ) (log : Log)
    → Spaced log
    → From ip low log
    → All (λ e. second e.0 < end) log
    → admissions ip log ≤ end - low
admissions_le ip low end [] spaced above below = omega arith
admissions_le ip low end ((r, reply) ∷ log) spaced above below =
    elim (Bool-cases (admitted reply && r.ip == ip)) [
      | inl passed ↦
          let (let_through, own) = both r reply ip passed in
          let after : After ip (second r) log =
            subst (λ a. After a (second r) log) own (spaced.0 let_through) in
          rw passed (
            omega (
              arith,
              admissions_le ip (suc (second r)) end log spaced.1
                  (After-From ip (second r) log after) below.1,
              above.0 let_through own,
              below.0,
            ))
      | inr other ↦ rw other (omega (arith, admissions_le ip low end log spaced.1 above.1 below.1))
    ]

Since-All : (start : ℕ) (rs : List Request) → Since start rs → All (λ r. start ≤ second r) rs
Since-All start [] h = tt
Since-All start (r ∷ rs) h = (h.0, Since-All start rs (Since-mono start (second r) rs h.0 h.1))

module _ (u : Unicode) (p : Profile) where
  -- The entries of the log are the requests.
  pub serve-All :
      (P : Request → Type 0) (rs : List Request) (s : AppContext)
      → All P rs
      → All (λ e. P e.0) (serve u p rs s).1
  unfolding serve
  serve-All P [] s h = tt
  serve-All P (r ∷ rs) s h = (h.0, serve-All P rs (vote_handler u p r s).0 h.1)

  serve-From :
      (ip : IpAddr) (start : ℕ) (rs : List Request) (s : AppContext)
      → Since start rs
      → From ip start (serve u p rs s).1
  serve-From ip start rs s since =
      All-imp (λ e h passed own. h) (serve u p rs s).1 (serve-All _ rs s (Since-All start rs since))

  -- While the clock does not go back, of the requests that come from second `start` on and before
  -- second `end`, the limiter lets at most `end - start` from each address through.
  pub serve-admissions :
      (ip : IpAddr) (rs : List Request) (s : AppContext) (start end : ℕ)
      → Since start rs
      → All (λ r. second r < end) rs
      → admissions ip (serve u p rs s).1 ≤ end - start
  serve-admissions ip rs s start end since below =
      admissions_le ip start end (serve u p rs s).1 (serve-Spaced u p rs s start since)
        (serve-From ip start rs s since) (serve-All _ rs s below)

  -- While the clock does not go back, the limiter lets each address through at most once a second:
  -- the seconds in which it does increase strictly.
  pub serve-Increasing :
      (ip : IpAddr) (rs : List Request) (s : AppContext) (start : ℕ)
      → Since start rs
      → Increasing (seconds_of ip (serve u p rs s).1)
  serve-Increasing ip rs s start since =
      seconds_of-Increasing ip (serve u p rs s).1 (serve-Spaced u p rs s start since)

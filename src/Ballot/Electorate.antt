-- ===== src/Ballot/Electorate.antt =====
-- ballot_box/src/main.rs: how many votes the rate limiter lets a group of addresses cast.
use native.Mathlib.Nat.{suc-mul}
use managed_linux_democracy.Prelude.{
  ℕ, ◌+◌, ◌*◌, ◌-◌, ◌≤◌, ◌<◌, ◌≡◌, ◌⊎◌, arith, if◌then◌else◌, ◌==◌, ◌&&◌, inl, inr, Profile, List,
  [], ◌∷◌, All, length,
}
use managed_linux_democracy.Prelude.Text.{Unicode}
use managed_linux_democracy.Ballot.State.{
  IpAddr, ip_eq, AppContext, summer1, summer2, Request, Reply,
}
use managed_linux_democracy.Ballot.Replies.{second, admitted}
use managed_linux_democracy.Ballot.Trace.{Log, serve, cast_for, total_for}
use managed_linux_democracy.Ballot.Limits.{Since}
use managed_linux_democracy.Ballot.Quota.{admissions, serve-All, serve-admissions}

abbrev pub IsAmong : List IpAddr → IpAddr → Type 0
IsAmong [] ip = ⊥
IsAmong (a ∷ group) ip = (ip ≡ a) ⊎ IsAmong group ip

-- The admitted requests of each address of a group, all in all.
abbrev total_admissions : List IpAddr → Log → ℕ
total_admissions [] log = 0
total_admissions (a ∷ group) log = admissions a log + total_admissions group log

-- What one entry of the log adds to them.
abbrev entry_admissions : List IpAddr → Request × Reply → ℕ
entry_admissions [] e = 0
entry_admissions (a ∷ group) (r, reply) =
    (if admitted reply && r.ip == a then 1 else 0) + entry_admissions group (r, reply)

total_admissions-nil : (group : List IpAddr) → total_admissions group [] ≡ 0
total_admissions-nil [] = omega arith
total_admissions-nil (a ∷ group) = omega (arith, total_admissions-nil group)

total_admissions-cons :
    (group : List IpAddr) (r : Request) (reply : Reply) (log : Log)
    → total_admissions group ((r, reply) ∷ log)
      ≡ entry_admissions group (r, reply) + total_admissions group log
total_admissions-cons [] r reply log = omega arith
total_admissions-cons (a ∷ group) r reply log =
    omega (arith, total_admissions-cons group r reply log)

-- An admitted request of the group is one of them.
entry_admissions-ge :
    (group : List IpAddr) (r : Request) (reply : Reply)
    → IsAmong group r.ip
    → (if admitted reply then 1 else 0) ≤ entry_admissions group (r, reply)
entry_admissions-ge [] r reply among = absurd among
entry_admissions-ge (a ∷ group) r reply (inl own) = ground (arith, ip_eq.same_iff r.ip a)
entry_admissions-ge (a ∷ group) r reply (inr other) =
    omega (arith, entry_admissions-ge group r reply other)

module _ (u : Unicode) where
  cast_for-admitted :
      (r : Request) (reply : Reply)
      → cast_for u summer1 (r, reply) + cast_for u summer2 (r, reply)
        ≤ (if admitted reply then 1 else 0)
  cast_for-admitted r reply = ground arith

  -- A counted vote was let through.
  total_for-admissions :
      (group : List IpAddr) (log : Log)
      → All (λ e. IsAmong group e.0.ip) log
      → total_for u summer1 log + total_for u summer2 log ≤ total_admissions group log
  total_for-admissions group [] among = omega (arith, total_admissions-nil group)
  total_for-admissions group ((r, reply) ∷ log) among = omega (
    arith,
    cast_for-admitted r reply,
    entry_admissions-ge group r reply among.0,
    total_admissions-cons group r reply log,
    total_for-admissions group log among.1,
  )

module _ (u : Unicode) (p : Profile) where
  total_admissions_le :
      (group : List IpAddr) (rs : List Request) (s : AppContext) (start end : ℕ)
      → Since start rs
      → All (λ r. second r < end) rs
      → total_admissions group (serve u p rs s).1 ≤ length group * (end - start)
  total_admissions_le [] rs s start end since below = omega arith
  total_admissions_le (a ∷ group) rs s start end since below = omega (
    arith,
    suc-mul (length group) (end - start),
    serve-admissions u p a rs s start end since below,
    total_admissions_le group rs s start end since below,
  )

  -- While the clock does not go back, requests that are handled one after another, none before the
  -- last one is done, and that come from the addresses of a group, from second `start` on and before
  -- second `end`, have at most as many votes counted, for both sides together, as there are addresses
  -- in the group times `end - start`.
  pub serve-electorate :
      (group : List IpAddr) (rs : List Request) (s : AppContext) (start end : ℕ)
      → Since start rs
      → All (λ r. second r < end) rs
      → All (λ r. IsAmong group r.ip) rs
      → let log = (serve u p rs s).1 in
        total_for u summer1 log + total_for u summer2 log ≤ length group * (end - start)
  serve-electorate group rs s start end since below among = omega (
    arith,
    total_for-admissions u group (serve u p rs s).1 (serve-All u p _ rs s among),
    total_admissions_le group rs s start end since below,
  )

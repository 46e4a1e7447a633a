-- ===== src/Ballot/Verdict.antt =====
-- ballot_box/src/main.rs: what the rate limiter's comparison of two seconds comes to.
use managed_linux_democracy.Prelude.{
  ℕ, ◌^◌, ◌<◌, ◌≡◌, ◌≢◌, refl, arith, true, false, Option, none, some, Profile, dev, release,
}
use managed_linux_democracy.Ballot.Handler.{too_early}

-- The limiter's verdict: it stops a request in the second of the last one, and panics at an earlier
-- one if overflow is checked.
pub too_early-true :
    (p : Profile) (o : Option ℕ) (now : ℕ)
    → ((t : ℕ) → o ≡ some t → t < 2 ^ 64)
    → too_early p o now ≡ some true
    → o ≡ some now
too_early-true p none now fits h = cc
too_early-true dev (some t) now fits h = ground (arith, fits t refl)
too_early-true release (some t) now fits h = ground (arith, fits t refl)

pub too_early-none :
    (p : Profile) (o : Option ℕ) (now : ℕ)
    → too_early p o now ≡ none
    → (p ≡ dev) × ((last : ℕ) × (o ≡ some last) × (now < last))
too_early-none p none now h = cc
too_early-none dev (some t) now h = (refl, (t, refl, ground arith))
too_early-none release (some t) now h = ground arith

pub too_early-false :
    (p : Profile) (o : Option ℕ) (now : ℕ) → too_early p o now ≡ some false → o ≢ some now
too_early-false p none now h e = cc
too_early-false dev (some t) now h e = ground arith
too_early-false release (some t) now h e = ground arith

-- Where overflow is checked, a request that is let through comes later than the last one.
pub too_early-later :
    (p : Profile) (o : Option ℕ) (last now : ℕ)
    → p ≡ dev
    → o ≡ some last
    → too_early p o now ≡ some false
    → last < now
too_early-later dev none last now build known h = absurd (cc)
too_early-later dev (some t) last now build known h = let same : t ≡ last = cc in ground arith
too_early-later release o last now build known h = absurd (cc)

-- ===== src/Ballot/Finishing.antt =====
-- ballot_box/src/main.rs: no call of `vote_handler` waits for another.
use managed_linux_democracy.Prelude.{
  ℕ, zero, suc, ◌+◌, ◌-◌, ◌≤◌, ◌≡◌, ◌≢◌, refl, subst, arith, eqb, if◌then◌else◌, true, false,
  Bool-cases, ◌⊎◌, inl, inr, Profile, List, [], ◌∷◌,
}
use managed_linux_democracy.Prelude.Text.{Unicode}
use managed_linux_democracy.Ballot.State.{AppContext, Request}
use managed_linux_democracy.Ballot.Concurrent.{
  Pc, arrived, passed, recorded, counted, loaded, finished, Thread, advance, step, interleave,
}

-- The steps that a call needs at most before it has its reply.
abbrev pub remaining : Pc → ℕ
remaining arrived = 5
remaining passed = 4
remaining recorded = 3
remaining counted = 2
remaining (loaded _) = 1
remaining (finished _) = 0

-- Those of the call with the given number, 0 if there is none.
abbrev pub remaining_at : ℕ → List Thread → ℕ
remaining_at k [] = 0
remaining_at zero ((r, pc) ∷ ts) = remaining pc
remaining_at (suc k) (t ∷ ts) = remaining_at k ts

-- How often a call has its turn in an order of steps.
abbrev pub turns_of : ℕ → List ℕ → ℕ
turns_of k [] = 0
turns_of k (j ∷ ks) = (if eqb k j then 1 else 0) + turns_of k ks

module _ (u : Unicode) (p : Profile) where
  pub remaining-advance :
      (r : Request) (pc : Pc) (s : AppContext) → remaining (advance u p r pc s).0 ≤ remaining pc - 1
  unfolding advance
  remaining-advance r pc s = ground arith

  remaining-step :
      (k : ℕ) (ts : List Thread) (s : AppContext)
      → remaining_at k (step u p k ts s).0 ≤ remaining_at k ts - 1
  unfolding step
  remaining-step k [] s = omega arith
  remaining-step zero ((r, pc) ∷ ts) s = remaining-advance r pc s
  remaining-step (suc k) (t ∷ ts) s = remaining-step k ts s

  remaining-step_other :
      (k j : ℕ) (ts : List Thread) (s : AppContext)
      → k ≢ j
      → remaining_at k (step u p j ts s).0 ≡ remaining_at k ts
  unfolding step
  remaining-step_other k j [] s other = refl
  remaining-step_other zero zero (t ∷ ts) s other = absurd (other refl)
  remaining-step_other zero (suc j) ((r, pc) ∷ ts) s other = refl
  remaining-step_other (suc k) zero ((r, pc) ∷ ts) s other = refl
  remaining-step_other (suc k) (suc j) (t ∷ ts) s other =
      remaining-step_other k j ts s (λ e. other (omega arith))

  -- If a call has its turn as often as it has steps left, it has its reply in the end, whatever the
  -- other calls do in between: none waits for another.
  pub interleave-finishes :
      (k : ℕ) (ks : List ℕ) (ts : List Thread) (s : AppContext)
      → remaining_at k ts ≤ turns_of k ks
      → remaining_at k (interleave u p ks ts s).0 ≡ 0
  unfolding interleave
  interleave-finishes k [] ts s enough = omega arith
  interleave-finishes k (j ∷ ks) ts s enough =
      interleave-finishes k ks (step u p j ts s).0 (step u p j ts s).1 (less (Bool-cases (eqb k j)))
    where
      less :
          ((eqb k j ≡ true) ⊎ (eqb k j ≡ false))
          → remaining_at k (step u p j ts s).0 ≤ turns_of k ks
      less (inl own) =
          let same : k ≡ j = ground arith in
          subst (λ i. remaining_at k (step u p i ts s).0 ≤ turns_of k ks) same
            (ground (arith, remaining-step k ts s))
      less (inr other) = ground (arith, remaining-step_other k j ts s)

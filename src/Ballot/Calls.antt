-- ===== src/Ballot/Calls.antt =====
-- ballot_box/src/main.rs: one of the calls of `vote_handler` that run at once, by its number.
use managed_linux_democracy.Prelude.{
  ℕ, zero, suc, ◌≡◌, ◌≢◌, refl, arith, List, [], ◌∷◌, Option, none, some, Profile,
}
use managed_linux_democracy.Prelude.Text.{Unicode}
use managed_linux_democracy.Ballot.State.{AppContext, Request}
use managed_linux_democracy.Ballot.Concurrent.{Pc, Thread, advance, step}

-- The call with the given number.
abbrev pub call_at : ℕ → List Thread → Option Thread
call_at k [] = none
call_at zero (t ∷ ts) = some t
call_at (suc k) (t ∷ ts) = call_at k ts

module _ (u : Unicode) (p : Profile) where
  pub call_at-step :
      (k : ℕ) (ts : List Thread) (s : AppContext) (r : Request) (pc : Pc)
      → call_at k ts ≡ some (r, pc)
      → (call_at k (step u p k ts s).0 ≡ some (r, (advance u p r pc s).0))
        × ((step u p k ts s).1 ≡ (advance u p r pc s).1)
  unfolding step
  call_at-step k [] s r pc h = absurd (cc)
  call_at-step zero ((q, pc') ∷ ts) s r pc h =
      let requests : q ≡ r = ground arith in
      let counters : pc' ≡ pc = ground arith in (rw (requests, counters), rw (requests, counters))
  call_at-step (suc k) (t ∷ ts) s r pc h = call_at-step k ts s r pc h

  pub call_at-step_other :
      (k j : ℕ) (ts : List Thread) (s : AppContext)
      → k ≢ j
      → call_at k (step u p j ts s).0 ≡ call_at k ts
  unfolding step
  call_at-step_other k j [] s other = refl
  call_at-step_other zero zero (t ∷ ts) s other = absurd (other refl)
  call_at-step_other zero (suc j) ((r, pc) ∷ ts) s other = refl
  call_at-step_other (suc k) zero ((r, pc) ∷ ts) s other = refl
  call_at-step_other (suc k) (suc j) (t ∷ ts) s other =
      call_at-step_other k j ts s (λ e. other (omega arith))
